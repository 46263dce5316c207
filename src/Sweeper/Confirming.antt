-- ===== src/Sweeper/Confirming.antt =====
-- pkg/sweeper/confirm.go: phase 2, the re-reading of the candidates whose window has passed.
use driftwatch.Base.{
  ℕ, suc, ◌+◌, Bool, true, false, not, Option, none, some, List, [], ◌∷◌, ◌++◌, ltb, leb, ◌==◌,
  if◌then◌else◌, Str, length,
}
use driftwatch.Event.Members.{has, put, take_out}
use driftwatch.Differ.{Finding, Options, compare_key, compare_unreadable}
use driftwatch.Oracle.Entry.{Entry, is_suspect}
use driftwatch.Oracle.Suspicion.{Oracle, version, get}
use driftwatch.Target
use driftwatch.Target.{Health, Read}
use driftwatch.Sweeper.{Sweeper, Candidate, Config, due_at, mark_requeued, confirm}

-- The candidates that wait on, and those that are due, both in their order.
unfoldable pub split_due : ℕ → List Candidate → List Candidate × List Candidate
unfolding due_at
split_due now [] = ([], [])
split_due now (c ∷ cs) =
    let (keep, due) = split_due now cs in
    if ltb now (due_at c) then (c ∷ keep, due) else (keep, c ∷ due)

abbrev pub without_all : List Candidate → List Str → List Str
without_all [] keys = keys
without_all (c ∷ cs) keys = without_all cs (take_out c.finding.key keys)

unfoldable pub take_due : ℕ → Sweeper → List Candidate × Sweeper
unfolding split_due
take_due now s =
    let (keep, due) = split_due now s.queue in
    (due, record s { queue = keep; queued = without_all due s.queued })

-- The body of the loop of requeueAll.
unfoldable pub requeue_one : Config → Candidate → Sweeper → Sweeper
requeue_one cfg c s =
    if has c.finding.key s.queued
    then s
    else if leb cfg.max_confirm_queue (length s.queue)
    then record s { c = record s.c { confirm_queue_dropped = s.c.confirm_queue_dropped + 1 } }
    else record s { queue = s.queue ++ (c ∷ []); queued = put c.finding.key s.queued }

unfoldable pub requeue_all : Config → List Candidate → Sweeper → Sweeper
unfolding requeue_one
requeue_all cfg [] s = s
requeue_all cfg (c ∷ cs) s = requeue_all cfg cs (requeue_one cfg c s)

-- What one confirmation meets: the oracle at the first reading of the version, the answer of the
-- store, and the oracle and the clock at the reading of the entry. The oracle may move in between.
pub record Look : Type 0 where
  pub before : Oracle
  pub read : Read
  pub after : Oracle
  pub clock : ℕ

abbrev advanced : Str → Sweeper → Sweeper
advanced key s =
    mark_requeued key (record s {
      c = record s.c { transient_oracle_advanced = s.c.transient_oracle_advanced + 1 };
    })

-- The finding that a confirmation makes of the entry and the answer of the store; for an error of
-- another kind it makes none.
unfoldable pub re_compare : Str → Entry → Read → Options → Option Finding
re_compare key e (Target.value tv) opts = compare_key key e tv opts
re_compare key e (Target.wrong_type got) opts = some (compare_unreadable key e got opts)
re_compare key e Target.failed opts = none

-- The end of confirmOne, on the finding of the re-reading.
unfoldable pub decide : Candidate → ℕ → Option Finding → Sweeper → Sweeper
decide c now none s = record s {
  c = record s.c { transient_resolved = s.c.transient_resolved + 1 };
}
decide c now (some f) s =
    confirm c.finding.key
      (record {
        key = c.finding.key;
        finding = record f { confirmed = true; first_seen_at = c.seen_at };
        first_seen_at = c.seen_at;
        confirmed_at = now;
        window = c.window;
      })
      s

-- confirmOne from the second look at the oracle on.
unfoldable pub judge : Config → Look → ℕ → Candidate → Sweeper → Sweeper
unfolding mark_requeued re_compare decide
judge cfg look now c s =
    let key = c.finding.key in
    elim (get look.after key look.clock) [
      | none ↦ advanced key s
      | some e ↦
          if not (e.version == c.version)
          then advanced key s
          else if is_suspect e.trust
          then record s { c = record s.c { suspect_not_confirmed = s.c.suspect_not_confirmed + 1 } }
          else decide c now (re_compare key e look.read (record cfg.differ_options { now = now })) s
    ]

abbrev pub is_failed : Read → Bool
is_failed (Target.value tv) = false
is_failed (Target.wrong_type got) = false
is_failed Target.failed = true

unfoldable pub confirm_one : Config → Look → ℕ → Candidate → Sweeper → Sweeper
unfolding judge mark_requeued
confirm_one cfg look now c s =
    let key = c.finding.key in
    elim (version look.before key) [
      | none ↦ record s { c = record s.c { transient_key_evicted = s.c.transient_key_evicted + 1 } }
      | some v ↦
          if not (v == c.version)
          then advanced key s
          else if is_failed look.read
          then mark_requeued key
              (record s { c = record s.c { confirm_read_failed = s.c.confirm_read_failed + 1 } })
          else judge cfg look now c s
    ]

-- The loop of ConfirmDue, with what each confirmation meets; the context is cancelled when the looks
-- come to their end. The number is that of the candidates decided.
unfoldable pub confirm_loop : Config → ℕ → List Look → List Candidate → Sweeper → ℕ × Sweeper
unfolding requeue_all confirm_one
confirm_loop cfg now looks [] s = (0, s)
confirm_loop cfg now [] (c ∷ cs) s = (0, requeue_all cfg (c ∷ cs) s)
confirm_loop cfg now (look ∷ looks) (c ∷ cs) s =
    let (decided, s') = confirm_loop cfg now looks cs (confirm_one cfg look now c s) in
    (suc decided, s')

abbrev pub is_reachable : Option Health → Bool
is_reachable none = false
is_reachable (some h) = h.reachable

abbrev unavailable : Sweeper → Sweeper
unavailable s = record s { c = record s.c { target_unavailable = s.c.target_unavailable + 1 } }

-- `health` is the answer of the store, `none` an error.
unfoldable pub confirm_due : Config → Option Health → ℕ → List Look → Sweeper → ℕ × Sweeper
unfolding take_due requeue_all confirm_loop
confirm_due cfg health now looks s =
    let (due, s') = take_due now s in
    if s.closed
    then (0, s)
    else if length due == 0
    then (0, s')
    else if not (is_reachable health)
    then (0, unavailable (requeue_all cfg due s'))
    else confirm_loop cfg now looks due
        (record s' { c = record s'.c { confirm_cycles = s'.c.confirm_cycles + 1 } })
