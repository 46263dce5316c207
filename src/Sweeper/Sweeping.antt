-- ===== src/Sweeper/Sweeping.antt =====
-- pkg/sweeper/sweeper.go: phase 1, the walk over the settled keys, and the health check before it.
use driftwatch.Base.{
  ℕ, ◌+◌, true, not, ◌&&◌, Option, none, some, List, [], ◌∷◌, ◌==◌, if◌then◌else◌, Str, str_eq,
  bytes,
}
use driftwatch.Differ.{Finding, Options, compare_key, compare_unreadable}
use driftwatch.Differ.Report.{Report, add}
use driftwatch.Oracle.Entry.{Entry, is_suspect}
use driftwatch.Oracle.Suspicion.{version, get}
use driftwatch.Target
use driftwatch.Target.{Health, Read}
use driftwatch.Sweeper.{Sweeper, Config, enqueue, mark_requeued, episode, refresh, resolve}
use driftwatch.Sweeper.Confirming.{Look}

pub data HealthError : Type 0 where
  unavailable not_primary : HealthError

abbrev count_unavailable : Sweeper → Sweeper
count_unavailable s = record s {
  c = record s.c { target_unavailable = s.c.target_unavailable + 1 };
}

-- checkHealth, but for the cancellation of its context: `none` is no error.
unfoldable pub check_health : Config → Option Health → Sweeper → Sweeper × Option HealthError
check_health cfg none s = (count_unavailable s, some unavailable)
check_health cfg (some h) s =
    if not h.reachable
    then (count_unavailable s, some unavailable)
    else if cfg.require_primary && not (str_eq h.role (bytes "master"))
    then (s, some not_primary)
    else (s, none)

-- compareRead: `none` is an error that is no finding.
unfoldable pub compare_read : Str → Entry → Read → Options → Option (Option Finding)
compare_read key e (Target.value tv) opts = some (compare_key key e tv opts)
compare_read key e (Target.wrong_type got) opts = some (some (compare_unreadable key e got opts))
compare_read key e Target.failed opts = none

-- A finding is added to the report as it stands after the changes here. The code holds the lock for
-- episode, refresh, enqueue and resolve separately, and here nothing comes in between; Runs has each
-- hold as a step, with any others in between.
unfoldable pub handle_comparison :
    Config → Option Finding → ℕ → Str → ℕ → ℕ → Report → Sweeper → Report × Sweeper
unfolding enqueue episode refresh resolve add
handle_comparison cfg none version key now w rep s = (rep, resolve key now s)
handle_comparison cfg (some f) version key now w rep s =
    if is_suspect f.trust
    then (
      add (some f) rep,
      record s { c = record s.c { suspect_not_confirmed = s.c.suspect_not_confirmed + 1 } },
    )
    else elim (episode key s) [
      | none ↦
          let f' : Finding = record f { first_seen_at = now } in
          (add (some f') rep, enqueue cfg f' version now w s)
      | some ep ↦
          let f' : Finding = record f { confirmed = true; first_seen_at = ep.first_seen_at } in
          (add (some f') rep, refresh key f' s)
    ]

abbrev pub fence_failed : Str → Sweeper → Sweeper
fence_failed key s =
    mark_requeued key (record s { c = record s.c { fence_failures = s.c.fence_failures + 1 } })

abbrev pub compared : Sweeper → Sweeper
compared s = record s { c = record s.c { keys_compared = s.c.keys_compared + 1 } }

abbrev pub one_more : Report → Report
one_more r = record r { keys_compared = r.keys_compared + 1 }

-- The end of the body of the loop of processBatch, once the fence is passed; the error ends the sweep.
unfoldable pub process_entry :
    Config → Options → Str → Entry → Read → ℕ → ℕ → Report → Sweeper → Option (Report × Sweeper)
unfolding compare_read handle_comparison
process_entry cfg opts key e read now w rep s = elim (compare_read key e read opts) [
  | none ↦ none
  | some f ↦ some (handle_comparison cfg f e.version key now w (one_more rep) (compared s))
]

-- The body of that loop: `v` is the version that the walk recorded.
unfoldable pub process_key :
    Config → Options → Str → ℕ → Look → ℕ → ℕ → Report → Sweeper → Option (Report × Sweeper)
unfolding process_entry mark_requeued
process_key cfg opts key v look now w rep s = elim (version look.before key) [
  | none ↦ some (rep, fence_failed key s)
  | some v2 ↦
      if not (v2 == v)
      then some (rep, fence_failed key s)
      else elim (get look.after key look.clock) [
        | none ↦ some (rep, fence_failed key s)
        | some e ↦
            if not (e.version == v)
            then some (rep, fence_failed key s)
            else process_entry cfg opts key e look.read now w rep s
      ]
]

-- The loop of processBatch over a batch that was read, each key with what the loop meets there.
unfoldable pub process_batch :
    Config
    → Options
    → List (Str × (ℕ × Look))
    → ℕ
    → ℕ
    → Report
    → Sweeper
    → Option (Report × Sweeper)
unfolding process_key
process_batch cfg opts [] now w rep s = some (rep, s)
process_batch cfg opts ((key, (v, look)) ∷ keys) now w rep s =
    elim (process_key cfg opts key v look now w rep s) [
      | none ↦ none
      | some (rep', s') ↦ process_batch cfg opts keys now w rep' s'
    ]
