-- ===== src/Sweeper.antt =====
-- pkg/sweeper: sweeper.go and confirm.go, the state of a sweeper and the operations that its passes
-- share. The counters count calls and do not reach the end of int64. A subscriber is the list of the
-- findings in its channel's buffer. A time is a number of nanoseconds, and a window is not negative.
pub mod Confirming
pub mod Sweeping
pub mod Extras
pub mod ExtrasLaws
pub mod Waiting
pub mod Invariant
pub mod Steps
pub mod Fencing
pub mod Running
pub mod Reaching
pub mod Runs
pub mod Composing
pub mod Withdrawing
pub mod Outage
use driftwatch.Base.{
  ℕ, ◌+◌, ◌-◌, Bool, true, false, not, Option, none, some, List, [], ◌∷◌, ◌++◌, ltb, leb, ◌==◌,
  if◌then◌else◌, Str, Dict, lookup, insert, delete, length,
}
use driftwatch.Event.Members.{has, put}
use driftwatch.Differ.{Finding, Options}
use driftwatch.Oracle.Suspicion.{Oracle, version}

pub record Candidate : Type 0 where
  pub finding : Finding
  pub version : ℕ
  pub seen_at : ℕ
  pub window : ℕ

unfoldable pub due_at : Candidate → ℕ
due_at c = c.seen_at + c.window

pub record Episode : Type 0 where
  pub key : Str
  pub finding : Finding
  pub first_seen_at : ℕ
  pub confirmed_at : ℕ
  pub window : ℕ

pub record ExtrasPass : Type 0 where
  pub keys : List Str
  pub started_at : ℕ
  pub window : ℕ
  pub truncated : Bool

pub record Counters : Type 0 where
  pub sweeps : ℕ
  pub keys_compared : ℕ
  pub fence_failures : ℕ
  pub candidates_enqueued : ℕ
  pub confirm_queue_dropped : ℕ
  pub confirm_cycles : ℕ
  pub confirmations : ℕ
  pub transient_resolved : ℕ
  pub transient_oracle_advanced : ℕ
  pub transient_key_evicted : ℕ
  pub confirm_read_failed : ℕ
  pub drift_resolved : ℕ
  pub confirmed_dropped_evicted : ℕ
  pub confirmed_superseded : ℕ
  pub suspect_not_confirmed : ℕ
  pub last_drift_duration : ℕ
  pub extra_scans : ℕ
  pub extras_reported : ℕ
  pub extras_self_resolved : ℕ
  pub extras_truncated : ℕ
  pub target_unavailable : ℕ
  pub subscriber_dropped : ℕ

-- The settings that the passes read.
pub record Config : Type 0 where
  pub differ_options : Options
  pub read_batch_size : ℕ
  pub max_confirm_queue : ℕ
  pub max_extras_tracked : ℕ
  pub require_primary : Bool

pub record Sweeper : Type 0 where
  pub queue : List Candidate
  pub queued : List Str
  pub confirmed : Dict Episode
  pub requeued : List Str
  pub extras : Option ExtrasPass
  pub subs : List (List Finding)
  pub closed : Bool
  pub c : Counters

abbrev pub no_counts : Counters
no_counts = record {
  sweeps = 0;
  keys_compared = 0;
  fence_failures = 0;
  candidates_enqueued = 0;
  confirm_queue_dropped = 0;
  confirm_cycles = 0;
  confirmations = 0;
  transient_resolved = 0;
  transient_oracle_advanced = 0;
  transient_key_evicted = 0;
  confirm_read_failed = 0;
  drift_resolved = 0;
  confirmed_dropped_evicted = 0;
  confirmed_superseded = 0;
  suspect_not_confirmed = 0;
  last_drift_duration = 0;
  extra_scans = 0;
  extras_reported = 0;
  extras_self_resolved = 0;
  extras_truncated = 0;
  target_unavailable = 0;
  subscriber_dropped = 0;
}

unfoldable pub new_sweeper : Sweeper
new_sweeper = record {
  queue = [];
  queued = [];
  confirmed = [];
  requeued = [];
  extras = none;
  subs = [];
  closed = false;
  c = no_counts;
}

unfoldable pub enqueue : Config → Finding → ℕ → ℕ → ℕ → Sweeper → Sweeper
enqueue cfg f version now w s =
    if has f.key s.queued
    then s
    else if leb cfg.max_confirm_queue (length s.queue)
    then record s { c = record s.c { confirm_queue_dropped = s.c.confirm_queue_dropped + 1 } }
    else record s {
      queue =
          s.queue ++ (record { finding = f; version = version; seen_at = now; window = w } ∷ []);
      queued = put f.key s.queued;
      c = record s.c { candidates_enqueued = s.c.candidates_enqueued + 1 };
    }

unfoldable pub mark_requeued : Str → Sweeper → Sweeper
unfolding put
mark_requeued key s = record s { requeued = put key s.requeued }

unfoldable pub drain_requeued : Sweeper → Sweeper
drain_requeued s = record s { requeued = [] }

unfoldable pub episode : Str → Sweeper → Option Episode
episode key s = lookup key s.confirmed

unfoldable pub refresh : Str → Finding → Sweeper → Sweeper
refresh key f s = elim (lookup key s.confirmed) [
  | none ↦ s
  | some ep ↦ record s { confirmed = insert key (record ep { finding = f }) s.confirmed }
]

unfoldable pub resolve : Str → ℕ → Sweeper → Sweeper
resolve key now s = elim (lookup key s.confirmed) [
  | none ↦ s
  | some ep ↦ record s {
    confirmed = delete key s.confirmed;
    c = record s.c {
      drift_resolved = s.c.drift_resolved + 1;
      last_drift_duration = now - ep.first_seen_at;
    };
  }
]

abbrev subscriber_buffer : ℕ
subscriber_buffer = 256

-- The subscribers that got the finding, and how many did not.
unfoldable pub deliver : Finding → List (List Finding) → List (List Finding) × ℕ
deliver f [] = ([], 0)
deliver f (ch ∷ subs) =
    let (rest, dropped) = deliver f subs in
    if ltb (length ch) subscriber_buffer
    then ((ch ++ (f ∷ [])) ∷ rest, dropped)
    else (ch ∷ rest, dropped + 1)

unfoldable pub publish : Finding → Sweeper → Sweeper
unfolding deliver
publish f s =
    let (subs, dropped) = deliver f s.subs in
    record s {
      subs = subs;
      c = record s.c { subscriber_dropped = s.c.subscriber_dropped + dropped };
    }

-- The episode to record: an open one keeps its start.
abbrev pub joined : Option Episode → Episode → Episode
joined none ep = ep
joined (some existing) ep = record ep {
  first_seen_at = existing.first_seen_at;
  finding = record ep.finding { first_seen_at = existing.first_seen_at };
}

unfoldable pub confirm : Str → Episode → Sweeper → Sweeper
unfolding publish
confirm key ep0 s =
    let ep = joined (lookup key s.confirmed) ep0 in
    publish ep.finding (record s {
      confirmed = insert key ep s.confirmed;
      c = record s.c { confirmations = s.c.confirmations + 1 };
    })

-- The body of the loop of liveEpisodes.
abbrev pub live_step : Option ℕ → Str → Episode → Dict Episode × (ℕ × ℕ) → Dict Episode × (ℕ × ℕ)
live_step none key ep (kept, (evicted, superseded)) = (kept, (evicted + 1, superseded))
live_step (some v) key ep (kept, (evicted, superseded)) =
    if v == ep.finding.oracle_version
    then ((key, ep) ∷ kept, (evicted, superseded))
    else (kept, (evicted, superseded + 1))

-- That loop: the episodes that stand, and how many are on keys that the oracle forgot
-- and how many on versions that it moved past.
unfoldable pub live_loop : Oracle → Dict Episode → Dict Episode × (ℕ × ℕ)
unfolding version
live_loop o [] = ([], (0, 0))
live_loop o ((key, ep) ∷ eps) = live_step (version o key) key ep (live_loop o eps)

unfoldable pub live_episodes : Oracle → Sweeper → Sweeper
unfolding live_loop
live_episodes o s =
    let (kept, (evicted, superseded)) = live_loop o s.confirmed in
    record s {
      confirmed = kept;
      c = record s.c {
        confirmed_dropped_evicted = s.c.confirmed_dropped_evicted + evicted;
        confirmed_superseded = s.c.confirmed_superseded + superseded;
      };
    }

unfoldable pub subscribe : Sweeper → Sweeper
subscribe s = if s.closed then s else record s { subs = s.subs ++ ([] ∷ []) }

unfoldable pub close : Sweeper → Sweeper
close s = if s.closed then s else record s { closed = true; subs = [] }
