-- ===== src/Seqtrack/Tracker.antt =====
-- pkg/seqtrack/seqtrack.go: the tracker that classifies every event against the history of its
-- publisher. The clock's reading is an argument, `now`; the mutex makes each method one step. A
-- counter is a uint64 and wraps around.
pub mod Step
pub mod Sound
pub mod Runs
pub mod Trust
pub mod Bounds
pub mod Verdicts
pub mod Wrap
use driftwatch.Base.{
  ℕ, zero, suc, ◌+◌, ◌-◌, ◌≡◌, refl, Bool, true, false, ◌&&◌, ◌||◌, not, Option, none, some, List,
  [], ◌∷◌, ◌++◌, ltb, leb, ◌==◌, if◌then◌else◌, max_uint64, two64, add64, sub64, length, Str,
  str_eq, str_lt, Dict, lookup, insert, delete, map,
}
use driftwatch.Event.{Event, TrustState}
use driftwatch.Seqtrack.GapSet.{GapSet, new_gap_set, contains, count, clear, fill}
use driftwatch.Seqtrack.GapSet

pub data Verdict : Type 0 where
  accept accept_with_gap accept_late_fill accept_after_restart accept_first_seen : Verdict
  drop_duplicate drop_stale_epoch : Verdict

unfoldable pub accepted : Verdict → Bool
accepted drop_duplicate = false
accepted drop_stale_epoch = false
accepted _ = true

pub record Gap : Type 0 where
  pub publisher : Str
  pub epoch : ℕ
  pub from : ℕ
  pub to : ℕ
  pub detected_at : ℕ

pub record PublisherState : Type 0 where
  pub id : Str
  pub epoch : ℕ
  pub incarnation : ℕ
  pub hwm : ℕ
  pub gaps : GapSet
  pub first_seen : ℕ
  pub last_seen : ℕ
  pub event_count : ℕ
  pub restart_count : ℕ
  pub bootstrap : Bool

pub record Config : Type 0 where
  pub max_publishers : ℕ
  pub max_gap_intervals : ℕ
  pub implicit_restart_delta : ℕ
  pub implicit_restart_ceiling : ℕ

abbrev default_if_zero : ℕ → ℕ → ℕ
default_if_zero d n = if n == 0 then d else n

-- `0` stands for every limit that is not positive.
unfoldable pub apply_defaults : Config → Config
apply_defaults c = record {
  max_publishers = default_if_zero 1024 c.max_publishers;
  max_gap_intervals = default_if_zero 1024 c.max_gap_intervals;
  implicit_restart_delta = default_if_zero 1000 c.implicit_restart_delta;
  implicit_restart_ceiling = default_if_zero 100 c.implicit_restart_ceiling;
}

pub record Tracker : Type 0 where
  pub cfg : Config
  pub pubs : Dict PublisherState
  pub evictions : ℕ

unfoldable pub new : Config → Tracker
unfolding apply_defaults
new cfg = record { cfg = apply_defaults cfg; pubs = []; evictions = 0 }

-- The difference is taken only where it does not wrap.
unfoldable pub is_implicit_restart : Config → PublisherState → ℕ → Bool
is_implicit_restart cfg st seq =
    ltb seq st.hwm
    && (ltb cfg.implicit_restart_delta (sub64 st.hwm seq) && ltb seq cfg.implicit_restart_ceiling)

-- What a call of Observe leaves of the publisher's state, and what it returns.
abbrev pub Outcome : Type 0
Outcome = PublisherState × Verdict × Option Gap

abbrev counted : PublisherState → PublisherState
counted st = record st { event_count = add64 st.event_count 1 }

-- The state of a publisher that has begun again at `seq`.
abbrev restarted : PublisherState → ℕ → PublisherState
restarted st seq = record st {
  hwm = seq;
  gaps = clear st.gaps;
  restart_count = add64 st.restart_count 1;
  event_count = add64 st.event_count 1;
}

-- The branch that skips ahead; `none` is the panic of `Add`.
unfoldable pub observe_ahead : PublisherState → Event → ℕ → Option Outcome
observe_ahead st e now =
    let gap : Gap = record {
      publisher = e.publisher;
      epoch = e.epoch;
      from = add64 st.hwm 1;
      to = sub64 e.seq 1;
      detected_at = now;
    } in
    elim (GapSet.add st.gaps gap.from gap.to) [
      | none ↦ none
      | some gaps ↦
          some (record (counted st) { gaps = gaps; hwm = e.seq }, accept_with_gap, some gap)
    ]

-- The branch at or below the high-water mark.
unfoldable pub observe_behind : Config → PublisherState → Event → Outcome
observe_behind cfg st e =
    if is_implicit_restart cfg st e.seq
    then (
      record (restarted st e.seq) { incarnation = add64 st.incarnation 1 },
      accept_after_restart,
      none,
    )
    else if contains st.gaps e.seq
    then (record (counted st) { gaps = fill st.gaps e.seq }, accept_late_fill, none)
    else (st, drop_duplicate, none)

unfoldable pub observe_same_epoch : Config → PublisherState → Event → ℕ → Option Outcome
observe_same_epoch cfg st e now =
    if not (st.hwm == max_uint64) && (e.seq == add64 st.hwm 1)
    then some (record (counted st) { hwm = e.seq }, accept, none)
    else if ltb (add64 st.hwm 1) e.seq
    then observe_ahead st e now
    else some (observe_behind cfg st e)

-- Observe for a publisher that is known.
unfoldable pub observe_known : Config → PublisherState → Event → ℕ → Option Outcome
observe_known cfg st e now =
    let st' = record st { last_seen = now } in
    if ltb st.epoch e.epoch
    then some (record (restarted st' e.seq) { epoch = e.epoch }, accept_after_restart, none)
    else if ltb e.epoch st.epoch
    then some (st', drop_stale_epoch, none)
    else observe_same_epoch cfg st' e now

unfoldable pub admitted_state : Config → Event → ℕ → PublisherState
admitted_state cfg e now = record {
  id = e.publisher;
  epoch = e.epoch;
  incarnation = 0;
  hwm = e.seq;
  gaps = new_gap_set cfg.max_gap_intervals;
  first_seen = now;
  last_seen = now;
  event_count = 1;
  restart_count = 0;
  bootstrap = true;
}

-- The loop of evictOldestLocked: the oldest publisher so far, and when it was last seen.
unfoldable pub oldest : Str → ℕ → Dict PublisherState → Str
oldest id at [] = id
oldest id at ((k, st) ∷ m) =
    let better = str_eq id [] || (ltb st.last_seen at || ((st.last_seen == at) && str_lt k id)) in
    oldest (if better then k else id) (if better then st.last_seen else at) m

unfoldable pub evict_oldest : Tracker → Tracker
evict_oldest t =
    let id = oldest [] 0 t.pubs in
    if str_eq id []
    then t
    else record t { pubs = delete id t.pubs; evictions = add64 t.evictions 1 }

unfoldable pub admit : Tracker → Event → ℕ → Tracker
unfolding evict_oldest admitted_state
admit t e now =
    let t' = if leb t.cfg.max_publishers (length t.pubs) then evict_oldest t else t in
    record t' { pubs = insert e.publisher (admitted_state t.cfg e now) t'.pubs }

-- Observe; `none` is a panic.
unfoldable pub observe : Tracker → Event → ℕ → Option (Tracker × Verdict × Option Gap)
unfolding observe_known observe_same_epoch observe_ahead observe_behind admit
observe t e now = elim (lookup e.publisher t.pubs) [
  | none ↦ some (admit t e now, accept_first_seen, none)
  | some st ↦ elim (observe_known t.cfg st e now) [
    | none ↦ none
    | some (st', verdict, gap) ↦
        some (record t { pubs = insert e.publisher st' t.pubs }, verdict, gap)
  ]
]

unfoldable pub trust : Tracker → Str → TrustState
trust t publisher = elim (lookup publisher t.pubs) [
  | none ↦ TrustState.complete
  | some st ↦
      if ltb 0 (count st.gaps) || st.gaps.truncated then TrustState.suspect else TrustState.complete
]

unfoldable pub clear_gaps : Tracker → Str → Tracker
clear_gaps t publisher = elim (lookup publisher t.pubs) [
  | none ↦ t
  | some st ↦ record t { pubs = insert publisher (record st { gaps = clear st.gaps }) t.pubs }
]

unfoldable pub reset : Tracker → Tracker
reset t = record t { pubs = [] }
