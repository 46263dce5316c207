-- ===== src/Tests/Seqtrack.antt =====
-- pkg/seqtrack at concrete inputs.
use driftwatch.Base.{
  subst, ℕ, ◌≤◌, ◌<◌, ◌≡◌, refl, true, false, Option, none, some, List, [], ◌∷◌, ◌↔◌, max_uint64,
  two64, arith, add64, Str, pos, lookup, delete, insert, str_eq, str_lt,
}
use driftwatch.Event.{Event, TrustState, Op}
use driftwatch.Seqtrack.GapSet.{
  Interval, GapSet, contains, count, closest, find, search_first, fill, new_gap_set,
}
use driftwatch.Seqtrack.GapSet
use driftwatch.Seqtrack.GapSet.{merge_closest}
use driftwatch.Seqtrack.GapSet.Capping.{Closes, merge_closest-Closes}
use driftwatch.Seqtrack.GapSet.Counting.{tally}
use driftwatch.Seqtrack.GapSet.Laws.{
  IsGapSet, Added, Filled, add-Added, fill-Filled, count-contains, new_gap_set-IsGapSet,
  new_gap_set-contains,
}
use driftwatch.Seqtrack.Tracker.{
  Verdict, accept_with_gap, accept_first_seen, PublisherState, Config, Tracker, Gap, Outcome, new,
  observe, observe_known, oldest, evict_oldest, admitted_state, trust,
}
use driftwatch.Seqtrack.Tracker.Step.{View, Tracks, was_seen, Tracks-begin, Tracks-ahead}
use driftwatch.Seqtrack.Tracker.Runs.{Accounts}
use driftwatch.Seqtrack.Tracker.Trust.{observe_all, views_all, run-Accounts, trust-complete_iff}
use driftwatch.Seqtrack.Tracker.Verdicts.{JustifiedAt, observe-Explained}
use driftwatch.Seqtrack.Tracker.Bounds.{IsTracker, evict_oldest-least, observe-IsTracker}
use driftwatch.Seqtrack.Tracker.Wrap.{observe_known-wraps}

abbrev some_gaps : GapSet
some_gaps = record {
  intervals = record { from = 3; to = 4 } ∷ record { from = 9; to = 12 } ∷ [];
  max_intervals = 2;
  truncated = false;
}

some_gaps-IsGapSet : IsGapSet some_gaps
some_gaps-IsGapSet = omega arith

add-Added_example :
    (g' : GapSet) × (GapSet.add some_gaps 20 21 ≡ some g') × Added some_gaps 20 21 g'
add-Added_example = add-Added some_gaps some_gaps-IsGapSet 20 21 (omega arith) (omega arith)

fill-Filled_example : Filled some_gaps 10 (fill some_gaps 10)
fill-Filled_example = fill-Filled some_gaps some_gaps-IsGapSet 10

merge_closest-Closes_example : Closes some_gaps (merge_closest some_gaps)
merge_closest-Closes_example =
    merge_closest-Closes some_gaps some_gaps-IsGapSet.separated (omega arith)

count-contains_example : count some_gaps ≡ tally two64 (contains some_gaps)
count-contains_example =
    count-contains some_gaps some_gaps-IsGapSet (unfold contains find search_first in refl)

-- Adding a third interval merges the two closest.
add_merges :
    GapSet.add some_gaps 14 21
    ≡ some (record {
      intervals = record { from = 3; to = 4 } ∷ record { from = 9; to = 21 } ∷ [];
      max_intervals = 2;
      truncated = true;
    })
unfolding GapSet.add GapSet.merge_closest
add_merges = refl

abbrev limits : Config
limits = record {
  max_publishers = 2;
  max_gap_intervals = 4;
  implicit_restart_delta = 1000;
  implicit_restart_ceiling = 100;
}

abbrev event_of : Str → ℕ → Event
event_of publisher seq = record {
  publisher = publisher;
  epoch = 1;
  seq = seq;
  published_at = 0;
  observed_at = 0;
  topic = [];
  op = Op.heartbeat;
  key = [];
  member = [];
  value = none;
  delta = pos 0;
  ttl = none;
  raw = none;
}

abbrev alice : Str
alice = b'a' ∷ []

abbrev bob : Str
bob = b'b' ∷ []

-- A gap, and a late event that fills a part of it.
abbrev story : List (Event × ℕ)
story =
    (event_of alice 1, 10)
    ∷ (event_of bob 70, 11)
    ∷ (event_of alice 2, 12)
    ∷ (event_of alice 6, 13)
    ∷ (event_of alice 4, 14)
    ∷ []

run-Accounts_example :
    (r : Tracker × List Verdict) × (observe_all (new limits) story ≡ some r)
    × Accounts (views_all (λ p. none) story r.1) r.0
run-Accounts_example = run-Accounts limits story (omega arith)

abbrev started : PublisherState
started = admitted_state limits (event_of alice 2) 10

abbrev first_view : View
first_view = record { base = 2; seen = 2 ∷ [] }

started-Tracks : Tracks first_view started
unfolding admitted_state
started-Tracks =
    Tracks-begin started 2 refl (omega arith) (new_gap_set-IsGapSet 4) (new_gap_set-contains 4)

started_tracker : Tracker
started_tracker = record { cfg = limits; pubs = (alice, started) ∷ []; evictions = 0 }

started-there :
    (st : PublisherState)
    → lookup (event_of alice 6).publisher started_tracker.pubs ≡ some st
    → Tracks first_view st
unfolding started_tracker lookup str_eq
started-there st h =
    let same : started ≡ st = ground (arith, h) in subst (Tracks first_view) same started-Tracks

observe-Explained_example :
    (r : Tracker × Verdict × Option Gap) × (observe started_tracker (event_of alice 6) 13 ≡ some r)
    × JustifiedAt started_tracker.cfg first_view
        (lookup (event_of alice 6).publisher started_tracker.pubs)
        (event_of alice 6)
        r.1
observe-Explained_example =
    observe-Explained started_tracker first_view (event_of alice 6) 13 started-there (omega arith)

-- The state after 6 follows 2, with 3 to 5 missing.
gapped : PublisherState
gapped = record started {
  hwm = 6;
  gaps = (add-Added started.gaps started-Tracks.valid 3 5 (omega arith) (omega arith)).0;
}

gapped-Tracks : Tracks (record { base = 2; seen = 6 ∷ 2 ∷ [] }) gapped
unfolding gapped admitted_state
gapped-Tracks =
    Tracks-ahead first_view started started-Tracks 6 gapped (omega arith) (omega arith) refl
      (add-Added started.gaps started-Tracks.valid 3 5 (omega arith) (omega arith)).2

gapped_tracker : Tracker
gapped_tracker = record { cfg = limits; pubs = (alice, gapped) ∷ []; evictions = 0 }

trust-complete_iff_example : (trust gapped_tracker alice ≡ TrustState.complete) ↔ (
    (gapped.gaps.truncated ≡ false)
    × ((n : ℕ) → 2 < n → n ≤ gapped.hwm → was_seen n (6 ∷ 2 ∷ []) ≡ true))
trust-complete_iff_example =
    trust-complete_iff gapped_tracker alice gapped (record { base = 2; seen = 6 ∷ 2 ∷ [] })
      (unfold gapped_tracker lookup str_eq in refl) gapped-Tracks

abbrev full_tracker : Tracker
full_tracker = record {
  cfg = limits;
  pubs =
      (alice, admitted_state limits (event_of alice 2) 10)
      ∷ (bob, admitted_state limits (event_of bob 7) 9)
      ∷ [];
  evictions = 0;
}

full_tracker-IsTracker : IsTracker full_tracker
full_tracker-IsTracker = record {
  positive = omega arith;
  named = ((λ e. cc), ((λ e. cc), tt));
  distinct = (unfold lookup str_eq in refl, (unfold lookup in refl, tt));
  limited = omega arith;
}

evict_oldest-least_example :
    (id : Str) × (w : PublisherState) × (lookup id full_tracker.pubs ≡ some w)
    × ((p : Str) (st : PublisherState)
        → lookup p full_tracker.pubs ≡ some st
        → w.last_seen ≤ st.last_seen)
    × (evict_oldest full_tracker ≡ record full_tracker {
      pubs = delete id full_tracker.pubs;
      evictions = add64 full_tracker.evictions 1;
    })
evict_oldest-least_example = evict_oldest-least full_tracker full_tracker-IsTracker (omega arith)

carol : Event
carol = event_of (b'c' ∷ []) 5

after_carol : Tracker × Verdict × Option Gap
after_carol = (
  record {
    cfg = limits;
    pubs =
        (alice, admitted_state limits (event_of alice 2) 10)
        ∷ (b'c' ∷ [], admitted_state limits (event_of (b'c' ∷ []) 5) 20)
        ∷ [];
    evictions = 1;
  },
  accept_first_seen,
  none,
)

-- A third publisher takes the place of bob, who was seen longest ago.
carol_evicts_bob : observe full_tracker carol 20 ≡ some after_carol
unfolding observe carol after_carol lookup insert delete str_eq evict_oldest admitted_state oldest
    str_lt
carol_evicts_bob = refl

observe-IsTracker_example : IsTracker after_carol.0
observe-IsTracker_example =
    observe-IsTracker full_tracker carol 20 after_carol full_tracker-IsTracker
      (unfold carol in λ e. cc) carol_evicts_bob

abbrev at_the_top : PublisherState
at_the_top = record {
  id = alice;
  epoch = 1;
  incarnation = 0;
  hwm = max_uint64;
  gaps = record { intervals = []; max_intervals = 4; truncated = false };
  first_seen = 1;
  last_seen = 1;
  event_count = 1;
  restart_count = 0;
  bootstrap = true;
}

observe_known-wraps_example :
    (o : Outcome) × (observe_known limits at_the_top (event_of alice max_uint64) 5 ≡ some o)
    × (o.1 ≡ accept_with_gap)
    × ((n : ℕ) → n < max_uint64 → contains o.0.gaps n ≡ true)
observe_known-wraps_example =
    observe_known-wraps limits at_the_top (event_of alice max_uint64) 5 (omega arith) refl refl
      (omega arith) (omega arith)
