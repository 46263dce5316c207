-- ===== src/Tests/Sweeper.antt =====
-- pkg/sweeper and the report of pkg/differ at concrete inputs.
use driftwatch.Base.{
  ◌+◌, ◌≤◌, ◌≡◌, ◌↔◌, refl, true, false, none, some, [], ◌∷◌, Str, bytes, lookup, length, pos,
  arith, Distinct, str_eq,
}
use driftwatch.Event.{TrustState}
use driftwatch.Event.Members.{has, IsMembers, put, take_out}
use driftwatch.Projection.Keyset.{set_value}
use driftwatch.Differ.{
  Finding, Category, Options, ExpiryPolicy, new_finding, compare_key, apply_defaults, diff_members,
  diff_loop, sort_strings, insert_sorted,
}
use driftwatch.Differ.Report.{Report, new_report, add_all}
use driftwatch.Differ.Report.Summing.{Summary, add_all-Summary}
use driftwatch.Oracle.Entry.{Stored}
use driftwatch.Oracle.Ring.{new_ring}
use driftwatch.Oracle.Suspicion.{Oracle, version, get}
use driftwatch.Target
use driftwatch.Target.{Health, Read}
use driftwatch.Sweeper.{
  Sweeper, Candidate, Episode, Config, new_sweeper, enqueue, mark_requeued, live_episodes,
  live_loop,
}
use driftwatch.Sweeper.Confirming.{Look, confirm_one, confirm_due, take_due}
use driftwatch.Sweeper.Sweeping.{compare_read, compared}
use driftwatch.Differ.Report
use driftwatch.Sweeper.Waiting.{keys_of}
use driftwatch.Sweeper.Invariant.{Raised, IsSweeper}
use driftwatch.Sweeper.Fencing.{Outcome, confirm_one-Outcome}
use driftwatch.Sweeper.Withdrawing.{Stands, live_episodes-Stands}
use driftwatch.Sweeper.Outage.{Unharmed, confirm_due-Unharmed}
use driftwatch.Sweeper.Runs
use driftwatch.Sweeper.Runs.{World, Step, Reach, start, Reach-bounded, Reach-Good}

abbrev options : Options
options = record {
  ttl_tolerance = pos 0;
  expiry_policy = ExpiryPolicy.strict;
  assumed_ttl = pos 0;
  max_members_reported = 2;
  max_findings = 1;
  now = 0;
}

abbrev config : Config
config = record {
  differ_options = options;
  read_batch_size = 10;
  max_confirm_queue = 2;
  max_extras_tracked = 5;
  require_primary = false;
}

abbrev known : Stored
known = record {
  key = bytes "k";
  value = set_value (bytes "a" ∷ []);
  version = 3;
  trust = TrustState.complete;
  last_event_at = 4;
  last_value_change_at = 4;
  last_seq = 8;
  last_epoch = 1;
  last_publisher = bytes "p";
  ttl = none;
  truncated = false;
  created_at = 1;
  gen = 2;
  bucket = 0;
  ring = new_ring 16;
}

abbrev oracle : Oracle
oracle = record { entries = (bytes "k", known) ∷ []; suspect_gen = 0; suspect_floor = 0 }

abbrev missing : Finding
missing = record {
  key = bytes "k";
  category = Category.member_mismatch;
  trust = TrustState.complete;
  oracle_value = set_value (bytes "a" ∷ []);
  target_value = set_value (bytes "b" ∷ []);
  missing_members = bytes "a" ∷ [];
  extra_members = bytes "b" ∷ [];
  missing_member_count = 1;
  extra_member_count = 1;
  oracle_version = 3;
  last_event_at = 4;
  last_seq = 8;
  last_publisher = bytes "p";
  target_type = [];
  oracle_ttl = none;
  target_ttl = none;
  first_seen_at = 0;
  confirmed = false;
}

abbrev look : Look
look = record {
  before = oracle;
  read = Target.value (set_value (bytes "b" ∷ []));
  after = oracle;
  clock = 30;
}

add_all-Summary_example :
    Summary 1 (missing ∷ missing ∷ []) (add_all (missing ∷ missing ∷ []) (new_report 5 options))
unfolding apply_defaults
add_all-Summary_example = add_all-Summary 5 options (missing ∷ missing ∷ [])

abbrev raised : Candidate
raised = record {
  finding = record missing { first_seen_at = 10 };
  version = 3;
  seen_at = 10;
  window = 5;
}

-- A sweep at 10 raises the candidate, a confirmation at 20 takes it and confirms it.
abbrev waiting : World
waiting = record {
  sweeper = enqueue config (record missing { first_seen_at = 10 }) 3 10 5 new_sweeper;
  hand = [];
  now = 0;
  swept = 10;
}

-- The first comparison, of the entry with what the store answered.
raised-Raised : Raised config raised
unfolding get lookup str_eq compare_read compare_key apply_defaults new_finding diff_members
    diff_loop sort_strings insert_sorted driftwatch.Event.Value.is_absent
    driftwatch.Differ.compare_values driftwatch.Event.Value.value_equal
    driftwatch.Event.Members.sets_equal has
raised-Raised = record {
  oracle = oracle;
  clock = 10;
  entry = driftwatch.Oracle.Suspicion.read_entry 0 10 known;
  read = look.read;
  found = missing;
  looked = refl;
  same_version = refl;
  not_suspect = refl;
  disagreed = refl;
  carried = refl;
}

waiting-reached : Reach config waiting
waiting-reached =
    Runs.later (Runs.later Runs.begin (Runs.begins 10 (omega arith)))
      (Runs.raises (record missing { first_seen_at = 10 }) 3 5 raised-Raised)

abbrev taken : World
taken = record {
  sweeper = (take_due 20 waiting.sweeper).1;
  hand = (take_due 20 waiting.sweeper).0;
  now = 20;
  swept = 10;
}

taken-reached : Reach config taken
taken-reached = Runs.later waiting-reached (Runs.takes 20 refl)

abbrev done : World
done = record {
  sweeper = confirm_one config look 20 raised taken.sweeper;
  hand = [];
  now = 20;
  swept = 10;
}

abbrev proved : Episode
proved = record {
  key = bytes "k";
  finding = record missing { confirmed = true; first_seen_at = 10 };
  first_seen_at = 10;
  confirmed_at = 20;
  window = 5;
}

Reach-bounded_example :
    (length taken.sweeper.queue ≤ 2)
    × IsMembers (keys_of taken.sweeper.queue)
    × ((k : Str) → has k taken.sweeper.queued ≡ has k (keys_of taken.sweeper.queue))
Reach-bounded_example = Reach-bounded config taken taken-reached

confirm_one-Outcome_example :
    Outcome config look 20 raised new_sweeper (confirm_one config look 20 raised new_sweeper)
confirm_one-Outcome_example = confirm_one-Outcome config look 20 raised new_sweeper

-- One episode that stands and one on a key that the oracle forgot.
abbrev claiming : Sweeper
claiming = record new_sweeper {
  confirmed = (bytes "k", proved) ∷ (bytes "z", record proved { key = bytes "z" }) ∷ [];
}

claiming-Distinct : Distinct claiming.confirmed
unfolding lookup str_eq
claiming-Distinct = (refl, (refl, tt))

waiting-alive : waiting.sweeper.closed ≡ false
unfolding enqueue new_sweeper has driftwatch.Sweeper.episode lookup
waiting-alive = refl

live_episodes-Stands_example :
    ((k : Str) (ep : Episode)
      → (lookup k (live_episodes oracle claiming).confirmed ≡ some ep)
        ↔ Stands oracle claiming.confirmed k ep)
    × (length claiming.confirmed
          + (claiming.c.confirmed_dropped_evicted + claiming.c.confirmed_superseded)
        ≡ length (live_episodes oracle claiming).confirmed
          + ((live_episodes oracle claiming).c.confirmed_dropped_evicted
              + (live_episodes oracle claiming).c.confirmed_superseded))
live_episodes-Stands_example = live_episodes-Stands oracle claiming claiming-Distinct

new-IsSweeper : IsSweeper config 10 0 [] waiting.sweeper
new-IsSweeper = Reach-Good config waiting-reached

confirm_due-Unharmed_example :
    Unharmed 20 waiting.sweeper (confirm_due config none 20 (look ∷ []) waiting.sweeper)
confirm_due-Unharmed_example =
    confirm_due-Unharmed config none 20 (look ∷ []) waiting.sweeper 10 0 new-IsSweeper waiting-alive
      refl

-- A sweep at 10 that compares the key.
abbrev begun : World
begun = record { sweeper = new_sweeper; hand = []; now = 0; swept = 10 }

abbrev first_seen : Finding
first_seen = record missing { first_seen_at = 10 }

abbrev empty_report : Report
empty_report = new_report 10 options

abbrev swept_once : Sweeper
swept_once = enqueue config first_seen 3 10 5 (compared new_sweeper)
