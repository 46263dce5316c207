-- ===== src/Sweeper/Extras.antt =====
-- pkg/sweeper/extras.go: the two passes over the store for keys that the oracle does not expect. What
-- the scan yields is a list of keys, each with the oracle and the clock when it is looked up; what the
-- second pass reads is the list of the parked keys, each with its answer.
use driftwatch.Base.{
  ℕ, ◌+◌, Bool, true, false, not, ◌&&◌, ◌||◌, Option, none, some, List, [], ◌∷◌, ltb, leb,
  if◌then◌else◌, Str, length,
}
use driftwatch.Event.{TrustState}
use driftwatch.Event.Members.{put}
use driftwatch.Event.Value.{Value, ValueKind, kind_eq}
use driftwatch.Projection.Keyset.{no_value}
use driftwatch.Differ.{Finding, Category}
use driftwatch.Differ.Report.{Report, add}
use driftwatch.Oracle.Entry.{Entry}
use driftwatch.Oracle.Suspicion.{Oracle, get}
use driftwatch.Target
use driftwatch.Target.{Read}
use driftwatch.Sweeper.{Sweeper, ExtrasPass, Config}

unfoldable pub pass_due_at : ExtrasPass → ℕ
pass_due_at p = p.started_at + p.window

abbrev pub is_some : Option Entry → Bool
is_some none = false
is_some (some e) = true

-- A tombstone is an entry, and known.
unfoldable pub oracle_knows : Oracle → ℕ → Str → Bool
oracle_knows o clock key = is_some (get o key clock)

abbrev waits_on : ℕ → Option ExtrasPass → Bool
waits_on now none = false
waits_on now (some p) = ltb now (pass_due_at p)

unfoldable pub take_pending_extras : ℕ → Sweeper → Option ExtrasPass × Sweeper
unfolding pass_due_at
take_pending_extras now s =
    if waits_on now s.extras then (none, s) else (s.extras, record s { extras = none })

-- One key of the scan, with the oracle and the clock when it is looked up.
abbrev pub Scanned : Type 0
Scanned = Str × (Oracle × ℕ)

-- The loop of firstPass: the keys kept, and whether the bound cut it short.
unfoldable pub first_loop : ℕ → List Scanned → List Str → List Str × Bool
unfolding put oracle_knows
first_loop max [] keys = (keys, false)
first_loop max ((key, (o, clock)) ∷ scan) keys =
    let rest = first_loop max scan (if oracle_knows o clock key then keys else put key keys) in
    if not (oracle_knows o clock key) && leb max (length keys) then (keys, true) else rest

-- firstPass over a scan that ends without an error.
unfoldable pub first_pass : Config → ℕ → ℕ → List Scanned → Sweeper → ExtrasPass × Sweeper
unfolding first_loop
first_pass cfg w now scan s =
    let (keys, truncated) = first_loop cfg.max_extras_tracked scan [] in
    (
      record { keys = keys; started_at = now; window = w; truncated = truncated },
      if truncated
          then record s { c = record s.c { extras_truncated = s.c.extras_truncated + 1 } }
          else s,
    )

-- What the second pass meets at a key.
pub record Second : Type 0 where
  pub key : Str
  pub read : Read
  pub after : Oracle
  pub clock : ℕ

abbrev pub survives : Read → Bool → Bool
survives (Target.value tv) known = not (kind_eq tv.kind ValueKind.absent) && not known
survives (Target.wrong_type got) known = false
survives Target.failed known = false

unfoldable pub extra_survives : Second → Bool
unfolding oracle_knows
extra_survives x = survives x.read (oracle_knows x.after x.clock x.key)

abbrev value_of : Read → Value
value_of (Target.value tv) = tv
value_of (Target.wrong_type got) = no_value
value_of Target.failed = no_value

-- The finding for an extra key; what secondPass leaves out has Go's zero value.
unfoldable pub extra_finding : ExtrasPass → Second → Finding
extra_finding pass x = record {
  key = x.key;
  category = Category.extra_in_target;
  trust = TrustState.complete;
  oracle_value = no_value;
  target_value = value_of x.read;
  missing_members = [];
  extra_members = [];
  missing_member_count = 0;
  extra_member_count = 0;
  oracle_version = 0;
  last_event_at = 0;
  last_seq = 0;
  last_publisher = [];
  target_type = [];
  oracle_ttl = none;
  target_ttl = none;
  first_seen_at = pass.started_at;
  confirmed = true;
}

abbrev self_resolved : Sweeper → Sweeper
self_resolved s = record s {
  c = record s.c { extras_self_resolved = s.c.extras_self_resolved + 1 };
}

abbrev reported : Sweeper → Sweeper
reported s = record s { c = record s.c { extras_reported = s.c.extras_reported + 1 } }

-- The loops of secondPass over the batches, whose reads do not fail.
unfoldable pub second_loop : ExtrasPass → List Second → Report → Sweeper → Report × Sweeper
unfolding extra_survives extra_finding add
second_loop pass [] rep s = (rep, s)
second_loop pass (x ∷ xs) rep s =
    if extra_survives x
    then second_loop pass xs (add (some (extra_finding pass x)) rep) (reported s)
    else second_loop pass xs rep (self_resolved s)

unfoldable pub second_pass : ExtrasPass → List Second → Report → Sweeper → Report × Sweeper
unfolding second_loop
second_pass pass xs rep s =
    let (rep', s') = second_loop pass xs rep s in
    (record rep' { truncated = rep'.truncated || pass.truncated }, s')
