-- ===== src/Tests/Differ.antt =====
-- pkg/event/event.go and pkg/differ at concrete inputs.
use driftwatch.Base.{
  ◌≤◌, ◌≡◌, refl, true, false, none, some, [], ◌∷◌, Str, bytes, pos, length, str_eq,
}
use driftwatch.Event.{TrustState}
use driftwatch.Event.Members.{has, sets_equal, included}
use driftwatch.Event.Value.{Value, is_absent, value_equal}
use driftwatch.Oracle.Entry.{Entry}
use driftwatch.Projection.Keyset.{set_value}
use Prim.Native.Nat.{min}
use driftwatch.Differ.{
  apply_defaults, compare_values, mismatch, diff_loop, sort_strings, insert_sorted, Options,
  Finding, diff_members, compare_key, strict, member_mismatch, new_finding,
}
use driftwatch.Differ.Laws.{Carries, Describes, compare_key-Describes}
use driftwatch.Differ.MemberLaws.{diff_members_lem, IsSorted, outside}

abbrev two : Value
two = set_value (bytes "a" ∷ bytes "b" ∷ [])

abbrev three : Value
three = set_value (bytes "b" ∷ bytes "c" ∷ bytes "a" ∷ [])

abbrev expected : Entry
expected = record {
  key = bytes "k";
  value = two;
  version = 4;
  trust = TrustState.complete;
  last_event_at = 100;
  last_value_change_at = 100;
  last_seq = 9;
  last_epoch = 1;
  last_publisher = bytes "p";
  ttl = none;
  expired = false;
  truncated = false;
  created_at = 50;
}

abbrev some_options : Options
some_options = record {
  ttl_tolerance = pos 0;
  expiry_policy = strict;
  assumed_ttl = pos 0;
  max_members_reported = 1;
  max_findings = 0;
  now = 200;
}

-- One member of the two sides differs.
abbrev reported : Finding
reported = new_finding (bytes "k") member_mismatch expected three some_options

compare_reports : compare_key (bytes "k") expected three some_options ≡ some reported
unfolding compare_key compare_values apply_defaults is_absent value_equal sets_equal included has
    str_eq mismatch new_finding diff_members diff_loop sort_strings insert_sorted
compare_reports = refl

compare_key-Describes_example :
    Carries (bytes "k") expected three reported × Describes reported.category expected three
compare_key-Describes_example =
    compare_key-Describes (bytes "k") expected three some_options reported compare_reports

diff_members_lem_example :
    ((diff_members three.members two.members 1).1 ≡ outside three.members two.members)
    × (length (diff_members three.members two.members 1).0
        ≡ min 1 (outside three.members two.members))
    × IsSorted (diff_members three.members two.members 1).0
    × ((m : Str)
        → has m (diff_members three.members two.members 1).0 ≡ true
        → (has m three.members ≡ true) × (has m two.members ≡ false))
    × (outside three.members two.members ≤ 1
        → (m : Str) → has m three.members ≡ true
        → has m two.members ≡ false
        → has m (diff_members three.members two.members 1).0 ≡ true)
diff_members_lem_example = diff_members_lem three.members two.members 1
