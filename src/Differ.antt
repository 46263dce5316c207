-- ===== src/Differ.antt =====
-- pkg/differ: categorize.go and differ.go, the comparison of one key. A duration is an integer number
-- of nanoseconds. Map iteration lists a set in the order of its list.
pub mod Laws
pub mod MemberLaws
pub mod Report
use driftwatch.Base.{
  ℕ, zero, suc, ◌+◌, ◌≡◌, Bool, true, false, ◌&&◌, ◌||◌, not, Option, none, some, List, [], ◌∷◌,
  ltb, leb, ◌==◌, if◌then◌else◌, Str, str_lt, bytes, ℤ, pos, negsuc, ◌-ℤ◌, ltb_ℤ, length,
}
use driftwatch.Event.{TrustState}
use driftwatch.Event.Members.{has}
use driftwatch.Event.Value.{Value, ValueKind, is_absent, value_equal, kind_eq}
use driftwatch.Oracle.Entry.{Entry}

pub data Category : Type 0 where
  missing_in_target extra_in_target value_mismatch member_mismatch : Category
  type_mismatch ttl_mismatch counter_mismatch : Category

pub data ExpiryPolicy : Type 0 where
  strict ignore model : ExpiryPolicy

pub record Options : Type 0 where
  pub ttl_tolerance : ℤ
  pub expiry_policy : ExpiryPolicy
  pub assumed_ttl : ℤ
  pub max_members_reported : ℕ
  pub max_findings : ℕ
  pub now : ℕ

abbrev not_positive : ℤ → Bool
not_positive d = not (ltb_ℤ (pos 0) d)

-- `0` stands for every limit that is not positive.
unfoldable pub apply_defaults : Options → Options
apply_defaults o = record o {
  ttl_tolerance = if not_positive o.ttl_tolerance then pos 5000000000 else o.ttl_tolerance;
  max_members_reported = if o.max_members_reported == 0 then 20 else o.max_members_reported;
  max_findings = if o.max_findings == 0 then 10000 else o.max_findings;
}

pub record Finding : Type 0 where
  pub key : Str
  pub category : Category
  pub trust : TrustState
  pub oracle_value : Value
  pub target_value : Value
  pub missing_members : List Str
  pub extra_members : List Str
  pub missing_member_count : ℕ
  pub extra_member_count : ℕ
  pub oracle_version : ℕ
  pub last_event_at : ℕ
  pub last_seq : ℕ
  pub last_publisher : Str
  pub target_type : Str
  pub oracle_ttl : Option ℤ
  pub target_ttl : Option ℤ
  pub first_seen_at : ℕ
  pub confirmed : Bool

-- sort.Strings
unfoldable pub insert_sorted : Str → List Str → List Str
insert_sorted m [] = m ∷ []
insert_sorted m (x ∷ xs) = if str_lt x m then x ∷ insert_sorted m xs else m ∷ x ∷ xs

unfoldable pub sort_strings : List Str → List Str
unfolding insert_sorted
sort_strings [] = []
sort_strings (x ∷ xs) = insert_sorted x (sort_strings xs)

-- The loop of diffMembers: what it has listed, in no matter what order, and counted so far.
unfoldable pub diff_loop : List Str → ℕ → List Str → List Str → ℕ → List Str × ℕ
diff_loop b limit [] listed total = (listed, total)
diff_loop b limit (m ∷ a) listed total =
    diff_loop b limit a
      (if has m b then listed else if ltb (length listed) limit then m ∷ listed else listed)
      (if has m b then total else suc total)

unfoldable pub diff_members : List Str → List Str → ℕ → List Str × ℕ
unfolding diff_loop sort_strings
diff_members a b limit =
    let (listed, total) = diff_loop b limit a [] 0 in (sort_strings listed, total)

abbrev is_set : ValueKind → Bool
is_set ValueKind.set = true
is_set _ = false

unfoldable pub new_finding : Str → Category → Entry → Value → Options → Finding
new_finding key category oe tv opts =
    let sets = is_set oe.value.kind || is_set tv.kind in
    let missing = diff_members oe.value.members tv.members opts.max_members_reported in
    let extra = diff_members tv.members oe.value.members opts.max_members_reported in
    record {
      key = key;
      category = category;
      trust = oe.trust;
      oracle_value = oe.value;
      target_value = tv;
      missing_members = if sets then missing.0 else [];
      extra_members = if sets then extra.0 else [];
      missing_member_count = if sets then missing.1 else 0;
      extra_member_count = if sets then extra.1 else 0;
      oracle_version = oe.version;
      last_event_at = oe.last_event_at;
      last_seq = oe.last_seq;
      last_publisher = oe.last_publisher;
      target_type = [];
      oracle_ttl = oe.ttl;
      target_ttl = none;
      first_seen_at = 0;
      confirmed = false;
    }

abbrev ignores_expiry : ExpiryPolicy → Bool
ignores_expiry ignore = true
ignores_expiry _ = false

-- now - last_event_at > assumed_ttl, where the difference of two times may be negative
unfoldable pub suppressed_by_expiry : Entry → Options → Bool
suppressed_by_expiry oe opts =
    if not (ignores_expiry opts.expiry_policy)
    then false
    else if not_positive opts.assumed_ttl || (opts.now == 0 || oe.last_event_at == 0)
    then false
    else ltb_ℤ opts.assumed_ttl (pos opts.now -ℤ pos oe.last_event_at)

abbrev is_adopted : TrustState → Bool
is_adopted TrustState.adopted = true
is_adopted _ = false

-- ValueKind.String
unfoldable pub kind_name : ValueKind → Str
kind_name ValueKind.absent = bytes "absent"
kind_name ValueKind.scalar = bytes "scalar"
kind_name ValueKind.set = bytes "set"
kind_name ValueKind.counter = bytes "counter"

-- The switch on the kind of two present values of one kind.
unfoldable pub mismatch : ValueKind → Option Category
mismatch ValueKind.set = some member_mismatch
mismatch ValueKind.counter = some counter_mismatch
mismatch ValueKind.scalar = some value_mismatch
mismatch ValueKind.absent = none

unfoldable pub compare_values : Str → Entry → Value → Options → Option Finding
unfolding mismatch
compare_values key oe tv opts =
    if value_equal oe.value tv
    then none
    else if not (kind_eq oe.value.kind tv.kind)
    then some
        (record (new_finding key type_mismatch oe tv opts) { target_type = kind_name tv.kind })
    else elim (mismatch oe.value.kind) [
      | none ↦ none
      | some category ↦ some (new_finding key category oe tv opts)
    ]

-- Compare; `none` is nil.
unfoldable pub compare_key : Str → Entry → Value → Options → Option Finding
compare_key key oe tv opts0 =
    let opts = apply_defaults opts0 in
    if is_absent oe.value
    then if is_absent tv
      then none
      else if is_adopted oe.trust
      then none
      else some (new_finding key extra_in_target oe tv opts)
    else if is_absent tv
    then if suppressed_by_expiry oe opts
      then none
      else some (new_finding key missing_in_target oe tv opts)
    else compare_values key oe tv opts

abbrev pub no_value : Value
no_value = record { kind = ValueKind.absent; scalar = []; members = []; counter = pos 0 }

unfoldable pub compare_unreadable : Str → Entry → Str → Options → Finding
compare_unreadable key oe target_type opts =
    record (new_finding key type_mismatch oe no_value (apply_defaults opts)) {
      target_type = target_type;
    }

abbrev abs_ℤ : ℤ → ℤ
abs_ℤ (pos n) = pos n
abs_ℤ (negsuc n) = pos (suc n)

-- Whether the switch of CompareTTL returns nil. The difference of two durations is taken to be in
-- the range of int64.
unfoldable pub ttls_agree : Option ℤ → Option ℤ → ℤ → Bool
ttls_agree none none tolerance = true
ttls_agree (some a) (some b) tolerance = not (ltb_ℤ tolerance (abs_ℤ (a -ℤ b)))
ttls_agree _ _ tolerance = false

unfoldable pub compare_ttl : Str → Entry → Option ℤ → Options → Option Finding
unfolding ttls_agree
compare_ttl key oe target_ttl opts0 =
    let opts = apply_defaults opts0 in
    if ttls_agree oe.ttl target_ttl opts.ttl_tolerance
    then none
    else if ignores_expiry opts.expiry_policy
    then none
    else some (record (new_finding key ttl_mismatch oe no_value opts) {
      oracle_ttl = oe.ttl;
      target_ttl = target_ttl;
    })
