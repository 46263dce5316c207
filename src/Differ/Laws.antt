-- ===== src/Differ/Laws.antt =====
-- When a comparison finds something, and what it calls it.
use driftwatch.Base.{
  ◌≡◌, refl, true, false, Option, none, some, arith, inl, inr, Bool-cases, ◌⊎◌, ◌↔◌, ◌≢◌, Str,
  subst,
}
use driftwatch.Event.{TrustState}
use driftwatch.Event.Value.{Value, ValueKind, is_absent, value_equal, kind_eq}
use driftwatch.Oracle.Entry.{Entry}
use driftwatch.Differ.{
  Category, missing_in_target, extra_in_target, value_mismatch, member_mismatch, type_mismatch,
  ttl_mismatch, counter_mismatch, Options, apply_defaults, Finding, new_finding,
  suppressed_by_expiry, compare_values, compare_key, is_adopted, mismatch,
}

-- Why a comparison reports nothing.
abbrev pub Silent : Entry → Value → Options → Type 0
Silent oe tv opts =
    (value_equal oe.value tv ≡ true)
    ⊎ ((is_absent oe.value ≡ true) × (is_absent tv ≡ false) × (oe.trust ≡ TrustState.adopted))
    ⊎ ((is_absent oe.value ≡ false)
        × (is_absent tv ≡ true)
        × (suppressed_by_expiry oe (apply_defaults opts) ≡ true))

is_adopted_iff : (t : TrustState) → (is_adopted t ≡ true) ↔ (t ≡ TrustState.adopted)
is_adopted_iff t = ground arith

-- What a category says of the two values.
abbrev pub Describes : Category → Entry → Value → Type 0
Describes missing_in_target oe tv = (is_absent oe.value ≡ false) × (is_absent tv ≡ true)
Describes extra_in_target oe tv =
    (is_absent oe.value ≡ true) × (is_absent tv ≡ false) × (oe.trust ≢ TrustState.adopted)
Describes type_mismatch oe tv =
    (is_absent oe.value ≡ false) × (is_absent tv ≡ false) × (kind_eq oe.value.kind tv.kind ≡ false)
Describes value_mismatch oe tv = (oe.value.kind ≡ ValueKind.scalar) × (tv.kind ≡ ValueKind.scalar)
Describes member_mismatch oe tv = (oe.value.kind ≡ ValueKind.set) × (tv.kind ≡ ValueKind.set)
Describes counter_mismatch oe tv =
    (oe.value.kind ≡ ValueKind.counter) × (tv.kind ≡ ValueKind.counter)
Describes ttl_mismatch oe tv = ⊥

-- What every finding carries over from the entry and the target.
pub record Carries (key : Str) (oe : Entry) (tv : Value) (f : Finding) : Type 0 where
  pub same_key : f.key ≡ key
  pub same_trust : f.trust ≡ oe.trust
  pub same_version : f.oracle_version ≡ oe.version
  pub expected : f.oracle_value ≡ oe.value
  pub observed : f.target_value ≡ tv
  pub unconfirmed : f.confirmed ≡ false

new_finding-Carries :
    (key : Str) (c : Category) (oe : Entry) (tv : Value) (opts : Options)
    → Carries key oe tv (new_finding key c oe tv opts)
      × ((new_finding key c oe tv opts).category ≡ c)
unfolding new_finding
new_finding-Carries key c oe tv opts = (
  record {
    same_key = refl;
    same_trust = refl;
    same_version = refl;
    expected = refl;
    observed = refl;
    unconfirmed = refl;
  },
  refl,
)

abbrev Sound : Str → Entry → Value → Option Finding → Type 0
Sound key oe tv none = Unit {0}
Sound key oe tv (some f) = Carries key oe tv f × Describes f.category oe tv

new_finding-Sound :
    (key : Str) (c : Category) (oe : Entry) (tv : Value) (opts : Options)
    → Describes c oe tv
    → Sound key oe tv (some (new_finding key c oe tv opts))
new_finding-Sound key c oe tv opts d =
    let (carries, same) = new_finding-Carries key c oe tv opts in (carries, rw same d)

kind_eq_sound : (k j : ValueKind) → kind_eq k j ≡ true → j ≡ k
kind_eq_sound k j h = ground arith

mismatch-Sound :
    (key : Str) (oe : Entry) (tv : Value) (opts : Options) (k : ValueKind)
    → oe.value.kind ≡ k
    → tv.kind ≡ k
    → Sound key oe tv (elim (mismatch k) [
      | none ↦ none
      | some category ↦ some (new_finding key category oe tv opts)
    ])
unfolding mismatch
mismatch-Sound key oe tv opts ValueKind.absent e d = tt
mismatch-Sound key oe tv opts ValueKind.scalar e d =
    new_finding-Sound key value_mismatch oe tv opts (e, d)
mismatch-Sound key oe tv opts ValueKind.set e d =
    new_finding-Sound key member_mismatch oe tv opts (e, d)
mismatch-Sound key oe tv opts ValueKind.counter e d =
    new_finding-Sound key counter_mismatch oe tv opts (e, d)

compare_values-Sound :
    (key : Str) (oe : Entry) (tv : Value) (opts : Options)
    → is_absent oe.value ≡ false
    → is_absent tv ≡ false
    → Sound key oe tv (compare_values key oe tv opts)
unfolding compare_values
compare_values-Sound key oe tv opts po pt = elim (Bool-cases (value_equal oe.value tv)) [
  | inl same ↦ rw same tt
  | inr differ ↦ elim (Bool-cases (kind_eq oe.value.kind tv.kind)) [
    | inr other ↦
        let (carries, same) = new_finding-Carries key type_mismatch oe tv opts in
        rw (differ, other)
          (
            record {
              same_key = carries.same_key;
              same_trust = carries.same_trust;
              same_version = carries.same_version;
              expected = carries.expected;
              observed = carries.observed;
              unconfirmed = carries.unconfirmed;
            },
            rw same (po, pt, other),
          )
    | inl kinds ↦
        rw (differ, kinds)
          (mismatch-Sound key oe tv opts oe.value.kind refl
            (kind_eq_sound oe.value.kind tv.kind kinds))
  ]
]

compare_key-Sound :
    (key : Str) (oe : Entry) (tv : Value) (opts : Options)
    → Sound key oe tv (compare_key key oe tv opts)
unfolding compare_key
compare_key-Sound key oe tv opts =
    let o = apply_defaults opts in
    elim (Bool-cases (is_absent oe.value)) [
      | inl ao ↦ elim (Bool-cases (is_absent tv)) [
        | inl at ↦ rw (ao, at) tt
        | inr pt ↦ elim (Bool-cases (is_adopted oe.trust)) [
          | inl adopted ↦ rw (ao, pt, adopted) tt
          | inr derived ↦
              rw (ao, pt, derived)
                (new_finding-Sound key extra_in_target oe tv o
                  (ao, pt, λ e. cc ((is_adopted_iff oe.trust).1 e)))
        ]
      ]
      | inr po ↦ elim (Bool-cases (is_absent tv)) [
        | inr pt ↦ rw (po, pt) (compare_values-Sound key oe tv o po pt)
        | inl at ↦ elim (Bool-cases (suppressed_by_expiry oe o)) [
          | inl expired ↦ rw (po, at, expired) tt
          | inr due ↦ rw (po, at, due) (new_finding-Sound key missing_in_target oe tv o (po, at))
        ]
      ]
    ]

-- A finding carries the key, the trust, the version and both values over unchanged, is not confirmed,
-- and its category describes the two values: which of them is absent, that their kinds differ, or of
-- what kind both are; a key that was only adopted is never reported as extra.
pub compare_key-Describes :
    (key : Str) (oe : Entry) (tv : Value) (opts : Options) (f : Finding)
    → compare_key key oe tv opts ≡ some f
    → Carries key oe tv f × Describes f.category oe tv
compare_key-Describes key oe tv opts f e =
    subst (Sound key oe tv) e (compare_key-Sound key oe tv opts)
