-- ===== src/Projection/Alike.antt =====
-- pkg/projection/reference.go: states of the two folds that hold the same sets.
use driftwatch.Base.{
  ℕ, ◌≤◌, ◌≡◌, refl, true, false, List, [], ◌∷◌, if◌then◌else◌, arith, inl, inr, Bool-cases, Str,
  str_eq, length, ap, none, some, Dict, lookup, insert, delete, lookup-insert, lookup-delete,
  str_eq_iff, sym, ◌∙◌,
}
use driftwatch.Event.Members.{has, put}
use driftwatch.Event.Value.{Value, no_members}
use driftwatch.Projection.{Shape, field, FieldRef}
use driftwatch.Projection.Keyset.{
  KeysetOwnership, add, remove, replace, replace_loop, split, apply_op, set_value, value_bytes,
  no_value,
}
use driftwatch.Projection.Keyset
use driftwatch.Projection.Reference.{Reference, put_fields}
use driftwatch.Projection.Folding.{Projects}

-- The projection with the identity templates, and the reference fold with the same delimiter.
abbrev pub plain_keyset : Str → ℕ → KeysetOwnership
plain_keyset delimiter limit = record {
  key_tmpl = field FieldRef.key;
  member_tmpl = field FieldRef.member;
  delimiter = delimiter;
  max_members = limit;
}

abbrev pub keyset_projects : KeysetOwnership → Projects
keyset_projects k = record { target_key = Keyset.target_key k; apply = Keyset.apply k }

abbrev pub set_reference : Str → Reference
set_reference delimiter = record { shape = Shape.set; delimiter = delimiter; incr_only = false }

-- Both states hold the same under every key, and hold sets with members only.
pub record Alike (s r : Dict Value) : Type 0 where
  pub same : (k : Str) → lookup k s ≡ lookup k r
  pub sets :
      (k : Str) (v : Value)
      → lookup k s ≡ some v
      → (m : List Str) × (v ≡ set_value m) × (no_members m ≡ false)

module _ (s r : Dict Value) (a : Alike s r) (key : Str) where
  pub Alike-insert :
      (m : List Str)
      → no_members m ≡ false
      → Alike (insert key (set_value m) s) (insert key (set_value m) r)
  Alike-insert m present = record {
    same = λ k.
        ground (
          arith,
          lookup-insert key k (set_value m) s,
          lookup-insert key k (set_value m) r,
          a.same k,
        );
    sets = λ k v h. elim (Bool-cases (str_eq key k)) [
      | inl here ↦ (m, ground (arith, lookup-insert key k (set_value m) s), present)
      | inr there ↦ a.sets k v (ground (arith, lookup-insert key k (set_value m) s))
    ];
  }

  pub Alike-delete : Alike (delete key s) (delete key r)
  Alike-delete = record {
    same = λ k. ground (arith, lookup-delete key k s, lookup-delete key k r, a.same k);
    sets = λ k v h. a.sets k v (ground (arith, lookup-delete key k s));
  }

  -- Deleting a key that is not there changes nothing.
  pub Alike-gone : lookup key s ≡ none → Alike s (delete key r)
  Alike-gone gone = record {
    same = λ k. elim (Bool-cases (str_eq key k)) [
      | inl here ↦
          ap (λ x. lookup x s) (sym ((str_eq_iff key k).0 here))
          ∙ (gone ∙ ground (arith, lookup-delete key k r))
      | inr there ↦ ground (arith, lookup-delete key k r, a.same k)
    ];
    sets = a.sets;
  }

  -- So does writing what is there.
  pub Alike-again :
      (m : List Str) → lookup key s ≡ some (set_value m) → Alike s (insert key (set_value m) r)
  Alike-again m there = record {
    same = λ k. elim (Bool-cases (str_eq key k)) [
      | inl here ↦
          ap (λ x. lookup x s) (sym ((str_eq_iff key k).0 here))
          ∙ (there ∙ ground (arith, lookup-insert key k (set_value m) r))
      | inr other ↦ ground (arith, lookup-insert key k (set_value m) r, a.same k)
    ];
    sets = a.sets;
  }

-- Without a hit of the cap the two loops over the fields build the same set.
pub replace_loop-put_fields :
    (limit : ℕ) (members fs : List Str)
    → (replace_loop limit members fs).1 ≡ false
    → (replace_loop limit members fs).0 ≡ put_fields members fs
unfolding replace_loop put_fields
replace_loop-put_fields limit members [] h = refl
replace_loop-put_fields limit members (f ∷ fs) h =
    let members' = if str_eq f [] then members else put f members in
    ground (arith, replace_loop-put_fields limit members' fs)

pub replace_loop-full :
    (limit : ℕ) (members fs : List Str)
    → (replace_loop limit members fs).1 ≡ true
    → limit ≤ length (replace_loop limit members fs).0
unfolding replace_loop
replace_loop-full limit members [] h = cc
replace_loop-full limit members (f ∷ fs) h =
    let members' = if str_eq f [] then members else put f members in
    ground (arith, replace_loop-full limit members' fs)

pub put-members : (m : Str) (xs : List Str) → no_members (put m xs) ≡ false
unfolding put has
put-members m [] = refl
put-members m (x ∷ xs) = ground arith

pub no_members-nil : (xs : List Str) → no_members xs ≡ true → xs ≡ []
no_members-nil [] h = refl
no_members-nil (x ∷ xs) h = cc
