-- ===== src/Projection/KeysetLaws.antt =====
-- What the set projection never does: expect an empty set, or grow beyond its cap.
use driftwatch.Base.{
  ℕ, ◌+◌, ◌≤◌, ◌≡◌, refl, true, false, List, [], ◌∷◌, leb, arith, inl, inr, Bool-cases, ◌⊎◌, Str,
  str_eq, str_eq_refl, length, ap, subst,
}
use driftwatch.Event.{Event, Op, touches_key}
use driftwatch.Event.Members.{has, put, take_out, IsMembers, put-IsMembers, take_out-IsMembers}
use driftwatch.Event.Value.{Value, ValueKind, no_members}
use driftwatch.Projection
use driftwatch.Projection.{Mutation, upsert, Result, ok, err, ◌>>=◌, expand, data_for, shape_fits}
use driftwatch.Projection.Keyset.{
  KeysetOwnership, add, remove, replace, replace_loop, split, apply, apply_op, set_value,
  value_bytes,
}

-- A set that a store can hold, within the cap.
pub record IsKeyset (cap : ℕ) (v : Value) : Type 0 where
  pub is_kind : v.kind ≡ ValueKind.set
  pub present : no_members v.members ≡ false
  pub distinct : IsMembers v.members
  pub capped : length v.members ≤ cap

-- What the projection has been given: nothing, or such a set.
abbrev pub Foldable : ℕ → Value → Type 0
Foldable cap v = ((v.kind ≡ ValueKind.absent) × (v.members ≡ [])) ⊎ IsKeyset cap v

abbrev Expects : ℕ → Mutation → Type 0
Expects cap m = m.action ≡ upsert → IsKeyset cap m.value

put-present : (m : Str) (xs : List Str) → no_members (put m xs) ≡ false
unfolding put has
put-present m [] = refl
put-present m (x ∷ xs) = ground arith

length-put_le : (m : Str) (xs : List Str) → length (put m xs) ≤ length xs + 1
unfolding put
length-put_le m xs = ground arith

length-put_old : (m : Str) (xs : List Str) → has m xs ≡ true → put m xs ≡ xs
unfolding put
length-put_old m xs h = rw h

set_value-IsKeyset :
    (cap : ℕ) (members : List Str)
    → no_members members ≡ false
    → IsMembers members
    → length members ≤ cap
    → IsKeyset cap (set_value members)
set_value-IsKeyset cap members present distinct capped = record {
  is_kind = refl;
  present = present;
  distinct = distinct;
  capped = capped;
}

Foldable-members :
    (cap : ℕ) (v : Value) → Foldable cap v → IsMembers v.members × (length v.members ≤ cap)
Foldable-members cap v (inl (kind, empty)) = rw empty (tt, omega arith)
Foldable-members cap v (inr s) = (s.distinct, s.capped)

Foldable-full :
    (cap : ℕ) (v : Value) → 1 ≤ cap → cap ≤ length v.members → Foldable cap v → IsKeyset cap v
Foldable-full cap v one full (inl (kind, empty)) =
    absurd (omega (arith, ap (λ (xs : List Str). length xs) empty))
Foldable-full cap v one full (inr s) = s

add-Expects :
    (k : KeysetOwnership) (key member : Str) (prev : Value)
    → 1 ≤ k.max_members
    → Foldable k.max_members prev
    → Expects k.max_members (add k key member prev)
unfolding add
add-Expects k key member prev one ok_prev up =
    let (distinct, capped) = Foldable-members k.max_members prev ok_prev in
    let put_ok = λ (h : length (put member prev.members) ≤ k.max_members).
      set_value-IsKeyset k.max_members (put member prev.members) (put-present member prev.members)
        (put-IsMembers member prev.members distinct) h in
    elim (Bool-cases (has member prev.members)) [
      | inl old ↦ rw old (put_ok (rw (length-put_old member prev.members old) capped))
      | inr new ↦ elim (Bool-cases (leb k.max_members (length prev.members))) [
        | inl full ↦ rw (new, full) (Foldable-full k.max_members prev one (ground arith) ok_prev)
        | inr room ↦
            rw (new, room)
              (put_ok (
                omega (
                  arith,
                  length-put_le member prev.members,
                  (let l : length prev.members + 1 ≤ k.max_members = ground arith in l),
                )))
      ]
    ]

length-take_out_le : (m : Str) (xs : List Str) → length (take_out m xs) ≤ length xs
unfolding take_out
length-take_out_le m [] = omega arith
length-take_out_le m (x ∷ xs) = ground (arith, length-take_out_le m xs)

remove-Expects :
    (cap : ℕ) (key member : Str) (prev : Value)
    → Foldable cap prev
    → Expects cap (remove key member prev)
unfolding remove
remove-Expects cap key member prev ok_prev up =
    let (distinct, capped) = Foldable-members cap prev ok_prev in
    let next = take_out member prev.members in
    elim (Bool-cases (has member prev.members)) [
      | inr missing ↦ absurd (ground arith)
      | inl there ↦ elim (Bool-cases (no_members next)) [
        | inl last ↦ absurd (ground arith)
        | inr more ↦
            rw (there, more)
              (set_value-IsKeyset cap next more (take_out-IsMembers member prev.members distinct)
                (omega (arith, length-take_out_le member prev.members)))
      ]
    ]

replace_loop_lem :
    (cap : ℕ) (members fs : List Str)
    → IsMembers members
    → length members ≤ cap
    → IsMembers (replace_loop cap members fs).0 × (length (replace_loop cap members fs).0 ≤ cap)
unfolding replace_loop
replace_loop_lem cap members [] d h = (d, h)
replace_loop_lem cap members (f ∷ fs) d h = elim (Bool-cases (str_eq f [])) [
  | inl empty ↦ rw empty (replace_loop_lem cap members fs d h)
  | inr field ↦ elim (Bool-cases (leb cap (length members))) [
    | inl full ↦ rw (field, full) (d, h)
    | inr room ↦
        rw (field, room)
          (replace_loop_lem cap (put f members) fs (put-IsMembers f members d) (
            omega (
              arith,
              length-put_le f members,
              (let l : length members + 1 ≤ cap = ground arith in l),
            )))
  ]
]

replace-Expects :
    (k : KeysetOwnership) (key : Str) (e : Event) → Expects k.max_members (replace k key e)
unfolding replace
replace-Expects k key e up =
    let loop = replace_loop k.max_members [] (split (value_bytes e.value) k.delimiter) in
    let (distinct, capped) =
      replace_loop_lem k.max_members [] (split (value_bytes e.value) k.delimiter) tt
        (omega arith) in
    elim (Bool-cases (no_members loop.0)) [
      | inl empty ↦ absurd (ground arith)
      | inr present ↦ rw present (set_value-IsKeyset k.max_members loop.0 present distinct capped)
    ]

abbrev OkExpects : ℕ → Result Mutation → Type 0
OkExpects cap (err x) = Unit {0}
OkExpects cap (ok m) = Expects cap m

OkExpects-bind :
    (cap : ℕ) (r : Result Str) (f : Str → Result Mutation)
    → ((s : Str) → OkExpects cap (f s))
    → OkExpects cap (r >>= f)
OkExpects-bind cap (err x) f h = tt
OkExpects-bind cap (ok s) f h = h s

abbrev OkRemoves : Result Mutation → Type 0
OkRemoves (err x) = Unit {0}
OkRemoves (ok m) = m.action ≡ Projection.delete

OkRemoves-bind :
    (r : Result Str) (f : Str → Result Mutation)
    → ((s : Str) → OkRemoves (f s))
    → OkRemoves (r >>= f)
OkRemoves-bind (err x) f h = tt
OkRemoves-bind (ok s) f h = h s

remove_last :
    (key member : Str) (prev : Value)
    → prev.members ≡ member ∷ []
    → (remove key member prev).action ≡ Projection.delete
unfolding remove has take_out
remove_last key member prev last = rw (last, str_eq_refl member) refl

module _ (k : KeysetOwnership) (prev : Value) (e : Event) (one : 1 ≤ k.max_members)
    (ok_prev : Foldable k.max_members prev) where
  apply_op-Expects : (op : Op) (key : Str) → OkExpects k.max_members (apply_op k op key prev e)
  unfolding apply_op
  apply_op-Expects Op.add key =
      OkExpects-bind k.max_members (expand k.member_tmpl (data_for e)) _
        (λ member. add-Expects k key member prev one ok_prev)
  apply_op-Expects Op.remove key =
      OkExpects-bind k.max_members (expand k.member_tmpl (data_for e)) _
        (λ member. remove-Expects k.max_members key member prev ok_prev)
  apply_op-Expects Op.delete key = λ up. absurd (ground arith)
  apply_op-Expects Op.set key = replace-Expects k key e
  apply_op-Expects Op.incr key = tt
  apply_op-Expects Op.unknown key = tt
  apply_op-Expects Op.snapshot_begin key = tt
  apply_op-Expects Op.snapshot_end key = tt
  apply_op-Expects Op.heartbeat key = tt

  apply_Expects : OkExpects k.max_members (apply k prev e)
  unfolding apply
  apply_Expects = elim (Bool-cases (touches_key e.op)) [
    | inr untouched ↦ rw untouched (λ up. absurd (cc))
    | inl touched ↦ elim (Bool-cases (shape_fits prev ValueKind.set)) [
      | inr other ↦ rw (touched, other) tt
      | inl fits ↦
          rw (touched, fits)
            (OkExpects-bind k.max_members (expand k.key_tmpl (data_for e)) _
              (λ key. apply_op-Expects e.op key))
    ]
  ]

  apply_op-Removes :
      (op : Op) (key member : Str)
      → op ≡ Op.remove
      → expand k.member_tmpl (data_for e) ≡ ok member
      → prev.members ≡ member ∷ []
      → OkRemoves (apply_op k op key prev e)
  unfolding apply_op
  apply_op-Removes op key member same named last =
      rw (same, named) (remove_last key member prev last)

  apply_Removes :
      (member : Str)
      → e.op ≡ Op.remove
      → expand k.member_tmpl (data_for e) ≡ ok member
      → prev.members ≡ member ∷ []
      → OkRemoves (apply k prev e)
  unfolding apply
  apply_Removes member same named last =
      let touched : touches_key e.op ≡ true = unfold touches_key in rw same refl in
      elim (Bool-cases (shape_fits prev ValueKind.set)) [
        | inr other ↦ rw (touched, other) tt
        | inl fits ↦
            rw (touched, fits)
              (OkRemoves-bind (expand k.key_tmpl (data_for e)) (λ key. apply_op k e.op key prev e)
                (λ key. apply_op-Removes e.op key member same named last))
      ]

  -- With a cap of at least one, and a previous value that is absent or a set within the cap: every
  -- value that the projection expects is a set with a member, without duplicates, within the cap; and
  -- whatever mutation it makes of the removal of the only member is a delete.
  pub apply-IsKeyset :
      (m : Mutation)
      → apply k prev e ≡ ok m
      → (m.action ≡ upsert → IsKeyset k.max_members m.value)
        × ((member : Str)
            → e.op ≡ Op.remove
            → expand k.member_tmpl (data_for e) ≡ ok member
            → prev.members ≡ member ∷ []
            → m.action ≡ Projection.delete)
  apply-IsKeyset m h = (
    subst (OkExpects k.max_members) h apply_Expects,
    λ member same named last. subst OkRemoves h (apply_Removes member same named last),
  )
