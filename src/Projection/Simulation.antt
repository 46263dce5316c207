-- ===== src/Projection/Simulation.antt =====
-- pkg/projection/keyset.go against pkg/projection/reference.go: one operation on both sides.
use driftwatch.Base.{
  ℕ, ◌≤◌, ◌≡◌, true, false, ◌&&◌, not, List, [], leb, arith, inl, inr, Bool-cases, ◌⊎◌, Str, length,
  ap, none, some, Dict, lookup, delete,
}
use driftwatch.Event.{Event, Op, touches_key}
use driftwatch.Event.Members.{has, put, take_out, take_out_absent}
use driftwatch.Event.Value.{Value, is_absent, no_members}
use driftwatch.Projection.{ok, expand, data_for}
use driftwatch.Projection.Keyset.{
  add, remove, replace, replace_loop, split, apply_op, set_value, value_bytes, no_value,
}
use driftwatch.Projection.Reference.{put_fields, apply_set, members_of, store_set}
use driftwatch.Projection.Folding.{effect, flag}
use driftwatch.Projection.Alike.{
  plain_keyset, set_reference, Alike, Alike-insert, Alike-delete, Alike-gone, Alike-again,
  replace_loop-put_fields, replace_loop-full, put-members, no_members-nil,
}

-- What stands under the key of the event, on both sides: `ms` are its members.
abbrev pub Stands : Dict Value → Str → Value → List Str → Type 0
Stands s key prev ms =
    ((lookup key s ≡ none) × (prev ≡ no_value) × (ms ≡ []))
    ⊎ ((lookup key s ≡ some (set_value ms)) × (prev ≡ set_value ms) × (no_members ms ≡ false))

module _ (delimiter : Str) (limit : ℕ) (s r : Dict Value) (a : Alike s r) (e : Event) (prev : Value)
    (ms : List Str) (members : prev.members ≡ ms) (ref : members_of (lookup e.key r) ≡ ms)
    (st : Stands s e.key prev ms) (one : 1 ≤ limit) where
  add-Alike :
      flag (ok (add (plain_keyset delimiter limit) e.key e.member prev)) ≡ false
      → Alike
          (effect (ok (add (plain_keyset delimiter limit) e.key e.member prev)) s)
          (store_set e.key (put e.member (members_of (lookup e.key r))) r)
  unfolding add
  add-Alike whole =
      elim (Bool-cases (not (has e.member prev.members) && leb limit (length prev.members))) [
        | inl full ↦ absurd (ground arith)
        | inr room ↦ rw room (
            rw (members, ref, put-members e.member ms)
              (Alike-insert s r a e.key (put e.member ms) (put-members e.member ms)))
      ]

  remove-Alike :
      Alike
        (effect (ok (remove e.key e.member prev)) s)
        (store_set e.key (take_out e.member (members_of (lookup e.key r))) r)
  unfolding remove
  remove-Alike =
      rw (members, ref)
        (elim (Bool-cases (has e.member ms)) [
          | inr missing ↦
              rw (missing, take_out_absent e.member ms missing)
                (elim st [
                  | inl (gone, _, empty) ↦ rw empty (Alike-gone s r a e.key gone)
                  | inr (there, _, present) ↦ rw present (Alike-again s r a e.key ms there)
                ])
          | inl there ↦ rw there (elim (Bool-cases (no_members (take_out e.member ms))) [
            | inl last ↦ rw last (Alike-delete s r a e.key)
            | inr more ↦ rw more (Alike-insert s r a e.key (take_out e.member ms) more)
          ])
        ])

  replace-Alike :
      flag (ok (replace (plain_keyset delimiter limit) e.key e)) ≡ false
      → Alike
          (effect (ok (replace (plain_keyset delimiter limit) e.key e)) s)
          (store_set e.key (put_fields [] (split (value_bytes e.value) delimiter)) r)
  unfolding replace
  replace-Alike whole =
      let fields = split (value_bytes e.value) delimiter in
      let loop = replace_loop limit [] fields in
      elim (Bool-cases (no_members loop.0)) [
        | inl empty ↦
            let whole' : loop.1 ≡ false = elim (Bool-cases loop.1) [
              | inr fits ↦ fits
              | inl full ↦ absurd (
                  omega (
                    arith,
                    replace_loop-full limit [] fields full,
                    ap (λ (xs : List Str). length xs) (no_members-nil loop.0 empty),
                  ))
            ] in
            rw empty (
              rw (← replace_loop-put_fields limit [] fields whole')
                (rw empty (Alike-delete s r a e.key)))
        | inr present ↦
            let whole' : loop.1 ≡ false = ground arith in
            rw present (
              rw (← replace_loop-put_fields limit [] fields whole')
                (rw present (Alike-insert s r a e.key loop.0 present)))
      ]

  delete-Alike :
      Alike
        (effect (apply_op (plain_keyset delimiter limit) Op.delete e.key prev e) s)
        (delete e.key r)
  unfolding apply_op is_absent
  delete-Alike = elim st [
    | inl (gone, p, empty) ↦ rw p (Alike-gone s r a e.key gone)
    | inr (there, p, present) ↦ rw (p, present) (Alike-delete s r a e.key)
  ]

  pub op-Alike :
      (op : Op)
      → touches_key op ≡ true
      → flag (apply_op (plain_keyset delimiter limit) op e.key prev e) ≡ false
      → Alike
          (effect (apply_op (plain_keyset delimiter limit) op e.key prev e) s)
          (apply_set (set_reference delimiter) op r e)
  unfolding apply_op apply_set expand data_for touches_key
  op-Alike Op.add t whole = add-Alike whole
  op-Alike Op.remove t whole = remove-Alike
  op-Alike Op.delete t whole = delete-Alike
  op-Alike Op.set t whole = replace-Alike whole
  op-Alike Op.incr t whole = a
  op-Alike Op.unknown t whole = cc
  op-Alike Op.snapshot_begin t whole = cc
  op-Alike Op.snapshot_end t whole = cc
  op-Alike Op.heartbeat t whole = cc
