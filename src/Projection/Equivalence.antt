-- ===== src/Projection/Equivalence.antt =====
-- The set projection against the naive fold.
use driftwatch.Base.{
  ℕ, ◌≤◌, ◌≡◌, refl, true, false, List, [], ◌∷◌, if◌then◌else◌, inl, inr, Bool-cases, Str, str_eq,
  ap, none, some, Option, Option-cases, Dict, lookup, str_eq_iff, sym, ◌∙◌, Distinct,
  insert-Distinct, delete-Distinct,
}
use driftwatch.Event.{Event, Op, touches_key}
use driftwatch.Event.Members.{put, take_out}
use driftwatch.Event.Value.{Value, ValueKind, is_absent, no_members}
use driftwatch.Projection.{expand, data_for, shape_fits}
use driftwatch.Projection.Keyset.{
  KeysetOwnership, add, remove, replace, replace_loop, split, apply_op, set_value, value_bytes,
  no_value,
}
use driftwatch.Projection.Keyset
use driftwatch.Projection.Reference.{
  Reference, put_fields, apply_set, members_of, store_set, fold_from, drop_absent, fold,
}
use driftwatch.Projection.Reference
use driftwatch.Projection.Folding.{
  effect, mutate, fold_one, fold_events, truncates, NeverTruncates, value_or_none,
}
use driftwatch.Projection.Alike.{plain_keyset, keyset_projects, set_reference, Alike}
use driftwatch.Projection.Simulation.{Stands, op-Alike}

value_of :
    (s r : Dict Value)
    → Alike s r
    → (key : Str)
    → (ms : List Str) × Stands s key (value_or_none (lookup key s)) ms
      × (members_of (lookup key r) ≡ ms)
value_of s r a key = elim (Option-cases (lookup key s)) [
  | inl gone ↦ ([], inl (gone, rw gone, refl), rw (sym (a.same key) ∙ gone))
  | inr (v, there) ↦
      let (ms, is_set, present) = a.sets key v there in
      (
        ms,
        inr (rw there (rw is_set), rw there is_set, present),
        rw (sym (a.same key) ∙ there) (rw is_set),
      )
]

Stands-fits :
    (s : Dict Value) (key : Str) (prev : Value) (ms : List Str)
    → Stands s key prev ms
    → (shape_fits prev ValueKind.set ≡ true) × (prev.members ≡ ms)
unfolding shape_fits
Stands-fits s key prev ms (inl (gone, p, empty)) = rw (p, empty) (refl, refl)
Stands-fits s key prev ms (inr (there, p, present)) = rw p (refl, refl)

mutate_touched :
    (delimiter : Str) (limit : ℕ) (s : Dict Value) (e : Event)
    → touches_key e.op ≡ true
    → shape_fits (value_or_none (lookup e.key s)) ValueKind.set ≡ true
    → mutate (keyset_projects (plain_keyset delimiter limit)) s e
      ≡ apply_op (plain_keyset delimiter limit) e.op e.key (value_or_none (lookup e.key s)) e
unfolding mutate Keyset.target_key Keyset.apply expand data_for
mutate_touched delimiter limit s e touched fits = rw (touched, fits)

mutate_untouched :
    (delimiter : Str) (limit : ℕ) (s : Dict Value) (e : Event)
    → touches_key e.op ≡ false
    → effect (mutate (keyset_projects (plain_keyset delimiter limit)) s e) s ≡ s
unfolding mutate Keyset.target_key Keyset.apply expand
mutate_untouched delimiter limit s e untouched = rw untouched

fold_one-Alike :
    (delimiter : Str) (limit : ℕ) (s r : Dict Value) (e : Event)
    → Alike s r
    → 1 ≤ limit
    → truncates (keyset_projects (plain_keyset delimiter limit)) s e ≡ false
    → Alike
        (fold_one (keyset_projects (plain_keyset delimiter limit)) s e)
        (if touches_key e.op then Reference.apply (set_reference delimiter) r e else r)
unfolding fold_one truncates
fold_one-Alike delimiter limit s r e a one whole = elim (Bool-cases (touches_key e.op)) [
  | inr untouched ↦ rw (mutate_untouched delimiter limit s e untouched, untouched) a
  | inl touched ↦
      let (ms, stands, ref) = value_of s r a e.key in
      let (fits, members) = Stands-fits s e.key (value_or_none (lookup e.key s)) ms stands in
      let same = mutate_touched delimiter limit s e touched fits in
      rw (same, touched)
        (unfold Reference.apply in
          op-Alike delimiter limit s r a e (value_or_none (lookup e.key s)) ms members ref stands
            one e.op touched (rw same at whole))
]

fold_events-Alike :
    (delimiter : Str) (limit : ℕ) (es : List Event) (s r : Dict Value)
    → Alike s r
    → 1 ≤ limit
    → NeverTruncates (keyset_projects (plain_keyset delimiter limit)) s es
    → Alike
        (fold_events (keyset_projects (plain_keyset delimiter limit)) s es)
        (fold_from (set_reference delimiter) r es)
unfolding fold_events fold_from
fold_events-Alike delimiter limit [] s r a one whole = a
fold_events-Alike delimiter limit (e ∷ es) s r a one whole =
    fold_events-Alike delimiter limit es
      (fold_one (keyset_projects (plain_keyset delimiter limit)) s e)
      (if touches_key e.op then Reference.apply (set_reference delimiter) r e else r)
      (fold_one-Alike delimiter limit s r e a one whole.0) one whole.1

store_set-Distinct :
    (key : Str) (m : List Str) (r : Dict Value) → Distinct r → Distinct (store_set key m r)
store_set-Distinct key m r d = elim (Bool-cases (no_members m)) [
  | inl empty ↦ rw empty (delete-Distinct key r d)
  | inr present ↦ rw present (insert-Distinct key (set_value m) r d)
]

apply_set-Distinct :
    (p : Reference) (op : Op) (r : Dict Value) (e : Event)
    → Distinct r
    → Distinct (apply_set p op r e)
unfolding apply_set
apply_set-Distinct p Op.add r e d =
    store_set-Distinct e.key (put e.member (members_of (lookup e.key r))) r d
apply_set-Distinct p Op.remove r e d =
    store_set-Distinct e.key (take_out e.member (members_of (lookup e.key r))) r d
apply_set-Distinct p Op.delete r e d = delete-Distinct e.key r d
apply_set-Distinct p Op.set r e d =
    store_set-Distinct e.key (put_fields [] (split (value_bytes e.value) p.delimiter)) r d
apply_set-Distinct p Op.incr r e d = d
apply_set-Distinct p Op.unknown r e d = d
apply_set-Distinct p Op.snapshot_begin r e d = d
apply_set-Distinct p Op.snapshot_end r e d = d
apply_set-Distinct p Op.heartbeat r e d = d

fold_from-Distinct :
    (delimiter : Str) (es : List Event) (r : Dict Value)
    → Distinct r
    → Distinct (fold_from (set_reference delimiter) r es)
unfolding fold_from Reference.apply
fold_from-Distinct delimiter [] r d = d
fold_from-Distinct delimiter (e ∷ es) r d = elim (Bool-cases (touches_key e.op)) [
  | inl touched ↦ rw touched (
      fold_from-Distinct delimiter es (apply_set (set_reference delimiter) e.op r e)
        (apply_set-Distinct (set_reference delimiter) e.op r e d))
  | inr untouched ↦ rw untouched (fold_from-Distinct delimiter es r d)
]

abbrev present : Option Value → Option Value
present none = none
present (some v) = if is_absent v then none else some v

lookup-drop_absent :
    (k : Str) (r : Dict Value) → Distinct r → lookup k (drop_absent r) ≡ present (lookup k r)
unfolding lookup drop_absent
lookup-drop_absent k [] d = refl
lookup-drop_absent k ((j, v) ∷ r) d = elim (Bool-cases (str_eq j k)) [
  | inl here ↦
      let gone : lookup k r ≡ none = ap (λ x. lookup x r) (sym ((str_eq_iff j k).0 here)) ∙ d.0 in
      elim (Bool-cases (is_absent v)) [
        | inl absent ↦ rw (here, absent, lookup-drop_absent k r d.1, gone) refl
        | inr there ↦ rw (there, here, there) refl
      ]
  | inr other ↦ elim (Bool-cases (is_absent v)) [
    | inl absent ↦ rw (other, absent) (lookup-drop_absent k r d.1)
    | inr there ↦ rw (there, other) (lookup-drop_absent k r d.1)
  ]
]

Alike-present : (s r : Dict Value) → Alike s r → (k : Str) → present (lookup k r) ≡ lookup k s
unfolding is_absent
Alike-present s r a k = elim (Option-cases (lookup k s)) [
  | inl gone ↦ rw (← a.same k, gone) refl
  | inr (v, there) ↦
      let (m, is_set, some_member) = a.sets k v there in
      rw (← a.same k, there, is_set, some_member) refl
]

nothing-Alike : Alike [] []
unfolding lookup
nothing-Alike = record { same = λ k. refl; sets = λ k v h. cc }

-- The fold of the set projection and the naive fold agree. For every delimiter, every cap of at least
-- one and every list of events on whose fold, from the empty state, the projection never reports that
-- the cap was hit, the projection whose key and member are those of the event holds under every key
-- exactly what the naive fold holds there, an absent key included.
pub fold_events-fold :
    (delimiter : Str) (limit : ℕ) (es : List Event)
    → 1 ≤ limit
    → NeverTruncates (keyset_projects (plain_keyset delimiter limit)) [] es
    → (k : Str)
    → lookup k (fold_events (keyset_projects (plain_keyset delimiter limit)) [] es)
      ≡ lookup k (fold (set_reference delimiter) es)
unfolding fold
fold_events-fold delimiter limit es one whole k =
    let a = fold_events-Alike delimiter limit es [] [] nothing-Alike one whole in
    let r = fold_from (set_reference delimiter) [] es in
    sym (
      lookup-drop_absent k r (fold_from-Distinct delimiter es [] tt)
      ∙ Alike-present (fold_events (keyset_projects (plain_keyset delimiter limit)) [] es) r a k)
