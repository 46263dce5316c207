-- ===== src/Projection/Folding.antt =====
-- pkg/check/check.go: what `fold` computes from an event and the value under its key; the error of a
-- projection drops the event. A mutation acts on the expected contents of the store, a map from keys
-- to values, in the sense of its action: nothing, the key takes the value, the key is absent.
use driftwatch.Base.{
  ◌≡◌, Bool, false, Option, none, some, List, [], ◌∷◌, Str, Dict, lookup, insert, delete,
}
use driftwatch.Event.{Event}
use driftwatch.Event.Value.{Value}
use driftwatch.Projection.{Mutation, Action, nothing, upsert, Result, ok, err}
use driftwatch.Projection.Keyset.{no_value}
use driftwatch.Projection

-- A projection as its two functions: TargetKey and Apply.
pub record Projects : Type 0 where
  pub target_key : Event → Result Str
  pub apply : Value → Event → Result Mutation

abbrev pub value_or_none : Option Value → Value
value_or_none none = no_value
value_or_none (some v) = v

-- The mutation of an event at a state.
unfoldable pub mutate : Projects → Dict Value → Event → Result Mutation
mutate p s e = elim (p.target_key e) [
  | err x ↦ err x
  | ok key ↦ p.apply (value_or_none (lookup key s)) e
]

abbrev pub act : Action → Mutation → Dict Value → Dict Value
act nothing m s = s
act upsert m s = insert m.key m.value s
act Projection.delete m s = delete m.key s

-- The state after a mutation or an error.
abbrev pub effect : Result Mutation → Dict Value → Dict Value
effect (err x) s = s
effect (ok m) s = act m.action m s

unfoldable pub fold_one : Projects → Dict Value → Event → Dict Value
fold_one p s e = effect (mutate p s e) s

unfoldable pub fold_events : Projects → Dict Value → List Event → Dict Value
fold_events p s [] = s
fold_events p s (e ∷ es) = fold_events p (fold_one p s e) es

-- Whether the mutation of an event reports that a bound was hit.
abbrev pub flag : Result Mutation → Bool
flag (err x) = false
flag (ok m) = m.truncated

unfoldable pub truncates : Projects → Dict Value → Event → Bool
truncates p s e = flag (mutate p s e)

-- No event of the run reports that.
abbrev pub NeverTruncates : Projects → Dict Value → List Event → Type 0
NeverTruncates p s [] = Unit {0}
NeverTruncates p s (e ∷ es) = (truncates p s e ≡ false) × NeverTruncates p (fold_one p s e) es
