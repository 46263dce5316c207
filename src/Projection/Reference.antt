-- ===== src/Projection/Reference.antt =====
-- pkg/projection/reference.go: the naive fold that the projections are held against.
use driftwatch.Base.{
  Bool, ◌&&◌, Option, none, some, List, [], ◌∷◌, Str, str_eq, ℤ, pos, ◌+ℤ◌, ltb_ℤ, if◌then◌else◌,
  Dict, lookup, insert, delete,
}
use driftwatch.Event.{Event, Op, touches_key}
use driftwatch.Event.Members.{put, take_out}
use driftwatch.Event.Value.{Value, is_absent, no_members}
use driftwatch.Projection.{Shape}
use driftwatch.Projection.Keyset.{set_value, split, value_bytes}
use driftwatch.Projection.Scalar.{scalar_value}
use driftwatch.Projection.Counter.{max_int64, min_int64, wrap64, parse_int, counter_value}

pub record Reference : Type 0 where
  pub shape : Shape
  pub delimiter : Str
  pub incr_only : Bool

abbrev pub State : Type 0
State = Dict Value

abbrev pub members_of : Option Value → List Str
members_of none = []
members_of (some v) = v.members

unfoldable pub put_fields : List Str → List Str → List Str
put_fields members [] = members
put_fields members (f ∷ fs) = put_fields (if str_eq f [] then members else put f members) fs

abbrev pub store_set : Str → List Str → State → State
store_set key members s =
    if no_members members then delete key s else insert key (set_value members) s

unfoldable pub apply_set : Reference → Op → State → Event → State
unfolding put_fields
apply_set r Op.add s e = store_set e.key (put e.member (members_of (lookup e.key s))) s
apply_set r Op.remove s e = store_set e.key (take_out e.member (members_of (lookup e.key s))) s
apply_set r Op.delete s e = delete e.key s
apply_set r Op.set s e = store_set e.key (put_fields [] (split (value_bytes e.value) r.delimiter)) s
apply_set r _ s e = s

unfoldable pub apply_scalar : Op → State → Event → State
apply_scalar Op.set s e = insert e.key (scalar_value (value_bytes e.value)) s
apply_scalar Op.delete s e = delete e.key s
apply_scalar _ s e = s

abbrev pub count_of : Option Value → ℤ
count_of none = pos 0
count_of (some v) = v.counter

unfoldable pub reference_sum : ℤ → ℤ → ℤ
reference_sum n delta =
    let sum = wrap64 (n +ℤ delta) in
    if ltb_ℤ (pos 0) delta && ltb_ℤ sum n
    then max_int64
    else if ltb_ℤ delta (pos 0) && ltb_ℤ n sum
    then min_int64
    else sum

unfoldable pub apply_counter : Reference → Op → State → Event → State
unfolding reference_sum
apply_counter r Op.incr s e =
    insert e.key (counter_value (reference_sum (count_of (lookup e.key s)) e.delta)) s
apply_counter r Op.set s e = if r.incr_only then s else elim (parse_int (value_bytes e.value)) [
  | none ↦ s
  | some n ↦ insert e.key (counter_value n) s
]
apply_counter r Op.delete s e = delete e.key s
apply_counter r _ s e = s

abbrev pub apply_shape : Shape → Reference → State → Event → State
apply_shape Shape.set r s e = apply_set r e.op s e
apply_shape Shape.scalar r s e = apply_scalar e.op s e
apply_shape Shape.counter r s e = apply_counter r e.op s e

unfoldable pub apply : Reference → State → Event → State
apply r s e = apply_shape r.shape r s e

-- The loop of Fold.
unfoldable pub fold_from : Reference → State → List Event → State
fold_from r s [] = s
fold_from r s (e ∷ es) = fold_from r (if touches_key e.op then apply r s e else s) es

unfoldable pub drop_absent : State → State
drop_absent [] = []
drop_absent ((k, v) ∷ s) = if is_absent v then drop_absent s else (k, v) ∷ drop_absent s

unfoldable pub fold : Reference → List Event → State
unfolding fold_from drop_absent
fold r es = drop_absent (fold_from r [] es)
