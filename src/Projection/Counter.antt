-- ===== src/Projection/Counter.antt =====
-- pkg/projection/counter.go: the key of an int64, with saturating increments.
use driftwatch.Base.{
  ℕ, ◌+◌, ◌-◌, ◌*◌, ◌%◌, Bool, true, false, not, ◌&&◌, Option, none, some, [], ◌∷◌, Str, ℤ, pos,
  negsuc, ◌+ℤ◌, ltb_ℤ, ltb, leb, ◌==◌, if◌then◌else◌, two64,
}
use driftwatch.Event.{Event, Op, touches_key}
use driftwatch.Event.Value.{Value, ValueKind, is_absent}
use driftwatch.Projection.{
  nothing, delete, Mutation, Result, ok, err, unsupported_op, shape_mismatch, bad_value, ◌>>=◌,
  Expander, expand, data_for, shape_fits,
}
use driftwatch.Projection.Keyset.{plain, upsert_of, value_bytes}

-- 2^63, the number of int64 values below 0.
abbrev pub two63 : ℕ
two63 = 9223372036854775808

abbrev pub max_int64 : ℤ
max_int64 = pos 9223372036854775807

abbrev pub min_int64 : ℤ
min_int64 = negsuc 9223372036854775807

-- The int64 that stands for an integer after wrap-around.
abbrev from_bits : ℕ → ℤ
from_bits u = if ltb u two63 then pos u else negsuc (two64 - 1 - u)

unfoldable pub wrap64 : ℤ → ℤ
wrap64 (pos n) = from_bits (n % two64)
wrap64 (negsuc n) = from_bits (two64 - 1 - n % two64)

unfoldable pub add_saturating : ℤ → ℤ → ℤ × Bool
unfolding wrap64
add_saturating n delta =
    let sum = wrap64 (n +ℤ delta) in
    if ltb_ℤ (pos 0) delta && ltb_ℤ sum n
    then (max_int64, true)
    else if ltb_ℤ delta (pos 0) && ltb_ℤ n sum
    then (min_int64, true)
    else (sum, false)

-- The digits of a decimal number, `none` at any other byte.
unfoldable pub digits : ℕ → Str → Option ℕ
digits n [] = some n
digits n (c ∷ cs) =
    let rest = digits (n * 10 + (c - b'0')) cs in if leb b'0' c && leb c b'9' then rest else none

abbrev digits_of : Str → Option ℕ
digits_of [] = none
digits_of (c ∷ cs) = digits 0 (c ∷ cs)

-- strconv.ParseInt in base 10 for 64 bits; `none` is an error.
unfoldable pub parse_int : Str → Option ℤ
unfolding digits
parse_int [] = none
parse_int (c ∷ cs) =
    if c == b'-'
    then elim (digits_of cs) [
      | none ↦ none
      | some n ↦
          if n == 0 then some (pos 0) else if leb n two63 then some (negsuc (n - 1)) else none
    ]
    else elim (if c == b'+' then digits_of cs else digits 0 (c ∷ cs)) [
      | none ↦ none
      | some n ↦ if ltb n two63 then some (pos n) else none
    ]

pub record Counter : Type 0 where
  pub key_tmpl : Expander
  pub incr_only : Bool

abbrev pub counter_value : ℤ → Value
counter_value n = record { kind = ValueKind.counter; scalar = []; members = []; counter = n }

unfoldable pub apply_op : Counter → Op → Str → Value → Event → Result Mutation
apply_op c Op.incr key prev e =
    let (sum, saturated) = add_saturating prev.counter e.delta in
    ok (record (upsert_of key (counter_value sum)) { ttl = e.ttl; saturated = saturated })
apply_op c Op.set key prev e =
    if c.incr_only then err unsupported_op else elim (parse_int (value_bytes e.value)) [
      | none ↦ err bad_value
      | some n ↦ ok (record (upsert_of key (counter_value n)) { ttl = e.ttl })
    ]
apply_op c Op.delete key prev e =
    ok (if is_absent prev then plain key nothing else record (plain key delete) { ttl = e.ttl })
apply_op c _ key prev e = err unsupported_op

unfoldable pub apply : Counter → Value → Event → Result Mutation
unfolding apply_op
apply c prev e =
    if not (touches_key e.op)
    then ok (plain [] nothing)
    else if not (shape_fits prev ValueKind.counter)
    then err shape_mismatch
    else expand c.key_tmpl (data_for e) >>= λ key. apply_op c e.op key prev e
