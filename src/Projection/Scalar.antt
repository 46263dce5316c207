-- ===== src/Projection/Scalar.antt =====
-- pkg/projection/scalar.go: the key of one value, last write wins.
use driftwatch.Base.{not, Str, pos, [], if◌then◌else◌}
use driftwatch.Event.{Event, Op, touches_key}
use driftwatch.Event.Value.{Value, ValueKind, is_absent}
use driftwatch.Projection.{
  nothing, delete, Mutation, Result, ok, err, unsupported_op, shape_mismatch, ◌>>=◌, Expander,
  expand, data_for, shape_fits,
}
use driftwatch.Projection.Keyset.{plain, upsert_of, value_bytes}

abbrev pub scalar_value : Str → Value
scalar_value b = record { kind = ValueKind.scalar; scalar = b; members = []; counter = pos 0 }

unfoldable pub apply_op : Op → Str → Value → Event → Result Mutation
apply_op Op.set key prev e =
    ok (record (upsert_of key (scalar_value (value_bytes e.value))) { ttl = e.ttl })
apply_op Op.delete key prev e =
    ok (if is_absent prev then plain key nothing else record (plain key delete) { ttl = e.ttl })
apply_op _ key prev e = err unsupported_op

-- The projection is its key template.
unfoldable pub apply : Expander → Value → Event → Result Mutation
unfolding apply_op
apply key_tmpl prev e =
    if not (touches_key e.op)
    then ok (plain [] nothing)
    else if not (shape_fits prev ValueKind.scalar)
    then err shape_mismatch
    else expand key_tmpl (data_for e) >>= λ key. apply_op e.op key prev e
