-- ===== src/Projection/Keyset.antt =====
-- pkg/projection/keyset.go: the key of a set of members.
use driftwatch.Base.{
  ℕ, ◌-◌, Bool, true, false, ◌&&◌, not, Option, none, some, List, [], ◌∷◌, ◌++◌, leb, ◌==◌,
  if◌then◌else◌, Str, str_eq, pos, length,
}
use driftwatch.Event.{Event, Op, touches_key}
use driftwatch.Event.Members.{has, put, take_out}
use driftwatch.Event.Value.{Value, ValueKind, is_absent, no_members}
use driftwatch.Projection.{
  Action, nothing, upsert, delete, Mutation, Result, ok, err, unsupported_op, shape_mismatch, ◌>>=◌,
  Expander, expand, data_for, shape_fits,
}

pub record KeysetOwnership : Type 0 where
  pub key_tmpl : Expander
  pub member_tmpl : Expander
  pub delimiter : Str
  pub max_members : ℕ

abbrev pub no_value : Value
no_value = record { kind = ValueKind.absent; scalar = []; members = []; counter = pos 0 }

abbrev pub set_value : List Str → Value
set_value members = record { kind = ValueKind.set; scalar = []; members = members; counter = pos 0 }

-- A mutation with nothing but a key and an action.
abbrev pub plain : Str → Action → Mutation
plain key action = record {
  key = key;
  action = action;
  value = no_value;
  ttl = none;
  truncated = false;
  saturated = false;
}

abbrev pub upsert_of : Str → Value → Mutation
upsert_of key value = record (plain key upsert) { value = value }

unfoldable pub starts_with : Str → Str → Bool
starts_with [] s = true
starts_with (d ∷ ds) [] = false
starts_with (d ∷ ds) (c ∷ cs) = (d == c) && starts_with ds cs

-- strings.Split on a separator that is not empty: `skip` bytes of a separator are still to pass, and
-- `field` is what the field holds so far.
unfoldable pub split_from : Str → ℕ → Str → Str → List Str
unfolding starts_with
split_from sep skip field [] = field ∷ []
split_from sep skip field (c ∷ cs) =
    let hit = (skip == 0) && starts_with sep (c ∷ cs) in
    let rest =
      split_from sep (if hit then length sep - 1 else skip - 1)
        (if hit then [] else if skip == 0 then field ++ (c ∷ []) else field) cs in
    if hit then field ∷ rest else rest

unfoldable pub split : Str → Str → List Str
unfolding split_from
split s sep = split_from sep 0 [] s

unfoldable pub add : KeysetOwnership → Str → Str → Value → Mutation
add k key member prev =
    if not (has member prev.members) && leb k.max_members (length prev.members)
    then record (upsert_of key prev) { truncated = true }
    else upsert_of key (set_value (put member prev.members))

unfoldable pub remove : Str → Str → Value → Mutation
remove key member prev =
    if not (has member prev.members)
    then plain key nothing
    else let next = take_out member prev.members in
      if no_members next then plain key delete else upsert_of key (set_value next)

-- The loop of replace over the fields: the members so far, and whether the cap was hit.
unfoldable pub replace_loop : ℕ → List Str → List Str → List Str × Bool
replace_loop cap members [] = (members, false)
replace_loop cap members (f ∷ fs) =
    let rest = replace_loop cap (if str_eq f [] then members else put f members) fs in
    if not (str_eq f []) && leb cap (length members) then (members, true) else rest

abbrev pub value_bytes : Option Str → Str
value_bytes none = []
value_bytes (some v) = v

unfoldable pub replace : KeysetOwnership → Str → Event → Mutation
unfolding split replace_loop
replace k key e =
    let (members, truncated) =
      replace_loop k.max_members [] (split (value_bytes e.value) k.delimiter) in
    if no_members members
    then plain key delete
    else record (upsert_of key (set_value members)) { ttl = e.ttl; truncated = truncated }

-- The switch on the op.
unfoldable pub apply_op : KeysetOwnership → Op → Str → Value → Event → Result Mutation
apply_op k Op.add key prev e =
    expand k.member_tmpl (data_for e) >>= λ member. ok (add k key member prev)
apply_op k Op.remove key prev e =
    expand k.member_tmpl (data_for e) >>= λ member. ok (remove key member prev)
apply_op k Op.delete key prev e =
    ok (if is_absent prev then plain key nothing else record (plain key delete) { ttl = e.ttl })
apply_op k Op.set key prev e = ok (replace k key e)
apply_op k _ key prev e = err unsupported_op

unfoldable pub apply : KeysetOwnership → Value → Event → Result Mutation
unfolding apply_op
apply k prev e =
    if not (touches_key e.op)
    then ok (plain [] nothing)
    else if not (shape_fits prev ValueKind.set)
    then err shape_mismatch
    else expand k.key_tmpl (data_for e) >>= λ key. apply_op k e.op key prev e

unfoldable pub target_key : KeysetOwnership → Event → Result Str
target_key k e = expand k.key_tmpl (data_for e)
