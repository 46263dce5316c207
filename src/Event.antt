-- ===== src/Event.antt =====
-- pkg/event/event.go: the normalized event, the value it acts on, and the trust states.
-- A Go enum is a data type of the constants it declares; a uint8 outside them has no counterpart.
-- A time is a number of nanoseconds, 0 for Go's zero time. A nil slice or pointer is `none`.
pub mod Members
pub mod Value
pub mod Names
use driftwatch.Base.{
  ℕ, Bool, true, false, Option, none, some, [], Str, ℤ, pos, negsuc, str_eq, eq_ℤ, if◌then◌else◌,
}

pub data Op : Type 0 where
  unknown set delete add remove incr snapshot_begin snapshot_end heartbeat : Op

unfoldable pub touches_key : Op → Bool
touches_key Op.set = true
touches_key Op.delete = true
touches_key Op.add = true
touches_key Op.remove = true
touches_key Op.incr = true
touches_key _ = false

pub record Event : Type 0 where
  pub publisher : Str
  pub epoch : ℕ
  pub seq : ℕ
  pub published_at : ℕ
  pub observed_at : ℕ
  pub topic : Str
  pub op : Op
  pub key : Str
  pub member : Str
  pub value : Option Str
  pub delta : ℤ
  pub ttl : Option ℤ
  pub raw : Option Str

pub data TrustState : Type 0 where
  complete suspect adopted : TrustState

-- The sentinel errors.
pub data EventError : Type 0 where
  unknown_op missing_field unexpected_field invalid_field : EventError

-- The part of Validate that depends on the op; `none` is nil.
unfoldable pub validate_op : Op → Event → Option EventError
validate_op Op.set e = elim e.value [ none ↦ some missing_field | some v ↦ none ]
validate_op Op.add e = if str_eq e.member [] then some missing_field else none
validate_op Op.remove e = if str_eq e.member [] then some missing_field else none
validate_op Op.incr e = if eq_ℤ e.delta (pos 0) then some missing_field else none
validate_op Op.delete e = none
validate_op Op.unknown e = some unknown_op
validate_op _ e =
    if str_eq e.key []
    then if str_eq e.member [] then none else some unexpected_field
    else some unexpected_field

abbrev is_negative : Option ℤ → Bool
is_negative none = false
is_negative (some (pos n)) = false
is_negative (some (negsuc n)) = true

unfoldable pub validate : Event → Option EventError
unfolding validate_op
validate e =
    if str_eq e.publisher []
    then some missing_field
    else if is_negative e.ttl
    then some invalid_field
    else validate_op e.op e
