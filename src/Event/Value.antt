-- ===== src/Event/Value.antt =====
-- pkg/event/event.go: Value and its equality. Clone copies, and values here are never shared.
use driftwatch.Base.{
  ◌≡◌, Bool, true, false, ◌&&◌, ◌||◌, not, List, [], ◌∷◌, ◌⊎◌, Str, str_eq, ℤ, eq_ℤ, if◌then◌else◌,
}
use driftwatch.Event.Members.{has, sets_equal}

pub data ValueKind : Type 0 where
  absent scalar set counter : ValueKind

pub record Value : Type 0 where
  pub kind : ValueKind
  pub scalar : Str
  pub members : List Str
  pub counter : ℤ

abbrev pub kind_eq : ValueKind → ValueKind → Bool
kind_eq ValueKind.absent ValueKind.absent = true
kind_eq ValueKind.scalar ValueKind.scalar = true
kind_eq ValueKind.set ValueKind.set = true
kind_eq ValueKind.counter ValueKind.counter = true
kind_eq _ _ = false

abbrev pub no_members : List Str → Bool
no_members [] = true
no_members (m ∷ ms) = false

abbrev is_absent_kind : ValueKind → Value → Bool
is_absent_kind ValueKind.absent v = true
is_absent_kind ValueKind.set v = no_members v.members
is_absent_kind ValueKind.scalar v = false
is_absent_kind ValueKind.counter v = false

unfoldable pub is_absent : Value → Bool
is_absent v = is_absent_kind v.kind v

-- The switch of Equal, on two values of one kind.
abbrev equal_kind : ValueKind → Value → Value → Bool
equal_kind ValueKind.scalar v w = str_eq v.scalar w.scalar
equal_kind ValueKind.set v w = sets_equal v.members w.members
equal_kind ValueKind.counter v w = eq_ℤ v.counter w.counter
equal_kind ValueKind.absent v w = false

unfoldable pub value_equal : Value → Value → Bool
value_equal v w =
    if is_absent v || is_absent w
    then is_absent v && is_absent w
    else if not (kind_eq v.kind w.kind)
    then false
    else equal_kind v.kind v w

-- The contents of two values of one kind are the same.
abbrev SameContents : ValueKind → Value → Value → Type 0
SameContents ValueKind.absent v w = ⊥
SameContents ValueKind.scalar v w = v.scalar ≡ w.scalar
SameContents ValueKind.set v w = (m : Str) → has m v.members ≡ has m w.members
SameContents ValueKind.counter v w = v.counter ≡ w.counter

abbrev pub SameValue : Value → Value → Type 0
SameValue v w =
    ((is_absent v ≡ true) × (is_absent w ≡ true))
    ⊎ ((is_absent v ≡ false) × (is_absent w ≡ false) × (v.kind ≡ w.kind) × SameContents v.kind v w)
