-- ===== src/Event/Names.antt =====
-- pkg/event/event.go: the names of the operations, and their parsing. A string is the list of its runes
-- here, which are those of ASCII in the names. `trim` is strings.TrimSpace and `lower` unicode.ToLower.
use driftwatch.Base.{
  ◌⊎◌, ◌+◌, not, ltb, ℕ, ◌≤◌, ◌≡◌, Bool, true, ◌||◌, ◌==◌, Option, none, some, List, [], ◌∷◌,
  if◌then◌else◌, Str, str_eq, bytes, leb, ◌&&◌,
}
use driftwatch.Event.{Op}

-- Op.String, on the constants.
unfoldable pub op_name : Op → Str
op_name Op.unknown = bytes "unknown"
op_name Op.set = bytes "set"
op_name Op.delete = bytes "delete"
op_name Op.add = bytes "add"
op_name Op.remove = bytes "remove"
op_name Op.incr = bytes "incr"
op_name Op.snapshot_begin = bytes "snapshot_begin"
op_name Op.snapshot_end = bytes "snapshot_end"
op_name Op.heartbeat = bytes "heartbeat"

-- The loop of normalizeOpName.
unfoldable pub normalize_loop : (ℕ → ℕ) → Str → Str
normalize_loop lower [] = []
normalize_loop lower (r ∷ rs) =
    let rest = normalize_loop lower rs in if (r == 95) || (r == 45) then rest else lower r ∷ rest

unfoldable pub normalize_op_name : (Str → Str) → (ℕ → ℕ) → Str → Str
unfolding normalize_loop
normalize_op_name trim lower s = normalize_loop lower (trim s)

-- The operations of opNames but for the unknown one, in their order.
abbrev pub known_ops : List Op
known_ops =
    Op.set ∷ Op.delete ∷ Op.add ∷ Op.remove ∷ Op.incr ∷ Op.snapshot_begin ∷ Op.snapshot_end
    ∷ Op.heartbeat ∷ []

-- The loop of ParseOp; `none` is ErrUnknownOp.
unfoldable pub parse_loop : (Str → Str) → (ℕ → ℕ) → Str → List Op → Option Op
unfolding normalize_op_name op_name
parse_loop trim lower normalized [] = none
parse_loop trim lower normalized (op ∷ ops) =
    if str_eq (normalize_op_name trim lower (op_name op)) normalized
    then some op
    else parse_loop trim lower normalized ops

unfoldable pub parse_op : (Str → Str) → (ℕ → ℕ) → Str → Option Op
unfolding parse_loop
parse_op trim lower s = parse_loop trim lower (normalize_op_name trim lower s) known_ops

-- The names without their separators.
abbrev pub plain : Op → Str
plain Op.unknown = bytes "unknown"
plain Op.set = bytes "set"
plain Op.delete = bytes "delete"
plain Op.add = bytes "add"
plain Op.remove = bytes "remove"
plain Op.incr = bytes "incr"
plain Op.snapshot_begin = bytes "snapshotbegin"
plain Op.snapshot_end = bytes "snapshotend"
plain Op.heartbeat = bytes "heartbeat"

abbrev pub IsSeparator : ℕ → Type 0
IsSeparator r = (r ≡ 95) ⊎ (r ≡ 45)

-- `r` is the capital of the letter `c`.
abbrev pub IsCapital : ℕ → ℕ → Type 0
IsCapital r c = (65 ≤ r) × (r ≤ 90) × (c ≡ r + 32)

-- White space of ASCII.
abbrev pub is_blank : ℕ → Bool
is_blank r = (r == 32) || (leb 9 r && leb r 13)

abbrev pub all_blank : Str → Bool
all_blank [] = true
all_blank (r ∷ rs) = is_blank r && all_blank rs

abbrev pub no_blank : Str → Bool
no_blank [] = true
no_blank (r ∷ rs) = not (is_blank r) && no_blank rs

abbrev pub all_ascii : Str → Bool
all_ascii [] = true
all_ascii (r ∷ rs) = ltb r 128 && all_ascii rs

-- A name without separators and capitals.
abbrev letters : Str → Bool
letters [] = true
letters (c ∷ cs) = (leb 97 c && leb c 122) && letters cs

-- `s` spells `name` but for the case of its ASCII letters and the separators between them.
abbrev pub Spells : Str → Str → Type 0
Spells [] [] = Unit {0}
Spells [] (c ∷ cs) = ⊥
Spells (r ∷ rs) [] = IsSeparator r × Spells rs []
Spells (r ∷ rs) (c ∷ cs) =
    (IsSeparator r × Spells rs (c ∷ cs)) ⊎ (((r ≡ c) ⊎ IsCapital r c) × Spells rs cs)

-- The loop of ParseOp over the plain names.
abbrev plain_loop : Str → List Op → Option Op
plain_loop s [] = none
plain_loop s (op ∷ ops) = if str_eq (plain op) s then some op else plain_loop s ops

abbrev Every : (Op → Type 0) → List Op → Type 0
Every P [] = Unit {0}
Every P (o ∷ ops) = P o × Every P ops
