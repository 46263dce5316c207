-- ===== src/Tests/Event.antt =====
-- The names of the operations at concrete inputs, with functions that are strings.TrimSpace on one word
-- of ASCII between blanks, and unicode.ToLower on ASCII.
use driftwatch.Base.{ℕ, ◌+◌, ◌≡◌, refl, ◌&&◌, some, [], ◌∷◌, leb, if◌then◌else◌, Str, bytes, str_eq}
use driftwatch.Event.{Op}
use driftwatch.Event.Names.{
  op_name, normalize_loop, normalize_op_name, parse_loop, parse_op, is_blank,
}

-- Leading blanks off, then the runes up to the next blank: what TrimSpace leaves of one word.
abbrev word_of : Str → Str
word_of [] = []
word_of (r ∷ rs) = let rest = word_of rs in if is_blank r then [] else r ∷ rest

abbrev trim_word : Str → Str
trim_word [] = []
trim_word (r ∷ rs) = let rest = trim_word rs in if is_blank r then rest else r ∷ word_of rs

abbrev to_lower : ℕ → ℕ
to_lower r = if leb 65 r && leb r 90 then r + 32 else r

parse_spelling : parse_op trim_word to_lower (bytes "  Snapshot-END ") ≡ some Op.snapshot_end
unfolding parse_op parse_loop normalize_op_name normalize_loop op_name str_eq
parse_spelling = refl
