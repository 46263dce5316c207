-- ===== src/Event/Members.antt =====
-- A Go set of strings, map[string]struct{}, as a list of distinct strings. A nil map is the empty one.
use driftwatch.Base.{
  ◌+◌, ◌≤◌, ◌≡◌, refl, Bool, true, false, ◌&&◌, ◌||◌, not, List, [], ◌∷◌, ◌==◌, if◌then◌else◌,
  arith, inl, inr, Bool-cases, ◌↔◌, Str, str_eq, str_eq_iff, str_eq_refl, length, sym, ◌∙◌, subst,
}

unfoldable pub has : Str → List Str → Bool
has m [] = false
has m (x ∷ xs) = str_eq x m || has m xs

unfoldable pub put : Str → List Str → List Str
unfolding has
put m xs = if has m xs then xs else m ∷ xs

unfoldable pub take_out : Str → List Str → List Str
take_out m [] = []
take_out m (x ∷ xs) = if str_eq x m then take_out m xs else x ∷ take_out m xs

unfoldable pub included : List Str → List Str → Bool
unfolding has
included [] ys = true
included (x ∷ xs) ys = has x ys && included xs ys

-- maps.Equal
unfoldable pub sets_equal : List Str → List Str → Bool
unfolding included
sets_equal xs ys = (length xs == length ys) && included xs ys

abbrev pub IsMembers : List Str → Type 0
IsMembers [] = Unit {0}
IsMembers (x ∷ xs) = (has x xs ≡ false) × IsMembers xs

pub has-put : (m n : Str) (xs : List Str) → has n (put m xs) ≡ (str_eq m n || has n xs)
unfolding put
has-put m n xs = elim (Bool-cases (has m xs)) [
  | inl old ↦ rw old (ground (arith, str_eq_iff m n))
  | inr new ↦ rw new (unfold has in refl)
]

pub has-take_out :
    (m n : Str) (xs : List Str) → has n (take_out m xs) ≡ (not (str_eq m n) && has n xs)
unfolding has take_out
has-take_out m n [] = ground arith
has-take_out m n (x ∷ xs) =
    ground (arith, str_eq_iff x m, str_eq_iff m n, str_eq_iff x n, has-take_out m n xs)

pub put-IsMembers : (m : Str) (xs : List Str) → IsMembers xs → IsMembers (put m xs)
unfolding put
put-IsMembers m xs d = ground arith

pub take_out-IsMembers : (m : Str) (xs : List Str) → IsMembers xs → IsMembers (take_out m xs)
unfolding take_out
take_out-IsMembers m [] d = tt
take_out-IsMembers m (x ∷ xs) d = ground (arith, take_out-IsMembers m xs d.1, has-take_out m x xs)

pub take_out_absent : (m : Str) (xs : List Str) → has m xs ≡ false → take_out m xs ≡ xs
unfolding has take_out
take_out_absent m [] h = refl
take_out_absent m (x ∷ xs) h = ground (arith, take_out_absent m xs)

pub length-take_out :
    (m : Str) (xs : List Str)
    → IsMembers xs
    → has m xs ≡ true
    → length (take_out m xs) + 1 ≡ length xs
unfolding has take_out
length-take_out m [] d h = cc
length-take_out m (x ∷ xs) d h =
    ground (arith, length-take_out m xs d.1, take_out_absent m xs, str_eq_iff x m)

abbrev pub SubsetOf : List Str → List Str → Type 0
SubsetOf xs ys = (m : Str) → has m xs ≡ true → has m ys ≡ true

has-head : (x : Str) (xs : List Str) → has x (x ∷ xs) ≡ true
unfolding has
has-head x xs = rw (str_eq_refl x)

has-tail : (m x : Str) (xs : List Str) → has m xs ≡ true → has m (x ∷ xs) ≡ true
unfolding has
has-tail m x xs h = ground arith

included_sound : (xs ys : List Str) → included xs ys ≡ true → SubsetOf xs ys
unfolding included has
included_sound [] ys h m k = cc
included_sound (x ∷ xs) ys h m k = elim (Bool-cases (str_eq x m)) [
  | inl same ↦ subst (λ z. has z ys ≡ true) ((str_eq_iff x m).0 same) (ground arith)
  | inr other ↦ included_sound xs ys (ground arith) m (ground arith)
]

included_complete : (xs ys : List Str) → SubsetOf xs ys → included xs ys ≡ true
unfolding included
included_complete [] ys s = refl
included_complete (x ∷ xs) ys s =
    rw (s x (has-head x xs)) (included_complete xs ys (λ m h. s m (has-tail m x xs h)))

subset_take_out :
    (x m : Str) (xs ys : List Str)
    → has x xs ≡ false
    → has m xs ≡ true
    → has m ys ≡ true
    → has m (take_out x ys) ≡ true
subset_take_out x m xs ys new h k = rw (has-take_out x m ys) (ground (arith, str_eq_iff x m))

-- A set within another is no larger.
length-SubsetOf :
    (xs ys : List Str) → IsMembers xs → IsMembers ys → SubsetOf xs ys → length xs ≤ length ys
length-SubsetOf [] ys dx dy s = omega arith
length-SubsetOf (x ∷ xs) ys dx dy s = omega (
  arith,
  length-take_out x ys dy (s x (has-head x xs)),
  length-SubsetOf xs (take_out x ys) dx.1 (take_out-IsMembers x ys dy)
      (λ m h. subset_take_out x m xs ys dx.0 h (s m (has-tail m x xs h))),
)

-- `maps.Equal` holds exactly for sets with the same members.
pub sets_equal_iff :
    (xs ys : List Str)
    → IsMembers xs
    → IsMembers ys
    → (sets_equal xs ys ≡ true) ↔ ((m : Str) → has m xs ≡ has m ys)
unfolding sets_equal
sets_equal_iff xs ys dx dy = (
  λ e m. elim (Bool-cases (has m xs)) [
    | inl inside ↦ inside ∙ sym (included_sound xs ys (ground arith) m inside)
    | inr outside ↦
        outside
        ∙ sym (elim (Bool-cases (has m ys)) [
          | inr neither ↦ neither
          | inl only ↦ absurd (
              omega (
                arith,
                length-take_out m ys dy only,
                (let same : length xs ≡ length ys = ground arith in same),
                length-SubsetOf xs (take_out m ys) dx (take_out-IsMembers m ys dy) (λ n h.
                    subset_take_out m n xs ys outside h (included_sound xs ys (ground arith) n h)),
              ))
        ])
  ],
  λ same.
      let sub : SubsetOf xs ys = λ m h. sym (same m) ∙ h in
      let sup : SubsetOf ys xs = λ m h. same m ∙ h in
      let equal : length xs ≡ length ys =
        omega (arith, length-SubsetOf xs ys dx dy sub, length-SubsetOf ys xs dy dx sup) in
      rw (equal, included_complete xs ys sub) (ground arith),
)
