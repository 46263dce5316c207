-- ===== src/Seqtrack/GapSet/Canonical.antt =====
-- A set of numbers has one list of intervals that are in order and apart.
use driftwatch.Base.{
  ℕ, ◌+◌, ◌≤◌, ◌≡◌, refl, sym, ◌∙◌, subst, inl, inr, List, [], ◌∷◌, ltb, arith, Bool-cases, length,
}
use driftwatch.Seqtrack.GapSet.{Interval}
use driftwatch.Seqtrack.GapSet.Covers.{covers, Sep, covers-below}

abbrev pub Same : List Interval → List Interval → Type 0
Same is js = (n : ℕ) → covers is n ≡ covers js n

from_le :
    (b : ℕ) (i j : Interval) (is js : List Interval)
    → Sep b (i ∷ is)
    → Sep b (j ∷ js)
    → Same (i ∷ is) (j ∷ js)
    → j.from ≤ i.from
unfolding covers
from_le b i j is js s t same = elim (Bool-cases (ltb i.from j.from)) [
  | inl less ↦
      let none_there =
        covers-below j.from i.from (j ∷ js) (omega arith, t.1, t.2, t.3) (ground arith) in
      absurd (ground (arith, none_there, same i.from, s.1))
  | inr more ↦ ground arith
]

to_le :
    (b : ℕ) (i j : Interval) (is js : List Interval)
    → Sep b (i ∷ is)
    → Sep b (j ∷ js)
    → i.from ≡ j.from
    → Same (i ∷ is) (j ∷ js)
    → j.to ≤ i.to
unfolding covers
to_le b i j is js s t begin same = elim (Bool-cases (ltb i.to j.to)) [
  | inl less ↦
      let none_there = covers-below (i.to + 2) (i.to + 1) is s.3 (omega arith) in
      absurd (ground (arith, none_there, same (i.to + 1), s.1, begin))
  | inr more ↦ ground arith
]

pub length-Same :
    (b : ℕ) (is js : List Interval) → Sep b is → Sep b js → Same is js → length is ≡ length js
unfolding covers
length-Same b [] [] s t same = refl
length-Same b [] (j ∷ js) s t same = absurd (ground (arith, same j.from, t.1))
length-Same b (i ∷ is) [] s t same = absurd (ground (arith, same i.from, s.1))
length-Same b (i ∷ is) (j ∷ js) s t same =
    let back : Same (j ∷ js) (i ∷ is) = λ n. sym (same n) in
    let l = from_le b i j is js s t same in
    let r = from_le b j i js is t s back in
    let begin : i.from ≡ j.from = omega (arith, l, r) in
    let l' = to_le b i j is js s t begin same in
    let r' = to_le b j i js is t s (sym begin) back in
    let end : j.to ≡ i.to = omega (arith, l', r') in
    let t3 : Sep (i.to + 2) js = subst (λ e. Sep (e + 2) js) end t.3 in
    omega (
      arith,
      length-Same (i.to + 2) is js s.3 t3 (λ n. elim (Bool-cases (ltb n (i.to + 2))) [
        | inl low ↦
            covers-below (i.to + 2) n is s.3 (ground arith)
            ∙ sym (covers-below (i.to + 2) n js t3 (ground arith))
        | inr high ↦ ground (arith, same n, end)
      ]),
    )
