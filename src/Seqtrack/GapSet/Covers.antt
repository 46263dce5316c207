-- ===== src/Seqtrack/GapSet/Covers.antt =====
-- The numbers that a list of intervals covers, and the order the lists are kept in.
use driftwatch.Base.{
  ℕ, ◌+◌, ◌≤◌, ◌<◌, ◌≡◌, refl, Bool, true, false, ◌&&◌, ◌||◌, none, some, List, [], ◌∷◌, leb,
  max_uint64, arith, inl, inr, Bool-cases,
}
use driftwatch.Seqtrack.GapSet.{Interval, GapSet, contains, find, search_first}

abbrev pub in_range : ℕ → ℕ → ℕ → Bool
in_range from to seq = leb from seq && leb seq to

-- The numbers of the intervals, in any order of the list.
unfoldable pub covers : List Interval → ℕ → Bool
covers [] seq = false
covers (i ∷ is) seq = in_range i.from i.to seq || covers is seq

-- The intervals rise from `b` on, are not empty, are uint64 ranges, and leave a hole between any two.
abbrev pub Sep : ℕ → List Interval → Type 0
Sep b [] = Unit {0}
Sep b (i ∷ is) = (b ≤ i.from) × (i.from ≤ i.to) × (i.to ≤ max_uint64) × Sep (i.to + 2) is

pub Sep-weaken : (a b : ℕ) (is : List Interval) → a ≤ b → Sep b is → Sep a is
Sep-weaken a b [] h s = tt
Sep-weaken a b (i ∷ is) h s = (omega arith, s.1, s.2, s.3)

-- Some numbers that pass stand at or on both sides of `seq`.
abbrev pub Within : (ℕ → Bool) → ℕ → Type 0
Within p seq = (lo : ℕ) × (hi : ℕ) × (p lo ≡ true) × (p hi ≡ true) × (lo ≤ seq) × (seq ≤ hi)

-- Nothing below the first interval is covered.
pub covers-below : (b seq : ℕ) (is : List Interval) → Sep b is → seq < b → covers is seq ≡ false
unfolding covers
covers-below b seq [] s h = refl
covers-below b seq (i ∷ is) s h = ground (arith, covers-below (i.to + 2) seq is s.3)

contains_intervals : ℕ → List Interval → Bool
contains_intervals seq is = elim (find seq is) [ none ↦ false | some k ↦ true ]

contains_intervals-covers :
    (b seq : ℕ) (is : List Interval) → Sep b is → contains_intervals seq is ≡ covers is seq
unfolding covers contains_intervals find search_first
contains_intervals-covers b seq [] s = refl
contains_intervals-covers b seq (i ∷ is) s = elim (Bool-cases (leb seq i.to)) [
  | inl here ↦ rw here (ground (arith, covers-below (i.to + 2) seq is s.3))
  | inr later ↦ rw later (ground (arith, contains_intervals-covers (i.to + 2) seq is s.3))
]

-- The binary search for a number finds it exactly if some interval covers it.
pub contains-covers :
    (g : GapSet) (seq : ℕ) → Sep 0 g.intervals → contains g seq ≡ covers g.intervals seq
unfolding contains contains_intervals
contains-covers g seq s = contains_intervals-covers 0 seq g.intervals s

pub covers-above :
    (b seq : ℕ) (is : List Interval) → Sep b is → max_uint64 < seq → covers is seq ≡ false
unfolding covers
covers-above b seq [] s h = refl
covers-above b seq (i ∷ is) s h = ground (arith, covers-above (i.to + 2) seq is s.3 h)
