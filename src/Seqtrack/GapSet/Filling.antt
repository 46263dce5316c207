-- ===== src/Seqtrack/GapSet/Filling.antt =====
-- Filling one number, before the cap is enforced.
use driftwatch.Base.{
  ℕ, zero, suc, ◌+◌, ◌≤◌, ◌<◌, ◌≡◌, refl, true, false, ◌&&◌, not, none, some, List, [], ◌∷◌, ◌++◌,
  leb, ◌==◌, if◌then◌else◌, arith, inl, inr, Bool-cases, Option-cases, length, get_or, sub64, ◌⊎◌,
  length-append,
}
use driftwatch.Seqtrack.GapSet.{
  Interval, GapSet, fill, enforce_cap, find, split_at, replace_at, search_first, no_interval,
}
use driftwatch.Seqtrack.GapSet.Covers.{covers, Sep, covers-below, Sep-weaken}

-- The list that `fill` builds before it looks at the cap.
unfoldable pub filled : ℕ → List Interval → List Interval
filled seq is = elim (find seq is) [
  | none ↦ is
  | some k ↦ replace_at k (split_at seq (get_or is k no_interval)).0 is
]

find-later :
    (seq : ℕ) (i : Interval) (is : List Interval)
    → leb seq i.to ≡ false
    → ((find seq is ≡ none) × (find seq (i ∷ is) ≡ none))
      ⊎ ((k : ℕ) × (find seq is ≡ some k) × (find seq (i ∷ is) ≡ some (suc k)))
unfolding find search_first
find-later seq i is later = rw (later, find) (ground arith)

filled-skip :
    (seq : ℕ) (i : Interval) (is : List Interval)
    → leb seq i.to ≡ false
    → filled seq (i ∷ is) ≡ i ∷ filled seq is
unfolding filled replace_at
filled-skip seq i is later = elim (find-later seq i is later) [
  | inl (a, b) ↦ rw (a, b, filled)
  | inr (k, a, b) ↦ rw (a, b, filled)
]

filled-here :
    (seq : ℕ) (i : Interval) (is : List Interval)
    → leb seq i.to ≡ true
    → filled seq (i ∷ is) ≡ (if leb i.from seq then (split_at seq i).0 ++ is else i ∷ is)
unfolding filled replace_at find search_first
filled-here seq i is here = rw (here, filled, find) (ground arith)

-- The filled number is covered no longer, and nothing else changes.
pub filled-covers :
    (b seq n : ℕ) (is : List Interval)
    → Sep b is
    → covers (filled seq is) n ≡ (covers is n && not (n == seq))
unfolding covers
filled-covers b seq n [] s = unfold filled find search_first in refl
filled-covers b seq n (i ∷ is) s = elim (Bool-cases (leb seq i.to)) [
  | inr later ↦
      rw (filled-skip seq i is later) (ground (arith, filled-covers (i.to + 2) seq n is s.3))
  | inl here ↦ rw (filled-here seq i is here) (
      unfold split_at in
      ground (arith, covers-below (i.to + 2) seq is s.3, covers-below (i.to + 2) n is s.3))
]

-- What is left of an interval that holds `seq`.
split_at-Sep :
    (b seq : ℕ) (i : Interval) (is : List Interval)
    → Sep b (i ∷ is)
    → leb i.from seq ≡ true
    → leb seq i.to ≡ true
    → Sep b ((split_at seq i).0 ++ is)
unfolding split_at
split_at-Sep b seq i is s above below = elim (Bool-cases (i.from == i.to)) [
  | inl one ↦ rw one (Sep-weaken b (i.to + 2) is (ground arith) s.3)
  | inr more ↦ elim (Bool-cases (seq == i.from)) [
    | inl first ↦ rw (more, first) (ground arith)
    | inr inside ↦ elim (Bool-cases (seq == i.to)) [
      | inl last ↦
          rw (more, inside, last) (ground (arith, Sep-weaken (sub64 seq 1 + 2) (i.to + 2) is))
      | inr interior ↦ rw (more, inside, interior) (ground arith)
    ]
  ]
]

pub filled-Sep : (b seq : ℕ) (is : List Interval) → Sep b is → Sep b (filled seq is)
filled-Sep b seq [] s = unfold filled find search_first in tt
filled-Sep b seq (i ∷ is) s = elim (Bool-cases (leb seq i.to)) [
  | inr later ↦ rw (filled-skip seq i is later) (s.0, s.1, s.2, filled-Sep (i.to + 2) seq is s.3)
  | inl here ↦ rw (filled-here seq i is here) (elim (Bool-cases (leb i.from seq)) [
    | inl above ↦ rw above (split_at-Sep b seq i is s above here)
    | inr below ↦ rw below s
  ])
]

length-replace_at :
    (k : ℕ) (new is : List Interval)
    → k < length is
    → length (replace_at k new is) + 1 ≡ length new + length is
unfolding replace_at
length-replace_at k new [] h = absurd (omega arith)
length-replace_at zero new (i ∷ is) h = omega (arith, length-append new is)
length-replace_at (suc k) new (i ∷ is) h = omega (arith, length-replace_at k new is (omega arith))

find-lt-length : (seq k : ℕ) (is : List Interval) → find seq is ≡ some k → k < length is
find-lt-length seq k [] e = unfold find search_first in cc
find-lt-length seq k (i ∷ is) e = elim (Bool-cases (leb seq i.to)) [
  | inl here ↦ unfold find search_first in ground arith
  | inr later ↦ elim (find-later seq i is later) [
    | inl (a, b) ↦ cc
    | inr (j, a, b) ↦ ground (arith, find-lt-length seq j is a)
  ]
]

split_at-short :
    (seq : ℕ) (i : Interval) → (split_at seq i).1 ≡ false → length (split_at seq i).0 ≤ 1
unfolding split_at
split_at-short seq i e = ground arith

-- `fill` gives the filled list, and looks at the cap where the list can have grown.
pub fill_cases :
    (g : GapSet) (seq : ℕ)
    → let h = record g { intervals = filled seq g.intervals } in
      ((fill g seq ≡ h) × (length h.intervals ≤ length g.intervals)) ⊎ (fill g seq ≡ enforce_cap h)
unfolding fill filled
fill_cases g seq = elim (Option-cases (find seq g.intervals)) [
  | inl e ↦ inl (rw (e, fill, filled), rw (e, filled) (omega arith))
  | inr (k, e) ↦
      let i = get_or g.intervals k no_interval in
      elim (Bool-cases (split_at seq i).1) [
        | inl grown ↦ inr (rw (e, fill, filled) (rw grown))
        | inr same ↦ inl (
          rw (e, fill, filled) (rw same),
          rw (e, filled)
              (omega (
                arith,
                length-replace_at k (split_at seq i).0 g.intervals
                    (find-lt-length seq k g.intervals e),
                split_at-short seq i same,
              )),
        )
      ]
]
