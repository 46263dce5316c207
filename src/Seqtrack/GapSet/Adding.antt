-- ===== src/Seqtrack/GapSet/Adding.antt =====
-- Adding a range, before the cap is enforced.
use driftwatch.Base.{
  ℕ, suc, ◌+◌, ◌≤◌, ◌<◌, ◌≡◌, refl, true, false, ◌||◌, List, [], ◌∷◌, ltb, leb, if◌then◌else◌,
  max_uint64, arith, inl, inr, Bool-cases, length, drop, get_or,
}
use driftwatch.Seqtrack.GapSet.{Interval, add_intervals, absorbed, splice, reaches, no_interval}
use driftwatch.Seqtrack.GapSet.Covers.{covers, Sep, in_range}

absorbed_max : (is : List Interval) → absorbed max_uint64 is ≡ length is
unfolding absorbed
absorbed_max [] = refl
absorbed_max (i ∷ is) = refl

absorbed_nil : (to : ℕ) → absorbed to [] ≡ 0
unfolding absorbed
absorbed_nil to = refl

absorbed-near :
    (to : ℕ) (i : Interval) (is : List Interval)
    → to ≤ max_uint64
    → i.from ≤ to + 1
    → absorbed to (i ∷ is) ≡ suc (absorbed to is)
unfolding absorbed
absorbed-near to i is h near = ground (arith, absorbed_max is)

absorbed-far : (b to : ℕ) (is : List Interval) → Sep b is → to + 1 < b → absorbed to is ≡ 0
unfolding absorbed
absorbed-far b to [] s h = refl
absorbed-far b to (i ∷ is) s h = ground arith

abbrev last_of : ℕ → List Interval → Interval
last_of n is = get_or is n no_interval

-- The merged interval and what follows cover what the list and [a, to] covered.
absorbed-covers :
    (a to seq : ℕ) (i : Interval) (is : List Interval) (b : ℕ)
    → Sep b (i ∷ is)
    → to ≤ max_uint64
    → a ≤ i.from
    → a ≤ to
    → i.from ≤ to + 1
    → let n = absorbed to is in
      let end = (last_of n (i ∷ is)).to in
      (in_range a (if ltb to end then end else to) seq || covers (drop n is) seq)
      ≡ (covers (i ∷ is) seq || in_range a to seq)
unfolding covers
absorbed-covers a to seq i [] b s h h1 h2 h3 = rw (absorbed_nil to) (ground arith)
absorbed-covers a to seq i (j ∷ is) b s h h1 h2 h3 = elim (Bool-cases (ltb (to + 1) j.from)) [
  | inl far ↦ rw (absorbed-far j.from to (j ∷ is) (ground arith) (ground arith)) (ground arith)
  | inr near ↦ rw (absorbed-near to j is h (ground arith)) (
      ground
        (arith, absorbed-covers a to seq j is (i.to + 2) s.3 h (ground arith) h2 (ground arith)))
]

-- The interval after the absorbed ones starts above both ends.
absorbed-Sep :
    (to : ℕ) (i : Interval) (is : List Interval) (b : ℕ)
    → Sep b (i ∷ is)
    → to ≤ max_uint64
    → i.from ≤ to + 1
    → let n = absorbed to is in
      let end = (last_of n (i ∷ is)).to in
      (end ≤ max_uint64) × Sep ((if ltb to end then end else to) + 2) (drop n is)
absorbed-Sep to i [] b s h h1 = ground arith
absorbed-Sep to i (j ∷ is) b s h h1 = elim (Bool-cases (ltb (to + 1) j.from)) [
  | inl far ↦ rw (absorbed-far j.from to (j ∷ is) (ground arith) (ground arith)) (ground arith)
  | inr near ↦
      rw (absorbed-near to j is h (ground arith))
        (absorbed-Sep to j is (i.to + 2) s.3 h (ground arith))
]

module _ (from to : ℕ) (ordered : from ≤ to) (fits : to ≤ max_uint64) where
  reaches_lem : (i : Interval) → i.to ≤ max_uint64 → reaches from i ≡ leb from (i.to + 1)
  unfolding reaches
  reaches_lem i h = ground arith

  add_intervals-skip :
      (i : Interval) (is : List Interval)
      → reaches from i ≡ false
      → add_intervals from to (i ∷ is) ≡ i ∷ add_intervals from to is
  unfolding add_intervals
  add_intervals-skip i is far = rw (far, add_intervals)

  add_intervals-here :
      (i : Interval) (is : List Interval)
      → reaches from i ≡ true
      → add_intervals from to (i ∷ is) ≡ splice from to (i ∷ is) (absorbed to (i ∷ is))
  unfolding add_intervals
  add_intervals-here i is near = rw (near, add_intervals)

  splice-covers :
      (b seq : ℕ) (i : Interval) (is : List Interval)
      → Sep b (i ∷ is)
      → from ≤ i.to + 1
      → covers (splice from to (i ∷ is) (absorbed to (i ∷ is))) seq
        ≡ (covers (i ∷ is) seq || in_range from to seq)
  unfolding covers splice
  splice-covers b seq i is s near = elim (Bool-cases (ltb (to + 1) i.from)) [
    | inl far ↦ rw (absorbed-far i.from to (i ∷ is) (ground arith) (ground arith)) (ground arith)
    | inr near' ↦
        let a = if ltb i.from from then i.from else from in
        rw (absorbed-near to i is fits (ground arith)) (
          ground (
            arith,
            absorbed-covers a to seq i is b s fits (ground arith) (ground arith) (ground arith),
          ))
  ]

  splice-Sep :
      (b : ℕ) (i : Interval) (is : List Interval)
      → Sep b (i ∷ is)
      → b ≤ from
      → Sep b (splice from to (i ∷ is) (absorbed to (i ∷ is)))
  unfolding splice
  splice-Sep b i is s h = elim (Bool-cases (ltb (to + 1) i.from)) [
    | inl far ↦ rw (absorbed-far i.from to (i ∷ is) (ground arith) (ground arith)) (ground arith)
    | inr near ↦
        rw (absorbed-near to i is fits (ground arith))
          (ground (arith, absorbed-Sep to i is b s fits (ground arith)))
  ]

  -- Exactly the new range is covered besides what was covered before.
  pub add_intervals-covers :
      (b seq : ℕ) (is : List Interval)
      → Sep b is
      → covers (add_intervals from to is) seq ≡ (covers is seq || in_range from to seq)
  unfolding covers
  add_intervals-covers b seq [] s = unfold add_intervals in ground arith
  add_intervals-covers b seq (i ∷ is) s = elim (Bool-cases (reaches from i)) [
    | inr far ↦
        rw (add_intervals-skip i is far)
          (ground (arith, add_intervals-covers (i.to + 2) seq is s.3))
    | inl near ↦
        rw (add_intervals-here i is near)
          (splice-covers b seq i is s (ground (arith, reaches_lem i)))
  ]

  -- The list stays in order.
  pub add_intervals-Sep :
      (b : ℕ) (is : List Interval) → Sep b is → b ≤ from → Sep b (add_intervals from to is)
  add_intervals-Sep b [] s h = unfold add_intervals in ground arith
  add_intervals-Sep b (i ∷ is) s h = elim (Bool-cases (reaches from i)) [
    | inr far ↦
        rw (add_intervals-skip i is far)
          (ground (arith, reaches_lem i, add_intervals-Sep (i.to + 2) is s.3))
    | inl near ↦ rw (add_intervals-here i is near) (splice-Sep b i is s h)
  ]
