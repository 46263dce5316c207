-- ===== src/Seqtrack/GapSet/Capping.antt =====
-- The cap on the number of intervals: what merging the closest pair keeps.
use driftwatch.Base.{
  ℕ, zero, suc, ◌+◌, ◌≤◌, ◌<◌, ◌≡◌, refl, Bool, true, false, ◌||◌, ◌&&◌, List, [], ◌∷◌, ltb,
  if◌then◌else◌, max_uint64, arith, inl, inr, Bool-cases, length, get_or, sub64, ◌⊎◌, ◌∙◌, subst,
  ap, ltb→lt,
}
use driftwatch.Seqtrack.GapSet.{
  Interval, GapSet, closest, merge_at, merge_closest, enforce_fuel, enforce_cap, no_interval,
}
use driftwatch.Seqtrack.GapSet.Covers.{covers, Sep, in_range, Within}

-- The hole after the interval at `k`.
abbrev pub hole_at : ℕ → List Interval → ℕ
hole_at k is = sub64 (get_or is (suc k) no_interval).from (get_or is k no_interval).to

-- Whether a number is in that hole.
abbrev pub in_hole : ℕ → List Interval → ℕ → Bool
in_hole k is seq =
    ltb (get_or is k no_interval).to seq && ltb seq (get_or is (suc k) no_interval).from

closest_range :
    (k best hole : ℕ) (is : List Interval)
    → (closest k best hole is ≡ best)
      ⊎ ((k ≤ closest k best hole is) × (closest k best hole is + 1 < k + length is))
unfolding closest
closest_range k best hole [] = inl refl
closest_range k best hole (i ∷ []) = inl refl
closest_range k best hole (i ∷ j ∷ is) =
    let here = sub64 j.from i.to in
    ground (
      arith,
      closest_range (suc k) (if ltb here hole then k else best)
          (if ltb here hole then here else hole) (j ∷ is),
    )

pub closest-lt-length :
    (hole : ℕ) (is : List Interval) → 1 < length is → closest 0 0 hole is + 1 < length is
closest-lt-length hole is h = ground (arith, closest_range 0 0 hole is)

hole_at-cons :
    (x : ℕ) (i : Interval) (is : List Interval)
    → x ≤ hole_at 0 (i ∷ is)
    → ((m : ℕ) → m + 1 < length is → x ≤ hole_at m is)
    → (m : ℕ) → m + 1 < length (i ∷ is)
    → x ≤ hole_at m (i ∷ is)
hole_at-cons x i is first others zero h = first
hole_at-cons x i is first others (suc m) h = others m (omega arith)

module _ (whole : List Interval) where
  -- `is` is what `whole` holds from `k` on.
  abbrev TailAt : ℕ → List Interval → Type 0
  TailAt k is = (m : ℕ) → get_or whole (k + m) no_interval ≡ get_or is m no_interval

  TailAt-next : (k : ℕ) (i : Interval) (is : List Interval) → TailAt k (i ∷ is) → TailAt (suc k) is
  TailAt-next k i is t m =
      subst (λ n. get_or whole n no_interval ≡ get_or is m no_interval)
        (let e : k + suc m ≡ suc k + m = omega arith in e) (t (suc m))

  hole_at-TailAt :
      (k m : ℕ) (is : List Interval) → TailAt k is → hole_at (k + m) whole ≡ hole_at m is
  hole_at-TailAt k m is t =
      let e : k + suc m ≡ suc (k + m) = omega arith in
      let after =
        subst (λ n. get_or whole n no_interval ≡ get_or is (suc m) no_interval) e (t (suc m)) in
      rw (t m, after)

  closest_minimal :
      (k best hole : ℕ) (is : List Interval)
      → TailAt k is
      → hole_at best whole ≤ hole
      → (hole_at (closest k best hole is) whole ≤ hole)
        × ((m : ℕ) → m + 1 < length is → hole_at (closest k best hole is) whole ≤ hole_at m is)
  unfolding closest
  closest_minimal k best hole [] t h = (h, λ m l. absurd (omega arith))
  closest_minimal k best hole (i ∷ []) t h = (h, λ m l. absurd (omega arith))
  closest_minimal k best hole (i ∷ j ∷ is) t h =
      let here : ℕ = sub64 j.from i.to in
      let at_k : hole_at k whole ≡ here =
        subst (λ n. hole_at n whole ≡ here) (let e : k + 0 ≡ k = omega arith in e)
          (hole_at-TailAt k 0 (i ∷ j ∷ is) t) in
      let next = TailAt-next k i (j ∷ is) t in
      elim (Bool-cases (ltb here hole)) [
        | inl less ↦
            let ih = closest_minimal (suc k) k here (j ∷ is) next (omega (arith, at_k)) in
            rw less
              (omega (arith, ih.0, ltb→lt here hole less), hole_at-cons _ i (j ∷ is) ih.0 ih.1)
        | inr more ↦
            let ih = closest_minimal (suc k) best hole (j ∷ is) next h in
            rw more (ih.0, hole_at-cons _ i (j ∷ is) (ground (arith, ih.0)) ih.1)
      ]

closest-minimal :
    (is : List Interval) (m : ℕ)
    → m + 1 < length is
    → hole_at (closest 0 0 max_uint64 is) is ≤ hole_at m is
closest-minimal is m h =
    (closest_minimal is 0 0 max_uint64 is
        (λ n. ap (λ (k : ℕ). get_or is k no_interval) (omega arith)) (omega arith)).1
      m h

pub length-merge_at :
    (k : ℕ) (is : List Interval) → k + 1 < length is → length (merge_at k is) + 1 ≡ length is
unfolding merge_at
length-merge_at k [] h = absurd (omega arith)
length-merge_at k (i ∷ []) h = absurd (omega arith)
length-merge_at zero (i ∷ j ∷ is) h = omega arith
length-merge_at (suc k) (i ∷ j ∷ is) h = omega (arith, length-merge_at k (j ∷ is))

merge_at-Sep : (k b : ℕ) (is : List Interval) → k + 1 < length is → Sep b is → Sep b (merge_at k is)
unfolding merge_at
merge_at-Sep k b [] h s = absurd (omega arith)
merge_at-Sep k b (i ∷ []) h s = absurd (omega arith)
merge_at-Sep zero b (i ∷ j ∷ is) h s = (s.0, omega arith, s.3.2, s.3.3)
merge_at-Sep (suc k) b (i ∷ j ∷ is) h s =
    (s.0, s.1, s.2, merge_at-Sep k (i.to + 2) (j ∷ is) (omega arith) s.3)

merge_at-covers :
    (k b seq : ℕ) (is : List Interval)
    → k + 1 < length is
    → Sep b is
    → covers is seq ≡ true
    → covers (merge_at k is) seq ≡ true
unfolding merge_at covers
merge_at-covers k b seq [] h s c = absurd (omega arith)
merge_at-covers k b seq (i ∷ []) h s c = absurd (omega arith)
merge_at-covers zero b seq (i ∷ j ∷ is) h s c = ground arith
merge_at-covers (suc k) b seq (i ∷ j ∷ is) h s c =
    ground (arith, merge_at-covers k (i.to + 2) seq (j ∷ is) (omega arith) s.3)

-- A merge covers only numbers between two that were covered.
merge_at-Within :
    (k b seq : ℕ) (is : List Interval)
    → k + 1 < length is
    → Sep b is
    → covers (merge_at k is) seq ≡ true
    → Within (covers is) seq
unfolding merge_at covers
merge_at-Within k b seq [] h s c = absurd (omega arith)
merge_at-Within k b seq (i ∷ []) h s c = absurd (omega arith)
merge_at-Within zero b seq (i ∷ j ∷ is) h s c = elim (Bool-cases (in_range i.from j.to seq)) [
  | inl inside ↦ (i.from, j.to, ground arith, ground arith, ground arith, ground arith)
  | inr outside ↦ (seq, seq, ground arith, ground arith, omega arith, omega arith)
]
merge_at-Within (suc k) b seq (i ∷ j ∷ is) h s c = elim (Bool-cases (in_range i.from i.to seq)) [
  | inl inside ↦ (seq, seq, ground arith, ground arith, omega arith, omega arith)
  | inr outside ↦
      let (lo, hi, covered, covered', below, above) =
        merge_at-Within k (i.to + 2) seq (j ∷ is) (omega arith) s.3 (ground arith) in
      (lo, hi, ground arith, ground arith, below, above)
]

-- A merge covers what was covered and the hole between the two.
merge_at-fills :
    (k b seq : ℕ) (is : List Interval)
    → k + 1 < length is
    → Sep b is
    → covers (merge_at k is) seq ≡ (covers is seq || in_hole k is seq)
unfolding merge_at covers
merge_at-fills k b seq [] h s = absurd (omega arith)
merge_at-fills k b seq (i ∷ []) h s = absurd (omega arith)
merge_at-fills zero b seq (i ∷ j ∷ is) h s = ground arith
merge_at-fills (suc k) b seq (i ∷ j ∷ is) h s =
    ground (arith, merge_at-fills k (i.to + 2) seq (j ∷ is) (omega arith) s.3)

-- What every merge keeps: an ordered list, the numbers that were covered, and the cap.
pub record Widens (g g' : GapSet) : Type 0 where
  pub separated : Sep 0 g'.intervals
  pub keeps : (seq : ℕ) → covers g.intervals seq ≡ true → covers g'.intervals seq ≡ true
  pub exact : g'.truncated ≡ false → g' ≡ g
  pub between : (seq : ℕ) → covers g'.intervals seq ≡ true → Within (covers g.intervals) seq
  pub same_cap : g'.max_intervals ≡ g.max_intervals
  pub only_over :
      g'.truncated ≡ true → (g.truncated ≡ true) ⊎ (g.max_intervals < length g.intervals)

module _ (g : GapSet) (s : Sep 0 g.intervals) (two : 1 < length g.intervals) where
  merge_closest-Sep : Sep 0 (merge_closest g).intervals
  unfolding merge_closest
  merge_closest-Sep =
      merge_at-Sep (closest 0 0 max_uint64 g.intervals) 0 g.intervals
        (closest-lt-length max_uint64 g.intervals two) s

  merge_closest-covers :
      (seq : ℕ) → covers g.intervals seq ≡ true → covers (merge_closest g).intervals seq ≡ true
  unfolding merge_closest
  merge_closest-covers seq =
      merge_at-covers (closest 0 0 max_uint64 g.intervals) 0 seq g.intervals
        (closest-lt-length max_uint64 g.intervals two) s

  merge_closest-Within :
      (seq : ℕ) → covers (merge_closest g).intervals seq ≡ true → Within (covers g.intervals) seq
  unfolding merge_closest
  merge_closest-Within seq =
      merge_at-Within (closest 0 0 max_uint64 g.intervals) 0 seq g.intervals
        (closest-lt-length max_uint64 g.intervals two) s

  length-merge_closest : length (merge_closest g).intervals + 1 ≡ length g.intervals
  unfolding merge_closest
  length-merge_closest =
      length-merge_at (closest 0 0 max_uint64 g.intervals) g.intervals
        (closest-lt-length max_uint64 g.intervals two)

-- What one merge does: the hole between two neighbours is filled, and none is smaller.
pub record Closes (g g' : GapSet) : Type 0 where
  pub at : ℕ
  pub inside : at + 1 < length g.intervals
  pub smallest :
      (m : ℕ) → m + 1 < length g.intervals → hole_at at g.intervals ≤ hole_at m g.intervals
  pub fills :
      (seq : ℕ) → covers g'.intervals seq ≡ (covers g.intervals seq || in_hole at g.intervals seq)
  pub one_less : length g'.intervals + 1 ≡ length g.intervals
  pub noted : g'.truncated ≡ true

-- One round of the cap, on two or more intervals in order and apart, joins two neighbours between which
-- the hole is no larger than between any others: after it the set holds what it held and the numbers
-- of that hole, in one interval less, and is truncated.
pub merge_closest-Closes :
    (g : GapSet) → Sep 0 g.intervals → 1 < length g.intervals → Closes g (merge_closest g)
unfolding merge_closest
merge_closest-Closes g s two = record {
  at = closest 0 0 max_uint64 g.intervals;
  inside = closest-lt-length max_uint64 g.intervals two;
  smallest = closest-minimal g.intervals;
  fills = λ seq.
      merge_at-fills (closest 0 0 max_uint64 g.intervals) 0 seq g.intervals
        (closest-lt-length max_uint64 g.intervals two) s;
  one_less = length-merge_closest g s two;
  noted = refl;
}

merge_closest-truncated :
    (g : GapSet)
    → ((merge_closest g).truncated ≡ true) × ((merge_closest g).max_intervals ≡ g.max_intervals)
unfolding merge_closest
merge_closest-truncated g = (refl, refl)

enforce_fuel-truncated :
    (fuel : ℕ) (g : GapSet) → g.truncated ≡ true → (enforce_fuel fuel g).truncated ≡ true
unfolding enforce_fuel
enforce_fuel-truncated zero g t = t
enforce_fuel-truncated (suc fuel) g t =
    ground (arith, enforce_fuel-truncated fuel (merge_closest g) (merge_closest-truncated g).0)

Within-trans :
    {p q : ℕ → Bool}
    → ((seq : ℕ) → q seq ≡ true → Within p seq)
    → (seq : ℕ) → Within q seq
    → Within p seq
Within-trans h seq (lo, hi, qlo, qhi, below, above) =
    let (lo', hi1, plo, phi1, below', above1) = h lo qlo in
    let (lo2, hi', plo2, phi, below2, above') = h hi qhi in
    (lo', hi', plo, phi, omega arith, omega arith)

enforce_fuel-Widens :
    (fuel : ℕ) (g : GapSet)
    → 1 ≤ g.max_intervals
    → Sep 0 g.intervals
    → Widens g (enforce_fuel fuel g)
unfolding enforce_fuel
enforce_fuel-Widens zero g p s = record {
  separated = s;
  keeps = λ seq c. c;
  exact = λ e. refl;
  between = λ seq c. (seq, seq, c, c, omega arith, omega arith);
  same_cap = refl;
  only_over = λ t. inl t;
}
enforce_fuel-Widens (suc fuel) g p s =
    elim (Bool-cases (ltb g.max_intervals (length g.intervals))) [
      | inr fits ↦ rw fits (record {
        separated = s;
        keeps = λ seq c. c;
        exact = λ e. refl;
        between = λ seq c. (seq, seq, c, c, omega arith, omega arith);
        same_cap = refl;
        only_over = λ t. inl t;
      })
      | inl over ↦
          let two : 1 < length g.intervals = ground arith in
          let m = merge_closest g in
          let rest =
            enforce_fuel-Widens fuel m (ground (arith, merge_closest-truncated g))
              (merge_closest-Sep g s two) in
          rw over (record {
            separated = rest.separated;
            keeps = λ seq c. rest.keeps seq (merge_closest-covers g s two seq c);
            exact = λ e. absurd (cc (enforce_fuel-truncated fuel m (merge_closest-truncated g).0));
            between = λ seq c. Within-trans (merge_closest-Within g s two) seq (rest.between seq c);
            same_cap = rest.same_cap ∙ (merge_closest-truncated g).1;
            only_over = λ t. inr (ground arith);
          })
    ]

-- The fuel is enough: the loop ends with the list within the cap.
enforce_fuel-capped :
    (fuel : ℕ) (g : GapSet)
    → 1 ≤ g.max_intervals
    → Sep 0 g.intervals
    → length g.intervals ≤ fuel
    → length (enforce_fuel fuel g).intervals ≤ g.max_intervals
unfolding enforce_fuel
enforce_fuel-capped zero g p s h = omega arith
enforce_fuel-capped (suc fuel) g p s h =
    elim (Bool-cases (ltb g.max_intervals (length g.intervals))) [
      | inr fits ↦ rw fits (ground arith)
      | inl over ↦
          let two : 1 < length g.intervals = ground arith in
          rw over (
            omega (
              arith,
              enforce_fuel-capped fuel (merge_closest g) (ground (arith, merge_closest-truncated g))
                  (merge_closest-Sep g s two) (omega (arith, length-merge_closest g s two)),
              (merge_closest-truncated g).1,
            ))
    ]

pub enforce_cap-Widens :
    (g : GapSet) → 1 ≤ g.max_intervals → Sep 0 g.intervals → Widens g (enforce_cap g)
unfolding enforce_cap
enforce_cap-Widens g = enforce_fuel-Widens (length g.intervals) g

pub enforce_cap-capped :
    (g : GapSet)
    → 1 ≤ g.max_intervals
    → Sep 0 g.intervals
    → length (enforce_cap g).intervals ≤ g.max_intervals
unfolding enforce_cap
enforce_cap-capped g p s = enforce_fuel-capped (length g.intervals) g p s (omega arith)
