-- ===== src/Seqtrack/GapSet/Counting.antt =====
-- How many numbers a list of intervals covers.
use driftwatch.Base.{
  ℕ, zero, suc, ◌+◌, ◌-◌, ◌%◌, ◌≤◌, ◌<◌, ◌≡◌, refl, Bool, true, false, ◌||◌, List, [], ◌∷◌, ◌==◌,
  if◌then◌else◌, max_uint64, arith, inl, inr, Bool-cases, two64, add64, ◌⊎◌, subst,
}
use Prim.Native.Nat.{min}
use driftwatch.Seqtrack.GapSet.{Interval, GapSet, interval_count, count_from, count}
use driftwatch.Seqtrack.GapSet.Covers.{covers, Sep, in_range, covers-below}

-- How many numbers below `n` pass the test.
pub tally : ℕ → (ℕ → Bool) → ℕ
tally zero p = 0
tally (suc n) p = if p n then suc (tally n p) else tally n p

tally-or :
    (n : ℕ) (p q : ℕ → Bool)
    → ((k : ℕ) → p k ≡ true → q k ≡ false)
    → tally n (λ k. p k || q k) ≡ tally n p + tally n q
unfolding tally
tally-or zero p q apart = omega arith
tally-or (suc n) p q apart = ground (arith, tally-or n p q apart, apart n)

tally-in_range : (n from to : ℕ) → from ≤ to → tally n (in_range from to) ≡ min n (to + 1) - from
unfolding tally
tally-in_range zero from to h = omega arith
tally-in_range (suc n) from to h = ground (arith, tally-in_range n from to h)

tally-none : (n : ℕ) → tally n (λ k. false) ≡ 0
unfolding tally
tally-none zero = refl
tally-none (suc n) = tally-none n

-- The sum of the lengths, with no wrap-around.
pub size : List Interval → ℕ
size [] = 0
size (i ∷ is) = i.to + 1 - i.from + size is

pub size-tally :
    (b n : ℕ) (is : List Interval) → Sep b is → max_uint64 < n → size is ≡ tally n (covers is)
unfolding size covers
size-tally b n [] s h = rw tally-none
size-tally b n (i ∷ is) s h = omega (
  arith,
  size-tally (i.to + 2) n is s.3 h,
  tally-or n (in_range i.from i.to) (covers is)
      (λ k c. covers-below (i.to + 2) k is s.3 (ground arith)),
  tally-in_range n i.from i.to s.1,
)

-- Without the largest number the total stays below 2^64.
size_bound :
    (b : ℕ) (is : List Interval)
    → Sep b is
    → covers is max_uint64 ≡ false
    → (size is ≡ 0) ⊎ (b + size is ≤ max_uint64)
unfolding size covers
size_bound b [] s c = inl refl
size_bound b (i ∷ is) s c = ground (arith, size_bound (i.to + 2) is s.3)

count_from_lem :
    (b total : ℕ) (is : List Interval)
    → Sep b is
    → total < two64
    → count_from total is ≡ (total + size is) % two64
unfolding count_from size interval_count
count_from_lem b total [] s h = omega arith
count_from_lem b total (i ∷ is) s h =
    omega (arith, count_from_lem (i.to + 2) (add64 total (interval_count i)) is s.3 (omega arith))

-- The count is exact as long as the largest number is not among the missing.
pub count-tally :
    (g : GapSet)
    → Sep 0 g.intervals
    → covers g.intervals max_uint64 ≡ false
    → count g ≡ tally two64 (covers g.intervals)
unfolding count
count-tally g s c = omega (
  arith,
  count_from_lem 0 0 g.intervals s (omega arith),
  size_bound 0 g.intervals s c,
  size-tally 0 two64 g.intervals s (omega arith),
)

-- A tally is zero exactly when nothing passes.
pub tally-zero : (n k : ℕ) (p : ℕ → Bool) → tally n p ≡ 0 → k < n → p k ≡ false
unfolding tally
tally-zero zero k p e h = elim h [ ]
tally-zero (suc n) k p e h = elim (Bool-cases (k == n)) [
  | inl here ↦ subst (λ j. p j ≡ false) (let eq : n ≡ k = ground arith in eq) (ground arith)
  | inr below ↦ ground (arith, tally-zero n k p)
]

pub tally-zero_of : (n : ℕ) (p : ℕ → Bool) → ((k : ℕ) → k < n → p k ≡ false) → tally n p ≡ 0
unfolding tally
tally-zero_of zero p h = refl
tally-zero_of (suc n) p h = ground (arith, h n, tally-zero_of n p (λ k l. h k (omega arith)))
