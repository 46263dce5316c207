-- ===== src/Seqtrack/GapSet/Laws.antt =====
-- What the operations of a gap set promise, for sets that satisfy its invariant.
use driftwatch.Base.{
  ◌≤◌, ◌≡◌, refl, true, false, ◌&&◌, ◌||◌, not, some, ltb, ◌==◌, max_uint64, arith, inl, inr,
  Bool-cases, length, two64, subst, ℕ, Bool, List, ◌<◌, ◌⊎◌, ◌↔◌, ap, ◌∙◌, sym, ltb→lt,
}
use mathlib.Core.Path.{fun_ext}
use driftwatch.Seqtrack.GapSet.Canonical.{length-Same}
use driftwatch.Seqtrack.GapSet.{
  Interval, GapSet, new_gap_set, contains, add, add_intervals, enforce_cap, fill, count, clear,
}
use driftwatch.Seqtrack.GapSet.Covers.{covers, Sep, in_range, contains-covers, covers-above, Within}
use driftwatch.Seqtrack.GapSet.Adding.{add_intervals-covers, add_intervals-Sep}
use driftwatch.Seqtrack.GapSet.Filling.{filled, filled-covers, filled-Sep, fill_cases}
use driftwatch.Seqtrack.GapSet.Capping.{Widens, enforce_cap-Widens, enforce_cap-capped}
use driftwatch.Seqtrack.GapSet.Counting.{tally, count-tally, tally-zero, tally-zero_of}

-- The intervals are in order and apart, and within a cap that is at least one.
pub record IsGapSet (g : GapSet) : Type 0 where
  pub positive : 1 ≤ g.max_intervals
  pub separated : Sep 0 g.intervals
  pub capped : length g.intervals ≤ g.max_intervals

pub new_gap_set-IsGapSet : (n : ℕ) → IsGapSet (new_gap_set n)
unfolding new_gap_set
new_gap_set-IsGapSet n = ground arith

pub new_gap_set-contains : (n seq : ℕ) → contains (new_gap_set n) seq ≡ false
unfolding new_gap_set contains
new_gap_set-contains n seq = refl

pub clear-IsGapSet : (g : GapSet) → IsGapSet g → IsGapSet (clear g)
unfolding clear
clear-IsGapSet g v = record { positive = v.positive; separated = tt; capped = omega arith }

pub clear-contains : (g : GapSet) (seq : ℕ) → contains (clear g) seq ≡ false
unfolding clear contains
clear-contains g seq = refl

-- Every list of intervals, in order and apart, for the numbers that pass is longer than the cap.
abbrev pub NoRoom : ℕ → (ℕ → Bool) → Type 0
NoRoom cap p =
    (is : List Interval) → Sep 0 is → ((seq : ℕ) → covers is seq ≡ p seq) → cap < length is

-- What the set holds after `from` to `to` is added: all it held and the range, and numbers besides
-- those only if the cap was ever exceeded, which is now if these numbers have no room within it.
pub record Added (g : GapSet) (from to : ℕ) (g' : GapSet) : Type 0 where
  pub valid : IsGapSet g'
  pub holds : (seq : ℕ) → (contains g seq || in_range from to seq) ≡ true → contains g' seq ≡ true
  pub exact :
      g'.truncated ≡ false
      → (g.truncated ≡ false)
        × ((seq : ℕ) → contains g' seq ≡ (contains g seq || in_range from to seq))
  pub between :
      (seq : ℕ) → contains g' seq ≡ true → Within (λ n. contains g n || in_range from to n) seq
  pub only_full :
      g'.truncated ≡ true
      → (g.truncated ≡ true) ⊎ NoRoom g.max_intervals (λ n. contains g n || in_range from to n)

-- A set whose own intervals are too many has no room.
no_room :
    (h : GapSet) (is : List Interval) (p : ℕ → Bool)
    → Sep 0 h.intervals
    → ((seq : ℕ) → covers h.intervals seq ≡ p seq)
    → Sep 0 is
    → ((seq : ℕ) → covers is seq ≡ p seq)
    → h.max_intervals < length h.intervals
    → h.max_intervals < length is
no_room h is p s same s' same' over =
    omega (arith, over, length-Same 0 h.intervals is s s' (λ seq. same seq ∙ sym (same' seq)))

module _ (g : GapSet) (v : IsGapSet g) (from to : ℕ) (ordered : from ≤ to)
    (fits : to ≤ max_uint64) where
  wider : GapSet
  wider = record g { intervals = add_intervals from to g.intervals }

  wider-Sep : Sep 0 wider.intervals
  unfolding wider
  wider-Sep = add_intervals-Sep from to ordered fits 0 g.intervals v.separated (omega arith)

  wider-covers : (seq : ℕ) → covers wider.intervals seq ≡ (contains g seq || in_range from to seq)
  unfolding wider
  wider-covers seq =
      rw (contains-covers g seq v.separated)
        (add_intervals-covers from to ordered fits 0 seq g.intervals v.separated)

  wider-Widens : Widens wider (enforce_cap wider)
  wider-Widens = enforce_cap-Widens wider (unfold wider in v.positive) wider-Sep

  enforced-Added : Added g from to (enforce_cap wider)
  enforced-Added =
      let w = wider-Widens in
      record {
        valid = record {
          positive = rw (w.same_cap) (unfold wider in v.positive);
          separated = w.separated;
          capped =
              rw (w.same_cap) (enforce_cap-capped wider (unfold wider in v.positive) wider-Sep);
        };
        holds = λ seq c.
            contains-covers (enforce_cap wider) seq w.separated
            ∙ w.keeps seq (wider-covers seq ∙ c);
        exact = λ e. (
          unfold wider in (ap (λ (h : GapSet). h.truncated) (sym (w.exact e)) ∙ e),
          λ seq.
              contains-covers (enforce_cap wider) seq w.separated
              ∙ (ap (λ (h : GapSet). covers h.intervals seq) (w.exact e) ∙ wider-covers seq),
        );
        between = λ seq c.
            subst (λ p. Within p seq) (fun_ext wider-covers)
              (w.between seq (sym (contains-covers (enforce_cap wider) seq w.separated) ∙ c));
        only_full = λ e. elim (w.only_over e) [
          | inl before ↦ inl (unfold wider in before)
          | inr over ↦
              inr (λ is s same.
                unfold wider in (no_room wider is _ wider-Sep wider-covers s same over))
        ];
      }

  -- Adding an ordered range of uint64 numbers to a valid set does not panic, and gives a valid set
  -- that holds all it held and the range; if the result is not truncated it holds nothing else, and
  -- in any case nothing outside of two numbers that it should hold. The result is truncated only if
  -- the set was, or if no list of separate intervals within the cap has exactly what the set held and
  -- the range.
  pub add-Added : (g' : GapSet) × (add g from to ≡ some g') × Added g from to g'
  unfolding add wider
  add-Added = (enforce_cap wider, ground arith, enforced-Added)

-- What the set holds after `seq` is filled: all it held but `seq`, and more only if the cap was ever
-- exceeded, likewise.
pub record Filled (g : GapSet) (seq : ℕ) (g' : GapSet) : Type 0 where
  pub valid : IsGapSet g'
  pub holds : (n : ℕ) → (contains g n && not (n == seq)) ≡ true → contains g' n ≡ true
  pub exact :
      g'.truncated ≡ false
      → (g.truncated ≡ false) × ((n : ℕ) → contains g' n ≡ (contains g n && not (n == seq)))
  pub between : (n : ℕ) → contains g' n ≡ true → Within (λ k. contains g k && not (k == seq)) n
  pub only_full :
      g'.truncated ≡ true
      → (g.truncated ≡ true) ⊎ NoRoom g.max_intervals (λ n. contains g n && not (n == seq))

module _ (g : GapSet) (v : IsGapSet g) (seq : ℕ) where
  without : GapSet
  without = record g { intervals = filled seq g.intervals }

  without-Sep : Sep 0 without.intervals
  unfolding without
  without-Sep = filled-Sep 0 seq g.intervals v.separated

  without-covers : (n : ℕ) → covers without.intervals n ≡ (contains g n && not (n == seq))
  unfolding without
  without-covers n =
      rw (contains-covers g n v.separated) (filled-covers 0 seq n g.intervals v.separated)

  without-contains : (n : ℕ) → contains without n ≡ (contains g n && not (n == seq))
  without-contains n = contains-covers without n without-Sep ∙ without-covers n

  without-Filled : length without.intervals ≤ length g.intervals → Filled g seq without
  unfolding without
  without-Filled h = record {
    valid = record {
      positive = v.positive;
      separated = without-Sep;
      capped = omega (arith, v.capped);
    };
    holds = λ n c. without-contains n ∙ c;
    exact = λ e. (e, without-contains);
    between = λ n c. (
      n,
      n,
      sym (without-contains n) ∙ c,
      sym (without-contains n) ∙ c,
      omega arith,
      omega arith,
    );
    only_full = λ e. inl e;
  }

  enforced-Filled : Filled g seq (enforce_cap without)
  unfolding without
  enforced-Filled =
      let w = enforce_cap-Widens without v.positive without-Sep in
      record {
        valid = record {
          positive = rw (w.same_cap) (v.positive);
          separated = w.separated;
          capped = rw (w.same_cap) (enforce_cap-capped without v.positive without-Sep);
        };
        holds = λ n c.
            contains-covers (enforce_cap without) n w.separated ∙ w.keeps n (without-covers n ∙ c);
        exact = λ e. (
          ap (λ (h : GapSet). h.truncated) (sym (w.exact e)) ∙ e,
          λ n. ap (λ (h : GapSet). contains h n) (w.exact e) ∙ without-contains n,
        );
        between = λ n c.
            subst (λ p. Within p n) (fun_ext without-covers)
              (w.between n (sym (contains-covers (enforce_cap without) n w.separated) ∙ c));
        only_full = λ e. elim (w.only_over e) [
          | inl before ↦ inl before
          | inr over ↦
              inr (λ is s same. no_room without is _ without-Sep without-covers s same over)
        ];
      }

  -- Filling a number leaves a valid set that holds all it held but that number; if the result is not
  -- truncated it holds exactly that, and in any case nothing outside of two numbers that it should
  -- hold. The result is truncated only if the set was, or if no list of separate intervals within the
  -- cap has exactly what the set held but that number.
  pub fill-Filled : Filled g seq (fill g seq)
  unfolding without
  fill-Filled = elim (fill_cases g seq) [
    | inl (e, short) ↦ subst (Filled g seq) (sym e) (without-Filled short)
    | inr e ↦ subst (Filled g seq) (sym e) enforced-Filled
  ]

-- For a valid set in which 2^64 - 1 is not missing, `count` is the exact number of the uint64 numbers
-- that the set contains.
pub count-contains :
    (g : GapSet) → IsGapSet g → contains g max_uint64 ≡ false → count g ≡ tally two64 (contains g)
count-contains g v top =
    rw (fun_ext (λ seq. contains-covers g seq v.separated))
      (count-tally g v.separated (sym (contains-covers g max_uint64 v.separated) ∙ top))

pub count-zero_iff :
    (g : GapSet)
    → IsGapSet g
    → contains g max_uint64 ≡ false
    → (count g ≡ 0) ↔ ((seq : ℕ) → contains g seq ≡ false)
count-zero_iff g v top = (
  λ e seq. contains-covers g seq v.separated ∙ elim (Bool-cases (ltb seq two64)) [
    | inl small ↦
        tally-zero two64 seq (covers g.intervals) (sym tallied ∙ e) (ltb→lt seq two64 small)
    | inr large ↦ covers-above 0 seq g.intervals v.separated (ground arith)
  ],
  λ none_missing. count-contains g v top ∙ tally-zero_of two64 (contains g) (λ k _. none_missing k),
)
  where
    tallied : count g ≡ tally two64 (covers g.intervals)
    tallied = count-tally g v.separated (sym (contains-covers g max_uint64 v.separated) ∙ top)
