-- ===== src/Seqtrack/GapSet.antt =====
-- pkg/seqtrack/gapset.go: the missing sequence numbers of one publisher, as intervals.
-- Sequence numbers are uint64 values, held as natural numbers; where the code's arithmetic can wrap
-- the wrap is written out. `sort.Search` is the first position at which its test holds.
pub mod Covers
pub mod Canonical
pub mod Adding
pub mod Filling
pub mod Capping
pub mod Counting
pub mod Laws
use driftwatch.Base.{
  ℕ, zero, suc, ◌+◌, ◌-◌, ◌≡◌, refl, Bool, true, false, ◌&&◌, not, Option, none, some, List, [],
  ◌∷◌, ◌++◌, ltb, leb, ◌==◌, if◌then◌else◌, max_uint64, two64, add64, sub64, length, get_elem?,
  get_or, set, take, drop,
}

-- A range of missing numbers, both ends included.
pub record Interval : Type 0 where
  pub from : ℕ
  pub to : ℕ

unfoldable pub interval_count : Interval → ℕ
interval_count i = add64 (sub64 i.to i.from) 1

pub record GapSet : Type 0 where
  pub intervals : List Interval
  pub max_intervals : ℕ
  pub truncated : Bool

abbrev pub default_max_intervals : ℕ
default_max_intervals = 1024

-- `0` stands for every bound that is not positive.
unfoldable pub new_gap_set : ℕ → GapSet
new_gap_set n = record {
  intervals = [];
  max_intervals = if n == 0 then default_max_intervals else n;
  truncated = false;
}

-- sort.Search
unfoldable pub search_first : (Interval → Bool) → List Interval → ℕ
search_first p [] = 0
search_first p (i ∷ is) = if p i then 0 else suc (search_first p is)

-- What a slice read out of range would give; no read of this file is out of range.
abbrev pub no_interval : Interval
no_interval = record { from = 0; to = 0 }

-- The index that `find` returns; `none` is its -1.
unfoldable pub find : ℕ → List Interval → Option ℕ
unfolding search_first
find seq is =
    let k = search_first (λ i. leb seq i.to) is in
    elim (get_elem? is k) [ none ↦ none | some i ↦ if leb i.from seq then some k else none ]

unfoldable pub contains : GapSet → ℕ → Bool
unfolding find
contains g seq = elim (find seq g.intervals) [ none ↦ false | some k ↦ true ]

-- The number of intervals, from the first one given, that the loop over `hi` takes in.
unfoldable pub absorbed : ℕ → List Interval → ℕ
absorbed to [] = 0
absorbed to (i ∷ is) =
    if not (to == max_uint64) && ltb (add64 to 1) i.from
    then 0
    else if to == max_uint64
    then suc (length is)
    else suc (absorbed to is)

-- The test of Add's search: the interval touches [from, …] or ends just below it.
unfoldable pub reaches : ℕ → Interval → Bool
reaches from i = if from == 0 then leb from i.to else leb (from - 1) i.to

-- The intervals from `lo` on, with the first `n` of them merged into [from, to].
unfoldable pub splice : ℕ → ℕ → List Interval → ℕ → List Interval
splice from to rest zero = record { from = from; to = to } ∷ rest
splice from to rest (suc n) =
    let first = get_or rest 0 no_interval in
    let last = get_or rest n no_interval in
    record {
      from = if ltb first.from from then first.from else from;
      to = if ltb to last.to then last.to else to;
    }
    ∷ drop (suc n) rest

unfoldable pub add_intervals : ℕ → ℕ → List Interval → List Interval
unfolding search_first splice absorbed reaches
add_intervals from to is =
    let lo = search_first (reaches from) is in
    let rest = drop lo is in take lo is ++ splice from to rest (absorbed to rest)

-- The index of the pair with the smallest hole: `best` and `hole` are the best so far, before `k`.
unfoldable pub closest : ℕ → ℕ → ℕ → List Interval → ℕ
closest k best hole [] = best
closest k best hole (i ∷ []) = best
closest k best hole (i ∷ j ∷ is) =
    let here = sub64 j.from i.to in
    closest (suc k) (if ltb here hole then k else best) (if ltb here hole then here else hole)
      (j ∷ is)

-- The interval at `k` grows to the end of the next one, which is removed.
unfoldable pub merge_at : ℕ → List Interval → List Interval
merge_at k is =
    let wide : Interval = record {
      from = (get_or is k no_interval).from;
      to = (get_or is (suc k) no_interval).to;
    } in
    let is' = set is k wide in take (suc k) is' ++ drop (suc (suc k)) is'

-- One round of the loop of `enforceCap`.
unfoldable pub merge_closest : GapSet → GapSet
unfolding closest merge_at
merge_closest g = record g {
  intervals = merge_at (closest 0 0 max_uint64 g.intervals) g.intervals;
  truncated = true;
}

unfoldable pub enforce_fuel : ℕ → GapSet → GapSet
enforce_fuel zero g = g
enforce_fuel (suc fuel) g =
    let rest = enforce_fuel fuel (merge_closest g) in
    if ltb g.max_intervals (length g.intervals) then rest else g

-- Each round takes an interval away, so the number of intervals is fuel enough.
unfoldable pub enforce_cap : GapSet → GapSet
unfolding enforce_fuel
enforce_cap g = enforce_fuel (length g.intervals) g

-- `none` is the panic on from > to.
unfoldable pub add : GapSet → ℕ → ℕ → Option GapSet
unfolding add_intervals enforce_cap
add g from to =
    if ltb to from
    then none
    else some (enforce_cap (record g { intervals = add_intervals from to g.intervals }))

-- What replaces the interval that holds `seq`, and whether that grows the list.
unfoldable pub split_at : ℕ → Interval → List Interval × Bool
split_at seq i =
    if i.from == i.to
    then ([], false)
    else if seq == i.from
    then (record { from = add64 seq 1; to = i.to } ∷ [], false)
    else if seq == i.to
    then (record { from = i.from; to = sub64 seq 1 } ∷ [], false)
    else (
      record { from = i.from; to = sub64 seq 1 } ∷ record { from = add64 seq 1; to = i.to } ∷ [],
      true,
    )

-- The list with the interval at `k` replaced.
unfoldable pub replace_at : ℕ → List Interval → List Interval → List Interval
replace_at k new is = take k is ++ (new ++ drop (suc k) is)

unfoldable pub fill : GapSet → ℕ → GapSet
unfolding find split_at replace_at enforce_cap
fill g seq = elim (find seq g.intervals) [
  | none ↦ g
  | some k ↦
      let parts = split_at seq (get_or g.intervals k no_interval) in
      let g' = record g { intervals = replace_at k parts.0 g.intervals } in
      if parts.1 then enforce_cap g' else g'
]

unfoldable pub count_from : ℕ → List Interval → ℕ
unfolding interval_count
count_from total [] = total
count_from total (i ∷ is) = count_from (add64 total (interval_count i)) is

unfoldable pub count : GapSet → ℕ
unfolding count_from
count g = count_from 0 g.intervals

unfoldable pub clear : GapSet → GapSet
clear g = record g { intervals = []; truncated = false }
