-- ===== src/Oracle/Shard/Settling.antt =====
-- pkg/oracle/settle.go: which keys may be compared, and the cached counts that are reported.
use native.Mathlib.Nat.{div-lt_iff_lt-mul, div-mul-le_self}
use driftwatch.Base.{
  ℕ, ◌-◌, ◌/◌, ◌≤◌, ◌<◌, ◌≡◌, refl, subst, ◌∙◌, Bool, true, false, ◌&&◌, ◌||◌, Option-cases, List,
  [], ◌∷◌, ltb, leb, if◌then◌else◌, Str, str_eq, lookup, arith, inl, inr, Bool-cases,
}
use driftwatch.Event.Members.{has, put, has-put}
use driftwatch.Oracle.Shard.{Shard, Buckets, in_bucket, promote, promote_loop, bucket_of}
use driftwatch.Oracle.Shard.Counting.{Class, cached}
use driftwatch.Oracle.Shard.Index.{Stands}
use driftwatch.Oracle.Shard.Evicting.{IsShard}

-- Whether a key stands in some bucket, and in one below a horizon.
abbrev anywhere : Str → Buckets → Bool
anywhere k [] = false
anywhere k ((b, j) ∷ bs) = str_eq j k || anywhere k bs

abbrev below : ℕ → Str → Buckets → Bool
below horizon k [] = false
below horizon k ((b, j) ∷ bs) = (ltb b horizon && str_eq j k) || below horizon k bs

below-bucket :
    (horizon : ℕ) (k : Str) (bs : Buckets)
    → below horizon k bs ≡ true
    → (b : ℕ) × (b < horizon) × (in_bucket b k bs ≡ true)
unfolding in_bucket
below-bucket horizon k [] h = absurd (cc)
below-bucket horizon k ((b, j) ∷ bs) h = elim (Bool-cases (ltb b horizon && str_eq j k)) [
  | inl here ↦ (b, ground arith, ground arith)
  | inr later ↦
      let (c, low, inside) = below-bucket horizon k bs (ground arith) in (c, low, ground arith)
]

anywhere-bucket :
    (k : Str) (bs : Buckets) → anywhere k bs ≡ true → (b : ℕ) × (in_bucket b k bs ≡ true)
unfolding in_bucket
anywhere-bucket k [] h = absurd (cc)
anywhere-bucket k ((b, j) ∷ bs) h = elim (Bool-cases (str_eq j k)) [
  | inl here ↦ (b, ground arith)
  | inr later ↦ let (c, inside) = anywhere-bucket k bs (ground arith) in (c, ground arith)
]

promote_loop-has :
    (horizon b : ℕ) (k : Str) (bs : Buckets) (settled : List Str)
    → (in_bucket b k (promote_loop horizon bs settled).0 ≡ (leb horizon b && in_bucket b k bs))
      × (has k (promote_loop horizon bs settled).1 ≡ (has k settled || below horizon k bs))
unfolding promote_loop in_bucket
promote_loop-has horizon b k [] settled = ground arith
promote_loop-has horizon b k ((c, j) ∷ bs) settled = ground (
  arith,
  promote_loop-has horizon b k bs (if leb horizon c then settled else put j settled),
  has-put j k settled,
)

bucket-below :
    (horizon b : ℕ) (k : Str) (bs : Buckets)
    → in_bucket b k bs ≡ true
    → b < horizon
    → below horizon k bs ≡ true
unfolding in_bucket
bucket-below horizon b k [] h low = absurd (cc)
bucket-below horizon b k ((c, j) ∷ bs) h low = ground (arith, bucket-below horizon b k bs)

not_below :
    (horizon : ℕ) (k : Str) (bs : Buckets)
    → ((b : ℕ) → in_bucket b k bs ≡ true → horizon ≤ b)
    → below horizon k bs ≡ false
not_below horizon k bs h = elim (Bool-cases (below horizon k bs)) [
  | inr none_low ↦ none_low
  | inl low ↦
      let (b, under, inside) = below-bucket horizon k bs low in absurd (omega (arith, h b inside))
]

-- Buckets of times in order are in order.
bucket_lt : (a c w : ℕ) → 0 < w → a / w < c / w → a < c
bucket_lt a c w some_width h =
    omega
      (arith, (div-lt_iff_lt-mul {k = w} {x = a} {y = c / w} some_width).0 h, div-mul-le_self c w)

module _ (floor max_window clock now : ℕ) (s : Shard) (ok_s : IsShard floor max_window clock s)
    (later : clock ≤ now) where
  promoted_stands :
      0 < s.bucket_width
      → (k : Str) → Stands max_window now k (lookup k s.entries) (promote now max_window s)
  unfolding promote bucket_of
  promoted_stands some_width k =
      let h = bucket_of s (now - max_window) in
      let moved = λ (b : ℕ). promote_loop-has h b k s.buckets s.settled in
      elim (Option-cases (lookup k s.entries)) [
        | inl gone ↦
            let at = subst (λ o. Stands max_window clock k o s) gone (ok_s.index k) in
            rw gone (
              λ b. ground (arith, moved b, at.0 b),
              (moved 0).1
                  ∙ (rw (at.1, not_below h k s.buckets (λ b inside. absurd (cc (at.0 b, inside))))
                      refl),
            )
        | inr (e, there) ↦
            let at = subst (λ o. Stands max_window clock k o s) there (ok_s.index k) in
            rw there (
              at.0,
              at.1,
              λ b inside.
                  let held : in_bucket b k s.buckets ≡ true = ground (arith, moved b) in
                  let (here, apart) = at.2 b held in
                  (
                    here,
                    (moved 0).1
                        ∙ (rw
                            (
                              apart,
                              not_below h k s.buckets
                                  (λ d other. ground (arith, moved b, at.2 d other, here)),
                            )
                            refl),
                  ),
              elim (Bool-cases (leb h e.bucket)) [
                | inl kept ↦ ground (arith, moved e.bucket, at.3)
                | inr low ↦ elim at.3 [
                  | inr old ↦ inr ((moved 0).1 ∙ (rw old refl))
                  | inl inside ↦
                      inr ((moved 0).1 ∙ ground (arith, bucket-below h e.bucket k s.buckets inside))
                ]
              ],
              λ old. elim (Bool-cases (has k s.settled)) [
                | inl before ↦ omega (arith, at.4 before, later)
                | inr new ↦
                    let (b, under, inside) = below-bucket h k s.buckets (ground (arith, moved 0)) in
                    let same : b ≡ e.last_event_at / s.bucket_width = (at.2 b inside).0 ∙ at.1 in
                    omega (
                      arith,
                      bucket_lt e.last_event_at (now - max_window) s.bucket_width some_width
                          (omega (arith, same, under)),
                    )
              ],
            )
      ]

  -- Promotion keeps the shard: at a time not before the last promotion, and with a bucket width that is
  -- not 0, the entries, the counts and the place of each key in the index are in order as of that time;
  -- what moves to the settled set is older than any window.
  pub promote-IsShard : 0 < s.bucket_width → IsShard floor max_window now (promote now max_window s)
  unfolding promote
  promote-IsShard some_width = record {
    distinct = ok_s.distinct;
    counts = λ c. promoted c ∙ ok_s.counts c;
    index = λ k. promoted_stands some_width k;
    room = ok_s.room;
    bounded = ok_s.bounded;
  }
    where
      promoted : (c : Class) → cached c (promote now max_window s) ≡ cached c s
      promoted Class.fresh = refl
      promoted Class.adopted = refl
      promoted Class.suspect = refl
      promoted Class.truncated = refl
