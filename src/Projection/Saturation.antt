-- ===== src/Projection/Saturation.antt =====
-- The arithmetic of a counter.
use driftwatch.Base.{◌≡◌, ◌||◌, ℤ, pos, negsuc, ◌+ℤ◌, ◌≤ℤ◌, ltb_ℤ, if◌then◌else◌, arith}
use driftwatch.Projection.Counter.{add_saturating, max_int64, min_int64}

abbrev pub InInt64 : ℤ → Type 0
InInt64 z = (min_int64 ≤ℤ z) × (z ≤ℤ max_int64)

-- The nearest int64 value to an integer.
abbrev pub clamp64 : ℤ → ℤ
clamp64 z = if ltb_ℤ max_int64 z then max_int64 else if ltb_ℤ z min_int64 then min_int64 else z

-- For int64 arguments the sum is the true sum clamped to int64, and the flag says whether it clamped.
pub add_saturating_lem :
    (n delta : ℤ)
    → InInt64 n
    → InInt64 delta
    → add_saturating n delta
      ≡ (clamp64 (n +ℤ delta), ltb_ℤ max_int64 (n +ℤ delta) || ltb_ℤ (n +ℤ delta) min_int64)
unfolding add_saturating ◌+ℤ◌
add_saturating_lem (pos n) (pos d) hn hd = ground arith
add_saturating_lem (pos n) (negsuc d) hn hd = ground arith
add_saturating_lem (negsuc n) (pos d) hn hd = ground arith
add_saturating_lem (negsuc n) (negsuc d) hn hd = ground arith
