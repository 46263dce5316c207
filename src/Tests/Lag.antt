-- ===== src/Tests/Lag.antt =====
-- pkg/lag at concrete inputs.
use driftwatch.Base.{ℕ, ◌≡◌, refl, inr, true, false, List, [], ◌∷◌, bytes, arith}
use driftwatch.Lag.Controller.{
  Controller, p99, rank_up, clamp_rank, percentile, scale, decide, Decided, decide-Decided,
}
use driftwatch.Lag.Probes.{ProbeSet}

abbrev controller : Controller
controller = record {
  min_window = 1000;
  max_window = 120000;
  safety_factor = record { num = 3; den = 1 };
  current = 5000;
  last_change_at = 10;
  changes = 1;
  clamped = false;
  adaptive = true;
}

abbrev samples : List ℕ
samples = 10 ∷ 40 ∷ 50000 ∷ []

decide-Decided_example :
    Decided
      (scale controller.safety_factor (percentile samples p99))
      150
      70000000000
      controller
      (decide samples 150 70000000000 controller)
decide-Decided_example =
    decide-Decided samples 150 70000000000 controller
      (omega arith, omega arith, inr (omega arith, omega arith))

-- The percentile 0.99 of three samples is the largest, and asks for more than the upper bound.
wanted_window : scale controller.safety_factor (percentile samples p99) ≡ 150000
unfolding percentile rank_up clamp_rank scale
wanted_window = refl

abbrev probes : ProbeSet
probes = record {
  capacity = 2;
  keys = bytes "a" ∷ bytes "b" ∷ [];
  index = bytes "a" ∷ bytes "b" ∷ [];
  seen = 5;
  rotated_at = 10;
  rotations = 0;
}

abbrev second : ℕ → ℕ
second n = 1
