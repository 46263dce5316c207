-- ===== src/Lag/Controller.antt =====
-- pkg/lag/adaptive.go: the percentile and the controller. Its floating-point numbers are ratios of
-- natural numbers, and its floating-point steps are exact: the percentile's rank is, for the
-- percentiles of the code and samples in the millions, far enough from a whole number for float64's
-- rounding not to matter; the hysteresis compares a quotient with a fifth, which rounding cannot cross
-- for windows below 2^47 nanoseconds, over a day; the product with the safety factor is exact in
-- float64 below 2^53 for a whole factor, as the default is, and rounded otherwise, which is left out.
-- `sort.Slice` has put the samples in order before.
use driftwatch.Base.{
  ℕ, suc, ◌+◌, ◌-◌, ◌*◌, ◌/◌, ◌≤◌, ◌<◌, ◌≡◌, ◌≢◌, ◌∙◌, ◌⊎◌, ◌↔◌, refl, inl, inr, Bool, true, false,
  not, ◌&&◌, List, [], ◌∷◌, ltb, leb, ◌==◌, if◌then◌else◌, length, get_or, arith, Bool-cases,
}

-- A float64 that is not negative, as a ratio.
pub record Ratio : Type 0 where
  pub num : ℕ
  pub den : ℕ

abbrev pub p99 : Ratio
p99 = record { num = 99; den = 100 }

-- int(p*float64(n)+0.999999), a floor.
unfoldable pub rank_up : Ratio → ℕ → ℕ
rank_up p n = (p.num * n * 1000000 + 999999 * p.den) / (p.den * 1000000)

-- The rank of the code, one less, is raised to 0 and lowered to the last index.
unfoldable pub clamp_rank : ℕ → ℕ → ℕ
clamp_rank n r = let rank = r - 1 in if leb n rank then n - 1 else rank

unfoldable pub percentile : List ℕ → Ratio → ℕ
unfolding rank_up clamp_rank
percentile [] p = 0
percentile (d ∷ ds) p =
    get_or (d ∷ ds) (clamp_rank (suc (length ds)) (rank_up p (suc (length ds)))) 0

-- time.Duration(float64(p99) * c.safetyFactor), a floor.
unfoldable pub scale : Ratio → ℕ → ℕ
scale factor d = (d * factor.num) / factor.den

-- |want - current|
abbrev pub distance : ℕ → ℕ → ℕ
distance a b = (a - b) + (b - a)

-- Whether |want - current| / current is above hysteresisRatio, a fifth.
unfoldable pub far : ℕ → ℕ → Bool
far current want = ltb current (5 * distance current want)

pub record Controller : Type 0 where
  pub min_window : ℕ
  pub max_window : ℕ
  pub safety_factor : Ratio
  pub current : ℕ
  pub last_change_at : ℕ
  pub changes : ℕ
  pub clamped : Bool
  pub adaptive : Bool

abbrev pub min_observations : ℕ
min_observations = 100

abbrev pub min_change_interval : ℕ
min_change_interval = 60000000000

-- The switch on the wanted window.
unfoldable pub bounded : Controller → ℕ → ℕ
bounded c want =
    if ltb want c.min_window
    then c.min_window
    else if ltb c.max_window want
    then c.max_window
    else want

abbrev pub is_clamped : Controller → ℕ → Bool
is_clamped c want = not (ltb want c.min_window) && ltb c.max_window want

-- c.current = want and what goes with it.
abbrev pub move : Controller → ℕ → ℕ → Controller
move c want now = record c { current = want; last_change_at = now; changes = c.changes + 1 }

-- Whether the rate limit holds the window back; a time of 0 is the zero time.
abbrev pub too_soon : Controller → ℕ → Bool
too_soon c now = not (c.last_change_at == 0) && ltb now (c.last_change_at + min_change_interval)

-- decide once there are enough observations and the wanted window is within the bounds.
unfoldable pub settle_on : Controller → ℕ → ℕ → Controller × Bool
unfolding far
settle_on c want now =
    if c.current == 0
    then (move c want now, true)
    else if want == c.current
    then (c, false)
    else if not (far c.current want)
    then (c, false)
    else if too_soon c now
    then (c, false)
    else (move c want now, true)

-- decide with too few observations.
unfoldable pub wait_for_data : Controller → Controller × Bool
wait_for_data c =
    if c.current == 0
    then (record c { adaptive = false; current = c.min_window }, true)
    else (record c { adaptive = false }, false)

-- The window that the samples ask for.
unfoldable pub wanted : Controller → List ℕ → ℕ
unfolding percentile scale
wanted c sorted = scale c.safety_factor (percentile sorted p99)

-- The controller, and whether the window, its field `current`, is to be replaced.
unfoldable pub decide : List ℕ → ℕ → ℕ → Controller → Controller × Bool
unfolding wanted bounded settle_on wait_for_data
decide sorted observations now c =
    let want = wanted c sorted in
    if ltb observations min_observations
    then wait_for_data c
    else settle_on (record c { adaptive = true; clamped = is_clamped c want }) (bounded c want) now

-- Within the bounds, or not set yet.
abbrev pub IsController : Controller → Type 0
IsController c =
    (0 < c.min_window)
    × (c.min_window ≤ c.max_window)
    × ((c.current ≡ 0) ⊎ ((c.min_window ≤ c.current) × (c.current ≤ c.max_window)))

-- `w` is the window nearest to `want` within the bounds.
abbrev pub Clamps : Controller → ℕ → ℕ → Type 0
Clamps c want w =
    (want < c.min_window → w ≡ c.min_window)
    × (c.max_window < want → w ≡ c.max_window)
    × (c.min_window ≤ want → want ≤ c.max_window → w ≡ want)

-- The window `w` is more than a fifth away from the one there is, and the last change, if there was
-- one, at least a minute ago.
abbrev pub MayMove : Controller → ℕ → ℕ → Type 0
MayMove c w now =
    (c.current < 5 * distance c.current w)
    × ((c.last_change_at ≡ 0) ⊎ (c.last_change_at + min_change_interval ≤ now))

-- What a decision with enough observations does, where `w` is the window asked for, within the bounds.
pub record Settled (w now : ℕ) (c : Controller) (r : Controller × Bool) : Type 0 where
  pub changed :
      r.1 ≡ true
      → ((c.current ≡ 0) ⊎ MayMove c w now)
        × (r.0.current ≡ w)
        × (r.0.last_change_at ≡ now)
        × (r.0.changes ≡ c.changes + 1)
  pub unchanged :
      r.1 ≡ false
      → (r.0.current ≡ c.current)
        × (r.0.last_change_at ≡ c.last_change_at)
        × (r.0.changes ≡ c.changes)
  pub moves : (c.current ≡ 0) ⊎ MayMove c w now → r.1 ≡ true
  pub measured : r.0.adaptive ≡ true

-- What a decision does: in any case it stays within the bounds; with too few observations the window
-- is the one there was, or the lower bound where there was none.
pub record Decided (want observations now : ℕ) (c : Controller) (r : Controller × Bool)
    : Type 0 where
  pub bounds : (c.min_window ≤ r.0.current) × (r.0.current ≤ c.max_window)
  pub same_bounds : (r.0.min_window ≡ c.min_window) × (r.0.max_window ≡ c.max_window)
  pub few :
      observations < min_observations
      → ((c.current ≡ 0) × (r.0.current ≡ c.min_window)) ⊎ (r.0.current ≡ c.current)
  pub enough :
      min_observations ≤ observations
      → (w : ℕ) × Clamps c want w × Settled w now c r × (r.0.clamped ≡ ltb c.max_window want)

bounded-Clamps :
    (c : Controller) (want : ℕ)
    → c.min_window ≤ c.max_window
    → Clamps c want (bounded c want)
      × (c.min_window ≤ bounded c want)
      × (bounded c want ≤ c.max_window)
unfolding bounded
bounded-Clamps c want le =
    ((λ h. ground arith, λ h. ground arith, λ h k. ground arith), ground arith, ground arith)

interval_passed :
    (c : Controller) (now : ℕ)
    → (too_soon c now ≡ false)
      ↔ ((c.last_change_at ≡ 0) ⊎ (c.last_change_at + min_change_interval ≤ now))
interval_passed c now = (
  λ h. elim (Bool-cases (c.last_change_at == 0)) [
    | inl never ↦ inl (ground arith)
    | inr once ↦ inr (ground arith)
  ],
  λ h. elim h [ inl never ↦ ground arith | inr passed ↦ ground arith ],
)

-- The window stays: it was set, and may not move.
stays-Settled :
    (c : Controller) (w now : ℕ) (clamped : Bool)
    → ¬ ((c.current ≡ 0) ⊎ MayMove c w now)
    → Settled w now c (record c { adaptive = true; clamped = clamped }, false)
stays-Settled c w now clamped stuck = record {
  changed = λ h. absurd (cc);
  unchanged = λ h. (refl, refl, refl);
  moves = λ h. absurd (stuck h);
  measured = refl;
}

moves-Settled :
    (c : Controller) (w now : ℕ) (clamped : Bool)
    → (c.current ≡ 0) ⊎ MayMove c w now
    → Settled w now c (move (record c { adaptive = true; clamped = clamped }) w now, true)
moves-Settled c w now clamped may = record {
  changed = λ h. (may, refl, refl, refl);
  unchanged = λ h. absurd (cc);
  moves = λ h. refl;
  measured = refl;
}

settle_on-Settled :
    (c : Controller) (w now : ℕ) (clamped : Bool)
    → Settled w now c (settle_on (record c { adaptive = true; clamped = clamped }) w now)
unfolding settle_on far
settle_on-Settled c w now clamped = elim (Bool-cases (c.current == 0)) [
  | inl unset ↦ rw unset (moves-Settled c w now clamped (inl (ground arith)))
  | inr is_set ↦ elim (Bool-cases (w == c.current)) [
    | inl same ↦ rw (is_set, same) (stays-Settled c w now clamped (λ h. ground (arith, h)))
    | inr other ↦ elim (Bool-cases (ltb c.current (5 * distance c.current w))) [
      | inr near ↦ rw (is_set, other, near) (stays-Settled c w now clamped (λ h. ground (arith, h)))
      | inl away ↦ elim (Bool-cases (too_soon c now)) [
        | inl soon ↦
            rw (is_set, other, away, soon)
              (stays-Settled c w now clamped (λ h. elim h [
                | inl unset ↦ ground arith
                | inr may ↦ absurd (ground (arith, (interval_passed c now).1 may.1))
              ]))
        | inr later ↦
            rw (is_set, other, away, later)
              (moves-Settled c w now clamped (inr (ground arith, (interval_passed c now).0 later)))
      ]
    ]
  ]
]

wait_for_data-Decided :
    (c : Controller) (want observations now : ℕ)
    → IsController c
    → observations < min_observations
    → Decided want observations now c (wait_for_data c)
unfolding wait_for_data
wait_for_data-Decided c want observations now (positive, le, inside) few =
    elim (Bool-cases (c.current == 0)) [
      | inl unset ↦ rw unset record {
        bounds = (omega arith, le);
        same_bounds = (refl, refl);
        few = λ h. inl (ground arith, refl);
        enough = λ h. absurd (omega (arith, h, few));
      }
      | inr is_set ↦ rw is_set record {
        bounds = elim inside [ inl unset ↦ absurd (ground arith) | inr within ↦ within ];
        same_bounds = (refl, refl);
        few = λ h. inr refl;
        enough = λ h. absurd (omega (arith, h, few));
      }
    ]

-- Where a decision leaves the window, and the two bounds, whatever branch it takes.
abbrev Leaves : Controller → ℕ → Controller × Bool → Type 0
Leaves c w r =
    ((r.0.current ≡ w) ⊎ ((r.0.current ≡ c.current) × (c.current ≢ 0)))
    × (r.0.min_window ≡ c.min_window)
    × (r.0.max_window ≡ c.max_window)
    × (r.0.clamped ≡ c.clamped)

settle_on-Leaves : (c : Controller) (w now : ℕ) → Leaves c w (settle_on c w now)
unfolding settle_on
settle_on-Leaves c w now = elim (Bool-cases (c.current == 0)) [
  | inl unset ↦ rw unset (inl refl, refl, refl, refl)
  | inr is_set ↦
      let kept = inr (refl, λ e. ground (arith, e)) in
      elim (Bool-cases (w == c.current)) [
        | inl same ↦ rw (is_set, same) (kept, refl, refl, refl)
        | inr other ↦ elim (Bool-cases (far c.current w)) [
          | inr near ↦ rw (is_set, other, near) (kept, refl, refl, refl)
          | inl away ↦ elim (Bool-cases (too_soon c now)) [
            | inl soon ↦ rw (is_set, other, away, soon) (kept, refl, refl, refl)
            | inr later ↦ rw (is_set, other, away, later) (inl refl, refl, refl, refl)
          ]
        ]
      ]
]

settle_on-Decided :
    (c : Controller) (want observations now : ℕ)
    → IsController c
    → min_observations ≤ observations
    → Decided want observations now c
        (settle_on (record c { adaptive = true; clamped = is_clamped c want }) (bounded c want) now)
settle_on-Decided c want observations now (positive, le, inside) many =
    let w = bounded c want in
    let (clamps, low, high) = bounded-Clamps c want le in
    let c' = record c { adaptive = true; clamped = is_clamped c want } in
    let (stands, low_same, high_same, clamped) = settle_on-Leaves c' w now in
    record {
      bounds = elim stands [
        | inl here ↦ (omega (arith, here, low), omega (arith, here, high))
        | inr (here, is_set) ↦ elim inside [
          | inl unset ↦ absurd (is_set unset)
          | inr (low', high') ↦ (omega (arith, here, low'), omega (arith, here, high'))
        ]
      ];
      same_bounds = (low_same, high_same);
      few = λ h. absurd (omega (arith, h, many));
      enough =
          λ h. (w, clamps, settle_on-Settled c w now (is_clamped c want), clamped ∙ ground arith);
    }

-- From a controller with a positive lower bound not above the upper one, whose window is not set yet or
-- is within them, decide leaves the bounds and a window within them. With fewer than 100 observations
-- the window stays, or is the lower bound where there was none. Otherwise the window asked for is the
-- percentile 0.99 of the samples times the safety factor, brought within the bounds; the window moves to it exactly when there was none, or when it is more than a fifth away from the old
-- one and the last change, if any, is a minute ago or more, and a move records its time; else the
-- window and the time of the last change are what they were. The window is reported as clamped exactly
-- when the one asked for is above the upper bound.
pub decide-Decided :
    (sorted : List ℕ) (observations now : ℕ) (c : Controller)
    → IsController c
    → Decided
        (scale c.safety_factor (percentile sorted p99))
        observations
        now
        c
        (decide sorted observations now c)
unfolding decide wanted
decide-Decided sorted observations now c ok =
    let want = scale c.safety_factor (percentile sorted p99) in
    elim (Bool-cases (ltb observations min_observations)) [
      | inl few ↦ rw few (wait_for_data-Decided c want observations now ok (ground arith))
      | inr enough ↦ rw enough (settle_on-Decided c want observations now ok (ground arith))
    ]
