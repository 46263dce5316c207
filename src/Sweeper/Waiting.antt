-- ===== src/Sweeper/Waiting.antt =====
-- The lists of candidates: what holds of each, which keys they have, and how the due ones part.
use driftwatch.Base.{
  ℕ, ◌+◌, ◌≤◌, ◌≡◌, refl, ap, inl, inr, true, false, not, ◌&&◌, ◌||◌, List, [], ◌∷◌, ◌++◌, ltb, Str,
  str_eq, str_eq_refl, str_eq_iff, length, arith, Bool-cases,
}
use driftwatch.Event.Members.{has, take_out, has-take_out, IsMembers}
use driftwatch.Sweeper.{Candidate, due_at}
use driftwatch.Sweeper.Confirming.{split_due, without_all}

abbrev pub keys_of : List Candidate → List Str
keys_of [] = []
keys_of (c ∷ cs) = c.finding.key ∷ keys_of cs

abbrev pub Every : (Candidate → Type 0) → List Candidate → Type 0
Every P [] = Unit {0}
Every P (c ∷ cs) = P c × Every P cs

module _ (P : Candidate → Type 0) where
  pub Every-append :
      (xs : List Candidate) (c : Candidate) → Every P xs → P c → Every P (xs ++ (c ∷ []))
  Every-append [] c h p = (p, tt)
  Every-append (x ∷ xs) c h p = (h.0, Every-append xs c h.1 p)

  pub Every-weaken :
      (Q : Candidate → Type 0)
      → ((c : Candidate) → P c → Q c)
      → (xs : List Candidate) → Every P xs
      → Every Q xs
  Every-weaken Q f [] h = tt
  Every-weaken Q f (x ∷ xs) h = (f x h.0, Every-weaken Q f xs h.1)

  pub Every-all : ((c : Candidate) → P c) → (xs : List Candidate) → Every P xs
  Every-all f [] = tt
  Every-all f (x ∷ xs) = (f x, Every-all f xs)

  pub Every-split_due :
      (now : ℕ) (xs : List Candidate)
      → Every P xs
      → Every P (split_due now xs).0 × Every P (split_due now xs).1
  unfolding split_due
  Every-split_due now [] h = (tt, tt)
  Every-split_due now (x ∷ xs) h =
      let (keep, due) = Every-split_due now xs h.1 in
      elim (Bool-cases (ltb now (due_at x))) [
        | inl waits ↦ rw waits ((h.0, keep), due)
        | inr ready ↦ rw ready (keep, (h.0, due))
      ]

pub has-keys_of_append :
    (k : Str) (xs : List Candidate) (c : Candidate)
    → has k (keys_of (xs ++ (c ∷ []))) ≡ (str_eq c.finding.key k || has k (keys_of xs))
unfolding has
has-keys_of_append k [] c = refl
has-keys_of_append k (x ∷ xs) c = ground (arith, has-keys_of_append k xs c)

pub append-single :
    (xs : List Candidate) (c : Candidate)
    → IsMembers (keys_of xs)
    → has c.finding.key (keys_of xs) ≡ false
    → IsMembers (keys_of (xs ++ (c ∷ [])))
unfolding has
append-single [] c d h = (refl, tt)
append-single (x ∷ xs) c d h = (
  ground (
    arith,
    has-keys_of_append x.finding.key xs c,
    str_eq_iff x.finding.key c.finding.key,
    str_eq_iff c.finding.key x.finding.key,
    d.0,
  ),
  append-single xs c d.1 (ground arith),
)

-- The key of a candidate is one of those of the two parts exactly when it is one of the whole.
pub has-split_due :
    (now : ℕ) (k : Str) (xs : List Candidate)
    → has k (keys_of xs)
      ≡ (has k (keys_of (split_due now xs).0) || has k (keys_of (split_due now xs).1))
unfolding split_due has
has-split_due now k [] = refl
has-split_due now k (x ∷ xs) = elim (Bool-cases (ltb now (due_at x))) [
  | inl waits ↦ rw waits (ground (arith, has-split_due now k xs))
  | inr ready ↦ rw ready (ground (arith, has-split_due now k xs))
]

-- The two parts of candidates with distinct keys.
abbrev pub Parted : List Candidate → List Candidate → Type 0
Parted keep due =
    IsMembers (keys_of keep)
    × IsMembers (keys_of due)
    × ((k : Str) → has k (keys_of due) ≡ true → has k (keys_of keep) ≡ false)

pub split_due-Parted :
    (now : ℕ) (xs : List Candidate)
    → IsMembers (keys_of xs)
    → Parted (split_due now xs).0 (split_due now xs).1
unfolding split_due has
split_due-Parted now [] d = (tt, tt, λ k h. refl)
split_due-Parted now (x ∷ xs) d =
    let (keep, due, apart) = split_due-Parted now xs d.1 in
    let parts = has-split_due now x.finding.key xs in
    elim (Bool-cases (ltb now (due_at x))) [
      | inl waits ↦ rw waits (
        (ground (arith, parts, d.0), keep),
        due,
        λ k h. ground (arith, apart k h, parts, d.0, str_eq_iff x.finding.key k),
      )
      | inr ready ↦ rw ready (
        keep,
        (ground (arith, parts, d.0), due),
        λ k h. ground (arith, apart k, parts, d.0, str_eq_iff x.finding.key k),
      )
    ]

pub length-split_due :
    (now : ℕ) (xs : List Candidate)
    → length (split_due now xs).0 + length (split_due now xs).1 ≡ length xs
unfolding split_due
length-split_due now [] = refl
length-split_due now (x ∷ xs) = elim (Bool-cases (ltb now (due_at x))) [
  | inl waits ↦ rw waits (omega (arith, length-split_due now xs))
  | inr ready ↦ rw ready (omega (arith, length-split_due now xs))
]

-- What is due has waited its window.
pub split_due-waited :
    (now : ℕ) (xs : List Candidate) → Every (λ c. c.seen_at + c.window ≤ now) (split_due now xs).1
unfolding split_due due_at
split_due-waited now [] = tt
split_due-waited now (x ∷ xs) = elim (Bool-cases (ltb now (due_at x))) [
  | inl waits ↦ rw waits (split_due-waited now xs)
  | inr ready ↦ rw ready (ground arith, split_due-waited now xs)
]

pub has-without_all :
    (k : Str) (due : List Candidate) (keys : List Str)
    → has k (without_all due keys) ≡ (not (has k (keys_of due)) && has k keys)
unfolding has
has-without_all k [] keys = refl
has-without_all k (c ∷ cs) keys =
    ground
      (arith, has-without_all k cs (take_out c.finding.key keys), has-take_out c.finding.key k keys)

-- Two candidates of one key.
abbrev pub Before : Candidate → Candidate → Type 0
Before c d = c.finding.key ≡ d.finding.key → c.seen_at ≤ d.seen_at

-- Candidates whose keys are others than `k`.
pub others-Every :
    (P : Candidate → Type 0) (k : Str) (xs : List Candidate)
    → has k (keys_of xs) ≡ false
    → Every (λ d. k ≡ d.finding.key → P d) xs
unfolding has
others-Every P k [] h = tt
others-Every P k (x ∷ xs) h = (
  λ same. absurd (ground (arith, str_eq_refl k, ap (λ j. str_eq j k) same)),
  others-Every P k xs (ground arith),
)
