-- ===== src/Oracle/Ring/Reading.antt =====
-- What the loop of snapshot reads.
use mathlib.Core.List.{append-nil, append_assoc}
use native.Mathlib.Nat.{mod-eq_of_lt, add-mod_right}
use driftwatch.Base.{
  ℕ, zero, suc, ◌+◌, ◌%◌, ◌<◌, ◌≡◌, refl, sym, ap, ◌∙◌, ◌⊎◌, inl, inr, List, [], ◌∷◌, ◌++◌, some,
  length, set, get_elem?, arith, length-append,
}
use driftwatch.Oracle.Ring.{snapshot_loop, one_or_none}

index : (i start k n : ℕ) → k < n → ((start + i ≡ k) ⊎ (start + i ≡ k + n)) → (start + i) % n ≡ k
index i start k n lt (inl e) = rw e (mod-eq_of_lt lt)
index i start k n lt (inr e) = rw e (add-mod_right k n ∙ mod-eq_of_lt lt)

module _ {ℓ} {A : Type ℓ} where
  get_elem?-append : (xs ys : List A) (y : A) → get_elem? (xs ++ (y ∷ ys)) (length xs) ≡ some y
  get_elem?-append [] ys y = refl
  get_elem?-append (x ∷ xs) ys y = get_elem?-append xs ys y

  pub set-append : (xs ys : List A) (y z : A) → set (xs ++ (y ∷ ys)) (length xs) z ≡ xs ++ (z ∷ ys)
  set-append [] ys y z = refl
  set-append (x ∷ xs) ys y z = cc (set-append xs ys y z)

  snapshot_loop-split :
      (a b i start : ℕ) (xs : List A)
      → snapshot_loop (a + b) i start xs
        ≡ snapshot_loop a i start xs ++ snapshot_loop b (i + a) start xs
  unfolding snapshot_loop
  snapshot_loop-split zero b i start xs =
      let left : zero + b ≡ b = omega arith in
      let at : i ≡ i + zero = omega arith in
      ap (λ n. snapshot_loop n i start xs) left ∙ ap (λ n. snapshot_loop b n start xs) at
  snapshot_loop-split (suc a) b i start xs =
      let first = one_or_none (get_elem? xs ((start + i) % length xs)) in
      let left : suc a + b ≡ suc (a + b) = omega arith in
      let at : suc i + a ≡ i + suc a = omega arith in
      ap (λ n. snapshot_loop n i start xs) left
      ∙ ap (λ ys. first ++ ys) (snapshot_loop-split a b (suc i) start xs)
      ∙ sym (
          append_assoc first (snapshot_loop a (suc i) start xs)
            (snapshot_loop b (suc i + a) start xs))
      ∙ ap (λ n. first ++ snapshot_loop a (suc i) start xs ++ snapshot_loop b n start xs) at

  -- The loop over a part of the entries gives that part.
  pub snapshot_loop-part :
      (qs ps rs : List A) (i start : ℕ)
      → ((start + i ≡ length ps) ⊎ (start + i ≡ length ps + length (ps ++ (qs ++ rs))))
      → snapshot_loop (length qs) i start (ps ++ (qs ++ rs)) ≡ qs
  unfolding snapshot_loop
  snapshot_loop-part [] ps rs i start h = refl
  snapshot_loop-part (q ∷ qs) ps rs i start h =
      let all = ps ++ (q ∷ (qs ++ rs)) in
      let moved : (ps ++ (q ∷ [])) ++ (qs ++ rs) ≡ all = append_assoc ps (q ∷ []) (qs ++ rs) in
      let size = length-append ps (q ∷ (qs ++ rs)) in
      let at = index i start (length ps) (length all) (omega (arith, size)) h in
      let rest : snapshot_loop (length qs) (suc i) start all ≡ qs = rw (← moved) (
        snapshot_loop-part qs (ps ++ (q ∷ [])) rs (suc i) start
          (rw moved (ground (arith, length-append ps (q ∷ []), h)))) in
      rw (at, get_elem?-append ps (qs ++ rs) q, rest) refl

  pub snapshot_loop-around :
      (held newer : List A)
      → snapshot_loop (length held + length newer) 0 (length newer) (newer ++ held) ≡ held ++ newer
  snapshot_loop-around held newer =
      let first : snapshot_loop (length held) 0 (length newer) (newer ++ held) ≡ held =
        ap (λ xs. snapshot_loop (length held) 0 (length newer) (newer ++ xs))
          (sym (append-nil held))
        ∙ snapshot_loop-part held newer [] 0 (length newer) (inl (omega arith)) in
      let second : snapshot_loop (length newer) (0 + length held) (length newer) (newer ++ held)
          ≡ newer =
        snapshot_loop-part newer [] held (0 + length held) (length newer)
          (inr (omega (arith, length-append newer held))) in
      snapshot_loop-split (length held) (length newer) 0 (length newer) (newer ++ held)
      ∙ cc (first, second)
