-- ===== src/Oracle/Ring/Laws.antt =====
-- The ring against the log of everything that was pushed.
use Prim.Native.Nat.{min}
use mathlib.Core.List.{append-nil, append_assoc}
use native.Mathlib.Nat.{mod-eq_of_lt, mod_self}
use driftwatch.Base.{
  ℕ, zero, suc, ◌+◌, ◌%◌, ◌<◌, ◌≡◌, refl, sym, ap, subst, ◌∙◌, ◌⊎◌, inl, inr, ltb, ◌==◌, List, [],
  ◌∷◌, ◌++◌, length, set, true, false, arith, length-append, Bool-cases,
}
use driftwatch.Oracle.Ring.{Ring, new_ring, push, push_all, snapshot, snapshot_loop}
use driftwatch.Oracle.Ring.Reading.{set-append, snapshot_loop-part, snapshot_loop-around}

module _ {ℓ} {A : Type ℓ} where
  -- A ring that is full: the oldest entry stands at `next`, and the log ends with what the ring holds.
  record Full (r : Ring A) (log : List A) : Type ℓ where
    newer : List A
    oldest : A
    older : List A
    lost : List A
    layout : r.entries ≡ newer ++ (oldest ∷ older)
    at_next : r.next ≡ length newer
    is_full : length r.entries ≡ r.capacity
    logged : log ≡ lost ++ ((oldest ∷ older) ++ newer)

  -- What a ring holds of the log.
  record Filling (r : Ring A) (log : List A) : Type ℓ where
    in_order : r.entries ≡ log
    room : length log < r.capacity

  abbrev Holds : Ring A → List A → Type ℓ
  Holds r log = Filling r log ⊎ Full r log

  snapshot-Full :
      (r : Ring A) (log : List A) (f : Full r log) → snapshot r ≡ (f.oldest ∷ f.older) ++ f.newer
  unfolding snapshot
  snapshot-Full r log f =
      let held = f.oldest ∷ f.older in
      let size = length-append f.newer held in
      let same : length r.entries == r.capacity ≡ true = ground (arith, f.is_full) in
      let turned : length (f.newer ++ held) ≡ length held + length f.newer = omega (arith, size) in
      rw (same, f.at_next, f.layout)
        (ap (λ n. snapshot_loop n 0 (length f.newer) (f.newer ++ held)) turned
          ∙ snapshot_loop-around held f.newer)

  snapshot-Filling : (r : Ring A) (log : List A) → Filling r log → snapshot r ≡ log
  unfolding snapshot
  snapshot-Filling r log f =
      let other : length r.entries == r.capacity ≡ false =
        rw (f.in_order) (ground (arith, f.room)) in
      rw (other, f.in_order)
        (ap (λ xs. snapshot_loop (length log) 0 0 xs) (sym (append-nil log))
          ∙ snapshot_loop-part log [] [] 0 0 (inl (omega arith)))

  shift :
      (lost middle : List A) (oldest h : A)
      → (lost ++ (oldest ∷ middle)) ++ (h ∷ []) ≡ (lost ++ (oldest ∷ [])) ++ (middle ++ (h ∷ []))
  shift lost middle oldest h =
      append_assoc lost (oldest ∷ middle) (h ∷ [])
      ∙ sym (append_assoc lost (oldest ∷ []) (middle ++ (h ∷ [])))

  pushed-Full :
      (h oldest : A) (older newer lost : List A) (n : ℕ)
      → length (newer ++ (oldest ∷ older)) ≡ n
      → Full
          (record { entries = newer ++ (h ∷ older); capacity = n; next = (length newer + 1) % n })
          ((lost ++ ((oldest ∷ older) ++ newer)) ++ (h ∷ []))
  pushed-Full h oldest (y ∷ older) newer lost n size = record {
    newer = newer ++ (h ∷ []);
    oldest = y;
    older = older;
    lost = lost ++ (oldest ∷ []);
    layout = sym (append_assoc newer (h ∷ []) (y ∷ older));
    at_next =
        mod-eq_of_lt (omega (arith, size, length-append newer (oldest ∷ y ∷ older)))
        ∙ sym (length-append newer (h ∷ []));
    is_full = omega (
      arith,
      size,
      length-append newer (oldest ∷ y ∷ older),
      length-append newer (h ∷ y ∷ older),
    );
    logged =
        shift lost ((y ∷ older) ++ newer) oldest h
        ∙ ap (λ xs. (lost ++ (oldest ∷ [])) ++ xs) (append_assoc (y ∷ older) newer (h ∷ []));
  }
  pushed-Full h oldest [] [] lost n size = record {
    newer = [];
    oldest = h;
    older = [];
    lost = lost ++ (oldest ∷ []);
    layout = refl;
    at_next = rw (← size) refl;
    is_full = size;
    logged = shift lost [] oldest h;
  }
  pushed-Full h oldest [] (x ∷ newer) lost n size = record {
    newer = [];
    oldest = x;
    older = newer ++ (h ∷ []);
    lost = lost ++ (oldest ∷ []);
    layout = refl;
    at_next =
        let around : suc (length newer) + 1 ≡ n =
          omega (arith, size, length-append newer (oldest ∷ [])) in
        rw around (mod_self n);
    is_full = omega (arith, size, length-append newer (oldest ∷ []), length-append newer (h ∷ []));
    logged =
        shift lost (x ∷ newer) oldest h
        ∙ ap (λ xs. (lost ++ (oldest ∷ [])) ++ xs) (sym (append-nil (x ∷ (newer ++ (h ∷ [])))));
  }

  push-Full : (h : A) (r : Ring A) (log : List A) → Full r log → Full (push h r) (log ++ (h ∷ []))
  unfolding push
  push-Full h r log f =
      let held = f.oldest ∷ f.older in
      let size = length-append f.newer held in
      let some_room : r.capacity == 0 ≡ false = rw (← f.is_full, f.layout) (ground (arith, size)) in
      let no_room : ltb (length r.entries) r.capacity ≡ false = ground (arith, f.is_full) in
      let written : set r.entries r.next h ≡ f.newer ++ (h ∷ f.older) =
        rw (f.layout, f.at_next) (set-append f.newer f.older f.oldest h) in
      rw (some_room, no_room, written, f.at_next, f.logged)
        (pushed-Full h f.oldest f.older f.newer f.lost r.capacity (rw (← f.layout) (f.is_full)))

  filled-Full :
      (h : A) (log : List A) (n : ℕ)
      → length (log ++ (h ∷ [])) ≡ n
      → Full
          (record { entries = log ++ (h ∷ []); capacity = n; next = length (log ++ (h ∷ [])) % n })
          (log ++ (h ∷ []))
  filled-Full h [] n size = record {
    newer = [];
    oldest = h;
    older = [];
    lost = [];
    layout = refl;
    at_next = rw size (mod_self n);
    is_full = size;
    logged = refl;
  }
  filled-Full h (x ∷ log) n size = record {
    newer = [];
    oldest = x;
    older = log ++ (h ∷ []);
    lost = [];
    layout = refl;
    at_next = rw size (mod_self n);
    is_full = size;
    logged = sym (append-nil (x ∷ (log ++ (h ∷ []))));
  }

  push-Filling :
      (h : A) (r : Ring A) (log : List A) → Filling r log → Holds (push h r) (log ++ (h ∷ []))
  unfolding push
  push-Filling h r log f =
      let size = length-append log (h ∷ []) in
      let some_room : r.capacity == 0 ≡ false = ground (arith, f.room) in
      let fits : ltb (length log) r.capacity ≡ true = ground (arith, f.room) in
      rw (some_room, f.in_order, fits)
        (elim (Bool-cases (ltb (length (log ++ (h ∷ []))) r.capacity)) [
          | inl more ↦ inl (record { in_order = refl; room = ground arith })
          | inr full ↦ inr (filled-Full h log r.capacity (ground (arith, f.room, size)))
        ])

  push-Holds :
      (h : A) (r : Ring A) (log : List A) → Holds r log → Holds (push h r) (log ++ (h ∷ []))
  push-Holds h r log (inl f) = push-Filling h r log f
  push-Holds h r log (inr f) = inr (push-Full h r log f)

  push_all-Holds :
      (hs : List A) (r : Ring A) (log : List A) → Holds r log → Holds (push_all r hs) (log ++ hs)
  unfolding push_all
  push_all-Holds [] r log h = rw (append-nil log) h
  push_all-Holds (x ∷ hs) r log h =
      rw (← append_assoc log (x ∷ []) hs)
        (push_all-Holds hs (push x r) (log ++ (x ∷ [])) (push-Holds x r log h))

  push_all-capacity : (hs : List A) (r : Ring A) → (push_all r hs).capacity ≡ r.capacity
  unfolding push_all push
  push_all-capacity [] r = refl
  push_all-capacity (x ∷ hs) r = push_all-capacity hs (push x r) ∙ ground arith

  push_all-disabled : (hs : List A) → push_all (new_ring 0) hs ≡ new_ring 0
  unfolding push_all push new_ring
  push_all-disabled [] = refl
  push_all-disabled (x ∷ hs) = push_all-disabled hs

  abbrev pub Latest : ℕ → List A → List A → Type ℓ
  Latest n log xs = (lost : List A) × (log ≡ lost ++ xs) × (length xs ≡ min n (length log))

  Holds-Latest : (r : Ring A) (log : List A) → Holds r log → Latest r.capacity log (snapshot r)
  Holds-Latest r log (inl f) =
      ([], sym (snapshot-Filling r log f), rw (snapshot-Filling r log f) (omega (arith, f.room)))
  Holds-Latest r log (inr f) =
      let held = f.oldest ∷ f.older in
      let size : length (held ++ f.newer) ≡ r.capacity = omega (
        arith,
        length-append held f.newer,
        length-append f.newer held,
        f.is_full,
        ap (λ (xs : List A). length xs) (f.layout),
      ) in
      let bound = length-append f.lost (held ++ f.newer) in
      (
        f.lost,
        rw (snapshot-Full r log f) (f.logged),
        rw (snapshot-Full r log f)
            (omega (arith, size, bound, ap (λ (xs : List A). length xs) (f.logged))),
      )

  new_capacity : (n : ℕ) (log : List A) → (push_all (new_ring n) log).capacity ≡ n
  unfolding new_ring
  new_capacity n log = push_all-capacity log (new_ring n)

  new-Filling : (n : ℕ) → 0 < n → Filling (new_ring n) []
  unfolding new_ring
  new-Filling n some_room = record { in_order = refl; room = some_room }

  -- The history is the latest entries, oldest first: after any list of entries is pushed on a new
  -- ring of any capacity, 0 included, the snapshot is a final part of that list, as long as the
  -- capacity allows.
  pub snapshot-push_all :
      (capacity : ℕ) (log : List A)
      → Latest capacity log (snapshot (push_all (new_ring capacity) log))
  snapshot-push_all zero log =
      rw (push_all-disabled log)
        (unfold snapshot new_ring snapshot_loop in (log, sym (append-nil log), omega arith))
  snapshot-push_all (suc n) log =
      let r = push_all (new_ring (suc n)) log in
      subst (λ c. Latest c log (snapshot r)) (new_capacity (suc n) log)
        (Holds-Latest r log
          (push_all-Holds log (new_ring (suc n)) [] (inl (new-Filling (suc n) (omega arith)))))
