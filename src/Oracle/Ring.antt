-- ===== src/Oracle/Ring.antt =====
-- pkg/oracle/ring.go: the bounded history of a key.
pub mod Reading
pub mod Laws
use driftwatch.Base.{
  ℕ, zero, suc, ◌+◌, ◌-◌, ◌%◌, ltb, ◌==◌, if◌then◌else◌, List, [], ◌∷◌, ◌++◌, Option, none, some,
  length, set, get_elem?, Bool, true, false,
}

pub record Ring {ℓ} (A : Type ℓ) : Type ℓ where
  pub entries : List A
  pub capacity : ℕ
  pub next : ℕ

module _ {ℓ} {A : Type ℓ} where
  unfoldable pub new_ring : ℕ → Ring A
  new_ring capacity = record { entries = []; capacity = capacity; next = 0 }

  -- Writes to and reads from an index out of range are panics, which no caller meets.
  unfoldable pub push : A → Ring A → Ring A
  push h r =
      if r.capacity == 0
      then r
      else if ltb (length r.entries) r.capacity
      then record r {
        entries = r.entries ++ (h ∷ []);
        next = length (r.entries ++ (h ∷ [])) % r.capacity;
      }
      else record r { entries = set r.entries r.next h; next = (r.next + 1) % r.capacity }

  -- The entry that was read.
  abbrev one_or_none : Option A → List A
  one_or_none none = []
  one_or_none (some x) = x ∷ []

  -- The loop of snapshot: `left` rounds from round `i` on.
  unfoldable pub snapshot_loop : ℕ → ℕ → ℕ → List A → List A
  snapshot_loop zero i start entries = []
  snapshot_loop (suc left) i start entries =
      one_or_none (get_elem? entries ((start + i) % length entries))
      ++ snapshot_loop left (suc i) start entries

  unfoldable pub snapshot : Ring A → List A
  unfolding snapshot_loop
  snapshot r =
      let n = length r.entries in
      snapshot_loop n 0 (if n == r.capacity then r.next else 0) r.entries

  -- The events of a key, in the order they come.
  unfoldable pub push_all : Ring A → List A → Ring A
  push_all r [] = r
  push_all r (h ∷ hs) = push_all (push h r) hs
