-- ===== src/Oracle/Applying/Updating.antt =====
-- What Apply and AdoptSnapshot share: an entry is counted off, written, counted and placed.
use driftwatch.Base.{
  ℕ, ◌+◌, ◌≤◌, ◌≡◌, refl, sym, ap, subst, ◌∙◌, false, some, if◌then◌else◌, Str, str_eq, lookup,
  insert, delete, Distinct, insert-Distinct, length, length-insert_found, arith, pos,
}
use driftwatch.Oracle.Entry.{Stored}
use driftwatch.Oracle.Shard.{Shard, forget, remember, place, remove_from_index}
use driftwatch.Oracle.Shard.Counting.{
  Class, cached, in_class, tally, tally-insert, CountsOf, forget-CountsOf, remember-CountsOf,
}
use driftwatch.Oracle.Shard.Index.{Stands, Indexes, Indexes-same, Stands-same, Found, place-Indexes}
use driftwatch.Oracle.Shard.Evicting.{IsShard}

-- A shard with the entry `old` of a key counted in, and every other key indexed.
pub record Ready (floor max_window clock : ℕ) (old : Stored) (s : Shard) : Type 0 where
  pub distinct : Distinct s.entries
  pub there : lookup old.key s.entries ≡ some old
  pub counts : CountsOf floor s.entries s
  pub others :
      (j : Str) → str_eq old.key j ≡ false → Stands max_window clock j (lookup j s.entries) s
  pub found : Found old s
  pub room : 1 ≤ s.max_keys
  pub bounded : length s.entries ≤ s.max_keys

-- What the write of an entry keeps, and how its counts go by what is stored at last.
pub record Rewrites (floor at : ℕ) (old new : Stored) : Type 0 where
  pub same_key : new.key ≡ old.key
  pub same_bucket : new.bucket ≡ old.bucket
  pub seen : new.last_event_at ≡ at

-- The entry that `place` returns, but for its bucket and history, is the one it was given.
pub record Keeps (e x : Stored) : Type 0 where
  pub kept_key : x.key ≡ e.key
  pub kept_value : x.value ≡ e.value
  pub kept_version : x.version ≡ e.version
  pub kept_trust : x.trust ≡ e.trust
  pub kept_gen : x.gen ≡ e.gen
  pub kept_truncated : x.truncated ≡ e.truncated
  pub kept_seen : x.last_event_at ≡ e.last_event_at
  pub kept_ttl : x.ttl ≡ e.ttl

pub place-Keeps : (e : Stored) (at : ℕ) (s : Shard) → Keeps e (place e at s).0
unfolding place
place-Keeps e at s = ground arith

in_class-Keeps :
    (floor : ℕ) (e x : Stored) → Keeps e x → (c : Class) → in_class floor c x ≡ in_class floor c e
in_class-Keeps floor e x k Class.fresh = rw (k.kept_trust, k.kept_gen) refl
in_class-Keeps floor e x k Class.adopted = rw (k.kept_trust) refl
in_class-Keeps floor e x k Class.suspect = rw (k.kept_trust) refl
in_class-Keeps floor e x k Class.truncated = k.kept_truncated

cached-place :
    (e : Stored) (at : ℕ) (s : Shard) (c : Class) → cached c ((place e at s).1) ≡ cached c s
unfolding place remove_from_index
cached-place e at s Class.fresh = ground arith
cached-place e at s Class.adopted = ground arith
cached-place e at s Class.suspect = ground arith
cached-place e at s Class.truncated = ground arith

place-fields :
    (e : Stored) (at : ℕ) (s : Shard)
    → (((place e at s).1).entries ≡ s.entries) × (((place e at s).1).max_keys ≡ s.max_keys)
unfolding place remove_from_index
place-fields e at s = ground arith

-- The shard once the entry is stored: `x` is what is stored of the placed entry.
abbrev pub stored : ℕ → Stored → Stored → Stored → ℕ → Shard → Shard
stored floor old e x at s =
    let s' = (place e at (remember e floor (forget old floor s))).1 in
    record s' { entries = insert old.key x s'.entries }

cached-stored :
    (floor at : ℕ) (old e x : Stored) (s : Shard) (c : Class)
    → cached c (stored floor old e x at s)
      ≡ cached c ((place e at (remember e floor (forget old floor s))).1)
cached-stored floor at old e x s Class.fresh = refl
cached-stored floor at old e x s Class.adopted = refl
cached-stored floor at old e x s Class.suspect = refl
cached-stored floor at old e x s Class.truncated = refl

module _ (floor max_window clock at : ℕ) (old e x : Stored) (s : Shard)
    (ready : Ready floor max_window clock old s) (rewrites : Rewrites floor at old e)
    (keeps : Keeps ((place e at (remember e floor (forget old floor s))).0) x)
    (same_bucket : x.bucket ≡ (place e at (remember e floor (forget old floor s))).0.bucket) where
  same_entries : ((place e at (remember e floor (forget old floor s))).1).entries ≡ s.entries
  unfolding remember forget
  same_entries = (place-fields e at (remember e floor (forget old floor s))).0

  same_cap : (stored floor old e x at s).max_keys ≡ s.max_keys
  unfolding remember forget
  same_cap = (place-fields e at (remember e floor (forget old floor s))).1

  pub stored-entries : (stored floor old e x at s).entries ≡ insert old.key x s.entries
  stored-entries = ap (λ m. insert old.key x m) same_entries

  stored-counts : CountsOf floor (insert old.key x s.entries) (stored floor old e x at s)
  stored-counts c =
      let counted = remember e floor (forget old floor s) in
      let p = in_class floor c in
      let taken =
        forget-CountsOf floor old.key old s.entries s ready.distinct ready.there ready.counts in
      let added =
        remember-CountsOf floor old.key e s.entries (forget old floor s) ready.distinct taken c in
      let same : p x ≡ p e =
        in_class-Keeps floor (place e at counted).0 x keeps c
        ∙ in_class-Keeps floor e (place e at counted).0 (place-Keeps e at counted) c in
      let size : tally p (insert old.key x s.entries) ≡ tally p (insert old.key e s.entries) =
        tally-insert p old.key x s.entries ready.distinct
        ∙ ap (λ b. tally p (delete old.key s.entries) + (if b then 1 else 0)) same
        ∙ sym (tally-insert p old.key e s.entries ready.distinct) in
      cached-stored floor at old e x s c
      ∙ cached-place e at counted c
      ∙ added
      ∙ ap (λ n. pos n) (sym size)

  stored-index : Indexes max_window clock (insert old.key x s.entries) (stored floor old e x at s)
  unfolding remember forget
  stored-index =
      let counted = remember e floor (forget old floor s) in
      let placed = place-Keeps e at counted in
      let found : Found e counted = λ b inside.
        let (here, apart) = ready.found b (rw rewrites.same_key at inside) in
        (here ∙ sym rewrites.same_bucket, rw rewrites.same_key apart) in
      subst (λ k. Indexes max_window clock (insert k x s.entries) (stored floor old e x at s))
        rewrites.same_key
        (Indexes-same max_window clock (insert e.key x s.entries) (place e at counted).1
          (stored floor old e x at s) refl refl refl
          (place-Indexes max_window clock at e x s.entries counted found
            (keeps.kept_key ∙ placed.kept_key) same_bucket
            (keeps.kept_seen ∙ placed.kept_seen ∙ rewrites.seen)
            (λ j other.
              Stands-same max_window clock j (lookup j s.entries) s counted (λ b. (refl, refl)) refl
                (ready.others j (rw rewrites.same_key at other)))))

  pub stored-IsShard : IsShard floor max_window clock (stored floor old e x at s)
  stored-IsShard = record {
    distinct =
        subst (λ m. Distinct m) (sym stored-entries)
          (insert-Distinct old.key x s.entries ready.distinct);
    counts =
        subst (λ m. CountsOf floor m (stored floor old e x at s)) (sym stored-entries)
          stored-counts;
    index =
        subst (λ m. Indexes max_window clock m (stored floor old e x at s)) (sym stored-entries)
          stored-index;
    room = subst (λ n. 1 ≤ n) (sym same_cap) ready.room;
    bounded =
        subst (λ n. length (stored floor old e x at s).entries ≤ n) (sym same_cap)
          (subst (λ m. length m ≤ s.max_keys) (sym stored-entries)
            (omega
              (arith, length-insert_found old.key x old s.entries ready.there, ready.bounded)));
  }
