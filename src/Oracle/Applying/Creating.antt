-- ===== src/Oracle/Applying/Creating.antt =====
-- A new key: the room that is made for it, and its entry before it is written.
use driftwatch.Base.{
  ℕ, ◌≤◌, ◌<◌, ◌≡◌, refl, sym, ap, subst, ◌∙◌, Option, none, some, [], ◌∷◌, leb, Str, str_eq_refl,
  Dict, lookup, insert, delete, Distinct, insert-Distinct, delete-Distinct, lookup-insert,
  lookup-insert_self, lookup-delete, length, length-insert_le, length-delete_found, arith, inl, inr,
  Bool-cases, ◌⊎◌,
}
use driftwatch.Oracle.Entry.{Stored}
use driftwatch.Oracle.Shard.{Shard, remember}
use driftwatch.Oracle.Shard.Counting.{CountsOf, remember-CountsOf, delete-missing, Class, cached}
use driftwatch.Oracle.Shard.Index.{Stands, Indexes, Stands-same, Found-new, Found-old}
use driftwatch.Oracle.Shard.Evicting.{IsShard, evict_one-Evicted}
use driftwatch.Oracle.Applying.{Setting, new_entry, make_room, create}
use driftwatch.Oracle.Applying.Updating.{Ready}

-- Room for a key that is not there; at most the victim has gone.
pub record Roomy (floor max_window clock : ℕ) (key : Str) (s t : Shard) (victim : Option Str)
    : Type 0 where
  pub distinct : Distinct t.entries
  pub counts : CountsOf floor t.entries t
  pub index : Indexes max_window clock t.entries t
  pub free : length t.entries < t.max_keys
  pub absent : lookup key t.entries ≡ none
  pub same_cap : t.max_keys ≡ s.max_keys
  pub kept :
      ((victim ≡ none) × (t.entries ≡ s.entries))
      ⊎ ((j : Str) × (victim ≡ some j)
          × (t.entries ≡ delete j s.entries)
          × (s.max_keys ≤ length s.entries))

some_entry : (m : Dict Stored) → 1 ≤ length m → (k : Str) × (e : Stored) × (lookup k m ≡ some e)
unfolding lookup
some_entry [] h = absurd (omega arith)
some_entry ((k, e) ∷ m) h = (k, e, rw (str_eq_refl k) refl)

-- The counts do not look at the entries.
cached-entries :
    (floor : ℕ) (e : Stored) (m : Dict Stored) (s : Shard) (c : Class)
    → cached c (remember e floor (record s { entries = m })) ≡ cached c (remember e floor s)
unfolding remember
cached-entries floor e m s Class.fresh = refl
cached-entries floor e m s Class.adopted = refl
cached-entries floor e m s Class.suspect = refl
cached-entries floor e m s Class.truncated = refl

module _ (floor max_window clock : ℕ) (s : Shard) (ok_s : IsShard floor max_window clock s) where
  pub Ready-old :
      (key : Str) (old : Stored)
      → lookup key s.entries ≡ some old
      → (old.key ≡ key) × Ready floor max_window clock old s
  Ready-old key old there =
      let at = subst (λ o. Stands max_window clock key o s) there (ok_s.index key) in
      let there' : lookup old.key s.entries ≡ some old =
        ap (λ k. lookup k s.entries) (at.0) ∙ there in
      (
        at.0,
        record {
          distinct = ok_s.distinct;
          there = there';
          counts = ok_s.counts;
          others = λ j other. ok_s.index j;
          found =
              Found-old max_window clock old old s
                (subst (λ o. Stands max_window clock old.key o s) there' (ok_s.index old.key)) refl;
          room = ok_s.room;
          bounded = ok_s.bounded;
        },
      )

  module _ (c : Setting) (same_floor : c.floor ≡ floor) (key : Str)
      (gone : lookup key s.entries ≡ none) where
    pub make_room-Roomy : Roomy floor max_window clock key s ((make_room c s).0) ((make_room c s).1)
    unfolding make_room
    make_room-Roomy = elim (Bool-cases (leb s.max_keys (length s.entries))) [
      | inr free ↦ rw free (record {
        distinct = ok_s.distinct;
        counts = ok_s.counts;
        index = ok_s.index;
        free = ground arith;
        absent = gone;
        same_cap = refl;
        kept = inl (refl, refl);
      })
      | inl full ↦
          let (k, e, there) = some_entry s.entries (ground (arith, ok_s.room)) in
          let ev = evict_one-Evicted floor max_window clock s ok_s k e there in
          rw (full, same_floor)
            (record {
              distinct = rw (ev.left) (delete-Distinct ev.victim s.entries ok_s.distinct);
              counts = ev.counted;
              index = ev.indexed;
              free = ground (
                arith,
                length-delete_found ev.victim ev.entry s.entries ev.there,
                ap (λ (m : Dict Stored). length m) (ev.left),
                ev.same_cap,
                ok_s.bounded,
              );
              absent = rw (ev.left, lookup-delete ev.victim key s.entries, gone) (ground arith);
              same_cap = ev.same_cap;
              kept = inr (ev.victim, ev.named, ev.left, ground arith);
            })
    ]

    -- The new key's entry is counted, and not indexed yet.
    pub create-Ready :
        (now : ℕ)
        → (Ready floor max_window clock (new_entry c key now) ((create c key now s).0))
          × ((create c key now s).1 ≡ (make_room c s).1)
          × (((create c key now s).0).entries
              ≡ insert key (new_entry c key now) ((make_room c s).0).entries)
    unfolding create remember new_entry
    create-Ready now =
        let r = make_room-Roomy in
        let t = (make_room c s).0 in
        let m = t.entries in
        let e = new_entry c key now in
        let before : CountsOf floor (delete key m) t =
          subst (λ n. CountsOf floor n t) (sym (delete-missing key m (r.absent))) (r.counts) in
        let counts : CountsOf floor (insert key e m) (create c key now s).0 = λ k.
          ap (λ f. cached k (remember e f (record t { entries = insert key e m }))) same_floor
          ∙ cached-entries floor e (insert key e m) t k
          ∙ remember-CountsOf floor key e m t (r.distinct) before k in
        (
          record {
            distinct = insert-Distinct key e m r.distinct;
            there = lookup-insert_self key e m;
            counts = counts;
            others = λ j other.
                rw (lookup-insert key j e m, other)
                  (Stands-same max_window clock j (lookup j m) t (create c key now s).0
                    (λ b. (refl, refl)) refl (r.index j));
            found =
                Found-new max_window clock e t
                  (subst (λ o. Stands max_window clock key o t) (r.absent) (r.index key));
            room = rw (r.same_cap) (ok_s.room);
            bounded = omega (arith, length-insert_le key e m, r.free);
          },
          refl,
          refl,
        )
