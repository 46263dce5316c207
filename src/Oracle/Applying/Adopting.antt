-- ===== src/Oracle/Applying/Adopting.antt =====
-- What AdoptSnapshot does to a shard.
use driftwatch.Base.{
  ℕ, ◌≡◌, refl, sym, ap, ◌∙◌, some, Option-cases, Str, lookup, lookup-insert_self, add64, inl, inr,
}
use driftwatch.Event.{TrustState}
use driftwatch.Event.Value.{Value}
use driftwatch.Oracle.Entry.{Stored}
use driftwatch.Oracle.Shard.{Shard, forget, remember, place}
use driftwatch.Oracle.Shard.Evicting.{IsShard}
use driftwatch.Oracle.Applying.{Setting, new_entry, create, adopt, adopt_entry}
use driftwatch.Oracle.Applying.Updating.{
  Ready, Rewrites, Keeps, place-Keeps, stored-IsShard, stored-entries,
}
use driftwatch.Oracle.Applying.Creating.{Ready-old, create-Ready}

abbrev adopted_version : Setting → Value → ℕ → Stored → Stored
adopted_version c value at old = record old {
  version = add64 old.version 1;
  gen = c.gen;
  trust = TrustState.adopted;
  value = value;
  last_event_at = at;
}

-- What is left under the adopted key.
pub record Adopted (c : Setting) (key : Str) (value : Value) (at : ℕ) (t : Shard) : Type 0 where
  pub entry : Stored
  pub there : lookup key t.entries ≡ some entry
  pub value_is : entry.value ≡ value
  pub trust_is : entry.trust ≡ TrustState.adopted
  pub seen_is : entry.last_event_at ≡ at

adopt_entry-Adopted :
    (c : Setting) (max_window clock : ℕ) (key : Str) (value : Value) (at : ℕ) (old : Stored)
    (s : Shard)
    → Ready c.floor max_window clock old s
    → key ≡ old.key
    → IsShard c.floor max_window clock (adopt_entry c key value at old s)
      × Adopted c key value at (adopt_entry c key value at old s)
unfolding adopt_entry
adopt_entry-Adopted c max_window clock key value at old s ready same =
    let e = adopted_version c value at old in
    let s' = remember e c.floor (forget old c.floor s) in
    let x = (place e at s').0 in
    let k = place-Keeps e at s' in
    let rewrites : Rewrites c.floor at old e = record {
      same_key = refl;
      same_bucket = refl;
      seen = refl;
    } in
    let keeps : Keeps x x = record {
      kept_key = refl;
      kept_value = refl;
      kept_version = refl;
      kept_trust = refl;
      kept_gen = refl;
      kept_truncated = refl;
      kept_seen = refl;
      kept_ttl = refl;
    } in
    let entries = stored-entries c.floor max_window clock at old e x s ready rewrites keeps refl in
    rw same (
      stored-IsShard c.floor max_window clock at old e x s ready rewrites keeps refl,
      record {
        entry = x;
        there = ap (λ m. lookup old.key m) entries ∙ lookup-insert_self old.key x s.entries;
        value_is = k.kept_value;
        trust_is = k.kept_trust;
        seen_is = k.kept_seen;
      },
    )

-- Adopting a key keeps the shard, whether the key is there or not and whether the shard is full or
-- not, and leaves the adopted value under the key, as adopted and of the time of the snapshot.
pub adopt-Adopted :
    (c : Setting) (max_window clock : ℕ) (key : Str) (value : Value) (at : ℕ) (s : Shard)
    → IsShard c.floor max_window clock s
    → IsShard c.floor max_window clock (adopt c key value at s)
      × Adopted c key value at (adopt c key value at s)
unfolding adopt
adopt-Adopted c max_window clock key value at s ok_s = elim (Option-cases (lookup key s.entries)) [
  | inr (old, there) ↦
      let (same, ready) = Ready-old c.floor max_window clock s ok_s key old there in
      rw (there, adopt) (adopt_entry-Adopted c max_window clock key value at old s ready (sym same))
  | inl gone ↦
      let fresh = new_entry c key at in
      let (ready, victim, made) = create-Ready c.floor max_window clock s ok_s c refl key gone at in
      rw (gone, adopt)
        (adopt_entry-Adopted c max_window clock key value at fresh ((create c key at s).0) ready
          (unfold new_entry in refl))
]
