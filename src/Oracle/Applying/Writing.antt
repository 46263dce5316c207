-- ===== src/Oracle/Applying/Writing.antt =====
-- The write of an entry by Apply.
use driftwatch.Base.{ℕ, ◌≡◌, refl, ◌∙◌, Bool, insert, add64, arith}
use driftwatch.Event.{Event, TrustState}
use driftwatch.Event.Value.{Value}
use driftwatch.Projection.{Mutation, Action, nothing, upsert}
use driftwatch.Projection
use driftwatch.Projection.Keyset.{no_value}
use driftwatch.Seqtrack.Tracker.{Verdict}
use driftwatch.Oracle.Ring.{push}
use driftwatch.Oracle.Entry.{Stored}
use driftwatch.Oracle.Shard.{Shard, forget, remember, place}
use driftwatch.Oracle.Shard.Evicting.{IsShard}
use driftwatch.Oracle.Applying.{Setting, acted, written, changed, history, update}
use driftwatch.Oracle.Applying.Updating.{
  Ready, Rewrites, Keeps, place-Keeps, stored, stored-IsShard, stored-entries,
}

-- What an action leaves of the value.
abbrev pub value_after : Action → Mutation → Value → Value
value_after nothing m v = v
value_after upsert m v = m.value
value_after Projection.delete m v = no_value

acted_lem :
    (a : Action) (m : Mutation) (e : Stored)
    → ((acted a m e).key ≡ e.key)
      × ((acted a m e).bucket ≡ e.bucket)
      × ((acted a m e).last_event_at ≡ e.last_event_at)
      × ((acted a m e).version ≡ e.version)
      × ((acted a m e).trust ≡ e.trust)
      × ((acted a m e).gen ≡ e.gen)
      × ((acted a m e).value ≡ value_after a m e.value)
acted_lem nothing m e = (refl, refl, refl, refl, refl, refl, refl)
acted_lem upsert m e = (refl, refl, refl, refl, refl, refl, refl)
acted_lem Projection.delete m e = (refl, refl, refl, refl, refl, refl, refl)

module _ (c : Setting) (m : Mutation) (ev : Event) (verdict : Verdict) (trust : TrustState)
    (now : ℕ) (created : Bool) (old : Stored) where
  abbrev pub new_version : Stored
  new_version = changed created now old (written c m ev trust now old)

  new_version_lem :
      (new_version.key ≡ old.key)
      × (new_version.bucket ≡ old.bucket)
      × (new_version.last_event_at ≡ now)
      × (new_version.version ≡ add64 old.version 1)
      × (new_version.trust ≡ trust)
      × (new_version.gen ≡ c.gen)
      × (new_version.value ≡ value_after m.action m old.value)
  unfolding changed written
  new_version_lem = ground (
    arith,
    acted_lem m.action m (record old {
      version = add64 old.version 1;
      gen = c.gen;
      trust = trust;
      last_event_at = now;
      last_seq = ev.seq;
      last_epoch = ev.epoch;
      last_publisher = ev.publisher;
      truncated = m.truncated;
    }),
  )

  -- What is stored at last.
  abbrev pub last_version : Shard → Stored
  last_version s =
      let e' = (place new_version now (remember new_version c.floor (forget old c.floor s))).0 in
      record e' { ring = push (history c ev verdict now e') e'.ring }

  update_lem :
      (s : Shard)
      → m.key ≡ old.key
      → update c m ev verdict trust now created old s
        ≡ stored c.floor old new_version (last_version s) now s
  unfolding update
  update_lem s same = rw same refl

  last_version-Keeps :
      (s : Shard)
      → Keeps
          (place new_version now (remember new_version c.floor (forget old c.floor s))).0
          (last_version s)
  last_version-Keeps s = record {
    kept_key = refl;
    kept_value = refl;
    kept_version = refl;
    kept_trust = refl;
    kept_gen = refl;
    kept_truncated = refl;
    kept_seen = refl;
    kept_ttl = refl;
  }

  new_version-Rewrites : Rewrites c.floor now old new_version
  new_version-Rewrites =
      let l = new_version_lem in record { same_key = l.0; same_bucket = l.1; seen = l.2 }

  -- The shard after the write is one that is between two operations, and holds the new version.
  pub record Updated (max_window clock : ℕ) (s t : Shard) : Type 0 where
    pub ok_after : IsShard c.floor max_window clock t
    pub entry : Stored
    pub entries_after : t.entries ≡ insert old.key entry s.entries
    pub key_after : entry.key ≡ old.key
    pub value_is : entry.value ≡ value_after m.action m old.value
    pub version_is : entry.version ≡ add64 old.version 1
    pub trust_is : entry.trust ≡ trust
    pub gen_is : entry.gen ≡ c.gen
    pub seen_is : entry.last_event_at ≡ now

  pub update-Updated :
      (max_window clock : ℕ) (s : Shard)
      → Ready c.floor max_window clock old s
      → m.key ≡ old.key
      → Updated max_window clock s (update c m ev verdict trust now created old s)
  update-Updated max_window clock s ready same =
      let l = new_version_lem in
      let k = place-Keeps new_version now (remember new_version c.floor (forget old c.floor s)) in
      let x = last_version s in
      rw (update_lem s same) (record {
        ok_after =
            stored-IsShard c.floor max_window clock now old new_version x s ready
              new_version-Rewrites (last_version-Keeps s) refl;
        entry = x;
        entries_after =
            stored-entries c.floor max_window clock now old new_version x s ready
              new_version-Rewrites (last_version-Keeps s) refl;
        key_after = k.kept_key ∙ l.0;
        value_is = k.kept_value ∙ l.6;
        version_is = k.kept_version ∙ l.3;
        trust_is = k.kept_trust ∙ l.4;
        gen_is = k.kept_gen ∙ l.5;
        seen_is = k.kept_seen ∙ l.2;
      })
