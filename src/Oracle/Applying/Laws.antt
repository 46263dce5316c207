-- ===== src/Oracle/Applying/Laws.antt =====
-- What Apply does to a shard.
use driftwatch.Base.{
  ℕ, ◌≤◌, ◌≡◌, refl, sym, ap, ◌∙◌, true, false, ◌&&◌, Option, none, some, Option-cases,
  if◌then◌else◌, Str, str_eq, lookup, insert, lookup-insert, lookup-insert_self, lookup-delete,
  length, add64, inl, inr, Bool-cases,
}
use driftwatch.Event.{Event, TrustState}
use driftwatch.Event.Value.{Value}
use driftwatch.Projection.{Mutation}
use driftwatch.Projection.Keyset.{no_value}
use driftwatch.Seqtrack.Tracker.{Verdict}
use driftwatch.Oracle.Entry.{Stored, ApplyResult}
use driftwatch.Oracle.Shard.{Shard}
use driftwatch.Oracle.Shard.Evicting.{IsShard}
use driftwatch.Oracle.Applying.{
  Setting, observed_at, new_entry, make_room, create, update, apply, is_nothing, result,
}
use driftwatch.Oracle.Applying.Creating.{Ready-old, make_room-Roomy, create-Ready}
use driftwatch.Oracle.Applying.Writing.{value_after, update-Updated}

abbrev value_of : Option Stored → Value
value_of none = no_value
value_of (some e) = e.value

abbrev version_of : Option Stored → ℕ
version_of none = 0
version_of (some e) = e.version

-- What an Apply that is no no-op leaves under its key and every other key, and returns.
pub record Applied (c : Setting) (m : Mutation) (trust : TrustState) (now : ℕ) (s t : Shard)
    (res : ApplyResult) : Type 0 where
  pub entry : Stored
  pub there : lookup m.key t.entries ≡ some entry
  pub value_is : entry.value ≡ value_after m.action m (value_of (lookup m.key s.entries))
  pub version_is : entry.version ≡ add64 (version_of (lookup m.key s.entries)) 1
  pub returned : res.version ≡ entry.version
  pub trust_is : entry.trust ≡ trust
  pub gen_is : entry.gen ≡ c.gen
  pub seen_is : entry.last_event_at ≡ now
  pub others :
      (j : Str)
      → str_eq m.key j ≡ false
      → lookup j t.entries
        ≡ (if res.did_evict && str_eq res.evicted j then none else lookup j s.entries)
  pub evicts_full : res.did_evict ≡ true → s.max_keys ≤ length s.entries

module _ (c : Setting) (m : Mutation) (ev : Event) (verdict : Verdict) (trust : TrustState)
    (clk max_window clock : ℕ) (s : Shard) (ok_s : IsShard c.floor max_window clock s) where
  apply_old :
      (old : Stored)
      → is_nothing m.action ≡ false
      → lookup m.key s.entries ≡ some old
      → IsShard c.floor max_window clock ((apply c m ev verdict trust clk s).0)
        × Applied c m trust
            (observed_at ev clk)
            s
            ((apply c m ev verdict trust clk s).0)
            ((apply c m ev verdict trust clk s).1)
  unfolding apply result
  apply_old old acts there =
      let now = observed_at ev clk in
      let (key, ready) = Ready-old c.floor max_window clock s ok_s m.key old there in
      let u =
        update-Updated c m ev verdict trust now false old max_window clock s ready (sym key) in
      let entries : (update c m ev verdict trust now false old s).entries
          ≡ insert m.key u.entry s.entries =
        u.entries_after ∙ ap (λ k. insert k u.entry s.entries) key in
      rw (acts, there, apply)
        (
          u.ok_after,
          record {
            entry = u.entry;
            there = rw entries (lookup-insert_self m.key u.entry s.entries);
            value_is = u.value_is ∙ ap (λ o. value_after m.action m (value_of o)) (sym there);
            version_is = u.version_is ∙ ap (λ o. add64 (version_of o) 1) (sym there);
            returned = sym (u.version_is);
            trust_is = u.trust_is;
            gen_is = u.gen_is;
            seen_is = u.seen_is;
            others = λ j other. rw (entries, lookup-insert m.key j u.entry s.entries, other) refl;
            evicts_full = λ h. cc;
          },
        )

  apply_new :
      is_nothing m.action ≡ false
      → lookup m.key s.entries ≡ none
      → IsShard c.floor max_window clock ((apply c m ev verdict trust clk s).0)
        × Applied c m trust
            (observed_at ev clk)
            s
            ((apply c m ev verdict trust clk s).0)
            ((apply c m ev verdict trust clk s).1)
  unfolding apply result
  apply_new acts gone =
      let now = observed_at ev clk in
      let fresh = new_entry c m.key now in
      let r = make_room-Roomy c.floor max_window clock s ok_s c refl m.key gone in
      let (ready, victim, made) =
        create-Ready c.floor max_window clock s ok_s c refl m.key gone now in
      let s' = (create c m.key now s).0 in
      let key : m.key ≡ fresh.key = unfold new_entry in refl in
      let blank : (fresh.value ≡ no_value) × (fresh.version ≡ 0) =
        unfold new_entry in (refl, refl) in
      let u = update-Updated c m ev verdict trust now true fresh max_window clock s' ready key in
      let entries : (update c m ev verdict trust now true fresh s').entries
          ≡ insert m.key u.entry s'.entries =
        u.entries_after ∙ ap (λ k. insert k u.entry s'.entries) (sym key) in
      rw (acts, gone, apply)
        (
          u.ok_after,
          record {
            entry = u.entry;
            there = rw entries (lookup-insert_self m.key u.entry s'.entries);
            value_is =
                u.value_is ∙ ap (λ v. value_after m.action m v) (blank.0 ∙ ap value_of (sym gone));
            version_is = u.version_is ∙ ap (λ n. add64 n 1) (blank.1 ∙ ap version_of (sym gone));
            returned = sym (u.version_is);
            trust_is = u.trust_is;
            gen_is = u.gen_is;
            seen_is = u.seen_is;
            others = λ j other.
                rw
                  (
                    entries,
                    lookup-insert m.key j u.entry s'.entries,
                    other,
                    made,
                    lookup-insert m.key j fresh ((make_room c s).0).entries,
                    other,
                    victim,
                  )
                  (elim r.kept [
                    | inl (none_gone, same) ↦ rw (none_gone, same) refl
                    | inr (k, chosen, left, full) ↦ rw (chosen, left) (lookup-delete k j s.entries)
                  ]);
            evicts_full = λ h. elim r.kept [
              | inl (none_gone, same) ↦ absurd (cc (rw (victim, none_gone) at h))
              | inr (k, chosen, left, full) ↦ full
            ];
          },
        )

  -- Apply keeps the shard: on every action, whether the key is there or not and whether the shard is
  -- full or not, the keys stay distinct and at most as many as the cap, the four cached counts stay
  -- those of the entries, and each key stands in the index once, in the bucket of its last event or
  -- among the keys that are older than any window.
  pub apply-IsShard : IsShard c.floor max_window clock ((apply c m ev verdict trust clk s).0)
  unfolding apply
  apply-IsShard = elim (Bool-cases (is_nothing m.action)) [
    | inl idle ↦ rw (idle, apply) ok_s
    | inr acts ↦ elim (Option-cases (lookup m.key s.entries)) [
      | inl gone ↦ (apply_new acts gone).0
      | inr (old, there) ↦ (apply_old old acts there).0
    ]
  ]

  -- An Apply of an upsert or a delete leaves under its key the value of the mutation, or the absent
  -- one, with the version after the one that was there, from 0 for a new key and with uint64's
  -- wrap-around, and returns that version; the entry carries the trust, the generation and the time
  -- of the event. Every other key has the entry it had, but for the key that the result names as
  -- evicted, if any, which is gone; and a key is evicted only from a shard that is full.
  pub apply-Applied :
      is_nothing m.action ≡ false
      → Applied c m trust
          (observed_at ev clk)
          s
          ((apply c m ev verdict trust clk s).0)
          ((apply c m ev verdict trust clk s).1)
  apply-Applied acts = elim (Option-cases (lookup m.key s.entries)) [
    | inl gone ↦ (apply_new acts gone).1
    | inr (old, there) ↦ (apply_old old acts there).1
  ]
