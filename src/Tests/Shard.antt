-- ===== src/Tests/Shard.antt =====
-- A shard of the oracle at concrete inputs.
use driftwatch.Base.{
  subst, ℕ, ◌≡◌, refl, Bool-cases, true, false, none, [], ◌∷◌, Str, str_eq, str_eq_iff, bytes, pos,
  lookup, arith, inl, inr,
}
use driftwatch.Event.{Event, Op, TrustState}
use driftwatch.Event.Members.{has}
use driftwatch.Projection.{Mutation}
use driftwatch.Projection.Keyset.{set_value, upsert_of}
use driftwatch.Seqtrack.Tracker.{accept}
use driftwatch.Oracle.Ring.{new_ring}
use driftwatch.Oracle.Entry.{Stored}
use driftwatch.Oracle.Shard.{Shard, in_bucket, promote, bucket_of, evict_one, oldest_indexed}
use driftwatch.Oracle.Shard.Counting.{Class, CountsOf}
use driftwatch.Oracle.Shard.Evicting.{IsShard}
use driftwatch.Oracle.Shard.Index.{Stands}
use driftwatch.Oracle.Shard.Settling.{promote-IsShard}
use driftwatch.Oracle.Applying.{
  Setting, apply, adopt, observed_at, result, create, make_room, new_entry,
}
use driftwatch.Oracle.Applying.Laws.{Applied, apply-IsShard, apply-Applied}
use driftwatch.Oracle.Applying.Adopting.{Adopted, adopt-Adopted}

abbrev entry_of : Str → TrustState → ℕ → ℕ → Stored
entry_of key trust at bucket = record {
  key = key;
  value = set_value (bytes "a" ∷ []);
  version = 3;
  trust = trust;
  last_event_at = at;
  last_value_change_at = at;
  last_seq = 8;
  last_epoch = 1;
  last_publisher = bytes "p";
  ttl = none;
  truncated = false;
  created_at = 10;
  gen = 2;
  bucket = bucket;
  ring = new_ring 16;
}

-- A full shard: one key long settled, one in bucket 9.
abbrev two_keys : Shard
two_keys = record {
  entries =
      (bytes "j", entry_of (bytes "j") TrustState.adopted 15 1)
      ∷ (bytes "k", entry_of (bytes "k") TrustState.complete 95 9)
      ∷ [];
  buckets = (9, bytes "k") ∷ [];
  settled = bytes "j" ∷ [];
  bucket_width = 10;
  max_keys = 2;
  fresh = pos 1;
  adopted = pos 1;
  suspect = pos 0;
  truncated = pos 0;
  evictions = 0;
}

two_keys-counts : CountsOf 1 two_keys.entries two_keys
two_keys-counts Class.fresh = refl
two_keys-counts Class.adopted = refl
two_keys-counts Class.suspect = refl
two_keys-counts Class.truncated = refl

two_keys-stands : (k : Str) → Stands 40 100 k (lookup k two_keys.entries) two_keys
unfolding lookup in_bucket has bucket_of str_eq
two_keys-stands k = elim (Bool-cases (str_eq (bytes "j") k)) [
  | inl here ↦
      rw (← (str_eq_iff (bytes "j") k).0 here)
        (refl, refl, λ b inside. absurd (ground arith), inr refl, λ old. omega arith)
  | inr other ↦ elim (Bool-cases (str_eq (bytes "k") k)) [
    | inl there ↦
        subst (λ q. Stands 40 100 q (lookup q two_keys.entries) two_keys)
          ((str_eq_iff (bytes "k") k).0 there)
          (refl, refl, λ b inside. (ground arith, refl), inl refl, λ old. absurd (ground arith))
    | inr neither ↦ rw (other, neither) (λ b. ground arith, ground arith)
  ]
]

two_keys-IsShard : IsShard 1 40 100 two_keys
two_keys-IsShard = record {
  distinct = unfold lookup str_eq in (refl, (refl, tt));
  counts = two_keys-counts;
  index = two_keys-stands;
  room = omega arith;
  bounded = omega arith;
}

abbrev some_setting : Setting
some_setting = record { floor = 1; gen = 2; ring_size = 4; retain_raw = false }

abbrev an_event : Event
an_event = record {
  publisher = bytes "p";
  epoch = 1;
  seq = 9;
  published_at = 0;
  observed_at = 110;
  topic = [];
  op = Op.add;
  key = bytes "n";
  member = bytes "x";
  value = none;
  delta = pos 0;
  ttl = none;
  raw = none;
}

abbrev a_mutation : Mutation
a_mutation = upsert_of (bytes "n") (set_value (bytes "x" ∷ []))

apply-IsShard_example :
    IsShard 1 40 100
      ((apply some_setting a_mutation an_event accept TrustState.complete 120 two_keys).0)
apply-IsShard_example =
    apply-IsShard some_setting a_mutation an_event accept TrustState.complete 120 40 100 two_keys
      two_keys-IsShard

apply-Applied_example :
    Applied some_setting a_mutation TrustState.complete
      (observed_at an_event 120)
      two_keys
      ((apply some_setting a_mutation an_event accept TrustState.complete 120 two_keys).0)
      ((apply some_setting a_mutation an_event accept TrustState.complete 120 two_keys).1)
apply-Applied_example =
    apply-Applied some_setting a_mutation an_event accept TrustState.complete 120 40 100 two_keys
      two_keys-IsShard refl

adopt-Adopted_example :
    IsShard 1 40 100 (adopt some_setting (bytes "n") (set_value (bytes "x" ∷ [])) 110 two_keys)
    × Adopted some_setting
        (bytes "n")
        (set_value (bytes "x" ∷ []))
        110
        (adopt some_setting (bytes "n") (set_value (bytes "x" ∷ [])) 110 two_keys)
adopt-Adopted_example =
    adopt-Adopted some_setting 40 100 (bytes "n") (set_value (bytes "x" ∷ [])) 110 two_keys
      two_keys-IsShard

promote-IsShard_example : IsShard 1 40 150 (promote 150 40 two_keys)
promote-IsShard_example =
    promote-IsShard 1 40 100 150 two_keys two_keys-IsShard (omega arith) (omega arith)

-- The settled key gives way to the new one.
apply_evicts :
    (apply some_setting a_mutation an_event accept TrustState.complete 120 two_keys).1 ≡ record {
      key = bytes "n";
      version = 1;
      created = true;
      deleted = false;
      evicted = bytes "j";
      did_evict = true;
      applied = true;
    }
unfolding apply result observed_at create make_room evict_one oldest_indexed lookup str_eq new_entry
apply_evicts = refl
