-- ===== src/Oracle/Applying.antt =====
-- pkg/oracle/oracle.go: what Apply and AdoptSnapshot do to the shard of a key. The shard is the one
-- that shardFor picks by a hash of the key, so no operation here meets another shard.
pub mod Updating
pub mod Creating
pub mod Writing
pub mod Laws
pub mod Adopting
use driftwatch.Base.{
  ℕ, ◌+◌, Bool, true, false, not, ◌||◌, Option, none, some, List, [], ◌∷◌, ltb, leb, ◌==◌,
  if◌then◌else◌, Str, Dict, lookup, insert, length, add64, ℤ,
}
use driftwatch.Event.{Event, TrustState}
use driftwatch.Event.Value.{Value, value_equal}
use driftwatch.Projection.{Mutation, Action, nothing, upsert}
use driftwatch.Projection
use driftwatch.Projection.Keyset.{no_value}
use driftwatch.Seqtrack.Tracker.{Verdict}
use driftwatch.Oracle.Ring.{new_ring, push}
use driftwatch.Oracle.Entry.{Stored, HistoryEntry, ApplyResult}
use driftwatch.Oracle.Shard.{Shard, forget, remember, place, evict_one}

-- What Apply takes from the oracle: the floor and the generation of the moment, and the settings.
pub record Setting : Type 0 where
  pub floor : ℕ
  pub gen : ℕ
  pub ring_size : ℕ
  pub retain_raw : Bool

-- `clock` is the reading of the clock.
unfoldable pub observed_at : Event → ℕ → ℕ
observed_at e clock = if e.observed_at == 0 then clock else e.observed_at

unfoldable pub history_event : Setting → Event → Event
history_event c e = record e { raw = if c.retain_raw then e.raw else none }

-- &entry{key, createdAt, ring}: all else has Go's zero value, whose trust is complete.
unfoldable pub new_entry : Setting → Str → ℕ → Stored
new_entry c key now = record {
  key = key;
  value = no_value;
  version = 0;
  trust = TrustState.complete;
  last_event_at = 0;
  last_value_change_at = 0;
  last_seq = 0;
  last_epoch = 0;
  last_publisher = [];
  ttl = none;
  truncated = false;
  created_at = now;
  gen = 0;
  bucket = 0;
  ring = new_ring c.ring_size;
}

-- The eviction that makes room for a new key.
unfoldable pub make_room : Setting → Shard → Shard × Option Str
make_room c s = if leb s.max_keys (length s.entries) then evict_one c.floor s else (s, none)

-- A key that the shard does not hold: room for it, and its entry, counted.
unfoldable pub create : Setting → Str → ℕ → Shard → Shard × Option Str
unfolding make_room new_entry
create c key now s =
    let (s', evicted) = make_room c s in
    let e = new_entry c key now in
    (remember e c.floor (record s' { entries = insert key e s'.entries }), evicted)

abbrev pub acted : Action → Mutation → Stored → Stored
acted nothing m e = e
acted upsert m e = record e { value = m.value; ttl = m.ttl }
acted Projection.delete m e = record e { value = no_value; ttl = none }

-- What Apply writes to the entry before it is placed, but for the time of the change.
unfoldable pub written : Setting → Mutation → Event → TrustState → ℕ → Stored → Stored
written c m ev trust now e = acted m.action m (record e {
  version = add64 e.version 1;
  gen = c.gen;
  trust = trust;
  last_event_at = now;
  last_seq = ev.seq;
  last_epoch = ev.epoch;
  last_publisher = ev.publisher;
  truncated = m.truncated;
})

unfoldable pub changed : Bool → ℕ → Stored → Stored → Stored
changed created now old e =
    if created || not (value_equal old.value e.value)
    then record e { last_value_change_at = now }
    else e

abbrev pub history : Setting → Event → Verdict → ℕ → Stored → HistoryEntry
history c ev verdict now e = record {
  event = history_event c ev;
  verdict = verdict;
  result_value = e.value;
  version = e.version;
  applied_at = now;
}

-- The entry after Apply: it stands in the shard under its key, so writing it is writing the shard.
unfoldable pub update :
    Setting → Mutation → Event → Verdict → TrustState → ℕ → Bool → Stored → Shard → Shard
unfolding written changed history_event
update c m ev verdict trust now created old s =
    let e = changed created now old (written c m ev trust now old) in
    let (e', s') = place e now (remember e c.floor (forget old c.floor s)) in
    record s' {
      entries =
          insert m.key (record e' { ring = push (history c ev verdict now e') e'.ring }) s'.entries;
    }

abbrev is_nothing : Action → Bool
is_nothing nothing = true
is_nothing upsert = false
is_nothing Projection.delete = false

abbrev is_delete : Action → Bool
is_delete nothing = false
is_delete upsert = false
is_delete Projection.delete = true

abbrev or_empty : Option Str → Str
or_empty none = []
or_empty (some k) = k

abbrev is_some : Option Str → Bool
is_some none = false
is_some (some k) = true

unfoldable pub result : Mutation → Bool → ℕ → Option Str → ApplyResult
result m created version evicted = record {
  key = m.key;
  version = version;
  created = created;
  deleted = is_delete m.action;
  evicted = or_empty evicted;
  did_evict = is_some evicted;
  applied = true;
}

unfoldable pub no_result : Str → ApplyResult
no_result key = record {
  key = key;
  version = 0;
  created = false;
  deleted = false;
  evicted = [];
  did_evict = false;
  applied = false;
}

unfoldable pub apply :
    Setting → Mutation → Event → Verdict → TrustState → ℕ → Shard → Shard × ApplyResult
unfolding observed_at create update result no_result
apply c m ev verdict trust clock s =
    let now = observed_at ev clock in
    let fresh = new_entry c m.key now in
    if is_nothing m.action then (s, no_result m.key) else elim (lookup m.key s.entries) [
      | some old ↦
          (update c m ev verdict trust now false old s, result m false (add64 old.version 1) none)
      | none ↦
          let (s', evicted) = create c m.key now s in
          (
            update c m ev verdict trust now true fresh s',
            result m true (add64 fresh.version 1) evicted,
          )
    ]

-- The body of the loop of AdoptSnapshot, once the entry is there.
unfoldable pub adopt_entry : Setting → Str → Value → ℕ → Stored → Shard → Shard
adopt_entry c key value at old s =
    let e : Stored = record old {
      version = add64 old.version 1;
      gen = c.gen;
      trust = TrustState.adopted;
      value = value;
      last_event_at = at;
    } in
    let (e', s') = place e at (remember e c.floor (forget old c.floor s)) in
    record s' { entries = insert key e' s'.entries }

unfoldable pub adopt : Setting → Str → Value → ℕ → Shard → Shard
unfolding create adopt_entry
adopt c key value at s = elim (lookup key s.entries) [
  | some old ↦ adopt_entry c key value at old s
  | none ↦ adopt_entry c key value at (new_entry c key at) (create c key at s).0
]
