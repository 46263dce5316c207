-- ===== src/Oracle/Suspicion.antt =====
-- pkg/oracle/oracle.go and entry.go: reading an entry or its version, and mass suspicion. The shards only split the
-- map of entries by a hash of the key, so one map stands for all of them; the cached counts and the
-- index of a shard are left out. `matches` is path.Match, false on a malformed pattern.
pub mod Laws
use driftwatch.Base.{
  ℕ, ◌+◌, Bool, true, false, not, ◌&&◌, ◌||◌, Option, none, some, List, [], ◌∷◌, ltb, ◌==◌,
  if◌then◌else◌, Str, str_eq, Dict, lookup, ℤ, pos, ◌+ℤ◌, ltb_ℤ, add64,
}
use driftwatch.Event.{TrustState}
use driftwatch.Event.Value.{Value}
use driftwatch.Projection.Keyset.{no_value}
use driftwatch.Oracle.Entry.{Entry, Stored, is_complete, is_suspect}

pub record Oracle : Type 0 where
  pub entries : Dict Stored
  pub suspect_gen : ℕ
  pub suspect_floor : ℕ

unfoldable pub effective_trust : Stored → ℕ → TrustState
effective_trust e floor =
    if is_complete e.trust && ltb e.gen floor then TrustState.suspect else e.trust

-- The expiry time is an integer, since a TTL is one.
abbrev past : Option ℤ → ℕ → ℕ → Bool
past none at now = false
past (some ttl) at now =
    if not (ltb_ℤ (pos 0) ttl) || (at == 0) then false else ltb_ℤ (pos at +ℤ ttl) (pos now)

unfoldable pub expired : Stored → ℕ → Bool
expired e now = past e.ttl e.last_event_at now

unfoldable pub snapshot_of : Stored → TrustState → Entry
snapshot_of e trust = record {
  key = e.key;
  value = e.value;
  version = e.version;
  trust = trust;
  last_event_at = e.last_event_at;
  last_value_change_at = e.last_value_change_at;
  last_seq = e.last_seq;
  last_epoch = e.last_epoch;
  last_publisher = e.last_publisher;
  ttl = e.ttl;
  expired = false;
  truncated = e.truncated;
  created_at = e.created_at;
}

-- What Get makes of the entry it finds.
unfoldable pub read_entry : ℕ → ℕ → Stored → Entry
unfolding snapshot_of expired effective_trust
read_entry floor now e = record (snapshot_of e (effective_trust e floor)) {
  expired = expired e now;
  value = if expired e now then no_value else e.value;
}

unfoldable pub get : Oracle → Str → ℕ → Option Entry
unfolding read_entry
get o key now = elim (lookup key o.entries) [
  | none ↦ none
  | some e ↦ some (read_entry o.suspect_floor now e)
]

abbrev version_of : Option Stored → Option ℕ
version_of none = none
version_of (some e) = some e.version

unfoldable pub version : Oracle → Str → Option ℕ
version o key = version_of (lookup key o.entries)

-- The body of the loop of MarkSuspect.
abbrev pub mark_entry : Bool → Stored → Stored
mark_entry hit e = record e {
  trust = if is_complete e.trust && hit then TrustState.suspect else e.trust;
}

unfoldable pub mark_entries : (Str → Bool) → Dict Stored → Dict Stored
mark_entries hit [] = []
mark_entries hit ((k, e) ∷ m) = (k, mark_entry (hit k) e) ∷ mark_entries hit m

unfoldable pub mark_suspect : (Str → Str → Bool) → Str → Oracle → Oracle
unfolding mark_entries
mark_suspect matches pattern o =
    if str_eq pattern []
    then record o { suspect_gen = add64 o.suspect_gen 1; suspect_floor = add64 o.suspect_gen 1 }
    else record o { entries = mark_entries (matches pattern) o.entries }

-- The body of the loop of ClearSuspect.
abbrev pub clear_entry : ℕ → Bool → Stored → Stored
clear_entry gen hit e =
    if not hit
    then e
    else if is_suspect e.trust || is_complete e.trust
    then record e { trust = TrustState.complete; gen = gen }
    else e

unfoldable pub clear_entries : ℕ → (Str → Bool) → Dict Stored → Dict Stored
clear_entries gen hit [] = []
clear_entries gen hit ((k, e) ∷ m) = (k, clear_entry gen (hit k) e) ∷ clear_entries gen hit m

abbrev pub in_scope : (Str → Str → Bool) → Str → Str → Bool
in_scope matches pattern key = str_eq pattern [] || matches pattern key

unfoldable pub clear_suspect : (Str → Str → Bool) → Str → Oracle → Oracle
unfolding clear_entries
clear_suspect matches pattern o = record o {
  entries = clear_entries o.suspect_gen (in_scope matches pattern) o.entries;
  suspect_floor = if str_eq pattern [] then 0 else o.suspect_floor;
}
