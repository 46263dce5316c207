-- ===== src/Oracle/Shard.antt =====
-- pkg/oracle/shard.go, settle.go and evict.go: one lock domain of the oracle, its cached counts, its
-- settlement index and the choice of a victim. The index maps a bucket to its set of keys and keeps no
-- empty set, so it is the set of the pairs of a bucket and a key. An iteration over a map goes by the
-- order of its list. Times and windows are not negative; the counts are Go's signed integers.
pub mod Counting
pub mod Index
pub mod Evicting
pub mod Settling
use driftwatch.Base.{
  ℕ, zero, suc, ◌+◌, ◌-◌, ◌/◌, Bool, true, false, not, ◌&&◌, ◌||◌, Option, none, some, List, [],
  ◌∷◌, ◌++◌, ltb, leb, ◌==◌, if◌then◌else◌, Str, str_eq, Dict, lookup, insert, delete, length,
  add64, ℤ, pos, negsuc, ◌+ℤ◌, ◌-ℤ◌,
}
use driftwatch.Event.Members.{has, put, take_out}
use driftwatch.Oracle.Entry.{Stored, is_adopted, is_suspect, is_complete}

abbrev pub Buckets : Type 0
Buckets = List (ℕ × Str)

pub record Shard : Type 0 where
  pub entries : Dict Stored
  pub buckets : Buckets
  pub settled : List Str
  pub bucket_width : ℕ
  pub max_keys : ℕ
  pub fresh : ℤ
  pub adopted : ℤ
  pub suspect : ℤ
  pub truncated : ℤ
  pub evictions : ℕ

unfoldable pub new_shard : ℕ → ℕ → Shard
new_shard bucket_width max_keys = record {
  entries = [];
  buckets = [];
  settled = [];
  bucket_width = bucket_width;
  max_keys = max_keys;
  fresh = pos 0;
  adopted = pos 0;
  suspect = pos 0;
  truncated = pos 0;
  evictions = 0;
}

-- The third case of the switch on the trust: complete, and written at or above the floor.
abbrev pub is_fresh : ℕ → Stored → Bool
is_fresh floor e = is_complete e.trust && leb floor e.gen

abbrev pub step : ℤ → Bool → ℤ → ℤ
step d b n = if b then n +ℤ d else n

-- The counts with an entry counted `d` times more.
abbrev adjust : ℤ → Stored → ℕ → Shard → Shard
adjust d e floor s = record s {
  adopted = step d (is_adopted e.trust) s.adopted;
  suspect = step d (is_suspect e.trust) s.suspect;
  fresh = step d (is_fresh floor e) s.fresh;
  truncated = step d e.truncated s.truncated;
}

unfoldable pub forget : Stored → ℕ → Shard → Shard
forget e floor s = adjust (negsuc 0) e floor s

unfoldable pub remember : Stored → ℕ → Shard → Shard
remember e floor s = adjust (pos 1) e floor s

-- suspect + (len(entries) - adopted - suspect - fresh)
unfoldable pub suspect_count : Shard → ℤ
suspect_count s = s.suspect +ℤ (pos (length s.entries) -ℤ s.adopted -ℤ s.suspect -ℤ s.fresh)

abbrev remember_all : ℕ → Dict Stored → Shard → Shard
remember_all floor [] s = s
remember_all floor ((k, e) ∷ m) s = remember_all floor m (adjust (pos 1) e floor s)

unfoldable pub recount : ℕ → Shard → Shard
recount floor s =
    remember_all floor s.entries
      (record s { fresh = pos 0; adopted = pos 0; suspect = pos 0; truncated = pos 0 })

unfoldable pub bucket_of : Shard → ℕ → ℕ
bucket_of s at = at / s.bucket_width

unfoldable pub in_bucket : ℕ → Str → Buckets → Bool
in_bucket b k [] = false
in_bucket b k ((c, j) ∷ bs) = ((c == b) && str_eq j k) || in_bucket b k bs

unfoldable pub out_of_bucket : ℕ → Str → Buckets → Buckets
out_of_bucket b k [] = []
out_of_bucket b k ((c, j) ∷ bs) =
    if (c == b) && str_eq j k then out_of_bucket b k bs else (c, j) ∷ out_of_bucket b k bs

unfoldable pub in_buckets : Stored → Shard → Bool
unfolding in_bucket
in_buckets e s = in_bucket e.bucket e.key s.buckets

unfoldable pub remove_from_index : Stored → Shard → Shard
unfolding out_of_bucket take_out
remove_from_index e s = record s {
  buckets = out_of_bucket e.bucket e.key s.buckets;
  settled = take_out e.key s.settled;
}

-- The entry, with its new bucket, and the shard.
unfoldable pub place : Stored → ℕ → Shard → Stored × Shard
unfolding bucket_of in_buckets remove_from_index out_of_bucket
place e at s =
    let b = bucket_of s at in
    let s' = remove_from_index e s in
    if (e.bucket == b) && in_buckets e s then (e, s) else (
      record e { bucket = b },
      record s' { buckets = (b, e.key) ∷ out_of_bucket b e.key s'.buckets },
    )

-- The loop of promote. With a time before the window the horizon is 0 or below it, and no bucket is
-- below either.
unfoldable pub promote_loop : ℕ → Buckets → List Str → Buckets × List Str
unfolding put
promote_loop horizon [] settled = ([], settled)
promote_loop horizon ((b, k) ∷ bs) settled =
    let (rest, settled') =
      promote_loop horizon bs (if leb horizon b then settled else put k settled) in
    (if leb horizon b then (b, k) ∷ rest else rest, settled')

unfoldable pub promote : ℕ → ℕ → Shard → Shard
unfolding promote_loop bucket_of
promote now max_window s =
    let (buckets, settled) = promote_loop (bucket_of s (now - max_window)) s.buckets s.settled in
    record s { buckets = buckets; settled = settled }

-- t.Before(now.Add(-w))
abbrev pub older : ℕ → ℕ → ℕ → Bool
older t w now = ltb (t + w) now

unfoldable pub is_settled : Stored → ℕ → ℕ → ℕ → Bool
is_settled e now w never_settled =
    older e.last_event_at w now
    || (not (e.last_value_change_at == 0) && older e.last_value_change_at never_settled now)

abbrev pub settled_entry : Option Stored → ℕ → ℕ → ℕ → Bool
settled_entry none now w never_settled = false
settled_entry (some e) now w never_settled = is_settled e now w never_settled

-- The second loop of settledKeys, over the buckets.
unfoldable pub settled_in : Dict Stored → Buckets → ℕ → ℕ → ℕ → List Str
unfolding is_settled lookup
settled_in entries [] now w never_settled = []
settled_in entries ((b, k) ∷ bs) now w never_settled =
    let rest = settled_in entries bs now w never_settled in
    if settled_entry (lookup k entries) now w never_settled then k ∷ rest else rest

unfoldable pub settled_keys : Shard → ℕ → ℕ → ℕ → List Str
unfolding settled_in
settled_keys s now w never_settled = s.settled ++ settled_in s.entries s.buckets now w never_settled

abbrev pub never_settled_entry : Option Stored → ℕ → ℕ → ℕ → Bool
never_settled_entry none now w never_settled = false
never_settled_entry (some e) now w never_settled =
    not (is_settled e now w never_settled) && older e.created_at never_settled now

-- The loop of countSettled.
unfoldable pub count_in : Dict Stored → Buckets → ℕ → ℕ → ℕ → ℕ × ℕ
unfolding is_settled
count_in entries [] now w never_settled = (0, 0)
count_in entries ((b, k) ∷ bs) now w never_settled =
    let (settled, never) = count_in entries bs now w never_settled in
    (
      (if settled_entry (lookup k entries) now w never_settled then 1 else 0) + settled,
      (if never_settled_entry (lookup k entries) now w never_settled then 1 else 0) + never,
    )

unfoldable pub count_settled : Shard → ℕ → ℕ → ℕ → ℕ × ℕ
unfolding count_in
count_settled s now w never_settled =
    let (settled, never) = count_in s.entries s.buckets now w never_settled in
    (length s.settled + settled, never)

-- The loop of oldestIndexed over the buckets: the key so far, and its bucket.
unfoldable pub oldest_in : Buckets → Option (ℕ × Str) → Option (ℕ × Str)
oldest_in [] best = best
oldest_in ((b, k) ∷ bs) none = oldest_in bs (some (b, k))
oldest_in ((b, k) ∷ bs) (some (c, j)) = oldest_in bs (some (if ltb c b then (c, j) else (b, k)))

abbrev key_of : Option (ℕ × Str) → Option Str
key_of none = none
key_of (some (b, k)) = some k

abbrev oldest_or : List Str → Buckets → Option Str
oldest_or [] bs = key_of (oldest_in bs none)
oldest_or (k ∷ ks) bs = some k

unfoldable pub oldest_indexed : Shard → Option Str
unfolding oldest_in
oldest_indexed s = oldest_or s.settled s.buckets

abbrev first_key : Dict Stored → Option Str
first_key [] = none
first_key ((k, e) ∷ m) = some k

abbrev or_first : Option Str → Dict Stored → Option Str
or_first none m = first_key m
or_first (some k) m = some k

unfoldable pub drop_entry : Stored → ℕ → Shard → Shard
unfolding forget remove_from_index
drop_entry e floor s =
    let s' = remove_from_index e (forget e floor s) in
    record s' { entries = delete e.key s'.entries }

unfoldable pub evict_one : ℕ → Shard → Shard × Option Str
unfolding oldest_indexed drop_entry
evict_one floor s = elim (or_first (oldest_indexed s) s.entries) [
  | none ↦ (s, none)
  | some victim ↦ elim (lookup victim s.entries) [
    | none ↦ (s, none)
    | some e ↦ (record (drop_entry e floor s) { evictions = add64 s.evictions 1 }, some victim)
  ]
]
