-- ===== src/Oracle/Shard/Index.antt =====
-- The settlement index of a shard: where each key stands, and what the operations do to it.
use driftwatch.Base.{
  ℕ, ◌+◌, ◌<◌, ◌≡◌, refl, sym, ap, ◌∙◌, true, false, not, ◌&&◌, Option, none, some, [], ◌∷◌, ◌==◌,
  Str, str_eq, str_eq_iff, str_eq_refl, Dict, lookup, insert, delete, lookup-insert, lookup-delete,
  arith, inl, inr, Bool-cases, ◌⊎◌,
}
use driftwatch.Event.Members.{has, has-take_out}
use driftwatch.Oracle.Entry.{Stored}
use driftwatch.Oracle.Shard.{
  Shard, Buckets, in_bucket, out_of_bucket, place, remove_from_index, bucket_of, in_buckets,
}

pub in_bucket-out :
    (b c : ℕ) (k j : Str) (bs : Buckets)
    → in_bucket b k (out_of_bucket c j bs) ≡ (not ((c == b) && str_eq j k) && in_bucket b k bs)
unfolding in_bucket out_of_bucket
in_bucket-out b c k j [] = ground arith
in_bucket-out b c k j ((d, i) ∷ bs) =
    ground (arith, in_bucket-out b c k j bs, str_eq_iff i j, str_eq_iff i k, str_eq_iff j k)

-- Where a key may stand: nowhere without an entry; with one, in its entry's bucket, that of its last
-- event, or among the settled keys, not in both, and there only once it is older than any window.
abbrev pub Stands : ℕ → ℕ → Str → Option Stored → Shard → Type 0
Stands max_window clock k none s =
    ((b : ℕ) → in_bucket b k s.buckets ≡ false) × (has k s.settled ≡ false)
Stands max_window clock k (some e) s =
    (e.key ≡ k)
    × (e.bucket ≡ bucket_of s e.last_event_at)
    × ((b : ℕ) → in_bucket b k s.buckets ≡ true → (b ≡ e.bucket) × (has k s.settled ≡ false))
    × ((in_bucket e.bucket k s.buckets ≡ true) ⊎ (has k s.settled ≡ true))
    × (has k s.settled ≡ true → e.last_event_at + max_window < clock)

-- The index of a shard covers the entries of `m`.
abbrev pub Indexes : ℕ → ℕ → Dict Stored → Shard → Type 0
Indexes max_window clock m s = (k : Str) → Stands max_window clock k (lookup k m) s

pub remove_from_index-other :
    (e : Stored) (s : Shard) (j : Str) (b : ℕ)
    → str_eq e.key j ≡ false
    → (in_bucket b j (remove_from_index e s).buckets ≡ in_bucket b j s.buckets)
      × (has j (remove_from_index e s).settled ≡ has j s.settled)
unfolding remove_from_index
remove_from_index-other e s j b other =
    ground (arith, in_bucket-out b e.bucket j e.key s.buckets, has-take_out e.key j s.settled)

place-other :
    (e : Stored) (at : ℕ) (s : Shard) (j : Str) (b : ℕ)
    → str_eq e.key j ≡ false
    → (in_bucket b j ((place e at s).1).buckets ≡ in_bucket b j s.buckets)
      × (has j ((place e at s).1).settled ≡ has j s.settled)
unfolding place in_bucket
place-other e at s j b other = ground (
  arith,
  remove_from_index-other e s j b other,
  in_bucket-out b (bucket_of s at) j e.key (remove_from_index e s).buckets,
)

-- What `place` asks of the key: all of its bucket entries are the one that the entry names.
abbrev pub Found : Stored → Shard → Type 0
Found e s =
    (b : ℕ) → in_bucket b e.key s.buckets ≡ true → (b ≡ e.bucket) × (has e.key s.settled ≡ false)

place_self :
    (e : Stored) (at : ℕ) (s : Shard) (b : ℕ)
    → Found e s
    → ((place e at s).0.bucket ≡ bucket_of s at)
      × (in_bucket (bucket_of s at) e.key ((place e at s).1).buckets ≡ true)
      × (has e.key ((place e at s).1).settled ≡ false)
      × (in_bucket b e.key ((place e at s).1).buckets ≡ true → b ≡ bucket_of s at)
unfolding place in_bucket in_buckets remove_from_index
place_self e at s b found = ground (
  arith,
  found b,
  found e.bucket,
  str_eq_refl e.key,
  has-take_out e.key e.key s.settled,
  in_bucket-out b e.bucket e.key e.key s.buckets,
  in_bucket-out b (bucket_of s at) e.key e.key (out_of_bucket e.bucket e.key s.buckets),
)

pub width-place :
    (e : Stored) (at : ℕ) (s : Shard) → ((place e at s).1).bucket_width ≡ s.bucket_width
unfolding place remove_from_index
width-place e at s = ground arith

-- A key that an operation does not touch stands where it stood.
pub Stands-same :
    (max_window clock : ℕ) (k : Str) (o : Option Stored) (s t : Shard)
    → ((b : ℕ)
        → (in_bucket b k t.buckets ≡ in_bucket b k s.buckets) × (has k t.settled ≡ has k s.settled))
    → t.bucket_width ≡ s.bucket_width
    → Stands max_window clock k o s
    → Stands max_window clock k o t
unfolding bucket_of
Stands-same max_window clock k none s t same width h = (λ b. (same b).0 ∙ h.0 b, (same 0).1 ∙ h.1)
Stands-same max_window clock k (some e) s t same width h = (
  h.0,
  rw width (h.1),
  λ b inside. ground (arith, h.2 b, same b),
  ground (arith, h.3, same e.bucket),
  λ old. h.4 (sym ((same 0).1) ∙ old),
)

-- The index depends on three fields alone.
pub Indexes-same :
    (max_window clock : ℕ) (m : Dict Stored) (s t : Shard)
    → t.buckets ≡ s.buckets
    → t.settled ≡ s.settled
    → t.bucket_width ≡ s.bucket_width
    → Indexes max_window clock m s
    → Indexes max_window clock m t
Indexes-same max_window clock m s t buckets settled width h j =
    Stands-same max_window clock j (lookup j m) s t
      (λ b. (ap (λ z. in_bucket b j z) buckets, ap (λ z. has j z) settled)) width (h j)

pub place-Indexes :
    (max_window clock at : ℕ) (e x : Stored) (m : Dict Stored) (s : Shard)
    → Found e s
    → x.key ≡ e.key
    → x.bucket ≡ (place e at s).0.bucket
    → x.last_event_at ≡ at
    → ((j : Str) → str_eq e.key j ≡ false → Stands max_window clock j (lookup j m) s)
    → Indexes max_window clock (insert e.key x m) (place e at s).1
place-Indexes max_window clock at e x m s found key bucket seen h j =
    elim (Bool-cases (str_eq e.key j)) [
      | inr other ↦
          rw (lookup-insert e.key j x m, other)
            (Stands-same max_window clock j (lookup j m) s (place e at s).1
              (λ b. place-other e at s j b other) (width-place e at s) (h j other))
      | inl same ↦
          let t = (place e at s).1 in
          let self = λ (b : ℕ). place_self e at s b found in
          let here : bucket_of t at ≡ bucket_of s at =
            unfold bucket_of in (rw (width-place e at s) refl) in
          rw (lookup-insert e.key j x m, same)
            (rw (← (str_eq_iff e.key j).0 same) (
              key,
              bucket ∙ (self 0).0 ∙ sym here ∙ ap (λ z. bucket_of t z) (sym seen),
              λ b inside. ((self b).3 inside ∙ sym ((self 0).0) ∙ sym bucket, (self 0).2),
              inl (rw (bucket, (self 0).0) ((self 0).1)),
              λ old. absurd (cc ((self 0).2)),
            ))
    ]

pub remove-Indexes :
    (max_window clock : ℕ) (e : Stored) (m : Dict Stored) (s : Shard)
    → Found e s
    → Indexes max_window clock m s
    → Indexes max_window clock (delete e.key m) (remove_from_index e s)
remove-Indexes max_window clock e m s found h j = elim (Bool-cases (str_eq e.key j)) [
  | inr other ↦
      rw (lookup-delete e.key j m, other)
        (Stands-same max_window clock j (lookup j m) s (remove_from_index e s)
          (λ b. remove_from_index-other e s j b other) (unfold remove_from_index in refl) (h j))
  | inl same ↦
      rw (lookup-delete e.key j m, same) (rw (← (str_eq_iff e.key j).0 same) (λ b. removed b, gone))
]
  where
    removed : (b : ℕ) → in_bucket b e.key (remove_from_index e s).buckets ≡ false
    removed b =
        unfold remove_from_index in
        ground (arith, found b, str_eq_refl e.key, in_bucket-out b e.bucket e.key e.key s.buckets)

    gone : has e.key (remove_from_index e s).settled ≡ false
    gone =
        unfold remove_from_index in
        ground (arith, str_eq_refl e.key, has-take_out e.key e.key s.settled)

pub Found-new :
    (max_window clock : ℕ) (e : Stored) (s : Shard)
    → Stands max_window clock e.key none s
    → Found e s
Found-new max_window clock e s h b inside = absurd (cc (h.0 b))

pub Found-old :
    (max_window clock : ℕ) (e old : Stored) (s : Shard)
    → Stands max_window clock e.key (some old) s
    → e.bucket ≡ old.bucket
    → Found e s
Found-old max_window clock e old s h same b inside =
    let (here, apart) = h.2 b inside in (here ∙ sym same, apart)
