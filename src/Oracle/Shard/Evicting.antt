-- ===== src/Oracle/Shard/Evicting.antt =====
-- pkg/oracle/evict.go: the victim, and what its eviction leaves.
use driftwatch.Base.{
  ℕ, ◌≤◌, ◌≡◌, refl, sym, ap, subst, ◌∙◌, true, Option, Option-cases, none, some, List, [], ◌∷◌,
  ltb, if◌then◌else◌, Str, str_eq_refl, Dict, lookup, delete, Distinct, add64, length, arith, inl,
  inr, ◌⊎◌,
}
use driftwatch.Event.Members.{has}
use driftwatch.Oracle.Entry.{Stored}
use driftwatch.Oracle.Shard.{
  Shard, Buckets, in_bucket, oldest_in, oldest_indexed, oldest_or, evict_one, drop_entry,
  remove_from_index, forget,
}
use driftwatch.Oracle.Shard.Counting.{CountsOf, forget-CountsOf, Class, cached}
use driftwatch.Oracle.Shard.Index.{Stands, Indexes, Found, Found-old, remove-Indexes, Indexes-same}

-- What a shard is between two operations, at a floor, a largest window and a time.
pub record IsShard (floor max_window clock : ℕ) (s : Shard) : Type 0 where
  pub distinct : Distinct s.entries
  pub counts : CountsOf floor s.entries s
  pub index : Indexes max_window clock s.entries s
  pub room : 1 ≤ s.max_keys
  pub bounded : length s.entries ≤ s.max_keys

-- The pair that the loop finds is there, and no pair is of an older bucket.
oldest_in-found :
    (bs : Buckets) (best : Option (ℕ × Str)) (b : ℕ) (k : Str)
    → oldest_in bs best ≡ some (b, k)
    → (in_bucket b k bs ≡ true) ⊎ (best ≡ some (b, k))
unfolding oldest_in in_bucket
oldest_in-found [] best b k h = inr h
oldest_in-found ((c, j) ∷ bs) none b k h =
    ground (arith, oldest_in-found bs (some (c, j)) b k h, str_eq_refl j)
oldest_in-found ((c, j) ∷ bs) (some (d, i)) b k h =
    ground
      (arith, oldest_in-found bs (some (if ltb d c then (d, i) else (c, j))) b k h, str_eq_refl j)

oldest_in-none :
    (bs : Buckets) (best : ℕ × Str) → (p : ℕ × Str) × (oldest_in bs (some best) ≡ some p)
unfolding oldest_in
oldest_in-none [] best = (best, refl)
oldest_in-none ((c, j) ∷ bs) (d, i) = oldest_in-none bs (if ltb d c then (d, i) else (c, j))

abbrev NoMore : ℕ → Option (ℕ × Str) → Type 0
NoMore b none = Unit {0}
NoMore b (some (c, k)) = b ≤ c

pub oldest_in-least :
    (bs : Buckets) (best : Option (ℕ × Str)) (b : ℕ) (k : Str)
    → oldest_in bs best ≡ some (b, k)
    → NoMore b best × ((c : ℕ) (j : Str) → in_bucket c j bs ≡ true → b ≤ c)
unfolding oldest_in in_bucket
oldest_in-least [] none b k h = (tt, λ c j i. absurd (cc))
oldest_in-least [] (some (d, i)) b k h = (ground arith, λ c j i. absurd (cc))
oldest_in-least ((c, j) ∷ bs) none b k h =
    let (low, rest) = oldest_in-least bs (some (c, j)) b k h in
    (tt, λ d i inside. ground (arith, rest d i))
oldest_in-least ((c, j) ∷ bs) (some (d, i)) b k h =
    let (low, rest) = oldest_in-least bs (some (if ltb d c then (d, i) else (c, j))) b k h in
    (ground (arith, low), λ d' i' inside. ground (arith, low, rest d' i'))

-- A key of the index has an entry.
has_entry :
    (max_window clock : ℕ) (s : Shard) (k : Str)
    → Indexes max_window clock s.entries s
    → ((b : ℕ) × (in_bucket b k s.buckets ≡ true)) ⊎ (has k s.settled ≡ true)
    → (e : Stored) × (lookup k s.entries ≡ some e)
has_entry max_window clock s k h there = elim (Option-cases (lookup k s.entries)) [
  | inr found ↦ found
  | inl gone ↦
      let nowhere = subst (λ o. Stands max_window clock k o s) gone (h k) in
      elim there [ inl (b, inside) ↦ absurd (cc (nowhere.0 b)) | inr old ↦ absurd (cc (nowhere.1)) ]
]

-- The first of the settled keys, or a pair of the oldest bucket.
abbrev pub IsOldest : Str → List Str → Buckets → Type 0
IsOldest k settled buckets =
    (has k settled ≡ true)
    ⊎ ((settled ≡ [])
        × (b : ℕ) × (in_bucket b k buckets ≡ true)
        × ((c : ℕ) (j : Str) → in_bucket c j buckets ≡ true → b ≤ c))

oldest_lem :
    (k : Str) (settled : List Str) (buckets : Buckets)
    → oldest_or settled buckets ≡ some k
    → IsOldest k settled buckets
oldest_lem k (j ∷ settled) buckets h = inl (unfold has in ground (arith, str_eq_refl j))
oldest_lem k [] [] h = absurd (unfold oldest_in in (cc))
oldest_lem k [] (p ∷ buckets) h =
    let (best, chosen) : (best : ℕ × Str) × (oldest_in (p ∷ buckets) none ≡ some best) =
      unfold oldest_in in (oldest_in-none buckets p) in
    let same : best.1 ≡ k = ground (arith, chosen) in
    inr (
      refl,
      best.0,
      elim (oldest_in-found (p ∷ buckets) none best.0 best.1 chosen) [
        | inl inside ↦ rw (← same) inside
        | inr start ↦ absurd (cc)
      ],
      (oldest_in-least (p ∷ buckets) none best.0 best.1 chosen).1,
    )

-- A victim is found whenever there is an entry.
oldest_some :
    (settled : List Str) (buckets : Buckets)
    → (oldest_or settled buckets ≡ none)
    → (settled ≡ []) × (buckets ≡ [])
oldest_some (j ∷ settled) buckets h = cc
oldest_some [] [] h = (refl, refl)
oldest_some [] (p ∷ buckets) h =
    let (best, chosen) : (best : ℕ × Str) × (oldest_in (p ∷ buckets) none ≡ some best) =
      unfold oldest_in in (oldest_in-none buckets p) in
    absurd (ground (arith, chosen))

index_empty :
    (max_window clock : ℕ) (m : Dict Stored) (s : Shard)
    → Indexes max_window clock m s
    → s.settled ≡ []
    → s.buckets ≡ []
    → (k : Str) → lookup k m ≡ none
index_empty max_window clock m s h settled buckets k = elim (Option-cases (lookup k m)) [
  | inl gone ↦ gone
  | inr (e, there) ↦
      let at = subst (λ o. Stands max_window clock k o s) there (h k) in
      elim (at.3) [
        | inl inside ↦
            absurd (unfold in_bucket in (cc (ap (λ z. in_bucket e.bucket k z) buckets, inside)))
        | inr old ↦ absurd (unfold has in (cc (ap (λ z. has k z) settled, old)))
      ]
]

-- Whichever entry is evicted, the rest is as it was.
pub record Evicted (floor max_window clock : ℕ) (s t : Shard) (result : Option Str) : Type 0 where
  pub victim : Str
  pub named : result ≡ some victim
  pub entry : Stored
  pub there : lookup victim s.entries ≡ some entry
  pub chosen : IsOldest victim s.settled s.buckets
  pub left : t.entries ≡ delete victim s.entries
  pub counted : CountsOf floor t.entries t
  pub indexed : Indexes max_window clock t.entries t
  pub same_cap : t.max_keys ≡ s.max_keys
  pub same_width : t.bucket_width ≡ s.bucket_width

cached-drop :
    (floor n : ℕ) (e : Stored) (s : Shard) (c : Class)
    → cached c (record (drop_entry e floor s) { evictions = n }) ≡ cached c (forget e floor s)
unfolding drop_entry remove_from_index forget
cached-drop floor n e s Class.fresh = refl
cached-drop floor n e s Class.adopted = refl
cached-drop floor n e s Class.suspect = refl
cached-drop floor n e s Class.truncated = refl

module _ (floor max_window clock : ℕ) (s : Shard) (ok_s : IsShard floor max_window clock s) where
  drop_entry-Evicted :
      (e : Stored) (n : ℕ) (result : Option Str)
      → result ≡ some e.key
      → lookup e.key s.entries ≡ some e
      → IsOldest e.key s.settled s.buckets
      → Evicted floor max_window clock s (record (drop_entry e floor s) { evictions = n }) result
  unfolding drop_entry remove_from_index forget
  drop_entry-Evicted e n result named there chosen =
      let at = subst (λ o. Stands max_window clock e.key o s) there (ok_s.index e.key) in
      let found : Found e s = Found-old max_window clock e e s at refl in
      let counted : CountsOf floor (delete e.key s.entries) (forget e floor s) =
        forget-CountsOf floor e.key e s.entries s ok_s.distinct there ok_s.counts in
      record {
        victim = e.key;
        named = named;
        entry = e;
        there = there;
        chosen = chosen;
        left = refl;
        counted = λ c. cached-drop floor n e s c ∙ counted c;
        indexed =
            Indexes-same max_window clock (delete e.key s.entries) (remove_from_index e s)
              (record (drop_entry e floor s) { evictions = n }) refl refl refl
              (remove-Indexes max_window clock e s.entries s found ok_s.index);
        same_cap = refl;
        same_width = refl;
      }

  -- With an entry in the shard there is a victim.
  pub evict_one-Evicted :
      (k : Str) (e : Stored)
      → lookup k s.entries ≡ some e
      → Evicted floor max_window clock s ((evict_one floor s).0) ((evict_one floor s).1)
  unfolding evict_one oldest_indexed
  evict_one-Evicted k e there = elim (Option-cases (oldest_or s.settled s.buckets)) [
    | inl gone ↦
        let (settled, buckets) = oldest_some s.settled s.buckets gone in
        absurd (cc (index_empty max_window clock s.entries s ok_s.index settled buckets k, there))
    | inr (j, picked) ↦
        let chosen = oldest_lem j s.settled s.buckets picked in
        let (x, found) =
          has_entry max_window clock s j ok_s.index
            (elim chosen [ inl old ↦ inr old | inr (empty, b, inside, least) ↦ inl (b, inside) ]) in
        let key : x.key ≡ j = (subst (λ o. Stands max_window clock j o s) found (ok_s.index j)).0 in
        rw (picked, found, evict_one)
          (drop_entry-Evicted x (add64 s.evictions 1) (some j) (ap (λ k. some k) (sym key))
            (rw key found) (rw key chosen))
  ]
