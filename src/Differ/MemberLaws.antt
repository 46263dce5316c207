-- ===== src/Differ/MemberLaws.antt =====
-- The member diff of two sets.
use Prim.Native.Nat.{min}
use driftwatch.Base.{
  ℕ, suc, ◌+◌, ◌≤◌, ◌≡◌, refl, true, false, ◌||◌, List, [], ◌∷◌, arith, inl, inr, Bool-cases, ◌⊎◌,
  Str, str_eq, str_lt, str_eq_iff, if◌then◌else◌, sym, ◌∙◌, length, ltb, ap,
}
use driftwatch.Event.Members.{has}
use driftwatch.Differ.{insert_sorted, sort_strings, diff_loop, diff_members}

abbrev pub IsSorted : List Str → Type 0
IsSorted [] = Unit {0}
IsSorted (x ∷ []) = Unit {0}
IsSorted (x ∷ y ∷ xs) = (str_lt y x ≡ false) × IsSorted (y ∷ xs)

str_lt-asymm : (a b : Str) → str_lt a b ≡ true → str_lt b a ≡ false
unfolding str_lt
str_lt-asymm [] [] h = refl
str_lt-asymm [] (y ∷ b) h = refl
str_lt-asymm (x ∷ a) [] h = cc
str_lt-asymm (x ∷ a) (y ∷ b) h = ground (arith, str_lt-asymm a b)

insert_sorted-IsSorted : (m : Str) (xs : List Str) → IsSorted xs → IsSorted (insert_sorted m xs)
unfolding insert_sorted
insert_sorted-IsSorted m [] s = tt
insert_sorted-IsSorted m (x ∷ []) s = ground (arith, str_lt-asymm x m)
insert_sorted-IsSorted m (x ∷ y ∷ xs) s =
    let rest = insert_sorted-IsSorted m (y ∷ xs) s.1 in ground (arith, str_lt-asymm x m, rest)

sort_strings-IsSorted : (xs : List Str) → IsSorted (sort_strings xs)
unfolding sort_strings
sort_strings-IsSorted [] = tt
sort_strings-IsSorted (x ∷ xs) =
    insert_sorted-IsSorted x (sort_strings xs) (sort_strings-IsSorted xs)

has-insert_sorted :
    (m n : Str) (xs : List Str) → has n (insert_sorted m xs) ≡ (str_eq m n || has n xs)
unfolding insert_sorted has
has-insert_sorted m n [] = refl
has-insert_sorted m n (x ∷ xs) = ground (arith, has-insert_sorted m n xs)

has-sort_strings : (n : Str) (xs : List Str) → has n (sort_strings xs) ≡ has n xs
unfolding sort_strings
has-sort_strings n [] = refl
has-sort_strings n (x ∷ xs) =
    has-insert_sorted x n (sort_strings xs) ∙ (rw (has-sort_strings n xs) (unfold has in refl))

length-insert_sorted : (m : Str) (xs : List Str) → length (insert_sorted m xs) ≡ suc (length xs)
unfolding insert_sorted
length-insert_sorted m [] = refl
length-insert_sorted m (x ∷ xs) = ground (arith, length-insert_sorted m xs)

length-sort_strings : (xs : List Str) → length (sort_strings xs) ≡ length xs
unfolding sort_strings
length-sort_strings [] = refl
length-sort_strings (x ∷ xs) =
    omega (arith, length-insert_sorted x (sort_strings xs), length-sort_strings xs)

-- The members of `a` that `b` lacks.
pub outside : List Str → List Str → ℕ
outside [] b = 0
outside (m ∷ a) b = if has m b then outside a b else suc (outside a b)

-- What the loop adds to what was listed and counted before.
record Lists (a b : List Str) (limit : ℕ) (listed : List Str) (total : ℕ) (r : List Str × ℕ)
    : Type 0 where
  counted : r.1 ≡ total + outside a b
  bounded : length r.0 ≡ min limit (length listed + outside a b)
  only :
      (m : Str) → has m r.0 ≡ true → (has m listed ≡ true) ⊎ ((has m a ≡ true) × (has m b ≡ false))
  keeps : (m : Str) → has m listed ≡ true → has m r.0 ≡ true
  all :
      length listed + outside a b ≤ limit
      → (m : Str) → has m a ≡ true
      → has m b ≡ false
      → has m r.0 ≡ true

has-same : (x m : Str) (xs : List Str) → str_eq x m ≡ true → has x xs ≡ has m xs
has-same x m xs e = ap (λ y. has y xs) ((str_eq_iff x m).0 e)

module _ (x : Str) (a b : List Str) (limit : ℕ) (listed : List Str) (total : ℕ)
    (r : List Str × ℕ) where
  Lists-both :
      has x b ≡ true → Lists a b limit listed total r → Lists (x ∷ a) b limit listed total r
  unfolding outside has
  Lists-both both rest = record {
    counted = ground (arith, rest.counted);
    bounded = ground (arith, rest.bounded);
    only = λ m k. ground (arith, rest.only m);
    keeps = rest.keeps;
    all = λ fits m k n. ground (arith, rest.all (ground arith) m, has-same x m b);
  }

  Lists-room :
      has x b ≡ false
      → Lists a b limit (x ∷ listed) (suc total) r
      → Lists (x ∷ a) b limit listed total r
  unfolding outside has
  Lists-room one rest = record {
    counted = ground (arith, rest.counted);
    bounded = ground (arith, rest.bounded);
    only = λ m k. ground (arith, rest.only m, has-same x m b);
    keeps = λ m k. ground (arith, rest.keeps m);
    all = λ fits m k n. ground (arith, rest.all (ground arith) m, rest.keeps m);
  }

  Lists-full :
      has x b ≡ false
      → limit ≤ length listed
      → Lists a b limit listed (suc total) r
      → Lists (x ∷ a) b limit listed total r
  unfolding outside has
  Lists-full one full rest = record {
    counted = ground (arith, rest.counted);
    bounded = ground (arith, rest.bounded);
    only = λ m k. ground (arith, rest.only m);
    keeps = rest.keeps;
    all = λ fits m k n. absurd (ground arith);
  }

diff_loop-Lists :
    (b : List Str) (limit : ℕ) (a listed : List Str) (total : ℕ)
    → length listed ≤ limit
    → Lists a b limit listed total (diff_loop b limit a listed total)
unfolding diff_loop outside
diff_loop-Lists b limit [] listed total h = record {
  counted = omega arith;
  bounded = omega arith;
  only = λ m k. inl k;
  keeps = λ m k. k;
  all = λ fits m k. unfold has in cc;
}
diff_loop-Lists b limit (x ∷ a) listed total h = elim (Bool-cases (has x b)) [
  | inl both ↦
      rw both
        (Lists-both x a b limit listed total _ both (diff_loop-Lists b limit a listed total h))
  | inr one ↦ elim (Bool-cases (ltb (length listed) limit)) [
    | inl room ↦
        rw (one, room)
          (Lists-room x a b limit listed total _ one
            (diff_loop-Lists b limit a (x ∷ listed) (suc total) (ground arith)))
    | inr full ↦
        rw (one, full)
          (Lists-full x a b limit listed total _ one (ground arith)
            (diff_loop-Lists b limit a listed (suc total) h))
  ]
]

-- The diff of two sets counts every member that the other lacks, and lists, in sorted order and up to
-- the limit, only such members; all of them if they are within the limit.
pub diff_members_lem :
    (a b : List Str) (limit : ℕ)
    → ((diff_members a b limit).1 ≡ outside a b)
      × (length (diff_members a b limit).0 ≡ min limit (outside a b))
      × IsSorted (diff_members a b limit).0
      × ((m : Str) → has m (diff_members a b limit).0 ≡ true → (has m a ≡ true) × (has m b ≡ false))
      × (outside a b ≤ limit
          → (m : Str) → has m a ≡ true
          → has m b ≡ false
          → has m (diff_members a b limit).0 ≡ true)
unfolding diff_members
diff_members_lem a b limit =
    let l = diff_loop-Lists b limit a [] 0 (omega arith) in
    let listed = (diff_loop b limit a [] 0).0 in
    (
      omega (arith, l.counted),
      omega (arith, length-sort_strings listed, l.bounded),
      sort_strings-IsSorted listed,
      λ m k. elim (l.only m (sym (has-sort_strings m listed) ∙ k)) [
        | inl none_before ↦ absurd (unfold has in cc)
        | inr found ↦ found
      ],
      λ fits m k n. has-sort_strings m listed ∙ l.all (omega arith) m k n,
    )
