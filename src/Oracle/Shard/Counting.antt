-- ===== src/Oracle/Shard/Counting.antt =====
-- The cached counts of a shard: what each of them counts.
use driftwatch.Base.{
  ℕ, ◌+◌, ◌≡◌, refl, sym, ap, ◌∙◌, Bool, none, some, [], ◌∷◌, if◌then◌else◌, Str, str_eq,
  str_eq_iff, Dict, lookup, insert, delete, Distinct, ℤ, pos, negsuc, ◌+ℤ◌, arith, inl, inr,
  Bool-cases,
}
use driftwatch.Oracle.Entry.{Stored, is_adopted, is_suspect}
use driftwatch.Oracle.Shard.{Shard, is_fresh, step, forget, remember}

pub data Class : Type 0 where
  fresh adopted suspect truncated : Class

abbrev pub in_class : ℕ → Class → Stored → Bool
in_class floor Class.fresh e = is_fresh floor e
in_class floor Class.adopted e = is_adopted e.trust
in_class floor Class.suspect e = is_suspect e.trust
in_class floor Class.truncated e = e.truncated

abbrev pub cached : Class → Shard → ℤ
cached Class.fresh s = s.fresh
cached Class.adopted s = s.adopted
cached Class.suspect s = s.suspect
cached Class.truncated s = s.truncated

-- How many entries pass a test.
abbrev pub tally : (Stored → Bool) → Dict Stored → ℕ
tally p [] = 0
tally p ((k, e) ∷ m) = (if p e then 1 else 0) + tally p m

abbrev pub one : (Stored → Bool) → Stored → ℕ
one p e = if p e then 1 else 0

-- The counts are those of the entries of `m`.
abbrev pub CountsOf : ℕ → Dict Stored → Shard → Type 0
CountsOf floor m s = (c : Class) → cached c s ≡ pos (tally (in_class floor c) m)

pub delete-missing : (k : Str) (m : Dict Stored) → lookup k m ≡ none → delete k m ≡ m
unfolding delete lookup
delete-missing k [] h = refl
delete-missing k ((j, e) ∷ m) h = ground (arith, delete-missing k m)

pub tally-insert :
    (p : Stored → Bool) (k : Str) (e : Stored) (m : Dict Stored)
    → Distinct m
    → tally p (insert k e m) ≡ tally p (delete k m) + one p e
unfolding insert delete
tally-insert p k e [] d = omega arith
tally-insert p k e ((j, x) ∷ m) d = elim (Bool-cases (str_eq j k)) [
  | inl same ↦
      rw (same, delete-missing k m (ap (λ i. lookup i m) (sym ((str_eq_iff j k).0 same)) ∙ d.0))
        (omega arith)
  | inr other ↦ rw other (omega (arith, tally-insert p k e m d.1))
]

pub tally-delete :
    (p : Stored → Bool) (k : Str) (e : Stored) (m : Dict Stored)
    → Distinct m
    → lookup k m ≡ some e
    → tally p m ≡ tally p (delete k m) + one p e
unfolding lookup delete
tally-delete p k e [] d h = cc
tally-delete p k e ((j, x) ∷ m) d h = elim (Bool-cases (str_eq j k)) [
  | inl same ↦
      let found : some x ≡ some e = rw same at h in
      rw (same, delete-missing k m (ap (λ i. lookup i m) (sym ((str_eq_iff j k).0 same)) ∙ d.0))
        (ground arith)
  | inr other ↦ rw other (omega (arith, tally-delete p k e m d.1 (rw other at h)))
]

step-up : (b : Bool) (n : ℕ) → step (pos 1) b (pos n) ≡ pos (n + (if b then 1 else 0))
unfolding ◌+ℤ◌
step-up b n = ground arith

step-down : (b : Bool) (n : ℕ) → step (negsuc 0) b (pos (n + (if b then 1 else 0))) ≡ pos n
unfolding ◌+ℤ◌
step-down b n = ground arith

cached-remember :
    (floor : ℕ) (e : Stored) (s : Shard) (c : Class)
    → cached c (remember e floor s) ≡ step (pos 1) (in_class floor c e) (cached c s)
unfolding remember
cached-remember floor e s Class.fresh = refl
cached-remember floor e s Class.adopted = refl
cached-remember floor e s Class.suspect = refl
cached-remember floor e s Class.truncated = refl

cached-forget :
    (floor : ℕ) (e : Stored) (s : Shard) (c : Class)
    → cached c (forget e floor s) ≡ step (negsuc 0) (in_class floor c e) (cached c s)
unfolding forget
cached-forget floor e s Class.fresh = refl
cached-forget floor e s Class.adopted = refl
cached-forget floor e s Class.suspect = refl
cached-forget floor e s Class.truncated = refl

-- An entry is counted, and becomes the entry of a key.
pub remember-CountsOf :
    (floor : ℕ) (k : Str) (e : Stored) (m : Dict Stored) (s : Shard)
    → Distinct m
    → CountsOf floor (delete k m) s
    → CountsOf floor (insert k e m) (remember e floor s)
remember-CountsOf floor k e m s d h c =
    let p = in_class floor c in
    cached-remember floor e s c
    ∙ ap (λ z. step (pos 1) (p e) z) (h c)
    ∙ step-up (p e) (tally p (delete k m))
    ∙ ap (λ n. pos n) (sym (tally-insert p k e m d))

-- The entry of a key is counted no more.
pub forget-CountsOf :
    (floor : ℕ) (k : Str) (e : Stored) (m : Dict Stored) (s : Shard)
    → Distinct m
    → lookup k m ≡ some e
    → CountsOf floor m s
    → CountsOf floor (delete k m) (forget e floor s)
forget-CountsOf floor k e m s d there h c =
    let p = in_class floor c in
    cached-forget floor e s c
    ∙ ap (λ z. step (negsuc 0) (p e) z) (h c ∙ ap (λ n. pos n) (tally-delete p k e m d there))
    ∙ step-down (p e) (tally p (delete k m))
