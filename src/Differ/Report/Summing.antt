-- ===== src/Differ/Report/Summing.antt =====
-- What a report says of the findings it was given.
use driftwatch.Base.{
  ℕ, zero, suc, ◌+◌, ◌≤◌, ◌<◌, ◌≡◌, refl, sym, ap, subst, ◌∙◌, false, some, List, [], ◌∷◌, ◌++◌,
  ltb, leb, ◌==◌, if◌then◌else◌, length, take, arith, Bool-cases, inl, inr, length-append,
}
use mathlib.Core.List.{append-nil, append_assoc}
use driftwatch.Event.{TrustState}
use driftwatch.Differ.{Category, Options, Finding, apply_defaults}
use driftwatch.Differ.Report.{
  Report, new_report, add, add_all, total, alertable, category_number, trust_number,
}

-- How many findings are on keys of a trust.
abbrev pub count_trust : TrustState → List Finding → ℕ
count_trust t [] = 0
count_trust t (f ∷ fs) =
    (if trust_number f.trust == trust_number t then 1 else 0) + count_trust t fs

abbrev pub count_category : Category → List Finding → ℕ
count_category c [] = 0
count_category c (f ∷ fs) =
    (if category_number f.category == category_number c then 1 else 0) + count_category c fs

-- What a report says of the findings `fs`.
pub record Reports (fs : List Finding) (r : Report) : Type 0 where
  pub listed : r.findings ≡ take r.max_findings fs
  pub cut : r.truncated ≡ ltb r.max_findings (length fs)
  pub categories : (c : Category) → r.by_category c ≡ count_category c fs
  pub trusts : (t : TrustState) → r.by_trust t ≡ count_trust t fs

take_all : (n : ℕ) (fs : List Finding) → length fs ≤ n → take n fs ≡ fs
take_all zero [] h = refl
take_all zero (f ∷ fs) h = absurd (omega (arith, h))
take_all (suc n) [] h = refl
take_all (suc n) (f ∷ fs) h = rw (take_all n fs (omega (arith, h))) refl

take-append : (n : ℕ) (fs gs : List Finding) → n ≤ length fs → take n (fs ++ gs) ≡ take n fs
take-append zero fs gs h = refl
take-append (suc n) [] gs h = absurd (omega (arith, h))
take-append (suc n) (f ∷ fs) gs h = rw (take-append n fs gs (omega (arith, h))) refl

length-take :
    (n : ℕ) (fs : List Finding) → length (take n fs) ≡ (if leb n (length fs) then n else length fs)
length-take zero fs = ground arith
length-take (suc n) [] = ground arith
length-take (suc n) (f ∷ fs) = ground (arith, length-take n fs)

count_category-append :
    (c : Category) (fs gs : List Finding)
    → count_category c (fs ++ gs) ≡ count_category c fs + count_category c gs
count_category-append c [] gs = omega arith
count_category-append c (f ∷ fs) gs = omega (arith, count_category-append c fs gs)

count_trust-append :
    (t : TrustState) (fs gs : List Finding)
    → count_trust t (fs ++ gs) ≡ count_trust t fs + count_trust t gs
count_trust-append t [] gs = omega arith
count_trust-append t (f ∷ fs) gs = omega (arith, count_trust-append t fs gs)

add-Reports :
    (fs : List Finding) (f : Finding) (r : Report)
    → Reports fs r
    → Reports (fs ++ (f ∷ [])) (add (some f) r)
unfolding add
add-Reports fs f r s = elim (Bool-cases (leb r.max_findings (length r.findings))) [
  | inl full ↦
      let enough : r.max_findings ≤ length fs =
        ground (arith, length-take r.max_findings fs, ap length s.listed) in
      rw full record {
        listed = s.listed ∙ sym (take-append r.max_findings fs (f ∷ []) enough);
        cut = ground (arith, length-append fs (f ∷ []));
        categories = λ c. omega (arith, s.categories c, count_category-append c fs (f ∷ []));
        trusts = λ t. omega (arith, s.trusts t, count_trust-append t fs (f ∷ []));
      }
  | inr room ↦
      let few : length fs < r.max_findings =
        ground (arith, length-take r.max_findings fs, ap length s.listed) in
      rw room record {
        listed =
            rw (s.listed, take_all r.max_findings fs (omega (arith, few)))
              (sym (
                take_all r.max_findings (fs ++ (f ∷ []))
                  (omega (arith, few, length-append fs (f ∷ [])))));
        cut = ground (arith, length-append fs (f ∷ []), s.cut);
        categories = λ c. omega (arith, s.categories c, count_category-append c fs (f ∷ []));
        trusts = λ t. omega (arith, s.trusts t, count_trust-append t fs (f ∷ []));
      }
]

-- The counts of all categories.
abbrev in_all : (Category → ℕ) → ℕ
in_all n =
    n Category.missing_in_target
    + (n Category.extra_in_target
        + (n Category.value_mismatch
            + (n Category.member_mismatch
                + (n Category.type_mismatch
                    + (n Category.ttl_mismatch + n Category.counter_mismatch)))))

one_category :
    (c : Category) → in_all (λ d. if category_number c == category_number d then 1 else 0) ≡ 1
one_category Category.missing_in_target = refl
one_category Category.extra_in_target = refl
one_category Category.value_mismatch = refl
one_category Category.member_mismatch = refl
one_category Category.type_mismatch = refl
one_category Category.ttl_mismatch = refl
one_category Category.counter_mismatch = refl

all_categories : (fs : List Finding) → in_all (λ c. count_category c fs) ≡ length fs
all_categories [] = refl
all_categories (f ∷ fs) = omega (arith, one_category f.category, all_categories fs)

one_trust :
    (t : TrustState)
    → (if trust_number t == 0 then 1 else 0)
        + ((if trust_number t == 1 then 1 else 0) + (if trust_number t == 2 then 1 else 0))
      ≡ 1
one_trust TrustState.complete = refl
one_trust TrustState.suspect = refl
one_trust TrustState.adopted = refl

all_trusts :
    (fs : List Finding)
    → count_trust TrustState.complete fs
        + (count_trust TrustState.suspect fs + count_trust TrustState.adopted fs)
      ≡ length fs
all_trusts [] = refl
all_trusts (f ∷ fs) = omega (arith, one_trust f.trust, all_trusts fs)

add_all-Reports :
    (gs fs : List Finding) (r : Report) → Reports gs r → Reports (gs ++ fs) (add_all fs r)
add_all-Reports gs [] r s = subst (λ hs. Reports hs r) (sym (append-nil gs)) s
add_all-Reports gs (f ∷ fs) r s =
    subst (λ hs. Reports hs (add_all fs (add (some f) r))) (append_assoc gs (f ∷ []) fs)
      (add_all-Reports (gs ++ (f ∷ [])) fs (add (some f) r) (add-Reports gs f r s))

max_kept : (fs : List Finding) (r : Report) → (add_all fs r).max_findings ≡ r.max_findings
unfolding add
max_kept [] r = refl
max_kept (f ∷ fs) r = max_kept fs (add (some f) r) ∙ ground arith

take_none : (n : ℕ) → take {A = Finding} n [] ≡ []
take_none zero = refl
take_none (suc n) = refl

not_below : (n : ℕ) → false ≡ ltb n 0
not_below n = ground arith

-- What a report says of the findings of a sweep.
pub record Summary (limit : ℕ) (fs : List Finding) (r : Report) : Type 0 where
  pub list : r.findings ≡ take limit fs
  pub is_cut : r.truncated ≡ ltb limit (length fs)
  pub magnitude : total r ≡ length fs
  pub reliable :
      alertable r ≡ count_trust TrustState.complete fs + count_trust TrustState.adopted fs
  pub kinds : (c : Category) → r.by_category c ≡ count_category c fs

-- A report that starts empty and is given the findings of a sweep one by one lists the first of them,
-- as many as the limit allows; it is truncated exactly when there are more; its total is the number of
-- all of them and each category's count that of its findings, beyond the limit too; and the alertable
-- ones are those on keys that are not suspect.
pub add_all-Summary :
    (started_at : ℕ) (opts : Options) (fs : List Finding)
    → Summary (apply_defaults opts).max_findings fs (add_all fs (new_report started_at opts))
unfolding new_report total alertable
add_all-Summary started_at opts fs =
    let s = add_all-Reports [] fs (new_report started_at opts) record {
      listed = sym (take_none (apply_defaults opts).max_findings);
      cut = not_below (apply_defaults opts).max_findings;
      categories = λ c. refl;
      trusts = λ t. refl;
    } in
    let kept = max_kept fs (new_report started_at opts) in
    record {
      list = s.listed ∙ ap (λ n. take n fs) kept;
      is_cut = s.cut ∙ ap (λ n. ltb n (length fs)) kept;
      magnitude = omega (
        arith,
        all_categories fs,
        s.categories Category.missing_in_target,
        s.categories Category.extra_in_target,
        s.categories Category.value_mismatch,
        s.categories Category.member_mismatch,
        s.categories Category.type_mismatch,
        s.categories Category.ttl_mismatch,
        s.categories Category.counter_mismatch,
      );
      reliable = omega (
        arith,
        all_categories fs,
        all_trusts fs,
        s.trusts TrustState.suspect,
        s.categories Category.missing_in_target,
        s.categories Category.extra_in_target,
        s.categories Category.value_mismatch,
        s.categories Category.member_mismatch,
        s.categories Category.type_mismatch,
        s.categories Category.ttl_mismatch,
        s.categories Category.counter_mismatch,
      );
      kinds = s.categories;
    }
