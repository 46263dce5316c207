-- ===== src/Differ/Report.antt =====
-- pkg/differ/report.go: the report of one sweep. A Go map from categories or trust states to counts is
-- a function, 0 where the map has no key; a count does not reach the end of int.
pub mod Summing
use driftwatch.Base.{
  ℕ, zero, suc, ◌+◌, ◌-◌, ◌≤◌, ◌<◌, ◌≡◌, refl, sym, ap, subst, ◌∙◌, Bool, true, false, Option, none,
  some, List, [], ◌∷◌, ◌++◌, ltb, leb, ◌==◌, if◌then◌else◌, length, take, arith, Bool-cases, inl,
  inr, length-append,
}
use mathlib.Core.List.{append-nil, append_assoc}
use driftwatch.Event.{TrustState}
use driftwatch.Differ.{Category, Options, Finding, apply_defaults}
use driftwatch.Target.{Health}

pub data Pass : Type 0 where
  oracle_to_target target_to_oracle : Pass

abbrev pub category_number : Category → ℕ
category_number Category.missing_in_target = 0
category_number Category.extra_in_target = 1
category_number Category.value_mismatch = 2
category_number Category.member_mismatch = 3
category_number Category.type_mismatch = 4
category_number Category.ttl_mismatch = 5
category_number Category.counter_mismatch = 6

abbrev pub trust_number : TrustState → ℕ
trust_number TrustState.complete = 0
trust_number TrustState.suspect = 1
trust_number TrustState.adopted = 2

pub record Report : Type 0 where
  pub pass : Pass
  pub started_at : ℕ
  pub finished_at : ℕ
  pub keys_compared : ℕ
  pub keys_skipped_in_flight : ℕ
  pub keys_skipped_suspect : ℕ
  pub keys_skipped_adopted : ℕ
  pub settlement_window : ℕ
  pub findings : List Finding
  pub by_category : Category → ℕ
  pub by_trust : TrustState → ℕ
  pub eviction_suspected : Bool
  pub target_health : Option Health
  pub truncated : Bool
  pub max_findings : ℕ

-- `none` is the zero value of the health.
unfoldable pub new_report : ℕ → Options → Report
unfolding apply_defaults
new_report started_at opts = record {
  pass = oracle_to_target;
  started_at = started_at;
  finished_at = 0;
  keys_compared = 0;
  keys_skipped_in_flight = 0;
  keys_skipped_suspect = 0;
  keys_skipped_adopted = 0;
  settlement_window = 0;
  findings = [];
  by_category = λ c. 0;
  by_trust = λ t. 0;
  eviction_suspected = false;
  target_health = none;
  truncated = false;
  max_findings = (apply_defaults opts).max_findings;
}

-- The two counts after one more finding.
abbrev counted : Finding → Report → Report
counted f r = record r {
  by_category =
      λ c. r.by_category c + (if category_number f.category == category_number c then 1 else 0);
  by_trust = λ t. r.by_trust t + (if trust_number f.trust == trust_number t then 1 else 0);
}

unfoldable pub add : Option Finding → Report → Report
add none r = r
add (some f) r =
    if leb r.max_findings (length r.findings)
    then record (counted f r) { truncated = true }
    else record (counted f r) { findings = r.findings ++ (f ∷ []) }

unfoldable pub total : Report → ℕ
total r =
    r.by_category Category.missing_in_target
    + (r.by_category Category.extra_in_target
        + (r.by_category Category.value_mismatch
            + (r.by_category Category.member_mismatch
                + (r.by_category Category.type_mismatch
                    + (r.by_category Category.ttl_mismatch
                        + r.by_category Category.counter_mismatch)))))

-- Total() - ByTrust[TrustSuspect], which is never negative in a report that Add made.
unfoldable pub alertable : Report → ℕ
unfolding total
alertable r = total r - r.by_trust TrustState.suspect

abbrev pub add_all : List Finding → Report → Report
add_all [] r = r
add_all (f ∷ fs) r = add_all fs (add (some f) r)
