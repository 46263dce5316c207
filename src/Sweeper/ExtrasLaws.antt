-- ===== src/Sweeper/ExtrasLaws.antt =====
-- What the extras scan reports: keys that neither pass could explain.
use driftwatch.Base.{
  none, ◌≢◌, ◌↔◌, ◌⊎◌, ℕ, ◌+◌, ◌≤◌, ◌≡◌, Bool, true, false, not, ◌&&◌, ◌||◌, List, [], ◌∷◌,
  if◌then◌else◌, Str, str_eq, length,
}
use driftwatch.Event.Members.{has, IsMembers}
use driftwatch.Event.Value.{ValueKind}
use driftwatch.Oracle.Entry.{Entry}
use driftwatch.Oracle.Suspicion.{Oracle, get}
use driftwatch.Target
use driftwatch.Target.{Read}
use driftwatch.Differ.{Finding}
use driftwatch.Differ.Report.{Report, add_all}
use driftwatch.Sweeper.{Sweeper, ExtrasPass, Config}
use driftwatch.Sweeper.Extras.{
  Scanned, Second, oracle_knows, extra_survives, extra_finding, second_pass,
}

-- Whether the scan met the key where the oracle did not know it.
abbrev met_unknown : Str → List Scanned → Bool
met_unknown k [] = false
met_unknown k ((key, (o, clock)) ∷ scan) =
    (str_eq key k && not (oracle_knows o clock key)) || met_unknown k scan

-- What the loop of the first pass makes of the keys it starts with.
record Parked (max : ℕ) (scan : List Scanned) (keys : List Str) (r : List Str × Bool) : Type 0 where
  unknown : (k : Str) → has k r.0 ≡ true → (has k keys || met_unknown k scan) ≡ true
  complete : r.1 ≡ false → (k : Str) → (has k keys || met_unknown k scan) ≡ true → has k r.0 ≡ true
  room : length r.0 ≤ max
  single : IsMembers r.0

-- The findings of the second pass: one for each key that is still there and still unknown.
abbrev pub extras_of : ExtrasPass → List Second → List Finding
extras_of pass [] = []
extras_of pass (x ∷ xs) =
    let rest = extras_of pass xs in if extra_survives x then extra_finding pass x ∷ rest else rest

-- Whether the second pass met the key in the store and not in the oracle.
abbrev met_again : Str → List Second → Bool
met_again k [] = false
met_again k (x ∷ xs) = (str_eq x.key k && extra_survives x) || met_again k xs

abbrev pub reports_key : Str → List Finding → Bool
reports_key k [] = false
reports_key k (f ∷ fs) = str_eq f.key k || reports_key k fs

abbrev pub ParkedKeys : List Str → List Second → Type 0
ParkedKeys keys [] = Unit {0}
ParkedKeys keys (x ∷ xs) = (has x.key keys ≡ true) × ParkedKeys keys xs

-- The scan met the key where the oracle had no entry for it.
abbrev pub Unseen : Str → List Scanned → Type 0
Unseen k [] = ⊥
Unseen k ((key, (o, clock)) ∷ scan) = ((key ≡ k) × (get o key clock ≡ none)) ⊎ Unseen k scan

-- The store answered with a value that is there.
abbrev pub Present : Read → Type 0
Present (Target.value tv) = tv.kind ≢ ValueKind.absent
Present (Target.wrong_type got) = ⊥
Present Target.failed = ⊥

-- The second pass met the key: the store had it, and then the oracle had no entry for it.
abbrev pub Remains : Str → List Second → Type 0
Remains k [] = ⊥
Remains k (x ∷ xs) =
    ((x.key ≡ k) × Present x.read × (get x.after x.key x.clock ≡ none)) ⊎ Remains k xs

-- What two passes over the store make of it: `rep` and `s` are the report and the sweeper before the
-- second pass.
pub record TwoPasses (cfg : Config) (scan : List Scanned) (xs : List Second) (pass : ExtrasPass)
    (rep : Report) (s : Sweeper) : Type 0 where
  pub room : length pass.keys ≤ cfg.max_extras_tracked
  pub parked : pass.truncated ≡ false → (k : Str) → (has k pass.keys ≡ true) ↔ Unseen k scan
  pub extras : List Finding
  pub added : (second_pass pass xs rep s).0.findings ≡ (add_all extras rep).findings
  pub counted :
      (second_pass pass xs rep s).1.c.extras_reported ≡ s.c.extras_reported + length extras
  pub twice : (k : Str) → (reports_key k extras ≡ true) ↔ Remains k xs
  pub unseen : (k : Str) → reports_key k extras ≡ true → Unseen k scan
