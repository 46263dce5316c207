-- ===== src/Sweeper/Fencing.antt =====
-- What a confirmation can do: it confirms what was read under the very version that the candidate was
-- raised against, and nothing else.
use driftwatch.Base.{
  ℕ, ◌+◌, ◌≡◌, ◌≢◌, refl, ap, subst, ◌∙◌, inl, inr, true, false, ◌==◌, ==_iff, Option, none, some,
  Option-cases, Str, arith, Bool-cases, lookup, insert,
}
use driftwatch.Differ.{Finding, Options, compare_unreadable, new_finding}
use driftwatch.Differ.Laws.{compare_key-Describes}
use driftwatch.Target
use driftwatch.Target.{Read}
use driftwatch.Oracle.Entry.{Entry, is_suspect}
use driftwatch.Oracle.Suspicion.{version, get}
use driftwatch.Sweeper.{
  Sweeper, Candidate, Episode, Config, mark_requeued, publish, joined, confirm,
}
use driftwatch.Sweeper.Confirming.{Look, re_compare, decide, judge, is_failed, confirm_one}

abbrev pub About : Str → Entry → Option Finding → Type 0
About key e none = Unit {0}
About key e (some f) = (f.trust ≡ e.trust) × (f.oracle_version ≡ e.version) × (f.key ≡ key)

-- A finding of the re-reading is about the entry it was made of.
pub re_compare-About :
    (key : Str) (e : Entry) (r : Read) (opts : Options) (f : Finding)
    → re_compare key e r opts ≡ some f
    → About key e (some f)
unfolding re_compare compare_unreadable new_finding
re_compare-About key e (Target.value tv) opts f h =
    let (carries, describes) = compare_key-Describes key e tv opts f h in
    (carries.same_trust, carries.same_version, carries.same_key)
re_compare-About key e (Target.wrong_type got) opts f h = subst (About key e) h (refl, refl, refl)
re_compare-About key e Target.failed opts f h = cc

-- The episode that a confirmation records.
abbrev pub confirmed_episode : Candidate → ℕ → Finding → Sweeper → Episode
confirmed_episode c now f s = joined (lookup c.finding.key s.confirmed) record {
  key = c.finding.key;
  finding = record f { confirmed = true; first_seen_at = c.seen_at };
  first_seen_at = c.seen_at;
  confirmed_at = now;
  window = c.window;
}

-- All that a confirmation rests on.
pub record Confirmable (cfg : Config) (look : Look) (now : ℕ) (c : Candidate) (f : Finding)
    : Type 0 where
  pub entry : Entry
  pub fenced : version look.before c.finding.key ≡ some c.version
  pub there : get look.after c.finding.key look.clock ≡ some entry
  pub unmoved : entry.version ≡ c.version
  pub trusted : is_suspect entry.trust ≡ false
  pub disagrees :
      re_compare c.finding.key entry look.read (record cfg.differ_options { now = now }) ≡ some f

-- The queue is not touched.
pub record SameQueue (s t : Sweeper) : Type 0 where
  pub same_queue : t.queue ≡ s.queue
  pub same_queued : t.queued ≡ s.queued

-- What becomes of the episodes, and of the number of confirmations.
pub data Outcome (cfg : Config) (look : Look) (now : ℕ) (c : Candidate) (s t : Sweeper)
    : Type 0 where
  confirms :
      (f : Finding)
      → Confirmable cfg look now c f
      → f.oracle_version ≡ c.version
      → t.confirmed ≡ insert c.finding.key (confirmed_episode c now f s) s.confirmed
      → t.c.confirmations ≡ s.c.confirmations + 1
      → SameQueue s t
      → Outcome cfg look now c s t
  abstains :
      ((f : Finding) → ¬ (Confirmable cfg look now c f))
      → t.confirmed ≡ s.confirmed
      → t.c.confirmations ≡ s.c.confirmations
      → SameQueue s t
      → Outcome cfg look now c s t

no_finding :
    (key : Str) (e : Entry) (r : Read) (opts : Options) (f : Finding)
    → is_failed r ≡ true
    → re_compare key e r opts ≢ some f
unfolding re_compare
no_finding key e (Target.value tv) opts f h = cc
no_finding key e (Target.wrong_type got) opts f h = cc
no_finding key e Target.failed opts f h = cc

module _ (cfg : Config) (look : Look) (now : ℕ) (c : Candidate) (s : Sweeper) where
  decide-Outcome :
      (e : Entry)
      → version look.before c.finding.key ≡ some c.version
      → get look.after c.finding.key look.clock ≡ some e
      → e.version ≡ c.version
      → is_suspect e.trust ≡ false
      → Outcome cfg look now c s (
          decide c now
            (re_compare c.finding.key e look.read (record cfg.differ_options { now = now }))
            s)
  unfolding decide confirm publish
  decide-Outcome e fence there same trust =
      let opts = record cfg.differ_options { now = now } in
      elim (Option-cases (re_compare c.finding.key e look.read opts)) [
        | inl agrees ↦ rw agrees (
            abstains
              (λ f h.
                let same_entry : h.entry ≡ e = ground (arith, h.there, there) in
                absurd (
                  ground (
                    arith,
                    agrees,
                    h.disagrees,
                    ap (λ x. re_compare c.finding.key x look.read opts) same_entry,
                  )))
              refl refl record { same_queue = refl; same_queued = refl })
        | inr (f, differs) ↦ rw differs (
            confirms f
              record {
                entry = e;
                fenced = fence;
                there = there;
                unmoved = same;
                trusted = trust;
                disagrees = differs;
              }
              ((re_compare-About c.finding.key e look.read opts f differs).1 ∙ same) refl refl
              record { same_queue = refl; same_queued = refl })
      ]

  -- Nothing is confirmed where one of the conditions fails.
  judge-Outcome :
      version look.before c.finding.key ≡ some c.version
      → Outcome cfg look now c s (judge cfg look now c s)
  unfolding judge mark_requeued
  judge-Outcome fence = elim (Option-cases (get look.after c.finding.key look.clock)) [
    | inl gone ↦
        rw (gone, judge)
          (abstains (λ f h. absurd (ground (arith, gone, h.there))) refl refl
            record { same_queue = refl; same_queued = refl })
    | inr (e, there) ↦ elim (Bool-cases (e.version == c.version)) [
      | inl same ↦ elim (Bool-cases (is_suspect e.trust)) [
        | inl suspect ↦
            rw (there, same, suspect, judge)
              (abstains
                (λ f h.
                  let same_entry : h.entry ≡ e = ground (arith, h.there, there) in
                  absurd
                    (ground (arith, suspect, h.trusted, ap (λ x. is_suspect x.trust) same_entry)))
                refl refl record { same_queue = refl; same_queued = refl })
        | inr trusted ↦
            rw (there, same, trusted, judge)
              (decide-Outcome e fence there ((==_iff e.version c.version).0 same) trusted)
      ]
      | inr moved ↦
          rw (there, moved, judge)
            (abstains
              (λ f h.
                let same_entry : h.entry ≡ e = ground (arith, h.there, there) in
                absurd (ground (arith, moved, h.unmoved, ap (λ x. x.version) same_entry)))
              refl refl record { same_queue = refl; same_queued = refl })
    ]
  ]

  -- A confirmation records an episode exactly when the oracle holds the version that the candidate was
  -- raised against before the store is read and after it, the entry is not suspect, and the store's
  -- answer still disagrees with it: then the finding of the re-reading, about that version, is written
  -- under the key, and the number of confirmations goes up by one. In every other case, a version that
  -- moved, a key that is gone, a failed reading or a store that agrees by now, the episodes and that
  -- number are what they were. The queue is not touched.
  pub confirm_one-Outcome : Outcome cfg look now c s (confirm_one cfg look now c s)
  unfolding confirm_one mark_requeued
  confirm_one-Outcome = elim (Option-cases (version look.before c.finding.key)) [
    | inl gone ↦
        rw (gone, confirm_one)
          (abstains (λ f h. absurd (ground (arith, gone, h.fenced))) refl refl
            record { same_queue = refl; same_queued = refl })
    | inr (v, known) ↦ elim (Bool-cases (v == c.version)) [
      | inl same ↦ elim (Bool-cases (is_failed look.read)) [
        | inl failed ↦
            rw (known, same, failed, confirm_one)
              (abstains (λ f h. no_finding c.finding.key h.entry look.read _ f failed h.disagrees)
                refl refl record { same_queue = refl; same_queued = refl })
        | inr answered ↦
            rw (known, same, answered, confirm_one)
              (judge-Outcome (known ∙ ap some ((==_iff v c.version).0 same)))
      ]
      | inr moved ↦
          rw (known, moved, confirm_one)
            (abstains (λ f h. absurd (ground (arith, moved, known, h.fenced))) refl refl
              record { same_queue = refl; same_queued = refl })
    ]
  ]
