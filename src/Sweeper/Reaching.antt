-- ===== src/Sweeper/Reaching.antt =====
-- The sweep and the confirmation as steps that may come in any order, and what every state that they
-- reach has. A sweep compares a key while a confirmation has candidates in hand, and the oracle and the
-- store may change between any two steps.
use driftwatch.Base.{
  Distinct, Dict, str_eq_iff, ℕ, ◌≡◌, refl, sym, ap, subst, ◌∙◌, inl, inr, ◌==◌, Option, none, some,
  List, [], ◌∷◌, Str, arith, Bool-cases, lookup,
}
use driftwatch.Oracle.Suspicion.{Oracle, version}
use driftwatch.Sweeper.{Sweeper, Candidate, Episode, Config, live_step, live_loop, live_episodes}
use driftwatch.Sweeper.Confirming.{take_due}
use driftwatch.Sweeper.Waiting.{Every-split_due}
use driftwatch.Sweeper.Invariant.{take-Waits, Since, IsSweeper}

-- The episodes that stand are among those there were.
record Kept (m : Dict Episode) (r : Dict Episode × (ℕ × ℕ)) : Type 0 where
  distinct : Distinct r.0
  kept : (k : Str) (ep : Episode) → lookup k r.0 ≡ some ep → lookup k m ≡ some ep
  absent : (k : Str) → lookup k m ≡ none → lookup k r.0 ≡ none

drop-Kept :
    (key : Str) (ep : Episode) (m : Dict Episode) (r r' : Dict Episode × (ℕ × ℕ))
    → lookup key m ≡ none
    → r'.0 ≡ r.0
    → Kept m r
    → Kept ((key, ep) ∷ m) r'
unfolding lookup
drop-Kept key ep m r r' free same old = record {
  distinct = subst (λ n. Distinct n) (sym same) old.distinct;
  kept = λ k e h.
      let found = old.kept k e (ap (λ n. lookup k n) (sym same) ∙ h) in
      ground (arith, found, free, str_eq_iff key k);
  absent = λ k h. ap (λ n. lookup k n) same ∙ old.absent k (ground arith);
}

live_step-Kept :
    (v : Option ℕ) (key : Str) (ep : Episode) (m : Dict Episode) (r : Dict Episode × (ℕ × ℕ))
    → lookup key m ≡ none
    → Kept m r
    → Kept ((key, ep) ∷ m) (live_step v key ep r)
unfolding lookup
live_step-Kept none key ep m r free old = drop-Kept key ep m r _ free refl old
live_step-Kept (some v) key ep m r free old = elim (Bool-cases (v == ep.finding.oracle_version)) [
  | inl same ↦ rw same record {
    distinct = (old.absent key free, old.distinct);
    kept = λ k e h. ground (arith, old.kept k e);
    absent = λ k h. ground (arith, old.absent k);
  }
  | inr moved ↦ rw moved (drop-Kept key ep m r _ free refl old)
]

live_loop-Kept : (o : Oracle) (m : Dict Episode) → Distinct m → Kept m (live_loop o m)
unfolding live_loop
live_loop-Kept o [] d = record { distinct = tt; kept = λ k ep h. h; absent = λ k h. h }
live_loop-Kept o ((key, ep) ∷ m) d =
    live_step-Kept (version o key) key ep m (live_loop o m) d.0 (live_loop-Kept o m d.1)

module _ {conf : Config} {swept now : ℕ} where
  pub live_episodes-IsSweeper :
      (o : Oracle) (hand : List Candidate) (s : Sweeper)
      → IsSweeper conf swept now hand s
      → IsSweeper conf swept now hand (live_episodes o s)
  unfolding live_episodes
  live_episodes-IsSweeper o hand s ok =
      let rest = live_loop-Kept o s.confirmed ok.distinct in
      record {
        waits = ok.waits;
        distinct = rest.distinct;
        episodes = λ k ep h. ok.episodes k ep (rest.kept k ep h);
      }

  pub take_due-IsSweeper :
      (at : ℕ) (s : Sweeper)
      → IsSweeper conf swept now [] s
      → IsSweeper conf swept at (take_due at s).0 (take_due at s).1
  unfolding take_due
  take_due-IsSweeper at s ok = record {
    waits = take-Waits at s.queue s.queued ok.waits;
    distinct = ok.distinct;
    episodes = λ k ep h.
        let st = ok.episodes k ep h in
        let (keep, due) = Every-split_due (Since k ep) at s.queue st.waiting in
        record { held = st.held; early = st.early; waiting = keep; in_hand = due };
  }
