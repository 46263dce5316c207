-- ===== src/Sweeper/Running.antt =====
-- What the confirmation and the putting back of a candidate in hand keep.
use driftwatch.Base.{
  ℕ, ◌≤◌, ◌≡◌, refl, sym, ap, ◌∙◌, inl, inr, false, Option-cases, List, ◌∷◌, leb, length, arith,
  Bool-cases, lookup,
}
use driftwatch.Event.Members.{has}
use driftwatch.Differ.{Finding}
use driftwatch.Oracle.Entry.{is_suspect}
use driftwatch.Sweeper.{Sweeper, Candidate, Config}
use driftwatch.Sweeper.Confirming.{Look, requeue_one, confirm_one}
use driftwatch.Sweeper.Waiting.{Every-append, Every-weaken, Before, others-Every}
use driftwatch.Sweeper.Invariant.{append-Waits, next-Waits, Since, Started, IsSweeper}
use driftwatch.Sweeper.Steps.{same-IsSweeper, insert-IsSweeper}
use driftwatch.Sweeper.Fencing.{
  Confirmable, re_compare-About, confirmed_episode, confirms, abstains, confirm_one-Outcome,
}

module _ {conf : Config} {swept now : ℕ} where
  pub next-IsSweeper :
      (c : Candidate) (hand : List Candidate) (s : Sweeper)
      → IsSweeper conf swept now (c ∷ hand) s
      → IsSweeper conf swept now hand s
  next-IsSweeper c hand s ok = record {
    waits = next-Waits c hand s.queue s.queued ok.waits;
    distinct = ok.distinct;
    episodes = λ k ep h.
        let st = ok.episodes k ep h in
        record { held = st.held; early = st.early; waiting = st.waiting; in_hand = st.in_hand.1 };
  }

  -- The episode of a candidate in hand starts no later than the candidate, an earlier one being kept.
  confirmed_episode-Started :
      (look : Look) (c : Candidate) (hand : List Candidate) (s : Sweeper) (f : Finding)
      → Confirmable conf look now c f
      → is_suspect f.trust ≡ false
      → IsSweeper conf swept now (c ∷ hand) s
      → Started conf c.finding.key (confirmed_episode c now f s) swept hand s.queue
  confirmed_episode-Started look c hand s f why trusted ok =
      let w = ok.waits in
      elim (Option-cases (lookup c.finding.key s.confirmed)) [
        | inl none_open ↦ rw none_open record {
          held = record {
            first = c;
            look = look;
            found = f;
            same_key = refl;
            raised = w.hand_raised.0;
            again = why;
            apart = w.waited.0;
            same_window = refl;
            since = omega arith;
            is_confirmed = refl;
            trusted = trusted;
          };
          early = w.hand_young.0;
          waiting = w.order.0;
          in_hand = others-Every (λ d. c.seen_at ≤ d.seen_at) c.finding.key hand w.hand_single.0;
        }
        | inr (ep, is_there) ↦
            let st = ok.episodes c.finding.key ep is_there in
            let start : ep.first_seen_at ≤ c.seen_at = st.in_hand.0 refl in
            rw is_there record {
              held = record {
                first = c;
                look = look;
                found = f;
                same_key = refl;
                raised = w.hand_raised.0;
                again = why;
                apart = w.waited.0;
                same_window = refl;
                since = start;
                is_confirmed = refl;
                trusted = trusted;
              };
              early = st.early;
              waiting = st.waiting;
              in_hand = st.in_hand.1;
            }
      ]

  pub confirm_one-IsSweeper :
      (look : Look) (c : Candidate) (hand : List Candidate) (s : Sweeper)
      → IsSweeper conf swept now (c ∷ hand) s
      → IsSweeper conf swept now hand (confirm_one conf look now c s)
  confirm_one-IsSweeper look c hand s ok = elim (confirm_one-Outcome conf look now c s) [
    | confirms f why about written count same ↦
        let trust = (re_compare-About c.finding.key why.entry look.read _ f why.disagrees).0 in
        insert-IsSweeper c.finding.key (confirmed_episode c now f s) hand s _
          (confirmed_episode-Started look c hand s f why (ap is_suspect trust ∙ why.trusted) ok)
          same.same_queue same.same_queued written (next-IsSweeper c hand s ok)
    | abstains why kept count same ↦
        same-IsSweeper hand s _ (sym same.same_queue) (sym same.same_queued) (sym kept)
          (next-IsSweeper c hand s ok)
  ]

  pub requeue_one-IsSweeper :
      (cfg : Config) (c : Candidate) (hand : List Candidate) (s : Sweeper)
      → cfg.max_confirm_queue ≡ conf.max_confirm_queue
      → IsSweeper conf swept now (c ∷ hand) s
      → IsSweeper conf swept now hand (requeue_one cfg c s)
  unfolding requeue_one
  requeue_one-IsSweeper cfg c hand s same ok =
      let rest = next-IsSweeper c hand s ok in
      elim (Bool-cases (has c.finding.key s.queued)) [
        | inl already ↦ rw already rest
        | inr free ↦ elim (Bool-cases (leb cfg.max_confirm_queue (length s.queue))) [
          | inl full ↦ rw (free, full) (same-IsSweeper hand s _ refl refl refl rest)
          | inr room ↦
              rw (free, room)
                record {
                  waits =
                      append-Waits hand s.queue s.queued c rest.waits free (ground arith)
                        ok.waits.hand_young.0
                        (Every-weaken (λ d. c.finding.key ≡ d.finding.key → d.seen_at ≤ c.seen_at)
                          (λ d. Before d c) (λ d le eq. le (sym eq)) hand
                          (others-Every (λ d. d.seen_at ≤ c.seen_at) c.finding.key hand
                            ok.waits.hand_single.0))
                        ok.waits.hand_raised.0;
                  distinct = ok.distinct;
                  episodes = λ k ep h.
                      let st = ok.episodes k ep h in
                      record {
                        held = st.held;
                        early = st.early;
                        waiting = Every-append (Since k ep) s.queue c st.waiting st.in_hand.0;
                        in_hand = st.in_hand.1;
                      };
                }
        ]
      ]
