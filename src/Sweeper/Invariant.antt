-- ===== src/Sweeper/Invariant.antt =====
-- What holds of a sweeper between any two of its operations, while a confirmation may have candidates
-- in hand that it took off the queue.
use driftwatch.Base.{
  Distinct, ℕ, ◌+◌, ◌≤◌, ◌<◌, ◌≡◌, refl, sym, ◌∙◌, true, false, some, List, [], ◌∷◌, ◌++◌, Str,
  str_eq_refl, length, length-append, arith, lookup,
}
use driftwatch.Event.Members.{has, put, has-put, IsMembers}
use driftwatch.Oracle.Entry.{Entry, is_suspect}
use driftwatch.Oracle.Suspicion.{Oracle, get}
use driftwatch.Differ.{Finding}
use driftwatch.Target.{Read}
use driftwatch.Sweeper.Sweeping.{compare_read}
use driftwatch.Sweeper.Fencing.{Confirmable}
use driftwatch.Sweeper.{Config, Sweeper, Candidate, Episode}
use driftwatch.Sweeper.Confirming.{Look, split_due, without_all}
use driftwatch.Sweeper.Waiting.{
  keys_of, Every, Every-append, Every-weaken, Every-split_due, has-keys_of_append, append-single,
  split_due-Parted, length-split_due, split_due-waited, has-without_all, Before, others-Every,
  has-split_due,
}

-- A candidate comes from a comparison that disagreed: the sweep read the store, got the entry of the
-- version that the candidate carries, not suspect, and the two differ.
pub record Raised (conf : Config) (c : Candidate) : Type 0 where
  pub oracle : Oracle
  pub clock : ℕ
  pub entry : Entry
  pub read : Read
  pub found : Finding
  pub looked : get oracle c.finding.key clock ≡ some entry
  pub same_version : entry.version ≡ c.version
  pub not_suspect : is_suspect entry.trust ≡ false
  pub disagreed :
      compare_read c.finding.key entry read (record conf.differ_options { now = c.seen_at })
      ≡ some (some found)
  pub carried : c.finding ≡ record found { first_seen_at = c.seen_at }

-- The queue and the hand. `swept` is the time of the latest sweep, `now` that of the confirmation that
-- has the hand.
pub record Waits (conf : Config) (swept now : ℕ) (hand queue : List Candidate) (queued : List Str)
    : Type 0 where
  pub room : length queue ≤ conf.max_confirm_queue
  pub single : IsMembers (keys_of queue)
  pub index : (k : Str) → has k queued ≡ has k (keys_of queue)
  pub hand_single : IsMembers (keys_of hand)
  pub young : Every (λ c. c.seen_at ≤ swept) queue
  pub hand_young : Every (λ c. c.seen_at ≤ swept) hand
  pub waited : Every (λ c. c.seen_at + c.window ≤ now) hand
  pub order : Every (λ c. Every (Before c) queue) hand
  pub all_raised : Every (Raised conf) queue
  pub hand_raised : Every (Raised conf) hand

-- An episode on `k`: `first` was raised by a comparison that disagreed, and read again by a
-- confirmation, at least its window later, that disagreed too. The finding it carries may be a later
-- one.
pub record Held (conf : Config) (k : Str) (ep : Episode) : Type 0 where
  pub first : Candidate
  pub look : Look
  pub found : Finding
  pub same_key : first.finding.key ≡ k
  pub raised : Raised conf first
  pub again : Confirmable conf look ep.confirmed_at first found
  pub apart : first.seen_at + first.window ≤ ep.confirmed_at
  pub same_window : ep.window ≡ first.window
  pub since : ep.first_seen_at ≤ first.seen_at
  pub is_confirmed : ep.finding.confirmed ≡ true
  pub trusted : is_suspect ep.finding.trust ≡ false

abbrev pub Since : Str → Episode → Candidate → Type 0
Since k ep c = k ≡ c.finding.key → ep.first_seen_at ≤ c.seen_at

pub record Started (conf : Config) (k : Str) (ep : Episode) (swept : ℕ)
    (hand queue : List Candidate) : Type 0 where
  pub held : Held conf k ep
  pub early : ep.first_seen_at ≤ swept
  pub waiting : Every (Since k ep) queue
  pub in_hand : Every (Since k ep) hand

pub record IsSweeper (conf : Config) (swept now : ℕ) (hand : List Candidate) (s : Sweeper)
    : Type 0 where
  pub waits : Waits conf swept now hand s.queue s.queued
  pub distinct : Distinct s.confirmed
  pub episodes :
      (k : Str) (ep : Episode)
      → lookup k s.confirmed ≡ some ep
      → Started conf k ep swept hand s.queue

abbrev SeenBy : ℕ → Candidate → Type 0
SeenBy t c = c.seen_at ≤ t

abbrev WaitedBy : ℕ → Candidate → Type 0
WaitedBy t c = c.seen_at + c.window ≤ t

-- Candidates of other keys than those that wait.
apart_all :
    (queue ds : List Candidate)
    → ((k : Str) → has k (keys_of ds) ≡ true → has k (keys_of queue) ≡ false)
    → Every (λ d. Every (Before d) queue) ds
unfolding has
apart_all queue [] a = tt
apart_all queue (d ∷ ds) a = (
  others-Every (λ e. d.seen_at ≤ e.seen_at) d.finding.key queue
      (a d.finding.key (rw (str_eq_refl d.finding.key) refl)),
  apart_all queue ds (λ k h. a k (ground arith)),
)

module _ {conf : Config} {swept now : ℕ} where
  -- A candidate is added to the queue.
  pub append-Waits :
      (hand queue : List Candidate) (queued : List Str) (c : Candidate)
      → Waits conf swept now hand queue queued
      → has c.finding.key queued ≡ false
      → length queue < conf.max_confirm_queue
      → c.seen_at ≤ swept
      → Every (λ d. Before d c) hand
      → Raised conf c
      → Waits conf swept now hand (queue ++ (c ∷ [])) (put c.finding.key queued)
  append-Waits hand queue queued c w free few seen after raised = record {
    room = omega (arith, length-append queue (c ∷ []), few);
    single = append-single queue c w.single (sym (w.index c.finding.key) ∙ free);
    index = λ k.
        ground (arith, w.index k, has-put c.finding.key k queued, has-keys_of_append k queue c);
    hand_single = w.hand_single;
    young = Every-append (SeenBy swept) queue c w.young seen;
    hand_young = w.hand_young;
    waited = w.waited;
    order = grow hand w.order after;
    all_raised = Every-append (Raised conf) queue c w.all_raised raised;
    hand_raised = w.hand_raised;
  }
    where
      grow :
          (ds : List Candidate)
          → Every (λ d. Every (Before d) queue) ds
          → Every (λ d. Before d c) ds
          → Every (λ d. Every (Before d) (queue ++ (c ∷ []))) ds
      grow [] h a = tt
      grow (d ∷ ds) h a = (Every-append (Before d) queue c h.0 a.0, grow ds h.1 a.1)

  -- Time goes on between sweeps.
  pub later-Waits :
      (swept' : ℕ) (hand queue : List Candidate) (queued : List Str)
      → swept ≤ swept'
      → Waits conf swept now hand queue queued
      → Waits conf swept' now hand queue queued
  later-Waits swept' hand queue queued le w = record {
    room = w.room;
    single = w.single;
    index = w.index;
    hand_single = w.hand_single;
    young = Every-weaken (SeenBy swept) (SeenBy swept') (λ c h. omega (arith, h, le)) queue w.young;
    hand_young =
        Every-weaken (SeenBy swept) (SeenBy swept') (λ c h. omega (arith, h, le)) hand w.hand_young;
    waited = w.waited;
    order = w.order;
    all_raised = w.all_raised;
    hand_raised = w.hand_raised;
  }

  -- The hand loses its first candidate.
  pub next-Waits :
      (c : Candidate) (hand queue : List Candidate) (queued : List Str)
      → Waits conf swept now (c ∷ hand) queue queued
      → Waits conf swept now hand queue queued
  next-Waits c hand queue queued w = record {
    room = w.room;
    single = w.single;
    index = w.index;
    hand_single = w.hand_single.1;
    young = w.young;
    hand_young = w.hand_young.1;
    waited = w.waited.1;
    order = w.order.1;
    all_raised = w.all_raised;
    hand_raised = w.hand_raised.1;
  }

  -- The due candidates are taken in hand.
  pub take-Waits :
      (now' : ℕ) (queue : List Candidate) (queued : List Str)
      → Waits conf swept now [] queue queued
      → Waits conf swept now'
          (split_due now' queue).1
          (split_due now' queue).0
          (without_all (split_due now' queue).1 queued)
  take-Waits now' queue queued w =
      let (keep, due, apart) = split_due-Parted now' queue w.single in
      let (raised, due_raised) = Every-split_due (Raised conf) now' queue w.all_raised in
      let (young, due_young) = Every-split_due (SeenBy swept) now' queue w.young in
      record {
        room = omega (arith, length-split_due now' queue, w.room);
        single = keep;
        index = λ k. ground (
          arith,
          has-without_all k (split_due now' queue).1 queued,
          w.index k,
          has-split_due now' k queue,
          apart k,
        );
        hand_single = due;
        young = young;
        hand_young = due_young;
        waited = split_due-waited now' queue;
        order = apart_all (split_due now' queue).0 (split_due now' queue).1 apart;
        all_raised = raised;
        hand_raised = due_raised;
      }
