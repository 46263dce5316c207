-- ===== src/Sweeper/Outage.antt =====
-- What ConfirmDue does while the store is away.
use driftwatch.Base.{
  ℕ, ◌+◌, ◌≤◌, ◌≡◌, refl, sym, ap, subst, not, ◌∙◌, inl, inr, Bool, true, false, ◌==◌, Option, List,
  [], ◌∷◌, ◌++◌, leb, Str, str_eq_iff, str_eq_refl, length, length-append, arith, Bool-cases,
  if◌then◌else◌,
}
use mathlib.Core.List.{append-nil, append_assoc}
use driftwatch.Event.Members.{has, put, has-put, IsMembers}
use driftwatch.Target.{Health}
use driftwatch.Sweeper.{Sweeper, Candidate, Config}
use driftwatch.Sweeper.Confirming.{
  split_due, take_due, requeue_one, requeue_all, Look, confirm_due, is_reachable,
}
use driftwatch.Sweeper.Waiting.{keys_of, split_due-Parted, length-split_due, has-without_all}
use driftwatch.Sweeper.Invariant.{IsSweeper}

-- All candidates were put back, and none was dropped.
record Back (cs : List Candidate) (s t : Sweeper) : Type 0 where
  at_end : t.queue ≡ s.queue ++ cs
  none_lost : t.c.confirm_queue_dropped ≡ s.c.confirm_queue_dropped
  same_episodes : t.confirmed ≡ s.confirmed

abbrev Room : Config → List Candidate → Sweeper → Type 0
Room cfg cs s =
    (length s.queue + length cs ≤ cfg.max_confirm_queue)
    × IsMembers (keys_of cs)
    × ((k : Str) → has k (keys_of cs) ≡ true → has k s.queued ≡ false)

requeue_all-Back :
    (cfg : Config) (cs : List Candidate) (s : Sweeper)
    → Room cfg cs s
    → Back cs s (requeue_all cfg cs s)
unfolding requeue_all requeue_one has
requeue_all-Back cfg [] s room = record {
  at_end = sym (append-nil s.queue);
  none_lost = refl;
  same_episodes = refl;
}
requeue_all-Back cfg (c ∷ cs) s (few, single, free) =
    let key = c.finding.key in
    let new : has key s.queued ≡ false = free key (rw (str_eq_refl key) refl) in
    let space : leb cfg.max_confirm_queue (length s.queue) ≡ false = ground arith in
    let t = record s { queue = s.queue ++ (c ∷ []); queued = put key s.queued } in
    let rest = requeue_all-Back cfg cs t (
      omega (arith, few, length-append s.queue (c ∷ [])),
      single.1,
      λ k h. ground (arith, has-put key k s.queued, free k, h, single.0, str_eq_iff key k),
    ) in
    rw (new, space)
      record {
        at_end = rest.at_end ∙ append_assoc s.queue (c ∷ []) cs;
        none_lost = rest.none_lost;
        same_episodes = rest.same_episodes;
      }

-- The candidates in the order in which an outage leaves them: those that were not due, then the due.
abbrev pub reordered : ℕ → Sweeper → List Candidate
reordered now s = (split_due now s.queue).0 ++ (split_due now s.queue).1

-- No candidate was decided and none was lost.
pub record Unharmed (now : ℕ) (s : Sweeper) (r : ℕ × Sweeper) : Type 0 where
  pub undecided : r.0 ≡ 0
  pub kept : r.1.queue ≡ reordered now s
  pub all_there : length r.1.queue ≡ length s.queue
  pub nothing_dropped : r.1.c.confirm_queue_dropped ≡ s.c.confirm_queue_dropped
  pub same_claims : r.1.confirmed ≡ s.confirmed

chosen :
    {A : Type 0} (closed idle reachable : Bool) (a b c d : A)
    → closed ≡ false
    → reachable ≡ false
    → (if closed then a else if idle then b else if not reachable then c else d)
      ≡ (if idle then b else c)
chosen closed idle reachable a b c d h k = rw (h, k) refl

if_true : {A : Type 0} (b : Bool) (x y : A) → b ≡ true → (if b then x else y) ≡ x
if_true b x y h = rw h refl

if_false : {A : Type 0} (b : Bool) (x y : A) → b ≡ false → (if b then x else y) ≡ y
if_false b x y h = rw h refl

empty_of : (xs : List Candidate) → (length xs == 0) ≡ true → xs ≡ []
empty_of [] h = refl
empty_of (x ∷ xs) h = absurd (ground (arith, h))

-- While the store cannot be reached, no candidate is decided and none is lost: the queue keeps every
-- candidate with its own time, those that were due after the others; nothing is dropped, and the
-- episodes are what they were. This holds of a sweeper that is not closed and is in order, with
-- nothing in hand.
pub confirm_due-Unharmed :
    (cfg : Config) (health : Option Health) (now : ℕ) (looks : List Look) (s : Sweeper)
    (swept before : ℕ)
    → IsSweeper cfg swept before [] s
    → s.closed ≡ false
    → is_reachable health ≡ false
    → Unharmed now s (confirm_due cfg health now looks s)
unfolding confirm_due take_due
confirm_due-Unharmed cfg health now looks s swept before ok alive away =
    let w = ok.waits in
    let parted = split_due-Parted now s.queue w.single in
    let keep = (split_due now s.queue).0 in
    let due = (split_due now s.queue).1 in
    let back = requeue_all-Back cfg due (take_due now s).1 (
      omega (arith, length-split_due now s.queue, w.room),
      parted.1,
      λ k h. ground (arith, has-without_all k due s.queued, h),
    ) in
    let size : length (keep ++ due) ≡ length s.queue =
      length-append keep due ∙ length-split_due now s.queue in
    let outcome = chosen s.closed (length due == 0) (is_reachable health) _ _ _ _ alive away in
    elim (Bool-cases (length due == 0)) [
      | inl idle ↦
          let all : keep ≡ keep ++ due =
            sym (append-nil keep) ∙ ap (λ cs. keep ++ cs) (sym (empty_of due idle)) in
          subst (Unharmed now s) (sym (outcome ∙ if_true _ _ _ idle)) record {
            undecided = refl;
            kept = all;
            all_there = ap length all ∙ size;
            nothing_dropped = refl;
            same_claims = refl;
          }
      | inr busy ↦ subst (Unharmed now s) (sym (outcome ∙ if_false _ _ _ busy)) record {
        undecided = refl;
        kept = back.at_end;
        all_there = ap length back.at_end ∙ size;
        nothing_dropped = back.none_lost;
        same_claims = back.same_episodes;
      }
    ]
