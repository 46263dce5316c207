-- ===== src/Sweeper/Steps.antt =====
-- Each operation of a sweeper keeps its invariant.
use driftwatch.Base.{
  Distinct, insert-Distinct, delete-Distinct, ℕ, ◌≤◌, ◌≡◌, refl, sym, ap, subst, ◌∙◌, inl, inr,
  true, false, Option-cases, List, [], ◌∷◌, ◌++◌, leb, Str, str_eq, str_eq_iff, length, arith,
  Bool-cases, lookup, insert, lookup-insert, lookup-delete,
}
use driftwatch.Event.Members.{has}
use driftwatch.Differ.{Finding}
use driftwatch.Oracle.Entry.{is_suspect}
use driftwatch.Sweeper.{Sweeper, Candidate, Episode, Config, enqueue, refresh, resolve}
use driftwatch.Sweeper.Waiting.{Every-append, Every-weaken, Before}
use driftwatch.Sweeper.Invariant.{
  Raised, Waits, append-Waits, later-Waits, Since, Started, IsSweeper,
}

later-Started :
    (conf : Config) (swept swept' : ℕ) (k : Str) (ep : Episode) (hand queue : List Candidate)
    → swept ≤ swept'
    → Started conf k ep swept hand queue
    → Started conf k ep swept' hand queue
later-Started conf swept swept' k ep hand queue le st = record {
  held = st.held;
  early = omega (arith, st.early, le);
  waiting = st.waiting;
  in_hand = st.in_hand;
}

append_episodes :
    (conf : Config) (swept : ℕ) (hand queue : List Candidate) (k : Str) (ep : Episode)
    (c : Candidate)
    → (k ≡ c.finding.key → ep.first_seen_at ≤ c.seen_at)
    → Started conf k ep swept hand queue
    → Started conf k ep swept hand (queue ++ (c ∷ []))
append_episodes conf swept hand queue k ep c le st = record {
  held = st.held;
  early = st.early;
  waiting = Every-append (Since k ep) queue c st.waiting le;
  in_hand = st.in_hand;
}

module _ {conf : Config} {swept now : ℕ} where
  pub later-IsSweeper :
      (swept' : ℕ) (hand : List Candidate) (s : Sweeper)
      → swept ≤ swept'
      → IsSweeper conf swept now hand s
      → IsSweeper conf swept' now hand s
  later-IsSweeper swept' hand s le ok = record {
    waits = later-Waits swept' hand s.queue s.queued le ok.waits;
    distinct = ok.distinct;
    episodes = λ k ep h. later-Started conf swept swept' k ep hand s.queue le (ok.episodes k ep h);
  }

  -- The counters, the subscribers and the deferred keys are free.
  pub same-IsSweeper :
      (hand : List Candidate) (s t : Sweeper)
      → s.queue ≡ t.queue
      → s.queued ≡ t.queued
      → s.confirmed ≡ t.confirmed
      → IsSweeper conf swept now hand s
      → IsSweeper conf swept now hand t
  same-IsSweeper hand s t q u e ok = record {
    waits =
        subst (λ ks. Waits conf swept now hand t.queue ks) u
          (subst (λ cs. Waits conf swept now hand cs s.queued) q ok.waits);
    distinct = subst (λ m. Distinct m) e ok.distinct;
    episodes = λ k ep h.
        subst (λ cs. Started conf k ep swept hand cs) q
          (ok.episodes k ep (ap (λ m. lookup k m) e ∙ h));
  }

  pub enqueue-IsSweeper :
      (cfg : Config) (f : Finding) (version w : ℕ) (hand : List Candidate) (s : Sweeper)
      → cfg.max_confirm_queue ≡ conf.max_confirm_queue
      → Raised conf (record { finding = f; version = version; seen_at = swept; window = w })
      → IsSweeper conf swept now hand s
      → IsSweeper conf swept now hand (enqueue cfg f version swept w s)
  unfolding enqueue
  enqueue-IsSweeper cfg f version w hand s same raised ok = elim (Bool-cases (has f.key s.queued)) [
    | inl already ↦ rw already ok
    | inr free ↦ elim (Bool-cases (leb cfg.max_confirm_queue (length s.queue))) [
      | inl full ↦ rw (free, full) (same-IsSweeper hand s _ refl refl refl ok)
      | inr room ↦
          let c : Candidate = record {
            finding = f;
            version = version;
            seen_at = swept;
            window = w;
          } in
          rw (free, room)
            record {
              waits =
                  append-Waits hand s.queue s.queued c ok.waits free (ground arith) (omega arith)
                    (Every-weaken (λ d. d.seen_at ≤ swept) (λ d. Before d c) (λ d le same. le) hand
                      ok.waits.hand_young)
                    raised;
              distinct = ok.distinct;
              episodes = λ k ep h.
                  append_episodes conf swept hand s.queue k ep c (λ eq. (ok.episodes k ep h).early)
                    (ok.episodes k ep h);
            }
    ]
  ]

  pub resolve-IsSweeper :
      (key : Str) (at : ℕ) (hand : List Candidate) (s : Sweeper)
      → IsSweeper conf swept now hand s
      → IsSweeper conf swept now hand (resolve key at s)
  unfolding resolve
  resolve-IsSweeper key at hand s ok = elim (Option-cases (lookup key s.confirmed)) [
    | inl none_open ↦ rw (none_open, resolve) ok
    | inr (ep, is_there) ↦
        rw (is_there, resolve)
          record {
            waits = ok.waits;
            distinct = delete-Distinct key s.confirmed ok.distinct;
            episodes =
                λ k e h. ok.episodes k e (ground (arith, lookup-delete key k s.confirmed, h));
          }
  ]

  -- An episode is written under a key.
  pub insert-IsSweeper :
      (key : Str) (ep : Episode) (hand : List Candidate) (s t : Sweeper)
      → Started conf key ep swept hand s.queue
      → t.queue ≡ s.queue
      → t.queued ≡ s.queued
      → t.confirmed ≡ insert key ep s.confirmed
      → IsSweeper conf swept now hand s
      → IsSweeper conf swept now hand t
  insert-IsSweeper key ep hand s t st q u e ok =
      same-IsSweeper hand (record s { confirmed = insert key ep s.confirmed }) t (sym q) (sym u)
        (sym e)
        record {
          waits = ok.waits;
          distinct = insert-Distinct key ep s.confirmed ok.distinct;
          episodes = λ k other h. elim (Bool-cases (str_eq key k)) [
            | inl here ↦
                subst (λ j. Started conf j other swept hand s.queue) ((str_eq_iff key k).0 here)
                  (subst (λ x. Started conf key x swept hand s.queue)
                    (ground (arith, lookup-insert key k ep s.confirmed, h)) st)
            | inr elsewhere ↦
                ok.episodes k other (ground (arith, lookup-insert key k ep s.confirmed, h))
          ];
        }

  pub refresh-IsSweeper :
      (key : Str) (f : Finding) (hand : List Candidate) (s : Sweeper)
      → f.confirmed ≡ true
      → is_suspect f.trust ≡ false
      → IsSweeper conf swept now hand s
      → IsSweeper conf swept now hand (refresh key f s)
  unfolding refresh
  refresh-IsSweeper key f hand s confirmed trusted ok =
      elim (Option-cases (lookup key s.confirmed)) [
        | inl none_open ↦ rw (none_open, refresh) ok
        | inr (ep, is_there) ↦
            let st = ok.episodes key ep is_there in
            rw (is_there, refresh)
              (insert-IsSweeper key (record ep { finding = f }) hand s _
                record {
                  held = record {
                    first = st.held.first;
                    look = st.held.look;
                    found = st.held.found;
                    same_key = st.held.same_key;
                    raised = st.held.raised;
                    again = st.held.again;
                    apart = st.held.apart;
                    same_window = st.held.same_window;
                    since = st.held.since;
                    is_confirmed = confirmed;
                    trusted = trusted;
                  };
                  early = st.early;
                  waiting = st.waiting;
                  in_hand = st.in_hand;
                }
                refl refl refl ok)
      ]
