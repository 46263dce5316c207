-- ===== src/Sweeper/Runs.antt =====
-- A sweeper in use. A sweep compares keys while a confirmation has candidates in hand, and the oracle,
-- the store and the reports may change between any two steps.
use driftwatch.Base.{
  ℕ, true, false, ◌≤◌, ◌≡◌, refl, subst, List, [], ◌∷◌, Str, lookup, length, arith,
}
use driftwatch.Event.Members.{has, IsMembers}
use driftwatch.Differ.{Finding}
use driftwatch.Oracle.Entry.{is_suspect}
use driftwatch.Oracle.Suspicion.{Oracle}
use driftwatch.Sweeper.{
  Sweeper, Candidate, Config, new_sweeper, Counters, enqueue, refresh, resolve, mark_requeued,
  drain_requeued, live_episodes,
}
use driftwatch.Sweeper.Confirming.{Look, take_due, requeue_one, confirm_one}
use driftwatch.Sweeper.Waiting.{keys_of}
use driftwatch.Sweeper.Invariant.{Raised, IsSweeper}
use driftwatch.Sweeper.Steps.{
  later-IsSweeper, same-IsSweeper, resolve-IsSweeper, refresh-IsSweeper, enqueue-IsSweeper,
}
use driftwatch.Sweeper.Running.{confirm_one-IsSweeper, requeue_one-IsSweeper}
use driftwatch.Sweeper.Reaching.{live_episodes-IsSweeper, take_due-IsSweeper}

-- A sweeper with the candidates that a confirmation took and has not looked at, the time of that
-- confirmation and the time of the latest sweep.
pub record World : Type 0 where
  pub sweeper : Sweeper
  pub hand : List Candidate
  pub now : ℕ
  pub swept : ℕ

-- Sweeps exclude each other, so their times do not go back; a confirmation ends before the next one.
-- Each step is one hold of the sweeper's lock. A sweep that compares a key resolves, renews or raises,
-- as the comparison says and as it found the episode of the key at some time before.
pub data Step (cfg : Config) (w : World) : World → Type 0 where
  begins : (at : ℕ) → w.swept ≤ at → Step cfg w (record w { swept = at })
  resolves : (key : Str) → Step cfg w (record w { sweeper = resolve key w.swept w.sweeper })
  renews :
      (key : Str) (f : Finding)
      → f.confirmed ≡ true
      → is_suspect f.trust ≡ false
      → Step cfg w (record w { sweeper = refresh key f w.sweeper })
  raises :
      (f : Finding) (version window : ℕ)
      → Raised cfg (record { finding = f; version = version; seen_at = w.swept; window = window })
      → Step cfg w (record w { sweeper = enqueue cfg f version w.swept window w.sweeper })
  tallies : (c : Counters) → Step cfg w (record w { sweeper = record w.sweeper { c = c } })
  takes :
      (at : ℕ)
      → w.hand ≡ []
      → Step cfg w (record {
        sweeper = (take_due at w.sweeper).1;
        hand = (take_due at w.sweeper).0;
        now = at;
        swept = w.swept;
      })
  confirms :
      (look : Look) (c : Candidate) (rest : List Candidate)
      → w.hand ≡ c ∷ rest
      → Step cfg w (record {
        sweeper = confirm_one cfg look w.now c w.sweeper;
        hand = rest;
        now = w.now;
        swept = w.swept;
      })
  puts_back :
      (c : Candidate) (rest : List Candidate)
      → w.hand ≡ c ∷ rest
      → Step cfg w (record {
        sweeper = requeue_one cfg c w.sweeper;
        hand = rest;
        now = w.now;
        swept = w.swept;
      })
  withdraws :
      (o : Oracle)
      → Step cfg w (record {
        sweeper = live_episodes o w.sweeper;
        hand = w.hand;
        now = w.now;
        swept = w.swept;
      })
  defers :
      (key : Str)
      → Step cfg w (record {
        sweeper = mark_requeued key w.sweeper;
        hand = w.hand;
        now = w.now;
        swept = w.swept;
      })
  drains :
      Step cfg w
        (record { sweeper = drain_requeued w.sweeper; hand = w.hand; now = w.now; swept = w.swept })

abbrev pub start : World
start = record { sweeper = new_sweeper; hand = []; now = 0; swept = 0 }

pub data Reach (cfg : Config) : World → Type 0 where
  begin : Reach cfg start
  later : {w v : World} → Reach cfg w → Step cfg w v → Reach cfg v

abbrev pub Good : Config → World → Type 0
Good cfg w = IsSweeper cfg w.swept w.now w.hand w.sweeper

start-Good : (cfg : Config) → Good cfg start
unfolding new_sweeper lookup has
start-Good cfg = record {
  waits = record {
    room = omega arith;
    single = tt;
    index = λ k. refl;
    hand_single = tt;
    young = tt;
    hand_young = tt;
    waited = tt;
    order = tt;
    all_raised = tt;
    hand_raised = tt;
  };
  distinct = tt;
  episodes = λ k ep h. absurd (ground (arith, h));
}

Step-Good : (cfg : Config) {w v : World} → Step cfg w v → Good cfg w → Good cfg v
unfolding mark_requeued drain_requeued
Step-Good cfg {w} (begins at le) ok = later-IsSweeper at w.hand w.sweeper le ok
Step-Good cfg {w} (resolves key) ok = resolve-IsSweeper key w.swept w.hand w.sweeper ok
Step-Good cfg {w} (renews key f confirmed trusted) ok =
    refresh-IsSweeper key f w.hand w.sweeper confirmed trusted ok
Step-Good cfg {w} (raises f version window raised) ok =
    enqueue-IsSweeper cfg f version window w.hand w.sweeper refl raised ok
Step-Good cfg {w} (tallies c) ok = same-IsSweeper w.hand w.sweeper _ refl refl refl ok
Step-Good cfg {w} (takes at free) ok =
    take_due-IsSweeper at w.sweeper (subst (λ h. IsSweeper cfg w.swept w.now h w.sweeper) free ok)
Step-Good cfg {w} (confirms look c rest held) ok =
    confirm_one-IsSweeper look c rest w.sweeper
      (subst (λ h. IsSweeper cfg w.swept w.now h w.sweeper) held ok)
Step-Good cfg {w} (puts_back c rest held) ok =
    requeue_one-IsSweeper cfg c rest w.sweeper refl
      (subst (λ h. IsSweeper cfg w.swept w.now h w.sweeper) held ok)
Step-Good cfg {w} (withdraws o) ok = live_episodes-IsSweeper o w.hand w.sweeper ok
Step-Good cfg {w} (defers key) ok = same-IsSweeper w.hand w.sweeper _ refl refl refl ok
Step-Good cfg {w} drains ok = same-IsSweeper w.hand w.sweeper _ refl refl refl ok

pub Reach-Good : (cfg : Config) {w : World} → Reach cfg w → Good cfg w
Reach-Good cfg begin = start-Good cfg
Reach-Good cfg (later before step) = Step-Good cfg step (Reach-Good cfg before)

-- In every such state the queue is no longer than its limit, no two candidates on it have the same
-- key, and the set of queued keys is that of the candidates on it.
pub Reach-bounded :
    (cfg : Config) (w : World)
    → Reach cfg w
    → (length w.sweeper.queue ≤ cfg.max_confirm_queue)
      × IsMembers (keys_of w.sweeper.queue)
      × ((k : Str) → has k w.sweeper.queued ≡ has k (keys_of w.sweeper.queue))
Reach-bounded cfg w reach =
    let good = Reach-Good cfg reach in (good.waits.room, good.waits.single, good.waits.index)
