-- ===== src/Tests/Reorder.antt =====
-- pkg/check/reorder.go at concrete inputs.
use driftwatch.Base.{ℕ, ◌≡◌, ◌<◌, refl, true, [], ◌∷◌, none, bytes, pos, arith, length}
use driftwatch.Event.{Event, Op}
use driftwatch.Reorder.{
  PublisherOrder, take_seq, release_loop, release_consecutive, offer_to, hold, settle, drain,
  sort_events, insert_event,
}
use driftwatch.Reorder.Laws.{
  Conserves, ReleasesRun, offer_to-Conserves, offer_to-bounded, offer_to-Consecutive,
}

abbrev numbered : ℕ → ℕ → Event
numbered epoch seq = record {
  publisher = bytes "p";
  epoch = epoch;
  seq = seq;
  published_at = 0;
  observed_at = 0;
  topic = [];
  op = Op.heartbeat;
  key = [];
  member = [];
  value = none;
  delta = pos 0;
  ttl = none;
  raw = none;
}

-- 7 is next; 8, 10 and 9 wait for it, and 12 waits for 11.
abbrev waiting : PublisherOrder
waiting = record {
  epoch = 2;
  next = 7;
  held = numbered 2 10 ∷ numbered 2 8 ∷ numbered 2 12 ∷ numbered 2 9 ∷ [];
  oldest_at = 50;
  started = true;
}

not_held : take_seq 13 waiting.held ≡ none
unfolding take_seq
not_held = refl

offer_to-Conserves_example :
    Conserves (numbered 2 13 ∷ waiting.held) (offer_to 5 waiting (numbered 2 13) 60)
offer_to-Conserves_example = offer_to-Conserves 5 waiting (numbered 2 13) 60 not_held

offer_to-bounded_example : length ((offer_to 5 waiting (numbered 2 13) 60).0).held < 5
offer_to-bounded_example = offer_to-bounded 5 waiting (numbered 2 13) 60 (omega arith) (omega arith)

offer_to-Consecutive_example :
    ReleasesRun (numbered 2 7) waiting.held (offer_to 5 waiting (numbered 2 7) 60)
offer_to-Consecutive_example = offer_to-Consecutive 5 waiting (numbered 2 7) 60 refl refl refl

released :
    (offer_to 5 waiting (numbered 2 7) 60).1
    ≡ numbered 2 7 ∷ numbered 2 8 ∷ numbered 2 9 ∷ numbered 2 10 ∷ []
unfolding offer_to release_consecutive release_loop take_seq
released = refl

-- The limit releases everything in order.
flushed :
    (offer_to 5 waiting (numbered 2 13) 60).1
    ≡ numbered 2 8 ∷ numbered 2 9 ∷ numbered 2 10 ∷ numbered 2 12 ∷ numbered 2 13 ∷ []
unfolding offer_to hold settle drain sort_events insert_event take_seq
flushed = refl

-- A straggler of an older epoch empties the buffer and takes the epoch back.
straggler : ((offer_to 5 waiting (numbered 1 40) 60).0).epoch ≡ 1
unfolding offer_to
straggler = refl
