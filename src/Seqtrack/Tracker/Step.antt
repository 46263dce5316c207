-- ===== src/Seqtrack/Tracker/Step.antt =====
-- What one call of Observe does to the state of a known publisher.
use driftwatch.Base.{
  ℕ, ◌+◌, ◌-◌, ◌≤◌, ◌<◌, ◌≡◌, Bool, true, false, ◌||◌, List, [], ◌∷◌, ◌==◌, max_uint64, arith,
}
use driftwatch.Seqtrack.GapSet.{contains}
use driftwatch.Seqtrack.GapSet.Laws.{IsGapSet, Added, Filled}
use driftwatch.Seqtrack.Tracker.{
  Verdict, accept_after_restart, accept_first_seen, drop_stale_epoch, PublisherState,
}

-- What the tracker ought to know of one incarnation: the number it took as a baseline, and every
-- number that it has been shown since.
pub record View : Type 0 where
  pub base : ℕ
  pub seen : List ℕ

pub was_seen : ℕ → List ℕ → Bool
was_seen seq [] = false
was_seen seq (n ∷ ns) = (n == seq) || was_seen seq ns

-- A first event and a restart begin a view, a straggler of an old epoch is no part of it.
unfoldable pub view_after : View → Verdict → ℕ → View
view_after v accept_after_restart seq = record { base = seq; seen = seq ∷ [] }
view_after v accept_first_seen seq = record { base = seq; seen = seq ∷ [] }
view_after v drop_stale_epoch seq = v
view_after v _ seq = record v { seen = seq ∷ v.seen }

-- The state of a publisher accounts for the view: a number above the baseline was seen or is in the
-- gap set, which holds nothing outside the window and, unless it was truncated, nothing that was seen.
pub record Tracks (v : View) (st : PublisherState) : Type 0 where
  pub valid : IsGapSet st.gaps
  pub base_le : v.base ≤ st.hwm
  pub mark_lt : st.hwm < max_uint64
  pub seen_le : (n : ℕ) → was_seen n v.seen ≡ true → n ≤ st.hwm
  pub nothing_lost :
      (n : ℕ) → v.base < n → n ≤ st.hwm → was_seen n v.seen ≡ false → contains st.gaps n ≡ true
  pub window : (n : ℕ) → contains st.gaps n ≡ true → (v.base < n) × (n < st.hwm)
  pub exact :
      st.gaps.truncated ≡ false → (n : ℕ) → contains st.gaps n ≡ true → was_seen n v.seen ≡ false

-- A publisher that has just begun, with nothing missing.
pub Tracks-begin :
    (st : PublisherState) (seq : ℕ)
    → st.hwm ≡ seq
    → seq < max_uint64
    → IsGapSet st.gaps
    → ((n : ℕ) → contains st.gaps n ≡ false)
    → Tracks (record { base = seq; seen = seq ∷ [] }) st
unfolding was_seen
Tracks-begin st seq e h valid empty = record {
  valid = valid;
  base_le = omega arith;
  mark_lt = omega arith;
  seen_le = λ n s. ground arith;
  nothing_lost = λ n above below unseen. absurd (omega arith);
  window = λ n c. absurd (cc (empty n));
  exact = λ t n c. absurd (cc (empty n));
}

abbrev pub now_seen : View → ℕ → View
now_seen v seq = record v { seen = seq ∷ v.seen }

module _ (v : View) (st : PublisherState) (t : Tracks v st) (seq : ℕ) where
  -- The next number, or one that leaves a hole behind it.
  pub Tracks-next :
      (st' : PublisherState)
      → seq ≡ st.hwm + 1
      → seq < max_uint64
      → st'.hwm ≡ seq
      → st'.gaps ≡ st.gaps
      → Tracks (now_seen v seq) st'
  unfolding was_seen
  Tracks-next st' next small e same = record {
    valid = rw same t.valid;
    base_le = omega (arith, t.base_le);
    mark_lt = omega arith;
    seen_le = λ n s. ground (arith, t.seen_le n);
    nothing_lost = λ n above below unseen. ground (arith, t.nothing_lost n);
    window = λ n c. ground (arith, t.window n);
    exact = λ f n c. ground (arith, t.exact (rw (← same) f) n, t.window n);
  }

  pub Tracks-ahead :
      (st' : PublisherState)
      → st.hwm + 1 < seq
      → seq < max_uint64
      → st'.hwm ≡ seq
      → Added st.gaps (st.hwm + 1) (seq - 1) st'.gaps
      → Tracks (now_seen v seq) st'
  unfolding was_seen
  Tracks-ahead st' ahead small e added = record {
    valid = added.valid;
    base_le = omega (arith, t.base_le);
    mark_lt = omega arith;
    seen_le = λ n s. ground (arith, t.seen_le n);
    nothing_lost = λ n above below unseen. ground (arith, t.nothing_lost n, added.holds n);
    window = λ n c.
        let (lo, hi, plo, phi, below, above) = added.between n c in
        ground (arith, t.window lo, t.window hi, t.base_le);
    exact = λ f n c.
        ground (arith, t.exact (added.exact f).0 n, (added.exact f).1 n, t.seen_le n, t.window n);
  }

  pub Tracks-fill :
      (st' : PublisherState)
      → contains st.gaps seq ≡ true
      → st'.hwm ≡ st.hwm
      → Filled st.gaps seq st'.gaps
      → Tracks (now_seen v seq) st'
  unfolding was_seen
  Tracks-fill st' c e filled = record {
    valid = filled.valid;
    base_le = omega (arith, t.base_le);
    mark_lt = omega (arith, t.mark_lt);
    seen_le = λ n s. ground (arith, t.seen_le n, t.window seq c);
    nothing_lost = λ n above below unseen. ground (arith, t.nothing_lost n, filled.holds n);
    window = λ n m.
        let (lo, hi, plo, phi, below, above) = filled.between n m in
        ground (arith, t.window lo, t.window hi);
    exact = λ f n m. ground (arith, t.exact (filled.exact f).0 n, (filled.exact f).1 n);
  }

  pub Tracks-again : seq ≤ st.hwm → contains st.gaps seq ≡ false → Tracks (now_seen v seq) st
  unfolding was_seen
  Tracks-again below c = record {
    valid = t.valid;
    base_le = t.base_le;
    mark_lt = t.mark_lt;
    seen_le = λ n s. ground (arith, t.seen_le n);
    nothing_lost = λ n above less unseen. ground (arith, t.nothing_lost n);
    window = t.window;
    exact = λ f n m. ground (arith, t.exact f n);
  }
