-- ===== src/Seqtrack/Tracker/Wrap.antt =====
-- The top of the sequence space, where `hwm + 1` is 0.
use driftwatch.Base.{
  ℕ, ◌≤◌, ◌<◌, ◌≡◌, refl, true, false, some, ltb, ◌==◌, max_uint64, add64, sub64, arith,
}
use driftwatch.Event.{Event}
use driftwatch.Seqtrack.GapSet.{contains}
use driftwatch.Seqtrack.GapSet.Laws.{IsGapSet, add-Added}
use driftwatch.Seqtrack.Tracker.{
  accept_with_gap, PublisherState, Config, Outcome, observe_known, observe_same_epoch,
  observe_ahead,
}

-- For a valid gap set: once the largest number has been seen, an event of the same epoch with any number but 0, the
-- largest itself included, is accepted as one that skipped ahead, and every number below it is
-- recorded as missing.
pub observe_known-wraps :
    (cfg : Config) (st : PublisherState) (e : Event) (now : ℕ)
    → IsGapSet st.gaps
    → st.hwm ≡ max_uint64
    → st.epoch ≡ e.epoch
    → 0 < e.seq
    → e.seq ≤ max_uint64
    → (o : Outcome) × (observe_known cfg st e now ≡ some o)
      × (o.1 ≡ accept_with_gap)
      × ((n : ℕ) → n < e.seq → contains o.0.gaps n ≡ true)
unfolding observe_known observe_same_epoch observe_ahead
observe_known-wraps cfg st e now valid top same low high =
    let (gaps, added_eq, added) =
      add-Added st.gaps valid (add64 st.hwm 1) (sub64 e.seq 1) (omega arith) (omega arith) in
    let newer : ltb st.epoch e.epoch ≡ false = ground arith in
    let older : ltb e.epoch st.epoch ≡ false = ground arith in
    let full : (st.hwm == max_uint64) ≡ true = ground arith in
    let ahead : ltb (add64 st.hwm 1) e.seq ≡ true = ground arith in
    rw (newer, older, full)
      (rw ahead
        (rw (added_eq, observe_ahead) (_, refl, refl, λ n below. added.holds n (ground arith))))
