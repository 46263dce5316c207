-- ===== src/Seqtrack/Tracker/Verdicts.antt =====
-- The verdicts at the two ends: a number that was seen before, and the top of the sequence space.
use driftwatch.Base.{
  ℕ, ◌+◌, ◌≤◌, ◌<◌, ◌≡◌, refl, true, false, Option, none, some, Option-cases, lookup, ltb, ◌==◌,
  max_uint64, add64, sub64, arith, inl, inr, Bool-cases, ◌⊎◌, sym,
}
use driftwatch.Event.{Event}
use driftwatch.Seqtrack.GapSet.{contains}
use driftwatch.Seqtrack.GapSet.Laws.{add-Added}
use driftwatch.Seqtrack.Tracker.{
  Verdict, accept, accept_with_gap, accept_late_fill, accept_after_restart, accept_first_seen,
  drop_duplicate, drop_stale_epoch, PublisherState, Config, Outcome, observe_known, Tracker, Gap,
  observe, observe_same_epoch, observe_ahead, observe_behind, is_implicit_restart,
}
use driftwatch.Seqtrack.Tracker.Step.{View, Tracks, was_seen}
use driftwatch.Seqtrack.Tracker.Sound.{Tracks-last_seen}

-- What a verdict claims about an event, given the state of its publisher and the view before it.
abbrev pub Justified : Config → View → PublisherState → Event → Verdict → Type 0
Justified cfg v st e drop_stale_epoch = e.epoch < st.epoch
Justified cfg v st e accept_after_restart =
    (st.epoch < e.epoch)
    ⊎ ((e.epoch ≡ st.epoch)
        × (e.seq + cfg.implicit_restart_delta < st.hwm)
        × (e.seq < cfg.implicit_restart_ceiling))
Justified cfg v st e drop_duplicate =
    (e.epoch ≡ st.epoch) × ((e.seq ≤ v.base) ⊎ (was_seen e.seq v.seen ≡ true))
Justified cfg v st e accept =
    (e.epoch ≡ st.epoch) × (e.seq ≡ st.hwm + 1) × (was_seen e.seq v.seen ≡ false)
Justified cfg v st e accept_with_gap =
    (e.epoch ≡ st.epoch)
    × ((n : ℕ) → st.hwm < n → n ≤ e.seq → was_seen n v.seen ≡ false)
    × (st.hwm + 1 < e.seq)
Justified cfg v st e accept_late_fill =
    (e.epoch ≡ st.epoch)
    × (v.base < e.seq)
    × (st.gaps.truncated ≡ false → was_seen e.seq v.seen ≡ false)
Justified cfg v st e accept_first_seen = ⊥

abbrev pub Explained : Config → View → PublisherState → Event → Option Outcome → Type 0
Explained cfg v st e r = (o : Outcome) × (r ≡ some o) × Justified cfg v st e o.1

module _ (cfg : Config) (v : View) (st : PublisherState) (t : Tracks v st) (e : Event) where
  unseen_above : (n : ℕ) → st.hwm < n → was_seen n v.seen ≡ false
  unseen_above n h = ground (arith, t.seen_le n)

  observe_behind-Explained :
      st.epoch ≡ e.epoch → e.seq ≤ st.hwm → Explained cfg v st e (some (observe_behind cfg st e))
  unfolding observe_behind
  observe_behind-Explained same behind = elim (Bool-cases (is_implicit_restart cfg st e.seq)) [
    | inl again ↦ rw again (
      _,
      refl,
      inr (
        sym same,
        unfold is_implicit_restart in ground (arith, t.mark_lt),
        unfold is_implicit_restart in ground arith,
      ),
    )
    | inr stays ↦ elim (Bool-cases (contains st.gaps e.seq)) [
      | inl late ↦
          rw (stays, late)
            (_, refl, (sym same, (t.window e.seq late).0, λ exact. t.exact exact e.seq late))
      | inr twice ↦ rw (stays, twice) (_, refl, (sym same, ground (arith, t.nothing_lost e.seq)))
    ]
  ]

  observe_ahead-Explained :
      (now : ℕ)
      → st.epoch ≡ e.epoch
      → e.seq < max_uint64
      → st.hwm + 1 < e.seq
      → Explained cfg v st e (observe_ahead st e now)
  unfolding observe_ahead
  observe_ahead-Explained now same small ahead =
      let (gaps, added_eq, added) =
        add-Added st.gaps t.valid (add64 st.hwm 1) (sub64 e.seq 1) (omega (arith, t.mark_lt))
          (omega arith) in
      rw (added_eq, observe_ahead)
        (_, refl, (sym same, λ n above below. unseen_above n above, ahead))

  observe_same_epoch-Explained :
      (now : ℕ)
      → st.epoch ≡ e.epoch
      → e.seq < max_uint64
      → Explained cfg v st e (observe_same_epoch cfg st e now)
  unfolding observe_same_epoch
  observe_same_epoch-Explained now same small =
      let next_eq : add64 st.hwm 1 ≡ st.hwm + 1 = omega (arith, t.mark_lt) in
      let room : (st.hwm == max_uint64) ≡ false = ground (arith, t.mark_lt) in
      rw (room, next_eq)
        (elim (Bool-cases (e.seq == st.hwm + 1)) [
          | inl next ↦
              rw next (_, refl, (sym same, ground arith, unseen_above e.seq (ground arith)))
          | inr other ↦ elim (Bool-cases (ltb (st.hwm + 1) e.seq)) [
            | inl ahead ↦ rw (other, ahead) (observe_ahead-Explained now same small (ground arith))
            | inr behind ↦ rw (other, behind) (observe_behind-Explained same (ground arith))
          ]
        ])

-- The time of the last event is no part of the claim.
Explained-last_seen :
    (cfg : Config) (v : View) (st : PublisherState) (e : Event) (now : ℕ) (r : Option Outcome)
    → Explained cfg v (record st { last_seen = now }) e r
    → Explained cfg v st e r
Explained-last_seen cfg v st e now r (o, same, j) = (o, same, claim o.1 j)
  where
    claim :
        (verdict : Verdict)
        → Justified cfg v (record st { last_seen = now }) e verdict
        → Justified cfg v st e verdict
    claim accept j = j
    claim accept_with_gap j = j
    claim accept_late_fill j = j
    claim accept_after_restart j = j
    claim accept_first_seen j = j
    claim drop_duplicate j = j
    claim drop_stale_epoch j = j

pub observe_known-Explained :
    (cfg : Config) (v : View) (st : PublisherState) (e : Event) (now : ℕ)
    → Tracks v st
    → e.seq < max_uint64
    → Explained cfg v st e (observe_known cfg st e now)
unfolding observe_known
observe_known-Explained cfg v st e now t small = elim (Bool-cases (ltb st.epoch e.epoch)) [
  | inl newer ↦ rw newer (_, refl, inl (ground arith))
  | inr other ↦ elim (Bool-cases (ltb e.epoch st.epoch)) [
    | inl older ↦ rw (other, older) (_, refl, ground arith)
    | inr same ↦
        rw (other, same)
          (Explained-last_seen cfg v st e now _ (
            observe_same_epoch-Explained cfg v (record st { last_seen = now })
              (Tracks-last_seen v st now t) e now (ground arith) small))
  ]
]

-- A first event is one of a publisher that the tracker does not hold.
abbrev pub JustifiedAt : Config → View → Option PublisherState → Event → Verdict → Type 0
JustifiedAt cfg v none e verdict = verdict ≡ accept_first_seen
JustifiedAt cfg v (some st) e verdict = Justified cfg v st e verdict

-- What Observe answers for any event but one with the largest sequence number, where the publisher, if
-- the tracker holds it, accounts for its view: there is no panic, and the verdict says of the event:
-- as a first one, that the publisher was not held; as a straggler, that it is of an older epoch; as a
-- restart, that it is of a newer epoch, or of the same one and below the mark by more than the delta
-- to under the ceiling; as the next one, that its number is the next and was not shown; as one with a
-- gap, that its number is above the next and that neither it nor any skipped was shown; as a late
-- fill, that it is above the baseline and, unless the gap set was truncated, was not shown; as a
-- duplicate, that it was shown before or is at or below the baseline, where it need not have been.
pub observe-Explained :
    (t : Tracker) (v : View) (e : Event) (now : ℕ)
    → ((st : PublisherState) → lookup e.publisher t.pubs ≡ some st → Tracks v st)
    → e.seq < max_uint64
    → (r : Tracker × Verdict × Option Gap) × (observe t e now ≡ some r)
      × JustifiedAt t.cfg v (lookup e.publisher t.pubs) e r.1
unfolding observe
observe-Explained t v e now tracks small = elim (Option-cases (lookup e.publisher t.pubs)) [
  | inl gone ↦ rw (gone, observe) (_, refl, refl)
  | inr (st, known) ↦
      let (o, same, j) = observe_known-Explained t.cfg v st e now (tracks st known) small in
      rw (known, same, observe) (_, refl, j)
]
