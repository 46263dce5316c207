-- ===== src/Seqtrack/Tracker/Sound.antt =====
-- The tracker over whole runs: what its state says is what it was shown.
use driftwatch.Base.{
  ℕ, ◌+◌, ◌-◌, ◌≤◌, ◌<◌, ◌≡◌, refl, false, Option, some, ltb, ◌==◌, max_uint64, add64, sub64, arith,
  inl, inr, Bool-cases, subst,
}
use driftwatch.Event.{Event}
use driftwatch.Seqtrack.GapSet.{contains}
use driftwatch.Seqtrack.GapSet.Laws.{Added, add-Added, fill-Filled, clear-IsGapSet, clear-contains}
use driftwatch.Seqtrack.Tracker.{
  PublisherState, Config, Outcome, observe_known, observe_same_epoch, observe_ahead, observe_behind,
  is_implicit_restart,
}
use driftwatch.Seqtrack.Tracker.Step.{
  View, Tracks, view_after, Tracks-begin, Tracks-next, Tracks-ahead, Tracks-fill, Tracks-again,
}

-- The call does not panic, and the new state accounts for the new view.
abbrev Observes : View → ℕ → Option Outcome → Type 0
Observes v seq r = (o : Outcome) × (r ≡ some o) × Tracks (view_after v o.1 seq) o.0

-- The time of the last event is no part of the account.
pub Tracks-last_seen :
    (v : View) (st : PublisherState) (now : ℕ)
    → Tracks v st
    → Tracks v (record st { last_seen = now })
Tracks-last_seen v st now t = record {
  valid = t.valid;
  base_le = t.base_le;
  mark_lt = t.mark_lt;
  seen_le = t.seen_le;
  nothing_lost = t.nothing_lost;
  window = t.window;
  exact = t.exact;
}

module _ (cfg : Config) (v : View) (st : PublisherState) (t : Tracks v st) (e : Event)
    (small : e.seq < max_uint64) where
  observe_ahead-Observes :
      (now : ℕ) → st.hwm + 1 < e.seq → Observes v e.seq (observe_ahead st e now)
  unfolding observe_ahead view_after
  observe_ahead-Observes now ahead =
      let (gaps, added_eq, added) =
        add-Added st.gaps t.valid (add64 st.hwm 1) (sub64 e.seq 1) (omega (arith, t.mark_lt))
          (omega arith) in
      let from_eq : add64 st.hwm 1 ≡ st.hwm + 1 = omega (arith, t.mark_lt) in
      let to_eq : sub64 e.seq 1 ≡ e.seq - 1 = omega arith in
      rw (added_eq, observe_ahead)
        (
          _,
          refl,
          Tracks-ahead v st t e.seq _ ahead small refl (
              subst (λ n. Added st.gaps n (e.seq - 1) gaps) from_eq
                (subst (λ n. Added st.gaps (add64 st.hwm 1) n gaps) to_eq added)),
        )

  observe_behind-Observes : e.seq ≤ st.hwm → Observes v e.seq (some (observe_behind cfg st e))
  unfolding observe_behind view_after
  observe_behind-Observes behind = elim (Bool-cases (is_implicit_restart cfg st e.seq)) [
    | inl again ↦ rw again (
      _,
      refl,
      Tracks-begin _ e.seq refl small (clear-IsGapSet st.gaps t.valid) (clear-contains st.gaps),
    )
    | inr same ↦ elim (Bool-cases (contains st.gaps e.seq)) [
      | inl late ↦
          rw (same, late)
            (_, refl, Tracks-fill v st t e.seq _ late refl (fill-Filled st.gaps t.valid e.seq))
      | inr twice ↦ rw (same, twice) (_, refl, Tracks-again v st t e.seq behind twice)
    ]
  ]

  observe_same_epoch-Observes : (now : ℕ) → Observes v e.seq (observe_same_epoch cfg st e now)
  unfolding observe_same_epoch
  observe_same_epoch-Observes now =
      let next_eq : add64 st.hwm 1 ≡ st.hwm + 1 = omega (arith, t.mark_lt) in
      let room : (st.hwm == max_uint64) ≡ false = ground (arith, t.mark_lt) in
      rw (room, next_eq)
        (elim (Bool-cases (e.seq == st.hwm + 1)) [
          | inl next ↦ rw next (
            _,
            refl,
            unfold view_after in Tracks-next v st t e.seq _ (ground arith) small refl refl,
          )
          | inr other ↦ elim (Bool-cases (ltb (st.hwm + 1) e.seq)) [
            | inl ahead ↦ rw (other, ahead) (observe_ahead-Observes now (ground arith))
            | inr behind ↦ rw (other, behind) (observe_behind-Observes (ground arith))
          ]
        ])

-- Whatever the event, as long as its number is not the largest.
pub observe_known-Observes :
    (cfg : Config) (v : View) (st : PublisherState) (e : Event) (now : ℕ)
    → Tracks v st
    → e.seq < max_uint64
    → Observes v e.seq (observe_known cfg st e now)
unfolding observe_known
observe_known-Observes cfg v st e now t small = elim (Bool-cases (ltb st.epoch e.epoch)) [
  | inl newer ↦ rw newer (
    _,
    refl,
    unfold view_after in
        Tracks-begin _ e.seq refl small (clear-IsGapSet st.gaps t.valid) (clear-contains st.gaps),
  )
  | inr other ↦ elim (Bool-cases (ltb e.epoch st.epoch)) [
    | inl older ↦ rw (other, older) (_, refl, unfold view_after in Tracks-last_seen v st now t)
    | inr same ↦
        rw (other, same)
          (observe_same_epoch-Observes cfg v (record st { last_seen = now })
            (Tracks-last_seen v st now t) e small now)
  ]
]
