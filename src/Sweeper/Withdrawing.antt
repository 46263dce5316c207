-- ===== src/Sweeper/Withdrawing.antt =====
-- Which claims of a sweeper stand: what liveEpisodes withdraws, and what a comparison leaves.
use driftwatch.Base.{
  ℕ, ◌+◌, ◌≡◌, ◌≢◌, ◌↔◌, refl, sym, ap, ◌∙◌, inl, inr, ◌==◌, ==_iff, none, some, [], ◌∷◌, Str,
  str_eq, str_eq_iff, Dict, lookup, Distinct, length, arith, Bool-cases, Option-cases,
}
use driftwatch.Oracle.Suspicion.{Oracle, version}
use driftwatch.Sweeper.{Sweeper, Episode, live_step, live_loop, live_episodes}

-- An episode that liveEpisodes keeps: it was there, and the oracle still has the version it is about.
abbrev pub Stands : Oracle → Dict Episode → Str → Episode → Type 0
Stands o m k ep = (lookup k m ≡ some ep) × (version o k ≡ some ep.finding.oracle_version)

record Live (o : Oracle) (m : Dict Episode) (r : Dict Episode × (ℕ × ℕ)) : Type 0 where
  stands : (k : Str) (ep : Episode) → (lookup k r.0 ≡ some ep) ↔ Stands o m k ep
  absent : (k : Str) → lookup k m ≡ none → lookup k r.0 ≡ none
  size : length m ≡ length r.0 + (r.1.0 + r.1.1)

drop-Live :
    (o : Oracle) (key : Str) (ep : Episode) (m : Dict Episode) (r r' : Dict Episode × (ℕ × ℕ))
    → lookup key m ≡ none
    → version o key ≢ some ep.finding.oracle_version
    → r'.0 ≡ r.0
    → r'.1.0 + r'.1.1 ≡ r.1.0 + r.1.1 + 1
    → Live o m r
    → Live o ((key, ep) ∷ m) r'
unfolding lookup
drop-Live o key ep m r r' free fallen same more old = record {
  stands = λ k e. (
    λ h.
        let (there, stays) = (old.stands k e).0 (ap (λ n. lookup k n) (sym same) ∙ h) in
        (ground (arith, there, free, str_eq_iff key k), stays),
    λ (there, stays). elim (Bool-cases (str_eq key k)) [
      | inl here ↦
          let same_ep : ep ≡ e = ground (arith, there, here) in
          absurd (
            fallen (
              ap (version o) ((str_eq_iff key k).0 here)
              ∙ stays
              ∙ ap (λ x. some x.finding.oracle_version) (sym same_ep)))
      | inr elsewhere ↦
          ap (λ n. lookup k n) same ∙ (old.stands k e).1 (ground (arith, there, elsewhere), stays)
    ],
  );
  absent = λ k h. ap (λ n. lookup k n) same ∙ old.absent k (ground arith);
  size = omega (arith, old.size, more, ap length same);
}

live_step-Live :
    (o : Oracle) (key : Str) (ep : Episode) (m : Dict Episode) (r : Dict Episode × (ℕ × ℕ))
    → lookup key m ≡ none
    → Live o m r
    → Live o ((key, ep) ∷ m) (live_step (version o key) key ep r)
unfolding lookup
live_step-Live o key ep m r free old = elim (Option-cases (version o key)) [
  | inl gone ↦
      rw gone (
        drop-Live o key ep m r _ free (λ h. absurd (ground (arith, gone, h))) refl (omega arith)
          old)
  | inr (v, known) ↦ elim (Bool-cases (v == ep.finding.oracle_version)) [
    | inl same ↦
        rw (known, same)
          record {
            stands = λ k e. elim (Bool-cases (str_eq key k)) [
              | inl here ↦ (
                λ h.
                    let same_ep : ep ≡ e = ground (arith, h, here) in
                    (
                      ground (arith, h, here),
                      ap (version o) (sym ((str_eq_iff key k).0 here))
                          ∙ known
                          ∙ ap some ((==_iff v ep.finding.oracle_version).0 same)
                          ∙ ap (λ x. some x.finding.oracle_version) same_ep,
                    ),
                λ (there, stays). ground (arith, there, here),
              )
              | inr elsewhere ↦ (
                λ h.
                    let (there, stays) = (old.stands k e).0 (ground (arith, h, elsewhere)) in
                    (ground (arith, there, elsewhere), stays),
                λ (there, stays).
                    let rest = (old.stands k e).1 (ground (arith, there, elsewhere), stays) in
                    ground (arith, rest, elsewhere),
              )
            ];
            absent = λ k h. ground (arith, old.absent k);
            size = omega (arith, old.size);
          }
    | inr moved ↦
        rw (known, moved)
          (drop-Live o key ep m r _ free
            (λ h. absurd (ground (arith, known, h, moved, ==_iff v ep.finding.oracle_version))) refl
            (omega arith) old)
  ]
]

live_loop-Live : (o : Oracle) (m : Dict Episode) → Distinct m → Live o m (live_loop o m)
unfolding live_loop lookup
live_loop-Live o [] d = record {
  stands = λ k ep. (λ h. absurd (ground (arith, h)), λ (there, stays). there);
  absent = λ k h. refl;
  size = refl;
}
live_loop-Live o ((key, ep) ∷ m) d =
    live_step-Live o key ep m (live_loop o m) d.0 (live_loop-Live o m d.1)

-- The claims that are left are those about the version that the oracle has now: for episodes under
-- distinct keys, a key has an episode after liveEpisodes exactly when it had that episode before and
-- the oracle still has the version that its finding is about. The two counters of withdrawn findings
-- go up by the number of the others.
pub live_episodes-Stands :
    (o : Oracle) (s : Sweeper)
    → Distinct s.confirmed
    → ((k : Str) (ep : Episode)
        → (lookup k (live_episodes o s).confirmed ≡ some ep) ↔ Stands o s.confirmed k ep)
      × (length s.confirmed + (s.c.confirmed_dropped_evicted + s.c.confirmed_superseded)
          ≡ length (live_episodes o s).confirmed
            + ((live_episodes o s).c.confirmed_dropped_evicted
                + (live_episodes o s).c.confirmed_superseded))
unfolding live_episodes
live_episodes-Stands o s d =
    let live = live_loop-Live o s.confirmed d in (live.stands, omega (arith, live.size))
