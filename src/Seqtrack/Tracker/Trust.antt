-- ===== src/Seqtrack/Tracker/Trust.antt =====
-- What the tracker's word is worth: a run of any events, and the trust that it then reports.
use driftwatch.Base.{
  ℕ, ◌≤◌, ◌<◌, ◌≡◌, refl, true, false, Option, none, some, List, [], ◌∷◌, max_uint64, arith, ◌↔◌,
  Str, lookup, ◌>>=◌,
}
use driftwatch.Event.{Event, TrustState}
use driftwatch.Seqtrack.GapSet.{contains, count}
use driftwatch.Seqtrack.GapSet.Laws.{count-zero_iff}
use driftwatch.Seqtrack.Tracker.{Verdict, PublisherState, Config, Tracker, observe, trust, new}
use driftwatch.Seqtrack.Tracker.Step.{View, Tracks, was_seen}
use driftwatch.Seqtrack.Tracker.Runs.{Views, views_after, Accounts, observe-Accounts}

-- Observe called for each event in turn, the first one first; `none` is a panic.
unfoldable pub observe_all : Tracker → List (Event × ℕ) → Option (Tracker × List Verdict)
observe_all t [] = some (t, [])
observe_all t ((e, now) ∷ es) =
    observe t e now >>= λ r. observe_all r.0 es >>= λ rs. some (rs.0, r.1 ∷ rs.1)

unfoldable pub views_all : Views → List (Event × ℕ) → List Verdict → Views
views_all views [] verdicts = views
views_all views ((e, now) ∷ es) [] = views
views_all views ((e, now) ∷ es) (verdict ∷ verdicts) =
    views_all (views_after views e verdict) es verdicts

-- No event has the largest sequence number.
abbrev pub Small : List (Event × ℕ) → Type 0
Small [] = Unit {0}
Small ((e, now) ∷ es) = (e.seq < max_uint64) × Small es

observe_all-Accounts :
    (views : Views) (t : Tracker) (es : List (Event × ℕ))
    → Accounts views t
    → Small es
    → (r : Tracker × List Verdict) × (observe_all t es ≡ some r)
      × Accounts (views_all views es r.1) r.0
unfolding observe_all views_all
observe_all-Accounts views t [] acc small = (_, refl, acc)
observe_all-Accounts views t ((e, now) ∷ es) acc small =
    let (r, observed, acc') = observe-Accounts views t e now acc small.0 in
    let (rs, observed', acc'') =
      observe_all-Accounts (views_after views e r.1) r.0 es acc' small.1 in
    ((rs.0, r.1 ∷ rs.1), rw observed (rw observed'), acc'')

-- From a new tracker, any events of any publishers, none with the largest sequence number, are
-- observed with no panic, and every publisher still held then accounts for its view: every number
-- above the baseline of its incarnation and up to the high-water mark was shown to the tracker or is
-- in the gap set; the gap set holds only numbers between the two; and unless it was truncated it
-- holds none that was shown.
pub run-Accounts :
    (cfg : Config) (es : List (Event × ℕ))
    → Small es
    → (r : Tracker × List Verdict) × (observe_all (new cfg) es ≡ some r)
      × Accounts (views_all (λ p. none) es r.1) r.0
unfolding new lookup
run-Accounts cfg es small = observe_all-Accounts (λ p. none) (new cfg) es (λ p st h. cc) small

trust-complete_iff_count :
    (t : Tracker) (p : Str) (st : PublisherState)
    → lookup p t.pubs ≡ some st
    → (trust t p ≡ TrustState.complete) ↔ ((st.gaps.truncated ≡ false) × (count st.gaps ≡ 0))
unfolding trust
trust-complete_iff_count t p st h = rw (h, trust) (ground arith)

-- For a publisher that accounts for its view, the reported trust is complete exactly when its gap set
-- was not truncated and every number above the baseline, up to the high-water mark, was shown.
pub trust-complete_iff :
    (t : Tracker) (p : Str) (st : PublisherState) (v : View)
    → lookup p t.pubs ≡ some st
    → Tracks v st
    → (trust t p ≡ TrustState.complete) ↔ (
        (st.gaps.truncated ≡ false)
        × ((n : ℕ) → v.base < n → n ≤ st.hwm → was_seen n v.seen ≡ true))
trust-complete_iff t p st v h tracks = (
  λ c.
      let (flag, zero_count) = (trust-complete_iff_count t p st h).0 c in
      (flag, λ n above below. ground (arith, none_missing.0 zero_count n, tracks.nothing_lost n)),
  λ (flag, all_seen). (trust-complete_iff_count t p st h).1 (
    flag,
    none_missing.1 (λ n. ground (arith, tracks.window n, all_seen n, tracks.exact flag n)),
  ),
)
  where
    none_missing : (count st.gaps ≡ 0) ↔ ((seq : ℕ) → contains st.gaps seq ≡ false)
    none_missing =
        count-zero_iff st.gaps tracks.valid
          (ground (arith, tracks.window max_uint64, tracks.mark_lt))
