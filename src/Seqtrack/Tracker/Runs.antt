-- ===== src/Seqtrack/Tracker/Runs.antt =====
-- The tracker over whole runs: many publishers, restarts and evictions.
use driftwatch.Base.{
  ℕ, ◌<◌, ◌≡◌, refl, Option, none, some, [], ◌∷◌, leb, if◌then◌else◌, max_uint64, arith, inl, inr,
  Bool-cases, Option-cases, subst, Str, str_eq, Dict, lookup, insert, lookup-insert, lookup-delete,
  length,
}
use driftwatch.Event.{Event}
use driftwatch.Seqtrack.GapSet.Laws.{new_gap_set-IsGapSet, new_gap_set-contains}
use driftwatch.Seqtrack.Tracker.{
  Verdict, accept_first_seen, PublisherState, Config, Tracker, Gap, oldest, admitted_state, admit,
  evict_oldest, observe,
}
use driftwatch.Seqtrack.Tracker.Step.{View, Tracks, view_after, Tracks-begin}
use driftwatch.Seqtrack.Tracker.Sound.{observe_known-Observes}

-- The view of each publisher that has been shown anything.
abbrev pub Views : Type 0
Views = Str → Option View

abbrev no_view : View
no_view = record { base = 0; seen = [] }

abbrev view_or_none : Option View → View
view_or_none none = no_view
view_or_none (some v) = v

unfoldable pub views_after : Views → Event → Verdict → Views
views_after views e verdict p =
    if str_eq e.publisher p
    then some (view_after (view_or_none (views e.publisher)) verdict e.seq)
    else views p

-- Every publisher that the tracker still holds accounts for its view.
abbrev pub Accounts : Views → Tracker → Type 0
Accounts views t =
    (p : Str) (st : PublisherState)
    → lookup p t.pubs ≡ some st
    → (v : View) × (views p ≡ some v) × Tracks v st

lookup-evict_oldest :
    (t : Tracker) (p : Str) (st : PublisherState)
    → lookup p (evict_oldest t).pubs ≡ some st
    → lookup p t.pubs ≡ some st
unfolding evict_oldest
lookup-evict_oldest t p st h = ground (arith, lookup-delete (oldest [] 0 t.pubs) p t.pubs)

-- Writing one state that accounts for its view.
insert-Accounts :
    (views : Views) (pubs : Dict PublisherState) (k : Str) (st : PublisherState) (w : View)
    → ((p : Str) (s : PublisherState)
        → lookup p pubs ≡ some s
        → (v : View) × (views p ≡ some v) × Tracks v s)
    → Tracks w st
    → (p : Str) (s : PublisherState) → lookup p (insert k st pubs) ≡ some s
    → (v : View) × ((if str_eq k p then some w else views p) ≡ some v) × Tracks v s
insert-Accounts views pubs k st w acc tracks p s h = elim (Bool-cases (str_eq k p)) [
  | inl same ↦
      let e : st ≡ s = ground (arith, lookup-insert k p st pubs) in
      rw same (w, refl, subst (Tracks w) e tracks)
  | inr other ↦
      let e : lookup p pubs ≡ some s = ground (arith, lookup-insert k p st pubs) in
      rw other (acc p s e)
]

admitted_state-Tracks :
    (cfg : Config) (e : Event) (now : ℕ)
    → e.seq < max_uint64
    → Tracks (record { base = e.seq; seen = e.seq ∷ [] }) (admitted_state cfg e now)
unfolding admitted_state
admitted_state-Tracks cfg e now small =
    Tracks-begin _ e.seq refl small (new_gap_set-IsGapSet cfg.max_gap_intervals)
      (new_gap_set-contains cfg.max_gap_intervals)

admit-Accounts :
    (views : Views) (t : Tracker) (e : Event) (now : ℕ)
    → Accounts views t
    → e.seq < max_uint64
    → Accounts (views_after views e accept_first_seen) (admit t e now)
unfolding admit views_after view_after
admit-Accounts views t e now acc small =
    let t' = if leb t.cfg.max_publishers (length t.pubs) then evict_oldest t else t in
    insert-Accounts views t'.pubs e.publisher (admitted_state t.cfg e now)
      (record { base = e.seq; seen = e.seq ∷ [] })
      (λ p s h. acc p s (ground (arith, lookup-evict_oldest t p s)))
      (admitted_state-Tracks t.cfg e now small)

-- One event of any publisher: no panic, and every publisher still accounts for its view.
pub observe-Accounts :
    (views : Views) (t : Tracker) (e : Event) (now : ℕ)
    → Accounts views t
    → e.seq < max_uint64
    → (r : Tracker × Verdict × Option Gap) × (observe t e now ≡ some r)
      × Accounts (views_after views e r.1) r.0
observe-Accounts views t e now acc small = elim (Option-cases (lookup e.publisher t.pubs)) [
  | inl new_one ↦ (
    (admit t e now, accept_first_seen, none),
    unfold observe in rw (new_one, observe),
    admit-Accounts views t e now acc small,
  )
  | inr (st, known) ↦
      let (v, view_eq, tracks) = acc e.publisher st known in
      let (o, observed, tracks') = observe_known-Observes t.cfg v st e now tracks small in
      (
        (record t { pubs = insert e.publisher o.0 t.pubs }, o.1, o.2),
        unfold observe in rw (known, observe) (rw observed),
        unfold views_after in
            rw view_eq
              (insert-Accounts views t.pubs e.publisher o.0 (view_after v o.1 e.seq) acc tracks'),
      )
]
