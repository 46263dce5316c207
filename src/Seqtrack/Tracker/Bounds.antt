-- ===== src/Seqtrack/Tracker/Bounds.antt =====
-- The number of publishers that the tracker holds stays within its limit, and the one that makes
-- room is the least recently seen.
use driftwatch.Base.{
  ℕ, ◌+◌, ◌≤◌, ◌≡◌, refl, Bool, false, ◌&&◌, ◌||◌, Option, none, some, [], ◌∷◌, ltb, leb, ◌==◌,
  add64, arith, inl, inr, Bool-cases, Option-cases, ◌⊎◌, ◌≢◌, subst, sym, ap, Str, str_eq, str_lt,
  str_eq_iff, str_eq_refl, Dict, lookup, insert, delete, length, length-insert_le,
  length-delete_found, length-insert_found, Distinct, insert-Distinct, delete-Distinct,
}
use mathlib.Core.Option.{some-injective}
use driftwatch.Event.{Event}
use driftwatch.Seqtrack.Tracker.{
  Verdict, PublisherState, Tracker, Gap, observe, observe_known, oldest, evict_oldest, admit,
  admitted_state,
}

-- Every publisher has a name, as `validate` demands of each event.
abbrev pub Named : Dict PublisherState → Type 0
Named [] = Unit {0}
Named ((k, st) ∷ m) = (k ≢ []) × Named m

abbrev NoOlder : ℕ → Dict PublisherState → Type 0
NoOlder at [] = Unit {0}
NoOlder at ((k, st) ∷ m) = (at ≤ st.last_seen) × NoOlder at m

NoOlder-weaken : (a b : ℕ) (m : Dict PublisherState) → a ≤ b → NoOlder b m → NoOlder a m
NoOlder-weaken a b [] h n = tt
NoOlder-weaken a b ((k, st) ∷ m) h n = (omega arith, NoOlder-weaken a b m h n.1)

NoOlder-lookup :
    (at : ℕ) (m : Dict PublisherState)
    → NoOlder at m
    → (p : Str) (st : PublisherState) → lookup p m ≡ some st
    → at ≤ st.last_seen
unfolding lookup
NoOlder-lookup at [] n p st h = cc
NoOlder-lookup at ((k, s) ∷ m) n p st h = ground (arith, NoOlder-lookup at m n.1 p st)

-- `r` is a name of the map, and was seen no later than `at` and than any other.
abbrev Picked : Str → ℕ → Dict PublisherState → Type 0
Picked r at m =
    (w : PublisherState) × (lookup r m ≡ some w) × (w.last_seen ≤ at) × NoOlder w.last_seen m

Picked-cons :
    (r k : Str) (a b : ℕ) (st : PublisherState) (m : Dict PublisherState)
    → lookup k m ≡ none
    → a ≤ b
    → a ≤ st.last_seen
    → Picked r a m
    → Picked r b ((k, st) ∷ m)
unfolding lookup
Picked-cons r k a b st m new h1 h2 (w, found, below, least) =
    (w, ground (arith, str_eq_iff k r), omega arith, (omega arith, least))

-- The loop ends at the name it started with or at one of the map, whichever was seen first.
oldest_lem :
    (id : Str) (at : ℕ) (m : Dict PublisherState)
    → id ≢ []
    → Named m
    → Distinct m
    → ((oldest id at m ≡ id) × NoOlder at m) ⊎ Picked (oldest id at m) at m
unfolding oldest
oldest_lem id at [] named ns ds = inl (refl, tt)
oldest_lem id at ((k, st) ∷ m) named ns ds =
    let later : Bool = ltb st.last_seen at || ((st.last_seen == at) && str_lt k id) in
    let named_id : str_eq id [] ≡ false = ground (arith, str_eq_iff id []) in
    rw named_id (elim (Bool-cases later) [
      | inl better ↦ rw better (
          inr (elim (oldest_lem k st.last_seen m ns.0 ns.1 ds.1) [
            | inl (same, least) ↦
                rw same
                  (st, unfold lookup in rw (str_eq_refl k), ground arith, (omega arith, least))
            | inr picked ↦
                Picked-cons _ k st.last_seen at st m ds.0 (ground arith) (omega arith) picked
          ]))
      | inr worse ↦ rw worse (elim (oldest_lem id at m named ns.1 ds.1) [
        | inl (same, least) ↦ inl (same, (ground arith, least))
        | inr picked ↦ inr (Picked-cons _ k at at st m ds.0 (omega arith) (ground arith) picked)
      ])
    ])

-- The loop of evictOldestLocked, from its start.
oldest-Picked :
    (k : Str) (st : PublisherState) (m : Dict PublisherState)
    → Named ((k, st) ∷ m)
    → Distinct ((k, st) ∷ m)
    → Picked (oldest [] 0 ((k, st) ∷ m)) st.last_seen ((k, st) ∷ m)
unfolding oldest
oldest-Picked k st m ns ds = elim (oldest_lem k st.last_seen m ns.0 ns.1 ds.1) [
  | inl (same, least) ↦
      unfold str_eq in
      rw same (st, unfold lookup in rw (str_eq_refl k), omega arith, (omega arith, least))
  | inr picked ↦
      unfold str_eq in
      Picked-cons _ k st.last_seen st.last_seen st m ds.0 (omega arith) (omega arith) picked
]

pub record IsTracker (t : Tracker) : Type 0 where
  pub positive : 1 ≤ t.cfg.max_publishers
  pub named : Named t.pubs
  pub distinct : Distinct t.pubs
  pub limited : length t.pubs ≤ t.cfg.max_publishers

Named-insert :
    (k : Str) (st : PublisherState) (m : Dict PublisherState)
    → k ≢ []
    → Named m
    → Named (insert k st m)
unfolding insert
Named-insert k st [] h n = (h, tt)
Named-insert k st ((j, s) ∷ m) h n = ground (arith, Named-insert k st m h n.1)

Named-delete : (k : Str) (m : Dict PublisherState) → Named m → Named (delete k m)
unfolding delete
Named-delete k [] n = tt
Named-delete k ((j, s) ∷ m) n = ground (arith, Named-delete k m n.1)

Named-lookup :
    (k : Str) (st : PublisherState) (m : Dict PublisherState)
    → Named m
    → lookup k m ≡ some st
    → str_eq k [] ≡ false
unfolding lookup
Named-lookup k st [] n h = cc
Named-lookup k st ((j, s) ∷ m) n h =
    ground (arith, Named-lookup k st m n.1, str_eq_iff j k, str_eq_iff k [], str_eq_iff j [])

-- A valid tracker that holds a publisher evicts one that it holds, seen no later than any other that
-- it holds, and counts the eviction.
pub evict_oldest-least :
    (t : Tracker)
    → IsTracker t
    → 1 ≤ length t.pubs
    → (id : Str) × (w : PublisherState) × (lookup id t.pubs ≡ some w)
      × ((p : Str) (st : PublisherState) → lookup p t.pubs ≡ some st → w.last_seen ≤ st.last_seen)
      × (evict_oldest t ≡ record t { pubs = delete id t.pubs; evictions = add64 t.evictions 1 })
unfolding evict_oldest
evict_oldest-least t v h = from_pubs t.pubs refl
  where
    from_pubs :
        (m : Dict PublisherState)
        → t.pubs ≡ m
        → (id : Str) × (w : PublisherState) × (lookup id t.pubs ≡ some w)
          × ((p : Str) (st : PublisherState)
              → lookup p t.pubs ≡ some st
              → w.last_seen ≤ st.last_seen)
          × (evict_oldest t ≡ record t { pubs = delete id t.pubs; evictions = add64 t.evictions 1 })
    from_pubs [] e = absurd (omega (arith, ap (λ (m : Dict PublisherState). length m) e))
    from_pubs ((k, st) ∷ m) e =
        let picked : (w : PublisherState) × (lookup (oldest [] 0 t.pubs) t.pubs ≡ some w)
            × (w.last_seen ≤ st.last_seen)
            × NoOlder w.last_seen t.pubs =
          subst (λ (x : Dict PublisherState). Picked (oldest [] 0 x) st.last_seen x) (sym e)
            (oldest-Picked k st m (subst Named e v.named)
              (subst (λ (x : Dict PublisherState). Distinct x) e v.distinct)) in
        let (w, found, below, least) = picked in
        (
          oldest [] 0 t.pubs,
          w,
          found,
          NoOlder-lookup w.last_seen t.pubs least,
          rw (Named-lookup (oldest [] 0 t.pubs) w t.pubs v.named found),
        )

-- What `admit` writes the new publisher into.
abbrev Room : Tracker → Dict PublisherState → Type 0
Room t m = Named m × Distinct m × (length m + 1 ≤ t.cfg.max_publishers)

evict_oldest-Room :
    (t : Tracker)
    → IsTracker t
    → 1 ≤ length t.pubs
    → Room t (evict_oldest t).pubs × ((evict_oldest t).cfg ≡ t.cfg)
evict_oldest-Room t v h =
    let (id, w, found, least, e) = evict_oldest-least t v h in
    rw e (
      (
        Named-delete id t.pubs v.named,
        delete-Distinct id t.pubs v.distinct,
        omega (arith, length-delete_found id w t.pubs found, v.limited),
      ),
      refl,
    )

insert-IsTracker :
    (t : Tracker) (m : Dict PublisherState) (k : Str) (st : PublisherState) (n : ℕ)
    → 1 ≤ t.cfg.max_publishers
    → Room t m
    → k ≢ []
    → IsTracker (record t { pubs = insert k st m; evictions = n })
insert-IsTracker t m k st n p room named = record {
  positive = p;
  named = Named-insert k st m named room.0;
  distinct = insert-Distinct k st m room.1;
  limited = omega (arith, length-insert_le k st m, room.2);
}

admit-IsTracker :
    (t : Tracker) (e : Event) (now : ℕ) → IsTracker t → e.publisher ≢ [] → IsTracker (admit t e now)
unfolding admit
admit-IsTracker t e now v named = elim (Bool-cases (leb t.cfg.max_publishers (length t.pubs))) [
  | inr free ↦ rw free (
      insert-IsTracker t t.pubs e.publisher (admitted_state t.cfg e now) t.evictions v.positive
        (v.named, v.distinct, ground arith) named)
  | inl full ↦
      let (room, same) = evict_oldest-Room t v (ground (arith, v.positive)) in
      rw full (
        insert-IsTracker (evict_oldest t) (evict_oldest t).pubs e.publisher
          (admitted_state t.cfg e now) (evict_oldest t).evictions (rw same v.positive)
          (room.0, room.1, rw same room.2) named)
]

some-fst :
    (t : Tracker) (rest : Verdict × Option Gap) (r : Tracker × Verdict × Option Gap)
    → ◌≡◌ {A = Option (Tracker × Verdict × Option Gap)} (some (t, rest.0, rest.1)) (some r)
    → t ≡ r.0
some-fst t rest r h = ap (λ (x : Tracker × Verdict × Option Gap). x.0) (some-injective _ _ h)

-- An event of a named publisher leaves a valid tracker valid: the publishers are distinct and named,
-- and no more than the limit, which is at least one.
pub observe-IsTracker :
    (t : Tracker) (e : Event) (now : ℕ) (r : Tracker × Verdict × Option Gap)
    → IsTracker t
    → e.publisher ≢ []
    → observe t e now ≡ some r
    → IsTracker r.0
unfolding observe
observe-IsTracker t e now r v named h = elim (Option-cases (lookup e.publisher t.pubs)) [
  | inl new_one ↦
      let same : admit t e now ≡ r.0 = some-fst (admit t e now) _ r (rw (new_one, observe) at h) in
      subst IsTracker same (admit-IsTracker t e now v named)
  | inr (st, known) ↦ elim (Option-cases (observe_known t.cfg st e now)) [
    | inl panic ↦
        let impossible : ◌≡◌ {A = Option (Tracker × Verdict × Option Gap)} none (some r) =
          rw panic at (rw (known, observe) at h) in
        cc
    | inr (o, fine) ↦
        let t' = record t { pubs = insert e.publisher o.0 t.pubs } in
        let same : t' ≡ r.0 = some-fst t' _ r (rw fine at (rw (known, observe) at h)) in
        subst IsTracker same (record {
          positive = v.positive;
          named = Named-insert e.publisher o.0 t.pubs named v.named;
          distinct = insert-Distinct e.publisher o.0 t.pubs v.distinct;
          limited = omega (arith, length-insert_found e.publisher o.0 st t.pubs known, v.limited);
        })
  ]
]
