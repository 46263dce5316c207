-- ===== src/Oracle/Suspicion/Laws.antt =====
-- Mass suspicion by a generation floor, against the marking of each key.
use driftwatch.Base.{
  ℕ, ◌+◌, ◌≤◌, ◌<◌, ◌≡◌, refl, ap, ◌∙◌, Bool, true, false, ◌||◌, Option, none, some, Option-cases,
  [], ◌∷◌, if◌then◌else◌, Str, str_eq, str_eq_iff, Dict, lookup, add64, max_uint64, arith, inl, inr,
  Bool-cases,
}
use driftwatch.Event.{TrustState}
use driftwatch.Oracle.Entry.{Entry, Stored, is_suspect, is_complete}
use driftwatch.Oracle.Suspicion.{
  Oracle, effective_trust, read_entry, get, mark_entry, mark_entries, mark_suspect, clear_entry,
  clear_entries, clear_suspect, in_scope, snapshot_of, expired,
}

-- What is kept of the generations: no entry is newer than the current one, nor is the floor.
pub record IsOracle (o : Oracle) : Type 0 where
  pub floor_bound : o.suspect_floor ≤ o.suspect_gen
  pub gen_bound : (k : Str) (e : Stored) → lookup k o.entries ≡ some e → e.gen ≤ o.suspect_gen
  pub room : o.suspect_gen < max_uint64

-- The naive marking of what a reader gets.
abbrev pub doubt : TrustState → TrustState
doubt TrustState.complete = TrustState.suspect
doubt t = t

abbrev pub restore : TrustState → TrustState
restore TrustState.suspect = TrustState.complete
restore t = t

abbrev pub with_trust : (TrustState → TrustState) → Bool → Option Entry → Option Entry
with_trust f hit none = none
with_trust f hit (some e) = some (record e { trust = if hit then f e.trust else e.trust })

abbrev mapped : (Stored → Stored) → Option Stored → Option Stored
mapped f none = none
mapped f (some e) = some (f e)

lookup-mark_entries :
    (hit : Str → Bool) (k : Str) (m : Dict Stored)
    → lookup k (mark_entries hit m) ≡ mapped (mark_entry (hit k)) (lookup k m)
unfolding lookup mark_entries
lookup-mark_entries hit k [] = refl
lookup-mark_entries hit k ((j, x) ∷ m) = elim (Bool-cases (str_eq j k)) [
  | inl here ↦ rw here (ap (λ i. some (mark_entry (hit i) x)) ((str_eq_iff j k).0 here))
  | inr other ↦ rw other (lookup-mark_entries hit k m)
]

lookup-clear_entries :
    (gen : ℕ) (hit : Str → Bool) (k : Str) (m : Dict Stored)
    → lookup k (clear_entries gen hit m) ≡ mapped (clear_entry gen (hit k)) (lookup k m)
unfolding lookup clear_entries
lookup-clear_entries gen hit k [] = refl
lookup-clear_entries gen hit k ((j, x) ∷ m) = elim (Bool-cases (str_eq j k)) [
  | inl here ↦ rw here (ap (λ i. some (clear_entry gen (hit i) x)) ((str_eq_iff j k).0 here))
  | inr other ↦ rw other (lookup-clear_entries gen hit k m)
]

-- Two reads that differ in the trust at most.
abbrev as_trusted : TrustState → Entry → Entry
as_trusted t e = record e { trust = t }

read_raised :
    (gen floor now : ℕ) (e : Stored)
    → e.gen ≤ gen
    → effective_trust e (gen + 1) ≡ doubt (effective_trust e floor)
unfolding effective_trust
read_raised gen floor now e bound = ground arith

read_marked :
    (floor : ℕ) (hit : Bool) (e : Stored)
    → effective_trust (mark_entry hit e) floor
      ≡ (if hit then doubt (effective_trust e floor) else effective_trust e floor)
unfolding effective_trust
read_marked floor hit e = ground arith

read_cleared :
    (gen floor floor' : ℕ) (hit : Bool) (e : Stored)
    → floor' ≤ gen
    → (hit ≡ false → floor' ≡ floor)
    → effective_trust (clear_entry gen hit e) floor'
      ≡ (if hit then restore (effective_trust e floor) else effective_trust e floor)
unfolding effective_trust
read_cleared gen floor floor' true e low same = ground (arith, low)
read_cleared gen floor floor' false e low same = rw (same refl) refl

-- A mark changes nothing but the trust that a reader gets.
read_entry-mark :
    (floor now : ℕ) (hit : Bool) (e : Stored)
    → some (read_entry floor now (mark_entry hit e))
      ≡ with_trust doubt hit (some (read_entry floor now e))
unfolding read_entry snapshot_of expired
read_entry-mark floor now hit e =
    ap (λ t. some (as_trusted t (read_entry floor now e))) (read_marked floor hit e)

read_entry-raise :
    (gen floor now : ℕ) (e : Stored)
    → e.gen ≤ gen
    → some (read_entry (gen + 1) now e) ≡ with_trust doubt true (some (read_entry floor now e))
unfolding read_entry snapshot_of
read_entry-raise gen floor now e bound =
    ap (λ t. some (as_trusted t (read_entry floor now e))) (read_raised gen floor now e bound)

clear_entry-read :
    (gen floor now : ℕ) (hit : Bool) (e : Stored) (t : TrustState)
    → effective_trust (clear_entry gen hit e) floor ≡ t
    → read_entry floor now (clear_entry gen hit e) ≡ as_trusted t (read_entry floor now e)
unfolding read_entry snapshot_of expired
clear_entry-read gen floor now false e t h = ap (λ u. as_trusted u (read_entry floor now e)) h
clear_entry-read gen floor now true e t h =
    elim (Bool-cases (is_suspect e.trust || is_complete e.trust)) [
      | inl moved ↦ rw moved (ap (λ u. as_trusted u (read_entry floor now e)) (rw moved at h))
      | inr kept ↦ rw kept (ap (λ u. as_trusted u (read_entry floor now e)) (rw kept at h))
    ]

read_entry-clear :
    (gen floor floor' now : ℕ) (hit : Bool) (e : Stored)
    → floor' ≤ gen
    → (hit ≡ false → floor' ≡ floor)
    → some (read_entry floor' now (clear_entry gen hit e))
      ≡ with_trust restore hit (some (read_entry floor now e))
unfolding read_entry snapshot_of
read_entry-clear gen floor floor' now hit e low same =
    let t = if hit then restore (effective_trust e floor) else effective_trust e floor in
    ap (λ r. some r)
      (clear_entry-read gen floor' now hit e t (read_cleared gen floor floor' hit e low same))

get_missing :
    (o : Oracle) (key : Str) (now : ℕ) → lookup key o.entries ≡ none → get o key now ≡ none
unfolding get
get_missing o key now gone = rw (gone, get) refl

get_found :
    (o : Oracle) (key : Str) (now : ℕ) (e : Stored)
    → lookup key o.entries ≡ some e
    → get o key now ≡ some (read_entry o.suspect_floor now e)
unfolding get
get_found o key now e there = rw (there, get) refl

-- What MarkSuspect does for the empty pattern.
abbrev raised : Oracle → Oracle
raised o = record o { suspect_gen = o.suspect_gen + 1; suspect_floor = o.suspect_gen + 1 }

mark_suspect-all :
    (matches : Str → Str → Bool) (pattern : Str) (o : Oracle)
    → IsOracle o
    → str_eq pattern [] ≡ true
    → mark_suspect matches pattern o ≡ raised o
unfolding mark_suspect
mark_suspect-all matches pattern o ok_o all =
    let wrap : add64 o.suspect_gen 1 ≡ o.suspect_gen + 1 = omega (arith, ok_o.room) in
    rw (all, mark_suspect) (ap (λ n. record o { suspect_gen = n; suspect_floor = n }) wrap)

mark_suspect-some :
    (matches : Str → Str → Bool) (pattern : Str) (o : Oracle)
    → str_eq pattern [] ≡ false
    → mark_suspect matches pattern o
      ≡ record o { entries = mark_entries (matches pattern) o.entries }
unfolding mark_suspect
mark_suspect-some matches pattern o scoped = rw (scoped, mark_suspect) refl

-- MarkSuspect against the marking of each key. With no entry newer than the current generation, and
-- fewer than 2^64 - 1 generations so far, what a reader gets of any key at any time after MarkSuspect
-- is what it got before, except that a key in the scope of the pattern, which is every key for the
-- empty pattern, is suspect where it was complete: an adopted key stays adopted.
pub get-mark_suspect :
    (matches : Str → Str → Bool) (pattern key : Str) (o : Oracle) (now : ℕ)
    → IsOracle o
    → get (mark_suspect matches pattern o) key now
      ≡ with_trust doubt (in_scope matches pattern key) (get o key now)
get-mark_suspect matches pattern key o now ok_o = elim (Bool-cases (str_eq pattern [])) [
  | inl all ↦
      rw (mark_suspect-all matches pattern o ok_o all, all)
        (elim (Option-cases (lookup key o.entries)) [
          | inl gone ↦ rw (get_missing (raised o) key now gone, get_missing o key now gone) refl
          | inr (e, there) ↦
              rw (get_found (raised o) key now e there, get_found o key now e there)
                (read_entry-raise o.suspect_gen o.suspect_floor now e (ok_o.gen_bound key e there))
        ])
  | inr scoped ↦
      let hit = matches pattern in
      let o' : Oracle = record o { entries = mark_entries hit o.entries } in
      let marked = lookup-mark_entries hit key o.entries in
      rw (mark_suspect-some matches pattern o scoped, scoped)
        (elim (Option-cases (lookup key o.entries)) [
          | inl gone ↦
              rw (get_missing o' key now (marked ∙ rw gone refl), get_missing o key now gone) refl
          | inr (e, there) ↦
              rw
                (
                  get_found o' key now (mark_entry (hit key) e) (marked ∙ rw there refl),
                  get_found o key now e there,
                )
                (read_entry-mark o.suspect_floor now (hit key) e)
        ])
]

-- ClearSuspect against the clearing of each key. With no entry and no floor newer than the current
-- generation, what a reader gets of any key at any time after ClearSuspect is what it got before,
-- except that a key in the scope of the pattern, which is every key for the empty pattern, is complete
-- where it was suspect, for whichever of the two reasons: an adopted key stays adopted.
pub get-clear_suspect :
    (matches : Str → Str → Bool) (pattern key : Str) (o : Oracle) (now : ℕ)
    → IsOracle o
    → get (clear_suspect matches pattern o) key now
      ≡ with_trust restore (in_scope matches pattern key) (get o key now)
unfolding clear_suspect
get-clear_suspect matches pattern key o now ok_o =
    let hit = in_scope matches pattern in
    let o' = clear_suspect matches pattern o in
    let floor' = if str_eq pattern [] then 0 else o.suspect_floor in
    let cleared = lookup-clear_entries o.suspect_gen hit key o.entries in
    let same : hit key ≡ false → floor' ≡ o.suspect_floor = λ h. ground (arith) in
    elim (Option-cases (lookup key o.entries)) [
      | inl gone ↦
          rw (get_missing o' key now (cleared ∙ rw gone refl), get_missing o key now gone) refl
      | inr (e, there) ↦
          rw
            (
              get_found o' key now (clear_entry o.suspect_gen (hit key) e)
                  (cleared ∙ rw there refl),
              get_found o key now e there,
            )
            (read_entry-clear o.suspect_gen o.suspect_floor floor' now (hit key) e
              (ground (arith, ok_o.floor_bound)) same)
    ]
