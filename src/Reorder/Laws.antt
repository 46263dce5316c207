-- ===== src/Reorder/Laws.antt =====
-- What the reorder buffer releases and what it keeps.
use driftwatch.Base.{
  ℕ, zero, suc, ◌+◌, ◌≤◌, ◌<◌, ◌≡◌, refl, sym, subst, inl, inr, ltb, ◌==◌, if◌then◌else◌, List, [],
  ◌∷◌, ◌++◌, Option, none, some, Option-cases, length, Bool, true, false, arith, Bool-cases, add64,
}
use driftwatch.Event.{Event}
use driftwatch.Reorder.{
  PublisherOrder, take_seq, release_loop, release_consecutive, insert_event, sort_events, drain,
  settle, hold, offer_to, is_empty,
}

-- How many events of a list pass a test.
abbrev pub count_of : (Event → Bool) → List Event → ℕ
count_of p [] = 0
count_of p (e ∷ es) = (if p e then 1 else 0) + count_of p es

count_of-append :
    (p : Event → Bool) (xs ys : List Event) → count_of p (xs ++ ys) ≡ count_of p xs + count_of p ys
count_of-append p [] ys = omega arith
count_of-append p (x ∷ xs) ys = omega (arith, count_of-append p xs ys)

abbrev one : (Event → Bool) → Event → ℕ
one p e = if p e then 1 else 0

-- What is left and what was taken together are what was there.
abbrev Taken : (Event → Bool) → ℕ → List Event → Option (Event × List Event) → Type 0
Taken p n xs none = Unit {0}
Taken p n xs (some (e, rest)) =
    (count_of p xs ≡ one p e + count_of p rest) × (length xs ≡ suc (length rest)) × (e.seq ≡ n)

take_seq-Taken : (p : Event → Bool) (n : ℕ) (xs : List Event) → Taken p n xs (take_seq n xs)
unfolding take_seq
take_seq-Taken p n [] = tt
take_seq-Taken p n (x ∷ xs) = elim (Bool-cases (x.seq == n)) [
  | inl here ↦ rw here (refl, refl, ground arith)
  | inr other ↦ elim (Option-cases (take_seq n xs)) [
    | inl gone ↦ rw (other, gone) tt
    | inr ((e, rest), found) ↦
        let (counts, size, same) = subst (Taken p n xs) found (take_seq-Taken p n xs) in
        rw (other, found) (omega (arith, counts), omega (arith, size), same)
  ]
]

-- The events of a list carry consecutive numbers from `n` on, with uint64's wrap-around.
abbrev pub Consecutive : ℕ → List Event → Type 0
Consecutive n [] = Unit {0}
Consecutive n (e ∷ es) = (e.seq ≡ n) × Consecutive (add64 n 1) es

-- What a loop with enough fuel does: it releases consecutive events, keeps all others, and stops only
-- where the next one is not held.
abbrev Releases : ℕ → List Event → List Event × ℕ × List Event → Type 0
Releases n xs r =
    Consecutive n r.2
    × (take_seq r.1 r.0 ≡ none)
    × ((p : Event → Bool) → count_of p xs ≡ count_of p r.2 + count_of p r.0)
    × (length r.0 ≤ length xs)

release_loop-Releases :
    (fuel n : ℕ) (xs : List Event) → length xs ≤ fuel → Releases n xs (release_loop fuel n xs)
unfolding release_loop
release_loop-Releases zero n [] enough =
    (tt, unfold take_seq in refl, λ p. omega arith, omega arith)
release_loop-Releases zero n (x ∷ xs) enough = absurd (omega arith)
release_loop-Releases (suc fuel) n xs enough = elim (Option-cases (take_seq n xs)) [
  | inl gone ↦ rw (gone, release_loop) (tt, gone, λ p. omega arith, omega arith)
  | inr ((e, rest), found) ↦
      let taken : (p : Event → Bool) → Taken p n xs (some (e, rest)) =
        λ p. subst (Taken p n xs) found (take_seq-Taken p n xs) in
      let (counts, size, same) = taken (λ x. true) in
      let (next, stop, all, fewer) =
        release_loop-Releases fuel (add64 n 1) rest (omega (arith, size)) in
      rw (found, release_loop)
        ((same, next), stop, λ p. omega (arith, all p, (taken p).0), omega (arith, size, fewer))
]

insert_event-count :
    (p : Event → Bool) (e : Event) (xs : List Event)
    → (count_of p (insert_event e xs) ≡ (if p e then 1 else 0) + count_of p xs)
      × (length (insert_event e xs) ≡ suc (length xs))
unfolding insert_event
insert_event-count p e [] = (omega arith, refl)
insert_event-count p e (x ∷ xs) = ground (arith, insert_event-count p e xs)

sort_events-count :
    (p : Event → Bool) (xs : List Event) → count_of p (sort_events xs) ≡ count_of p xs
unfolding sort_events
sort_events-count p [] = refl
sort_events-count p (x ∷ xs) =
    omega (arith, insert_event-count p x (sort_events xs), sort_events-count p xs)

-- What a call returns holds every event that was held or offered, and no other.
abbrev pub Conserves : List Event → PublisherOrder × List Event → Type 0
Conserves events r =
    (p : Event → Bool) → count_of p events ≡ count_of p r.1 + count_of p ((r.0).held)

drain-Conserves : (pb : PublisherOrder) → Conserves pb.held (drain pb)
unfolding drain
drain-Conserves pb p = ground (arith, sort_events-count p pb.held)

settle-Conserves : (limit : ℕ) (pb : PublisherOrder) → Conserves pb.held (settle limit pb)
unfolding settle
settle-Conserves limit pb p = ground (arith, drain-Conserves pb p)

length-drain : (pb : PublisherOrder) → length ((drain pb).0).held ≡ 0
unfolding drain
length-drain pb = ground arith

abbrev parked : PublisherOrder → Event → ℕ → PublisherOrder
parked pb e now = record pb {
  held = e ∷ pb.held;
  oldest_at = if is_empty pb.held then now else pb.oldest_at;
}

hold_new :
    (limit : ℕ) (pb : PublisherOrder) (e : Event) (now : ℕ)
    → take_seq e.seq pb.held ≡ none
    → hold limit pb e now ≡ settle limit (parked pb e now)
unfolding hold
hold_new limit pb e now new = rw (new, hold) refl

hold_old :
    (limit : ℕ) (pb : PublisherOrder) (e : Event) (now : ℕ) (found : Event × List Event)
    → take_seq e.seq pb.held ≡ some found
    → hold limit pb e now ≡ settle limit pb
unfolding hold
hold_old limit pb e now found old = rw (old, hold) refl

hold-Conserves :
    (limit : ℕ) (pb : PublisherOrder) (e : Event) (now : ℕ)
    → take_seq e.seq pb.held ≡ none
    → Conserves (e ∷ pb.held) (hold limit pb e now)
hold-Conserves limit pb e now new =
    subst (Conserves (e ∷ pb.held)) (sym (hold_new limit pb e now new))
      (settle-Conserves limit (parked pb e now))

released-Conserves :
    (pb : PublisherOrder) (e : Event)
    → Conserves (e ∷ pb.held) ((release_consecutive pb).0, e ∷ (release_consecutive pb).1)
unfolding release_consecutive
released-Conserves pb e p =
    let (next, stop, all, fewer) =
      release_loop-Releases (length pb.held) pb.next pb.held (omega arith) in
    omega (arith, all p)

-- No event is lost, doubled or made up: unless an event with the number of the offered one is held
-- already, what a call releases and what it holds then are, each with its number of copies, what was
-- held before and the offered event.
pub offer_to-Conserves :
    (limit : ℕ) (pb : PublisherOrder) (e : Event) (now : ℕ)
    → take_seq e.seq pb.held ≡ none
    → Conserves (e ∷ pb.held) (offer_to limit pb e now)
unfolding offer_to
offer_to-Conserves limit pb e now new p = ground (
  arith,
  hold-Conserves limit pb e now new p,
  released-Conserves (record pb { next = add64 pb.next 1 }) e p,
  drain-Conserves pb p,
  count_of-append p ((drain pb).1) (e ∷ []),
)

settle-held :
    (limit : ℕ) (pb : PublisherOrder) → 1 ≤ limit → length ((settle limit pb).0).held < limit
unfolding settle
settle-held limit pb some_room = ground (arith, length-drain pb)

hold-bounded :
    (limit : ℕ) (pb : PublisherOrder) (e : Event) (now : ℕ)
    → 1 ≤ limit
    → length ((hold limit pb e now).0).held < limit
hold-bounded limit pb e now some_room = elim (Option-cases (take_seq e.seq pb.held)) [
  | inl new ↦ rw (hold_new limit pb e now new) (settle-held limit (parked pb e now) some_room)
  | inr (found, old) ↦ rw (hold_old limit pb e now found old) (settle-held limit pb some_room)
]

length-release : (pb : PublisherOrder) → length ((release_consecutive pb).0).held ≤ length pb.held
unfolding release_consecutive
length-release pb =
    let (next, stop, all, fewer) =
      release_loop-Releases (length pb.held) pb.next pb.held (omega arith) in
    fewer

-- The buffer is bounded: with a limit of at least one, a publisher with fewer held events than the
-- limit has fewer after any call, on every branch.
pub offer_to-bounded :
    (limit : ℕ) (pb : PublisherOrder) (e : Event) (now : ℕ)
    → 1 ≤ limit
    → length pb.held < limit
    → length ((offer_to limit pb e now).0).held < limit
unfolding offer_to
offer_to-bounded limit pb e now some_room few = ground (
  arith,
  hold-bounded limit pb e now some_room,
  length-release (record pb { next = add64 pb.next 1 }),
  length-drain pb,
)

-- The number after those of a list of consecutive events that starts at `n`.
abbrev pub number_after : ℕ → List Event → ℕ
number_after n [] = n
number_after n (e ∷ es) = number_after (add64 n 1) es

release_loop-next :
    (fuel n : ℕ) (xs : List Event)
    → (release_loop fuel n xs).1 ≡ number_after n (release_loop fuel n xs).2
unfolding release_loop
release_loop-next zero n xs = refl
release_loop-next (suc fuel) n xs = elim (Option-cases (take_seq n xs)) [
  | inl gone ↦ rw (gone, release_loop) refl
  | inr ((e, rest), found) ↦ rw (found, release_loop) (release_loop-next fuel (add64 n 1) rest)
]

-- What a call does that releases `e` and what follows it: `e` comes first, then the consecutive ones
-- as far as they are held, and the rest stays held.
pub record ReleasesRun (e : Event) (held : List Event) (r : PublisherOrder × List Event)
    : Type 0 where
  pub followers : List Event
  pub first : r.1 ≡ e ∷ followers
  pub consecutive : Consecutive e.seq r.1
  pub reached : (r.0).next ≡ number_after e.seq r.1
  pub all_of_them : take_seq (r.0).next (r.0).held ≡ none
  pub conserved : Conserves (e ∷ held) r

-- An event that is next in its publisher's stream, of the epoch of the stream, is released at once,
-- and with it every held event that follows: it comes first, the numbers of what is released are
-- consecutive, with uint64's wrap-around, the number after them is the next one, which is not held,
-- and what is released and what stays held are together, each with its number of copies, the event
-- and what was held.
pub offer_to-Consecutive :
    (limit : ℕ) (pb : PublisherOrder) (e : Event) (now : ℕ)
    → pb.started ≡ true
    → e.epoch ≡ pb.epoch
    → e.seq ≡ pb.next
    → ReleasesRun e pb.held (offer_to limit pb e now)
unfolding offer_to release_consecutive
offer_to-Consecutive limit pb e now started same_epoch same =
    let known : (e.epoch == pb.epoch) ≡ true = ground arith in
    let late : ltb e.seq pb.next ≡ false = ground arith in
    let here : (e.seq == pb.next) ≡ true = ground arith in
    let (next, stop, all, fewer) =
      release_loop-Releases (length pb.held) (add64 pb.next 1) pb.held (omega arith) in
    let after = release_loop-next (length pb.held) (add64 pb.next 1) pb.held in
    rw (started, known, late, here)
      record {
        followers = (release_loop (length pb.held) (add64 pb.next 1) pb.held).2;
        first = refl;
        consecutive = (refl, rw same next);
        reached = rw same after;
        all_of_them = stop;
        conserved = λ p. omega (arith, all p);
      }
