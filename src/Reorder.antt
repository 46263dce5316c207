-- ===== src/Reorder.antt =====
-- pkg/check/reorder.go: the buffer that restores sequence order for each publisher. The map from
-- sequence numbers to held events is the list of those events: each stands under its own number.
pub mod Laws
use driftwatch.Base.{
  ℕ, zero, suc, ◌+◌, Bool, true, false, not, Option, none, some, List, [], ◌∷◌, ◌++◌, ltb, leb,
  ◌==◌, if◌then◌else◌, Str, Dict, lookup, insert, length, add64, ℤ, pos, ◌-ℤ◌, ltb_ℤ,
}
use driftwatch.Event.{Event}

pub record PublisherOrder : Type 0 where
  pub epoch : ℕ
  pub next : ℕ
  pub held : List Event
  pub oldest_at : ℕ
  pub started : Bool

pub record ReorderBuffer : Type 0 where
  pub window : ℤ
  pub max_held : ℕ
  pub pubs : Dict PublisherOrder

-- `0` stands for every limit that is not positive.
unfoldable pub new_reorder_buffer : ℤ → ℕ → ReorderBuffer
new_reorder_buffer window max_held = record {
  window = window;
  max_held = if max_held == 0 then 1024 else max_held;
  pubs = [];
}

unfoldable pub enabled : ReorderBuffer → Bool
enabled r = ltb_ℤ (pos 0) r.window

-- The held event with a number, and what is left without it.
unfoldable pub take_seq : ℕ → List Event → Option (Event × List Event)
take_seq n [] = none
take_seq n (x ∷ xs) =
    let rest = take_seq n xs in
    if x.seq == n then some (x, xs) else elim rest [ none ↦ none | some (y, ys) ↦ some (y, x ∷ ys) ]

-- The loop of releaseConsecutive, on fuel: what stays held, what is next, and what is released.
unfoldable pub release_loop : ℕ → ℕ → List Event → List Event × ℕ × List Event
unfolding take_seq
release_loop zero next held = (held, next, [])
release_loop (suc fuel) next held = elim (take_seq next held) [
  | none ↦ (held, next, [])
  | some (e, rest) ↦
      let (held', next', out) = release_loop fuel (add64 next 1) rest in (held', next', e ∷ out)
]

-- Every round takes an event away.
unfoldable pub release_consecutive : PublisherOrder → PublisherOrder × List Event
unfolding release_loop
release_consecutive pb =
    let (held, next, out) = release_loop (length pb.held) pb.next pb.held in
    (record pb { held = held; next = next }, out)

unfoldable pub insert_event : Event → List Event → List Event
insert_event e [] = e ∷ []
insert_event e (x ∷ xs) =
    let rest = insert_event e xs in if ltb x.seq e.seq then x ∷ rest else e ∷ x ∷ xs

-- sort.Slice on the numbers.
unfoldable pub sort_events : List Event → List Event
unfolding insert_event
sort_events [] = []
sort_events (e ∷ es) = insert_event e (sort_events es)

abbrev last_seq : ℕ → List Event → ℕ
last_seq n [] = n
last_seq n (e ∷ es) = last_seq e.seq es

abbrev is_empty : List Event → Bool
is_empty [] = true
is_empty (e ∷ es) = false

unfoldable pub drain : PublisherOrder → PublisherOrder × List Event
unfolding sort_events
drain pb =
    let out = sort_events pb.held in
    let last = last_seq 0 out in
    if is_empty pb.held
    then (pb, [])
    else (record pb { held = []; next = if leb pb.next last then add64 last 1 else pb.next }, out)

-- hold, once the event is parked.
unfoldable pub settle : ℕ → PublisherOrder → PublisherOrder × List Event
unfolding drain
settle max_held pb = if ltb (length pb.held) max_held then (pb, []) else drain pb

unfoldable pub hold : ℕ → PublisherOrder → Event → ℕ → PublisherOrder × List Event
unfolding settle take_seq
hold max_held pb e now = elim (take_seq e.seq pb.held) [
  | some found ↦ settle max_held pb
  | none ↦
      settle max_held (record pb {
        held = e ∷ pb.held;
        oldest_at = if is_empty pb.held then now else pb.oldest_at;
      })
]

-- The switch of offer.
unfoldable pub offer_to : ℕ → PublisherOrder → Event → ℕ → PublisherOrder × List Event
unfolding release_consecutive hold
offer_to max_held pb e now =
    if not pb.started
    then (record pb { started = true; epoch = e.epoch; next = add64 e.seq 1 }, e ∷ [])
    else if not (e.epoch == pb.epoch)
    then (record ((drain pb).0) { epoch = e.epoch; next = add64 e.seq 1 }, (drain pb).1 ++ (e ∷ []))
    else if ltb e.seq pb.next
    then (pb, e ∷ [])
    else if e.seq == pb.next
    then (let (pb', out) = release_consecutive (record pb { next = add64 pb.next 1 }) in
        (pb', e ∷ out))
    else hold max_held pb e now

abbrev fresh : PublisherOrder
fresh = record { epoch = 0; next = 0; held = []; oldest_at = 0; started = false }

abbrev order_of : Option PublisherOrder → PublisherOrder
order_of none = fresh
order_of (some pb) = pb

unfoldable pub offer : ReorderBuffer → Event → ℕ → ReorderBuffer × List Event
unfolding offer_to enabled
offer r e now =
    if not (enabled r)
    then (r, e ∷ [])
    else let (pb, out) = offer_to r.max_held (order_of (lookup e.publisher r.pubs)) e now in
      (record r { pubs = insert e.publisher pb r.pubs }, out)

-- now.Sub(pb.oldestAt) < r.window
abbrev waits : ℤ → PublisherOrder → ℕ → Bool
waits window pb now = ltb_ℤ (pos now -ℤ pos pb.oldest_at) window

-- The loop of expire over the publishers.
unfoldable pub expire_loop : ℤ → ℕ → Dict PublisherOrder → Dict PublisherOrder × List Event
unfolding drain
expire_loop window now [] = ([], [])
expire_loop window now ((k, pb) ∷ pubs) =
    let (rest, out) = expire_loop window now pubs in
    if is_empty pb.held
    then ((k, pb) ∷ rest, out)
    else if waits window pb now
    then ((k, pb) ∷ rest, out)
    else ((k, (drain pb).0) ∷ rest, (drain pb).1 ++ out)

unfoldable pub expire : ReorderBuffer → ℕ → ReorderBuffer × List Event
unfolding expire_loop enabled
expire r now =
    if not (enabled r)
    then (r, [])
    else let (pubs, out) = expire_loop r.window now r.pubs in (record r { pubs = pubs }, out)

abbrev held_total : Dict PublisherOrder → ℕ
held_total [] = 0
held_total ((k, pb) ∷ pubs) = length pb.held + held_total pubs

unfoldable pub held_count : ReorderBuffer → ℕ
unfolding enabled
held_count r = if not (enabled r) then 0 else held_total r.pubs
