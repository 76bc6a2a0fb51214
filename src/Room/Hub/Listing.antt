-- ===== src/Room/Hub/Listing.antt =====
-- `List` of internal/room/hub.go.
use bomber_cli.Base.{
  ◌<◌, ◌≢◌, ◌∈◌, Returns-map, ℕ, suc, ap, ◌≤◌, ◌≡◌, refl, arith, inl, inr, leb, some, List, [], ◌∷◌,
  length, All, All-map, AllPairs, Bool-cases, Returns, Returns-ok, Returns-bind,
}
use bomber_cli.Game.Types.{Rand}
use bomber_cli.Room.Types.{Snapshot}
use bomber_cli.Room.Hub.{insert_id, sorted_room_ids}
use bomber_cli.Room.Hub.Types.{Entry, Hub, room_of}
use bomber_cli.Room.Hub.Doors.{latest_of, list}
use bomber_cli.Room.Hub.Invariant.{EntriesApart, IsOrderly}
use bomber_cli.Room.Hub.Selection.{
  insert_id-All, sorted_room_ids-All, sorted_room_ids-out, room_of-at,
}

pub insert_id-sorted :
    (i : ℕ) (is : List ℕ) → AllPairs (λ j k. j ≤ k) is → AllPairs (λ j k. j ≤ k) (insert_id i is)
insert_id-sorted i [] h = (tt, tt)
insert_id-sorted i (k ∷ is) h = elim (Bool-cases (leb i k)) [
  | inl e ↦
      let low : i ≤ k = ground (arith, e) in
      rw e ((low, All-map (λ j. k ≤ j) _ is (λ j p. omega (arith, p, low)) h.0), h)
  | inr e ↦
      rw e (insert_id-All (λ j. k ≤ j) i is (ground (arith, e)) h.0, insert_id-sorted i is h.1)
]

pub length-insert_id : (i : ℕ) (is : List ℕ) → length (insert_id i is) ≡ suc (length is)
length-insert_id i [] = refl
length-insert_id i (k ∷ is) = elim (Bool-cases (leb i k)) [
  | inl e ↦ rw e refl
  | inr e ↦ rw e (ap suc (length-insert_id i is))
]

insert_id-ascending :
    (i : ℕ) (is : List ℕ)
    → All (λ k. i ≢ k) is
    → AllPairs (λ j k. j < k) is
    → AllPairs (λ j k. j < k) (insert_id i is)
insert_id-ascending i [] new h = (tt, tt)
insert_id-ascending i (k ∷ is) new h = elim (Bool-cases (leb i k)) [
  | inl e ↦
      let low : i < k = ground (arith, e, new.0) in
      rw e ((low, All-map (λ j. k < j) _ is (λ j p. omega (arith, p, low)) h.0), h)
  | inr e ↦
      rw e (
        insert_id-All (λ j. k < j) i is (ground (arith, e)) h.0,
        insert_id-ascending i is new.1 h.1,
      )
]

All-self : (is : List ℕ) → All (λ i. i ∈ is) is
All-self [] = tt
All-self (i ∷ is) = (inl refl, All-map (λ k. k ∈ is) _ is (λ k m. inr m) (All-self is))

module _ {r : Rand} where
  sorted_room_ids-ascending :
      (es : List (Entry r))
      → AllPairs EntriesApart es
      → AllPairs (λ j k. j < k) (sorted_room_ids es)
  unfolding sorted_room_ids
  sorted_room_ids-ascending [] h = tt
  sorted_room_ids-ascending (e ∷ es) h =
      insert_id-ascending e.id (sorted_room_ids es) (sorted_room_ids-All (λ k. e.id ≢ k) es h.0)
        (sorted_room_ids-ascending es h.1)

  -- One snapshot for each identifier, the last one of its room.
  pub data Latest (rooms : List (Entry r)) : List ℕ → List Snapshot → Type 0 where
    no_more : Latest rooms [] []
    shown :
        (i : ℕ) (is : List ℕ) (e : Entry r) (out : List Snapshot)
        → room_of rooms i ≡ some e
        → Latest rooms is out
        → Latest rooms (i ∷ is) (e.latest ∷ out)

  latest_of-Latest :
      (rooms : List (Entry r)) (is : List ℕ)
      → All (λ i. (e : Entry r) × (room_of rooms i ≡ some e)) is
      → Returns (Latest rooms is) (latest_of rooms is)
  unfolding latest_of
  latest_of-Latest rooms [] h = Returns-ok _ no_more
  latest_of-Latest rooms (i ∷ is) h =
      let (e, at) = h.0 in
      rw (at, latest_of)
        (Returns-bind (Latest rooms is) (Latest rooms (i ∷ is)) _ (latest_of-Latest rooms is h.1)
          λ out x. Returns-ok _ (shown i is e out at x))

  -- In an orderly hub, the list of rooms returns: the last snapshot of one room after the other, of every
  -- room once, with ascending identifiers.
  pub list-Latest :
      (h : Hub r)
      → IsOrderly h
      → Returns
          (λ out.
            (ids : List ℕ) × (Latest h.rooms ids out)
            × (AllPairs (λ i j. i < j) ids)
            × (All (λ e. e.id ∈ ids) h.rooms))
          (list h)
  unfolding list
  list-Latest h o =
      let ids = sorted_room_ids h.rooms in
      let known =
        sorted_room_ids-All (λ i. (e : Entry r) × (room_of h.rooms i ≡ some e)) h.rooms
          (All-map (λ e. room_of h.rooms e.id ≡ some e) _ h.rooms (λ e x. (e, x))
            (room_of-at h.rooms o.rooms_apart)) in
      Returns-map (Latest h.rooms ids) _
        (λ out latest. (
          ids,
          latest,
          sorted_room_ids-ascending h.rooms o.rooms_apart,
          sorted_room_ids-out (λ i. i ∈ ids) h.rooms (All-self ids),
        ))
        (latest_of-Latest h.rooms ids known)
