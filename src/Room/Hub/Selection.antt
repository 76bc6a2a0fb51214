-- ===== src/Room/Hub/Selection.antt =====
-- `findRoomToJoin` of internal/room/hub.go, for a member who asks for any room.
use bomber_cli.Base.{
  ℕ, ◌≡◌, ◌≢◌, refl, arith, inl, inr, leb, true, false, Option, none, some, List, [], ◌∷◌, All,
  AllPairs, All-map, All-both, Bool-cases, ◌>>=◌, Returns, Returns-ok, Returns-bind, Returns-map,
}
use bomber_cli.Game.Types.{Rand}
use bomber_cli.Room.Hub.{insert_id, sorted_room_ids, is_joinable, first_joinable, find_room_to_join}
use bomber_cli.Room.Hub.Types.{Entry, Hub, granted, room_of}
use bomber_cli.Room.Hub.Invariant.{EntriesApart, IsOrderly}

pub insert_id-All : (P : ℕ → Type 0) (i : ℕ) (is : List ℕ) → P i → All P is → All P (insert_id i is)
insert_id-All P i [] p h = (p, tt)
insert_id-All P i (k ∷ is) p h = elim (Bool-cases (leb i k)) [
  | inl e ↦ rw e (p, h)
  | inr e ↦ rw e (h.0, insert_id-All P i is p h.1)
]

insert_id-out : (P : ℕ → Type 0) (i : ℕ) (is : List ℕ) → All P (insert_id i is) → P i × All P is
insert_id-out P i [] h = h
insert_id-out P i (k ∷ is) h = elim (Bool-cases (leb i k)) [
  | inl e ↦ (rw e at h)
  | inr e ↦
      let h' : P k × All P (insert_id i is) = (rw e at h) in
      let (p, rest) = insert_id-out P i is h'.1 in (p, (h'.0, rest))
]

module _ {r : Rand} where
  -- The identifier of a room that can be joined, or none if there is no such room.
  pub data Found (rooms : List (Entry r)) : Option ℕ → Type 0 where
    chosen :
        (i : ℕ) (e : Entry r)
        → room_of rooms i ≡ some e
        → is_joinable e.latest ≡ true
        → Found rooms (some i)
    nowhere : All (λ e. is_joinable e.latest ≡ false) rooms → Found rooms none

  -- The entries whose identifiers are in the list.
  abbrev Listed : List (Entry r) → List ℕ → Type 0
  Listed rooms is = All (λ i. (e : Entry r) × (room_of rooms i ≡ some e)) is

  -- The sorted identifiers are those of the rooms.
  pub sorted_room_ids-All :
      (P : ℕ → Type 0) (es : List (Entry r)) → All (λ e. P e.id) es → All P (sorted_room_ids es)
  unfolding sorted_room_ids
  sorted_room_ids-All P [] h = tt
  sorted_room_ids-All P (e ∷ es) h =
      insert_id-All P e.id (sorted_room_ids es) h.0 (sorted_room_ids-All P es h.1)

  pub sorted_room_ids-out :
      (P : ℕ → Type 0) (es : List (Entry r)) → All P (sorted_room_ids es) → All (λ e. P e.id) es
  unfolding sorted_room_ids
  sorted_room_ids-out P [] h = tt
  sorted_room_ids-out P (e ∷ es) h =
      let (p, rest) = insert_id-out P e.id (sorted_room_ids es) h in
      (p, sorted_room_ids-out P es rest)

  pub room_of-at :
      (es : List (Entry r)) → AllPairs EntriesApart es → All (λ e. room_of es e.id ≡ some e) es
  room_of-at [] h = tt
  room_of-at (e ∷ es) h = (
    ground arith,
    All-map (λ d. (e.id ≢ d.id) × (room_of es d.id ≡ some d)) _ es (λ d (n, at). ground arith)
        (All-both (λ d. e.id ≢ d.id) (λ d. room_of es d.id ≡ some d) es h.0 (room_of-at es h.1)),
  )

  module _ (rooms : List (Entry r)) where
    abbrev Shut : ℕ → Type 0
    Shut i = (e : Entry r) → room_of rooms i ≡ some e → is_joinable e.latest ≡ false

    abbrev Picked : List ℕ → Option ℕ → Type 0
    Picked is (some i) = (e : Entry r) × (room_of rooms i ≡ some e) × (is_joinable e.latest ≡ true)
    Picked is none = All Shut is

    first_joinable-Picked :
        (is : List ℕ) → Listed rooms is → Returns (Picked is) (first_joinable rooms is)
    unfolding first_joinable
    first_joinable-Picked [] h = Returns-ok none tt
    first_joinable-Picked (i ∷ is) h =
        let (s, at) = h.0 in
        elim (Bool-cases (is_joinable s.latest)) [
          | inl e ↦ rw (at, first_joinable) rw (e, ◌>>=◌) (Returns-ok (some i) (s, at, e))
          | inr e ↦
              rw (at, first_joinable) rw (e, ◌>>=◌)
                (Returns-map (Picked is) (Picked (i ∷ is))
                  (λ o x. later o x (λ t at'. ground (arith, at, at', e)))
                  (first_joinable-Picked is h.1))
        ]
      where
        later : (o : Option ℕ) → Picked is o → Shut i → Picked (i ∷ is) o
        later none x shut = (shut, x)
        later (some j) x shut = x

  -- In an orderly hub, a request for any room does not panic: it finds a room that waits for members and
  -- has a free seat, or none, and then no room of the hub is such.
  pub find_room_to_join-Found :
      (h : Hub r)
      → IsOrderly h
      → Returns (λ a. (o : Option ℕ) × (a ≡ granted o) × Found h.rooms o) (find_room_to_join 0 h)
  unfolding find_room_to_join
  find_room_to_join-Found h orderly =
      let rooms = h.rooms in
      let at = room_of-at rooms orderly.rooms_apart in
      let listed =
        sorted_room_ids-All (λ i. (e : Entry r) × (room_of rooms i ≡ some e)) rooms
          (All-map (λ e. room_of rooms e.id ≡ some e) _ rooms (λ e x. (e, x)) at) in
      Returns-bind (Picked rooms (sorted_room_ids rooms)) _ _
        (first_joinable-Picked rooms (sorted_room_ids rooms) listed)
        λ o x. Returns-ok (granted o) (o, refl, found at o x)
    where
      found :
          All (λ e. room_of h.rooms e.id ≡ some e) h.rooms
          → (o : Option ℕ) → Picked h.rooms (sorted_room_ids h.rooms) o
          → Found h.rooms o
      found at (some i) (s, here, free) = chosen i s here free
      found at none x = nowhere (
          All-map (λ e. Shut h.rooms e.id × (room_of h.rooms e.id ≡ some e)) _ h.rooms
            (λ e (shut, here). shut e here)
            (All-both _ _ h.rooms (sorted_room_ids-out (Shut h.rooms) h.rooms x) at))
