-- ===== src/Room/Hub.antt =====
-- The hub of internal/room/hub.go: its sessions and its rooms with their actors. Each function is what
-- one call does while it holds the lock of the hub.
pub mod Types
pub mod Maps
pub mod Sessions
pub mod Selection
pub mod Doors
pub mod Invariant
pub mod Rooms
pub mod Updates
pub mod Answers
pub mod Entrances
pub mod Joining
pub mod Exits
pub mod Listing
pub mod Run
mod Tests
use bomber_cli.Base.{
  ℕ, ◌+◌, leb, ltb, ◌==◌, not, ◌&&◌, is_some, or_panic, if◌then◌else◌, Bool, true, false, Option,
  none, some, List, [], ◌∷◌, length, Result, ok, ◌>>=◌,
}
use bomber_cli.Game.Types.{max_players, Rand}
use bomber_cli.Room.Types.{Snapshot}
use bomber_cli.Room.Rules.{is_waiting}
use bomber_cli.Room.Actor.{Actor}
use bomber_cli.Room.Run.{first_snapshot, first_actor}
use bomber_cli.Room.Names.{unique_player_name}
use bomber_cli.Room.Hub.Types.{
  Session, Entry, Hub, server_stopping, server_is_full, room_limit_reached, room_no_longer_exists,
  Reply, granted, refused, session_names, room_of,
}

-- slices.Sort, as insertion of one identifier after the other.
abbrev pub insert_id : ℕ → List ℕ → List ℕ
insert_id i [] = i ∷ []
insert_id i (j ∷ js) = if leb i j then i ∷ (j ∷ js) else j ∷ insert_id i js

abbrev pub is_joinable : Snapshot → Bool
is_joinable s = is_waiting s.phase && ltb s.count max_players

module _ {r : Rand} where
  -- The counters are uint64 values that are counted up by one for each connection and each room.
  unfoldable pub connect : List ℕ → Hub r → Result (Hub r × Reply Session)
  connect name h =
      if h.stopped
      then ok (h, refused server_stopping)
      else if leb h.max_sessions (length h.sessions)
      then ok (h, refused server_is_full)
      else (do
        unique ← unique_player_name (session_names h) name
        let s : Session = record { id = h.next_session + 1; name = unique; room = none }
        ok (record h { next_session = h.next_session + 1; sessions = s ∷ h.sessions }, granted s))

  unfoldable pub sorted_room_ids : List (Entry r) → List ℕ
  sorted_room_ids [] = []
  sorted_room_ids (e ∷ es) = insert_id e.id (sorted_room_ids es)

  -- The loop of `findRoomToJoin`. A missing room is a nil pointer, which panics.
  unfoldable pub first_joinable : List (Entry r) → List ℕ → Result (Option ℕ)
  first_joinable rooms [] = ok none
  first_joinable rooms (i ∷ is) = do
    e ← or_panic (room_of rooms i)
    elim (is_joinable e.latest) [ true ↦ ok (some i) | false ↦ first_joinable rooms is ]

  unfoldable pub find_room_to_join : ℕ → Hub r → Result (Reply (Option ℕ))
  find_room_to_join id h =
      if not (id == 0)
      then ok (
          if is_some (room_of h.rooms id) then granted (some id) else refused room_no_longer_exists)
      else (do found ← first_joinable h.rooms (sorted_room_ids h.rooms); ok (granted found))

  -- The room starts to run with the seed, which is the time.
  unfoldable pub create_room : ℕ → Hub r → Hub r × Reply (Entry r)
  create_room seed h =
      if leb h.max_rooms (length h.rooms)
      then (h, refused room_limit_reached)
      else (let e : Entry r = record {
        id = h.next_room + 1;
        latest = first_snapshot (h.next_room + 1);
        actor = first_actor (h.next_room + 1) seed;
      } in
          (record h { next_room = h.next_room + 1; rooms = e ∷ h.rooms }, granted e))
