-- ===== src/Room/Hub/Types.antt =====
-- The state of the hub. The context of the hub and the cancel functions of the rooms are the flag
-- `stopped` and the list of rooms that run.
use bomber_cli.Base.{
  ℕ, ◌==◌, not, if◌then◌else◌, Bool, false, Option, none, some, List, [], ◌∷◌, map, keep,
}
use bomber_cli.Game.Types.{Rand}
use bomber_cli.Room.Types.{Snapshot}
use bomber_cli.Room.Actor.{Actor}
use bomber_cli.Room.Names.{Name}

-- `room` is the identifier of the room, if there is one. The channel of a session is named by the
-- identifier of the session.
pub record Session : Type 0 where
  pub id : ℕ
  pub name : Name
  pub room : Option ℕ

-- An entry of the map of rooms: its key, the snapshot that its room published last, and the actor that
-- runs for it.
pub record Entry (r : Rand) : Type 0 where
  pub id : ℕ
  pub latest : Snapshot
  pub actor : Actor r ℕ

-- `stopped` says that the context of the hub is done. The maps are lists of their values.
pub record Hub (r : Rand) : Type 0 where
  pub stopped : Bool
  pub sessions : List Session
  pub rooms : List (Entry r)
  pub next_session : ℕ
  pub next_room : ℕ
  pub max_sessions : ℕ
  pub max_rooms : ℕ

pub data HubError : Type 0 where
  server_stopping server_is_full room_limit_reached room_no_longer_exists session_closed : HubError
  leave_first round_is_on room_has_no_seat : HubError

pub data Reply (A : Type 0) : Type 0 where
  granted : A → Reply A
  refused : HubError → Reply A

-- h.sessions[id]
abbrev pub find_session : List Session → ℕ → Option Session
find_session [] id = none
find_session (s ∷ ss) id = if s.id == id then some s else find_session ss id

-- s.room = room, for the session of the identifier
abbrev pub moved_to : ℕ → Option ℕ → Session → Session
moved_to id room s = if s.id == id then record s { room = room } else s

abbrev pub assign : ℕ → Option ℕ → List Session → List Session
assign id room ss = map (moved_to id room) ss

-- delete(h.sessions, id)
abbrev pub drop_session : ℕ → List Session → List Session
drop_session id ss = keep (λ s. not (s.id == id)) ss

module _ {r : Rand} where
  abbrev pub new_hub : ℕ → ℕ → Hub r
  new_hub max_sessions max_rooms = record {
    stopped = false;
    sessions = [];
    rooms = [];
    next_session = 0;
    next_room = 0;
    max_sessions = max_sessions;
    max_rooms = max_rooms;
  }

  abbrev pub session_names : Hub r → List Name
  session_names h = map (λ s. s.name) h.sessions

  -- h.rooms[id]
  abbrev pub room_of : List (Entry r) → ℕ → Option (Entry r)
  room_of [] id = none
  room_of (e ∷ es) id = if e.id == id then some e else room_of es id

  -- What the room of an entry has become.
  abbrev pub replaced : Entry r → Entry r → Entry r
  replaced e d = if d.id == e.id then e else d

  abbrev pub put_room : Entry r → List (Entry r) → List (Entry r)
  put_room e es = map (replaced e) es

  -- delete(h.rooms, id)
  abbrev pub delete_room : ℕ → List (Entry r) → List (Entry r)
  delete_room id es = keep (λ e. not (e.id == id)) es
