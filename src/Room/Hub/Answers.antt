-- ===== src/Room/Hub/Answers.antt =====
-- What `Join` of internal/room/hub.go answers, and when: the room that a request gets at, and the errors
-- of the hub and of the room.
use bomber_cli.Base.{
  ℕ, ◌+◌, ◌<◌, ◌≡◌, ◌≢◌, ◌⊎◌, inl, inr, refl, Bool, true, false, none, some, List, length, All, ok,
}
use bomber_cli.Game.Types.{Rand, max_players}
use bomber_cli.Room.Types.{Phase, waiting, countdown, playing, result, Snapshot}
use bomber_cli.Room.Rules.{JoinError, round_in_progress, room_is_full, is_waiting, is_countdown}
use bomber_cli.Room.Invariant.Seating.{calmed}
use bomber_cli.Room.Run.{first_snapshot}
use bomber_cli.Room.Hub.{is_joinable}
use bomber_cli.Room.Hub.Types.{
  Session, Entry, Hub, room_limit_reached, room_no_longer_exists, session_closed, leave_first,
  Reply, granted, refused, find_session, room_of,
}
use bomber_cli.Room.Hub.Maps.{location}
use bomber_cli.Room.Hub.Doors.{RoomEvent, hub_error, room_events}
use bomber_cli.Room.Hub.Invariant.{SameLimits, IsOrderly, IsLived}

-- A room that a member may enter: no round is on, and a seat is free.
abbrev pub IsOpen : Snapshot → Type 0
IsOpen s = ((s.phase ≡ waiting) ⊎ (s.phase ≡ countdown)) × (s.count < max_players)

-- A room has this reason to refuse a member.
abbrev pub Refuses : JoinError → Snapshot → Type 0
Refuses round_in_progress s = (s.phase ≡ playing) ⊎ (s.phase ≡ result)
Refuses room_is_full s = ((s.phase ≡ waiting) ⊎ (s.phase ≡ countdown)) × (s.count ≡ max_players)

pub busy_phase :
    (p : Phase) → is_waiting p ≡ false → is_countdown p ≡ false → (p ≡ playing) ⊎ (p ≡ result)
busy_phase waiting w c = cc
busy_phase countdown w c = cc
busy_phase playing w c = inl refl
busy_phase result w c = inr refl

pub calm_phase : (p : Phase) → calmed p ≡ waiting → (p ≡ waiting) ⊎ (p ≡ countdown)
calm_phase waiting e = inl refl
calm_phase countdown e = inr refl
calm_phase playing e = cc
calm_phase result e = cc

module _ {r : Rand} where
  -- A session that the hub has, in no room, while the hub is open.
  pub record IsAtDoor (session : ℕ) (h : Hub r) : Type 0 where
    pub open_hub : h.stopped ≡ false
    pub known : (s : Session) × (find_session h.sessions session ≡ some s)
    pub free : location h.sessions session ≡ none

  -- A new room is what the session asks for, or no room can be joined.
  abbrev pub WantsNew : ℕ → Bool → Hub r → Type 0
  WantsNew id create h =
      (create ≡ true) ⊎ ((id ≡ 0) × All (λ e. is_joinable e.latest ≡ false) h.rooms)

  -- The room `d`, under the identifier `i`, that a request for the room `id`, or for any room if this is
  -- 0, or for a new one gets at.
  pub data Sought (id : ℕ) (create : Bool) (h : Hub r) : ℕ → Entry r → Type 0 where
    asked_for :
        (d : Entry r)
        → create ≡ false
        → id ≢ 0
        → room_of h.rooms id ≡ some d
        → Sought id create h id d
    picked :
        (i : ℕ) (d : Entry r)
        → create ≡ false
        → id ≡ 0
        → room_of h.rooms i ≡ some d
        → is_joinable d.latest ≡ true
        → Sought id create h i d
    opened :
        (d : Entry r)
        → WantsNew id create h
        → length h.rooms < h.max_rooms
        → d.id ≡ h.next_room + 1
        → d.actor.snapshot ≡ first_snapshot d.id
        → Sought id create h d.id d

  -- What a session is told that asks for the room `id`, for any room if this is 0, or for a new one. The
  -- room has the events `between` before it takes up the request.
  pub data DoorOutcome (session id : ℕ) (create : Bool) (between : List RoomEvent) (h : Hub r)
      : Hub r × Reply ℕ → Type 0 where
    closed :
        (find_session h.sessions session ≡ none) ⊎ (h.stopped ≡ true)
        → DoorOutcome session id create between h (h, refused session_closed)
    elsewhere :
        (i : ℕ)
        → h.stopped ≡ false
        → location h.sessions session ≡ some i
        → DoorOutcome session id create between h (h, refused leave_first)
    missing :
        IsAtDoor session h
        → create ≡ false
        → id ≢ 0
        → room_of h.rooms id ≡ none
        → DoorOutcome session id create between h (h, refused room_no_longer_exists)
    limited :
        IsAtDoor session h
        → WantsNew id create h
        → length h.rooms ≡ h.max_rooms
        → DoorOutcome session id create between h (h, refused room_limit_reached)
    denied :
        (h' : Hub r) (x : JoinError) (i : ℕ) (d e : Entry r)
        → IsAtDoor session h
        → Sought id create h i d
        → room_events between d ≡ ok e
        → Refuses x e.actor.snapshot
        → IsOrderly h'
        → IsLived h'
        → h'.sessions ≡ h.sessions
        → SameLimits h h'
        → DoorOutcome session id create between h (h', refused (hub_error x))
    seated :
        (h' : Hub r) (i : ℕ) (d e : Entry r)
        → IsAtDoor session h
        → Sought id create h i d
        → room_events between d ≡ ok e
        → IsOpen e.actor.snapshot
        → IsOrderly h'
        → IsLived h'
        → location h'.sessions session ≡ some i
        → ((y : ℕ) → y ≢ session → location h'.sessions y ≡ location h.sessions y)
        → SameLimits h h'
        → DoorOutcome session id create between h (h', granted i)
