-- ===== src/Room/Hub/Doors.antt =====
-- Join, leave, disconnect, the list of rooms and the end of the hub, with the events of the room that
-- come between the steps of a call.
use bomber_cli.Base.{
  ℕ, ◌==◌, if◌then◌else◌, Bool, true, false, Option, none, some, List, [], ◌∷◌, Result, ok,
  or_panic, ◌>>=◌,
}
use bomber_cli.Game.Types.{Rand}
use bomber_cli.Room.Types.{Member, Snapshot, Command}
use bomber_cli.Room.Rules.{JoinError, round_in_progress, room_is_full}
use bomber_cli.Room.Actor.{Control, join, leave, membership}
use bomber_cli.Room.Actor
use bomber_cli.Room.Run.{on_input}
use bomber_cli.Room.Hub.{find_room_to_join, sorted_room_ids, create_room}
use bomber_cli.Room.Hub.Types.{
  Session, Entry, Hub, HubError, session_closed, leave_first, round_is_on, room_has_no_seat, Reply,
  granted, refused, find_session, assign, drop_session, room_of, put_room, delete_room,
}

-- What the loop of a room takes up by itself: its ticker, or a command from its inbox.
pub data RoomEvent : Type 0 where
  ticked : ℕ → RoomEvent
  asked : Command → ℕ → RoomEvent

-- The text of an error that comes from the room.
abbrev pub hub_error : JoinError → HubError
hub_error round_in_progress = round_is_on
hub_error room_is_full = room_has_no_seat

-- Member{ID: s.ID, Name: s.Name}
abbrev pub member_of : Session → Member
member_of s = record { id = s.id; name = s.name; ready = false; score = 0 }

module _ {r : Rand} where
  -- One round of the loop of `run`, with `publishSnapshot`.
  unfoldable pub room_event : RoomEvent → Entry r → Result (Entry r)
  room_event (ticked now) e = do
    a ← Actor.tick now e.actor
    ok (record e { latest = a.snapshot; actor = a })
  room_event (asked c now) e = do
    (a, published) ← on_input c now e.actor
    ok (record e { latest = if published then a.snapshot else e.latest; actor = a })

  unfoldable pub room_events : List RoomEvent → Entry r → Result (Entry r)
  room_events [] e = ok e
  room_events (v ∷ vs) e = do e' ← room_event v e; room_events vs e'

  -- `change`, on a room that runs: the case of `r.control` in the loop, and the answer.
  unfoldable pub change : Control ℕ → Entry r → Entry r × Option JoinError
  change c e =
      let (a, error) = membership c e.actor in (record e { latest = a.snapshot; actor = a }, error)

  -- What `Join` does with the answer of the room.
  abbrev pub answered : Session → ℕ → Bool → Hub r → Entry r × Option JoinError → Hub r × Reply ℕ
  answered s id created h (e, none) = (
    record h { rooms = put_room e h.rooms; sessions = assign s.id (some id) h.sessions },
    granted id,
  )
  answered s id created h (e, some x) = (
    record h { rooms = if created then delete_room id h.rooms else put_room e h.rooms },
    refused (hub_error x),
  )

  -- `Join` from the room on. The room has events of its own before it takes up the request.
  unfoldable pub enter : Session → ℕ → Bool → List RoomEvent → Hub r → Result (Hub r × Reply ℕ)
  enter s id created between h = do
    e ← or_panic (room_of h.rooms id)
    e' ← room_events between e
    ok (answered s id created h (change (join (member_of s) s.id) e'))

  -- A new room, if there is none to join.
  unfoldable pub enter_new : Session → ℕ → List RoomEvent → Hub r → Result (Hub r × Reply ℕ)
  enter_new s seed between h =
      let (h', opened) = create_room seed h in
      elim opened [ refused x ↦ ok (h, refused x) | granted e ↦ enter s e.id true between h' ]

  -- With the room that was found, if there is one.
  abbrev pub enter_found :
      Session → ℕ → List RoomEvent → Hub r → Reply (Option ℕ) → Result (Hub r × Reply ℕ)
  enter_found s seed between h (refused x) = ok (h, refused x)
  enter_found s seed between h (granted none) = enter_new s seed between h
  enter_found s seed between h (granted (some i)) = enter s i false between h

  -- `Join` of the session that has the identifier.
  unfoldable pub join_room : ℕ → ℕ → Bool → ℕ → List RoomEvent → Hub r → Result (Hub r × Reply ℕ)
  join_room session id create seed between h = elim (find_session h.sessions session) [
    | none ↦ ok (h, refused session_closed)
    | some s ↦ if h.stopped then ok (h, refused session_closed) else (elim s.room [
      | some _ ↦ ok (h, refused leave_first)
      | none ↦
          if create
          then enter_new s seed between h
          else (do found ← find_room_to_join id h; enter_found s seed between h found)
    ])
  ]

  -- What `leave` does after the answer of the room. The count is read from the published snapshot.
  abbrev pub released : Session → ℕ → Hub r → Entry r → Hub r
  released s id h e = record h {
    sessions = assign s.id none h.sessions;
    rooms = if e.latest.count == 0 then delete_room id h.rooms else put_room e h.rooms;
  }

  abbrev pub let_go : Session → Entry r → Entry r
  let_go s e = let (e', error) = change (leave s.id) e in e'

  abbrev pub leave_of : Session → ℕ → List RoomEvent → List RoomEvent → Hub r → Result (Hub r)
  leave_of s id between after h = do
    e ← or_panic (room_of h.rooms id)
    e' ← room_events between e
    e'' ← room_events after (let_go s e')
    ok (released s id h e'')

  -- `leave` and `Leave`.
  unfoldable pub leave_room : ℕ → List RoomEvent → List RoomEvent → Hub r → Result (Hub r)
  leave_room session between after h = elim (find_session h.sessions session) [
    | none ↦ ok h
    | some s ↦ elim s.room [ none ↦ ok h | some id ↦ leave_of s id between after h ]
  ]

  unfoldable pub disconnect : ℕ → List RoomEvent → List RoomEvent → Hub r → Result (Hub r)
  disconnect session between after h = do
    h' ← leave_room session between after h
    ok (record h' { sessions = drop_session session h'.sessions })

  -- The loop of `List`.
  unfoldable pub latest_of : List (Entry r) → List ℕ → Result (List Snapshot)
  latest_of rooms [] = ok []
  latest_of rooms (i ∷ is) = do
    e ← or_panic (room_of rooms i)
    rest ← latest_of rooms is
    ok (e.latest ∷ rest)

  unfoldable pub list : Hub r → Result (List Snapshot)
  list h = latest_of h.rooms (sorted_room_ids h.rooms)

  -- `Close` waits for the actors to stop.
  unfoldable pub close : Hub r → Hub r
  close h = record h { stopped = true; sessions = []; rooms = [] }
