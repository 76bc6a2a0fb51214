-- ===== src/Server.antt =====
-- The sessions of a server together: the hub of internal/room/hub.go and, for each session, the program
-- of internal/ui/ui.go that internal/host/host.go runs for it. A program that takes up a message makes
-- its calls on the hub, and sees the answers of the hub.
pub mod Invariant
pub mod Steps
pub mod Run
mod Tests
use bomber_cli.Base.{
  ℕ, ◌==◌, if◌then◌else◌, Bool, not, Option, none, some, List, [], ◌∷◌, map, keep, Result, ok, err,
  ◌>>=◌,
}
use bomber_cli.Game.Types.{Rand}
use bomber_cli.Room.Types.{Snapshot}
use bomber_cli.Room.Hub.{connect}
use bomber_cli.Room.Hub.Types.{
  Session, Hub, session_closed, Reply, granted, refused, new_hub, room_of, put_room,
}
use bomber_cli.Room.Hub.Doors.{RoomEvent, room_event, join_room, leave_room, disconnect, close}
use bomber_cli.Ui.Model.{
  Model, Answers, Call, asks_to_join, asks_to_leave, submits, quits, Message, new_model, update,
}

-- What a call meets at its moment: the list of the rooms, the snapshot of each room, the seed of a new
-- room, and the events of the room before and after it takes up the request.
pub record Moment : Type 0 where
  pub rooms : List Snapshot
  pub seen : ℕ → Snapshot
  pub seed : ℕ
  pub between : List RoomEvent
  pub after : List RoomEvent

-- The program that belongs to a session.
abbrev pub find_program : List Model → ℕ → Option Model
find_program [] id = none
find_program (m ∷ ms) id = if m.session.id == id then some m else find_program ms id

abbrev pub turned_to : Model → Model → Model
turned_to m n = if n.session.id == m.session.id then m else n

abbrev pub put_program : Model → List Model → List Model
put_program m ms = map (turned_to m) ms

abbrev pub drop_program : ℕ → List Model → List Model
drop_program id ms = keep (λ m. not (m.session.id == id)) ms

-- What happens to a server: a session begins, the program of a session takes up a message, a session
-- ends, a room goes on, or the hub closes.
pub data Event : Type 0 where
  begins : List ℕ → ℕ → ℕ → Bool → ℕ → List Snapshot → Event
  says : ℕ → Message → Moment → Event
  ends : ℕ → List RoomEvent → List RoomEvent → Event
  goes_on : ℕ → RoomEvent → Event
  stops : Event

-- The room of the answer and its snapshot. A call that panics answers nothing; `perform` panics then.
abbrev pub shown : {A : Type 0} → (ℕ → Snapshot) → Result (A × Reply ℕ) → Reply (ℕ × Snapshot)
shown seen (ok (h, granted i)) = granted (i, seen i)
shown seen (ok (h, refused x)) = refused x
shown seen (err e) = refused session_closed

pub record Server (r : Rand) : Type 0 where
  pub hub : Hub r
  pub programs : List Model

module _ {r : Rand} where
  abbrev pub new_server : ℕ → ℕ → Server r
  new_server max_sessions max_rooms = record { hub = new_hub max_sessions max_rooms; programs = [] }

  -- What the hub answers to the program of a session.
  abbrev pub answers_of : Moment → ℕ → Hub r → Answers
  answers_of t id h = record {
    list = t.rooms;
    join = λ i new. shown t.seen (join_room id i new t.seed t.between h);
  }

  -- The calls of the program on the hub. An action goes to the inbox of the room, from where the loop of
  -- the room takes it up.
  abbrev pub perform : Moment → ℕ → List Call → Hub r → Result (Hub r)
  perform t id [] h = ok h
  perform t id (asks_to_join i new ∷ cs) h = do
    (h', a) ← join_room id i new t.seed t.between h
    perform t id cs h'
  perform t id (asks_to_leave ∷ cs) h = do
    h' ← leave_room id t.between t.after h
    perform t id cs h'
  perform t id (submits x ∷ cs) h = perform t id cs h
  perform t id (quits ∷ cs) h = perform t id cs h

  abbrev pub answered_program : Moment → Message → Model → Server r → Result (Server r)
  answered_program t v m s = do
    (m', calls) ← update (answers_of t m.session.id s.hub) v m
    h ← perform t m.session.id calls s.hub
    ok (record { hub = h; programs = put_program m' s.programs })

  -- `runGameSession` up to the program, for the answer of `Connect`.
  abbrev pub welcomed :
      ℕ → ℕ → Bool → ℕ → List Snapshot → Server r → Hub r × Reply Session → Server r
  welcomed w l color now rooms s (h, refused x) = record s { hub = h }
  welcomed w l color now rooms s (h, granted u) = record {
    hub = h;
    programs = new_model rooms u w l color now ∷ s.programs;
  }

  -- A message for a session that has ended is lost, and a room that is not there does not go on.
  unfoldable pub serve : Event → Server r → Result (Server r)
  serve (begins name w l color now rooms) s = do
    q ← connect name s.hub
    ok (welcomed w l color now rooms s q)
  serve (says id v t) s = elim (find_program s.programs id) [
    | none ↦ ok s
    | some m ↦ answered_program t v m s
  ]
  serve (ends id between after) s = do
    h ← disconnect id between after s.hub
    ok (record { hub = h; programs = drop_program id s.programs })
  serve (goes_on i v) s = elim (room_of s.hub.rooms i) [
    | none ↦ ok s
    | some e ↦ do
      e' ← room_event v e
      let h : Hub r = s.hub
      ok (record s { hub = record h { rooms = put_room e' h.rooms } })
  ]
  serve stops s = ok (record s { hub = close s.hub })

  unfoldable pub serve_all : List Event → Server r → Result (Server r)
  serve_all [] s = ok s
  serve_all (v ∷ vs) s = do s' ← serve v s; serve_all vs s'
