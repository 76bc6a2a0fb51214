-- ===== src/Ui/Model.antt =====
-- internal/ui/ui.go: the model of the interface and what each message and each key makes of it. What
-- the hub answers to a call is an argument, and the calls that the interface makes are a result.
use bomber_cli.Base.{
  ℕ, ◌+◌, ◌-◌, ◌%◌, ◌==◌, ltb, leb, Bool, true, false, not, ◌||◌, ◌&&◌, is_some, if◌then◌else◌,
  Option, none, some, List, [], ◌∷◌, ◌++◌, length, get_elem?, Text, codes, or_panic, Result, ok,
  ◌>>=◌,
}
use bomber_cli.Room.Types.{Snapshot, Action, ready, up, down, left, right, bomb}
use bomber_cli.Room.Names.{name_eq}
use bomber_cli.Room.Hub.Types.{
  Session, HubError, server_stopping, server_is_full, room_limit_reached, room_no_longer_exists,
  session_closed, leave_first, round_is_on, room_has_no_seat, Reply, granted, refused,
}

-- `room` is the identifier of the room. `snapshot` is none while it is the zero value Snapshot{}.
pub record Model : Type 0 where
  pub session : Session
  pub room : Option ℕ
  pub snapshot : Option Snapshot
  pub width : ℕ
  pub height : ℕ
  pub color : Bool
  pub selected : ℕ
  pub rooms : List Snapshot
  pub notice : Text
  pub now : ℕ

-- What the hub answers at the moment of a call: `List`, and `Join` with the snapshot that its room has
-- when it is read.
pub record Answers : Type 0 where
  pub list : List Snapshot
  pub join : ℕ → Bool → Reply (ℕ × Snapshot)

-- The calls that the interface makes.
pub data Call : Type 0 where
  asks_to_join : ℕ → Bool → Call
  asks_to_leave : Call
  submits : Action → Call
  quits : Call

-- The messages of `Update`. A key is the text of tea.KeyMsg.
pub data Message : Type 0 where
  snapshot_came : Snapshot → Message
  resized : ℕ → ℕ → Message
  pulsed : ℕ → Message
  key_came : Text → Message

abbrev pub is_key : Text → List Text → Bool
is_key key [] = false
is_key key (k ∷ ks) = if name_eq key k then true else is_key key ks

-- err.Error()
abbrev pub error_text : HubError → Text
error_text server_stopping = codes "server stopping"
error_text server_is_full = codes "server is full"
error_text room_limit_reached = codes "room limit reached"
error_text room_no_longer_exists = codes "room no longer exists"
error_text session_closed = codes "session closed"
error_text leave_first = codes "leave your current room first"
error_text round_is_on = codes "round in progress"
error_text room_has_no_seat = codes "room is full"

abbrev pub new_model : List Snapshot → Session → ℕ → ℕ → Bool → ℕ → Model
new_model rooms session w h color now = record {
  session = session;
  room = none;
  snapshot = none;
  width = w;
  height = h;
  color = color;
  selected = 0;
  rooms = rooms;
  notice = [];
  now = now;
}

abbrev pub is_small : Model → Bool
is_small m = ltb m.width 60 || ltb m.height 24

unfoldable pub action_for_key : Text → Option Action
action_for_key key =
    if is_key key (codes "enter" ∷ [])
    then some ready
    else if is_key key (codes "up" ∷ codes "w" ∷ [])
    then some up
    else if is_key key (codes "down" ∷ codes "s" ∷ [])
    then some down
    else if is_key key (codes "left" ∷ codes "a" ∷ [])
    then some left
    else if is_key key (codes "right" ∷ codes "d" ∷ [])
    then some right
    else if is_key key (codes " " ∷ [])
    then some bomb
    else none

unfoldable pub leave_room : Answers → Model → Model
leave_room a m = record m { room = none; rooms = a.list; selected = 0 }

-- The identifier that `joinSelectedRoom` asks for.
abbrev pub wanted_room : Model → Result ℕ
wanted_room m =
    if leb 2 m.selected
    then (do s ← or_panic (get_elem? m.rooms (m.selected - 2)); ok s.id)
    else ok 0

abbrev pub joined_model : Model → Reply (ℕ × Snapshot) → Model
joined_model m (refused x) = record m { notice = error_text x }
joined_model m (granted (i, s)) = record m { room = some i; snapshot = some s; notice = [] }

unfoldable pub join_selected_room : Answers → Model → Result (Model × List Call)
join_selected_room a m = do
  id ← wanted_room m
  ok (joined_model m (a.join id (m.selected == 1)), asks_to_join id (m.selected == 1) ∷ [])

abbrev pub moved_up : Model → Model
moved_up m = record m { selected = (m.selected + length m.rooms + 1) % (length m.rooms + 2) }

abbrev pub moved_down : Model → Model
moved_down m = record m { selected = (m.selected + 1) % (length m.rooms + 2) }

unfoldable pub handle_lobby_key : Answers → Text → Model → Result (Model × List Call)
handle_lobby_key a key m =
    if is_key key (codes "up" ∷ codes "w" ∷ [])
    then ok (moved_up m, [])
    else if is_key key (codes "down" ∷ codes "s" ∷ [])
    then ok (moved_down m, [])
    else if is_key key (codes "enter" ∷ [])
    then join_selected_room a m
    else ok (m, [])

abbrev pub submitted : Option Action → List Call
submitted none = []
submitted (some x) = submits x ∷ []

unfoldable pub handle_key : Answers → Text → Model → Result (Model × List Call)
handle_key a key m =
    if is_key key (codes "ctrl+c" ∷ [])
    then ok (m, quits ∷ [])
    else if is_key key (codes "esc" ∷ []) && is_some m.room
    then ok (leave_room a m, asks_to_leave ∷ [])
    else if is_small m
    then ok (m, [])
    else if not (is_some m.room)
    then handle_lobby_key a key m
    else ok (m, submitted (action_for_key key))

-- The clock, and the list of rooms while the session is in none.
abbrev pub pulsed_model : Answers → ℕ → Model → Model
pulsed_model a now m =
    let m' : Model = record m { now = now } in
    if is_some m.room then m' else (record m' {
      rooms = a.list;
      selected = if leb (length a.list + 2) m.selected then 0 else m.selected;
    })

-- v.ID == m.Room.ID
abbrev pub is_here : Option ℕ → ℕ → Bool
is_here none i = false
is_here (some j) i = i == j

unfoldable pub update : Answers → Message → Model → Result (Model × List Call)
update a (snapshot_came s) m =
    ok (if is_here m.room s.id then record m { snapshot = some s } else m, [])
update a (resized w h) m = ok (record m { width = w; height = h }, [])
update a (pulsed now) m = ok (pulsed_model a now m, [])
update a (key_came key) m = handle_key a key m

-- One message after the other, with the answers of the hub at each.
unfoldable pub updates : List (Answers × Message) → Model → Result (Model × List Call)
updates [] m = ok (m, [])
updates ((a, v) ∷ vs) m = do
  (m', calls) ← update a v m
  (m'', more) ← updates vs m'
  ok (m'', calls ++ more)
