-- ===== src/Ui/Render.antt =====
-- The texts of internal/ui/render.go. A terminal is at most 10000 cells wide and high.
use bomber_cli.Base.{
  ℕ, ℤ, pos, negsuc, sub_ℕ, ◌-ℤ◌, ◌+◌, ◌-◌, ◌/◌, ◌==◌, ltb, leb, if◌then◌else◌, Bool, true, false,
  ◌||◌, ◌&&◌, Option, none, some, List, [], ◌∷◌, ◌++◌, map, length, drop, replicate, Text, codes,
  decimal, Result, ok, ◌>>=◌,
}
use bomber_cli.Game.Types.{Player, round_duration, second, millisecond}
use bomber_cli.Room.Types.{Phase, waiting, countdown, playing, result, Member, Snapshot}
use bomber_cli.Room.Rules.{is_waiting, is_countdown, is_playing}
use bomber_cli.Ui.Model.{Model, is_small}
use bomber_cli.Ui.Board.{paint, render_board}

abbrev pub phase_text : Phase → Text
phase_text waiting = codes "waiting"
phase_text countdown = codes "countdown"
phase_text playing = codes "playing"
phase_text result = codes "result"

-- strings.ToUpper, on ASCII.
abbrev pub upper : Text → Text
upper s = map (λ c. if leb 97 c && leb c 122 then c - 32 else c) s

abbrev pub concat : List Text → Text
concat [] = []
concat (s ∷ ss) = s ++ concat ss

abbrev pub is_result : Phase → Bool
is_result result = true
is_result _ = false

abbrev pub room_option : Snapshot → Text
room_option s =
    codes "Room "
    ++ decimal s.id
    ++ codes "  "
    ++ decimal s.count
    ++ codes "/4  "
    ++ phase_text s.phase

abbrev pub lobby_options : List Snapshot → List Text
lobby_options rooms = codes "Quick join" ∷ codes "Create room" ∷ map room_option rooms

abbrev pub option_line : ℕ → ℕ → Text → Text
option_line selected i option =
    (if i == selected then codes "> " else codes "  ") ++ option ++ 10 ∷ []

-- The loop over the options from `i` on, up to `stop`.
abbrev pub option_lines : ℕ → ℕ → ℕ → List Text → List Text
option_lines selected stop i [] = []
option_lines selected stop i (o ∷ os) =
    let rest = option_lines selected stop (i + 1) os in
    if ltb i stop then option_line selected i o ∷ rest else []

-- max(0, selected-limit+1)
abbrev pub first_option : ℕ → ℕ → ℕ
first_option selected limit = selected + 1 - limit

abbrev pub visible_lines : List Snapshot → ℕ → ℕ → List Text
visible_lines rooms selected limit =
    let start = first_option selected limit in
    option_lines selected (start + limit) start (drop start (lobby_options rooms))

unfoldable pub visible_lobby_options : List Snapshot → ℕ → ℕ → Text
visible_lobby_options rooms selected limit = concat (visible_lines rooms selected limit)

unfoldable pub render_lobby : Model → Text
render_lobby m =
    codes "LOBBY - choose with arrows / W S, then Enter"
    ++ 10 ∷ 10 ∷ visible_lobby_options m.rooms m.selected (m.height - 10)
    ++ 10 ∷ m.notice
    ++ 10 ∷ codes "Enter: join | Ctrl-C: disconnect"
    ++ 10 ∷ []

-- The seconds of a duration, rounded up; 0 if it is negative. The code divides as float64, which is
-- exact enough for the few minutes that it shows.
unfoldable pub seconds : ℤ → ℕ
seconds (pos n) = (n + (second - 1)) / second
seconds (negsuc n) = 0

unfoldable pub room_heading : Snapshot → ℕ → Text
room_heading s now =
    let heading = codes "ROOM " ++ decimal s.id ++ codes "  " ++ upper (phase_text s.phase) in
    if is_countdown s.phase
    then heading
      ++ codes "  starts in "
      ++ decimal (seconds (sub_ℕ s.deadline now))
      ++ codes "s"
      ++ 10 ∷ []
    else if is_playing s.phase
    then heading
      ++ codes "  "
      ++ decimal (seconds (pos round_duration -ℤ sub_ℕ now s.game.started))
      ++ codes "s left"
      ++ 10 ∷ []
    else heading ++ 10 ∷ []

unfoldable pub room_board : Snapshot → Bool → Result Text
room_board s color =
    if is_playing s.phase || is_result s.phase then render_board s.game color else ok []

unfoldable pub room_instructions : Snapshot → Text
room_instructions s =
    (if is_waiting s.phase || is_countdown s.phase
      then 10 ∷ codes "Enter: toggle ready (2-4 players, all must be ready)" ++ 10 ∷ []
      else [])
    ++ (elim s.message [ [] ↦ [] | c ∷ cs ↦ (c ∷ cs) ++ 10 ∷ [] ])
    ++ codes "WASD/arrows: move | Space: bomb | Enter: ready"
    ++ 10 ∷ codes "Esc: leave | Ctrl-C: disconnect"

-- fmt.Sprintf(" B%d R%d %dms", ...)
abbrev pub own_status : Player → Text
own_status q =
    codes " B"
    ++ decimal q.capacity
    ++ codes " R"
    ++ decimal q.range
    ++ codes " "
    ++ decimal (q.cooldown / millisecond)
    ++ codes "ms"

-- The loop over the players from the slot `i` on.
abbrev pub playing_status : ℕ → ℕ → ℕ → List Player → ℕ × Text → ℕ × Text
playing_status session id i [] (number, status) = (number, status)
playing_status session id i (q ∷ qs) (number, status) =
    let seen = if q.alive then codes "alive" else status in
    let told = if id == session then seen ++ own_status q else seen in
    playing_status session id (i + 1) qs (if q.id == id then (i + 1, told) else (number, status))

abbrev pub member_status : ℕ → Snapshot → ℕ → Member → ℕ × Text
member_status session s index m =
    if is_playing s.phase || is_result s.phase
    then playing_status session m.id 0 s.game.players (index + 1, codes "out")
    else (index + 1, if m.ready then codes "ready" else codes "not ready")

-- The verb %-20s.
abbrev pub padded : Text → Text
padded s = s ++ replicate (20 - length s) 32

abbrev pub member_line : ℕ × Text → Member → Text
member_line (number, status) m =
    codes "P"
    ++ decimal number
    ++ codes " "
    ++ padded m.name
    ++ codes " "
    ++ decimal m.score
    ++ codes " wins  "
    ++ status
    ++ 10 ∷ []

-- The lines of the members from the seat `i` on.
abbrev pub member_lines : ℕ → Snapshot → ℕ → List Member → List Text
member_lines session s i [] = []
member_lines session s i (m ∷ ms) =
    let rest = member_lines session s (i + 1) ms in
    if m.id == 0 then rest else member_line (member_status session s i m) m ∷ rest

unfoldable pub render_members : ℕ → Snapshot → Text
render_members session s = concat (member_lines session s 0 s.members)

unfoldable pub render_room : Model → Snapshot → Result Text
render_room m s = do
  board ← room_board s m.color
  ok (room_heading s m.now ++ board ++ render_members m.session.id s ++ room_instructions s)

abbrev pub resize_text : ℕ → ℕ → Text
resize_text w h =
    codes "Resize terminal to at least 60 x 24."
    ++ 10 ∷ codes "Current: "
    ++ decimal w
    ++ codes " x "
    ++ decimal h
    ++ 10 ∷ codes "Match continues. Esc: leave | Ctrl-C: disconnect"

abbrev pub header : Model → Text
header m = paint (codes "BOMBER / SSH") 36 m.color ++ codes "   " ++ m.session.name ++ 10 ∷ 10 ∷ []

-- A model in a room without a snapshot of it shows nothing here; no message leads to one.
abbrev pub shown_room : Model → Option Snapshot → Result Text
shown_room m none = ok []
shown_room m (some s) = render_room m s

-- The view in a window that is large enough.
abbrev pub large_view : Model → Option ℕ → Result Text
large_view m none = ok (header m ++ render_lobby m)
large_view m (some i) = do body ← shown_room m m.snapshot; ok (header m ++ body)

unfoldable pub view : Model → Result Text
view m = if is_small m then ok (resize_text m.width m.height) else large_view m m.room
