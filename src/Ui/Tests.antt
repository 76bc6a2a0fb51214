-- ===== src/Ui/Tests.antt =====
-- The interface on concrete models.
use native.Mathlib.Nat.{mod-lt}
use bomber_cli.Base.{
  false, decimal, ok, Text, codes, ℕ, pos, ◌+◌, ◌-◌, ◌%◌, ◌<◌, ◌≤◌, ◌≡◌, ◌≢◌, refl, arith, true,
  none, some, List, [], ◌∷◌, ◌++◌, length, get_elem?, Returns,
}
use bomber_cli.Game.Types.{Rand, View}
use bomber_cli.Game.Board.{Pos, inside_board}
use bomber_cli.Game.Setup.{new}
use bomber_cli.Game.Invariant.{IsValid}
use bomber_cli.Game.Round.{new-IsValid}
use bomber_cli.Room.Names.{name_eq}
use bomber_cli.Room.Types.{Snapshot, countdown}
use bomber_cli.Room.Run.{first_snapshot}
use bomber_cli.Room.Hub.Types.{Session, granted}
use bomber_cli.Ui.Model.{
  handle_key, handle_lobby_key, join_selected_room, asks_to_join, Model, Answers, Message, key_came,
  pulsed, resized, new_model, update,
}
use bomber_cli.Ui.Lines.{IsTidy, FitsHeight, view-Returns-FitsHeight}
use bomber_cli.Ui.Invariant.{IsUsable, IsLawful, IsServed, update-IsServed}
use bomber_cli.Ui.Board.{paint}
use bomber_cli.Ui.Render.{
  room_heading, seconds, visible_lobby_options, lobby_options, first_option, visible_lines, view,
}
use bomber_cli.Ui.Lobby.{visible_lines-selected}

-- A generator that counts up.
abbrev counter : Rand
counter = record {
  Source = ℕ;
  new_source = λ seed. seed;
  intn = λ n s. (s % n, s + 1);
  intn_lt = λ n s h. mod-lt s h;
}

abbrev two_rooms : List Snapshot
two_rooms = first_snapshot 3 ∷ first_snapshot 8 ∷ []

abbrev alice : Session
alice = record { id = 1; name = codes "alice"; room = none }

-- Alice in the lobby, with the cursor on the second room.
abbrev lobby : Model
lobby = record (new_model two_rooms alice 80 24 true 0) { selected = 3 }

-- The hub opens every room that it is asked for, as the room 8.
abbrev open_answers : Answers
open_answers = record { list = two_rooms; join = λ id new. granted (8, first_snapshot 8) }

id_of_answer : IsLawful open_answers
id_of_answer id new i s e = ground (arith, e)

lobby-IsUsable : IsUsable lobby
lobby-IsUsable = record { pointed = omega arith; shown = tt }

update-IsServed_example :
    Returns (IsServed open_answers lobby) (update open_answers (key_came (codes "enter")) lobby)
update-IsServed_example =
    update-IsServed open_answers id_of_answer lobby lobby-IsUsable (key_came (codes "enter"))

abbrev messages : List (Answers × Message)
messages =
    (open_answers, pulsed 5)
    ∷ (open_answers, key_came (codes "enter"))
    ∷ (open_answers, resized 20 10)
    ∷ (open_answers, key_came (codes "esc"))
    ∷ []

abbrev two_ids : List ℕ
two_ids = 1 ∷ 2 ∷ []

abbrev fresh_view : View
fresh_view = (new counter two_ids 0 42).view

fresh_view-IsValid : IsValid fresh_view
fresh_view-IsValid = new-IsValid counter two_ids 0 42 (ground arith)

abbrev corner : Pos
corner = record { x = pos 1; y = pos 1 }

corner_inside : inside_board corner ≡ true
unfolding inside_board
corner_inside = refl

visible_lines-selected_example :
    (length (visible_lines two_rooms 3 2) ≤ 2)
    × (3 - first_option 3 2 < 2)
    × ((o : Text) × (get_elem? (lobby_options two_rooms) 3 ≡ some o)
        × (get_elem? (visible_lines two_rooms 3 2) (3 - first_option 3 2)
            ≡ some (codes "> " ++ o ++ 10 ∷ [])))
    × ((i : ℕ) (o : Text)
        → i ≢ 3
        → first_option 3 2 ≤ i
        → i < first_option 3 2 + 2
        → get_elem? (lobby_options two_rooms) i ≡ some o
        → get_elem? (visible_lines two_rooms 3 2) (i - first_option 3 2)
          ≡ some (codes "  " ++ o ++ 10 ∷ []))
visible_lines-selected_example = visible_lines-selected two_rooms 3 2 (omega arith) (omega arith)

-- A countdown that ends in two and a half seconds.
room_heading_test :
    room_heading (record (first_snapshot 7) { phase = countdown; deadline = 2500000000 }) 0
    ≡ codes "ROOM 7  COUNTDOWN  starts in 3s" ++ 10 ∷ []
unfolding room_heading seconds decimal
room_heading_test = refl

visible_lobby_options_test :
    visible_lobby_options two_rooms 3 2
    ≡ codes "  Room 3  0/4  waiting" ++ 10 ∷ codes "> Room 8  0/4  waiting" ++ 10 ∷ []
unfolding visible_lobby_options decimal
visible_lobby_options_test = refl

paint_test : paint (codes "##") 34 true ≡ 27 ∷ codes "[34m##" ++ 27 ∷ codes "[0m"
unfolding decimal
paint_test = refl

enter_test :
    update open_answers (key_came (codes "enter")) lobby
    ≡ ok (
      record lobby { room = some 8; snapshot = some (first_snapshot 8) },
      asks_to_join 8 false ∷ [],
    )
unfolding update handle_key handle_lobby_key join_selected_room name_eq
enter_test = refl

lobby-IsTidy : IsTidy lobby
lobby-IsTidy = record {
  name = refl;
  notice = refl;
  messages = λ s e. cc;
  names = λ s e. absurd (cc);
  seats = λ s e. absurd (cc);
}

view-Returns-FitsHeight_example : Returns (FitsHeight lobby) (view lobby)
view-Returns-FitsHeight_example = view-Returns-FitsHeight lobby lobby-IsUsable tt lobby-IsTidy refl
