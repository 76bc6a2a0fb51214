-- ===== src/Server/Tests.antt =====
-- A server with two players, message by message.
use native.Mathlib.Nat.{mod-lt}
use bomber_cli.Base.{
  codes, ℕ, ◌+◌, ◌%◌, ◌≡◌, ◌⊎◌, refl, true, some, List, [], ◌∷◌, All, AllPairs, Result, ok, err,
  Returns, Option, map, index_of,
}
use bomber_cli.Game.Types.{Rand}
use bomber_cli.Room.Run.{first_snapshot}
use bomber_cli.Room.Hub.{connect, create_room, find_room_to_join, sorted_room_ids, first_joinable}
use bomber_cli.Room.Hub.Doors.{join_room, enter, enter_new, room_events, change}
use bomber_cli.Room.Names.{
  keeps_rune, is_used, sanitize_player_name, unique_player_name, unused_name, kept_runes, name_eq,
}
use bomber_cli.Room.Rules.{member_index, with_member, without_readiness, without_countdown}
use bomber_cli.Room.Actor.{membership, joined_actor}
use bomber_cli.Ui.Model.{key_came, update, handle_key, handle_lobby_key, join_selected_room}
use bomber_cli.Ui.Invariant.{IsUsable}
use bomber_cli.Server.{Moment, Event, begins, says, Server, new_server, serve, serve_all}
use bomber_cli.Server.Invariant.{ProgramsApart}
use bomber_cli.Server.Run.{IsSeated, serve_all-IsSeated}

-- A generator that counts up.
abbrev ticking : Rand
ticking = record {
  Source = ℕ;
  new_source = λ seed. seed;
  intn = λ n s. (s % n, s + 1);
  intn_lt = λ n s h. mod-lt s h;
}

abbrev quiet : Moment
quiet = record { rooms = []; seen = λ i. first_snapshot i; seed = 42; between = []; after = [] }

-- Ann comes and enters a room, Bob comes and enters the same.
abbrev meeting : List Event
meeting =
    begins (codes "ann") 80 30 true 5 []
    ∷ says 1 (key_came (codes "enter")) quiet
    ∷ begins (codes "bob") 80 30 true 6 []
    ∷ says 2 (key_came (codes "enter")) quiet
    ∷ []

abbrev rooms_shown : Result (Server ticking) → List (Option ℕ)
rooms_shown (ok s) = map (λ m. m.room) s.programs
rooms_shown (err e) = []

meeting_test : rooms_shown (serve_all meeting (new_server 2 1)) ≡ some 1 ∷ some 1 ∷ []
unfolding serve serve_all connect unique_player_name unused_name is_used name_eq
    sanitize_player_name kept_runes keeps_rune update handle_key handle_lobby_key join_selected_room
    join_room enter_new enter create_room room_events change member_index index_of membership
    with_member joined_actor without_readiness without_countdown find_room_to_join sorted_room_ids
    first_joinable
meeting_test = refl

serve_all-IsSeated_example :
    Returns
      (λ (s : Server ticking).
        All (λ m. (s.hub.stopped ≡ true) ⊎ IsSeated s.hub m) s.programs
        × AllPairs ProgramsApart s.programs
        × All IsUsable s.programs)
      (serve_all meeting (new_server 2 1))
serve_all-IsSeated_example =
    serve_all-IsSeated 2 1 meeting (tt, ((λ i. refl), (tt, ((λ i. refl), tt))))
