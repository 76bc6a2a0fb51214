-- ===== src/Room/Hub/Tests.antt =====
-- Names, sessions, rooms and channels on concrete inputs.
use native.Mathlib.Nat.{mod-lt}
use bomber_cli.Base.{
  codes, AllPairs, All, ◌∈◌, ◌<◌, ◌≤◌, length, index_of, ℕ, ◌+◌, ◌%◌, ◌≡◌, refl, true, false,
  Option, none, List, [], ◌∷◌, Result, ok, err, Returns,
}
use bomber_cli.Game.Types.{Rand}
use bomber_cli.Room.Types.{ready}
use bomber_cli.Room.Rules.{
  member_index, all_ready, with_member, without_readiness, without_countdown,
}
use bomber_cli.Room.Actor.{membership, joined_actor, tick, phase_tick}
use bomber_cli.Room.Names.{
  Name, keeps_rune, is_used, sanitize_player_name, unique_player_name, unused_name, kept_runes,
  name_eq,
}
use bomber_cli.Room.Names.Unused.{unique_player_name-Returns}
use bomber_cli.Room.Hub.{connect, create_room, find_room_to_join}
use bomber_cli.Room.Hub.Types.{Hub, Reply, granted, new_hub, find_session}
use bomber_cli.Room.Hub.Doors.{
  RoomEvent, ticked, asked, room_event, room_events, change, enter, enter_new, join_room,
  disconnect, list,
}
use bomber_cli.Room.Hub.Invariant.{IsOrderly, IsLived}
use bomber_cli.Room.Hub.Sessions.{ConnectOutcome, connect-ConnectOutcome}
use bomber_cli.Room.Hub.Selection.{Found, find_room_to_join-Found}
use bomber_cli.Room.Hub.Answers.{DoorOutcome}
use bomber_cli.Room.Hub.Joining.{join_room-DoorOutcome}
use bomber_cli.Room.Hub.Listing.{Latest, list-Latest}
use bomber_cli.Room.Names.Clean.{sanitize_player_name-keeps_rune}
use bomber_cli.Room.Hub.Exits.{Away, disconnect-Away}
use bomber_cli.Room.Hub.Run.{
  Step, arrived, asked_in, Serves, opened, stepped, enters, Shows, Step-Shows, Serves-IsOrderly,
}

-- A generator that counts up.
abbrev ticking : Rand
ticking = record {
  Source = ℕ;
  new_source = λ seed. seed;
  intn = λ n s. (s % n, s + 1);
  intn_lt = λ n s h. mod-lt s h;
}

abbrev bob_name : Name
bob_name = codes "bob"

abbrev loud_bob : List ℕ
loud_bob = codes "bob!"

unique_player_name-Returns_example :
    Returns (λ m. is_used (bob_name ∷ []) m ≡ false) (unique_player_name (bob_name ∷ []) loud_bob)
unique_player_name-Returns_example = unique_player_name-Returns (bob_name ∷ []) loud_bob

abbrev small_hub : Hub ticking
small_hub = new_hub 2 1

small_hub-IsOrderly :
    IsOrderly small_hub
    × IsLived small_hub
    × (small_hub.max_sessions ≡ 2)
    × (small_hub.max_rooms ≡ 1)
small_hub-IsOrderly = Serves-IsOrderly 2 1 small_hub opened

connect-ConnectOutcome_example : Returns (ConnectOutcome small_hub) (connect loud_bob small_hub)
connect-ConnectOutcome_example = connect-ConnectOutcome small_hub small_hub-IsOrderly.0 loud_bob

-- The hub with bob.
abbrev bobs_hub : Hub ticking
bobs_hub = record small_hub {
  next_session = 1;
  sessions = record { id = 1; name = bob_name; room = none } ∷ [];
}

bobs_hub-Serves : Serves 2 1 bobs_hub
unfolding connect unique_player_name unused_name is_used name_eq sanitize_player_name kept_runes
    keeps_rune
bobs_hub-Serves = stepped small_hub _ opened (arrived loud_bob bobs_hub _ refl)

-- The hub with bob in a new room.
abbrev hub_after : Result (Hub ticking × Reply ℕ) → Hub ticking
hub_after (ok q) = q.0
hub_after (err _) = small_hub

abbrev room_hub : Hub ticking
room_hub = hub_after (join_room 1 0 true 42 (ticked 7 ∷ []) bobs_hub)

room_hub-Step : Step bobs_hub room_hub
unfolding join_room enter_new enter create_room room_events room_event change member_index index_of
    membership with_member joined_actor without_readiness without_countdown tick phase_tick
    all_ready
room_hub-Step = asked_in 1 0 true 42 (ticked 7 ∷ []) room_hub (granted 1) refl

room_hub-Serves : Serves 2 1 room_hub
room_hub-Serves = stepped bobs_hub room_hub bobs_hub-Serves room_hub-Step

bobs_hub-IsOrderly :
    IsOrderly bobs_hub × IsLived bobs_hub × (bobs_hub.max_sessions ≡ 2) × (bobs_hub.max_rooms ≡ 1)
bobs_hub-IsOrderly = Serves-IsOrderly 2 1 bobs_hub bobs_hub-Serves

room_hub-IsOrderly :
    IsOrderly room_hub × IsLived room_hub × (room_hub.max_sessions ≡ 2) × (room_hub.max_rooms ≡ 1)
room_hub-IsOrderly = Serves-IsOrderly 2 1 room_hub room_hub-Serves

Serves-IsOrderly_example :
    IsOrderly room_hub × IsLived room_hub × (room_hub.max_sessions ≡ 2) × (room_hub.max_rooms ≡ 1)
Serves-IsOrderly_example = Serves-IsOrderly 2 1 room_hub room_hub-Serves

abbrev get_ready : RoomEvent
get_ready = asked (record { id = 1; action = ready }) 9

Step-Shows_example : Shows (enters 1 1) bobs_hub room_hub
unfolding room_hub-Step
Step-Shows_example =
    Step-Shows bobs_hub bobs_hub-IsOrderly.0 bobs_hub-IsOrderly.1 room_hub room_hub-Step

join_room-DoorOutcome_example :
    Returns
      (DoorOutcome 1 0 false (ticked 7 ∷ []) bobs_hub)
      (join_room 1 0 false 42 (ticked 7 ∷ []) bobs_hub)
join_room-DoorOutcome_example =
    join_room-DoorOutcome bobs_hub bobs_hub-IsOrderly.0 bobs_hub-IsOrderly.1 1 0 false 42
      (ticked 7 ∷ [])

disconnect-Away_example :
    Returns
      (λ h'. Away 1 room_hub h' × (find_session h'.sessions 1 ≡ none))
      (disconnect 1 (ticked 8 ∷ []) (get_ready ∷ []) room_hub)
disconnect-Away_example =
    disconnect-Away room_hub room_hub-IsOrderly.0 room_hub-IsOrderly.1 1 (ticked 8 ∷ [])
      (get_ready ∷ [])

find_room_to_join-Found_example :
    Returns
      (λ a. (o : Option ℕ) × (a ≡ granted o) × Found room_hub.rooms o)
      (find_room_to_join 0 room_hub)
find_room_to_join-Found_example = find_room_to_join-Found room_hub room_hub-IsOrderly.0

list-Latest_example :
    Returns
      (λ out.
        (ids : List ℕ) × (Latest room_hub.rooms ids out)
        × (AllPairs (λ i j. i < j) ids)
        × (All (λ e. e.id ∈ ids) room_hub.rooms))
      (list room_hub)
list-Latest_example = list-Latest room_hub room_hub-IsOrderly.0

sanitize_player_name-keeps_rune_example :
    (sanitize_player_name loud_bob ≡ bob_name)
    × All (λ r. keeps_rune r ≡ true) (sanitize_player_name loud_bob)
    × (0 < length (sanitize_player_name loud_bob))
    × (length (sanitize_player_name loud_bob) ≤ 16)
unfolding keeps_rune
sanitize_player_name-keeps_rune_example = sanitize_player_name-keeps_rune loud_bob
