-- ===== src/Game/Tests.antt =====
-- A round of two players, as data, and the theorems of the game on it.
use bomber_cli.Base.{
  ℕ, ◌+◌, ◌%◌, ◌≡◌, ◌≢◌, refl, arith, pos, negsuc, ◌*◌, true, some, List, [], ◌∷◌, length,
  get_elem?, erase_at, index_of, All, Returns,
}
use native.Mathlib.Nat.{mod-lt}
use bomber_cli.Game.Setup.{spawns}
use bomber_cli.Game.Setup.Fairness.{IsSymmetric, IsOpen, new-IsSymmetric}
use bomber_cli.Base.{All}
use bomber_cli.Game.Types.{second, Rand, Game, Player, View, empty_player, round_duration}
use bomber_cli.Game.Rules.{player_index, bomb_index, owned_bomb_count}
use bomber_cli.Game.Rules.Moves.{MoveOutcome}
use bomber_cli.Game.Rules.Placements.{CanPlace, dropped, with_bomb, PlaceOutcome}
use bomber_cli.Game.Setup
use bomber_cli.Game.Setup.{new, initial_view}
use bomber_cli.Game.Bombs.{active}
use bomber_cli.Game.Engine.{remove_bomb, explode, detonate_triggered_bombs, tick, move, place}
use bomber_cli.Game.Engine.Removal.{remove_bomb-erase_at}
use bomber_cli.Game.Engine.Blasted.{Blasted}
use bomber_cli.Game.Engine.Explosion.{Exploded}
use bomber_cli.Game.Engine.Chain.{explode-Exploded}
use bomber_cli.Game.Engine.Detonation.{IsCalm, detonate_triggered_bombs-Settles}
use bomber_cli.Game.Invariant.{IsValid}
use bomber_cli.Game.Invariant.Calls.{with_bomb-IsValid}
use bomber_cli.Game.Invariant.Start.{initial_view-IsValid}
use bomber_cli.Game.Invariant.Ticks.{Ticked, tick-Ticked}
use bomber_cli.Game.Invariant.Deadline.{tick-over}
use bomber_cli.Game.Round.{
  Call, moves, places, removes, ticks, play, move-IsValid, place-IsValid, play-new-IsValid,
}

-- A generator that counts up.
abbrev counter : Rand
counter = record {
  Source = ℕ;
  new_source = λ seed. seed;
  intn = λ n s. (s % n, s + 1);
  intn_lt = λ n s h. mod-lt s h;
}

abbrev two_ids : List ℕ
two_ids = 7 ∷ 9 ∷ []

two_ids_named : All (λ id. id ≢ 0) two_ids
two_ids_named = ((ground arith), ((ground arith), tt))

-- Blocks wherever there may be one.
abbrev quiet_view : View
quiet_view = initial_view two_ids 0 (λ _. true)

quiet_view-IsValid : IsValid quiet_view
quiet_view-IsValid = initial_view-IsValid two_ids 0 (λ _. true) two_ids_named

abbrev player_seven : Player
player_seven = record {
  id = 7;
  pos = record { x = pos 1; y = pos 1 };
  alive = true;
  capacity = 1;
  range = 2;
  cooldown = 100_000_000;
  next_move = 0;
}

-- The player 7 drops a bomb at the time 0.
abbrev bombed_view : View
bombed_view = with_bomb quiet_view (dropped player_seven 7 0)

player_seven-CanPlace : CanPlace quiet_view 7 0 player_seven
unfolding initial_view Setup.initial_players Setup.initial_players_at player_index bomb_index
    owned_bomb_count index_of
player_seven-CanPlace = record {
  found = refl;
  slot = refl;
  running = refl;
  room = omega arith;
  alive = refl;
  free = refl;
  below = omega arith;
}

bombed_view-IsValid : IsValid bombed_view
bombed_view-IsValid =
    with_bomb-IsValid quiet_view 7 0 0 player_seven quiet_view-IsValid player_seven-CanPlace

abbrev quiet : Game counter
quiet = record { view = quiet_view; rng = 1 }

abbrev bombed : Game counter
bombed = record { view = bombed_view; rng = 1 }

abbrev calls : List (ℕ × Call)
calls =
    (0, places 7)
    ∷ (0, moves 7 (pos 1) (pos 0))
    ∷ (1 * second, moves 9 (negsuc 0) (pos 0))
    ∷ (2 * second, ticks)
    ∷ (3 * second, removes 9)
    ∷ (4 * second, ticks)
    ∷ []

play-new-IsValid_example : Returns (λ g. IsValid g.view) (play calls (new counter two_ids 0 42))
play-new-IsValid_example = play-new-IsValid counter two_ids 0 42 calls two_ids_named

tick-Ticked_example :
    Returns (λ g'. Ticked (2 * second) bombed_view g'.view) (tick (2 * second) bombed)
unfolding initial_view
tick-Ticked_example = tick-Ticked (2 * second) bombed bombed_view-IsValid refl

explode-Exploded_example :
    Returns (λ g'. Exploded (2 * second) 0 bombed_view g'.view) (explode 1 (2 * second) 0 bombed)
unfolding initial_view
explode-Exploded_example =
    explode-Exploded (2 * second) 1 0 bombed bombed_view-IsValid.armed (omega arith) (omega arith)

detonate_triggered_bombs-Settles_example :
    Returns
      (λ g'.
        Blasted (2 * second) bombed_view g'.view
        × All (IsCalm (2 * second) g'.view.flames) (active g'.view))
      (detonate_triggered_bombs (2 * second) bombed)
unfolding initial_view
detonate_triggered_bombs-Settles_example =
    detonate_triggered_bombs-Settles (2 * second) bombed bombed_view-IsValid.armed (omega arith)

tick-over_example : Returns (λ g'. g'.view.over ≡ true) (tick round_duration bombed)
unfolding initial_view
tick-over_example = tick-over round_duration bombed bombed_view-IsValid refl (omega arith)

move-IsValid_example :
    Returns
      (λ (g', moved).
        MoveOutcome bombed_view 7 (pos 1) (pos 0) 1 (g'.view, moved)
        × IsValid g'.view
        × (g'.rng ≡ 1))
      (move 7 (pos 1) (pos 0) 1 bombed)
move-IsValid_example = move-IsValid bombed bombed_view-IsValid 7 (pos 1) (pos 0) 1

place-IsValid_example :
    Returns
      (λ (g', placed).
        PlaceOutcome quiet_view 7 0 (g'.view, placed) × IsValid g'.view × (g'.rng ≡ 1))
      (place 7 0 quiet)
place-IsValid_example = place-IsValid quiet quiet_view-IsValid 7 0

remove_bomb-erase_at_example :
    Returns
      (λ (b, w).
        (get_elem? (active bombed_view) 0 ≡ some b)
        × (active w ≡ erase_at 0 (active bombed_view))
        × (w.bomb_count + 1 ≡ bombed_view.bomb_count)
        × (length w.bombs ≡ length bombed_view.bombs))
      (remove_bomb 0 bombed_view)
unfolding initial_view
remove_bomb-erase_at_example = remove_bomb-erase_at 0 bombed_view (omega arith) (omega arith)

abbrev dead_nine : Player
dead_nine = record empty_player { id = 9 }

new-IsSymmetric_example :
    IsSymmetric (new counter two_ids 0 42).view.tiles
    × All (IsOpen (new counter two_ids 0 42).view.tiles) spawns
new-IsSymmetric_example = new-IsSymmetric counter two_ids 0 42
