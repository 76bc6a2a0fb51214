-- ===== src/Game/Setup.antt =====
-- How a round begins: internal/game/setup.go, with `Spawns` and `New` of game.go.
pub mod Fairness
use bomber_cli.Base.{
  ℕ, zero, suc, ◌+◌, ◌-◌, ◌/◌, ◌%◌, ◌==◌, ltb, if◌then◌else◌, ℤ, pos, negsuc, ◌-ℤ◌, leb_ℤ, eq_ℤ,
  Bool, true, false, ◌&&◌, ◌||◌, List, [], ◌∷◌,
}
use bomber_cli.Game.Board.{width, height, Pos, pos_eq, cardinal_step, Grid, update}
use bomber_cli.Game.Types.{
  initial_cooldown, zero_time, Tile, floor, wall, block, no_power, Player, View, empty_player,
  empty_bomb, max_bombs, Rand, Game,
}
use bomber_cli.Base.{replicate}

abbrev pub spawns : List Pos
spawns =
    record { x = pos 1; y = pos 1 }
    ∷ record { x = pos (width - 2); y = pos (height - 2) }
    ∷ record { x = pos (width - 2); y = pos 1 }
    ∷ record { x = pos 1; y = pos (height - 2) }
    ∷ []

-- n%2 == 0 on a Go int.
abbrev pub is_even : ℤ → Bool
is_even (pos n) = n % 2 == 0
is_even (negsuc n) = (n + 1) % 2 == 0

unfoldable pub wall_position : Pos → Bool
wall_position p =
    eq_ℤ p.x (pos 0)
    || eq_ℤ p.y (pos 0)
    || eq_ℤ p.x (pos (width - 1))
    || eq_ℤ p.y (pos (height - 1))
    || is_even p.x && is_even p.y

spawn_exit_of : List Pos → Pos → Bool
spawn_exit_of [] p = false
spawn_exit_of (spawn ∷ rest) p =
    pos_eq p spawn || cardinal_step (p.x -ℤ spawn.x) (p.y -ℤ spawn.y) || spawn_exit_of rest p

unfoldable pub spawn_exit : Pos → Bool
unfolding spawn_exit_of
spawn_exit p = spawn_exit_of spawns p

-- The array [Height/2 + 1][Width/2 + 1]bool, read at the folded coordinates of a position.
abbrev pub BlockPattern : Type 0
BlockPattern = Pos → Bool

abbrev pub min_ℤ : ℤ → ℤ → ℤ
min_ℤ a b = if leb_ℤ a b then a else b

-- The coordinates at which `initialTile` reads the pattern.
unfoldable pub folded : Pos → Pos
folded p = record {
  x = min_ℤ p.x (pos (width - 1) -ℤ p.x);
  y = min_ℤ p.y (pos (height - 1) -ℤ p.y);
}

unfoldable pub initial_tile : Pos → BlockPattern → Tile
initial_tile p blocks =
    if wall_position p
    then wall
    else if spawn_exit p
    then floor
    else if blocks (folded p)
    then block
    else floor

unfoldable pub initial_tiles : BlockPattern → Grid Tile
initial_tiles blocks p = initial_tile p blocks

unfoldable pub initial_players_at : List Pos → List ℕ → List Player
initial_players_at [] ids = []
initial_players_at (spawn ∷ rest) [] = empty_player ∷ initial_players_at rest []
initial_players_at (spawn ∷ rest) (id ∷ ids) =
    record {
      id = id;
      pos = spawn;
      alive = true;
      capacity = 1;
      range = 2;
      cooldown = initial_cooldown;
      next_move = zero_time;
    }
    ∷ initial_players_at rest ids

-- Identifiers from the fifth on are dropped, as by ids[:min(len(ids), MaxPlayers)].
unfoldable pub initial_players : List ℕ → List Player
unfolding initial_players_at
initial_players ids = initial_players_at spawns ids

unfoldable pub initial_view : List ℕ → ℕ → BlockPattern → View
unfolding initial_tiles initial_players
initial_view ids now blocks = record {
  tiles = initial_tiles blocks;
  powers = λ _. no_power;
  flames = λ _. zero_time;
  players = initial_players ids;
  bombs = replicate max_bombs empty_bomb;
  bomb_count = 0;
  started = now;
  now = now;
  over = false;
  winner = 0;
}

module _ (r : Rand) where
  -- A wall position draws no random number.
  sample_cell : Pos → BlockPattern × r.Source → BlockPattern × r.Source
  sample_cell p (blocks, rng) =
      let (roll, rng') = r.intn 100 rng in
      if wall_position p
      then (update blocks p false, rng)
      else (update blocks p (ltb roll 65), rng')

  -- `rounds` columns from `x` on.
  sample_row : ℕ → ℕ → ℕ → BlockPattern × r.Source → BlockPattern × r.Source
  sample_row zero x y s = s
  sample_row (suc rounds) x y s =
      sample_row rounds (x + 1) y (sample_cell (record { x = pos x; y = pos y }) s)

  sample_rows : ℕ → ℕ → BlockPattern × r.Source → BlockPattern × r.Source
  sample_rows zero y s = s
  sample_rows (suc rounds) y s = sample_rows rounds (y + 1) (sample_row (width / 2) 1 y s)

  unfoldable pub sample_blocks : r.Source → BlockPattern × r.Source
  unfolding sample_cell sample_row sample_rows
  sample_blocks rng = sample_rows (height / 2) 1 (λ _. false, rng)

  -- game.New
  unfoldable pub new : List ℕ → ℕ → ℕ → Game r
  unfolding sample_blocks initial_view
  new ids now seed =
      let (blocks, rng) = sample_blocks (r.new_source seed) in
      record { view = initial_view ids now blocks; rng = rng }
