-- ===== src/Game/Invariant.antt =====
-- What holds of a view between any two calls of the engine.
pub mod Explosions
pub mod Calls
pub mod Ticks
pub mod Start
pub mod Deadline
use bomber_cli.Base.{ℕ, ◌≤◌, ◌≡◌, ◌≢◌, ◌↔◌, ◌⊎◌, true, List, length, All}
use bomber_cli.Game.Board.{Pos, inside_board, Grid}
use bomber_cli.Game.Types.{
  max_players, max_capacity, max_range, max_bombs, min_cooldown, initial_cooldown, Tile, floor,
  wall, no_power, Player, View,
}
use bomber_cli.Game.Rules.{owned_bomb_count}
use bomber_cli.Game.Setup.{wall_position}
use bomber_cli.Game.Bombs.{active, IsArmed}

-- A player, on these tiles. Slots with the identifier 0 are empty.
pub record IsPlaced (tiles : Grid Tile) (p : Player) : Type 0 where
  pub inside : inside_board p.pos ≡ true
  pub standing : p.id ≢ 0 → tiles p.pos ≡ floor
  pub named : p.alive ≡ true → p.id ≢ 0
  pub capped : p.capacity ≤ max_capacity
  pub ranged : p.range ≤ max_range
  pub slow : p.cooldown ≤ initial_cooldown
  pub fast : p.id ≢ 0 → min_cooldown ≤ p.cooldown

pub record IsValid (v : View) : Type 0 where
  pub four : length v.players ≡ max_players
  pub twenty : length v.bombs ≡ max_bombs
  pub armed : IsArmed v
  pub placed : All (IsPlaced v.tiles) v.players
  pub ranged : All (λ b. b.range ≤ max_range) (active v)
  pub owned : (id : ℕ) → owned_bomb_count (active v) id ≤ max_capacity
  pub hidden : (p : Pos) → (v.powers p ≡ no_power) ⊎ (v.tiles p ≡ floor)
  pub walled : (p : Pos) → (v.tiles p ≡ wall) ↔ (wall_position p ≡ true)
