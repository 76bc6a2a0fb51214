-- ===== src/Game/Types.antt =====
-- The data of internal/game/game.go. A time.Time is the number of nanoseconds since its zero value,
-- and a time.Duration that the rules only add or compare is a number of nanoseconds.
use bomber_cli.Base.{ℕ, ◌-◌, ◌*◌, ◌^◌, ◌<◌, ℤ, pos, negsuc, min, leb, if◌then◌else◌, Bool, List}
use bomber_cli.Base.{false}
use bomber_cli.Game.Board.{Pos, Grid}

abbrev pub max_players : ℕ
max_players = 4

abbrev pub max_capacity : ℕ
max_capacity = 5

abbrev pub max_range : ℕ
max_range = 8

abbrev pub max_bombs : ℕ
max_bombs = max_players * max_capacity

abbrev pub millisecond : ℕ
millisecond = 1_000_000

abbrev pub second : ℕ
second = 1000 * millisecond

abbrev pub round_duration : ℕ
round_duration = 180 * second

abbrev pub bomb_fuse : ℕ
bomb_fuse = 2 * second

abbrev pub flame_duration : ℕ
flame_duration = 500 * millisecond

abbrev pub initial_cooldown : ℕ
initial_cooldown = 100 * millisecond

abbrev pub min_cooldown : ℕ
min_cooldown = 25 * millisecond

-- time.Time{}
abbrev pub zero_time : ℕ
zero_time = 0

abbrev pub max_duration : ℕ
max_duration = 2 ^ 63 - 1

-- t.Sub(u), which saturates at the ends of int64.
unfoldable pub sub_time : ℕ → ℕ → ℤ
sub_time t u =
    if leb u t then pos (min (t - u) max_duration) else negsuc (min (u - t - 1) max_duration)

pub data Tile : Type 0 where
  floor wall block : Tile

-- `no_power` is the source's None.
pub data Power : Type 0 where
  no_power capacity range speed : Power

-- Identifiers are uint64 values; 0 marks an empty slot.
pub record Player : Type 0 where
  pub id : ℕ
  pub pos : Pos
  pub alive : Bool
  pub capacity : ℕ
  pub range : ℕ
  pub cooldown : ℕ
  pub next_move : ℕ

pub record Bomb : Type 0 where
  pub pos : Pos
  pub owner : ℕ
  pub range : ℕ
  pub due : ℕ

-- `players` and `bombs` are the arrays [MaxPlayers]Player and [MaxPlayers * MaxCapacity]Bomb.
pub record View : Type 0 where
  pub tiles : Grid Tile
  pub powers : Grid Power
  pub flames : Grid ℕ
  pub players : List Player
  pub bombs : List Bomb
  pub bomb_count : ℕ
  pub started : ℕ
  pub now : ℕ
  pub over : Bool
  pub winner : ℕ

abbrev pub origin : Pos
origin = record { x = pos 0; y = pos 0 }

-- Player{} and Bomb{}
abbrev pub empty_player : Player
empty_player = record {
  id = 0;
  pos = origin;
  alive = false;
  capacity = 0;
  range = 0;
  cooldown = 0;
  next_move = zero_time;
}

abbrev pub empty_bomb : Bomb
empty_bomb = record { pos = origin; owner = 0; range = 0; due = zero_time }

-- math/rand: a generator that a seed determines, and `Intn n`, which lies below n.
pub record Rand : Type 1 where
  pub Source : Type 0
  pub new_source : ℕ → Source
  pub intn : ℕ → Source → ℕ × Source
  pub intn_lt : (n : ℕ) (s : Source) → 0 < n → (intn n s).0 < n

pub record Game (r : Rand) : Type 0 where
  pub view : View
  pub rng : r.Source
