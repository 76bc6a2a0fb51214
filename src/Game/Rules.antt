-- ===== src/Game/Rules.antt =====
-- The pure rules of internal/game/rules.go.
pub mod Indices
pub mod Moves
pub mod Placements
pub mod Survival
use bomber_cli.Base.{
  ℕ, ◌+◌, ◌-◌, min, max, ◌==◌, ltb, leb, if◌then◌else◌, ℤ, ◌+ℤ◌, pos, leb_ℤ, Bool, true, false, not,
  ◌&&◌, ◌||◌, is_some, Option, none, some, List, [], ◌∷◌, length, take, get_elem?, set, index_of,
  Result, ok, err, panic, or_panic, ◌>>=◌,
}
use bomber_cli.Game.Board.{Pos, pos_eq, inside_board, cardinal_step, Grid, read, write}
use bomber_cli.Game.Types.{
  max_capacity, max_range, min_cooldown, round_duration, bomb_fuse, zero_time, Tile, floor, Power,
  no_power, capacity, range, speed, Player, Bomb, View,
}

unfoldable pub upgraded : Player → Power → Player
upgraded p capacity = record p { capacity = min (p.capacity + 1) max_capacity }
upgraded p range = record p { range = min (p.range + 1) max_range }
upgraded p speed = record p { cooldown = max (p.cooldown - min_cooldown) min_cooldown }
upgraded p no_power = p

-- The loop of `outcome` over its variables `alive` and `winner`.
survivors : List Player → ℕ → ℕ → ℕ × ℕ
survivors [] alive winner = (alive, winner)
survivors (p ∷ ps) alive winner =
    survivors ps (if p.alive then alive + 1 else alive) (if p.alive then p.id else winner)

unfoldable pub outcome : List Player → ℤ → Bool × ℕ
unfolding survivors
outcome players elapsed =
    let (alive, winner) = survivors players 0 0 in
    if leb alive 1 then (true, winner) else (leb_ℤ (pos round_duration) elapsed, 0)

unfoldable pub player_index : List Player → ℕ → Option ℕ
player_index players id = index_of (λ p. not (id == 0) && p.id == id) players

unfoldable pub bomb_index : List Bomb → Pos → Option ℕ
bomb_index bombs position = index_of (λ b. pos_eq b.pos position) bombs

unfoldable pub owned_bomb_count : List Bomb → ℕ → ℕ
owned_bomb_count [] id = 0
owned_bomb_count (b ∷ bs) id = (if b.owner == id then 1 else 0) + owned_bomb_count bs id

-- view.Bombs[:view.BombCount]
unfoldable pub bombs_in_use : View → Result (List Bomb)
bombs_in_use v =
    if leb v.bomb_count (length v.bombs) then ok (take v.bomb_count v.bombs) else err panic

abbrev pub is_floor : Tile → Bool
is_floor floor = true
is_floor _ = false

-- The last lines of `movedView`: the player stands on the destination.
unfoldable pub arrived_view : View → ℕ → Player → Pos → ℕ → Result (View × Bool)
arrived_view v index player destination now = do
  flame ← read v.flames destination
  let arrived = record player {
    pos = destination;
    next_move = now + player.cooldown;
    alive = not (ltb now flame);
  }
  if arrived.alive
      then (do
        power ← read v.powers destination
        powers ← write v.powers destination no_power
        ok (
          record v { players = set v.players index (upgraded arrived power); powers = powers },
          true,
        ))
      else ok (record v { players = set v.players index arrived }, true)

-- `movedView` from the check of the destination on; `||` reads the bombs only on a floor tile.
unfoldable pub entered_view : View → ℕ → Player → Pos → ℕ → Result (View × Bool)
entered_view v index player destination now = do
  tile ← read v.tiles destination
  if not (is_floor tile) then ok (v, false) else (do
    bombs ← bombs_in_use v
    if is_some (bomb_index bombs destination)
        then ok (v, false)
        else arrived_view v index player destination now)

unfoldable pub moved_view : View → ℕ → ℤ → ℤ → ℕ → Result (View × Bool)
moved_view v id dx dy now = elim (player_index v.players id) [
  | none ↦ ok (v, false)
  | some index ↦ if v.over || not (cardinal_step dx dy) then ok (v, false) else (do
    player ← or_panic (get_elem? v.players index)
    let destination : Pos = record { x = player.pos.x +ℤ dx; y = player.pos.y +ℤ dy }
    if not player.alive || ltb now player.next_move || not (inside_board destination)
        then ok (v, false)
        else entered_view v index player destination now)
]

-- `viewWithBomb` from the read of the player on.
unfoldable pub placed_view : View → ℕ → ℕ → ℕ → Result (View × Bool)
placed_view v index id now = do
  player ← or_panic (get_elem? v.players index)
  bombs ← bombs_in_use v
  if not player.alive
        || is_some (bomb_index bombs player.pos)
        || leb player.capacity (owned_bomb_count bombs id)
      then ok (v, false)
      else (let bomb : Bomb = record {
        pos = player.pos;
        owner = id;
        range = player.range;
        due = now + bomb_fuse;
      } in
          ok (
            record v { bombs = set v.bombs v.bomb_count bomb; bomb_count = v.bomb_count + 1 },
            true,
          ))

unfoldable pub view_with_bomb : View → ℕ → ℕ → Result (View × Bool)
view_with_bomb v id now = elim (player_index v.players id) [
  | none ↦ ok (v, false)
  | some index ↦
      if v.over || v.bomb_count == length v.bombs then ok (v, false) else placed_view v index id now
]

unfoldable pub players_without : List Player → ℕ → List Player
players_without players id = elim (player_index players id) [
  | none ↦ players
  | some index ↦ elim (get_elem? players index) [
    | none ↦ players
    | some player ↦ set players index (record player { alive = false })
  ]
]

unfoldable pub active_flames : Grid ℕ → ℕ → Grid ℕ
active_flames flames now p = if not (ltb now (flames p)) then zero_time else flames p

-- One round of the loop of `survivingPlayers`.
abbrev surviving : Grid ℕ → ℕ → Player → Result Player
surviving flames now p =
    if p.alive
    then (do
      flame ← read flames p.pos
      ok (if ltb now flame then record p { alive = false } else p))
    else ok p

unfoldable pub surviving_players : List Player → Grid ℕ → ℕ → Result (List Player)
surviving_players [] flames now = ok []
surviving_players (p ∷ ps) flames now = do
  player ← surviving flames now p
  rest ← surviving_players ps flames now
  ok (player ∷ rest)
