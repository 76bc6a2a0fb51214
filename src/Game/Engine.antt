-- ===== src/Game/Engine.antt =====
-- The methods of *Game in internal/game/game.go. Each returns the new game, or panics where the Go
-- code would index out of range.
pub mod Removal
pub mod Blasted
pub mod Reach
pub mod Explosion
pub mod Chain
pub mod Detonation
use bomber_cli.Base.{
  ℕ, zero, suc, ◌+◌, ◌-◌, ◌==◌, ltb, leb, if◌then◌else◌, ℤ, pos, negsuc, Bool, true, false, not,
  ◌&&◌, none, some, List, [], ◌∷◌, ◌++◌, length, take, drop, get_elem?, set, Result, ok, err, panic,
  out_of_fuel, or_panic, ◌>>=◌,
}
use bomber_cli.Game.Board.{Pos, inside_board, offset, Grid, read, write}
use bomber_cli.Game.Types.{
  flame_duration, sub_time, Tile, floor, wall, block, Power, no_power, capacity, range, speed, Bomb,
  View, empty_bomb, Rand, Game,
}
use bomber_cli.Game.Rules.{
  bomb_index, bombs_in_use, moved_view, view_with_bomb, players_without, active_flames,
  surviving_players, outcome,
}

abbrev pub is_wall : Tile → Bool
is_wall wall = true
is_wall _ = false

abbrev pub is_block : Tile → Bool
is_block block = true
is_block _ = false

-- Power(n), at the numbers that the code converts.
abbrev power_of : ℕ → Power
power_of n =
    if n == 1 then capacity else if n == 2 then range else if n == 3 then speed else no_power

-- copy(bombs[index:count-1], bombs[index+1:count])
abbrev shift_down : ℕ → ℕ → List Bomb → List Bomb
shift_down index count bombs =
    take index bombs
    ++ (take (count - (index + 1)) (drop (index + 1) bombs) ++ drop (count - 1) bombs)

unfoldable pub remove_bomb : ℕ → View → Result (Bomb × View)
remove_bomb index v = do
  bomb ← or_panic (get_elem? v.bombs index)
  if ltb index v.bomb_count && leb v.bomb_count (length v.bombs)
      then (let count = v.bomb_count - 1 in
          ok (
            bomb,
            record v {
              bombs = set (shift_down index v.bomb_count v.bombs) count empty_bomb;
              bomb_count = count;
            },
          ))
      else err panic

abbrev pub directions : List Pos
directions =
    record { x = pos 0; y = negsuc 0 }
    ∷ record { x = pos 1; y = pos 0 }
    ∷ record { x = pos 0; y = pos 1 }
    ∷ record { x = negsuc 0; y = pos 0 }
    ∷ []

-- !now.Before(bomb.Due) || now.Before(flames[bomb.Pos.Y][bomb.Pos.X])
unfoldable pub triggered : ℕ → Grid ℕ → Bomb → Result Bool
triggered now flames bomb =
    if not (ltb now bomb.due)
    then ok true
    else (do flame ← read flames bomb.pos; ok (ltb now flame))

-- More rounds than 20 bombs can cause: each explosion restarts the scan with a bomb less.
abbrev pub detonation_fuel : ℕ
detonation_fuel = 441

module _ {r : Rand} where
  unfoldable pub destroy_block : Pos → Game r → Result (Game r)
  destroy_block p g = do
    tiles ← write g.view.tiles p floor
    let (roll, rng) = r.intn 100 g.rng
    let (kind, rng') = r.intn 3 rng
    let opened = record g.view { tiles = tiles }
    if ltb roll 30
        then (do
          powers ← write opened.powers p (power_of (1 + kind))
          ok (record { view = record opened { powers = powers }; rng = rng' }))
        else ok (record { view = opened; rng = rng })

  -- `g.ignite`, with the call of `g.explode` as a parameter.
  unfoldable pub ignite : (ℕ → Game r → Result (Game r)) → Pos → ℕ → Game r → Result (Game r)
  ignite explode p now g = do
    flames ← write g.view.flames p (now + flame_duration)
    powers ← write g.view.powers p no_power
    let lit : Game r = record g { view = record g.view { flames = flames; powers = powers } }
    bombs ← bombs_in_use lit.view
    elim (bomb_index bombs p) [ none ↦ ok lit | some index ↦ explode index lit ]

  -- The loop of `g.propagateBlast`: `rounds` distances are left, and the next one is `distance`.
  unfoldable pub propagate :
      (ℕ → Game r → Result (Game r)) → ℕ → ℕ → Pos → Pos → ℕ → Game r → Result (Game r)
  propagate explode zero distance from direction now g = ok g
  propagate explode (suc rounds) distance from direction now g =
      let p = offset from direction distance in
      elim (inside_board p) [
        | false ↦ ok g
        | true ↦ do
          tile ← read g.view.tiles p
          elim (is_wall tile) [
            | true ↦ ok g
            | false ↦ do
              lit ← ignite explode p now g
              elim (is_block tile) [
                | true ↦ destroy_block p lit
                | false ↦ propagate explode rounds (distance + 1) from direction now lit
              ]
          ]
      ]

  unfoldable pub propagate_blast :
      (ℕ → Game r → Result (Game r)) → Bomb → Pos → ℕ → Game r → Result (Game r)
  propagate_blast explode bomb direction now g =
      propagate explode bomb.range 1 bomb.pos direction now g

  -- The loop of `g.explode` over the directions.
  unfoldable pub propagate_all :
      (ℕ → Game r → Result (Game r)) → Bomb → List Pos → ℕ → Game r → Result (Game r)
  propagate_all explode bomb [] now g = ok g
  propagate_all explode bomb (d ∷ ds) now g = do
    g' ← propagate_blast explode bomb d now g
    propagate_all explode bomb ds now g'

  -- One level of `g.explode` for each unit of fuel: each level removes a bomb.
  unfoldable pub explode : ℕ → ℕ → ℕ → Game r → Result (Game r)
  explode zero now index g = err out_of_fuel
  explode (suc fuel) now index g = do
    (bomb, view) ← remove_bomb index g.view
    lit ← ignite (explode fuel now) bomb.pos now (record g { view = view })
    propagate_all (explode fuel now) bomb directions now lit

  -- The loop of `g.detonateTriggeredBombs`, from the bomb `i` on.
  unfoldable pub detonate : ℕ → ℕ → ℕ → Game r → Result (Game r)
  detonate zero i now g = err out_of_fuel
  detonate (suc fuel) i now g = elim (ltb i g.view.bomb_count) [
    | false ↦ ok g
    | true ↦ do
      bomb ← or_panic (get_elem? g.view.bombs i)
      fire ← triggered now g.view.flames bomb
      elim fire [
        | true ↦ do g' ← explode g.view.bomb_count now i g; detonate fuel 0 now g'
        | false ↦ detonate fuel (i + 1) now g
      ]
  ]

  unfoldable pub detonate_triggered_bombs : ℕ → Game r → Result (Game r)
  detonate_triggered_bombs now g = detonate detonation_fuel 0 now g

  -- `g.Tick` behind its check of `g.Over`.
  unfoldable pub running_tick : ℕ → Game r → Result (Game r)
  running_tick now g = do
    let begun = record g.view { now = now; flames = active_flames g.view.flames now }
    g' ← detonate_triggered_bombs now (record g { view = begun })
    players ← surviving_players g'.view.players g'.view.flames now
    let (over, winner) = outcome players (sub_time now g'.view.started)
    ok (record g' { view = record g'.view { players = players; over = over; winner = winner } })

  unfoldable pub tick : ℕ → Game r → Result (Game r)
  tick now g = if g.view.over then ok g else running_tick now g

  unfoldable pub move : ℕ → ℤ → ℤ → ℕ → Game r → Result (Game r × Bool)
  move id dx dy now g = do
    (next, moved) ← moved_view g.view id dx dy now
    ok (record g { view = next }, moved)

  unfoldable pub place : ℕ → ℕ → Game r → Result (Game r × Bool)
  place id now g = do
    (next, placed) ← view_with_bomb g.view id now
    ok (record g { view = next }, placed)

  unfoldable pub remove : ℕ → Game r → Game r
  remove id g = record g { view = record g.view { players = players_without g.view.players id } }
