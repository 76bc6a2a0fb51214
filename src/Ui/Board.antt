-- ===== src/Ui/Board.antt =====
-- The board in internal/ui/render.go: what each cell shows, and the text of its rows.
use bomber_cli.Base.{
  ℕ, ℤ, pos, negsuc, sub_ℕ, zero, suc, ◌+◌, ◌*◌, ◌/◌, ◌%◌, ◌==◌, ltb, if◌then◌else◌, Bool, true,
  false, not, ◌&&◌, Option, none, some, List, [], ◌∷◌, ◌++◌, get_elem?, Text, codes, decimal,
  or_panic, Result, ok, ◌>>=◌,
}
use bomber_cli.Game.Types.{
  View, Player, Bomb, Tile, floor, wall, block, Power, no_power, capacity, range, speed,
  millisecond,
}
use bomber_cli.Game.Board.{Pos, pos_eq, read, width, height}
use bomber_cli.Game.Rules.{bombs_in_use}

-- fmt.Sprintf("\x1b[%dm%s\x1b[0m", color, s)
abbrev pub paint : Text → ℕ → Bool → Text
paint s color enabled =
    if not enabled then s else 27 ∷ codes "[" ++ decimal color ++ codes "m" ++ s ++ 27 ∷ codes "[0m"

abbrev pub stands_on : Pos → Player → Bool
stands_on p q = not (q.id == 0) && q.alive && pos_eq q.pos p

-- The loop over the slots from the last one down, for the slots from `i` on.
abbrev pub player_on : Pos → ℕ → List Player → Option ℕ
player_on p i [] = none
player_on p i (q ∷ qs) = elim (player_on p (i + 1) qs) [
  | some j ↦ some j
  | none ↦ if stands_on p q then some i else none
]

abbrev pub bomb_on : Pos → List Bomb → Bool
bomb_on p [] = false
bomb_on p (b ∷ bs) = if pos_eq b.pos p then true else bomb_on p bs

abbrev pub player_colors : List ℕ
player_colors = 36 ∷ 32 ∷ 35 ∷ 33 ∷ []

-- The quotient of a negative duration is not positive, and its remainder is never 1.
abbrev pub is_odd_beat : ℤ → Bool
is_odd_beat (pos n) = n / (250 * millisecond) % 2 == 1
is_odd_beat (negsuc n) = false

abbrev pub pulsing_bomb_cell : ℤ → Text × ℕ
pulsing_bomb_cell elapsed = if is_odd_beat elapsed then (codes "O*", 95) else (codes "o*", 35)

abbrev pub terrain_cell : Tile → Power → Text × ℕ
terrain_cell tile capacity = (codes "B+", 32)
terrain_cell tile range = (codes "R+", 32)
terrain_cell tile speed = (codes "S+", 32)
terrain_cell wall no_power = (codes "##", 34)
terrain_cell block no_power = (codes "[]", 33)
terrain_cell floor no_power = (codes "  ", 37)

-- What a cell without fire shows.
abbrev pub calm_cell : View → Pos → Option ℕ → Result (Text × ℕ)
calm_cell v p (some i) = do
  color ← or_panic (get_elem? player_colors i)
  ok (codes "P" ++ decimal (i + 1), color)
calm_cell v p none = do
  bombs ← bombs_in_use v
  tile ← read v.tiles p
  power ← read v.powers p
  ok (
      if bomb_on p bombs
      then pulsing_bomb_cell (sub_ℕ v.now v.started)
      else terrain_cell tile power)

-- `fire` says whether the flame of the cell burns.
abbrev pub lit_cell : View → Pos → Bool → Result (Text × ℕ)
lit_cell v p true = ok (codes "**", 31)
lit_cell v p false = calm_cell v p (player_on p 0 v.players)

unfoldable pub board_cell : View → Pos → Result (Text × ℕ)
board_cell v p = do flame ← read v.flames p; lit_cell v p (ltb v.now flame)

-- The cells of the row `y` from `x` on, and the rows from `y` on.
abbrev pub row_cells : View → Bool → ℕ → ℕ → ℕ → Result Text
row_cells v color y x zero = ok []
row_cells v color y x (suc n) = do
  (tile, code) ← board_cell v (record { x = pos x; y = pos y })
  rest ← row_cells v color y (x + 1) n
  ok (paint tile code color ++ rest)

abbrev pub board_rows : View → Bool → ℕ → ℕ → Result Text
board_rows v color y zero = ok []
board_rows v color y (suc n) = do
  row ← row_cells v color y 0 width
  rest ← board_rows v color (y + 1) n
  ok (row ++ 10 ∷ rest)

unfoldable pub render_board : View → Bool → Result Text
render_board v color = board_rows v color 0 height
