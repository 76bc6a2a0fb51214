-- ===== src/Game/Bombs.antt =====
-- The bombs of a round: the first BombCount entries of the array View.Bombs.
use bomber_cli.Base.{◌≤◌, ◌≡◌, true, false, List, length, take, All, AllPairs}
use bomber_cli.Game.Board.{pos_eq, inside_board}
use bomber_cli.Game.Types.{floor, Bomb, View}

abbrev pub active : View → List Bomb
active v = take v.bomb_count v.bombs

abbrev pub Apart : Bomb → Bomb → Type 0
Apart a b = pos_eq b.pos a.pos ≡ false

-- What the engine needs of the bombs to run without a panic: the slice is within the array, and
-- the bombs lie on different cells of the board, which are floor.
pub record IsArmed (v : View) : Type 0 where
  pub counted : v.bomb_count ≤ length v.bombs
  pub inside : All (λ b. inside_board b.pos ≡ true) (active v)
  pub floored : All (λ b. v.tiles b.pos ≡ floor) (active v)
  pub apart : AllPairs Apart (active v)
