-- ===== src/Game/Board.antt =====
-- Positions and the fixed-size arrays [Height][Width] of internal/game (game.go, rules.go).
-- A coordinate is a Go `int`; every coordinate that the code computes is a board coordinate plus or
-- minus at most MaxRange, so none overflows.
pub mod Laws
use bomber_cli.Base.{
  ℕ, ℤ, pos, negsuc, ◌+ℤ◌, ◌*ℤ◌, ltb_ℤ, leb_ℤ, eq_ℤ, Bool, ◌&&◌, ◌||◌, if◌then◌else◌, Result, ok,
  err, panic,
}

abbrev pub width : ℕ
width = 15

abbrev pub height : ℕ
height = 13

pub record Pos : Type 0 where
  pub x : ℤ
  pub y : ℤ

-- Go's `==` on two values of type Pos.
abbrev pub pos_eq : Pos → Pos → Bool
pos_eq p q = eq_ℤ p.x q.x && eq_ℤ p.y q.y

unfoldable pub inside_board : Pos → Bool
inside_board p =
    leb_ℤ (pos 0) p.x && leb_ℤ (pos 0) p.y && ltb_ℤ p.x (pos width) && ltb_ℤ p.y (pos height)

unfoldable pub cardinal_step : ℤ → ℤ → Bool
cardinal_step dx dy =
    eq_ℤ dx (pos 0) && (eq_ℤ dy (negsuc 0) || eq_ℤ dy (pos 1))
    || eq_ℤ dy (pos 0) && (eq_ℤ dx (negsuc 0) || eq_ℤ dx (pos 1))

-- Pos{p.X + d.X*distance, p.Y + d.Y*distance}
unfoldable pub offset : Pos → Pos → ℕ → Pos
offset p d distance = record { x = p.x +ℤ d.x *ℤ pos distance; y = p.y +ℤ d.y *ℤ pos distance }

-- An array [Height][Width]A is a function, read and written on the board only: an index out of
-- range panics.
abbrev pub Grid : Type 0 → Type 0
Grid A = Pos → A

module _ {A : Type 0} where
  unfoldable pub read : Grid A → Pos → Result A
  read g p = if inside_board p then ok (g p) else err panic

  abbrev pub update : Grid A → Pos → A → Grid A
  update g p a q = if pos_eq q p then a else g q

  unfoldable pub write : Grid A → Pos → A → Result (Grid A)
  write g p a = if inside_board p then ok (update g p a) else err panic
