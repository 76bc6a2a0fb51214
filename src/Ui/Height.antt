-- ===== src/Ui/Height.antt =====
-- How many lines the screens of internal/ui/render.go have.
use bomber_cli.Base.{
  ℕ, ℤ, pos, zero, suc, ◌+◌, ◌≤◌, ◌==◌, ◌≡◌, refl, subst, Returns, inl, inr, arith, Bool, true,
  false, Option, none, some, [], ◌∷◌, ◌++◌, All, Text, codes, decimal, decimal-IsDigit, Bool-cases,
  Result, ok, err, or_panic, sub_ℕ, ◌>>=◌, get_elem?, ltb,
}
use bomber_cli.Game.Types.{View, Tile, floor, wall, block, Power, no_power, capacity, range, speed}
use bomber_cli.Game.Board.{Pos, read, width, height}
use bomber_cli.Game.Rules.{bombs_in_use}
use bomber_cli.Ui.Board.{
  paint, is_odd_beat, pulsing_bomb_cell, terrain_cell, calm_cell, lit_cell, board_cell, row_cells,
  board_rows, render_board, player_colors, player_on, bomb_on,
}

abbrev one_if : Bool → ℕ
one_if true = 1
one_if false = 0

abbrev pub newlines : Text → ℕ
newlines [] = 0
newlines (c ∷ s) = one_if (c == 10) + newlines s

pub newlines-append : (s t : Text) → newlines (s ++ t) ≡ newlines s + newlines t
newlines-append [] t = omega arith
newlines-append (c ∷ s) t = omega (arith, newlines-append s t)

pub newlines-decimal : (n : ℕ) → newlines (decimal n) ≡ 0
newlines-decimal n = plain (decimal n) (decimal-IsDigit n)
  where
    plain : (s : Text) → All (λ c. (48 ≤ c) × (c ≤ 57)) s → newlines s ≡ 0
    plain [] h = refl
    plain (c ∷ s) h =
        let other : (c == 10) ≡ false = ground (arith, h.0) in rw other (omega (arith, plain s h.1))

-- What holds of the result if there is one.
abbrev pub IfOk : {A : Type 0} → (A → Type 0) → Result A → Type 0
IfOk P (ok a) = P a
IfOk P (err x) = Unit

pub IfOk-bind :
    {A B : Type 0} (P : A → Type 0) (Q : B → Type 0) (m : Result A) (f : A → Result B)
    → IfOk P m
    → ((a : A) → P a → IfOk Q (f a))
    → IfOk Q (m >>= f)
IfOk-bind P Q (ok a) f h k = k a h
IfOk-bind P Q (err x) f h k = tt

pub IfOk-map :
    {A : Type 0} (P Q : A → Type 0) (m : Result A) → ((a : A) → P a → Q a) → IfOk P m → IfOk Q m
IfOk-map P Q (ok a) f h = f a h
IfOk-map P Q (err x) f h = tt

-- A call that returns, for which something holds of the result if there is one.
pub Returns-IfOk :
    {A : Type 0} (P Q : A → Type 0) (m : Result A) → Returns P m → IfOk Q m → Returns Q m
Returns-IfOk P Q m h k = record {
  value = h.value;
  returns = h.returns;
  holds = subst (IfOk Q) h.returns k;
}

abbrev Anything : {A : Type 0} → A → Type 0
Anything a = Unit {0}

anything : {A : Type 0} (m : Result A) → IfOk Anything m
anything (ok a) = tt
anything (err x) = tt

pub newlines-paint :
    (s : Text) (color : ℕ) (enabled : Bool) → newlines (paint s color enabled) ≡ newlines s
newlines-paint s color false = refl
newlines-paint s color true = simp newlines-append rw (newlines-decimal color) (omega arith)

terrain_plain : (tile : Tile) (power : Power) → newlines (terrain_cell tile power).0 ≡ 0
terrain_plain tile capacity = refl
terrain_plain tile range = refl
terrain_plain tile speed = refl
terrain_plain wall no_power = refl
terrain_plain block no_power = refl
terrain_plain floor no_power = refl

pulsing_plain : (z : ℤ) → newlines (pulsing_bomb_cell z).0 ≡ 0
pulsing_plain z = elim (Bool-cases (is_odd_beat z)) [ inl e ↦ rw e refl | inr e ↦ rw e refl ]

abbrev IsPlainCell : Text × ℕ → Type 0
IsPlainCell (s, color) = newlines s ≡ 0

module _ (v : View) where
  calm_plain : (p : Pos) (o : Option ℕ) → IfOk IsPlainCell (calm_cell v p o)
  calm_plain p (some i) =
      IfOk-bind Anything IsPlainCell (or_panic (get_elem? player_colors i)) _ (anything _)
        λ color _.
          omega (arith, newlines-append (codes "P") (decimal (i + 1)), newlines-decimal (i + 1))
  calm_plain p none = IfOk-bind Anything IsPlainCell (bombs_in_use v) _ (anything _) λ bombs _.
      IfOk-bind Anything IsPlainCell (read v.tiles p) _ (anything _) λ tile _.
        IfOk-bind Anything IsPlainCell (read v.powers p) _ (anything _) λ power _.
          elim (Bool-cases (bomb_on p bombs)) [
            | inl e ↦ rw e (pulsing_plain (sub_ℕ v.now v.started))
            | inr e ↦ rw e (terrain_plain tile power)
          ]

  cell_plain : (p : Pos) → IfOk IsPlainCell (board_cell v p)
  unfolding board_cell
  cell_plain p =
      IfOk-bind Anything IsPlainCell (read v.flames p) _ (anything _)
        λ flame _. lit (ltb v.now flame)
    where
      lit : (b : Bool) → IfOk IsPlainCell (lit_cell v p b)
      lit true = refl
      lit false = calm_plain p (player_on p 0 v.players)

  row-newlines : (color : Bool) (y x n : ℕ) → IfOk (λ s. newlines s ≡ 0) (row_cells v color y x n)
  row-newlines color y x zero = refl
  row-newlines color y x (suc n) =
      IfOk-bind IsPlainCell (λ s. newlines s ≡ 0) _ _ (cell_plain (record { x = pos x; y = pos y }))
        λ (tile, code) plain.
          IfOk-bind (λ s. newlines s ≡ 0) (λ s. newlines s ≡ 0) _ _ (row-newlines color y (x + 1) n)
            λ rest none_left. omega (
              arith,
              newlines-append (paint tile code color) rest,
              newlines-paint tile code color,
              plain,
              none_left,
            )

  rows-newlines : (color : Bool) (y n : ℕ) → IfOk (λ s. newlines s ≡ n) (board_rows v color y n)
  rows-newlines color y zero = refl
  rows-newlines color y (suc n) =
      IfOk-bind (λ s. newlines s ≡ 0) (λ s. newlines s ≡ suc n) _ _ (row-newlines color y 0 width)
        λ row plain.
          IfOk-bind (λ s. newlines s ≡ n) (λ s. newlines s ≡ suc n) _ _
            (rows-newlines color (y + 1) n)
            λ rest more. omega (arith, newlines-append row (10 ∷ rest), plain, more)

  pub render_board-newlines : (color : Bool) → IfOk (λ s. newlines s ≡ 13) (render_board v color)
  unfolding render_board
  render_board-newlines color = rows-newlines color 0 height
