-- ===== src/Ui/Cells.antt =====
-- The cells of the board in internal/ui/render.go.
use bomber_cli.Base.{
  subst, some_inj, ℕ, pos, sub_ℕ, zero, suc, ◌+◌, ◌<◌, ◌≤◌, ltb, ltb→lt, ◌≡◌, ◌⊎◌, refl, inl, inr,
  arith, if◌then◌else◌, Bool, true, false, Option, none, some, List, [], ◌∷◌, ◌++◌, get_elem?,
  get_elem?-lt, get_elem?-some-lt, ◌∈◌, All, Text, codes, decimal, Returns, Returns-ok,
  Returns-bind, Bool-cases,
}
use bomber_cli.Game.Types.{View, Player, Bomb}
use bomber_cli.Game.Board.{Pos, pos_eq, inside_board, width, height}
use bomber_cli.Game.Board.Laws.{pos_eq_iff, read_inside}
use bomber_cli.Game.Rules.Indices.{bombs_in_use_lem}
use bomber_cli.Game.Bombs.{active}
use bomber_cli.Game.Invariant.{IsValid}
use bomber_cli.Ui.Board.{
  stands_on, player_on, bomb_on, player_colors, pulsing_bomb_cell, terrain_cell, calm_cell,
  lit_cell, board_cell, row_cells, board_rows, render_board,
}

-- The last player who stands on the cell, counted from `i`; nobody behind does.
abbrev pub IsLast : Pos → ℕ → List Player → Option ℕ → Type 0
IsLast p i qs none = All (λ q. stands_on p q ≡ false) qs
IsLast p i qs (some j) =
    (k : ℕ) × (q : Player) × (j ≡ i + k)
    × (get_elem? qs k ≡ some q)
    × (stands_on p q ≡ true)
    × ((l : ℕ) (t : Player) → k < l → get_elem? qs l ≡ some t → stands_on p t ≡ false)

get_elem?-All :
    (P : Player → Type 0) (qs : List Player)
    → All P qs
    → (l : ℕ) (t : Player) → get_elem? qs l ≡ some t
    → P t
get_elem?-All P [] h l t e = cc
get_elem?-All P (q ∷ qs) h zero t e = subst P (some_inj e) h.0
get_elem?-All P (q ∷ qs) h (suc l) t e = get_elem?-All P qs h.1 l t e

player_on-IsLast : (p : Pos) (i : ℕ) (qs : List Player) → IsLast p i qs (player_on p i qs)
player_on-IsLast p i [] = tt
player_on-IsLast p i (q ∷ qs) = after (player_on p (i + 1) qs) (player_on-IsLast p (i + 1) qs)
  where
    after :
        (o : Option ℕ)
        → IsLast p (i + 1) qs o
        → IsLast p i
            (q ∷ qs)
            (elim o [ some j ↦ some j | none ↦ if stands_on p q then some i else none ])
    after (some j) (k, t, e, at, stands, last) =
        (suc k, t, omega arith, at, stands, λ l u lt found. behind l u lt found)
      where
        behind :
            (l : ℕ) (u : Player) → suc k < l → get_elem? (q ∷ qs) l ≡ some u → stands_on p u ≡ false
        behind zero u lt found = absurd (omega arith)
        behind (suc l) u lt found = last l u (omega arith) found
    after none all = elim (Bool-cases (stands_on p q)) [
      | inl e ↦ rw e (0, q, omega arith, refl, e, λ l u lt found. behind l u lt found)
      | inr e ↦ rw e (e, all)
    ]
      where
        behind :
            (l : ℕ) (u : Player) → 0 < l → get_elem? (q ∷ qs) l ≡ some u → stands_on p u ≡ false
        behind zero u lt found = absurd (omega arith)
        behind (suc l) u lt found = get_elem?-All (λ t. stands_on p t ≡ false) qs all l u found

bomb_on-cases :
    (p : Pos) (bs : List Bomb)
    → ((bomb_on p bs ≡ true) × ((b : Bomb) × (b ∈ bs) × (b.pos ≡ p)))
      ⊎ ((bomb_on p bs ≡ false) × All (λ b. pos_eq b.pos p ≡ false) bs)
bomb_on-cases p [] = inr (refl, tt)
bomb_on-cases p (b ∷ bs) = elim (Bool-cases (pos_eq b.pos p)) [
  | inl e ↦ rw e (inl (refl, (b, inl refl, (pos_eq_iff b.pos p).0 e)))
  | inr e ↦ rw e (elim (bomb_on-cases p bs) [
    | inl (f, (c, m, same)) ↦ inl (f, (c, inr m, same))
    | inr (f, none_there) ↦ inr (f, (refl, none_there))
  ])
]

-- What a cell shows, and why.
pub data CellOutcome (v : View) (p : Pos) : Text × ℕ → Type 0 where
  burning : v.now < v.flames p → CellOutcome v p (codes "**", 31)
  manned :
      (i : ℕ) (q : Player) (color : ℕ)
      → v.flames p ≤ v.now
      → get_elem? v.players i ≡ some q
      → stands_on p q ≡ true
      → ((l : ℕ) (t : Player) → i < l → get_elem? v.players l ≡ some t → stands_on p t ≡ false)
      → get_elem? player_colors i ≡ some color
      → CellOutcome v p (codes "P" ++ decimal (i + 1), color)
  mined :
      (b : Bomb)
      → v.flames p ≤ v.now
      → All (λ q. stands_on p q ≡ false) v.players
      → b ∈ active v
      → b.pos ≡ p
      → CellOutcome v p (pulsing_bomb_cell (sub_ℕ v.now v.started))
  bare :
      v.flames p ≤ v.now
      → All (λ q. stands_on p q ≡ false) v.players
      → All (λ b. pos_eq b.pos p ≡ false) (active v)
      → CellOutcome v p (terrain_cell (v.tiles p) (v.powers p))

module _ (v : View) (h : IsValid v) where
  calm-CellOutcome :
      (p : Pos)
      → inside_board p ≡ true
      → v.flames p ≤ v.now
      → (o : Option ℕ) → IsLast p 0 v.players o
      → Returns (CellOutcome v p) (calm_cell v p o)
  calm-CellOutcome p inside calm (some i) (k, q, same, at, stands, last) =
      let few : k < 4 = omega (arith, get_elem?-some-lt v.players k at, h.four) in
      let i_few : i < 4 = omega arith in
      let (color, painted) = get_elem?-lt player_colors i i_few in
      let here : k ≡ i = omega (arith, same) in
      rw painted (
        Returns-ok _ (
          manned i q color calm (rw (← here) at) stands
            (λ l t lt found. last l t (omega arith) found) painted))
  calm-CellOutcome p inside calm none nobody =
      rw (bombs_in_use_lem v h.armed.counted) rw (read_inside v.tiles p inside) rw
        (read_inside v.powers p inside)
        (elim (bomb_on-cases p (active v)) [
          | inl (f, (b, m, same)) ↦ rw f (Returns-ok _ (mined b calm nobody m same))
          | inr (f, none_there) ↦ rw f (Returns-ok _ (bare calm nobody none_there))
        ])

  -- On a valid view, each cell of the board is shown without a panic: fire if a flame burns there, else
  -- the last living player who stands there in the color of the slot, else a bomb, else the power-up or
  -- the tile.
  pub board_cell-CellOutcome :
      (p : Pos) → inside_board p ≡ true → Returns (CellOutcome v p) (board_cell v p)
  unfolding board_cell
  board_cell-CellOutcome p inside =
      rw (read_inside v.flames p inside, board_cell) (lit (ltb v.now (v.flames p)) refl)
    where
      lit :
          (fire : Bool)
          → ltb v.now (v.flames p) ≡ fire
          → Returns (CellOutcome v p) (lit_cell v p fire)
      lit true e = Returns-ok _ (burning (ltb→lt v.now (v.flames p) e))
      lit false e =
          calm-CellOutcome p inside (ground (arith, e)) (player_on p 0 v.players)
            (player_on-IsLast p 0 v.players)

  on_board :
      (x y : ℕ) → x < width → y < height → inside_board (record { x = pos x; y = pos y }) ≡ true
  unfolding inside_board
  on_board x y lx ly = ground (arith, lx, ly)

  row_cells-Returns :
      (color : Bool) (y x n : ℕ)
      → y < height
      → x + n ≤ width
      → Returns (λ s. Unit {0}) (row_cells v color y x n)
  row_cells-Returns color y x zero ly lx = Returns-ok _ tt
  row_cells-Returns color y x (suc n) ly lx =
      Returns-bind (CellOutcome v (record { x = pos x; y = pos y })) _ _
        (board_cell-CellOutcome (record { x = pos x; y = pos y }) (on_board x y (omega arith) ly))
        λ (tile, code) o.
          Returns-bind (λ s. Unit {0}) _ _ (row_cells-Returns color y (x + 1) n ly (omega arith))
            λ rest t. Returns-ok _ tt

  board_rows-Returns :
      (color : Bool) (y n : ℕ) → y + n ≤ height → Returns (λ s. Unit {0}) (board_rows v color y n)
  board_rows-Returns color y zero l = Returns-ok _ tt
  board_rows-Returns color y (suc n) l =
      Returns-bind (λ s. Unit {0}) _ _
        (row_cells-Returns color y 0 width (omega arith) (omega arith))
        λ row t.
          Returns-bind (λ s. Unit {0}) _ _ (board_rows-Returns color (y + 1) n (omega arith))
            λ rest u. Returns-ok _ tt

  pub render_board-Returns : (color : Bool) → Returns (λ s. Unit {0}) (render_board v color)
  unfolding render_board
  render_board-Returns color = board_rows-Returns color 0 height (omega arith)
