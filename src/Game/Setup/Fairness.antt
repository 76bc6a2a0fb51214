-- ===== src/Game/Setup/Fairness.antt =====
-- The board of a new round is the same from every corner.
use bomber_cli.Base.{
  ℕ, zero, suc, ◌-◌, ◌<◌, ◌≡◌, refl, ap, ◌∙◌, inl, inr, arith, ℤ, pos, negsuc, ◌-ℤ◌, Bool, true,
  false, not, ◌&&◌, List, All, Bool-cases, ltb,
}
use bomber_cli.Game.Board.{width, height, Pos, pos_eq, inside_board, cardinal_step}
use bomber_cli.Game.Board.Laws.{pos_eq_iff}
use bomber_cli.Game.Types.{Tile, floor, Rand}
use bomber_cli.Game.Setup.{
  BlockPattern, spawns, wall_position, spawn_exit, folded, initial_tile, initial_tiles,
  initial_view, new, sample_blocks,
}

-- The test holds of all numbers below a bound.
abbrev below : ℕ → (ℕ → Bool) → Bool
below zero test = true
below (suc n) test = test n && below n test

and_true : (a b : Bool) → (a && b) ≡ true → (a ≡ true) × (b ≡ true)
and_true true b e = (refl, e)
and_true false b e = cc

below-at : (n k : ℕ) (test : ℕ → Bool) → below n test ≡ true → k < n → test k ≡ true
below-at zero k test e h = absurd (omega (arith, h))
below-at (suc n) k test e h =
    let (last, rest) = and_true (test n) (below n test) e in
    elim (Bool-cases (ltb k n)) [
      | inl f ↦ below-at n k test rest (ground (arith, f))
      | inr f ↦ let same : k ≡ n = ground (arith, f, h) in rw same last
    ]

-- The position on the other side, from left to right and from top to bottom.
abbrev pub beside : Pos → Pos
beside p = record p { x = pos (width - 1) -ℤ p.x }

abbrev pub opposite : Pos → Pos
opposite p = record p { y = pos (height - 1) -ℤ p.y }

abbrev bool_eq : Bool → Bool → Bool
bool_eq true b = b
bool_eq false b = not b

bool_eq_sound : (a b : Bool) → bool_eq a b ≡ true → a ≡ b
bool_eq_sound true true e = refl
bool_eq_sound true false e = cc
bool_eq_sound false true e = cc
bool_eq_sound false false e = refl

-- A wall, an exit and the read of the pattern are the same at two positions.
abbrev is_alike : Pos → Pos → Bool
is_alike p q =
    bool_eq (wall_position p) (wall_position q)
    && bool_eq (spawn_exit p) (spawn_exit q)
    && pos_eq (folded p) (folded q)

abbrev at : ℕ → ℕ → Pos
at a b = record { x = pos a; y = pos b }

-- Tested at every position of the board.
all_alike :
    (below 15 (λ a. below 13 (λ b. is_alike (beside (at a b)) (at a b))) ≡ true)
    × (below 15 (λ a. below 13 (λ b. is_alike (opposite (at a b)) (at a b))) ≡ true)
unfolding wall_position spawn_exit folded cardinal_step ◌-ℤ◌
all_alike = (refl, refl)

alike_tiles :
    (p q : Pos) (blocks : BlockPattern)
    → is_alike p q ≡ true
    → initial_tile p blocks ≡ initial_tile q blocks
unfolding initial_tile
alike_tiles p q blocks e =
    let (alike, reads) = and_true _ _ e in
    let (walls, exits) = and_true _ _ alike in
    let same_wall = bool_eq_sound (wall_position p) (wall_position q) walls in
    let same_exit = bool_eq_sound (spawn_exit p) (spawn_exit q) exits in
    let same_read : folded p ≡ folded q = (pos_eq_iff (folded p) (folded q)).0 reads in
    rw same_wall rw same_exit rw same_read refl

alike_beside : (a b : ℕ) → a < 15 → b < 13 → is_alike (beside (at a b)) (at a b) ≡ true
alike_beside a b la lb =
    below-at 13 b (λ b. is_alike (beside (at a b)) (at a b))
      (below-at 15 a (λ a. below 13 (λ b. is_alike (beside (at a b)) (at a b))) all_alike.0 la) lb

alike_opposite : (a b : ℕ) → a < 15 → b < 13 → is_alike (opposite (at a b)) (at a b) ≡ true
alike_opposite a b la lb =
    below-at 13 b (λ b. is_alike (opposite (at a b)) (at a b))
      (below-at 15 a (λ a. below 13 (λ b. is_alike (opposite (at a b)) (at a b))) all_alike.1 la) lb

-- The position is free, and two ways lead from it to a free neighbour, one of each direction.
pub record IsOpen (tiles : Pos → Tile) (p : Pos) : Type 0 where
  pub free : tiles p ≡ floor
  pub along :
      (q : Pos) × (q.y ≡ p.y) × (cardinal_step (q.x -ℤ p.x) (q.y -ℤ p.y) ≡ true) × (tiles q ≡ floor)
  pub across :
      (q : Pos) × (q.x ≡ p.x) × (cardinal_step (q.x -ℤ p.x) (q.y -ℤ p.y) ≡ true) × (tiles q ≡ floor)

-- The same tiles beside and opposite of each position of the board.
abbrev pub IsSymmetric : (Pos → Tile) → Type 0
IsSymmetric tiles =
    (p : Pos)
    → inside_board p ≡ true
    → (tiles (beside p) ≡ tiles p) × (tiles (opposite p) ≡ tiles p)

on_board :
    (x y : ℤ)
    → inside_board (record { x = x; y = y }) ≡ true
    → (a : ℕ) × (b : ℕ) × (x ≡ pos a) × (y ≡ pos b) × (a < 15) × (b < 13)
unfolding inside_board
on_board (negsuc a) y h = absurd (ground (arith, h))
on_board (pos a) (negsuc b) h = absurd (ground (arith, h))
on_board (pos a) (pos b) h = (a, b, refl, refl, ground (arith, h), ground (arith, h))

initial_tiles-IsSymmetric : (blocks : BlockPattern) → IsSymmetric (initial_tiles blocks)
unfolding initial_tiles
initial_tiles-IsSymmetric blocks p h =
    let (a, b, same_x, same_y, la, lb) = on_board p.x p.y h in
    let same : p ≡ at a b =
      ap {A = ℤ} (λ x. record p { x = x }) same_x
      ∙ ap {A = ℤ} (λ y. record { x = pos a; y = y }) same_y in
    rw same (
      alike_tiles (beside (at a b)) (at a b) blocks (alike_beside a b la lb),
      alike_tiles (opposite (at a b)) (at a b) blocks (alike_opposite a b la lb),
    )

spawns-IsOpen : (blocks : BlockPattern) → All (IsOpen (initial_tiles blocks)) spawns
unfolding initial_tiles initial_tile wall_position spawn_exit cardinal_step ◌-ℤ◌
spawns-IsOpen blocks = (
  record { free = refl; along = (at 2 1, refl, refl, refl); across = (at 1 2, refl, refl, refl) },
  (
    record {
      free = refl;
      along = (at 12 11, refl, refl, refl);
      across = (at 13 10, refl, refl, refl);
    },
    (
      record {
        free = refl;
        along = (at 12 1, refl, refl, refl);
        across = (at 13 2, refl, refl, refl);
      },
      (
        record {
          free = refl;
          along = (at 2 11, refl, refl, refl);
          across = (at 1 10, refl, refl, refl);
        },
        tt,
      ),
    ),
  ),
)

-- Whatever the seed draws, the board of a new round is the same from left to right and from top to
-- bottom, and at each spawn the player stands free and has a free neighbour in each direction.
pub new-IsSymmetric :
    (r : Rand) (ids : List ℕ) (now seed : ℕ)
    → let tiles = (new r ids now seed).view.tiles in IsSymmetric tiles × All (IsOpen tiles) spawns
unfolding new initial_view
new-IsSymmetric r ids now seed =
    let blocks = (sample_blocks r (r.new_source seed)).0 in
    (initial_tiles-IsSymmetric blocks, spawns-IsOpen blocks)
