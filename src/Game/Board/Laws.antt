-- ===== src/Game/Board/Laws.antt =====
-- Reads and writes of a board array at positions on the board.
use bomber_cli.Base.{eq_ℤ_iff, ◌≡◌, refl, ◌↔◌, true, false, ok, arith}
use bomber_cli.Game.Board.{Pos, pos_eq, inside_board, Grid, read, update, write}

pub pos_eq_iff : (p q : Pos) → (pos_eq p q ≡ true) ↔ (p ≡ q)
pos_eq_iff p q = (λ h. ground (arith, eq_ℤ_iff p.x q.x, eq_ℤ_iff p.y q.y), λ e. rw e (same q))
  where
    same : (q : Pos) → pos_eq q q ≡ true
    same q = rw ((eq_ℤ_iff q.x q.x).1 refl, (eq_ℤ_iff q.y q.y).1 refl)

pub pos_eq_refl : (p : Pos) → pos_eq p p ≡ true
pos_eq_refl p = (pos_eq_iff p p).1 refl

pub pos_eq_sym : (p q : Pos) → pos_eq p q ≡ false → pos_eq q p ≡ false
pos_eq_sym p q h = ground (arith, pos_eq_iff p q, pos_eq_iff q p)

module _ {A : Type 0} (g : Grid A) (p : Pos) where
  pub read_inside : inside_board p ≡ true → read g p ≡ ok (g p)
  unfolding read
  read_inside h = rw h

  pub write_inside : (a : A) → inside_board p ≡ true → write g p a ≡ ok (update g p a)
  unfolding write
  write_inside a h = rw h

  pub update_self : (a : A) → update g p a p ≡ a
  update_self a = rw (pos_eq_refl p)

  pub update_ne : (a : A) (q : Pos) → pos_eq q p ≡ false → update g p a q ≡ g q
  update_ne a q h = rw h
