-- ===== src/Game/Engine/Reach.antt =====
-- The cells that a blast reaches from a bomb in one direction.
use bomber_cli.Base.{ℕ, ◌+◌, ◌≤◌, ◌<◌, ◌≡◌, ◌≢◌, ◌⊎◌, inl, inr, arith, true, suc}
use bomber_cli.Game.Board.{Pos, inside_board, offset}
use bomber_cli.Game.Types.{flame_duration, floor, wall, View}
use bomber_cli.Game.Engine.{is_block}
use bomber_cli.Game.Engine.Blasted.{Blasted}

-- The cell at distance `k` is on the board and no wall, and the cells from distance `s` up to it
-- are floor.
pub record Reaches (v : View) (from d : Pos) (s k : ℕ) : Type 0 where
  pub clear :
      (j : ℕ)
      → s ≤ j
      → j < k
      → (inside_board (offset from d j) ≡ true) × (v.tiles (offset from d j) ≡ floor)
  pub on_board : inside_board (offset from d k) ≡ true
  pub not_wall : v.tiles (offset from d k) ≢ wall

-- The cells that are reached at the next `n` distances burn in `w`.
abbrev pub Burns : ℕ → View → View → Pos → Pos → ℕ → ℕ → Type 0
Burns t v w from d s n =
    (k : ℕ)
    → s ≤ k
    → k < s + n
    → Reaches v from d s k
    → w.flames (offset from d k) ≡ t + flame_duration

le-cases : {a b : ℕ} → a ≤ b → (a ≡ b) ⊎ (a < b)
le-cases h = ground arith

module _ {v : View} {from d : Pos} {s k : ℕ} where
  pub Reaches-start :
      s ≤ k
      → Reaches v from d s k
      → (inside_board (offset from d s) ≡ true) × (v.tiles (offset from d s) ≢ wall)
  Reaches-start h r = elim (le-cases h) [
    | inl e ↦ rw e (r.on_board, r.not_wall)
    | inr lt ↦ let (on, free) = r.clear s (omega arith) lt in (on, ground arith)
  ]

  pub Reaches-next : Reaches v from d s k → Reaches v from d (s + 1) k
  Reaches-next r = record {
    clear = λ j lo hi. r.clear j (omega arith) hi;
    on_board = r.on_board;
    not_wall = r.not_wall;
  }

  pub Reaches-Blasted :
      {t : ℕ} {w : View} → Blasted t v w → Reaches v from d s k → Reaches w from d s k
  Reaches-Blasted b r = record {
    clear = λ j lo hi. ground (arith, b.tiles (offset from d j), r.clear j lo hi);
    on_board = r.on_board;
    not_wall = ground (arith, b.tiles (offset from d k), r.not_wall);
  }

pub burning-Blasted :
    {t : ℕ} {v w : View} (p : Pos)
    → Blasted t v w
    → v.flames p ≡ t + flame_duration
    → w.flames p ≡ t + flame_duration
burning-Blasted p b e = ground (arith, b.flames p)

module _ {t : ℕ} {v lit w : View} (from d : Pos) (s n : ℕ) where
  -- A block stops the blast: nothing behind it is reached.
  pub Burns-block :
      is_block (v.tiles (offset from d s)) ≡ true
      → lit.flames (offset from d s) ≡ t + flame_duration
      → Blasted t lit w
      → Burns t v w from d s (suc n)
  Burns-block solid burning c k lo hi r = elim (le-cases lo) [
    | inl same ↦ rw (← same) (burning-Blasted (offset from d s) c burning)
    | inr lt ↦ absurd (ground (arith, r.clear s (omega arith) lt))
  ]

  pub Burns-floor :
      Blasted t v lit
      → lit.flames (offset from d s) ≡ t + flame_duration
      → Blasted t lit w
      → Burns t lit w from d (s + 1) n
      → Burns t v w from d s (suc n)
  Burns-floor b burning c burns k lo hi r = elim (le-cases lo) [
    | inl same ↦ rw (← same) (burning-Blasted (offset from d s) c burning)
    | inr lt ↦ burns k (omega arith) (omega arith) (Reaches-Blasted b (Reaches-next r))
  ]
