-- ===== src/Game/Engine/Blasted.antt =====
-- What any part of a chain reaction may do to a view.
use bomber_cli.Base.{
  ℕ, ◌+◌, ◌≤◌, ◌≡◌, refl, ◌∙◌, ◌≢◌, ◌⊎◌, inl, inr, arith, true, false, length, All, Sublistᴰ,
  Sublist-refl, Sublist-trans, All-Sublist, AllPairs-Sublist, All-map, All-both, All-const,
  Bool-cases,
}
use bomber_cli.Game.Board.{Pos, pos_eq, inside_board, Grid, update}
use bomber_cli.Game.Board.Laws.{pos_eq_iff, update_self, update_ne}
use bomber_cli.Game.Types.{flame_duration, Tile, Power, floor, wall, block, Power, no_power, View}
use bomber_cli.Game.Bombs.{active, Apart, IsArmed}

-- From `v` to `w`, at the time `t`: bombs only disappear, blocks only become floor, power-ups only
-- appear on floor, a flame is unchanged or fresh (and then on the board and not on a wall), and no
-- fresh flame lies under a bomb that is left.
pub record Blasted (t : ℕ) (v w : View) : Type 0 where
  pub players : w.players ≡ v.players
  pub started : w.started ≡ v.started
  pub now : w.now ≡ v.now
  pub over : w.over ≡ v.over
  pub winner : w.winner ≡ v.winner
  pub size : length w.bombs ≡ length v.bombs
  pub counted : w.bomb_count ≤ v.bomb_count
  pub fewer : Sublistᴰ (active w) (active v)
  pub tiles : (p : Pos) → (w.tiles p ≡ v.tiles p) ⊎ (v.tiles p ≡ block) × (w.tiles p ≡ floor)
  pub powers :
      (p : Pos) → (w.powers p ≡ v.powers p) ⊎ ((w.powers p ≡ no_power) ⊎ (w.tiles p ≡ floor))
  pub flames :
      (p : Pos)
      → (w.flames p ≡ v.flames p)
        ⊎ (w.flames p ≡ t + flame_duration) × (inside_board p ≡ true) × (v.tiles p ≢ wall)
  pub spared : All (λ b. w.flames b.pos ≡ v.flames b.pos) (active w)

-- The view with the cell `p` set on fire.
abbrev pub lit_at : ℕ → Pos → View → View
lit_at t p v = record v {
  flames = update v.flames p (t + flame_duration);
  powers = update v.powers p no_power;
}

module _ {t : ℕ} where
  -- Changes of cells alone.
  pub Blasted-cells :
      (v : View) (tiles : Grid Tile) (powers : Grid Power)
      → ((p : Pos) → (tiles p ≡ v.tiles p) ⊎ (v.tiles p ≡ block) × (tiles p ≡ floor))
      → ((p : Pos) → (powers p ≡ v.powers p) ⊎ ((powers p ≡ no_power) ⊎ (tiles p ≡ floor)))
      → Blasted t v (record v { tiles = tiles; powers = powers })
  Blasted-cells v tiles powers ht hp = record {
    players = refl;
    started = refl;
    now = refl;
    over = refl;
    winner = refl;
    size = refl;
    counted = omega arith;
    fewer = Sublist-refl (active v);
    tiles = ht;
    powers = hp;
    flames = λ p. inl refl;
    spared = All-const (λ b. v.flames b.pos ≡ v.flames b.pos) (active v) (λ b. refl);
  }

  pub Blasted-refl : (v : View) → Blasted t v v
  Blasted-refl v = Blasted-cells v v.tiles v.powers (λ p. inl refl) (λ p. inl refl)

  pub Blasted-trans : {v w u : View} → Blasted t v w → Blasted t w u → Blasted t v u
  Blasted-trans {v} {w} {u} a b = record {
    players = b.players ∙ a.players;
    started = b.started ∙ a.started;
    now = b.now ∙ a.now;
    over = b.over ∙ a.over;
    winner = b.winner ∙ a.winner;
    size = b.size ∙ a.size;
    counted = omega arith;
    fewer = Sublist-trans a.fewer b.fewer;
    tiles = λ p. ground (arith, a.tiles p, b.tiles p);
    powers = λ p. ground (arith, a.powers p, b.powers p, b.tiles p);
    flames = λ p. ground (arith, a.flames p, b.flames p, a.tiles p);
    spared =
        All-map _ (λ c. u.flames c.pos ≡ v.flames c.pos) (active u) (λ c h. h.0 ∙ h.1)
          (All-both (λ c. u.flames c.pos ≡ w.flames c.pos) (λ c. w.flames c.pos ≡ v.flames c.pos)
            (active u) b.spared
            (All-Sublist (λ c. w.flames c.pos ≡ v.flames c.pos) b.fewer a.spared));
  }

  pub IsArmed-Blasted : {v w : View} → IsArmed v → Blasted t v w → IsArmed w
  IsArmed-Blasted {v} {w} h b = record {
    counted = omega (arith, h.counted, b.size, b.counted);
    inside = All-Sublist (λ b. inside_board b.pos ≡ true) b.fewer h.inside;
    floored =
        All-map _ (λ c. w.tiles c.pos ≡ floor) (active w) (λ c e. ground (arith, b.tiles c.pos))
          (All-Sublist (λ c. v.tiles c.pos ≡ floor) b.fewer h.floored);
    apart = AllPairs-Sublist Apart b.fewer h.apart;
  }

  -- What follows the lighting of a cell, if no bomb is left on the cell.
  pub Blasted-lit_at :
      {v w : View} (p : Pos)
      → inside_board p ≡ true
      → v.tiles p ≢ wall
      → Blasted t (lit_at t p v) w
      → All (λ b. pos_eq b.pos p ≡ false) (active w)
      → Blasted t v w
  Blasted-lit_at {v} {w} p inside free b gone = record {
    players = b.players;
    started = b.started;
    now = b.now;
    over = b.over;
    winner = b.winner;
    size = b.size;
    counted = b.counted;
    fewer = b.fewer;
    tiles = b.tiles;
    powers = λ q. ground (arith, b.powers q, pos_eq_iff q p);
    flames = λ q. elim (Bool-cases (pos_eq q p)) [
      | inl e ↦
          let same : q ≡ p = (pos_eq_iff q p).0 e in
          rw same (ground (arith, b.flames p, update_self v.flames p (t + flame_duration)))
      | inr e ↦ ground (arith, b.flames q, update_ne v.flames p (t + flame_duration) q e)
    ];
    spared =
        All-map _ (λ c. w.flames c.pos ≡ v.flames c.pos) (active w)
          (λ c h. h.0 ∙ update_ne v.flames p (t + flame_duration) c.pos h.1)
          (All-both (λ c. w.flames c.pos ≡ (lit_at t p v).flames c.pos)
            (λ c. pos_eq c.pos p ≡ false) (active w) b.spared gone);
  }
