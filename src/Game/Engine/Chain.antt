-- ===== src/Game/Engine/Chain.antt =====
-- The recursion of `explode`, on fuel for the bombs in use.
use bomber_cli.Base.{
  ℕ, zero, suc, ◌+◌, ◌≤◌, ◌<◌, ◌≡◌, refl, sym, some_inj, ◌∙◌, inl, arith, Sublistᴰ, Sublist-trans,
  erase_at-Sublist, All-get, All-const, Returns, Returns-bind, Returns-map, ◌>>=◌, true, ◌∈◌,
}
use bomber_cli.Game.Board.{Pos, inside_board}
use bomber_cli.Game.Types.{flame_duration, floor, View, Rand, Game}
use bomber_cli.Game.Bombs.{active, IsArmed}
use bomber_cli.Game.Engine.{directions, explode}
use bomber_cli.Game.Engine.Blasted.{Blasted, Blasted-trans, IsArmed-Blasted}
use bomber_cli.Game.Engine.Reach.{Burns, burning-Blasted, Reaches-Blasted}
use bomber_cli.Game.Engine.Removal.{
  remove_bomb_lem, without_bomb, length-without_bomb, active-without_bomb,
}
use bomber_cli.Game.Engine.Explosion.{Exploded, Explodes, ignite-Blasted, propagate_all-Blasted}

module _ (t i : ℕ) (v : View) (h : IsArmed v) (used : i < v.bomb_count) where
  fewer : Sublistᴰ (active (without_bomb i v)) (active v)
  fewer = rw (active-without_bomb i v used h.counted) (erase_at-Sublist i (active v))

  Blasted-without_bomb : Blasted t v (without_bomb i v)
  Blasted-without_bomb = record {
    players = refl;
    started = refl;
    now = refl;
    over = refl;
    winner = refl;
    size = length-without_bomb i v used h.counted;
    counted = omega arith;
    fewer = fewer;
    tiles = λ p. inl refl;
    powers = λ p. inl refl;
    flames = λ p. inl refl;
    spared =
        All-const (λ b. v.flames b.pos ≡ v.flames b.pos) (active (without_bomb i v)) (λ b. refl);
  }

explode-Explodes : {r : Rand} (t fuel : ℕ) → Explodes {r = r} t fuel (explode fuel t)
unfolding explode
explode-Explodes t zero i g h used enough = absurd (omega arith)
explode-Explodes {r} t (suc fuel) i g h used enough =
    let v = g.view in
    let (b, e, at) = remove_bomb_lem i v used h.counted in
    let g1 : Game r = record g { view = without_bomb i v } in
    let x = Blasted-without_bomb t i v h used in
    let armed = IsArmed-Blasted h x in
    let rule = explode-Explodes {r = r} t fuel in
    let on_floor = All-get (λ c. v.tiles c.pos ≡ floor) (active v) i h.floored at in
    rw (e, ◌>>=◌)
      (Returns-bind
        (λ lit. Blasted t g1.view lit.view × (lit.view.flames b.pos ≡ t + flame_duration))
        (λ g'. Exploded t i v g'.view) _
        (ignite-Blasted t fuel (explode fuel t) rule b.pos g1
          (All-get (λ c. inside_board c.pos ≡ true) (active v) i h.inside at) (λ w. ground arith)
          armed (omega arith))
        λ lit (y, centre).
          Returns-map
            (λ g'.
              Blasted t lit.view g'.view
              × ((d : Pos) → d ∈ directions → Burns t lit.view g'.view b.pos d 1 b.range))
            (λ g'. Exploded t i v g'.view)
            (λ g' (z, rays). record {
              blasted = Blasted-trans x (Blasted-trans y z);
              taken =
                  rw (active-without_bomb i v used h.counted) at (Sublist-trans y.fewer z.fewer);
              fire = λ c same.
                  let eq : c ≡ b = some_inj (sym same ∙ at) in
                  rw eq (record {
                    centre = burning-Blasted b.pos z centre;
                    rays =
                        λ d m k lo hi w. rays d m k lo hi (Reaches-Blasted y (Reaches-Blasted x w));
                  });
            })
            (propagate_all-Blasted t fuel (explode fuel t) rule b directions lit
              (IsArmed-Blasted armed y) (omega (arith, y.counted))))

-- On bombs that are in range of the array and lie on different floor cells of the board, `explode` of
-- the bomb in the slot `i` returns, given fuel for the bombs in use. It takes that bomb out, its
-- centre and every cell that its blast reaches up to its range burn, and the chain reaction only
-- removes bombs, turns blocks into floor, uncovers power-ups on floor and lights cells that are on
-- the board and no wall, none of them under a bomb that is left.
pub explode-Exploded :
    {r : Rand} (t fuel i : ℕ) (g : Game r)
    → IsArmed g.view
    → i < g.view.bomb_count
    → g.view.bomb_count ≤ fuel
    → Returns (λ g'. Exploded t i g.view g'.view) (explode fuel t i g)
explode-Exploded t fuel i g h used enough = explode-Explodes t fuel i g h used enough
