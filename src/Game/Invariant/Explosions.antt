-- ===== src/Game/Invariant/Explosions.antt =====
-- Chain reactions and the invariant of a view.
use bomber_cli.Base.{ℕ, ◌≤◌, ◌≡◌, ◌∙◌, arith, List, Sublistᴰ, All-Sublist, All-map}
use mathlib.Core.List.Sublistᴰ.{slnil, cons, cons-cons}
use bomber_cli.Game.Board.{Grid}
use bomber_cli.Game.Types.{max_range, Tile, floor, Player, Bomb, View}
use bomber_cli.Game.Rules.{owned_bomb_count}
use bomber_cli.Game.Engine.Blasted.{Blasted, IsArmed-Blasted}
use bomber_cli.Game.Invariant.{IsPlaced, IsValid}

owned-Sublist :
    (id : ℕ) {xs ys : List Bomb} → Sublistᴰ xs ys → owned_bomb_count xs id ≤ owned_bomb_count ys id
unfolding owned_bomb_count
owned-Sublist id slnil = omega arith
owned-Sublist id (cons s) = omega (arith, owned-Sublist id s)
owned-Sublist id (cons-cons e s) = rw e (omega (arith, owned-Sublist id s))

-- Floor stays floor, so that whoever stands somewhere may stay there.
pub IsPlaced-tiles :
    {old new : Grid Tile} (p : Player)
    → (old p.pos ≡ floor → new p.pos ≡ floor)
    → IsPlaced old p
    → IsPlaced new p
IsPlaced-tiles p kept h = record {
  inside = h.inside;
  standing = λ n. kept (h.standing n);
  named = h.named;
  capped = h.capped;
  ranged = h.ranged;
  slow = h.slow;
  fast = h.fast;
}

pub count-le-max_bombs : {v : View} → IsValid v → v.bomb_count ≤ 20
count-le-max_bombs h = omega (arith, h.armed.counted, h.twenty)

pub IsValid-Blasted : {t : ℕ} {v w : View} → IsValid v → Blasted t v w → IsValid w
IsValid-Blasted {t} {v} {w} h b = record {
  four = rw b.players h.four;
  twenty = b.size ∙ h.twenty;
  armed = IsArmed-Blasted h.armed b;
  placed = rw b.players (
      All-map (IsPlaced v.tiles) (IsPlaced w.tiles) v.players
        (λ p. IsPlaced-tiles p (λ e. ground (arith, b.tiles p.pos))) h.placed);
  ranged = All-Sublist (λ c. c.range ≤ max_range) b.fewer h.ranged;
  owned = λ id. omega (arith, owned-Sublist id b.fewer, h.owned id);
  hidden = λ p. ground (arith, b.powers p, b.tiles p, h.hidden p);
  walled = λ p. (
    λ e. (h.walled p).0 (ground (arith, b.tiles p)),
    λ e. ground (arith, b.tiles p, (h.walled p).1 e),
  );
}
