-- ===== src/Game/Invariant/Calls.antt =====
-- The view after a granted `Move` or `Place`, and the invariant.
use bomber_cli.Base.{
  ℕ, ◌+◌, ◌≤◌, ◌≡◌, ◌∙◌, inl, inr, arith, if◌then◌else◌, ℤ, Bool, true, false, List, [], ◌∷◌, ◌++◌,
  All-get, All-set, All-map, All-snoc, AllPairs-snoc, length-set, Bool-cases, ◌==◌,
}
use bomber_cli.Game.Board.{Pos, pos_eq, inside_board, Grid}
use bomber_cli.Game.Board.Laws.{pos_eq_sym}
use bomber_cli.Game.Types.{
  max_range, Tile, floor, Power, no_power, capacity, range, speed, Player, Bomb, View,
}
use bomber_cli.Game.Rules.{upgraded, owned_bomb_count}
use bomber_cli.Game.Rules.Indices.{bomb_index-none, player_index-some}
use bomber_cli.Game.Rules.Moves.{CanMove, landed, after_move, shifted, survives}
use bomber_cli.Game.Rules.Placements.{CanPlace, dropped, with_bomb, active-with_bomb}
use bomber_cli.Game.Bombs.{active, Apart}
use bomber_cli.Game.Invariant.{IsPlaced, IsValid}

upgraded-IsPlaced :
    {tiles : Grid Tile} (p : Player) (w : Power) → IsPlaced tiles p → IsPlaced tiles (upgraded p w)
unfolding upgraded
upgraded-IsPlaced p no_power h = h
upgraded-IsPlaced p capacity h = record {
  inside = h.inside;
  standing = h.standing;
  named = h.named;
  capped = omega arith;
  ranged = h.ranged;
  slow = h.slow;
  fast = h.fast;
}
upgraded-IsPlaced p range h = record {
  inside = h.inside;
  standing = h.standing;
  named = h.named;
  capped = h.capped;
  ranged = omega arith;
  slow = h.slow;
  fast = h.fast;
}
upgraded-IsPlaced p speed h = record {
  inside = h.inside;
  standing = h.standing;
  named = h.named;
  capped = h.capped;
  ranged = h.ranged;
  slow = omega (arith, h.slow);
  fast = λ n. omega arith;
}

landed-IsPlaced :
    (v : View) (p : Player) (d : Pos) (now : ℕ)
    → IsPlaced v.tiles p
    → p.alive ≡ true
    → inside_board d ≡ true
    → v.tiles d ≡ floor
    → IsPlaced v.tiles (landed v p d now)
landed-IsPlaced v p d now h alive inside vacant = elim (Bool-cases (survives v d now)) [
  | inl e ↦ rw e (upgraded-IsPlaced _ (v.powers d) (arrived true))
  | inr e ↦ rw e (arrived false)
]
  where
    arrived :
        (b : Bool)
        → IsPlaced v.tiles (record p { pos = d; next_move = now + p.cooldown; alive = b })
    arrived b = record {
      inside = inside;
      standing = λ _. vacant;
      named = λ _. h.named alive;
      capped = h.capped;
      ranged = h.ranged;
      slow = h.slow;
      fast = h.fast;
    }

pub after_move-IsValid :
    (v : View) (id : ℕ) (dx dy : ℤ) (now i : ℕ) (p : Player)
    → IsValid v
    → CanMove v id dx dy now i p
    → IsValid (after_move v i p (shifted p.pos dx dy) now)
after_move-IsValid v id dx dy now i p h c =
    let d = shifted p.pos dx dy in
    let placed = All-get (IsPlaced v.tiles) v.players i h.placed c.slot in
    record {
      four = length-set v.players i (landed v p d now) ∙ h.four;
      twenty = h.twenty;
      armed = record {
        counted = h.armed.counted;
        inside = h.armed.inside;
        floored = h.armed.floored;
        apart = h.armed.apart;
      };
      placed =
          All-set (IsPlaced v.tiles) v.players i h.placed
            (landed-IsPlaced v p d now placed c.alive c.inside c.vacant);
      ranged = h.ranged;
      owned = h.owned;
      hidden = λ q. ground (arith, h.hidden q);
      walled = h.walled;
    }

owned-snoc :
    (xs : List Bomb) (b : Bomb) (id : ℕ)
    → owned_bomb_count (xs ++ b ∷ []) id ≡ owned_bomb_count xs id + (if b.owner == id then 1 else 0)
unfolding owned_bomb_count
owned-snoc [] b id = omega arith
owned-snoc (x ∷ xs) b id = omega (arith, owned-snoc xs b id)

pub with_bomb-IsValid :
    (v : View) (id now i : ℕ) (p : Player)
    → IsValid v
    → CanPlace v id i p
    → IsValid (with_bomb v (dropped p id now))
with_bomb-IsValid v id now i p h c =
    let b = dropped p id now in
    let (q, at, same, named, lt) = player_index-some v.players id i c.found in
    let placed = All-get (IsPlaced v.tiles) v.players i h.placed c.slot in
    let grown = active-with_bomb v b c.room in
    record {
      four = h.four;
      twenty = length-set v.bombs v.bomb_count b ∙ h.twenty;
      armed = record {
        counted = omega (arith, c.room, length-set v.bombs v.bomb_count b);
        inside =
            rw grown
              (All-snoc (λ x. inside_board x.pos ≡ true) (active v) h.armed.inside placed.inside);
        floored = rw grown (
            All-snoc (λ x. v.tiles x.pos ≡ floor) (active v) h.armed.floored
              (placed.standing (placed.named c.alive)));
        apart = rw grown (
            AllPairs-snoc Apart (active v) b h.armed.apart (
              All-map (λ x. pos_eq x.pos p.pos ≡ false) (λ x. Apart x b) (active v)
                (λ x. pos_eq_sym x.pos p.pos) (bomb_index-none (active v) p.pos c.free)));
      };
      placed = h.placed;
      ranged = rw grown (All-snoc (λ x. x.range ≤ max_range) (active v) h.ranged placed.ranged);
      owned = λ k.
          rw grown (ground (arith, owned-snoc (active v) b k, h.owned k, c.below, placed.capped));
      hidden = h.hidden;
      walled = h.walled;
    }
