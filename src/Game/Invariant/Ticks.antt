-- ===== src/Game/Invariant/Ticks.antt =====
-- `Tick` of a running round, on a valid view.
use bomber_cli.Base.{
  ℕ, ◌+◌, ◌≡◌, refl, ap, ◌∙◌, ◌⊎◌, arith, Bool, true, false, List, [], ◌∷◌, map, length, All,
  Sublistᴰ, All-map, ok, Returns, Returns-ok, Returns-bind, ◌>>=◌,
}
use bomber_cli.Game.Board.{Pos, inside_board, Grid}
use bomber_cli.Game.Types.{flame_duration, sub_time, Tile, Player, View, Rand, Game}
use bomber_cli.Game.Rules.{active_flames, outcome}
use bomber_cli.Game.Rules.Survival.{scorched, surviving_players_lem}
use bomber_cli.Game.Bombs.{active}
use bomber_cli.Game.Engine.{tick, running_tick, detonate_triggered_bombs, detonation_fuel}
use bomber_cli.Game.Engine.Detonation.{IsCalm, Settles, detonate-Settles}
use bomber_cli.Game.Invariant.{IsPlaced, IsValid}
use bomber_cli.Game.Invariant.Explosions.{IsValid-Blasted, count-le-max_bombs}

-- The fields that the invariant does not read.
IsValid-clock :
    (v : View) (flames : Grid ℕ) (now : ℕ) (over : Bool) (winner : ℕ)
    → IsValid v
    → IsValid (record v { flames = flames; now = now; over = over; winner = winner })
IsValid-clock v flames now over winner h = record {
  four = h.four;
  twenty = h.twenty;
  armed = record {
    counted = h.armed.counted;
    inside = h.armed.inside;
    floored = h.armed.floored;
    apart = h.armed.apart;
  };
  placed = h.placed;
  ranged = h.ranged;
  owned = h.owned;
  hidden = h.hidden;
  walled = h.walled;
}

pub IsValid-players :
    (v : View) (players : List Player) (over : Bool) (winner : ℕ)
    → length players ≡ length v.players
    → All (IsPlaced v.tiles) players
    → IsValid v
    → IsValid (record v { players = players; over = over; winner = winner })
IsValid-players v players over winner e placed h = record {
  four = e ∙ h.four;
  twenty = h.twenty;
  armed = record {
    counted = h.armed.counted;
    inside = h.armed.inside;
    floored = h.armed.floored;
    apart = h.armed.apart;
  };
  placed = placed;
  ranged = h.ranged;
  owned = h.owned;
  hidden = h.hidden;
  walled = h.walled;
}

pub IsPlaced-dead :
    {tiles : Grid Tile} (p : Player)
    → IsPlaced tiles p
    → IsPlaced tiles (record p { alive = false })
IsPlaced-dead p h = record {
  inside = h.inside;
  standing = h.standing;
  named = λ e. cc;
  capped = h.capped;
  ranged = h.ranged;
  slow = h.slow;
  fast = h.fast;
}

scorched-IsPlaced :
    (tiles : Grid Tile) (flames : Grid ℕ) (t : ℕ) (ps : List Player)
    → All (IsPlaced tiles) ps
    → All (IsPlaced tiles) (map (scorched flames t) ps)
scorched-IsPlaced tiles flames t [] h = tt
scorched-IsPlaced tiles flames t (p ∷ ps) h =
    (ground (arith, IsPlaced-dead p h.0, h.0), scorched-IsPlaced tiles flames t ps h.1)

length-map-scorched :
    (flames : Grid ℕ) (t : ℕ) (ps : List Player) → length (map (scorched flames t) ps) ≡ length ps
length-map-scorched flames t [] = refl
length-map-scorched flames t (p ∷ ps) = omega (arith, length-map-scorched flames t ps)

-- From the running view `v` to `w`, at the time `t`.
pub record Ticked (t : ℕ) (v w : View) : Type 0 where
  pub valid : IsValid w
  pub clock : w.now ≡ t
  pub started : w.started ≡ v.started
  -- No bomb that is left is due, or lies in fire.
  pub calm : All (IsCalm t w.flames) (active w)
  pub fewer : Sublistᴰ (active w) (active v)
  -- A flame of before that has burnt out is gone; the others are of before, or fresh.
  pub flames :
      (p : Pos)
      → (w.flames p ≡ active_flames v.flames t p)
        ⊎ (w.flames p ≡ t + flame_duration) × (inside_board p ≡ true)
  -- The living in the fire die, and nobody else.
  pub players : w.players ≡ map (scorched w.flames t) v.players
  pub verdict : (w.over, w.winner) ≡ outcome w.players (sub_time t v.started)

running_tick-Ticked :
    {r : Rand} (t : ℕ) (g : Game r)
    → IsValid g.view
    → Returns (λ g'. Ticked t g.view g'.view) (running_tick t g)
unfolding running_tick detonate_triggered_bombs
running_tick-Ticked {r} t g h =
    let v = g.view in
    let g0 : Game r = record g { view = record v { now = t; flames = active_flames v.flames t } } in
    let h0 = IsValid-clock v (active_flames v.flames t) t v.over v.winner h in
    (Returns-bind (Settles t g0) (λ g'. Ticked t v g'.view) _
      (detonate-Settles t detonation_fuel 0 g0 h0.armed (count-le-max_bombs h)
        (omega (arith, count-le-max_bombs h)) (λ j b lt. absurd (omega arith)))
      λ g1 (b, calm).
        let h1 = IsValid-Blasted h0 b in
        let ps = map (scorched g1.view.flames t) g1.view.players in
        rw
          (
            surviving_players_lem g1.view.players g1.view.flames t
                (All-map (IsPlaced g1.view.tiles) _ g1.view.players (λ p x. x.inside) h1.placed),
            ◌>>=◌,
          )
          (Returns-ok _ (record {
            valid =
                IsValid-players g1.view ps _ _
                  (length-map-scorched g1.view.flames t g1.view.players)
                  (scorched-IsPlaced g1.view.tiles g1.view.flames t g1.view.players h1.placed) h1;
            clock = b.now;
            started = b.started;
            calm = calm;
            fewer = b.fewer;
            flames = λ p. ground (arith, b.flames p);
            players = ap (map (scorched g1.view.flames t)) b.players;
            verdict = ap (λ s. outcome ps (sub_time t s)) b.started;
          })))

tick_running : {r : Rand} (t : ℕ) (g : Game r) → g.view.over ≡ false → tick t g ≡ running_tick t g
unfolding tick
tick_running t g e = ground arith

pub tick_over : {r : Rand} (t : ℕ) (g : Game r) → g.view.over ≡ true → tick t g ≡ ok g
unfolding tick
tick_over t g e = ground arith

-- On a valid view of a round that is not over, `Tick` returns. The view stays valid; burnt-out flames
-- are gone and fresh ones burn for the flame duration; no bomb that is left is due or in fire; the
-- living players in fire die, and nobody else; the verdict is `outcome` of the players and the time.
pub tick-Ticked :
    {r : Rand} (t : ℕ) (g : Game r)
    → IsValid g.view
    → g.view.over ≡ false
    → Returns (λ g'. Ticked t g.view g'.view) (tick t g)
tick-Ticked t g h e = rw (tick_running t g e) (running_tick-Ticked t g h)
