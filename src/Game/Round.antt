-- ===== src/Game/Round.antt =====
-- A whole round: any sequence of calls on a game, as the room that owns it makes them.
use bomber_cli.Base.{
  ℕ, ◌≡◌, refl, ◌≢◌, inl, inr, ℤ, Bool, false, List, [], ◌∷◌, All, All-get, All-set, length-set,
  Bool-cases, Option-cases, set, length, Result, ok, Returns, Returns-ok, Returns-bind, Returns-map,
  ◌>>=◌,
}
use bomber_cli.Game.Types.{Player, View, Rand, Game}
use bomber_cli.Game.Rules.{players_without, player_index}
use bomber_cli.Game.Rules.Indices.{player_index-some}
use bomber_cli.Game.Rules.Moves.{MoveOutcome, moved_view-MoveOutcome}
use bomber_cli.Game.Rules.Placements.{PlaceOutcome, view_with_bomb-PlaceOutcome}
use bomber_cli.Game.Setup.{new}
use bomber_cli.Game.Engine.{tick, move, place, remove}
use bomber_cli.Game.Invariant.{IsPlaced, IsValid}
use bomber_cli.Game.Invariant.Calls.{after_move-IsValid, with_bomb-IsValid}
use bomber_cli.Game.Invariant.Ticks.{tick-Ticked, tick_over, IsPlaced-dead, IsValid-players}
use bomber_cli.Game.Invariant.Start.{initial_view-IsValid}

pub data Call : Type 0 where
  moves : ℕ → ℤ → ℤ → Call
  places removes : ℕ → Call
  ticks : Call

module _ {r : Rand} where
  -- One call at a time; what `Move` and `Place` answer is dropped.
  unfoldable pub call : ℕ → Call → Game r → Result (Game r)
  call now (moves id dx dy) g = do (g', moved) ← move id dx dy now g; ok g'
  call now (places id) g = do (g', placed) ← place id now g; ok g'
  call now (removes id) g = ok (remove id g)
  call now ticks g = tick now g

  unfoldable pub play : List (ℕ × Call) → Game r → Result (Game r)
  play [] g = ok g
  play ((now, c) ∷ cs) g = do g' ← call now c g; play cs g'

  module _ (g : Game r) (h : IsValid g.view) where
    -- On a valid view `Move` returns. It answers false and changes nothing exactly if the request
    -- cannot be granted; otherwise the player arrives, dies there in fire or takes the power-up. The
    -- view stays valid and the random source is not used.
    pub move-IsValid :
        (id : ℕ) (dx dy : ℤ) (now : ℕ)
        → Returns
            (λ (g', moved).
              MoveOutcome g.view id dx dy now (g'.view, moved) × IsValid g'.view × (g'.rng ≡ g.rng))
            (move id dx dy now g)
    unfolding move
    move-IsValid id dx dy now =
        Returns-bind (MoveOutcome g.view id dx dy now) _ _
          (moved_view-MoveOutcome g.view id dx dy now h.armed.counted)
          λ (w, moved) o. Returns-ok _ (o, keeps w moved o, refl)
      where
        keeps : (w : View) (moved : Bool) → MoveOutcome g.view id dx dy now (w, moved) → IsValid w
        keeps w moved (inl (_, e, _)) = rw e h
        keeps w moved (inr (_, (i, p, c, e))) =
            rw e (after_move-IsValid g.view id dx dy now i p h c)

    -- On a valid view `Place` returns. It answers false and changes nothing exactly if the request
    -- cannot be granted; otherwise the player's bomb is the next one in use. The view stays valid and
    -- the random source is not used.
    pub place-IsValid :
        (id now : ℕ)
        → Returns
            (λ (g', placed).
              PlaceOutcome g.view id now (g'.view, placed) × IsValid g'.view × (g'.rng ≡ g.rng))
            (place id now g)
    unfolding place
    place-IsValid id now =
        Returns-bind (PlaceOutcome g.view id now) _ _
          (view_with_bomb-PlaceOutcome g.view id now h.armed.counted)
          λ (w, placed) o. Returns-ok _ (o, keeps w placed o, refl)
      where
        keeps : (w : View) (placed : Bool) → PlaceOutcome g.view id now (w, placed) → IsValid w
        keeps w placed (inl (_, e, _)) = rw e h
        keeps w placed (inr (_, (i, p, c, e))) = rw e (with_bomb-IsValid g.view id now i p h c)

  -- `Remove` keeps a valid view valid.
  pub remove-IsValid : (g : Game r) (id : ℕ) → IsValid g.view → IsValid (remove id g).view
  unfolding remove players_without
  remove-IsValid g id h = elim (Option-cases (player_index g.view.players id)) [
    | inl e ↦ rw (e, players_without) (same g.view.players refl h.placed)
    | inr (i, e) ↦
        let (p, at, eq, named, lt) = player_index-some g.view.players id i e in
        rw (e, players_without)
          (rw at (
            same (set g.view.players i (record p { alive = false })) (length-set g.view.players i _)
              (All-set (IsPlaced g.view.tiles) g.view.players i h.placed
                (IsPlaced-dead p (All-get (IsPlaced g.view.tiles) g.view.players i h.placed at)))))
  ]
    where
      same :
          (ps : List Player)
          → length ps ≡ length g.view.players
          → All (IsPlaced g.view.tiles) ps
          → IsValid (record g.view { players = ps })
      same ps e placed = IsValid-players g.view ps g.view.over g.view.winner e placed h

  tick-IsValid :
      (now : ℕ) (g : Game r) → IsValid g.view → Returns (λ g'. IsValid g'.view) (tick now g)
  tick-IsValid now g h = elim (Bool-cases g.view.over) [
    | inl e ↦ rw (tick_over now g e) (Returns-ok g h)
    | inr e ↦ Returns-map _ _ (λ g' x. x.valid) (tick-Ticked now g h e)
  ]

  call-IsValid :
      (now : ℕ) (c : Call) (g : Game r)
      → IsValid g.view
      → Returns (λ g'. IsValid g'.view) (call now c g)
  unfolding call
  call-IsValid now (moves id dx dy) g h =
      Returns-bind _ _ _ (move-IsValid g h id dx dy now) λ (g', moved) x. Returns-ok g' x.1
  call-IsValid now (places id) g h =
      Returns-bind _ _ _ (place-IsValid g h id now) λ (g', placed) x. Returns-ok g' x.1
  call-IsValid now (removes id) g h = Returns-ok (remove id g) (remove-IsValid g id h)
  call-IsValid now ticks g h = tick-IsValid now g h

  play-IsValid :
      (cs : List (ℕ × Call)) (g : Game r)
      → IsValid g.view
      → Returns (λ g'. IsValid g'.view) (play cs g)
  unfolding play
  play-IsValid [] g h = Returns-ok g h
  play-IsValid ((now, c) ∷ cs) g h =
      Returns-bind (λ g'. IsValid g'.view) (λ g'. IsValid g'.view) _ (call-IsValid now c g h)
        λ g' h'. play-IsValid cs g' h'

-- A new game is valid for players with nonzero identifiers, whatever the seed.
pub new-IsValid :
    (r : Rand) (ids : List ℕ) (now seed : ℕ)
    → All (λ id. id ≢ 0) ids
    → IsValid (new r ids now seed).view
unfolding new
new-IsValid r ids now seed n = initial_view-IsValid ids now _ n

-- Whatever a room calls on a new game for players with nonzero identifiers, in any order and at any
-- times, no call panics or runs out of fuel, and the view is valid afterwards.
pub play-new-IsValid :
    (r : Rand) (ids : List ℕ) (now seed : ℕ) (cs : List (ℕ × Call))
    → All (λ id. id ≢ 0) ids
    → Returns (λ g. IsValid g.view) (play cs (new r ids now seed))
play-new-IsValid r ids now seed cs n = play-IsValid cs _ (new-IsValid r ids now seed n)
