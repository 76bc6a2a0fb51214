-- ===== src/Room/Invariant/Requests.antt =====
-- The actions of a member in a round: `applyGameAction` of internal/room/room.go on a valid match.
use bomber_cli.Base.{ℕ, ◌≡◌, refl, inl, inr, ℤ, Bool, Returns, Returns-ok, Returns-map}
use bomber_cli.Game.Types.{Rand, Game, View}
use bomber_cli.Game.Invariant.{IsValid}
use bomber_cli.Game.Rules.Moves.{MoveOutcome}
use bomber_cli.Game.Rules.Placements.{PlaceOutcome}
use bomber_cli.Game.Round.{move-IsValid, place-IsValid}
use bomber_cli.Game.Engine
use bomber_cli.Room.Types.{Action, ready, up, down, left, right, bomb, unknown}
use bomber_cli.Room.Actor.{game_request}

move_over :
    (v : View) (id now : ℕ) (dx dy : ℤ) (w : View) (moved : Bool)
    → MoveOutcome v id dx dy now (w, moved)
    → w.over ≡ v.over
move_over v id now dx dy w moved (inl (_, e, _)) = rw e refl
move_over v id now dx dy w moved (inr (_, (i, p, c, e))) = rw e refl

place_over :
    (v : View) (id now : ℕ) (w : View) (placed : Bool)
    → PlaceOutcome v id now (w, placed)
    → w.over ≡ v.over
place_over v id now w placed (inl (_, e, _)) = rw e refl
place_over v id now w placed (inr (_, (i, p, c, e))) = rw e refl

module _ {r : Rand} where
  -- What an action of a member does to the match of a round.
  abbrev pub Acted : Game r → Game r × Bool → Type 0
  Acted g (g', done) = IsValid g'.view × (g'.view.over ≡ g.view.over)

  moved_request :
      (id now : ℕ) (dx dy : ℤ) (g : Game r)
      → IsValid g.view
      → Returns (Acted g) (Engine.move id dx dy now g)
  moved_request id now dx dy g h =
      Returns-map _ (Acted g)
        (λ (g', moved) x. (x.1, move_over g.view id now dx dy g'.view moved x.0))
        (move-IsValid g h id dx dy now)

  pub game_request-Acted :
      (c : Action) (id now : ℕ) (g : Game r)
      → IsValid g.view
      → Returns (Acted g) (game_request c id now g)
  unfolding game_request
  game_request-Acted up id now g h = moved_request id now _ _ g h
  game_request-Acted down id now g h = moved_request id now _ _ g h
  game_request-Acted left id now g h = moved_request id now _ _ g h
  game_request-Acted right id now g h = moved_request id now _ _ g h
  game_request-Acted bomb id now g h =
      Returns-map _ (Acted g) (λ (g', placed) x. (x.1, place_over g.view id now g'.view placed x.0))
        (place-IsValid g h id now)
  game_request-Acted ready id now g h = Returns-ok _ (h, refl)
  game_request-Acted unknown id now g h = Returns-ok _ (h, refl)
