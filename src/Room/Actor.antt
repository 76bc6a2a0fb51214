-- ===== src/Room/Actor.antt =====
-- The actor of internal/room/room.go: its handlers, as functions from one state to the next.
use bomber_cli.Base.{
  ℕ, ◌+◌, ◌%◌, ◌^◌, ◌==◌, ltb, if◌then◌else◌, pos, negsuc, Bool, true, false, not, ◌&&◌, ◌||◌,
  is_some, Option, none, some, List, [], ◌∷◌, Result, ok, or_panic, ◌>>=◌,
}
use bomber_cli.Game.Types.{Rand, Game}
use bomber_cli.Game.Setup.{new}
use bomber_cli.Game.Engine
use bomber_cli.Room.Types.{
  Phase, waiting, countdown, playing, result, Member, Snapshot, Action, ready, up, down, left,
  right, bomb, unknown, Command,
}
use bomber_cli.Room.Rules.{
  is_waiting, is_countdown, is_playing, all_ready, player_ids, member_index, JoinError, with_member,
  without_member, without_readiness, without_countdown, with_readiness_toggled, countdown_snapshot,
  result_snapshot, waiting_snapshot,
}

-- The map of subscribers holds a channel of capacity one for each member: `Frames` is what they are.
-- `match` is nil outside a round.
pub record Actor (r : Rand) (Frames : Type 0) : Type 0 where
  pub snapshot : Snapshot
  pub subscribers : List (ℕ × Frames)
  pub match : Option (Game r)
  pub seed : ℕ

-- A message to the actor: a member who joins with a channel, or leaves.
pub data Control (Frames : Type 0) : Type 0 where
  join : Member → Frames → Control Frames
  leave : ℕ → Control Frames

abbrev pub is_ready : Action → Bool
is_ready ready = true
is_ready _ = false

abbrev pub is_unknown : Action → Bool
is_unknown unknown = true
is_unknown _ = false

module _ {Frames : Type 0} where
  -- delete(a.subscribers, id)
  unfoldable pub unsubscribe : ℕ → List (ℕ × Frames) → List (ℕ × Frames)
  unsubscribe id [] = []
  unsubscribe id ((k, f) ∷ subs) =
      if k == id then unsubscribe id subs else (k, f) ∷ unsubscribe id subs

  -- a.subscribers[id] = f
  abbrev pub subscribe : ℕ → Frames → List (ℕ × Frames) → List (ℕ × Frames)
  subscribe id f subs = (id, f) ∷ unsubscribe id subs

module _ {r : Rand} where
  -- A switch over the actions of a match.
  unfoldable pub game_request : Action → ℕ → ℕ → Game r → Result (Game r × Bool)
  game_request up id now g = Engine.move id (pos 0) (negsuc 0) now g
  game_request down id now g = Engine.move id (pos 0) (pos 1) now g
  game_request left id now g = Engine.move id (negsuc 0) (pos 0) now g
  game_request right id now g = Engine.move id (pos 1) (pos 0) now g
  game_request bomb id now g = Engine.place id now g
  game_request _ id now g = ok (g, false)

module _ {r : Rand} {Frames : Type 0} where
  abbrev pub settled : Actor r Frames → Actor r Frames
  settled a = record a { snapshot = without_readiness (without_countdown a.snapshot) }

  unfoldable pub left_actor : ℕ → Actor r Frames → Actor r Frames
  left_actor id a =
      if is_some (member_index a.snapshot.members id)
      then record a {
        snapshot = without_member a.snapshot id;
        subscribers = unsubscribe id a.subscribers;
        match = elim a.match [ none ↦ none | some g ↦ some (Engine.remove id g) ];
      }
      else a

  unfoldable pub joined_actor : Member → Frames → Snapshot → Actor r Frames → Actor r Frames
  joined_actor m f next a = record a {
    snapshot = next;
    subscribers =
        if ltb a.snapshot.count next.count then subscribe m.id f a.subscribers else a.subscribers;
  }

  unfoldable pub membership : Control Frames → Actor r Frames → Actor r Frames × Option JoinError
  membership (leave id) a = (settled (left_actor id a), none)
  membership (join m f) a =
      let (next, error) = with_member a.snapshot m in
      elim error [ some e ↦ (a, some e) | none ↦ (settled (joined_actor m f next a), none) ]

  -- A nil match panics.
  unfoldable pub apply_game_action : Command → ℕ → Actor r Frames → Result (Actor r Frames × Bool)
  apply_game_action c now a = do
    g ← or_panic a.match
    (g', done) ← game_request c.action c.id now g
    ok (record a { match = some g' }, done)

  unfoldable pub start_round : ℕ → Actor r Frames → Actor r Frames
  start_round now a = record a {
    match = some (new r (player_ids a.snapshot) now a.seed);
    seed = (a.seed + 1) % 2 ^ 64;
    snapshot = record a.snapshot { phase = playing };
  }

  -- if a.match != nil { a.snapshot.Game = a.match.View }
  abbrev pub viewed : Actor r Frames → Actor r Frames
  viewed a = elim a.match [
    | none ↦ a
    | some g ↦ record a { snapshot = record a.snapshot { game = g.view } }
  ]

  -- The case Playing of the switch in `tick`.
  unfoldable pub play_tick : ℕ → Actor r Frames → Result (Actor r Frames)
  play_tick now a = do
    g ← or_panic a.match
    g' ← Engine.tick now g
    let ticked : Actor r Frames = record a { match = some g' }
    ok (
        if g'.view.over
        then record ticked { snapshot = result_snapshot a.snapshot g'.view.winner now }
        else ticked)

  -- The switch in `tick`.
  unfoldable pub phase_tick : Phase → ℕ → Actor r Frames → Result (Actor r Frames)
  phase_tick waiting now a = ok (
      if all_ready a.snapshot then record a { snapshot = countdown_snapshot a.snapshot now } else a)
  phase_tick countdown now a =
      ok (if not (ltb now a.snapshot.deadline) then start_round now a else a)
  phase_tick playing now a = play_tick now a
  phase_tick result now a = ok (
      if not (ltb now a.snapshot.deadline)
      then record a { snapshot = waiting_snapshot a.snapshot; match = none }
      else a)

  unfoldable pub tick : ℕ → Actor r Frames → Result (Actor r Frames)
  tick now a = do a' ← phase_tick a.snapshot.phase now a; ok (viewed a')

  -- `command` behind its tick: the member in the slot `index` asks.
  unfoldable pub obey : Command → ℕ → ℕ → Actor r Frames → Result (Actor r Frames × Bool)
  obey c index now a =
      if is_ready c.action && (is_waiting a.snapshot.phase || is_countdown a.snapshot.phase)
      then (do s ← with_readiness_toggled a.snapshot index; ok (record a { snapshot = s }, true))
      else if is_playing a.snapshot.phase
      then apply_game_action c now a
      else ok (a, false)

  unfoldable pub command : Command → ℕ → Actor r Frames → Result (Actor r Frames × Bool)
  command c now a =
      if c.id == 0 || is_unknown c.action
      then ok (a, false)
      else (elim (member_index a.snapshot.members c.id) [
        | none ↦ ok (a, false)
        | some index ↦
            if is_playing a.snapshot.phase
            then (do
              a' ← tick now a
              if not (is_playing a'.snapshot.phase) then ok (a', true) else obey c index now a')
            else obey c index now a
      ])
