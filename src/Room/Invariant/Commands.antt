-- ===== src/Room/Invariant/Commands.antt =====
-- Commands of members: the tick before them, the readiness, and the actions of a round.
use bomber_cli.Base.{
  ℕ, ◌≡◌, refl, sym, subst, ◌∙◌, inl, inr, arith, Bool, true, false, not, ◌==◌, ◌&&◌, ◌||◌, Option,
  none, some, get_elem?, set, Bool-cases, Option-cases, if◌then◌else◌, ok, Returns, Returns-ok,
  Returns-bind, Returns-map, ◌>>=◌,
}
use bomber_cli.Game.Types.{Rand, Game}
use bomber_cli.Game.Invariant.{IsValid}
use bomber_cli.Room.Types.{Phase, waiting, countdown, playing, result, Member, Snapshot, Command}
use bomber_cli.Room.Rules.{
  is_waiting, is_countdown, is_playing, member_index, without_countdown, with_readiness_toggled,
}
use bomber_cli.Room.Seats.{SameSeats, SameSeats-trans, seats-set_same}
use bomber_cli.Room.Actor.{Actor, is_ready, is_unknown, apply_game_action, tick, obey, command}
use bomber_cli.Room.Invariant.{Matched, IsSound, Edge, stay, cancel}
use bomber_cli.Room.Invariant.Ticks.{IsSeated-seats, tick-IsSound}
use bomber_cli.Room.Invariant.Seating.{
  calmed, calmed_lem, without_countdown-seats, Matched-calmed, not_countdown, member_index-some,
}
use bomber_cli.Room.Invariant.Requests.{Acted, game_request-Acted}

module _ {r : Rand} {Frames : Type 0} (a : Actor r Frames) where
  -- What a command does to a room.
  abbrev pub CommandOutcome : Actor r Frames × Bool → Type 0
  CommandOutcome (a', done) =
      IsSound a'
      × Edge a.snapshot.phase a'.snapshot.phase
      × SameSeats a.snapshot a'.snapshot
      × (done ≡ false → a'.snapshot.phase ≡ a.snapshot.phase)
      × (is_playing a.snapshot.phase ≡ false → done ≡ false → a' ≡ a)

  abbrev toggled : ℕ → Member → Actor r Frames
  toggled i m = record a {
    snapshot = without_countdown (record a.snapshot {
      members = set a.snapshot.members i (record m { ready = not m.ready });
    });
  }

  toggled-IsSound :
      (i : ℕ) (m : Member)
      → IsSound a
      → get_elem? a.snapshot.members i ≡ some m
      → IsSound (toggled i m)
        × ((toggled i m).snapshot.phase ≡ calmed a.snapshot.phase)
        × SameSeats a.snapshot (toggled i m).snapshot
  toggled-IsSound i m h at =
      let m' : Member = record m { ready = not m.ready } in
      let s : Snapshot = record a.snapshot { members = set a.snapshot.members i m' } in
      let (members, count) = without_countdown-seats s in
      let kept = members ∙ seats-set_same a.snapshot.members i m m' at refl in
      (
        record {
          seated = IsSeated-seats kept count h.seated;
          matched =
              subst (λ p. Matched p a.match) (sym (calmed_lem s))
                (Matched-calmed a.snapshot.phase a.match h.matched);
          agreed = λ c. absurd (not_countdown a.snapshot.phase (sym (calmed_lem s) ∙ c));
        },
        calmed_lem s,
        (kept, count),
      )

  apply_game_action-IsSound :
      (c : Command) (now : ℕ)
      → IsSound a
      → a.snapshot.phase ≡ playing
      → (g : Game r) → a.match ≡ some g
      → IsValid g.view
      → g.view.over ≡ false
      → Returns
          (λ (a', done).
            IsSound a' × (a'.snapshot.phase ≡ playing) × SameSeats a.snapshot a'.snapshot)
          (apply_game_action c now a)
  unfolding apply_game_action
  apply_game_action-IsSound c now h ph g m valid running = rw m (
      Returns-bind (Acted g) _ _ (game_request-Acted c.action c.id now g valid)
        λ (g', done) (valid', same). Returns-ok _ (
          record {
            seated = h.seated;
            matched = simp ph (valid', same ∙ running);
            agreed = λ e. h.agreed e;
          },
          ph,
          (refl, refl),
        ))

Edge-calmed : (p : Phase) → (is_waiting p || is_countdown p) ≡ true → Edge p (calmed p)
Edge-calmed waiting e = stay
Edge-calmed countdown e = cancel
Edge-calmed playing e = cc
Edge-calmed result e = cc

no_round : (p : Phase) → (is_waiting p || is_countdown p) ≡ true → is_playing p ≡ false
no_round waiting e = refl
no_round countdown e = refl
no_round playing e = cc
no_round result e = cc

match_of :
    {r : Rand} (p : Phase) (m : Option (Game r))
    → is_playing p ≡ true
    → Matched p m
    → (p ≡ playing) × ((g : Game r) × (m ≡ some g) × IsValid g.view × (g.view.over ≡ false))
match_of playing (some g) e h = (refl, (g, refl, h.0, h.1))
match_of playing none e h = absurd h
match_of waiting m e h = cc
match_of countdown m e h = cc
match_of result m e h = cc

module _ {r : Rand} {Frames : Type 0} (c : Command) (now : ℕ) where
  obey_ready :
      (a : Actor r Frames) (i : ℕ) (m : Member)
      → (is_ready c.action && (is_waiting a.snapshot.phase || is_countdown a.snapshot.phase)) ≡ true
      → get_elem? a.snapshot.members i ≡ some m
      → obey c i now a ≡ ok (toggled a i m, true)
  unfolding obey with_readiness_toggled
  obey_ready a i m e at = rw (e, obey) (rw (at, with_readiness_toggled) refl)

  obey-CommandOutcome :
      (a : Actor r Frames) (i : ℕ)
      → IsSound a
      → (is_playing a.snapshot.phase ≡ false
          → (m : Member) × (get_elem? a.snapshot.members i ≡ some m))
      → Returns (CommandOutcome a) (obey c i now a)
  unfolding obey
  obey-CommandOutcome a i h slot =
      elim (Bool-cases
        (is_ready c.action && (is_waiting a.snapshot.phase || is_countdown a.snapshot.phase))) [
          | inl e ↦
              let quiet : (is_waiting a.snapshot.phase || is_countdown a.snapshot.phase) ≡ true =
                ground (arith, e) in
              let (m, at) = slot (no_round a.snapshot.phase quiet) in
              let (sound, calm, kept) = toggled-IsSound a i m h at in
              rw (obey_ready a i m e at) (
                Returns-ok _
                  (sound, rw calm (Edge-calmed a.snapshot.phase quiet), kept, λ d. cc, λ p d. cc))
          | inr e ↦ elim (Bool-cases (is_playing a.snapshot.phase)) [
            | inl on ↦
                let (ph, (g, m, valid, running)) = match_of a.snapshot.phase a.match on h.matched in
                rw (e, obey) rw on
                  (Returns-map _ (CommandOutcome a)
                    (λ (a', done) x. (
                      x.0,
                      subst (Edge a.snapshot.phase) (ph ∙ sym x.1) stay,
                      x.2,
                      λ d. x.1 ∙ sym ph,
                      λ p d. cc,
                    ))
                    (apply_game_action-IsSound a c now h ph g m valid running))
            | inr off ↦
                rw (e, obey) rw off (Returns-ok _ (h, stay, (refl, refl), λ d. refl, λ p d. refl))
          ]
        ]

  -- A command to a sound room returns, whoever sends it: the room is sound, its phase stays or moves
  -- one edge along the diagram, the same members sit in the same seats, a command that is refused does
  -- not change the phase, and one that is refused outside a round changes nothing.
  pub command-CommandOutcome :
      (a : Actor r Frames) → IsSound a → Returns (CommandOutcome a) (command c now a)
  unfolding command
  command-CommandOutcome a h = elim (Bool-cases (c.id == 0 || is_unknown c.action)) [
    | inl e ↦ rw (e, command) (Returns-ok _ (h, stay, (refl, refl), λ d. refl, λ p d. refl))
    | inr e ↦ elim (Option-cases (member_index a.snapshot.members c.id)) [
      | inl k ↦ rw (e, command) rw k (Returns-ok _ (h, stay, (refl, refl), λ d. refl, λ p d. refl))
      | inr (i, k) ↦
          let (m, at, _, _) = member_index-some a.snapshot.members c.id i k in
          elim (Bool-cases (is_playing a.snapshot.phase)) [
            | inr off ↦ rw (e, command) rw k rw off (obey-CommandOutcome a i h (λ _. (m, at)))
            | inl on ↦ rw (e, command) rw k rw on (behind_tick a i h on)
          ]
    ]
  ]
    where
      behind_tick :
          (a : Actor r Frames) (i : ℕ)
          → IsSound a
          → is_playing a.snapshot.phase ≡ true
          → Returns (CommandOutcome a) (
              tick now a >>= λ a'.
              if not (is_playing a'.snapshot.phase) then ok (a', true) else obey c i now a')
      behind_tick a i h on =
          Returns-bind _ (CommandOutcome a) _ (tick-IsSound now a h) λ a' (sound, edge, kept).
            elim (Bool-cases (is_playing a'.snapshot.phase)) [
              | inr off ↦ simp off (Returns-ok _ (sound, edge, kept, λ d. cc, λ p d. cc))
              | inl still ↦
                  let still_on =
                    (match_of a'.snapshot.phase a'.match still sound.matched).0
                    ∙ sym (match_of a.snapshot.phase a.match on h.matched).0 in
                  simp still (
                    Returns-map (CommandOutcome a') (CommandOutcome a)
                      (λ (a'', done) x. (
                        x.0,
                        subst (λ p. Edge p a''.snapshot.phase) still_on x.1,
                        SameSeats-trans a.snapshot a'.snapshot a''.snapshot kept x.2,
                        λ d. x.3 d ∙ still_on,
                        λ p d. cc,
                      ))
                      (obey-CommandOutcome a' i sound (λ off. cc)))
            ]
