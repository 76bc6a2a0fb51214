-- ===== src/Room/Invariant/Ticks.antt =====
-- The timer of a room: `tick` in each phase.
use bomber_cli.Base.{
  codes, ℕ, ◌≡◌, ◌≢◌, refl, sym, ap, subst, ◌∙◌, inl, inr, arith, true, false, not, ltb, ◌==◌,
  Option, none, some, List, [], ◌∷◌, All, AllPairs, Bool-cases, Returns, Returns-ok, Returns-bind,
}
use bomber_cli.Game.Types.{Rand, Game}
use bomber_cli.Game.Setup.{new, initial_view}
use bomber_cli.Game.Invariant.{IsValid}
use bomber_cli.Game.Invariant.Ticks.{Ticked, tick-Ticked}
use bomber_cli.Game.Round.{new-IsValid}
use bomber_cli.Room.Types.{Phase, waiting, countdown, playing, result, Member, Snapshot}
use bomber_cli.Room.Rules.{
  all_ready, player_ids, ids_of, countdown_snapshot, result_snapshot, waiting_snapshot,
  without_readiness,
}
use bomber_cli.Room.Seats.{
  seats, taken, Differ, IsSeated, SameSeats, SameSeats-trans, seats-unready, seats-rewarded,
}
use bomber_cli.Room.Actor.{Actor, start_round, viewed, play_tick, phase_tick, tick}
use bomber_cli.Room.Invariant.{Matched, IsSound, Edge, stay, agree, begin, finish, reset}

-- The seats decide whether a snapshot is seated.
pub IsSeated-seats :
    {s t : Snapshot}
    → seats t.members ≡ seats s.members
    → t.count ≡ s.count
    → IsSeated s
    → IsSeated t
IsSeated-seats {s} {t} e c h = record {
  four = rw e h.four;
  counted = c ∙ h.counted ∙ ap taken (sym e);
  apart = subst (AllPairs Differ) (sym e) h.apart;
}

player_ids_named : (s : Snapshot) → All (λ id. id ≢ 0) (player_ids s)
unfolding player_ids ids_of
player_ids_named s = named s.members
  where
    named : (ms : List Member) → All (λ id. id ≢ 0) (ids_of ms)
    named [] = tt
    named (m ∷ ms) = elim (Bool-cases (not (m.id == 0))) [
      | inl e ↦ rw e (ground arith, named ms)
      | inr e ↦ rw e (named ms)
    ]

module _ {r : Rand} {Frames : Type 0} (now : ℕ) (a : Actor r Frames)
    (seated : IsSeated a.snapshot) where
  abbrev TickOutcome : Phase → Actor r Frames → Type 0
  TickOutcome ph a' = IsSound a' × Edge ph a'.snapshot.phase × SameSeats a.snapshot a'.snapshot

  waiting_tick :
      a.snapshot.phase ≡ waiting
      → a.match ≡ none
      → Returns (TickOutcome waiting) (phase_tick waiting now a)
  unfolding phase_tick
  waiting_tick ph m = elim (Bool-cases (all_ready a.snapshot)) [
    | inl e ↦ rw e (
        Returns-ok _ (
          unfold countdown_snapshot in
          (
            record {
              seated = IsSeated-seats refl refl seated;
              matched = subst (Matched countdown) (sym m) tt;
              agreed = λ _. unfold all_ready in e;
            },
            agree,
            (refl, refl),
          )))
    | inr e ↦ rw e (
        Returns-ok a (
          record { seated = seated; matched = rw (ph, m) tt; agreed = λ c. ground (arith) },
          subst (Edge waiting) (sym ph) stay,
          (refl, refl),
        ))
  ]

  countdown_tick :
      a.snapshot.phase ≡ countdown
      → a.match ≡ none
      → all_ready a.snapshot ≡ true
      → Returns (TickOutcome countdown) (phase_tick countdown now a)
  unfolding phase_tick
  countdown_tick ph m ready = elim (Bool-cases (not (ltb now a.snapshot.deadline))) [
    | inl e ↦ rw e (
        Returns-ok _ (
          unfold start_round in
          (
            record {
              seated = IsSeated-seats refl refl seated;
              matched = (
                new-IsValid r (player_ids a.snapshot) now a.seed (player_ids_named a.snapshot),
                unfold new initial_view in refl,
              );
              agreed = λ c. cc;
            },
            begin,
            (refl, refl),
          )))
    | inr e ↦ rw e (
        Returns-ok a (
          record { seated = seated; matched = rw (ph, m) tt; agreed = λ _. ready },
          subst (Edge countdown) (sym ph) stay,
          (refl, refl),
        ))
  ]

  playing_tick :
      (g : Game r)
      → a.snapshot.phase ≡ playing
      → a.match ≡ some g
      → IsValid g.view
      → g.view.over ≡ false
      → Returns (TickOutcome playing) (phase_tick playing now a)
  unfolding phase_tick play_tick
  playing_tick g ph m valid running = rw m (
      Returns-bind (λ g'. Ticked now g.view g'.view) (TickOutcome playing) _
        (tick-Ticked now g valid running)
        λ g' x. elim (Bool-cases g'.view.over) [
          | inl e ↦ simp e (
              Returns-ok _ (
                unfold result_snapshot in
                (
                  record {
                    seated =
                        IsSeated-seats
                          (seats-rewarded a.snapshot.members g'.view.winner (codes "Draw!")) refl
                          seated;
                    matched = (x.valid, e);
                    agreed = λ c. cc;
                  },
                  finish,
                  (seats-rewarded a.snapshot.members g'.view.winner (codes "Draw!"), refl),
                )))
          | inr e ↦ simp e (
              Returns-ok _ (
                record {
                  seated = seated;
                  matched = simp ph (x.valid, e);
                  agreed = λ c. ground arith;
                },
                subst (Edge playing) (sym ph) stay,
                (refl, refl),
              ))
        ])

  result_tick :
      (g : Game r)
      → a.snapshot.phase ≡ result
      → a.match ≡ some g
      → IsValid g.view
      → g.view.over ≡ true
      → Returns (TickOutcome result) (phase_tick result now a)
  unfolding phase_tick
  result_tick g ph m valid done = elim (Bool-cases (not (ltb now a.snapshot.deadline))) [
    | inl e ↦ rw e (
        Returns-ok _ (
          unfold waiting_snapshot without_readiness in
          (
            record {
              seated = IsSeated-seats (seats-unready a.snapshot.members) refl seated;
              matched = tt;
              agreed = λ c. cc;
            },
            reset,
            (seats-unready a.snapshot.members, refl),
          )))
    | inr e ↦ rw e (
        Returns-ok a (
          record {
            seated = seated;
            matched = rw (ph, m) (valid, done);
            agreed = λ c. ground arith;
          },
          subst (Edge result) (sym ph) stay,
          (refl, refl),
        ))
  ]

  phase_tick-TickOutcome :
      (p : Phase) (m : Option (Game r))
      → a.snapshot.phase ≡ p
      → a.match ≡ m
      → Matched p m
      → (p ≡ countdown → all_ready a.snapshot ≡ true)
      → Returns (TickOutcome p) (phase_tick p now a)
  phase_tick-TickOutcome waiting none e m h k = waiting_tick e m
  phase_tick-TickOutcome countdown none e m h k = countdown_tick e m (k refl)
  phase_tick-TickOutcome playing (some g) e m h k = playing_tick g e m h.0 h.1
  phase_tick-TickOutcome result (some g) e m h k = result_tick g e m h.0 h.1
  phase_tick-TickOutcome waiting (some g) e m h k = absurd h
  phase_tick-TickOutcome countdown (some g) e m h k = absurd h
  phase_tick-TickOutcome playing none e m h k = absurd h
  phase_tick-TickOutcome result none e m h k = absurd h

-- The view of the match in the snapshot is no part of the invariant.
pub viewed-IsSound :
    {r : Rand} {Frames : Type 0} (a : Actor r Frames)
    → IsSound a
    → IsSound (viewed a)
      × ((viewed a).snapshot.phase ≡ a.snapshot.phase)
      × SameSeats a.snapshot (viewed a).snapshot
viewed-IsSound {r} {Frames} a h = at a.match refl
  where
    at :
        (m : Option (Game r))
        → a.match ≡ m
        → IsSound (viewed a)
          × ((viewed a).snapshot.phase ≡ a.snapshot.phase)
          × SameSeats a.snapshot (viewed a).snapshot
    at none e = rw (e, viewed) (h, refl, (refl, refl))
    at (some g) e =
        rw (e, viewed)
          (
            record {
              seated = IsSeated-seats refl refl h.seated;
              matched = h.matched;
              agreed = λ c. unfold all_ready in h.agreed c;
            },
            refl,
            (refl, refl),
          )

-- A tick of a sound room returns, the room is sound, its phase stays or moves one edge along the
-- diagram of phases, and the same members sit in the same seats.
pub tick-IsSound :
    {r : Rand} {Frames : Type 0} (now : ℕ) (a : Actor r Frames)
    → IsSound a
    → Returns
        (λ a'.
          IsSound a' × Edge a.snapshot.phase a'.snapshot.phase × SameSeats a.snapshot a'.snapshot)
        (tick now a)
unfolding tick
tick-IsSound now a h =
    Returns-bind (TickOutcome now a h.seated a.snapshot.phase) _ _
      (phase_tick-TickOutcome now a h.seated a.snapshot.phase a.match refl refl h.matched h.agreed)
      λ a' (s, edge, kept).
        let (s', same, shown) = viewed-IsSound a' s in
        Returns-ok (viewed a')
          (s', rw same edge, SameSeats-trans a.snapshot a'.snapshot (viewed a').snapshot kept shown)
