-- ===== src/Room/Run.antt =====
-- The loop of `run` in internal/room/room.go, one event at a time: each case of its select is a
-- function, and the states that a room can come to are a relation.
use bomber_cli.Base.{
  ℕ, ◌≡◌, ◌≢◌, inl, refl, Bool, true, false, none, replicate, if◌then◌else◌, Result, ok, Returns,
  Returns-ok, Returns-bind, Returns-map, ◌>>=◌, [], Returns-at,
}
use bomber_cli.Game.Types.{
  Rand, floor, no_power, View, empty_player, empty_bomb, max_players, max_bombs, zero_time,
}
use bomber_cli.Room.Types.{waiting, Member, Snapshot, Command, empty_member}
use bomber_cli.Room.Rules.{member_index}
use bomber_cli.Room.Actor.{Actor, join, leave, membership, command, tick, viewed}
use bomber_cli.Room.Seats.{SameSeats, SameSeats-trans}
use bomber_cli.Room.Invariant.{IsSound, Edge}
use bomber_cli.Room.Invariant.Ticks.{tick-IsSound, viewed-IsSound}
use bomber_cli.Room.Invariant.Departures.{leave-Left}
use bomber_cli.Room.Invariant.Entry.{JoinOutcome, busy, full, entered, join-JoinOutcome}
use bomber_cli.Room.Invariant.Commands.{command-CommandOutcome}

-- View{}
abbrev pub empty_view : View
empty_view = record {
  tiles = λ _. floor;
  powers = λ _. no_power;
  flames = λ _. zero_time;
  players = replicate max_players empty_player;
  bombs = replicate max_bombs empty_bomb;
  bomb_count = 0;
  started = zero_time;
  now = zero_time;
  over = false;
  winner = 0;
}

-- Snapshot{ID: id, Phase: Waiting}
abbrev pub first_snapshot : ℕ → Snapshot
first_snapshot id = record {
  id = id;
  phase = waiting;
  members = replicate max_players empty_member;
  count = 0;
  deadline = zero_time;
  game = empty_view;
  message = [];
}

module _ {r : Rand} {Frames : Type 0} where
  -- The actor that `run` begins with.
  abbrev pub first_actor : ℕ → ℕ → Actor r Frames
  first_actor id seed = record {
    snapshot = first_snapshot id;
    subscribers = [];
    match = none;
    seed = seed;
  }

  -- The case of `r.input`: the actor, and whether its snapshot is published.
  unfoldable pub on_input : Command → ℕ → Actor r Frames → Result (Actor r Frames × Bool)
  on_input c now a = do (a', done) ← command c now a; ok (if done then viewed a' else a', done)

  -- The states that a room comes to. Each member joins under an identifier of its own.
  pub data Reached (id seed : ℕ) : Actor r Frames → Type 0 where
    opened : Reached id seed (first_actor id seed)
    timed :
        (now : ℕ) (a a' : Actor r Frames)
        → Reached id seed a
        → tick now a ≡ ok a'
        → Reached id seed a'
    asked :
        (c : Command) (now : ℕ) (a a' : Actor r Frames) (done : Bool)
        → Reached id seed a
        → on_input c now a ≡ ok (a', done)
        → Reached id seed a'
    joined :
        (m : Member) (f : Frames) (a : Actor r Frames)
        → Reached id seed a
        → m.id ≢ 0
        → member_index a.snapshot.members m.id ≡ none
        → Reached id seed (membership (join m f) a).0
    gone :
        (k : ℕ) (a : Actor r Frames)
        → Reached id seed a
        → k ≢ 0
        → Reached id seed (membership (leave k) a).0

  pub on_input-IsSound :
      (c : Command) (now : ℕ) (a : Actor r Frames)
      → IsSound a
      → Returns
          (λ (a', done).
            IsSound a'
            × Edge a.snapshot.phase a'.snapshot.phase
            × SameSeats a.snapshot a'.snapshot
            × (done ≡ false → a'.snapshot.phase ≡ a.snapshot.phase))
          (on_input c now a)
  unfolding on_input
  on_input-IsSound c now a h =
      Returns-bind _ _ _ (command-CommandOutcome c now a h)
        λ (a', done) x. Returns-ok _ (shown a' done x.0 x.1 x.2 x.3)
    where
      shown :
          (a' : Actor r Frames) (done : Bool)
          → IsSound a'
          → Edge a.snapshot.phase a'.snapshot.phase
          → SameSeats a.snapshot a'.snapshot
          → (done ≡ false → a'.snapshot.phase ≡ a.snapshot.phase)
          → let b = if done then viewed a' else a' in
            IsSound b
            × Edge a.snapshot.phase b.snapshot.phase
            × SameSeats a.snapshot b.snapshot
            × (done ≡ false → b.snapshot.phase ≡ a.snapshot.phase)
      shown a' false s e k p = (s, e, k, p)
      shown a' true s e k p =
          let (s', same, kept) = viewed-IsSound a' s in
          (
            s',
            rw same e,
            SameSeats-trans a.snapshot a'.snapshot (viewed a').snapshot k kept,
            λ d. cc,
          )

  pub first-IsSound : (id seed : ℕ) → IsSound (first_actor id seed)
  first-IsSound id seed = record {
    seated = record {
      four = refl;
      counted = refl;
      apart = (
        (inl refl, (inl refl, (inl refl, tt))),
        ((inl refl, (inl refl, tt)), ((inl refl, tt), (tt, tt))),
      );
    };
    matched = tt;
    agreed = λ c. cc;
  }

  entered-IsSound :
      (m : Member) (a : Actor r Frames) (o : Actor r Frames × _)
      → IsSound a
      → JoinOutcome m a o
      → IsSound o.0
  entered-IsSound m a o h (busy _ _) = h
  entered-IsSound m a o h (full _ _) = h
  entered-IsSound m a o h (entered a' _ _ x) = x.sound

  -- Every state that a room comes to is sound: four seats with distinct members and their count, a
  -- valid match exactly in a round and its result, and a countdown only while all are ready.
  pub Reached-IsSound : (id seed : ℕ) (a : Actor r Frames) → Reached id seed a → IsSound a
  Reached-IsSound id seed a opened = first-IsSound id seed
  Reached-IsSound id seed a (timed now b _ x e) =
      (Returns-at _ (tick-IsSound now b (Reached-IsSound id seed b x)) e).0
  Reached-IsSound id seed a (asked c now b _ done x e) =
      (Returns-at _ (on_input-IsSound c now b (Reached-IsSound id seed b x)) e).0
  Reached-IsSound id seed a (joined m f b x named absent) =
      let h = Reached-IsSound id seed b x in
      entered-IsSound m b _ h (join-JoinOutcome b m f h named absent)
  Reached-IsSound id seed a (gone k b x named) =
      (leave-Left b k (Reached-IsSound id seed b x) named).0.sound

  -- In every state that a room comes to, a tick and a command return, and the phase stays or moves one
  -- edge along the diagram.
  pub Reached-Returns :
      (id seed : ℕ) (a : Actor r Frames)
      → Reached id seed a
      → (c : Command) (now : ℕ)
      → Returns (λ a'. Edge a.snapshot.phase a'.snapshot.phase) (tick now a)
        × Returns (λ (a', done). Edge a.snapshot.phase a'.snapshot.phase) (on_input c now a)
  Reached-Returns id seed a x c now =
      let h = Reached-IsSound id seed a x in
      (
        Returns-map _ _ (λ a' y. y.1) (tick-IsSound now a h),
        Returns-map _ _ (λ (a', done) y. y.1) (on_input-IsSound c now a h),
      )
