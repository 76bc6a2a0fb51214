-- ===== src/Room/Hub/Sessions.antt =====
-- `Connect` and `createRoom` of internal/room/hub.go: identifiers, names and limits.
use bomber_cli.Base.{
  ℕ, ◌+◌, ◌<◌, ◌≤◌, ◌≡◌, ◌≢◌, refl, arith, inl, inr, leb, if◌then◌else◌, Bool, true, false, none,
  List, [], ◌∷◌, map, length, All, some, ◌==◌, All-map, All-mem, All-both, ◌↔◌, sym, Bool-cases,
  Option-cases, ◌∙◌, ok, ◌>>=◌, Returns, Returns-ok, Returns-bind,
}
use bomber_cli.Room.Names.{Name, name_eq, is_used, unique_player_name}
use bomber_cli.Room.Names.Unused.{unique_player_name-Returns}
use bomber_cli.Game.Types.{Rand}
use bomber_cli.Room.Run.{first_snapshot, first-IsSound}
use bomber_cli.Room.Hub.{connect, create_room}
use bomber_cli.Room.Hub.Types.{
  Session, Entry, Hub, server_stopping, server_is_full, room_limit_reached, Reply, granted, refused,
  session_names, find_session,
}
use bomber_cli.Room.Hub.Maps.{location, location-some, find_session-some, room_of-some}
use bomber_cli.Room.Hub.Invariant.{same_limits, SameLimits, IsHoused, IsHoused-locations, IsOrderly}

-- What a connection answers: an error, and nothing changes, or a session of its own.
pub data ConnectOutcome {r : Rand} (h : Hub r) : Hub r × Reply Session → Type 0 where
  stopping : h.stopped ≡ true → ConnectOutcome h (h, refused server_stopping)
  full :
      h.stopped ≡ false
      → length h.sessions ≡ h.max_sessions
      → ConnectOutcome h (h, refused server_is_full)
  connected :
      (h' : Hub r) (s : Session)
      → h.stopped ≡ false
      → IsOrderly h'
      → h'.sessions ≡ s ∷ h.sessions
      → h'.rooms ≡ h.rooms
      → s.room ≡ none
      → s.id ≡ h.next_session + 1
      → ((y : ℕ) → location h'.sessions y ≡ location h.sessions y)
      → SameLimits h h'
      → ConnectOutcome h (h', granted s)

unused_names :
    (ss : List Session) (m : Name)
    → is_used (map (λ s. s.name) ss) m ≡ false
    → All (λ t. name_eq t.name m ≡ false) ss
unfolding is_used
unused_names [] m h = tt
unused_names (s ∷ ss) m h = elim (Bool-cases (name_eq s.name m)) [
  | inl e ↦ absurd (ground (arith, e, h))
  | inr e ↦ (e, unused_names ss m (rw e at h))
]

module _ {r : Rand} (h : Hub r) (o : IsOrderly h) where
  abbrev session_of : Name → Session
  session_of m = record { id = h.next_session + 1; name = m; room = none }

  abbrev with_session : Name → Hub r
  with_session m = record h {
    next_session = h.next_session + 1;
    sessions = session_of m ∷ h.sessions;
  }

  below : (x : ℕ) {s : Session} → find_session h.sessions x ≡ some s → x ≤ h.next_session
  below x e =
      let (named, m) = find_session-some h.sessions x e in
      omega (arith, named, All-mem _ h.sessions o.issued m)

  -- The new session is nowhere, and nobody else moves.
  location-with_session :
      (m : Name) (x i : ℕ)
      → (location h.sessions x ≡ some i) ↔ (location (with_session m).sessions x ≡ some i)
  location-with_session m x i = elim (Bool-cases (h.next_session + 1 == x)) [
    | inl k ↦ rw k (
      (λ at.
          let (s, e, in_room) = location-some h.sessions x i at in
          absurd (ground (arith, k, below x e))),
      (λ at. cc),
    )
    | inr k ↦ rw k ((λ at. at), (λ at. at))
  ]

  unmoved : (m : Name) (y : ℕ) → location (with_session m).sessions y ≡ location h.sessions y
  unmoved m y = elim (Option-cases (location h.sessions y)) [
    | inl e ↦ elim (Option-cases (location (with_session m).sessions y)) [
      | inl f ↦ f ∙ sym e
      | inr (i, f) ↦ f ∙ sym ((location-with_session m y i).1 f)
    ]
    | inr (i, e) ↦ (location-with_session m y i).0 e ∙ sym e
  ]

  with_session-IsOrderly :
      (m : Name)
      → length h.sessions < h.max_sessions
      → is_used (session_names h) m ≡ false
      → IsOrderly (with_session m)
  with_session-IsOrderly m few new = record {
    issued = (
      (omega arith, omega arith),
      All-map (λ s. (0 < s.id) × (s.id ≤ h.next_session)) _ h.sessions
          (λ s (lo, hi). (lo, omega arith)) o.issued,
    );
    apart = (
      All-both (λ t. h.next_session + 1 ≢ t.id) (λ t. name_eq t.name m ≡ false) h.sessions
          (All-map (λ s. (0 < s.id) × (s.id ≤ h.next_session)) _ h.sessions
            (λ s (lo, hi). omega arith) o.issued)
          (unused_names h.sessions m new),
      o.apart,
    );
    few = omega arith;
    opened = o.opened;
    rooms_apart = o.rooms_apart;
    few_rooms = o.few_rooms;
    housed =
        All-map (IsHoused h.sessions) _ h.rooms
          (λ e. IsHoused-locations e (λ x. (location-with_session m x e.id).0)) o.housed;
    homes = λ x i at. o.homes x i ((location-with_session m x i).1 at);
  }

  connect_open :
      (name : List ℕ)
      → h.stopped ≡ false
      → leb h.max_sessions (length h.sessions) ≡ false
      → connect name h ≡ (
          unique_player_name (session_names h) name >>= λ m.
          ok (with_session m, granted (session_of m)))
  unfolding connect
  connect_open name e f = both _ _ _ h.stopped (leb h.max_sessions (length h.sessions)) e f
    where
      both :
          {A : Type 0} (x y z : A) (p q : Bool)
          → p ≡ false
          → q ≡ false
          → (if p then x else if q then y else z) ≡ z
      both x y z false false e f = refl
      both x y z true q e f = cc
      both x y z false true e f = cc

  -- In an orderly hub, a connection returns. It is refused with nothing changed when the server stops
  -- or is full; otherwise the hub is orderly again with the new session in front of the others, so that
  -- its identifier is not 0 and its identifier and its name are its own, and nobody moves.
  pub connect-ConnectOutcome : (name : List ℕ) → Returns (ConnectOutcome h) (connect name h)
  unfolding connect
  connect-ConnectOutcome name = elim (Bool-cases h.stopped) [
    | inl e ↦ simp e (Returns-ok _ (stopping e))
    | inr e ↦ elim (Bool-cases (leb h.max_sessions (length h.sessions))) [
      | inl f ↦ simp e rw f (Returns-ok _ (full e (ground (arith, f, o.few))))
      | inr f ↦ rw (connect_open name e f) (
          Returns-bind _ (ConnectOutcome h) _ (unique_player_name-Returns (session_names h) name)
            λ m new. Returns-ok _ (
              connected _ _ e (with_session-IsOrderly m (ground (arith, f)) new) refl refl refl refl
                (λ y. unmoved m y) (refl, refl, λ e. e, omega arith)))
    ]
  ]

-- What the creation of a room answers.
pub data CreateOutcome {r : Rand} (h : Hub r) : Hub r × Reply (Entry r) → Type 0 where
  rooms_full : length h.rooms ≡ h.max_rooms → CreateOutcome h (h, refused room_limit_reached)
  created :
      (h' : Hub r) (e : Entry r)
      → IsOrderly h'
      → h'.rooms ≡ e ∷ h.rooms
      → h'.sessions ≡ h.sessions
      → SameLimits h h'
      → length h.rooms < h.max_rooms
      → e.id ≡ h.next_room + 1
      → e.actor.snapshot ≡ first_snapshot e.id
      → CreateOutcome h (h', granted e)

module _ {r : Rand} (h : Hub r) (o : IsOrderly h) where
  -- In an orderly hub, the creation of a room is refused with nothing changed exactly when the limit of
  -- rooms is reached. Otherwise the hub is orderly again, with the new room, empty and under the next
  -- identifier, in front of the others and the sessions as before.
  pub create_room-CreateOutcome : (seed : ℕ) → CreateOutcome h (create_room seed h)
  unfolding create_room
  create_room-CreateOutcome seed = elim (Bool-cases (leb h.max_rooms (length h.rooms))) [
    | inl e ↦ rw e (rooms_full (ground (arith, e, o.few_rooms)))
    | inr e ↦ rw e (
        created _ _
          (record {
            issued = o.issued;
            apart = o.apart;
            few = o.few;
            opened = (
              (omega arith, omega arith),
              All-map (λ d. (0 < d.id) × (d.id ≤ h.next_room)) _ h.rooms
                  (λ d (lo, hi). (lo, omega arith)) o.opened,
            );
            rooms_apart = (
              All-map (λ d. (0 < d.id) × (d.id ≤ h.next_room)) (λ d. h.next_room + 1 ≢ d.id) h.rooms
                  (λ d (lo, hi). omega arith) o.opened,
              o.rooms_apart,
            );
            few_rooms = ground (arith, e);
            housed = (
              record {
                sound = first-IsSound (h.next_room + 1) seed;
                phase = refl;
                count = refl;
                housed = (inl refl, (inl refl, (inl refl, (inl refl, tt))));
              },
              o.housed,
            );
            homes = λ x i at.
                let (d, found, m) = o.homes x i at in
                let (named, among) = room_of-some h.rooms i found in
                let old : d.id ≤ h.next_room =
                  (All-mem (λ d. (0 < d.id) × (d.id ≤ h.next_room)) h.rooms o.opened among).1 in
                let other : (h.next_room + 1 == i) ≡ false = ground (arith, named, old) in
                (d, rw other found, m);
          })
          refl refl (same_limits h) (ground (arith, e)) refl refl)
  ]
