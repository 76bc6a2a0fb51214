-- ===== src/Room/Hub/Joining.antt =====
-- `Join` of internal/room/hub.go: what a request to join a room answers.
use bomber_cli.Base.{
  ℕ, ◌<◌, ◌==◌, ◌≡◌, ◌≢◌, refl, sym, ap, subst, ◌∙◌, inl, inr, arith, if◌then◌else◌, Bool, true,
  false, Option, none, some, is_some, List, ◌∷◌, All, All-mem, All-map, AllPairs, Bool-cases,
  Option-cases, ok, ◌>>=◌, Returns, Returns-ok, Returns-bind, Returns-map,
}
use bomber_cli.Game.Types.{Rand}
use bomber_cli.Room.Hub.{find_room_to_join, create_room}
use bomber_cli.Room.Hub.Types.{
  Session, Entry, Hub, room_no_longer_exists, Reply, granted, refused, find_session, assign,
  room_of,
}
use bomber_cli.Room.Hub.Maps.{
  location_lem, find_session-some, location-assign_self, location-assign_ne, room_of-some,
}
use bomber_cli.Room.Hub.Doors.{RoomEvent, enter, enter_new, enter_found, join_room}
use bomber_cli.Room.Hub.Invariant.{
  same_limits, SameLimits-trans, SameLimits, EntriesApart, IsOrderly, IsLived,
}
use bomber_cli.Room.Hub.Sessions.{CreateOutcome, rooms_full, created, create_room-CreateOutcome}
use bomber_cli.Room.Hub.Selection.{Found, chosen, nowhere, find_room_to_join-Found}
use bomber_cli.Room.Hub.Answers.{
  IsAtDoor, WantsNew, Sought, asked_for, picked, opened, DoorOutcome, closed, elsewhere, missing,
  limited, denied, seated,
}
use bomber_cli.Room.Hub.Entrances.{EnterOutcome, turned_away, let_in, enter-EnterOutcome}

module _ {r : Rand} where
  module _ (h : Hub r) (o : IsOrderly h) (lived : IsLived h) (session : ℕ) (s : Session)
      (open_hub : h.stopped ≡ false) (known : find_session h.sessions session ≡ some s)
      (free : s.room ≡ none) where
    at_door : IsAtDoor session h
    at_door = record {
      open_hub = open_hub;
      known = (s, known);
      free = location_lem h.sessions session known ∙ free;
    }

    session_id : s.id ≡ session
    session_id = (find_session-some h.sessions session known).0

    -- What the chosen room answers, in the words of the session.
    told :
        (id : ℕ) (create : Bool) (i : ℕ) (d : Entry r) (between : List RoomEvent) (g : Hub r)
        → Sought id create h i d
        → g.sessions ≡ h.sessions
        → SameLimits h g
        → (q : Hub r × Reply ℕ) → EnterOutcome s i between d g q
        → DoorOutcome session id create between h q
    told id create i d between g sought same limits _
          (turned_away h' x e became why o' lived' kept lim) =
        denied h' x i d e at_door sought became why o' lived' (kept ∙ same)
          (SameLimits-trans h g h' limits lim)
    told id create i d between g sought same limits _
          (let_in h' e became room o' lived' moved lim) =
        let sessions : h'.sessions ≡ assign session (some i) h.sessions =
          moved
          ∙ ap (assign s.id (some i)) same
          ∙ ap (λ k. assign k (some i) h.sessions) session_id in
        seated h' i d e at_door sought became room o' lived'
          (rw sessions (location-assign_self h.sessions session (some i) known))
          (λ y n. rw sessions (location-assign_ne h.sessions session y (some i) n))
          (SameLimits-trans h g h' limits lim)

    known_at : (g : Hub r) → g.sessions ≡ h.sessions → find_session g.sessions s.id ≡ some s
    known_at g same =
        ap (λ ss. find_session ss s.id) same ∙ ap (find_session h.sessions) session_id ∙ known

    enter-DoorOutcome :
        (id i : ℕ) (between : List RoomEvent) (d : Entry r)
        → room_of h.rooms i ≡ some d
        → Sought id false h i d
        → Returns (DoorOutcome session id false between h) (enter s i false between h)
    enter-DoorOutcome id i between d at sought =
        Returns-map _ _ (λ q x. told id false i d between h sought refl (same_limits h) q x)
          (enter-EnterOutcome h o s (known_at h refl) free i d at false between
            (All-map (λ c. 0 < c.actor.snapshot.count) _ h.rooms (λ c p. inr p) lived)
            (inr (
              refl,
              All-mem (λ c. 0 < c.actor.snapshot.count) h.rooms lived (room_of-some h.rooms i at).1,
            )))

    enter_new-DoorOutcome :
        (id : ℕ) (create : Bool) (seed : ℕ) (between : List RoomEvent)
        → WantsNew id create h
        → Returns (DoorOutcome session id create between h) (enter_new s seed between h)
    unfolding enter_new
    enter_new-DoorOutcome id create seed between any =
        answers (create_room seed h) (create_room-CreateOutcome h o seed)
      where
        answers :
            (q : Hub r × Reply (Entry r))
            → CreateOutcome h q
            → Returns (DoorOutcome session id create between h) (elim q.1 [
              | refused x ↦ ok (h, refused x)
              | granted e ↦ enter s e.id true between q.0
            ])
        answers _ (rooms_full full) = Returns-ok _ (limited at_door any full)
        answers _ (created g e o' rooms sessions limits few next first) =
            let apart : All (EntriesApart e) h.rooms × AllPairs EntriesApart h.rooms =
              subst (λ es. AllPairs EntriesApart es) rooms o'.rooms_apart in
            let mine : room_of (e ∷ h.rooms) e.id ≡ some e = ground arith in
            Returns-map _ _
              (λ q x.
                told id create e.id e between g (opened e any few next first) sessions limits q x)
              (enter-EnterOutcome g o' s (known_at g sessions) free e.id e (rw rooms mine) true
                between
                (rw rooms (
                  inl refl,
                  All-map (λ c. 0 < c.actor.snapshot.count) _ h.rooms (λ c p. inr p) lived,
                ))
                (inl (
                  refl,
                  λ y l.
                      let (c, found, m) = o.homes y e.id (rw sessions at l) in
                      let (named, among) = room_of-some h.rooms e.id found in
                      All-mem (EntriesApart e) h.rooms apart.0 among (sym named),
                )))

  module _ (h : Hub r) (o : IsOrderly h) (lived : IsLived h) where
    -- A request for one room, which is given or is not there.
    find_room_to_join_given :
        (id : ℕ)
        → id ≢ 0
        → find_room_to_join id h
          ≡ ok (
              if is_some (room_of h.rooms id)
              then granted (some id)
              else refused room_no_longer_exists)
    unfolding find_room_to_join
    find_room_to_join_given id n =
        let given : (id == 0) ≡ false = ground (arith, n) in rw (given, find_room_to_join) refl

    search-DoorOutcome :
        (session id : ℕ) (s : Session) (seed : ℕ) (between : List RoomEvent)
        → h.stopped ≡ false
        → find_session h.sessions session ≡ some s
        → s.room ≡ none
        → Returns
            (DoorOutcome session id false between h)
            (find_room_to_join id h >>= enter_found s seed between h)
    search-DoorOutcome session id s seed between open_hub known free = elim (Bool-cases (id == 0)) [
      | inl z ↦
          let any : id ≡ 0 = ground (arith, z) in
          rw any (
            Returns-bind _ (DoorOutcome session 0 false between h) _ (find_room_to_join-Found h o)
              λ a (i, same, found). rw same (any_room i found))
      | inr n ↦
          let given : id ≢ 0 = ground (arith, n) in
          rw (find_room_to_join_given id given) (elim (Option-cases (room_of h.rooms id)) [
            | inl e ↦ rw e (
                Returns-ok _
                  (missing (at_door h o lived session s open_hub known free) refl given e))
            | inr (d, e) ↦ rw e (
                enter-DoorOutcome h o lived session s open_hub known free id id between d e
                  (asked_for d refl given e))
          ])
    ]
      where
        any_room :
            (i : Option ℕ)
            → Found h.rooms i
            → Returns
                (DoorOutcome session 0 false between h)
                (enter_found s seed between h (granted i))
        any_room _ (chosen i d e joinable) =
            enter-DoorOutcome h o lived session s open_hub known free 0 i between d e
              (picked i d refl refl e joinable)
        any_room _ (nowhere none_open) =
            enter_new-DoorOutcome h o lived session s open_hub known free 0 false seed between
              (inr (refl, none_open))

    -- In an orderly hub without empty rooms, a request to join returns. A session that the hub does not
    -- have, or any session after the hub has stopped, is told that its session is closed; else one that
    -- is in a room that it should leave first; else a room that is asked for and not there is missing;
    -- else, if a new room is asked for or no room can be joined, a full hub has no room to give, and in
    -- these cases nothing changes. Otherwise the request gets at the room that is asked for, at one that
    -- can be joined if any will do, or at a new one. That room answers by its state after the events that
    -- it takes up before: that the round is on only in a round or its result, that it is full only
    -- with four members outside a round, and in both cases no session moves; and it seats the session
    -- only outside a round and with fewer than four members. Then the session is in that room, and every
    -- other session is where it was. The hub is orderly without empty rooms afterwards.
    pub join_room-DoorOutcome :
        (session id : ℕ) (create : Bool) (seed : ℕ) (between : List RoomEvent)
        → Returns
            (DoorOutcome session id create between h)
            (join_room session id create seed between h)
    unfolding join_room
    join_room-DoorOutcome session id create seed between =
        elim (Option-cases (find_session h.sessions session)) [
          | inl e ↦ rw (e, join_room) (Returns-ok _ (closed (inl e)))
          | inr (s, e) ↦ elim (Bool-cases h.stopped) [
            | inl f ↦ rw (e, join_room) simp f (Returns-ok _ (closed (inr f)))
            | inr f ↦ elim (Option-cases s.room) [
              | inr (i, g) ↦
                  rw (e, join_room) simp f rw g
                    (Returns-ok _ (elsewhere i f (location_lem h.sessions session e ∙ g)))
              | inl g ↦
                  rw (e, join_room) simp f rw g
                    (elim (Bool-cases create) [
                      | inl c ↦ rw c (
                          enter_new-DoorOutcome h o lived session s f e g id true seed between
                            (inl refl))
                      | inr c ↦ rw c (search-DoorOutcome session id s seed between f e g)
                    ])
            ]
          ]
        ]
