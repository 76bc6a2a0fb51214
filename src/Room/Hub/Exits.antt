-- ===== src/Room/Hub/Exits.antt =====
-- `leave`, `Disconnect` and `Close` of internal/room/hub.go.
use bomber_cli.Base.{
  ℕ, ◌<◌, ◌==◌, ◌≡◌, ◌≢◌, ◌↔◌, refl, sym, ap, subst, ◌∙◌, ◌⊎◌, inl, inr, arith, true, false, none,
  some, List, ◌∈◌, All, All-mem, All-map, All-both, All-set, Bool-cases, Option-cases, some_inj,
  Returns, Returns-ok, Returns-bind,
}
use bomber_cli.Game.Types.{Rand}
use bomber_cli.Room.Actor.{Actor, leave, membership}
use bomber_cli.Room.Seats.{seats, taken, Frees, in-set, taken-zero, All-members}
use bomber_cli.Room.Invariant.Departures.{Left, leave-Left}
use bomber_cli.Room.Hub.Types.{Session, Entry, Hub, find_session, assign, drop_session, room_of}
use bomber_cli.Room.Hub.Maps.{
  room_in, location, location_lem, find_session-some, location-assign_self, location-assign_ne,
  location-drop_ne, location-drop_self, find_session-drop_self, room_of-some,
}
use bomber_cli.Room.Hub.Doors.{
  RoomEvent, change, released, let_go, leave_of, leave_room, disconnect, close,
}
use bomber_cli.Room.Hub.Invariant.{same_limits, SameLimits, IsHoused, IsOrderly, IsLived, tenants}
use bomber_cli.Room.Hub.Rooms.{Kept, room_events-Kept}
use bomber_cli.Room.Hub.Updates.{
  AreIssued, AreIssued-assign, AreIssued-drop, IsOrderly-put, IsOrderly-delete, IsOrderly-sessions,
  issued_of, put-lived, delete-lived, known_id,
}

module _ {r : Rand} where
  -- The hub is in order, the session is in no room, and everybody else is where they were.
  pub record Away (session : ℕ) (h h' : Hub r) : Type 0 where
    pub orderly : IsOrderly h'
    pub lived : IsLived h'
    pub nowhere : location h'.sessions session ≡ none
    pub others : (y : ℕ) → y ≢ session → location h'.sessions y ≡ location h.sessions y
    pub limits : SameLimits h h'

  module _ (h : Hub r) (o : IsOrderly h) (lived : IsLived h) (s : Session)
      (known : find_session h.sessions s.id ≡ some s) (id : ℕ) (inside : s.room ≡ some id)
      (d : Entry r) (at : room_of h.rooms id ≡ some d) where
    abbrev left_sessions : List Session
    left_sessions = assign s.id none h.sessions

    named : s.id ≢ 0
    named = known_id h o s.id (location_lem h.sessions s.id known ∙ inside)

    gone : location left_sessions s.id ≡ none
    gone = location-assign_self h.sessions s.id none known

    same : (y : ℕ) → y ≢ s.id → location left_sessions y ≡ location h.sessions y
    same y n = location-assign_ne h.sessions s.id y none n

    elsewhere :
        (y j : ℕ) → j ≢ id → (location h.sessions y ≡ some j) ↔ (location left_sessions y ≡ some j)
    elsewhere y j n = elim (Bool-cases (y == s.id)) [
      | inl q ↦
          let e : y ≡ s.id = ground (arith, q) in
          rw e (
            (λ l. absurd (n (some_inj (sym l ∙ location_lem h.sessions s.id known ∙ inside)))),
            (λ l. ground (arith, l, gone)),
          )
      | inr q ↦ let e = same y (ground (arith, q)) in ((λ l. e ∙ l), (λ l. sym e ∙ l))
    ]

    module _ (e : Entry r) (housed : IsHoused h.sessions e) (k : Kept d e) where
      abbrev Sitting : ℕ → Type 0
      Sitting x = (x ≡ 0) ⊎ (location left_sessions x ≡ some e.id)

      -- The room without the session.
      let_go-IsHoused :
          (a : Actor r ℕ)
          → Left s.id e.actor a
          → IsHoused left_sessions (record e { latest = a.snapshot; actor = a })
      let_go-IsHoused a left = record {
        sound = left.sound;
        phase = refl;
        count = refl;
        housed =
            All-map (λ x. ((x ≡ 0) ⊎ (location h.sessions x ≡ some e.id)) × ((x == s.id) ≡ false))
              Sitting (seats a.snapshot.members) (λ x p. still x p.0 p.1)
              (All-both (λ x. (x ≡ 0) ⊎ (location h.sessions x ≡ some e.id))
                (λ x. (x == s.id) ≡ false) (seats a.snapshot.members) (before left.freed)
                (All-members (λ x. (x == s.id) ≡ false) a.snapshot.members left.gone));
      }
        where
          still :
              (x : ℕ)
              → (x ≡ 0) ⊎ (location h.sessions x ≡ some e.id)
              → (x == s.id) ≡ false
              → Sitting x
          still x (inl z) n = inl z
          still x (inr l) n = inr (same x (ground (arith, n)) ∙ l)

          before :
              Frees s.id (tenants e) (seats a.snapshot.members)
              → All (λ x. (x ≡ 0) ⊎ (location h.sessions x ≡ some e.id)) (seats a.snapshot.members)
          before (inl kept) = rw kept housed.housed
          before (inr (i, seat, freed)) = rw freed (
              All-set (λ x. (x ≡ 0) ⊎ (location h.sessions x ≡ some e.id)) (tenants e) i
                housed.housed (inl refl))

      -- Who is in the room has a seat there still.
      let_go-home :
          (a : Actor r ℕ)
          → Left s.id e.actor a
          → (y : ℕ) → location left_sessions y ≡ some id
          → y ∈ seats a.snapshot.members
      let_go-home a left y l = elim (Bool-cases (y == s.id)) [
        | inl q ↦
            let this : y ≡ s.id = ground (arith, q) in
            let l' : location left_sessions s.id ≡ some id = rw this at l in
            absurd (ground (arith, l', gone))
        | inr q ↦
            let other : y ≢ s.id = ground (arith, q) in
            let (c, found, m) = o.homes y id (sym (same y other) ∙ l) in
            stays other
              (rw (k.1) (subst (λ (q : Entry r). y ∈ tenants q) (some_inj (sym found ∙ at)) m))
              left.freed
      ]
        where
          stays :
              y ≢ s.id
              → y ∈ tenants e
              → Frees s.id (tenants e) (seats a.snapshot.members)
              → y ∈ seats a.snapshot.members
          stays n m (inl kept) = rw kept m
          stays n m (inr (i, seat, freed)) = rw freed (in-set (tenants e) i 0 y seat n m)

    -- What remains of the room after it let the session go.
    released-Away :
        (e : Entry r)
        → e.id ≡ id
        → IsHoused left_sessions e
        → ((y : ℕ) → location left_sessions y ≡ some id → y ∈ tenants e)
        → Away s.id h (released s id h e)
    released-Away e e_named housed home = elim (Bool-cases (e.latest.count == 0)) [
      | inl z ↦ rw z (record {
        orderly =
            IsOrderly-delete h o id left_sessions issued (λ y j n. elsewhere y j n)
              (λ y l. nobody z y l);
        lived = delete-lived id h.rooms lived_or;
        nowhere = gone;
        others = λ y n. same y n;
        limits = same_limits h;
      })
      | inr n ↦
          let some_there : 0 < e.actor.snapshot.count = ground (arith, n, housed.count) in
          rw n (record {
            orderly =
                IsOrderly-put h o id left_sessions issued (λ y j n. elsewhere y j n) d e at e_named
                  housed (λ y l. home y l);
            lived = put-lived e id e_named h.rooms lived_or some_there;
            nowhere = gone;
            others = λ y n. same y n;
            limits = same_limits h;
          })
    ]
      where
        issued : AreIssued h.next_session h.max_sessions left_sessions
        issued = AreIssued-assign h.next_session h.max_sessions s.id h.sessions (issued_of h o) none

        lived_or : All (λ c. (c.id ≡ id) ⊎ (0 < c.actor.snapshot.count)) h.rooms
        lived_or = All-map (λ c. 0 < c.actor.snapshot.count) _ h.rooms (λ c p. inr p) lived

        moved_id : (y : ℕ) → location left_sessions y ≡ some id → y ≢ 0
        moved_id y l = elim (Bool-cases (y == s.id)) [
          | inl q ↦ ground (arith, q, named)
          | inr q ↦ known_id h o y (sym (same y (ground (arith, q))) ∙ l)
        ]

        nobody : (e.latest.count == 0) ≡ true → (y : ℕ) → location left_sessions y ≢ some id
        nobody z y l =
            let none_there : taken (tenants e) ≡ 0 =
              ground (arith, z, housed.count, housed.sound.seated.counted) in
            moved_id y l (taken-zero (tenants e) y none_there (home y l))

    leave_of-Away :
        (between after : List RoomEvent) → Returns (Away s.id h) (leave_of s id between after h)
    unfolding change
    leave_of-Away between after =
        rw (at, leave_of)
          (Returns-bind (λ e. IsHoused h.sessions e × Kept d e) (Away s.id h) _
            (room_events-Kept h.sessions between d
              (All-mem (IsHoused h.sessions) h.rooms o.housed (room_of-some h.rooms id at).1))
            λ e (housed, k).
              let left = (leave-Left e.actor s.id housed.sound named).0 in
              let a : Actor r ℕ = (membership (leave s.id) e.actor).0 in
              Returns-bind (λ e'. IsHoused left_sessions e' × Kept (let_go s e) e') (Away s.id h) _
                (room_events-Kept left_sessions after (let_go s e)
                  (let_go-IsHoused e housed k a left))
                λ e' (housed', k'). Returns-ok _ (
                  released-Away e' (k'.0 ∙ k.0 ∙ (room_of-some h.rooms id at).0) housed'
                    (λ y l. rw (k'.1) (let_go-home e housed k a left y l))))

  module _ (h : Hub r) (o : IsOrderly h) (lived : IsLived h) (session : ℕ) where
    outside : location h.sessions session ≡ none → Away session h h
    outside e = record {
      orderly = o;
      lived = lived;
      nowhere = e;
      others = λ y n. refl;
      limits = same_limits h;
    }

    -- In an orderly hub without empty rooms, a request to leave returns, whatever happens in the room
    -- before and after it. The session is in no room afterwards, every other session is where it was,
    -- and the hub is orderly without empty rooms.
    pub leave_room-Away :
        (between after : List RoomEvent)
        → Returns (Away session h) (leave_room session between after h)
    unfolding leave_room
    leave_room-Away between after = elim (Option-cases (find_session h.sessions session)) [
      | inl e ↦ rw (e, leave_room) (Returns-ok h (outside (ap room_in e)))
      | inr (s, e) ↦ elim (Option-cases s.room) [
        | inl f ↦
            rw (e, leave_room) rw f (Returns-ok h (outside (location_lem h.sessions session e ∙ f)))
        | inr (i, f) ↦
            let named : s.id ≡ session = (find_session-some h.sessions session e).0 in
            let known = ap (find_session h.sessions) named ∙ e in
            let (d, at, _) = o.homes session i (location_lem h.sessions session e ∙ f) in
            rw (e, leave_room) rw f
              (subst (λ k. Returns (Away k h) (leave_of s i between after h)) named
                (leave_of-Away h o lived s known i f d at between after))
      ]
    ]

    -- In an orderly hub without empty rooms, the end of a session returns. Its identifier is not known
    -- afterwards, every other session is where it was, and the hub is orderly without empty rooms.
    pub disconnect-Away :
        (between after : List RoomEvent)
        → Returns
            (λ h'. Away session h h' × (find_session h'.sessions session ≡ none))
            (disconnect session between after h)
    unfolding disconnect
    disconnect-Away between after =
        Returns-bind (Away session h) _ _ (leave_room-Away between after) λ h' away. Returns-ok _ (
          record {
            orderly =
                IsOrderly-sessions h' away.orderly (drop_session session h'.sessions)
                  (AreIssued-drop h'.next_session h'.max_sessions session h'.sessions
                    (issued_of h' away.orderly))
                  (λ y j. dropped h' away.nowhere y j);
            lived = away.lived;
            nowhere = location-drop_self h'.sessions session;
            others = λ y n. location-drop_ne h'.sessions session y n ∙ away.others y n;
            limits = away.limits;
          },
          find_session-drop_self h'.sessions session,
        )
      where
        dropped :
            (h' : Hub r)
            → location h'.sessions session ≡ none
            → (y j : ℕ)
            → (location h'.sessions y ≡ some j)
              ↔ (location (drop_session session h'.sessions) y ≡ some j)
        dropped h' gone y j = elim (Bool-cases (y == session)) [
          | inl q ↦
              let same : y ≡ session = ground (arith, q) in
              rw same (
                (λ l. ground (arith, l, gone)),
                (λ l. ground (arith, l, location-drop_self h'.sessions session)),
              )
          | inr q ↦
              let e = location-drop_ne h'.sessions session y (ground (arith, q)) in
              ((λ l. e ∙ l), (λ l. sym e ∙ l))
        ]

    pub close-IsOrderly : IsOrderly (close h) × IsLived (close h)
    unfolding close
    close-IsOrderly = (
      record {
        issued = tt;
        apart = tt;
        few = omega arith;
        opened = tt;
        rooms_apart = tt;
        few_rooms = omega arith;
        housed = tt;
        homes = λ x i at. cc;
      },
      tt,
    )
