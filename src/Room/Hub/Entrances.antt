-- ===== src/Room/Hub/Entrances.antt =====
-- `Join` of internal/room/hub.go, from the chosen room on.
use bomber_cli.Base.{
  ℕ, ◌<◌, ◌≤◌, ◌==◌, ◌≡◌, ◌≢◌, ◌↔◌, refl, sym, ap, subst, ◌∙◌, ◌⊎◌, inl, inr, arith, if◌then◌else◌,
  Bool, true, false, Option, none, some, List, ◌∈◌, All, All-mem, All-map, All-set, Bool-cases,
  some_inj, ok, Returns, Returns-ok,
}
use bomber_cli.Game.Types.{Rand}
use bomber_cli.Room.Rules.{JoinError, round_in_progress, room_is_full, member_index}
use bomber_cli.Room.Actor.{Actor}
use bomber_cli.Room.Invariant.{IsSound}
use bomber_cli.Room.Invariant.Entry.{JoinOutcome, busy, full, entered, Joined, join-JoinOutcome}
use bomber_cli.Room.Hub.Types.{
  Session, Entry, Hub, Reply, granted, refused, find_session, assign, room_of, put_room,
  delete_room,
}
use bomber_cli.Room.Hub.Maps.{
  location, location_lem, find_session-some, location-assign_self, location-assign_ne, room_of-some,
}
use bomber_cli.Room.Hub.Answers.{IsOpen, Refuses, busy_phase, calm_phase}
use bomber_cli.Room.Hub.Doors.{
  room_events, RoomEvent, hub_error, change, answered, member_of, enter,
}
use bomber_cli.Room.Hub.Invariant.{same_limits, SameLimits, IsHoused, IsOrderly, IsLived, tenants}
use bomber_cli.Room.Hub.Rooms.{Kept, room_events-Kept, member_index-absent}
use bomber_cli.Room.Hub.Updates.{
  AreIssued-assign, IsOrderly-put, IsOrderly-delete, issued_of, put-lived, delete-lived, known_id,
}
use bomber_cli.Room.Seats.{seats, in-set, set-in}

module _ {r : Rand} where
  pub data EnterOutcome (s : Session) (id : ℕ) (between : List RoomEvent) (d : Entry r) (h : Hub r)
      : Hub r × Reply ℕ → Type 0 where
    turned_away :
        (h' : Hub r) (x : JoinError) (e : Entry r)
        → room_events between d ≡ ok e
        → Refuses x e.actor.snapshot
        → IsOrderly h'
        → IsLived h'
        → h'.sessions ≡ h.sessions
        → SameLimits h h'
        → EnterOutcome s id between d h (h', refused (hub_error x))
    let_in :
        (h' : Hub r) (e : Entry r)
        → room_events between d ≡ ok e
        → IsOpen e.actor.snapshot
        → IsOrderly h'
        → IsLived h'
        → h'.sessions ≡ assign s.id (some id) h.sessions
        → SameLimits h h'
        → EnterOutcome s id between d h (h', granted id)

  module _ (h : Hub r) (o : IsOrderly h) (s : Session)
      (known : find_session h.sessions s.id ≡ some s) (free : s.room ≡ none) (id : ℕ) (d : Entry r)
      (at : room_of h.rooms id ≡ some d) where
    nowhere : location h.sessions s.id ≡ none
    nowhere = location_lem h.sessions s.id known ∙ free

    named : s.id ≢ 0
    named z = omega (
      arith,
      (All-mem (λ t. (0 < t.id) × (t.id ≤ h.next_session)) h.sessions o.issued
          (find_session-some h.sessions s.id known).1).0,
    )

    d_named : d.id ≡ id
    d_named = (room_of-some h.rooms id at).0

    -- The session has no seat in the room.
    unseated :
        (e : Entry r) → IsHoused h.sessions e → member_index e.actor.snapshot.members s.id ≡ none
    unseated e k = member_index-absent e.actor.snapshot.members s.id (
        All-map (λ x. (x ≡ 0) ⊎ (location h.sessions x ≡ some e.id)) _ (tenants e)
          (λ x y. other x y) k.housed)
      where
        other : (x : ℕ) → (x ≡ 0) ⊎ (location h.sessions x ≡ some e.id) → x ≢ s.id
        other x (inl z) same = named (sym same ∙ z)
        other x (inr l) same =
            let found : location h.sessions s.id ≡ some e.id = rw same at l in
            ground (arith, found, nowhere)

    -- A room that has become `e`, whose seats are those of `d` or one more.
    module _ (created : Bool) (between : List RoomEvent) (e : Entry r)
        (became : room_events between d ≡ ok e) (housed : IsHoused h.sessions e) (k : Kept d e)
        (lived : All (λ c. (c.id ≡ id) ⊎ (0 < c.actor.snapshot.count)) h.rooms) where
      e_named : e.id ≡ id
      e_named = k.0 ∙ d_named

      -- The room has answered with an error, and keeps its members.
      stays :
          (a : Actor r ℕ)
          → a ≡ e.actor
          → IsHoused h.sessions (record e { latest = a.snapshot; actor = a })
      stays a same = record {
        sound = subst IsSound (sym same) housed.sound;
        phase = refl;
        count = refl;
        housed =
            subst
              (λ (b : Actor r ℕ).
                All (λ x. (x ≡ 0) ⊎ (location h.sessions x ≡ some e.id)) (seats b.snapshot.members))
              (sym same) housed.housed;
      }

      refused-EnterOutcome :
          (x : JoinError)
          → Refuses x e.actor.snapshot
          → ((created ≡ true) × ((y : ℕ) → location h.sessions y ≢ some id))
            ⊎ ((created ≡ false) × (0 < d.actor.snapshot.count))
          → EnterOutcome s id between d h (
            record h {
              rooms =
                  if created
                  then delete_room id h.rooms
                  else put_room (record e { latest = e.actor.snapshot }) h.rooms;
            },
            refused (hub_error x),
          )
      refused-EnterOutcome x why (inl (new, nobody)) = rw new (
          turned_away _ x e became why
            (IsOrderly-delete h o id h.sessions (issued_of h o) (λ y j n. ((λ l. l), (λ l. l)))
              nobody)
            (delete-lived id h.rooms lived) refl (same_limits h))
      refused-EnterOutcome x why (inr (old, some_there)) = rw old (
          let e' : Entry r = record e { latest = e.actor.snapshot } in
          turned_away _ x e became why
            (IsOrderly-put h o id h.sessions (issued_of h o) (λ y j n. ((λ l. l), (λ l. l))) d e' at
              e_named (stays e.actor refl) (λ y l. home y l))
            (put-lived e' id e_named h.rooms lived (omega (arith, k.2, some_there))) refl
            (same_limits h))
        where
          home : (y : ℕ) → location h.sessions y ≡ some id → y ∈ tenants e
          home y l =
              let (c, found, m) = o.homes y id l in
              rw (k.1) (subst (λ (q : Entry r). y ∈ tenants q) (some_inj (sym found ∙ at)) m)

      entered-EnterOutcome :
          (a : Actor r ℕ)
          → IsOpen e.actor.snapshot
          → Joined (member_of s) e.actor a
          → EnterOutcome s id between d h (
            record h {
              rooms = put_room (record e { latest = a.snapshot; actor = a }) h.rooms;
              sessions = assign s.id (some id) h.sessions;
            },
            granted id,
          )
      entered-EnterOutcome a free j =
          let e' : Entry r = record e { latest = a.snapshot; actor = a } in
          let_in _ e became free
            (IsOrderly-put h o id (assign s.id (some id) h.sessions)
              (AreIssued-assign h.next_session h.max_sessions s.id h.sessions (issued_of h o)
                (some id))
              (λ y i n. others y i n) d e' at e_named
              (record { sound = j.sound; phase = refl; count = refl; housed = at_home })
              (λ y l. home y l))
            (put-lived e' id e_named h.rooms lived (omega (arith, j.counted))) refl (same_limits h)
        where
          Sitting : ℕ → Type 0
          Sitting x = (x ≡ 0) ⊎ (location (assign s.id (some id) h.sessions) x ≡ some e.id)

          here : location (assign s.id (some id) h.sessions) s.id ≡ some id
          here = location-assign_self h.sessions s.id (some id) known

          there :
              (y : ℕ)
              → y ≢ s.id
              → location (assign s.id (some id) h.sessions) y ≡ location h.sessions y
          there y n = location-assign_ne h.sessions s.id y (some id) n

          others :
              (y i : ℕ)
              → i ≢ id
              → (location h.sessions y ≡ some i)
                ↔ (location (assign s.id (some id) h.sessions) y ≡ some i)
          others y i n = elim (Bool-cases (y == s.id)) [
            | inl q ↦
                let same : y ≡ s.id = ground (arith, q) in
                rw same
                  ((λ l. ground (arith, l, nowhere)), (λ l. absurd (n (some_inj (sym l ∙ here)))))
            | inr q ↦
                let e : location (assign s.id (some id) h.sessions) y ≡ location h.sessions y =
                  there y (ground (arith, q)) in
                ((λ l. e ∙ l), (λ l. sym e ∙ l))
          ]

          kept : (x : ℕ) → (x ≡ 0) ⊎ (location h.sessions x ≡ some e.id) → Sitting x
          kept x (inl z) = inl z
          kept x (inr l) = elim (Bool-cases (x == s.id)) [
            | inl q ↦
                let same : x ≡ s.id = ground (arith, q) in
                inr (rw same (here ∙ ap some (sym e_named)))
            | inr q ↦ inr (there x (ground (arith, q)) ∙ l)
          ]

          at_home : All Sitting (seats a.snapshot.members)
          at_home =
              let (i, free, filled) = j.filled in
              rw filled (
                All-set Sitting (tenants e) i
                  (All-map (λ x. (x ≡ 0) ⊎ (location h.sessions x ≡ some e.id)) _ (tenants e)
                    (λ x p. kept x p) housed.housed)
                  (inr (here ∙ ap some (sym e_named))))

          home :
              (y : ℕ)
              → location (assign s.id (some id) h.sessions) y ≡ some id
              → y ∈ seats a.snapshot.members
          home y l =
              let (i, free, filled) = j.filled in
              rw filled (elim (Bool-cases (y == s.id)) [
                | inl q ↦
                    let same : y ≡ s.id = ground (arith, q) in
                    rw same (set-in (tenants e) i s.id free)
                | inr q ↦
                    let l' : location h.sessions y ≡ some id =
                      sym (there y (ground (arith, q))) ∙ l in
                    let (c, found, m) = o.homes y id l' in
                    in-set (tenants e) i s.id y free (known_id h o y l') (
                      rw (k.1)
                        (subst (λ (q : Entry r). y ∈ tenants q) (some_inj (sym found ∙ at)) m))
              ])

    pub enter-EnterOutcome :
        (created : Bool) (between : List RoomEvent)
        → All (λ c. (c.id ≡ id) ⊎ (0 < c.actor.snapshot.count)) h.rooms
        → ((created ≡ true) × ((y : ℕ) → location h.sessions y ≢ some id))
          ⊎ ((created ≡ false) × (0 < d.actor.snapshot.count))
        → Returns (EnterOutcome s id between d h) (enter s id created between h)
    unfolding enter change
    enter-EnterOutcome created between lived which =
        let went_on =
          room_events-Kept h.sessions between d
            (All-mem (IsHoused h.sessions) h.rooms o.housed (room_of-some h.rooms id at).1) in
        let e = went_on.value in
        let (housed, k) = went_on.holds in
        rw (at, enter) rw (went_on.returns)
          (Returns-ok _ (
            told e went_on.returns housed k _
              (join-JoinOutcome e.actor (member_of s) s.id housed.sound named (unseated e housed))))
      where
        told :
            (e : Entry r) (became : room_events between d ≡ ok e) (housed : IsHoused h.sessions e)
            (k : Kept d e) (q : Actor r ℕ × Option JoinError)
            → JoinOutcome (member_of s) e.actor q
            → EnterOutcome s id between d h
                (answered s id created h (record e { latest = q.0.snapshot; actor = q.0 }, q.1))
        told e became housed k _ (busy w c) =
            refused-EnterOutcome created between e became housed k lived round_in_progress
              (busy_phase e.actor.snapshot.phase w c) which
        told e became housed k _ (full calm all) =
            refused-EnterOutcome created between e became housed k lived room_is_full
              (calm_phase e.actor.snapshot.phase calm, all) which
        told e became housed k _ (entered a calm few j) =
            entered-EnterOutcome created between e became housed k lived a
              (calm_phase e.actor.snapshot.phase calm, few) j
