-- ===== src/Room/Hub/Rooms.antt =====
-- What a room does by itself between the calls of the hub.
use bomber_cli.Base.{
  ℕ, ◌==◌, ◌≡◌, ◌≢◌, refl, sym, subst, ◌∙◌, ◌⊎◌, arith, if◌then◌else◌, Bool, true, false, none,
  some, List, [], ◌∷◌, All, index_of, Returns, Returns-ok, Returns-bind, Returns-map,
}
use bomber_cli.Game.Types.{Rand}
use bomber_cli.Room.Types.{Member}
use bomber_cli.Room.Rules.{member_index}
use bomber_cli.Room.Actor.{Actor}
use bomber_cli.Room.Run.{on_input-IsSound}
use bomber_cli.Room.Seats.{seats, SameSeats}
use bomber_cli.Room.Invariant.{IsSound}
use bomber_cli.Room.Invariant.Ticks.{tick-IsSound}
use bomber_cli.Room.Hub.Types.{Session, Entry}
use bomber_cli.Room.Hub.Maps.{location}
use bomber_cli.Room.Hub.Doors.{RoomEvent, ticked, asked, room_event, room_events}
use bomber_cli.Room.Hub.Invariant.{IsHoused, tenants}

-- An identifier that has no seat.
pub member_index-absent :
    (ms : List Member) (k : ℕ) → All (λ x. x ≢ k) (seats ms) → member_index ms k ≡ none
unfolding member_index index_of
member_index-absent [] k h = refl
member_index-absent (m ∷ ms) k h =
    let other : (m.id == k) ≡ false = ground (arith, h.0) in
    let rest = member_index-absent ms k h.1 in rw other rw rest refl

module _ {r : Rand} where
  -- The same room, with the same members.
  abbrev pub Kept : Entry r → Entry r → Type 0
  Kept d e =
      (e.id ≡ d.id) × (tenants e ≡ tenants d) × (e.actor.snapshot.count ≡ d.actor.snapshot.count)

  IsHoused-Kept :
      (ss : List Session) (d e : Entry r)
      → IsHoused ss d
      → IsSound e.actor
      → e.latest.phase ≡ e.actor.snapshot.phase
      → e.latest.count ≡ e.actor.snapshot.count
      → Kept d e
      → IsHoused ss e
  IsHoused-Kept ss d e h sound phase count (named, same, _) = record {
    sound = sound;
    phase = phase;
    count = count;
    housed = rw same (
        subst (λ i. All (λ x. (x ≡ 0) ⊎ (location ss x ≡ some i)) (tenants d)) (sym named)
          h.housed);
  }

  module _ (ss : List Session) where
    pub room_event-Kept :
        (v : RoomEvent) (e : Entry r)
        → IsHoused ss e
        → Returns (λ e'. IsHoused ss e' × Kept e e') (room_event v e)
    unfolding room_event
    room_event-Kept (ticked now) e h =
        Returns-bind _ _ _ (tick-IsSound now e.actor h.sound) λ a (sound, edge, kept).
          let e' : Entry r = record e { latest = a.snapshot; actor = a } in
          let k : Kept e e' = (refl, kept.0, kept.1) in
          Returns-ok e' (IsHoused-Kept ss e e' h sound refl refl k, k)
    room_event-Kept (asked c now) e h =
        Returns-bind _ _ _ (on_input-IsSound c now e.actor h.sound)
          λ (a, done) x. Returns-ok _ (shown a done x.0 x.2 x.3)
      where
        shown :
            (a : Actor r ℕ) (done : Bool)
            → IsSound a
            → SameSeats e.actor.snapshot a.snapshot
            → (done ≡ false → a.snapshot.phase ≡ e.actor.snapshot.phase)
            → let e' : Entry r = record e {
              latest = if done then a.snapshot else e.latest;
              actor = a;
            } in
              IsHoused ss e' × Kept e e'
        shown a true sound kept p =
            let e' : Entry r = record e { latest = a.snapshot; actor = a } in
            let k : Kept e e' = (refl, kept.0, kept.1) in
            (IsHoused-Kept ss e e' h sound refl refl k, k)
        shown a false sound kept p =
            let e' : Entry r = record e { actor = a } in
            let k : Kept e e' = (refl, kept.0, kept.1) in
            (IsHoused-Kept ss e e' h sound (h.phase ∙ sym (p refl)) (h.count ∙ sym kept.1) k, k)

    -- However many events a room has, it returns from them with the same members.
    pub room_events-Kept :
        (vs : List RoomEvent) (e : Entry r)
        → IsHoused ss e
        → Returns (λ e'. IsHoused ss e' × Kept e e') (room_events vs e)
    unfolding room_events
    room_events-Kept [] e h = Returns-ok e (h, (refl, refl, refl))
    room_events-Kept (v ∷ vs) e h =
        Returns-bind (λ e'. IsHoused ss e' × Kept e e') _ _ (room_event-Kept v e h)
          λ d (hd, k).
            Returns-map (λ e'. IsHoused ss e' × Kept d e') _
              (λ e' (h', k'). (h', (k'.0 ∙ k.0, k'.1 ∙ k.1, k'.2 ∙ k.2))) (room_events-Kept vs d hd)
