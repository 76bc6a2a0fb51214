-- ===== src/Room/Hub/Run.antt =====
-- The hub and the actors of its rooms, one call or event at a time.
use bomber_cli.Base.{
  subst, ℕ, ◌<◌, ◌≡◌, ◌≢◌, refl, sym, ap, ◌∙◌, inr, arith, Bool, Option, none, some, List, All-mem,
  All-map, ◌∈◌, some_inj, ok, Returns, Returns-map, Returns-at,
}
use bomber_cli.Game.Types.{Rand}
use bomber_cli.Room.Hub.{connect}
use bomber_cli.Room.Hub.Types.{
  Session, Entry, Hub, Reply, granted, refused, new_hub, room_of, put_room,
}
use bomber_cli.Room.Hub.Maps.{location, room_of-some}
use bomber_cli.Room.Hub.Doors.{RoomEvent, room_event, join_room, leave_room, disconnect, close}
use bomber_cli.Room.Hub.Invariant.{same_limits, SameLimits, IsHoused, IsOrderly, IsLived, tenants}
use bomber_cli.Room.Hub.Rooms.{Kept, room_event-Kept}
use bomber_cli.Room.Hub.Updates.{IsOrderly-put, issued_of, put-lived}
use bomber_cli.Room.Hub.Sessions.{ConnectOutcome, stopping, full, connected, connect-ConnectOutcome}
use bomber_cli.Room.Hub.Answers.{DoorOutcome, closed, elsewhere, missing, limited, denied, seated}
use bomber_cli.Room.Hub.Joining.{join_room-DoorOutcome}
use bomber_cli.Room.Hub.Exits.{Away, leave_room-Away, disconnect-Away, close-IsOrderly}

-- What a call or an event means for a reader who sees only in which room each session is.
pub data Move : Type 0 where
  nobody : Move
  enters : ℕ → ℕ → Move
  leaves : ℕ → Move
  everybody_leaves : Move

-- The rooms of the sessions before and after a move: nobody moves; one session that was in no room is in
-- the room; one session is in no room; or nobody is in a room.
abbrev pub Moves : Move → (ℕ → Option ℕ) → (ℕ → Option ℕ) → Type 0
Moves nobody before after = (y : ℕ) → after y ≡ before y
Moves (enters x i) before after =
    (before x ≡ none) × (after x ≡ some i) × ((y : ℕ) → y ≢ x → after y ≡ before y)
Moves (leaves x) before after = (after x ≡ none) × ((y : ℕ) → y ≢ x → after y ≡ before y)
Moves everybody_leaves before after = (y : ℕ) → after y ≡ none

-- A session that is let in enters the room of the answer, and one that is refused stays.
abbrev pub join_move : ℕ → Reply ℕ → Move
join_move session (refused x) = nobody
join_move session (granted i) = enters session i

module _ {r : Rand} where
  -- One call of the hub, or one event of one of its rooms.
  pub data Step (h : Hub r) : Hub r → Type 0 where
    arrived :
        (name : List ℕ) (h' : Hub r) (a : Reply Session) → connect name h ≡ ok (h', a) → Step h h'
    asked_in :
        (session id : ℕ) (create : Bool) (seed : ℕ) (between : List RoomEvent) (h' : Hub r)
        (a : Reply ℕ)
        → join_room session id create seed between h ≡ ok (h', a)
        → Step h h'
    walked_out :
        (session : ℕ) (between after : List RoomEvent) (h' : Hub r)
        → leave_room session between after h ≡ ok h'
        → Step h h'
    hung_up :
        (session : ℕ) (between after : List RoomEvent) (h' : Hub r)
        → disconnect session between after h ≡ ok h'
        → Step h h'
    went_on :
        (i : ℕ) (v : RoomEvent) (e e' : Entry r)
        → room_of h.rooms i ≡ some e
        → room_event v e ≡ ok e'
        → Step h (record h { rooms = put_room e' h.rooms })
    shut_down : Step h (close h)

  -- The hubs that a server comes to which allows so many sessions and rooms.
  pub data Serves (most_sessions most_rooms : ℕ) : Hub r → Type 0 where
    opened : Serves most_sessions most_rooms (new_hub most_sessions most_rooms)
    stepped :
        (h h' : Hub r)
        → Serves most_sessions most_rooms h
        → Step h h'
        → Serves most_sessions most_rooms h'

  -- The move of a step, from the call, its session and its answer.
  abbrev pub move_of : {h h' : Hub r} → Step h h' → Move
  move_of (arrived _ _ _ _) = nobody
  move_of (asked_in session _ _ _ _ _ a _) = join_move session a
  move_of (walked_out session _ _ _ _) = leaves session
  move_of (hung_up session _ _ _ _) = leaves session
  move_of (went_on _ _ _ _ _ _) = nobody
  move_of shut_down = everybody_leaves

  abbrev pub Shows : Move → Hub r → Hub r → Type 0
  Shows move h h' =
      IsOrderly h'
      × IsLived h'
      × SameLimits h h'
      × (Moves move (location h.sessions) (location h'.sessions))

  module _ (h : Hub r) (o : IsOrderly h) (lived : IsLived h) where
    same_place :
        (h' : Hub r)
        → h'.sessions ≡ h.sessions
        → (y : ℕ) → location h'.sessions y ≡ location h.sessions y
    same_place h' e y = ap (λ ss. location ss y) e

    connect-Shows : (q : Hub r × Reply Session) → ConnectOutcome h q → Shows nobody h q.0
    connect-Shows _ (stopping _) = (o, lived, same_limits h, λ y. refl)
    connect-Shows _ (full _ _) = (o, lived, same_limits h, λ y. refl)
    connect-Shows _ (connected h' s _ o' sessions rooms free _ alone limits) =
        (o', rw rooms lived, limits, alone)

    join_room-Shows :
        (session id : ℕ) (create : Bool) (between : List RoomEvent) (q : Hub r × Reply ℕ)
        → DoorOutcome session id create between h q
        → Shows (join_move session q.1) h q.0
    join_room-Shows session id create between _ (closed _) = (o, lived, same_limits h, λ y. refl)
    join_room-Shows session id create between _ (elsewhere _ _ _) =
        (o, lived, same_limits h, λ y. refl)
    join_room-Shows session id create between _ (missing _ _ _ _) =
        (o, lived, same_limits h, λ y. refl)
    join_room-Shows session id create between _ (limited _ _ _) =
        (o, lived, same_limits h, λ y. refl)
    join_room-Shows session id create between _ (denied h' _ _ _ _ _ _ _ _ o' lived' same limits) =
        (o', lived', limits, λ y. same_place h' same y)
    join_room-Shows session id create between _
          (seated h' i _ _ door _ _ _ o' lived' there others limits) =
        (o', lived', limits, (door.free, there, others))

    Away-Shows : (session : ℕ) (h' : Hub r) → Away session h h' → Shows (leaves session) h h'
    Away-Shows session h' a = (a.orderly, a.lived, a.limits, (a.nowhere, a.others))

    pub room_event-Shows :
        (i : ℕ) (e e' : Entry r)
        → room_of h.rooms i ≡ some e
        → IsHoused h.sessions e'
        → Kept e e'
        → Shows nobody h (record h { rooms = put_room e' h.rooms })
    room_event-Shows i e e' at housed k =
        let (named, m) = room_of-some h.rooms i at in
        (
          IsOrderly-put h o i h.sessions (issued_of h o) (λ y j n. ((λ l. l), (λ l. l))) e e' at
              (k.0 ∙ named) housed
              (λ y l.
                let (c, found, m) = o.homes y i l in
                rw (k.1) (subst (λ (q : Entry r). y ∈ tenants q) (some_inj (sym found ∙ at)) m)),
          put-lived e' i (k.0 ∙ named) h.rooms
              (All-map (λ c. 0 < c.actor.snapshot.count) _ h.rooms (λ c p. inr p) lived)
              (rw (k.2) (All-mem (λ c. 0 < c.actor.snapshot.count) h.rooms lived m)),
          same_limits h,
          λ y. refl,
        )

    pub room_event-Returns :
        (i : ℕ) (v : RoomEvent) {e : Entry r}
        → room_of h.rooms i ≡ some e
        → Returns (λ e'. IsHoused h.sessions e' × Kept e e') (room_event v e)
    room_event-Returns i v {e} at =
        room_event-Kept h.sessions v e
          (All-mem (IsHoused h.sessions) h.rooms o.housed (room_of-some h.rooms i at).1)

    -- One step from an orderly hub without empty rooms leads to such a hub with the same limits, and is the
    -- move that the call means for a reader who sees only which session is in which room: nobody moves
    -- when a session comes, when a request to join is refused, and by the events of a room; the session
    -- of a request that is granted was in no room and is in the room of the answer; the session that
    -- leaves or disconnects is in no room; all others are where they were; and after the end of the hub
    -- nobody is in a room.
    pub Step-Shows : (h' : Hub r) (step : Step h h') → Shows (move_of step) h h'
    unfolding close
    Step-Shows h' (arrived name _ a e) =
        Returns-at (λ q. Shows nobody h q.0)
          (Returns-map (ConnectOutcome h) _ (λ q x. connect-Shows q x)
            (connect-ConnectOutcome h o name))
          e
    Step-Shows h' (asked_in session id create seed between _ a e) =
        Returns-at (λ q. Shows (join_move session q.1) h q.0)
          (Returns-map (DoorOutcome session id create between h) _
            (λ q x. join_room-Shows session id create between q x)
            (join_room-DoorOutcome h o lived session id create seed between))
          e
    Step-Shows h' (walked_out session between after _ e) =
        Away-Shows session h'
          (Returns-at (Away session h) (leave_room-Away h o lived session between after) e)
    Step-Shows h' (hung_up session between after _ e) =
        Away-Shows session h' (Returns-at _ (disconnect-Away h o lived session between after) e).0
    Step-Shows h' (went_on i v d d' at e) =
        let (housed, k) = Returns-at _ (room_event-Returns i v at) e in
        room_event-Shows i d d' at housed k
    Step-Shows h' shut_down =
        let (o', lived') = close-IsOrderly h o lived 0 in
        (o', lived', (refl, refl, λ e. refl, omega arith), λ y. emptied y)
      where
        emptied : (y : ℕ) → location (close h).sessions y ≡ none
        emptied y = refl

  pub new_hub-IsOrderly : (a b : ℕ) → IsOrderly (new_hub {r = r} a b)
  new_hub-IsOrderly a b = record {
    issued = tt;
    apart = tt;
    few = omega arith;
    opened = tt;
    rooms_apart = tt;
    few_rooms = omega arith;
    housed = tt;
    homes = λ x i at. cc;
  }

  -- Every hub that a server comes to is orderly and has no empty room: identifiers and names are unique,
  -- there are at most `a` sessions and `b` rooms, every actor is sound, and a session is in a room exactly
  -- if it has a seat there.
  pub Serves-IsOrderly :
      (a b : ℕ) (h : Hub r)
      → Serves a b h
      → IsOrderly h × IsLived h × (h.max_sessions ≡ a) × (h.max_rooms ≡ b)
  Serves-IsOrderly a b h opened = (new_hub-IsOrderly a b, tt, refl, refl)
  Serves-IsOrderly a b h (stepped g _ s x) =
      let (o, lived, most, most_rooms) = Serves-IsOrderly a b g s in
      let (o', lived', limits, _) = Step-Shows g o lived h x in
      (o', lived', limits.0 ∙ most, limits.1 ∙ most_rooms)

  -- In every hub that a server comes to, each call returns: a connection, a request to join, to leave and
  -- to disconnect, and each event of a room.
  pub Serves-Returns :
      (a b : ℕ) (h : Hub r)
      → Serves a b h
      → (name : List ℕ) (session id : ℕ) (create : Bool) (seed : ℕ) (between after : List RoomEvent)
      → Returns (λ q. IsOrderly q.0) (connect name h)
        × Returns (λ q. IsOrderly q.0) (join_room session id create seed between h)
        × Returns (λ h'. IsOrderly h') (leave_room session between after h)
        × Returns (λ h'. IsOrderly h') (disconnect session between after h)
        × ((i : ℕ) (v : RoomEvent) (e : Entry r)
            → room_of h.rooms i ≡ some e
            → Returns (λ e'. IsHoused h.sessions e') (room_event v e))
  Serves-Returns a b h s name session id create seed between after =
      let (o, lived, _, _) = Serves-IsOrderly a b h s in
      (
        Returns-map (ConnectOutcome h) _ (λ q x. (connect-Shows h o lived q x).0)
            (connect-ConnectOutcome h o name),
        Returns-map (DoorOutcome session id create between h) _
            (λ q x. (join_room-Shows h o lived session id create between q x).0)
            (join_room-DoorOutcome h o lived session id create seed between),
        Returns-map (Away session h) _ (λ h' x. x.orderly)
            (leave_room-Away h o lived session between after),
        Returns-map _ _ (λ h' x. x.0.orderly) (disconnect-Away h o lived session between after),
        λ i v e at. Returns-map _ _ (λ e' x. x.0) (room_event-Returns h o lived i v at),
      )
