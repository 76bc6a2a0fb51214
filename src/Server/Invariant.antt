-- ===== src/Server/Invariant.antt =====
-- A program is in the room in which the hub has its session, whatever call it makes.
use bomber_cli.Base.{
  ℕ, ◌<◌, ◌≤◌, ◌≡◌, ◌≢◌, refl, ap, ◌∙◌, ◌⊎◌, inl, inr, arith, Bool, true, Option, List, [], ◌∷◌,
  length, All, AllPairs, ok, Returns, Returns-ok, Returns-bind,
}
use bomber_cli.Game.Types.{Rand}
use bomber_cli.Room.Hub.Types.{Hub, Reply}
use bomber_cli.Room.Hub.Maps.{location}
use bomber_cli.Room.Hub.Invariant.{SameLimits, same_limits, IsOrderly, IsLived}
use bomber_cli.Room.Hub.Answers.{DoorOutcome, closed, elsewhere, missing, limited, denied, seated}
use bomber_cli.Room.Hub.Joining.{join_room-DoorOutcome}
use bomber_cli.Room.Hub.Exits.{Away, leave_room-Away}
use bomber_cli.Ui.Model.{Model, Call, asks_to_join, asks_to_leave, submits, quits}
use bomber_cli.Ui.Invariant.{IsUsable, entered, room_after}
use bomber_cli.Server.{Moment, Server, shown, answers_of, perform}

-- The two programs belong to two sessions.
abbrev pub ProgramsApart : Model → Model → Type 0
ProgramsApart m n = m.session.id ≢ n.session.id

module _ {r : Rand} where
  -- The hub has stopped, or it has the session in the room.
  abbrev pub IsPlaced : Hub r → ℕ → Option ℕ → Type 0
  IsPlaced h x room = (h.stopped ≡ true) ⊎ (location h.sessions x ≡ room)

  abbrev pub IsProgram : Hub r → Model → Type 0
  IsProgram h m =
      IsUsable m
      × (0 < m.session.id)
      × (m.session.id ≤ h.next_session)
      × IsPlaced h m.session.id m.room

  -- The hub is orderly without empty rooms, every program is usable and in the room in which the hub
  -- has its session, unless the hub has stopped, and no two programs belong to one session.
  pub record IsServing (s : Server r) : Type 0 where
    pub orderly : IsOrderly s.hub
    pub lived : IsLived s.hub
    pub programs : All (IsProgram s.hub) s.programs
    pub apart : AllPairs ProgramsApart s.programs

  -- What the calls of the program of a session leave, which the answers put into a room.
  pub record Performed (t : Moment) (x : ℕ) (room : Option ℕ) (cs : List Call) (h h' : Hub r)
      : Type 0 where
    pub orderly : IsOrderly h'
    pub lived : IsLived h'
    pub limits : SameLimits h h'
    pub placed : IsPlaced h' x (room_after (answers_of t x h) room cs)
    pub others : (y : ℕ) → y ≢ x → location h'.sessions y ≡ location h.sessions y

  module _ (t : Moment) (h : Hub r) (o : IsOrderly h) (lived : IsLived h) (x : ℕ) (room : Option ℕ)
      (placed : IsPlaced h x room) where
    idle :
        (cs : List Call)
        → IsPlaced h x (room_after (answers_of t x h) room cs)
        → Performed t x room cs h h
    idle cs there = record {
      orderly = o;
      lived = lived;
      limits = same_limits h;
      placed = there;
      others = λ y n. refl;
    }

    -- A request to join puts the session where its answer says.
    joined-IsPlaced :
        (i : ℕ) (new : Bool) (q : Hub r × Reply ℕ)
        → DoorOutcome x i new t.between h q
        → IsOrderly q.0
          × IsLived q.0
          × SameLimits h q.0
          × IsPlaced q.0 x (entered room (shown t.seen (ok q)))
          × ((y : ℕ) → y ≢ x → location q.0.sessions y ≡ location h.sessions y)
    joined-IsPlaced i new _ (closed _) = (o, lived, same_limits h, placed, λ y n. refl)
    joined-IsPlaced i new _ (elsewhere _ _ _) = (o, lived, same_limits h, placed, λ y n. refl)
    joined-IsPlaced i new _ (missing _ _ _ _) = (o, lived, same_limits h, placed, λ y n. refl)
    joined-IsPlaced i new _ (limited _ _ _) = (o, lived, same_limits h, placed, λ y n. refl)
    joined-IsPlaced i new _ (denied h' _ _ _ _ _ _ _ _ o' lived' same limits) =
        (o', lived', limits, stays placed, λ y n. ap (λ ss. location ss y) same)
      where
        stays : IsPlaced h x room → IsPlaced h' x room
        stays (inl e) = inl (limits.2 e)
        stays (inr e) = inr (ap (λ ss. location ss x) same ∙ e)
    joined-IsPlaced i new _ (seated h' j _ _ _ _ _ _ o' lived' there others limits) =
        (o', lived', limits, inr there, others)

    -- A program that makes at most one call is served.
    pub perform-Performed :
        (cs : List Call) → length cs ≤ 1 → Returns (Performed t x room cs h) (perform t x cs h)
    perform-Performed [] few = Returns-ok _ (idle _ placed)
    perform-Performed (asks_to_join i new ∷ []) few =
        let d = join_room-DoorOutcome h o lived x i new t.seed t.between in
        let (o', lived', limits, there, others) = joined-IsPlaced i new d.value d.holds in
        rw d.returns (
          Returns-ok _ (record {
            orderly = o';
            lived = lived';
            limits = limits;
            placed = rw d.returns there;
            others = others;
          }))
    perform-Performed (asks_to_leave ∷ []) few =
        Returns-bind (Away x h) _ _ (leave_room-Away h o lived x t.between t.after) λ h' a.
          Returns-ok _ (record {
            orderly = a.orderly;
            lived = a.lived;
            limits = a.limits;
            placed = inr a.nowhere;
            others = a.others;
          })
    perform-Performed (submits a ∷ []) few = Returns-ok _ (idle _ placed)
    perform-Performed (quits ∷ []) few = Returns-ok _ (idle _ placed)
    perform-Performed (c ∷ d ∷ cs) few = absurd (omega (arith, few))
