-- ===== src/Server/Steps.antt =====
-- What one event makes of the hub and the programs of its sessions.
use bomber_cli.Base.{
  ℕ, ◌<◌, ◌≤◌, ◌==◌, ◌≡◌, ◌≢◌, refl, sym, ap, subst, ◌∙◌, inl, inr, arith, Bool, true, none, some,
  List, [], ◌∷◌, All, All-mem, All-map, All-keep, All-through, AllPairs-through, AllPairs-Sublist,
  keep-Sublist, not, ◌∈◌, Bool-cases, Option-cases, some_inj, ok, Returns, Returns-ok, Returns-bind,
  Result, err,
}
use bomber_cli.Game.Types.{Rand}
use bomber_cli.Room.Types.{Snapshot}
use bomber_cli.Room.Hub.Types.{Session, Entry, Hub, Reply, granted, refused, room_of}
use bomber_cli.Room.Hub.Maps.{location}
use bomber_cli.Room.Hub.Doors.{RoomEvent, close}
use bomber_cli.Room.Hub.Invariant.{SameLimits}
use bomber_cli.Room.Hub.Sessions.{ConnectOutcome, stopping, full, connected, connect-ConnectOutcome}
use bomber_cli.Room.Hub.Exits.{Away, disconnect-Away, close-IsOrderly}
use bomber_cli.Room.Hub.Run.{room_event-Shows, room_event-Returns}
use bomber_cli.Ui.Model.{Model, Call, Message}
use bomber_cli.Ui.Invariant.{IsUsable, IsLawful, IsServed, room_after, update-IsServed}
use bomber_cli.Server.{
  Moment, Event, begins, says, ends, goes_on, stops, Server, find_program, turned_to, put_program,
  drop_program, shown, answers_of, answered_program, welcomed, serve,
}
use bomber_cli.Server.Invariant.{
  ProgramsApart, IsPlaced, IsProgram, IsServing, Performed, perform-Performed,
}

-- A room is seen with its own identifier.
abbrev IsTrue : Moment → Type 0
IsTrue t = (i : ℕ) → (t.seen i).id ≡ i

abbrev pub IsFair : Event → Type 0
IsFair (begins name w l color now rooms) = Unit
IsFair (says id v t) = IsTrue t
IsFair (ends id between after) = Unit
IsFair (goes_on i v) = Unit
IsFair stops = Unit

pub find_program-some :
    (ms : List Model) (id : ℕ) {m : Model}
    → find_program ms id ≡ some m
    → (m.session.id ≡ id) × (m ∈ ms)
find_program-some [] id e = cc
find_program-some (n ∷ ms) id {m} e = elim (Bool-cases (n.session.id == id)) [
  | inl h ↦
      let same : n ≡ m = some_inj (rw h at e) in (rw (← same) (ground (arith, h)), inl (sym same))
  | inr h ↦ let (named, k) = find_program-some ms id (rw h at e) in (named, inr k)
]

granted_inj : {A : Type 0} {a b : A} → granted a ≡ granted b → a ≡ b
granted_inj e = cc

module _ {r : Rand} where
  shown-IsLawful : (t : Moment) (x : ℕ) (h : Hub r) → IsTrue t → IsLawful (answers_of t x h)
  shown-IsLawful t x h law id new i s e = from _ e
    where
      from : (q : Result (Hub r × Reply ℕ)) → shown t.seen q ≡ granted (i, s) → s.id ≡ i
      from (ok (g, granted j)) e =
          let pair : (j, t.seen j) ≡ (i, s) = granted_inj e in
          subst (λ (p : ℕ × Snapshot). p.1.id ≡ p.0) pair (law j)
      from (ok (g, refused y)) e = cc
      from (err y) e = cc

  -- The program of another session than the one that the hub has served.
  bystander :
      (x : ℕ) (h h' : Hub r)
      → SameLimits h h'
      → ((y : ℕ) → y ≢ x → location h'.sessions y ≡ location h.sessions y)
      → (m : Model) → m.session.id ≢ x
      → IsProgram h m
      → IsProgram h' m
  bystander x h h' limits others m apart (usable, positive, issued, placed) =
      (usable, positive, omega (arith, issued, limits.3), there placed)
    where
      there : IsPlaced h m.session.id m.room → IsPlaced h' m.session.id m.room
      there (inl e) = inl (limits.2 e)
      there (inr e) = inr (others m.session.id apart ∙ e)

  module _ (s : Server r) (i : IsServing s) where
    begins-IsServing :
        (w l : ℕ) (color : Bool) (now : ℕ) (rooms : List Snapshot) (q : Hub r × Reply Session)
        → ConnectOutcome s.hub q
        → IsServing (welcomed w l color now rooms s q)
    begins-IsServing w l color now rooms _ (stopping _) = i
    begins-IsServing w l color now rooms _ (full _ _) = i
    begins-IsServing w l color now rooms _
          (connected h' u _ o sessions entries outside number alone limits) =
        record {
          orderly = o;
          lived = rw entries i.lived;
          programs = (
            (
              record { pointed = omega arith; shown = tt },
              omega (arith, number),
              (subst (λ us. All (λ t. (0 < t.id) × (t.id ≤ h'.next_session)) us) sessions
                  o.issued).0.1,
              inr (rw sessions here),
            ),
            All-map (IsProgram s.hub) (IsProgram h') s.programs
                (λ m p. bystander 0 s.hub h' limits (λ y n. alone y) m (omega (arith, p.1)) p)
                i.programs,
          );
          apart = (
            All-map (IsProgram s.hub) _ s.programs (λ m p. omega (arith, number, p.2)) i.programs,
            i.apart,
          );
        }
      where
        here : location (u ∷ s.hub.sessions) u.id ≡ none
        here = let mine : (u.id == u.id) ≡ true = ground arith in rw mine outside

    says-IsServing :
        (v : Message) (t : Moment) (m : Model)
        → IsTrue t
        → m ∈ s.programs
        → Returns IsServing (answered_program t v m s)
    says-IsServing v t m fair among =
        let a = answers_of t m.session.id s.hub in
        let p = All-mem (IsProgram s.hub) s.programs i.programs among in
        Returns-bind (IsServed a m) IsServing _
          (update-IsServed a (shown-IsLawful t m.session.id s.hub fair) m p.0 v)
          λ (m', calls) (usable, fits, led, same, few).
            Returns-bind (Performed t m.session.id m.room calls s.hub) IsServing _
              (perform-Performed t s.hub i.orderly i.lived m.session.id m.room p.3 calls few)
              λ h' f. Returns-ok _ (told m' calls p usable led same h' f)
      where
        told :
            (m' : Model) (calls : List Call)
            → IsProgram s.hub m
            → IsUsable m'
            → m'.room ≡ room_after (answers_of t m.session.id s.hub) m.room calls
            → m'.session ≡ m.session
            → (h' : Hub r) → Performed t m.session.id m.room calls s.hub h'
            → IsServing (record { hub = h'; programs = put_program m' s.programs })
        told m' calls p usable led same h' f = record {
          orderly = f.orderly;
          lived = f.lived;
          programs =
              All-through (IsProgram s.hub) (IsProgram h') (turned_to m') s.programs
                (λ n q. turned n q) i.programs;
          apart =
              AllPairs-through ProgramsApart (turned_to m') s.programs
                (λ b c d e. d (sym (id_kept b) ∙ e ∙ id_kept c)) i.apart;
        }
          where
            id_kept : (n : Model) → (turned_to m' n).session.id ≡ n.session.id
            id_kept n = elim (Bool-cases (n.session.id == m'.session.id)) [
              | inl e ↦ rw e (ground (arith, e))
              | inr e ↦ rw e refl
            ]

            mine : IsProgram h' m'
            mine = (
              usable,
              rw same p.1,
              rw same (omega (arith, p.2, f.limits.3)),
              rw led rw same f.placed,
            )

            turned : (n : Model) → IsProgram s.hub n → IsProgram h' (turned_to m' n)
            turned n q = elim (Bool-cases (n.session.id == m'.session.id)) [
              | inl e ↦ rw e mine
              | inr e ↦ rw e (
                  bystander m.session.id s.hub h' f.limits f.others n
                    (λ e'. ground (arith, e, e', ap (λ (u : Session). u.id) same)) q)
            ]

    ends-IsServing :
        (x : ℕ) (h' : Hub r)
        → Away x s.hub h'
        → IsServing (record { hub = h'; programs = drop_program x s.programs })
    ends-IsServing x h' a = record {
      orderly = a.orderly;
      lived = a.lived;
      programs =
          All-keep (IsProgram s.hub) (IsProgram h') (λ m. not (m.session.id == x)) s.programs
            (λ m kept p. bystander x s.hub h' a.limits a.others m (ground (arith, kept)) p)
            i.programs;
      apart =
          AllPairs-Sublist ProgramsApart (keep-Sublist (λ m. not (m.session.id == x)) s.programs)
            i.apart;
    }

    goes_on-IsServing :
        (x : ℕ) (v : RoomEvent) (e : Entry r)
        → room_of s.hub.rooms x ≡ some e
        → Returns IsServing (serve (goes_on x v) s)
    unfolding serve
    goes_on-IsServing x v e at =
        rw (at, serve)
          (Returns-bind _ IsServing _ (room_event-Returns s.hub i.orderly i.lived x v at)
            λ e' (housed, kept).
              let shows = room_event-Shows s.hub i.orderly i.lived x e e' at housed kept in
              Returns-ok _ (record {
                orderly = shows.0;
                lived = shows.1;
                programs = i.programs;
                apart = i.apart;
              }))

    -- Whatever happens next to the sessions of a server, it returns, and the hub and the programs agree
    -- afterwards on who is in which room, as they did before.
    pub serve-IsServing : (v : Event) → IsFair v → Returns IsServing (serve v s)
    unfolding serve close
    serve-IsServing (begins name w l color now rooms) fair =
        Returns-bind (ConnectOutcome s.hub) IsServing _
          (connect-ConnectOutcome s.hub i.orderly name)
          λ q c. Returns-ok _ (begins-IsServing w l color now rooms q c)
    serve-IsServing (says id v t) fair = elim (Option-cases (find_program s.programs id)) [
      | inl e ↦ rw (e, serve) (Returns-ok s i)
      | inr (m, e) ↦ rw (e, serve) (says-IsServing v t m fair (find_program-some s.programs id e).1)
    ]
    serve-IsServing (ends id between after) fair =
        Returns-bind _ IsServing _ (disconnect-Away s.hub i.orderly i.lived id between after)
          λ h' (a, gone). Returns-ok _ (ends-IsServing id h' a)
    serve-IsServing (goes_on x v) fair = elim (Option-cases (room_of s.hub.rooms x)) [
      | inl e ↦ rw (e, serve) (Returns-ok s i)
      | inr (e, at) ↦ goes_on-IsServing x v e at
    ]
    serve-IsServing stops fair =
        let (o, lived) = close-IsOrderly s.hub i.orderly i.lived 0 in
        Returns-ok _ (record {
          orderly = o;
          lived = lived;
          programs =
              All-map (IsProgram s.hub) (IsProgram (close s.hub)) s.programs
                (λ m p. (p.0, p.1, p.2, inl refl)) i.programs;
          apart = i.apart;
        })
