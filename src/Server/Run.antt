-- ===== src/Server/Run.antt =====
-- The hub and the programs of its sessions, one event after the other.
use bomber_cli.Base.{
  ℕ, ◌<◌, ◌≡◌, sym, ◌∙◌, ◌⊎◌, inl, inr, arith, true, some, List, [], ◌∷◌, All, AllPairs, All-mem,
  All-map, ◌∈◌, Returns, Returns-ok, Returns-bind, Returns-map,
}
use bomber_cli.Game.Types.{Rand}
use bomber_cli.Room.Hub.Types.{Entry, Hub, room_of}
use bomber_cli.Room.Hub.Maps.{location}
use bomber_cli.Room.Hub.Invariant.{IsHoused, tenants}
use bomber_cli.Room.Hub.Run.{new_hub-IsOrderly}
use bomber_cli.Ui.Model.{Model}
use bomber_cli.Ui.Invariant.{IsUsable}
use bomber_cli.Server.{Event, Server, new_server, serve_all}
use bomber_cli.Server.Invariant.{ProgramsApart, IsPlaced, IsProgram, IsServing}
use bomber_cli.Server.Steps.{IsFair, serve-IsServing}

module _ {r : Rand} where
  pub new_server-IsServing : (a b : ℕ) → IsServing (new_server {r = r} a b)
  new_server-IsServing a b = record {
    orderly = new_hub-IsOrderly a b;
    lived = tt;
    programs = tt;
    apart = tt;
  }

  pub serve_all-IsServing :
      (vs : List Event) (s : Server r)
      → All IsFair vs
      → IsServing s
      → Returns IsServing (serve_all vs s)
  unfolding serve_all
  serve_all-IsServing [] s fair i = Returns-ok s i
  serve_all-IsServing (v ∷ vs) s fair i =
      Returns-bind IsServing IsServing _ (serve-IsServing s i v fair.0)
        λ s' i'. serve_all-IsServing vs s' fair.1 i'

  -- The session of the program has a seat in its room and in no other, or in none at all in the lobby.
  abbrev pub IsSeated : Hub r → Model → Type 0
  IsSeated h m =
      ((e : Entry r) → e ∈ h.rooms → m.session.id ∈ tenants e → m.room ≡ some e.id)
      × ((i : ℕ)
          → m.room ≡ some i
          → (e : Entry r) × (room_of h.rooms i ≡ some e) × (m.session.id ∈ tenants e))

  IsServing-IsSeated :
      (s : Server r) → IsServing s → All (λ m. (s.hub.stopped ≡ true) ⊎ IsSeated s.hub m) s.programs
  IsServing-IsSeated s i =
      All-map (IsProgram s.hub) (λ m. (s.hub.stopped ≡ true) ⊎ IsSeated s.hub m) s.programs
        (λ m (usable, positive, issued, placed). seated m positive placed) i.programs
    where
      housed_at :
          (e : Entry r) (m : Model)
          → 0 < m.session.id
          → e ∈ s.hub.rooms
          → m.session.id ∈ tenants e
          → location s.hub.sessions m.session.id ≡ some e.id
      housed_at e m positive here sits =
          let k = All-mem (IsHoused s.hub.sessions) s.hub.rooms i.orderly.housed here in
          elim (All-mem (λ x. (x ≡ 0) ⊎ (location s.hub.sessions x ≡ some e.id)) (tenants e)
            k.housed sits) [ inl z ↦ absurd (omega (arith, z, positive)) | inr l ↦ l ]

      seated :
          (m : Model)
          → 0 < m.session.id
          → IsPlaced s.hub m.session.id m.room
          → (s.hub.stopped ≡ true) ⊎ IsSeated s.hub m
      seated m positive (inl stopped) = inl stopped
      seated m positive (inr there) = inr (
        (λ e here sits. sym there ∙ housed_at e m positive here sits),
        (λ j at. i.orderly.homes m.session.id j (there ∙ at)),
      )

  -- From a new server, any sequence of sessions that begin and end, of messages to their programs, of
  -- events of the rooms and an end of the hub returns, if a room is always seen with its own
  -- identifier. Until the hub stops, the room that a program shows is the one room in which its
  -- session has a seat, and a program that shows the lobby belongs to a session without a seat. No two
  -- programs belong to one session.
  pub serve_all-IsSeated :
      (a b : ℕ) (vs : List Event)
      → All IsFair vs
      → Returns
          (λ (s : Server r).
            All (λ m. (s.hub.stopped ≡ true) ⊎ IsSeated s.hub m) s.programs
            × AllPairs ProgramsApart s.programs
            × All IsUsable s.programs)
          (serve_all vs (new_server a b))
  serve_all-IsSeated a b vs fair =
      Returns-map IsServing _
        (λ s i. (
          IsServing-IsSeated s i,
          i.apart,
          All-map (IsProgram s.hub) IsUsable s.programs (λ m p. p.0) i.programs,
        ))
        (serve_all-IsServing vs (new_server a b) fair (new_server-IsServing a b))
