-- ===== src/Room/Hub/Invariant.antt =====
-- What holds of the hub and the actors of its rooms between two calls.
use bomber_cli.Base.{
  ℕ, ◌<◌, ◌≤◌, ◌≡◌, ◌≢◌, ◌⊎◌, false, true, some, refl, ◌∙◌, arith, List, length, All, All-map,
  AllPairs, ◌∈◌, inl, inr,
}
use bomber_cli.Game.Types.{Rand}
use bomber_cli.Room.Seats.{seats}
use bomber_cli.Room.Invariant.{IsSound}
use bomber_cli.Room.Names.{name_eq}
use bomber_cli.Room.Hub.Types.{Session, Entry, Hub, room_of}
use bomber_cli.Room.Hub.Maps.{location}

abbrev pub SessionsApart : Session → Session → Type 0
SessionsApart s t = (s.id ≢ t.id) × (name_eq t.name s.name ≡ false)

module _ {r : Rand} where
  abbrev pub EntriesApart : Entry r → Entry r → Type 0
  EntriesApart d e = d.id ≢ e.id

  abbrev pub tenants : Entry r → List ℕ
  tenants e = seats e.actor.snapshot.members

  -- The actor of the room is sound, the published snapshot tells its phase and its count, and every
  -- taken seat belongs to a session that is in the room.
  pub record IsHoused (ss : List Session) (e : Entry r) : Type 0 where
    pub sound : IsSound e.actor
    pub phase : e.latest.phase ≡ e.actor.snapshot.phase
    pub count : e.latest.count ≡ e.actor.snapshot.count
    pub housed : All (λ x. (x ≡ 0) ⊎ (location ss x ≡ some e.id)) (tenants e)

  -- No two sessions share an identifier or a name, no two rooms an identifier, none is 0, the limits
  -- are kept, and a session is in a room exactly if it has a seat there.
  pub record IsOrderly (h : Hub r) : Type 0 where
    pub issued : All (λ s. (0 < s.id) × (s.id ≤ h.next_session)) h.sessions
    pub apart : AllPairs SessionsApart h.sessions
    pub few : length h.sessions ≤ h.max_sessions
    pub opened : All (λ e. (0 < e.id) × (e.id ≤ h.next_room)) h.rooms
    pub rooms_apart : AllPairs EntriesApart h.rooms
    pub few_rooms : length h.rooms ≤ h.max_rooms
    pub housed : All (IsHoused h.sessions) h.rooms
    pub homes :
        (x i : ℕ)
        → location h.sessions x ≡ some i
        → (e : Entry r) × (room_of h.rooms i ≡ some e) × (x ∈ tenants e)

  -- The limits are the same, a hub that stops does not start again, and the counter of the sessions
  -- does not go down.
  abbrev pub SameLimits : Hub r → Hub r → Type 0
  SameLimits h h' =
      (h'.max_sessions ≡ h.max_sessions)
      × (h'.max_rooms ≡ h.max_rooms)
      × (h.stopped ≡ true → h'.stopped ≡ true)
      × (h.next_session ≤ h'.next_session)

  pub same_limits : (h : Hub r) → SameLimits h h
  same_limits h = (refl, refl, λ e. e, omega arith)

  pub SameLimits-trans : (g h h' : Hub r) → SameLimits g h → SameLimits h h' → SameLimits g h'
  SameLimits-trans g h h' x y = (y.0 ∙ x.0, y.1 ∙ x.1, λ e. y.2 (x.2 e), omega (arith, x.3, y.3))

  -- No room is empty.
  abbrev pub IsLived : Hub r → Type 0
  IsLived h = All (λ e. 0 < e.actor.snapshot.count) h.rooms

  pub IsHoused-locations :
      {ss ss' : List Session} (e : Entry r)
      → ((x : ℕ) → location ss x ≡ some e.id → location ss' x ≡ some e.id)
      → IsHoused ss e
      → IsHoused ss' e
  IsHoused-locations {ss} {ss'} e f h = record {
    sound = h.sound;
    phase = h.phase;
    count = h.count;
    housed =
        All-map (λ x. (x ≡ 0) ⊎ (location ss x ≡ some e.id)) _ (tenants e) (λ x o. there x o)
          h.housed;
  }
    where
      there :
          (x : ℕ) → (x ≡ 0) ⊎ (location ss x ≡ some e.id) → (x ≡ 0) ⊎ (location ss' x ≡ some e.id)
      there x (inl z) = inl z
      there x (inr i) = inr (f x i)
