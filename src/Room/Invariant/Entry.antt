-- ===== src/Room/Invariant/Entry.antt =====
-- Joining: what `membership` answers and does to a sound room for a member who comes.
use bomber_cli.Base.{
  ℕ, ◌+◌, ◌<◌, ◌≡◌, ◌≢◌, refl, ap, ◌∙◌, inl, inr, arith, true, false, not, leb, ◌&&◌, Option, none,
  some, List, [], ◌∷◌, map, length, set, get_elem?, All, Bool-cases, Option-cases, suc, zero,
}
use bomber_cli.Game.Types.{Rand, max_players}
use bomber_cli.Room.Types.{Phase, waiting, countdown, playing, result, Member, Snapshot}
use bomber_cli.Room.Rules.{
  unready, is_waiting, is_countdown, member_index, JoinError, round_in_progress, room_is_full,
  with_member,
}
use bomber_cli.Room.Seats.{
  Fills, seats-set, seats-unready, seats, IsSeated, get_elem?-seats, free_or_full, taken-bound,
}
use bomber_cli.Room.Actor.{Actor, join, settled, joined_actor, membership}
use bomber_cli.Room.Invariant.{IsSound}
use bomber_cli.Room.Invariant.Seating.{
  calmed, member_index-some, member_index-none, IsSeated-fill, settled-IsSound,
}
use bomber_cli.Room.Invariant.Departures.{settled_members, nobody_ready}

free_seat :
    (s : Snapshot)
    → IsSeated s
    → leb max_players s.count ≡ false
    → (i : ℕ) × (member_index s.members 0 ≡ some i)
free_seat s h room = elim (Option-cases (member_index s.members 0)) [
  | inl e ↦ absurd (
      ground
        (arith, room, h.counted, h.four, free_or_full s.members (member_index-none s.members 0 e)))
  | inr found ↦ found
]

get_elem?-set_here :
    (ms : List Member) (i : ℕ) (m : Member) → i < length ms → get_elem? (set ms i m) i ≡ some m
get_elem?-set_here [] i m lt = absurd (omega arith)
get_elem?-set_here (x ∷ ms) zero m lt = refl
get_elem?-set_here (x ∷ ms) (suc i) m lt = get_elem?-set_here ms i m (omega arith)

get_elem?-unready :
    (ms : List Member) (i : ℕ) {m : Member}
    → get_elem? ms i ≡ some m
    → get_elem? (map unready ms) i ≡ some (unready m)
get_elem?-unready [] i e = absurd (cc)
get_elem?-unready (x ∷ ms) zero e = ap (λ o. read_or x o) e
  where
    read_or : Member → Option Member → Option Member
    read_or y none = some (unready y)
    read_or y (some z) = some (unready z)
get_elem?-unready (x ∷ ms) (suc i) e = get_elem?-unready ms i e

with_member_lem :
    (s : Snapshot) (m : Member) (i : ℕ)
    → (not (is_waiting s.phase) && not (is_countdown s.phase)) ≡ false
    → leb max_players s.count ≡ false
    → member_index s.members 0 ≡ some i
    → with_member s m ≡ (record s { members = set s.members i m; count = s.count + 1 }, none)
unfolding with_member
with_member_lem s m i p c e = rw (p, with_member) rw c rw e refl

with_member_busy :
    (s : Snapshot) (m : Member)
    → (not (is_waiting s.phase) && not (is_countdown s.phase)) ≡ true
    → with_member s m ≡ (s, some round_in_progress)
unfolding with_member
with_member_busy s m p = rw (p, with_member) refl

with_member_full :
    (s : Snapshot) (m : Member)
    → (not (is_waiting s.phase) && not (is_countdown s.phase)) ≡ false
    → leb max_players s.count ≡ true
    → with_member s m ≡ (s, some room_is_full)
unfolding with_member
with_member_full s m p c = rw (p, with_member) rw c refl

calmed_opened :
    (p : Phase) → (not (is_waiting p) && not (is_countdown p)) ≡ false → calmed p ≡ waiting
calmed_opened waiting e = refl
calmed_opened countdown e = refl
calmed_opened playing e = cc
calmed_opened result e = cc

joined_actor_lem :
    {r : Rand} {Frames : Type 0} (m : Member) (f : Frames) (s : Snapshot) (a : Actor r Frames)
    → ((joined_actor m f s a).snapshot ≡ s) × ((joined_actor m f s a).match ≡ a.match)
unfolding joined_actor
joined_actor_lem m f s a = (refl, refl)

module _ {r : Rand} {Frames : Type 0} where
  -- The seat of a member who joins is the first free one.
  pub record Joined (m : Member) (a a' : Actor r Frames) : Type 0 where
    pub sound : IsSound a'
    pub phase : a'.snapshot.phase ≡ waiting
    pub counted : a'.snapshot.count ≡ a.snapshot.count + 1
    pub present : (i : ℕ) × (get_elem? a'.snapshot.members i ≡ some (unready m))
    pub not_ready : All (λ x. x.ready ≡ false) a'.snapshot.members
    pub filled : Fills m.id (seats a.snapshot.members) (seats a'.snapshot.members)

  -- What a request to join answers: an error, and nothing changes, exactly while a round is on or the
  -- room is full.
  pub data JoinOutcome (m : Member) (a : Actor r Frames)
      : Actor r Frames × Option JoinError → Type 0 where
    busy :
        is_waiting a.snapshot.phase ≡ false
        → is_countdown a.snapshot.phase ≡ false
        → JoinOutcome m a (a, some round_in_progress)
    full :
        calmed a.snapshot.phase ≡ waiting
        → a.snapshot.count ≡ max_players
        → JoinOutcome m a (a, some room_is_full)
    entered :
        (a' : Actor r Frames)
        → calmed a.snapshot.phase ≡ waiting
        → a.snapshot.count < max_players
        → Joined m a a'
        → JoinOutcome m a (a', none)

  entered_lem :
      (a : Actor r Frames) (m : Member) (f : Frames) (i : ℕ)
      → IsSound a
      → m.id ≢ 0
      → member_index a.snapshot.members m.id ≡ none
      → calmed a.snapshot.phase ≡ waiting
      → member_index a.snapshot.members 0 ≡ some i
      → Joined m a (
          settled (
            joined_actor m f
              (record a.snapshot {
                members = set a.snapshot.members i m;
                count = a.snapshot.count + 1;
              })
              a))
  unfolding joined_actor
  entered_lem a m f i h named absent phase e =
      let (x, at, same, lt) = member_index-some a.snapshot.members 0 i e in
      let next : Snapshot = record a.snapshot {
        members = set a.snapshot.members i m;
        count = a.snapshot.count + 1;
      } in
      let seat = get_elem?-seats a.snapshot.members i at ∙ ap some same in
      let (sound, calm) =
        settled-IsSound (joined_actor m f next a)
          (IsSeated-fill a.snapshot i m h.seated seat named absent) h.matched in
      let (members, count) = settled_members next in
      record {
        sound = sound;
        phase = calm ∙ phase;
        counted = count;
        present = (
          i,
          ap (λ ms. get_elem? ms i) members
              ∙ get_elem?-unready next.members i (get_elem?-set_here a.snapshot.members i m lt),
        );
        not_ready = rw members (nobody_ready next.members);
        filled = (
          i,
          seat,
          ap seats members ∙ seats-unready next.members ∙ seats-set a.snapshot.members i m,
        );
      }

  -- A member with a fresh nonzero identifier who asks a sound room is refused, with nothing changed,
  -- during a round or its result and when four members are there. Otherwise the member has a seat that
  -- was free and the other seats are as before, the room is sound and waiting, the count grows by one
  -- and nobody is ready.
  pub join-JoinOutcome :
      (a : Actor r Frames) (m : Member) (f : Frames)
      → IsSound a
      → m.id ≢ 0
      → member_index a.snapshot.members m.id ≡ none
      → JoinOutcome m a (membership (join m f) a)
  unfolding membership
  join-JoinOutcome a m f h named absent =
      elim (Bool-cases (not (is_waiting a.snapshot.phase) && not (is_countdown a.snapshot.phase))) [
        | inl e ↦
            rw (with_member_busy a.snapshot m e, membership)
              (busy (ground (arith, e)) (ground (arith, e)))
        | inr p ↦ elim (Bool-cases (leb max_players a.snapshot.count)) [
          | inl c ↦
              rw (with_member_full a.snapshot m p c, membership)
                (full (calmed_opened a.snapshot.phase p) (
                  ground (
                    arith,
                    c,
                    h.seated.counted,
                    h.seated.four,
                    taken-bound (seats a.snapshot.members),
                  )))
          | inr c ↦
              let (i, e) = free_seat a.snapshot h.seated c in
              let granted = with_member_lem a.snapshot m i p c e in
              rw (ap (λ x. x.1) granted, membership) rw (ap (λ x. x.0) granted)
                (entered _ (calmed_opened a.snapshot.phase p) (ground (arith, c))
                  (entered_lem a m f i h named absent (calmed_opened a.snapshot.phase p) e))
        ]
      ]
