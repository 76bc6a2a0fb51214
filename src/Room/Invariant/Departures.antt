-- ===== src/Room/Invariant/Departures.antt =====
-- Leaving: what `membership` does to a sound room for a member who goes.
use bomber_cli.Base.{
  sym, ℕ, ◌-◌, ◌≡◌, ◌≢◌, refl, ap, subst, ◌∙◌, inl, inr, arith, false, ◌==◌, Option, none, some,
  List, [], ◌∷◌, map, set, get_elem?, All, AllPairs, Bool-cases, Option-cases, All-get, suc, zero,
  All-map,
}
use bomber_cli.Game.Types.{Rand}
use bomber_cli.Room.Types.{Member, Snapshot, empty_member}
use bomber_cli.Room.Rules.{
  unready, is_countdown, member_index, without_member, without_readiness, without_countdown,
}
use bomber_cli.Room.Seats.{
  Frees, seats-set, seats-unready, seats, Differ, IsSeated, get_elem?-seats,
}
use bomber_cli.Room.Actor.{Actor, leave, left_actor, membership}
use bomber_cli.Room.Invariant.{Matched, IsSound}
use bomber_cli.Room.Invariant.Seating.{
  calmed, member_index-some, member_index-none, IsSeated-free, Matched-remove, settled-IsSound,
}

without_member_lem :
    (s : Snapshot) (id i : ℕ)
    → member_index s.members id ≡ some i
    → without_member s id ≡ record s { members = set s.members i empty_member; count = s.count - 1 }
unfolding without_member
without_member_lem s id i e = rw (e, without_member) refl

All-seats : (P : ℕ → Type 0) (ms : List Member) → All P (seats ms) → All (λ m. P m.id) ms
All-seats P [] h = tt
All-seats P (m ∷ ms) h = (h.0, All-seats P ms h.1)

Differ-apart : (x id : ℕ) → id ≢ 0 → Differ x id → (x == id) ≡ false
Differ-apart x id named (inl e) = ground arith
Differ-apart x id named (inr n) = ground arith

-- A member who stands in one seat stands in no other.
gone_lem :
    (ms : List Member) (i : ℕ) (m : Member)
    → AllPairs Differ (seats ms)
    → get_elem? ms i ≡ some m
    → m.id ≢ 0
    → All (λ x. (x.id == m.id) ≡ false) (set ms i empty_member)
gone_lem [] i m h e named = tt
gone_lem (x ∷ ms) zero m h e named = (
  ground arith,
  All-map (λ y. Differ m.id y.id) (λ y. (y.id == m.id) ≡ false) ms
      (λ y d. flipped m.id y.id named d)
      (All-seats (Differ m.id) ms
        (subst (λ k. All (Differ k) (seats ms)) (ap (λ o. (id_of o)) e) h.0)),
)
  where
    id_of : Option Member → ℕ
    id_of none = 0
    id_of (some y) = y.id

    flipped : (a b : ℕ) → a ≢ 0 → Differ a b → (b == a) ≡ false
    flipped a b n (inl e) = absurd (n e)
    flipped a b n (inr e) = ground arith
gone_lem (x ∷ ms) (suc i) m h e named = (
  Differ-apart x.id m.id named (All-get (Differ x.id) (seats ms) i h.0 (get_elem?-seats ms i e)),
  gone_lem ms i m h.1 e named,
)

pub settled_members :
    (s : Snapshot)
    → ((without_readiness (without_countdown s)).members ≡ map unready s.members)
      × ((without_readiness (without_countdown s)).count ≡ s.count)
unfolding without_readiness without_countdown
settled_members s = elim (Bool-cases (is_countdown s.phase)) [
  | inl e ↦ simp e (refl, refl)
  | inr e ↦ simp e (refl, refl)
]

pub nobody_ready : (ms : List Member) → All (λ m. m.ready ≡ false) (map unready ms)
nobody_ready [] = tt
nobody_ready (m ∷ ms) = (refl, nobody_ready ms)

All-unready :
    (id : ℕ) (ms : List Member)
    → All (λ m. (m.id == id) ≡ false) ms
    → All (λ m. (m.id == id) ≡ false) (map unready ms)
All-unready id [] h = tt
All-unready id (m ∷ ms) h = (h.0, All-unready id ms h.1)

module _ {r : Rand} {Frames : Type 0} where
  left_actor_sound :
      (a : Actor r Frames) (id : ℕ)
      → IsSound a
      → id ≢ 0
      → IsSeated (left_actor id a).snapshot
        × Matched (left_actor id a).snapshot.phase (left_actor id a).match
        × ((left_actor id a).snapshot.phase ≡ a.snapshot.phase)
        × All (λ m. (m.id == id) ≡ false) (left_actor id a).snapshot.members
        × Frees id (seats a.snapshot.members) (seats (left_actor id a).snapshot.members)
  unfolding left_actor
  left_actor_sound a id h named = elim (Option-cases (member_index a.snapshot.members id)) [
    | inl e ↦ rw e (h.seated, h.matched, refl, member_index-none a.snapshot.members id e, inl refl)
    | inr (i, e) ↦
        let (m, at, same, lt) = member_index-some a.snapshot.members id i e in
        rw (e, without_member_lem a.snapshot id i e)
          (
            IsSeated-free a.snapshot i m h.seated at (rw same named),
            Matched-remove a.snapshot.phase a.match id h.matched,
            refl,
            subst (λ k. All (λ x. (x.id == k) ≡ false) (set a.snapshot.members i empty_member)) same
                (gone_lem a.snapshot.members i m h.seated.apart at (rw same named)),
            inr (
              i,
              get_elem?-seats a.snapshot.members i at ∙ ap some same,
              seats-set a.snapshot.members i empty_member,
            ),
          )
  ]

  -- What a request to leave does.
  pub record Left (id : ℕ) (a a' : Actor r Frames) : Type 0 where
    pub sound : IsSound a'
    pub phase : a'.snapshot.phase ≡ calmed a.snapshot.phase
    pub gone : All (λ m. (m.id == id) ≡ false) a'.snapshot.members
    pub not_ready : All (λ m. m.ready ≡ false) a'.snapshot.members
    pub freed : Frees id (seats a.snapshot.members) (seats a'.snapshot.members)

  -- When a sound room is asked to let a nonzero identifier go, the room is sound, a countdown is called
  -- off and no other phase changes, no seat has the identifier, the other seats are as before, nobody is
  -- ready, and there is no error.
  pub leave-Left :
      (a : Actor r Frames) (id : ℕ)
      → IsSound a
      → id ≢ 0
      → Left id a (membership (leave id) a).0 × ((membership (leave id) a).1 ≡ none)
  unfolding membership
  leave-Left a id h named =
      let (seated, matched, same, gone, freed) = left_actor_sound a id h named in
      let e = (settled_members (left_actor id a).snapshot).0 in
      let (sound, phase) = settled-IsSound (left_actor id a) seated matched in
      (
        record {
          sound = sound;
          phase = phase ∙ ap calmed same;
          gone = rw e (All-unready id (left_actor id a).snapshot.members gone);
          not_ready = rw e (nobody_ready (left_actor id a).snapshot.members);
          freed =
              subst (Frees id (seats a.snapshot.members))
                (sym (ap seats e ∙ seats-unready (left_actor id a).snapshot.members)) freed;
        },
        refl,
      )
