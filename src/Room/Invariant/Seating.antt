-- ===== src/Room/Invariant/Seating.antt =====
-- One seat is taken or given up, and the countdown and the readiness are cleared.
use bomber_cli.Base.{
  ℕ, ◌+◌, ◌-◌, ◌<◌, ◌≡◌, ◌≢◌, refl, sym, subst, ◌∙◌, inl, inr, arith, false, ◌==◌, Option, none,
  some, List, length, set, get_elem?, All, Bool-cases, length-set, index_of-some, index_of-none,
}
use bomber_cli.Game.Types.{Rand, Game}
use bomber_cli.Game.Engine
use bomber_cli.Game.Engine.{remove}
use bomber_cli.Game.Round.{remove-IsValid}
use bomber_cli.Room.Types.{
  Phase, waiting, countdown, playing, result, Member, Snapshot, empty_member,
}
use bomber_cli.Room.Rules.{is_countdown, member_index, without_readiness, without_countdown}
use bomber_cli.Room.Seats.{
  seats, Differ, IsSeated, seats-set, seats-unready, get_elem?-seats, AllPairs-set, taken-set_in,
  taken-set_out, All-Differ, All-Differ_zero,
}
use bomber_cli.Room.Actor.{Actor, settled}
use bomber_cli.Room.Invariant.{Matched, IsSound}
use bomber_cli.Room.Invariant.Ticks.{IsSeated-seats}

-- The phase behind `withoutCountdown`.
abbrev pub calmed : Phase → Phase
calmed countdown = waiting
calmed p = p

pub calmed_lem : (s : Snapshot) → (without_countdown s).phase ≡ calmed s.phase
unfolding without_countdown
calmed_lem s = at s.phase refl
  where
    at : (p : Phase) → s.phase ≡ p → (without_countdown s).phase ≡ calmed s.phase
    at waiting e = simp e
    at countdown e = simp e
    at playing e = simp e
    at result e = simp e

pub without_countdown-seats :
    (s : Snapshot)
    → (seats (without_countdown s).members ≡ seats s.members)
      × ((without_countdown s).count ≡ s.count)
unfolding without_countdown
without_countdown-seats s = elim (Bool-cases (is_countdown s.phase)) [
  | inl e ↦ simp e (refl, refl)
  | inr e ↦ simp e (refl, refl)
]

pub Matched-calmed :
    {r : Rand} (p : Phase) (m : Option (Game r)) → Matched p m → Matched (calmed p) m
Matched-calmed waiting m h = h
Matched-calmed countdown none h = tt
Matched-calmed countdown (some g) h = absurd h
Matched-calmed playing m h = h
Matched-calmed result m h = h

pub not_countdown : (p : Phase) → calmed p ≢ countdown
not_countdown waiting e = cc
not_countdown countdown e = cc
not_countdown playing e = cc
not_countdown result e = cc

pub member_index-some :
    (ms : List Member) (id i : ℕ)
    → member_index ms id ≡ some i
    → (m : Member) × (get_elem? ms i ≡ some m) × (m.id ≡ id) × (i < length ms)
unfolding member_index
member_index-some ms id i e =
    let (m, at, hit, lt) = index_of-some _ ms i e in (m, at, ground arith, lt)

pub member_index-none :
    (ms : List Member) (id : ℕ) → member_index ms id ≡ none → All (λ m. (m.id == id) ≡ false) ms
unfolding member_index
member_index-none ms id e = index_of-none _ ms e

pub IsSeated-free :
    (s : Snapshot) (i : ℕ) (m : Member)
    → IsSeated s
    → get_elem? s.members i ≡ some m
    → m.id ≢ 0
    → IsSeated (record s { members = set s.members i empty_member; count = s.count - 1 })
IsSeated-free s i m h at named =
    let e = seats-set s.members i empty_member in
    record {
      four = rw e (length-set (seats s.members) i 0 ∙ h.four);
      counted = rw e (
          omega (
            arith,
            h.counted,
            taken-set_out (seats s.members) i m.id (get_elem?-seats s.members i at) named,
          ));
      apart =
          rw e
            (AllPairs-set Differ (seats s.members) i 0 h.apart (All-Differ_zero (seats s.members)));
    }

pub IsSeated-fill :
    (s : Snapshot) (i : ℕ) (m : Member)
    → IsSeated s
    → get_elem? (seats s.members) i ≡ some 0
    → m.id ≢ 0
    → member_index s.members m.id ≡ none
    → IsSeated (record s { members = set s.members i m; count = s.count + 1 })
IsSeated-fill s i m h at named absent =
    let e = seats-set s.members i m in
    record {
      four = rw e (length-set (seats s.members) i m.id ∙ h.four);
      counted = rw e (omega (arith, h.counted, taken-set_in (seats s.members) i m.id at named));
      apart = rw e (
          AllPairs-set Differ (seats s.members) i m.id h.apart
            (All-Differ m.id s.members named (member_index-none s.members m.id absent)));
    }

module _ {r : Rand} where
  pub Matched-remove :
      (p : Phase) (m : Option (Game r)) (id : ℕ)
      → Matched p m
      → Matched p (elim m [ none ↦ none | some g ↦ some (Engine.remove id g) ])
  unfolding remove
  Matched-remove waiting none id h = tt
  Matched-remove countdown none id h = tt
  Matched-remove playing (some g) id h = (remove-IsValid g id h.0, h.1)
  Matched-remove result (some g) id h = (remove-IsValid g id h.0, h.1)
  Matched-remove waiting (some g) id h = absurd h
  Matched-remove countdown (some g) id h = absurd h
  Matched-remove playing none id h = absurd h
  Matched-remove result none id h = absurd h

module _ {r : Rand} {Frames : Type 0} where
  -- Cancelling a countdown and clearing the readiness keeps a room sound.
  pub settled-IsSound :
      (a : Actor r Frames)
      → IsSeated a.snapshot
      → Matched a.snapshot.phase a.match
      → IsSound (settled a) × ((settled a).snapshot.phase ≡ calmed a.snapshot.phase)
  unfolding without_readiness
  settled-IsSound a seated h = (
    record {
      seated =
          IsSeated-seats
            (seats-unready (without_countdown a.snapshot).members
              ∙ (without_countdown-seats a.snapshot).0)
            (without_countdown-seats a.snapshot).1 seated;
      matched =
          subst (λ p. Matched p a.match) (sym (calmed_lem a.snapshot))
            (Matched-calmed a.snapshot.phase a.match h);
      agreed = λ c. absurd (not_countdown a.snapshot.phase (sym (calmed_lem a.snapshot) ∙ c));
    },
    calmed_lem a.snapshot,
  )
