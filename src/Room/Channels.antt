-- ===== src/Room/Channels.antt =====
-- The channels of internal/room/room.go: the one of capacity one on which a member receives
-- snapshots, with the member's reads between the steps of `publish`, and the inbox of a room.
pub mod Feeds
use bomber_cli.Base.{
  ℕ, ◌+◌, ◌≤◌, ◌≡◌, refl, ◌⊎◌, inl, inr, arith, ltb, if◌then◌else◌, Bool, true, false, Option, none,
  some, List, [], ◌∷◌, ◌++◌, length, length-append, Bool-cases, ltb→lt,
}
use bomber_cli.Room.Types.{Command}

-- What lies in the channel, and what the member has received, oldest first.
pub record Feed (A : Type 0) : Type 0 where
  pub slot : Option A
  pub received : List A

module _ {A : Type 0} where
  -- The member reads the channel, if something lies there.
  abbrev pub receive : Feed A → Feed A
  receive f = elim f.slot [
    | none ↦ f
    | some a ↦ record { slot = none; received = f.received ++ a ∷ [] }
  ]

  -- select { case ch <- a: default: }
  abbrev pub offer : A → Feed A → Feed A
  offer a f = elim f.slot [ none ↦ record f { slot = some a } | some b ↦ f ]

  -- select { case <-ch: default: }
  abbrev pub drain : Feed A → Feed A
  drain f = record f { slot = none }

  -- `early` and `late` say whether the member reads after the first attempt to send and after the
  -- drain.
  unfoldable pub publish : Bool → Bool → A → Feed A → Feed A
  publish early late a f = elim f.slot [
    | none ↦ offer a f
    | some b ↦
        let drained = drain (if early then receive f else f) in
        offer a (if late then receive drained else drained)
  ]

  -- Whenever the member reads, the channel holds the published snapshot afterwards; the member has
  -- received nothing more, or the snapshot that lay in the channel, and nothing out of order.
  pub publish_lem :
      (early late : Bool) (a : A) (f : Feed A)
      → ((publish early late a f).slot ≡ some a)
        × (((publish early late a f).received ≡ f.received)
            ⊎ ((b : A) × (f.slot ≡ some b)
                × ((publish early late a f).received ≡ f.received ++ b ∷ [])))
  unfolding publish
  publish_lem early late a f = split early late f.slot f.received
    where
      split :
          (early late : Bool) (o : Option A) (xs : List A)
          → let f : Feed A = record { slot = o; received = xs } in
            ((publish early late a f).slot ≡ some a)
            × (((publish early late a f).received ≡ xs)
                ⊎ ((b : A) × (o ≡ some b) × ((publish early late a f).received ≡ xs ++ b ∷ [])))
      split early late none xs = (refl, inl refl)
      split true true (some b) xs = (refl, inr (b, refl, refl))
      split true false (some b) xs = (refl, inr (b, refl, refl))
      split false true (some b) xs = (refl, inl refl)
      split false false (some b) xs = (refl, inl refl)

-- The buffer of the input channel of a room.
abbrev pub inbox_size : ℕ
inbox_size = 64

-- `closed` says that the channel `done` is closed. A full inbox drops the command.
unfoldable pub submit : Bool → Command → List Command → List Command × Bool
submit closed c inbox =
    if closed
    then (inbox, false)
    else if ltb (length inbox) inbox_size
    then (inbox ++ c ∷ [], true)
    else (inbox, false)

-- An inbox that is within its size stays within it. A command is accepted, behind the others, exactly
-- if the room is open and there is space; otherwise nothing changes.
pub submit_lem :
    (closed : Bool) (c : Command) (inbox : List Command)
    → length inbox ≤ inbox_size
    → (length (submit closed c inbox).0 ≤ inbox_size)
      × (((submit closed c inbox ≡ (inbox ++ c ∷ [], true))
            × (closed ≡ false)
            × (length inbox + 1 ≤ inbox_size))
          ⊎ ((submit closed c inbox ≡ (inbox, false))
              × ((closed ≡ true) ⊎ (length inbox ≡ inbox_size))))
unfolding submit
submit_lem true c inbox h = (h, inr (refl, inl refl))
submit_lem false c inbox h = elim (Bool-cases (ltb (length inbox) inbox_size)) [
  | inl e ↦ rw e (
    omega (arith, length-append inbox (c ∷ []), ltb→lt (length inbox) inbox_size e),
    inl (refl, refl, ground arith),
  )
  | inr e ↦ rw e (h, inr (refl, inr (ground arith)))
]
