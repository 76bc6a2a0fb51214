-- ===== src/Room/Invariant.antt =====
-- What holds of the state of a room between any two events.
pub mod Ticks
pub mod Seating
pub mod Departures
pub mod Entry
pub mod Requests
pub mod Commands
use bomber_cli.Base.{ℕ, ◌≡◌, refl, Bool, true, false, Option, none, some}
use bomber_cli.Game.Types.{Rand, Game}
use bomber_cli.Game.Invariant.{IsValid}
use bomber_cli.Room.Types.{Phase, waiting, countdown, playing, result, Snapshot}
use bomber_cli.Room.Rules.{all_ready}
use bomber_cli.Room.Seats.{IsSeated}
use bomber_cli.Room.Actor.{Actor}

-- A match exists exactly while a round is played or its result shown, and is valid; it is over
-- exactly in the second case.
abbrev pub Matched : {r : Rand} → Phase → Option (Game r) → Type 0
Matched waiting none = Unit {0}
Matched countdown none = Unit {0}
Matched playing (some g) = IsValid g.view × (g.view.over ≡ false)
Matched result (some g) = IsValid g.view × (g.view.over ≡ true)
Matched _ _ = ⊥

pub record IsSound {r : Rand} {Frames : Type 0} (a : Actor r Frames) : Type 0 where
  pub seated : IsSeated a.snapshot
  pub matched : Matched a.snapshot.phase a.match
  -- A countdown runs only while everybody is ready.
  pub agreed : a.snapshot.phase ≡ countdown → all_ready a.snapshot ≡ true

-- How a room moves between its phases.
pub data Edge : Phase → Phase → Type 0 where
  stay : {p : Phase} → Edge p p
  agree : Edge waiting countdown
  cancel : Edge countdown waiting
  begin : Edge countdown playing
  finish : Edge playing result
  reset : Edge result waiting
