-- ===== src/Room/Tests.antt =====
-- A room that two members join, as data, and the theorems of the room on it.
use bomber_cli.Room.Channels.{publish}
use bomber_cli.Room.Channels.Feeds.{
  Beat, published, reads, beats, KeepsUp, new_feed, publish_snapshot, receive_of, beats-Newest,
}
use bomber_cli.Base.{
  codes, ℕ, ◌+◌, ◌%◌, ◌≡◌, ◌==◌, refl, arith, false, none, some, List, [], ◌∷◌, map, All, index_of,
  Returns,
}
use native.Mathlib.Nat.{mod-lt}
use bomber_cli.Game.Types.{Rand, second}
use bomber_cli.Room.Types.{Member, Command, ready}
use bomber_cli.Room.Rules.{member_index, with_member, without_readiness, without_countdown}
use bomber_cli.Room.Actor.{Actor, join, leave, membership, joined_actor, tick, command}
use bomber_cli.Room.Invariant.{IsSound, Edge}
use bomber_cli.Room.Invariant.Departures.{Left, leave-Left}
use bomber_cli.Room.Invariant.Entry.{JoinOutcome, join-JoinOutcome}
use bomber_cli.Room.Invariant.Commands.{CommandOutcome, command-CommandOutcome}
use bomber_cli.Room.Run.{
  Reached, opened, joined, first_actor, on_input, Reached-IsSound, Reached-Returns,
}

-- A generator that counts up.
abbrev ticking : Rand
ticking = record {
  Source = ℕ;
  new_source = λ seed. seed;
  intn = λ n s. (s % n, s + 1);
  intn_lt = λ n s h. mod-lt s h;
}

abbrev alice : Member
alice = record { id = 1; name = codes "Alice"; ready = false; score = 0 }

abbrev bob : Member
bob = record { id = 2; name = codes "Bob"; ready = false; score = 0 }

abbrev empty_room : Actor ticking ℕ
empty_room = first_actor 5 42

abbrev room_of_alice : Actor ticking ℕ
room_of_alice = (membership (join alice 0) empty_room).0

abbrev room_of_two : Actor ticking ℕ
room_of_two = (membership (join bob 1) room_of_alice).0

absent_alice : member_index empty_room.snapshot.members 1 ≡ none
unfolding member_index index_of
absent_alice = refl

absent_bob : member_index room_of_alice.snapshot.members 2 ≡ none
unfolding member_index index_of membership with_member joined_actor without_readiness
    without_countdown
absent_bob = refl

alice-Reached : Reached 5 42 room_of_alice
alice-Reached = joined alice 0 empty_room opened (ground arith) absent_alice

two-Reached : Reached 5 42 room_of_two
two-Reached = joined bob 1 room_of_alice alice-Reached (ground arith) absent_bob

Reached-IsSound_example : IsSound room_of_two
Reached-IsSound_example = Reached-IsSound 5 42 room_of_two two-Reached

abbrev says_ready : Command
says_ready = record { id = 1; action = ready }

Reached-Returns_example :
    Returns (λ a'. Edge room_of_two.snapshot.phase a'.snapshot.phase) (tick second room_of_two)
    × Returns
        (λ (a', done). Edge room_of_two.snapshot.phase a'.snapshot.phase)
        (on_input says_ready second room_of_two)
Reached-Returns_example = Reached-Returns 5 42 room_of_two two-Reached says_ready second

two-IsSound : IsSound room_of_two
two-IsSound = Reached-IsSound 5 42 room_of_two two-Reached

command-CommandOutcome_example :
    Returns (CommandOutcome room_of_two) (command says_ready second room_of_two)
command-CommandOutcome_example = command-CommandOutcome says_ready second room_of_two two-IsSound

join-JoinOutcome_example : JoinOutcome bob room_of_alice (membership (join bob 1) room_of_alice)
join-JoinOutcome_example =
    join-JoinOutcome room_of_alice bob 1 (Reached-IsSound 5 42 room_of_alice alice-Reached)
      (ground arith) absent_bob

leave-Left_example :
    Left 2 room_of_two (membership (leave 2) room_of_two).0
    × ((membership (leave 2) room_of_two).1 ≡ none)
leave-Left_example = leave-Left room_of_two 2 two-IsSound (ground arith)

-- Two publications; the first member reads in the middle of the second, the other never.
abbrev two_publications : List (Beat ℕ)
two_publications =
    published (λ i. (false, false)) 3 ∷ published (λ i. (i == 1, false)) 4 ∷ reads 2 ∷ []

beats_test :
    beats two_publications (map new_feed (1 ∷ 2 ∷ []))
    ≡ (1, record { slot = some 4; received = 3 ∷ [] })
      ∷ (2, record { slot = none; received = 4 ∷ [] })
      ∷ []
unfolding publish_snapshot receive_of publish
beats_test = refl

beats-Newest_example :
    All (KeepsUp (3 ∷ 4 ∷ [])) (beats two_publications (map new_feed (1 ∷ 2 ∷ [])))
beats-Newest_example = beats-Newest (1 ∷ 2 ∷ []) two_publications
