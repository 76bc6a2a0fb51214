-- ===== src/Load/Tests.antt =====
-- A text that two packets bring, and the latencies of a few moves.
use bomber_cli.Base.{
  replicate, false, ℕ, ◌≡◌, refl, arith, true, false, some, List, [], ◌∷◌, Text, codes, ok, Returns,
}
use bomber_cli.Load.Observer.{Observer, write, arm, writes, contains, stream, writes-contains}
use bomber_cli.Load.Phases.{
  settled, begin, ramp, connected, capacity, movement_start, movement_failed, Phases, run_load,
}
use bomber_cli.Load.Distribution.{Distribution, distribution, Describes, distribution-Describes}

abbrev fresh_observer : Observer
fresh_observer = record { tail = []; needle = []; ready = false; bytes = 0 }

abbrev packets : List Text
packets = codes "ROOM 7  WAI" ∷ codes "TING  2/4" ∷ []

writes_test :
    writes packets (arm (codes "WAITING") fresh_observer)
    ≡ record { tail = codes "ROOM 7  WAITING  2/4"; needle = []; ready = true; bytes = 20 }
unfolding write
writes_test = refl

writes-contains_example :
    (writes packets (arm (codes "WAITING") fresh_observer)).ready
    ≡ contains (stream packets) (codes "WAITING")
writes-contains_example =
    writes-contains (codes "WAITING") (omega arith) (omega arith) packets fresh_observer

abbrev latencies : List ℕ
latencies = 30 ∷ 10 ∷ 20 ∷ []

distribution_test :
    distribution latencies
    ≡ ok (some (record { count = 3; total = 60; p50 = 20; p95 = 20; p99 = 20; max = 30 }))
unfolding distribution
distribution_test = refl

distribution-Describes_example :
    Returns
      (λ o. (d : Distribution) × (o ≡ some d) × Describes latencies d)
      (distribution latencies)
distribution-Describes_example = distribution-Describes latencies (omega arith)

-- All 128 sessions come, and the movement fails.
abbrev clumsy_phases : Phases
clumsy_phases = record {
  first = replicate 128 settled;
  extra = false;
  games = false;
  movement = true;
  rematches = false;
  second = replicate 128 settled;
  second_games = false;
  recovered = false;
}

run_load_test : run_load clumsy_phases ≡ (
  begin
      ∷ ramp (16, 4)
      ∷ ramp (64, 16)
      ∷ ramp (128, 32)
      ∷ connected
      ∷ capacity
      ∷ movement_start
      ∷ [],
  some movement_failed,
)
unfolding run_load
run_load_test = refl
