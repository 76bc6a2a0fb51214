-- ===== src/Game/Invariant/Deadline.antt =====
-- The end of a round: `Tick` behind the round duration.
use bomber_cli.Base.{
  ℕ, ◌+◌, ◌≤◌, ◌≡◌, refl, ap, ◌∙◌, inl, inr, ◌⊎◌, arith, leb, ◌||◌, pos, leb_ℤ, Bool, true, false,
  List, [], ◌∷◌, ◌∈◌, Bool-cases, Returns, Returns-map,
}
use bomber_cli.Game.Types.{round_duration, sub_time, Rand, Game, Player}
use bomber_cli.Game.Rules.Survival.{alive_count, outcome_draw, outcome_survivor}
use bomber_cli.Game.Engine.{tick}
use bomber_cli.Game.Invariant.{IsValid}
use bomber_cli.Game.Invariant.Ticks.{Ticked, tick-Ticked}

-- With one living player, that player is in the list.
only_alive : (ps : List Player) → alive_count ps ≡ 1 → (p : Player) × (p ∈ ps) × (p.alive ≡ true)
only_alive [] h = absurd (omega arith)
only_alive (p ∷ ps) h = elim (Bool-cases p.alive) [
  | inl e ↦ (p, inl refl, e)
  | inr e ↦ let (q, m, a) = only_alive ps (ground arith) in (q, inr m, a)
]

late_lem :
    (t started : ℕ)
    → started + round_duration ≤ t
    → leb_ℤ (pos round_duration) (sub_time t started) ≡ true
unfolding sub_time
late_lem t started h = elim (Bool-cases (leb started t)) [
  | inl e ↦ rw (e, sub_time) (ground (arith, h))
  | inr e ↦ absurd (ground (arith, e, h))
]

or_late : (a b : Bool) → b ≡ true → (a || b) ≡ true
or_late true b e = refl
or_late false b e = e

one_or_not : (n : ℕ) → (n ≡ 1) ⊎ ¬ (n ≡ 1)
one_or_not n = ground arith

-- A tick of a running round on a valid view, at least the round duration after its start, returns and
-- ends the round.
pub tick-over :
    {r : Rand} (t : ℕ) (g : Game r)
    → IsValid g.view
    → g.view.over ≡ false
    → g.view.started + round_duration ≤ t
    → Returns (λ g'. g'.view.over ≡ true) (tick t g)
tick-over {r} t g h running late =
    Returns-map (λ g'. Ticked t g.view g'.view) _ (λ g' x. ends g' x) (tick-Ticked t g h running)
  where
    ends : (g' : Game r) → Ticked t g.view g'.view → g'.view.over ≡ true
    ends g' x = elim (one_or_not (alive_count g'.view.players)) [
      | inl one ↦
          let (p, m, a) = only_alive g'.view.players one in
          ap (λ v. v.0) (x.verdict ∙ outcome_survivor g'.view.players _ p one m a)
      | inr n ↦
          ap (λ v. v.0) (x.verdict ∙ outcome_draw g'.view.players _ n)
          ∙ or_late _ _ (late_lem t g.view.started late)
    ]
