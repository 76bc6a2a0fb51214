-- ===== src/Game/Engine/Detonation.antt =====
-- The loop of `detonateTriggeredBombs`, and the bombs that it leaves.
use bomber_cli.Base.{
  ℕ, zero, suc, ◌+◌, ◌-◌, ◌*◌, ◌≤◌, ◌<◌, ◌≡◌, sym, some_inj, ◌∙◌, ◌⊎◌, inl, inr, arith, true, false,
  ltb, List, length, get_elem?, some, All, All-get, All-of-get, Bool-cases, get_elem?-lt,
  get_elem?-take, get_elem?-some-lt, length-take, length-Sublist, length-erase_at, ok, Returns,
  Returns-ok, Returns-bind, Returns-map, ◌>>=◌,
}
use bomber_cli.Game.Board.{inside_board, Grid}
use bomber_cli.Game.Board.Laws.{read_inside}
use bomber_cli.Game.Types.{Bomb, View, Rand, Game}
use bomber_cli.Game.Bombs.{active, IsArmed}
use bomber_cli.Game.Engine.{triggered, detonate, explode, detonate_triggered_bombs, detonation_fuel}
use bomber_cli.Game.Engine.Blasted.{Blasted, Blasted-refl, Blasted-trans, IsArmed-Blasted}
use bomber_cli.Game.Engine.Explosion.{Exploded}
use bomber_cli.Game.Engine.Chain.{explode-Exploded}

-- The bomb is not due, and its cell does not burn.
abbrev pub IsCalm : ℕ → Grid ℕ → Bomb → Type 0
IsCalm t flames b = (t < b.due) × (flames b.pos ≤ t)

triggered_cases :
    (t : ℕ) (flames : Grid ℕ) (b : Bomb)
    → inside_board b.pos ≡ true
    → (triggered t flames b ≡ ok true) ⊎ (triggered t flames b ≡ ok false) × IsCalm t flames b
unfolding triggered
triggered_cases t flames b h = ground (arith, read_inside flames b.pos h)

length-active : (v : View) → IsArmed v → length (active v) ≡ v.bomb_count
length-active v h = length-take v.bomb_count v.bombs h.counted

Exploded-count :
    {t i : ℕ} {v w : View}
    → IsArmed v
    → i < v.bomb_count
    → Exploded t i v w
    → w.bomb_count < v.bomb_count
Exploded-count {t} {i} {v} {w} h used x = omega (
  arith,
  length-active v h,
  length-active w (IsArmed-Blasted h x.blasted),
  length-Sublist x.taken,
  length-erase_at i (active v) (omega (arith, length-active v h)),
)

abbrev pub Settles : {r : Rand} → ℕ → Game r → Game r → Type 0
Settles t g g' = Blasted t g.view g'.view × All (IsCalm t g'.view.flames) (active g'.view)

module _ {r : Rand} (t i : ℕ) (g : Game r) (b : Bomb) (more : ltb i g.view.bomb_count ≡ true)
    (at : get_elem? g.view.bombs i ≡ some b) where
  detonate_fire :
      (fuel : ℕ)
      → triggered t g.view.flames b ≡ ok true
      → detonate (suc fuel) i t g ≡ (explode g.view.bomb_count t i g >>= λ g'. detonate fuel 0 t g')
  unfolding detonate
  detonate_fire fuel e = rw (more, detonate, at) (rw (e, ◌>>=◌))

  detonate_calm :
      (fuel : ℕ)
      → triggered t g.view.flames b ≡ ok false
      → detonate (suc fuel) i t g ≡ detonate fuel (i + 1) t g
  unfolding detonate
  detonate_calm fuel e = rw (more, detonate, at) (rw (e, ◌>>=◌))

-- One more bomb is known to be calm.
seen_next :
    (P : Bomb → Type 0) (xs : List Bomb) {i : ℕ} {b : Bomb}
    → ((j : ℕ) (c : Bomb) → j < i → get_elem? xs j ≡ some c → P c)
    → get_elem? xs i ≡ some b
    → P b
    → (j : ℕ) (c : Bomb) → j < i + 1
    → get_elem? xs j ≡ some c
    → P c
seen_next P xs {i} {b} seen at h j c lt e = elim (split lt) [
  | inl below ↦ seen j c below e
  | inr same ↦ let eq : c ≡ b = some_inj (sym (rw same at e) ∙ at) in rw eq h
]
  where
    split : j < i + 1 → (j < i) ⊎ (j ≡ i)
    split h = ground arith

-- Each explosion lowers 21 * bombs + (bombs still to look at), and so does each bomb passed over.
pub detonate-Settles :
    {r : Rand} (t fuel i : ℕ) (g : Game r)
    → IsArmed g.view
    → g.view.bomb_count ≤ 20
    → g.view.bomb_count * 21 + (g.view.bomb_count - i) < fuel
    → ((j : ℕ) (b : Bomb) → j < i → get_elem? (active g.view) j ≡ some b → IsCalm t g.view.flames b)
    → Returns (Settles t g) (detonate fuel i t g)
unfolding detonate
detonate-Settles t zero i g h few enough seen = absurd (omega arith)
detonate-Settles t (suc fuel) i g h few enough seen = elim (Bool-cases (ltb i g.view.bomb_count)) [
  | inr done ↦
      rw (done, detonate)
        (Returns-ok g (
          Blasted-refl g.view,
          All-of-get _ (active g.view) λ j b e.
              seen j b
                (ground (arith, get_elem?-some-lt (active g.view) j e, length-active g.view h)) e,
        ))
  | inl more ↦
      let v = g.view in
      let used : i < v.bomb_count = ground arith in
      let (b, at) = get_elem?-lt v.bombs i (omega (arith, h.counted)) in
      let at' = get_elem?-take v.bomb_count i v.bombs used ∙ at in
      elim (triggered_cases t v.flames b
        (All-get (λ c. inside_board c.pos ≡ true) (active v) i h.inside at')) [
          | inl e ↦ rw (detonate_fire t i g b more at fuel e) (
              Returns-bind (λ g'. Exploded t i v g'.view) (Settles t g) _
                (explode-Exploded t v.bomb_count i g h used (omega arith))
                λ g' x.
                  let fewer = Exploded-count h used x in
                  Returns-map (Settles t g') (Settles t g)
                    (λ g'' (y, calm). (Blasted-trans x.blasted y, calm))
                    (detonate-Settles t fuel 0 g' (IsArmed-Blasted h x.blasted) (omega arith)
                      (omega arith) (λ j c lt. absurd (omega arith))))
          | inr (e, calm) ↦ rw (detonate_calm t i g b more at fuel e) (
              detonate-Settles t fuel (i + 1) g h few (omega arith)
                (λ j c lt e'. seen_next (IsCalm t v.flames) (active v) seen at' calm j c lt e'))
        ]
]

-- On at most 20 bombs that lie on different floor cells of the board, the scan for triggered bombs
-- returns: its fuel is enough. No bomb that it leaves is due or lies in fire, and what it changes is
-- what chain reactions change.
pub detonate_triggered_bombs-Settles :
    {r : Rand} (t : ℕ) (g : Game r)
    → IsArmed g.view
    → g.view.bomb_count ≤ 20
    → Returns
        (λ g'. Blasted t g.view g'.view × All (IsCalm t g'.view.flames) (active g'.view))
        (detonate_triggered_bombs t g)
unfolding detonate_triggered_bombs
detonate_triggered_bombs-Settles t g h few =
    detonate-Settles t detonation_fuel 0 g h few (omega arith) (λ j b lt. absurd (omega arith))
