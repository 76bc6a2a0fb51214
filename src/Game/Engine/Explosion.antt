-- ===== src/Game/Engine/Explosion.antt =====
-- One explosion: `ignite` and `propagateBlast`, given what the recursive call of `explode` does.
use bomber_cli.Base.{
  ℕ, zero, suc, ◌+◌, ◌≤◌, ◌<◌, ◌≡◌, refl, ◌≢◌, ◌⊎◌, inl, inr, arith, true, false, ltb, some, List,
  [], ◌∷◌, get_elem?, erase_at, ◌∈◌, All, Sublistᴰ, All-Sublist, All-erase_at, length-take, All-map,
  Bool-cases, Option-cases, Result, ok, Returns, Returns-ok, Returns-bind, Returns-map, ◌>>=◌,
}
use bomber_cli.Game.Board.{Pos, pos_eq, inside_board, update, offset}
use bomber_cli.Game.Board.Laws.{
  pos_eq_iff, pos_eq_sym, update_self, update_ne, read_inside, write_inside,
}
use bomber_cli.Game.Types.{flame_duration, floor, wall, block, no_power, Bomb, View, Rand, Game}
use bomber_cli.Game.Rules.{bomb_index}
use bomber_cli.Game.Rules.Indices.{bombs_in_use_lem, bomb_index-none, bomb_index-some}
use bomber_cli.Game.Bombs.{active, Apart, IsArmed}
use bomber_cli.Game.Engine.{
  is_wall, is_block, power_of, directions, destroy_block, ignite, propagate, propagate_blast,
  propagate_all,
}
use bomber_cli.Game.Engine.Blasted.{
  Blasted, Blasted-refl, Blasted-cells, Blasted-trans, IsArmed-Blasted, lit_at, Blasted-lit_at,
}
use bomber_cli.Game.Engine.Reach.{
  Burns, Reaches-start, Reaches-Blasted, burning-Blasted, Burns-block, Burns-floor,
}

module _ {r : Rand} (t : ℕ) where
  destroy_block-Blasted :
      (p : Pos) (g : Game r)
      → inside_board p ≡ true
      → g.view.tiles p ≢ wall
      → Returns (λ g'. Blasted t g.view g'.view) (destroy_block p g)
  unfolding destroy_block
  destroy_block-Blasted p g inside free =
      let (roll, rng) = r.intn 100 g.rng in
      let drop = power_of (1 + (r.intn 3 rng).0) in
      let tiles = update g.view.tiles p floor in
      elim (Bool-cases (ltb roll 30)) [
        | inl e ↦
            rw
              (
                write_inside g.view.tiles p floor inside,
                e,
                write_inside g.view.powers p drop inside,
              )
              (Returns-ok _ (
                Blasted-cells g.view tiles (update g.view.powers p drop) opened
                  (λ q. ground (arith, pos_eq_iff q p))))
        | inr e ↦
            rw (write_inside g.view.tiles p floor inside, e)
              (Returns-ok _ (Blasted-cells g.view tiles g.view.powers opened (λ q. inl refl)))
      ]
    where
      opened :
          (q : Pos)
          → (update g.view.tiles p floor q ≡ g.view.tiles q)
            ⊎ (g.view.tiles q ≡ block) × (update g.view.tiles p floor q ≡ floor)
      opened q = ground (arith, pos_eq_iff q p, free, update_ne g.view.tiles p floor q)

-- The bomb's cell burns, and so does every cell that its blast reaches, up to its range.
pub record Fire (t : ℕ) (v w : View) (b : Bomb) : Type 0 where
  pub centre : w.flames b.pos ≡ t + flame_duration
  pub rays : (d : Pos) → d ∈ directions → Burns t v w b.pos d 1 b.range

-- A chain reaction that takes the bomb `i` away, and sets fire to all that its blast reaches.
pub record Exploded (t i : ℕ) (v w : View) : Type 0 where
  pub blasted : Blasted t v w
  pub taken : Sublistᴰ (active w) (erase_at i (active v))
  pub fire : (b : Bomb) → get_elem? (active v) i ≡ some b → Fire t v w b

-- Every view that the call can be given returns one that an explosion of the bomb can leave.
abbrev pub Explodes : {r : Rand} → ℕ → ℕ → (ℕ → Game r → Result (Game r)) → Type 0
Explodes t fuel ex =
    (i : ℕ) (g : Game _)
    → IsArmed g.view
    → i < g.view.bomb_count
    → g.view.bomb_count ≤ fuel
    → Returns (λ g'. Exploded t i g.view g'.view) (ex i g)

others-Apart :
    (v : View) (i : ℕ) (b : Bomb)
    → IsArmed v
    → get_elem? (active v) i ≡ some b
    → All (Apart b) (erase_at i (active v))
others-Apart v i b h at = All-erase_at Apart (active v) i (λ x y. pos_eq_sym y.pos x.pos) h.apart at

module _ {r : Rand} (t fuel : ℕ) (ex : ℕ → Game r → Result (Game r))
    (rule : Explodes t fuel ex) where
  pub ignite-Blasted :
      (p : Pos) (g : Game r)
      → inside_board p ≡ true
      → g.view.tiles p ≢ wall
      → IsArmed g.view
      → g.view.bomb_count ≤ fuel
      → Returns
          (λ g'. Blasted t g.view g'.view × (g'.view.flames p ≡ t + flame_duration))
          (ignite ex p t g)
  unfolding ignite
  ignite-Blasted p g inside free h enough =
      let v = g.view in
      let lit : Game r = record g { view = lit_at t p v } in
      let armed : IsArmed lit.view = record {
        counted = h.counted;
        inside = h.inside;
        floored = h.floored;
        apart = h.apart;
      } in
      rw
        (
          write_inside v.flames p (t + flame_duration) inside,
          write_inside v.powers p no_power inside,
          bombs_in_use_lem lit.view h.counted,
        )
        (elim (Option-cases (bomb_index (active v) p)) [
          | inl e ↦
              rw (e, ◌>>=◌)
                (Returns-ok lit (
                  Blasted-lit_at p inside free (Blasted-refl lit.view)
                      (bomb_index-none (active v) p e),
                  update_self v.flames p (t + flame_duration),
                ))
          | inr (i, e) ↦
              let (b, at, hit, lt) = bomb_index-some (active v) p i e in
              let count = length-take v.bomb_count v.bombs h.counted in
              rw (e, ◌>>=◌)
                (Returns-map (λ g'. Exploded t i lit.view g'.view) _
                  (λ g' x. (
                    Blasted-lit_at p inside free x.blasted (
                        All-map (Apart b) (λ c. pos_eq c.pos p ≡ false) (active g'.view)
                          (λ c apart. rw hit at apart)
                          (All-Sublist (Apart b) x.taken (others-Apart v i b h at))),
                    ground (arith, x.blasted.flames p, update_self v.flames p (t + flame_duration)),
                  ))
                  (rule i lit armed (omega arith) enough))
        ])

  module _ (n s : ℕ) (from d : Pos) (g : Game r) (on : inside_board (offset from d s) ≡ true) where
    propagate_wall :
        is_wall (g.view.tiles (offset from d s)) ≡ true → propagate ex (suc n) s from d t g ≡ ok g
    unfolding propagate
    propagate_wall e =
        rw (on, propagate, read_inside g.view.tiles (offset from d s) on) (rw (e, ◌>>=◌))

    propagate_open :
        is_wall (g.view.tiles (offset from d s)) ≡ false
        → propagate ex (suc n) s from d t g ≡ (
            ignite ex (offset from d s) t g >>= λ lit.
            elim (is_block (g.view.tiles (offset from d s))) [
              | true ↦ destroy_block (offset from d s) lit
              | false ↦ propagate ex n (s + 1) from d t lit
            ])
    unfolding propagate
    propagate_open e =
        rw (on, propagate, read_inside g.view.tiles (offset from d s) on) (rw (e, ◌>>=◌))

  propagate-Blasted :
      (n s : ℕ) (from d : Pos) (g : Game r)
      → IsArmed g.view
      → g.view.bomb_count ≤ fuel
      → Returns
          (λ g'. Blasted t g.view g'.view × Burns t g.view g'.view from d s n)
          (propagate ex n s from d t g)
  unfolding propagate
  propagate-Blasted zero s from d g h enough =
      Returns-ok g (Blasted-refl g.view, λ k lo hi x. absurd (omega arith))
  propagate-Blasted (suc n) s from d g h enough =
      let p = offset from d s in
      elim (Bool-cases (inside_board p)) [
        | inl on ↦ elim (Bool-cases (is_wall (g.view.tiles p))) [
          | inl e ↦ rw (propagate_wall n s from d g on e) (
              Returns-ok g
                (Blasted-refl g.view, λ k lo hi x. ground (arith, (Reaches-start lo x).1)))
          | inr e ↦ rw (propagate_open n s from d g on e) (
              Returns-bind
                (λ lit. Blasted t g.view lit.view × (lit.view.flames p ≡ t + flame_duration))
                (λ g'. Blasted t g.view g'.view × Burns t g.view g'.view from d s (suc n)) _
                (ignite-Blasted p g on (λ w. ground arith) h enough)
                (λ lit (b, burning). elim (Bool-cases (is_block (g.view.tiles p))) [
                  | inl x ↦ rw x (
                      Returns-map (λ g'. Blasted t lit.view g'.view)
                        (λ g'. Blasted t g.view g'.view × Burns t g.view g'.view from d s (suc n))
                        (λ g' c. (Blasted-trans b c, Burns-block from d s n x burning c))
                        (destroy_block-Blasted t p lit on (ground (arith, b.tiles p))))
                  | inr x ↦ rw x (
                      Returns-map
                        (λ g'.
                          Blasted t lit.view g'.view × Burns t lit.view g'.view from d (s + 1) n)
                        (λ g'. Blasted t g.view g'.view × Burns t g.view g'.view from d s (suc n))
                        (λ g' (c, burns).
                          (Blasted-trans b c, Burns-floor from d s n b burning c burns))
                        (propagate-Blasted n (s + 1) from d lit (IsArmed-Blasted h b)
                          (omega (arith, b.counted))))
                ]))
        ]
        | inr off ↦
            rw (off, propagate)
              (Returns-ok g
                (Blasted-refl g.view, λ k lo hi x. ground (arith, (Reaches-start lo x).0)))
      ]

  pub propagate_all-Blasted :
      (b : Bomb) (ds : List Pos) (g : Game r)
      → IsArmed g.view
      → g.view.bomb_count ≤ fuel
      → Returns
          (λ g'.
            Blasted t g.view g'.view
            × ((d : Pos) → d ∈ ds → Burns t g.view g'.view b.pos d 1 b.range))
          (propagate_all ex b ds t g)
  unfolding propagate_all propagate_blast
  propagate_all-Blasted b [] g h enough = Returns-ok g (Blasted-refl g.view, λ d m. absurd m)
  propagate_all-Blasted b (d ∷ ds) g h enough =
      Returns-bind (λ lit. Blasted t g.view lit.view × Burns t g.view lit.view b.pos d 1 b.range)
        (λ g'.
          Blasted t g.view g'.view
          × ((c : Pos) → c ∈ d ∷ ds → Burns t g.view g'.view b.pos c 1 b.range))
        _ (propagate-Blasted b.range 1 b.pos d g h enough)
        λ lit (x, burns).
          Returns-map
            (λ g'.
              Blasted t lit.view g'.view
              × ((c : Pos) → c ∈ ds → Burns t lit.view g'.view b.pos c 1 b.range))
            _
            (λ g' (y, rest). (
              Blasted-trans x y,
              λ c. elim [
                | inl same ↦
                    rw same (λ k lo hi z. burning-Blasted (offset b.pos d k) y (burns k lo hi z))
                | inr m ↦ λ k lo hi z. rest c m k lo hi (Reaches-Blasted x z)
              ],
            ))
            (propagate_all-Blasted b ds lit (IsArmed-Blasted h x) (omega (arith, x.counted)))
