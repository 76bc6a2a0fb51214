-- ===== src/Game/Rules/Placements.antt =====
-- When `Place` drops a bomb, and what it changes then.
use bomber_cli.Base.{
  ℕ, ◌+◌, ◌≤◌, ◌<◌, ◌≡◌, refl, ◌⊎◌, inl, inr, arith, leb, ◌==◌, Bool, true, false, not, ◌||◌,
  is_some, none, some, [], ◌∷◌, ◌++◌, length, get_elem?, set, Option-cases, Bool-cases, ok, Returns,
  ◌>>=◌, take-suc-set, take, ◌∙◌, ap, suc,
}
use bomber_cli.Game.Types.{bomb_fuse, Player, Bomb, View}
use bomber_cli.Game.Rules.{player_index, bomb_index, owned_bomb_count, view_with_bomb, placed_view}
use bomber_cli.Game.Rules.Indices.{bombs_in_use_lem, player_index-some}
use bomber_cli.Game.Bombs.{active}

-- The request of the player `p`, in the slot `i`, is granted.
pub record CanPlace (v : View) (id i : ℕ) (p : Player) : Type 0 where
  pub found : player_index v.players id ≡ some i
  pub slot : get_elem? v.players i ≡ some p
  pub running : v.over ≡ false
  pub room : v.bomb_count < length v.bombs
  pub alive : p.alive ≡ true
  pub free : bomb_index (active v) p.pos ≡ none
  pub below : owned_bomb_count (active v) id < p.capacity

abbrev pub dropped : Player → ℕ → ℕ → Bomb
dropped p id now = record { pos = p.pos; owner = id; range = p.range; due = now + bomb_fuse }

abbrev pub with_bomb : View → Bomb → View
with_bomb v b = record v { bombs = set v.bombs v.bomb_count b; bomb_count = v.bomb_count + 1 }

-- What `Place` returns: the old view if nothing can be granted, or the view with the bomb.
abbrev pub PlaceOutcome : View → ℕ → ℕ → View × Bool → Type 0
PlaceOutcome v id now (w, placed) =
    (placed ≡ false) × (w ≡ v) × ¬ ((i : ℕ) × (p : Player) × CanPlace v id i p)
    ⊎ (placed ≡ true)
      × ((i : ℕ) × (p : Player) × CanPlace v id i p × (w ≡ with_bomb v (dropped p id now)))

-- The bombs in use grow by the new one.
pub active-with_bomb :
    (v : View) (b : Bomb)
    → v.bomb_count < length v.bombs
    → active (with_bomb v b) ≡ active v ++ b ∷ []
active-with_bomb v b h =
    let e : v.bomb_count + 1 ≡ suc v.bomb_count = omega arith in
    ap (λ n. take n (set v.bombs v.bomb_count b)) e ∙ take-suc-set v.bomb_count v.bombs b h

module _ (v : View) (id now : ℕ) (counted : v.bomb_count ≤ length v.bombs) where
  pub view_with_bomb_granted :
      (i : ℕ) (p : Player)
      → CanPlace v id i p
      → view_with_bomb v id now ≡ ok (with_bomb v (dropped p id now), true)
  unfolding view_with_bomb placed_view
  view_with_bomb_granted i p c =
      rw (c.found, view_with_bomb) (ground (arith, c.slot, bombs_in_use_lem v counted))

  placement_cases :
      (i : ℕ) (p : Player)
      → player_index v.players id ≡ some i
      → get_elem? v.players i ≡ some p
      → (view_with_bomb v id now ≡ ok (v, false)) ⊎ CanPlace v id i p
  unfolding view_with_bomb placed_view
  placement_cases i p e at = elim (Bool-cases (v.over || v.bomb_count == length v.bombs)) [
    | inl c ↦ inl (rw (e, view_with_bomb) (rw c refl))
    | inr c ↦
        elim (Bool-cases (
          not p.alive
          || is_some (bomb_index (active v) p.pos)
          || leb p.capacity (owned_bomb_count (active v) id))) [
            | inl d ↦ inl (
                rw (e, view_with_bomb)
                  (rw (c, placed_view, at)
                    (rw (bombs_in_use_lem v counted, ◌>>=◌) (rw (d, ◌>>=◌) refl))))
            | inr d ↦ inr (record {
              found = e;
              slot = at;
              running = ground arith;
              room = ground arith;
              alive = ground arith;
              free = ground arith;
              below = ground arith;
            })
          ]
  ]

  -- Any other request changes nothing.
  pub view_with_bomb_cases :
      (view_with_bomb v id now ≡ ok (v, false)) ⊎ ((i : ℕ) × (p : Player) × CanPlace v id i p)
  unfolding view_with_bomb
  view_with_bomb_cases = elim (Option-cases (player_index v.players id)) [
    | inl e ↦ inl (rw (e, view_with_bomb) refl)
    | inr (i, e) ↦
        let (p, at, same, named, lt) = player_index-some v.players id i e in
        elim (placement_cases i p e at) [ inl r ↦ inl r | inr c ↦ inr (i, p, c) ]
  ]

  -- A bomb is dropped exactly when it can be; else the view is kept.
  pub view_with_bomb-PlaceOutcome : Returns (PlaceOutcome v id now) (view_with_bomb v id now)
  view_with_bomb-PlaceOutcome = elim view_with_bomb_cases [
    | inr (i, p, c) ↦ record {
      value = (with_bomb v (dropped p id now), true);
      returns = view_with_bomb_granted i p c;
      holds = inr (refl, (i, p, c, refl));
    }
    | inl e ↦ record {
      value = (v, false);
      returns = e;
      holds = inl (refl, refl, λ (i, p, c). ground (arith, e, view_with_bomb_granted i p c));
    }
  ]
