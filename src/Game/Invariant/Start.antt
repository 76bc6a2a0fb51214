-- ===== src/Game/Invariant/Start.antt =====
-- The view of a new round and the invariant.
use bomber_cli.Base.{ℕ, ◌≡◌, refl, ◌≢◌, inl, arith, true, ◌-ℤ◌, List, [], ◌∷◌, length, All}
use bomber_cli.Game.Board.{Pos, inside_board, cardinal_step}
use bomber_cli.Game.Types.{floor}
use bomber_cli.Game.Rules.{owned_bomb_count}
use bomber_cli.Game.Setup.{
  BlockPattern, spawns, wall_position, spawn_exit, initial_tile, initial_tiles, initial_players_at,
  initial_players, initial_view,
}
use bomber_cli.Game.Invariant.{IsPlaced, IsValid}

abbrev IsSpawn : BlockPattern → Pos → Type 0
IsSpawn blocks p = (inside_board p ≡ true) × (initial_tile p blocks ≡ floor)

spawns-IsSpawn : (blocks : BlockPattern) → All (IsSpawn blocks) spawns
unfolding inside_board initial_tile wall_position spawn_exit cardinal_step ◌-ℤ◌
spawns-IsSpawn blocks = ((refl, refl), ((refl, refl), ((refl, refl), ((refl, refl), tt))))

module _ (blocks : BlockPattern) where
  players-IsPlaced :
      (starts : List Pos) (ids : List ℕ)
      → All (IsSpawn blocks) starts
      → All (λ id. id ≢ 0) ids
      → All (IsPlaced (initial_tiles blocks)) (initial_players_at starts ids)
  unfolding initial_players_at initial_tiles inside_board
  players-IsPlaced [] ids h n = tt
  players-IsPlaced (s ∷ rest) [] h n = (
    record {
      inside = refl;
      standing = λ e. absurd (e refl);
      named = λ e. cc;
      capped = omega arith;
      ranged = omega arith;
      slow = omega arith;
      fast = λ e. absurd (e refl);
    },
    players-IsPlaced rest [] h.1 tt,
  )
  players-IsPlaced (s ∷ rest) (id ∷ ids) h n = (
    record {
      inside = h.0.0;
      standing = λ _. h.0.1;
      named = λ _. n.0;
      capped = omega arith;
      ranged = omega arith;
      slow = omega arith;
      fast = λ _. omega arith;
    },
    players-IsPlaced rest ids h.1 n.1,
  )

length-initial_players : (ids : List ℕ) → length (initial_players ids) ≡ 4
unfolding initial_players initial_players_at
length-initial_players [] = refl
length-initial_players (a ∷ []) = refl
length-initial_players (a ∷ b ∷ []) = refl
length-initial_players (a ∷ b ∷ c ∷ []) = refl
length-initial_players (a ∷ b ∷ c ∷ d ∷ ids) = refl

pub initial_view-IsValid :
    (ids : List ℕ) (now : ℕ) (blocks : BlockPattern)
    → All (λ id. id ≢ 0) ids
    → IsValid (initial_view ids now blocks)
unfolding initial_view initial_tiles owned_bomb_count
initial_view-IsValid ids now blocks n = record {
  four = length-initial_players ids;
  twenty = refl;
  armed = record { counted = omega arith; inside = tt; floored = tt; apart = tt };
  placed = unfold initial_players in players-IsPlaced blocks spawns ids (spawns-IsSpawn blocks) n;
  ranged = tt;
  owned = λ id. omega arith;
  hidden = λ p. inl refl;
  walled = λ p. unfold initial_tile in (ground arith, ground arith);
}
