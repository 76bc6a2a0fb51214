-- ===== src/Game/Rules/Indices.antt =====
-- What the searches of rules.go find: the first element that fits, or none.
use bomber_cli.Base.{
  ℕ, ◌<◌, ◌≡◌, false, ◌≢◌, none, some, arith, List, length, get_elem?, All, index_of-some,
  index_of-none, ok, ◌≤◌,
}
use bomber_cli.Game.Board.{Pos, pos_eq}
use bomber_cli.Game.Board.Laws.{pos_eq_iff}
use bomber_cli.Game.Types.{Player, Bomb, View}
use bomber_cli.Game.Bombs.{active}
use bomber_cli.Game.Rules.{bomb_index, player_index, bombs_in_use}

pub bombs_in_use_lem : (v : View) → v.bomb_count ≤ length v.bombs → bombs_in_use v ≡ ok (active v)
unfolding bombs_in_use
bombs_in_use_lem v h = ground arith

pub bomb_index-none :
    (bombs : List Bomb) (p : Pos)
    → bomb_index bombs p ≡ none
    → All (λ b. pos_eq b.pos p ≡ false) bombs
unfolding bomb_index
bomb_index-none bombs p e = index_of-none _ bombs e

pub bomb_index-some :
    (bombs : List Bomb) (p : Pos) (i : ℕ)
    → bomb_index bombs p ≡ some i
    → (b : Bomb) × (get_elem? bombs i ≡ some b) × (b.pos ≡ p) × (i < length bombs)
unfolding bomb_index
bomb_index-some bombs p i e =
    let (b, at, hit, lt) = index_of-some _ bombs i e in (b, at, (pos_eq_iff b.pos p).0 hit, lt)

pub player_index-some :
    (players : List Player) (id i : ℕ)
    → player_index players id ≡ some i
    → (p : Player) × (get_elem? players i ≡ some p) × (p.id ≡ id) × (id ≢ 0) × (i < length players)
unfolding player_index
player_index-some players id i e =
    let (p, at, hit, lt) = index_of-some _ players i e in (p, at, ground arith, ground arith, lt)
