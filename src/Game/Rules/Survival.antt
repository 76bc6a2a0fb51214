-- ===== src/Game/Rules/Survival.antt =====
-- Who survives a tick, and when the round is over.
use bomber_cli.Base.{
  ℕ, ◌+◌, ◌≤◌, ◌≡◌, refl, ◌≢◌, inl, inr, arith, ltb, if◌then◌else◌, ℤ, pos, leb_ℤ, ◌==◌, ◌||◌, true,
  false, List, [], ◌∷◌, map, All, ◌∈◌, Bool-cases, ok, ◌>>=◌, ◌∙◌,
}
use bomber_cli.Game.Board.{Grid, inside_board}
use bomber_cli.Game.Board.Laws.{read_inside}
use bomber_cli.Game.Types.{round_duration, Player}
use bomber_cli.Game.Rules.{surviving_players, survivors, outcome}

-- A living player on a burning cell dies.
abbrev pub scorched : Grid ℕ → ℕ → Player → Player
scorched flames now p =
    if p.alive then (if ltb now (flames p.pos) then record p { alive = false } else p) else p

pub surviving_players_lem :
    (ps : List Player) (flames : Grid ℕ) (now : ℕ)
    → All (λ p. inside_board p.pos ≡ true) ps
    → surviving_players ps flames now ≡ ok (map (scorched flames now) ps)
unfolding surviving_players
surviving_players_lem [] flames now h = refl
surviving_players_lem (p ∷ ps) flames now h = elim (Bool-cases p.alive) [
  | inl e ↦
      rw (e, read_inside flames p.pos h.0) (rw (surviving_players_lem ps flames now h.1, ◌>>=◌))
  | inr e ↦ rw e (rw (surviving_players_lem ps flames now h.1, ◌>>=◌))
]

abbrev pub alive_count : List Player → ℕ
alive_count [] = 0
alive_count (p ∷ ps) = (if p.alive then 1 else 0) + alive_count ps

-- The identifier of the last living player in the list, or the default.
abbrev pub last_alive : List Player → ℕ → ℕ
last_alive [] d = d
last_alive (p ∷ ps) d = last_alive ps (if p.alive then p.id else d)

survivors_lem :
    (ps : List Player) (n d : ℕ) → survivors ps n d ≡ (n + alive_count ps, last_alive ps d)
unfolding survivors
survivors_lem [] n d = ground arith
survivors_lem (p ∷ ps) n d = elim (Bool-cases p.alive) [
  | inl e ↦ rw e (ground (arith, survivors_lem ps (n + 1) p.id))
  | inr e ↦ rw e (ground (arith, survivors_lem ps n d))
]

last_alive_none : (ps : List Player) (d : ℕ) → alive_count ps ≡ 0 → last_alive ps d ≡ d
last_alive_none [] d h = refl
last_alive_none (p ∷ ps) d h = elim (Bool-cases p.alive) [
  | inl e ↦ absurd (ground arith)
  | inr e ↦ rw e (last_alive_none ps d (ground arith))
]

-- With one player alive, that player is the last one.
pub last_alive_only :
    (ps : List Player) (d : ℕ) (p : Player)
    → alive_count ps ≤ 1
    → p ∈ ps
    → p.alive ≡ true
    → last_alive ps d ≡ p.id
last_alive_only [] d p h m a = absurd m
last_alive_only (q ∷ ps) d p h (inl e) a =
    let alive : q.alive ≡ true = ground arith in
    rw alive (last_alive_none ps q.id (ground arith) ∙ ground arith)
last_alive_only (q ∷ ps) d p h (inr m) a = last_alive_only ps _ p (ground arith) m a

-- With exactly one living player, `outcome` says that the round is over and that this player wins,
-- whatever the time.
pub outcome_survivor :
    (ps : List Player) (elapsed : ℤ) (p : Player)
    → alive_count ps ≡ 1
    → p ∈ ps
    → p.alive ≡ true
    → outcome ps elapsed ≡ (true, p.id)
unfolding outcome
outcome_survivor ps elapsed p one m a =
    rw survivors_lem (ground (arith, last_alive_only ps 0 p (omega arith) m a))

-- With no living player or with several, `outcome` names no winner, and the round is over exactly if
-- nobody lives or the time is up.
pub outcome_draw :
    (ps : List Player) (elapsed : ℤ)
    → alive_count ps ≢ 1
    → outcome ps elapsed ≡ (alive_count ps == 0 || leb_ℤ (pos round_duration) elapsed, 0)
unfolding outcome
outcome_draw ps elapsed many = rw survivors_lem (ground (arith, last_alive_none ps 0))
