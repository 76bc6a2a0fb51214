-- ===== src/Game/Rules/Moves.antt =====
-- When `Move` moves a player, and what it changes then.
use bomber_cli.Base.{
  ℕ, ◌+◌, ◌≤◌, ◌≡◌, refl, ◌⊎◌, inl, inr, arith, ltb, if◌then◌else◌, ℤ, ◌+ℤ◌, Bool, true, false, not,
  ◌||◌, none, some, length, get_elem?, set, Option-cases, Bool-cases, ok, Returns, ◌>>=◌,
}
use bomber_cli.Game.Board.{Pos, inside_board, cardinal_step, update}
use bomber_cli.Game.Board.Laws.{read_inside, write_inside}
use bomber_cli.Game.Types.{floor, no_power, Player, View}
use bomber_cli.Game.Rules.{
  upgraded, player_index, bomb_index, moved_view, entered_view, arrived_view,
}
use bomber_cli.Game.Rules.Indices.{bombs_in_use_lem, player_index-some}
use bomber_cli.Game.Bombs.{active}

abbrev pub shifted : Pos → ℤ → ℤ → Pos
shifted p dx dy = record { x = p.x +ℤ dx; y = p.y +ℤ dy }

-- The request of the player `p`, in the slot `i`, is granted.
pub record CanMove (v : View) (id : ℕ) (dx dy : ℤ) (now i : ℕ) (p : Player) : Type 0 where
  pub found : player_index v.players id ≡ some i
  pub slot : get_elem? v.players i ≡ some p
  pub running : v.over ≡ false
  pub step : cardinal_step dx dy ≡ true
  pub alive : p.alive ≡ true
  pub ready : p.next_move ≤ now
  pub inside : inside_board (shifted p.pos dx dy) ≡ true
  pub vacant : v.tiles (shifted p.pos dx dy) ≡ floor
  pub free : bomb_index (active v) (shifted p.pos dx dy) ≡ none

abbrev pub survives : View → Pos → ℕ → Bool
survives v destination now = not (ltb now (v.flames destination))

-- The player on the destination: dead in the fire, or with the upgrade that lay there.
abbrev pub landed : View → Player → Pos → ℕ → Player
landed v p destination now =
    let arrived : Player = record p {
      pos = destination;
      next_move = now + p.cooldown;
      alive = survives v destination now;
    } in
    if survives v destination now then upgraded arrived (v.powers destination) else arrived

-- The view after the move: one slot and, for a survivor, one power-up have changed.
abbrev pub after_move : View → ℕ → Player → Pos → ℕ → View
after_move v i p destination now = record v {
  players = set v.players i (landed v p destination now);
  powers = if survives v destination now then update v.powers destination no_power else v.powers;
}

-- What `Move` returns: the old view if nothing can be granted, or the view after the move.
abbrev pub MoveOutcome : View → ℕ → ℤ → ℤ → ℕ → View × Bool → Type 0
MoveOutcome v id dx dy now (w, moved) =
    (moved ≡ false) × (w ≡ v) × ¬ ((i : ℕ) × (p : Player) × CanMove v id dx dy now i p)
    ⊎ (moved ≡ true)
      × ((i : ℕ) × (p : Player) × CanMove v id dx dy now i p
          × (w ≡ after_move v i p (shifted p.pos dx dy) now))

arrived_view_lem :
    (v : View) (i : ℕ) (p : Player) (d : Pos) (now : ℕ)
    → inside_board d ≡ true
    → arrived_view v i p d now ≡ ok (after_move v i p d now, true)
unfolding arrived_view
arrived_view_lem v i p d now h =
    rw (read_inside v.flames d h) (elim (Bool-cases (survives v d now)) [
      | inl e ↦ rw (e, ◌>>=◌, read_inside v.powers d h, write_inside v.powers d no_power h) refl
      | inr e ↦ rw (e, ◌>>=◌) refl
    ])

entered_view_free :
    (v : View) (i : ℕ) (p : Player) (d : Pos) (now : ℕ)
    → v.bomb_count ≤ length v.bombs
    → inside_board d ≡ true
    → v.tiles d ≡ floor
    → bomb_index (active v) d ≡ none
    → entered_view v i p d now ≡ ok (after_move v i p d now, true)
unfolding entered_view
entered_view_free v i p d now counted h e n =
    ground
      (arith, read_inside v.tiles d h, bombs_in_use_lem v counted, arrived_view_lem v i p d now h)

entered_view_cases :
    (v : View) (i : ℕ) (p : Player) (d : Pos) (now : ℕ)
    → v.bomb_count ≤ length v.bombs
    → inside_board d ≡ true
    → (entered_view v i p d now ≡ ok (v, false))
      ⊎ (v.tiles d ≡ floor) × (bomb_index (active v) d ≡ none)
unfolding entered_view
entered_view_cases v i p d now counted h =
    ground (arith, read_inside v.tiles d h, bombs_in_use_lem v counted)

module _ (v : View) (id : ℕ) (dx dy : ℤ) (now : ℕ) (counted : v.bomb_count ≤ length v.bombs) where
  -- A request that can be granted is.
  pub moved_view_granted :
      (i : ℕ) (p : Player)
      → CanMove v id dx dy now i p
      → moved_view v id dx dy now ≡ ok (after_move v i p (shifted p.pos dx dy) now, true)
  unfolding moved_view
  moved_view_granted i p c =
      rw (c.found, moved_view)
        (ground (
          arith,
          c.slot,
          entered_view_free v i p (shifted p.pos dx dy) now counted c.inside c.vacant c.free,
        ))

  cases :
      (i : ℕ) (p : Player)
      → player_index v.players id ≡ some i
      → get_elem? v.players i ≡ some p
      → (moved_view v id dx dy now ≡ ok (v, false)) ⊎ CanMove v id dx dy now i p
  unfolding moved_view
  cases i p e at = elim (Bool-cases (v.over || not (cardinal_step dx dy))) [
    | inl c ↦ inl (rw (e, moved_view, c) refl)
    | inr c ↦
        elim (Bool-cases
          (not p.alive || ltb now p.next_move || not (inside_board (shifted p.pos dx dy)))) [
            | inl d ↦ inl (rw (e, moved_view) (rw (c, at) (rw (d, ◌>>=◌) refl)))
            | inr d ↦
                elim (entered_view_cases v i p (shifted p.pos dx dy) now counted (ground arith)) [
                  | inl r ↦ inl (rw (e, moved_view) (rw (c, at) (rw (d, ◌>>=◌) r)))
                  | inr (vacant, free) ↦ inr (record {
                    found = e;
                    slot = at;
                    running = ground arith;
                    step = ground arith;
                    alive = ground arith;
                    ready = ground arith;
                    inside = ground arith;
                    vacant = vacant;
                    free = free;
                  })
                ]
          ]
  ]

  -- Any other request changes nothing.
  pub moved_view_cases :
      (moved_view v id dx dy now ≡ ok (v, false))
      ⊎ ((i : ℕ) × (p : Player) × CanMove v id dx dy now i p)
  unfolding moved_view
  moved_view_cases = elim (Option-cases (player_index v.players id)) [
    | inl e ↦ inl (rw (e, moved_view) refl)
    | inr (i, e) ↦
        let (p, at, same, named, lt) = player_index-some v.players id i e in
        let rest : (moved_view v id dx dy now ≡ ok (v, false)) ⊎ CanMove v id dx dy now i p =
          cases i p e at in
        elim rest [ inl r ↦ inl r | inr c ↦ inr (i, p, c) ]
  ]

  -- A move is granted exactly when it can be, and has its whole effect then; else the view is kept.
  pub moved_view-MoveOutcome : Returns (MoveOutcome v id dx dy now) (moved_view v id dx dy now)
  moved_view-MoveOutcome = elim moved_view_cases [
    | inr (i, p, c) ↦ record {
      value = (after_move v i p (shifted p.pos dx dy) now, true);
      returns = moved_view_granted i p c;
      holds = inr (refl, (i, p, c, refl));
    }
    | inl e ↦ record {
      value = (v, false);
      returns = e;
      holds = inl (refl, refl, λ (i, p, c). ground (arith, e, moved_view_granted i p c));
    }
  ]
