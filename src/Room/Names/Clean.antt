-- ===== src/Room/Names/Clean.antt =====
-- `sanitizePlayerName` of internal/room/hub.go: what is left of the name that a client asks for.
use bomber_cli.Base.{
  ℕ, zero, suc, false, ap, take, keep, ◌+◌, ◌≤◌, ◌<◌, ◌==◌, ◌≡◌, refl, inl, inr, arith, true, List,
  [], ◌∷◌, length, All, Bool-cases,
}
use bomber_cli.Room.Names.{Name, keeps_rune, kept_runes, default_name, sanitize_player_name}

kept_runes-Clean :
    (k : ℕ) (rs : List ℕ)
    → k < 16
    → All (λ r. keeps_rune r ≡ true) (kept_runes k rs) × (length (kept_runes k rs) + k ≤ 16)
unfolding kept_runes
kept_runes-Clean k [] h = (tt, omega arith)
kept_runes-Clean k (r ∷ rs) h = elim (Bool-cases (keeps_rune r)) [
  | inr e ↦ rw e (kept_runes-Clean k rs h)
  | inl e ↦ elim (Bool-cases (k + 1 == 16)) [
    | inl f ↦ rw e rw f ((e, tt), omega arith)
    | inr f ↦
        let (ih, le) = kept_runes-Clean (k + 1) rs (ground arith) in
        rw e rw f ((e, ih), omega arith)
  ]
]

-- The loop stops early, and keeps the first ones of those that it would keep.
kept_runes-take :
    (k n : ℕ) (rs : List ℕ) → k + suc n ≡ 16 → kept_runes k rs ≡ take (suc n) (keep keeps_rune rs)
unfolding kept_runes
kept_runes-take k n [] h = refl
kept_runes-take k zero (r ∷ rs) h = elim (Bool-cases (keeps_rune r)) [
  | inr e ↦ rw e (kept_runes-take k zero rs h)
  | inl e ↦ let f : (k + 1 == 16) ≡ true = ground (arith, h) in rw e rw f refl
]
kept_runes-take k (suc n) (r ∷ rs) h = elim (Bool-cases (keeps_rune r)) [
  | inr e ↦ rw e (kept_runes-take k (suc n) rs h)
  | inl e ↦
      let f : (k + 1 == 16) ≡ false = ground (arith, h) in
      rw e rw f (ap (◌∷◌ r) (kept_runes-take (k + 1) n rs (omega (arith, h))))
]

abbrev or_default : Name → Name
or_default [] = default_name
or_default (r ∷ rs) = r ∷ rs

-- The name of a player is made of the first 16 of the letters of the English alphabet, digits, underscores
-- and dashes that a client asks for, or the default name if there are none. So it has between 1 and 16
-- characters, and all of them are such.
pub sanitize_player_name-keeps_rune :
    (name : List ℕ)
    → (sanitize_player_name name ≡ or_default (take 16 (keep keeps_rune name)))
      × All (λ r. keeps_rune r ≡ true) (sanitize_player_name name)
      × (0 < length (sanitize_player_name name))
      × (length (sanitize_player_name name) ≤ 16)
unfolding sanitize_player_name keeps_rune
sanitize_player_name-keeps_rune name =
    let (allowed, some_left, few) =
      kept (kept_runes 0 name) (kept_runes-Clean 0 name (omega arith)) in
    (same (kept_runes 0 name) (kept_runes-take 0 15 name refl), allowed, some_left, few)
  where
    same :
        (n : Name)
        → n ≡ take 16 (keep keeps_rune name)
        → elim n [ [] ↦ default_name | r ∷ rs ↦ r ∷ rs ]
          ≡ or_default (take 16 (keep keeps_rune name))
    same [] e = ap or_default e
    same (r ∷ rs) e = ap or_default e

    kept :
        (n : Name)
        → All (λ r. keeps_rune r ≡ true) n × (length n + 0 ≤ 16)
        → All (λ r. keeps_rune r ≡ true) (elim n [ [] ↦ default_name | r ∷ rs ↦ r ∷ rs ])
          × (0 < length (elim n [ [] ↦ default_name | r ∷ rs ↦ r ∷ rs ]))
          × (length (elim n [ [] ↦ default_name | r ∷ rs ↦ r ∷ rs ]) ≤ 16)
    kept [] h = ((refl, (refl, (refl, (refl, (refl, (refl, tt)))))), omega arith, omega arith)
    kept (r ∷ rs) h = (h.0, omega arith, omega (arith, h.1))
