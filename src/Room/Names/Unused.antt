-- ===== src/Room/Names/Unused.antt =====
-- The search for a name that nobody has: `uniquePlayerName` of internal/room/hub.go.
use bomber_cli.Base.{
  decimal, decimal_inj, append_inj, length-append, ℕ, zero, suc, ◌+◌, ◌≤◌, ◌<◌, ◌==◌, ◌≡◌, ◌≢◌,
  refl, sym, ap, ◌∙◌, inl, inr, arith, Bool, true, false, ◌&&◌, List, [], ◌∷◌, length, Bool-cases,
  if◌then◌else◌, ok, Returns, Returns-ok, Returns-at,
}
use bomber_cli.Room.Names.{
  suffixed, Name, name_eq, is_used, unused_name, unique_player_name, sanitize_player_name,
}

pub name_eq_sound : (a b : Name) → name_eq a b ≡ true → a ≡ b
unfolding name_eq
name_eq_sound [] [] e = refl
name_eq_sound (a ∷ xs) (b ∷ ys) e =
    let (h, t) = both (a == b) (name_eq xs ys) e in
    let same : a ≡ b = ground arith in rw same (ap (◌∷◌ b) (name_eq_sound xs ys t))
  where
    both : (p q : Bool) → (p && q) ≡ true → (p ≡ true) × (q ≡ true)
    both true q e = (refl, e)
    both false q e = cc
name_eq_sound [] (b ∷ ys) e = cc
name_eq_sound (a ∷ xs) [] e = cc

-- The other names.
abbrev others : Name → List Name → List Name
others x [] = []
others x (n ∷ ns) = if name_eq n x then others x ns else n ∷ others x ns

is_used-others : (x y : Name) (ns : List Name) → y ≢ x → is_used (others x ns) y ≡ is_used ns y
unfolding is_used
is_used-others x y [] h = refl
is_used-others x y (n ∷ ns) h = elim (Bool-cases (name_eq n x)) [
  | inl e ↦ elim (Bool-cases (name_eq n y)) [
    | inl f ↦ absurd (h (sym (name_eq_sound n y f) ∙ name_eq_sound n x e))
    | inr f ↦ rw e rw f (is_used-others x y ns h)
  ]
  | inr e ↦ elim (Bool-cases (name_eq n y)) [
    | inl f ↦ rw e rw f refl
    | inr f ↦ rw e rw f (is_used-others x y ns h)
  ]
]

length-others : (x : Name) (ns : List Name) → length (others x ns) ≤ length ns
length-others x [] = omega arith
length-others x (n ∷ ns) = ground (arith, length-others x ns)

length-others_used :
    (x : Name) (ns : List Name) → is_used ns x ≡ true → length (others x ns) < length ns
unfolding is_used
length-others_used x [] e = cc
length-others_used x (n ∷ ns) e = elim (Bool-cases (name_eq n x)) [
  | inl f ↦ rw f (omega (arith, length-others x ns))
  | inr f ↦ ground (arith, length-others_used x ns)
]

suffixed_inj : (base : Name) (i j : ℕ) → suffixed base i ≡ suffixed base j → i ≡ j
unfolding suffixed
suffixed_inj base i j e = decimal_inj i j (append_inj (45 ∷ []) (append_inj base e))

suffixed-ne : (base : Name) (i : ℕ) → suffixed base i ≢ base
unfolding suffixed
suffixed-ne base i e = omega (arith, ap length e, length-append base (45 ∷ decimal i))

module _ (base : Name) where
  search_on :
      (fuel : ℕ) (ns : List Name) (s : ℕ) (n : Name)
      → is_used ns n ≡ true
      → unused_name (suc fuel) ns base s n ≡ unused_name fuel ns base (s + 1) (suffixed base s)
  unfolding unused_name
  search_on fuel ns s n e = rw (e, unused_name) refl

  search_stop :
      (fuel : ℕ) (ns : List Name) (s : ℕ) (n : Name)
      → is_used ns n ≡ false
      → unused_name (suc fuel) ns base s n ≡ ok n
  unfolding unused_name
  search_stop fuel ns s n e = rw (e, unused_name) refl

  -- A name that is not tried does not matter.
  unused_name-others :
      (fuel : ℕ) (ns : List Name) (s : ℕ) (n x : Name)
      → n ≢ x
      → ((j : ℕ) → s ≤ j → suffixed base j ≢ x)
      → unused_name fuel (others x ns) base s n ≡ unused_name fuel ns base s n
  unfolding unused_name
  unused_name-others zero ns s n x h k = refl
  unused_name-others (suc fuel) ns s n x h k =
      let same = is_used-others x n ns h in
      elim (Bool-cases (is_used ns n)) [
        | inl e ↦
            search_on fuel (others x ns) s n (same ∙ e)
            ∙ unused_name-others fuel ns (s + 1) (suffixed base s) x (k s (omega arith))
                (λ j le. k j (omega arith))
            ∙ sym (search_on fuel ns s n e)
        | inr e ↦ search_stop fuel (others x ns) s n (same ∙ e) ∙ sym (search_stop fuel ns s n e)
      ]

  unused_name-is_used :
      (fuel : ℕ) (ns : List Name) (s : ℕ) (n m : Name)
      → unused_name fuel ns base s n ≡ ok m
      → is_used ns m ≡ false
  unfolding unused_name
  unused_name-is_used zero ns s n m h = cc
  unused_name-is_used (suc fuel) ns s n m h = elim (Bool-cases (is_used ns n)) [
    | inl e ↦
        unused_name-is_used fuel ns (s + 1) (suffixed base s) m (sym (search_on fuel ns s n e) ∙ h)
    | inr e ↦
        let returned : Returns (λ k. is_used ns k ≡ false) (ok n) = Returns-ok n e in
        Returns-at (λ k. is_used ns k ≡ false) returned (sym (search_stop fuel ns s n e) ∙ h)
  ]

  unused_name-Returns :
      (fuel : ℕ) (ns : List Name) (s : ℕ) (n : Name)
      → length ns < fuel
      → ((j : ℕ) → s ≤ j → suffixed base j ≢ n)
      → Returns (λ m. is_used ns m ≡ false) (unused_name fuel ns base s n)
  unused_name-Returns zero ns s n h k = absurd (omega arith)
  unused_name-Returns (suc fuel) ns s n h k = elim (Bool-cases (is_used ns n)) [
    | inr e ↦ record { value = n; returns = search_stop fuel ns s n e; holds = e }
    | inl e ↦
        let later : (j : ℕ) → s + 1 ≤ j → suffixed base j ≢ suffixed base s =
          λ j le same. omega (arith, suffixed_inj base j s same) in
        let found =
          unused_name-Returns fuel (others n ns) (s + 1) (suffixed base s)
            (omega (arith, length-others_used n ns e)) later in
        let at =
          search_on fuel ns s n e
          ∙ sym (
              unused_name-others fuel ns (s + 1) (suffixed base s) n (k s (omega arith))
                (λ j le. k j (omega arith)))
          ∙ found.returns in
        record {
          value = found.value;
          returns = at;
          holds = unused_name-is_used (suc fuel) ns s n found.value at;
        }
  ]

-- The search for a name ends within one try more than there are names in use, and the name that it
-- finds is not in use.
pub unique_player_name-Returns :
    (names : List Name) (name : List ℕ)
    → Returns (λ m. is_used names m ≡ false) (unique_player_name names name)
unfolding unique_player_name
unique_player_name-Returns names name =
    let base = sanitize_player_name name in
    unused_name-Returns base (length names + 1) names 2 base (omega arith)
      (λ j le. suffixed-ne base j)
