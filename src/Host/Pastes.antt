-- ===== src/Host/Pastes.antt =====
-- The search for the marker in `gameInput.Read` of internal/host/limits.go, byte by byte.
use bomber_cli.Base.{
  ◌≢◌, ℕ, zero, suc, ◌+◌, ◌<◌, ◌≤◌, ◌==◌, ◌≡◌, ◌⊎◌, refl, sym, ap, ◌∙◌, inl, inr, arith, Bool, true,
  false, ◌||◌, Option, none, some, [], ◌∷◌, ◌++◌, drop, get_elem?, Text, Bool-cases, ok, ◌>>=◌,
  Returns, Returns-ok, Returns-map,
}
use bomber_cli.Host.Input.{paste, paste_prefix, scan, begins, has_paste, has_rest}

pub begins-has_paste : (s : Text) → (begins paste s || has_paste s) ≡ has_paste s
begins-has_paste [] = refl
begins-has_paste (c ∷ s) = elim (Bool-cases (begins paste (c ∷ s))) [
  | inl e ↦ rw e refl
  | inr e ↦ rw e refl
]

or_absorb : (p q : Bool) → (p || (p || q)) ≡ (p || q)
or_absorb true q = refl
or_absorb false q = refl

-- One more byte, behind the first of the marker.
next_lem :
    (k p ch : ℕ)
    → k < 6
    → get_elem? paste k ≡ some p
    → drop k paste ≡ p ∷ drop (k + 1) paste
    → p ≢ 27
    → (k' : ℕ) × (paste_prefix k ch ≡ ok k')
      × (k' ≤ 6)
      × ((s : Text) → has_rest k (ch ∷ s) ≡ has_rest k' s)
unfolding paste_prefix
next_lem k p ch lt at split other = elim (Bool-cases (ch == p)) [
  | inl e ↦
      let no_start : (ch == 27) ≡ false = ground (arith, e, other) in
      (k + 1, rw at rw e refl, omega arith, λ s. rw split rw (e, no_start) refl)
  | inr e ↦ elim (Bool-cases (ch == 27)) [
    | inl f ↦ (1, rw at rw e rw f refl, omega arith, λ s. rw split rw e rw f refl)
    | inr f ↦
        (0, rw at rw e rw f refl, omega arith, λ s. rw split rw e rw f (sym (begins-has_paste s)))
  ]
]

-- One more byte.
step_lem :
    (k ch : ℕ)
    → k < 6
    → (k' : ℕ) × (paste_prefix k ch ≡ ok k')
      × (k' ≤ 6)
      × ((s : Text) → has_rest k (ch ∷ s) ≡ has_rest k' s)
unfolding paste_prefix
step_lem zero ch lt = elim (Bool-cases (ch == 27)) [
  | inl e ↦
      (1, rw e refl, omega arith, λ s. rw e (or_absorb (begins (drop 1 paste) s) (has_paste s)))
  | inr e ↦ (0, rw e refl, omega arith, λ s. rw e (sym (begins-has_paste s)))
]
step_lem (suc zero) ch lt = next_lem 1 91 ch lt refl refl (omega arith)
step_lem (suc (suc zero)) ch lt = next_lem 2 50 ch lt refl refl (omega arith)
step_lem (suc (suc (suc zero))) ch lt = next_lem 3 48 ch lt refl refl (omega arith)
step_lem (suc (suc (suc (suc zero)))) ch lt = next_lem 4 48 ch lt refl refl (omega arith)
step_lem (suc (suc (suc (suc (suc zero))))) ch lt = next_lem 5 126 ch lt refl refl (omega arith)
step_lem (suc (suc (suc (suc (suc (suc k)))))) ch lt = absurd (omega arith)

-- What a scan says of the text that it has read, for any text that may follow.
abbrev pub Scanned : ℕ → Text → Option ℕ → Type 0
Scanned k s none = has_rest k s ≡ true
Scanned k s (some k') = (k' < 6) × ((t : Text) → has_rest k (s ++ t) ≡ has_rest k' t)

scan_full :
    (k ch k' : ℕ) (s : Text)
    → paste_prefix k ch ≡ ok k'
    → (k' == 6) ≡ true
    → scan k (ch ∷ s) ≡ ok none
unfolding scan
scan_full k ch k' s e f = rw (e, scan) rw (f, ◌>>=◌) refl

scan_on :
    (k ch k' : ℕ) (s : Text)
    → paste_prefix k ch ≡ ok k'
    → (k' == 6) ≡ false
    → scan k (ch ∷ s) ≡ scan k' s
unfolding scan
scan_on k ch k' s e f = rw (e, scan) rw (f, ◌>>=◌) refl

pub scan-Scanned : (s : Text) (k : ℕ) → k < 6 → Returns (Scanned k s) (scan k s)
unfolding scan
scan-Scanned [] k lt = Returns-ok _ (lt, λ t. refl)
scan-Scanned (ch ∷ s) k lt =
    let (k', e, few, same) = step_lem k ch lt in
    elim (Bool-cases (k' == 6)) [
      | inl f ↦
          let full : k' ≡ 6 = ground (arith, f) in
          rw (scan_full k ch k' s e f) (Returns-ok _ (same s ∙ ap (λ j. has_rest j s) full))
      | inr f ↦ rw (scan_on k ch k' s e f) (
          Returns-map (Scanned k' s) (Scanned k (ch ∷ s)) (λ o x. longer k' same o x)
            (scan-Scanned s k' (ground (arith, f, few))))
    ]
  where
    longer :
        (k' : ℕ)
        → ((t : Text) → has_rest k (ch ∷ t) ≡ has_rest k' t)
        → (o : Option ℕ) → Scanned k' s o
        → Scanned k (ch ∷ s) o
    longer k' same none x = same s ∙ x
    longer k' same (some j) (lt', x) = (lt', λ t. same (s ++ t) ∙ x t)

begins-append : (d s t : Text) → begins d s ≡ true → begins d (s ++ t) ≡ true
begins-append [] s t e = refl
begins-append (c ∷ d) [] t e = cc
begins-append (c ∷ d) (a ∷ s) t e = elim (Bool-cases (a == c)) [
  | inl f ↦ rw f (begins-append d s t (rw f at e))
  | inr f ↦ let no : false ≡ true = (rw f at e) in absurd (cc)
]

or_cases : (p q : Bool) → (p || q) ≡ true → (p ≡ true) ⊎ (q ≡ true)
or_cases true q e = inl refl
or_cases false q e = inr e

or_left : (p q : Bool) → p ≡ true → (p || q) ≡ true
or_left p q e = rw e refl

or_right : (p q : Bool) → q ≡ true → (p || q) ≡ true
or_right true q e = refl
or_right false q e = e

has_paste-append : (s t : Text) → has_paste s ≡ true → has_paste (s ++ t) ≡ true
has_paste-append [] t e = cc
has_paste-append (c ∷ s) t e = elim (or_cases (begins paste (c ∷ s)) (has_paste s) e) [
  | inl f ↦ or_left _ _ (begins-append paste (c ∷ s) t f)
  | inr f ↦ or_right (begins paste (c ∷ s ++ t)) _ (has_paste-append s t f)
]

pub has_rest-append : (k : ℕ) (s t : Text) → has_rest k s ≡ true → has_rest k (s ++ t) ≡ true
has_rest-append k s t e = elim (or_cases (begins (drop k paste) s) (has_paste s) e) [
  | inl f ↦ or_left _ _ (begins-append (drop k paste) s t f)
  | inr f ↦ or_right (begins (drop k paste) (s ++ t)) _ (has_paste-append s t f)
]
