-- ===== src/Base/Decimal.antt =====
-- Numbers as the verb %d of fmt prints them: the bytes of their decimal digits.
use Prim.Native.Nat.{ℕ, zero, suc, ◌+◌, ◌-◌, ◌*◌, ◌/◌, ◌%◌, ◌≤◌, ◌<◌}
use mathlib.Core.Path.{◌≡◌, refl, sym, ap, ◌∙◌}
use mathlib.Core.Logic.{inl, inr}
use mathlib.Core.Bool.{true, false}
use mathlib.Core.List.{List, [], ◌∷◌, ◌++◌}
use native.Mathlib.Omega.{arith}
use bomber_cli.Base.Tests.{ltb, Bool-cases}
use bomber_cli.Base.Lists.{All}

-- The digits in front of `out`, on fuel for the number of digits.
abbrev pub digits : ℕ → ℕ → List ℕ → List ℕ
digits zero n out = out
digits (suc fuel) n out = elim (ltb n 10) [
  | true ↦ (48 + n) ∷ out
  | false ↦ digits fuel (n / 10) ((48 + n % 10) ∷ out)
]

unfoldable pub decimal : ℕ → List ℕ
decimal n = digits (suc n) n []

-- The number that digits spell behind `n`.
abbrev pub spelled : ℕ → List ℕ → ℕ
spelled n [] = n
spelled n (c ∷ s) = spelled (n * 10 + (c - 48)) s

digits_last :
    (fuel n : ℕ) (out : List ℕ) → ltb n 10 ≡ true → digits (suc fuel) n out ≡ (48 + n) ∷ out
digits_last fuel n out e = rw (e, digits) refl

digits_next :
    (fuel n : ℕ) (out : List ℕ)
    → ltb n 10 ≡ false
    → digits (suc fuel) n out ≡ digits fuel (n / 10) ((48 + n % 10) ∷ out)
digits_next fuel n out e = rw (e, digits) refl

spelled-digits :
    (fuel n : ℕ) (out : List ℕ) → n < fuel → spelled 0 (digits fuel n out) ≡ spelled n out
spelled-digits zero n out h = absurd (omega arith)
spelled-digits (suc fuel) n out h = elim (Bool-cases (ltb n 10)) [
  | inl e ↦ rw (digits_last fuel n out e) (ap (λ k. spelled k out) (omega arith))
  | inr e ↦ rw (digits_next fuel n out e) (
      spelled-digits fuel (n / 10) ((48 + n % 10) ∷ out) (ground arith)
      ∙ ap (λ k. spelled k out) (omega arith))
]

pub spelled-decimal : (n : ℕ) → spelled 0 (decimal n) ≡ n
unfolding decimal
spelled-decimal n = spelled-digits (suc n) n [] (omega arith)

pub decimal_inj : (m n : ℕ) → decimal m ≡ decimal n → m ≡ n
decimal_inj m n e = sym (spelled-decimal m) ∙ ap (spelled 0) e ∙ spelled-decimal n

digits-IsDigit :
    (fuel n : ℕ) (out : List ℕ)
    → All (λ c. (48 ≤ c) × (c ≤ 57)) out
    → All (λ c. (48 ≤ c) × (c ≤ 57)) (digits fuel n out)
digits-IsDigit zero n out h = h
digits-IsDigit (suc fuel) n out h = elim (Bool-cases (ltb n 10)) [
  | inl e ↦ rw (digits_last fuel n out e) ((omega arith, ground arith), h)
  | inr e ↦
      rw (digits_next fuel n out e) (digits-IsDigit fuel (n / 10) _ ((omega arith, omega arith), h))
]

pub decimal-IsDigit : (n : ℕ) → All (λ c. (48 ≤ c) × (c ≤ 57)) (decimal n)
unfolding decimal
decimal-IsDigit n = digits-IsDigit (suc n) n [] tt

pub append_inj : (xs : List ℕ) {ys zs : List ℕ} → xs ++ ys ≡ xs ++ zs → ys ≡ zs
append_inj [] e = e
append_inj (x ∷ xs) e = append_inj xs (cc)
