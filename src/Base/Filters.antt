-- ===== src/Base/Filters.antt =====
-- Lists that a test or a function goes through.

use mathlib.Core.Path.{◌≡◌, refl}
use mathlib.Core.Logic.{inl, inr}
use mathlib.Core.Bool.{Bool, true}
use mathlib.Core.List.{List, [], ◌∷◌, map, Sublistᴰ}
use mathlib.Core.List.Sublistᴰ.{slnil, cons, cons-cons}
use native.Mathlib.Omega.{arith}
use bomber_cli.Base.Tests.{Bool-cases}
use bomber_cli.Base.Lists.{length, keep, All}
use bomber_cli.Base.Members.{AllPairs}

module _ {A : Type 0} where
  pub keep-Sublist : (test : A → Bool) (xs : List A) → Sublistᴰ (keep test xs) xs
  keep-Sublist test [] = slnil
  keep-Sublist test (x ∷ xs) = elim (Bool-cases (test x)) [
    | inl e ↦ rw e (cons-cons refl (keep-Sublist test xs))
    | inr e ↦ rw e (cons (keep-Sublist test xs))
  ]

  -- A predicate that the elements that are kept have.
  pub All-keep :
      (P Q : A → Type 0) (test : A → Bool) (xs : List A)
      → ((a : A) → test a ≡ true → P a → Q a)
      → All P xs
      → All Q (keep test xs)
  All-keep P Q test [] f h = tt
  All-keep P Q test (x ∷ xs) f h = elim (Bool-cases (test x)) [
    | inl e ↦ rw e (f x e h.0, All-keep P Q test xs f h.1)
    | inr e ↦ rw e (All-keep P Q test xs f h.1)
  ]

  pub All-through :
      (P Q : A → Type 0) (f : A → A) (xs : List A)
      → ((a : A) → P a → Q (f a))
      → All P xs
      → All Q (map f xs)
  All-through P Q f [] k h = tt
  All-through P Q f (x ∷ xs) k h = (k x h.0, All-through P Q f xs k h.1)

  pub AllPairs-through :
      (R : A → A → Type 0) (f : A → A) (xs : List A)
      → ((a b : A) → R a b → R (f a) (f b))
      → AllPairs R xs
      → AllPairs R (map f xs)
  AllPairs-through R f [] k h = tt
  AllPairs-through R f (x ∷ xs) k h =
      (All-through (R x) (R (f x)) f xs (λ b p. k x b p) h.0, AllPairs-through R f xs k h.1)

  pub length-through : (f : A → A) (xs : List A) → length (map f xs) ≡ length xs
  length-through f [] = refl
  length-through f (x ∷ xs) = omega (arith, length-through f xs)
