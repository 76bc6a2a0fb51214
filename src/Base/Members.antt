-- ===== src/Base/Members.antt =====
-- Predicates over lists, their parts and their members.
use Prim.Native.Nat.{ℕ, zero, suc, ◌+◌, ◌-◌, ◌≤◌, ◌<◌}
use mathlib.Core.Path.{◌≡◌, refl, ap, ◌∙◌}
use mathlib.Core.Logic.{inl, inr}
use mathlib.Core.Bool.{Bool, true, false}
use mathlib.Core.Option.{none, some}
use mathlib.Core.List.{List, [], ◌∷◌, ◌++◌, Sublistᴰ}
use mathlib.Core.List.Sublistᴰ.{slnil, cons, cons-cons}
use native.Mathlib.Omega.{arith}
use bomber_cli.Base.Tests.{Bool-cases, Option-cases}
use bomber_cli.Base.Lists.{length, get_elem?, set, take, drop, erase_at, index_of, ◌∈◌, All}

-- The relation holds of each element and each later one.
abbrev pub AllPairs : {A : Type 0} → (A → A → Type 0) → List A → Type 0
AllPairs R [] = Unit
AllPairs R (x ∷ xs) = All (R x) xs × AllPairs R xs

module _ {A : Type 0} where
  pub Sublist-refl : (xs : List A) → Sublistᴰ xs xs
  Sublist-refl [] = slnil
  Sublist-refl (x ∷ xs) = cons-cons refl (Sublist-refl xs)

  pub Sublist-trans :
      {ys zs : List A} → Sublistᴰ ys zs → {xs : List A} → Sublistᴰ xs ys → Sublistᴰ xs zs
  Sublist-trans slnil s = s
  Sublist-trans (cons t) s = cons (Sublist-trans t s)
  Sublist-trans (cons-cons e t) (cons s) = cons (Sublist-trans t s)
  Sublist-trans (cons-cons e t) (cons-cons d s) = cons-cons (d ∙ e) (Sublist-trans t s)

  pub length-Sublist : {xs ys : List A} → Sublistᴰ xs ys → length xs ≤ length ys
  length-Sublist slnil = omega arith
  length-Sublist (cons s) = omega (arith, length-Sublist s)
  length-Sublist (cons-cons _ s) = omega (arith, length-Sublist s)

  pub All-Sublist : (P : A → Type 0) {xs ys : List A} → Sublistᴰ xs ys → All P ys → All P xs
  All-Sublist P slnil h = h
  All-Sublist P (cons s) h = All-Sublist P s h.1
  All-Sublist P (cons-cons e s) h = (rw e h.0, All-Sublist P s h.1)

  pub AllPairs-Sublist :
      (R : A → A → Type 0) {xs ys : List A} → Sublistᴰ xs ys → AllPairs R ys → AllPairs R xs
  AllPairs-Sublist R slnil h = h
  AllPairs-Sublist R (cons s) h = AllPairs-Sublist R s h.1
  AllPairs-Sublist R (cons-cons {b = b} e s) h =
      (rw e (All-Sublist (R b) s h.0), AllPairs-Sublist R s h.1)

  pub erase_at-Sublist : (i : ℕ) (xs : List A) → Sublistᴰ (erase_at i xs) xs
  erase_at-Sublist i [] = slnil
  erase_at-Sublist zero (x ∷ xs) = cons (Sublist-refl xs)
  erase_at-Sublist (suc i) (x ∷ xs) = cons-cons refl (erase_at-Sublist i xs)

  module _ (P : A → Type 0) where
    pub All-get : (xs : List A) (i : ℕ) {a : A} → All P xs → get_elem? xs i ≡ some a → P a
    All-get [] i h e = cc
    All-get (x ∷ xs) zero h e = ground (arith)
    All-get (x ∷ xs) (suc i) h e = All-get xs i h.1 e

    pub All-set : (xs : List A) (i : ℕ) {a : A} → All P xs → P a → All P (set xs i a)
    All-set [] i h p = h
    All-set (x ∷ xs) zero h p = (p, h.1)
    All-set (x ∷ xs) (suc i) h p = (h.0, All-set xs i h.1 p)

    pub All-mem : (xs : List A) {a : A} → All P xs → a ∈ xs → P a
    All-mem [] h m = absurd m
    All-mem (x ∷ xs) h (inl e) = rw e h.0
    All-mem (x ∷ xs) h (inr m) = All-mem xs h.1 m

    pub All-snoc : (xs : List A) {a : A} → All P xs → P a → All P (xs ++ a ∷ [])
    All-snoc [] h p = (p, tt)
    All-snoc (x ∷ xs) h p = (h.0, All-snoc xs h.1 p)

  pub All-map : (P Q : A → Type 0) (xs : List A) → ((a : A) → P a → Q a) → All P xs → All Q xs
  All-map P Q [] f h = tt
  All-map P Q (x ∷ xs) f h = (f x h.0, All-map P Q xs f h.1)

  pub All-const : (P : A → Type 0) (xs : List A) → ((a : A) → P a) → All P xs
  All-const P [] h = tt
  All-const P (x ∷ xs) h = (h x, All-const P xs h)

  pub All-both : (P Q : A → Type 0) (xs : List A) → All P xs → All Q xs → All (λ a. P a × Q a) xs
  All-both P Q [] h k = tt
  All-both P Q (x ∷ xs) h k = ((h.0, k.0), All-both P Q xs h.1 k.1)

  -- In a list of pairwise related elements, the others are related to the one taken out.
  pub All-erase_at :
      (R : A → A → Type 0) (xs : List A) (i : ℕ) {a : A}
      → ((x y : A) → R x y → R y x)
      → AllPairs R xs
      → get_elem? xs i ≡ some a
      → All (R a) (erase_at i xs)
  All-erase_at R [] i s h e = tt
  All-erase_at R (x ∷ xs) zero {a} s h e = let same : a ≡ x = cc in rw same h.0
  All-erase_at R (x ∷ xs) (suc i) {a} s h e =
      (s x a (All-get (R x) xs i h.0 e), All-erase_at R xs i s h.1 e)

  pub AllPairs-snoc :
      (R : A → A → Type 0) (xs : List A) (a : A)
      → AllPairs R xs
      → All (λ x. R x a) xs
      → AllPairs R (xs ++ a ∷ [])
  AllPairs-snoc R [] a h p = (tt, tt)
  AllPairs-snoc R (x ∷ xs) a h p = (All-snoc (R x) xs h.0 p.0, AllPairs-snoc R xs a h.1 p.1)

module _ {ℓ} {A : Type ℓ} where
  pub length-take : (n : ℕ) (xs : List A) → n ≤ length xs → length (take n xs) ≡ n
  length-take zero xs h = refl
  length-take (suc n) [] h = absurd (omega arith)
  length-take (suc n) (x ∷ xs) h = ap suc (length-take n xs (omega arith))

  pub length-drop : (n : ℕ) (xs : List A) → length (drop n xs) ≡ length xs - n
  length-drop zero xs = omega arith
  length-drop (suc n) [] = omega arith
  length-drop (suc n) (x ∷ xs) = omega (arith, length-drop n xs)

  pub length-erase_at :
      (i : ℕ) (xs : List A) → i < length xs → length (erase_at i xs) + 1 ≡ length xs
  length-erase_at i [] h = elim h [ ]
  length-erase_at zero (x ∷ xs) h = omega arith
  length-erase_at (suc i) (x ∷ xs) h = omega (arith, length-erase_at i xs (omega arith))

  pub get_elem?-take : (n i : ℕ) (xs : List A) → i < n → get_elem? (take n xs) i ≡ get_elem? xs i
  get_elem?-take zero i xs h = elim h [ ]
  get_elem?-take (suc n) i [] h = refl
  get_elem?-take (suc n) zero (x ∷ xs) h = refl
  get_elem?-take (suc n) (suc i) (x ∷ xs) h = get_elem?-take n i xs (omega arith)

  pub get_elem?-some-lt : (xs : List A) (i : ℕ) {a : A} → get_elem? xs i ≡ some a → i < length xs
  get_elem?-some-lt [] i e = cc
  get_elem?-some-lt (x ∷ xs) zero e = omega arith
  get_elem?-some-lt (x ∷ xs) (suc i) e = omega (arith, get_elem?-some-lt xs i e)

  pub take-set : (n : ℕ) (xs : List A) (a : A) → take n (set xs n a) ≡ take n xs
  take-set zero xs a = refl
  take-set (suc n) [] a = refl
  take-set (suc n) (x ∷ xs) a = ap (◌∷◌ x) (take-set n xs a)

  -- A write just behind a prefix extends it.
  pub take-suc-set :
      (n : ℕ) (xs : List A) (a : A)
      → n < length xs
      → take (suc n) (set xs n a) ≡ take n xs ++ a ∷ []
  take-suc-set n [] a h = elim h [ ]
  take-suc-set zero (x ∷ xs) a h = refl
  take-suc-set (suc n) (x ∷ xs) a h = ap (◌∷◌ x) (take-suc-set n xs a (omega arith))

  pub index_of-some :
      (test : A → Bool) (xs : List A) (i : ℕ)
      → index_of test xs ≡ some i
      → (a : A) × (get_elem? xs i ≡ some a) × (test a ≡ true) × (i < length xs)
  unfolding index_of
  index_of-some test [] i h = cc
  index_of-some test (x ∷ xs) i h = elim (Bool-cases (test x)) [
    | inl hit ↦ let e : i ≡ 0 = ground arith in rw e (x, refl, hit, omega arith)
    | inr miss ↦ elim (Option-cases (index_of test xs)) [
      | inl e ↦ absurd (ground arith)
      | inr (j, e) ↦
          let (a, at, hit, lt) = index_of-some test xs j e in
          let same : i ≡ suc j = ground arith in rw same (a, at, hit, omega arith)
    ]
  ]

module _ {A : Type 0} where
  pub index_of-none :
      (test : A → Bool) (xs : List A) → index_of test xs ≡ none → All (λ x. test x ≡ false) xs
  unfolding index_of
  index_of-none test [] h = tt
  index_of-none test (x ∷ xs) h = elim (Bool-cases (test x)) [
    | inl hit ↦ absurd (ground arith)
    | inr miss ↦ (
      miss,
      index_of-none test xs (elim (Option-cases (index_of test xs)) [
        | inl e ↦ e
        | inr (j, e) ↦ absurd (ground arith)
      ]),
    )
  ]

  pub All-of-get :
      (P : A → Type 0) (xs : List A) → ((i : ℕ) (a : A) → get_elem? xs i ≡ some a → P a) → All P xs
  All-of-get P [] h = tt
  All-of-get P (x ∷ xs) h = (h 0 x refl, All-of-get P xs (λ i a e. h (suc i) a e))

  pub mem-get : (xs : List A) (i : ℕ) {a : A} → get_elem? xs i ≡ some a → a ∈ xs
  mem-get [] i e = absurd (cc)
  mem-get (x ∷ xs) zero e = inl (cc)
  mem-get (x ∷ xs) (suc i) e = inr (mem-get xs i e)
