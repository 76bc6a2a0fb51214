-- ===== src/Room/Seats.antt =====
-- The four seats of a room, as the identifiers of their members: 0 is a free seat.
use bomber_cli.Base.{
  ◌∈◌, some_inj, Text, codes, ◌++◌, ℕ, zero, suc, ◌+◌, ◌≤◌, ◌==◌, ◌≡◌, refl, ap, ◌∙◌, ◌≢◌, ◌⊎◌, inl,
  inr, arith, if◌then◌else◌, false, not, some, List, [], ◌∷◌, map, length, get_elem?, set, All,
  AllPairs, All-set, All-map, ◌&&◌, Bool-cases,
}
use bomber_cli.Game.Types.{max_players}
use bomber_cli.Room.Types.{Member, Snapshot}
use bomber_cli.Room.Rules.{unready, rewarded}

abbrev pub seats : List Member → List ℕ
seats ms = map (λ m. m.id) ms

abbrev pub taken : List ℕ → ℕ
taken [] = 0
taken (i ∷ is) = (if i == 0 then 0 else 1) + taken is

abbrev pub Differ : ℕ → ℕ → Type 0
Differ a b = (a ≡ 0) ⊎ (a ≢ b)

-- A room has four seats, counts its members, and holds no member twice.
pub record IsSeated (s : Snapshot) : Type 0 where
  pub four : length (seats s.members) ≡ max_players
  pub counted : s.count ≡ taken (seats s.members)
  pub apart : AllPairs Differ (seats s.members)

pub seats-set : (ms : List Member) (i : ℕ) (m : Member) → seats (set ms i m) ≡ set (seats ms) i m.id
seats-set [] i m = refl
seats-set (x ∷ ms) zero m = refl
seats-set (x ∷ ms) (suc i) m = ap (◌∷◌ x.id) (seats-set ms i m)

pub seats-unready : (ms : List Member) → seats (map unready ms) ≡ seats ms
seats-unready [] = refl
seats-unready (m ∷ ms) = ap (◌∷◌ m.id) (seats-unready ms)

pub seats-rewarded :
    (ms : List Member) (winner : ℕ) (message : Text)
    → seats (rewarded ms winner message).0 ≡ seats ms
unfolding rewarded
seats-rewarded [] winner message = refl
seats-rewarded (m ∷ ms) winner message = elim (Bool-cases (not (m.id == 0) && m.id == winner)) [
  | inl e ↦ rw e (ap (◌∷◌ m.id) (seats-rewarded ms winner (m.name ++ codes " wins!")))
  | inr e ↦ rw e (ap (◌∷◌ m.id) (seats-rewarded ms winner message))
]

set_same : {A : Type 0} (xs : List A) (i : ℕ) {a : A} → get_elem? xs i ≡ some a → set xs i a ≡ xs
set_same [] i e = refl
set_same (x ∷ xs) zero e = cc
set_same (x ∷ xs) (suc i) e = ap (◌∷◌ x) (set_same xs i e)

pub get_elem?-seats :
    (ms : List Member) (i : ℕ) {m : Member}
    → get_elem? ms i ≡ some m
    → get_elem? (seats ms) i ≡ some m.id
get_elem?-seats [] i e = cc
get_elem?-seats (x ∷ ms) zero e = cc
get_elem?-seats (x ∷ ms) (suc i) e = get_elem?-seats ms i e

-- A member that changes, and keeps the identifier.
pub seats-set_same :
    (ms : List Member) (i : ℕ) (m m' : Member)
    → get_elem? ms i ≡ some m
    → m'.id ≡ m.id
    → seats (set ms i m') ≡ seats ms
seats-set_same ms i m m' e same =
    seats-set ms i m' ∙ ap (set (seats ms) i) same ∙ set_same (seats ms) i (get_elem?-seats ms i e)

pub AllPairs-set :
    {A : Type 0} (R : A → A → Type 0) (xs : List A) (i : ℕ) (a : A)
    → AllPairs R xs
    → All (λ x. R a x × R x a) xs
    → AllPairs R (set xs i a)
AllPairs-set R [] i a h k = h
AllPairs-set R (x ∷ xs) zero a h k = (All-map (λ y. R a y × R y a) (R a) xs (λ y p. p.0) k.1, h.1)
AllPairs-set R (x ∷ xs) (suc i) a h k =
    (All-set (R x) xs i h.0 k.0.1, AllPairs-set R xs i a h.1 k.1)

pub taken-set_in :
    (xs : List ℕ) (i a : ℕ) → get_elem? xs i ≡ some 0 → a ≢ 0 → taken (set xs i a) ≡ taken xs + 1
taken-set_in [] i a e n = absurd (cc)
taken-set_in (x ∷ xs) zero a e n = ground arith
taken-set_in (x ∷ xs) (suc i) a e n = omega (arith, taken-set_in xs i a e n)

pub taken-set_out :
    (xs : List ℕ) (i a : ℕ) → get_elem? xs i ≡ some a → a ≢ 0 → taken (set xs i 0) + 1 ≡ taken xs
taken-set_out [] i a e n = absurd (cc)
taken-set_out (x ∷ xs) zero a e n = ground arith
taken-set_out (x ∷ xs) (suc i) a e n = omega (arith, taken-set_out xs i a e n)

-- The seat of nobody else.
pub All-Differ :
    (a : ℕ) (ms : List Member)
    → a ≢ 0
    → All (λ m. (m.id == a) ≡ false) ms
    → All (λ x. Differ a x × Differ x a) (seats ms)
All-Differ a [] n h = tt
All-Differ a (m ∷ ms) n h = ((inr (ground arith), inr (ground arith)), All-Differ a ms n h.1)

pub All-Differ_zero : (xs : List ℕ) → All (λ x. Differ 0 x × Differ x 0) xs
All-Differ_zero [] = tt
All-Differ_zero (x ∷ xs) = ((inl refl, ground arith), All-Differ_zero xs)

pub free_or_full :
    (ms : List Member) → All (λ m. (m.id == 0) ≡ false) ms → taken (seats ms) ≡ length (seats ms)
free_or_full [] h = refl
free_or_full (m ∷ ms) h = ground (arith, free_or_full ms h.1)

pub taken-bound : (xs : List ℕ) → taken xs ≤ length xs
taken-bound [] = omega arith
taken-bound (x ∷ xs) = ground (arith, taken-bound xs)

-- The same members sit in the same seats.
abbrev pub SameSeats : Snapshot → Snapshot → Type 0
SameSeats s t = (seats t.members ≡ seats s.members) × (t.count ≡ s.count)

pub SameSeats-trans : (s t u : Snapshot) → SameSeats s t → SameSeats t u → SameSeats s u
SameSeats-trans s t u (e, c) (e', c') = (e' ∙ e, c' ∙ c)

-- One free seat is taken by `id`, and `id` gives up its seat, if it has one.
abbrev pub Fills : ℕ → List ℕ → List ℕ → Type 0
Fills id xs ys = (i : ℕ) × (get_elem? xs i ≡ some 0) × (ys ≡ set xs i id)

abbrev pub Frees : ℕ → List ℕ → List ℕ → Type 0
Frees id xs ys = (ys ≡ xs) ⊎ ((i : ℕ) × (get_elem? xs i ≡ some id) × (ys ≡ set xs i 0))

-- What stays in a list when one place changes.
pub in-set :
    (xs : List ℕ) (i k x : ℕ) {a : ℕ} → get_elem? xs i ≡ some a → x ≢ a → x ∈ xs → x ∈ set xs i k
in-set [] i k x e n m = absurd m
in-set (y ∷ xs) zero k x {a} e n (inl h) = absurd (n (h ∙ some_inj e))
in-set (y ∷ xs) zero k x e n (inr m) = inr m
in-set (y ∷ xs) (suc i) k x e n (inl h) = inl h
in-set (y ∷ xs) (suc i) k x e n (inr m) = inr (in-set xs i k x e n m)

pub set-in : (xs : List ℕ) (i k : ℕ) {a : ℕ} → get_elem? xs i ≡ some a → k ∈ set xs i k
set-in [] i k e = absurd (cc)
set-in (y ∷ xs) zero k e = inl refl
set-in (y ∷ xs) (suc i) k e = inr (set-in xs i k e)

-- Where no seat is taken, nobody sits.
pub taken-zero : (xs : List ℕ) (x : ℕ) → taken xs ≡ 0 → x ∈ xs → x ≡ 0
taken-zero [] x e m = absurd m
taken-zero (y ∷ xs) x e (inl h) = elim (Bool-cases (y == 0)) [
  | inl z ↦ ground (arith, h, z)
  | inr n ↦ absurd (ground (arith, e, n))
]
taken-zero (y ∷ xs) x e (inr m) =
    let rest : taken xs ≡ 0 = ground (arith, e) in taken-zero xs x rest m

pub All-members : (P : ℕ → Type 0) (ms : List Member) → All (λ m. P m.id) ms → All P (seats ms)
All-members P [] h = tt
All-members P (m ∷ ms) h = (h.0, All-members P ms h.1)
