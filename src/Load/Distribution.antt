-- ===== src/Load/Distribution.antt =====
-- The latencies that the load test measures. A latency is a number of nanoseconds, where the code has a
-- float64 of milliseconds, and the mean is kept as the total and the count.
use bomber_cli.Base.{
  ℕ, suc, zero, ◌+◌, ◌-◌, ◌*◌, ◌/◌, ◌<◌, ◌≤◌, leb, ◌≡◌, refl, ap, ◌∙◌, inl, inr, arith, Option,
  none, some, List, [], ◌∷◌, length, get_elem?, get_elem?-lt, get_elem?-some-lt, All, All-get,
  AllPairs, Bool-cases, or_panic, Result, ok, ◌>>=◌, Returns, Returns-ok, Returns-map, All-of-get,
}
use bomber_cli.Room.Hub.{insert_id}
use bomber_cli.Room.Hub.Listing.{insert_id-sorted, length-insert_id}

pub record Distribution : Type 0 where
  pub count : ℕ
  pub total : ℕ
  pub p50 : ℕ
  pub p95 : ℕ
  pub p99 : ℕ
  pub max : ℕ

-- slices.Sort
abbrev pub sorted : List ℕ → List ℕ
sorted [] = []
sorted (x ∷ xs) = insert_id x (sorted xs)

abbrev pub sum : List ℕ → ℕ
sum [] = 0
sum (x ∷ xs) = x + sum xs

-- samples[(len(samples)-1)*part/100]
abbrev pub percentile : ℕ → List ℕ → Result ℕ
percentile part xs = or_panic (get_elem? xs ((length xs - 1) * part / 100))

abbrev pub of_sorted : List ℕ → Result (Option Distribution)
of_sorted xs = do
  p50 ← percentile 50 xs
  p95 ← percentile 95 xs
  p99 ← percentile 99 xs
  max ← or_panic (get_elem? xs (length xs - 1))
  ok (
      some
        (record { count = length xs; total = sum xs; p50 = p50; p95 = p95; p99 = p99; max = max }))

-- None if there is no sample.
unfoldable pub distribution : List ℕ → Result (Option Distribution)
distribution [] = ok none
distribution (x ∷ xs) = of_sorted (sorted (x ∷ xs))

sorted-sorted : (xs : List ℕ) → AllPairs (λ j k. j ≤ k) (sorted xs)
sorted-sorted [] = tt
sorted-sorted (x ∷ xs) = insert_id-sorted x (sorted xs) (sorted-sorted xs)

length-sorted : (xs : List ℕ) → length (sorted xs) ≡ length xs
length-sorted [] = refl
length-sorted (x ∷ xs) = length-insert_id x (sorted xs) ∙ ap suc (length-sorted xs)

sum-insert_id : (x : ℕ) (xs : List ℕ) → sum (insert_id x xs) ≡ x + sum xs
sum-insert_id x [] = refl
sum-insert_id x (y ∷ xs) = elim (Bool-cases (leb x y)) [
  | inl e ↦ rw e refl
  | inr e ↦ rw e (omega (arith, sum-insert_id x xs))
]

sum-sorted : (xs : List ℕ) → sum (sorted xs) ≡ sum xs
sum-sorted [] = refl
sum-sorted (x ∷ xs) = omega (arith, sum-insert_id x (sorted xs), sum-sorted xs)

All-insert_id : (P : ℕ → Type 0) (x : ℕ) (xs : List ℕ) → All P (insert_id x xs) → P x × All P xs
All-insert_id P x [] h = h
All-insert_id P x (y ∷ xs) h = elim (Bool-cases (leb x y)) [
  | inl e ↦ (rw e at h)
  | inr e ↦
      let h' : P y × All P (insert_id x xs) = rw e at h in
      let (here, rest) = All-insert_id P x xs h'.1 in (here, (h'.0, rest))
]

All-sorted : (P : ℕ → Type 0) (xs : List ℕ) → All P (sorted xs) → All P xs
All-sorted P [] h = tt
All-sorted P (x ∷ xs) h =
    let (here, rest) = All-insert_id P x (sorted xs) h in (here, All-sorted P xs rest)

-- In a sorted list a later element is not smaller.
get_mono :
    (xs : List ℕ) (i j : ℕ) {a b : ℕ}
    → AllPairs (λ j k. j ≤ k) xs
    → i ≤ j
    → get_elem? xs i ≡ some a
    → get_elem? xs j ≡ some b
    → a ≤ b
get_mono [] i j h l e f = cc
get_mono (x ∷ xs) zero zero h l e f = ground (arith, e, f)
get_mono (x ∷ xs) zero (suc j) {a} {b} h l e f =
    let low : x ≤ b = All-get (λ y. x ≤ y) xs j h.0 f in ground (arith, e, low)
get_mono (x ∷ xs) (suc i) zero h l e f = absurd (omega (arith, l))
get_mono (x ∷ xs) (suc i) (suc j) h l e f = get_mono xs i j h.1 (omega (arith, l)) e f

-- What a distribution says of samples.
pub record Describes (xs : List ℕ) (d : Distribution) : Type 0 where
  pub counted : d.count ≡ length xs
  pub added : d.total ≡ sum xs
  pub low : d.p50 ≤ d.p95
  pub middle : d.p95 ≤ d.p99
  pub high : d.p99 ≤ d.max
  pub above : All (λ x. x ≤ d.max) xs

of_sorted-Describes :
    (xs : List ℕ)
    → 0 < length xs
    → AllPairs (λ j k. j ≤ k) xs
    → Returns (λ o. (d : Distribution) × (o ≡ some d) × Describes xs d) (of_sorted xs)
of_sorted-Describes xs some_there h =
    let (a, at_a) = get_elem?-lt xs ((length xs - 1) * 50 / 100) (omega (arith, some_there)) in
    let (b, at_b) = get_elem?-lt xs ((length xs - 1) * 95 / 100) (omega (arith, some_there)) in
    let (c, at_c) = get_elem?-lt xs ((length xs - 1) * 99 / 100) (omega (arith, some_there)) in
    let (m, at_m) = get_elem?-lt xs (length xs - 1) (omega (arith, some_there)) in
    rw at_a rw at_b rw at_c rw at_m (
      Returns-ok _ (
        _,
        refl,
        record {
          counted = refl;
          added = refl;
          low = get_mono xs _ _ h (omega arith) at_a at_b;
          middle = get_mono xs _ _ h (omega arith) at_b at_c;
          high = get_mono xs _ _ h (omega arith) at_c at_m;
          above =
              All-of-get (λ x. x ≤ m) xs
                (λ i x at.
                  get_mono xs i (length xs - 1) h
                    (let lt = get_elem?-some-lt xs i at in omega (arith, lt)) at at_m);
        },
      ))

-- Of at least one sample, the distribution has the count and the total, its percentiles do not fall, and
-- no sample is above its maximum. Every index is in range.
pub distribution-Describes :
    (xs : List ℕ)
    → 0 < length xs
    → Returns (λ o. (d : Distribution) × (o ≡ some d) × Describes xs d) (distribution xs)
unfolding distribution
distribution-Describes [] h = absurd (omega (arith, h))
distribution-Describes (x ∷ xs) h =
    let all = x ∷ xs in
    Returns-map _ _
      (λ o (d, e, k). (
        d,
        e,
        record {
          counted = k.counted ∙ length-sorted all;
          added = k.added ∙ sum-sorted all;
          low = k.low;
          middle = k.middle;
          high = k.high;
          above = All-sorted (λ y. y ≤ d.max) all k.above;
        },
      ))
      (of_sorted-Describes (sorted all) (omega (arith, length-sorted all)) (sorted-sorted all))
