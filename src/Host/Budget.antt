-- ===== src/Host/Budget.antt =====
-- The byte budget of internal/host/limits.go. A token is counted in parts of a second: `second` parts
-- make one byte, and `rate` parts come with each nanosecond. The code counts in float64; here the sums
-- are exact. The clock is monotonic, so that `now` never lies before `updated`.
use native.Mathlib.Nat.{add-mul}
use bomber_cli.Base.{
  ℕ, ◌+◌, ◌-◌, ◌*◌, ◌≤◌, min, ltb, ◌≡◌, refl, ap, ◌∙◌, inl, inr, arith, if◌then◌else◌, Bool, true,
  false, List, [], ◌∷◌, Bool-cases,
}
use bomber_cli.Game.Types.{second}

pub record ByteBudget : Type 0 where
  pub rate : ℕ
  pub burst : ℕ
  pub tokens : ℕ
  pub updated : ℕ

abbrev pub new_byte_budget : ℕ → ℕ → ℕ → ByteBudget
new_byte_budget rate burst now = record {
  rate = rate;
  burst = burst;
  tokens = burst * second;
  updated = now;
}

-- The budget at `now`, before anything is taken.
abbrev pub refilled : ℕ → ByteBudget → ByteBudget
refilled now b = record b {
  tokens = min (b.burst * second) (b.tokens + (now - b.updated) * b.rate);
  updated = now;
}

unfoldable pub allow : ℕ → ℕ → ByteBudget → ByteBudget × Bool
allow n now b =
    let b' = refilled now b in
    if ltb b'.tokens (n * second)
    then (b', false)
    else (record b' { tokens = b'.tokens - n * second }, true)

-- Calls at their times, and the bytes that were allowed in all.
unfoldable pub allowed : List (ℕ × ℕ) → ByteBudget → ByteBudget × ℕ
allowed [] b = (b, 0)
allowed ((n, now) ∷ calls) b =
    let (b', granted) = allow n now b in
    let (b'', more) = allowed calls b' in (b'', (if granted then n else 0) + more)

-- The times of the calls do not go back.
abbrev pub IsOrdered : ℕ → List (ℕ × ℕ) → Type 0
IsOrdered t [] = Unit {0}
IsOrdered t ((n, now) ∷ calls) = (t ≤ now) × IsOrdered now calls

-- What one call takes.
pub record Charged (n now : ℕ) (b : ByteBudget) (q : ByteBudget × Bool) : Type 0 where
  pub rate : q.0.rate ≡ b.rate
  pub burst : q.0.burst ≡ b.burst
  pub updated : q.0.updated ≡ now
  pub few : q.0.tokens ≤ b.burst * second
  pub paid : (if q.1 then n else 0) * second + q.0.tokens ≤ b.tokens + (now - b.updated) * b.rate

allow-Charged : (n now : ℕ) (b : ByteBudget) → Charged n now b (allow n now b)
unfolding allow
allow-Charged n now b = elim (Bool-cases (ltb (refilled now b).tokens (n * second))) [
  | inl e ↦
      rw e (record {
        rate = refl;
        burst = refl;
        updated = refl;
        few = omega arith;
        paid = omega arith;
      })
  | inr e ↦ rw e (record {
    rate = refl;
    burst = refl;
    updated = refl;
    few = omega arith;
    paid = ground (arith, e);
  })
]

-- The bytes and the tokens that a budget may lead to.
abbrev Affords : ByteBudget → ByteBudget × ℕ → Type 0
Affords b (b', bytes) =
    (bytes * second + b'.tokens ≤ b.tokens + (b'.updated - b.updated) * b.rate)
    × (b'.tokens ≤ b.burst * second)
    × (b.updated ≤ b'.updated)

Affords-Charged :
    (n now : ℕ) (b : ByteBudget) (q : ByteBudget × Bool)
    → b.updated ≤ now
    → Charged n now b q
    → (b'' : ByteBudget) (more : ℕ) → Affords q.0 (b'', more)
    → Affords b (b'', (if q.1 then n else 0) + more)
Affords-Charged n now b (b', granted) later c b'' more (total, small, on) =
    let split : (b''.updated - b.updated) * b.rate
        ≡ (now - b.updated) * b.rate + (b''.updated - now) * b.rate =
      ap (λ k. k * b.rate) whole ∙ add-mul (now - b.updated) (b''.updated - now) b.rate in
    let share = add-mul (if granted then n else 0) more second in
    let rest : more * second + b''.tokens ≤ b'.tokens + (b''.updated - now) * b.rate =
      (rw (c.updated, c.rate) at total) in
    (
      omega (arith, split, share, rest, c.paid),
      (rw (c.burst) at small),
      omega (arith, c.updated, later, on),
    )
  where
    whole : b''.updated - b.updated ≡ (now - b.updated) + (b''.updated - now)
    whole = omega (arith, c.updated, later, on)

-- From a budget that is not above its burst, over any calls in the order of time: the bytes that are
-- allowed and the tokens that are left come to at most the tokens at first and the rate for the time
-- that has passed, and the budget is not above its burst.
pub allowed-Affords :
    (calls : List (ℕ × ℕ)) (b : ByteBudget)
    → IsOrdered b.updated calls
    → b.tokens ≤ b.burst * second
    → let (b', bytes) = allowed calls b in
      (bytes * second + b'.tokens ≤ b.tokens + (b'.updated - b.updated) * b.rate)
      × (b'.tokens ≤ b.burst * second)
      × (b.updated ≤ b'.updated)
unfolding allowed
allowed-Affords [] b o few = (omega arith, few, omega arith)
allowed-Affords ((n, now) ∷ calls) b (later, o) few =
    let c = allow-Charged n now b in
    let rest = allowed calls (allow n now b).0 in
    Affords-Charged n now b (allow n now b) later c rest.0 rest.1
      (allowed-Affords calls (allow n now b).0 (rw (c.updated) o) (rw (c.burst) (c.few)))
