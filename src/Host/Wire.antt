-- ===== src/Host/Wire.antt =====
-- The reads and writes of a connection in internal/host/limits.go. What the connection of the operating
-- system answers is an argument: how many bytes a read or a write came to, and whether it failed.
use bomber_cli.Base.{
  ℕ, ◌+◌, ◌-◌, ◌*◌, ◌≤◌, ◌≡◌, refl, arith, Bool, true, false, ◌||◌, Option, none, some, List, [],
  ◌∷◌, if◌then◌else◌,
}
use bomber_cli.Game.Types.{second}
use bomber_cli.Host.Budget.{ByteBudget, new_byte_budget, allow, allowed, IsOrdered, allowed-Affords}

pub record Wire : Type 0 where
  pub read_deadline : Option ℕ
  pub write_deadline : Option ℕ
  pub ingress : ByteBudget
  pub closed : Bool

abbrev pub new_wire : ByteBudget → Wire
new_wire ingress = record {
  read_deadline = none;
  write_deadline = none;
  ingress = ingress;
  closed = false;
}

-- `SetDeadline`, which the SSH library calls before every read and write.
abbrev pub set_deadline : Option ℕ → Wire → Wire
set_deadline t w = record w { read_deadline = t }

-- `Read` of `n` bytes; the bytes that the library gets.
abbrev pub read_limited : ℕ → Wire → ByteBudget × Bool → Wire × ℕ
read_limited n w (b, true) = (record w { ingress = b }, n)
read_limited n w (b, false) = (record w { ingress = b; closed = true }, 0)

unfoldable pub read_wire : ℕ → ℕ → Wire → Wire × ℕ
read_wire now n w = read_limited n w (allow n now w.ingress)

-- `Write`; `refused` says that there is no deadline to set, and `failed` that the write failed.
unfoldable pub write_wire : ℕ → Bool → Bool → Wire → Wire
write_wire now refused failed w =
    if refused
    then w
    else (record w { write_deadline = some (now + 15 * second); closed = failed || w.closed })

-- What happens on a connection.
pub data Traffic : Type 0 where
  deadline_set : Option ℕ → Traffic
  bytes_came : ℕ → ℕ → Traffic
  written : ℕ → Bool → Bool → Traffic

-- The connection, and the bytes that came through.
abbrev pub pass : List Traffic → Wire → Wire × ℕ
pass [] w = (w, 0)
pass (deadline_set t ∷ vs) w = pass vs (set_deadline t w)
pass (bytes_came now n ∷ vs) w =
    let (w', m) = read_wire now n w in let (w'', more) = pass vs w' in (w'', m + more)
pass (written now refused failed ∷ vs) w = pass vs (write_wire now refused failed w)

-- The reads, with their sizes and times.
abbrev pub reads_of : List Traffic → List (ℕ × ℕ)
reads_of [] = []
reads_of (deadline_set t ∷ vs) = reads_of vs
reads_of (bytes_came now n ∷ vs) = (n, now) ∷ reads_of vs
reads_of (written now refused failed ∷ vs) = reads_of vs

abbrev pub bytes_in : List (ℕ × ℕ) → ℕ
bytes_in [] = 0
bytes_in ((n, now) ∷ calls) = n + bytes_in calls

-- The deadline of the last write that could set one, or the one before.
abbrev pub last_deadline : Option ℕ → List Traffic → Option ℕ
last_deadline d [] = d
last_deadline d (deadline_set t ∷ vs) = last_deadline d vs
last_deadline d (bytes_came now n ∷ vs) = last_deadline d vs
last_deadline d (written now true failed ∷ vs) = last_deadline d vs
last_deadline d (written now false failed ∷ vs) = last_deadline (some (now + 15 * second)) vs

-- A connection after some traffic.
pub record Passed (vs : List Traffic) (w : Wire) (q : Wire × ℕ) : Type 0 where
  pub budget : q.0.ingress ≡ (allowed (reads_of vs) w.ingress).0
  pub bytes : q.1 ≡ (allowed (reads_of vs) w.ingress).1
  pub deadline : q.0.write_deadline ≡ last_deadline w.write_deadline vs
  pub complete : q.0.closed ≡ false → q.1 ≡ bytes_in (reads_of vs)
  pub stays_closed : w.closed ≡ true → q.0.closed ≡ true

allowed_step :
    (n now : ℕ) (calls : List (ℕ × ℕ)) (b : ByteBudget) (q : ByteBudget × Bool)
    → allow n now b ≡ q
    → allowed ((n, now) ∷ calls) b
      ≡ ((allowed calls q.0).0, (if q.1 then n else 0) + (allowed calls q.0).1)
unfolding allowed
allowed_step n now calls b q e = rw e refl

pass_step :
    (n now : ℕ) (vs : List Traffic) (w : Wire) (q : ByteBudget × Bool)
    → allow n now w.ingress ≡ q
    → pass (bytes_came now n ∷ vs) w ≡ (
      (pass vs (read_limited n w q).0).0,
      (read_limited n w q).1 + (pass vs (read_limited n w q).0).1,
    )
unfolding read_wire
pass_step n now vs w q e = rw e refl

read-Passed :
    (now n : ℕ) (vs : List Traffic) (w : Wire) (q : ByteBudget × Bool)
    → allow n now w.ingress ≡ q
    → ((v : Wire) → Passed vs v (pass vs v))
    → Passed (bytes_came now n ∷ vs) w (pass (bytes_came now n ∷ vs) w)
read-Passed now n vs w (b, true) e rest =
    let p = rest (record w { ingress = b }) in
    rw (pass_step n now vs w (b, true) e) (record {
      budget = rw (allowed_step n now (reads_of vs) w.ingress (b, true) e) p.budget;
      bytes = rw (allowed_step n now (reads_of vs) w.ingress (b, true) e) (omega (arith, p.bytes));
      deadline = p.deadline;
      complete = λ c. omega (arith, p.complete c);
      stays_closed = p.stays_closed;
    })
read-Passed now n vs w (b, false) e rest =
    let p = rest (record w { ingress = b; closed = true }) in
    rw (pass_step n now vs w (b, false) e) (record {
      budget = rw (allowed_step n now (reads_of vs) w.ingress (b, false) e) p.budget;
      bytes = rw (allowed_step n now (reads_of vs) w.ingress (b, false) e) (omega (arith, p.bytes));
      deadline = p.deadline;
      complete = λ c. absurd (cc (p.stays_closed refl, c));
      stays_closed = λ _. p.stays_closed refl;
    })

pass-Passed : (vs : List Traffic) (w : Wire) → Passed vs w (pass vs w)
unfolding allowed read_wire write_wire
pass-Passed [] w = record {
  budget = refl;
  bytes = refl;
  deadline = refl;
  complete = λ _. refl;
  stays_closed = λ e. e;
}
pass-Passed (deadline_set t ∷ vs) w =
    let p = pass-Passed vs (set_deadline t w) in
    record {
      budget = p.budget;
      bytes = p.bytes;
      deadline = p.deadline;
      complete = p.complete;
      stays_closed = p.stays_closed;
    }
pass-Passed (written now true failed ∷ vs) w =
    let p = pass-Passed vs w in
    record {
      budget = p.budget;
      bytes = p.bytes;
      deadline = p.deadline;
      complete = p.complete;
      stays_closed = p.stays_closed;
    }
pass-Passed (written now false failed ∷ vs) w =
    let p = pass-Passed vs (write_wire now false failed w) in
    record {
      budget = p.budget;
      bytes = p.bytes;
      deadline = p.deadline;
      complete = p.complete;
      stays_closed = λ e. p.stays_closed (either failed e);
    }
  where
    either : (b : Bool) → w.closed ≡ true → (b || w.closed) ≡ true
    either true e = refl
    either false e = e
pass-Passed (bytes_came now n ∷ vs) w =
    read-Passed now n vs w (allow n now w.ingress) refl (λ v. pass-Passed vs v)

-- Over any traffic on a new connection, in the order of time: the bytes that come through are at most
-- the burst and the rate for the time until the last read, and as long as the connection is not
-- closed every byte that was read comes through. The deadline for writing is
-- that of the last write, 15 seconds after its start, whatever is read and whatever deadlines the
-- library sets.
pub pass-IsGuarded :
    (rate burst now : ℕ) (vs : List Traffic)
    → IsOrdered now (reads_of vs)
    → let (w, bytes) = pass vs (new_wire (new_byte_budget rate burst now)) in
      (bytes * second ≤ burst * second + (w.ingress.updated - now) * rate)
      × (w.closed ≡ false → bytes ≡ bytes_in (reads_of vs))
      × (w.write_deadline ≡ last_deadline none vs)
pass-IsGuarded rate burst now vs o =
    let b = new_byte_budget rate burst now in
    let p = pass-Passed vs (new_wire b) in
    let (total, small, on) = allowed-Affords (reads_of vs) b o (omega arith) in
    ((rw p.bytes rw p.budget (omega (arith, total))), p.complete, p.deadline)
