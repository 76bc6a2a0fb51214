-- ===== src/Host/Filter.antt =====
-- The loop that filters the requests of a session in internal/host/host.go. It takes requests from one
-- channel, and answers them or hands them to the SSH library through another. gossh.Unmarshal is a
-- parameter.
use bomber_cli.Base.{
  ℕ, ◌+◌, ◌≤◌, ◌≡◌, ◌⊎◌, refl, inl, inr, arith, Bool, true, false, Option, List, [], ◌∷◌, length,
  All, Text, Sublistᴰ, is_some, map,
}
use bomber_cli.Host.Requests.{
  PtyPayload, Handled, resized_to, rejected, forwarded, handle_request, handle_request-forwarded,
  IsForwarded,
}
use mathlib.Core.List.Sublistᴰ.{slnil, cons, cons-cons}

pub record Request : Type 0 where
  pub kind : Text
  pub payload : List ℕ

-- What a `select` of the loop takes: the context is done, the channel of requests is closed, or a
-- request arrives, for a terminal that is there or not. A request that is handed on is taken by the SSH
-- library, unless the context is done first.
pub data Turn : Type 0 where
  cancelled : Turn
  exhausted : Turn
  arrives : Bool → Bool → Request → Turn

-- What the loop has done: the requests that it handed on and answered, the one that nobody took, those
-- that it drained after its end, and whether the channel to the SSH library and the connection are closed.
pub record Filtered : Type 0 where
  pub handed_on : List Request
  pub answered : List (Request × Bool)
  pub given_up : List Request
  pub drained : List Request
  pub out_closed : Bool
  pub connection_closed : Bool

abbrev pub waiting : Filtered
waiting = record {
  handed_on = [];
  answered = [];
  given_up = [];
  drained = [];
  out_closed = false;
  connection_closed = false;
}

-- The requests of the turns.
abbrev pub requests_of : List Turn → List Request
requests_of [] = []
requests_of (cancelled ∷ ts) = requests_of ts
requests_of (exhausted ∷ ts) = requests_of ts
requests_of (arrives pty taken q ∷ ts) = q ∷ requests_of ts

-- `closeConnectionAndDrainRequests`, after the channel to the SSH library is closed.
abbrev pub finish : List Turn → Filtered
finish ts = record waiting { drained = requests_of ts; out_closed = true; connection_closed = true }

-- A request is answered, handed on, or given up at the end of the loop.
abbrev pub handled : Request → Bool → Handled → List Turn → Filtered → Filtered
handled q taken (resized_to w) ts rest = record rest { answered = (q, is_some w) ∷ rest.answered }
handled q taken rejected ts rest = record rest { answered = (q, false) ∷ rest.answered }
handled q true forwarded ts rest = record rest { handed_on = q ∷ rest.handed_on }
handled q false forwarded ts rest = record (finish ts) { given_up = q ∷ [] }

abbrev one : Bool → ℕ
one true = 1
one false = 0

-- How many of the requests pass a test.
abbrev pub count : (Request → Bool) → List Request → ℕ
count test [] = 0
count test (q ∷ qs) = one (test q) + count test qs

empty : (xs : List Request) → Sublistᴰ [] xs
empty [] = slnil
empty (x ∷ xs) = cons (empty xs)

module _ (unmarshal : List ℕ → Option PtyPayload) where
  unfoldable pub filter_requests : List Turn → Filtered
  filter_requests [] = waiting
  filter_requests (cancelled ∷ ts) = finish ts
  filter_requests (exhausted ∷ ts) = finish ts
  filter_requests (arrives pty taken q ∷ ts) =
      let rest = filter_requests ts in
      handled q taken (handle_request unmarshal pty q.kind q.payload) ts rest

  -- A turn that ends the loop.
  abbrev pub IsEnd : Turn → Type 0
  IsEnd cancelled = Unit {0}
  IsEnd exhausted = Unit {0}
  IsEnd (arrives pty taken q) = (taken ≡ false) × IsForwarded unmarshal q.kind q.payload

  -- Some turn ends the loop.
  abbrev pub Ends : List Turn → Type 0
  Ends [] = ⊥
  Ends (t ∷ ts) = IsEnd t ⊎ Ends ts

  -- Every request is accounted for. What is handed on is a part of what arrived, in its order.
  pub record Accounted (ts : List Turn) (f : Filtered) : Type 0 where
    pub counted :
        (test : Request → Bool)
        → count test f.handed_on
            + count test (map (λ (q, a). q) f.answered)
            + count test f.given_up
            + count test f.drained
          ≡ count test (requests_of ts)
    pub in_order : Sublistᴰ f.handed_on (requests_of ts)
    pub proper : All (λ q. IsForwarded unmarshal q.kind q.payload) f.handed_on
    pub few : length f.given_up ≤ 1
    pub both : f.out_closed ≡ f.connection_closed
    pub ended : f.out_closed ≡ true → Ends ts
    pub open_until : f.out_closed ≡ false → (f.drained ≡ []) × (f.given_up ≡ [])
    pub closes : Ends ts → f.out_closed ≡ true

  finish-Accounted :
      (t : Turn) (ts : List Turn)
      → IsEnd t
      → requests_of (t ∷ ts) ≡ requests_of ts
      → Accounted (t ∷ ts) (finish ts)
  finish-Accounted t ts e same = record {
    counted = λ test. rw same (omega arith);
    in_order = empty (requests_of (t ∷ ts));
    proper = tt;
    few = omega arith;
    both = refl;
    ended = λ _. inl e;
    open_until = λ f. cc;
    closes = λ _. refl;
  }

  -- A request that is answered.
  answered-Accounted :
      (pty taken : Bool) (q : Request) (ts : List Turn) (a : Bool) (f : Filtered)
      → (IsEnd (arrives pty taken q) → ⊥)
      → Accounted ts f
      → Accounted (arrives pty taken q ∷ ts) (record f { answered = (q, a) ∷ f.answered })
  answered-Accounted pty taken q ts a f on c = record {
    counted = λ test. omega (arith, c.counted test);
    in_order = cons c.in_order;
    proper = c.proper;
    few = c.few;
    both = c.both;
    ended = λ e. inr (c.ended e);
    open_until = c.open_until;
    closes = λ e. elim e [ inl here ↦ absurd (on here) | inr later ↦ c.closes later ];
  }

  handled-Accounted :
      (pty taken : Bool) (q : Request) (ts : List Turn) (f : Filtered)
      → Accounted ts f
      → (a : Handled) → handle_request unmarshal pty q.kind q.payload ≡ a
      → Accounted (arrives pty taken q ∷ ts) (handled q taken a ts f)
  handled-Accounted pty taken q ts f c (resized_to w) e =
      answered-Accounted pty taken q ts (is_some w) f
        (λ (lost, proper).
          let there = (handle_request-forwarded unmarshal pty q.kind q.payload).1 proper in
          cc (there, e))
        c
  handled-Accounted pty taken q ts f c rejected e =
      answered-Accounted pty taken q ts false f
        (λ (lost, proper).
          let there = (handle_request-forwarded unmarshal pty q.kind q.payload).1 proper in
          cc (there, e))
        c
  handled-Accounted pty true q ts f c forwarded e = record {
    counted = λ test. omega (arith, c.counted test);
    in_order = cons-cons refl c.in_order;
    proper = ((handle_request-forwarded unmarshal pty q.kind q.payload).0 e, c.proper);
    few = c.few;
    both = c.both;
    ended = λ g. inr (c.ended g);
    open_until = c.open_until;
    closes = λ g. elim g [ inl here ↦ cc (here.0) | inr later ↦ c.closes later ];
  }
  handled-Accounted pty false q ts f c forwarded e = record {
    counted = λ test. omega arith;
    in_order = empty (q ∷ requests_of ts);
    proper = tt;
    few = omega arith;
    both = refl;
    ended = λ _. inl (refl, (handle_request-forwarded unmarshal pty q.kind q.payload).0 e);
    open_until = λ g. cc;
    closes = λ _. refl;
  }

  -- Whatever the selects of the loop take: every request that arrives is handed on, answered, given up or
  -- drained, exactly once, and at most one is given up. What is handed on is a part of what arrives, in
  -- its order, and consists of proper requests for a terminal or a shell. The loop ends exactly at a
  -- turn that ends it; then the channel to the SSH library and the connection are both closed, and
  -- before that nothing is drained or given up.
  pub filter_requests-Accounted : (ts : List Turn) → Accounted ts (filter_requests ts)
  unfolding filter_requests
  filter_requests-Accounted [] = record {
    counted = λ test. omega arith;
    in_order = slnil;
    proper = tt;
    few = omega arith;
    both = refl;
    ended = λ e. cc;
    open_until = λ _. (refl, refl);
    closes = λ e. absurd e;
  }
  filter_requests-Accounted (cancelled ∷ ts) = finish-Accounted cancelled ts tt refl
  filter_requests-Accounted (exhausted ∷ ts) = finish-Accounted exhausted ts tt refl
  filter_requests-Accounted (arrives pty taken q ∷ ts) =
      handled-Accounted pty taken q ts (filter_requests ts) (filter_requests-Accounted ts)
        (handle_request unmarshal pty q.kind q.payload) refl
