-- ===== src/Host/Input.antt =====
-- `gameInput.Read` of internal/host/limits.go: the search for the marker that opens a paste.
use bomber_cli.Base.{
  ℕ, ◌+◌, ◌==◌, if◌then◌else◌, Bool, true, false, ◌||◌, ◌&&◌, Option, none, some, List, [], ◌∷◌,
  length, drop, get_elem?, Text, codes, or_panic, Result, ok, ◌>>=◌,
}
use bomber_cli.Host.Budget.{ByteBudget, allow}

-- "\x1b[200~"
abbrev pub paste : Text
paste = 27 ∷ codes "[200~"

-- The prefix of the marker that has been read, after one more byte.
unfoldable pub paste_prefix : ℕ → ℕ → Result ℕ
paste_prefix k ch = do
  next ← or_panic (get_elem? paste k)
  ok (if ch == next then k + 1 else if ch == 27 then 1 else 0)

-- The loop over the bytes of one read; none once the marker is complete.
unfoldable pub scan : ℕ → List ℕ → Result (Option ℕ)
scan k [] = ok (some k)
scan k (ch ∷ s) = do k' ← paste_prefix k ch; elim (k' == 6) [ true ↦ ok none | false ↦ scan k' s ]

pub record GameInput : Type 0 where
  pub budget : ByteBudget
  pub prefix : ℕ

-- One read of these bytes: the state, and whether they are passed on. If not, the connection is closed.
abbrev pub scanned : GameInput → Option ℕ → GameInput × Bool
scanned r none = (record r { prefix = 0 }, false)
scanned r (some k) = (record r { prefix = k }, true)

abbrev pub read_granted : List ℕ → GameInput → Bool → Result (GameInput × Bool)
read_granted s r false = ok (r, false)
read_granted s r true = do o ← scan r.prefix s; ok (scanned r o)

unfoldable pub read : ℕ → List ℕ → GameInput → Result (GameInput × Bool)
read now s r =
    let (b, granted) = allow (length s) now r.budget in
    read_granted s (record r { budget = b }) granted

-- The reads of a client, up to the first that closes the connection.
unfoldable pub reads : List (ℕ × List ℕ) → GameInput → Result (GameInput × Bool)
reads [] r = ok (r, true)
reads ((now, s) ∷ rest) r = do
  (r', passed) ← read now s r
  elim passed [ false ↦ ok (r', false) | true ↦ reads rest r' ]

-- Whether one text begins with another, and whether the marker stands anywhere in a text.
abbrev pub begins : Text → Text → Bool
begins [] s = true
begins (c ∷ cs) [] = false
begins (c ∷ cs) (d ∷ s) = (d == c) && begins cs s

abbrev pub has_paste : Text → Bool
has_paste [] = false
has_paste (c ∷ s) = begins paste (c ∷ s) || has_paste s

-- The marker is complete, or it is somewhere in what follows.
abbrev pub has_rest : ℕ → Text → Bool
has_rest k s = begins (drop k paste) s || has_paste s
