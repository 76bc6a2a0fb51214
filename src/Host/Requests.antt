-- ===== src/Host/Requests.antt =====
-- The requests of a client in internal/host/host.go: the size of its terminal, its terminal modes, and
-- which requests reach the SSH library. gossh.Unmarshal is a parameter.
use bomber_cli.Base.{
  ℕ, ◌+◌, ◌*◌, ◌/◌, ◌%◌, ◌^◌, ◌<◌, ◌≤◌, ◌==◌, ltb, leb, ◌≡◌, ◌↔◌, ◌⊎◌, ◌≢◌, refl, ap, ◌∙◌, inl, inr,
  arith, if◌then◌else◌, Bool, true, false, not, ◌||◌, ◌&&◌, Option, none, some, List, [], ◌∷◌, ◌++◌,
  length, Text, codes, Bool-cases,
}
use bomber_cli.Room.Names.{name_eq}

-- The numbers of a window come from uint32 values and are not negative.
abbrev pub valid_window : ℕ → ℕ → Bool
valid_window width height = leb width 10000 && leb height 10000

-- The loop of `validTerminalModes`; `empty` says whether there are no modes at all.
abbrev pub modes_from : Bool → List ℕ → Bool
modes_from empty [] = empty
modes_from empty (opcode ∷ a ∷ b ∷ c ∷ d ∷ rest) =
    let later = modes_from empty rest in if opcode == 0 || leb 160 opcode then true else later
modes_from empty (opcode ∷ rest) = opcode == 0 || leb 160 opcode

abbrev pub is_empty : List ℕ → Bool
is_empty [] = true
is_empty (c ∷ s) = false

unfoldable pub valid_terminal_modes : List ℕ → Bool
valid_terminal_modes modes = modes_from (is_empty modes) modes

-- The payload of a request for a terminal.
pub record PtyPayload : Type 0 where
  pub term : Text
  pub width : ℕ
  pub height : ℕ
  pub modes : List ℕ

abbrev pub valid_pty : Option PtyPayload → Bool
valid_pty none = false
valid_pty (some p) =
    not (ltb 256 (length p.term))
    && not (ltb 10000 p.width)
    && not (ltb 10000 p.height)
    && valid_terminal_modes p.modes

-- binary.BigEndian.Uint32
abbrev pub uint32_of : ℕ → ℕ → ℕ → ℕ → ℕ
uint32_of a b c d = a * 2 ^ 24 + b * 2 ^ 16 + c * 2 ^ 8 + d

-- The width and the height of a payload of 16 bytes.
abbrev pub window_of : List ℕ → Option (ℕ × ℕ)
window_of (a ∷ b ∷ c ∷ d ∷ e ∷ f ∷ g ∷ h ∷ rest) =
    if length rest == 8 then some (uint32_of a b c d, uint32_of e f g h) else none
window_of _ = none

abbrev pub checked_window : Option (ℕ × ℕ) → Option (ℕ × ℕ)
checked_window none = none
checked_window (some (w, h)) = if valid_window w h then some (w, h) else none

-- The window that is published, if there is one; the answer is whether there is.
unfoldable pub resize_terminal : Bool → List ℕ → Option (ℕ × ℕ)
resize_terminal has_pty payload = if not has_pty then none else checked_window (window_of payload)

-- What becomes of a request: an answer, with the window that is published, or it is passed on.
pub data Handled : Type 0 where
  resized_to : Option (ℕ × ℕ) → Handled
  rejected : Handled
  forwarded : Handled

module _ (unmarshal : List ℕ → Option PtyPayload) where
  unfoldable pub handle_request : Bool → Text → List ℕ → Handled
  handle_request has_pty kind payload =
      if name_eq kind (codes "window-change")
      then resized_to (resize_terminal has_pty payload)
      else if name_eq kind (codes "pty-req")
      then (if valid_pty (unmarshal payload) then forwarded else rejected)
      else if name_eq kind (codes "shell")
      then (if is_empty payload then forwarded else rejected)
      else rejected

-- The encoding of terminal modes: opcodes below 160 with four bytes each, up to an opcode that ends them.
pub data Modes : List ℕ → Type 0 where
  ended : (opcode : ℕ) (rest : List ℕ) → (opcode ≡ 0) ⊎ (160 ≤ opcode) → Modes (opcode ∷ rest)
  mode :
      (opcode a b c d : ℕ) (rest : List ℕ)
      → opcode ≢ 0
      → opcode < 160
      → Modes rest
      → Modes (opcode ∷ a ∷ b ∷ c ∷ d ∷ rest)

-- The bytes of a 32-bit number, the high one first.
abbrev pub bytes_of : ℕ → List ℕ
bytes_of n = n / 2 ^ 24 ∷ n / 2 ^ 16 % 2 ^ 8 ∷ n / 2 ^ 8 % 2 ^ 8 ∷ n % 2 ^ 8 ∷ []

uint32_of-bytes_of :
    (n : ℕ)
    → n < 2 ^ 32
    → uint32_of (n / 2 ^ 24) (n / 2 ^ 16 % 2 ^ 8) (n / 2 ^ 8 % 2 ^ 8) (n % 2 ^ 8) ≡ n
uint32_of-bytes_of n lt = omega arith

window_of-bytes_of :
    (w h : ℕ) (pixels : List ℕ)
    → w < 2 ^ 32
    → h < 2 ^ 32
    → length pixels ≡ 8
    → window_of (bytes_of w ++ bytes_of h ++ pixels) ≡ some (w, h)
window_of-bytes_of w h pixels lw lh eight =
    let full : (length pixels == 8) ≡ true = ground (arith, eight) in
    rw full (
      ap
        (λ k. some (k, uint32_of (h / 2 ^ 24) (h / 2 ^ 16 % 2 ^ 8) (h / 2 ^ 8 % 2 ^ 8) (h % 2 ^ 8)))
        (uint32_of-bytes_of w lw)
      ∙ ap (λ k. some (w, k)) (uint32_of-bytes_of h lh))

checked_window_lem :
    (w h : ℕ) (b : Bool)
    → valid_window w h ≡ b
    → checked_window (some (w, h)) ≡ (if b then some (w, h) else none)
checked_window_lem w h b e = ap (λ c. if c then some (w, h) else none) e

-- For a terminal that is there, a payload that encodes a width, a height and eight more bytes gives that
-- size if both numbers are at most 10000, and no size otherwise. Without a terminal it gives none.
pub resize_terminal-bytes_of :
    (w h : ℕ) (pixels : List ℕ)
    → w < 2 ^ 32
    → h < 2 ^ 32
    → length pixels ≡ 8
    → ((w ≤ 10000) × (h ≤ 10000)
        → resize_terminal true (bytes_of w ++ bytes_of h ++ pixels) ≡ some (w, h))
      × ((10000 < w) ⊎ (10000 < h)
          → resize_terminal true (bytes_of w ++ bytes_of h ++ pixels) ≡ none)
      × (resize_terminal false (bytes_of w ++ bytes_of h ++ pixels) ≡ none)
unfolding resize_terminal
resize_terminal-bytes_of w h pixels lw lh eight =
    let decoded = ap checked_window (window_of-bytes_of w h pixels lw lh eight) in
    (
      λ (small_w, small_h).
          decoded ∙ checked_window_lem w h true (ground (arith, small_w, small_h)),
      λ large. decoded ∙ checked_window_lem w h false (ground (arith, large)),
      refl,
    )

opcode_ends :
    (opcode : ℕ) (rest : List ℕ) → ((opcode == 0) || leb 160 opcode) ≡ true → Modes (opcode ∷ rest)
opcode_ends opcode rest e = ended opcode rest (ground (arith, e))

modes_from-Modes : (ms : List ℕ) → modes_from false ms ≡ true → Modes ms
modes_from-Modes [] e = cc
modes_from-Modes (opcode ∷ []) e = opcode_ends opcode _ e
modes_from-Modes (opcode ∷ a ∷ []) e = opcode_ends opcode _ e
modes_from-Modes (opcode ∷ a ∷ b ∷ []) e = opcode_ends opcode _ e
modes_from-Modes (opcode ∷ a ∷ b ∷ c ∷ []) e = opcode_ends opcode _ e
modes_from-Modes (opcode ∷ a ∷ b ∷ c ∷ d ∷ rest) e =
    elim (Bool-cases ((opcode == 0) || leb 160 opcode)) [
      | inl f ↦ opcode_ends opcode _ f
      | inr f ↦
          mode opcode a b c d rest (ground (arith, f)) (ground (arith, f))
            (modes_from-Modes rest (rw f at e))
    ]

Modes-modes_from : (ms : List ℕ) → Modes ms → modes_from false ms ≡ true
Modes-modes_from _ (mode opcode a b c d rest n lt m) =
    let later = Modes-modes_from rest m in
    let on : ((opcode == 0) || leb 160 opcode) ≡ false = ground (arith, n, lt) in rw on later
Modes-modes_from _ (ended opcode rest done) = last rest
  where
    stops : ((opcode == 0) || leb 160 opcode) ≡ true
    stops = ground (arith, done)

    last : (rest : List ℕ) → modes_from false (opcode ∷ rest) ≡ true
    last [] = stops
    last (a ∷ []) = stops
    last (a ∷ b ∷ []) = stops
    last (a ∷ b ∷ c ∷ []) = stops
    last (a ∷ b ∷ c ∷ d ∷ rest) = rw stops refl

-- Terminal modes are valid exactly if there are none or they are encoded in full: opcodes from 1 to 159
-- with four bytes each, up to an opcode that ends them.
pub valid_terminal_modes_iff :
    (ms : List ℕ) → (valid_terminal_modes ms ≡ true) ↔ ((ms ≡ []) ⊎ Modes ms)
unfolding valid_terminal_modes
valid_terminal_modes_iff [] = (λ e. inl refl, λ m. refl)
valid_terminal_modes_iff (c ∷ ms) = (
  λ e. inr (modes_from-Modes (c ∷ ms) e),
  λ m. elim m [ inl e ↦ cc | inr x ↦ Modes-modes_from (c ∷ ms) x ],
)

module _ (unmarshal : List ℕ → Option PtyPayload) where
  -- Why a request reaches the SSH library.
  abbrev pub IsForwarded : Text → List ℕ → Type 0
  IsForwarded kind payload =
      (name_eq kind (codes "window-change") ≡ false)
      × (((name_eq kind (codes "pty-req") ≡ true) × (valid_pty (unmarshal payload) ≡ true))
          ⊎ ((name_eq kind (codes "pty-req") ≡ false)
              × (name_eq kind (codes "shell") ≡ true)
              × (is_empty payload ≡ true)))

  -- A request reaches the SSH library exactly if it asks for a terminal that is valid, or for a shell
  -- with nothing behind it.
  pub handle_request-forwarded :
      (has_pty : Bool) (kind : Text) (payload : List ℕ)
      → (handle_request unmarshal has_pty kind payload ≡ forwarded) ↔ IsForwarded kind payload
  unfolding handle_request
  handle_request-forwarded has_pty kind payload =
      split (name_eq kind (codes "window-change")) (name_eq kind (codes "pty-req"))
        (name_eq kind (codes "shell")) (valid_pty (unmarshal payload)) (is_empty payload)
    where
      split :
          (a b c p q : Bool)
          → ((if a
                then resized_to (resize_terminal has_pty payload)
                else if b
                then (if p then forwarded else rejected)
                else if c
                then (if q then forwarded else rejected)
                else rejected)
              ≡ forwarded)
            ↔ ((a ≡ false) × (((b ≡ true) × (p ≡ true)) ⊎ ((b ≡ false) × (c ≡ true) × (q ≡ true))))
      split true b c p q = (λ e. cc, λ (x, y). cc)
      split false true c true q = (λ e. (refl, inl (refl, refl)), λ x. refl)
      split false true c false q = (λ e. cc, λ x. ground (arith, x))
      split false false true p true = (λ e. (refl, inr (refl, refl, refl)), λ x. refl)
      split false false true p false = (λ e. cc, λ x. ground (arith, x))
      split false false false p q = (λ e. cc, λ x. ground (arith, x))
