-- ===== src/Host/Reads.antt =====
-- Sequences of reads by `gameInput.Read` of internal/host/limits.go.
use mathlib.Core.List.{append_assoc, append-nil}
use bomber_cli.Base.{
  ℕ, zero, suc, ◌<◌, ◌≡◌, ◌↔◌, ◌⊎◌, refl, sym, ap, ◌∙◌, inl, inr, arith, Bool, true, false, Option,
  none, some, List, [], ◌∷◌, ◌++◌, length, Text, ok, Returns, Returns-ok, Returns-bind, Returns-map,
}
use bomber_cli.Host.Budget.{ByteBudget, allow}
use bomber_cli.Host.Input.{GameInput, scanned, read_granted, read, reads, has_paste, has_rest}
use bomber_cli.Host.Pastes.{begins-has_paste, has_rest-append, Scanned, scan-Scanned}

-- All the bytes of the reads.
abbrev pub text_of : List (ℕ × List ℕ) → Text
text_of [] = []
text_of ((now, s) ∷ vs) = s ++ text_of vs

-- One of the reads is more than the budget allows.
abbrev pub IsOverdrawn : ByteBudget → List (ℕ × List ℕ) → Type 0
IsOverdrawn b [] = ⊥
IsOverdrawn b ((now, s) ∷ vs) =
    ((allow (length s) now b).1 ≡ false) ⊎ IsOverdrawn (allow (length s) now b).0 vs

abbrev Watched : GameInput → List (ℕ × List ℕ) → GameInput × Bool → Type 0
Watched r vs (r', true) =
    (r'.prefix < 6)
    × ((t : Text) → has_rest r.prefix (text_of vs ++ t) ≡ has_rest r'.prefix t)
    × (IsOverdrawn r.budget vs → ⊥)
Watched r vs (r', false) = (has_rest r.prefix (text_of vs) ≡ true) ⊎ IsOverdrawn r.budget vs

-- One read: passed on, with the bytes behind it to watch, or refused.
abbrev Passed : ℕ → Text → Bool → GameInput × Bool → Type 0
Passed k s granted (r', true) =
    (r'.prefix < 6) × ((t : Text) → has_rest k (s ++ t) ≡ has_rest r'.prefix t) × (granted ≡ true)
Passed k s granted (r', false) = (has_rest k s ≡ true) ⊎ (granted ≡ false)

read_granted-Passed :
    (s : List ℕ) (r : GameInput) (granted : Bool)
    → r.prefix < 6
    → Returns
        (λ q. Passed r.prefix s granted q × (q.0.budget ≡ r.budget))
        (read_granted s r granted)
read_granted-Passed s r false lt = Returns-ok _ (inr refl, refl)
read_granted-Passed s r true lt =
    Returns-bind (Scanned r.prefix s) _ _ (scan-Scanned s r.prefix lt)
      λ o x. Returns-ok _ (seen o x, kept o)
  where
    seen : (o : Option ℕ) → Scanned r.prefix s o → Passed r.prefix s true (scanned r o)
    seen none x = inl x
    seen (some k) (lt', x) = (lt', x, refl)

    kept : (o : Option ℕ) → (scanned r o).0.budget ≡ r.budget
    kept none = refl
    kept (some k) = refl

read-Passed :
    (now : ℕ) (s : List ℕ) (r : GameInput)
    → r.prefix < 6
    → let (b, granted) = allow (length s) now r.budget in
      Returns (λ q. Passed r.prefix s granted q × (q.0.budget ≡ b)) (read now s r)
unfolding read
read-Passed now s r lt =
    let (b, granted) = allow (length s) now r.budget in
    read_granted-Passed s (record r { budget = b }) granted lt

-- The reads behind a read that is passed on.
Watched-Passed :
    (now : ℕ) (s : List ℕ) (vs : List (ℕ × List ℕ)) (r r' : GameInput)
    → Passed r.prefix s (allow (length s) now r.budget).1 (r', true)
    → r'.budget ≡ (allow (length s) now r.budget).0
    → (q : GameInput × Bool) → Watched r' vs q
    → Watched r ((now, s) ∷ vs) q
Watched-Passed now s vs r r' (lt, same, granted) b (r'', true) (lt', same', within) = (
  lt',
  λ t. ap (has_rest r.prefix) (append_assoc s (text_of vs) t) ∙ same (text_of vs ++ t) ∙ same' t,
  λ over. elim over [
    | inl short ↦ absurd (ground (arith, short, granted))
    | inr later ↦ within (rw b later)
  ],
)
Watched-Passed now s vs r r' (lt, same, granted) b (r'', false) (inl full) =
    inl (same (text_of vs) ∙ full)
Watched-Passed now s vs r r' (lt, same, granted) b (r'', false) (inr over) =
    inr (inr (rw b at over))

reads-Watched :
    (vs : List (ℕ × List ℕ)) (r : GameInput) → r.prefix < 6 → Returns (Watched r vs) (reads vs r)
unfolding reads
reads-Watched [] r lt = Returns-ok _ (lt, λ t. refl, λ over. over)
reads-Watched ((now, s) ∷ vs) r lt =
    Returns-bind _ (Watched r ((now, s) ∷ vs)) _ (read-Passed now s r lt)
      λ (r', passed) (x, b). onward r' passed x b (λ few. reads-Watched vs r' few)
  where
    onward :
        (r' : GameInput) (passed : Bool)
        → Passed r.prefix s (allow (length s) now r.budget).1 (r', passed)
        → r'.budget ≡ (allow (length s) now r.budget).0
        → (r'.prefix < 6 → Returns (Watched r' vs) (reads vs r'))
        → Returns
            (Watched r ((now, s) ∷ vs))
            (elim passed [ false ↦ ok (r', false) | true ↦ reads vs r' ])
    onward r' false (inl full) b later =
        Returns-ok _ (inl (has_rest-append r.prefix s (text_of vs) full))
    onward r' false (inr short) b later = Returns-ok _ (inr (inl short))
    onward r' true x b later =
        Returns-map (Watched r' vs) _ (λ q w. Watched-Passed now s vs r r' x b q w) (later x.0)

-- From a reader that has seen nothing of the marker, any sequence of reads at any times returns without
-- a panic, however the text is cut into reads. All of it is passed on exactly if no read is more than
-- the budget allows and the marker of a paste stands nowhere in the text.
pub reads-has_paste :
    (vs : List (ℕ × List ℕ)) (b : ByteBudget)
    → Returns
        (λ (r, passed).
          (passed ≡ true) ↔ ((has_paste (text_of vs) ≡ false) × (IsOverdrawn b vs → ⊥)))
        (reads vs (record { budget = b; prefix = 0 }))
reads-has_paste vs b =
    Returns-map (Watched start vs) _ (λ (r, passed) w. told r passed w)
      (reads-Watched vs start (omega arith))
  where
    start : GameInput
    start = record { budget = b; prefix = 0 }

    nothing : (k : ℕ) → k < 6 → has_rest k [] ≡ false
    nothing zero lt = refl
    nothing (suc zero) lt = refl
    nothing (suc (suc zero)) lt = refl
    nothing (suc (suc (suc zero))) lt = refl
    nothing (suc (suc (suc (suc zero)))) lt = refl
    nothing (suc (suc (suc (suc (suc zero))))) lt = refl
    nothing (suc (suc (suc (suc (suc (suc k)))))) lt = absurd (omega arith)

    told :
        (r : GameInput) (passed : Bool)
        → Watched start vs (r, passed)
        → (passed ≡ true) ↔ ((has_paste (text_of vs) ≡ false) × (IsOverdrawn b vs → ⊥))
    told r true (lt, same, within) = (
      λ e. (
        sym (begins-has_paste (text_of vs))
            ∙ sym (ap (has_rest 0) (append-nil (text_of vs)))
            ∙ same []
            ∙ nothing r.prefix lt,
        within,
      ),
      λ x. refl,
    )
    told r false (inl full) = (
      λ e. cc,
      λ (free, within). ground (arith, free, sym (begins-has_paste (text_of vs)) ∙ full),
    )
    told r false (inr over) = (λ e. cc, λ (free, within). absurd (within over))
