-- ===== src/Ui/Lobby.antt =====
-- The lobby and the clock in internal/ui/render.go.
use native.Mathlib.Nat.{div-add-mod, mod-lt}
use bomber_cli.Base.{
  some_inj, ◌≢◌, ℕ, pos, negsuc, zero, suc, ◌+◌, ◌-◌, ◌*◌, ◌<◌, ◌≤◌, ◌==◌, ltb, ◌≡◌, refl, ap, ◌∙◌,
  inl, inr, arith, if◌then◌else◌, true, false, some, List, [], ◌∷◌, ◌++◌, length, drop, get_elem?,
  get_elem?-lt, Text, codes, Bool-cases,
}
use bomber_cli.Game.Types.{second}
use bomber_cli.Room.Types.{Snapshot}
use bomber_cli.Ui.Render.{
  lobby_options, option_line, option_lines, first_option, visible_lines, seconds,
}

length-option_lines :
    (selected stop i : ℕ) (os : List Text) → length (option_lines selected stop i os) ≤ stop - i
length-option_lines selected stop i [] = omega arith
length-option_lines selected stop i (o ∷ os) = elim (Bool-cases (ltb i stop)) [
  | inl e ↦ rw e (ground (arith, e, length-option_lines selected stop (i + 1) os))
  | inr e ↦ rw e (omega arith)
]

get_elem?-option_lines :
    (selected stop i : ℕ) (os : List Text) (j : ℕ) {o : Text}
    → get_elem? os j ≡ some o
    → i + j < stop
    → get_elem? (option_lines selected stop i os) j ≡ some (option_line selected (i + j) o)
get_elem?-option_lines selected stop i [] j e lt = cc
get_elem?-option_lines selected stop i (p ∷ os) zero {o} e lt =
    let low : ltb i stop ≡ true = ground arith in
    let same : i ≡ i + 0 = omega arith in
    rw low (
      ap (λ t. some (option_line selected i t)) (some_inj e)
      ∙ ap (λ k. some (option_line selected k o)) same)
get_elem?-option_lines selected stop i (p ∷ os) (suc j) {o} e lt =
    let low : ltb i stop ≡ true = ground arith in
    let same : i + 1 + j ≡ i + suc j = omega arith in
    rw low (
      get_elem?-option_lines selected stop (i + 1) os j e (omega arith)
      ∙ ap (λ k. some (option_line selected k o)) same)

get_elem?-drop : (n j : ℕ) (os : List Text) → get_elem? (drop n os) j ≡ get_elem? os (n + j)
get_elem?-drop zero j os = let same : j ≡ 0 + j = omega arith in ap (get_elem? os) same
get_elem?-drop (suc n) j [] = refl
get_elem?-drop (suc n) j (o ∷ os) =
    let same : suc (n + j) ≡ suc n + j = omega arith in
    get_elem?-drop n j os ∙ ap (get_elem? (o ∷ os)) same

get_elem?-marked :
    (rooms : List Snapshot) (selected limit : ℕ)
    → 0 < limit
    → (i : ℕ) {o : Text} → get_elem? (lobby_options rooms) i ≡ some o
    → first_option selected limit ≤ i
    → i < first_option selected limit + limit
    → get_elem? (visible_lines rooms selected limit) (i - first_option selected limit)
      ≡ some (option_line selected i o)
get_elem?-marked rooms selected limit some_room i {o} e low high =
    let start = first_option selected limit in
    let back : start + (i - start) ≡ i = omega arith in
    get_elem?-option_lines selected (start + limit) start (drop start (lobby_options rooms))
      (i - start)
      (get_elem?-drop start (i - start) (lobby_options rooms)
        ∙ ap (get_elem? (lobby_options rooms)) back
        ∙ e)
      (omega arith)
    ∙ ap (λ k. some (option_line selected k o)) back

-- With room for at least one line, and the cursor on one of the options, at most `limit` lines are
-- shown, and the marked line of the selected option is one of them. Each other option between the first
-- and the last line is shown in its place without the mark.
pub visible_lines-selected :
    (rooms : List Snapshot) (selected limit : ℕ)
    → 0 < limit
    → selected < length (lobby_options rooms)
    → let start = first_option selected limit in
      (length (visible_lines rooms selected limit) ≤ limit)
      × (selected - start < limit)
      × ((o : Text) × (get_elem? (lobby_options rooms) selected ≡ some o)
          × (get_elem? (visible_lines rooms selected limit) (selected - start)
              ≡ some (codes "> " ++ o ++ 10 ∷ [])))
      × ((i : ℕ) (o : Text)
          → i ≢ selected
          → start ≤ i
          → i < start + limit
          → get_elem? (lobby_options rooms) i ≡ some o
          → get_elem? (visible_lines rooms selected limit) (i - start)
            ≡ some (codes "  " ++ o ++ 10 ∷ []))
visible_lines-selected rooms selected limit some_room known =
    let start = first_option selected limit in
    let (o, at) = get_elem?-lt (lobby_options rooms) selected known in
    let self : (selected == selected) ≡ true = ground arith in
    (
      omega (
        arith,
        length-option_lines selected (start + limit) start (drop start (lobby_options rooms)),
      ),
      omega arith,
      (
        o,
        at,
        get_elem?-marked rooms selected limit some_room selected at (omega arith) (omega arith)
            ∙ ap (λ b. some ((if b then codes "> " else codes "  ") ++ o ++ 10 ∷ [])) self,
      ),
      λ i p n low high e.
          let other : (i == selected) ≡ false = ground (arith, n) in
          get_elem?-marked rooms selected limit some_room i e low high
          ∙ ap (λ b. some ((if b then codes "> " else codes "  ") ++ p ++ 10 ∷ [])) other,
    )

-- The clock shows the least number of seconds that is not less than the duration, and 0 for a negative
-- duration.
pub seconds_lem :
    (n : ℕ)
    → (n ≤ seconds (pos n) * second)
      × (seconds (pos n) * second < n + second)
      × (seconds (negsuc n) ≡ 0)
unfolding seconds
seconds_lem n =
    let whole = div-add-mod (n + (second - 1)) second in
    let rest = mod-lt (n + (second - 1)) {m = second} (omega arith) in
    (omega (arith, whole, rest), omega (arith, whole, rest), refl)
