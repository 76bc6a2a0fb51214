-- ===== src/Room/Names.antt =====
-- The names of players in internal/room/hub.go. A name is the list of its bytes, and what a client
-- asks for is a list of code points.
pub mod Unused
pub mod Clean
use bomber_cli.Base.{
  Text, codes, decimal, ◌++◌, ℕ, zero, suc, ◌+◌, ◌≤◌, ◌<◌, ◌==◌, leb, ◌≡◌, ◌≢◌, refl, sym, ap, ◌∙◌,
  inl, inr, arith, Bool, true, false, ◌&&◌, ◌||◌, List, [], ◌∷◌, ◌++◌, length, All, Bool-cases,
  if◌then◌else◌, Result, ok, err, out_of_fuel, Returns, Returns-ok,
}

abbrev pub Name : Type 0
Name = Text

-- Go's `==` on two strings.
unfoldable pub name_eq : Name → Name → Bool
name_eq [] [] = true
name_eq (a ∷ xs) (b ∷ ys) = (a == b) && name_eq xs ys
name_eq _ _ = false

-- The characters that a name keeps: a-z, A-Z, 0-9, _ and -.
unfoldable pub keeps_rune : ℕ → Bool
keeps_rune r =
    leb 97 r && leb r 122 || leb 65 r && leb r 90 || leb 48 r && leb r 57 || r == 95 || r == 45

-- The loop of `sanitizePlayerName`; `kept` bytes are written, one for each rune that is kept.
unfoldable pub kept_runes : ℕ → List ℕ → Name
kept_runes kept [] = []
kept_runes kept (r ∷ rs) =
    let rest = kept_runes (kept + 1) rs in
    let skipped = kept_runes kept rs in
    if keeps_rune r then (if kept + 1 == 16 then r ∷ [] else r ∷ rest) else skipped

abbrev pub default_name : Name
default_name = codes "player"

unfoldable pub sanitize_player_name : List ℕ → Name
unfolding kept_runes
sanitize_player_name name = elim (kept_runes 0 name) [ [] ↦ default_name | r ∷ rs ↦ r ∷ rs ]

-- The inner loop of `uniquePlayerName`, over the names of the sessions.
unfoldable pub is_used : List Name → Name → Bool
is_used [] name = false
is_used (n ∷ ns) name = if name_eq n name then true else is_used ns name

-- fmt.Sprintf("%s-%d", base, suffix)
unfoldable pub suffixed : Name → ℕ → Name
suffixed base suffix = base ++ 45 ∷ decimal suffix

-- The outer loop.
unfoldable pub unused_name : ℕ → List Name → Name → ℕ → Name → Result Name
unused_name zero names base suffix name = err out_of_fuel
unused_name (suc fuel) names base suffix name = elim (is_used names name) [
  | true ↦ unused_name fuel names base (suffix + 1) (suffixed base suffix)
  | false ↦ ok name
]

unfoldable pub unique_player_name : List Name → List ℕ → Result Name
unfolding unused_name
unique_player_name names name =
    let base = sanitize_player_name name in unused_name (length names + 1) names base 2 base
