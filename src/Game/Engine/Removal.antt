-- ===== src/Game/Engine/Removal.antt =====
-- The shift of the array in `removeBomb`, seen on the list of bombs in use.
use bomber_cli.Base.{
  ℕ, zero, suc, ◌+◌, ◌-◌, ◌≤◌, ◌<◌, ◌≡◌, refl, sym, ap, ◌∙◌, arith, List, [], ◌∷◌, ◌++◌, some,
  length, get_elem?, set, take, drop, erase_at, take-set, length-set, length-append, get_elem?-take,
  get_elem?-lt, length-take, length-drop, ok, Returns,
}
use bomber_cli.Game.Types.{Bomb, View, empty_bomb}
use bomber_cli.Game.Engine.{shift_down, remove_bomb}
use bomber_cli.Game.Bombs.{active}

take-shifted {ℓ} :
    {A : Type ℓ} (i k m : ℕ) (xs rest : List A)
    → m ≡ i + k
    → suc m ≤ length xs
    → take m (take i xs ++ (take k (drop (suc i) xs) ++ rest)) ≡ erase_at i (take (suc m) xs)
take-shifted {A} zero k m [] rest e h = absurd (omega arith)
take-shifted {A} zero k m (x ∷ xs) rest e h =
    let same : m ≡ k = omega arith in rw same (take_prefix k xs (rw same at h))
  where
    take_prefix :
        (n : ℕ) (ys : List A) → suc n ≤ suc (length ys) → take n (take n ys ++ rest) ≡ take n ys
    take_prefix zero ys h = refl
    take_prefix (suc n) [] h = absurd (omega arith)
    take_prefix (suc n) (y ∷ ys) h = ap (◌∷◌ y) (take_prefix n ys (omega arith))
take-shifted {A} (suc i) k m [] rest e h = absurd (omega arith)
take-shifted {A} (suc i) k zero (x ∷ xs) rest e h = absurd (omega arith)
take-shifted {A} (suc i) k (suc m) (x ∷ xs) rest e h =
    ap (◌∷◌ x) (take-shifted i k m xs rest (omega arith) (omega arith))

length-shift_down :
    (i : ℕ) (v : View)
    → i < v.bomb_count
    → v.bomb_count ≤ length v.bombs
    → length (shift_down i v.bomb_count v.bombs) ≡ length v.bombs
length-shift_down i v h k = omega (
  arith,
  length-append (take i v.bombs)
      (take (v.bomb_count - (i + 1)) (drop (i + 1) v.bombs) ++ drop (v.bomb_count - 1) v.bombs),
  length-append (take (v.bomb_count - (i + 1)) (drop (i + 1) v.bombs))
      (drop (v.bomb_count - 1) v.bombs),
  length-take i v.bombs (omega arith),
  length-take (v.bomb_count - (i + 1)) (drop (i + 1) v.bombs)
      (omega (arith, length-drop (i + 1) v.bombs)),
  length-drop (v.bomb_count - 1) v.bombs,
)

-- The view that `removeBomb` leaves.
abbrev pub without_bomb : ℕ → View → View
without_bomb i v = record v {
  bombs = set (shift_down i v.bomb_count v.bombs) (v.bomb_count - 1) empty_bomb;
  bomb_count = v.bomb_count - 1;
}

module _ (i : ℕ) (v : View) (used : i < v.bomb_count)
    (counted : v.bomb_count ≤ length v.bombs) where
  pub remove_bomb_lem :
      (b : Bomb) × (remove_bomb i v ≡ ok (b, without_bomb i v)) × (get_elem? (active v) i ≡ some b)
  unfolding remove_bomb
  remove_bomb_lem =
      let (b, at) = get_elem?-lt v.bombs i (omega arith) in
      (b, ground arith, get_elem?-take v.bomb_count i v.bombs used ∙ at)

  pub length-without_bomb : length (without_bomb i v).bombs ≡ length v.bombs
  length-without_bomb = length-set _ _ _ ∙ length-shift_down i v used counted

  pub active-without_bomb : active (without_bomb i v) ≡ erase_at i (active v)
  active-without_bomb =
      let m = v.bomb_count - 1 in
      let k = v.bomb_count - (i + 1) in
      let e : v.bomb_count ≡ suc m = omega arith in
      let n : i + 1 ≡ suc i = omega arith in
      take-set m _ empty_bomb
      ∙ ap (λ t. take m (take i v.bombs ++ (take k (drop t v.bombs) ++ drop m v.bombs))) n
      ∙ take-shifted i k m v.bombs (drop m v.bombs) (omega arith) (omega arith)
      ∙ ap (λ t. erase_at i (take t v.bombs)) (sym e)

-- For a bomb in use, and a count within the array, `removeBomb` returns that bomb, and the bombs in
-- use afterwards are the others, in their order. The count drops by one and the array keeps its size.
pub remove_bomb-erase_at :
    (i : ℕ) (v : View)
    → i < v.bomb_count
    → v.bomb_count ≤ length v.bombs
    → Returns
        (λ (b, w).
          (get_elem? (active v) i ≡ some b)
          × (active w ≡ erase_at i (active v))
          × (w.bomb_count + 1 ≡ v.bomb_count)
          × (length w.bombs ≡ length v.bombs))
        (remove_bomb i v)
remove_bomb-erase_at i v used counted =
    let (b, e, at) = remove_bomb_lem i v used counted in
    record {
      value = (b, without_bomb i v);
      returns = e;
      holds = (
        at,
        active-without_bomb i v used counted,
        omega arith,
        length-without_bomb i v used counted,
      );
    }
