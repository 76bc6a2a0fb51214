-- ===== src/Host/Key/Returns.antt =====
-- How many calls a server makes until `hostKey` returns.
use bomber_cli.Base.{
  ℕ, suc, ◌-◌, ◌≤◌, ◌≡◌, refl, ap, inl, inr, arith, ◌==◌, true, List, [], ◌∷◌, Bool-cases,
  Option-cases, if◌then◌else◌, is_some,
}
use bomber_cli.Host.Key.{Files, new_start, System, turn, turns}
use bomber_cli.Host.Key.Laws.{Documented, IsWhole}
use bomber_cli.Host.Key.Starts.{IsOrdered, turn-keeps, turn-IsOrdered, new-IsOrdered}
use bomber_cli.Host.Key.Ranks.{
  rank, looks_bounds, rank_zero, calls_left_there, next_call-rank, HasReturned,
}

module _ (F : Files) where
  -- How many turns of a schedule a server has.
  abbrev pub turns_of : ℕ → List ℕ → ℕ
  turns_of j [] = 0
  turns_of j (i ∷ is) = if j == i then suc (turns_of j is) else turns_of j is

  module _ (IsTemp : F.Location → Type 0) (laws : Documented F IsTemp) (path : F.Location)
      (proper : IsTemp path → ⊥) where
    turn-rank :
        (i : ℕ) (y : System F)
        → IsOrdered F IsTemp laws path proper y
        → (j : ℕ)
        → rank F path (turn F path i y).files ((turn F path i y).starts j) ≤ (
            if j == i
            then rank F path y.files (y.starts j) - 1
            else rank F path y.files (y.starts j))
    unfolding turn
    turn-rank i y h j = elim (Bool-cases (j == i)) [
      | inl e ↦
          let same : j ≡ i = ground (arith, e) in
          rw e rw same
            (next_call-rank F IsTemp laws path y.files (y.starts i).pending (y.starts i).task)
      | inr e ↦ rw e (
          let fewer =
            calls_left_there F (is_some (F.node y.files path))
              (is_some (F.node (turn F path i y).files path)) (y.starts j).task (λ f. stays f) in
          omega (arith, fewer))
    ]
      where
        stays :
            is_some (F.node y.files path) ≡ true
            → is_some (F.node (turn F path i y).files path) ≡ true
        stays f = elim (Option-cases (F.node y.files path)) [
          | inl g ↦ absurd (cc (ap (λ o. is_some o) g, f))
          | inr (n, g) ↦ rw (turn-keeps F IsTemp laws path proper i y n h g) refl
        ]

    turns-rank :
        (is : List ℕ) (y : System F)
        → IsOrdered F IsTemp laws path proper y
        → (j : ℕ)
        → rank F path (turns F path is y).files ((turns F path is y).starts j)
          ≤ rank F path y.files (y.starts j) - turns_of j is
    unfolding turns
    turns-rank [] y h j = omega arith
    turns-rank (i ∷ is) y h j =
        let rest =
          turns-rank is (turn F path i y) (turn-IsOrdered F IsTemp laws path proper i y h) j in
        let now = turn-rank i y h j in
        elim (Bool-cases (j == i)) [
          | inl e ↦ rw e (let less = rw e at now in omega (arith, rest, less))
          | inr e ↦ rw e (let less = rw e at now in omega (arith, rest, less))
        ]

    -- Servers that start at once, with their calls in any order: a server that has made twelve calls has
    -- returned, and has tried to remove its temporary files, whatever errors occur and whatever the
    -- other servers do. The path is not that of a temporary file and, if it is a regular file at first,
    -- it is a whole key.
    pub turns-HasReturned :
        (s : F.State) (is : List ℕ)
        → IsWhole F path s
        → (j : ℕ) → 12 ≤ turns_of j is
        → HasReturned F
            ((turns F path is (record { files = s; starts = λ _. new_start F })).starts j)
    turns-HasReturned s is whole j enough =
        let left = turns-rank is _ (new-IsOrdered F IsTemp laws path proper s whole) j in
        let first = looks_bounds F (is_some (F.node s path)) in
        rank_zero F
          (is_some
            (F.node (turns F path is (record { files = s; starts = λ _. new_start F })).files path))
          _ (omega (arith, left, first, enough))
