-- ===== src/Host/Key/Starts.antt =====
-- Servers that start at once: their calls interleave in any order, and they end up with one key.
use bomber_cli.Base.{
  ℕ, ◌≡◌, ◌≢◌, refl, sym, subst, ◌∙◌, ◌⊎◌, inl, inr, arith, ◌==◌, none, some, List, [], ◌∷◌, All,
  ◌∈◌, All-map, All-mem, All-both, Bool-cases, some_inj,
}
use bomber_cli.Host.Key.{
  Node, regular, Files, key, not_regular, stopped_by, Task, looks, chmods, reads, makes, generates,
  creates, writes, syncs, closes, links, returns, Start, next_call, new_start, System, turn, turns,
}
use bomber_cli.Host.Key.Laws.{Documented, IsKey, IsWhole, Stands, IsReady, IsSafe, Leaves, Called}
use bomber_cli.Host.Key.Steps.{All-own}
use bomber_cli.Host.Key.Publishing.{next_call-Called, regular_inj}

module _ (F : Files) (IsTemp : F.Location → Type 0) (laws : Documented F IsTemp) (path : F.Location)
    (proper : IsTemp path → ⊥) where
  -- Every server is safe, a regular file at the path is a whole key, and no two servers share a
  -- temporary file.
  pub record IsOrdered (y : System F) : Type 0 where
    pub safe : (i : ℕ) → IsSafe F IsTemp path y.files (y.starts i)
    pub whole : IsWhole F path y.files
    pub separate :
        (i j : ℕ)
        → i ≢ j
        → (t : F.Location) → t ∈ (y.starts i).pending
        → t ∈ (y.starts j).pending
        → ⊥

  -- A server is safe while another one makes a call.
  aside-IsSafe :
      (s s' : F.State) (own : List F.Location) (v : Start F)
      → Leaves F own s s'
      → All IsTemp own
      → ((t : F.Location) → t ∈ v.pending → t ∈ own → ⊥)
      → IsSafe F IsTemp path s v
      → IsSafe F IsTemp path s' v
  aside-IsSafe s s' own v leaves temps apart h = record {
    temps = h.temps;
    there =
        All-map (λ t. (t ∈ v.pending) × Stands F s t) (Stands F s') v.pending
          (λ t (m, (n, e)). (n, leaves t n (apart t m) e))
          (All-both (λ t. t ∈ v.pending) (Stands F s) v.pending (All-own v.pending) h.there);
    apart = h.apart;
    prepared = still v.task h.prepared;
  }
    where
      kept :
          (t : F.Location) (b : List ℕ)
          → t ∈ v.pending
          → F.node s t ≡ some (regular b)
          → F.node s' t ≡ some (regular b)
      kept t b m e = leaves t (regular b) (apart t m) e

      still : (task : Task F) → IsReady F path s v.pending task → IsReady F path s' v.pending task
      still looks _ = tt
      still chmods _ = tt
      still reads _ = tt
      still makes _ = tt
      still generates _ = tt
      still (creates b) k = k
      still (writes t b) (k, m, e) = (k, m, kept t [] m e)
      still (syncs t b) (k, m, e) = (k, m, kept t b m e)
      still (closes t b none) (k, m, e) = (k, m, kept t b m e)
      still (closes t b (some x)) _ = tt
      still (links t b) (k, m, e) = (k, m, kept t b m e)
      still (returns (key b)) (k, e) =
          (k, leaves path (regular b) (λ m. proper (All-mem IsTemp own temps m)) e)
      still (returns not_regular) _ = tt
      still (returns (stopped_by x)) _ = tt

  -- After a turn, a server is as the call of the turn left it, or as it was.
  pub turn_at :
      (y : System F) (i : ℕ) (P : ℕ → Start F → Type 0)
      → P i (next_call F path (y.starts i).pending (y.starts i).task y.files).1
      → ((j : ℕ) → j ≢ i → P j (y.starts j))
      → (j : ℕ) → P j ((turn F path i y).starts j)
  unfolding turn
  turn_at y i P own others j = elim (Bool-cases (j == i)) [
    | inl e ↦ let same : j ≡ i = ground (arith, e) in rw e rw same own
    | inr e ↦ rw e (others j (ground (arith, e)))
  ]

  pub turn-IsOrdered : (i : ℕ) (y : System F) → IsOrdered y → IsOrdered (turn F path i y)
  unfolding turn
  turn-IsOrdered i y h = record {
    safe =
        turn_at y i (λ j v. IsSafe F IsTemp path s' v) c.safe
          (λ j n.
            aside-IsSafe y.files s' (y.starts i).pending (y.starts j) c.leaves (h.safe i).temps
              (h.separate j i n) (h.safe j));
    whole = c.whole;
    separate =
        turn_at y i
          (λ j v.
            (k : ℕ)
            → j ≢ k
            → (t : F.Location) → t ∈ v.pending
            → t ∈ ((turn F path i y).starts k).pending
            → ⊥)
          (turn_at y i (λ k w. i ≢ k → (t : F.Location) → t ∈ v'.pending → t ∈ w.pending → ⊥)
            (λ n. absurd (n refl)) (λ k n _ t m m'. new_apart k n t m m'))
          (λ j n.
            turn_at y i
              (λ k w. j ≢ k → (t : F.Location) → t ∈ (y.starts j).pending → t ∈ w.pending → ⊥)
              (λ _ t m m'. new_apart j n t m' m) (λ k _ d t m m'. h.separate j k d t m m'));
  }
    where
      s' : F.State
      s' = (next_call F path (y.starts i).pending (y.starts i).task y.files).0

      v' : Start F
      v' = (next_call F path (y.starts i).pending (y.starts i).task y.files).1

      c : Called F IsTemp path (y.starts i).pending y.files s' v'
      c =
          next_call-Called F IsTemp laws path proper y.files (y.starts i).pending (y.starts i).task
            (h.safe i) h.whole

      new_apart : (j : ℕ) → j ≢ i → (t : F.Location) → t ∈ v'.pending → t ∈ (y.starts j).pending → ⊥
      new_apart j n t m m' =
          elim (All-mem (λ t. (t ∈ (y.starts i).pending) ⊎ (F.node y.files t ≡ none)) v'.pending
            c.fresh m) [
              | inl own ↦ h.separate j i n t m' own
              | inr nothing ↦
                  let (k, stands) =
                    All-mem (Stands F y.files) (y.starts j).pending (h.safe j).there m' in
                  cc (nothing, stands)
            ]

  -- What stands at the path stays.
  pub turn-keeps :
      (i : ℕ) (y : System F) (n : Node)
      → IsOrdered y
      → F.node y.files path ≡ some n
      → F.node (turn F path i y).files path ≡ some n
  unfolding turn
  turn-keeps i y n h e =
      (next_call-Called F IsTemp laws path proper y.files (y.starts i).pending (y.starts i).task
          (h.safe i) h.whole).leaves
        path n (λ m. proper (All-mem IsTemp (y.starts i).pending (h.safe i).temps m)) e

  pub turns-IsOrdered : (is : List ℕ) (y : System F) → IsOrdered y → IsOrdered (turns F path is y)
  unfolding turns
  turns-IsOrdered [] y h = h
  turns-IsOrdered (i ∷ is) y h = turns-IsOrdered is (turn F path i y) (turn-IsOrdered i y h)

  turns-keeps :
      (is : List ℕ) (y : System F) (n : Node)
      → IsOrdered y
      → F.node y.files path ≡ some n
      → F.node (turns F path is y).files path ≡ some n
  unfolding turns
  turns-keeps [] y n h e = e
  turns-keeps (i ∷ is) y n h e =
      turns-keeps is (turn F path i y) n (turn-IsOrdered i y h) (turn-keeps i y n h e)

  pub new-IsOrdered :
      (s : F.State) → IsWhole F path s → IsOrdered (record { files = s; starts = λ _. new_start F })
  new-IsOrdered s whole = record {
    safe = λ i. record { temps = tt; there = tt; apart = tt; prepared = tt };
    whole = whole;
    separate = λ i j n t m m'. m;
  }

  -- Servers that start at once, with their calls in any order: if a regular file at the path is a whole
  -- key at first, it is one at any time. What stands at the path is never replaced. The key that a server
  -- returns is a whole key, and it is the file at the path, so that two servers return the same key.
  -- The path is not that of a temporary file, and the operating system does what it documents.
  pub turns-SameKey :
      (s : F.State) (is : List ℕ)
      → IsWhole F path s
      → (y : System F) → turns F path is (record { files = s; starts = λ _. new_start F }) ≡ y
      → IsWhole F path y.files
        × ((n : Node) → F.node s path ≡ some n → F.node y.files path ≡ some n)
        × ((i : ℕ) (b : List ℕ)
            → (y.starts i).task ≡ returns (key b)
            → IsKey F b × (F.node y.files path ≡ some (regular b)))
        × ((i j : ℕ) (b c : List ℕ)
            → (y.starts i).task ≡ returns (key b)
            → (y.starts j).task ≡ returns (key c)
            → b ≡ c)
  turns-SameKey s is whole y e =
      let begun = new-IsOrdered s whole in
      let h = subst IsOrdered e (turns-IsOrdered is _ begun) in
      let told : (i : ℕ) (b : List ℕ)
          → (y.starts i).task ≡ returns (key b)
          → IsKey F b × (F.node y.files path ≡ some (regular b)) =
        λ i b at. subst (IsReady F path y.files (y.starts i).pending) at (h.safe i).prepared in
      (
        h.whole,
        λ n at.
            subst (λ (z : System F). F.node z.files path ≡ some n) e (turns-keeps is _ n begun at),
        told,
        λ i j b c at at'. regular_inj (some_inj (sym (told i b at).1 ∙ (told j c at').1)),
      )
