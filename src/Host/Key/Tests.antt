-- ===== src/Host/Key/Tests.antt =====
-- Two servers that start at once on a small system of files.
use bomber_cli.Base.{
  ℕ, ◌+◌, ◌≤◌, ◌≡◌, ◌≢◌, ◌==◌, refl, sym, ap, ◌∙◌, ◌⊎◌, inl, inr, arith, Bool, true, false, not,
  Option, none, some, List, [], ◌∷◌, Bool-cases, if◌then◌else◌,
}
use bomber_cli.Host.Key.{
  Answered, gives, fails, Node, regular, irregular, Files, key, returns, System, new_start,
  next_call, turn, turns, generate_host_key,
}
use bomber_cli.Host.Key.Laws.{Documented, IsKey, IsWhole}
use bomber_cli.Host.Key.Starts.{turns-SameKey}
use bomber_cli.Host.Key.Ranks.{HasReturned}
use bomber_cli.Host.Key.Returns.{turns-HasReturned}

-- The next free number, and what stands at each path.
record Disk : Type 0 where
  next : ℕ
  nodes : ℕ → Option Node

-- The disk on which `o` stands at the path.
abbrev put : ℕ → Option Node → Disk → Disk
put p o s = record s { nodes = λ q. if q == p then o else s.nodes q }

abbrev looked_up : Option Node → Answered Bool Bool
looked_up none = fails false
looked_up (some (regular b)) = gives true
looked_up (some irregular) = gives false

abbrev read_up : Option Node → Answered Bool (List ℕ)
read_up none = fails false
read_up (some (regular b)) = gives b
read_up (some irregular) = fails false

abbrev written : ℕ → List ℕ → Disk → Option Node → Disk × Option Bool
written t b s (some (regular [])) = (put t (some (regular b)) s, none)
written t b s (some (regular (c ∷ cs))) = (s, some false)
written t b s (some irregular) = (s, some false)
written t b s none = (s, some false)

abbrev linked : ℕ → ℕ → Disk → Option Node → Disk × Option Bool
linked t p s none = (put p (s.nodes t) s, none)
linked t p s (some n) = (s, some true)

abbrev made : Disk → Option Node → Disk × Answered Bool ℕ
made s none =
    (record (put (s.next + 1) (some (regular [])) s) { next = s.next + 1 }, gives (s.next + 1))
made s (some n) = (s, fails true)

-- An error says whether something stands at the path.
abbrev small_disk : Files
small_disk = record {
  Location = ℕ;
  Error = Bool;
  Private = ℕ;
  Block = ℕ;
  State = Disk;
  node = λ s q. s.nodes q;
  dir = λ q. q;
  is_exist = λ e. e;
  is_not_exist = λ e. not e;
  lstat_regular = λ p s. looked_up (s.nodes p);
  chmod = λ p s. (s, none);
  read_file = λ p s. read_up (s.nodes p);
  mkdir_all = λ p s. (s, none);
  generate_key = λ s. (record s { next = s.next + 1 }, gives s.next);
  marshal_private_key = λ k. gives k;
  encode = λ k. k ∷ [];
  create_temp = λ d s. made s (s.nodes (s.next + 1));
  write = λ t b s. written t b s (s.nodes t);
  sync = λ t s. (s, none);
  close = λ t s. (s, none);
  link = λ t p s. linked t p s (s.nodes p);
  remove = λ t s. (put t none s, none);
}

put_self : (p q : ℕ) (o : Option Node) (s : Disk) → q ≡ p → (put p o s).nodes q ≡ o
put_self p q o s e = let same : (q == p) ≡ true = ground (arith, e) in rw same refl

put_other : (p q : ℕ) (o : Option Node) (s : Disk) → q ≢ p → (put p o s).nodes q ≡ s.nodes q
put_other p q o s n = let other : (q == p) ≡ false = ground (arith, n) in rw other refl

abbrev IsTemp : ℕ → Type 0
IsTemp t = 1 ≤ t

abbrev given : ℕ → Answered Bool ℕ
given n = gives n

gives_inj : {m n : ℕ} → given m ≡ gives n → m ≡ n
gives_inj e = cc

small_disk-Documented : Documented small_disk IsTemp
small_disk-Documented = record {
  looked = λ p s e f g. nowhere (s.nodes p) e f g;
  read_whole = λ p s b e. whole (s.nodes p) b e;
  chmod_kept = λ p q s. refl;
  made_kept = λ p q s n e. e;
  made_directories = λ p q s b e. e;
  generate_kept = λ q s. refl;
  created = λ d t s e. new_file s t (s.nodes (s.next + 1)) refl e;
  create_kept = λ d q s. others s q (s.nodes (s.next + 1));
  write_whole = λ t b s e _. rw e (put_self t t (some (regular b)) s refl);
  write_kept = λ t q b s n. elsewhere t q b s (s.nodes t) n;
  write_there = λ t q b s n e. there t q b s (s.nodes t) n e;
  sync_kept = λ t q s. refl;
  close_kept = λ t q s. refl;
  link_new = λ t p s e. joined t p s (s.nodes p) refl e;
  link_kept = λ t p q s e. untouched t p q s (s.nodes p) e;
  link_exist = λ t p s e f g. taken t p s (s.nodes p) e f;
  remove_kept = λ t q s n. put_other t q none s n;
}
  where
    nowhere : (o : Option Node) (e : Bool) → looked_up o ≡ fails e → not e ≡ true → o ≡ none
    nowhere none e f g = refl
    nowhere (some (regular b)) e f g = cc
    nowhere (some irregular) e f g = cc

    whole : (o : Option Node) (b : List ℕ) → read_up o ≡ gives b → o ≡ some (regular b)
    whole none b e = cc
    whole (some (regular c)) b e = cc
    whole (some irregular) b e = cc

    new_file :
        (s : Disk) (t : ℕ) (o : Option Node)
        → s.nodes (s.next + 1) ≡ o
        → (made s o).1 ≡ gives t
        → IsTemp t × (s.nodes t ≡ none) × ((made s o).0.nodes t ≡ some (regular []))
    new_file s t (some n) at e = cc
    new_file s t none at e =
        let same : s.next + 1 ≡ t = gives_inj e in
        rw (← same) (omega arith, at, put_self (s.next + 1) (s.next + 1) (some (regular [])) s refl)

    others :
        (s : Disk) (q : ℕ) (o : Option Node)
        → ((made s o).0.nodes q ≡ s.nodes q) ⊎ ((made s o).1 ≡ gives q)
    others s q (some n) = inl refl
    others s q none = elim (Bool-cases (q == s.next + 1)) [
      | inl e ↦ let same : q ≡ s.next + 1 = ground (arith, e) in inr (ap gives (sym same))
      | inr e ↦ inl (put_other (s.next + 1) q (some (regular [])) s (ground (arith, e)))
    ]

    elsewhere :
        (t q : ℕ) (b : List ℕ) (s : Disk) (o : Option Node)
        → q ≢ t
        → (written t b s o).0.nodes q ≡ s.nodes q
    elsewhere t q b s (some (regular [])) n = put_other t q (some (regular b)) s n
    elsewhere t q b s (some (regular (c ∷ cs))) n = refl
    elsewhere t q b s (some irregular) n = refl
    elsewhere t q b s none n = refl

    there :
        (t q : ℕ) (b : List ℕ) (s : Disk) (o : Option Node) (n : Node)
        → s.nodes q ≡ some n
        → (n' : Node) × ((written t b s o).0.nodes q ≡ some n')
    there t q b s (some (regular [])) n e = elim (Bool-cases (q == t)) [
      | inl f ↦ (regular b, put_self t q (some (regular b)) s (ground (arith, f)))
      | inr f ↦ (n, put_other t q (some (regular b)) s (ground (arith, f)) ∙ e)
    ]
    there t q b s (some (regular (c ∷ cs))) n e = (n, e)
    there t q b s (some irregular) n e = (n, e)
    there t q b s none n e = (n, e)

    joined :
        (t p : ℕ) (s : Disk) (o : Option Node)
        → s.nodes p ≡ o
        → (linked t p s o).1 ≡ none
        → (s.nodes p ≡ none) × ((linked t p s o).0.nodes p ≡ s.nodes t)
    joined t p s none at e = (at, put_self p p (s.nodes t) s refl)
    joined t p s (some n) at e = cc

    untouched :
        (t p q : ℕ) (s : Disk) (o : Option Node)
        → ((linked t p s o).1 ≢ none) ⊎ (q ≢ p)
        → (linked t p s o).0.nodes q ≡ s.nodes q
    untouched t p q s none (inl n) = absurd (n refl)
    untouched t p q s none (inr n) = put_other p q (s.nodes t) s n
    untouched t p q s (some n) e = refl

    taken :
        (t p : ℕ) (s : Disk) (o : Option Node) (e : Bool) → (linked t p s o).1 ≡ some e → o ≢ none
    taken t p s none e f = cc
    taken t p s (some n) e f = λ g. cc

abbrev empty_disk : Disk
empty_disk = record { next = 7; nodes = λ q. none }

empty_disk-IsWhole : IsWhole small_disk 0 empty_disk
empty_disk-IsWhole b e = cc

temp_named : IsTemp 0 → ⊥
temp_named h = omega (arith, h)

-- Both look before either publishes its key.
abbrev race : List ℕ
race = 0 ∷ 1 ∷ 0 ∷ 1 ∷ 0 ∷ 1 ∷ 0 ∷ 1 ∷ 0 ∷ 1 ∷ 0 ∷ 1 ∷ 0 ∷ 1 ∷ 1 ∷ 1 ∷ 0 ∷ 0 ∷ 0 ∷ 0 ∷ 0 ∷ 0 ∷ []

abbrev start_system : System small_disk
start_system = record { files = empty_disk; starts = λ _. new_start small_disk }

-- The first server takes the key of the second.
race_test : ((turns small_disk 0 race start_system).starts 0).task ≡ returns (key (8 ∷ []))
unfolding turns turn next_call generate_host_key
race_test = refl

turns-SameKey_example :
    IsWhole small_disk 0 (turns small_disk 0 race start_system).files
    × ((n : Node)
        → empty_disk.nodes 0 ≡ some n
        → (turns small_disk 0 race start_system).files.nodes 0 ≡ some n)
    × ((i : ℕ) (b : List ℕ)
        → ((turns small_disk 0 race start_system).starts i).task ≡ returns (key b)
        → IsKey small_disk b
          × ((turns small_disk 0 race start_system).files.nodes 0 ≡ some (regular b)))
    × ((i j : ℕ) (b c : List ℕ)
        → ((turns small_disk 0 race start_system).starts i).task ≡ returns (key b)
        → ((turns small_disk 0 race start_system).starts j).task ≡ returns (key c)
        → b ≡ c)
turns-SameKey_example =
    turns-SameKey small_disk IsTemp small_disk-Documented 0 temp_named empty_disk race
      empty_disk-IsWhole (turns small_disk 0 race start_system) refl

turns-HasReturned_example : HasReturned small_disk ((turns small_disk 0 race start_system).starts 0)
turns-HasReturned_example =
    turns-HasReturned small_disk IsTemp small_disk-Documented 0 temp_named empty_disk race
      empty_disk-IsWhole 0 (omega arith)
