-- ===== src/Host/Key/Steps.antt =====
-- What one call of a server that starts leaves, whatever its outcome.
use bomber_cli.Base.{
  ℕ, ◌≡◌, refl, sym, ◌∙◌, inl, inr, Bool, true, false, Option, none, some, List, [], ◌∷◌, All,
  AllPairs, ◌∈◌, All-map, Bool-cases,
}
use bomber_cli.Host.Key.{
  Answered, gives, fails, regular, Files, Task, looks, chmods, reads, makes, generates, generated,
  unless_failed, after_lstat, after_read, after_generate, generate_host_key, next_call,
}
use bomber_cli.Host.Key.Laws.{Documented, IsWhole, Stands, IsReady, PathsApart, Called}

pub All-own : {A : Type 0} (xs : List A) → All (λ x. x ∈ xs) xs
All-own [] = tt
All-own (x ∷ xs) =
    (inl refl, All-map (λ y. y ∈ xs) (λ y. y ∈ (x ∷ xs)) xs (λ y m. inr m) (All-own xs))

module _ (F : Files) (IsTemp : F.Location → Type 0) (laws : Documented F IsTemp) (path : F.Location)
    (proper : IsTemp path → ⊥) where
  module _ (s : F.State) (ts : List F.Location) (temps : All IsTemp ts)
      (there : All (Stands F s) ts) (apart : AllPairs (PathsApart F) ts)
      (whole : IsWhole F path s) where
    -- A call that leaves every file as it is.
    pub kept-Called :
        (s' : F.State) (task : Task F)
        → ((q : F.Location) → F.node s' q ≡ F.node s q)
        → IsReady F path s' ts task
        → Called F IsTemp path ts s s' (record { pending = ts; task = task })
    kept-Called s' task kept prepared = record {
      safe = record {
        temps = temps;
        there = All-map (Stands F s) (Stands F s') ts (λ t (n, at). (n, kept t ∙ at)) there;
        apart = apart;
        prepared = prepared;
      };
      whole = λ b at. whole b (sym (kept path) ∙ at);
      leaves = λ q n _ at. kept q ∙ at;
      fresh = All-map (λ t. t ∈ ts) _ ts (λ t m. inl m) (All-own ts);
    }

    pub look-Called :
        Called F IsTemp path ts s (next_call F path ts looks s).0 (next_call F path ts looks s).1
    unfolding next_call
    look-Called =
        kept-Called s (after_lstat F (F.lstat_regular path s)) (λ q. refl)
          (answered (F.lstat_regular path s))
      where
        answered : (a : Answered F.Error Bool) → IsReady F path s ts (after_lstat F a)
        answered (gives true) = tt
        answered (gives false) = tt
        answered (fails e) = elim (Bool-cases (F.is_not_exist e)) [
          | inl f ↦ rw f tt
          | inr f ↦ rw f tt
        ]

    pub read-Called :
        Called F IsTemp path ts s (next_call F path ts reads s).0 (next_call F path ts reads s).1
    unfolding next_call
    read-Called =
        kept-Called s (after_read F (F.read_file path s)) (λ q. refl)
          (answered (F.read_file path s) (λ b e. laws.read_whole path s b e))
      where
        answered :
            (a : Answered F.Error (List ℕ))
            → ((b : List ℕ) → a ≡ gives b → F.node s path ≡ some (regular b))
            → IsReady F path s ts (after_read F a)
        answered (gives b) at = (whole b (at b refl), at b refl)
        answered (fails e) at = tt

    pub unless_failed-IsReady :
        (s' : F.State) (e : Option F.Error) (task : Task F)
        → IsReady F path s' ts task
        → IsReady F path s' ts (unless_failed F e task)
    unless_failed-IsReady s' none task h = h
    unless_failed-IsReady s' (some e) task h = tt

    pub chmod-Called :
        Called F IsTemp path ts s (next_call F path ts chmods s).0 (next_call F path ts chmods s).1
    unfolding next_call
    chmod-Called =
        kept-Called (F.chmod path s).0 (unless_failed F (F.chmod path s).1 reads)
          (λ q. laws.chmod_kept path q s)
          (unless_failed-IsReady (F.chmod path s).0 (F.chmod path s).1 reads tt)

    pub make-Called :
        Called F IsTemp path ts s (next_call F path ts makes s).0 (next_call F path ts makes s).1
    unfolding next_call
    make-Called = record {
      safe = record {
        temps = temps;
        there =
            All-map (Stands F s) (Stands F (F.mkdir_all (F.dir path) s).0) ts
              (λ t (n, at). (n, laws.made_kept (F.dir path) t s n at)) there;
        apart = apart;
        prepared =
            unless_failed-IsReady (F.mkdir_all (F.dir path) s).0 (F.mkdir_all (F.dir path) s).1
              generates tt;
      };
      whole = λ b at. whole b (laws.made_directories (F.dir path) path s b at);
      leaves = λ q n _ at. laws.made_kept (F.dir path) q s n at;
      fresh = All-map (λ t. t ∈ ts) _ ts (λ t m. inl m) (All-own ts);
    }

    pub generate-Called :
        Called F IsTemp path ts s
          (next_call F path ts generates s).0
          (next_call F path ts generates s).1
    unfolding next_call generate_host_key
    generate-Called =
        kept-Called (F.generate_key s).0 (after_generate F (generated F (F.generate_key s).1))
          (λ q. laws.generate_kept q s) (private_key (F.generate_key s).1)
      where
        block_of :
            (p : F.Private) (a : Answered F.Error F.Block)
            → F.marshal_private_key p ≡ a
            → IsReady F path
                (F.generate_key s).0
                ts
                (after_generate F (elim a [ fails e ↦ fails e | gives k ↦ gives (F.encode k) ]))
        block_of p (fails e) at = tt
        block_of p (gives k) at = (p, k, at, refl)

        private_key :
            (a : Answered F.Error F.Private)
            → IsReady F path (F.generate_key s).0 ts (after_generate F (generated F a))
        private_key (fails e) = tt
        private_key (gives p) = block_of p (F.marshal_private_key p) refl
