-- ===== src/Host/Key/Publishing.antt =====
-- What the calls of `publishHostKey` in internal/host/hostkey.go leave.
use bomber_cli.Base.{
  ℕ, ◌≡◌, ◌≢◌, refl, sym, ap, ◌∙◌, inl, inr, Option, none, some, List, [], ◌∷◌, All, AllPairs, ◌∈◌,
  All-map, All-mem, All-both, Bool-cases, some_inj,
}
use bomber_cli.Host.Key.{
  Answered, gives, fails, Node, regular, Files, Outcome, key, not_regular, stopped_by, Task, looks,
  chmods, reads, makes, generates, creates, writes, syncs, closes, links, returns, unless_failed,
  after_create, after_write, after_link, next_call,
}
use bomber_cli.Host.Key.Laws.{
  Documented, IsKey, IsWhole, Stands, IsReady, PathsApart, IsSafe, Called,
}
use bomber_cli.Host.Key.Steps.{
  All-own, kept-Called, unless_failed-IsReady, look-Called, chmod-Called, read-Called, make-Called,
  generate-Called,
}

pub regular_inj : {b c : List ℕ} → regular b ≡ regular c → b ≡ c
regular_inj e = cc

module _ (F : Files) (IsTemp : F.Location → Type 0) (laws : Documented F IsTemp) (path : F.Location)
    (proper : IsTemp path → ⊥) where
  module _ (s : F.State) (ts : List F.Location) (temps : All IsTemp ts)
      (there : All (Stands F s) ts) (apart : AllPairs (PathsApart F) ts)
      (whole : IsWhole F path s) where
    path_apart : (t : F.Location) → t ∈ ts → path ≢ t
    path_apart t m e = proper (rw e (All-mem IsTemp ts temps m))

    create-Called :
        (b : List ℕ)
        → IsKey F b
        → Called F IsTemp path ts s
            (next_call F path ts (creates b) s).0
            (next_call F path ts (creates b) s).1
    unfolding next_call
    create-Called b k = answered (F.create_temp (F.dir path) s).1 refl
      where
        s' : F.State
        s' = (F.create_temp (F.dir path) s).0

        kept :
            (q : F.Location)
            → ((F.create_temp (F.dir path) s).1 ≡ gives q → ⊥)
            → F.node s' q ≡ F.node s q
        kept q n = elim (laws.create_kept (F.dir path) q s) [ inl e ↦ e | inr e ↦ absurd (n e) ]

        stays : (q : F.Location) (n : Node) → F.node s q ≡ some n → F.node s' q ≡ some n
        stays q n at = elim (laws.create_kept (F.dir path) q s) [
          | inl e ↦ e ∙ at
          | inr e ↦ let made = laws.created (F.dir path) q s e in absurd (cc (made.1, at))
        ]

        answered :
            (a : Answered F.Error F.Location)
            → (F.create_temp (F.dir path) s).1 ≡ a
            → Called F IsTemp path ts s s' (after_create F ts b a)
        answered (fails e) at =
            kept-Called F IsTemp laws path proper s ts temps there apart whole s'
              (returns (stopped_by e)) (λ q. kept q (λ f. cc (f, at))) tt
        answered (gives t) at =
            let (named, nothing, empty) = laws.created (F.dir path) t s at in
            record {
              safe = record {
                temps = (named, temps);
                there = (
                  (regular [], empty),
                  All-map (Stands F s) (Stands F s') ts (λ q (n, e). (n, stays q n e)) there,
                );
                apart = (
                  All-map (Stands F s) (PathsApart F t) ts
                      (λ q (n, e) same. cc (ap (F.node s) same, nothing, e)) there,
                  apart,
                );
                prepared = (k, inl refl, empty);
              };
              whole = λ c e.
                  whole c
                    (sym (kept path (λ f. proper (laws.created (F.dir path) path s f).0)) ∙ e);
              leaves = λ q n _ e. stays q n e;
              fresh = (inr nothing, All-map (λ q. q ∈ ts) _ ts (λ q m. inl m) (All-own ts));
            }

    module _ (t : F.Location) (b : List ℕ) (k : IsKey F b) (mine : t ∈ ts) where
      write-Called :
          F.node s t ≡ some (regular [])
          → Called F IsTemp path ts s
              (next_call F path ts (writes t b) s).0
              (next_call F path ts (writes t b) s).1
      unfolding next_call
      write-Called empty = record {
        safe = record {
          temps = temps;
          there =
              All-map (Stands F s) (Stands F s') ts (λ q (n, e). laws.write_there t q b s n e)
                there;
          apart = apart;
          prepared = answered (F.write t b s).1 (λ e. laws.write_whole t b s empty e);
        };
        whole = λ c e. whole c (sym (laws.write_kept t path b s (path_apart t mine)) ∙ e);
        leaves = λ q n other e. laws.write_kept t q b s (λ same. other (rw same mine)) ∙ e;
        fresh = All-map (λ q. q ∈ ts) _ ts (λ q m. inl m) (All-own ts);
      }
        where
          s' : F.State
          s' = (F.write t b s).0

          answered :
              (a : Option F.Error)
              → (a ≡ none → F.node s' t ≡ some (regular b))
              → IsReady F path s' ts (after_write F t b a)
          answered none at = (k, mine, at refl)
          answered (some e) at = tt

      sync-Called :
          F.node s t ≡ some (regular b)
          → Called F IsTemp path ts s
              (next_call F path ts (syncs t b) s).0
              (next_call F path ts (syncs t b) s).1
      unfolding next_call
      sync-Called at =
          kept-Called F IsTemp laws path proper s ts temps there apart whole (F.sync t s).0
            (closes t b (F.sync t s).1) (λ q. laws.sync_kept t q s) (answered (F.sync t s).1)
        where
          answered : (e : Option F.Error) → IsReady F path (F.sync t s).0 ts (closes t b e)
          answered none = (k, mine, laws.sync_kept t t s ∙ at)
          answered (some e) = tt

      close-Called :
          F.node s t ≡ some (regular b)
          → Called F IsTemp path ts s
              (next_call F path ts (closes t b none) s).0
              (next_call F path ts (closes t b none) s).1
      unfolding next_call
      close-Called at =
          kept-Called F IsTemp laws path proper s ts temps there apart whole (F.close t s).0
            (unless_failed F (F.close t s).1 (links t b)) (λ q. laws.close_kept t q s)
            (unless_failed-IsReady F IsTemp laws path proper s ts temps there apart whole
              (F.close t s).0 (F.close t s).1 (links t b) (k, mine, laws.close_kept t t s ∙ at))

      link-Called :
          F.node s t ≡ some (regular b)
          → Called F IsTemp path ts s
              (next_call F path ts (links t b) s).0
              (next_call F path ts (links t b) s).1
      unfolding next_call
      link-Called at = answered (F.link t path s).1 refl
        where
          s' : F.State
          s' = (F.link t path s).0

          answered :
              (e : Option F.Error)
              → (F.link t path s).1 ≡ e
              → Called F IsTemp path ts s s' (record { pending = ts; task = after_link F b e })
          answered (some e) f =
              kept-Called F IsTemp laws path proper s ts temps there apart whole s'
                (after_link F b (some e)) (λ q. laws.link_kept t path q s (inl (λ g. cc (f, g))))
                (again e)
            where
              again : (e : F.Error) → IsReady F path s' ts (after_link F b (some e))
              again e = elim (Bool-cases (F.is_exist e)) [ inl g ↦ rw g tt | inr g ↦ rw g tt ]
          answered none f =
              let (nothing, linked) = laws.link_new t path s f in
              let now : F.node s' path ≡ some (regular b) = linked ∙ at in
              record {
                safe = record {
                  temps = temps;
                  there =
                      All-map (Stands F s) (Stands F s') ts (λ q (n, e). (n, stays q n e)) there;
                  apart = apart;
                  prepared = (k, now);
                };
                whole = λ c e. rw (regular_inj (some_inj (sym e ∙ now))) k;
                leaves = λ q n _ e. stays q n e;
                fresh = All-map (λ q. q ∈ ts) _ ts (λ q m. inl m) (All-own ts);
              }
            where
              stays : (q : F.Location) (n : Node) → F.node s q ≡ some n → F.node s' q ≡ some n
              stays q n e =
                  laws.link_kept t path q s
                    (inr (λ same. cc (ap (F.node s) same, (laws.link_new t path s f).0, e)))
                  ∙ e

  remove-Called :
      (s : F.State) (t : F.Location) (ts : List F.Location) (o : Outcome F)
      → IsSafe F IsTemp path s (record { pending = t ∷ ts; task = returns o })
      → IsWhole F path s
      → Called F IsTemp path
          (t ∷ ts)
          s
          (next_call F path (t ∷ ts) (returns o) s).0
          (next_call F path (t ∷ ts) (returns o) s).1
  unfolding next_call
  remove-Called s t ts o h whole = record {
    safe = record {
      temps = h.temps.1;
      there =
          All-map (λ q. (PathsApart F t q) × Stands F s q) (Stands F s') ts
            (λ q (n, (m, e)). (m, kept q (λ f. n (sym f)) ∙ e))
            (All-both (PathsApart F t) (Stands F s) ts h.apart.0 h.there.1);
      apart = h.apart.1;
      prepared = still o h.prepared;
    };
    whole = λ c e. whole c (sym at_path ∙ e);
    leaves = λ q n other e. kept q (λ same. other (inl same)) ∙ e;
    fresh = All-map (λ q. q ∈ ts) _ ts (λ q m. inl (inr m)) (All-own ts);
  }
    where
      s' : F.State
      s' = (F.remove t s).0

      kept : (q : F.Location) → q ≢ t → F.node s' q ≡ F.node s q
      kept q n = laws.remove_kept t q s n

      at_path : F.node s' path ≡ F.node s path
      at_path = kept path (λ e. proper (rw e h.temps.0))

      still :
          (o : Outcome F) → IsReady F path s (t ∷ ts) (returns o) → IsReady F path s' ts (returns o)
      still (key b) (k, e) = (k, at_path ∙ e)
      still not_regular _ = tt
      still (stopped_by e) _ = tt

  failed_close-Called :
      (s : F.State) (ts : List F.Location)
      → All IsTemp ts
      → All (Stands F s) ts
      → AllPairs (PathsApart F) ts
      → IsWhole F path s
      → (t : F.Location) (b : List ℕ) (e : F.Error)
      → Called F IsTemp path ts s
          (next_call F path ts (closes t b (some e)) s).0
          (next_call F path ts (closes t b (some e)) s).1
  unfolding next_call
  failed_close-Called s ts temps there apart whole t b e =
      kept-Called F IsTemp laws path proper s ts temps there apart whole (F.close t s).0
        (returns (stopped_by e)) (λ q. laws.close_kept t q s) tt

  done-Called :
      (s : F.State) (o : Outcome F)
      → IsSafe F IsTemp path s (record { pending = []; task = returns o })
      → IsWhole F path s
      → Called F IsTemp path [] s
          (next_call F path [] (returns o) s).0
          (next_call F path [] (returns o) s).1
  unfolding next_call
  done-Called s o h whole =
      kept-Called F IsTemp laws path proper s [] tt tt tt whole s (returns o) (λ q. refl) h.prepared

  -- Whatever its outcome, a call of a server keeps it safe, changes nothing that stands elsewhere than
  -- at its own temporary files, and leaves nothing but a whole key at the path.
  pub next_call-Called :
      (s : F.State) (ts : List F.Location) (task : Task F)
      → IsSafe F IsTemp path s (record { pending = ts; task = task })
      → IsWhole F path s
      → Called F IsTemp path ts s (next_call F path ts task s).0 (next_call F path ts task s).1
  next_call-Called s ts looks h w =
      look-Called F IsTemp laws path proper s ts h.temps h.there h.apart w
  next_call-Called s ts chmods h w =
      chmod-Called F IsTemp laws path proper s ts h.temps h.there h.apart w
  next_call-Called s ts reads h w =
      read-Called F IsTemp laws path proper s ts h.temps h.there h.apart w
  next_call-Called s ts makes h w =
      make-Called F IsTemp laws path proper s ts h.temps h.there h.apart w
  next_call-Called s ts generates h w =
      generate-Called F IsTemp laws path proper s ts h.temps h.there h.apart w
  next_call-Called s ts (creates b) h w = create-Called s ts h.temps h.there h.apart w b h.prepared
  next_call-Called s ts (writes t b) h w =
      let (k, mine, at) = h.prepared in write-Called s ts h.temps h.there h.apart w t b k mine at
  next_call-Called s ts (syncs t b) h w =
      let (k, mine, at) = h.prepared in sync-Called s ts h.temps h.there h.apart w t b k mine at
  next_call-Called s ts (closes t b none) h w =
      let (k, mine, at) = h.prepared in close-Called s ts h.temps h.there h.apart w t b k mine at
  next_call-Called s ts (closes t b (some e)) h w =
      failed_close-Called s ts h.temps h.there h.apart w t b e
  next_call-Called s ts (links t b) h w =
      let (k, mine, at) = h.prepared in link-Called s ts h.temps h.there h.apart w t b k mine at
  next_call-Called s [] (returns o) h w = done-Called s o h w
  next_call-Called s (t ∷ ts) (returns o) h w = remove-Called s t ts o h w
