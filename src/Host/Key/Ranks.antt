-- ===== src/Host/Key/Ranks.antt =====
-- How many calls a server has left until `hostKey` of internal/host/hostkey.go returns.
use bomber_cli.Base.{
  ℕ, ◌+◌, ◌-◌, ◌≤◌, ◌≡◌, ◌≢◌, refl, inl, inr, arith, Bool, true, false, Option, none, some, List,
  [], ◌∷◌, length, Bool-cases, if◌then◌else◌, is_some,
}
use bomber_cli.Host.Key.{
  Answered, gives, fails, Node, Files, Outcome, Task, looks, chmods, reads, makes, generates,
  creates, writes, syncs, closes, links, returns, Start, next_call, generated, generate_host_key,
  unless_failed, after_lstat, after_read, after_generate, after_create, after_write, after_link,
}
use bomber_cli.Host.Key.Laws.{Documented}

module _ (F : Files) where
  -- The calls that are left before the removal of temporary files, if something stands at the path
  -- and if nothing does.
  abbrev pub calls_left : Bool → Task F → ℕ
  calls_left there looks = if there then 3 else 12
  calls_left there chmods = 2
  calls_left there reads = 1
  calls_left there makes = 11
  calls_left there generates = 10
  calls_left there (creates b) = 9
  calls_left there (writes t b) = 7
  calls_left there (syncs t b) = 6
  calls_left there (closes t b e) = 5
  calls_left there (links t b) = 4
  calls_left there (returns o) = 0

  abbrev pub rank : F.Location → F.State → Start F → ℕ
  rank path s v = calls_left (is_some (F.node s path)) v.task + length v.pending

  pub looks_bounds : (there : Bool) → (3 ≤ calls_left there looks) × (calls_left there looks ≤ 12)
  looks_bounds true = (omega arith, omega arith)
  looks_bounds false = (omega arith, omega arith)

  unless_failed-left :
      (there : Bool) (e : Option F.Error) (task : Task F)
      → calls_left there (unless_failed F e task) ≤ calls_left there task
  unless_failed-left there none task = omega arith
  unless_failed-left there (some e) task = omega arith

  after_read-left :
      (there : Bool) (a : Answered F.Error (List ℕ)) → calls_left there (after_read F a) ≤ 0
  after_read-left there (gives b) = omega arith
  after_read-left there (fails e) = omega arith

  after_generate-left :
      (there : Bool) (a : Answered F.Error (List ℕ)) → calls_left there (after_generate F a) ≤ 9
  after_generate-left there (gives b) = omega arith
  after_generate-left there (fails e) = omega arith

  after_create-left :
      (there : Bool) (ts : List F.Location) (b : List ℕ) (a : Answered F.Error F.Location)
      → calls_left there (after_create F ts b a).task + length (after_create F ts b a).pending
        ≤ 8 + length ts
  after_create-left there ts b (gives t) = omega arith
  after_create-left there ts b (fails e) = omega arith

  after_write-left :
      (there : Bool) (t : F.Location) (b : List ℕ) (e : Option F.Error)
      → calls_left there (after_write F t b e) ≤ 6
  after_write-left there t b none = omega arith
  after_write-left there t b (some e) = omega arith

  module _ (IsTemp : F.Location → Type 0) (laws : Documented F IsTemp) (path : F.Location) where
    pub next_call-rank :
        (s : F.State) (ts : List F.Location) (task : Task F)
        → rank path (next_call F path ts task s).0 (next_call F path ts task s).1
          ≤ rank path s (record { pending = ts; task = task }) - 1
    unfolding next_call generate_host_key
    next_call-rank s ts looks = answered (F.lstat_regular path s) refl
      where
        answered :
            (a : Answered F.Error Bool)
            → F.lstat_regular path s ≡ a
            → calls_left (is_some (F.node s path)) (after_lstat F a) + length ts
              ≤ calls_left (is_some (F.node s path)) looks + length ts - 1
        answered (gives true) at = omega (arith, looks_bounds (is_some (F.node s path)))
        answered (gives false) at = omega (arith, looks_bounds (is_some (F.node s path)))
        answered (fails e) at = elim (Bool-cases (F.is_not_exist e)) [
          | inl f ↦ rw f rw (laws.looked path s e at f) (omega arith)
          | inr f ↦ rw f (omega (arith, looks_bounds (is_some (F.node s path))))
        ]
    next_call-rank s ts chmods = omega (
      arith,
      unless_failed-left (is_some (F.node (F.chmod path s).0 path)) (F.chmod path s).1 reads,
    )
    next_call-rank s ts reads =
        omega (arith, after_read-left (is_some (F.node s path)) (F.read_file path s))
    next_call-rank s ts makes = omega (
      arith,
      unless_failed-left (is_some (F.node (F.mkdir_all (F.dir path) s).0 path))
          (F.mkdir_all (F.dir path) s).1 generates,
    )
    next_call-rank s ts generates = omega (
      arith,
      after_generate-left (is_some (F.node (F.generate_key s).0 path))
          (generated F (F.generate_key s).1),
    )
    next_call-rank s ts (creates b) = omega (
      arith,
      after_create-left (is_some (F.node (F.create_temp (F.dir path) s).0 path)) ts b
          (F.create_temp (F.dir path) s).1,
    )
    next_call-rank s ts (writes t b) =
        omega
          (arith, after_write-left (is_some (F.node (F.write t b s).0 path)) t b (F.write t b s).1)
    next_call-rank s ts (syncs t b) = omega arith
    next_call-rank s ts (closes t b none) = omega (
      arith,
      unless_failed-left (is_some (F.node (F.close t s).0 path)) (F.close t s).1 (links t b),
    )
    next_call-rank s ts (closes t b (some e)) = omega arith
    next_call-rank s ts (links t b) = linked (F.link t path s).1 refl
      where
        linked :
            (e : Option F.Error)
            → (F.link t path s).1 ≡ e
            → calls_left (is_some (F.node (F.link t path s).0 path)) (after_link F b e) + length ts
              ≤ 4 + length ts - 1
        linked none at = omega arith
        linked (some e) at = elim (Bool-cases (F.is_exist e)) [
          | inl f ↦
              let same = laws.link_kept t path path s (inl (λ g. cc (at, g))) in
              rw f rw same (present (F.node s path) (laws.link_exist t path s e at f))
          | inr f ↦ rw f (omega arith)
        ]
          where
            present :
                (o : Option Node)
                → o ≢ none
                → (if is_some o then 3 else 12) + length ts ≤ 4 + length ts - 1
            present none n = absurd (n refl)
            present (some x) n = omega arith
    next_call-rank s [] (returns o) = omega arith
    next_call-rank s (t ∷ ts) (returns o) = omega arith

  -- The server has returned, and has tried to remove every temporary file.
  abbrev pub HasReturned : Start F → Type 0
  HasReturned v = (o : Outcome F) × (v ≡ record { pending = []; task = returns o })

  pub rank_zero :
      (there : Bool) (v : Start F) → calls_left there v.task + length v.pending ≡ 0 → HasReturned v
  rank_zero there v e = ended there v.pending v.task e
    where
      ended :
          (there : Bool) (ts : List F.Location) (task : Task F)
          → calls_left there task + length ts ≡ 0
          → HasReturned (record { pending = ts; task = task })
      ended there [] (returns o) e = (o, refl)
      ended there (t ∷ ts) (returns o) e = absurd (omega (arith, e))
      ended there ts looks e = absurd (omega (arith, e, looks_bounds there))
      ended there ts chmods e = absurd (omega (arith, e))
      ended there ts reads e = absurd (omega (arith, e))
      ended there ts makes e = absurd (omega (arith, e))
      ended there ts generates e = absurd (omega (arith, e))
      ended there ts (creates b) e = absurd (omega (arith, e))
      ended there ts (writes t b) e = absurd (omega (arith, e))
      ended there ts (syncs t b) e = absurd (omega (arith, e))
      ended there ts (closes t b c) e = absurd (omega (arith, e))
      ended there ts (links t b) e = absurd (omega (arith, e))

  -- A file at the path leaves no more calls.
  pub calls_left_there :
      (before after : Bool) (task : Task F)
      → (before ≡ true → after ≡ true)
      → calls_left after task ≤ calls_left before task
  calls_left_there false after looks f = (looks_bounds after).1
  calls_left_there true after looks f = rw (f refl) (omega arith)
  calls_left_there before after chmods f = omega arith
  calls_left_there before after reads f = omega arith
  calls_left_there before after makes f = omega arith
  calls_left_there before after generates f = omega arith
  calls_left_there before after (creates b) f = omega arith
  calls_left_there before after (writes t b) f = omega arith
  calls_left_there before after (syncs t b) f = omega arith
  calls_left_there before after (closes t b e) f = omega arith
  calls_left_there before after (links t b) f = omega arith
  calls_left_there before after (returns o) f = omega arith
