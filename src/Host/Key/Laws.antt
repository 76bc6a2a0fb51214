-- ===== src/Host/Key/Laws.antt =====
-- What the code of internal/host/hostkey.go relies on in the operating system, and what holds of a
-- server between two calls.
use bomber_cli.Base.{ℕ, ◌≡◌, ◌≢◌, ◌⊎◌, true, none, some, List, [], All, AllPairs, ◌∈◌}
use bomber_cli.Host.Key.{
  gives, fails, Node, regular, Files, key, not_regular, stopped_by, Task, looks, chmods, reads,
  makes, generates, creates, writes, syncs, closes, links, returns, Start,
}

-- The documented behaviour. Lstat and ReadFile tell what stands at a path. Chmod, Sync, Close and the
-- generation of a key change no file, MkdirAll makes nothing but directories. CreateTemp makes an
-- empty file at a path where nothing stands, whose name is that of a temporary file. Write puts all
-- its bytes into an empty file if it does not fail. Link gives a file a second path where nothing
-- stands, and Remove removes nothing else.
pub record Documented (F : Files) (IsTemp : F.Location → Type 0) : Type 0 where
  pub looked :
      (p : F.Location) (s : F.State) (e : F.Error)
      → F.lstat_regular p s ≡ fails e
      → F.is_not_exist e ≡ true
      → F.node s p ≡ none
  pub read_whole :
      (p : F.Location) (s : F.State) (b : List ℕ)
      → F.read_file p s ≡ gives b
      → F.node s p ≡ some (regular b)
  pub chmod_kept : (p q : F.Location) (s : F.State) → F.node (F.chmod p s).0 q ≡ F.node s q
  pub made_kept :
      (p q : F.Location) (s : F.State) (n : Node)
      → F.node s q ≡ some n
      → F.node (F.mkdir_all p s).0 q ≡ some n
  pub made_directories :
      (p q : F.Location) (s : F.State) (b : List ℕ)
      → F.node (F.mkdir_all p s).0 q ≡ some (regular b)
      → F.node s q ≡ some (regular b)
  pub generate_kept : (q : F.Location) (s : F.State) → F.node (F.generate_key s).0 q ≡ F.node s q
  pub created :
      (d t : F.Location) (s : F.State)
      → (F.create_temp d s).1 ≡ gives t
      → IsTemp t × (F.node s t ≡ none) × (F.node (F.create_temp d s).0 t ≡ some (regular []))
  pub create_kept :
      (d q : F.Location) (s : F.State)
      → (F.node (F.create_temp d s).0 q ≡ F.node s q) ⊎ ((F.create_temp d s).1 ≡ gives q)
  pub write_whole :
      (t : F.Location) (b : List ℕ) (s : F.State)
      → F.node s t ≡ some (regular [])
      → (F.write t b s).1 ≡ none
      → F.node (F.write t b s).0 t ≡ some (regular b)
  pub write_kept :
      (t q : F.Location) (b : List ℕ) (s : F.State)
      → q ≢ t
      → F.node (F.write t b s).0 q ≡ F.node s q
  pub write_there :
      (t q : F.Location) (b : List ℕ) (s : F.State) (n : Node)
      → F.node s q ≡ some n
      → (n' : Node) × (F.node (F.write t b s).0 q ≡ some n')
  pub sync_kept : (t q : F.Location) (s : F.State) → F.node (F.sync t s).0 q ≡ F.node s q
  pub close_kept : (t q : F.Location) (s : F.State) → F.node (F.close t s).0 q ≡ F.node s q
  pub link_new :
      (t p : F.Location) (s : F.State)
      → (F.link t p s).1 ≡ none
      → (F.node s p ≡ none) × (F.node (F.link t p s).0 p ≡ F.node s t)
  pub link_kept :
      (t p q : F.Location) (s : F.State)
      → ((F.link t p s).1 ≢ none) ⊎ (q ≢ p)
      → F.node (F.link t p s).0 q ≡ F.node s q
  pub link_exist :
      (t p : F.Location) (s : F.State) (e : F.Error)
      → (F.link t p s).1 ≡ some e
      → F.is_exist e ≡ true
      → F.node s p ≢ none
  pub remove_kept :
      (t q : F.Location) (s : F.State) → q ≢ t → F.node (F.remove t s).0 q ≡ F.node s q

module _ (F : Files) where
  -- The bytes are a whole key.
  abbrev pub IsKey : List ℕ → Type 0
  IsKey b =
      (private : F.Private) × (block : F.Block) × (F.marshal_private_key private ≡ gives block)
      × (b ≡ F.encode block)

  -- A regular file at the path is a whole key.
  abbrev pub IsWhole : F.Location → F.State → Type 0
  IsWhole path s = (b : List ℕ) → F.node s path ≡ some (regular b) → IsKey b

  abbrev pub Stands : F.State → F.Location → Type 0
  Stands s q = (n : Node) × (F.node s q ≡ some n)

  -- The temporary file holds the whole key.
  abbrev pub IsWritten : F.State → List F.Location → F.Location → List ℕ → Type 0
  IsWritten s ts t b = IsKey b × (t ∈ ts) × (F.node s t ≡ some (regular b))

  abbrev pub IsReady : F.Location → F.State → List F.Location → Task F → Type 0
  IsReady path s ts looks = Unit
  IsReady path s ts chmods = Unit
  IsReady path s ts reads = Unit
  IsReady path s ts makes = Unit
  IsReady path s ts generates = Unit
  IsReady path s ts (creates b) = IsKey b
  IsReady path s ts (writes t b) = IsKey b × (t ∈ ts) × (F.node s t ≡ some (regular []))
  IsReady path s ts (syncs t b) = IsWritten s ts t b
  IsReady path s ts (closes t b none) = IsWritten s ts t b
  IsReady path s ts (closes t b (some e)) = Unit
  IsReady path s ts (links t b) = IsWritten s ts t b
  IsReady path s ts (returns (key b)) = IsKey b × (F.node s path ≡ some (regular b))
  IsReady path s ts (returns not_regular) = Unit
  IsReady path s ts (returns (stopped_by e)) = Unit

  abbrev pub PathsApart : F.Location → F.Location → Type 0
  PathsApart p q = p ≢ q

  -- The temporary files of the server are there, each once, and it is ready for its next call.
  pub record IsSafe (IsTemp : F.Location → Type 0) (path : F.Location) (s : F.State) (v : Start F)
      : Type 0 where
    pub temps : All IsTemp v.pending
    pub there : All (Stands s) v.pending
    pub apart : AllPairs PathsApart v.pending
    pub prepared : IsReady path s v.pending v.task

  -- Nothing that stands elsewhere than at these paths is changed.
  abbrev pub Leaves : List F.Location → F.State → F.State → Type 0
  Leaves own s s' =
      (q : F.Location) (n : Node) → (q ∈ own → ⊥) → F.node s q ≡ some n → F.node s' q ≡ some n

  -- What a call of a server leaves.
  pub record Called (IsTemp : F.Location → Type 0) (path : F.Location) (own : List F.Location)
      (s s' : F.State) (v : Start F) : Type 0 where
    pub safe : IsSafe IsTemp path s' v
    pub whole : IsWhole path s'
    pub leaves : Leaves own s s'
    pub fresh : All (λ t. (t ∈ own) ⊎ (F.node s t ≡ none)) v.pending
