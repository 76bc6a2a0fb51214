-- ===== src/Host/Key.antt =====
-- internal/host/hostkey.go: the key of the host, which several servers that start at once may write.
-- A server makes one call of the operating system after the other, and the calls of the servers
-- interleave. The operating system and the cryptography are a parameter.
pub mod Laws
pub mod Steps
pub mod Publishing
pub mod Starts
pub mod Ranks
pub mod Returns
mod Tests
use bomber_cli.Base.{ℕ, ◌==◌, if◌then◌else◌, Bool, true, false, Option, none, some, List, [], ◌∷◌}

pub data Answered (E A : Type 0) : Type 0 where
  gives : A → Answered E A
  fails : E → Answered E A

-- What stands at a path: a regular file with its bytes, or something else.
pub data Node : Type 0 where
  regular : List ℕ → Node
  irregular : Node

-- What the code calls of os, path/filepath, ed25519, ssh and pem. `node` is what stands at a path, which
-- the code learns only by its calls.
pub record Files : Type 1 where
  pub Location : Type 0
  pub Error : Type 0
  pub Private : Type 0
  pub Block : Type 0
  pub State : Type 0
  pub node : State → Location → Option Node
  pub dir : Location → Location
  pub is_exist : Error → Bool
  pub is_not_exist : Error → Bool
  pub lstat_regular : Location → State → Answered Error Bool
  pub chmod : Location → State → State × Option Error
  pub read_file : Location → State → Answered Error (List ℕ)
  pub mkdir_all : Location → State → State × Option Error
  pub generate_key : State → State × Answered Error Private
  pub marshal_private_key : Private → Answered Error Block
  pub encode : Block → List ℕ
  pub create_temp : Location → State → State × Answered Error Location
  pub write : Location → List ℕ → State → State × Option Error
  pub sync : Location → State → State × Option Error
  pub close : Location → State → State × Option Error
  pub link : Location → Location → State → State × Option Error
  pub remove : Location → State → State × Option Error

-- What `hostKey` returns: the bytes, or that there is no regular file, or the error of a call.
pub data Outcome (F : Files) : Type 0 where
  key : List ℕ → Outcome F
  not_regular : Outcome F
  stopped_by : F.Error → Outcome F

-- The call that comes next: in `hostKey` Lstat, Chmod, ReadFile, MkdirAll and GenerateKey, in
-- `publishHostKey` CreateTemp, Write, Sync, Close, with the error of Write or Sync, and Link, and the
-- deferred Remove before the outcome is returned.
pub data Task (F : Files) : Type 0 where
  looks chmods reads makes generates : Task F
  creates : List ℕ → Task F
  writes : F.Location → List ℕ → Task F
  syncs : F.Location → List ℕ → Task F
  closes : F.Location → List ℕ → Option F.Error → Task F
  links : F.Location → List ℕ → Task F
  returns : Outcome F → Task F

-- A server that starts: the temporary files that it still has to remove, innermost call first, and
-- what it does next.
pub record Start (F : Files) : Type 0 where
  pub pending : List F.Location
  pub task : Task F

module _ (F : Files) where
  -- pem.EncodeToMemory(block), unless there is an error.
  abbrev pub generated : Answered F.Error F.Private → Answered F.Error (List ℕ)
  generated (fails e) = fails e
  generated (gives private) = elim (F.marshal_private_key private) [
    | fails e ↦ fails e
    | gives block ↦ gives (F.encode block)
  ]

  unfoldable pub generate_host_key : F.State → F.State × Answered F.Error (List ℕ)
  generate_host_key s = let (s', a) = F.generate_key s in (s', generated a)

  abbrev pub new_start : Start F
  new_start = record { pending = []; task = looks }

  -- if err != nil { return nil, err }
  abbrev pub unless_failed : Option F.Error → Task F → Task F
  unless_failed none t = t
  unless_failed (some e) t = returns (stopped_by e)

  abbrev pub after_lstat : Answered F.Error Bool → Task F
  after_lstat (gives is_regular) = if is_regular then chmods else returns not_regular
  after_lstat (fails e) = if F.is_not_exist e then makes else returns (stopped_by e)

  abbrev pub after_read : Answered F.Error (List ℕ) → Task F
  after_read (gives data_read) = returns (key data_read)
  after_read (fails e) = returns (stopped_by e)

  abbrev pub after_generate : Answered F.Error (List ℕ) → Task F
  after_generate (gives bytes) = creates bytes
  after_generate (fails e) = returns (stopped_by e)

  -- The removal is deferred if there is a temporary file.
  abbrev pub after_create : List F.Location → List ℕ → Answered F.Error F.Location → Start F
  after_create pending bytes (gives t) = record { pending = t ∷ pending; task = writes t bytes }
  after_create pending bytes (fails e) = record { pending = pending; task = returns (stopped_by e) }

  abbrev pub after_write : F.Location → List ℕ → Option F.Error → Task F
  after_write t bytes none = syncs t bytes
  after_write t bytes (some e) = closes t bytes (some e)

  abbrev pub after_close : F.Location → List ℕ → Option F.Error → Option F.Error → Task F
  after_close t bytes (some e) closed = returns (stopped_by e)
  after_close t bytes none closed = unless_failed closed (links t bytes)

  -- A key that another server has published is taken instead.
  abbrev pub after_link : List ℕ → Option F.Error → Task F
  after_link bytes none = returns (key bytes)
  after_link bytes (some e) = if F.is_exist e then looks else returns (stopped_by e)

  -- One call, for the key at the path.
  unfoldable pub next_call : F.Location → List F.Location → Task F → F.State → F.State × Start F
  next_call path ts looks s =
      (s, record { pending = ts; task = after_lstat (F.lstat_regular path s) })
  next_call path ts chmods s =
      let (s', e) = F.chmod path s in (s', record { pending = ts; task = unless_failed e reads })
  next_call path ts reads s = (s, record { pending = ts; task = after_read (F.read_file path s) })
  next_call path ts makes s =
      let (s', e) = F.mkdir_all (F.dir path) s in
      (s', record { pending = ts; task = unless_failed e generates })
  next_call path ts generates s =
      let (s', a) = generate_host_key s in (s', record { pending = ts; task = after_generate a })
  next_call path ts (creates bytes) s =
      let (s', a) = F.create_temp (F.dir path) s in (s', after_create ts bytes a)
  next_call path ts (writes t bytes) s =
      let (s', e) = F.write t bytes s in (s', record { pending = ts; task = after_write t bytes e })
  next_call path ts (syncs t bytes) s =
      let (s', e) = F.sync t s in (s', record { pending = ts; task = closes t bytes e })
  next_call path ts (closes t bytes e) s =
      let (s', c) = F.close t s in (s', record { pending = ts; task = after_close t bytes e c })
  next_call path ts (links t bytes) s =
      let (s', e) = F.link t path s in (s', record { pending = ts; task = after_link bytes e })
  next_call path [] (returns o) s = (s, record { pending = []; task = returns o })
  next_call path (t ∷ ts) (returns o) s =
      let (s', e) = F.remove t s in (s', record { pending = ts; task = returns o })

  -- Servers that start at once on one system of files, each with a number.
  pub record System : Type 0 where
    pub files : F.State
    pub starts : ℕ → Start F

  -- The next call of one server.
  unfoldable pub turn : F.Location → ℕ → System → System
  turn path i y =
      let (s, v) = next_call path (y.starts i).pending (y.starts i).task y.files in
      record { files = s; starts = λ j. if j == i then v else y.starts j }

  -- The servers make their calls in the order of a list of their numbers.
  unfoldable pub turns : F.Location → List ℕ → System → System
  turns path [] y = y
  turns path (i ∷ is) y = turns path is (turn path i y)
