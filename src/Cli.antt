-- ===== src/Cli.antt =====
-- cmd/bomber-cli/main.go and the order of `New` in internal/host/host.go: how the server starts and
-- stops. The outcomes of the calls of the libraries and of the operating system are arguments.
mod Tests
use bomber_cli.Base.{
  ℕ, ◌≡◌, ◌↔◌, ◌⊎◌, refl, inl, inr, Bool, true, false, if◌then◌else◌, Option, none, some, List, [],
  ◌∷◌, ℤ, subst, Option-cases,
}
use bomber_cli.Host.Settings.{
  Config, ConfigError, Configured, accepted, refused, default_config, configured, ConfigOutcome,
  no_limits, negative, sound, configured-ConfigOutcome,
}

-- The flags that are given; the others keep the default of the configuration.
pub record Flags : Type 0 where
  pub version : Bool
  pub max_sessions : Option ℤ
  pub max_rooms : Option ℤ
  pub max_sessions_per_ip : Option ℤ
  pub idle_timeout : Option ℤ

abbrev pub flag_or : Option ℤ → ℤ → ℤ
flag_or none value = value
flag_or (some z) value = z

abbrev pub parse_config : Flags → Config
parse_config f = record default_config {
  max_sessions = flag_or f.max_sessions default_config.max_sessions;
  max_rooms = flag_or f.max_rooms default_config.max_rooms;
  max_sessions_per_ip = flag_or f.max_sessions_per_ip default_config.max_sessions_per_ip;
  idle_timeout = flag_or f.idle_timeout default_config.idle_timeout;
}

-- How the server stops to serve: by a signal, since it was closed, or with another result of `Serve`.
pub data Ending (E : Type 0) : Type 0 where
  signalled : Ending E
  server_closed : Ending E
  served : Option E → Ending E

-- The error of each call, if there is one.
pub record Calls (E : Type 0) : Type 0 where
  pub host_key : Option E
  pub new_server : Option E
  pub listen : Option E
  pub ending : Ending E
  pub shutdown : Option E

pub data RunError (E : Type 0) : Type 0 where
  bad_config : ConfigError → RunError E
  bad_key no_server no_listener no_service no_shutdown : E → RunError E

-- What the program does: it opens a hub with its limits, serves, closes the connections of the host, shuts
-- the SSH server down, and closes the hub.
pub data Act : Type 0 where
  opens_hub : ℤ → ℤ → Act
  serves : Act
  closes_connections : Act
  shuts_down : Act
  closes_hub : Act

-- What `New` leaves: an error or a host, and what it did.
pub data Opened (E : Type 0) : Type 0 where
  no_host : RunError E → List Act → Opened E
  has_host : Act → Opened E

-- The hub that is opened with the limits is closed at the end, alone if there is no server, else after the
-- connections and the server.
abbrev pub IsClosed : ℤ → ℤ → List Act → Type 0
IsClosed m n acts =
    (acts ≡ [])
    ⊎ ((acts ≡ opens_hub m n ∷ closes_hub ∷ [])
        ⊎ ((acts ≡ opens_hub m n ∷ closes_connections ∷ shuts_down ∷ closes_hub ∷ [])
            ⊎ (acts ≡ opens_hub m n ∷ serves ∷ closes_connections ∷ shuts_down ∷ closes_hub ∷ [])))

module _ {E : Type 0} where
  -- `New` of host.go from the key of the host on.
  abbrev pub open_host : Config → Option E → Option E → Opened E
  open_host c (some e) server = no_host (bad_key e) []
  open_host c none (some e) =
      no_host (no_server e) (opens_hub c.max_sessions c.max_rooms ∷ closes_hub ∷ [])
  open_host c none none = has_host (opens_hub c.max_sessions c.max_rooms)

  abbrev pub open_configured : Configured → Calls E → Opened E
  open_configured (refused x) calls = no_host (bad_config x) []
  open_configured (accepted c) calls = open_host c calls.host_key calls.new_server

  -- The error of the select in `run`.
  abbrev pub serve_error : Ending E → Option (RunError E)
  serve_error signalled = none
  serve_error server_closed = none
  serve_error (served none) = none
  serve_error (served (some e)) = some (no_service e)

  abbrev pub shutdown_error : Option E → Option (RunError E)
  shutdown_error none = none
  shutdown_error (some e) = some (no_shutdown e)

  abbrev pub first_error : Option (RunError E) → Option (RunError E) → Option (RunError E)
  first_error none second = second
  first_error (some e) second = some e

  -- `Close` of the host, with the error of `Shutdown`.
  abbrev pub close_host : Option E → List Act × Option E
  close_host shutdown = (closes_connections ∷ shuts_down ∷ closes_hub ∷ [], shutdown)

  -- `run` with a host.
  abbrev pub run_host : Act → Option E → Calls E → List Act × Option (RunError E)
  run_host opens (some e) calls =
      let (closing, _) = close_host calls.shutdown in (opens ∷ closing, some (no_listener e))
  run_host opens none calls =
      let (closing, failed) = close_host calls.shutdown in
      (opens ∷ serves ∷ closing, first_error (serve_error calls.ending) (shutdown_error failed))

  abbrev pub run_opened : Opened E → Calls E → List Act × Option (RunError E)
  run_opened (no_host e acts) calls = (acts, some e)
  run_opened (has_host opens) calls = run_host opens calls.listen calls

  unfoldable pub run : Config → Calls E → List Act × Option (RunError E)
  run c calls = run_opened (open_configured (configured c) calls) calls

  -- `main`: what the program does, and whether it exits with 1.
  unfoldable pub main : Flags → Calls E → List Act × Bool
  main f calls =
      if f.version
      then ([], false)
      else (let (acts, error) = run (parse_config f) calls in
          (acts, elim error [ none ↦ false | some e ↦ true ]))

  -- Every call succeeds, and the server stops by a signal or since it was closed, or without an error.
  abbrev pub IsSmooth : Config → Calls E → Type 0
  IsSmooth c calls =
      ((c' : Config) × (configured c ≡ accepted c'))
      × (calls.host_key ≡ none)
      × (calls.new_server ≡ none)
      × (calls.listen ≡ none)
      × (serve_error calls.ending ≡ none)
      × (calls.shutdown ≡ none)

  run_host-IsClosed :
      (c : Config) (listen : Option E) (calls : Calls E)
      → let (acts, error) = run_host (opens_hub c.max_sessions c.max_rooms) listen calls in
        IsClosed c.max_sessions c.max_rooms acts
        × ((error ≡ none)
            ↔ ((listen ≡ none) × (serve_error calls.ending ≡ none) × (calls.shutdown ≡ none)))
  run_host-IsClosed c (some e) calls = (inr (inr (inl refl)), (λ x. cc, λ x. cc (x.0)))
  run_host-IsClosed c none calls =
      (inr (inr (inr refl)), both (serve_error calls.ending) calls.shutdown)
    where
      nothing : Option E
      nothing = none

      both :
          (a : Option (RunError E)) (b : Option E)
          → (first_error a (shutdown_error b) ≡ none) ↔ ((nothing ≡ none) × (a ≡ none) × (b ≡ none))
      both none none = (λ _. (refl, refl, refl), λ _. refl)
      both none (some e) = (λ x. cc, λ x. cc (x.2))
      both (some e) b = (λ x. cc, λ x. cc (x.1))

  -- The program opens a hub at most once, with the given limits, and closes it at the end, whatever
  -- fails; with a host, the connections are closed and the server is shut down before it. It ends
  -- without an error exactly if the configuration is accepted, every call succeeds, and the server
  -- stops by a signal, since it was closed, or without an error.
  pub run-IsClosed :
      (c : Config) (calls : Calls E)
      → let (acts, error) = run c calls in
        IsClosed c.max_sessions c.max_rooms acts × ((error ≡ none) ↔ IsSmooth c calls)
  unfolding run
  run-IsClosed c calls = opened (configured c) refl (configured-ConfigOutcome c)
    where
      host :
          (c' : Config)
          → configured c ≡ accepted c'
          → c'.max_sessions ≡ c.max_sessions
          → c'.max_rooms ≡ c.max_rooms
          → (key server : Option E) → calls.host_key ≡ key
          → calls.new_server ≡ server
          → let (acts, error) = run_opened (open_host c' key server) calls in
            IsClosed c.max_sessions c.max_rooms acts × ((error ≡ none) ↔ IsSmooth c calls)
      host c' e same same' (some x) server k s = (inl refl, (λ y. cc, λ y. cc (y.1, k)))
      host c' e same same' none (some x) k s =
          (inr (inl (rw same rw same' refl)), (λ y. cc, λ y. cc (y.2, s)))
      host c' e same same' none none k s =
          let (closed, smooth) = run_host-IsClosed c' calls.listen calls in
          let acts = (run_opened (open_host c' none none) calls).0 in
          (
            subst (λ m. IsClosed m c.max_rooms acts) same
                (subst (λ n. IsClosed c'.max_sessions n acts) same' closed),
            (
              λ y. let (a, b, d) = smooth.0 y in ((c', e), k, s, a, b, d),
              λ (ok_config, no_key, no_error, a, b, d). smooth.1 (a, b, d),
            ),
          )

      opened :
          (q : Configured)
          → configured c ≡ q
          → ConfigOutcome c q
          → let (acts, error) = run_opened (open_configured q calls) calls in
            IsClosed c.max_sessions c.max_rooms acts × ((error ≡ none) ↔ IsSmooth c calls)
      opened _ e (no_limits _) = (inl refl, (λ y. cc, λ y. cc (e, y.0.1)))
      opened _ e (negative _) = (inl refl, (λ y. cc, λ y. cc (e, y.0.1)))
      opened _ e (sound c' same same' _ _ _ _ _) =
          host c' e same same' calls.host_key calls.new_server refl refl
