-- ===== src/Cli/Tests.antt =====
-- The program with flags, and with a host key that cannot be read.
use bomber_cli.Base.{ℕ, ◌≡◌, ◌↔◌, refl, false, none, some, [], ◌∷◌, pos}
use bomber_cli.Host.Settings.{default_config, configured}
use bomber_cli.Cli.{
  Flags, Calls, signalled, opens_hub, serves, closes_connections, shuts_down, closes_hub, run, main,
  IsClosed, IsSmooth, run-IsClosed,
}

abbrev small_flags : Flags
small_flags = record {
  version = false;
  max_sessions = some (pos 4);
  max_rooms = none;
  max_sessions_per_ip = none;
  idle_timeout = none;
}

abbrev smooth_calls : Calls ℕ
smooth_calls = record {
  host_key = none;
  new_server = none;
  listen = none;
  ending = signalled;
  shutdown = none;
}

abbrev busy_port : Calls ℕ
busy_port = record smooth_calls { listen = some 98 }

main_test : main small_flags smooth_calls ≡ (
  opens_hub (pos 4) (pos 32) ∷ serves ∷ closes_connections ∷ shuts_down ∷ closes_hub ∷ [],
  false,
)
unfolding main run configured
main_test = refl

run-IsClosed_example :
    IsClosed (pos 128) (pos 32) (run default_config busy_port).0
    × (((run default_config busy_port).1 ≡ none) ↔ IsSmooth default_config busy_port)
run-IsClosed_example = run-IsClosed default_config busy_port
