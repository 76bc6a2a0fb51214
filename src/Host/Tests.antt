-- ===== src/Host/Tests.antt =====
-- The limits of the server on concrete inputs.
use bomber_cli.Base.{
  ok, Text, codes, ℕ, pos, negsuc, ◌+◌, ◌-◌, ◌*◌, ◌<◌, ◌≤◌, ◌≡◌, ◌↔◌, ◌⊎◌, refl, arith, true, false,
  Option, none, some, List, [], ◌∷◌, ◌++◌, Returns,
}
use bomber_cli.Game.Types.{second}
use bomber_cli.Host.Budget.{allow, ByteBudget, new_byte_budget, allowed}
use bomber_cli.Host.Input.{read, scan, paste_prefix, has_paste, reads}
use bomber_cli.Host.Reads.{text_of, IsOverdrawn, reads-has_paste}
use bomber_cli.Host.Requests.{
  bytes_of, resize_terminal, resize_terminal-bytes_of, Modes, valid_terminal_modes,
  valid_terminal_modes_iff, PtyPayload, handle_request,
}
use bomber_cli.Host.Filter.{
  Request, Turn, cancelled, arrives, filter_requests, Accounted, filter_requests-Accounted,
}
use bomber_cli.Host.Wire.{
  new_wire, Traffic, deadline_set, bytes_came, written, pass, pass-IsGuarded,
}
use bomber_cli.Room.Names.{name_eq}
use bomber_cli.Host.Settings.{Config, default_config}
use bomber_cli.Room.Channels.{publish}
use bomber_cli.Host.Terminal.{
  new_client, Happening, channel_asked, pty_asked, resize_asked, shell_asked, window_read, happen,
}
use bomber_cli.Host.Connections.{
  Host, new_host, accept_connection, IsLimited, started, called, Listens-IsLimited,
}

abbrev budget : ByteBudget
budget = new_byte_budget 1024 8192 0

abbrev calls : List (ℕ × ℕ)
calls = (8000, 5) ∷ (300, 1000) ∷ (100, 2000) ∷ []

-- The marker, cut into two reads.
abbrev two_reads : List (ℕ × List ℕ)
two_reads = (1, codes "w" ++ 27 ∷ codes "[20") ∷ (2, codes "0~x") ∷ []

reads-has_paste_example :
    Returns
      (λ (r, passed).
        (passed ≡ true)
        ↔ ((has_paste (text_of two_reads) ≡ false) × (IsOverdrawn budget two_reads → ⊥)))
      (reads two_reads (record { budget = budget; prefix = 0 }))
reads-has_paste_example = reads-has_paste two_reads budget

abbrev eight : List ℕ
eight = 0 ∷ 0 ∷ 0 ∷ 0 ∷ 0 ∷ 0 ∷ 0 ∷ 0 ∷ []

resize_terminal-bytes_of_example :
    ((300 ≤ 10000) × (70000 ≤ 10000)
      → resize_terminal true (bytes_of 300 ++ bytes_of 70000 ++ eight) ≡ some (300, 70000))
    × ((10000 < 300) ⊎ (10000 < 70000)
        → resize_terminal true (bytes_of 300 ++ bytes_of 70000 ++ eight) ≡ none)
    × (resize_terminal false (bytes_of 300 ++ bytes_of 70000 ++ eight) ≡ none)
resize_terminal-bytes_of_example =
    resize_terminal-bytes_of 300 70000 eight (omega arith) (omega arith) refl

abbrev echo_mode : List ℕ
echo_mode = 53 ∷ 0 ∷ 0 ∷ 0 ∷ 1 ∷ 0 ∷ []

valid_terminal_modes_iff_example :
    (valid_terminal_modes echo_mode ≡ true) ↔ ((echo_mode ≡ []) ⊎ Modes echo_mode)
valid_terminal_modes_iff_example = valid_terminal_modes_iff echo_mode

-- A library that reads every payload as the same terminal.
abbrev one_terminal : List ℕ → Option PtyPayload
one_terminal payload =
    some (record { term = codes "xterm"; width = 80; height = 24; modes = echo_mode })

abbrev bare_config : Config
bare_config = record default_config { handshake_timeout = negsuc 0; max_sessions_per_ip = pos 0 }

-- Two connections from one address, to a server that takes one from each.
abbrev same_address : Text → Option Text
same_address address = some address

abbrev busy_host : Host
busy_host =
    (accept_connection same_address same_address 2 8 (codes "10.0.0.1")
      (accept_connection same_address same_address 1 7 (codes "10.0.0.1") (new_host 2 1 0)).0).0

Listens-IsLimited_example : IsLimited busy_host
Listens-IsLimited_example =
    Listens-IsLimited same_address same_address 2 1 busy_host
      (called 2 8 (codes "10.0.0.1") _ (called 1 7 (codes "10.0.0.1") _ (started 0)))

abbrev happenings : List Happening
happenings =
    resize_asked false false (0 ∷ 0 ∷ 0 ∷ 80 ∷ 0 ∷ 0 ∷ 0 ∷ 24 ∷ eight)
    ∷ channel_asked
    ∷ pty_asked 20000 24
    ∷ pty_asked 80 24
    ∷ shell_asked (codes "shell") [] true 0
    ∷ resize_asked true false (0 ∷ 0 ∷ 0 ∷ 90 ∷ 0 ∷ 0 ∷ 0 ∷ 30 ∷ eight)
    ∷ window_read
    ∷ []

happenings_test :
    ((happen happenings new_client).program ≡ some (80, 24))
    × ((happen happenings new_client).windows.received ≡ (90, 30) ∷ [])
unfolding resize_terminal publish name_eq
happenings_test = (refl, refl)

-- The second read completes the marker, and the connection is closed.
reads_test :
    reads two_reads (record { budget = budget; prefix = 0 })
    ≡ ok (record { budget = (allowed ((5, 1) ∷ (3, 2) ∷ []) budget).0; prefix = 0 }, false)
unfolding reads read scan paste_prefix allow allowed
reads_test = refl

resize_terminal_test :
    resize_terminal true (0 ∷ 0 ∷ 0 ∷ 80 ∷ 0 ∷ 0 ∷ 1 ∷ 0 ∷ eight) ≡ some (80, 256)
unfolding resize_terminal
resize_terminal_test = refl

abbrev shell_request : Request
shell_request = record { kind = codes "shell"; payload = [] }

abbrev agent_request : Request
agent_request = record { kind = codes "auth-agent-req@openssh.com"; payload = [] }

-- A shell, a request that is refused, and another one behind the end of the channel.
abbrev selects : List Turn
selects =
    arrives true true shell_request
    ∷ arrives true true agent_request
    ∷ cancelled
    ∷ arrives true true shell_request
    ∷ []

filter_requests_test : filter_requests one_terminal selects ≡ record {
  handed_on = shell_request ∷ [];
  answered = (agent_request, false) ∷ [];
  given_up = [];
  drained = shell_request ∷ [];
  out_closed = true;
  connection_closed = true;
}
unfolding filter_requests handle_request name_eq
filter_requests_test = refl

filter_requests-Accounted_example :
    Accounted one_terminal selects (filter_requests one_terminal selects)
filter_requests-Accounted_example = filter_requests-Accounted one_terminal selects

-- A write at 3, and deadlines of the library and a read behind it.
abbrev traffic : List Traffic
traffic =
    deadline_set (some 60) ∷ written 3 false false ∷ deadline_set (some 90) ∷ bytes_came 4 500 ∷ []

pass-IsGuarded_example :
    ((pass traffic (new_wire (new_byte_budget 64 256 1))).1 * second
      ≤ 256 * second
        + ((pass traffic (new_wire (new_byte_budget 64 256 1))).0.ingress.updated - 1) * 64)
    × ((pass traffic (new_wire (new_byte_budget 64 256 1))).0.closed ≡ false
        → (pass traffic (new_wire (new_byte_budget 64 256 1))).1 ≡ 500)
    × ((pass traffic (new_wire (new_byte_budget 64 256 1))).0.write_deadline
        ≡ some (3 + 15 * second))
pass-IsGuarded_example = pass-IsGuarded 64 256 1 traffic (omega arith, tt)
