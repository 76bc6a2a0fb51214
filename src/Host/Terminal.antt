-- ===== src/Host/Terminal.antt =====
-- What a connection of internal/host/host.go keeps of its client: whether its one channel is taken,
-- whether it has a terminal, the windows of the terminals that were accepted, the program of its session
-- and the channel of windows to it. The SSH library calls these functions. It answers `s.Pty()` with a
-- terminal that was accepted, and it starts one program at most on the one channel.
use bomber_cli.Base.{
  ℕ, ◌≤◌, ◌≡◌, Bool, true, false, not, is_some, if◌then◌else◌, get_elem?, ◌&&◌, Option, none, some,
  List, [], ◌∷◌, All, Text, codes,
}
use bomber_cli.Room.Names.{name_eq}
use bomber_cli.Room.Channels.{Feed, receive, publish}
use bomber_cli.Host.Requests.{valid_window, is_empty, resize_terminal}

-- `accepted` has the windows of the terminals for which `acceptPTY` answered true. `program` is the window
-- with which the program was started, if it runs: the one of `ui.New` and of the first message to it.
pub record Client : Type 0 where
  pub has_channel : Bool
  pub has_pty : Bool
  pub accepted : List (ℕ × ℕ)
  pub program : Option (ℕ × ℕ)
  pub windows : Feed (ℕ × ℕ)

abbrev pub new_client : Client
new_client = record {
  has_channel = false;
  has_pty = false;
  accepted = [];
  program = none;
  windows = record { slot = none; received = [] };
}

-- `handleSessionChannel`, with the compare-and-swap of the flag; the answer is whether the channel is
-- accepted.
abbrev pub take_channel : Bool → Client → Client × Bool
take_channel true c = (c, false)
take_channel false c = (record c { has_channel = true }, true)

abbrev pub handle_session_channel : Client → Client × Bool
handle_session_channel c = take_channel c.has_channel c

abbrev pub take_pty : Bool → ℕ × ℕ → Client → Client × Bool
take_pty false w c = (c, false)
take_pty true w c = (record c { has_pty = true; accepted = w ∷ c.accepted }, true)

abbrev pub accept_pty : ℕ → ℕ → Client → Client × Bool
accept_pty w h c = take_pty (valid_window w h) (w, h) c

-- `pty` says whether the session of the SSH library has a terminal. If the shell is accepted, the timer
-- of the handshake stops.
abbrev pub accept_shell : Text → Bool → Text → Bool
accept_shell kind pty command = name_eq kind (codes "shell") && pty && is_empty command

-- `runGameSession` from the shell request on, with the terminal that the SSH library has for the session;
-- `connected` says whether the hub takes the session. A second program is not started.
abbrev pub run_game_session : Bool → Option (ℕ × ℕ) → Client → Client
run_game_session connected none c = c
run_game_session connected (some w) c =
    if connected && not (is_some c.program) then record c { program = some w } else c

abbrev pub shell : Text → Text → Bool → Option (ℕ × ℕ) → Client → Client
shell kind command connected pty c =
    if accept_shell kind (is_some pty) command then run_game_session connected pty c else c

-- The case of `windows` in `forwardSessionUpdates`, which runs with the program.
abbrev pub forward_window : Client → Client
forward_window c = if is_some c.program then record c { windows = receive c.windows } else c

-- The same selects as in `publish` of a room; `early` and `late` say whether the program reads between.
abbrev pub publish_latest_window : Bool → Bool → ℕ × ℕ → Client → Client
publish_latest_window early late w c =
    let runs = is_some c.program in
    record c { windows = publish (early && runs) (late && runs) w c.windows }

-- `resizeTerminal` with the window that it publishes.
abbrev pub resized : Bool → Bool → Option (ℕ × ℕ) → Client → Client × Bool
resized early late none c = (c, false)
resized early late (some w) c = (publish_latest_window early late w c, true)

abbrev pub resize : Bool → Bool → List ℕ → Client → Client × Bool
resize early late payload c = resized early late (resize_terminal c.has_pty payload) c

-- What happens to a connection. The number of a shell request says which of the accepted terminals the
-- SSH library has for the session; it has none if there is no such terminal.
pub data Happening : Type 0 where
  channel_asked : Happening
  pty_asked : ℕ → ℕ → Happening
  resize_asked : Bool → Bool → List ℕ → Happening
  shell_asked : Text → Text → Bool → ℕ → Happening
  window_read : Happening

abbrev pub happens : Happening → Client → Client
happens channel_asked c = (handle_session_channel c).0
happens (pty_asked w h) c = (accept_pty w h c).0
happens (resize_asked early late payload) c = (resize early late payload c).0
happens (shell_asked kind command connected n) c =
    shell kind command connected (get_elem? c.accepted n) c
happens window_read c = forward_window c

abbrev pub happen : List Happening → Client → Client
happen [] c = c
happen (v ∷ vs) c = happen vs (happens v c)

abbrev pub IsSmall : ℕ × ℕ → Type 0
IsSmall (w, h) = (w ≤ 10000) × (h ≤ 10000)

abbrev pub IsSlotSmall : Option (ℕ × ℕ) → Type 0
IsSlotSmall none = Unit {0}
IsSlotSmall (some w) = IsSmall w

-- Only small windows are accepted, on their way or with the program, from the one that it starts with on,
-- and there are none and no program before there is a terminal.
pub record IsTame (c : Client) : Type 0 where
  pub waits : IsSlotSmall c.windows.slot
  pub came : All IsSmall c.windows.received
  pub offered : All IsSmall c.accepted
  pub started : IsSlotSmall c.program
  pub after_pty :
      c.has_pty ≡ false
      → (c.windows.slot ≡ none) × (c.windows.received ≡ []) × (c.accepted ≡ []) × (c.program ≡ none)
