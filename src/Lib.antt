-- ===== src/Lib.antt =====
-- bomber-cli: a multiplayer Bomberman in the terminal, in Go. A game of a round is owned by the actor
-- of a room, which applies what its members send and what its timer brings; a hub opens and closes
-- rooms, and the terminal interface and the SSH host stand around them. This library models the game,
-- the actor of a room, the hub, the interface, the hub and the interface together, the limits and the key
-- of the host, the command line and parts of the load test.
--
-- Parts and files:
-- - Base: names of the libraries passed on, Boolean tests and their cases, lists over the native
--   numbers, sublists, integers, and the results of calls. `Result` has two failures: `panic` is an
--   index out of range in the Go code, `out_of_fuel` a loop of the model that was cut short.
-- - Game/Board, Game/Types: the data of internal/game/game.go. An array over the board is a function
--   on positions that is read and written on the board only. A time.Time is a number of nanoseconds.
-- - Game/Rules: the functions of internal/game/rules.go. Rules/Moves and Rules/Placements say when a
--   request is granted and what it changes, Rules/Survival who lives and who wins.
-- - Game/Setup, Game/Setup/Fairness: internal/game/setup.go, with `Spawns` and `New` of game.go, and the
--   board of a new round.
-- - Game/Engine: the methods of `Game` in game.go, `explode`, `ignite` and `propagateBlast` with
--   their mutual recursion. Engine/Removal is about the shift of the array of bombs, Engine/Blasted
--   about what any part of a chain reaction may do, Engine/Reach about the cells a blast reaches,
--   Engine/Explosion and Engine/Chain about one explosion and its recursion, Engine/Detonation about
--   the scan for triggered bombs.
-- - Game/Bombs, Game/Invariant, Game/Round: the invariant of a view between two calls, each call on a
--   valid view, and sequences of calls. Invariant/Deadline is about the end of a round.
-- - Room/Types, Room/Rules, Room/Actor: the data of internal/room/room.go, the functions of
--   internal/room/rules.go, and the handlers of `actor` in room.go.
-- - Room/Seats, Room/Invariant, Room/Run: the seats of a room, what is true of its actor between two
--   events, and the states that the loop of `run` comes to, one event at a time. Invariant/Ticks is
--   about the timer, Invariant/Entry and Invariant/Departures about `membership`, and
--   Invariant/Requests and Invariant/Commands about `command`.
-- - Room/Channels: `publish`, with the reads of a member between its steps, and `Submit`. Channels/Feeds
--   is about what reaches the members over time.
-- - Room/Names: the names of players in internal/room/hub.go.
-- - Room/Hub: the hub of hub.go. A map is the list of its values (Hub/Types, Hub/Maps). A room stands in
--   the hub with its actor, and a call of `change` is one event of that actor; the events that the room
--   has before and after it, while the hub holds its lock, are arguments of the call (Hub/Doors,
--   Hub/Rooms). Hub/Invariant says what holds between two calls, Hub/Updates what an update of the maps
--   keeps of it; Hub/Sessions, Hub/Selection, Hub/Answers, Hub/Entrances, Hub/Joining, Hub/Exits and
--   Hub/Listing are about the methods, and Hub/Run about all hubs that a server comes to.
-- - Base/Decimal, Base/Bytes: the decimal digits of a number (the verb d of fmt) and texts as code
--   points.
-- - Ui/Model, Ui/Invariant: internal/ui/ui.go, with the calls that the interface makes as results and
--   the answers of the hub as arguments.
-- - Ui/Board, Ui/Render, Ui/Cells, Ui/Lobby, Ui/Screen, Ui/Height, Ui/Texts, Ui/Lines: the texts of
--   internal/ui/render.go and what is true of the cells of the board, of the lobby, of the whole screen
--   and of its height.
-- - Host/Budget, Host/Input, Host/Pastes, Host/Reads: the byte budget and the reads of
--   internal/host/limits.go. The budget is exact where the code counts in float64.
-- - Server, Server/Invariant, Server/Steps, Server/Run: the hub with the programs of its sessions, as
--   `runGameSession` of internal/host/host.go puts them together. A message of a program is taken up
--   with the answers that the hub gives at that moment.
-- - Host/Key, Host/Key/Laws, Host/Key/Steps, Host/Key/Publishing, Host/Key/Starts, Host/Key/Ranks,
--   Host/Key/Returns: internal/host/hostkey.go, call by call, for servers that start at once. Laws says
--   what the code relies on in the operating system.
-- - Host/Wire, Host/Filter: the reads, writes and deadlines of a connection in internal/host/limits.go,
--   and the loop that filters the requests of a session in host.go.
-- - Cli: cmd/bomber-cli/main.go with the order of the calls in `New` and `Close` of host.go.
-- - Load/Observer, Load/Distribution, Load/Phases: the search in the output of a session, the latencies
--   and the order of the phases in scripts/loadtest/main.go.
-- - Host/Settings, Host/Connections, Host/Terminal, Host/Requests: the configuration, the connections,
--   their terminals and their requests in internal/host/host.go. Host/Terminal follows a window from the
--   request to the program. The SSH library, which `s.Pty()` asks, is taken to have one of the terminals
--   that `acceptPTY` has accepted, or none.
--
-- Numbers: identifiers (uint64), counts and ranges are natural numbers that the code only compares and
-- that stay small; a coordinate is an integer. Times do not overflow in the model; `Sub` saturates as
-- time.Time does. The seed is counted up modulo 2 ^ 64.
--
-- Fuel: an explosion takes a bomb out before it lights a cell, so the recursion of `explode` is at most
-- as deep as there are bombs, which is the fuel that the scan gives it. The scan itself has 441 rounds:
-- with at most 20 bombs, 21 * bombs + (bombs still to look at) falls in every round, since an explosion
-- takes a bomb away before it restarts the scan.
--
-- Parameters: math/rand is the record `Rand`, with a generator that a seed determines and `Intn n`
-- below n. net.SplitHostPort, net.ParseIP and gossh.Unmarshal are functions that return an option.
-- The calls of os, path/filepath, ed25519, ssh and pem for the key of the host are the record `Files`.
-- `Frames` is the type of the channels of the members.
--
-- Not modelled: the goroutine of `run`, whose cases are events here, and the logs; what the hub drains
-- from the channel of a session that leaves; how the terminal library calls the interface, and the
-- forwarding of messages to it; the timers of a connection, and the callbacks that the host hands to
-- the SSH library; the sessions that the load test drives; the scripts in Python, which are tools outside
-- the program.
pub mod Base
pub mod Game
pub mod Room
pub mod Ui
pub mod Host
pub mod Server
pub mod Cli
pub mod Load
