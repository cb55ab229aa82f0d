-- ===== src/Lib.antt =====
-- SysNetMon: a server that collects the metrics of agents, keeps alert rules and tells dashboards.
--
-- The program. Agents (cpp/client/main.cpp) connect to the server (cpp/server/main.cpp), register
-- and send one metrics message per line. Dashboards register, get a snapshot and the rules, and then
-- each metric, chat message, rule list and alert. The wire format, the alert command and the data
-- types are in cpp/include/common.hpp, which both programs include.
--
-- The files, from the bottom to the top.
--   Base: shared names, lists, dictionaries, and `Outcome`, how a C++ call ends: it returns, throws
--     (nothing in the program catches), or its behaviour is undefined (an index out of bounds).
--   Machine: what the program takes from the runtime: `double` with its operations, `std::stod`,
--     the fixed notation, and the readings of the clock. It is a parameter of the definitions.
--   Text: `trim`, `lower_copy`, `escape_json` of common.hpp; Text/Trim and Text/Escape hold laws.
--   Decimal: the decimal text of integers: `std::stoll`, `std::atoi` and the stream output.
--   Json: `json_get_string`, `json_get_number`, `json_get_integer` of common.hpp. A regular
--     expression is a function that matches at one place; the search is the leftmost match.
--     Json/Objects, Json/Found and Json/Numbers are about what the search finds in an object.
--   Events: the records `MetricSnapshot`, `ChatMessage`, `AlertRule`, `AlertEvent` and the
--     `..._to_json` functions of common.hpp.
--   Alert: `parse_alert_command`, `metric_value_for_key`, `rule_matches` of common.hpp. Alert/Grammar
--     describes the pattern, Alert/Matching compares it with the matcher, Alert/Rules and
--     Alert/Watches say what a parsed rule is.
--   Server: the class `MonitorServer` of cpp/server/main.cpp. Server.antt holds the state, the
--     broadcast and `evaluate_rules`; Server/Lines holds `handle_command`, `handle_line` and
--     `read_client`; Server/Rounds holds `accept_connection`, `disconnect_client`, `shutdown_all` and
--     `run`. Server/Commands is about an alert command of a dashboard. The state has a field for
--     each member, and three more: the calls of `send_line`, the sockets that were closed, and
--     how often the clock was read. Server/Broadcast, Server/Alerts, Server/Edges are about what
--     is sent; Server/Framing, Server/Buffers, Server/Reading, Server/Chunks and Server/Stream
--     about lines; Server/Steps, Server/Reach, Server/Rules about moves and runs;
--     Server/Closing, Server/Sockets, Server/Closed about connections; Server/Ledger about the
--     sockets of a run; Server/Defined about indices and `FD_ISSET`; Server/Overflow about a
--     number that is too large. Server/Start holds `start` and `main`.
--   Sending: `send_line` of common.hpp, over what the calls of `send` return.
--   Streams: what the program takes from `std::istream`: tokens, numbers and lines of a text. It is
--     library code, written out because the collectors depend on where it stops and fails.
--   Metrics: the collectors of cpp/include/metrics.hpp, on Linux, Windows and macOS. Metrics/Cpu holds
--     `read_cpu_sample`, Metrics/Net `read_net_sample`, Metrics/Memory the memory and the disk,
--     Metrics/Collect `collect_metrics` and `hostname_or`. What the system returns, as the text of a
--     file in /proc, is an argument. Their child modules hold the laws.
--   Platform: the sockets of cpp/include/platform.hpp, an interface that Platform/Posix and
--     Platform/Windows fill. Platform/Width is about the width for `select`, Platform/Shutdown about
--     the closing of sockets.
--   Agent: cpp/client/main.cpp. Agent.antt holds `parse_args` and the messages, Agent/Loop holds
--     `connect_to_server` and `main`. Agent/Arguments is about `parse_args`, Agent/Registration about
--     the first line at the server, Agent/Measured about the metrics there, Agent/Lines and
--     Agent/Received about a whole session there, Agent/Sendable about the snapshots that are sent, and
--     Agent/Together about both programs. Agent/Loop/Sessions, Agent/Loop/Discipline and
--     Agent/Loop/Delivery are about the calls on sockets.
--   Sample: a concrete machine and server. Tests: runs and examples.
--
-- What stands for what. A string is a list of bytes, `long long` a sign and a magnitude with the
-- range test of `std::stoll` written out. A method takes the state and returns the next one. What the
-- system decides is an argument: `run` takes a list of results of `select`, one per round that finds
-- `g_running` set; a round that is `ready` holds the two sets, the result of `accept` and the bytes
-- that `recv` delivers. An `unordered_map` is an association list with one entry per key; the
-- snapshot orders the entries by key, as the source does with a `std::map`.
--
-- The loops of the agent's `main` are one list of turns, with a turn for each test of
-- `g_running` that finds it set: while there is a connection a turn is a round of the inner
-- loop, else one of the outer loop. The agent, unlike the server, leaves SIGPIPE as it is: a
-- turn says whether the `send` that fails raises it (the peer is gone, and the system is POSIX),
-- and then the process ends without closing. `unsigned long long` is a number below 2 ^ 64, and
-- its operations wrap around.
--
-- Bounds and fuel. `read_client` gives its loop one round more than the buffer has bytes, and each
-- round takes a newline off the buffer. `send_line` has one round more than the line has bytes, and
-- each round sends a byte at least. The loop over /proc/meminfo has one round more than the text has
-- bytes, and each round reads a byte at least. `digits` has one round more than the number.
-- `FD_SETSIZE` is 1024: with a socket from there on, `FD_SET` and `FD_ISSET` are undefined.
--
-- Not modelled: the options of sockets, the port, and the handlers of SIGINT and SIGTERM but for the
-- flag that they set; sleeping; console
-- output, and the texts of errors that platform.hpp makes for it; the dashboard in Python.
-- `std::regex` is modelled by what it accepts, not by the stack it uses. Memory is unbounded.
pub mod Base
pub mod Machine
pub mod Text
pub mod Decimal
pub mod Json
pub mod Events
pub mod Alert
pub mod Sending
pub mod Streams
pub mod Metrics
pub mod Server
pub mod Platform
pub mod Agent
pub mod Sample
pub mod Tests
