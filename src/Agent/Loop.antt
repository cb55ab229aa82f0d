-- ===== src/Agent/Loop.antt =====
-- cpp/client/main.cpp: `connect_to_server`, and the loops of `main`.
-- What the system answers is an argument: `socket`, `inet_addr`, `gethostbyname`, `connect`, `send`,
-- and what is read for a snapshot. The calls on sockets are noted in the order they are made.
-- The agent leaves SIGPIPE as it is, so that under POSIX a `send` to a peer that is gone ends the
-- process.
pub mod Sessions
pub mod Discipline
pub mod Delivery
use sys_net_mon.Base.{
  ℕ, Bool, true, false, ◌&&◌, not, Option, none, some, List, [], ◌∷◌, ◌++◌, Bytes, if◌then◌else◌,
  Outcome, returned, ◌>>=◌,
}
use sys_net_mon.Machine.{Machine}
use sys_net_mon.Sending.{send_line}
use sys_net_mon.Metrics.Cpu.{CpuSource, read_cpu_sample}
use sys_net_mon.Metrics.Net.{NetSource, read_net_sample}
use sys_net_mon.Metrics.Collect.{Readings, Previous, collect_metrics}
use sys_net_mon.Agent.{AgentConfig, parse_args, register_message, metrics_payload}

-- a call on a socket; of `send_line` the bytes that go out are noted
pub data Call : Type 0 where
  opens closes : ℕ → Call
  sends : ℕ → Bytes → Call

-- what becomes of a message: `send_line` returns `true` or `false`, or SIGPIPE ends the process
pub data Sent : Type 0 where
  whole failed killed : Sent

-- how the process ends: `main` returns an exit code, or SIGPIPE ends it
pub data Ending : Type 0 where
  exited : ℕ → Ending
  killed_by_sigpipe : Ending

pub record AgentState : Type 0 where
  -- `socket_fd`
  pub socket_fd : Option ℕ
  -- `previous_cpu` and `previous_net`
  pub previous : Previous
  -- oldest first
  pub calls : List Call

-- what the system answers while a connection is made
pub record Attempt : Type 0 where
  -- `none` is `invalid_socket`
  pub new_socket : Option ℕ
  -- `none` is `INADDR_NONE`
  pub direct_address : Option ℕ
  -- `none` where the name has no address
  pub resolved : Option ℕ
  -- whether `connect` to an address returns 0
  pub connects : ℕ → Bool
  -- the results of `send`
  pub send_results : ℕ → Bytes → ℕ
  -- whether the `send` that fails raises SIGPIPE: the peer is gone, and the system is POSIX
  pub raises : Bool

abbrev pub note : Call → AgentState → AgentState
note call s = record s { calls = s.calls ++ call ∷ [] }

-- `close_socket(socket_fd); socket_fd = invalid_socket;`
unfoldable pub drop_socket : ℕ → AgentState → AgentState
drop_socket fd s = record (note (closes fd) s) { socket_fd = none }

-- `send_line` on an open socket; `raises` says whether the `send` that fails raises SIGPIPE
unfoldable pub send_on : (ℕ → Bytes → ℕ) → Bool → ℕ → Bytes → AgentState → Sent × AgentState
send_on results raises fd payload s =
    let sent = send_line results payload in
    (if sent.1 then whole else if raises then killed else failed, note (sends fd sent.0) s)

-- `if (!send_line(...)) { close_socket(socket_fd); socket_fd = invalid_socket; ... }`; a process that
-- is killed does not come to it
unfoldable pub close_failed : ℕ → Sent × AgentState → Sent × AgentState
unfolding drop_socket
close_failed fd (whole, s) = (whole, s)
close_failed fd (failed, s) = (failed, drop_socket fd s)
close_failed fd (killed, s) = (killed, s)

unfoldable pub is_killed : Sent → Bool
is_killed whole = false
is_killed failed = false
is_killed killed = true

-- the address of the server: `inet_addr`, then `gethostbyname`
unfoldable pub server_address : Attempt → Option ℕ
server_address attempt = elim attempt.direct_address [
  | none ↦ attempt.resolved
  | some address ↦ some address
]

-- The last part of `connect_to_server`. `main` does not use the number of the socket after a failure,
-- so it is forgotten here also where the source leaves it.
unfoldable pub register_on : AgentConfig → Attempt → ℕ → AgentState → Sent × AgentState
unfolding send_on close_failed
register_on config attempt fd s =
    close_failed fd (send_on attempt.send_results attempt.raises fd (register_message config) s)

unfoldable pub connect_socket :
    AgentConfig → Attempt → ℕ → Option ℕ → AgentState → Sent × AgentState
unfolding drop_socket register_on
connect_socket config attempt fd none s = (failed, drop_socket fd s)
connect_socket config attempt fd (some address) s =
    if attempt.connects address then register_on config attempt fd s else (failed, drop_socket fd s)

unfoldable pub connect_new : AgentConfig → Attempt → Option ℕ → AgentState → Sent × AgentState
unfolding connect_socket server_address
connect_new config attempt none s = (failed, record s { socket_fd = none })
connect_new config attempt (some fd) s =
    connect_socket config attempt fd (server_address attempt)
      (record (note (opens fd) s) { socket_fd = some fd })

-- `whole` for the result `true`, `failed` for `false`, and the state with the socket in `socket_fd`
unfoldable pub connect_to_server : AgentConfig → Attempt → AgentState → Sent × AgentState
unfolding connect_new
connect_to_server config attempt s = connect_new config attempt attempt.new_socket s

-- What the system answers in one round, of the outer or of the inner loop.
pub record Turn (D : Type 0) : Type 0 where
  pub attempt : Attempt
  pub readings : Readings D
  -- the results of `send`, and whether the one that fails raises SIGPIPE
  pub results : ℕ → Bytes → ℕ
  pub raises : Bool

-- what the system says before the loop starts
pub record Startup : Type 0 where
  -- the name of the host, as `hostname_or("agent-node")` returns it
  pub name : Bytes
  pub runtime_ok : Bool
  -- whether `daemon` fails; it is called under POSIX, if the configuration asks for it
  pub daemon_fails : Bool
  pub first_cpu : CpuSource
  pub first_net : NetSource

-- `if (is_socket_valid(socket_fd)) close_socket(socket_fd);` when `g_running` is 0
unfoldable pub stop : Option ℕ → AgentState → AgentState
unfolding drop_socket
stop none s = s
stop (some fd) s = drop_socket fd s

unfoldable pub agent_start : Startup → AgentState
unfolding read_cpu_sample read_net_sample
agent_start startup = record {
  socket_fd = none;
  previous = record {
    previous_cpu = read_cpu_sample startup.first_cpu;
    previous_net = read_net_sample startup.first_net;
  };
  calls = [];
}

module _ {D : Type 0} (e : Machine D) where
  -- the body of the inner loop, with the `break` that closes the socket
  unfoldable pub measure : AgentConfig → Turn D → ℕ → AgentState → Outcome (Sent × AgentState)
  unfolding collect_metrics send_on close_failed
  measure config turn fd s = do
    taken ← collect_metrics e config.agent_name turn.readings s.previous
    let s' = record s { previous = taken.1 }
    returned (close_failed fd (send_on turn.results turn.raises fd (metrics_payload e taken.0) s'))

  -- A round of the inner loop while there is a connection, else one of the outer loop.
  unfoldable pub take_turn :
      AgentConfig → Turn D → Option ℕ → AgentState → Outcome (Sent × AgentState)
  unfolding measure connect_to_server
  take_turn config turn none s = returned (connect_to_server config turn.attempt s)
  take_turn config turn (some fd) s = measure config turn fd s

  -- both loops, with a turn for each test of `g_running` by a `while` that finds it set
  unfoldable pub agent_loop :
      AgentConfig → List (Turn D) → AgentState → Outcome (Ending × AgentState)
  unfolding take_turn stop is_killed
  agent_loop config [] s = returned (exited 0, stop s.socket_fd s)
  agent_loop config (turn ∷ turns) s = do
    result ← take_turn config turn s.socket_fd s
    if is_killed result.0
        then returned (killed_by_sigpipe, result.1)
        else agent_loop config turns result.1

  -- how the process ends, and the calls it made
  unfoldable pub agent_main : List Bytes → Startup → List (Turn D) → Outcome (Ending × List Call)
  unfolding parse_args agent_start agent_loop
  agent_main arguments startup turns = do
    config ← parse_args startup.name arguments
    if not startup.runtime_ok
        then returned (exited 1, [])
        else if config.daemonize && startup.daemon_fails
        then returned (exited 1, [])
        else (do
          ended ← agent_loop config turns (agent_start startup)
          returned (ended.0, ended.1.calls))
