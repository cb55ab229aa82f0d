-- ===== src/Agent.antt =====
-- cpp/client/main.cpp: the arguments of the agent, and the messages that it sends.
pub mod Arguments
pub mod Registration
pub mod Loop
pub mod Measured
pub mod Lines
pub mod Sendable
pub mod Received
pub mod Together
use sys_net_mon.Base.{
  ℤ, pos, negsuc, ℕ, zero, suc, ◌+◌, Bool, true, false, List, [], ◌∷◌, ◌++◌, Bytes, codes, str_eq,
  ◌==◌, leb, if◌then◌else◌, Outcome, returned, ◌>>=◌,
}
use sys_net_mon.Machine.{Machine}
use sys_net_mon.Text.{escape_json}
use sys_net_mon.Decimal.{atoi}
use sys_net_mon.Events.{MetricSnapshot, metric_data_to_json}

pub record AgentConfig : Type 0 where
  pub server_host : Bytes
  pub server_port : ℤ
  pub agent_name : Bytes
  pub interval_seconds : ℤ
  pub daemonize : Bool

-- `name` is what `hostname_or("agent-node")` returned
abbrev pub default_config : Bytes → AgentConfig
default_config name = record {
  server_host = codes "127.0.0.1";
  server_port = pos 9090;
  agent_name = name;
  interval_seconds = pos 5;
  daemonize = false;
}

-- `std::max(1, value)`
unfoldable pub at_least_one : ℤ → ℤ
at_least_one (pos n) = if leb 1 n then pos n else pos 1
at_least_one (negsuc n) = pos 1

-- an argument that is no flag, for the `positional_index` it has
unfoldable pub set_argument : ℕ → Bytes → AgentConfig → Outcome AgentConfig
unfolding at_least_one
set_argument index argument config =
    if index == 1
    then returned (record config { server_host = argument })
    else if index == 2
    then (do port ← atoi argument; returned (record config { server_port = port }))
    else if index == 3
    then returned (record config { agent_name = argument })
    else if index == 4
    then (do
      seconds ← atoi argument
      returned (record config { interval_seconds = at_least_one seconds }))
    else returned config

abbrev pub is_flag : Bytes → Bool
is_flag argument = str_eq argument (codes "--daemon")

-- the loop of `parse_args`; `index` is `positional_index`
unfoldable pub parse_loop : ℕ → List Bytes → AgentConfig → Outcome AgentConfig
unfolding set_argument
parse_loop index [] config = returned config
parse_loop index (argument ∷ arguments) config =
    let flagged = parse_loop index arguments (record config { daemonize = true }) in
    let set = set_argument (index + 1) argument config >>= parse_loop (index + 1) arguments in
    if is_flag argument then flagged else set

-- `arguments` are those behind the name of the program
unfoldable pub parse_args : Bytes → List Bytes → Outcome AgentConfig
unfolding parse_loop
parse_args name arguments = parse_loop 0 arguments (default_config name)

-- `register_message` of `connect_to_server`
unfoldable pub register_message : AgentConfig → Bytes
register_message config =
    codes "{\"type\":\"register\",\"role\":\"agent\",\"host\":\""
    ++ (escape_json config.agent_name ++ codes "\"}")

-- `substr(1)`; the string is not empty where it is called
unfoldable pub substr_one : Bytes → Bytes
substr_one [] = []
substr_one (c ∷ s) = s

unfoldable pub metrics_payload : {D : Type 0} → Machine D → MetricSnapshot D → Bytes
unfolding substr_one
metrics_payload e metric =
    codes "{\"type\":\"metrics\"," ++ substr_one (metric_data_to_json e metric)
