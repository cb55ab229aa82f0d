-- ===== src/Tests/Agent.antt =====
-- The agent's definitions and theorems at fixed inputs.
use sys_net_mon.Base.{
  pos, ℕ, zero, suc, true, List, [], ◌∷◌, ◌++◌, Bytes, codes, returned, ◌≡◌, refl, ◌>>=◌,
  drop_while, take_while, str_eq, set,
}
use sys_net_mon.Text.{newline, is_space, escape_char}
use sys_net_mon.Decimal.{atoi, is_digit, magnitude}
use sys_net_mon.Events.{ack_event_to_json}
use sys_net_mon.Sending.{send_line, IsSent, send_line-IsSent}
use sys_net_mon.Agent.{AgentConfig, parse_args, set_argument, at_least_one, register_message}
use sys_net_mon.Agent.Arguments.{positional, has_flag, flagged, parse_args-positional}
use sys_net_mon.Agent.Registration.{IsPlain, handle_line-register_message}
use sys_net_mon.Server.{send_to, agent}
use sys_net_mon.Server.Lines.{handle_line}
use sys_net_mon.Sample.{sample, server, worker}

abbrev pub arguments : List Bytes
arguments = codes "10.0.0.1" ∷ codes "--daemon" ∷ codes "7000" ∷ codes "edge-1" ∷ codes "0" ∷ []

abbrev pub parsed : AgentConfig
parsed = record {
  server_host = codes "10.0.0.1";
  server_port = pos 7000;
  agent_name = codes "edge-1";
  interval_seconds = pos 1;
  daemonize = true;
}

pub parse_arguments : parse_args (codes "agent-node") arguments ≡ returned parsed
unfolding parse_args set_argument at_least_one atoi is_digit magnitude drop_while take_while
    is_space str_eq
parse_arguments = refl

parse_args-positional_example :
    parse_args (codes "agent-node") arguments
    ≡ (parse_args (codes "agent-node") (positional arguments) >>= flagged (has_flag arguments))
parse_args-positional_example = parse_args-positional (codes "agent-node") arguments

-- `send` takes three bytes at the first call, and the rest at the second
abbrev pub two_calls : ℕ → Bytes → ℕ
two_calls zero rest = 3
two_calls (suc n) rest = 100

send_line-IsSent_example :
    IsSent two_calls
      (codes "hello" ++ newline ∷ [])
      (send_line two_calls (codes "hello")).0
      (send_line two_calls (codes "hello")).1
send_line-IsSent_example = send_line-IsSent two_calls (codes "hello")

pub edge-IsPlain : IsPlain parsed.agent_name
unfolding escape_char
edge-IsPlain = (refl, (refl, (refl, (refl, (refl, (refl, tt))))))

handle_line-register_message_example :
    handle_line sample 1 (register_message parsed) server
    ≡ returned (
        send_to 5 (ack_event_to_json (codes "registered as agent")) (record server {
          clients =
              set server.clients 1 (record worker { role = agent; declared_host = codes "edge-1" });
        }))
handle_line-register_message_example =
    handle_line-register_message parsed edge-IsPlain sample 1 server worker refl
