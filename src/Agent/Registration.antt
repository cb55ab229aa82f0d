-- ===== src/Agent/Registration.antt =====
-- cpp/client/main.cpp and cpp/server/main.cpp: what the server makes of the agent's first message.
use sys_net_mon.Base.{
  ℕ, Option, some, [], ◌∷◌, ◌++◌, Bytes, codes, ◌≡◌, refl, arith, returned, at, set, All,
  drop_while, str_eq,
}
use sys_net_mon.Machine.{Machine}
use sys_net_mon.Text.{quote, escape_char, lower_copy, to_lower, is_space}
use sys_net_mon.Text.Escape.{all_escaped, escape_json-all}
use sys_net_mon.Json.{until_quote, match_string, regex_search, field, json_get_string}
use sys_net_mon.Events.{ack_event_to_json}
use sys_net_mon.Server.{ClientConnection, MonitorServer, agent, send_to, is_dashboard}
use sys_net_mon.Server.Lines.{handle_line, registered}
use sys_net_mon.Agent.{AgentConfig, register_message}

-- `escape_json` leaves each byte as it is.
abbrev pub IsPlain : Bytes → Type 0
IsPlain = All (λ c. escape_char c ≡ c ∷ [])

pub all_escaped-IsPlain : (s : Bytes) → IsPlain s → all_escaped s ≡ s
unfolding all_escaped
all_escaped-IsPlain [] h = refl
all_escaped-IsPlain (c ∷ s) (hc, hs) = rw (hc, all_escaped-IsPlain s hs)

until_quote-IsPlain : (s rest : Bytes) → IsPlain s → until_quote (s ++ quote ∷ rest) ≡ some s
unfolding until_quote escape_char
until_quote-IsPlain [] rest h = refl
until_quote-IsPlain (c ∷ s) rest (hc, hs) = ground (arith, until_quote-IsPlain s rest hs)

pub match_string-IsPlain :
    (s rest : Bytes) → IsPlain s → match_string (quote ∷ (s ++ quote ∷ rest)) ≡ some s
unfolding match_string
match_string-IsPlain s rest h = until_quote-IsPlain s rest h

pub search_hit :
    (m : Bytes → Option Bytes) (c : ℕ) (s t : Bytes)
    → m (c ∷ s) ≡ some t
    → regex_search m (c ∷ s) ≡ some t
unfolding regex_search
search_hit m c s t h = rw (h, regex_search)

module _ (config : AgentConfig) (plain : IsPlain config.agent_name) where
  plain_message :
      register_message config
      ≡ codes "{\"type\":\"register\",\"role\":\"agent\",\"host\":\""
        ++ (config.agent_name ++ codes "\"}")
  unfolding register_message
  plain_message =
      rw (escape_json-all config.agent_name, all_escaped-IsPlain config.agent_name plain)

  register-type : json_get_string (register_message config) (codes "type") ≡ some (codes "register")
  unfolding json_get_string regex_search field match_string drop_while is_space
  register-type = rw plain_message refl

  register-role : json_get_string (register_message config) (codes "role") ≡ some (codes "agent")
  unfolding json_get_string regex_search field match_string drop_while is_space
  register-role = rw plain_message refl

  found_host :
      field match_string (codes "host") (codes "\"host\":\"" ++ (config.agent_name ++ codes "\"}"))
      ≡ some config.agent_name
  unfolding field drop_while is_space
  found_host = match_string-IsPlain config.agent_name (codes "}") plain

  register-host : json_get_string (register_message config) (codes "host") ≡ some config.agent_name
  unfolding json_get_string regex_search field drop_while is_space
  register-host = rw plain_message (
      search_hit (field match_string (codes "host")) quote
        (codes "host\":\"" ++ (config.agent_name ++ codes "\"}")) config.agent_name found_host)

  -- The server takes the agent's registration: it acknowledges it, and the connection is that of an
  -- agent with the agent's name, if the name holds nothing that `escape_json` changes.
  pub handle_line-register_message :
      {D : Type 0} (e : Machine D) (index : ℕ) (s : MonitorServer D) (client : ClientConnection)
      → at s.clients index ≡ returned client
      → handle_line e index (register_message config) s
        ≡ returned (
            send_to client.fd (ack_event_to_json (codes "registered as agent")) (record s {
              clients =
                  set s.clients index
                    (record client { role = agent; declared_host = config.agent_name });
            }))
  unfolding handle_line str_eq lower_copy to_lower registered send_to is_dashboard
  handle_line-register_message e index s client there =
      rw (there, register-type, register-role, register-host) refl
