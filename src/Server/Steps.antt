-- ===== src/Server/Steps.antt =====
-- cpp/server/main.cpp: a line that is handled is one of a few moves of the server.
use sys_net_mon.Base.{
  ℕ, true, ◌&&◌, Option, none, some, [], Bytes, codes, str_eq, ◌≡◌, subst, inl, inr, arith,
  if◌then◌else◌, Outcome, returned, >>=-eq-returned, at, Bool-cases,
}
use sys_net_mon.Machine.{Machine}
use sys_net_mon.Text.{trim, lower_copy}
use sys_net_mon.Json.{json_get_string}
use sys_net_mon.Events.{
  MetricSnapshot, ChatMessage, AlertRule, ack_event_to_json, error_event_to_json,
  chat_event_to_json, rules_event_to_json,
}
use sys_net_mon.Alert.{parse_alert_command}
use sys_net_mon.Server.{
  ClientConnection, MonitorServer, is_agent, value_or, send_to, tick, broadcast_to_dashboards,
}
use sys_net_mon.Server.Lines.{
  starts_with, usage, add_rule, finish_alert, simple_command, handle_command, handle_register,
  chat_message, read_metric, store_metric, handle_metrics, handle_chat, dispatch, handle_line,
}

module _ {D : Type 0} (e : Machine D) where
  -- what a client alone is told
  pub data IsReply (s : MonitorServer D) : Bytes → Type 0 where
    ack : (message : Bytes) → IsReply s (ack_event_to_json message)
    error : (message : Bytes) → IsReply s (error_event_to_json message)
    rules : IsReply s (rules_event_to_json e s.alert_rules)

  -- The moves of the server for a line of the connection at `index`.
  pub data LineStep (index : ℕ) (s : MonitorServer D) : MonitorServer D → Type 0 where
    registers :
        (client : ClientConnection) (line : Bytes)
        → at s.clients index ≡ returned client
        → LineStep index s (handle_register e index client line s)
    measures :
        (client : ClientConnection) (metric : MetricSnapshot D)
        → at s.clients index ≡ returned client
        → is_agent client.role ≡ true
        → LineStep index s (store_metric e metric (tick s))
    adds :
        (client : ClientConnection) (text : Bytes) (rule : AlertRule D)
        → at s.clients index ≡ returned client
        → parse_alert_command e text ≡ returned (some rule)
        → LineStep index s (add_rule e client rule s)
    chats :
        (message : ChatMessage)
        → LineStep index s (broadcast_to_dashboards (chat_event_to_json message) (tick s))
    replies :
        (client : ClientConnection) (payload : Bytes)
        → at s.clients index ≡ returned client
        → IsReply s payload
        → LineStep index s (send_to client.fd payload s)

  module _ (index : ℕ) (client : ClientConnection) (s : MonitorServer D)
      (there : at s.clients index ≡ returned client) where
    simple_command-LineStep :
        (lowered : Bytes) → LineStep index s (simple_command e client lowered s)
    unfolding simple_command
    simple_command-LineStep lowered = elim (Bool-cases (str_eq lowered (codes "/listalerts"))) [
      | inl h ↦ rw h (replies client _ there rules)
      | inr h ↦ elim (Bool-cases (str_eq lowered (codes "/clients"))) [
        | inl k ↦ rw (h, k) (replies client _ there (ack _))
        | inr k ↦ rw (h, k) (replies client _ there (error _))
      ]
    ]

    finish_alert-LineStep :
        (text : Bytes) (parsed : Option (AlertRule D))
        → parse_alert_command e text ≡ returned parsed
        → LineStep index s (finish_alert e client parsed s)
    unfolding finish_alert
    finish_alert-LineStep text none h = replies client _ there (error usage)
    finish_alert-LineStep text (some rule) h = adds client text rule there h

    handle_command-LineStep :
        (text : Bytes) (s' : MonitorServer D)
        → handle_command e client text s ≡ returned s'
        → LineStep index s s'
    unfolding handle_command
    handle_command-LineStep text s' h =
        elim (Bool-cases (starts_with (codes "/alert") (lower_copy (trim text)))) [
          | inl is_alert ↦
              let (parsed, read, done) =
                >>=-eq-returned (parse_alert_command e text) _ (rw is_alert at h) in
              subst (LineStep index s) (ground arith) (finish_alert-LineStep text parsed read)
          | inr other ↦
              subst (LineStep index s) (ground arith)
                (simple_command-LineStep (lower_copy (trim text)))
        ]

    handle_metrics-LineStep :
        (line : Bytes) (s' : MonitorServer D)
        → is_agent client.role ≡ true
        → handle_metrics e client line s ≡ returned s'
        → LineStep index s s'
    unfolding handle_metrics
    handle_metrics-LineStep line s' is_an_agent h =
        let (metric, read, done) = >>=-eq-returned (read_metric e client s.readings line) _ h in
        subst (LineStep index s) (ground arith) (measures client metric there is_an_agent)

    -- the tests behind the one for a registration and the one for metrics
    unfoldable other_line : Bytes → Bytes → Outcome (MonitorServer D)
    other_line type line =
        if str_eq type (codes "command")
        then handle_command e client (value_or [] (json_get_string line (codes "text"))) s
        else if str_eq type (codes "chat")
        then returned (handle_chat e client line s)
        else returned (send_to client.fd (error_event_to_json (codes "unsupported message")) s)

    other_line-LineStep :
        (type line : Bytes) (s' : MonitorServer D)
        → other_line type line ≡ returned s'
        → LineStep index s s'
    unfolding other_line handle_chat
    other_line-LineStep type line s' h = elim (Bool-cases (str_eq type (codes "command"))) [
      | inl is_command ↦ handle_command-LineStep _ s' (rw is_command at h)
      | inr no_command ↦ elim (Bool-cases (str_eq type (codes "chat"))) [
        | inl is_chat ↦
            subst (LineStep index s) (ground arith) (chats (chat_message e client line s.readings))
        | inr no_chat ↦
            subst (LineStep index s) (ground arith)
              (replies client _ there (error (codes "unsupported message")))
      ]
    ]

    dispatch-LineStep :
        (type line : Bytes) (s' : MonitorServer D)
        → dispatch e index client type line s ≡ returned s'
        → LineStep index s s'
    unfolding dispatch other_line
    dispatch-LineStep type line s' h = elim (Bool-cases (str_eq type (codes "register"))) [
      | inl is_register ↦ subst (LineStep index s) (ground arith) (registers client line there)
      | inr no_register ↦
          elim (Bool-cases (str_eq type (codes "metrics") && is_agent client.role)) [
            | inl is_metrics ↦ handle_metrics-LineStep line s' (ground arith) (ground arith)
            | inr no_metrics ↦ other_line-LineStep type line s' (ground arith)
          ]
    ]

  -- A line that is handled makes one move of the server: a registration, a metric of an agent, a
  -- new rule, a chat message or a reply.
  pub handle_line-LineStep :
      (index : ℕ) (line : Bytes) (s s' : MonitorServer D)
      → handle_line e index line s ≡ returned s'
      → LineStep index s s'
  unfolding handle_line
  handle_line-LineStep index line s s' h =
      let (client, there, done) = >>=-eq-returned (at s.clients index) _ h in
      dispatch-LineStep index client s there _ line s' done
