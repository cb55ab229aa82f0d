-- ===== src/Server/Lines.antt =====
-- cpp/server/main.cpp: `handle_command`, `handle_line` and `read_client`.
use sys_net_mon.Base.{
  pos, ℕ, zero, suc, Bool, true, false, ◌&&◌, Option, none, some, [], ◌∷◌, ◌++◌, Bytes, codes,
  str_eq, if◌then◌else◌, Outcome, returned, ◌>>=◌, and_then, length, at, set, ◌==◌, insert, ordered,
}
use sys_net_mon.Machine.{Machine}
use sys_net_mon.Text.{trim, lower_copy, newline}
use sys_net_mon.Decimal.{format_ℕ}
use sys_net_mon.Json.{strip_prefix, json_get_string, json_get_number, json_get_integer}
use sys_net_mon.Events.{
  MetricSnapshot, ChatMessage, AlertRule, iso_timestamp, ack_event_to_json, error_event_to_json,
  chat_event_to_json, rules_event_to_json, snapshot_event_to_json, metric_event_to_json,
}
use sys_net_mon.Alert.{parse_alert_command}
use sys_net_mon.Server.{
  ClientRole, agent, dashboard, ClientConnection, MonitorServer, is_dashboard, is_agent, value_or,
  send_to, tick, broadcast_to_dashboards, evaluate_rules,
}

-- `lowered.rfind(prefix, 0) == 0`
unfoldable pub starts_with : Bytes → Bytes → Bool
unfolding strip_prefix
starts_with prefix s = elim (strip_prefix prefix s) [ none ↦ false | some rest ↦ true ]

-- the role after a registration as `role`
unfoldable pub role_for : Bytes → ClientRole → ClientRole
role_for role old =
    if str_eq role (codes "agent")
    then agent
    else if str_eq role (codes "dashboard")
    then dashboard
    else old

unfoldable pub is_empty : Bytes → Bool
is_empty [] = true
is_empty (c ∷ s) = false

-- the bytes before the first newline, and those behind it
unfoldable pub split_line : Bytes → Option (Bytes × Bytes)
split_line [] = none
split_line (c ∷ s) =
    if c == newline
    then some ([], s)
    else and_then (split_line s) λ parts. some (c ∷ parts.0, parts.1)

unfoldable pub registered : ClientConnection → Bytes → ClientConnection
unfolding role_for
registered client line = record client {
  declared_host = value_or client.peer_label (json_get_string line (codes "host"));
  role = role_for (lower_copy (value_or [] (json_get_string line (codes "role")))) client.role;
}

module _ {D : Type 0} where
  unfoldable pub set_buffer : ℕ → ClientConnection → Bytes → MonitorServer D → MonitorServer D
  set_buffer index client buffer s = record s {
    clients = set s.clients index (record client { buffer = buffer });
  }

abbrev pub usage : Bytes
usage = codes "expected /alert CPU>80% or /alert MEMORY>70%"

module _ {D : Type 0} (e : Machine D) where
  unfoldable pub rule_message : AlertRule D → ℕ → ChatMessage
  rule_message rule reading = record {
    sender = codes "system";
    text = codes "Registered alert rule: " ++ rule.raw_command;
    timestamp = iso_timestamp e reading;
  }

  -- a rule that `parse_alert_command` accepted
  unfoldable pub add_rule : ClientConnection → AlertRule D → MonitorServer D → MonitorServer D
  add_rule client rule s =
      let s1 = record s { alert_rules = s.alert_rules ++ rule ∷ [] } in
      let said = chat_event_to_json (rule_message rule s1.readings) in
      let s2 = broadcast_to_dashboards said (tick s1) in
      let s3 = broadcast_to_dashboards (rules_event_to_json e s2.alert_rules) s2 in
      send_to client.fd (ack_event_to_json (codes "rule added: " ++ rule.raw_command)) s3

  unfoldable pub finish_alert :
      ClientConnection → Option (AlertRule D) → MonitorServer D → MonitorServer D
  unfolding add_rule
  finish_alert client none s = send_to client.fd (error_event_to_json usage) s
  finish_alert client (some rule) s = add_rule client rule s

  -- the commands but `/alert`
  unfoldable pub simple_command : ClientConnection → Bytes → MonitorServer D → MonitorServer D
  simple_command client lowered s =
      if str_eq lowered (codes "/listalerts")
      then send_to client.fd (rules_event_to_json e s.alert_rules) s
      else if str_eq lowered (codes "/clients")
      then send_to client.fd
          (ack_event_to_json (codes "connected agents: " ++ format_ℕ (length s.latest_metrics))) s
      else send_to client.fd (error_event_to_json (codes "unknown command")) s

  unfoldable pub handle_command :
      ClientConnection → Bytes → MonitorServer D → Outcome (MonitorServer D)
  unfolding finish_alert simple_command starts_with
  handle_command client text s =
      let lowered = lower_copy (trim text) in
      if starts_with (codes "/alert") lowered
      then (do rule ← parse_alert_command e text; returned (finish_alert client rule s))
      else returned (simple_command client lowered s)

  -- the snapshot and the rules, for a new dashboard
  unfoldable pub greet_dashboard : ClientConnection → MonitorServer D → MonitorServer D
  greet_dashboard client s =
      let snapshot = snapshot_event_to_json e s.readings (ordered s.latest_metrics) in
      let s1 = send_to client.fd snapshot (tick s) in
      send_to client.fd (rules_event_to_json e s1.alert_rules) s1

  unfoldable pub handle_register : ℕ → ClientConnection → Bytes → MonitorServer D → MonitorServer D
  unfolding registered greet_dashboard
  handle_register index client line s =
      let role = lower_copy (value_or [] (json_get_string line (codes "role"))) in
      let client' = registered client line in
      let s1 = record s { clients = set s.clients index client' } in
      let s2 = send_to client'.fd (ack_event_to_json (codes "registered as " ++ role)) s1 in
      if is_dashboard client'.role then greet_dashboard client' s2 else s2

  unfoldable pub read_metric : ClientConnection → ℕ → Bytes → Outcome (MetricSnapshot D)
  read_metric client reading line = do
    cpu ← json_get_number e line (codes "cpu_percent")
    memory ← json_get_number e line (codes "memory_percent")
    disk ← json_get_number e line (codes "disk_percent")
    rx ← json_get_number e line (codes "network_rx_kbps")
    tx ← json_get_number e line (codes "network_tx_kbps")
    memory_used ← json_get_integer line (codes "memory_used_mb")
    memory_total ← json_get_integer line (codes "memory_total_mb")
    disk_used ← json_get_integer line (codes "disk_used_mb")
    disk_total ← json_get_integer line (codes "disk_total_mb")
    returned (record {
      host = value_or client.declared_host (json_get_string line (codes "host"));
      timestamp = value_or (iso_timestamp e reading) (json_get_string line (codes "timestamp"));
      cpu_percent = value_or e.zero_double cpu;
      memory_percent = value_or e.zero_double memory;
      disk_percent = value_or e.zero_double disk;
      network_rx_kbps = value_or e.zero_double rx;
      network_tx_kbps = value_or e.zero_double tx;
      memory_used_mb = value_or (pos 0) memory_used;
      memory_total_mb = value_or (pos 0) memory_total;
      disk_used_mb = value_or (pos 0) disk_used;
      disk_total_mb = value_or (pos 0) disk_total;
    })

  unfoldable pub store_metric : MetricSnapshot D → MonitorServer D → MonitorServer D
  store_metric metric s =
      let s1 = record s { latest_metrics = insert metric.host metric s.latest_metrics } in
      evaluate_rules e metric (broadcast_to_dashboards (metric_event_to_json e metric) s1)

  -- The clock is read for the fallback of the timestamp, whether or not it is used.
  unfoldable pub handle_metrics :
      ClientConnection → Bytes → MonitorServer D → Outcome (MonitorServer D)
  unfolding read_metric store_metric
  handle_metrics client line s = do
    metric ← read_metric client s.readings line
    returned (store_metric metric (tick s))

  unfoldable pub chat_message : ClientConnection → Bytes → ℕ → ChatMessage
  unfolding is_empty
  chat_message client line reading =
      let fallback =
        if is_empty client.declared_host then client.peer_label else client.declared_host in
      record {
        sender = value_or fallback (json_get_string line (codes "from"));
        text = value_or [] (json_get_string line (codes "text"));
        timestamp = iso_timestamp e reading;
      }

  unfoldable pub handle_chat : ClientConnection → Bytes → MonitorServer D → MonitorServer D
  unfolding chat_message
  handle_chat client line s =
      broadcast_to_dashboards (chat_event_to_json (chat_message client line s.readings)) (tick s)

  -- the tests of `handle_line`, in their order
  unfoldable pub dispatch :
      ℕ → ClientConnection → Bytes → Bytes → MonitorServer D → Outcome (MonitorServer D)
  unfolding handle_register handle_metrics handle_chat handle_command is_agent
  dispatch index client type line s =
      if str_eq type (codes "register")
      then returned (handle_register index client line s)
      else if str_eq type (codes "metrics") && is_agent client.role
      then handle_metrics client line s
      else if str_eq type (codes "command")
      then handle_command client (value_or [] (json_get_string line (codes "text"))) s
      else if str_eq type (codes "chat")
      then returned (handle_chat client line s)
      else returned (send_to client.fd (error_event_to_json (codes "unsupported message")) s)

  unfoldable pub handle_line : ℕ → Bytes → MonitorServer D → Outcome (MonitorServer D)
  unfolding dispatch
  handle_line index line s = do
    client ← at s.clients index
    dispatch index client (value_or [] (json_get_string line (codes "type"))) line s

  -- a complete line that was taken from the buffer; an empty one is dropped
  unfoldable pub take_line : ℕ → Bytes → MonitorServer D → Outcome (MonitorServer D)
  unfolding is_empty
  take_line index line s = if is_empty line then returned s else handle_line index line s

  -- the rest of a round, for what `split_line` finds; `loop` makes the next round
  unfoldable pub read_split :
      (MonitorServer D → Outcome (MonitorServer D))
      → ℕ
      → ClientConnection
      → Option (Bytes × Bytes)
      → MonitorServer D
      → Outcome (MonitorServer D)
  unfolding take_line set_buffer
  read_split loop index client none s = returned s
  read_split loop index client (some (line, rest)) s = do
    s' ← take_line index (trim line) (set_buffer index client rest s)
    loop s'

  -- the loop of `read_client`, for `fuel` rounds at most
  unfoldable pub read_lines : ℕ → ℕ → MonitorServer D → Outcome (MonitorServer D)
  unfolding split_line read_split
  read_lines zero index s = returned s
  read_lines (suc fuel) index s = do
    client ← at s.clients index
    read_split (read_lines fuel index) index client (split_line client.buffer) s

  -- `chunk` holds the bytes that `recv` wrote; it is empty where `recv` returned 0 or an error.
  -- The answer is `false` if the connection is to be closed.
  unfoldable pub read_client : ℕ → Bytes → MonitorServer D → Outcome (Bool × MonitorServer D)
  unfolding read_lines
  read_client index [] s = returned (false, s)
  read_client index (c ∷ chunk) s = do
    client ← at s.clients index
    let pending = client.buffer ++ c ∷ chunk
    s' ← read_lines (suc (length pending)) index (set_buffer index client pending s)
    returned (true, s')
