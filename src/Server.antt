-- ===== src/Server.antt =====
-- cpp/server/main.cpp: the state of `MonitorServer`, and the operations that cannot fail.
-- A method takes the state and returns the next one. What leaves the process is part of the state:
-- the calls of `send_line`, whose result the server never reads, and of `close_socket`.
pub mod Broadcast
pub mod Alerts
pub mod Lines
pub mod Rounds
pub mod Steps
pub mod Reach
pub mod Closing
pub mod Sockets
pub mod Closed
pub mod Ledger
pub mod Commands
pub mod Rules
pub mod Edges
pub mod Buffers
pub mod Framing
pub mod Reading
pub mod Chunks
pub mod Defined
pub mod Overflow
pub mod Stream
pub mod Start
use sys_net_mon.Base.{
  ℕ, suc, ◌+◌, Bool, true, false, ◌&&◌, not, Option, none, some, List, [], ◌∷◌, ◌++◌, Bytes, codes,
  if◌then◌else◌, Dict, lookup, insert,
}
use sys_net_mon.Machine.{Machine}
use sys_net_mon.Events.{
  MetricSnapshot, AlertRule, AlertEvent, iso_timestamp, format_double, alert_event_to_json,
}
use sys_net_mon.Alert.{metric_value_for_key, rule_matches}

pub data ClientRole : Type 0 where
  unknown agent dashboard : ClientRole

pub record ClientConnection : Type 0 where
  pub fd : ℕ
  pub role : ClientRole
  pub peer_label : Bytes
  pub declared_host : Bytes
  pub buffer : Bytes

pub record MonitorServer (D : Type 0) : Type 0 where
  -- `none` is `invalid_socket`
  pub listen_fd : Option ℕ
  pub clients : List ClientConnection
  pub latest_metrics : Dict (MetricSnapshot D)
  pub alert_rules : List (AlertRule D)
  pub active_alerts : Dict Bool
  -- the calls of `send_line`, oldest first: the socket and the payload
  pub sent : List (ℕ × Bytes)
  -- the sockets that were closed, oldest first
  pub closed : List ℕ
  -- how often the clock was read
  pub readings : ℕ

unfoldable pub is_dashboard : ClientRole → Bool
is_dashboard dashboard = true
is_dashboard _ = false

unfoldable pub is_agent : ClientRole → Bool
is_agent agent = true
is_agent _ = false

-- `Maybe::value_or`
abbrev pub value_or {ℓ} : {A : Type ℓ} → A → Option A → A
value_or fallback none = fallback
value_or fallback (some a) = a

module _ {D : Type 0} where
  -- `send_line`, seen from the server
  unfoldable pub send_to : ℕ → Bytes → MonitorServer D → MonitorServer D
  send_to fd payload s = record s { sent = s.sent ++ (fd, payload) ∷ [] }

  -- the clock moves on
  abbrev pub tick : MonitorServer D → MonitorServer D
  tick s = record s { readings = s.readings + 1 }

  -- the loop of `broadcast_to_dashboards`
  unfoldable pub broadcast_loop : Bytes → List ClientConnection → MonitorServer D → MonitorServer D
  unfolding send_to is_dashboard
  broadcast_loop payload [] s = s
  broadcast_loop payload (client ∷ clients) s =
      broadcast_loop payload clients
        (if is_dashboard client.role then send_to client.fd payload s else s)

  unfoldable pub broadcast_to_dashboards : Bytes → MonitorServer D → MonitorServer D
  unfolding broadcast_loop
  broadcast_to_dashboards payload s = broadcast_loop payload s.clients s

abbrev pub dedupe_key : Bytes → Bytes → Bytes
dedupe_key host raw_command = host ++ (codes "|" ++ raw_command)

module _ {D : Type 0} (e : Machine D) where
  unfoldable pub alert_for : ℕ → MetricSnapshot D → AlertRule D → AlertEvent D
  alert_for reading metric rule =
      let value = metric_value_for_key e metric rule.metric_key in
      record {
        host = metric.host;
        timestamp = iso_timestamp e reading;
        metric_key = rule.metric_key;
        display_metric = rule.display_metric;
        metric_value = value;
        threshold = rule.threshold;
        rule = rule.raw_command;
        message =
            rule.display_metric
            ++ (codes " on "
                ++ (metric.host ++ (codes " crossed threshold at " ++ format_double e value)));
      }

  -- the event that one rule broadcasts
  unfoldable pub raise_alert : MetricSnapshot D → AlertRule D → MonitorServer D → MonitorServer D
  unfolding alert_for
  raise_alert metric rule s =
      broadcast_to_dashboards (alert_event_to_json e (alert_for s.readings metric rule)) (tick s)

  -- one round of the loop of `evaluate_rules`. Reading a missing key with `operator[]` puts
  -- `false` there, which the assignment at the end of the round overwrites.
  unfoldable pub evaluate_rule : MetricSnapshot D → AlertRule D → MonitorServer D → MonitorServer D
  unfolding raise_alert
  evaluate_rule metric rule s =
      let key = dedupe_key metric.host rule.raw_command in
      let matched = rule_matches e rule metric in
      let previous_match = value_or false (lookup key s.active_alerts) in
      let s' = if matched && not previous_match then raise_alert metric rule s else s in
      record s' { active_alerts = insert key matched s'.active_alerts }

  unfoldable pub evaluate_loop :
      MetricSnapshot D → List (AlertRule D) → MonitorServer D → MonitorServer D
  unfolding evaluate_rule
  evaluate_loop metric [] s = s
  evaluate_loop metric (rule ∷ rules) s = evaluate_loop metric rules (evaluate_rule metric rule s)

  unfoldable pub evaluate_rules : MetricSnapshot D → MonitorServer D → MonitorServer D
  unfolding evaluate_loop
  evaluate_rules metric s = evaluate_loop metric s.alert_rules s
