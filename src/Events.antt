-- ===== src/Events.antt =====
-- cpp/include/common.hpp: the records that travel in messages, and the functions that write the
-- messages of the server. The functions write into a stream; here they return its text.
use sys_net_mon.Base.{ℤ, ℕ, ◌+◌, ◌/◌, ◌%◌, List, [], ◌∷◌, ◌++◌, map, Bytes, codes, stream}
use sys_net_mon.Machine.{Machine}
use sys_net_mon.Text.{escape_json}
use sys_net_mon.Decimal.{format_integer, format_ℕ}

pub record MetricSnapshot (D : Type 0) : Type 0 where
  pub host : Bytes
  pub timestamp : Bytes
  pub cpu_percent : D
  pub memory_percent : D
  pub disk_percent : D
  pub network_rx_kbps : D
  pub network_tx_kbps : D
  pub memory_used_mb : ℤ
  pub memory_total_mb : ℤ
  pub disk_used_mb : ℤ
  pub disk_total_mb : ℤ

pub record ChatMessage : Type 0 where
  pub sender : Bytes
  pub text : Bytes
  pub timestamp : Bytes

pub record AlertRule (D : Type 0) : Type 0 where
  pub raw_command : Bytes
  pub metric_key : Bytes
  pub display_metric : Bytes
  pub threshold : D
  pub comparison : ℕ

pub record AlertEvent (D : Type 0) : Type 0 where
  pub host : Bytes
  pub timestamp : Bytes
  pub metric_key : Bytes
  pub display_metric : Bytes
  pub metric_value : D
  pub threshold : D
  pub rule : Bytes
  pub message : Bytes

-- `%m`, `%d`, `%H`, `%M` and `%S` of `put_time`
unfoldable pub two_digits : ℕ → Bytes
two_digits n = (b'0' + n / 10 % 10) ∷ (b'0' + n % 10) ∷ []

unfoldable pub ack_event_to_json : Bytes → Bytes
ack_event_to_json message =
    stream (codes "{\"type\":\"ack\",\"message\":\"" ∷ escape_json message ∷ codes "\"}" ∷ [])

unfoldable pub error_event_to_json : Bytes → Bytes
error_event_to_json message =
    stream (codes "{\"type\":\"error\",\"message\":\"" ∷ escape_json message ∷ codes "\"}" ∷ [])

unfoldable pub chat_event_to_json : ChatMessage → Bytes
chat_event_to_json chat = stream (
    codes "{\"type\":\"chat\",\"from\":\""
    ∷ escape_json chat.sender
    ∷ codes "\",\"text\":\""
    ∷ escape_json chat.text
    ∷ codes "\",\"timestamp\":\""
    ∷ escape_json chat.timestamp
    ∷ codes "\"}"
    ∷ [])

-- the elements of a JSON array, with a comma before each but the first
separated : Bytes → List Bytes → Bytes
separated comma [] = []
separated comma (item ∷ items) = comma ++ (item ++ separated (codes ",") items)

unfoldable pub json_items : List Bytes → Bytes
unfolding separated
json_items items = separated [] items

module _ {D : Type 0} (e : Machine D) where
  -- `n` is the number of the reading of the clock
  unfoldable pub iso_timestamp : ℕ → Bytes
  unfolding two_digits
  iso_timestamp n =
      let t = e.utc_time n in
      stream (
        format_ℕ t.year
        ∷ codes "-"
        ∷ two_digits t.month
        ∷ codes "-"
        ∷ two_digits t.day
        ∷ codes "T"
        ∷ two_digits t.hour
        ∷ codes ":"
        ∷ two_digits t.minute
        ∷ codes ":"
        ∷ two_digits t.second
        ∷ codes "Z"
        ∷ [])

  unfoldable pub format_double : D → Bytes
  format_double value = e.fixed 2 value

  unfoldable pub metric_data_to_json : MetricSnapshot D → Bytes
  unfolding format_double
  metric_data_to_json metric = stream (
      codes "{"
      ∷ codes "\"host\":\""
      ∷ escape_json metric.host
      ∷ codes "\","
      ∷ codes "\"timestamp\":\""
      ∷ escape_json metric.timestamp
      ∷ codes "\","
      ∷ codes "\"cpu_percent\":"
      ∷ format_double metric.cpu_percent
      ∷ codes ","
      ∷ codes "\"memory_percent\":"
      ∷ format_double metric.memory_percent
      ∷ codes ","
      ∷ codes "\"disk_percent\":"
      ∷ format_double metric.disk_percent
      ∷ codes ","
      ∷ codes "\"network_rx_kbps\":"
      ∷ format_double metric.network_rx_kbps
      ∷ codes ","
      ∷ codes "\"network_tx_kbps\":"
      ∷ format_double metric.network_tx_kbps
      ∷ codes ","
      ∷ codes "\"memory_used_mb\":"
      ∷ format_integer metric.memory_used_mb
      ∷ codes ","
      ∷ codes "\"memory_total_mb\":"
      ∷ format_integer metric.memory_total_mb
      ∷ codes ","
      ∷ codes "\"disk_used_mb\":"
      ∷ format_integer metric.disk_used_mb
      ∷ codes ","
      ∷ codes "\"disk_total_mb\":"
      ∷ format_integer metric.disk_total_mb
      ∷ codes "}"
      ∷ [])

  unfoldable pub metric_event_to_json : MetricSnapshot D → Bytes
  metric_event_to_json metric =
      stream (codes "{\"type\":\"metric\",\"data\":" ∷ metric_data_to_json metric ∷ codes "}" ∷ [])

  -- `ordered` holds the values of the `std::map`, `n` numbers the reading of the clock
  unfoldable pub snapshot_event_to_json : ℕ → List (MetricSnapshot D) → Bytes
  unfolding json_items
  snapshot_event_to_json n ordered = stream (
      codes "{\"type\":\"snapshot\",\"timestamp\":\""
      ∷ escape_json (iso_timestamp n)
      ∷ codes "\",\"metrics\":["
      ∷ json_items (map metric_data_to_json ordered)
      ∷ codes "]}"
      ∷ [])

  unfoldable pub alert_event_to_json : AlertEvent D → Bytes
  unfolding format_double
  alert_event_to_json alert = stream (
      codes "{\"type\":\"alert\",\"data\":{"
      ∷ codes "\"host\":\""
      ∷ escape_json alert.host
      ∷ codes "\","
      ∷ codes "\"timestamp\":\""
      ∷ escape_json alert.timestamp
      ∷ codes "\","
      ∷ codes "\"metric_key\":\""
      ∷ escape_json alert.metric_key
      ∷ codes "\","
      ∷ codes "\"display_metric\":\""
      ∷ escape_json alert.display_metric
      ∷ codes "\","
      ∷ codes "\"metric_value\":"
      ∷ format_double alert.metric_value
      ∷ codes ","
      ∷ codes "\"threshold\":"
      ∷ format_double alert.threshold
      ∷ codes ","
      ∷ codes "\"rule\":\""
      ∷ escape_json alert.rule
      ∷ codes "\","
      ∷ codes "\"message\":\""
      ∷ escape_json alert.message
      ∷ codes "\"}}"
      ∷ [])

  unfoldable pub rule_to_json : AlertRule D → Bytes
  unfolding format_double
  rule_to_json rule = stream (
      codes "{\"command\":\""
      ∷ escape_json rule.raw_command
      ∷ codes "\",\"metric_key\":\""
      ∷ escape_json rule.metric_key
      ∷ codes "\",\"threshold\":"
      ∷ format_double rule.threshold
      ∷ codes "}"
      ∷ [])

  unfoldable pub rules_event_to_json : List (AlertRule D) → Bytes
  unfolding json_items rule_to_json
  rules_event_to_json rules = stream (
      codes "{\"type\":\"rules\",\"items\":["
      ∷ json_items (map rule_to_json rules)
      ∷ codes "]}"
      ∷ [])
