-- ===== src/Sample.antt =====
-- A machine and data for tests and examples: here a `double` is a number of hundredths.
use sys_net_mon.Base.{
  pos, pos_part, ℕ, List, ◌+◌, ◌-◌, ◌*◌, ◌/◌, ◌%◌, some, [], ◌∷◌, ◌++◌, Bytes, codes, Outcome,
  returned, ltb,
}
use sys_net_mon.Machine.{Machine, Tm}
use sys_net_mon.Decimal.{leading_digits, drop_digits, magnitude, format_ℕ}
use sys_net_mon.Events.{MetricSnapshot, AlertRule}
use sys_net_mon.Server.Rounds.{Ready, Selected, interrupted, ready}
use sys_net_mon.Server.{ClientConnection, MonitorServer, agent, dashboard}

-- the digits behind a point, as hundredths
unfoldable pub hundredths : Bytes → ℕ
hundredths [] = 0
hundredths (point ∷ []) = 0
hundredths (point ∷ a ∷ []) = (a - b'0') * 10
hundredths (point ∷ a ∷ b ∷ more) = (a - b'0') * 10 + (b - b'0')

unfoldable pub sample_stod : Bytes → Outcome ℕ
unfolding hundredths
sample_stod text =
    returned (magnitude (leading_digits text) 0 * 100 + hundredths (drop_digits text))

unfoldable pub sample_fixed : ℕ → ℕ → Bytes
sample_fixed precision v = format_ℕ (v / 100) ++ b'.' ∷ (b'0' + v / 10 % 10) ∷ (b'0' + v % 10) ∷ []

abbrev pub sample_time : ℕ → Tm
sample_time n = record { year = 2026; month = 1; day = 2; hour = 3; minute = 4; second = n % 60 }

abbrev pub sample : Machine ℕ
sample = record {
  zero_double = 0;
  greater = λ a b. ltb b a;
  less = λ a b. ltb a b;
  times = λ a b. a * b / 100;
  divided_by = λ a b. a * 100 / b;
  of_integer = λ z. pos_part z * 100;
  stod = sample_stod;
  fixed = sample_fixed;
  utc_time = sample_time;
}

abbrev pub viewer : ClientConnection
viewer = record {
  fd = 4;
  role = dashboard;
  peer_label = codes "10.0.0.4:5000";
  declared_host = codes "ops";
  buffer = [];
}

abbrev pub worker : ClientConnection
worker = record {
  fd = 5;
  role = agent;
  peer_label = codes "10.0.0.5:5001";
  declared_host = codes "edge-1";
  buffer = codes "{\"type\":";
}

abbrev pub metric : MetricSnapshot ℕ
metric = record {
  host = codes "edge-1";
  timestamp = codes "2026-01-02T03:04:05Z";
  cpu_percent = 9150;
  memory_percent = 4025;
  disk_percent = 1200;
  network_rx_kbps = 50;
  network_tx_kbps = 7;
  memory_used_mb = pos 512;
  memory_total_mb = pos 2048;
  disk_used_mb = pos 10;
  disk_total_mb = pos 100;
}

abbrev pub command : Bytes
command = codes "  /ALERT cpu > 80.5 % "

abbrev pub rule : AlertRule ℕ
rule = record {
  raw_command = codes "/ALERT cpu > 80.5 %";
  metric_key = codes "cpu_percent";
  display_metric = codes "CPU";
  threshold = 8050;
  comparison = b'>';
}

-- a dashboard, an agent and a rule; no metric has come in yet
abbrev pub server : MonitorServer ℕ
server = record {
  listen_fd = some 3;
  clients = viewer ∷ worker ∷ [];
  latest_metrics = [];
  alert_rules = rule ∷ [];
  active_alerts = [];
  sent = [];
  closed = [];
  readings = 0;
}

-- a peer is accepted, an agent sends a line and a part of one, a dashboard is in error
abbrev pub arrivals : Ready
arrivals = record {
  read_set = 3 ∷ 5 ∷ [];
  error_set = 4 ∷ [];
  accepted = some (6, codes "10.0.0.6:5002");
  received = λ fd. codes "\"metrics\",\"cpu_percent\": 91.5}\r\n{\"type\"";
}

abbrev pub rounds : List Selected
rounds = interrupted ∷ ready arrivals ∷ []
