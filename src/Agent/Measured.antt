-- ===== src/Agent/Measured.antt =====
-- cpp/client/main.cpp, cpp/include/common.hpp and cpp/server/main.cpp: what the server makes of the
-- metrics that the agent sends.
use sys_net_mon.Base.{
  ℤ, ℕ, true, some, List, [], ◌∷◌, Bytes, codes, ◌≡◌, refl, arith, returned, at, All, str_eq, Lacks,
}
use sys_net_mon.Machine.{Machine}
use sys_net_mon.Text.{quote, escape_char}
use sys_net_mon.Text.Escape.{escape_json-all}
use sys_net_mon.Decimal.{format_integer}
use sys_net_mon.Decimal.RoundTrip.{Fits}
use sys_net_mon.Events.{MetricSnapshot, metric_data_to_json, format_double}
use sys_net_mon.Json.{json_get_string, json_get_number, json_get_integer}
use sys_net_mon.Json.Objects.{
  Member, text, number, object, find_member, is_key, IsMember, key-Lacks,
}
use sys_net_mon.Json.Found.{json_get_string-object}
use sys_net_mon.Json.Numbers.{
  IsFixed, fixed-Lacks, integer-Lacks, quote-IsOther, json_get_number-object,
  json_get_integer-object,
}
use sys_net_mon.Server.{ClientConnection, MonitorServer, is_agent, tick}
use sys_net_mon.Server.Lines.{handle_line, dispatch, handle_metrics, read_metric, store_metric}
use sys_net_mon.Agent.{metrics_payload}
use sys_net_mon.Agent.Registration.{IsPlain, all_escaped-IsPlain}

-- What the program relies on where a `double` is written and read: two digits behind the point, and
-- a text that `std::stod` reads. `rounded` is the value that is read.
pub record Prints {D : Type 0} (e : Machine D) (rounded : D → D) (d : D) : Type 0 where
  pub fixed_text : IsFixed (e.fixed 2 d)
  pub reads : e.stod (e.fixed 2 d) ≡ returned (rounded d)

-- the strings need no escape, and the numbers can be written
pub record IsSendable {D : Type 0} (e : Machine D) (rounded : D → D) (metric : MetricSnapshot D)
    : Type 0 where
  pub host_plain : IsPlain metric.host
  pub timestamp_plain : IsPlain metric.timestamp
  pub cpu : Prints e rounded metric.cpu_percent
  pub memory : Prints e rounded metric.memory_percent
  pub disk : Prints e rounded metric.disk_percent
  pub rx : Prints e rounded metric.network_rx_kbps
  pub tx : Prints e rounded metric.network_tx_kbps
  pub memory_used : Fits metric.memory_used_mb
  pub memory_total : Fits metric.memory_total_mb
  pub disk_used : Fits metric.disk_used_mb
  pub disk_total : Fits metric.disk_total_mb

-- the metric with each `double` as it is after its text
abbrev pub received : {D : Type 0} → (D → D) → MetricSnapshot D → MetricSnapshot D
received rounded metric = record metric {
  cpu_percent = rounded metric.cpu_percent;
  memory_percent = rounded metric.memory_percent;
  disk_percent = rounded metric.disk_percent;
  network_rx_kbps = rounded metric.network_rx_kbps;
  network_tx_kbps = rounded metric.network_tx_kbps;
}

abbrev type_member : Member
type_member = text (codes "type") (codes "metrics")

IsPlain-Lacks : (s : Bytes) → IsPlain s → Lacks quote s
unfolding escape_char
IsPlain-Lacks [] h = tt
IsPlain-Lacks (c ∷ s) (hc, h) = (λ p. ground arith, IsPlain-Lacks s h)

module _ {D : Type 0} (e : Machine D) where
  abbrev members : MetricSnapshot D → List Member
  members metric =
      text (codes "host") metric.host
      ∷ text (codes "timestamp") metric.timestamp
      ∷ number (codes "cpu_percent") (e.fixed 2 metric.cpu_percent)
      ∷ number (codes "memory_percent") (e.fixed 2 metric.memory_percent)
      ∷ number (codes "disk_percent") (e.fixed 2 metric.disk_percent)
      ∷ number (codes "network_rx_kbps") (e.fixed 2 metric.network_rx_kbps)
      ∷ number (codes "network_tx_kbps") (e.fixed 2 metric.network_tx_kbps)
      ∷ number (codes "memory_used_mb") (format_integer metric.memory_used_mb)
      ∷ number (codes "memory_total_mb") (format_integer metric.memory_total_mb)
      ∷ number (codes "disk_used_mb") (format_integer metric.disk_used_mb)
      ∷ number (codes "disk_total_mb") (format_integer metric.disk_total_mb)
      ∷ []

  payload_object :
      (metric : MetricSnapshot D)
      → IsPlain metric.host
      → IsPlain metric.timestamp
      → metrics_payload e metric ≡ object type_member (members metric)
  unfolding metrics_payload metric_data_to_json format_double
  payload_object metric h t =
      rw
        (
          escape_json-all metric.host,
          escape_json-all metric.timestamp,
          all_escaped-IsPlain metric.host h,
          all_escaped-IsPlain metric.timestamp t,
        )
        refl

  members-IsMember :
      (rounded : D → D) (metric : MetricSnapshot D)
      → IsSendable e rounded metric
      → All IsMember (type_member ∷ members metric)
  unfolding is_key
  members-IsMember rounded metric h = ground (
    arith,
    key-Lacks (codes "metrics") refl,
    IsPlain-Lacks metric.host h.host_plain,
    IsPlain-Lacks metric.timestamp h.timestamp_plain,
    fixed-Lacks quote quote-IsOther _ h.cpu.fixed_text,
    fixed-Lacks quote quote-IsOther _ h.memory.fixed_text,
    fixed-Lacks quote quote-IsOther _ h.disk.fixed_text,
    fixed-Lacks quote quote-IsOther _ h.rx.fixed_text,
    fixed-Lacks quote quote-IsOther _ h.tx.fixed_text,
    integer-Lacks quote quote-IsOther metric.memory_used_mb,
    integer-Lacks quote quote-IsOther metric.memory_total_mb,
    integer-Lacks quote quote-IsOther metric.disk_used_mb,
    integer-Lacks quote quote-IsOther metric.disk_total_mb,
  )

  module _ (rounded : D → D) (metric : MetricSnapshot D) (h : IsSendable e rounded metric) where
    find_double :
        (key : Bytes) (d : D)
        → is_key key ≡ true
        → find_member key (type_member ∷ members metric) ≡ some (number key (e.fixed 2 d))
        → Prints e rounded d
        → json_get_number e (object type_member (members metric)) key ≡ returned (some (rounded d))
    find_double key d named found printed =
        json_get_number-object type_member (members metric) key key named
          (members-IsMember rounded metric h) e (e.fixed 2 d) (rounded d) printed.fixed_text found
          printed.reads

    find_integer :
        (key : Bytes) (z : ℤ)
        → is_key key ≡ true
        → find_member key (type_member ∷ members metric) ≡ some (number key (format_integer z))
        → Fits z
        → json_get_integer (object type_member (members metric)) key ≡ returned (some z)
    find_integer key z named found fits =
        json_get_integer-object type_member (members metric) key key named
          (members-IsMember rounded metric h) z fits found

    find_text :
        (key value : Bytes)
        → is_key key ≡ true
        → find_member key (type_member ∷ members metric) ≡ some (text key value)
        → json_get_string (object type_member (members metric)) key ≡ some value
    find_text key value named found =
        json_get_string-object type_member (members metric) key key value named
          (members-IsMember rounded metric h) found

    read_metric-object :
        (client : ClientConnection) (reading : ℕ)
        → read_metric e client reading (object type_member (members metric))
          ≡ returned (received rounded metric)
    unfolding read_metric is_key find_member str_eq
    read_metric-object client reading =
        rw
          (
            find_double (codes "cpu_percent") metric.cpu_percent refl refl h.cpu,
            find_double (codes "memory_percent") metric.memory_percent refl refl h.memory,
            find_double (codes "disk_percent") metric.disk_percent refl refl h.disk,
            find_double (codes "network_rx_kbps") metric.network_rx_kbps refl refl h.rx,
            find_double (codes "network_tx_kbps") metric.network_tx_kbps refl refl h.tx,
            find_integer (codes "memory_used_mb") metric.memory_used_mb refl refl h.memory_used,
            find_integer (codes "memory_total_mb") metric.memory_total_mb refl refl h.memory_total,
            find_integer (codes "disk_used_mb") metric.disk_used_mb refl refl h.disk_used,
            find_integer (codes "disk_total_mb") metric.disk_total_mb refl refl h.disk_total,
            find_text (codes "host") metric.host refl refl,
            find_text (codes "timestamp") metric.timestamp refl refl,
          )
          refl

    -- The server stores the metrics that an agent sends: it finds the agent's host, time and
    -- integers, and each `double` as it is after its text, if the strings need no escape and the
    -- texts of the numbers can be read.
    pub handle_line-metrics_payload :
        (index : ℕ) (s : MonitorServer D) (client : ClientConnection)
        → at s.clients index ≡ returned client
        → is_agent client.role ≡ true
        → handle_line e index (metrics_payload e metric) s
          ≡ returned (store_metric e (received rounded metric) (tick s))
    unfolding handle_line dispatch handle_metrics is_key find_member str_eq
    handle_line-metrics_payload index s client there role =
        rw
          (
            payload_object metric h.host_plain h.timestamp_plain,
            there,
            find_text (codes "type") (codes "metrics") refl refl,
            role,
            read_metric-object client s.readings,
          )
          refl
