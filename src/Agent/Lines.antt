-- ===== src/Agent/Lines.antt =====
-- cpp/client/main.cpp: the messages of the agent are lines that the server takes as they are.
use sys_net_mon.Base.{
  List, [], ◌∷◌, ◌++◌, append_assoc, append-nil, Bytes, codes, ◌≡◌, refl, sym, arith, All,
  All-append, Lacks, has_byte, check_Lacks, false,
}
use mathlib.Core.List.{reverse-append}
use sys_net_mon.Machine.{Machine}
use sys_net_mon.Text.{newline, is_space, escape_json}
use sys_net_mon.Text.Trim.{IsTrimmed, trim_unique}
use sys_net_mon.Text.Escape.{escape_json-Lacks}
use sys_net_mon.Decimal.{format_integer}
use sys_net_mon.Events.{MetricSnapshot, metric_data_to_json, format_double}
use sys_net_mon.Json.Numbers.{fixed-Lacks, integer-Lacks, newline-IsOther}
use sys_net_mon.Agent.{AgentConfig, register_message, metrics_payload}
use sys_net_mon.Agent.Measured.{IsSendable}
use sys_net_mon.Server.Stream.{IsLine}

-- a text that ends with a closing brace
record Closes (s : Bytes) : Type 0 where
  front : Bytes
  shape : s ≡ front ++ b'}' ∷ []

append-Closes : (a b : Bytes) → Closes b → Closes (a ++ b)
append-Closes a b h = record {
  front = a ++ h.front;
  shape = rw h.shape (sym (append_assoc a h.front (b'}' ∷ [])));
}

-- what stands in front of a value, the value, and what stands behind it
abbrev pieces : List (Bytes × Bytes × Bytes) → Bytes
pieces [] = []
pieces ((before, value, behind) ∷ ps) = before ++ (value ++ (behind ++ pieces ps))

-- the last piece ends with a closing brace
abbrev EndsClosed : List (Bytes × Bytes × Bytes) → Type 0
EndsClosed [] = ⊥
EndsClosed ((before, value, behind) ∷ []) = behind ≡ codes "}"
EndsClosed (p ∷ q ∷ ps) = EndsClosed (q ∷ ps)

pieces-Closes : (ps : List (Bytes × Bytes × Bytes)) → EndsClosed ps → Closes (pieces ps)
pieces-Closes [] h = absurd h
pieces-Closes ((before, value, behind) ∷ []) h =
    append-Closes before _ (append-Closes value _ (rw h (record { front = []; shape = refl })))
pieces-Closes ((before, value, behind) ∷ q ∷ ps) h =
    append-Closes before _
      (append-Closes value _ (append-Closes behind _ (pieces-Closes (q ∷ ps) h)))

-- no part of a piece holds a newline
record InLine (p : Bytes × Bytes × Bytes) : Type 0 where
  before_line : has_byte newline p.0 ≡ false
  value_line : Lacks newline p.1
  behind_line : has_byte newline p.2 ≡ false

pieces-Lacks : (ps : List (Bytes × Bytes × Bytes)) → All InLine ps → Lacks newline (pieces ps)
pieces-Lacks [] h = tt
pieces-Lacks ((before, value, behind) ∷ ps) (hp, h) =
    All-append _ before _ (check_Lacks newline before hp.before_line) (
      All-append _ value _ hp.value_line
        (All-append _ behind _ (check_Lacks newline behind hp.behind_line) (pieces-Lacks ps h)))

-- a text in braces
braced-IsTrimmed : (s : Bytes) → Closes s → IsTrimmed (b'{' ∷ s)
unfolding is_space
braced-IsTrimmed s h =
    rw (h.shape)
      (record { starts = refl; ends = rw (reverse-append (b'{' ∷ h.front) (b'}' ∷ [])) refl })

braced-IsLine : (s : Bytes) → Closes s → Lacks newline (b'{' ∷ s) → IsLine (b'{' ∷ s)
braced-IsLine s h one_line = record {
  one_line = one_line;
  trimmed = rw (append-nil s) at (trim_unique [] (b'{' ∷ s) [] tt tt (braced-IsTrimmed s h));
  some_byte = λ p. cc;
}

pub register_message-IsLine : (config : AgentConfig) → IsLine (register_message config)
unfolding register_message has_byte
register_message-IsLine config =
    braced-IsLine _
      (append-Closes (codes "\"type\":\"register\",\"role\":\"agent\",\"host\":\"") _ (
        append-Closes (escape_json config.agent_name) (codes "\"}")
          (record { front = codes "\""; shape = refl })))
      (All-append _ (codes "{\"type\":\"register\",\"role\":\"agent\",\"host\":\"") _
        (check_Lacks newline (codes "{\"type\":\"register\",\"role\":\"agent\",\"host\":\"") refl)
        (All-append _ (escape_json config.agent_name) (codes "\"}")
          (escape_json-Lacks config.agent_name) (check_Lacks newline (codes "\"}") refl)))

module _ {D : Type 0} (e : Machine D) (metric : MetricSnapshot D) where
  abbrev payload_pieces : List (Bytes × Bytes × Bytes)
  payload_pieces =
      (codes "\"host\":\"", escape_json metric.host, codes "\",")
      ∷ (codes "\"timestamp\":\"", escape_json metric.timestamp, codes "\",")
      ∷ (codes "\"cpu_percent\":", e.fixed 2 metric.cpu_percent, codes ",")
      ∷ (codes "\"memory_percent\":", e.fixed 2 metric.memory_percent, codes ",")
      ∷ (codes "\"disk_percent\":", e.fixed 2 metric.disk_percent, codes ",")
      ∷ (codes "\"network_rx_kbps\":", e.fixed 2 metric.network_rx_kbps, codes ",")
      ∷ (codes "\"network_tx_kbps\":", e.fixed 2 metric.network_tx_kbps, codes ",")
      ∷ (codes "\"memory_used_mb\":", format_integer metric.memory_used_mb, codes ",")
      ∷ (codes "\"memory_total_mb\":", format_integer metric.memory_total_mb, codes ",")
      ∷ (codes "\"disk_used_mb\":", format_integer metric.disk_used_mb, codes ",")
      ∷ (codes "\"disk_total_mb\":", format_integer metric.disk_total_mb, codes "}")
      ∷ []

  payload-pieces :
      metrics_payload e metric ≡ codes "{\"type\":\"metrics\"," ++ pieces payload_pieces
  unfolding metrics_payload metric_data_to_json format_double
  payload-pieces = refl

  payload_pieces-InLine :
      (rounded : D → D) → IsSendable e rounded metric → All InLine payload_pieces
  unfolding has_byte
  payload_pieces-InLine rounded h = ground (
    arith,
    escape_json-Lacks metric.host,
    escape_json-Lacks metric.timestamp,
    fixed-Lacks newline newline-IsOther _ h.cpu.fixed_text,
    fixed-Lacks newline newline-IsOther _ h.memory.fixed_text,
    fixed-Lacks newline newline-IsOther _ h.disk.fixed_text,
    fixed-Lacks newline newline-IsOther _ h.rx.fixed_text,
    fixed-Lacks newline newline-IsOther _ h.tx.fixed_text,
    integer-Lacks newline newline-IsOther metric.memory_used_mb,
    integer-Lacks newline newline-IsOther metric.memory_total_mb,
    integer-Lacks newline newline-IsOther metric.disk_used_mb,
    integer-Lacks newline newline-IsOther metric.disk_total_mb,
  )

  pub metrics_payload-IsLine :
      (rounded : D → D) → IsSendable e rounded metric → IsLine (metrics_payload e metric)
  unfolding has_byte
  metrics_payload-IsLine rounded h = rw payload-pieces (
      braced-IsLine (codes "\"type\":\"metrics\"," ++ pieces payload_pieces)
        (append-Closes (codes "\"type\":\"metrics\",") (pieces payload_pieces)
          (pieces-Closes payload_pieces refl))
        (All-append _ (codes "{\"type\":\"metrics\",") (pieces payload_pieces)
          (check_Lacks newline (codes "{\"type\":\"metrics\",") refl)
          (pieces-Lacks payload_pieces (payload_pieces-InLine rounded h))))
