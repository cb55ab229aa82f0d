-- ===== src/Metrics/Net.antt =====
-- cpp/include/metrics.hpp: `read_net_sample` on each platform, and the part of `collect_metrics` that
-- compares two samples.
pub mod Interfaces
use Prim.Native.Nat.{bit_and}
use sys_net_mon.Base.{
  ℕ, pos, suc, ◌+◌, Bool, true, false, ◌&&◌, ◌||◌, not, Option, none, some, List, [], ◌∷◌, Bytes,
  codes, if◌then◌else◌, leb, ltb, ◌==◌, str_eq,
}
use sys_net_mon.Machine.{Machine}
use sys_net_mon.Text.{trim}
use sys_net_mon.Streams.{read_numbers, text_lines, cut_at}
use sys_net_mon.Metrics.{NetSample, add64, sub64}
use sys_net_mon.Metrics.Cpu.{number_at}

abbrev pub no_net_sample : NetSample
no_net_sample = record { rx_bytes = 0; tx_bytes = 0 }

unfoldable pub add_bytes : ℕ → ℕ → NetSample → NetSample
unfolding add64
add_bytes rx tx sample = record {
  rx_bytes = add64 sample.rx_bytes rx;
  tx_bytes = add64 sample.tx_bytes tx;
}

abbrev pub is_loopback : Bytes → Bool
is_loopback name = str_eq (trim name) (codes "lo")

-- the sixteen counters of an interface: `rx_bytes` is the first, `tx_bytes` the ninth
unfoldable pub add_counters : List ℕ → NetSample → NetSample
unfolding add_bytes number_at
add_counters ns sample = add_bytes (number_at 0 ns) (number_at 8 ns) sample

-- what stands before and behind the colon of a line
unfoldable pub add_parts : Option (Bytes × Bytes) → NetSample → NetSample
unfolding add_counters
add_parts none sample = sample
add_parts (some (name, values)) sample =
    if is_loopback name then sample else add_counters (read_numbers 16 (some values)) sample

-- the loop over the lines of `/proc/net/dev`; `line_index` counts the lines before
unfoldable pub add_lines : ℕ → List Bytes → NetSample → NetSample
unfolding add_parts
add_lines line_index [] sample = sample
add_lines line_index (line ∷ lines) sample =
    add_lines (line_index + 1) lines
      (if leb (line_index + 1) 2 then sample else add_parts (cut_at b':' line) sample)

-- a row of the table of `GetIfTable`
pub record IfRow : Type 0 where
  pub row_type : ℕ
  pub in_octets : ℕ
  pub out_octets : ℕ

-- `IF_TYPE_SOFTWARE_LOOPBACK`
abbrev pub software_loopback : ℕ
software_loopback = 24

unfoldable pub add_rows : List IfRow → NetSample → NetSample
unfolding add_bytes
add_rows [] sample = sample
add_rows (row ∷ rows) sample = add_rows rows (
    if row.row_type == software_loopback
    then sample
    else add_bytes row.in_octets row.out_octets sample)

-- an entry of the list of `getifaddrs`: its address family and its counters, if it has them
pub record IfAddress : Type 0 where
  pub family : Option ℕ
  pub flags : ℕ
  pub counters : Option (ℕ × ℕ)

-- `AF_LINK` and `IFF_LOOPBACK`
abbrev pub af_link : ℕ
af_link = 18

abbrev pub iff_loopback : ℕ
iff_loopback = 8

unfoldable pub add_address : Option ℕ → ℕ → Option (ℕ × ℕ) → NetSample → NetSample
unfolding add_bytes
add_address none flags counters sample = sample
add_address (some family) flags none sample = sample
add_address (some family) flags (some (rx, tx)) sample =
    if not (family == af_link)
    then sample
    else if not (bit_and flags iff_loopback == 0)
    then sample
    else add_bytes rx tx sample

unfoldable pub add_addresses : List IfAddress → NetSample → NetSample
unfolding add_address
add_addresses [] sample = sample
add_addresses (entry ∷ entries) sample =
    add_addresses entries (add_address entry.family entry.flags entry.counters sample)

-- Where the sample comes from: the text of `/proc/net/dev`, the table of Windows, or the list of
-- macOS; `none` where the file or the call fails.
pub data NetSource : Type 0 where
  proc_net : Option Bytes → NetSource
  if_table : Option (List IfRow) → NetSource
  interfaces : Option (List IfAddress) → NetSource

unfoldable pub read_net_sample : NetSource → NetSample
unfolding add_lines add_rows add_addresses
read_net_sample (proc_net none) = no_net_sample
read_net_sample (proc_net (some text)) = add_lines 0 (text_lines text) no_net_sample
read_net_sample (if_table none) = no_net_sample
read_net_sample (if_table (some rows)) = add_rows rows no_net_sample
read_net_sample (interfaces none) = no_net_sample
read_net_sample (interfaces (some entries)) = add_addresses entries no_net_sample

-- `delta / 1024.0 / elapsed_seconds`
unfoldable pub rate : {D : Type 0} → Machine D → ℕ → D → D
rate e delta elapsed_seconds =
    e.divided_by (e.divided_by (e.of_integer (pos delta)) (e.of_integer (pos 1024))) elapsed_seconds

-- `network_rx_kbps` and `network_tx_kbps` of two samples
unfoldable pub net_usage : {D : Type 0} → Machine D → NetSample → NetSample → D → D × D
unfolding sub64 rate
net_usage e previous current elapsed_seconds =
    if not (previous.rx_bytes == 0) && e.greater elapsed_seconds e.zero_double
    then (
      rate e (sub64 current.rx_bytes previous.rx_bytes) elapsed_seconds,
      rate e (sub64 current.tx_bytes previous.tx_bytes) elapsed_seconds,
    )
    else (e.zero_double, e.zero_double)
