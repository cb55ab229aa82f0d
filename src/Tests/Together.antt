-- ===== src/Tests/Together.antt =====
-- The agent and the server together at a fixed input.
use sys_net_mon.Base.{
  ℕ, ◌/◌, List, [], ◌∷◌, ◌≡◌, refl, ap, arith, returned, All, pos, drop_while_exact, drop_while,
  take_while, str_eq, take_while-append,
}
use sys_net_mon.Text.{is_space}
use sys_net_mon.Decimal.{is_digit, format_ℕ, in_range, magnitude}
use sys_net_mon.Streams.{read_token, read_integer, read_numbers, read_unsigned}
use sys_net_mon.Streams.Numbers.{written}
use sys_net_mon.Metrics.Memory.Entries
use sys_net_mon.Decimal.RoundTrip.{format_ℕ_lem}
use sys_net_mon.Events.{MetricSnapshot, iso_timestamp}
use sys_net_mon.Agent.Measured.{Prints}
use sys_net_mon.Agent.Sendable.{HasTexts}
use sys_net_mon.Agent.Loop.Delivery.{snapshots}
use sys_net_mon.Metrics.Collect.{collect_metrics}
use sys_net_mon.Agent.Received.{stored, with_agent}
use sys_net_mon.Agent.Loop.{Call, Turn, exited, agent_start, agent_main}
use sys_net_mon.Agent.Together.{wire, agent_main-stored}
use sys_net_mon.Server.Stream.{read_chunks}
use sys_net_mon.Tests.Agent.{arguments, parsed, parse_arguments, two_calls, edge-IsPlain}
use sys_net_mon.Tests.Messages.{
  sample_fixed-IsFixed, newcomer, joined_server, single_bytes, joined-single_bytes,
}
use sys_net_mon.Tests.Sessions.{startup, turn, attempt-IsGood, turn-IsGoodTurn}
use sys_net_mon.Sample.{sample, sample_stod, sample_fixed, hundredths}

-- A number of hundredths is read again from its text.
reads_again : (v : ℕ) → sample_stod (sample_fixed 2 v) ≡ returned v
unfolding sample_stod sample_fixed hundredths is_digit
reads_again v =
    let (value, all_digits, some_digit) = format_ℕ_lem (v / 100) in
    rw
      (
        take_while-append is_digit (format_ℕ (v / 100)) _ all_digits refl,
        drop_while_exact is_digit (format_ℕ (v / 100)) _ all_digits refl,
        value,
      )
      (ap (λ n. returned n) (omega arith))

always_prints : (v : ℕ) → Prints sample (λ d. d) v
always_prints v = record { fixed_text = sample_fixed-IsFixed v; reads = reads_again v }

metric-HasTexts : (metric : MetricSnapshot ℕ) → HasTexts sample (λ d. d) metric
metric-HasTexts metric = record {
  cpu = always_prints metric.cpu_percent;
  memory = always_prints metric.memory_percent;
  disk = always_prints metric.disk_percent;
  rx = always_prints metric.network_rx_kbps;
  tx = always_prints metric.network_tx_kbps;
}

metrics-HasTexts : (metrics : List (MetricSnapshot ℕ)) → All (HasTexts sample (λ d. d)) metrics
metrics-HasTexts [] = tt
metrics-HasTexts (metric ∷ metrics) = (metric-HasTexts metric, metrics-HasTexts metrics)

abbrev two_turns : List (Turn ℕ)
two_turns = turn two_calls ∷ turn two_calls ∷ []

-- The processor was busy for a quarter of the time up to the first snapshot, and did not move after it.
abbrev snapshot : ℕ → MetricSnapshot ℕ
snapshot cpu_percent = record {
  host = parsed.agent_name;
  timestamp = iso_timestamp sample 7;
  cpu_percent = cpu_percent;
  memory_percent = 5000;
  disk_percent = 5000;
  network_rx_kbps = 0;
  network_tx_kbps = 0;
  memory_used_mb = pos 4000;
  memory_total_mb = pos 8000;
  disk_used_mb = pos 1953;
  disk_total_mb = pos 3906;
}

snapshots_lem :
    snapshots sample parsed.agent_name two_turns (agent_start startup).previous
    ≡ returned (snapshot 2500 ∷ snapshot 0 ∷ [])
unfolding snapshots collect_metrics agent_start read_token drop_while Entries.file_of is_space
    read_integer format_ℕ take_while is_digit in_range magnitude str_eq read_numbers read_unsigned
    iso_timestamp written
snapshots_lem = refl

agent_main-stored_example :
    (calls : List Call) × (agent_main sample arguments startup (turn two_calls ∷ two_turns)
      ≡ returned (exited 0, calls))
    × (read_chunks sample 2 (single_bytes (wire 6 calls)) joined_server
        ≡ returned (
            stored sample
              (λ d. d)
              (snapshot 2500 ∷ snapshot 0 ∷ [])
              (with_agent sample (λ d. d) parsed 2 newcomer joined_server)))
agent_main-stored_example =
    agent_main-stored sample (λ d. d) parsed arguments startup (turn two_calls) two_turns 6
      (snapshot 2500 ∷ snapshot 0 ∷ []) single_bytes 2 joined_server newcomer parse_arguments refl
      refl attempt-IsGood (turn-IsGoodTurn, (turn-IsGoodTurn, tt)) snapshots_lem
      (metrics-HasTexts (snapshot 2500 ∷ snapshot 0 ∷ [])) joined-single_bytes refl refl
      edge-IsPlain
