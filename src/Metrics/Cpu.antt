-- ===== src/Metrics/Cpu.antt =====
-- cpp/include/metrics.hpp: `read_cpu_sample` on each platform, and the part of `collect_metrics` that
-- compares two samples.
pub mod Usage
use sys_net_mon.Base.{
  ℕ, ℤ, pos, zero, suc, ◌+◌, ◌*◌, ◌%◌, Bool, ◌&&◌, not, Option, none, some, List, [], ◌∷◌, Bytes,
  if◌then◌else◌, ltb, ◌==◌, and_then,
}
use sys_net_mon.Machine.{Machine}
use sys_net_mon.Events.{MetricSnapshot}
use sys_net_mon.Streams.{word, Stream, read_token, read_numbers}
use sys_net_mon.Metrics.{CpuSample, sub64, add64, percent}

-- the variable that is read as number `index`; what was not read is 0
unfoldable pub number_at : ℕ → List ℕ → ℕ
number_at index [] = 0
number_at zero (n ∷ ns) = n
number_at (suc index) (n ∷ ns) = number_at index ns

-- `proc_stat >> label`
unfoldable pub after_label : Stream → Stream
after_label stream = and_then stream λ text. and_then (read_token text) λ parts. some parts.1

-- the sample of the eight counters user, nice, system, idle, iowait, irq, softirq and steal
unfoldable pub sample_of : List ℕ → CpuSample
unfolding number_at
sample_of ns = record {
  idle = (number_at 3 ns + number_at 4 ns) % word;
  total =
      (number_at 0 ns
        + number_at 1 ns
        + number_at 2 ns
        + number_at 3 ns
        + number_at 4 ns
        + number_at 5 ns
        + number_at 6 ns
        + number_at 7 ns)
      % word;
}

-- `FILETIME`, in two halves of 32 bits
pub record FileTime : Type 0 where
  pub low : ℕ
  pub high : ℕ

unfoldable pub to_u64 : FileTime → ℕ
to_u64 value = value.high * 4294967296 + value.low

-- the ticks that `host_statistics` counts
pub record CpuTicks : Type 0 where
  pub user_ticks : ℕ
  pub system_ticks : ℕ
  pub nice_ticks : ℕ
  pub idle_ticks : ℕ

-- Where the sample comes from: the text of `/proc/stat`, the idle, kernel and user time of Windows,
-- or the ticks of macOS; `none` where the file or the call fails.
pub data CpuSource : Type 0 where
  proc_stat : Option Bytes → CpuSource
  system_times : Option (FileTime × FileTime × FileTime) → CpuSource
  host_load : Option CpuTicks → CpuSource

abbrev pub no_cpu_sample : CpuSample
no_cpu_sample = record { idle = 0; total = 0 }

unfoldable pub read_cpu_sample : CpuSource → CpuSample
unfolding after_label sample_of to_u64 add64
read_cpu_sample (proc_stat text) = sample_of (read_numbers 8 (after_label text))
read_cpu_sample (system_times none) = no_cpu_sample
read_cpu_sample (system_times (some (idle, kernel, user))) = record {
  idle = to_u64 idle;
  total = add64 (to_u64 kernel) (to_u64 user);
}
read_cpu_sample (host_load none) = no_cpu_sample
read_cpu_sample (host_load (some load)) = record {
  idle = load.idle_ticks;
  total = (load.user_ticks + load.system_ticks + load.nice_ticks + load.idle_ticks) % word;
}

-- `cpu_percent` of two samples; it stays at 0.0 where there is none before, or no time went by
unfoldable pub cpu_usage : {D : Type 0} → Machine D → CpuSample → CpuSample → D
unfolding sub64 percent
cpu_usage e previous current =
    let total_delta = sub64 current.total previous.total in
    let idle_delta = sub64 current.idle previous.idle in
    if not (previous.total == 0) && ltb 0 total_delta
    then percent e (pos (sub64 total_delta idle_delta)) (pos total_delta)
    else e.zero_double
