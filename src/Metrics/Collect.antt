-- ===== src/Metrics/Collect.antt =====
-- cpp/include/metrics.hpp: `collect_metrics` and `hostname_or`.
pub mod Within
pub mod Named
use sys_net_mon.Base.{ℕ, pos, Option, none, some, Bytes, Outcome, returned, ◌>>=◌}
use sys_net_mon.Machine.{Machine}
use sys_net_mon.Events.{MetricSnapshot, iso_timestamp}
use sys_net_mon.Metrics.{CpuSample, NetSample}
use sys_net_mon.Metrics.Cpu.{CpuSource, read_cpu_sample, cpu_usage}
use sys_net_mon.Metrics.Net.{NetSource, read_net_sample, net_usage}
use sys_net_mon.Metrics.Memory.{
  DiskStats, VmStats, linux_memory, windows_memory, apple_memory, posix_disk, windows_disk,
}

-- `name` is what the system calls the host, or `none` where the call fails
unfoldable pub hostname_or : Option Bytes → Bytes → Bytes
hostname_or none fallback = fallback
hostname_or (some name) fallback = name

-- what the system says of memory and disk
pub data UsageSource : Type 0 where
  linux : Option Bytes → Option DiskStats → UsageSource
  windows : Option (ℕ × ℕ) → Option (ℕ × ℕ) → UsageSource
  apple : Option ℕ → Option VmStats → Option DiskStats → UsageSource

-- what the system says while one snapshot is taken
pub record Readings (D : Type 0) : Type 0 where
  pub clock : ℕ
  pub cpu : CpuSource
  pub usage : UsageSource
  pub net : NetSource
  pub elapsed_seconds : D

-- the samples that are kept from one snapshot to the next
pub record Previous : Type 0 where
  pub previous_cpu : CpuSample
  pub previous_net : NetSample

module _ {D : Type 0} (e : Machine D) where
  -- a new snapshot, with the members' initial values
  unfoldable pub new_snapshot : Bytes → ℕ → D → MetricSnapshot D
  new_snapshot host clock cpu = record {
    host = host;
    timestamp = iso_timestamp e clock;
    cpu_percent = cpu;
    memory_percent = e.zero_double;
    disk_percent = e.zero_double;
    network_rx_kbps = e.zero_double;
    network_tx_kbps = e.zero_double;
    memory_used_mb = pos 0;
    memory_total_mb = pos 0;
    disk_used_mb = pos 0;
    disk_total_mb = pos 0;
  }

  unfoldable pub with_usage : UsageSource → MetricSnapshot D → Outcome (MetricSnapshot D)
  unfolding linux_memory windows_memory apple_memory posix_disk windows_disk
  with_usage (linux meminfo disk) metric = do
    metric' ← linux_memory e meminfo metric
    returned (posix_disk e disk metric')
  with_usage (windows memory disk) metric =
      returned (windows_disk e disk (windows_memory e memory metric))
  with_usage (apple memory vm disk) metric =
      returned (posix_disk e disk (apple_memory e memory vm metric))

  -- the snapshot, and the samples for the next one
  unfoldable pub collect_metrics :
      Bytes → Readings D → Previous → Outcome (MetricSnapshot D × Previous)
  unfolding new_snapshot with_usage read_cpu_sample cpu_usage read_net_sample net_usage
  collect_metrics host now before = do
    let current_cpu = read_cpu_sample now.cpu
    let started = new_snapshot host now.clock (cpu_usage e before.previous_cpu current_cpu)
    metric ← with_usage now.usage started
    let current_net = read_net_sample now.net
    let rates = net_usage e before.previous_net current_net now.elapsed_seconds
    returned (
      record metric { network_rx_kbps = rates.0; network_tx_kbps = rates.1 },
      record { previous_cpu = current_cpu; previous_net = current_net },
    )
