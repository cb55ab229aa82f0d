-- ===== src/Metrics/Collect/Within.antt =====
-- cpp/include/metrics.hpp: `collect_metrics`, and what is used of the memory and of the disk.
use sys_net_mon.Base.{
  ℕ, ℤ, pos, ◌-◌, ◌*◌, ◌/◌, ◌≤◌, ◌<◌, Option, none, some, Bytes, ◌≡◌, refl, arith, Outcome,
  returned, ◌-ℤ◌,
}
use sys_net_mon.Machine.{Machine}
use sys_net_mon.Decimal.{limit}
use sys_net_mon.Events.{MetricSnapshot}
use sys_net_mon.Streams.{word}
use sys_net_mon.Metrics.{sub64, mul64, in_megabytes}
use sys_net_mon.Metrics.Cpu.{read_cpu_sample, cpu_usage}
use sys_net_mon.Metrics.Memory.{
  MemInfo, read_meminfo, long_long, over_1024, DiskStats, VmStats, set_memory, set_disk,
  linux_memory, windows_memory, apple_memory, posix_disk, windows_disk,
}
use sys_net_mon.Metrics.Collect.{
  UsageSource, linux, windows, apple, Readings, Previous, new_snapshot, with_usage, collect_metrics,
}

-- the system does not say that more is free than there is
pub record IsSaneInfo (m : MemInfo) : Type 0 where
  pub total_kb : ℕ
  pub available_kb : ℕ
  pub total_eq : m.total ≡ pos total_kb
  pub available_eq : m.available ≡ pos available_kb
  pub less : available_kb ≤ total_kb
  pub fits : total_kb < limit

abbrev pub IsSanePair : Option (ℕ × ℕ) → Type 0
IsSanePair none = Unit
IsSanePair (some (total, free)) = (free ≤ total) × (total < word)

abbrev pub IsSaneDisk : Option DiskStats → Type 0
IsSaneDisk none = Unit
IsSaneDisk (some disk) =
    (disk.bavail * disk.frsize ≤ disk.blocks * disk.frsize) × (disk.blocks * disk.frsize < word)

abbrev pub IsSaneTotal : Option ℕ → Type 0
IsSaneTotal none = Unit
IsSaneTotal (some total) = total < word

abbrev pub IsSane : UsageSource → Type 0
IsSane (linux meminfo disk) = IsSaneInfo (read_meminfo meminfo) × IsSaneDisk disk
IsSane (windows memory disk) = IsSanePair memory × IsSanePair disk
IsSane (apple memory vm disk) = IsSaneTotal memory × IsSaneDisk disk

-- two figures of a snapshot, of which the first is no greater
pub record IsPart (used total : ℤ) : Type 0 where
  pub used_mb : ℕ
  pub total_mb : ℕ
  pub used_eq : used ≡ pos used_mb
  pub total_eq : total ≡ pos total_mb
  pub less : used_mb ≤ total_mb
  pub fits : total_mb < limit

pub record IsWithin {D : Type 0} (metric : MetricSnapshot D) : Type 0 where
  pub memory : IsPart metric.memory_used_mb metric.memory_total_mb
  pub disk : IsPart metric.disk_used_mb metric.disk_total_mb

zero-IsPart : IsPart (pos 0) (pos 0)
zero-IsPart = record {
  used_mb = 0;
  total_mb = 0;
  used_eq = refl;
  total_eq = refl;
  less = omega arith;
  fits = omega arith;
}

in_megabytes-IsPart :
    (used total : ℕ) → used ≤ total → total < word → IsPart (in_megabytes used) (in_megabytes total)
unfolding in_megabytes
in_megabytes-IsPart used total h fits = record {
  used_mb = used / 1048576;
  total_mb = total / 1048576;
  used_eq = refl;
  total_eq = refl;
  less = omega arith;
  fits = omega arith;
}

sub64_le : (a b : ℕ) → b ≤ a → a < word → sub64 a b ≤ a
unfolding sub64
sub64_le a b h fits = omega arith

mul64_small : (a b : ℕ) → a * b < word → mul64 a b ≡ a * b
unfolding mul64
mul64_small a b h = omega arith

module _ {D : Type 0} (e : Machine D) where
  set_disk-IsWithin :
      (total used : ℕ) (metric : MetricSnapshot D)
      → used ≤ total
      → total < word
      → IsWithin metric
      → IsWithin (set_disk e total used metric)
  unfolding set_disk
  set_disk-IsWithin total used metric h fits w = record {
    memory = w.memory;
    disk = in_megabytes-IsPart used total h fits;
  }

  set_memory-IsWithin :
      (total used : ℕ) (metric : MetricSnapshot D)
      → used ≤ total
      → total < word
      → IsWithin metric
      → IsWithin (set_memory e total used metric)
  unfolding set_memory
  set_memory-IsWithin total used metric h fits w = record {
    memory = in_megabytes-IsPart used total h fits;
    disk = w.disk;
  }

  posix_disk-IsWithin :
      (disk : Option DiskStats) (metric : MetricSnapshot D)
      → IsSaneDisk disk
      → IsWithin metric
      → IsWithin (posix_disk e disk metric)
  unfolding posix_disk
  posix_disk-IsWithin none metric h w = w
  posix_disk-IsWithin (some disk) metric h w =
      set_disk-IsWithin _ _ metric
        (let less = h.0 in
          let fits = h.1 in
          rw
            (
              mul64_small disk.blocks disk.frsize fits,
              mul64_small disk.bavail disk.frsize (omega arith),
            )
            (sub64_le (disk.blocks * disk.frsize) (disk.bavail * disk.frsize) less fits))
        (rw (mul64_small disk.blocks disk.frsize h.1) h.1) w

  windows_disk-IsWithin :
      (disk : Option (ℕ × ℕ)) (metric : MetricSnapshot D)
      → IsSanePair disk
      → IsWithin metric
      → IsWithin (windows_disk e disk metric)
  unfolding windows_disk
  windows_disk-IsWithin none metric h w = w
  windows_disk-IsWithin (some (total, free)) metric h w =
      set_disk-IsWithin total (sub64 total free) metric (sub64_le total free h.0 h.1) h.1 w

  windows_memory-IsWithin :
      (memory : Option (ℕ × ℕ)) (metric : MetricSnapshot D)
      → IsSanePair memory
      → IsWithin metric
      → IsWithin (windows_memory e memory metric)
  unfolding windows_memory
  windows_memory-IsWithin none metric h w = w
  windows_memory-IsWithin (some (total, free)) metric h w =
      set_memory-IsWithin total (sub64 total free) metric (sub64_le total free h.0 h.1) h.1 w

  apple_memory-IsWithin :
      (memory : Option ℕ) (vm : Option VmStats) (metric : MetricSnapshot D)
      → IsSaneTotal memory
      → IsWithin metric
      → IsWithin (apple_memory e memory vm metric)
  unfolding apple_memory
  apple_memory-IsWithin none vm metric small w = w
  apple_memory-IsWithin (some total) none metric small w = w
  apple_memory-IsWithin (some total) (some vm) metric small w =
      set_memory-IsWithin total _ metric (ground arith) small w

-- a call that returns a snapshot in which used is no more than total
abbrev pub ReturnsWithin : {D : Type 0} → Outcome (MetricSnapshot D) → Type 0
ReturnsWithin m = (metric : _) × (m ≡ returned metric) × IsWithin metric

used_kb : (t a : ℕ) → a ≤ t → t < limit → long_long (pos t -ℤ pos a) ≡ returned (pos (t - a))
unfolding long_long ◌-ℤ◌
used_kb t a h fits = ground arith

over_1024-IsPart : (t a : ℕ) → t < limit → IsPart (over_1024 (pos (t - a))) (over_1024 (pos t))
unfolding over_1024
over_1024-IsPart t a h = record {
  used_mb = (t - a) / 1024;
  total_mb = t / 1024;
  used_eq = refl;
  total_eq = refl;
  less = omega arith;
  fits = omega arith;
}

module _ {D : Type 0} (e : Machine D) where
  linux_memory-IsWithin :
      (text : Option Bytes) (metric : MetricSnapshot D)
      → IsSaneInfo (read_meminfo text)
      → IsWithin metric
      → ReturnsWithin (linux_memory e text metric)
  unfolding linux_memory
  linux_memory-IsWithin text metric h w =
      rw (h.total_eq, h.available_eq, used_kb h.total_kb h.available_kb h.less h.fits)
        (
          _,
          refl,
          record { memory = over_1024-IsPart h.total_kb h.available_kb h.fits; disk = w.disk },
        )

  with_usage-IsWithin :
      (source : UsageSource) (metric : MetricSnapshot D)
      → IsSane source
      → IsWithin metric
      → ReturnsWithin (with_usage e source metric)
  unfolding with_usage
  with_usage-IsWithin (linux meminfo disk) metric h w =
      let (metric', returns, w') = linux_memory-IsWithin meminfo metric h.0 w in
      rw (returns) (_, refl, posix_disk-IsWithin e disk metric' h.1 w')
  with_usage-IsWithin (windows memory disk) metric h w =
      (_, refl, windows_disk-IsWithin e disk _ h.1 (windows_memory-IsWithin e memory metric h.0 w))
  with_usage-IsWithin (apple memory vm disk) metric h w =
      (_, refl, posix_disk-IsWithin e disk _ h.1 (apple_memory-IsWithin e memory vm metric h.0 w))

  new_snapshot-IsWithin :
      (host : Bytes) (clock : ℕ) (cpu : D) → IsWithin (new_snapshot e host clock cpu)
  unfolding new_snapshot
  new_snapshot-IsWithin host clock cpu = record { memory = zero-IsPart; disk = zero-IsPart }

  -- If the system says that no more is free than there is, and the byte counts fit, then a snapshot
  -- is taken, and it shows no more used than there is in total, for the memory and for the disk.
  pub collect_metrics-IsWithin :
      (host : Bytes) (now : Readings D) (before : Previous)
      → IsSane now.usage
      → (taken : MetricSnapshot D × Previous) × (collect_metrics e host now before ≡ returned taken)
        × IsWithin taken.0
  unfolding collect_metrics
  collect_metrics-IsWithin host now before sane =
      let (metric, returns, w) =
        with_usage-IsWithin now.usage
          (new_snapshot e host now.clock
            (cpu_usage e before.previous_cpu (read_cpu_sample now.cpu)))
          sane (new_snapshot-IsWithin host now.clock _) in
      rw (returns) (_, refl, record { memory = w.memory; disk = w.disk })
