-- ===== src/Metrics/Memory.antt =====
-- cpp/include/metrics.hpp: the memory and the disk in `collect_metrics`, on each platform.
pub mod Entries
use sys_net_mon.Base.{
  ℕ, ℤ, pos, negsuc, zero, suc, ◌+◌, ◌-◌, ◌/◌, ◌%◌, ◌-ℤ◌, Bool, true, false, ◌&&◌, Option, none,
  some, [], ◌∷◌, Bytes, codes, if◌then◌else◌, ltb, str_eq, length, and_then, Outcome, returned,
  undefined, ◌>>=◌,
}
use sys_net_mon.Machine.{Machine}
use sys_net_mon.Decimal.{limit}
use sys_net_mon.Events.{MetricSnapshot}
use sys_net_mon.Streams.{Stream, read_token, read_integer}
use sys_net_mon.Metrics.{sub64, mul64, in_megabytes, percent}

-- `mem_total_kb` and `mem_available_kb`
pub record MemInfo : Type 0 where
  pub total : ℤ
  pub available : ℤ

-- `meminfo >> key >> value >> unit`
unfoldable pub read_entry : Bytes → Option (Bytes × ℤ × Bytes)
read_entry text = and_then (read_token text) λ key.
    and_then (read_integer key.1)
      λ value. and_then (read_token value.1) λ unit. some (key.0, value.0, unit.1)

unfoldable pub note_entry : Bytes → ℤ → MemInfo → MemInfo
note_entry key value m =
    if str_eq key (codes "MemTotal:")
    then record m { total = value }
    else if str_eq key (codes "MemAvailable:")
    then record m { available = value }
    else m

unfoldable pub is_positive : ℤ → Bool
is_positive (pos n) = ltb 0 n
is_positive (negsuc n) = false

unfoldable pub is_complete : MemInfo → Bool
unfolding is_positive
is_complete m = is_positive m.total && is_positive m.available

-- the loop over the entries, for `fuel` rounds at most
unfoldable pub read_entries : ℕ → Bytes → MemInfo → MemInfo
unfolding read_entry note_entry is_complete
read_entries zero text m = m
read_entries (suc fuel) text m = elim (read_entry text) [
  | none ↦ m
  | some (key, value, rest) ↦
      let m' = note_entry key value m in
      let more = read_entries fuel rest m' in if is_complete m' then m' else more
]

unfoldable pub read_meminfo : Option Bytes → MemInfo
unfolding read_entries
read_meminfo none = record { total = pos 0; available = pos 0 }
read_meminfo (some text) =
    read_entries (suc (length text)) text (record { total = pos 0; available = pos 0 })

-- a result of signed arithmetic that `long long` has to hold
unfoldable pub long_long : ℤ → Outcome ℤ
long_long (pos n) = if ltb n limit then returned (pos n) else undefined
long_long (negsuc n) = if ltb n limit then returned (negsuc n) else undefined

-- `value / 1024`, which rounds towards zero
unfoldable pub over_1024 : ℤ → ℤ
over_1024 (pos n) = pos (n / 1024)
over_1024 (negsuc n) = pos 0 -ℤ pos (suc n / 1024)

-- what `statvfs` counts
pub record DiskStats : Type 0 where
  pub blocks : ℕ
  pub frsize : ℕ
  pub bavail : ℕ

-- what macOS says of its memory; the counts are of 32 bits
pub record VmStats : Type 0 where
  pub free_count : ℕ
  pub inactive_count : ℕ
  pub page_size : ℕ

module _ {D : Type 0} (e : Machine D) where
  -- the memory of a snapshot, from bytes
  unfoldable pub set_memory : ℕ → ℕ → MetricSnapshot D → MetricSnapshot D
  unfolding in_megabytes percent
  set_memory total used metric = record metric {
    memory_total_mb = in_megabytes total;
    memory_used_mb = in_megabytes used;
    memory_percent =
        if ltb 0 total then percent e (pos used) (pos total) else metric.memory_percent;
  }

  unfoldable pub set_disk : ℕ → ℕ → MetricSnapshot D → MetricSnapshot D
  unfolding in_megabytes percent
  set_disk total used metric = record metric {
    disk_total_mb = in_megabytes total;
    disk_used_mb = in_megabytes used;
    disk_percent = if ltb 0 total then percent e (pos used) (pos total) else metric.disk_percent;
  }

  -- from the text of `/proc/meminfo`
  unfoldable pub linux_memory : Option Bytes → MetricSnapshot D → Outcome (MetricSnapshot D)
  unfolding read_meminfo long_long over_1024 percent is_positive ◌-ℤ◌
  linux_memory text metric = do
    let m = read_meminfo text
    used ← long_long (m.total -ℤ m.available)
    returned (record metric {
      memory_total_mb = over_1024 m.total;
      memory_used_mb = over_1024 used;
      memory_percent =
          if is_positive m.total then percent e used m.total else metric.memory_percent;
    })

  -- from the total and the available bytes of `GlobalMemoryStatusEx`
  unfoldable pub windows_memory : Option (ℕ × ℕ) → MetricSnapshot D → MetricSnapshot D
  unfolding set_memory sub64
  windows_memory none metric = metric
  windows_memory (some (total, available)) metric = set_memory total (sub64 total available) metric

  -- from `hw.memsize` and `host_statistics64`
  unfoldable pub apple_memory : Option ℕ → Option VmStats → MetricSnapshot D → MetricSnapshot D
  unfolding set_memory mul64
  apple_memory none vm metric = metric
  apple_memory (some total) none metric = metric
  apple_memory (some total) (some vm) metric =
      let available = mul64 ((vm.free_count + vm.inactive_count) % 4294967296) vm.page_size in
      set_memory total (if ltb available total then total - available else 0) metric

  -- from `statvfs`
  unfoldable pub posix_disk : Option DiskStats → MetricSnapshot D → MetricSnapshot D
  unfolding set_disk sub64 mul64
  posix_disk none metric = metric
  posix_disk (some disk) metric =
      let total = mul64 disk.blocks disk.frsize in
      set_disk total (sub64 total (mul64 disk.bavail disk.frsize)) metric

  -- from the total and the free bytes of `GetDiskFreeSpaceExA`
  unfoldable pub windows_disk : Option (ℕ × ℕ) → MetricSnapshot D → MetricSnapshot D
  unfolding set_disk sub64
  windows_disk none metric = metric
  windows_disk (some (total, free)) metric = set_disk total (sub64 total free) metric
