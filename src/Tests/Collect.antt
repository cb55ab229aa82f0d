-- ===== src/Tests/Collect.antt =====
-- The memory, and a whole snapshot, at fixed inputs.
use sys_net_mon.Base.{
  pos, ℕ, ◌<◌, List, [], ◌∷◌, Bytes, codes, ◌≡◌, refl, some, none, arith, All, Each, returned,
  str_eq, Bool, true, ◌&&◌, ap, ◌≢◌, inr,
}
use sys_net_mon.Text.{is_space}
use sys_net_mon.Streams.{is_no_space}
use sys_net_mon.Events.{MetricSnapshot}
use sys_net_mon.Metrics.Cpu.{proc_stat}
use sys_net_mon.Metrics.Net.{proc_net}
use sys_net_mon.Metrics.Memory.{read_meminfo, is_complete, is_positive, DiskStats}
use sys_net_mon.Metrics.Memory.Entries.{Entry, IsEntry, Unique, holds, value_of, read_meminfo-file}
use sys_net_mon.Metrics.Memory.Entries
use sys_net_mon.Metrics.Collect.{linux, Readings, Previous, collect_metrics}
use sys_net_mon.Metrics.Collect.Within.{IsSane, IsWithin, collect_metrics-IsWithin}
use sys_net_mon.Sample.{sample}
use sys_net_mon.Tests.Metrics.{stat_text}

abbrev entry : Bytes → ℕ → Entry
entry key value = record {
  key = key;
  gap = codes "  ";
  value = value;
  gap' = codes " ";
  unit = codes "kB";
}

entry-IsEntry :
    (key : Bytes) (value : ℕ)
    → Each is_no_space key
    → key ≢ []
    → value < 9223372036854775808
    → IsEntry (entry key value)
unfolding is_space
entry-IsEntry key value word some_byte fits = record {
  key_word = word;
  key_some = some_byte;
  gap_blank = (refl, (refl, tt));
  gap_some = λ p. cc;
  value_fits = fits;
  gap'_blank = (refl, tt);
  gap'_some = λ p. cc;
  unit_word = (refl, (refl, tt));
  unit_some = λ p. cc;
}

-- no byte is a space
abbrev all_word : Bytes → Bool
all_word [] = true
all_word (c ∷ s) = is_no_space c && all_word s

check_word : (s : Bytes) → all_word s ≡ true → Each is_no_space s
check_word [] h = tt
check_word (c ∷ s) h = (ground arith, check_word s (ground arith))

abbrev meminfo : List Entry
meminfo =
    entry (codes "MemTotal:") 8192000
    ∷ entry (codes "MemFree:") 100
    ∷ entry (codes "MemAvailable:") 4096000
    ∷ []

meminfo-IsEntry : All IsEntry meminfo
unfolding is_space
meminfo-IsEntry = (
  entry-IsEntry (codes "MemTotal:") 8192000 (check_word (codes "MemTotal:") refl) (λ p. cc)
      (omega arith),
  (
    entry-IsEntry (codes "MemFree:") 100 (check_word (codes "MemFree:") refl) (λ p. cc)
        (omega arith),
    (
      entry-IsEntry (codes "MemAvailable:") 4096000 (check_word (codes "MemAvailable:") refl)
          (λ p. cc) (omega arith),
      tt,
    ),
  ),
)

-- lines that follow, of which one has no unit
abbrev huge_pages : Bytes
huge_pages = codes "HugePages_Total:       0\nHugepagesize:       2048 kB\n"

read_meminfo-file_example :
    read_meminfo (some (Entries.file_of meminfo huge_pages))
    ≡ record { total = pos 8192000; available = pos 4096000 }
unfolding value_of Unique holds str_eq is_complete is_positive
read_meminfo-file_example =
    read_meminfo-file meminfo huge_pages meminfo-IsEntry (refl, (refl, (refl, tt))) (inr refl)

-- half of the disk is in use
abbrev disk : DiskStats
disk = record { blocks = 1000000; frsize = 4096; bavail = 500000 }

abbrev pub readings : Readings ℕ
readings = record {
  clock = 7;
  cpu = proc_stat (some (stat_text 125 975));
  usage = linux (some (Entries.file_of meminfo huge_pages)) (some disk);
  net = proc_net none;
  elapsed_seconds = 500;
}

pub readings-IsSane : IsSane readings.usage
readings-IsSane = (
  record {
    total_kb = 8192000;
    available_kb = 4096000;
    total_eq = ap (λ m. m.total) read_meminfo-file_example;
    available_eq = ap (λ m. m.available) read_meminfo-file_example;
    less = omega arith;
    fits = omega arith;
  },
  (omega arith, omega arith),
)

abbrev samples : Previous
samples = record {
  previous_cpu = record { idle = 901; total = 1006 };
  previous_net = record { rx_bytes = 5; tx_bytes = 6 };
}

collect_metrics-IsWithin_example :
    (taken : MetricSnapshot ℕ × Previous) × (collect_metrics sample
        (codes "edge-1")
        readings
        samples
      ≡ returned taken)
    × IsWithin taken.0
collect_metrics-IsWithin_example =
    collect_metrics-IsWithin sample (codes "edge-1") readings samples readings-IsSane
