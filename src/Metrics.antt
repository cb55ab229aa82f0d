-- ===== src/Metrics.antt =====
-- cpp/include/metrics.hpp: the samples that the agent takes, and the arithmetic of
-- `unsigned long long`, which wraps around. What the system returns is an argument.
pub mod Cpu
pub mod Net
pub mod Memory
pub mod Collect
use sys_net_mon.Base.{ℕ, ℤ, pos, ◌+◌, ◌-◌, ◌*◌, ◌/◌, ◌%◌}
use sys_net_mon.Machine.{Machine}
use sys_net_mon.Streams.{word}

pub record CpuSample : Type 0 where
  pub idle : ℕ
  pub total : ℕ

pub record NetSample : Type 0 where
  pub rx_bytes : ℕ
  pub tx_bytes : ℕ

-- `a + b`, `a - b` and `a * b` of `unsigned long long`
unfoldable pub add64 : ℕ → ℕ → ℕ
add64 a b = (a + b) % word

unfoldable pub sub64 : ℕ → ℕ → ℕ
sub64 a b = (a + word - b) % word

unfoldable pub mul64 : ℕ → ℕ → ℕ
mul64 a b = a * b % word

-- the bytes of a megabyte, `1024ULL * 1024ULL`
abbrev pub megabyte : ℕ
megabyte = 1048576

-- `static_cast<long long>(bytes / megabyte)`
unfoldable pub in_megabytes : ℕ → ℤ
in_megabytes bytes = pos (bytes / megabyte)

-- `100.0 * static_cast<double>(part) / static_cast<double>(whole)`
unfoldable pub percent : {D : Type 0} → Machine D → ℤ → ℤ → D
percent e part whole =
    e.divided_by (e.times (e.of_integer (pos 100)) (e.of_integer part)) (e.of_integer whole)
