-- ===== src/Metrics/Collect/Named.antt =====
-- cpp/include/metrics.hpp: the host and the time of a snapshot.
use sys_net_mon.Base.{
  ℕ, Option, none, some, Bytes, ◌≡◌, refl, Outcome, returned, threw, undefined, >>=-eq-returned, [],
  ◌-ℤ◌, ap, sym, subst, ◌∙◌, arith,
}
use sys_net_mon.Machine.{Machine}
use sys_net_mon.Events.{MetricSnapshot, iso_timestamp}
use sys_net_mon.Metrics.Cpu.{read_cpu_sample, cpu_usage}
use sys_net_mon.Metrics.Memory.{
  DiskStats, VmStats, set_memory, set_disk, linux_memory, windows_memory, apple_memory, posix_disk,
  windows_disk, read_meminfo, long_long,
}
use sys_net_mon.Metrics.Collect.{
  UsageSource, linux, windows, apple, Readings, Previous, new_snapshot, with_usage, collect_metrics,
}

-- a part of what a call returns
abbrev shown : {D : Type 0} → (MetricSnapshot D → Bytes) → Outcome (MetricSnapshot D) → Bytes
shown part (returned metric) = part metric
shown part threw = []
shown part undefined = []

pub returned_inj : {A : Type 0} {a b : A} → returned a ≡ returned b → a ≡ b
returned_inj h = ground arith

pub record IsNamed {D : Type 0} (host timestamp : Bytes) (metric : MetricSnapshot D) : Type 0 where
  pub host_eq : metric.host ≡ host
  pub timestamp_eq : metric.timestamp ≡ timestamp

module _ {D : Type 0} (e : Machine D) (host timestamp : Bytes) where
  set_disk-IsNamed :
      (total used : ℕ) (metric : MetricSnapshot D)
      → IsNamed host timestamp metric
      → IsNamed host timestamp (set_disk e total used metric)
  unfolding set_disk
  set_disk-IsNamed total used metric h = record {
    host_eq = h.host_eq;
    timestamp_eq = h.timestamp_eq;
  }

  set_memory-IsNamed :
      (total used : ℕ) (metric : MetricSnapshot D)
      → IsNamed host timestamp metric
      → IsNamed host timestamp (set_memory e total used metric)
  unfolding set_memory
  set_memory-IsNamed total used metric h = record {
    host_eq = h.host_eq;
    timestamp_eq = h.timestamp_eq;
  }

  posix_disk-IsNamed :
      (disk : Option DiskStats) (metric : MetricSnapshot D)
      → IsNamed host timestamp metric
      → IsNamed host timestamp (posix_disk e disk metric)
  unfolding posix_disk
  posix_disk-IsNamed none metric h = h
  posix_disk-IsNamed (some disk) metric h = set_disk-IsNamed _ _ metric h

  windows_disk-IsNamed :
      (disk : Option (ℕ × ℕ)) (metric : MetricSnapshot D)
      → IsNamed host timestamp metric
      → IsNamed host timestamp (windows_disk e disk metric)
  unfolding windows_disk
  windows_disk-IsNamed none metric h = h
  windows_disk-IsNamed (some (total, free)) metric h = set_disk-IsNamed _ _ metric h

  windows_memory-IsNamed :
      (memory : Option (ℕ × ℕ)) (metric : MetricSnapshot D)
      → IsNamed host timestamp metric
      → IsNamed host timestamp (windows_memory e memory metric)
  unfolding windows_memory
  windows_memory-IsNamed none metric h = h
  windows_memory-IsNamed (some (total, free)) metric h = set_memory-IsNamed _ _ metric h

  apple_memory-IsNamed :
      (memory : Option ℕ) (vm : Option VmStats) (metric : MetricSnapshot D)
      → IsNamed host timestamp metric
      → IsNamed host timestamp (apple_memory e memory vm metric)
  unfolding apple_memory
  apple_memory-IsNamed none vm metric h = h
  apple_memory-IsNamed (some total) none metric h = h
  apple_memory-IsNamed (some total) (some vm) metric h = set_memory-IsNamed _ _ metric h

  linux_memory-IsNamed :
      (text : Option Bytes) (metric metric' : MetricSnapshot D)
      → IsNamed host timestamp metric
      → linux_memory e text metric ≡ returned metric'
      → IsNamed host timestamp metric'
  unfolding linux_memory
  linux_memory-IsNamed text metric metric' h returns =
      let m = read_meminfo text in
      let (used, _, eq) = >>=-eq-returned (long_long (m.total -ℤ m.available)) _ returns in
      record {
        host_eq = sym (ap (shown λ x. x.host) eq) ∙ h.host_eq;
        timestamp_eq = sym (ap (shown λ x. x.timestamp) eq) ∙ h.timestamp_eq;
      }

  with_usage-IsNamed :
      (source : UsageSource) (metric metric' : MetricSnapshot D)
      → IsNamed host timestamp metric
      → with_usage e source metric ≡ returned metric'
      → IsNamed host timestamp metric'
  unfolding with_usage
  with_usage-IsNamed (linux text disk) metric metric' h returns =
      let (middle, first, second) = >>=-eq-returned (linux_memory e text metric) _ returns in
      subst (IsNamed host timestamp) (returned_inj second)
        (posix_disk-IsNamed disk middle (linux_memory-IsNamed text metric middle h first))
  with_usage-IsNamed (windows memory disk) metric metric' h returns =
      subst (IsNamed host timestamp) (returned_inj returns)
        (windows_disk-IsNamed disk _ (windows_memory-IsNamed memory metric h))
  with_usage-IsNamed (apple memory vm disk) metric metric' h returns =
      subst (IsNamed host timestamp) (returned_inj returns)
        (posix_disk-IsNamed disk _ (apple_memory-IsNamed memory vm metric h))

-- A snapshot has the name that it is taken for, and the time at which it is begun.
pub collect_metrics-IsNamed :
    {D : Type 0} (e : Machine D) (host : Bytes) (now : Readings D) (before : Previous)
    (taken : MetricSnapshot D × Previous)
    → collect_metrics e host now before ≡ returned taken
    → IsNamed host (iso_timestamp e now.clock) taken.0
unfolding collect_metrics new_snapshot
collect_metrics-IsNamed e host now before taken returns =
    let started =
      new_snapshot e host now.clock (cpu_usage e before.previous_cpu (read_cpu_sample now.cpu)) in
    let (metric, first, second) = >>=-eq-returned (with_usage e now.usage started) _ returns in
    let named =
      with_usage-IsNamed e host (iso_timestamp e now.clock) now.usage started metric
        (record { host_eq = refl; timestamp_eq = refl }) first in
    record {
      host_eq = ap (λ x. x.0.host) (sym (returned_inj second)) ∙ named.host_eq;
      timestamp_eq = ap (λ x. x.0.timestamp) (sym (returned_inj second)) ∙ named.timestamp_eq;
    }
