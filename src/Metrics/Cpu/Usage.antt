-- ===== src/Metrics/Cpu/Usage.antt =====
-- cpp/include/metrics.hpp: `cpu_percent` of what Linux shows in `/proc/stat` at two times.
use sys_net_mon.Base.{
  ℕ, pos, ◌+◌, ◌-◌, ◌≤◌, ◌<◌, ◌%◌, some, List, [], ◌∷◌, ◌++◌, Bytes, ◌≡◌, ◌≢◌, arith, All, Each,
  Stops, if◌then◌else◌, ltb,
}
use sys_net_mon.Machine.{Machine}
use sys_net_mon.Decimal.{is_digit}
use sys_net_mon.Streams.{word, is_no_space}
use sys_net_mon.Streams.Numbers.{
  Spaced, IsSpaced, written, read_numbers-written, read_token-append, gap-Stops-is_no_space,
}
use sys_net_mon.Metrics.{sub64, percent}
use sys_net_mon.Metrics.Cpu.{proc_stat, read_cpu_sample, cpu_usage}

-- the first line of the file: a label, and eight counters with space in front of each
pub record StatLine : Type 0 where
  pub label : Bytes
  pub user : Spaced
  pub nice : Spaced
  pub system : Spaced
  pub idle : Spaced
  pub iowait : Spaced
  pub irq : Spaced
  pub softirq : Spaced
  pub steal : Spaced

abbrev pub counters : StatLine → List Spaced
counters l = l.user ∷ l.nice ∷ l.system ∷ l.idle ∷ l.iowait ∷ l.irq ∷ l.softirq ∷ l.steal ∷ []

pub record IsStatLine (l : StatLine) : Type 0 where
  pub label_word : Each is_no_space l.label
  pub label_some : l.label ≢ []
  pub all_spaced : All IsSpaced (counters l)

-- the file, with what follows the eight counters
abbrev pub file_of : StatLine → Bytes → Bytes
file_of l rest = l.label ++ written (counters l) rest

-- the time in which the processor worked, and the time in which it did not
abbrev pub busy : StatLine → ℕ
busy l =
    l.user.number + l.nice.number + l.system.number + l.irq.number + l.softirq.number
    + l.steal.number

abbrev pub spare : StatLine → ℕ
spare l = l.idle.number + l.iowait.number

-- The counters did not fall, and less than 2^64 was counted between the two times. The sums may be
-- 2^64 or more.
pub record Grew (before after : StatLine) : Type 0 where
  pub busy_grew : busy before ≤ busy after
  pub spare_grew : spare before ≤ spare after
  pub fits : busy after + spare after - (busy before + spare before) < word

read_file :
    (l : StatLine) (rest : Bytes)
    → IsStatLine l
    → Stops is_digit rest
    → read_cpu_sample (proc_stat (some (file_of l rest)))
      ≡ record { idle = spare l % word; total = (busy l + spare l) % word }
unfolding read_cpu_sample
read_file l rest h stop =
    rw
      (
        read_token-append [] l.label (written (counters l) rest) tt h.label_word h.label_some (
            unfold written in
            gap-Stops-is_no_space l.user.gap _ h.all_spaced.0.blank h.all_spaced.0.some_space),
        read_numbers-written (counters l) rest h.all_spaced stop,
      )
      (ground arith)

sub64_exact : (a b : ℕ) → b ≤ a → a < word → sub64 a b ≡ a - b
unfolding sub64
sub64_exact a b h fits = omega arith

-- The difference of two sums that wrapped is that of the sums, if it fits.
sub64_wrapped : (a b : ℕ) → b ≤ a → a - b < word → sub64 (a % word) (b % word) ≡ a - b
unfolding sub64
sub64_wrapped a b h fits = omega arith

worked : (b s b' s' : ℕ) → b ≤ b' → s ≤ s' → b' + s' - (b + s) - (s' - s) ≡ b' - b
worked b s b' s' h k = omega arith

module _ {D : Type 0} (e : Machine D) where
  -- what is made of the times `b` and `b'` of work, and `s` and `s'` of rest
  usage_exact :
      (b s b' s' : ℕ)
      → b ≤ b'
      → s ≤ s'
      → b' + s' - (b + s) < word
      → 0 < (b + s) % word
      → cpu_usage e
          (record { idle = s % word; total = (b + s) % word })
          (record { idle = s' % word; total = (b' + s') % word })
        ≡ (if ltb 0 (b' + s' - (b + s))
            then percent e (pos (b' - b)) (pos (b' + s' - (b + s)))
            else e.zero_double)
  unfolding cpu_usage
  usage_exact b s b' s' hb hs fits counted =
      rw
        (
          sub64_wrapped (b' + s') (b + s) (omega arith) fits,
          sub64_wrapped s' s hs (omega arith),
          sub64_exact (b' + s' - (b + s)) (s' - s) (omega arith) fits,
          worked b s b' s' hb hs,
        )
        (ground arith)

  -- If no sum of the counters falls, less than 2^64 is counted between two readings, and the total
  -- of the first is not 0 modulo 2^64, then `cpu_percent` is the share of the time between the readings
  -- in which the processor worked, and 0 if no time went by, also where a total wraps around.
  pub cpu_usage-files :
      (before after : StatLine) (rest rest' : Bytes)
      → IsStatLine before
      → IsStatLine after
      → Stops is_digit rest
      → Stops is_digit rest'
      → Grew before after
      → 0 < (busy before + spare before) % word
      → cpu_usage e
          (read_cpu_sample (proc_stat (some (file_of before rest))))
          (read_cpu_sample (proc_stat (some (file_of after rest'))))
        ≡ (if ltb 0 (busy after + spare after - (busy before + spare before))
            then percent e
                (pos (busy after - busy before))
                (pos (busy after + spare after - (busy before + spare before)))
            else e.zero_double)
  cpu_usage-files before after rest rest' hb ha stop stop' h counted =
      rw (read_file before rest hb stop, read_file after rest' ha stop')
        (usage_exact (busy before) (spare before) (busy after) (spare after) h.busy_grew
          h.spare_grew h.fits counted)
