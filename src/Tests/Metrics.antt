-- ===== src/Tests/Metrics.antt =====
-- The collectors of metrics at fixed inputs.
use sys_net_mon.Base.{
  has_byte, check_Lacks, ℕ, zero, suc, ◌<◌, List, [], ◌∷◌, Bytes, codes, ◌≡◌, refl, some, arith,
  All, All-append, Lacks, str_eq,
}
use sys_net_mon.Text.{is_space, newline}
use sys_net_mon.Text.Trim.{IsTrimmed}
use sys_net_mon.Decimal.{is_digit}
use sys_net_mon.Streams.Numbers.{Spaced, IsSpaced}
use sys_net_mon.Metrics.{percent}
use sys_net_mon.Metrics.Cpu.{proc_stat, read_cpu_sample, cpu_usage}
use sys_net_mon.Metrics.Cpu.Usage.{StatLine, IsStatLine, counters, cpu_usage-files}
use sys_net_mon.Metrics.Cpu.Usage
use sys_net_mon.Metrics.Net.{proc_net, read_net_sample}
use sys_net_mon.Metrics.Net.Interfaces.{Interface, IsInterface, sum_of, read_net_sample-file}
use sys_net_mon.Metrics.Net.Interfaces
use sys_net_mon.Sample.{sample}

abbrev spaced : ℕ → Spaced
spaced n = record { gap = codes " "; number = n }

spaced-IsSpaced : (n : ℕ) → n < 18446744073709551616 → IsSpaced (spaced n)
unfolding is_space
spaced-IsSpaced n h = record { blank = (refl, tt); some_space = λ p. cc; fits = h }

abbrev stat : ℕ → ℕ → StatLine
stat user idle = record {
  label = codes "cpu";
  user = spaced user;
  nice = spaced 0;
  system = spaced 5;
  idle = spaced idle;
  iowait = spaced 1;
  irq = spaced 0;
  softirq = spaced 0;
  steal = spaced 0;
}

stat-IsStatLine :
    (user idle : ℕ)
    → user < 18446744073709551616
    → idle < 18446744073709551616
    → IsStatLine (stat user idle)
unfolding is_space
stat-IsStatLine user idle h k = record {
  label_word = (refl, (refl, (refl, tt)));
  label_some = λ p. cc;
  all_spaced = ground (
    arith,
    spaced-IsSpaced user h,
    spaced-IsSpaced idle k,
    spaced-IsSpaced 0 (omega arith),
    spaced-IsSpaced 1 (omega arith),
    spaced-IsSpaced 5 (omega arith),
  );
}

abbrev pub stat_text : ℕ → ℕ → Bytes
stat_text user idle = Usage.file_of (stat user idle) (codes " 0\n")

-- The sum of the second reading is 2^64 + 94, so that the total wraps around.
cpu_usage-files_example :
    cpu_usage sample
      (read_cpu_sample (proc_stat (some (stat_text 100 18446744073709551400))))
      (read_cpu_sample (proc_stat (some (stat_text 229 18446744073709551475))))
    ≡ 6323
unfolding percent is_space
cpu_usage-files_example =
    cpu_usage-files sample (stat 100 18446744073709551400) (stat 229 18446744073709551475)
      (codes " 0\n") (codes " 0\n")
      (stat-IsStatLine 100 18446744073709551400 (omega arith) (omega arith))
      (stat-IsStatLine 229 18446744073709551475 (omega arith) (omega arith))
      (unfold is_digit in refl) (unfold is_digit in refl)
      (record { busy_grew = omega arith; spare_grew = omega arith; fits = omega arith })
      (omega arith)

abbrev zeros : ℕ → List Spaced
zeros zero = []
zeros (suc n) = spaced 0 ∷ zeros n

zeros-IsSpaced : (n : ℕ) → All IsSpaced (zeros n)
zeros-IsSpaced zero = tt
zeros-IsSpaced (suc n) = (spaced-IsSpaced 0 (omega arith), zeros-IsSpaced n)

-- no newline stands in front of the number
abbrev InLine : Spaced → Type 0
InLine f = Lacks newline f.gap

spaced-InLine : (n : ℕ) → InLine (spaced n)
spaced-InLine n = (λ p. ground arith, tt)

zeros-InLine : (n : ℕ) → All InLine (zeros n)
zeros-InLine zero = tt
zeros-InLine (suc n) = (spaced-InLine 0, zeros-InLine n)

abbrev interface : Bytes → ℕ → ℕ → Interface
interface name received sent = record {
  pad = codes " ";
  name = name;
  received = spaced received;
  middle = spaced 1 ∷ zeros 6;
  sent = spaced sent;
  more = spaced 2 ∷ zeros 6;
}

-- what is asked of the name of an interface
record IsName (name : Bytes) : Type 0 where
  trimmed : IsTrimmed name
  one_line : Lacks newline name
  no_colon : Lacks b':' name

interface-IsInterface :
    (name : Bytes) (received sent : ℕ)
    → IsName name
    → received < 18446744073709551616
    → sent < 18446744073709551616
    → IsInterface (interface name received sent)
unfolding is_space has_byte
interface-IsInterface name received sent h r s = record {
  pad_blank = (refl, tt);
  pad_line = check_Lacks newline (codes " ") refl;
  name_trimmed = h.trimmed;
  name_line = h.one_line;
  pad_colon = check_Lacks b':' (codes " ") refl;
  name_colon = h.no_colon;
  all_spaced = (
    spaced-IsSpaced received r,
    (
      spaced-IsSpaced 1 (omega arith),
      All-append IsSpaced (zeros 6) (spaced sent ∷ spaced 2 ∷ zeros 6) (zeros-IsSpaced 6)
          (spaced-IsSpaced sent s, (spaced-IsSpaced 2 (omega arith), zeros-IsSpaced 6)),
    ),
  );
  gap_lines = (
    spaced-InLine received,
    (
      spaced-InLine 1,
      All-append InLine (zeros 6) (spaced sent ∷ spaced 2 ∷ zeros 6) (zeros-InLine 6)
          (spaced-InLine sent, (spaced-InLine 2, zeros-InLine 6)),
    ),
  );
  seven_middle = refl;
  seven_more = refl;
}

lo-IsName : IsName (codes "lo")
unfolding is_space has_byte
lo-IsName = record {
  trimmed = record { starts = refl; ends = refl };
  one_line = check_Lacks newline (codes "lo") refl;
  no_colon = check_Lacks b':' (codes "lo") refl;
}

eth-IsName : IsName (codes "eth")
unfolding is_space has_byte
eth-IsName = record {
  trimmed = record { starts = refl; ends = refl };
  one_line = check_Lacks newline (codes "eth") refl;
  no_colon = check_Lacks b':' (codes "eth") refl;
}

abbrev two_interfaces : List Interface
two_interfaces = interface (codes "lo") 7 7 ∷ interface (codes "eth") 3000 200 ∷ []

read_net_sample-file_example :
    read_net_sample
      (proc_net (some (Interfaces.file_of (codes "Inter") (codes "face") two_interfaces)))
    ≡ record { rx_bytes = 3000; tx_bytes = 200 }
unfolding sum_of str_eq has_byte
read_net_sample-file_example =
    read_net_sample-file (codes "Inter") (codes "face") two_interfaces
      (check_Lacks newline (codes "Inter") refl) (check_Lacks newline (codes "face") refl)
      (
        interface-IsInterface (codes "lo") 7 7 lo-IsName (omega arith) (omega arith),
        (interface-IsInterface (codes "eth") 3000 200 eth-IsName (omega arith) (omega arith), tt),
      )
