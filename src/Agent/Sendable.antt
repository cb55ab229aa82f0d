-- ===== src/Agent/Sendable.antt =====
-- cpp/include/metrics.hpp and cpp/client/main.cpp: the snapshots that the agent takes can be sent.
use sys_net_mon.Base.{
  ℤ, ℕ, ◌+◌, ◌/◌, ◌%◌, [], ◌∷◌, List, Bytes, codes, ◌≡◌, sym, subst, ◌∙◌, arith, returned, All,
  All-append, All-map, Each, stream,
}
use sys_net_mon.Machine.{Machine}
use sys_net_mon.Text.{escape_char}
use sys_net_mon.Decimal.{is_digit, format_ℕ}
use sys_net_mon.Decimal.RoundTrip.{format_ℕ_lem, Fits}
use sys_net_mon.Events.{MetricSnapshot, two_digits, iso_timestamp}
use sys_net_mon.Metrics.Collect.{Readings, Previous, collect_metrics}
use sys_net_mon.Metrics.Collect.Within.{IsSane, IsPart, IsWithin, collect_metrics-IsWithin}
use sys_net_mon.Metrics.Collect.Named.{returned_inj, collect_metrics-IsNamed}
use sys_net_mon.Agent.Registration.{IsPlain}
use sys_net_mon.Agent.Measured.{Prints, IsSendable}

digits-IsPlain : (s : Bytes) → Each is_digit s → IsPlain s
unfolding is_digit escape_char
digits-IsPlain = All-map (λ c h. ground arith)

two_digits-IsPlain : (n : ℕ) → IsPlain (two_digits n)
unfolding two_digits is_digit
two_digits-IsPlain n =
    digits-IsPlain ((b'0' + n / 10 % 10) ∷ (b'0' + n % 10) ∷ []) (ground arith, (ground arith, tt))

stream-IsPlain : (ps : List Bytes) → All IsPlain ps → IsPlain (stream ps)
stream-IsPlain [] h = tt
stream-IsPlain (p ∷ ps) (hp, h) = All-append _ p (stream ps) hp (stream-IsPlain ps h)

iso_timestamp-IsPlain : {D : Type 0} (e : Machine D) (n : ℕ) → IsPlain (iso_timestamp e n)
unfolding iso_timestamp escape_char
iso_timestamp-IsPlain e n =
    let t = e.utc_time n in
    let (_, all_digits, _) = format_ℕ_lem t.year in
    stream-IsPlain
      (format_ℕ t.year
        ∷ codes "-"
        ∷ two_digits t.month
        ∷ codes "-"
        ∷ two_digits t.day
        ∷ codes "T"
        ∷ two_digits t.hour
        ∷ codes ":"
        ∷ two_digits t.minute
        ∷ codes ":"
        ∷ two_digits t.second
        ∷ codes "Z"
        ∷ [])
      (ground (
        arith,
        digits-IsPlain (format_ℕ t.year) all_digits,
        two_digits-IsPlain t.month,
        two_digits-IsPlain t.day,
        two_digits-IsPlain t.hour,
        two_digits-IsPlain t.minute,
        two_digits-IsPlain t.second,
      ))

used-Fits : {used total : ℤ} → IsPart used total → Fits used
used-Fits h = let less = h.less in let fits = h.fits in subst Fits (sym h.used_eq) (omega arith)

total-Fits : {used total : ℤ} → IsPart used total → Fits total
total-Fits h = subst Fits (sym h.total_eq) h.fits

-- each `double` of a snapshot has a text that is read again
pub record HasTexts {D : Type 0} (e : Machine D) (rounded : D → D) (metric : MetricSnapshot D)
    : Type 0 where
  pub cpu : Prints e rounded metric.cpu_percent
  pub memory : Prints e rounded metric.memory_percent
  pub disk : Prints e rounded metric.disk_percent
  pub rx : Prints e rounded metric.network_rx_kbps
  pub tx : Prints e rounded metric.network_tx_kbps

-- A snapshot that was taken can be sent, if the name needs no escape, the system said sane things, and
-- its numbers have texts.
pub collect_metrics-IsSendable :
    {D : Type 0} (e : Machine D) (rounded : D → D) (name : Bytes) (now : Readings D)
    (before next : Previous) (metric : MetricSnapshot D)
    → IsPlain name
    → HasTexts e rounded metric
    → IsSane now.usage
    → collect_metrics e name now before ≡ returned (metric, next)
    → IsSendable e rounded metric
collect_metrics-IsSendable e rounded name now before next metric plain texts sane taken =
    let named = collect_metrics-IsNamed e name now before (metric, next) taken in
    let (other, returns, within) = collect_metrics-IsWithin e name now before sane in
    let w : IsWithin metric =
      subst (λ t. IsWithin t.0) (returned_inj (sym returns ∙ taken)) within in
    record {
      host_plain = subst IsPlain (sym named.host_eq) plain;
      timestamp_plain = subst IsPlain (sym named.timestamp_eq) (iso_timestamp-IsPlain e now.clock);
      cpu = texts.cpu;
      memory = texts.memory;
      disk = texts.disk;
      rx = texts.rx;
      tx = texts.tx;
      memory_used = used-Fits w.memory;
      memory_total = total-Fits w.memory;
      disk_used = used-Fits w.disk;
      disk_total = total-Fits w.disk;
    }
