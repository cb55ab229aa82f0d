-- ===== src/Alert/Watches.antt =====
-- cpp/include/common.hpp: which value of a snapshot the rules of `parse_alert_command` watch.
use sys_net_mon.Base.{
  true, some, Bytes, codes, ◌≡◌, refl, ap, ◌∙◌, ◌⊎◌, inl, inr, arith, if◌then◌else◌, ◌==◌, returned,
  str_eq, str_eq_iff, Bool-cases,
}
use sys_net_mon.Machine.{Machine}
use sys_net_mon.Events.{MetricSnapshot, AlertRule}
use sys_net_mon.Text.{lower_copy}
use sys_net_mon.Alert.{
  match_alert, names_memory, names_rx, names_tx, metric_names, parse_alert_command,
  metric_value_for_key, rule_matches,
}
use sys_net_mon.Alert.Rules.{parse-Origin}

-- the values of a snapshot that a rule can watch
pub data Watched : Type 0 where
  cpu memory disk rx tx : Watched

-- the words for a value
abbrev pub Words : Watched → Bytes → Type 0
Words cpu w = w ≡ codes "cpu"
Words memory w = (w ≡ codes "memory") ⊎ (w ≡ codes "mem")
Words disk w = w ≡ codes "disk"
Words rx w =
    (w ≡ codes "rx")
    ⊎ (w ≡ codes "netrx")
    ⊎ (w ≡ codes "net_rx")
    ⊎ (w ≡ codes "networkrx")
    ⊎ (w ≡ codes "network_rx")
Words tx w =
    (w ≡ codes "tx")
    ⊎ (w ≡ codes "nettx")
    ⊎ (w ≡ codes "net_tx")
    ⊎ (w ≡ codes "networktx")
    ⊎ (w ≡ codes "network_tx")

abbrev pub value_of : {D : Type 0} → Watched → MetricSnapshot D → D
value_of cpu m = m.cpu_percent
value_of memory m = m.memory_percent
value_of disk m = m.disk_percent
value_of rx m = m.network_rx_kbps
value_of tx m = m.network_tx_kbps

abbrev key_of : Watched → Bytes
key_of cpu = codes "cpu_percent"
key_of memory = codes "memory_percent"
key_of disk = codes "disk_percent"
key_of rx = codes "network_rx_kbps"
key_of tx = codes "network_tx_kbps"

rx-Words : (w : Bytes) → names_rx w ≡ true → Words rx w
unfolding names_rx
rx-Words w h = ground (
  arith,
  str_eq_iff w (codes "rx"),
  str_eq_iff w (codes "netrx"),
  str_eq_iff w (codes "net_rx"),
  str_eq_iff w (codes "networkrx"),
  str_eq_iff w (codes "network_rx"),
)

tx-Words : (w : Bytes) → names_tx w ≡ true → Words tx w
unfolding names_tx
tx-Words w h = ground (
  arith,
  str_eq_iff w (codes "tx"),
  str_eq_iff w (codes "nettx"),
  str_eq_iff w (codes "net_tx"),
  str_eq_iff w (codes "networktx"),
  str_eq_iff w (codes "network_tx"),
)

memory-Words : (w : Bytes) → names_memory w ≡ true → Words memory w
unfolding names_memory
memory-Words w h = ground (arith, str_eq_iff w (codes "memory"), str_eq_iff w (codes "mem"))

names_watched :
    (w key display : Bytes)
    → metric_names w ≡ some (key, display)
    → (k : Watched) × Words k w × (key ≡ key_of k)
unfolding metric_names
names_watched w key display h = elim (Bool-cases (str_eq w (codes "cpu"))) [
  | inl is_cpu ↦ (cpu, (str_eq_iff w (codes "cpu")).0 is_cpu, ground arith)
  | inr no_cpu ↦ elim (Bool-cases (names_memory w)) [
    | inl is_memory ↦ (memory, memory-Words w is_memory, ground arith)
    | inr no_memory ↦ elim (Bool-cases (str_eq w (codes "disk"))) [
      | inl is_disk ↦ (disk, (str_eq_iff w (codes "disk")).0 is_disk, ground arith)
      | inr no_disk ↦ elim (Bool-cases (names_rx w)) [
        | inl is_rx ↦ (rx, rx-Words w is_rx, ground arith)
        | inr no_rx ↦ (tx, tx-Words w (ground arith), ground arith)
      ]
    ]
  ]
]

module _ {D : Type 0} (e : Machine D) where
  value_watched :
      (m : MetricSnapshot D) (k : Watched) → metric_value_for_key e m (key_of k) ≡ value_of k m
  unfolding metric_value_for_key str_eq
  value_watched m cpu = refl
  value_watched m memory = refl
  value_watched m disk = refl
  value_watched m rx = refl
  value_watched m tx = refl

  -- A rule that was parsed watches the value that the word of its command names, never the
  -- fallback, and holds where that value is above the threshold for `>`, and below it for `<`.
  pub rule_matches-watched :
      (text : Bytes) (rule : AlertRule D)
      → parse_alert_command e text ≡ returned (some rule)
      → (k : Watched) × (word number : Bytes) × (match_alert text
          ≡ some (word, rule.comparison, number))
        × Words k (lower_copy word)
        × ((m : MetricSnapshot D)
            → rule_matches e rule m ≡ (
                if rule.comparison == b'>'
                then e.greater (value_of k m) rule.threshold
                else e.less (value_of k m) rule.threshold))
  unfolding rule_matches
  rule_matches-watched text rule h =
      let o = parse-Origin e text rule h in
      let (k, words, key) =
        names_watched (lower_copy o.word) rule.metric_key rule.display_metric o.named in
      (
        k,
        o.word,
        o.number,
        o.matched,
        words,
        λ m. rw (ap (metric_value_for_key e m) key ∙ value_watched m k),
      )
