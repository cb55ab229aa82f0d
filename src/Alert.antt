-- ===== src/Alert.antt =====
-- cpp/include/common.hpp: `parse_alert_command`, `metric_value_for_key` and `rule_matches`.
pub mod Number
pub mod Grammar
pub mod Matching
pub mod Trimmed
pub mod Rules
pub mod Watches
use sys_net_mon.Base.{
  ℕ, Bool, true, false, ◌&&◌, ◌||◌, Option, none, some, [], ◌∷◌, Bytes, codes, str_eq, Outcome,
  returned, ◌>>=◌, and_then, leb, ◌==◌, if◌then◌else◌, take_while, drop_while,
}
use sys_net_mon.Machine.{Machine}
use sys_net_mon.Text.{is_space, drop_spaces, trim, to_lower, lower_copy}
use sys_net_mon.Decimal.{drop_digits}
use sys_net_mon.Json.{match_decimal, after_fraction}
use sys_net_mon.Events.{MetricSnapshot, AlertRule}

-- `[A-Za-z_]`
unfoldable pub is_word : ℕ → Bool
is_word c = (leb b'A' c && leb c b'Z') || (leb b'a' c && leb c b'z') || c == b'_'

-- a literal part of a pattern with `std::regex::icase`, given in lower case
unfoldable pub strip_word : Bytes → Bytes → Option Bytes
strip_word [] s = some s
strip_word (p ∷ ps) [] = none
strip_word (p ∷ ps) (c ∷ s) = if p == to_lower c then strip_word ps s else none

-- `\s+`
unfoldable pub match_spaces : Bytes → Option Bytes
match_spaces [] = none
match_spaces (c ∷ s) = if is_space c then some (drop_spaces s) else none

-- `\s*$`
unfoldable pub match_rest : Bytes → Bool
match_rest [] = true
match_rest (c ∷ s) = false

-- `%?\s*$`
unfoldable pub match_percent : Bytes → Bool
unfolding match_rest
match_percent [] = true
match_percent (c ∷ s) = c == b'%' && match_rest (drop_spaces s)

-- `\s*%?\s*$`
unfoldable pub match_end : Bytes → Bool
unfolding match_percent
match_end s = match_percent (drop_spaces s)

-- the three groups: `[A-Za-z_]+`, `[><]` and the number
abbrev pub Groups : Type 0
Groups = Bytes × ℕ × Bytes

-- `\s*([0-9]+(?:\.[0-9]+)?)\s*%?\s*$`
unfoldable pub match_threshold : Bytes → Option Bytes
match_threshold s =
    let t = drop_spaces s in
    and_then (match_decimal t)
      λ number. if match_end (after_fraction (drop_digits t)) then some number else none

-- `\s*([><])` and the rest of the pattern
unfoldable pub match_comparison : Bytes → Bytes → Option Groups
unfolding match_threshold
match_comparison word [] = none
match_comparison word (c ∷ s) =
    if c == b'>' || c == b'<'
    then (and_then (match_threshold s) λ number. some (word, c, number))
    else none

-- the rest of the pattern behind `[A-Za-z_]+`, which wants a byte at least
unfoldable pub match_behind_word : Bytes → Bytes → Option Groups
unfolding match_comparison
match_behind_word [] rest = none
match_behind_word (c ∷ word) rest = match_comparison (c ∷ word) (drop_spaces rest)

-- `([A-Za-z_]+)` and the rest of the pattern
unfoldable pub match_word : Bytes → Option Groups
unfolding match_behind_word
match_word s = match_behind_word (take_while is_word s) (drop_while is_word s)

-- `std::regex_match` with the pattern of the command. Neighbours in it match different bytes, so
-- there is one way to match at most.
unfoldable pub match_alert : Bytes → Option Groups
unfolding strip_word match_spaces
match_alert text =
    and_then (strip_word (codes "/alert") (drop_spaces text))
      λ rest. and_then (match_spaces rest) match_word

unfoldable pub names_memory : Bytes → Bool
names_memory token = str_eq token (codes "memory") || str_eq token (codes "mem")

unfoldable pub names_rx : Bytes → Bool
names_rx token =
    str_eq token (codes "rx")
    || str_eq token (codes "netrx")
    || str_eq token (codes "net_rx")
    || str_eq token (codes "networkrx")
    || str_eq token (codes "network_rx")

unfoldable pub names_tx : Bytes → Bool
names_tx token =
    str_eq token (codes "tx")
    || str_eq token (codes "nettx")
    || str_eq token (codes "net_tx")
    || str_eq token (codes "networktx")
    || str_eq token (codes "network_tx")

-- `metric_key` and `display_metric` for a word of the command
unfoldable pub metric_names : Bytes → Option (Bytes × Bytes)
metric_names token =
    if str_eq token (codes "cpu")
    then some (codes "cpu_percent", codes "CPU")
    else if names_memory token
    then some (codes "memory_percent", codes "Memory")
    else if str_eq token (codes "disk")
    then some (codes "disk_percent", codes "Disk")
    else if names_rx token
    then some (codes "network_rx_kbps", codes "Network RX")
    else if names_tx token
    then some (codes "network_tx_kbps", codes "Network TX")
    else none

module _ {D : Type 0} (e : Machine D) where
  unfoldable pub make_rule : Bytes → ℕ → D → Option (Bytes × Bytes) → Option (AlertRule D)
  make_rule text comparison threshold none = none
  make_rule text comparison threshold (some (key, display)) = some (record {
    raw_command = trim text;
    metric_key = key;
    display_metric = display;
    threshold = threshold;
    comparison = comparison;
  })

  -- what follows the match; `std::stod` is called before the word is looked up
  unfoldable pub read_rule : Bytes → Option Groups → Outcome (Option (AlertRule D))
  unfolding make_rule
  read_rule text none = returned none
  read_rule text (some (word, comparison, number)) = do
    threshold ← e.stod number
    returned (make_rule text comparison threshold (metric_names (lower_copy word)))

  unfoldable pub parse_alert_command : Bytes → Outcome (Option (AlertRule D))
  unfolding read_rule
  parse_alert_command text = read_rule text (match_alert text)

  unfoldable pub metric_value_for_key : MetricSnapshot D → Bytes → D
  metric_value_for_key metric key =
      if str_eq key (codes "cpu_percent")
      then metric.cpu_percent
      else if str_eq key (codes "memory_percent")
      then metric.memory_percent
      else if str_eq key (codes "disk_percent")
      then metric.disk_percent
      else if str_eq key (codes "network_rx_kbps")
      then metric.network_rx_kbps
      else if str_eq key (codes "network_tx_kbps")
      then metric.network_tx_kbps
      else e.zero_double

  unfoldable pub rule_matches : AlertRule D → MetricSnapshot D → Bool
  unfolding metric_value_for_key
  rule_matches rule metric =
      let value = metric_value_for_key metric rule.metric_key in
      if rule.comparison == b'>'
      then e.greater value rule.threshold
      else e.less value rule.threshold
