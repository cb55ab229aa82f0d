-- ===== src/Server/Alerts/Memory.antt =====
-- cpp/server/main.cpp: `active_alerts_` after `evaluate_rules`, for the host of the metric.
use sys_net_mon.Base.{
  Bool, true, false, ◌||◌, List, [], ◌∷◌, ◌++◌, Bytes, codes, some, ◌≡◌, refl, ap, ◌∙◌, arith,
  if◌then◌else◌, Bool-cases, inl, inr, Dict, lookup, insert, lookup-insert, str_eq, str_eq_iff,
  ==_refl, All,
}
use sys_net_mon.Machine.{Machine}
use sys_net_mon.Events.{MetricSnapshot, AlertRule}
use sys_net_mon.Alert.{parse_alert_command, rule_matches}
use sys_net_mon.Server.{MonitorServer, dedupe_key, evaluate_rules}
use sys_net_mon.Server.Alerts.{IsParsed, key_of, marks, evaluate_rules_lem}

str_eq-append : (h a b : Bytes) → str_eq (h ++ a) (h ++ b) ≡ str_eq a b
unfolding str_eq
str_eq-append [] a b = refl
str_eq-append (c ∷ h) a b = rw (==_refl c) (str_eq-append h a b)

-- Of one host, two keys are equal as their commands are.
pub str_eq-dedupe_key :
    (host a b : Bytes) → str_eq (dedupe_key host a) (dedupe_key host b) ≡ str_eq a b
str_eq-dedupe_key host a b =
    str_eq-append host (codes "|" ++ a) (codes "|" ++ b) ∙ str_eq-append (codes "|") a b

-- a rule with this command is in the list
unfoldable pub listed : {D : Type 0} → Bytes → List (AlertRule D) → Bool
listed raw [] = false
listed raw (rule ∷ rules) = str_eq rule.raw_command raw || listed raw rules

module _ {D : Type 0} (e : Machine D) (metric : MetricSnapshot D) where
  -- Rules that were parsed agree where their commands do.
  pub matches_same :
      (q r : AlertRule D)
      → IsParsed e q
      → IsParsed e r
      → str_eq q.raw_command r.raw_command ≡ true
      → q ≡ r
  matches_same q r hq hr same =
      cc (ap (parse_alert_command e) ((str_eq_iff q.raw_command r.raw_command).0 same))

  pub lookup-insert_key :
      (q r : AlertRule D) (active : Dict Bool)
      → IsParsed e q
      → IsParsed e r
      → lookup (key_of e metric r) (insert (key_of e metric q) (rule_matches e q metric) active) ≡ (
          if str_eq q.raw_command r.raw_command
          then some (rule_matches e r metric)
          else lookup (key_of e metric r) active)
  lookup-insert_key q r active hq hr =
      rw (lookup-insert, str_eq-dedupe_key)
        (elim (Bool-cases (str_eq q.raw_command r.raw_command)) [
          | inl same ↦ rw (same, matches_same q r hq hr same)
          | inr differ ↦ rw differ
        ])

  pub lookup-marks :
      (rules : List (AlertRule D)) (r : AlertRule D) (active : Dict Bool)
      → All (IsParsed e) rules
      → IsParsed e r
      → lookup (key_of e metric r) (marks e metric rules active) ≡ (
          if listed r.raw_command rules
          then some (rule_matches e r metric)
          else lookup (key_of e metric r) active)
  unfolding marks listed
  lookup-marks [] r active _ hr = refl
  lookup-marks (q ∷ qs) r active (hq, hqs) hr =
      rw (lookup-marks qs r _ hqs hr, lookup-insert_key q r active hq hr) (ground arith)

  -- If each rule is what its own command says, the memory after `evaluate_rules` holds for each rule
  -- of the server and the host of the metric whether the rule matches this metric, also where a
  -- command was added more than once.
  pub evaluate_rules-remembers :
      (s : MonitorServer D) (r : AlertRule D)
      → All (IsParsed e) s.alert_rules
      → IsParsed e r
      → listed r.raw_command s.alert_rules ≡ true
      → lookup (key_of e metric r) (evaluate_rules e metric s).active_alerts
        ≡ some (rule_matches e r metric)
  evaluate_rules-remembers s r hs hr there =
      rw (evaluate_rules_lem e metric s, lookup-marks s.alert_rules r s.active_alerts hs hr, there)
