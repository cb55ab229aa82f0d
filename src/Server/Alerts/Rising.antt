-- ===== src/Server/Alerts/Rising.antt =====
-- cpp/server/main.cpp: which rules `evaluate_rules` announces, said of the state that it finds.
use sys_net_mon.Base.{
  Bool, false, ◌&&◌, ◌||◌, not, List, [], ◌∷◌, Bytes, some, ◌≡◌, refl, arith, if◌then◌else◌, Dict,
  lookup, insert, str_eq, All,
}
use sys_net_mon.Machine.{Machine}
use sys_net_mon.Events.{MetricSnapshot, AlertRule}
use sys_net_mon.Alert.{rule_matches}
use sys_net_mon.Server.{MonitorServer, evaluate_rules}
use sys_net_mon.Server.Alerts.{IsParsed, key_of, fires, fired, after_rules, evaluate_rules_lem}
use sys_net_mon.Server.Alerts.Memory.{lookup-insert_key}

unfoldable pub contains : Bytes → List Bytes → Bool
contains raw [] = false
contains raw (x ∷ xs) = str_eq x raw || contains raw xs

module _ {D : Type 0} (e : Machine D) (metric : MetricSnapshot D) where
  -- The rules that match the metric and did not match before, each command once, in the order of
  -- the rules. `active` is the memory before the loop.
  unfoldable pub rising : Dict Bool → List Bytes → List (AlertRule D) → List (AlertRule D)
  unfolding contains
  rising active seen [] = []
  rising active seen (rule ∷ rules) =
      let rest = rising active (rule.raw_command ∷ seen) rules in
      if not (contains rule.raw_command seen) && fires e metric active rule
      then rule ∷ rest
      else rest

  -- `now` is the memory after the rules whose commands were seen.
  abbrev Follows : Dict Bool → Dict Bool → List Bytes → Type 0
  Follows now active seen =
      (r : AlertRule D)
      → IsParsed e r
      → lookup (key_of e metric r) now ≡ (
          if contains r.raw_command seen
          then some (rule_matches e r metric)
          else lookup (key_of e metric r) active)

  Follows-insert :
      (now active : Dict Bool) (seen : List Bytes) (q : AlertRule D)
      → IsParsed e q
      → Follows now active seen
      → Follows
          (insert (key_of e metric q) (rule_matches e q metric) now)
          active
          (q.raw_command ∷ seen)
  unfolding contains
  Follows-insert now active seen q hq h r hr =
      rw (lookup-insert_key e metric q r now hq hr, h r hr) (ground arith)

  -- A rule fires now if its command was not seen and it fired at the start.
  fires-Follows :
      (now active : Dict Bool) (seen : List Bytes) (q : AlertRule D)
      → IsParsed e q
      → Follows now active seen
      → fires e metric now q ≡ (not (contains q.raw_command seen) && fires e metric active q)
  fires-Follows now active seen q hq h = rw (h q hq) (ground arith)

  fired-rising :
      (rules : List (AlertRule D)) (now active : Dict Bool) (seen : List Bytes)
      → All (IsParsed e) rules
      → Follows now active seen
      → fired e metric now rules ≡ rising active seen rules
  unfolding fired rising
  fired-rising [] now active seen _ h = refl
  fired-rising (q ∷ qs) now active seen (hq, hqs) h = rw (
    fires-Follows now active seen q hq h,
    fired-rising qs _ active (q.raw_command ∷ seen) hqs (Follows-insert now active seen q hq h),
  )

  -- If each rule is what its own command says, `evaluate_rules` announces exactly the rules that
  -- match the metric and did not match before, each command once, and sends and changes nothing else
  -- but the memory and the clock.
  pub evaluate_rules-rising :
      (s : MonitorServer D)
      → All (IsParsed e) s.alert_rules
      → evaluate_rules e metric s
        ≡ after_rules e metric s.alert_rules (rising s.active_alerts [] s.alert_rules) s
  unfolding contains
  evaluate_rules-rising s h = rw (
    evaluate_rules_lem e metric s,
    fired-rising s.alert_rules s.active_alerts s.active_alerts [] h (λ r hr. refl),
  )
