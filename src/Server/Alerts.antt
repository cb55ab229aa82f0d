-- ===== src/Server/Alerts.antt =====
-- cpp/server/main.cpp: what `evaluate_rules` announces, and what it remembers.
pub mod Memory
pub mod Rising
pub mod Hosts
use sys_net_mon.Base.{
  ℕ, suc, ◌+◌, Bool, true, false, ◌&&◌, not, List, [], ◌∷◌, ◌++◌, append-nil, append_assoc, Bytes,
  Outcome, returned, some, ◌≡◌, refl, sym, ap, ◌∙◌, arith, if◌then◌else◌, Bool-cases, inl, inr,
  Dict, lookup, insert, length,
}
use sys_net_mon.Machine.{Machine}
use sys_net_mon.Events.{MetricSnapshot, AlertRule, alert_event_to_json}
use sys_net_mon.Alert.{parse_alert_command, rule_matches}
use sys_net_mon.Server.{
  ClientConnection, MonitorServer, value_or, dedupe_key, broadcast_to_dashboards, alert_for,
  raise_alert, evaluate_rule, evaluate_loop, evaluate_rules, evaluate_rules, tick,
}
use sys_net_mon.Server.Broadcast.{deliveries, broadcast_lem}

module _ {D : Type 0} (e : Machine D) where
  -- The rule is what its own command says.
  abbrev pub IsParsed : AlertRule D → Type 0
  IsParsed rule = parse_alert_command e rule.raw_command ≡ returned (some rule)

module _ {D : Type 0} (e : Machine D) (metric : MetricSnapshot D) where
  abbrev pub key_of : AlertRule D → Bytes
  key_of rule = dedupe_key metric.host rule.raw_command

  -- the rule matches, and did not at the last metric of the host
  abbrev pub fires : Dict Bool → AlertRule D → Bool
  fires active rule =
      rule_matches e rule metric && not (value_or false (lookup (key_of rule) active))

  -- `active_alerts_` after the loop over some rules
  unfoldable pub marks : List (AlertRule D) → Dict Bool → Dict Bool
  marks [] active = active
  marks (rule ∷ rules) active =
      marks rules (insert (key_of rule) (rule_matches e rule metric) active)

  -- the rules that the loop announces, one after the other
  unfoldable pub fired : Dict Bool → List (AlertRule D) → List (AlertRule D)
  fired active [] = []
  fired active (rule ∷ rules) =
      let rest = fired (insert (key_of rule) (rule_matches e rule metric) active) rules in
      if fires active rule then rule ∷ rest else rest

  -- the deliveries of these announcements, each with its own reading of the clock
  unfoldable pub announcements : List ClientConnection → ℕ → List (AlertRule D) → List (ℕ × Bytes)
  announcements clients reading [] = []
  announcements clients reading (rule ∷ rules) =
      deliveries (alert_event_to_json e (alert_for e reading metric rule)) clients
      ++ announcements clients (suc reading) rules

  abbrev pub after_rules :
      List (AlertRule D) → List (AlertRule D) → MonitorServer D → MonitorServer D
  after_rules rules raised s = record s {
    active_alerts = marks rules s.active_alerts;
    sent = s.sent ++ announcements s.clients s.readings raised;
    readings = s.readings + length raised;
  }

  evaluate_rule-fires :
      (rule : AlertRule D) (s : MonitorServer D)
      → fires s.active_alerts rule ≡ true
      → evaluate_rule e metric rule s ≡ record s {
        active_alerts = insert (key_of rule) (rule_matches e rule metric) s.active_alerts;
        sent =
            s.sent
            ++ deliveries (alert_event_to_json e (alert_for e s.readings metric rule)) s.clients;
        readings = s.readings + 1;
      }
  unfolding evaluate_rule
  evaluate_rule-fires rule s h = rw (h, broadcast_lem)

  evaluate_rule_quiet :
      (rule : AlertRule D) (s : MonitorServer D)
      → fires s.active_alerts rule ≡ false
      → evaluate_rule e metric rule s ≡ record s {
        active_alerts = insert (key_of rule) (rule_matches e rule metric) s.active_alerts;
      }
  unfolding evaluate_rule
  evaluate_rule_quiet rule s h = rw h

  evaluate_loop_lem :
      (rules : List (AlertRule D)) (s : MonitorServer D)
      → evaluate_loop e metric rules s ≡ after_rules rules (fired s.active_alerts rules) s
  unfolding evaluate_loop marks fired announcements
  evaluate_loop_lem [] s = ground (arith, append-nil s.sent)
  evaluate_loop_lem (rule ∷ rules) s = elim (Bool-cases (fires s.active_alerts rule)) [
    | inl h ↦
        rw (evaluate_rule-fires rule s h, evaluate_loop_lem rules, h)
          (ground (
            arith,
            append_assoc s.sent
                (deliveries (alert_event_to_json e (alert_for e s.readings metric rule)) s.clients)
                (announcements s.clients (suc s.readings) (
                  fired (insert (key_of rule) (rule_matches e rule metric) s.active_alerts) rules)),
          ))
    | inr h ↦ rw (evaluate_rule_quiet rule s h, evaluate_loop_lem rules, h) refl
  ]

  -- What `evaluate_rules` does, in closed form.
  pub evaluate_rules_lem :
      (s : MonitorServer D)
      → evaluate_rules e metric s
        ≡ after_rules s.alert_rules (fired s.active_alerts s.alert_rules) s
  unfolding evaluate_rules
  evaluate_rules_lem s = evaluate_loop_lem s.alert_rules s
