-- ===== src/Server/Edges.antt =====
-- cpp/server/main.cpp: the messages that a metric of an agent sets off, said of the metrics alone.
use sys_net_mon.Base.{
  Bool, true, false, ◌&&◌, not, Option, none, some, List, [], ◌∷◌, ◌++◌, append_assoc, Bytes, ◌≡◌,
  refl, ap, if◌then◌else◌, lookup, insert, All,
}
use sys_net_mon.Machine.{Machine}
use sys_net_mon.Events.{MetricSnapshot, AlertRule, metric_event_to_json}
use sys_net_mon.Alert.{rule_matches}
use sys_net_mon.Server.{MonitorServer, dedupe_key, value_or}
use sys_net_mon.Server.Broadcast.{deliveries, sending, broadcast_lem}
use sys_net_mon.Server.Alerts.{IsParsed, fires, announcements, key_of}
use sys_net_mon.Server.Alerts.Rising.{contains, rising, evaluate_rules-rising}
use sys_net_mon.Server.Lines.{store_metric}
use sys_net_mon.Server.Rules.{IsConsistent}

abbrev is_some {ℓ} : {A : Type ℓ} → Option A → Bool
is_some none = false
is_some (some a) = true

module _ {D : Type 0} (e : Machine D) where
  -- a test of the latest metric of a host
  abbrev pub of_latest : (MetricSnapshot D → Bool) → Option (MetricSnapshot D) → Bool
  of_latest test none = false
  of_latest test (some m) = test m

  -- The rule was evaluated for the host, and the latest metric of the host matches it.
  abbrev pub was_matching : MonitorServer D → Bytes → AlertRule D → Bool
  was_matching s host rule =
      is_some (lookup (dedupe_key host rule.raw_command) s.active_alerts)
      && of_latest (rule_matches e rule) (lookup host s.latest_metrics)

  -- The rules that a metric matches, but for those that were evaluated for the host and that the
  -- metric of the host before it matches, each command once, in the order of the rules.
  unfoldable pub edges :
      MetricSnapshot D → MonitorServer D → List Bytes → List (AlertRule D) → List (AlertRule D)
  edges metric s seen [] = []
  edges metric s seen (rule ∷ rules) =
      let rest = edges metric s (rule.raw_command ∷ seen) rules in
      if not (contains rule.raw_command seen)
        && (rule_matches e rule metric && not (was_matching s metric.host rule))
      then rule ∷ rest
      else rest

  module _ (metric : MetricSnapshot D) (s : MonitorServer D) (v : IsConsistent e s) where
    remembered :
        (rule : AlertRule D) (found : Option Bool)
        → IsParsed e rule
        → lookup (key_of e metric rule) s.active_alerts ≡ found
        → value_or false found
          ≡ (is_some found && of_latest (rule_matches e rule) (lookup metric.host s.latest_metrics))
    remembered rule none parsed h = refl
    remembered rule (some b) parsed h =
        let (there, m, latest, eq) = v.memory metric.host rule b parsed h in rw latest eq

    fires-was_matching :
        (rule : AlertRule D)
        → IsParsed e rule
        → fires e metric s.active_alerts rule
          ≡ (rule_matches e rule metric && not (was_matching s metric.host rule))
    fires-was_matching rule parsed =
        ap (λ b. rule_matches e rule metric && not b)
          (remembered rule (lookup (key_of e metric rule) s.active_alerts) parsed refl)

    rising-edges :
        (seen : List Bytes) (rules : List (AlertRule D))
        → All (IsParsed e) rules
        → rising e metric s.active_alerts seen rules ≡ edges metric s seen rules
    unfolding rising edges
    rising-edges seen [] _ = refl
    rising-edges seen (rule ∷ rules) (parsed, all_parsed) =
        rw (fires-was_matching rule parsed, rising-edges (rule.raw_command ∷ seen) rules all_parsed)

    -- In a consistent state, a metric sends to each dashboard the metric itself and then one alert
    -- for each rule that the metric matches, unless the rule was evaluated for the host before and
    -- the latest metric of the host matches it, each command once. A rule that is new is announced
    -- also where the latest metric of the host matches it already.
    pub sent-store_metric :
        (store_metric e metric s).sent
        ≡ s.sent
          ++ (deliveries (metric_event_to_json e metric) s.clients
              ++ announcements e metric s.clients s.readings (edges metric s [] s.alert_rules))
    unfolding store_metric
    sent-store_metric =
        rw
          (
            broadcast_lem,
            evaluate_rules-rising e metric
                (sending (deliveries (metric_event_to_json e metric) s.clients)
                  (record s { latest_metrics = insert metric.host metric s.latest_metrics }))
                v.parsed,
            rising-edges [] s.alert_rules v.parsed,
          )
          (append_assoc s.sent (deliveries (metric_event_to_json e metric) s.clients) _)
