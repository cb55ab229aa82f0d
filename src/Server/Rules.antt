-- ===== src/Server/Rules.antt =====
-- cpp/server/main.cpp: how `alert_rules_`, `active_alerts_` and `latest_metrics_` hang together.
use sys_net_mon.Base.{
  ℕ, Bool, true, some, List, [], ◌∷◌, ◌++◌, Bytes, ◌≡◌, ◌≢◌, refl, subst, sym, ap, ◌∙◌, arith,
  returned, Bool-cases, inl, inr, lookup, insert, lookup-insert, str_eq, str_eq_iff, All,
  All-append,
}
use mathlib.Core.Bool.{false≢true}
use sys_net_mon.Machine.{Machine}
use sys_net_mon.Events.{MetricSnapshot, AlertRule}
use sys_net_mon.Alert.{parse_alert_command, rule_matches}
use sys_net_mon.Alert.Rules.{parse-raw_command, raw_command-Lacks}
use sys_net_mon.Server.{
  ClientConnection, MonitorServer, is_dashboard, dedupe_key, tick, send_to, broadcast_to_dashboards,
}
use sys_net_mon.Server.Broadcast.{broadcast_lem}
use sys_net_mon.Server.Alerts.{IsParsed, key_of, marks, evaluate_rules_lem}
use sys_net_mon.Server.Alerts.Memory.{listed, lookup-marks}
use sys_net_mon.Server.Alerts.Hosts.{HasNoBar, lookup-marks_other}
use sys_net_mon.Server.Lines.{
  registered, set_buffer, add_rule, greet_dashboard, handle_register, store_metric,
}
use sys_net_mon.Server.Steps.{LineStep, registers, measures, adds, chats, replies}
use sys_net_mon.Server.Rounds.{Selected, run, accept_connection, shutdown_all}
use sys_net_mon.Server.Reach.{
  Talk, Move, talks, handles, buffers, accepts, disconnects, shuts, Steps_induction, run-Reach,
}

module _ {D : Type 0} (e : Machine D) where
  -- The memory agrees with the rules and with the latest metrics.
  pub record IsConsistent (s : MonitorServer D) : Type 0 where
    -- each rule is what its own command says
    pub parsed : All (IsParsed e) s.alert_rules
    pub no_bar : All HasNoBar s.alert_rules
    -- a metric is kept under its own host
    pub hosts :
        (host : Bytes) (m : MetricSnapshot D)
        → lookup host s.latest_metrics ≡ some m
        → m.host ≡ host
    -- what is remembered of a rule and a host is whether the latest metric of the host matches
    pub memory :
        (host : Bytes) (r : AlertRule D) (b : Bool)
        → IsParsed e r
        → lookup (dedupe_key host r.raw_command) s.active_alerts ≡ some b
        → (listed r.raw_command s.alert_rules ≡ true)
          × (m : MetricSnapshot D) × (lookup host s.latest_metrics ≡ some m)
          × (b ≡ rule_matches e r m)

  -- the parts of the state that the invariant is about
  record Same (s t : MonitorServer D) : Type 0 where
    latest : t.latest_metrics ≡ s.latest_metrics
    rules : t.alert_rules ≡ s.alert_rules
    active : t.active_alerts ≡ s.active_alerts

  Same-IsConsistent : (s t : MonitorServer D) → Same s t → IsConsistent s → IsConsistent t
  Same-IsConsistent s t same v = record {
    parsed = subst (All (IsParsed e)) (sym same.rules) v.parsed;
    no_bar = subst (All HasNoBar) (sym same.rules) v.no_bar;
    hosts = λ host m h. v.hosts host m (ap (lookup host) (sym same.latest) ∙ h);
    memory = λ host r b parsed h.
        rw (same.rules, same.latest)
          (v.memory host r b parsed
            (ap (lookup (dedupe_key host r.raw_command)) (sym same.active) ∙ h));
  }

  register-Same :
      (index : ℕ) (client : ClientConnection) (line : Bytes) (s : MonitorServer D)
      → Same s (handle_register e index client line s)
  unfolding handle_register greet_dashboard send_to
  register-Same index client line s =
      elim (Bool-cases (is_dashboard (registered client line).role)) [
        | inl h ↦ rw h (record { latest = refl; rules = refl; active = refl })
        | inr h ↦ rw h (record { latest = refl; rules = refl; active = refl })
      ]

  broadcast-Same :
      (payload : Bytes) (s : MonitorServer D) → Same s (broadcast_to_dashboards payload (tick s))
  broadcast-Same payload s =
      rw (broadcast_lem payload (tick s)) (record { latest = refl; rules = refl; active = refl })

  -- What a new rule changes.
  add_rule_parts :
      (client : ClientConnection) (rule : AlertRule D) (s : MonitorServer D)
      → ((add_rule e client rule s).latest_metrics ≡ s.latest_metrics)
        × ((add_rule e client rule s).alert_rules ≡ s.alert_rules ++ rule ∷ [])
        × ((add_rule e client rule s).active_alerts ≡ s.active_alerts)
  unfolding add_rule send_to
  add_rule_parts client rule s = simp broadcast_lem (refl, refl, refl)

  -- What a new metric changes.
  store_metric_parts :
      (metric : MetricSnapshot D) (s : MonitorServer D)
      → ((store_metric e metric s).latest_metrics ≡ insert metric.host metric s.latest_metrics)
        × ((store_metric e metric s).alert_rules ≡ s.alert_rules)
        × ((store_metric e metric s).active_alerts ≡ marks e metric s.alert_rules s.active_alerts)
  unfolding store_metric
  store_metric_parts metric s = rw (evaluate_rules_lem e metric, broadcast_lem) (refl, refl, refl)

  listed-append :
      (raw : Bytes) (rules : List (AlertRule D)) (rule : AlertRule D)
      → listed raw rules ≡ true
      → listed raw (rules ++ rule ∷ []) ≡ true
  unfolding listed
  listed-append raw [] rule h = cc
  listed-append raw (q ∷ qs) rule h = ground (arith, listed-append raw qs rule)

  adds-IsConsistent :
      (client : ClientConnection) (text : Bytes) (rule : AlertRule D) (s : MonitorServer D)
      → parse_alert_command e text ≡ returned (some rule)
      → IsConsistent s
      → IsConsistent (add_rule e client rule s)
  adds-IsConsistent client text rule s h v =
      let (latest, rules, active) = add_rule_parts client rule s in
      record {
        parsed = subst (All (IsParsed e)) (sym rules) (
            All-append (IsParsed e) s.alert_rules (rule ∷ []) v.parsed
              (parse-raw_command e text rule h, tt));
        no_bar = subst (All HasNoBar) (sym rules) (
            All-append HasNoBar s.alert_rules (rule ∷ []) v.no_bar
              (raw_command-Lacks e text rule h, tt));
        hosts = λ host m k. v.hosts host m (ap (lookup host) (sym latest) ∙ k);
        memory = λ host r b parsed k.
            let (there, m, found, eq) =
              v.memory host r b parsed
                (ap (lookup (dedupe_key host r.raw_command)) (sym active) ∙ k) in
            (
              ap (listed r.raw_command) rules
                  ∙ listed-append r.raw_command s.alert_rules rule there,
              m,
              ap (lookup host) latest ∙ found,
              eq,
            );
      }

  module _ (metric : MetricSnapshot D) (s : MonitorServer D) (v : IsConsistent s) where
    marks_same_host :
        (r : AlertRule D) (b : Bool)
        → IsParsed e r
        → lookup (key_of e metric r) (marks e metric s.alert_rules s.active_alerts) ≡ some b
        → (listed r.raw_command s.alert_rules ≡ true) × (b ≡ rule_matches e r metric)
    marks_same_host r b hr h =
        let k = sym (lookup-marks e metric s.alert_rules r s.active_alerts v.parsed hr) ∙ h in
        elim (Bool-cases (listed r.raw_command s.alert_rules)) [
          | inl there ↦ (there, ground arith)
          | inr missing ↦
              let (there, _, _, _) = v.memory metric.host r b hr (rw missing at k) in
              absurd (ground arith)
        ]

    measures-memory :
        (host : Bytes) (r : AlertRule D) (b : Bool)
        → IsParsed e r
        → lookup (dedupe_key host r.raw_command) (marks e metric s.alert_rules s.active_alerts)
          ≡ some b
        → (listed r.raw_command s.alert_rules ≡ true)
          × (m : MetricSnapshot D) × (lookup host (insert metric.host metric s.latest_metrics)
              ≡ some m)
          × (b ≡ rule_matches e r m)
    measures-memory host r b hr h = elim (Bool-cases (str_eq metric.host host)) [
      | inl same ↦
          let host_eq = (str_eq_iff metric.host host).0 same in
          let (there, eq) = marks_same_host r b hr (
            subst
              (λ x.
                lookup (dedupe_key x r.raw_command) (marks e metric s.alert_rules s.active_alerts)
                ≡ some b)
              (sym host_eq) h) in
          (there, metric, rw (lookup-insert, same), eq)
      | inr differ ↦
          let other : metric.host ≢ host =
            λ p. false≢true (sym differ ∙ (str_eq_iff metric.host host).1 p) in
          let (there, m, found, eq) = v.memory host r b hr (
            sym (
              lookup-marks_other e metric s.alert_rules host r s.active_alerts v.no_bar
                (raw_command-Lacks e r.raw_command r hr) other)
            ∙ h) in
          (there, m, rw (lookup-insert, differ) found, eq)
    ]

    measures-hosts :
        (host : Bytes) (m : MetricSnapshot D)
        → lookup host (insert metric.host metric s.latest_metrics) ≡ some m
        → m.host ≡ host
    measures-hosts host m h =
        let k = sym (lookup-insert metric.host host metric s.latest_metrics) ∙ h in
        ground (arith, str_eq_iff metric.host host, v.hosts host m)

    pub store_metric-IsConsistent : IsConsistent (store_metric e metric s)
    store_metric-IsConsistent =
        let (latest, rules, active) = store_metric_parts metric s in
        record {
          parsed = subst (All (IsParsed e)) (sym rules) v.parsed;
          no_bar = subst (All HasNoBar) (sym rules) v.no_bar;
          hosts = λ host m h. measures-hosts host m (ap (lookup host) (sym latest) ∙ h);
          memory = λ host r b hr h.
              rw (rules, latest)
                (measures-memory host r b hr
                  (ap (lookup (dedupe_key host r.raw_command)) (sym active) ∙ h));
        }

  line-IsConsistent :
      (index : ℕ) (s t : MonitorServer D) → LineStep e index s t → IsConsistent s → IsConsistent t
  unfolding send_to
  line-IsConsistent index s t (registers client line there) v =
      Same-IsConsistent s _ (register-Same index client line s) v
  line-IsConsistent index s t (measures client metric there is_an_agent) v =
      store_metric-IsConsistent metric (tick s)
        (Same-IsConsistent s (tick s) (record { latest = refl; rules = refl; active = refl }) v)
  line-IsConsistent index s t (adds client text rule there parsed) v =
      adds-IsConsistent client text rule s parsed v
  line-IsConsistent index s t (chats message) v = Same-IsConsistent s _ (broadcast-Same _ s) v
  line-IsConsistent index s t (replies client payload there reply) v =
      Same-IsConsistent s _ (record { latest = refl; rules = refl; active = refl }) v

  Talk-IsConsistent : (s t : MonitorServer D) → Talk e s t → IsConsistent s → IsConsistent t
  unfolding set_buffer
  Talk-IsConsistent s t (handles index step) v = line-IsConsistent index s t step v
  Talk-IsConsistent s t (buffers index client buffer there) v =
      Same-IsConsistent s _ (record { latest = refl; rules = refl; active = refl }) v

  Move-IsConsistent : (s t : MonitorServer D) → Move e s t → IsConsistent s → IsConsistent t
  unfolding accept_connection shutdown_all
  Move-IsConsistent s t (talks talk) v = Talk-IsConsistent s t talk v
  Move-IsConsistent s t (accepts fd label) v =
      Same-IsConsistent s _ (record { latest = refl; rules = refl; active = refl }) v
  Move-IsConsistent s t (disconnects index client there) v =
      Same-IsConsistent s _ (record { latest = refl; rules = refl; active = refl }) v
  Move-IsConsistent s t shuts v =
      Same-IsConsistent s _ (record { latest = refl; rules = refl; active = refl }) v

  -- A run that starts in a consistent state and comes to its end leaves a consistent state,
  -- whatever the clients send and the calls of the system return.
  pub run-IsConsistent :
      (rounds : List Selected) (s t : MonitorServer D)
      → run e rounds s ≡ returned t
      → IsConsistent s
      → IsConsistent t
  run-IsConsistent rounds s t h v =
      Steps_induction (Move e) IsConsistent Move-IsConsistent s t (run-Reach e rounds s t h) v
