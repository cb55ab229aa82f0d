-- ===== src/Server/Buffers.antt =====
-- cpp/server/main.cpp: handling a line, and the buffers of the connections.
use sys_net_mon.Base.{
  ℕ, zero, suc, Option, none, some, List, [], ◌∷◌, ◌++◌, Bytes, codes, ◌≡◌, refl, ap, sym, ◌∙◌,
  arith, Outcome, returned, ◌>>=◌, bind_assoc, bind_cong, at, set, insert, Bool-cases, inl, inr,
}
use sys_net_mon.Machine.{Machine}
use sys_net_mon.Text.{trim, lower_copy}
use sys_net_mon.Events.{
  MetricSnapshot, AlertRule, chat_event_to_json, metric_event_to_json, rules_event_to_json,
}
use sys_net_mon.Json.{json_get_string}
use sys_net_mon.Alert.{parse_alert_command}
use sys_net_mon.Server.{
  ClientConnection, MonitorServer, is_dashboard, evaluate_rules, tick, send_to,
  broadcast_to_dashboards, value_or,
}
use sys_net_mon.Server.Broadcast.{deliveries, broadcast_lem}
use sys_net_mon.Server.Alerts.{announcements, evaluate_rules_lem}
use sys_net_mon.Server.Lines.{
  starts_with, registered, is_empty, rule_message, add_rule, finish_alert, simple_command,
  handle_command, greet_dashboard, handle_register, read_metric, store_metric, handle_metrics,
  chat_message, handle_chat, dispatch, handle_line, take_line,
}

-- the connections with the buffer of one of them replaced
unfoldable pub rebuffer : ℕ → Bytes → List ClientConnection → List ClientConnection
rebuffer i b [] = []
rebuffer zero b (c ∷ cs) = record c { buffer = b } ∷ cs
rebuffer (suc i) b (c ∷ cs) = c ∷ rebuffer i b cs

pub set-eq-rebuffer :
    (cs : List ClientConnection) (i : ℕ) (b : Bytes) (c : ClientConnection)
    → at cs i ≡ returned c
    → set cs i (record c { buffer = b }) ≡ rebuffer i b cs
unfolding rebuffer
set-eq-rebuffer [] i b c h = refl
set-eq-rebuffer (d ∷ cs) zero b c h = ground arith
set-eq-rebuffer (d ∷ cs) (suc i) b c h = ap (λ x. d ∷ x) (set-eq-rebuffer cs i b c h)

set-rebuffer :
    (cs : List ClientConnection) (i : ℕ) (b : Bytes) (c : ClientConnection)
    → set (rebuffer i b cs) i c ≡ set cs i c
unfolding rebuffer
set-rebuffer [] i b c = refl
set-rebuffer (d ∷ cs) zero b c = refl
set-rebuffer (d ∷ cs) (suc i) b c = ap (λ x. d ∷ x) (set-rebuffer cs i b c)

rebuffer-set :
    (cs : List ClientConnection) (i : ℕ) (b : Bytes) (c : ClientConnection)
    → rebuffer i b (set cs i c) ≡ set cs i (record c { buffer = b })
unfolding rebuffer
rebuffer-set [] i b c = refl
rebuffer-set (d ∷ cs) zero b c = refl
rebuffer-set (d ∷ cs) (suc i) b c = ap (λ x. d ∷ x) (rebuffer-set cs i b c)

pub at-rebuffer :
    (cs : List ClientConnection) (i : ℕ) (b : Bytes) (c : ClientConnection)
    → at cs i ≡ returned c
    → at (rebuffer i b cs) i ≡ returned (record c { buffer = b })
unfolding rebuffer
at-rebuffer [] i b c h = cc
at-rebuffer (d ∷ cs) zero b c h = ground arith
at-rebuffer (d ∷ cs) (suc i) b c h = at-rebuffer cs i b c h

pub rebuffer-rebuffer :
    (cs : List ClientConnection) (i : ℕ) (a b : Bytes)
    → rebuffer i b (rebuffer i a cs) ≡ rebuffer i b cs
unfolding rebuffer
rebuffer-rebuffer [] i a b = refl
rebuffer-rebuffer (d ∷ cs) zero a b = refl
rebuffer-rebuffer (d ∷ cs) (suc i) a b = ap (λ x. d ∷ x) (rebuffer-rebuffer cs i a b)

pub rebuffer_own :
    (cs : List ClientConnection) (i : ℕ) (c : ClientConnection)
    → at cs i ≡ returned c
    → rebuffer i c.buffer cs ≡ cs
unfolding rebuffer
rebuffer_own [] i c h = refl
rebuffer_own (d ∷ cs) zero c h = ground arith
rebuffer_own (d ∷ cs) (suc i) c h = ap (λ x. d ∷ x) (rebuffer_own cs i c h)

deliveries-rebuffer :
    (payload : Bytes) (cs : List ClientConnection) (i : ℕ) (b : Bytes)
    → deliveries payload (rebuffer i b cs) ≡ deliveries payload cs
unfolding deliveries rebuffer
deliveries-rebuffer payload [] i b = refl
deliveries-rebuffer payload (c ∷ cs) zero b = refl
deliveries-rebuffer payload (c ∷ cs) (suc i) b = rw (deliveries-rebuffer payload cs i b)

module _ {D : Type 0} (e : Machine D) (i : ℕ) (b : Bytes) where
  abbrev pub with_buffer : MonitorServer D → MonitorServer D
  with_buffer s = record s { clients = rebuffer i b s.clients }

  announcements-rebuffer :
      (metric : MetricSnapshot D) (cs : List ClientConnection) (n : ℕ) (rules : List (AlertRule D))
      → announcements e metric (rebuffer i b cs) n rules ≡ announcements e metric cs n rules
  unfolding announcements
  announcements-rebuffer metric cs n [] = refl
  announcements-rebuffer metric cs n (rule ∷ rules) =
      rw (deliveries-rebuffer _ cs i b, announcements-rebuffer metric cs (suc n) rules)

  broadcast-with_buffer :
      (payload : Bytes) (s : MonitorServer D)
      → broadcast_to_dashboards payload (with_buffer s)
        ≡ with_buffer (broadcast_to_dashboards payload s)
  broadcast-with_buffer payload s = rw (
    broadcast_lem payload (with_buffer s),
    broadcast_lem payload s,
    deliveries-rebuffer payload s.clients i b,
  )

  evaluate-with_buffer :
      (metric : MetricSnapshot D) (s : MonitorServer D)
      → evaluate_rules e metric (with_buffer s) ≡ with_buffer (evaluate_rules e metric s)
  evaluate-with_buffer metric s = rw (
    evaluate_rules_lem e metric (with_buffer s),
    evaluate_rules_lem e metric s,
    announcements-rebuffer metric s.clients,
  )

  store_metric-with_buffer :
      (metric : MetricSnapshot D) (s : MonitorServer D)
      → store_metric e metric (with_buffer s) ≡ with_buffer (store_metric e metric s)
  unfolding store_metric
  store_metric-with_buffer metric s =
      let s1 = record s { latest_metrics = insert metric.host metric s.latest_metrics } in
      let payload = metric_event_to_json e metric in
      ap (evaluate_rules e metric) (broadcast-with_buffer payload s1)
      ∙ evaluate-with_buffer metric (broadcast_to_dashboards payload s1)

  add_rule-with_buffer :
      (client : ClientConnection) (rule : AlertRule D) (s : MonitorServer D)
      → add_rule e (record client { buffer = b }) rule (with_buffer s)
        ≡ with_buffer (add_rule e client rule s)
  unfolding add_rule send_to
  add_rule-with_buffer client rule s =
      let s1 = record s { alert_rules = s.alert_rules ++ rule ∷ [] } in
      let said = chat_event_to_json (rule_message e rule s1.readings) in
      let s2 = broadcast_to_dashboards said (tick s1) in
      let listed = rules_event_to_json e s2.alert_rules in
      rw (broadcast-with_buffer said (tick s1), broadcast-with_buffer listed s2)

  register-with_buffer :
      (client : ClientConnection) (line : Bytes) (s : MonitorServer D)
      → handle_register e i (record client { buffer = b }) line (with_buffer s)
        ≡ with_buffer (handle_register e i client line s)
  unfolding handle_register greet_dashboard send_to registered
  register-with_buffer client line s =
      elim (Bool-cases (is_dashboard (registered client line).role)) [
        | inl h ↦ rw (h, set-rebuffer, rebuffer-set)
        | inr h ↦ rw (h, set-rebuffer, rebuffer-set)
      ]

  simple-with_buffer :
      (client : ClientConnection) (lowered : Bytes) (s : MonitorServer D)
      → simple_command e (record client { buffer = b }) lowered (with_buffer s)
        ≡ with_buffer (simple_command e client lowered s)
  unfolding simple_command send_to
  simple-with_buffer client lowered s = ground arith

  finish_alert-with_buffer :
      (client : ClientConnection) (parsed : Option (AlertRule D)) (s : MonitorServer D)
      → finish_alert e (record client { buffer = b }) parsed (with_buffer s)
        ≡ with_buffer (finish_alert e client parsed s)
  unfolding finish_alert send_to
  finish_alert-with_buffer client none s = refl
  finish_alert-with_buffer client (some rule) s = add_rule-with_buffer client rule s

  -- `m`, and then the buffer is set
  abbrev pub then_buffer : Outcome (MonitorServer D) → Outcome (MonitorServer D)
  then_buffer m = m >>= λ t. returned (with_buffer t)

  command-with_buffer :
      (client : ClientConnection) (text : Bytes) (s : MonitorServer D)
      → handle_command e (record client { buffer = b }) text (with_buffer s)
        ≡ then_buffer (handle_command e client text s)
  unfolding handle_command
  command-with_buffer client text s =
      elim (Bool-cases (starts_with (codes "/alert") (lower_copy (trim text)))) [
        | inl is_alert ↦ rw is_alert (
            bind_cong (parse_alert_command e text) _ _
              (λ parsed _. ap (λ x. returned x) (finish_alert-with_buffer client parsed s))
            ∙ sym (bind_assoc (parse_alert_command e text) _ _))
        | inr other ↦
            rw other (ap (λ x. returned x) (simple-with_buffer client (lower_copy (trim text)) s))
      ]

  metrics-with_buffer :
      (client : ClientConnection) (line : Bytes) (s : MonitorServer D)
      → handle_metrics e (record client { buffer = b }) line (with_buffer s)
        ≡ then_buffer (handle_metrics e client line s)
  unfolding handle_metrics read_metric
  metrics-with_buffer client line s =
      bind_cong (read_metric e client s.readings line) _ _
        (λ metric _. ap (λ x. returned x) (store_metric-with_buffer metric (tick s)))
      ∙ sym (bind_assoc (read_metric e client s.readings line) _ _)

  chat-with_buffer :
      (client : ClientConnection) (line : Bytes) (s : MonitorServer D)
      → handle_chat e (record client { buffer = b }) line (with_buffer s)
        ≡ with_buffer (handle_chat e client line s)
  unfolding handle_chat chat_message
  chat-with_buffer client line s =
      broadcast-with_buffer (chat_event_to_json (chat_message e client line s.readings)) (tick s)

  dispatch-with_buffer :
      (client : ClientConnection) (type line : Bytes) (s : MonitorServer D)
      → dispatch e i (record client { buffer = b }) type line (with_buffer s)
        ≡ then_buffer (dispatch e i client type line s)
  unfolding dispatch send_to
  dispatch-with_buffer client type line s = ground (
    arith,
    register-with_buffer client line s,
    metrics-with_buffer client line s,
    command-with_buffer client (value_or [] (json_get_string line (codes "text"))) s,
    chat-with_buffer client line s,
  )

  pub take_line-with_buffer :
      (line : Bytes) (s : MonitorServer D) (client : ClientConnection)
      → at s.clients i ≡ returned client
      → take_line e i line (with_buffer s) ≡ then_buffer (take_line e i line s)
  unfolding take_line handle_line
  take_line-with_buffer line s client there = elim (Bool-cases (is_empty line)) [
    | inl nothing ↦ rw nothing
    | inr something ↦
        rw (something, at-rebuffer s.clients i b client there, there)
          (dispatch-with_buffer client _ line s)
  ]
