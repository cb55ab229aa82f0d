-- ===== src/Tests.antt =====
-- Runs of the definitions at fixed inputs, and the theorems at inputs that meet their hypotheses.
mod Agent
mod Collect
mod Messages
mod Metrics
mod Sessions
mod Together
mod Start
mod Commands
use sys_net_mon.Base.{
  negsuc, ℕ, Bool, true, false, some, List, [], ◌∷◌, ◌++◌, reverse, Bytes, codes, Outcome, returned,
  threw, undefined, IsDefined, returned-IsDefined, ◌≡◌, ◌≢◌, ◌↔◌, refl, str_eq, at, drop_while,
  take_while, lookup, if◌then◌else◌, ◌==◌, ◌>>=◌, arith, Lacks, All,
}
use sys_net_mon.Text.{trim, is_space, to_lower, newline, quote, escape_json, lower_copy}
use sys_net_mon.Text.Trim.{IsTrimmed, trim_unique}
use sys_net_mon.Text.Escape.{read_string, read_string-escape_json, escape_json-Lacks}
use sys_net_mon.Decimal.{stoll, format_integer, is_digit, magnitude}
use sys_net_mon.Decimal.RoundTrip.{stoll-format_integer}
use sys_net_mon.Json.{
  match_decimal, after_fraction, match_string, match_minus, regex_search, field, json_get_string,
  json_get_number, json_get_integer,
}
use sys_net_mon.Events.{MetricSnapshot, metric_event_to_json}
use sys_net_mon.Alert.{
  metric_value_for_key, match_alert, parse_alert_command, match_word, is_word, match_end,
  metric_names, rule_matches,
}
use sys_net_mon.Alert.Grammar.{IsAlert}
use sys_net_mon.Alert.Matching.{match_alert_iff}
use sys_net_mon.Alert.Rules.{parse-raw_command, raw_command-Lacks}
use sys_net_mon.Alert.Watches.{Watched, Words, value_of, rule_matches-watched}
use sys_net_mon.Server.{
  MonitorServer, ClientConnection, broadcast_to_dashboards, dedupe_key, evaluate_rules,
}
use sys_net_mon.Server.Broadcast.{deliveries, sending, broadcast_lem}
use sys_net_mon.Server.Alerts.{IsParsed, announcements, after_rules, key_of}
use sys_net_mon.Server.Alerts.Memory.{listed, evaluate_rules-remembers}
use sys_net_mon.Server.Alerts.Rising.{rising, contains, evaluate_rules-rising}
use sys_net_mon.Server.Alerts.Hosts.{HasNoBar, dedupe_key_injective, evaluate_rules_other}
use sys_net_mon.Server.Lines.{store_metric, handle_line, read_client, read_lines}
use sys_net_mon.Server.Edges.{edges, sent-store_metric}
use sys_net_mon.Server.Rules.{IsConsistent, run-IsConsistent}
use sys_net_mon.Server.Rounds.{
  Ready, Selected, interrupted, ready, run, fits_set, serve_round, accept_if_ready, fds, fd_isset,
  shutdown_all,
}
use sys_net_mon.Server.Closed.{is_gone, without, only, serve_round-closed}
use sys_net_mon.Server.Framing.{rest}
use sys_net_mon.Server.Reading.{read_all, read_lines_lem}
use sys_net_mon.Server.Chunks.{read_client-append, read_client-buffer}
use sys_net_mon.Server.Defined.{Outside, run_undefined}
use sys_net_mon.Sample.{
  arrivals, rounds, sample, sample_stod, metric, command, rule, server, worker,
}

parse_command : parse_alert_command sample command ≡ returned (some rule)
unfolding parse_alert_command match_alert sample_stod trim drop_while is_space to_lower match_word
    take_while is_word match_decimal is_digit match_end after_fraction metric_names str_eq
    lower_copy magnitude
parse_command = refl

rule-IsParsed : All (IsParsed sample) server.alert_rules
rule-IsParsed = (parse-raw_command sample command rule parse_command, tt)

rule-HasNoBar : All HasNoBar server.alert_rules
rule-HasNoBar = (raw_command-Lacks sample command rule parse_command, tt)

server-IsConsistent : IsConsistent sample server
unfolding lookup
server-IsConsistent = record {
  parsed = rule-IsParsed;
  no_bar = rule-HasNoBar;
  hosts = λ host m h. cc;
  memory = λ host r b parsed h. cc;
}

rule_edge : edges sample metric server [] server.alert_rules ≡ rule ∷ []
unfolding edges contains rule_matches metric_value_for_key lookup str_eq
rule_edge = refl

sent-store_metric_example :
    (store_metric sample metric server).sent
    ≡ []
      ++ (deliveries (metric_event_to_json sample metric) server.clients
          ++ announcements sample metric server.clients 0
              (edges sample metric server [] server.alert_rules))
sent-store_metric_example = sent-store_metric sample metric server server-IsConsistent

abbrev outcome_or {ℓ} : {A : Type ℓ} → A → Outcome A → A
outcome_or fallback (returned a) = a
outcome_or fallback threw = fallback
outcome_or fallback undefined = fallback

abbrev served : MonitorServer ℕ
served = outcome_or server (serve_round sample arrivals server)

served_lem : serve_round sample arrivals server ≡ returned served
unfolding str_eq take_while drop_while lookup is_space trim is_digit magnitude match_string
    match_decimal match_minus regex_search field json_get_string json_get_number json_get_integer
    rule_matches broadcast_to_dashboards evaluate_rules handle_line read_client run sample_stod
served_lem = refl

run_lem : run sample rounds server ≡ returned (shutdown_all served)
unfolding run fits_set
run_lem = rw served_lem refl

abbrev after_read : Bool × MonitorServer ℕ
after_read =
    outcome_or (false, server) (read_client sample 1 (codes "\"ping\"}\r\n{\"type\"") server)

read_lem : read_client sample 1 (codes "\"ping\"}\r\n{\"type\"") server ≡ returned after_read
unfolding str_eq drop_while is_space trim match_string regex_search field json_get_string
    broadcast_to_dashboards handle_line read_client
read_lem = refl

abbrev after_line : MonitorServer ℕ
after_line =
    outcome_or server
      (handle_line sample 1 (codes "{\"type\":\"register\",\"role\":\"dashboard\"}") server)

line_lem :
    handle_line sample 1 (codes "{\"type\":\"register\",\"role\":\"dashboard\"}") server
    ≡ returned after_line
unfolding str_eq drop_while is_space match_string regex_search field json_get_string handle_line
line_lem = refl

run-IsConsistent_example : IsConsistent sample (shutdown_all served)
run-IsConsistent_example =
    run-IsConsistent sample rounds server (shutdown_all served) run_lem server-IsConsistent

read_client-append_example :
    read_client sample 1 ((b'"' ∷ codes "chat\"}\n{\"ty") ++ b'p' ∷ codes "e\":\"chat\"}\n") server
    ≡ (read_client sample 1 (b'"' ∷ codes "chat\"}\n{\"ty") server >>= λ r.
        read_client sample 1 (b'p' ∷ codes "e\":\"chat\"}\n") r.1)
read_client-append_example =
    read_client-append sample 1 b'"' b'p' (codes "chat\"}\n{\"ty") (codes "e\":\"chat\"}\n") server

serve_round-closed_example :
    (fds served.clients
      ≡ without (is_gone arrivals) (fds (accept_if_ready arrivals server).clients))
    × (served.closed
        ≡ (accept_if_ready arrivals server).closed
          ++ reverse (only (is_gone arrivals) (fds (accept_if_ready arrivals server).clients)))
    × (served.listen_fd ≡ (accept_if_ready arrivals server).listen_fd)
serve_round-closed_example = serve_round-closed sample arrivals server served served_lem

match_alert_iff_example :
    (match_alert command ≡ some (codes "cpu", b'>', codes "80.5"))
    ↔ IsAlert command (codes "cpu") b'>' (codes "80.5")
match_alert_iff_example = match_alert_iff command (codes "cpu") b'>' (codes "80.5")

evaluate_rules-rising_example :
    evaluate_rules sample metric server
    ≡ after_rules sample metric server.alert_rules
        (rising sample metric server.active_alerts [] server.alert_rules)
        server
evaluate_rules-rising_example = evaluate_rules-rising sample metric server rule-IsParsed

rule_listed : listed rule.raw_command server.alert_rules ≡ true
unfolding listed str_eq
rule_listed = refl

evaluate_rules-remembers_example :
    lookup (key_of sample metric rule) (evaluate_rules sample metric server).active_alerts
    ≡ some (rule_matches sample rule metric)
evaluate_rules-remembers_example =
    evaluate_rules-remembers sample metric server rule rule-IsParsed rule-IsParsed.0 rule_listed

dedupe_key_injective_example : (codes "a|b" ≡ codes "a|b") × (rule.raw_command ≡ rule.raw_command)
dedupe_key_injective_example =
    dedupe_key_injective (codes "a|b") (codes "a|b") rule.raw_command rule.raw_command
      rule-HasNoBar.0 rule-HasNoBar.0 refl

other_host : metric.host ≢ codes "edge-2"
other_host = λ p. ground arith

evaluate_rules_other_example :
    lookup
      (dedupe_key (codes "edge-2") rule.raw_command)
      (evaluate_rules sample metric server).active_alerts
    ≡ lookup (dedupe_key (codes "edge-2") rule.raw_command) server.active_alerts
evaluate_rules_other_example =
    evaluate_rules_other sample metric server (codes "edge-2") rule rule-HasNoBar rule-HasNoBar.0
      other_host

rule_matches-watched_example :
    (k : Watched) × (word number : Bytes) × (match_alert command
      ≡ some (word, rule.comparison, number))
    × Words k (lower_copy word)
    × ((m : MetricSnapshot ℕ)
        → rule_matches sample rule m ≡ (
            if rule.comparison == b'>'
            then sample.greater (value_of k m) rule.threshold
            else sample.less (value_of k m) rule.threshold))
rule_matches-watched_example = rule_matches-watched sample command rule parse_command

parse-raw_command_example : parse_alert_command sample rule.raw_command ≡ returned (some rule)
parse-raw_command_example = parse-raw_command sample command rule parse_command

read_client-buffer_example :
    (after : ClientConnection) × (at after_read.1.clients 1 ≡ returned after)
    × (after.buffer ≡ rest [] (worker.buffer ++ codes "\"ping\"}\r\n{\"type\""))
    × Lacks newline after.buffer
read_client-buffer_example =
    read_client-buffer sample 1 b'"' (codes "ping\"}\r\n{\"type\"") server worker after_read refl
      read_lem

read_lines_lem_example : read_lines sample 9 1 server ≡ read_all sample 1 worker.buffer server
read_lines_lem_example = read_lines_lem sample 9 1 server worker refl (omega arith)

broadcast_lem_example :
    broadcast_to_dashboards (codes "{}") server
    ≡ sending (deliveries (codes "{}") server.clients) server
broadcast_lem_example = broadcast_lem (codes "{}") server

one_word : IsTrimmed (codes "a b")
unfolding is_space
one_word = record { starts = refl; ends = refl }

trim_unique_example : trim (codes "  " ++ (codes "a b" ++ codes "\n")) ≡ codes "a b"
trim_unique_example =
    trim_unique (codes "  ") (codes "a b") (codes "\n") (unfold is_space in (refl, (refl, tt)))
      (unfold is_space in (refl, tt)) one_word

read_string-escape_json_example :
    read_string (escape_json (codes "a\"b\n") ++ quote ∷ codes "}")
    ≡ some (codes "a\"b\n", codes "}")
read_string-escape_json_example =
    read_string-escape_json (codes "a\"b\n") (codes "}") (refl, (refl, (refl, (refl, tt))))

escape_json-Lacks_example : Lacks newline (escape_json (codes "a\nb"))
escape_json-Lacks_example = escape_json-Lacks (codes "a\nb")

sample_stod-IsDefined : (t : Bytes) → IsDefined (sample.stod t)
unfolding sample_stod
sample_stod-IsDefined t = returned-IsDefined _

-- a listening socket that `FD_SET` has no place for
abbrev crowded : MonitorServer ℕ
crowded = record server { listen_fd = some 1024 }

crowded_lem : run sample rounds crowded ≡ undefined
unfolding run fits_set
crowded_lem = refl

run_undefined_example : Outside sample sample_stod-IsDefined rounds crowded
run_undefined_example = run_undefined sample sample_stod-IsDefined rounds crowded crowded_lem
