-- ===== src/Server/Commands.antt =====
-- cpp/server/main.cpp and python/dashboard/services.py: what the server makes of a line with an alert
-- command, as `send_command` of the dashboard writes it.
use sys_net_mon.Base.{
  ℕ, true, Option, none, some, List, [], ◌∷◌, ◌++◌, append_assoc, Bytes, codes, ◌≡◌, refl, ap, ◌∙◌,
  arith, returned, at, drop_while, drop_while_exact, str_eq, and_then, ◌+◌,
}
use sys_net_mon.Machine.{Machine}
use sys_net_mon.Text.{quote, is_space, drop_spaces, trim, lower_copy}
use sys_net_mon.Text.Trim.{IsTrimmed-trim}
use sys_net_mon.Json.{regex_search, field, match_string, json_get_string, strip_prefix}
use sys_net_mon.Events.{AlertRule, chat_event_to_json, rules_event_to_json, ack_event_to_json}
use sys_net_mon.Alert.{
  Groups, match_alert, parse_alert_command, read_rule, strip_word, match_spaces, match_word,
}
use sys_net_mon.Alert.Matching.{match_alert_iff}
use sys_net_mon.Alert.Trimmed.{IsAlert-trim}
use sys_net_mon.Agent.Registration.{IsPlain, match_string-IsPlain, search_hit}
use sys_net_mon.Server.{ClientConnection, MonitorServer, send_to}
use sys_net_mon.Server.Broadcast.{deliveries, broadcast_lem}
use sys_net_mon.Server.Lines.{
  starts_with, rule_message, add_rule, finish_alert, handle_command, handle_line,
}

-- the line of `send_command`, for a text of printable ASCII characters that needs no escape
unfoldable pub command_line : Bytes → Bytes
command_line text = codes "{\"type\": \"command\", \"text\": \"" ++ (text ++ codes "\"}")

-- A text whose first word is a word of the pattern starts with it in lower case.
strip_word-starts_with :
    (word s rest : Bytes) → strip_word word s ≡ some rest → starts_with word (lower_copy s) ≡ true
unfolding strip_word starts_with strip_prefix lower_copy
strip_word-starts_with [] s rest h = refl
strip_word-starts_with (p ∷ ps) [] rest h = absurd (ground arith)
strip_word-starts_with (p ∷ ps) (c ∷ s) rest h =
    let later = strip_word-starts_with ps s rest in ground arith

and_then-some :
    {A B : Type 0} (m : Option A) (f : A → Option B) (b : B)
    → and_then m f ≡ some b
    → (a : A) × (m ≡ some a)
and_then-some none f b h = absurd (ground arith)
and_then-some (some a) f b h = (a, refl)

-- A text that the pattern matches starts with `/alert` when it is trimmed and in lower case.
match_alert-starts_with :
    (text : Bytes) (groups : Groups)
    → match_alert text ≡ some groups
    → starts_with (codes "/alert") (lower_copy (trim text)) ≡ true
unfolding match_alert
match_alert-starts_with text (word, comparison, number) h =
    let again = (match_alert_iff (trim text) word comparison number).1 (
      IsAlert-trim text word comparison number
        ((match_alert_iff text word comparison number).0 h)) in
    let (rest, found) =
      and_then-some (strip_word (codes "/alert") (drop_spaces (trim text)))
        (λ left. and_then (match_spaces left) match_word) (word, comparison, number) again in
    let same : drop_spaces (trim text) ≡ trim text =
      drop_while_exact is_space [] (trim text) tt (IsTrimmed-trim text).starts in
    strip_word-starts_with (codes "/alert") (trim text) rest (rw same at found)

module _ {D : Type 0} (e : Machine D) where
  read_rule-some :
      (text : Bytes) (groups : Option Groups) (rule : AlertRule D)
      → read_rule e text groups ≡ returned (some rule)
      → (g : Groups) × (groups ≡ some g)
  unfolding read_rule
  read_rule-some text none rule h = absurd (ground arith)
  read_rule-some text (some g) rule h = (g, refl)

  -- a text that is parsed is taken for an alert command
  parsed-starts_with :
      (text : Bytes) (rule : AlertRule D)
      → parse_alert_command e text ≡ returned (some rule)
      → starts_with (codes "/alert") (lower_copy (trim text)) ≡ true
  unfolding parse_alert_command
  parsed-starts_with text rule h =
      let (groups, matched) = read_rule-some text (match_alert text) rule h in
      match_alert-starts_with text groups matched

  -- what is sent when a rule is added: a chat message and all rules to each dashboard, and an
  -- acknowledgement to the client
  abbrev pub news : AlertRule D → ClientConnection → MonitorServer D → List (ℕ × Bytes)
  news rule client s =
      deliveries (chat_event_to_json (rule_message e rule s.readings)) s.clients
      ++ (deliveries (rules_event_to_json e (s.alert_rules ++ rule ∷ [])) s.clients
          ++ (client.fd, ack_event_to_json (codes "rule added: " ++ rule.raw_command)) ∷ [])

  add_rule_lem :
      (rule : AlertRule D) (client : ClientConnection) (s : MonitorServer D)
      → add_rule e client rule s ≡ record s {
        alert_rules = s.alert_rules ++ rule ∷ [];
        readings = s.readings + 1;
        sent = s.sent ++ news rule client s;
      }
  unfolding add_rule send_to
  add_rule_lem rule client s =
      let chat = deliveries (chat_event_to_json (rule_message e rule s.readings)) s.clients in
      let rules = deliveries (rules_event_to_json e (s.alert_rules ++ rule ∷ [])) s.clients in
      let ack = (client.fd, ack_event_to_json (codes "rule added: " ++ rule.raw_command)) ∷ [] in
      rw (broadcast_lem, broadcast_lem)
        (λ i. record s {
          alert_rules = s.alert_rules ++ rule ∷ [];
          readings = s.readings + 1;
          sent =
              (append_assoc (s.sent ++ chat) rules ack ∙ append_assoc s.sent chat (rules ++ ack)) i;
        })

  module _ (text : Bytes) (plain : IsPlain text) where
    command-type : json_get_string (command_line text) (codes "type") ≡ some (codes "command")
    unfolding json_get_string regex_search field match_string drop_while is_space command_line
    command-type = refl

    found_text :
        field match_string (codes "text") (codes "\"text\": \"" ++ (text ++ codes "\"}"))
        ≡ some text
    unfolding field drop_while is_space
    found_text = match_string-IsPlain text (codes "}") plain

    command-text : json_get_string (command_line text) (codes "text") ≡ some text
    unfolding json_get_string regex_search field drop_while is_space command_line
    command-text =
        search_hit (field match_string (codes "text")) quote
          (codes "text\": \"" ++ (text ++ codes "\"}")) text found_text

    -- A line with a text that `parse_alert_command` accepts, from any client, adds its rule behind the
    -- others, tells each dashboard of it and of all rules, and acknowledges it to the client; nothing
    -- else changes but the clock. The text needs no escape.
    pub handle_line-command_line :
        (index : ℕ) (s : MonitorServer D) (client : ClientConnection) (rule : AlertRule D)
        → at s.clients index ≡ returned client
        → parse_alert_command e text ≡ returned (some rule)
        → handle_line e index (command_line text) s
          ≡ returned (record s {
            alert_rules = s.alert_rules ++ rule ∷ [];
            readings = s.readings + 1;
            sent = s.sent ++ news rule client s;
          })
    unfolding handle_line handle_command finish_alert str_eq
    handle_line-command_line index s client rule there parsed =
        rw (there, command-type, command-text, parsed-starts_with text rule parsed, parsed)
          (ap (λ t. returned t) (add_rule_lem rule client s))
