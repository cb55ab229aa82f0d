-- ===== src/Tests/Commands.antt =====
-- An alert command of a dashboard at a fixed input.
use sys_net_mon.Base.{
  ℕ, [], ◌∷◌, Bytes, codes, some, returned, ◌≡◌, refl, str_eq, take_while, drop_while,
}
use sys_net_mon.Text.{escape_char, trim, is_space, to_lower, lower_copy}
use sys_net_mon.Decimal.{is_digit, magnitude}
use sys_net_mon.Json.{match_decimal, after_fraction}
use sys_net_mon.Events.{AlertRule}
use sys_net_mon.Alert.{
  match_alert, parse_alert_command, match_word, is_word, match_end, metric_names, names_memory,
}
use sys_net_mon.Agent.Registration.{IsPlain}
use sys_net_mon.Server.Lines.{handle_line}
use sys_net_mon.Server.Commands.{command_line, news, handle_line-command_line}
use sys_net_mon.Sample.{sample, sample_stod, server, viewer, rule}

abbrev low_memory : Bytes
low_memory = codes "/alert mem < 40"

abbrev low_rule : AlertRule ℕ
low_rule = record {
  raw_command = low_memory;
  metric_key = codes "memory_percent";
  display_metric = codes "Memory";
  threshold = 4000;
  comparison = b'<';
}

low_memory-IsPlain : IsPlain low_memory
unfolding escape_char
low_memory-IsPlain = (
  refl,
  (
    refl,
    (
      refl,
      (
        refl,
        (refl, (refl, (refl, (refl, (refl, (refl, (refl, (refl, (refl, (refl, (refl, tt))))))))))),
      ),
    ),
  ),
)

parse_low_memory : parse_alert_command sample low_memory ≡ returned (some low_rule)
unfolding parse_alert_command match_alert sample_stod trim drop_while is_space to_lower match_word
    take_while is_word match_decimal is_digit match_end after_fraction metric_names str_eq
    lower_copy magnitude names_memory
parse_low_memory = refl

-- The dashboard at index 0 sends the command.
handle_line-command_line_example :
    handle_line sample 0 (command_line low_memory) server
    ≡ returned (record server {
      alert_rules = rule ∷ low_rule ∷ [];
      readings = 1;
      sent = news sample low_rule viewer server;
    })
handle_line-command_line_example =
    handle_line-command_line sample low_memory low_memory-IsPlain 0 server viewer low_rule refl
      parse_low_memory
