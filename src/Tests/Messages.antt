-- ===== src/Tests/Messages.antt =====
-- Messages between the agent and the server at fixed inputs.
use sys_net_mon.Base.{
  ap, ◌∙◌, ◌++◌, has_byte, check_Lacks, ℕ, pos, ◌+◌, ◌/◌, ◌%◌, ◌<◌, ◌≤◌, true, false, some, List,
  [], ◌∷◌, Bytes, codes, ◌≡◌, refl, arith, returned, threw, take_while, drop_while, All, str_eq,
  str_eq_iff, Bool, ◌&&◌, map,
}
use sys_net_mon.Text.{quote, escape_char}
use sys_net_mon.Decimal.{is_digit, magnitude, format_ℕ}
use sys_net_mon.Decimal.RoundTrip.{format_ℕ_lem}
use sys_net_mon.Json.{json_get_string}
use sys_net_mon.Json.Objects.{Member, text, number, object, find_member, is_key, IsMember}
use sys_net_mon.Json.Found.{json_get_string-object}
use sys_net_mon.Json.Numbers.{IsFixed}
use sys_net_mon.Agent.{register_message, metrics_payload, substr_one}
use sys_net_mon.Agent.Received.{stored, with_agent, read_chunks-session}
use sys_net_mon.Agent.Registration.{IsPlain}
use sys_net_mon.Agent.Measured.{Prints, IsSendable, handle_line-metrics_payload}
use sys_net_mon.Server.{ClientConnection, MonitorServer, unknown, tick, is_agent}
use sys_net_mon.Server.Stream.{joined, read_chunks, written_lines}
use sys_net_mon.Server.Lines.{handle_line, store_metric}
use sys_net_mon.Server.Rounds.{watched, fits_set}
use sys_net_mon.Server.Overflow.{memory_line, handle_line_threw}
use sys_net_mon.Platform.{highest_fd}
use sys_net_mon.Platform.Posix
use sys_net_mon.Platform.Windows
use sys_net_mon.Platform.Shutdown.{close_all}
use sys_net_mon.Platform.Posix.{socket_select_width}
use sys_net_mon.Platform.Width.{select_width-watched}
use sys_net_mon.Tests.Agent.{edge-IsPlain, parsed}
use sys_net_mon.Sample.{sample, sample_fixed, sample_stod, hundredths, metric, server, worker}

-- a chat message in which a key also stands as a value
abbrev from_member : Member
from_member = text (codes "from") (codes "text")

abbrev chat : List Member
chat = from_member ∷ number (codes "n") (codes "12") ∷ text (codes "text") (codes "hi: there") ∷ []

chat-IsMember : All IsMember (text (codes "type") (codes "chat") ∷ chat)
unfolding is_key has_byte
chat-IsMember = (
  (refl, check_Lacks quote (codes "chat") refl),
  (
    (refl, check_Lacks quote (codes "text") refl),
    (
      (refl, check_Lacks quote (codes "12") refl),
      ((refl, check_Lacks quote (codes "hi: there") refl), tt),
    ),
  ),
)

json_get_string-object_example :
    json_get_string (object (text (codes "type") (codes "chat")) chat) (codes "text")
    ≡ some (codes "hi: there")
unfolding find_member is_key str_eq
json_get_string-object_example =
    json_get_string-object (text (codes "type") (codes "chat")) chat (codes "text") (codes "text")
      (codes "hi: there") refl chat-IsMember refl

pub sample_fixed-IsFixed : (v : ℕ) → IsFixed (sample_fixed 2 v)
unfolding sample_fixed is_digit
sample_fixed-IsFixed v =
    let (_, all_digits, some_digit) = format_ℕ_lem (v / 100) in
    record {
      negative = false;
      whole = format_ℕ (v / 100);
      fraction = (b'0' + v / 10 % 10) ∷ (b'0' + v % 10) ∷ [];
      whole_digits = record { some_digit = some_digit; all_digits = all_digits };
      fraction_digits = record {
        some_digit = λ p. cc;
        all_digits = (ground arith, (ground arith, tt));
      };
      text_eq = refl;
    }

prints : (v : ℕ) → sample_stod (sample_fixed 2 v) ≡ returned v → Prints sample (λ d. d) v
prints v h = record { fixed_text = sample_fixed-IsFixed v; reads = h }

-- `escape_char` leaves each byte
abbrev all_plain : Bytes → Bool
all_plain [] = true
all_plain (c ∷ s) = str_eq (escape_char c) (c ∷ []) && all_plain s

check_IsPlain : (s : Bytes) → all_plain s ≡ true → IsPlain s
check_IsPlain [] h = tt
check_IsPlain (c ∷ s) h = ground (arith, str_eq_iff (escape_char c) (c ∷ []), check_IsPlain s)

metric-IsSendable : IsSendable sample (λ d. d) metric
unfolding sample_stod sample_fixed hundredths is_digit magnitude format_ℕ take_while drop_while
    escape_char str_eq
metric-IsSendable = record {
  host_plain = edge-IsPlain;
  timestamp_plain = check_IsPlain (codes "2026-01-02T03:04:05Z") refl;
  cpu = prints 9150 refl;
  memory = prints 4025 refl;
  disk = prints 1200 refl;
  rx = prints 50 refl;
  tx = prints 7 refl;
  memory_used = omega arith;
  memory_total = omega arith;
  disk_used = omega arith;
  disk_total = omega arith;
}

handle_line-metrics_payload_example :
    handle_line sample 1 (metrics_payload sample metric) server
    ≡ returned (store_metric sample metric (tick server))
unfolding is_agent
handle_line-metrics_payload_example =
    handle_line-metrics_payload sample (λ d. d) metric metric-IsSendable 1 server worker refl refl

handle_line_threw_example : handle_line sample 1 (memory_line 9223372036854775808) server ≡ threw
unfolding is_agent
handle_line_threw_example =
    handle_line_threw sample 9223372036854775808 1 server worker (omega arith) refl refl

select_width-watched_example :
    All (λ fd. fd < socket_select_width (highest_fd 3 server.clients)) (watched server)
    × (socket_select_width (highest_fd 3 server.clients) ≤ 1024)
unfolding fits_set
select_width-watched_example = select_width-watched server 3 refl refl

-- POSIX has none in a negative number
posix_closes : close_all Posix.sockets (pos 4 ∷ Posix.invalid_socket ∷ []) [] ≡ pos 4 ∷ []
unfolding Posix.sockets Posix.close_socket Posix.is_socket_valid
posix_closes = refl

-- Windows has no socket in `INVALID_SOCKET`
windows_closes : close_all Windows.sockets (pos 4 ∷ pos 18446744073709551615 ∷ []) [] ≡ pos 4 ∷ []
unfolding Windows.sockets Windows.close_socket Windows.is_socket_valid
windows_closes = refl

-- a connection that was just accepted
abbrev pub newcomer : ClientConnection
newcomer = record {
  fd = 6;
  role = unknown;
  peer_label = codes "10.0.0.6:5002";
  declared_host = [];
  buffer = [];
}

abbrev pub joined_server : MonitorServer ℕ
joined_server = record server { clients = server.clients ++ newcomer ∷ [] }

abbrev session : Bytes
session =
    written_lines (register_message parsed ∷ map (metrics_payload sample) (metric ∷ metric ∷ []))

-- one byte at a time
abbrev pub single_bytes : Bytes → List (ℕ × Bytes)
single_bytes [] = []
single_bytes (c ∷ s) = (c, []) ∷ single_bytes s

pub joined-single_bytes : (s : Bytes) → joined (single_bytes s) ≡ s
joined-single_bytes [] = refl
joined-single_bytes (c ∷ s) = ap (λ x. c ∷ x) (joined-single_bytes s)

starts : b'{' ∷ substr_one session ≡ session
unfolding register_message substr_one
starts = refl

read_chunks-session_example :
    read_chunks sample 2 ((b'{', []) ∷ single_bytes (substr_one session)) joined_server
    ≡ returned (
        stored sample
          (λ d. d)
          (metric ∷ metric ∷ [])
          (with_agent sample (λ d. d) parsed 2 newcomer joined_server))
read_chunks-session_example =
    read_chunks-session sample (λ d. d) parsed 2 joined_server newcomer (metric ∷ metric ∷ []) b'{'
      [] (single_bytes (substr_one session)) refl refl edge-IsPlain
      (metric-IsSendable, (metric-IsSendable, tt))
      (ap (λ x. b'{' ∷ x) (joined-single_bytes (substr_one session)) ∙ starts)
