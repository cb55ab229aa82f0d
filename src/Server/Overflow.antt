-- ===== src/Server/Overflow.antt =====
-- cpp/server/main.cpp: a metric whose integer `long long` does not have.
use sys_net_mon.Base.{
  pos, ℕ, ◌≤◌, true, none, some, [], ◌∷◌, Bytes, codes, ◌≡◌, refl, returned, threw, at, All, str_eq,
}
use sys_net_mon.Machine.{Machine}
use sys_net_mon.Text.{quote}
use sys_net_mon.Decimal.{limit, format_integer}
use sys_net_mon.Decimal.RoundTrip.{stoll_large}
use sys_net_mon.Json.{
  json_get_string, json_get_number, json_get_integer, match_minus, match_decimal, match_digits,
}
use sys_net_mon.Json.Objects.{
  Member, text, number, object, find_member, is_key, IsMember, key-Lacks,
}
use sys_net_mon.Json.Found.{json_get_string-object, search-object, search_absent}
use sys_net_mon.Json.Numbers.{integer-Reads, integer-Lacks, quote-IsOther}
use sys_net_mon.Server.{ClientConnection, MonitorServer, is_agent}
use sys_net_mon.Server.Lines.{handle_line, dispatch, handle_metrics, read_metric}

abbrev type_member : Member
type_member = text (codes "type") (codes "metrics")

-- a metric with the memory alone
abbrev used_member : ℕ → Member
used_member n = number (codes "memory_used_mb") (format_integer (pos n))

abbrev pub memory_line : ℕ → Bytes
memory_line n = object type_member (used_member n ∷ [])

all_members : (n : ℕ) → All IsMember (type_member ∷ used_member n ∷ [])
unfolding is_key
all_members n = (
  (refl, key-Lacks (codes "metrics") refl),
  ((refl, integer-Lacks quote quote-IsOther (pos n)), tt),
)

line-type : (n : ℕ) → json_get_string (memory_line n) (codes "type") ≡ some (codes "metrics")
unfolding is_key find_member str_eq
line-type n =
    json_get_string-object type_member (used_member n ∷ []) (codes "type") (codes "type")
      (codes "metrics") refl (all_members n) refl

module _ {D : Type 0} (e : Machine D) (n : ℕ) where
  no_number :
      (key : Bytes)
      → is_key key ≡ true
      → find_member key (type_member ∷ used_member n ∷ []) ≡ none
      → json_get_number e (memory_line n) key ≡ returned none
  unfolding json_get_number
  no_number key named absent =
      rw
        (search_absent (match_minus match_decimal) key named type_member (used_member n ∷ [])
          (all_members n) absent)
        refl

  line_throws : limit ≤ n → json_get_integer (memory_line n) (codes "memory_used_mb") ≡ threw
  unfolding json_get_integer is_key find_member str_eq format_integer
  line_throws large =
      rw
        (
          search-object (match_minus match_digits) (codes "memory_used_mb") refl type_member
              (used_member n ∷ []) (used_member n) (format_integer (pos n)) (all_members n) refl
              (integer-Reads (codes "memory_used_mb") (pos n)),
          stoll_large n large,
        )
        refl

  -- A metric of an agent whose `memory_used_mb` is 2 ^ 63 or more makes `handle_line` throw, and
  -- nothing catches it.
  pub handle_line_threw :
      (index : ℕ) (s : MonitorServer D) (client : ClientConnection)
      → limit ≤ n
      → at s.clients index ≡ returned client
      → is_agent client.role ≡ true
      → handle_line e index (memory_line n) s ≡ threw
  unfolding handle_line dispatch handle_metrics read_metric is_key find_member str_eq
  handle_line_threw index s client large there role =
      rw
        (
          there,
          line-type n,
          role,
          no_number (codes "cpu_percent") refl refl,
          no_number (codes "memory_percent") refl refl,
          no_number (codes "disk_percent") refl refl,
          no_number (codes "network_rx_kbps") refl refl,
          no_number (codes "network_tx_kbps") refl refl,
          line_throws large,
        )
        refl
