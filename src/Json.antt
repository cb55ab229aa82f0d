-- ===== src/Json.antt =====
-- cpp/include/common.hpp: `json_get_string`, `json_get_number` and `json_get_integer`.
-- `Maybe` is the library's `Option`. Each function searches the payload for the leftmost place at
-- which one regular expression matches. No two neighbours in these expressions can match the same
-- byte, so what a greedy match takes is never given back, and a match needs no backtracking.
pub mod Objects
pub mod Found
pub mod Numbers
use sys_net_mon.Base.{
  ℤ, Option, none, some, [], ◌∷◌, ◌++◌, Bytes, Outcome, returned, ◌>>=◌, ◌==◌, if◌then◌else◌,
  and_then,
}
use sys_net_mon.Machine.{Machine}
use sys_net_mon.Text.{drop_spaces, quote}
use sys_net_mon.Decimal.{leading_digits, drop_digits, stoll}

-- what stands behind a literal part of a pattern
unfoldable pub strip_prefix : Bytes → Bytes → Option Bytes
strip_prefix [] s = some s
strip_prefix (p ∷ ps) [] = none
strip_prefix (p ∷ ps) (c ∷ s) = if p == c then strip_prefix ps s else none

-- `\s*:\s*`
unfoldable pub match_colon : Bytes → Option Bytes
unfolding strip_prefix
match_colon s = and_then (strip_prefix (b':' ∷ []) (drop_spaces s)) λ rest. some (drop_spaces rest)

-- `"key"\s*:\s*`; a key of the program holds letters and `_` only, so it matches itself
unfoldable pub match_key : Bytes → Bytes → Option Bytes
match_key key s = and_then (strip_prefix (quote ∷ key ++ quote ∷ []) s) match_colon

-- `([^"]*)"`, the group
unfoldable pub until_quote : Bytes → Option Bytes
until_quote [] = none
until_quote (c ∷ s) = if c == quote then some [] else and_then (until_quote s) λ t. some (c ∷ t)

-- `"([^"]*)"`
unfoldable pub match_string : Bytes → Option Bytes
unfolding until_quote strip_prefix
match_string s = and_then (strip_prefix (quote ∷ []) s) until_quote

unfoldable pub non_empty : Bytes → Option Bytes
non_empty [] = none
non_empty (c ∷ s) = some (c ∷ s)

-- `[0-9]+`
unfoldable pub match_digits : Bytes → Option Bytes
unfolding non_empty
match_digits s = non_empty (leading_digits s)

-- `(?:\.[0-9]+)?`
unfoldable pub match_fraction : Bytes → Bytes
unfolding match_digits
match_fraction [] = []
match_fraction (c ∷ s) =
    if c == b'.' then elim (match_digits s) [ none ↦ [] | some ds ↦ b'.' ∷ ds ] else []

-- what stands behind the fraction
unfoldable pub after_fraction : Bytes → Bytes
unfolding match_digits
after_fraction [] = []
after_fraction (c ∷ s) =
    if c == b'.' then elim (match_digits s) [ none ↦ c ∷ s | some ds ↦ drop_digits s ] else c ∷ s

-- `[0-9]+(?:\.[0-9]+)?`
unfoldable pub match_decimal : Bytes → Option Bytes
unfolding match_digits match_fraction
match_decimal s = and_then (match_digits s) λ ds. some (ds ++ match_fraction (drop_digits s))

-- `-?` before another pattern
unfoldable pub match_minus : (Bytes → Option Bytes) → Bytes → Option Bytes
match_minus m [] = m []
match_minus m (c ∷ s) = if c == b'-' then (and_then (m s) λ t. some (b'-' ∷ t)) else m (c ∷ s)

-- `std::regex_search`: the leftmost match
unfoldable pub regex_search : (Bytes → Option Bytes) → Bytes → Option Bytes
regex_search m [] = m []
regex_search m (c ∷ s) =
    let later = regex_search m s in elim (m (c ∷ s)) [ none ↦ later | some t ↦ some t ]

-- the group of a whole pattern: the key, then the value
unfoldable pub field : (Bytes → Option Bytes) → Bytes → Bytes → Option Bytes
unfolding match_key match_colon
field m key s = and_then (match_key key s) m

unfoldable pub json_get_string : Bytes → Bytes → Option Bytes
json_get_string payload key = regex_search (field match_string key) payload

abbrev pub convert {ℓ} : {A : Type ℓ} → (Bytes → Outcome A) → Option Bytes → Outcome (Option A)
convert f none = returned none
convert f (some t) = do v ← f t; returned (some v)

unfoldable pub json_get_number : {D : Type 0} → Machine D → Bytes → Bytes → Outcome (Option D)
json_get_number e payload key =
    convert e.stod (regex_search (field (match_minus match_decimal) key) payload)

unfoldable pub json_get_integer : Bytes → Bytes → Outcome (Option ℤ)
json_get_integer payload key =
    convert stoll (regex_search (field (match_minus match_digits) key) payload)
