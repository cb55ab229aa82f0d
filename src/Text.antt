-- ===== src/Text.antt =====
-- cpp/include/common.hpp: `trim`, `lower_copy` and `escape_json`, over the bytes of a string in
-- the "C" locale, which the program never changes.
pub mod Trim
pub mod Escape
use sys_net_mon.Base.{
  ℕ, ◌+◌, Bool, ◌&&◌, ◌||◌, [], ◌∷◌, ◌++◌, map, reverse, Bytes, leb, ◌==◌, drop_while,
  if◌then◌else◌,
}

-- `std::isspace`
unfoldable pub is_space : ℕ → Bool
is_space c = (leb 9 c && leb c 13) || c == 32

-- `std::find_if` of the first byte that is no space, and `erase` of what stands before it
abbrev pub drop_spaces : Bytes → Bytes
drop_spaces = drop_while is_space

-- The second search goes from the end, over `rbegin` and `rend`.
unfoldable pub trim : Bytes → Bytes
trim value = reverse (drop_spaces (reverse (drop_spaces value)))

-- `std::tolower`
unfoldable pub to_lower : ℕ → ℕ
to_lower c = if leb b'A' c && leb c b'Z' then c + 32 else c

unfoldable pub lower_copy : Bytes → Bytes
lower_copy value = map to_lower value

abbrev pub quote : ℕ
quote = b'"'

abbrev pub backslash : ℕ
backslash = b'\\'

abbrev pub newline : ℕ
newline = 10

-- what one round of the loop of `escape_json` writes
unfoldable pub escape_char : ℕ → Bytes
escape_char ch =
    if ch == backslash
    then backslash ∷ backslash ∷ []
    else if ch == quote
    then backslash ∷ quote ∷ []
    else if ch == newline
    then backslash ∷ b'n' ∷ []
    else if ch == 13
    then backslash ∷ b'r' ∷ []
    else if ch == 9
    then backslash ∷ b't' ∷ []
    else ch ∷ []

-- the loop over the bytes, with what `out` holds so far
write_escaped : Bytes → Bytes → Bytes
write_escaped [] out = out
write_escaped (ch ∷ value) out = write_escaped value (out ++ escape_char ch)

unfoldable pub escape_json : Bytes → Bytes
unfolding write_escaped
escape_json value = write_escaped value []
