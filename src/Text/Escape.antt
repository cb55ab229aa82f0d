-- ===== src/Text/Escape.antt =====
-- cpp/include/common.hpp: what `escape_json` writes, read back as JSON reads a string.
use sys_net_mon.Base.{
  ℕ, Bool, true, not, ◌||◌, Each, ltb, Option, none, some, [], ◌∷◌, ◌++◌, append-nil, append_assoc,
  Bytes, ◌≡◌, refl, sym, ap, ◌∙◌, arith, if◌then◌else◌, ◌==◌, Lacks, All-append,
}
use sys_net_mon.Text.{quote, backslash, newline, escape_char, escape_json, write_escaped}

-- the byte that stands behind a backslash in a JSON string
reveal : ℕ → Option ℕ
reveal c =
    if c == backslash
    then some backslash
    else if c == quote
    then some quote
    else if c == b'/'
    then some b'/'
    else if c == b'n'
    then some newline
    else if c == b'r'
    then some 13
    else if c == b't'
    then some 9
    else if c == b'b'
    then some 8
    else if c == b'f'
    then some 12
    else none

abbrev prepend : ℕ → Option (Bytes × Bytes) → Option (Bytes × Bytes)
prepend c none = none
prepend c (some (s, behind)) = some (c ∷ s, behind)

abbrev escaped : Option ℕ → Option (Bytes × Bytes) → Option (Bytes × Bytes)
escaped none more = none
escaped (some c) more = prepend c more

-- A JSON string behind its opening quote, as RFC 8259 has it: its bytes, and what stands behind the
-- closing quote. A control byte is no part of a string; `\u` is left out, and that the bytes are UTF-8
-- is not tested.
unfoldable pub read_string : Bytes → Option (Bytes × Bytes)
unfolding reveal
read_string [] = none
read_string (c ∷ []) = if c == quote then some ([], []) else none
read_string (c ∷ d ∷ s) =
    let behind = read_string s in
    let plain = read_string (d ∷ s) in
    if c == quote
    then some ([], d ∷ s)
    else if c == backslash
    then escaped (reveal d) behind
    else if ltb c 32
    then none
    else prepend c plain

-- no control byte, or one that `escape_json` has an escape for
abbrev pub is_writable : ℕ → Bool
is_writable c = not (ltb c 32) || c == 9 || c == 10 || c == 13

unfoldable pub all_escaped : Bytes → Bytes
all_escaped [] = []
all_escaped (c ∷ s) = escape_char c ++ all_escaped s

write_escaped-all : (s out : Bytes) → write_escaped s out ≡ out ++ all_escaped s
unfolding write_escaped all_escaped
write_escaped-all [] out = sym (append-nil out)
write_escaped-all (c ∷ s) out =
    write_escaped-all s (out ++ escape_char c) ∙ append_assoc out (escape_char c) (all_escaped s)

pub escape_json-all : (s : Bytes) → escape_json s ≡ all_escaped s
unfolding escape_json
escape_json-all s = write_escaped-all s []

read-escape_char :
    (c d : ℕ) (s : Bytes)
    → is_writable c ≡ true
    → read_string (escape_char c ++ d ∷ s) ≡ prepend c (read_string (d ∷ s))
unfolding escape_char read_string reveal
read-escape_char c d s h = ground arith

first_byte : (s behind : Bytes) → (d : ℕ) × (more : Bytes) × (s ++ quote ∷ behind ≡ d ∷ more)
first_byte [] behind = (quote, behind, refl)
first_byte (c ∷ s) behind = (c, s ++ quote ∷ behind, refl)

read-all_escaped :
    (s behind : Bytes)
    → Each is_writable s
    → read_string (all_escaped s ++ quote ∷ behind) ≡ some (s, behind)
unfolding all_escaped
read-all_escaped [] [] h = unfold read_string in refl
read-all_escaped [] (d ∷ behind) h = unfold read_string in refl
read-all_escaped (c ∷ s) behind (hc, h) =
    let (d, more, eq) = first_byte (all_escaped s) behind in
    ap read_string (
      append_assoc (escape_char c) (all_escaped s) (quote ∷ behind)
      ∙ ap (λ x. escape_char c ++ x) eq)
    ∙ read-escape_char c d more hc
    ∙ ap (λ x. prepend c (read_string x)) (sym eq)
    ∙ ap (prepend c) (read-all_escaped s behind h)

-- A string that holds no control bytes but newlines, carriage returns and tabs is, when it is
-- escaped and put in quotes, read by JSON's rules as this string, and the reading ends at the closing
-- quote.
pub read_string-escape_json :
    (s behind : Bytes)
    → Each is_writable s
    → read_string (escape_json s ++ quote ∷ behind) ≡ some (s, behind)
read_string-escape_json s behind h = rw (escape_json-all s) (read-all_escaped s behind h)

escape_char-Lacks : (c : ℕ) → Lacks newline (escape_char c)
unfolding escape_char
escape_char-Lacks c = ground arith

all_escaped-Lacks : (s : Bytes) → Lacks newline (all_escaped s)
unfolding all_escaped
all_escaped-Lacks [] = tt
all_escaped-Lacks (c ∷ s) =
    All-append _ (escape_char c) _ (escape_char-Lacks c) (all_escaped-Lacks s)

-- Escaped text holds no newline, so that it stays within its line.
pub escape_json-Lacks : (s : Bytes) → Lacks newline (escape_json s)
escape_json-Lacks s = rw (escape_json-all s) (all_escaped-Lacks s)
