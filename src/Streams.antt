-- ===== src/Streams.antt =====
-- What `std::istream` does for cpp/include/metrics.hpp: `std::getline`, and `>>` into strings,
-- `unsigned long long` and `long long`. A stream is the text that is left, or `none` once it has
-- failed: from then on `>>` changes nothing and leaves its variable at the initial 0.
pub mod Numbers
pub mod Lines
use sys_net_mon.Base.{
  ◌&&◌, ℕ, ℤ, zero, suc, ◌-◌, ◌^◌, Bool, true, false, not, Option, none, some, List, [], ◌∷◌, Bytes,
  if◌then◌else◌, ltb, ◌==◌, take_while, drop_while, and_then, Outcome, returned, threw, undefined,
}
use sys_net_mon.Text.{is_space, drop_spaces, newline}
use sys_net_mon.Decimal.{leading_digits, drop_digits, magnitude, is_digit, limit, in_range}

-- 2 ^ 64, the number of values of `unsigned long long`
abbrev pub word : ℕ
word = 18446744073709551616

abbrev pub Stream : Type 0
Stream = Option Bytes

abbrev pub is_no_space : ℕ → Bool
is_no_space c = not (is_space c)

-- a byte was there
unfoldable pub token_of : Bytes → Option (Bytes × Bytes)
token_of [] = none
token_of (c ∷ s) = some (take_while is_no_space (c ∷ s), drop_while is_no_space (c ∷ s))

-- `in >> string`: the word, and what is left
unfoldable pub read_token : Bytes → Option (Bytes × Bytes)
unfolding token_of
read_token text = token_of (drop_spaces text)

-- the value of digits: a number that `unsigned long long` does not have fails the stream
unfoldable pub unsigned_value : Bool → Bytes → Bytes → ℕ × Stream
unsigned_value negative [] rest = (0, none)
unsigned_value negative (c ∷ s) rest =
    let n = magnitude (c ∷ s) 0 in
    if ltb n word
    then (if negative && not (n == 0) then word - n else n, some rest)
    else (word - 1, none)

-- an optional sign before the digits; `-` is accepted, and the value wraps around
unfoldable pub unsigned_of : Bytes → ℕ × Stream
unfolding unsigned_value
unsigned_of [] = (0, none)
unsigned_of (c ∷ s) =
    if c == b'-'
    then unsigned_value true (leading_digits s) (drop_digits s)
    else if c == b'+'
    then unsigned_value false (leading_digits s) (drop_digits s)
    else unsigned_value false (leading_digits (c ∷ s)) (drop_digits (c ∷ s))

-- `in >> n` for an `unsigned long long n = 0`: its value after it, and the stream
unfoldable pub read_unsigned : Stream → ℕ × Stream
unfolding unsigned_of
read_unsigned none = (0, none)
read_unsigned (some text) = unsigned_of (drop_spaces text)

-- `in >> a >> b >> …` for as many variables: their values
unfoldable pub read_numbers : ℕ → Stream → List ℕ
read_numbers zero stream = []
read_numbers (suc count) stream =
    let (n, rest) = read_unsigned stream in n ∷ read_numbers count rest

-- a number that `long long` does not have fails the stream
unfoldable pub accept : Bytes → Outcome ℤ → Option (ℤ × Bytes)
accept rest (returned z) = some (z, rest)
accept rest threw = none
accept rest undefined = none

-- the value of digits; without digits the stream fails
unfoldable pub integer_value : Bool → Bytes → Bytes → Option (ℤ × Bytes)
unfolding accept
integer_value negative [] rest = none
integer_value negative (c ∷ s) rest = accept rest (in_range negative (magnitude (c ∷ s) 0))

unfoldable pub integer_of : Bytes → Option (ℤ × Bytes)
unfolding integer_value
integer_of [] = none
integer_of (c ∷ s) =
    if c == b'-'
    then integer_value true (leading_digits s) (drop_digits s)
    else if c == b'+'
    then integer_value false (leading_digits s) (drop_digits s)
    else integer_value false (leading_digits (c ∷ s)) (drop_digits (c ∷ s))

-- `in >> n` for a `long long`
unfoldable pub read_integer : Bytes → Option (ℤ × Bytes)
unfolding integer_of
read_integer text = integer_of (drop_spaces text)

-- a byte in front of the first line
unfoldable pub put_front : ℕ → List Bytes → List Bytes
put_front c [] = (c ∷ []) ∷ []
put_front c (line ∷ lines) = (c ∷ line) ∷ lines

-- the lines that `std::getline` returns one after the other, the last one with or without a newline
unfoldable pub text_lines : Bytes → List Bytes
unfolding put_front
text_lines [] = []
text_lines (c ∷ s) =
    let lines = text_lines s in if c == newline then [] ∷ lines else put_front c lines

-- `s.find(c)`, `s.substr(0, …)` and `s.substr(… + 1)`
unfoldable pub cut_at : ℕ → Bytes → Option (Bytes × Bytes)
cut_at mark [] = none
cut_at mark (c ∷ s) =
    if c == mark
    then some ([], s)
    else and_then (cut_at mark s) λ parts. some (c ∷ parts.0, parts.1)
