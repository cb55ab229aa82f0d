-- ===== src/Decimal.antt =====
-- The decimal text of integers: `operator<<` of `std::ostream`, `std::stoll` and `std::atoi`, as
-- cpp/include/common.hpp and cpp/client/main.cpp use them.
pub mod RoundTrip
pub mod Defined
use sys_net_mon.Base.{
  ℕ, ℤ, pos, negsuc, zero, suc, ◌+◌, ◌-◌, ◌*◌, ◌/◌, ◌%◌, Bool, ◌&&◌, [], ◌∷◌, ◌++◌, Bytes, Outcome,
  returned, threw, undefined, ltb, leb, ◌==◌, if◌then◌else◌, take_while, drop_while,
}
use sys_net_mon.Text.{drop_spaces}

-- 2 ^ 63, the least magnitude that no positive `long long` has
abbrev pub limit : ℕ
limit = 9223372036854775808

unfoldable pub is_digit : ℕ → Bool
is_digit c = leb b'0' c && leb c b'9'

-- `n` bounds the number of digits that are left.
digits : ℕ → ℕ → Bytes
digits zero n = []
digits (suc fuel) n =
    let front = digits fuel (n / 10) ++ (b'0' + n % 10) ∷ [] in
    if ltb n 10 then (b'0' + n) ∷ [] else front

unfoldable pub format_ℕ : ℕ → Bytes
unfolding digits
format_ℕ n = digits (suc n) n

unfoldable pub format_integer : ℤ → Bytes
unfolding format_ℕ
format_integer (pos n) = format_ℕ n
format_integer (negsuc n) = b'-' ∷ format_ℕ (suc n)

-- the digits in front
abbrev pub leading_digits : Bytes → Bytes
leading_digits = take_while is_digit

-- what stands behind them
abbrev pub drop_digits : Bytes → Bytes
drop_digits = drop_while is_digit

-- the number that digits spell behind `n`
unfoldable pub magnitude : Bytes → ℕ → ℕ
magnitude [] n = n
magnitude (c ∷ s) n = magnitude s (n * 10 + (c - b'0'))

unfoldable pub in_range : Bool → ℕ → Outcome ℤ
in_range negative zero = returned (pos zero)
in_range negative (suc n) =
    if negative
    then (if ltb n limit then returned (negsuc n) else threw)
    else if ltb (suc n) limit
    then returned (pos (suc n))
    else threw

unsigned : Bool → Bytes → Outcome ℤ
unfolding in_range
unsigned negative [] = threw
unsigned negative (c ∷ s) = in_range negative (magnitude (c ∷ s) 0)

signed : Bytes → Outcome ℤ
unfolding unsigned
signed [] = threw
signed (c ∷ s) =
    if c == b'-'
    then unsigned Bool.true (leading_digits s)
    else if c == b'+'
    then unsigned Bool.false (leading_digits s)
    else unsigned Bool.false (leading_digits (c ∷ s))

-- `std::stoll`
unfoldable pub stoll : Bytes → Outcome ℤ
unfolding signed
stoll text = signed (drop_spaces text)

-- 2 ^ 31, the least magnitude that no positive `int` has
abbrev pub int_limit : ℕ
int_limit = 2147483648

int_range : Bool → ℕ → Outcome ℤ
int_range negative zero = returned (pos zero)
int_range negative (suc n) =
    if negative
    then (if ltb n int_limit then returned (negsuc n) else undefined)
    else if ltb (suc n) int_limit
    then returned (pos (suc n))
    else undefined

int_signed : Bytes → Outcome ℤ
unfolding int_range
int_signed [] = returned (pos 0)
int_signed (c ∷ s) =
    if c == b'-'
    then int_range Bool.true (magnitude (leading_digits s) 0)
    else if c == b'+'
    then int_range Bool.false (magnitude (leading_digits s) 0)
    else int_range Bool.false (magnitude (leading_digits (c ∷ s)) 0)

-- `std::atoi`: 0 where there is no number; the behaviour is undefined where `int` does not have it
unfoldable pub atoi : Bytes → Outcome ℤ
unfolding int_signed
atoi text = int_signed (drop_spaces text)
