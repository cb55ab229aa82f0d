-- ===== src/Decimal/Defined.antt =====
-- How `std::stoll` can end, as the functions of cpp/include/common.hpp call it.
use sys_net_mon.Base.{ℕ, zero, suc, Bool, true, false, [], ◌∷◌, Bytes, arith, IsDefined}
use sys_net_mon.Text.{drop_spaces}
use sys_net_mon.Decimal.{leading_digits, in_range, unsigned, signed, stoll}

in_range-IsDefined : (negative : Bool) (n : ℕ) → IsDefined (in_range negative n)
unfolding in_range
in_range-IsDefined negative zero = λ p. cc
in_range-IsDefined negative (suc n) = λ p. ground arith

unsigned-IsDefined : (negative : Bool) (s : Bytes) → IsDefined (unsigned negative s)
unfolding unsigned
unsigned-IsDefined negative [] = λ p. cc
unsigned-IsDefined negative (c ∷ s) = in_range-IsDefined negative _

signed-IsDefined : (s : Bytes) → IsDefined (signed s)
unfolding signed
signed-IsDefined [] = λ p. cc
signed-IsDefined (c ∷ s) = λ p. ground (
  arith,
  unsigned-IsDefined true (leading_digits s),
  unsigned-IsDefined false (leading_digits s),
  unsigned-IsDefined false (leading_digits (c ∷ s)),
)

pub stoll-IsDefined : (t : Bytes) → IsDefined (stoll t)
unfolding stoll
stoll-IsDefined t = signed-IsDefined (drop_spaces t)
