-- ===== src/Decimal/RoundTrip.antt =====
-- `std::stoll` of the decimal text that a stream writes, both as cpp/include/common.hpp uses them.
use sys_net_mon.Base.{
  ℤ, pos, negsuc, ℕ, zero, suc, ◌+◌, ◌-◌, ◌*◌, ◌/◌, ◌%◌, ◌<◌, ◌≤◌, Bool, true, false, [], ◌∷◌, ◌++◌,
  append-nil, Bytes, ◌≡◌, ◌≢◌, refl, sym, ap, ◌∙◌, arith, returned, threw, ltb, Bool-cases, inl,
  inr, Each, take_while-append, All-append, drop_while,
}
use mathlib.Core.List.{cons-ne-nil}
use sys_net_mon.Text.{is_space, drop_spaces}
use sys_net_mon.Decimal.{
  limit, is_digit, digits, format_ℕ, format_integer, leading_digits, magnitude, in_range, unsigned,
  signed, stoll,
}

magnitude-append : (s t : Bytes) (n : ℕ) → magnitude (s ++ t) n ≡ magnitude t (magnitude s n)
unfolding magnitude
magnitude-append [] t n = refl
magnitude-append (c ∷ s) t n = magnitude-append s t (n * 10 + (c - b'0'))

digit_of : (n : ℕ) → n < 10 → is_digit (b'0' + n) ≡ true
unfolding is_digit
digit_of n h = ground arith

append-ne-nil : (s : Bytes) (c : ℕ) → s ++ c ∷ [] ≢ []
append-ne-nil [] c = cons-ne-nil c []
append-ne-nil (d ∷ s) c = cons-ne-nil d (s ++ c ∷ [])

digits_lem :
    (fuel n : ℕ)
    → n < fuel
    → (magnitude (digits fuel n) 0 ≡ n) × Each is_digit (digits fuel n) × (digits fuel n ≢ [])
unfolding digits magnitude
digits_lem zero n h = absurd (omega arith)
digits_lem (suc fuel) n h = elim (Bool-cases (ltb n 10)) [
  | inl small ↦ rw small (omega arith, (digit_of n (ground arith), tt), cons-ne-nil _ [])
  | inr large ↦
      let (value, all_digits, _) = digits_lem fuel (n / 10) (ground arith) in
      rw large (
        magnitude-append (digits fuel (n / 10)) _ 0 ∙ rw value (omega arith),
        All-append _ (digits fuel (n / 10)) _ all_digits (digit_of (n % 10) (omega arith), tt),
        append-ne-nil (digits fuel (n / 10)) (b'0' + n % 10),
      )
]

-- The decimal text of a number: digits, at least one, that spell the number.
pub format_ℕ_lem :
    (n : ℕ) → (magnitude (format_ℕ n) 0 ≡ n) × Each is_digit (format_ℕ n) × (format_ℕ n ≢ [])
unfolding format_ℕ
format_ℕ_lem n = digits_lem (suc n) n (omega arith)

leading-digits : (n : ℕ) → leading_digits (format_ℕ n) ≡ format_ℕ n
unfolding format_ℕ
leading-digits n =
    let (value, all_digits, _) = digits_lem (suc n) n (omega arith) in
    ap leading_digits (sym (append-nil (digits (suc n) n)))
    ∙ take_while-append is_digit (digits (suc n) n) [] all_digits tt

unsigned-value :
    (negative : Bool) (s : Bytes) → s ≢ [] → unsigned negative s ≡ in_range negative (magnitude s 0)
unfolding unsigned
unsigned-value negative [] h = absurd (h refl)
unsigned-value negative (c ∷ s) h = refl

unsigned-format :
    (negative : Bool) (n : ℕ)
    → unsigned negative (leading_digits (format_ℕ n)) ≡ in_range negative n
unfolding format_ℕ
unsigned-format negative n =
    let (value, all_digits, some_digit) = digits_lem (suc n) n (omega arith) in
    ap (unsigned negative) (leading-digits n)
    ∙ unsigned-value negative (digits (suc n) n) some_digit
    ∙ ap (in_range negative) value

signed-digits :
    (s : Bytes)
    → s ≢ []
    → Each is_digit s
    → signed (drop_spaces s) ≡ unsigned false (leading_digits s)
unfolding signed is_digit is_space drop_while
signed-digits [] h e = absurd (h refl)
signed-digits (c ∷ s) h (digit, _) = ground arith

signed-minus : (s : Bytes) → signed (drop_spaces (b'-' ∷ s)) ≡ unsigned true (leading_digits s)
unfolding signed drop_while is_space
signed-minus s = refl

-- `long long` has the integer.
abbrev pub Fits : ℤ → Type 0
Fits (pos n) = n < limit
Fits (negsuc n) = n < limit

pub in_range_pos : (n : ℕ) → n < limit → in_range false n ≡ returned (pos n)
unfolding in_range
in_range_pos zero h = refl
in_range_pos (suc n) h = ground arith

-- An integer that fits `long long` is read back by `std::stoll` from the decimal text that the
-- stream writes for it.
pub stoll-format_integer : (z : ℤ) → Fits z → stoll (format_integer z) ≡ returned z
unfolding stoll format_integer format_ℕ in_range
stoll-format_integer (pos n) h =
    let (value, all_digits, some_digit) = digits_lem (suc n) n (omega arith) in
    signed-digits (digits (suc n) n) some_digit all_digits
    ∙ unsigned-format false n
    ∙ in_range_pos n h
stoll-format_integer (negsuc n) h =
    signed-minus (format_ℕ (suc n)) ∙ unsigned-format true (suc n) ∙ ground arith

in_range_large : (n : ℕ) → limit ≤ n → in_range false n ≡ threw
unfolding in_range
in_range_large zero h = absurd (omega arith)
in_range_large (suc n) h = ground arith

-- The text of a natural number that `long long` does not have makes `std::stoll` throw.
pub stoll_large : (n : ℕ) → limit ≤ n → stoll (format_ℕ n) ≡ threw
unfolding stoll
stoll_large n h =
    let (value, all_digits, some_digit) = format_ℕ_lem n in
    signed-digits (format_ℕ n) some_digit all_digits ∙ unsigned-format false n ∙ in_range_large n h
