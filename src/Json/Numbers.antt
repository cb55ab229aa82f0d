-- ===== src/Json/Numbers.antt =====
-- cpp/include/common.hpp: the numbers that `json_get_number` and `json_get_integer` find in the text
-- that streams write.
use sys_net_mon.Base.{
  sym, ℤ, pos, negsuc, ℕ, suc, Bool, true, false, Option, some, List, [], ◌∷◌, ◌++◌, append_assoc,
  Bytes, ◌≡◌, ◌≢◌, refl, ap, ◌∙◌, arith, returned, Each, Stops, All, take_while-append,
  drop_while_exact, drop_while, Lacks, All-append,
}
use sys_net_mon.Machine.{Machine}
use sys_net_mon.Text.{quote, newline, is_space, drop_spaces}
use sys_net_mon.Decimal.{is_digit, format_ℕ, format_integer}
use sys_net_mon.Decimal.RoundTrip.{format_ℕ_lem, Fits, stoll-format_integer}
use sys_net_mon.Json.{
  non_empty, match_digits, match_fraction, match_decimal, match_minus, json_get_number,
  json_get_integer,
}
use sys_net_mon.Json.Objects.{Member, number, object, find_member, is_key, IsMember, is_end}
use sys_net_mon.Json.Found.{Reads, search-object}

-- some digits
pub record IsDigits (s : Bytes) : Type 0 where
  pub some_digit : s ≢ []
  pub all_digits : Each is_digit s

abbrev pub signed_text : Bool → Bytes → Bytes
signed_text true s = b'-' ∷ s
signed_text false s = s

-- the text of a finite `double` in fixed notation, with digits behind the point
pub record IsFixed (s : Bytes) : Type 0 where
  pub negative : Bool
  pub whole : Bytes
  pub fraction : Bytes
  pub whole_digits : IsDigits whole
  pub fraction_digits : IsDigits fraction
  pub text_eq : s ≡ signed_text negative (whole ++ b'.' ∷ fraction)

non_empty-some : (s : Bytes) → s ≢ [] → non_empty s ≡ some s
unfolding non_empty
non_empty-some [] h = absurd (h refl)
non_empty-some (c ∷ s) h = refl

match_digits-append :
    (s rest : Bytes) → IsDigits s → Stops is_digit rest → match_digits (s ++ rest) ≡ some s
unfolding match_digits
match_digits-append s rest h stop =
    ap non_empty (take_while-append is_digit s rest h.all_digits stop)
    ∙ non_empty-some s h.some_digit

match_decimal-append :
    (whole fraction rest : Bytes)
    → IsDigits whole
    → IsDigits fraction
    → Stops is_digit rest
    → match_decimal (whole ++ b'.' ∷ (fraction ++ rest)) ≡ some (whole ++ b'.' ∷ fraction)
unfolding match_decimal match_fraction
match_decimal-append whole fraction rest hw hf stop =
    rw
      (
        match_digits-append whole (b'.' ∷ (fraction ++ rest)) hw (unfold is_digit in refl),
        drop_while_exact is_digit whole (b'.' ∷ (fraction ++ rest)) hw.all_digits
            (unfold is_digit in refl),
        match_digits-append fraction rest hf stop,
      )
      refl

-- A pattern with a sign in front reads the text of a number, and no space is dropped.
signed_match :
    (m : Bytes → Option Bytes) (negative : Bool) (s t r : Bytes)
    → IsDigits s
    → m (s ++ t) ≡ some r
    → match_minus m (drop_spaces (signed_text negative (s ++ t))) ≡ some (signed_text negative r)
unfolding match_minus drop_while is_space is_digit
signed_match m true s t r h eq = rw eq refl
signed_match m false [] t r h eq = absurd (h.some_digit refl)
signed_match m false (c ∷ s) t r h eq = let digit = h.all_digits.0 in ground arith

end_stops : (c : ℕ) → is_end c ≡ true → is_digit c ≡ false
unfolding is_digit
end_stops c h = ground arith

append-signed :
    (negative : Bool) (s t : Bytes) → signed_text negative s ++ t ≡ signed_text negative (s ++ t)
append-signed true s t = refl
append-signed false s t = refl

fixed-Reads : (key s : Bytes) → IsFixed s → Reads (match_minus match_decimal) (number key s) s
fixed-Reads key s h c rest end =
    rw
      (
        h.text_eq,
        append-signed h.negative (h.whole ++ b'.' ∷ h.fraction) (c ∷ rest),
        append_assoc h.whole (b'.' ∷ h.fraction) (c ∷ rest),
      )
      (signed_match match_decimal h.negative h.whole (b'.' ∷ (h.fraction ++ c ∷ rest)) _
        h.whole_digits
        (match_decimal-append h.whole h.fraction (c ∷ rest) h.whole_digits h.fraction_digits
          (end_stops c end)))

integer_parts :
    (z : ℤ) → (negative : Bool) × (n : ℕ) × (format_integer z ≡ signed_text negative (format_ℕ n))
unfolding format_integer
integer_parts (pos n) = (false, n, refl)
integer_parts (negsuc n) = (true, suc n, refl)

format_ℕ-IsDigits : (n : ℕ) → IsDigits (format_ℕ n)
format_ℕ-IsDigits n =
    let (_, all_digits, some_digit) = format_ℕ_lem n in
    record { some_digit = some_digit; all_digits = all_digits }

pub integer-Reads :
    (key : Bytes) (z : ℤ)
    → Reads (match_minus match_digits) (number key (format_integer z)) (format_integer z)
integer-Reads key z c rest end =
    let (negative, n, eq) = integer_parts z in
    rw (eq, append-signed negative (format_ℕ n) (c ∷ rest))
      (signed_match match_digits negative (format_ℕ n) (c ∷ rest) _ (format_ℕ-IsDigits n)
        (match_digits-append (format_ℕ n) (c ∷ rest) (format_ℕ-IsDigits n) (end_stops c end)))

-- a byte that stands in no number
pub record IsOther (b : ℕ) : Type 0 where
  pub no_digit : is_digit b ≡ false
  pub no_minus : b ≢ b'-'
  pub no_point : b ≢ b'.'

pub quote-IsOther : IsOther quote
unfolding is_digit
quote-IsOther = record {
  no_digit = refl;
  no_minus = λ p. ground arith;
  no_point = λ p. ground arith;
}

pub newline-IsOther : IsOther newline
unfolding is_digit
newline-IsOther = record {
  no_digit = refl;
  no_minus = λ p. ground arith;
  no_point = λ p. ground arith;
}

module _ (b : ℕ) (other : IsOther b) where
  Each-Lacks : (s : Bytes) → Each is_digit s → Lacks b s
  unfolding is_digit
  Each-Lacks [] h = tt
  Each-Lacks (c ∷ s) (hc, h) = let no = other.no_digit in (λ p. ground arith, Each-Lacks s h)

  signed-Lacks : (negative : Bool) (s : Bytes) → Lacks b s → Lacks b (signed_text negative s)
  signed-Lacks true s h = (λ p. other.no_minus (sym p), h)
  signed-Lacks false s h = h

  pub fixed-Lacks : (s : Bytes) → IsFixed s → Lacks b s
  fixed-Lacks s h = rw (h.text_eq) (
      signed-Lacks h.negative (h.whole ++ b'.' ∷ h.fraction) (
        All-append _ h.whole (b'.' ∷ h.fraction) (Each-Lacks h.whole h.whole_digits.all_digits)
          (λ p. other.no_point (sym p), Each-Lacks h.fraction h.fraction_digits.all_digits)))

  pub integer-Lacks : (z : ℤ) → Lacks b (format_integer z)
  integer-Lacks z =
      let (negative, n, eq) = integer_parts z in
      rw eq (
        signed-Lacks negative (format_ℕ n)
          (Each-Lacks (format_ℕ n) (format_ℕ-IsDigits n).all_digits))

module _ (mem : Member) (ms : List Member) (key key' : Bytes) (named : is_key key ≡ true)
    (hs : All IsMember (mem ∷ ms)) where
  -- what `json_get_number` finds, converted
  pub json_get_number-object :
      {D : Type 0} (e : Machine D) (value : Bytes) (d : D)
      → IsFixed value
      → find_member key (mem ∷ ms) ≡ some (number key' value)
      → e.stod value ≡ returned d
      → json_get_number e (object mem ms) key ≡ returned (some d)
  unfolding json_get_number
  json_get_number-object e value d h found converts =
      rw
        (
          search-object (match_minus match_decimal) key named mem ms (number key' value) value hs
              found (fixed-Reads key' value h),
          converts,
        )
        refl

  -- The integer that was written is found again.
  pub json_get_integer-object :
      (z : ℤ)
      → Fits z
      → find_member key (mem ∷ ms) ≡ some (number key' (format_integer z))
      → json_get_integer (object mem ms) key ≡ returned (some z)
  unfolding json_get_integer
  json_get_integer-object z fits found =
      rw
        (
          search-object (match_minus match_digits) key named mem ms (number key' (format_integer z))
              (format_integer z) hs found (integer-Reads key' z),
          stoll-format_integer z fits,
        )
        refl
