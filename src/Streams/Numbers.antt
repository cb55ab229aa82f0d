-- ===== src/Streams/Numbers.antt =====
-- Reading numbers back that were written in decimal, with space in front of each.
use sys_net_mon.Base.{
  ℕ, pos, ◌<◌, false, some, List, [], ◌∷◌, ◌++◌, map, Bytes, ◌≡◌, ◌≢◌, refl, ap, ◌∙◌, arith, length,
  All, Each, Stops, take_while-append, drop_while_exact,
}
use sys_net_mon.Text.{is_space}
use sys_net_mon.Decimal.{is_digit, format_ℕ, magnitude, limit, in_range}
use sys_net_mon.Decimal.RoundTrip.{format_ℕ_lem, in_range_pos}
use sys_net_mon.Streams.{
  word, unsigned_value, unsigned_of, read_unsigned, read_numbers, integer_value, integer_of,
  read_integer, accept, is_no_space, token_of, read_token,
}

unsigned_of-digits :
    (ds rest : Bytes)
    → ds ≢ []
    → Each is_digit ds
    → Stops is_digit rest
    → unsigned_of (ds ++ rest) ≡ unsigned_value false ds rest
unfolding unsigned_of is_digit
unsigned_of-digits [] rest some_digit digits stop = absurd (some_digit refl)
unsigned_of-digits (c ∷ ds) rest some_digit digits stop =
    rw
      (
        take_while-append is_digit (c ∷ ds) rest digits stop,
        drop_while_exact is_digit (c ∷ ds) rest digits stop,
      )
      (ground arith)

digits-Stops-is_space : (ds rest : Bytes) → ds ≢ [] → Each is_digit ds → Stops is_space (ds ++ rest)
unfolding is_digit is_space
digits-Stops-is_space [] rest some_digit digits = absurd (some_digit refl)
digits-Stops-is_space (c ∷ ds) rest some_digit digits = ground arith

unsigned_value-digits :
    (ds rest : Bytes) (n : ℕ)
    → ds ≢ []
    → magnitude ds 0 ≡ n
    → n < word
    → unsigned_value false ds rest ≡ (n, some rest)
unfolding unsigned_value
unsigned_value-digits [] rest n some_digit value fits = absurd (some_digit refl)
unsigned_value-digits (c ∷ ds) rest n some_digit value fits = rw value (ground arith)

pub read_unsigned-format :
    (gap : Bytes) (n : ℕ) (rest : Bytes)
    → Each is_space gap
    → n < word
    → Stops is_digit rest
    → read_unsigned (some (gap ++ (format_ℕ n ++ rest))) ≡ (n, some rest)
unfolding read_unsigned
read_unsigned-format gap n rest blank fits stop =
    let (value, digits, some_digit) = format_ℕ_lem n in
    ap unsigned_of (
      drop_while_exact is_space gap (format_ℕ n ++ rest) blank
        (digits-Stops-is_space (format_ℕ n) rest some_digit digits))
    ∙ unsigned_of-digits (format_ℕ n) rest some_digit digits stop
    ∙ unsigned_value-digits (format_ℕ n) rest n some_digit value fits

integer_of-digits :
    (ds rest : Bytes)
    → ds ≢ []
    → Each is_digit ds
    → Stops is_digit rest
    → integer_of (ds ++ rest) ≡ integer_value false ds rest
unfolding integer_of is_digit
integer_of-digits [] rest some_digit digits stop = absurd (some_digit refl)
integer_of-digits (c ∷ ds) rest some_digit digits stop =
    rw
      (
        take_while-append is_digit (c ∷ ds) rest digits stop,
        drop_while_exact is_digit (c ∷ ds) rest digits stop,
      )
      (ground arith)

integer_value-digits :
    (ds rest : Bytes) (n : ℕ)
    → ds ≢ []
    → magnitude ds 0 ≡ n
    → n < limit
    → integer_value false ds rest ≡ some (pos n, rest)
unfolding integer_value
integer_value-digits [] rest n some_digit value fits = absurd (some_digit refl)
integer_value-digits (c ∷ ds) rest n some_digit value fits =
    ap (λ k. accept rest (in_range false k)) value ∙ ap (accept rest) (in_range_pos n fits)

pub read_integer-format :
    (gap : Bytes) (n : ℕ) (rest : Bytes)
    → Each is_space gap
    → n < limit
    → Stops is_digit rest
    → read_integer (gap ++ (format_ℕ n ++ rest)) ≡ some (pos n, rest)
unfolding read_integer
read_integer-format gap n rest blank fits stop =
    let (value, digits, some_digit) = format_ℕ_lem n in
    ap integer_of (
      drop_while_exact is_space gap (format_ℕ n ++ rest) blank
        (digits-Stops-is_space (format_ℕ n) rest some_digit digits))
    ∙ integer_of-digits (format_ℕ n) rest some_digit digits stop
    ∙ integer_value-digits (format_ℕ n) rest n some_digit value fits

-- A word behind space is read whole.
pub read_token-append :
    (gap token rest : Bytes)
    → Each is_space gap
    → Each is_no_space token
    → token ≢ []
    → Stops is_no_space rest
    → read_token (gap ++ (token ++ rest)) ≡ some (token, rest)
unfolding read_token
read_token-append gap [] rest blank word some_byte stop = absurd (some_byte refl)
read_token-append gap (c ∷ token) rest blank (hc, word) some_byte stop =
    ap token_of (drop_while_exact is_space gap ((c ∷ token) ++ rest) blank (ground arith))
    ∙ unfold token_of in
      rw (
        take_while-append is_no_space (c ∷ token) rest (hc, word) stop,
        drop_while_exact is_no_space (c ∷ token) rest (hc, word) stop,
      )

-- a number with the space in front of it
pub record Spaced : Type 0 where
  pub gap : Bytes
  pub number : ℕ

pub record IsSpaced (f : Spaced) : Type 0 where
  pub blank : Each is_space f.gap
  pub some_space : f.gap ≢ []
  pub fits : f.number < word

unfoldable pub written : List Spaced → Bytes → Bytes
written [] rest = rest
written (f ∷ fs) rest = f.gap ++ (format_ℕ f.number ++ written fs rest)

pub gap-Stops : (gap rest : Bytes) → Each is_space gap → gap ≢ [] → Stops is_digit (gap ++ rest)
unfolding is_space is_digit
gap-Stops [] rest blank some_space = absurd (some_space refl)
gap-Stops (c ∷ gap) rest blank some_space = ground arith

pub gap-Stops-is_no_space :
    (gap rest : Bytes) → Each is_space gap → gap ≢ [] → Stops is_no_space (gap ++ rest)
gap-Stops-is_no_space [] rest blank some_space = absurd (some_space refl)
gap-Stops-is_no_space (c ∷ gap) rest (hc, blank) some_space = rw hc refl

written-Stops :
    (fs : List Spaced) (rest : Bytes)
    → All IsSpaced fs
    → Stops is_digit rest
    → Stops is_digit (written fs rest)
unfolding written
written-Stops [] rest spaced stop = stop
written-Stops (f ∷ fs) rest (h, hs) stop = gap-Stops f.gap _ h.blank h.some_space

-- Numbers that are written one after the other are read back.
pub read_numbers-written :
    (fs : List Spaced) (rest : Bytes)
    → All IsSpaced fs
    → Stops is_digit rest
    → read_numbers (length fs) (some (written fs rest)) ≡ map (λ f. f.number) fs
unfolding read_numbers written
read_numbers-written [] rest spaced stop = refl
read_numbers-written (f ∷ fs) rest (h, hs) stop = rw (
  read_unsigned-format f.gap f.number (written fs rest) h.blank h.fits
      (written-Stops fs rest hs stop),
  read_numbers-written fs rest hs stop,
)
