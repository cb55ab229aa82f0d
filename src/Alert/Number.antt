-- ===== src/Alert/Number.antt =====
-- cpp/include/common.hpp: the texts that `[0-9]+(?:\.[0-9]+)?` matches, in all the patterns that
-- hold it.
use sys_net_mon.Base.{
  ℕ, false, none, some, [], ◌∷◌, ◌++◌, append_assoc, append-nil, Bytes, ◌≡◌, ◌≢◌, refl, sym, ap,
  subst, ◌∙◌, ◌⊎◌, inl, inr, arith, ◌==◌, Stops, Each, take_while-append-drop_while,
  take_while-Each, take_while-append, drop_while_exact, Bool-cases,
}
use mathlib.Core.List.{cons-ne-nil}
use sys_net_mon.Decimal.{is_digit, leading_digits, drop_digits}
use sys_net_mon.Json.{match_digits, non_empty, match_fraction, after_fraction, match_decimal}

-- one digit or more
abbrev pub IsDigits : Bytes → Type 0
IsDigits ds = Each is_digit ds × (ds ≢ [])

-- digits, and possibly a point with digits behind it
pub data IsDecimal (t : Bytes) : Type 0 where
  whole : IsDigits t → IsDecimal t
  fractional : (ds fs : Bytes) → IsDigits ds → IsDigits fs → t ≡ ds ++ b'.' ∷ fs → IsDecimal t

-- What follows a number: no digit and no point.
abbrev pub EndsNumber : Bytes → Type 0
EndsNumber s = Stops is_digit s × Stops (λ c. c == b'.') s

match_digits_cases :
    (s : Bytes)
    → ((match_digits s ≡ none) × (leading_digits s ≡ []))
      ⊎ ((match_digits s ≡ some (leading_digits s)) × IsDigits (leading_digits s))
unfolding match_digits
match_digits_cases s = go (leading_digits s) (take_while-Each is_digit s)
  where
    go :
        (ds : Bytes)
        → Each is_digit ds
        → ((non_empty ds ≡ none) × (ds ≡ [])) ⊎ ((non_empty ds ≡ some ds) × IsDigits ds)
    go [] h = inl (refl, refl)
    go (d ∷ ds) h = inr (refl, (h, cons-ne-nil d ds))

non_empty-IsDigits : (ds : Bytes) → IsDigits ds → non_empty ds ≡ some ds
unfolding non_empty
non_empty-IsDigits [] h = absurd (h.1 refl)
non_empty-IsDigits (d ∷ ds) h = refl

pub match_digits-append :
    (ds rest : Bytes) → IsDigits ds → Stops is_digit rest → match_digits (ds ++ rest) ≡ some ds
unfolding match_digits
match_digits-append ds rest h stop =
    rw (take_while-append is_digit ds rest h.0 stop) (non_empty-IsDigits ds h)

abbrev Fraction : Bytes → Type 0
Fraction r =
    ((match_fraction r ≡ []) × (after_fraction r ≡ r))
    ⊎ ((fs : Bytes) × IsDigits fs
        × (match_fraction r ≡ b'.' ∷ fs)
        × (r ≡ b'.' ∷ fs ++ after_fraction r))

Fraction-point :
    (c : ℕ) (s : Bytes)
    → c ≡ b'.'
    → match_digits s ≡ some (leading_digits s)
    → IsDigits (leading_digits s)
    → Fraction (c ∷ s)
unfolding match_fraction after_fraction
Fraction-point c s point found ds =
    inr
      (leading_digits s, ds, ground arith, ground (arith, take_while-append-drop_while is_digit s))

Fraction-cases : (r : Bytes) → Fraction r
unfolding match_fraction after_fraction
Fraction-cases [] = inl (refl, refl)
Fraction-cases (c ∷ s) = elim (Bool-cases (c == b'.')) [
  | inl point ↦ elim (match_digits_cases s) [
    | inr (found, ds) ↦ Fraction-point c s (ground arith) found ds
    | inl (missing, _) ↦ inl (ground arith, ground arith)
  ]
  | inr other ↦ inl (ground arith, ground arith)
]

no_fraction :
    (r : Bytes) → Stops (λ c. c == b'.') r → (match_fraction r ≡ []) × (after_fraction r ≡ r)
unfolding match_fraction after_fraction
no_fraction [] h = (refl, refl)
no_fraction (c ∷ s) h = (rw h, rw h)

IsDecimal-parts :
    (s front fraction behind : Bytes)
    → IsDigits front
    → s ≡ front ++ behind
    → Fraction behind
    → fraction ≡ match_fraction behind
    → IsDecimal (front ++ fraction) × (s ≡ (front ++ fraction) ++ after_fraction behind)
IsDecimal-parts s front fraction behind ds e (inl (none_there, rest)) f =
    (rw (f, none_there, append-nil) (whole ds), e ∙ rw (f, none_there, append-nil, rest))
IsDecimal-parts s front fraction behind ds e (inr (fs, digits, point, rest)) f = (
  fractional front fs ds digits (rw (f, point)),
  e
      ∙ ap (λ x. front ++ x) rest
      ∙ rw (f, point) (sym (append_assoc front (b'.' ∷ fs) (after_fraction behind))),
)

-- What is matched is a number, and it stands in front.
pub match_decimal_sound :
    (s n : Bytes)
    → match_decimal s ≡ some n
    → IsDecimal n × (s ≡ n ++ after_fraction (drop_digits s))
unfolding match_decimal
match_decimal_sound s n h = elim (match_digits_cases s) [
  | inl (missing, _) ↦ cc (rw missing at h)
  | inr (found, ds) ↦
      let n_eq : leading_digits s ++ match_fraction (drop_digits s) ≡ n = ground arith in
      subst (λ x. IsDecimal x × (s ≡ x ++ after_fraction (drop_digits s))) n_eq
        (IsDecimal-parts s (leading_digits s) _ (drop_digits s) ds
          (sym (take_while-append-drop_while is_digit s)) (Fraction-cases (drop_digits s)) refl)
]

point_stops : is_digit b'.' ≡ false
unfolding is_digit
point_stops = refl

fraction-append :
    (fs rest : Bytes)
    → IsDigits fs
    → Stops is_digit rest
    → (match_fraction (b'.' ∷ (fs ++ rest)) ≡ b'.' ∷ fs)
      × (after_fraction (b'.' ∷ (fs ++ rest)) ≡ rest)
unfolding match_fraction after_fraction
fraction-append fs rest h stop =
    rw (match_digits-append fs rest h stop) (refl, drop_while_exact is_digit fs rest h.0 stop)

-- A number is matched whole where it ends.
pub match_decimal-append :
    (n rest : Bytes)
    → IsDecimal n
    → EndsNumber rest
    → (match_decimal (n ++ rest) ≡ some n) × (after_fraction (drop_digits (n ++ rest)) ≡ rest)
unfolding match_decimal
match_decimal-append n rest (whole h) (stop, point) =
    let (no_match, unchanged) = no_fraction rest point in
    rw
      (
        match_digits-append n rest h stop,
        drop_while_exact is_digit n rest h.0 stop,
        no_match,
        unchanged,
        append-nil,
      )
      (refl, refl)
match_decimal-append n rest (fractional ds fs hd hf e) (stop, point) =
    let behind : n ++ rest ≡ ds ++ b'.' ∷ (fs ++ rest) =
      ap (λ x. x ++ rest) e ∙ append_assoc ds (b'.' ∷ fs) rest in
    let (taken, left) = fraction-append fs rest hf stop in
    rw
      (
        behind,
        match_digits-append ds (b'.' ∷ (fs ++ rest)) hd point_stops,
        drop_while_exact is_digit ds (b'.' ∷ (fs ++ rest)) hd.0 point_stops,
        taken,
        left,
      )
      (ap some (sym e), refl)
