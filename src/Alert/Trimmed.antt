-- ===== src/Alert/Trimmed.antt =====
-- cpp/include/common.hpp: the pattern of `parse_alert_command`, for a text that is trimmed, which is
-- how a rule keeps its command.
use mathlib.Core.List.{reverse-append, cons-ne-nil}
use sys_net_mon.Base.{
  ℕ, true, false, [], ◌∷◌, ◌++◌, reverse, append_assoc, append-nil, Bytes, ◌≡◌, refl, sym, ap,
  subst, ◌∙◌, ◌⊎◌, inl, inr, arith, Stops, Each, All-append,
}
use sys_net_mon.Text.{is_space, trim}
use sys_net_mon.Text.Trim.{IsTrimmed, trim_unique}
use sys_net_mon.Decimal.{is_digit}
use sys_net_mon.Alert.Number.{IsDigits, IsDecimal, whole, fractional}
use sys_net_mon.Alert.Grammar.{IsEnd, IsAlert}
use sys_net_mon.Alert.Matching.{alert-Stops}

-- The last byte is there, and is no space.
abbrev EndsWell : Bytes → Type 0
EndsWell s = (front : Bytes) × (c : ℕ) × (s ≡ front ++ c ∷ []) × (is_space c ≡ false)

EndsWell-append : (s t : Bytes) → EndsWell t → EndsWell (s ++ t)
EndsWell-append s t (front, c, e, h) =
    (s ++ front, c, ap (λ x. s ++ x) e ∙ sym (append_assoc s front (c ∷ [])), h)

EndsWell-cons : (d : ℕ) (t : Bytes) → EndsWell t → EndsWell (d ∷ t)
EndsWell-cons d t h = EndsWell-append (d ∷ []) t h

EndsWell-reverse : (s : Bytes) → EndsWell s → Stops is_space (reverse s)
EndsWell-reverse s (front, c, e, h) = rw (e, reverse-append front (c ∷ [])) h

digit_no_space : (c : ℕ) → is_digit c ≡ true → is_space c ≡ false
unfolding is_digit is_space
digit_no_space c h = ground arith

EndsWell-digits : (ds : Bytes) → IsDigits ds → EndsWell ds
EndsWell-digits [] h = absurd (h.1 refl)
EndsWell-digits (d ∷ []) h = ([], d, refl, digit_no_space d h.0.0)
EndsWell-digits (d ∷ c ∷ ds) h =
    EndsWell-cons d (c ∷ ds) (EndsWell-digits (c ∷ ds) (h.0.1, cons-ne-nil c ds))

EndsWell-decimal : (n : Bytes) → IsDecimal n → EndsWell n
EndsWell-decimal n (whole h) = EndsWell-digits n h
EndsWell-decimal n (fractional ds fs hd hf e) =
    subst EndsWell (sym e) (EndsWell-append ds _ (EndsWell-cons b'.' fs (EndsWell-digits fs hf)))

-- What is left of the end of a command when it is trimmed, and the spaces that go.
record Ending (n ending : Bytes) : Type 0 where
  kept : Bytes
  gone : Bytes
  shape : ending ≡ kept ++ gone
  gone_blank : Each is_space gone
  is_end : IsEnd kept
  ends : EndsWell (n ++ kept)

cut-Ending : (n ending : Bytes) → IsDecimal n → IsEnd ending → Ending n ending
unfolding is_space
cut-Ending n ending decimal h = go h.percent_sign
  where
    go : (h.percent ≡ []) ⊎ (h.percent ≡ b'%' ∷ []) → Ending n ending
    go (inl e) = record {
      kept = [];
      gone = h.space ++ h.trailing;
      shape = h.shape ∙ ap (λ x. h.space ++ (x ++ h.trailing)) e;
      gone_blank =
          All-append (λ c. is_space c ≡ true) h.space h.trailing h.space_blank h.trailing_blank;
      is_end = record {
        space = [];
        percent = [];
        trailing = [];
        shape = refl;
        space_blank = tt;
        trailing_blank = tt;
        percent_sign = inl refl;
      };
      ends = rw (append-nil n) (EndsWell-decimal n decimal);
    }
    go (inr e) = record {
      kept = h.space ++ b'%' ∷ [];
      gone = h.trailing;
      shape =
          h.shape
          ∙ ap (λ x. h.space ++ (x ++ h.trailing)) e
          ∙ sym (append_assoc h.space (b'%' ∷ []) h.trailing);
      gone_blank = h.trailing_blank;
      is_end = record {
        space = h.space;
        percent = b'%' ∷ [];
        trailing = [];
        shape = refl;
        space_blank = h.space_blank;
        trailing_blank = tt;
        percent_sign = inr refl;
      };
      ends = EndsWell-append n _ (EndsWell-append h.space (b'%' ∷ []) ([], b'%', refl, refl));
    }

ends_core :
    (alert gap w space space' n kept : Bytes) (c : ℕ)
    → EndsWell (n ++ kept)
    → EndsWell (alert ++ (gap ++ (w ++ (space ++ c ∷ (space' ++ (n ++ kept))))))
ends_core alert gap w space space' n kept c h = EndsWell-append alert _ (
    EndsWell-append gap _ (
      EndsWell-append w _
        (EndsWell-append space _ (EndsWell-cons c _ (EndsWell-append space' _ h)))))

-- A command is still a command with the same parts when it is trimmed.
pub IsAlert-trim :
    (text w : Bytes) (c : ℕ) (n : Bytes) → IsAlert text w c n → IsAlert (trim text) w c n
IsAlert-trim text w c n h =
    let e = cut-Ending n h.ending h.decimal h.end in
    let middle = λ (x : Bytes). h.gap ++ (w ++ (h.space ++ c ∷ (h.space' ++ (n ++ x)))) in
    let core : Bytes = h.alert ++ middle e.kept in
    let regroup : h.alert ++ middle (e.kept ++ e.gone) ≡ core ++ e.gone = simp append_assoc in
    let trimmed : IsTrimmed core = record {
      starts = alert-Stops h.alert (middle e.kept) h.alert_word;
      ends = EndsWell-reverse core (ends_core h.alert h.gap w h.space h.space' n e.kept c e.ends);
    } in
    record {
      leading = [];
      alert = h.alert;
      gap = h.gap;
      space = h.space;
      space' = h.space';
      ending = e.kept;
      shape =
          ap trim (
            h.shape
            ∙ ap (λ x. h.leading ++ (h.alert ++ middle x)) e.shape
            ∙ ap (λ x. h.leading ++ x) regroup)
          ∙ trim_unique h.leading core e.gone h.leading_blank e.gone_blank trimmed;
      leading_blank = tt;
      alert_word = h.alert_word;
      gap_blank = h.gap_blank;
      gap_some = h.gap_some;
      word_letters = h.word_letters;
      word_some = h.word_some;
      space_blank = h.space_blank;
      comparison_sign = h.comparison_sign;
      space'_blank = h.space'_blank;
      decimal = h.decimal;
      end = e.is_end;
    }
