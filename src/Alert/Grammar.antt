-- ===== src/Alert/Grammar.antt =====
-- cpp/include/common.hpp: the language of the pattern of `parse_alert_command`, described part by
-- part, and the parts of `match_alert` next to it.
use sys_net_mon.Base.{
  ℕ, true, false, some, [], ◌∷◌, ◌++◌, map, Bytes, codes, ◌≡◌, ◌≢◌, refl, ap, subst, ◌⊎◌, inl, inr,
  arith, ◌==◌, take_while, drop_while, Each, take_while-append-drop_while, take_while-Each,
  drop_while-append, drop_while_all, drop_while-eq-nil,
}
use sys_net_mon.Text.{is_space, drop_spaces, to_lower}
use sys_net_mon.Decimal.{is_digit}
use sys_net_mon.Alert.{is_word, strip_word, match_rest, match_percent, match_end}
use sys_net_mon.Alert.Number.{IsDecimal, EndsNumber}

-- `\s*%?\s*$`
pub record IsEnd (s : Bytes) : Type 0 where
  pub space : Bytes
  pub percent : Bytes
  pub trailing : Bytes
  pub shape : s ≡ space ++ (percent ++ trailing)
  pub space_blank : Each is_space space
  pub trailing_blank : Each is_space trailing
  pub percent_sign : (percent ≡ []) ⊎ (percent ≡ b'%' ∷ [])

-- `^\s*/alert\s+([A-Za-z_]+)\s*([><])\s*([0-9]+(?:\.[0-9]+)?)\s*%?\s*$`, with `icase`
pub record IsAlert (text word : Bytes) (comparison : ℕ) (number : Bytes) : Type 0 where
  pub leading : Bytes
  pub alert : Bytes
  pub gap : Bytes
  pub space : Bytes
  pub space' : Bytes
  pub ending : Bytes
  pub shape :
      text
      ≡ leading
        ++ (alert ++ (gap ++ (word ++ (space ++ comparison ∷ (space' ++ (number ++ ending))))))
  pub leading_blank : Each is_space leading
  pub alert_word : map to_lower alert ≡ codes "/alert"
  pub gap_blank : Each is_space gap
  pub gap_some : gap ≢ []
  pub word_letters : Each is_word word
  pub word_some : word ≢ []
  pub space_blank : Each is_space space
  pub comparison_sign : (comparison ≡ b'>') ⊎ (comparison ≡ b'<')
  pub space'_blank : Each is_space space'
  pub decimal : IsDecimal number
  pub end : IsEnd ending

match_rest-eq-nil : (u : Bytes) → match_rest u ≡ true → u ≡ []
unfolding match_rest
match_rest-eq-nil [] h = refl
match_rest-eq-nil (c ∷ u) h = cc

percent-IsEnd :
    (space t : Bytes) → Each is_space space → match_percent t ≡ true → IsEnd (space ++ t)
unfolding match_percent
percent-IsEnd space [] blank h = record {
  space = space;
  percent = [];
  trailing = [];
  shape = refl;
  space_blank = blank;
  trailing_blank = tt;
  percent_sign = inl refl;
}
percent-IsEnd space (c ∷ t) blank h = record {
  space = space;
  percent = c ∷ [];
  trailing = t;
  shape = refl;
  space_blank = blank;
  trailing_blank = drop_while-eq-nil is_space t (match_rest-eq-nil (drop_spaces t) (ground arith));
  percent_sign = inr (ground arith);
}

pub match_end-IsEnd : (s : Bytes) → match_end s ≡ true → IsEnd s
unfolding match_end
match_end-IsEnd s h =
    subst IsEnd (take_while-append-drop_while is_space s)
      (percent-IsEnd (take_while is_space s) (drop_spaces s) (take_while-Each is_space s) h)

match_percent-append :
    (percent trailing : Bytes)
    → Each is_space trailing
    → (percent ≡ []) ⊎ (percent ≡ b'%' ∷ [])
    → match_percent (drop_spaces (percent ++ trailing)) ≡ true
unfolding match_percent match_rest is_space drop_while
match_percent-append percent trailing blank (inl e) = rw (e, drop_while_all is_space trailing blank)
match_percent-append percent trailing blank (inr e) = rw (e, drop_while_all is_space trailing blank)

pub IsEnd-match_end : (s : Bytes) → IsEnd s → match_end s ≡ true
unfolding match_end
IsEnd-match_end s h =
    rw (h.shape, drop_while-append is_space h.space (h.percent ++ h.trailing) h.space_blank)
      (match_percent-append h.percent h.trailing h.trailing_blank h.percent_sign)

space_ends : (c : ℕ) → is_space c ≡ true → (is_digit c ≡ false) × ((c == b'.') ≡ false)
unfolding is_space is_digit
space_ends c h = ground arith

blank-EndsNumber : (t : Bytes) → Each is_space t → EndsNumber t
blank-EndsNumber [] h = (tt, tt)
blank-EndsNumber (c ∷ t) h = space_ends c h.0

percent-EndsNumber :
    (percent trailing : Bytes)
    → Each is_space trailing
    → (percent ≡ []) ⊎ (percent ≡ b'%' ∷ [])
    → EndsNumber (percent ++ trailing)
unfolding is_digit
percent-EndsNumber percent trailing blank (inl e) = rw e (blank-EndsNumber trailing blank)
percent-EndsNumber percent trailing blank (inr e) = rw e (refl, refl)

end-EndsNumber : (space t : Bytes) → Each is_space space → EndsNumber t → EndsNumber (space ++ t)
end-EndsNumber [] t blank h = h
end-EndsNumber (c ∷ space) t blank h = space_ends c blank.0

pub IsEnd-EndsNumber : (s : Bytes) → IsEnd s → EndsNumber s
IsEnd-EndsNumber s h = rw h.shape (
    end-EndsNumber h.space (h.percent ++ h.trailing) h.space_blank
      (percent-EndsNumber h.percent h.trailing h.trailing_blank h.percent_sign))

pub strip_word_sound :
    (p s r : Bytes) → strip_word p s ≡ some r → (a : Bytes) × (s ≡ a ++ r) × (map to_lower a ≡ p)
unfolding strip_word
strip_word_sound [] s r h = ([], ground arith, refl)
strip_word_sound (p ∷ ps) [] r h = cc
strip_word_sound (p ∷ ps) (c ∷ s) r h =
    let (a, split, lower) = strip_word_sound ps s r (ground arith) in
    (c ∷ a, ap (λ x. c ∷ x) split, ground arith)

pub strip_word-append : (p a r : Bytes) → map to_lower a ≡ p → strip_word p (a ++ r) ≡ some r
unfolding strip_word
strip_word-append [] [] r h = refl
strip_word-append [] (c ∷ a) r h = cc
strip_word-append (p ∷ ps) [] r h = cc
strip_word-append (p ∷ ps) (c ∷ a) r h = ground (arith, strip_word-append ps a r (ground arith))
