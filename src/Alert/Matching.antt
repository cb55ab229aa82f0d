-- ===== src/Alert/Matching.antt =====
-- cpp/include/common.hpp: the match of `parse_alert_command` next to the language of its pattern.
use mathlib.Core.List.{cons-ne-nil}
use sys_net_mon.Base.{
  ℕ, some, [], ◌∷◌, ◌++◌, map, append_assoc, Bytes, codes, ◌≡◌, ◌≢◌, ◌↔◌, refl, sym, ap, subst, ◌∙◌,
  ◌⊎◌, inl, inr, arith, take_while, drop_while, Stops, Each, take_while-append-drop_while,
  take_while-Each, take_while-append, drop_while_exact, Bool-cases, Option-cases,
}
use sys_net_mon.Text.{is_space, drop_spaces, to_lower}
use sys_net_mon.Decimal.{is_digit, drop_digits}
use sys_net_mon.Json.{match_decimal, after_fraction}
use sys_net_mon.Alert.{
  is_word, strip_word, match_spaces, match_end, match_threshold, match_comparison,
  match_behind_word, match_word, match_alert,
}
use sys_net_mon.Alert.Number.{
  IsDecimal, whole, fractional, match_decimal_sound, match_decimal-append,
}
use sys_net_mon.Alert.Grammar.{
  IsEnd, IsAlert, match_end-IsEnd, IsEnd-match_end, IsEnd-EndsNumber, strip_word_sound,
  strip_word-append,
}

abbrev IsSign : ℕ → Type 0
IsSign c = (c ≡ b'>') ⊎ (c ≡ b'<')

match_threshold_sound :
    (s n : Bytes)
    → match_threshold s ≡ some n
    → (space ending : Bytes) × Each is_space space
      × IsDecimal n
      × IsEnd ending
      × (s ≡ space ++ (n ++ ending))
unfolding match_threshold
match_threshold_sound s n h = elim (Option-cases (match_decimal (drop_spaces s))) [
  | inl missing ↦ cc (rw missing at h)
  | inr (m, found) ↦ elim (Bool-cases (match_end (after_fraction (drop_digits (drop_spaces s))))) [
    | inr bad ↦ absurd (ground arith)
    | inl good ↦
        let same : m ≡ n = ground arith in
        let (decimal, split) = match_decimal_sound (drop_spaces s) n (found ∙ ap some same) in
        (
          take_while is_space s,
          after_fraction (drop_digits (drop_spaces s)),
          take_while-Each is_space s,
          decimal,
          match_end-IsEnd _ good,
          sym (take_while-append-drop_while is_space s)
              ∙ ap (λ x. take_while is_space s ++ x) split,
        )
  ]
]

match_comparison_sound :
    (word s w : Bytes) (c : ℕ) (n : Bytes)
    → match_comparison word s ≡ some (w, c, n)
    → (rest : Bytes) × (w ≡ word) × IsSign c × (s ≡ c ∷ rest) × (match_threshold rest ≡ some n)
unfolding match_comparison
match_comparison_sound word [] w c n h = cc
match_comparison_sound word (d ∷ s) w c n h = elim (Option-cases (match_threshold s)) [
  | inl missing ↦ absurd (ground arith)
  | inr (m, found) ↦ (s, ground arith, ground arith, ground arith, ground arith)
]

behind_word_sound :
    (word behind w : Bytes) (c : ℕ) (n : Bytes)
    → match_behind_word word behind ≡ some (w, c, n)
    → (rest : Bytes) × (w ≡ word)
      × (word ≢ [])
      × IsSign c
      × (drop_spaces behind ≡ c ∷ rest)
      × (match_threshold rest ≡ some n)
unfolding match_behind_word
behind_word_sound [] behind w c n h = cc
behind_word_sound (d ∷ word) behind w c n h =
    let (rest, same, sign, split, found) =
      match_comparison_sound (d ∷ word) (drop_spaces behind) w c n h in
    (rest, same, cons-ne-nil d word, sign, split, found)

match_word_sound :
    (s w : Bytes) (c : ℕ) (n : Bytes)
    → match_word s ≡ some (w, c, n)
    → (space rest : Bytes) × Each is_word w
      × (w ≢ [])
      × Each is_space space
      × IsSign c
      × (s ≡ w ++ (space ++ c ∷ rest))
      × (match_threshold rest ≡ some n)
unfolding match_word
match_word_sound s w c n h =
    let word = take_while is_word s in
    let behind = drop_while is_word s in
    let (rest, same, there, sign, split, found) = behind_word_sound word behind w c n h in
    (
      take_while is_space behind,
      rest,
      subst (Each is_word) (sym same) (take_while-Each is_word s),
      (λ e. there (sym same ∙ e)),
      take_while-Each is_space behind,
      sign,
      subst (λ x. s ≡ x ++ (take_while is_space behind ++ c ∷ rest)) (sym same)
          (sym (take_while-append-drop_while is_word s)
            ∙ ap (λ x. word ++ x)
                (sym (take_while-append-drop_while is_space behind)
                  ∙ ap (λ x. take_while is_space behind ++ x) split)),
      found,
    )

pub alert-Stops : (a r : Bytes) → map to_lower a ≡ codes "/alert" → Stops is_space (a ++ r)
unfolding to_lower is_space
alert-Stops [] r h = cc
alert-Stops (c ∷ a) r h = ground arith

word-Stops : (w r : Bytes) → Each is_word w → w ≢ [] → Stops is_space (w ++ r)
unfolding is_word is_space
word-Stops [] r h some_there = absurd (some_there refl)
word-Stops (c ∷ w) r h some_there = ground arith

sign-Stops : (c : ℕ) (r : Bytes) → IsSign c → Stops is_space (c ∷ r)
unfolding is_space
sign-Stops c r h = ground arith

space-Stops :
    (space r : Bytes) (c : ℕ) → Each is_space space → IsSign c → Stops is_word (space ++ c ∷ r)
unfolding is_word is_space
space-Stops [] r c h sign = ground arith
space-Stops (d ∷ space) r c h sign = ground arith

digits_stop : (ds r : Bytes) → Each is_digit ds → ds ≢ [] → Stops is_space (ds ++ r)
unfolding is_digit is_space
digits_stop [] r h some_there = absurd (some_there refl)
digits_stop (c ∷ ds) r h some_there = ground arith

decimal-Stops : (n r : Bytes) → IsDecimal n → Stops is_space (n ++ r)
decimal-Stops n r (whole h) = digits_stop n r h.0 h.1
decimal-Stops n r (fractional ds fs hd hf e) =
    rw (e, append_assoc ds (b'.' ∷ fs) r) (digits_stop ds _ hd.0 hd.1)

match_threshold-append :
    (space n ending : Bytes)
    → Each is_space space
    → IsDecimal n
    → IsEnd ending
    → match_threshold (space ++ (n ++ ending)) ≡ some n
unfolding match_threshold
match_threshold-append space n ending blank decimal ends =
    let (found, rest) = match_decimal-append n ending decimal (IsEnd-EndsNumber ending ends) in
    rw (
      drop_while_exact is_space space (n ++ ending) blank (decimal-Stops n ending decimal),
      found,
      rest,
      IsEnd-match_end ending ends,
    )

match_comparison-append :
    (word rest n : Bytes) (c : ℕ)
    → IsSign c
    → match_threshold rest ≡ some n
    → match_comparison word (c ∷ rest) ≡ some (word, c, n)
unfolding match_comparison
match_comparison-append word rest n c sign h = ground arith

behind_word-append :
    (word space rest n : Bytes) (c : ℕ)
    → word ≢ []
    → Each is_space space
    → IsSign c
    → match_threshold rest ≡ some n
    → match_behind_word word (space ++ c ∷ rest) ≡ some (word, c, n)
unfolding match_behind_word
behind_word-append [] space rest n c there blank sign h = absurd (there refl)
behind_word-append (d ∷ word) space rest n c there blank sign h =
    rw (drop_while_exact is_space space (c ∷ rest) blank (sign-Stops c rest sign))
      (match_comparison-append (d ∷ word) rest n c sign h)

match_word-append :
    (word space rest n : Bytes) (c : ℕ)
    → Each is_word word
    → word ≢ []
    → Each is_space space
    → IsSign c
    → match_threshold rest ≡ some n
    → match_word (word ++ (space ++ c ∷ rest)) ≡ some (word, c, n)
unfolding match_word
match_word-append word space rest n c letters some_there blank sign h =
    let stop = space-Stops space rest c blank sign in
    rw
      (
        take_while-append is_word word (space ++ c ∷ rest) letters stop,
        drop_while_exact is_word word (space ++ c ∷ rest) letters stop,
      )
      (behind_word-append word space rest n c some_there blank sign h)

match_spaces-append :
    (gap r : Bytes)
    → Each is_space gap
    → gap ≢ []
    → Stops is_space r
    → match_spaces (gap ++ r) ≡ some r
unfolding match_spaces
match_spaces-append [] r blank some_there stop = absurd (some_there refl)
match_spaces-append (c ∷ gap) r blank some_there stop =
    ground (arith, drop_while_exact is_space gap r blank.1 stop)

match_spaces_sound :
    (s r : Bytes)
    → match_spaces s ≡ some r
    → (gap : Bytes) × Each is_space gap × (gap ≢ []) × (s ≡ gap ++ r)
unfolding match_spaces
match_spaces_sound [] r h = cc
match_spaces_sound (c ∷ s) r h = (
  c ∷ take_while is_space s,
  (ground arith, take_while-Each is_space s),
  cons-ne-nil c (take_while is_space s),
  ground (arith, take_while-append-drop_while is_space s),
)

match_alert_sound :
    (text w : Bytes) (c : ℕ) (n : Bytes) → match_alert text ≡ some (w, c, n) → IsAlert text w c n
unfolding match_alert
match_alert_sound text w c n h =
    elim (Option-cases (strip_word (codes "/alert") (drop_spaces text))) [
      | inl missing ↦ cc (rw missing at h)
      | inr (r, found) ↦ elim (Option-cases (match_spaces r)) [
        | inl missing ↦ absurd (ground arith)
        | inr (s, spaced) ↦
            let (alert, split, lower) =
              strip_word_sound (codes "/alert") (drop_spaces text) r found in
            let (gap, gap_blank, gap_some, gap_split) = match_spaces_sound r s spaced in
            let (space, rest, letters, there, blank, sign, word_split, threshold) =
              match_word_sound s w c n (ground arith) in
            let (space', ending, blank', decimal, ends, number_split) =
              match_threshold_sound rest n threshold in
            record {
              leading = take_while is_space text;
              alert = alert;
              gap = gap;
              space = space;
              space' = space';
              ending = ending;
              shape =
                  sym (take_while-append-drop_while is_space text)
                  ∙ ap (λ x. take_while is_space text ++ x)
                      (split
                        ∙ ap (λ x. alert ++ x)
                            (gap_split
                              ∙ ap (λ x. gap ++ x)
                                  (word_split ∙ ap (λ x. w ++ (space ++ c ∷ x)) number_split)));
              leading_blank = take_while-Each is_space text;
              alert_word = lower;
              gap_blank = gap_blank;
              gap_some = gap_some;
              word_letters = letters;
              word_some = there;
              space_blank = blank;
              comparison_sign = sign;
              space'_blank = blank';
              decimal = decimal;
              end = ends;
            }
      ]
    ]

IsAlert-match_alert :
    (text w : Bytes) (c : ℕ) (n : Bytes) → IsAlert text w c n → match_alert text ≡ some (w, c, n)
unfolding match_alert
IsAlert-match_alert text w c n h =
    let tail = h.space' ++ (n ++ h.ending) in
    let behind = h.space ++ c ∷ tail in
    rw
      (
        h.shape,
        drop_while_exact is_space h.leading (h.alert ++ (h.gap ++ (w ++ behind))) h.leading_blank
            (alert-Stops h.alert (h.gap ++ (w ++ behind)) h.alert_word),
        strip_word-append (codes "/alert") h.alert (h.gap ++ (w ++ behind)) h.alert_word,
        match_spaces-append h.gap (w ++ behind) h.gap_blank h.gap_some
            (word-Stops w behind h.word_letters h.word_some),
      )
      (match_word-append w h.space tail n c h.word_letters h.word_some h.space_blank
        h.comparison_sign
        (match_threshold-append h.space' n h.ending h.space'_blank h.decimal h.end))

-- A text is accepted with a word, a sign and a number as its groups exactly if the pattern of the
-- alert command describes it with these parts.
pub match_alert_iff :
    (text w : Bytes) (c : ℕ) (n : Bytes) → (match_alert text ≡ some (w, c, n)) ↔ IsAlert text w c n
match_alert_iff text w c n = (match_alert_sound text w c n, IsAlert-match_alert text w c n)
