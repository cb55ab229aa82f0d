-- ===== src/Alert/Rules.antt =====
-- cpp/include/common.hpp: the rules that `parse_alert_command` makes.
use sys_net_mon.Base.{
  ℕ, true, Option, some, [], ◌∷◌, map, Bytes, ◌≡◌, ◌≢◌, sym, ap, subst, ◌∙◌, ◌⊎◌, inl, inr, arith,
  Outcome, returned, >>=-eq-returned, Lacks, All-append, All-map, Option-cases,
}
use sys_net_mon.Machine.{Machine}
use sys_net_mon.Events.{AlertRule}
use sys_net_mon.Text.{is_space, to_lower, lower_copy, trim}
use sys_net_mon.Text.Trim.{trim-trim}
use sys_net_mon.Decimal.{is_digit}
use sys_net_mon.Alert.{is_word, match_alert, metric_names, read_rule, parse_alert_command}
use sys_net_mon.Alert.Number.{IsDecimal, whole, fractional}
use sys_net_mon.Alert.Grammar.{IsEnd, IsAlert}
use sys_net_mon.Alert.Matching.{match_alert_iff}
use sys_net_mon.Alert.Trimmed.{IsAlert-trim}

module _ {D : Type 0} (e : Machine D) where
  -- Where a rule comes from.
  pub record Origin (text : Bytes) (rule : AlertRule D) : Type 0 where
    pub word : Bytes
    pub number : Bytes
    pub matched : match_alert text ≡ some (word, rule.comparison, number)
    pub converted : e.stod number ≡ returned rule.threshold
    pub named : metric_names (lower_copy word) ≡ some (rule.metric_key, rule.display_metric)
    pub trimmed : rule.raw_command ≡ trim text

  -- a rule is its fields
  fields_of :
      (text : Bytes) (rule : AlertRule D)
      → Origin text rule
      → ◌≡◌ {A = Outcome (Option (AlertRule D))}
          (returned (
            some (record {
              raw_command = trim text;
              metric_key = rule.metric_key;
              display_metric = rule.display_metric;
              threshold = rule.threshold;
              comparison = rule.comparison;
            })))
          (returned (some rule))
  fields_of text rule o = λ i. returned (some (record rule { raw_command = sym o.trimmed i }))

  pub Origin-parse :
      (text : Bytes) (rule : AlertRule D)
      → Origin text rule
      → parse_alert_command e text ≡ returned (some rule)
  unfolding parse_alert_command
  Origin-parse text rule o = rw (o.matched, read_rule, o.converted, o.named) (fields_of text rule o)

  pub parse-Origin :
      (text : Bytes) (rule : AlertRule D)
      → parse_alert_command e text ≡ returned (some rule)
      → Origin text rule
  unfolding parse_alert_command
  parse-Origin text rule h = elim (Option-cases (match_alert text)) [
    | inl missing ↦ absurd (ground arith)
    | inr ((word, comparison, number), found) ↦
        let read : read_rule e text (some (word, comparison, number)) ≡ returned (some rule) =
          subst (λ x. read_rule e text x ≡ returned (some rule)) found h in
        let (threshold, converted, made) = >>=-eq-returned (e.stod number) _ read in
        elim (Option-cases (metric_names (lower_copy word))) [
          | inl unnamed ↦ absurd (ground arith)
          | inr ((key, display), named) ↦ record {
            word = word;
            number = number;
            matched = found ∙ ap (λ x. some (word, x, number)) (ground arith);
            converted = converted ∙ ground arith;
            named = named ∙ ground arith;
            trimmed = ground arith;
          }
        ]
  ]

  -- The command that a rule keeps is parsed to the rule itself: it can be entered again.
  pub parse-raw_command :
      (text : Bytes) (rule : AlertRule D)
      → parse_alert_command e text ≡ returned (some rule)
      → parse_alert_command e rule.raw_command ≡ returned (some rule)
  parse-raw_command text rule h =
      let o = parse-Origin text rule h in
      Origin-parse rule.raw_command rule (record {
        word = o.word;
        number = o.number;
        matched =
            subst (λ x. match_alert x ≡ some (o.word, rule.comparison, o.number)) (sym o.trimmed)
              ((match_alert_iff (trim text) o.word rule.comparison o.number).1 (
                IsAlert-trim text o.word rule.comparison o.number
                  ((match_alert_iff text o.word rule.comparison o.number).0 o.matched)));
        converted = o.converted;
        named = o.named;
        trimmed = o.trimmed ∙ sym (trim-trim text) ∙ ap trim (sym o.trimmed);
      })

abbrev bar : ℕ
bar = b'|'

space_no_bar : (c : ℕ) → is_space c ≡ true → c ≢ bar
unfolding is_space
space_no_bar c h = ground arith

word_no_bar : (c : ℕ) → is_word c ≡ true → c ≢ bar
unfolding is_word
word_no_bar c h = ground arith

digit_no_bar : (c : ℕ) → is_digit c ≡ true → c ≢ bar
unfolding is_digit
digit_no_bar c h = ground arith

map-Lacks : (a : Bytes) → Lacks bar (map to_lower a) → Lacks bar a
unfolding to_lower
map-Lacks [] h = tt
map-Lacks (c ∷ a) h = (ground arith, map-Lacks a h.1)

decimal-Lacks : (n : Bytes) → IsDecimal n → Lacks bar n
decimal-Lacks n (whole h) = All-map digit_no_bar n h.0
decimal-Lacks n (fractional ds fs hd hf e) =
    subst (Lacks bar) (sym e)
      (All-append _ ds _ (All-map digit_no_bar ds hd.0) (omega arith, All-map digit_no_bar fs hf.0))

end-Lacks : (s : Bytes) → IsEnd s → Lacks bar s
end-Lacks s h = subst (Lacks bar) (sym h.shape) (
    All-append _ h.space _ (All-map space_no_bar h.space h.space_blank) (
      All-append _ h.percent _ (go h.percent h.percent_sign)
        (All-map space_no_bar h.trailing h.trailing_blank)))
  where
    go : (p : Bytes) → (p ≡ []) ⊎ (p ≡ b'%' ∷ []) → Lacks bar p
    go p (inl e) = subst (Lacks bar) (sym e) tt
    go p (inr e) = subst (Lacks bar) (sym e) (omega arith)

alert-Lacks : (text w : Bytes) (c : ℕ) (n : Bytes) → IsAlert text w c n → Lacks bar text
alert-Lacks text w c n h = subst (Lacks bar) (sym h.shape) (
    All-append _ h.leading _ (All-map space_no_bar h.leading h.leading_blank) (
      All-append _ h.alert _
        (map-Lacks h.alert (subst (Lacks bar) (sym h.alert_word) (omega arith)))
        (All-append _ h.gap _ (All-map space_no_bar h.gap h.gap_blank) (
          All-append _ w _ (All-map word_no_bar w h.word_letters) (
            All-append _ h.space _ (All-map space_no_bar h.space h.space_blank) (
              sign_no_bar c h.comparison_sign,
              All-append _ h.space' _ (All-map space_no_bar h.space' h.space'_blank)
                  (All-append _ n _ (decimal-Lacks n h.decimal) (end-Lacks h.ending h.end)),
            ))))))
  where
    sign_no_bar : (d : ℕ) → (d ≡ b'>') ⊎ (d ≡ b'<') → d ≢ bar
    sign_no_bar d sign = omega arith

-- The command that a rule keeps holds no bar.
pub raw_command-Lacks :
    {D : Type 0} (e : Machine D) (text : Bytes) (rule : AlertRule D)
    → parse_alert_command e text ≡ returned (some rule)
    → Lacks bar rule.raw_command
raw_command-Lacks e text rule h =
    let again = parse-Origin e rule.raw_command rule (parse-raw_command e text rule h) in
    alert-Lacks rule.raw_command again.word rule.comparison again.number
      ((match_alert_iff rule.raw_command again.word rule.comparison again.number).0 again.matched)
