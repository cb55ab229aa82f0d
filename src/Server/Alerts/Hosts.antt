-- ===== src/Server/Alerts/Hosts.antt =====
-- cpp/server/main.cpp: `active_alerts_` after `evaluate_rules`, for the other hosts.
use sys_net_mon.Base.{
  ℕ, Bool, List, [], ◌∷◌, ◌++◌, Bytes, ◌≡◌, ◌≢◌, refl, subst, ◌∙◌, arith, Dict, lookup, insert,
  lookup-insert, str_eq, str_eq_iff, All, Lacks, Bool-cases, inl, inr, All-append_right,
}
use sys_net_mon.Machine.{Machine}
use sys_net_mon.Events.{MetricSnapshot, AlertRule}
use sys_net_mon.Server.{MonitorServer, dedupe_key, evaluate_rules}
use sys_net_mon.Server.Alerts.{key_of, marks, evaluate_rules_lem}

abbrev bar : ℕ
bar = b'|'

not_inside : (a h b : Bytes) → Lacks bar a → a ≡ h ++ bar ∷ b → ⊥
not_inside a h b lacks p = (All-append_right _ h (bar ∷ b) (subst (Lacks bar) p lacks)).0 refl

-- The key of a host and a command determines both, as long as the commands hold no bar: the last
-- bar of the key ends the host.
pub dedupe_key_injective :
    (h k a b : Bytes)
    → Lacks bar a
    → Lacks bar b
    → dedupe_key h a ≡ dedupe_key k b
    → (h ≡ k) × (a ≡ b)
dedupe_key_injective [] [] a b la lb p = (refl, ground arith)
dedupe_key_injective [] (c ∷ k) a b la lb p = absurd (not_inside a k b la (ground arith))
dedupe_key_injective (c ∷ h) [] a b la lb p = absurd (not_inside b h a lb (ground arith))
dedupe_key_injective (c ∷ h) (d ∷ k) a b la lb p =
    ground (arith, dedupe_key_injective h k a b la lb (ground arith))

abbrev pub HasNoBar : {D : Type 0} → AlertRule D → Type 0
HasNoBar rule = Lacks bar rule.raw_command

module _ {D : Type 0} (e : Machine D) (metric : MetricSnapshot D) where
  lookup-insert_other :
      (host : Bytes) (q r : AlertRule D) (v : Bool) (active : Dict Bool)
      → HasNoBar q
      → HasNoBar r
      → metric.host ≢ host
      → lookup (dedupe_key host r.raw_command) (insert (key_of e metric q) v active)
        ≡ lookup (dedupe_key host r.raw_command) active
  lookup-insert_other host q r v active hq hr ne =
      rw lookup-insert
        (elim (Bool-cases (str_eq (key_of e metric q) (dedupe_key host r.raw_command))) [
          | inl same ↦ absurd (
              ne
                (dedupe_key_injective metric.host host q.raw_command r.raw_command hq hr
                  ((str_eq_iff (key_of e metric q) (dedupe_key host r.raw_command)).0 same)).0)
          | inr differ ↦ rw differ
        ])

  pub lookup-marks_other :
      (rules : List (AlertRule D)) (host : Bytes) (r : AlertRule D) (active : Dict Bool)
      → All HasNoBar rules
      → HasNoBar r
      → metric.host ≢ host
      → lookup (dedupe_key host r.raw_command) (marks e metric rules active)
        ≡ lookup (dedupe_key host r.raw_command) active
  unfolding marks
  lookup-marks_other [] host r active _ hr ne = refl
  lookup-marks_other (q ∷ qs) host r active (hq, hqs) hr ne =
      lookup-marks_other qs host r _ hqs hr ne ∙ lookup-insert_other host q r _ active hq hr ne

  -- A metric of one host leaves what is remembered of the rules for each other host as it was, if
  -- no command holds a bar.
  pub evaluate_rules_other :
      (s : MonitorServer D) (host : Bytes) (r : AlertRule D)
      → All HasNoBar s.alert_rules
      → HasNoBar r
      → metric.host ≢ host
      → lookup (dedupe_key host r.raw_command) (evaluate_rules e metric s).active_alerts
        ≡ lookup (dedupe_key host r.raw_command) s.active_alerts
  evaluate_rules_other s host r hs hr ne =
      rw (evaluate_rules_lem e metric s)
        (lookup-marks_other s.alert_rules host r s.active_alerts hs hr ne)
