-- ===== src/Server/Sockets.antt =====
-- cpp/server/main.cpp: reading from the connections, and the sockets.
use sys_net_mon.Base.{
  ℕ, zero, suc, List, [], ◌∷◌, Bytes, ◌≡◌, refl, ap, ◌∙◌, arith, returned, at, set, Bool-cases, inl,
  inr,
}
use sys_net_mon.Machine.{Machine}
use sys_net_mon.Events.{MetricSnapshot, AlertRule}
use sys_net_mon.Server.{ClientConnection, MonitorServer, send_to, is_dashboard, tick}
use sys_net_mon.Server.Broadcast.{broadcast_lem}
use sys_net_mon.Server.Alerts.{evaluate_rules_lem}
use sys_net_mon.Server.Lines.{
  set_buffer, registered, handle_register, greet_dashboard, store_metric, add_rule,
}
use sys_net_mon.Server.Steps.{LineStep, registers, measures, adds, chats, replies}
use sys_net_mon.Server.Rounds.{fds}
use sys_net_mon.Server.Reach.{Talk, Talks, handles, buffers, Steps_induction}

module _ {D : Type 0} where
  pub record SameSockets (s t : MonitorServer D) : Type 0 where
    pub open_fds : fds t.clients ≡ fds s.clients
    pub closed_fds : t.closed ≡ s.closed
    pub listening : t.listen_fd ≡ s.listen_fd

  SameSockets-trans :
      {s t u : MonitorServer D} → SameSockets s t → SameSockets t u → SameSockets s u
  SameSockets-trans p q = record {
    open_fds = q.open_fds ∙ p.open_fds;
    closed_fds = q.closed_fds ∙ p.closed_fds;
    listening = q.listening ∙ p.listening;
  }

fds-set :
    (cs : List ClientConnection) (i : ℕ) (c d : ClientConnection)
    → at cs i ≡ returned c
    → d.fd ≡ c.fd
    → fds (set cs i d) ≡ fds cs
fds-set [] i c d h same = refl
fds-set (x ∷ cs) zero c d h same = ground arith
fds-set (x ∷ cs) (suc i) c d h same = ap (λ y. x.fd ∷ y) (fds-set cs i c d h same)

module _ {D : Type 0} (e : Machine D) where
  store_metric-SameSockets :
      (metric : MetricSnapshot D) (s : MonitorServer D) → SameSockets s (store_metric e metric s)
  unfolding store_metric
  store_metric-SameSockets metric s =
      rw (evaluate_rules_lem e metric, broadcast_lem)
        (record { open_fds = refl; closed_fds = refl; listening = refl })

  add_rule-SameSockets :
      (client : ClientConnection) (rule : AlertRule D) (s : MonitorServer D)
      → SameSockets s (add_rule e client rule s)
  unfolding add_rule send_to
  add_rule-SameSockets client rule s =
      simp broadcast_lem (record { open_fds = refl; closed_fds = refl; listening = refl })

  register-SameSockets :
      (index : ℕ) (client : ClientConnection) (line : Bytes) (s : MonitorServer D)
      → at s.clients index ≡ returned client
      → SameSockets s (handle_register e index client line s)
  unfolding handle_register greet_dashboard send_to registered
  register-SameSockets index client line s there =
      let same = fds-set s.clients index client (registered client line) there refl in
      elim (Bool-cases (is_dashboard (registered client line).role)) [
        | inl h ↦ rw h (record { open_fds = same; closed_fds = refl; listening = refl })
        | inr h ↦ rw h (record { open_fds = same; closed_fds = refl; listening = refl })
      ]

  line-SameSockets : (index : ℕ) (s t : MonitorServer D) → LineStep e index s t → SameSockets s t
  unfolding send_to
  line-SameSockets index s t (registers client line there) =
      register-SameSockets index client line s there
  line-SameSockets index s t (measures client metric there role) =
      let moved = store_metric-SameSockets metric (tick s) in
      record {
        open_fds = moved.open_fds;
        closed_fds = moved.closed_fds;
        listening = moved.listening;
      }
  line-SameSockets index s t (adds client text rule there parsed) =
      add_rule-SameSockets client rule s
  line-SameSockets index s t (chats message) =
      rw broadcast_lem (record { open_fds = refl; closed_fds = refl; listening = refl })
  line-SameSockets index s t (replies client payload there reply) = record {
    open_fds = refl;
    closed_fds = refl;
    listening = refl;
  }

  Talk-SameSockets : (s t : MonitorServer D) → Talk e s t → SameSockets s t
  unfolding set_buffer
  Talk-SameSockets s t (handles index step) = line-SameSockets index s t step
  Talk-SameSockets s t (buffers index client buffer there) = record {
    open_fds = fds-set s.clients index client (record client { buffer = buffer }) there refl;
    closed_fds = refl;
    listening = refl;
  }

  pub Talks-SameSockets : (s t : MonitorServer D) → Talks e s t → SameSockets s t
  Talks-SameSockets s t r =
      Steps_induction (Talk e) (λ u. SameSockets s u)
        (λ u v talk p. SameSockets-trans p (Talk-SameSockets u v talk)) s t r
        (record { open_fds = refl; closed_fds = refl; listening = refl })
