-- ===== src/Server/Reading.antt =====
-- cpp/server/main.cpp: the loop of `read_client`, line by line.
use sys_net_mon.Base.{
  ℕ, zero, suc, ◌<◌, some, List, [], ◌∷◌, ◌++◌, Bytes, ◌≡◌, refl, ap, sym, ◌∙◌, arith, Outcome,
  returned, ◌>>=◌, bind_assoc, bind_cong, >>=-eq-returned, at, set, Bool-cases, Option-cases, inl,
  inr, length,
}
use sys_net_mon.Machine.{Machine}
use sys_net_mon.Text.{trim}
use sys_net_mon.Events.{MetricSnapshot, AlertRule}
use sys_net_mon.Server.{ClientConnection, MonitorServer, send_to}
use sys_net_mon.Server.Broadcast.{broadcast_lem}
use sys_net_mon.Server.Alerts.{evaluate_rules_lem}
use sys_net_mon.Server.Lines.{
  is_empty, split_line, take_line, set_buffer, read_split, read_lines, registered, handle_register,
  greet_dashboard, store_metric, add_rule,
}
use sys_net_mon.Server.Steps.{
  LineStep, registers, measures, adds, chats, replies, handle_line-LineStep,
}
use sys_net_mon.Server.Framing.{lines, rest, split_none, split_some}
use sys_net_mon.Server.Buffers.{
  with_buffer, set-eq-rebuffer, at-rebuffer, rebuffer-rebuffer, rebuffer_own, take_line-with_buffer,
}

module _ {D : Type 0} (e : Machine D) where
  -- The lines are taken one after the other, as `read_client` takes them.
  unfoldable pub run_lines : ℕ → List Bytes → MonitorServer D → Outcome (MonitorServer D)
  run_lines index [] s = returned s
  run_lines index (line ∷ lines) s = do
    s' ← take_line e index (trim line) s
    run_lines index lines s'

  store_metric-clients :
      (metric : MetricSnapshot D) (s : MonitorServer D)
      → (store_metric e metric s).clients ≡ s.clients
  unfolding store_metric
  store_metric-clients metric s = rw (evaluate_rules_lem e metric, broadcast_lem)

  add_rule-clients :
      (client : ClientConnection) (rule : AlertRule D) (s : MonitorServer D)
      → (add_rule e client rule s).clients ≡ s.clients
  unfolding add_rule send_to
  add_rule-clients client rule s = simp broadcast_lem

  register-clients :
      (index : ℕ) (client : ClientConnection) (line : Bytes) (s : MonitorServer D)
      → (handle_register e index client line s).clients
        ≡ set s.clients index (registered client line)
  unfolding handle_register greet_dashboard send_to
  register-clients index client line s = ground arith

  at-set :
      (cs : List ClientConnection) (i : ℕ) (c d : ClientConnection)
      → at cs i ≡ returned c
      → at (set cs i d) i ≡ returned d
  at-set [] i c d h = cc
  at-set (x ∷ cs) zero c d h = refl
  at-set (x ∷ cs) (suc i) c d h = at-set cs i c d h

  -- The connection of a line is still there when the line is handled.
  LineStep-at :
      (index : ℕ) (s t : MonitorServer D) (client : ClientConnection)
      → LineStep e index s t
      → at s.clients index ≡ returned client
      → (after : ClientConnection) × (at t.clients index ≡ returned after)
  unfolding send_to
  LineStep-at index s t client (registers c line there) h =
      (registered c line, rw (register-clients index c line s) (at-set s.clients index c _ there))
  LineStep-at index s t client (measures c metric there role) h =
      (client, rw (store_metric-clients metric) h)
  LineStep-at index s t client (adds c text rule there parsed) h =
      (client, rw (add_rule-clients c rule s) h)
  LineStep-at index s t client (chats message) h = (client, rw broadcast_lem h)
  LineStep-at index s t client (replies c payload there reply) h = (client, h)

  pub returned_eq : (t s : MonitorServer D) → returned s ≡ returned t → t ≡ s
  returned_eq t s h = ground arith

  pub take_line-at :
      (index : ℕ) (line : Bytes) (s t : MonitorServer D) (client : ClientConnection)
      → at s.clients index ≡ returned client
      → take_line e index line s ≡ returned t
      → (after : ClientConnection) × (at t.clients index ≡ returned after)
  unfolding take_line
  take_line-at index line s t client there h = elim (Bool-cases (is_empty line)) [
    | inl nothing ↦ (
      client,
      ap (λ (x : MonitorServer D). at x.clients index) (returned_eq t s (rw nothing at h)) ∙ there,
    )
    | inr something ↦
        LineStep-at index s t client (handle_line-LineStep e index line s t (rw something at h))
          there
  ]

  run_lines-with_buffer :
      (index : ℕ) (b : Bytes) (ls : List Bytes) (s : MonitorServer D) (client : ClientConnection)
      → at s.clients index ≡ returned client
      → run_lines index ls (with_buffer e index b s)
        ≡ (run_lines index ls s >>= λ t. returned (with_buffer e index b t))
  unfolding run_lines
  run_lines-with_buffer index b [] s client there = refl
  run_lines-with_buffer index b (l ∷ ls) s client there =
      ap (λ m. m >>= run_lines index ls) (take_line-with_buffer e index b (trim l) s client there)
      ∙ bind_assoc (take_line e index (trim l) s) _ _
      ∙ bind_cong (take_line e index (trim l) s) _ _ (λ t taken.
        let (after, still) = take_line-at index (trim l) s t client there taken in
        run_lines-with_buffer index b ls t after still)
      ∙ sym (bind_assoc (take_line e index (trim l) s) _ _)

  pub run_lines-append :
      (index : ℕ) (ls ms : List Bytes) (s : MonitorServer D)
      → run_lines index (ls ++ ms) s ≡ (run_lines index ls s >>= run_lines index ms)
  unfolding run_lines
  run_lines-append index [] ms s = refl
  run_lines-append index (l ∷ ls) ms s =
      bind_cong (take_line e index (trim l) s) _ _ (λ t _. run_lines-append index ls ms t)
      ∙ sym (bind_assoc (take_line e index (trim l) s) _ _)

  pub run_lines-at :
      (index : ℕ) (ls : List Bytes) (s t : MonitorServer D) (client : ClientConnection)
      → at s.clients index ≡ returned client
      → run_lines index ls s ≡ returned t
      → (after : ClientConnection) × (at t.clients index ≡ returned after)
  unfolding run_lines
  run_lines-at index [] s t client there h =
      (client, ap (λ (x : MonitorServer D). at x.clients index) (returned_eq t s h) ∙ there)
  run_lines-at index (l ∷ ls) s t client there h =
      let (u, taken, left) = >>=-eq-returned (take_line e index (trim l) s) _ h in
      let (after, still) = take_line-at index (trim l) s u client there taken in
      run_lines-at index ls u t after still left

  -- Setting the buffer twice, with lines in between.
  pub run_lines_again :
      (index : ℕ) (a b : Bytes) (ls : List Bytes) (t : MonitorServer D) (client : ClientConnection)
      → at t.clients index ≡ returned client
      → (run_lines index ls (with_buffer e index a t) >>= λ u. returned (with_buffer e index b u))
        ≡ (run_lines index ls t >>= λ u. returned (with_buffer e index b u))
  run_lines_again index a b ls t client there =
      ap (λ m. m >>= λ u. returned (with_buffer e index b u))
        (run_lines-with_buffer index a ls t client there)
      ∙ bind_assoc (run_lines index ls t) _ _
      ∙ bind_cong (run_lines index ls t) _ _ (λ u _.
        ap (λ x. returned (record u { clients = x })) (rebuffer-rebuffer u.clients index a b))

  -- What a read does: the complete lines, one after the other, and then the rest is kept.
  abbrev pub read_all : ℕ → Bytes → MonitorServer D → Outcome (MonitorServer D)
  read_all index pending s = run_lines index (lines [] pending) s >>= λ t.
      returned (with_buffer e index (rest [] pending) t)

  read_first :
      (loop : MonitorServer D → Outcome (MonitorServer D)) (index : ℕ) (s : MonitorServer D)
      (client : ClientConnection) (l r : Bytes)
      → at s.clients index ≡ returned client
      → ((t : MonitorServer D) (after : ClientConnection)
          → at t.clients index ≡ returned after
          → loop (with_buffer e index r t) ≡ read_all index r (with_buffer e index r t))
      → read_split e loop index client (some (l, r)) s
        ≡ (run_lines index (l ∷ lines [] r) s >>= λ t. returned (with_buffer e index (rest [] r) t))
  unfolding read_split run_lines set_buffer
  read_first loop index s client l r there goes =
      ap (λ x. take_line e index (trim l) (record s { clients = x }) >>= loop)
        (set-eq-rebuffer s.clients index r client there)
      ∙ ap (λ m. m >>= loop) (take_line-with_buffer e index r (trim l) s client there)
      ∙ bind_assoc (take_line e index (trim l) s) _ loop
      ∙ bind_cong (take_line e index (trim l) s) _ _ (λ t taken.
        let (after, still) = take_line-at index (trim l) s t client there taken in
        goes t after still ∙ run_lines_again index r (rest [] r) (lines [] r) t after still)
      ∙ sym (bind_assoc (take_line e index (trim l) s) _ _)

  -- With fuel for each byte of the buffer of a connection and one round more, the loop takes all
  -- complete lines and keeps the rest.
  pub read_lines_lem :
      (fuel index : ℕ) (s : MonitorServer D) (client : ClientConnection)
      → at s.clients index ≡ returned client
      → length client.buffer < fuel
      → read_lines e fuel index s ≡ read_all index client.buffer s
  unfolding read_lines
  read_lines_lem zero index s client there enough = absurd (omega arith)
  read_lines_lem (suc fuel) index s client there enough =
      rw there (elim (Option-cases (split_line client.buffer)) [
        | inl no_line ↦
            let (no_lines, all_left) = split_none client.buffer [] no_line in
            unfold read_split run_lines in
            rw (no_line, no_lines, all_left)
              (ap (λ x. returned (record s { clients = x }))
                (sym (rebuffer_own s.clients index client there)))
        | inr ((l, r), found) ↦
            let (first, left, shorter) = split_some client.buffer [] l r found in
            rw (found, first, left)
              (read_first (read_lines e fuel index) index s client l r there (λ t after still.
                read_lines_lem fuel index (with_buffer e index r t) (record after { buffer = r })
                  (at-rebuffer t.clients index r after still) (omega arith)))
      ])
