-- ===== src/Server/Defined.antt =====
-- cpp/server/main.cpp: where the behaviour of `run` is defined.
use sys_net_mon.Base.{
  ℕ, zero, suc, ◌+◌, ◌<◌, Bool, true, false, not, Option, none, some, List, [], ◌∷◌, ◌++◌, Bytes,
  codes, ◌≡◌, refl, ap, sym, subst, ◌∙◌, arith, Outcome, returned, undefined, IsDefined,
  bind-IsDefined, bind-eq-undefined, returned-IsDefined, at, ltb, length, length-map, Bool-cases,
  inl, inr,
}
use sys_net_mon.Machine.{Machine}
use sys_net_mon.Text.{trim}
use sys_net_mon.Decimal.{stoll}
use sys_net_mon.Decimal.Defined.{stoll-IsDefined}
use sys_net_mon.Json.{json_get_number, json_get_integer, json_get_string, convert}
use sys_net_mon.Alert.{match_alert, parse_alert_command, read_rule}
use sys_net_mon.Server.{ClientConnection, MonitorServer, value_or}
use sys_net_mon.Server.Lines.{
  read_metric, handle_metrics, handle_command, finish_alert, dispatch, handle_line, take_line,
  read_client,
}
use sys_net_mon.Server.Rounds.{
  Ready, Selected, interrupted, failed, ready, fd_isset, fd_setsize, fits_set, fds, watched,
  serve_client, serve_clients, serve_round, accept_if_ready, run,
}
use sys_net_mon.Server.Reach.{serve_client-Talks}
use sys_net_mon.Server.Sockets.{Talks-SameSockets}
use sys_net_mon.Server.Closed.{closing_lem}
use sys_net_mon.Server.Framing.{lines}
use sys_net_mon.Server.Reading.{run_lines, read_all, take_line-at}
use sys_net_mon.Server.Chunks.{read_client_lem}

at_inside {ℓ} :
    {A : Type ℓ} (xs : List A) (i : ℕ) → i < length xs → (x : A) × (at xs i ≡ returned x)
at_inside [] i h = absurd (omega (arith, h))
at_inside (x ∷ xs) zero h = (x, refl)
at_inside (x ∷ xs) (suc i) h = at_inside xs i (omega (arith, h))

-- Each connection of a list that fits has a socket in bounds.
fits_at :
    (cs : List ClientConnection) (i : ℕ) (c : ClientConnection)
    → fits_set (fds cs) ≡ true
    → at cs i ≡ returned c
    → ltb c.fd fd_setsize ≡ true
unfolding fits_set
fits_at [] i c h there = absurd (ground arith)
fits_at (d ∷ ds) zero c h there = ground arith
fits_at (d ∷ ds) (suc i) c h there = fits_at ds i c (ground arith) there

convert-IsDefined {ℓ} :
    {A : Type ℓ} (f : Bytes → Outcome A) (group : Option Bytes)
    → ((t : Bytes) → IsDefined (f t))
    → IsDefined (convert f group)
convert-IsDefined f none h = returned-IsDefined none
convert-IsDefined f (some t) h = bind-IsDefined (f t) _ (h t) (λ v _. returned-IsDefined (some v))

module _ {D : Type 0} (e : Machine D) (known : (t : Bytes) → IsDefined (e.stod t)) where
  number-IsDefined : (line key : Bytes) → IsDefined (json_get_number e line key)
  unfolding json_get_number
  number-IsDefined line key = convert-IsDefined e.stod _ known

  integer-IsDefined : (line key : Bytes) → IsDefined (json_get_integer line key)
  unfolding json_get_integer
  integer-IsDefined line key = convert-IsDefined stoll _ stoll-IsDefined

  read_rule-IsDefined :
      (text : Bytes) (groups : Option (Bytes × ℕ × Bytes)) → IsDefined (read_rule e text groups)
  unfolding read_rule
  read_rule-IsDefined text none = λ p. cc
  read_rule-IsDefined text (some (word, comparison, number)) =
      bind-IsDefined (e.stod number) _ (known number) (λ a _. returned-IsDefined _)

  read_metric-IsDefined :
      (client : ClientConnection) (reading : ℕ) (line : Bytes)
      → IsDefined (read_metric e client reading line)
  unfolding read_metric
  read_metric-IsDefined client reading line =
      let number = number-IsDefined line in
      let integer = integer-IsDefined line in
      bind-IsDefined _ _ (number _) λ _ _. bind-IsDefined _ _ (number _) λ _ _.
        bind-IsDefined _ _ (number _) λ _ _. bind-IsDefined _ _ (number _) λ _ _.
          bind-IsDefined _ _ (number _) λ _ _. bind-IsDefined _ _ (integer _) λ _ _.
            bind-IsDefined _ _ (integer _) λ _ _.
              bind-IsDefined _ _ (integer _)
                λ _ _. bind-IsDefined _ _ (integer _) λ _ _. returned-IsDefined _

  handle_metrics-IsDefined :
      (client : ClientConnection) (line : Bytes) (s : MonitorServer D)
      → IsDefined (handle_metrics e client line s)
  unfolding handle_metrics
  handle_metrics-IsDefined client line s =
      bind-IsDefined _ _ (read_metric-IsDefined client s.readings line)
        (λ a _. returned-IsDefined _)

  handle_command-IsDefined :
      (client : ClientConnection) (text : Bytes) (s : MonitorServer D)
      → IsDefined (handle_command e client text s)
  unfolding handle_command parse_alert_command
  handle_command-IsDefined client text s =
      let parsed = read_rule-IsDefined text (match_alert text) in
      let added =
        bind-IsDefined _ (λ rule. returned (finish_alert e client rule s)) parsed
          (λ a _. returned-IsDefined _) in
      λ p. ground (arith, added)

  dispatch-IsDefined :
      (index : ℕ) (client : ClientConnection) (type line : Bytes) (s : MonitorServer D)
      → IsDefined (dispatch e index client type line s)
  unfolding dispatch
  dispatch-IsDefined index client type line s = λ p. ground (
    arith,
    handle_metrics-IsDefined client line s,
    handle_command-IsDefined client (value_or [] (json_get_string line (codes "text"))) s,
  )

  take_line-IsDefined :
      (index : ℕ) (line : Bytes) (s : MonitorServer D) (client : ClientConnection)
      → at s.clients index ≡ returned client
      → IsDefined (take_line e index line s)
  unfolding take_line handle_line
  take_line-IsDefined index line s client there =
      let done =
        dispatch-IsDefined index client (value_or [] (json_get_string line (codes "type"))) line
          s in
      rw there (λ p. ground (arith, done))

  run_lines-IsDefined :
      (index : ℕ) (ls : List Bytes) (s : MonitorServer D) (client : ClientConnection)
      → at s.clients index ≡ returned client
      → IsDefined (run_lines e index ls s)
  unfolding run_lines
  run_lines-IsDefined index [] s client there = returned-IsDefined s
  run_lines-IsDefined index (l ∷ ls) s client there =
      bind-IsDefined _ _ (take_line-IsDefined index (trim l) s client there) λ t taken.
        let (after, still) = take_line-at e index (trim l) s t client there taken in
        run_lines-IsDefined index ls t after still

  read_client-IsDefined :
      (index : ℕ) (chunk : Bytes) (s : MonitorServer D) (client : ClientConnection)
      → at s.clients index ≡ returned client
      → IsDefined (read_client e index chunk s)
  read_client-IsDefined index [] s client there = unfold read_client in returned-IsDefined _
  read_client-IsDefined index (c ∷ chunk) s client there =
      let pending = client.buffer ++ c ∷ chunk in
      let read : IsDefined (read_all e index pending s) =
        bind-IsDefined (run_lines e index (lines [] pending) s) _
          (run_lines-IsDefined index (lines [] pending) s client there)
          (λ a _. returned-IsDefined _) in
      subst IsDefined (sym (read_client_lem e index c chunk s client there))
        (bind-IsDefined (read_all e index pending s) _ read (λ a _. returned-IsDefined (true, a)))

  module _ (r : Ready) where
    serve_client-IsDefined :
        (index : ℕ) (s : MonitorServer D)
        → index < length s.clients
        → fits_set (fds s.clients) ≡ true
        → IsDefined (serve_client e r index s)
    unfolding serve_client fd_isset
    serve_client-IsDefined index s inside fits =
        let (client, there) = at_inside s.clients index inside in
        let chunk = r.received client.fd in
        let read =
          bind-IsDefined {B = Bool × MonitorServer D} _
            (λ (result : Bool × MonitorServer D). returned (not result.0, result.1))
            (read_client-IsDefined index chunk s client there) (λ a _. returned-IsDefined _) in
        rw (there, fits_at s.clients index client fits there) (λ p. ground (arith, read))

    serve_clients-IsDefined :
        (count index : ℕ) (marked : List ℕ) (s : MonitorServer D)
        → index + count ≡ length s.clients
        → fits_set (fds s.clients) ≡ true
        → IsDefined (serve_clients e r count index marked s)
    unfolding serve_clients
    serve_clients-IsDefined zero index marked s all fits = returned-IsDefined _
    serve_clients-IsDefined (suc n) index marked s all fits =
        bind-IsDefined _ _ (serve_client-IsDefined index s (omega (arith, all)) fits)
          λ result served.
            let still =
              Talks-SameSockets e s result.1 (serve_client-Talks e r index s result served) in
            serve_clients-IsDefined n (index + 1) _ result.1
              (omega (
                arith,
                all,
                length-map s.clients (λ (c : ClientConnection). c.fd),
                length-map result.1.clients (λ (c : ClientConnection). c.fd),
                ap length still.open_fds,
              ))
              (ap fits_set still.open_fds ∙ fits)

    pub serve_round-IsDefined :
        (s : MonitorServer D)
        → fits_set (fds (accept_if_ready r s).clients) ≡ true
        → IsDefined (serve_round e r s)
    unfolding serve_round
    serve_round-IsDefined s fits =
        let s1 = accept_if_ready r s in
        bind-IsDefined _ _ (serve_clients-IsDefined (length s1.clients) 0 [] s1 (omega arith) fits)
          λ result served.
            subst IsDefined (sym (closing_lem e r s1 result served)) (returned-IsDefined _)

  -- A round of a run uses a socket that is `FD_SETSIZE` or more: it is given to `FD_SET` before
  -- `select`, or it is one that `FD_ISSET` is asked for after `accept`. The rounds before return.
  pub data Outside : List Selected → MonitorServer D → Type 0 where
    set_outside :
        (now : Selected) (rounds : List Selected) (s : MonitorServer D)
        → fits_set (watched s) ≡ false
        → Outside (now ∷ rounds) s
    test_outside :
        (r : Ready) (rounds : List Selected) (s : MonitorServer D)
        → fits_set (fds (accept_if_ready r s).clients) ≡ false
        → Outside (ready r ∷ rounds) s
    after_wait :
        (rounds : List Selected) (s : MonitorServer D)
        → Outside rounds s
        → Outside (interrupted ∷ rounds) s
    after_round :
        (r : Ready) (rounds : List Selected) (s t : MonitorServer D)
        → serve_round e r s ≡ returned t
        → Outside rounds t
        → Outside (ready r ∷ rounds) s

  -- If `std::stod` has a defined behaviour, the behaviour of a run is undefined only if one of its
  -- rounds, with the rounds before it returning, calls `FD_SET` or `FD_ISSET` for a socket of the
  -- server that is `FD_SETSIZE` or more.
  pub run_undefined :
      (rounds : List Selected) (s : MonitorServer D) → run e rounds s ≡ undefined → Outside rounds s
  unfolding run
  run_undefined [] s h = absurd (returned-IsDefined _ h)
  run_undefined (interrupted ∷ rounds) s h = elim (Bool-cases (fits_set (watched s))) [
    | inl fits ↦ after_wait rounds s (run_undefined rounds s (rw fits at h))
    | inr outside ↦ set_outside interrupted rounds s outside
  ]
  run_undefined (failed ∷ rounds) s h = elim (Bool-cases (fits_set (watched s))) [
    | inl fits ↦ absurd (returned-IsDefined _ (rw fits at h))
    | inr outside ↦ set_outside failed rounds s outside
  ]
  run_undefined (ready r ∷ rounds) s h = elim (Bool-cases (fits_set (watched s))) [
    | inr outside ↦ set_outside (ready r) rounds s outside
    | inl fits ↦ elim (Bool-cases (fits_set (fds (accept_if_ready r s).clients))) [
      | inr outside ↦ test_outside r rounds s outside
      | inl inside ↦
          let (t, served, bad) =
            bind-eq-undefined (serve_round e r s) (run e rounds) (serve_round-IsDefined r s inside)
              (rw fits at h) in
          after_round r rounds s t served (run_undefined rounds t bad)
    ]
  ]
