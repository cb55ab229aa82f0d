-- ===== src/Server/Reach.antt =====
-- cpp/server/main.cpp: the moves of the server, as a relation between its states.
use sys_net_mon.Base.{
  ℕ, zero, suc, ◌+◌, Bool, Option, none, some, List, [], ◌∷◌, ◌++◌, Bytes, ◌≡◌, subst, arith,
  Outcome, returned, >>=-eq-returned, at, ltb, Bool-cases, length, reverse, inl, inr,
}
use sys_net_mon.Machine.{Machine}
use sys_net_mon.Text.{trim}
use sys_net_mon.Server.{ClientConnection, MonitorServer}
use sys_net_mon.Server.Lines.{is_empty, take_line, set_buffer, read_split, read_lines, read_client}
use sys_net_mon.Server.Steps.{LineStep, handle_line-LineStep}
use sys_net_mon.Server.Rounds.{
  Ready, Selected, interrupted, failed, ready, is_set, fd_isset, fd_setsize, fits_set, watched,
  erase_at, accept_connection, accept_if_ready, disconnect_client, disconnect_all, shutdown_all,
  listen_ready, serve_client, serve_clients, serve_round, run,
}

module _ {S : Type 0} where
  -- some steps of a relation, one after the other
  pub data Steps (R : S → S → Type 0) (s : S) : S → Type 0 where
    here : Steps R s s
    next : {t u : S} → Steps R s t → R t u → Steps R s u

  pub Steps-trans : {R : S → S → Type 0} {s t u : S} → Steps R s t → Steps R t u → Steps R s u
  Steps-trans r here = r
  Steps-trans r (next q m) = next (Steps-trans r q) m

  pub one : {R : S → S → Type 0} {s t : S} → R s t → Steps R s t
  one m = next here m

  -- What every step keeps holds of every state that is reached.
  pub Steps_induction {ℓ} :
      (R : S → S → Type 0) (P : S → Type ℓ)
      → ((s t : S) → R s t → P s → P t)
      → (s t : S) → Steps R s t
      → P s
      → P t
  Steps_induction R P keep s t here h = h
  Steps_induction R P keep s t (next {t = m} r move) h =
      keep m t move (Steps_induction R P keep s m r h)

  pub Steps-map :
      {R Q : S → S → Type 0} → ((s t : S) → R s t → Q s t) → {s t : S} → Steps R s t → Steps Q s t
  Steps-map f here = here
  Steps-map f (next r m) = next (Steps-map f r) (f _ _ m)

module _ {D : Type 0} (e : Machine D) where
  -- What reading from the connections does.
  pub data Talk (s : MonitorServer D) : MonitorServer D → Type 0 where
    handles : {s' : MonitorServer D} (index : ℕ) → LineStep e index s s' → Talk s s'
    buffers :
        (index : ℕ) (client : ClientConnection) (buffer : Bytes)
        → at s.clients index ≡ returned client
        → Talk s (set_buffer index client buffer s)

  -- What the server does.
  pub data Move (s : MonitorServer D) : MonitorServer D → Type 0 where
    talks : {s' : MonitorServer D} → Talk s s' → Move s s'
    accepts : (fd : ℕ) (label : Bytes) → Move s (accept_connection (some (fd, label)) s)
    disconnects :
        (index : ℕ) (client : ClientConnection)
        → at s.clients index ≡ returned client
        → Move s
            (record s { closed = s.closed ++ client.fd ∷ []; clients = erase_at index s.clients })
    shuts : Move s (shutdown_all s)

  abbrev pub Talks : MonitorServer D → MonitorServer D → Type 0
  Talks = Steps Talk

  abbrev pub Reach : MonitorServer D → MonitorServer D → Type 0
  Reach = Steps Move

  take_line-Talks :
      (index : ℕ) (line : Bytes) (s s' : MonitorServer D)
      → take_line e index line s ≡ returned s'
      → Talks s s'
  unfolding take_line
  take_line-Talks index line s s' h = elim (Bool-cases (is_empty line)) [
    | inl nothing ↦ subst (Talks s) (ground arith) here
    | inr some_there ↦
        one (handles index (handle_line-LineStep e index line s s' (rw some_there at h)))
  ]

  read_split-Talks :
      (loop : MonitorServer D → Outcome (MonitorServer D))
      → ((t t' : MonitorServer D) → loop t ≡ returned t' → Talks t t')
      → (index : ℕ) (client : ClientConnection) (parts : Option (Bytes × Bytes))
        (s s' : MonitorServer D)
      → at s.clients index ≡ returned client
      → read_split e loop index client parts s ≡ returned s'
      → Talks s s'
  unfolding read_split
  read_split-Talks loop goes index client none s s' there h = subst (Talks s) (ground arith) here
  read_split-Talks loop goes index client (some (line, rest)) s s' there h =
      let (t, taken, left) =
        >>=-eq-returned (take_line e index (trim line) (set_buffer index client rest s)) _ h in
      Steps-trans (one (buffers index client rest there))
        (Steps-trans (take_line-Talks index (trim line) _ t taken) (goes t s' left))

  read_lines-Talks :
      (fuel index : ℕ) (s s' : MonitorServer D)
      → read_lines e fuel index s ≡ returned s'
      → Talks s s'
  unfolding read_lines
  read_lines-Talks zero index s s' h = subst (Talks s) (ground arith) here
  read_lines-Talks (suc fuel) index s s' h =
      let (client, there, rest) = >>=-eq-returned (at s.clients index) _ h in
      read_split-Talks (read_lines e fuel index) (read_lines-Talks fuel index) index client _ s s'
        there rest

  read_client-Talks :
      (index : ℕ) (chunk : Bytes) (s : MonitorServer D) (result : Bool × MonitorServer D)
      → read_client e index chunk s ≡ returned result
      → Talks s result.1
  unfolding read_client
  read_client-Talks index [] s result h = subst (Talks s) (ground arith) here
  read_client-Talks index (c ∷ chunk) s result h =
      let (client, there, rest) = >>=-eq-returned (at s.clients index) _ h in
      let pending = client.buffer ++ c ∷ chunk in
      let filled = set_buffer index client pending s in
      let fuel = suc (length pending) in
      let (s', read, done) = >>=-eq-returned (read_lines e fuel index filled) _ rest in
      Steps-trans (one (buffers index client pending there))
        (subst (Talks filled) (ground arith) (read_lines-Talks fuel index filled s' read))

  pub serve_client-Talks :
      (r : Ready) (index : ℕ) (s : MonitorServer D) (result : Bool × MonitorServer D)
      → serve_client e r index s ≡ returned result
      → Talks s result.1
  unfolding serve_client fd_isset
  serve_client-Talks r index s result h =
      let (client, there, found) = >>=-eq-returned (at s.clients index) _ h in
      elim (Bool-cases (ltb client.fd fd_setsize)) [
        | inr outside ↦ absurd (let rest = rw outside at found in ground arith)
        | inl fits ↦
            let rest = rw fits at found in
            elim (Bool-cases (is_set client.fd r.error_set)) [
              | inl failing ↦ subst (Talks s) (ground arith) here
              | inr fine ↦ elim (Bool-cases (is_set client.fd r.read_set)) [
                | inr silent ↦ subst (Talks s) (ground arith) here
                | inl waiting ↦
                    let (answer, read, done) =
                      >>=-eq-returned (read_client e index (r.received client.fd) s) _
                        (rw (fine, waiting) at rest) in
                    subst (Talks s) (ground arith) (read_client-Talks index _ s answer read)
              ]
            ]
      ]

  pub serve_clients-Talks :
      (r : Ready) (count index : ℕ) (marked : List ℕ) (s : MonitorServer D)
      (result : List ℕ × MonitorServer D)
      → serve_clients e r count index marked s ≡ returned result
      → Talks s result.1
  unfolding serve_clients
  serve_clients-Talks r zero index marked s result h = subst (Talks s) (ground arith) here
  serve_clients-Talks r (suc count) index marked s result h =
      let (one_result, served, rest) = >>=-eq-returned (serve_client e r index s) _ h in
      Steps-trans (serve_client-Talks r index s one_result served)
        (serve_clients-Talks r count (index + 1) _ one_result.1 result rest)

  disconnect_all-Reach :
      (indices : List ℕ) (s s' : MonitorServer D)
      → disconnect_all indices s ≡ returned s'
      → Reach s s'
  unfolding disconnect_all disconnect_client
  disconnect_all-Reach [] s s' h = subst (Reach s) (ground arith) here
  disconnect_all-Reach (index ∷ indices) s s' h =
      let (t, closed, rest) = >>=-eq-returned (disconnect_client index s) _ h in
      let (client, there, done) = >>=-eq-returned (at s.clients index) _ closed in
      Steps-trans (one (subst (Move s) (ground arith) (disconnects index client there)))
        (disconnect_all-Reach indices t s' rest)

  accept-Reach :
      (accepted : Option (ℕ × Bytes)) (s : MonitorServer D) → Reach s (accept_connection accepted s)
  unfolding accept_connection
  accept-Reach none s = here
  accept-Reach (some (fd, label)) s = one (accepts fd label)

  accept_if_ready-Reach : (r : Ready) (s : MonitorServer D) → Reach s (accept_if_ready r s)
  unfolding accept_if_ready
  accept_if_ready-Reach r s = elim (Bool-cases (listen_ready r s)) [
    | inl waiting ↦ rw waiting (accept-Reach r.accepted s)
    | inr quiet ↦ rw quiet here
  ]

  serve_round-Reach :
      (r : Ready) (s s' : MonitorServer D) → serve_round e r s ≡ returned s' → Reach s s'
  unfolding serve_round
  serve_round-Reach r s s' h =
      let s1 = accept_if_ready r s in
      let (result, served, rest) =
        >>=-eq-returned (serve_clients e r (length s1.clients) 0 [] s1) _ h in
      Steps-trans (accept_if_ready-Reach r s) (
        Steps-trans
          (Steps-map (λ x y m. talks m)
            (serve_clients-Talks r (length s1.clients) 0 [] s1 result served))
          (disconnect_all-Reach (reverse result.0) result.1 s' rest))

  -- A run that comes to its end goes by the moves above only.
  pub run-Reach :
      (rounds : List Selected) (s s' : MonitorServer D) → run e rounds s ≡ returned s' → Reach s s'
  unfolding run
  run-Reach [] s s' h = subst (Reach s) (ground arith) (one shuts)
  run-Reach (interrupted ∷ rounds) s s' h = run-Reach rounds s s' (ground arith)
  run-Reach (failed ∷ rounds) s s' h = subst (Reach s) (ground arith) (one shuts)
  run-Reach (ready r ∷ rounds) s s' h = elim (Bool-cases (fits_set (watched s))) [
    | inr outside ↦ absurd (ground arith)
    | inl fits ↦
        let (t, served, rest) = >>=-eq-returned (serve_round e r s) _ (rw fits at h) in
        Steps-trans (serve_round-Reach r s t served) (run-Reach rounds t s' rest)
  ]
