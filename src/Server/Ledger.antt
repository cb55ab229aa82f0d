-- ===== src/Server/Ledger.antt =====
-- cpp/server/main.cpp: the sockets that `run` accepts, and those that it closes, counted.
use sys_net_mon.Base.{
  ℕ, ◌+◌, Bool, Option, none, some, List, [], ◌∷◌, ◌++◌, reverse, Bytes, ◌≡◌, refl, sym, ap, ◌∙◌,
  arith, if◌then◌else◌, returned, threw, undefined, >>=-eq-returned, append-nil, ◌==◌, Bool-cases,
  inl, inr,
}
use mathlib.Core.List.{map-append, reverse-cons}
use sys_net_mon.Machine.{Machine}
use sys_net_mon.Server.{ClientConnection, MonitorServer}
use sys_net_mon.Server.Rounds.{
  Ready, Selected, interrupted, failed, ready, run, shutdown_all, serve_round, fits_set, watched,
  fds, option_list, listen_ready, accept_if_ready, accept_connection,
}
use sys_net_mon.Server.Closed.{is_gone, without, only, serve_round-closed}

-- how often a socket stands in a list
unfoldable pub count : ℕ → List ℕ → ℕ
count fd [] = 0
count fd (x ∷ xs) = if x == fd then count fd xs + 1 else count fd xs

count_none : (fd : ℕ) → count fd [] ≡ 0
unfolding count
count_none fd = refl

count-append : (fd : ℕ) (xs ys : List ℕ) → count fd (xs ++ ys) ≡ count fd xs + count fd ys
unfolding count
count-append fd [] ys = omega arith
count-append fd (x ∷ xs) ys = ground (arith, count-append fd xs ys)

count-reverse : (fd : ℕ) (xs : List ℕ) → count fd (reverse xs) ≡ count fd xs
unfolding count
count-reverse fd [] = refl
count-reverse fd (x ∷ xs) =
    ap (count fd) (reverse-cons x xs)
    ∙ count-append fd (reverse xs) (x ∷ [])
    ∙ ground (arith, count-reverse fd xs)

-- Each element passes a test or fails it.
count-parts :
    (fd : ℕ) (p : ℕ → Bool) (xs : List ℕ)
    → count fd (without p xs) + count fd (only p xs) ≡ count fd xs
unfolding count without only
count-parts fd p [] = refl
count-parts fd p (x ∷ xs) = ground (arith, count-parts fd p xs)

-- the socket of a peer, if `accept` gave one
abbrev pub accepted_fd : Option (ℕ × Bytes) → List ℕ
accepted_fd none = []
accepted_fd (some (fd, label)) = fd ∷ []

module _ {D : Type 0} where
  -- the socket that a round accepts
  unfoldable pub accepted_in : Ready → MonitorServer D → List ℕ
  accepted_in r s = if listen_ready r s then accepted_fd r.accepted else []

  -- A socket that is accepted becomes the last connection, and nothing is closed.
  record IsAccepted (more : List ℕ) (s t : MonitorServer D) : Type 0 where
    open_fds : fds t.clients ≡ fds s.clients ++ more
    closed_fds : t.closed ≡ s.closed
    listening : t.listen_fd ≡ s.listen_fd

  accept_connection-IsAccepted :
      (accepted : Option (ℕ × Bytes)) (s : MonitorServer D)
      → IsAccepted (accepted_fd accepted) s (accept_connection accepted s)
  unfolding accept_connection
  accept_connection-IsAccepted none s = record {
    open_fds = sym (append-nil (fds s.clients));
    closed_fds = refl;
    listening = refl;
  }
  accept_connection-IsAccepted (some (fd, label)) s = record {
    open_fds = map-append (λ (c : ClientConnection). c.fd) s.clients _;
    closed_fds = refl;
    listening = refl;
  }

  accept_if_ready-IsAccepted :
      (r : Ready) (s : MonitorServer D) → IsAccepted (accepted_in r s) s (accept_if_ready r s)
  unfolding accept_if_ready accepted_in
  accept_if_ready-IsAccepted r s = elim (Bool-cases (listen_ready r s)) [
    | inl waiting ↦ rw waiting (accept_connection-IsAccepted r.accepted s)
    | inr quiet ↦ rw quiet (record {
      open_fds = sym (append-nil (fds s.clients));
      closed_fds = refl;
      listening = refl;
    })
  ]

  -- how often a socket was opened: it is open now, or it was closed
  abbrev pub ever_open : ℕ → MonitorServer D → ℕ
  ever_open fd s = count fd (fds s.clients) + count fd s.closed

module _ {D : Type 0} (e : Machine D) where
  -- the sockets that a run accepts
  unfoldable pub accepted_by : List Selected → MonitorServer D → List ℕ
  unfolding accepted_in
  accepted_by [] s = []
  accepted_by (interrupted ∷ rounds) s = accepted_by rounds s
  accepted_by (failed ∷ rounds) s = []
  accepted_by (ready r ∷ rounds) s = accepted_in r s ++ elim (serve_round e r s) [
    | returned t ↦ accepted_by rounds t
    | threw ↦ []
    | undefined ↦ []
  ]

  serve_round-count :
      (r : Ready) (s t : MonitorServer D) (fd : ℕ)
      → serve_round e r s ≡ returned t
      → ever_open fd t ≡ ever_open fd s + count fd (accepted_in r s)
  serve_round-count r s t fd h =
      let (kept, gone, same) = serve_round-closed e r s t h in
      let accepted = accept_if_ready-IsAccepted r s in
      let p = is_gone r in
      let now = fds (accept_if_ready r s).clients in
      omega (
        arith,
        ap (count fd) kept,
        ap (count fd) gone,
        count-append fd (accept_if_ready r s).closed (reverse (only p now)),
        count-reverse fd (only p now),
        count-parts fd p now,
        ap (count fd) accepted.open_fds,
        ap (count fd) accepted.closed_fds,
        count-append fd (fds s.clients) (accepted_in r s),
      )

  serve_round-listening :
      (r : Ready) (s t : MonitorServer D)
      → serve_round e r s ≡ returned t
      → t.listen_fd ≡ s.listen_fd
  serve_round-listening r s t h =
      let (kept, gone, same) = serve_round-closed e r s t h in
      same ∙ (accept_if_ready-IsAccepted r s).listening

  shutdown_all-count :
      (s : MonitorServer D) (fd : ℕ)
      → count fd (shutdown_all s).closed ≡ ever_open fd s + count fd (option_list s.listen_fd)
  unfolding shutdown_all
  shutdown_all-count s fd = omega (
    arith,
    count-append fd s.closed (fds s.clients ++ option_list s.listen_fd),
    count-append fd (fds s.clients) (option_list s.listen_fd),
  )

  -- A run that returns has closed each socket as often as it was opened.
  pub run-count :
      (rounds : List Selected) (s t : MonitorServer D) (fd : ℕ)
      → run e rounds s ≡ returned t
      → count fd t.closed
        ≡ ever_open fd s + count fd (option_list s.listen_fd) + count fd (accepted_by rounds s)
  unfolding run accepted_by
  run-count [] s t fd h =
      let same : shutdown_all s ≡ t = ground arith in
      omega (arith, ap (λ x. count fd x.closed) same, shutdown_all-count s fd, count_none fd)
  run-count (interrupted ∷ rounds) s t fd h = run-count rounds s t fd (ground arith)
  run-count (failed ∷ rounds) s t fd h =
      let same : shutdown_all s ≡ t = ground arith in
      omega (arith, ap (λ x. count fd x.closed) same, shutdown_all-count s fd, count_none fd)
  run-count (ready r ∷ rounds) s t fd h = elim (Bool-cases (fits_set (watched s))) [
    | inr outside ↦ absurd (ground arith)
    | inl fits ↦
        let (u, served, rest) = >>=-eq-returned (serve_round e r s) _ (rw fits at h) in
        rw served (
          omega (
            arith,
            run-count rounds u t fd rest,
            serve_round-count r s u fd served,
            ap (λ o. count fd (option_list o)) (serve_round-listening r s u served),
            count-append fd (accepted_in r s) (accepted_by rounds u),
          ))
  ]
