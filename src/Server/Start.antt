-- ===== src/Server/Start.antt =====
-- cpp/server/main.cpp: `start` and `main`, over the results of the calls of the system.
use sys_net_mon.Base.{
  ℕ, Bool, true, false, not, Option, none, some, List, [], ◌∷◌, ◌++◌, ◌≡◌, refl, sym, ap, ◌∙◌,
  subst, arith, if◌then◌else◌, Outcome, returned, ◌>>=◌, >>=-eq-returned, lookup, Bool-cases, ◌⊎◌,
  inl, inr,
}
use sys_net_mon.Machine.{Machine}
use sys_net_mon.Server.{MonitorServer}
use sys_net_mon.Server.Rounds.{
  Selected, interrupted, failed, ready, run, shutdown_all, serve_round, fits_set, watched,
  option_list,
}
use sys_net_mon.Server.Ledger.{count, accepted_by, run-count}
use sys_net_mon.Server.Rules.{IsConsistent, run-IsConsistent}

module _ {D : Type 0} where
  -- the members of a new server
  abbrev pub fresh : MonitorServer D
  fresh = record {
    listen_fd = none;
    clients = [];
    latest_metrics = [];
    alert_rules = [];
    active_alerts = [];
    sent = [];
    closed = [];
    readings = 0;
  }

  -- `close_socket(listen_fd_)`, and the member is set to `invalid_socket`
  unfoldable pub give_up : ℕ → MonitorServer D → MonitorServer D
  give_up fd s = record s { closed = s.closed ++ fd ∷ []; listen_fd = none }

  -- `opened` is the result of `socket`; `bound` and `listening` say whether `bind` and `listen`
  -- succeed
  unfoldable pub start : Option ℕ → Bool → Bool → MonitorServer D → Bool × MonitorServer D
  unfolding give_up
  start none bound listening s = (false, record s { listen_fd = none })
  start (some fd) bound listening s =
      if not bound
      then (false, give_up fd s)
      else if not listening
      then (false, give_up fd s)
      else (true, record s { listen_fd = some fd })

module _ {D : Type 0} (e : Machine D) where
  unfoldable pub run_started :
      List Selected → Bool × MonitorServer D → Outcome (ℕ × MonitorServer D)
  run_started rounds (ok, s) =
      if ok then (do t ← run e rounds s; returned (0, t)) else returned (1, s)

  -- `main`: the exit code, and the server as it was left. `runtime` is `socket_runtime.ok()`.
  unfoldable pub main_function :
      Bool → Option ℕ → Bool → Bool → List Selected → Outcome (ℕ × MonitorServer D)
  unfolding run_started start
  main_function runtime opened bound listening rounds =
      if runtime
      then run_started rounds (start opened bound listening fresh)
      else returned (1, fresh)

  fresh-IsConsistent :
      (listen : Option ℕ) (closed : List ℕ)
      → IsConsistent e (record fresh { listen_fd = listen; closed = closed })
  unfolding lookup
  fresh-IsConsistent listen closed = record {
    parsed = tt;
    no_bar = tt;
    hosts = λ host m h. cc;
    memory = λ host r b parsed h. cc;
  }

  -- The server has no socket.
  pub record IsShut (s : MonitorServer D) : Type 0 where
    pub no_clients : s.clients ≡ []
    pub no_listener : s.listen_fd ≡ none

  -- the sockets that `main` opens: the one of `start`, and those that `run` accepts
  unfoldable pub sockets : Bool → Option ℕ → Bool → Bool → List Selected → List ℕ
  unfolding start
  sockets false opened bound listening rounds = []
  sockets true opened bound listening rounds =
      let result = start opened bound listening fresh in
      option_list opened ++ (if result.0 then accepted_by e rounds result.1 else [])

  -- Each socket of a list was closed as often as it stands there, and no other was closed.
  abbrev pub IsClosed : List ℕ → MonitorServer D → Type 0
  IsClosed fds s = (fd : ℕ) → count fd s.closed ≡ count fd fds

  run-IsShut :
      (rounds : List Selected) (s t : MonitorServer D) → run e rounds s ≡ returned t → IsShut t
  unfolding run
  run-IsShut [] s t h =
      let same : shutdown_all s ≡ t = ground arith in
      subst IsShut same (unfold shutdown_all in record { no_clients = refl; no_listener = refl })
  run-IsShut (interrupted ∷ rounds) s t h = run-IsShut rounds s t (ground arith)
  run-IsShut (failed ∷ rounds) s t h =
      let same : shutdown_all s ≡ t = ground arith in
      subst IsShut same (unfold shutdown_all in record { no_clients = refl; no_listener = refl })
  run-IsShut (ready r ∷ rounds) s t h = elim (Bool-cases (fits_set (watched s))) [
    | inl fits ↦
        let (u, served, rest) = >>=-eq-returned (serve_round e r s) _ (rw fits at h) in
        run-IsShut rounds u t rest
    | inr outside ↦ absurd (ground arith)
  ]

  run_started-IsShut :
      (rounds : List Selected) (ok : Bool) (s t : MonitorServer D) (code : ℕ)
      → run_started rounds (ok, s) ≡ returned (code, t)
      → IsConsistent e s
      → (ok ≡ true) ⊎ IsShut s
      → IsConsistent e t × IsShut t
  unfolding run_started
  run_started-IsShut rounds true s t code h v shut =
      let (u, ran, done) = >>=-eq-returned (run e rounds s) _ h in
      let same : u ≡ t = ground arith in
      (
        subst (IsConsistent e) same (run-IsConsistent e rounds s u ran v),
        subst IsShut same (run-IsShut rounds s u ran),
      )
  run_started-IsShut rounds false s t code h v (inl p) = cc
  run_started-IsShut rounds false s t code h v (inr shut) =
      let same : s ≡ t = ground arith in (subst (IsConsistent e) same v, subst IsShut same shut)

  started :
      (opened : Option ℕ) (bound listening : Bool) (rounds : List Selected) (t : MonitorServer D)
      (code : ℕ)
      → run_started rounds (start opened bound listening fresh) ≡ returned (code, t)
      → IsConsistent e t × IsShut t
  unfolding start give_up
  started none bound listening rounds t code h =
      run_started-IsShut rounds false _ t code h (fresh-IsConsistent none [])
        (inr (record { no_clients = refl; no_listener = refl }))
  started (some fd) false listening rounds t code h =
      run_started-IsShut rounds false _ t code h (fresh-IsConsistent none (fd ∷ []))
        (inr (record { no_clients = refl; no_listener = refl }))
  started (some fd) true false rounds t code h =
      run_started-IsShut rounds false _ t code h (fresh-IsConsistent none (fd ∷ []))
        (inr (record { no_clients = refl; no_listener = refl }))
  started (some fd) true true rounds t code h =
      run_started-IsShut rounds true _ t code h (fresh-IsConsistent (some fd) []) (inl refl)

  run_started-IsClosed :
      (rounds : List Selected) (fd : ℕ) (t : MonitorServer D) (code : ℕ)
      → run_started rounds (true, record fresh { listen_fd = some fd }) ≡ returned (code, t)
      → IsClosed (fd ∷ accepted_by e rounds (record fresh { listen_fd = some fd })) t
  unfolding run_started count
  run_started-IsClosed rounds fd t code h x =
      let s : MonitorServer D = record fresh { listen_fd = some fd } in
      let (u, ran, done) = >>=-eq-returned (run e rounds s) _ h in
      let same : u ≡ t = ground arith in
      let closed = run-count e rounds s u x ran in
      ap (λ y. count x y.closed) (sym same) ∙ ground (arith, closed)

  started-IsClosed :
      (opened : Option ℕ) (bound listening : Bool) (rounds : List Selected) (t : MonitorServer D)
      (code : ℕ)
      → run_started rounds (start opened bound listening fresh) ≡ returned (code, t)
      → IsClosed (sockets true opened bound listening rounds) t
  unfolding start give_up sockets run_started
  started-IsClosed none bound listening rounds t code h x =
      let same : record fresh { listen_fd = none } ≡ t = ground arith in
      ap (λ y. count x y.closed) (sym same)
  started-IsClosed (some fd) false listening rounds t code h x =
      let same : give_up fd fresh ≡ t = ground arith in ap (λ y. count x y.closed) (sym same)
  started-IsClosed (some fd) true false rounds t code h x =
      let same : give_up fd fresh ≡ t = ground arith in ap (λ y. count x y.closed) (sym same)
  started-IsClosed (some fd) true true rounds t code h x = run_started-IsClosed rounds fd t code h x

  -- When `main` returns, whatever the system and the clients did, the server has no connection and no
  -- listening socket, each socket that it opened or accepted was closed as often as it was opened, no
  -- other was closed, and the server is left in a consistent state.
  pub main_function-IsShut :
      (runtime : Bool) (opened : Option ℕ) (bound listening : Bool) (rounds : List Selected)
      (code : ℕ) (t : MonitorServer D)
      → main_function runtime opened bound listening rounds ≡ returned (code, t)
      → IsConsistent e t × IsShut t × IsClosed (sockets runtime opened bound listening rounds) t
  unfolding main_function
  main_function-IsShut true opened bound listening rounds code t h =
      let (consistent, shut) = started opened bound listening rounds t code h in
      (consistent, shut, started-IsClosed opened bound listening rounds t code h)
  main_function-IsShut false opened bound listening rounds code t h =
      let same : fresh ≡ t = ground arith in
      (
        subst (IsConsistent e) same (fresh-IsConsistent none []),
        subst IsShut same (record { no_clients = refl; no_listener = refl }),
        unfold sockets in λ x. ap (λ y. count x y.closed) (sym same),
      )
