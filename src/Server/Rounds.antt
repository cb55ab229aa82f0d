-- ===== src/Server/Rounds.antt =====
-- cpp/server/main.cpp: `run`, `accept_connection`, `disconnect_client` and `shutdown_all`.
-- What the system decides in a round of the loop (the sets of `select`, the results of `accept`
-- and `recv`) is an argument of the round.
use sys_net_mon.Base.{
  ℕ, zero, suc, ◌+◌, Bool, true, false, ◌&&◌, ◌||◌, not, Option, none, some, List, [], ◌∷◌, ◌++◌,
  map, reverse, Bytes, if◌then◌else◌, Outcome, returned, undefined, ◌>>=◌, length, at, ltb, ◌==◌,
}
use sys_net_mon.Machine.{Machine}
use sys_net_mon.Server.{ClientConnection, unknown, MonitorServer}
use sys_net_mon.Server.Lines.{read_client}

-- whether a socket is in a set
unfoldable pub is_set : ℕ → List ℕ → Bool
is_set fd [] = false
is_set fd (x ∷ xs) = x == fd || is_set fd xs

pub record Ready : Type 0 where
  -- the sockets that `select` left in `read_set` and in `error_set`
  pub read_set : List ℕ
  pub error_set : List ℕ
  -- the socket and the label of a peer, or `none` where `accept` fails
  pub accepted : Option (ℕ × Bytes)
  -- the bytes that `recv` delivers from a socket; `[]` where it returns 0 or an error
  pub received : ℕ → Bytes

-- the result of one `select`
pub data Selected : Type 0 where
  interrupted failed : Selected
  ready : Ready → Selected

-- `FD_SETSIZE`: `FD_SET` and `FD_ISSET` of a socket from there on are outside the set
abbrev pub fd_setsize : ℕ
fd_setsize = 1024

-- `FD_ISSET`
unfoldable pub fd_isset : ℕ → List ℕ → Outcome Bool
unfolding is_set
fd_isset fd set = if ltb fd fd_setsize then returned (is_set fd set) else undefined

unfoldable pub fits_set : List ℕ → Bool
fits_set [] = true
fits_set (fd ∷ fds) = ltb fd fd_setsize && fits_set fds

-- the elements of a list but the one at an index
unfoldable pub erase_at {ℓ} : {A : Type ℓ} → ℕ → List A → List A
erase_at i [] = []
erase_at zero (x ∷ xs) = xs
erase_at (suc i) (x ∷ xs) = x ∷ erase_at i xs

abbrev pub fds : List ClientConnection → List ℕ
fds = map (λ client. client.fd)

abbrev pub option_list : Option ℕ → List ℕ
option_list none = []
option_list (some fd) = fd ∷ []

module _ {D : Type 0} where
  unfoldable pub accept_connection : Option (ℕ × Bytes) → MonitorServer D → MonitorServer D
  accept_connection none s = s
  accept_connection (some (fd, label)) s =
      let connection : ClientConnection = record {
        fd = fd;
        role = unknown;
        peer_label = label;
        declared_host = [];
        buffer = [];
      } in
      record s { clients = s.clients ++ connection ∷ [] }

  unfoldable pub disconnect_client : ℕ → MonitorServer D → Outcome (MonitorServer D)
  unfolding erase_at
  disconnect_client index s = do
    client ← at s.clients index
    returned (record s { closed = s.closed ++ client.fd ∷ []; clients = erase_at index s.clients })

  unfoldable pub disconnect_all : List ℕ → MonitorServer D → Outcome (MonitorServer D)
  unfolding disconnect_client
  disconnect_all [] s = returned s
  disconnect_all (index ∷ indices) s = do s' ← disconnect_client index s; disconnect_all indices s'

  -- the sockets for which the loop calls `FD_SET`
  abbrev pub watched : MonitorServer D → List ℕ
  watched s = option_list s.listen_fd ++ fds s.clients

  unfoldable pub shutdown_all : MonitorServer D → MonitorServer D
  shutdown_all s = record s {
    closed = s.closed ++ (fds s.clients ++ option_list s.listen_fd);
    clients = [];
    listen_fd = none;
  }

  -- `FD_ISSET(listen_fd_, &read_set)`: the socket is in bounds, since `FD_SET` was called with it in
  -- the same round
  unfoldable pub listen_ready : Ready → MonitorServer D → Bool
  unfolding is_set
  listen_ready r s = elim s.listen_fd [ none ↦ false | some fd ↦ is_set fd r.read_set ]

  unfoldable pub accept_if_ready : Ready → MonitorServer D → MonitorServer D
  unfolding listen_ready accept_connection
  accept_if_ready r s = if listen_ready r s then accept_connection r.accepted s else s

module _ {D : Type 0} (e : Machine D) where
  -- the body of the loop over the clients: whether the client is to be closed
  unfoldable pub serve_client : Ready → ℕ → MonitorServer D → Outcome (Bool × MonitorServer D)
  unfolding fd_isset
  serve_client r index s = do
    client ← at s.clients index
    failing ← fd_isset client.fd r.error_set
    if failing then returned (true, s) else (do
      waiting ← fd_isset client.fd r.read_set
      if waiting
          then (do
            result ← read_client e index (r.received client.fd) s
            returned (not result.0, result.1))
          else returned (false, s))

  -- `count` clients are left; `marked` is `disconnect_indices` so far
  unfoldable pub serve_clients :
      Ready → ℕ → ℕ → List ℕ → MonitorServer D → Outcome (List ℕ × MonitorServer D)
  unfolding serve_client
  serve_clients r zero index marked s = returned (marked, s)
  serve_clients r (suc count) index marked s = do
    result ← serve_client r index s
    serve_clients r count (index + 1) (if result.0 then marked ++ index ∷ [] else marked) result.1

  unfoldable pub serve_round : Ready → MonitorServer D → Outcome (MonitorServer D)
  unfolding serve_clients disconnect_all accept_if_ready
  serve_round r s = do
    let s1 = accept_if_ready r s
    result ← serve_clients r (length s1.clients) 0 [] s1
    disconnect_all (reverse result.0) result.1

  -- `run`: a result of `select` for each round that finds `g_running` set
  unfoldable pub run : List Selected → MonitorServer D → Outcome (MonitorServer D)
  unfolding fits_set serve_round shutdown_all
  run [] s = returned (shutdown_all s)
  run (interrupted ∷ rounds) s =
      let rest = run rounds s in if fits_set (watched s) then rest else undefined
  run (failed ∷ rounds) s = if fits_set (watched s) then returned (shutdown_all s) else undefined
  run (ready r ∷ rounds) s =
      if fits_set (watched s) then (do s' ← serve_round r s; run rounds s') else undefined
