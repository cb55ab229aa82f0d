-- ===== src/Platform/Width.antt =====
-- cpp/server/main.cpp and cpp/include/platform.hpp: the sets and the width that `run` gives to
-- `select`.
use sys_net_mon.Base.{
  ℕ, ◌≤◌, ◌<◌, true, some, List, [], ◌∷◌, ◌++◌, ◌≡◌, sym, subst, arith, All, All-map, if◌then◌else◌,
  ltb,
}
use sys_net_mon.Server.{ClientConnection, MonitorServer}
use sys_net_mon.Server.Rounds.{fds, option_list, watched, fits_set, fd_setsize}
use sys_net_mon.Platform.{highest_fd}
use sys_net_mon.Platform.Posix.{socket_select_width}

-- one round of the loop
abbrev higher : ℕ → ℕ → ℕ
higher highest fd = if ltb highest fd then fd else highest

higher_le : (highest fd : ℕ) → (highest ≤ higher highest fd) × (fd ≤ higher highest fd)
higher_le highest fd = ground arith

higher_lt : (highest fd bound : ℕ) → highest < bound → fd < bound → higher highest fd < bound
higher_lt highest fd bound h k = ground arith

highest_le : (clients : List ClientConnection) (highest : ℕ) → highest ≤ highest_fd highest clients
unfolding highest_fd
highest_le [] highest = omega arith
highest_le (client ∷ clients) highest =
    let later = highest_le clients (higher highest client.fd) in
    let (first, second) = higher_le highest client.fd in omega (arith, later, first)

highest_all :
    (clients : List ClientConnection) (highest : ℕ)
    → All (λ fd. fd ≤ highest_fd highest clients) (fds clients)
unfolding highest_fd
highest_all [] highest = tt
highest_all (client ∷ clients) highest =
    let later = highest_le clients (higher highest client.fd) in
    let (first, second) = higher_le highest client.fd in
    (omega (arith, later, second), highest_all clients (higher highest client.fd))

highest_small :
    (clients : List ClientConnection) (highest : ℕ)
    → highest < fd_setsize
    → fits_set (fds clients) ≡ true
    → highest_fd highest clients < fd_setsize
unfolding highest_fd fits_set
highest_small [] highest h fits = h
highest_small (client ∷ clients) highest h fits =
    highest_small clients (higher highest client.fd)
      (higher_lt highest client.fd fd_setsize h (ground arith)) (ground arith)

width_of :
    (clients : List ClientConnection) (listen : ℕ)
    → fits_set (listen ∷ fds clients) ≡ true
    → All (λ fd. fd < socket_select_width (highest_fd listen clients)) (listen ∷ fds clients)
      × (socket_select_width (highest_fd listen clients) ≤ fd_setsize)
unfolding socket_select_width fits_set
width_of clients listen fits =
    let first = highest_le clients listen in
    let last = highest_small clients listen (ground arith) (ground arith) in
    (
      (
        omega (arith, first),
        All-map (λ fd h. omega (arith, h)) (fds clients) (highest_all clients listen),
      ),
      omega (arith, last),
    )

-- If each call of `FD_SET` stays within its set, then under POSIX `run` gives `select` a width that
-- covers all sockets that are watched, and that is no greater than `FD_SETSIZE`.
pub select_width-watched :
    {D : Type 0} (s : MonitorServer D) (listen : ℕ)
    → s.listen_fd ≡ some listen
    → fits_set (watched s) ≡ true
    → All (λ fd. fd < socket_select_width (highest_fd listen s.clients)) (watched s)
      × (socket_select_width (highest_fd listen s.clients) ≤ fd_setsize)
select_width-watched s listen here fits =
    subst
      (λ o.
        fits_set (option_list o ++ fds s.clients) ≡ true
        → All (λ fd. fd < socket_select_width (highest_fd listen s.clients))
            (option_list o ++ fds s.clients)
          × (socket_select_width (highest_fd listen s.clients) ≤ fd_setsize))
      (sym here) (width_of s.clients listen) fits
