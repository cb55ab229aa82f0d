-- ===== src/Platform.antt =====
-- cpp/include/platform.hpp: the sockets of POSIX and of Windows behind one set of names, and what
-- `run` of cpp/server/main.cpp makes of them for `select`.
-- `int` and `SOCKET` are integers here. `errno`, `strerror` and the calls of the system are not
-- modelled.
pub mod Posix
pub mod Windows
pub mod Width
pub mod Shutdown
use sys_net_mon.Base.{ℕ, ℤ, Bool, false, true, List, [], ◌∷◌, ◌++◌, ◌≡◌, if◌then◌else◌, ltb}
use sys_net_mon.Server.{ClientConnection}

-- What the program is given: a value that is no socket, a test, and the closing of a socket, which is
-- noted behind the ones that were closed before.
pub record Sockets : Type 0 where
  pub invalid_socket : ℤ
  pub is_socket_valid : ℤ → Bool
  pub close_socket : ℤ → List ℤ → List ℤ
  pub invalid : is_socket_valid invalid_socket ≡ false
  pub closes_valid :
      (fd : ℤ) (closed : List ℤ)
      → is_socket_valid fd ≡ true
      → close_socket fd closed ≡ closed ++ fd ∷ []
  pub keeps_invalid :
      (fd : ℤ) (closed : List ℤ) → is_socket_valid fd ≡ false → close_socket fd closed ≡ closed

-- `highest_fd` in `run`: the loop over the clients, from the listening socket
unfoldable pub highest_fd : ℕ → List ClientConnection → ℕ
highest_fd highest [] = highest
highest_fd highest (client ∷ clients) =
    highest_fd (if ltb highest client.fd then client.fd else highest) clients
