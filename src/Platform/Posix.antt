-- ===== src/Platform/Posix.antt =====
-- cpp/include/platform.hpp: the sockets of POSIX.
use sys_net_mon.Base.{
  ℕ, ℤ, pos, negsuc, ◌+◌, Bool, true, false, List, [], ◌∷◌, ◌++◌, refl, if◌then◌else◌,
}
use sys_net_mon.Platform.{Sockets}

-- `-1`
abbrev pub invalid_socket : ℤ
invalid_socket = negsuc 0

-- `fd >= 0`
unfoldable pub is_socket_valid : ℤ → Bool
is_socket_valid (pos n) = true
is_socket_valid (negsuc n) = false

-- `static_cast<int>(fd) + 1`, of a socket that is valid
unfoldable pub socket_select_width : ℕ → ℕ
socket_select_width fd = fd + 1

-- the sockets that `close` is called for, oldest first
unfoldable pub close_socket : ℤ → List ℤ → List ℤ
unfolding is_socket_valid
close_socket fd closed = if is_socket_valid fd then closed ++ fd ∷ [] else closed

-- `SocketRuntime::ok`
unfoldable pub runtime_ok : Bool
runtime_ok = true

unfoldable pub sockets : Sockets
unfolding close_socket
sockets = record {
  invalid_socket = invalid_socket;
  is_socket_valid = is_socket_valid;
  close_socket = close_socket;
  invalid = refl;
  closes_valid = λ fd closed h. rw h refl;
  keeps_invalid = λ fd closed h. rw h refl;
}
