-- ===== src/Platform/Windows.antt =====
-- cpp/include/platform.hpp: the sockets of Windows.
use sys_net_mon.Base.{
  ℕ, ℤ, pos, negsuc, Bool, true, not, List, [], ◌∷◌, ◌++◌, refl, if◌then◌else◌, ◌==◌,
}
use sys_net_mon.Platform.{Sockets}

-- `INVALID_SOCKET`, all ones of 64 bits
abbrev pub invalid_socket : ℤ
invalid_socket = pos 18446744073709551615

-- `fd != invalid_socket`; a `SOCKET` is not negative
unfoldable pub is_socket_valid : ℤ → Bool
is_socket_valid (pos n) = not (n == 18446744073709551615)
is_socket_valid (negsuc n) = true

-- the width is ignored by `select`
unfoldable pub socket_select_width : ℕ → ℕ
socket_select_width fd = 0

-- the sockets that `closesocket` is called for, oldest first
unfoldable pub close_socket : ℤ → List ℤ → List ℤ
unfolding is_socket_valid
close_socket fd closed = if is_socket_valid fd then closed ++ fd ∷ [] else closed

-- `ok_` of a new `SocketRuntime`, where `started` is what `WSAStartup` returns
unfoldable pub runtime_ok : ℕ → Bool
runtime_ok started = started == 0

-- how often the destructor calls `WSACleanup`
unfoldable pub cleanups : Bool → ℕ
cleanups ok = if ok then 1 else 0

unfoldable pub sockets : Sockets
unfolding close_socket
sockets = record {
  invalid_socket = invalid_socket;
  is_socket_valid = is_socket_valid;
  close_socket = close_socket;
  invalid = refl;
  closes_valid = λ fd closed h. rw h refl;
  keeps_invalid = λ fd closed h. rw h refl;
}
