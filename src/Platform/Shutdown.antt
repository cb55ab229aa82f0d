-- ===== src/Platform/Shutdown.antt =====
-- cpp/server/main.cpp: `shutdown_all` with the sockets of a platform.
use sys_net_mon.Base.{
  ℕ, ℤ, pos, true, Option, none, some, List, [], ◌∷◌, ◌++◌, append_assoc, append-nil, map, ◌≡◌, sym,
  ap, ◌∙◌, All,
}
use mathlib.Core.List.{map-append}
use sys_net_mon.Server.{MonitorServer}
use sys_net_mon.Server.Rounds.{fds, option_list, shutdown_all}
use sys_net_mon.Platform.{Sockets}

module _ (k : Sockets) where
  -- the calls of `close_socket` for a list of sockets
  abbrev pub close_all : List ℤ → List ℤ → List ℤ
  close_all [] closed = closed
  close_all (fd ∷ fds) closed = close_all fds (k.close_socket fd closed)

  -- a socket, or none, as the program keeps it
  abbrev pub socket_value : Option ℕ → ℤ
  socket_value none = k.invalid_socket
  socket_value (some fd) = pos fd

  abbrev pub IsSocket : ℕ → Type 0
  IsSocket fd = k.is_socket_valid (pos fd) ≡ true

  close-listener :
      (listen : Option ℕ) (closed : List ℤ)
      → All IsSocket (option_list listen)
      → k.close_socket (socket_value listen) closed ≡ closed ++ map pos (option_list listen)
  close-listener none closed h =
      k.keeps_invalid k.invalid_socket closed k.invalid ∙ sym (append-nil closed)
  close-listener (some fd) closed (h, _) = k.closes_valid (pos fd) closed h

  close_all-append :
      (cs : List ℕ) (last : ℤ) (closed : List ℤ)
      → All IsSocket cs
      → close_all (map pos cs ++ last ∷ []) closed ≡ k.close_socket last (closed ++ map pos cs)
  close_all-append [] last closed h = ap (k.close_socket last) (sym (append-nil closed))
  close_all-append (c ∷ cs) last closed (hc, h) =
      ap (close_all (map pos cs ++ last ∷ [])) (k.closes_valid (pos c) closed hc)
      ∙ close_all-append cs last (closed ++ pos c ∷ []) h
      ∙ ap (k.close_socket last) (append_assoc closed (pos c ∷ []) (map pos cs))

  -- On each platform, if the sockets of the server are valid there, then the calls of `close_socket`
  -- in `shutdown_all`, for each client and for the listening socket or what stands for none, close
  -- just the sockets that `shutdown_all` of the model closes, in the same order.
  pub close_all-shutdown :
      {D : Type 0} (s : MonitorServer D)
      → All IsSocket (fds s.clients)
      → All IsSocket (option_list s.listen_fd)
      → close_all (map pos (fds s.clients) ++ socket_value s.listen_fd ∷ []) (map pos s.closed)
        ≡ map pos (shutdown_all s).closed
  unfolding shutdown_all
  close_all-shutdown s hs hl =
      close_all-append (fds s.clients) (socket_value s.listen_fd) (map pos s.closed) hs
      ∙ close-listener s.listen_fd (map pos s.closed ++ map pos (fds s.clients)) hl
      ∙ rw
          (
            map-append pos s.closed (fds s.clients ++ option_list s.listen_fd),
            map-append pos (fds s.clients) (option_list s.listen_fd),
          )
          (append_assoc (map pos s.closed) (map pos (fds s.clients))
            (map pos (option_list s.listen_fd)))
