-- ===== src/Server/Broadcast.antt =====
-- cpp/server/main.cpp: what `broadcast_to_dashboards` sends.
use sys_net_mon.Base.{
  ℕ, List, [], ◌∷◌, ◌++◌, append-nil, append_assoc, Bytes, ◌≡◌, sym, if◌then◌else◌, Bool-cases, inl,
  inr,
}
use sys_net_mon.Server.{
  ClientConnection, MonitorServer, is_dashboard, broadcast_loop, broadcast_to_dashboards,
}

-- one payload for each dashboard, in the order of the connections
unfoldable pub deliveries : Bytes → List ClientConnection → List (ℕ × Bytes)
deliveries payload [] = []
deliveries payload (client ∷ clients) =
    if is_dashboard client.role
    then (client.fd, payload) ∷ deliveries payload clients
    else deliveries payload clients

module _ {D : Type 0} where
  abbrev pub sending : List (ℕ × Bytes) → MonitorServer D → MonitorServer D
  sending more s = record s { sent = s.sent ++ more }

  broadcast_loop-deliveries :
      (payload : Bytes) (clients : List ClientConnection) (s : MonitorServer D)
      → broadcast_loop payload clients s ≡ sending (deliveries payload clients) s
  unfolding broadcast_loop deliveries
  broadcast_loop-deliveries payload [] s = λ i. record s { sent = sym (append-nil s.sent) i }
  broadcast_loop-deliveries payload (client ∷ clients) s =
      elim (Bool-cases (is_dashboard client.role)) [
        | inl yes_it ↦
            rw (yes_it, broadcast_loop-deliveries payload clients)
              (λ i. record s {
                sent =
                    append_assoc s.sent ((client.fd, payload) ∷ []) (deliveries payload clients) i;
              })
        | inr no_it ↦ rw no_it (broadcast_loop-deliveries payload clients s)
      ]

  -- A broadcast appends one delivery for each dashboard to what was sent, and changes nothing else.
  pub broadcast_lem :
      (payload : Bytes) (s : MonitorServer D)
      → broadcast_to_dashboards payload s ≡ sending (deliveries payload s.clients) s
  unfolding broadcast_to_dashboards
  broadcast_lem payload s = broadcast_loop-deliveries payload s.clients s
