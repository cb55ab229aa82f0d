-- ===== src/Agent/Received.antt =====
-- cpp/client/main.cpp and cpp/server/main.cpp: what the server makes of a whole session of an agent.
use sys_net_mon.Base.{
  ℕ, zero, suc, true, List, [], ◌∷◌, map, Bytes, codes, ◌≡◌, refl, ap, sym, ◌∙◌, returned, at, set,
  All,
}
use sys_net_mon.Machine.{Machine}
use sys_net_mon.Events.{MetricSnapshot, ack_event_to_json}
use sys_net_mon.Agent.{AgentConfig, register_message, metrics_payload}
use sys_net_mon.Agent.Registration.{IsPlain, handle_line-register_message}
use sys_net_mon.Agent.Measured.{IsSendable, received, handle_line-metrics_payload}
use sys_net_mon.Agent.Lines.{register_message-IsLine, metrics_payload-IsLine}
use sys_net_mon.Server.{ClientConnection, MonitorServer, agent, is_agent, send_to, tick}
use sys_net_mon.Server.Broadcast.{broadcast_lem}
use sys_net_mon.Server.Alerts.{evaluate_rules_lem}
use sys_net_mon.Server.Lines.{store_metric}
use sys_net_mon.Server.Buffers.{with_buffer, rebuffer, rebuffer_own}
use sys_net_mon.Server.Stream.{
  IsLine, handle_lines, joined, read_chunks, written_lines, read_chunks-written_lines,
}

at-set :
    (cs : List ClientConnection) (i : ℕ) (c d : ClientConnection)
    → at cs i ≡ returned c
    → at (set cs i d) i ≡ returned d
at-set [] i c d h = cc
at-set (x ∷ cs) zero c d h = refl
at-set (x ∷ cs) (suc i) c d h = at-set cs i c d h

module _ {D : Type 0} (e : Machine D) (rounded : D → D) where
  -- the metrics of an agent, stored one after the other
  abbrev pub stored : List (MetricSnapshot D) → MonitorServer D → MonitorServer D
  stored [] s = s
  stored (metric ∷ metrics) s = stored metrics (store_metric e (received rounded metric) (tick s))

  store_metric-clients :
      (metric : MetricSnapshot D) (s : MonitorServer D)
      → (store_metric e metric s).clients ≡ s.clients
  unfolding store_metric
  store_metric-clients metric s = rw (evaluate_rules_lem e metric, broadcast_lem) refl

  stored-clients :
      (metrics : List (MetricSnapshot D)) (s : MonitorServer D)
      → (stored metrics s).clients ≡ s.clients
  stored-clients [] s = refl
  stored-clients (metric ∷ metrics) s =
      stored-clients metrics (store_metric e (received rounded metric) (tick s))
      ∙ store_metric-clients (received rounded metric) (tick s)

  handle_lines-stored :
      (index : ℕ) (metrics : List (MetricSnapshot D)) (s : MonitorServer D)
      (client : ClientConnection)
      → at s.clients index ≡ returned client
      → is_agent client.role ≡ true
      → All (IsSendable e rounded) metrics
      → handle_lines e index (map (metrics_payload e) metrics) s ≡ returned (stored metrics s)
  handle_lines-stored index [] s client there role h = refl
  handle_lines-stored index (metric ∷ metrics) s client there role (hm, h) =
      rw (handle_line-metrics_payload e rounded metric hm index s client there role) (
        handle_lines-stored index metrics (store_metric e (received rounded metric) (tick s)) client
          (ap (λ cs. at cs index) (store_metric-clients (received rounded metric) (tick s)) ∙ there)
          role h)

  payloads-IsLine :
      (metrics : List (MetricSnapshot D))
      → All (IsSendable e rounded) metrics
      → All IsLine (map (metrics_payload e) metrics)
  payloads-IsLine [] h = tt
  payloads-IsLine (metric ∷ metrics) (hm, h) =
      (metrics_payload-IsLine e metric rounded hm, payloads-IsLine metrics h)

  own_buffer :
      (index : ℕ) (t : MonitorServer D) (client : ClientConnection)
      → at t.clients index ≡ returned client
      → client.buffer ≡ []
      → with_buffer e index [] t ≡ t
  own_buffer index t client there empty =
      ap (λ cs. record t { clients = cs })
        (ap (λ b. rebuffer index b t.clients) (sym empty)
          ∙ rebuffer_own t.clients index client there)

  module _ (config : AgentConfig) where
    abbrev pub agent_client : ClientConnection → ClientConnection
    agent_client client = record client { role = agent; declared_host = config.agent_name }

    -- the server with the connection registered
    abbrev pub with_agent : ℕ → ClientConnection → MonitorServer D → MonitorServer D
    with_agent index client s =
        send_to client.fd (ack_event_to_json (codes "registered as agent"))
          (record s { clients = set s.clients index (agent_client client) })

    -- If a new connection delivers what an agent sends in one session, the registration and some
    -- metrics, each as a line, in chunks of any sizes, then the server registers the agent and stores
    -- the metrics in their order, and nothing is left in the buffer. The agent's name and the
    -- strings of the metrics need no escape, and the texts of the numbers can be read.
    pub read_chunks-session :
        (index : ℕ) (s : MonitorServer D) (client : ClientConnection)
        (metrics : List (MetricSnapshot D)) (c : ℕ) (a : Bytes) (chunks : List (ℕ × Bytes))
        → at s.clients index ≡ returned client
        → client.buffer ≡ []
        → IsPlain config.agent_name
        → All (IsSendable e rounded) metrics
        → joined ((c, a) ∷ chunks)
          ≡ written_lines (register_message config ∷ map (metrics_payload e) metrics)
        → read_chunks e index ((c, a) ∷ chunks) s
          ≡ returned (stored metrics (with_agent index client s))
    unfolding send_to is_agent
    read_chunks-session index s client metrics c a chunks there empty plain h whole =
        let now = at-set s.clients index client (agent_client client) there in
        read_chunks-written_lines e index c a chunks
          (register_message config ∷ map (metrics_payload e) metrics) s client there empty
          (register_message-IsLine config, payloads-IsLine metrics h) whole
        ∙ rw
            (
              handle_line-register_message config plain e index s client there,
              handle_lines-stored index metrics (with_agent index client s) (agent_client client)
                  now refl h,
            )
            (ap (λ t. returned t)
              (own_buffer index (stored metrics (with_agent index client s)) (agent_client client)
                (ap (λ cs. at cs index) (stored-clients metrics (with_agent index client s)) ∙ now)
                empty))
