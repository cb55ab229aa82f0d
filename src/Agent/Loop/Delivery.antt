-- ===== src/Agent/Loop/Delivery.antt =====
-- cpp/client/main.cpp: what the agent sends while the system answers well.
use sys_net_mon.Base.{
  ℕ, Bool, true, false, ◌&&◌, none, some, List, [], ◌∷◌, ◌++◌, append_assoc, map, Bytes, ◌≡◌, refl,
  ap, ◌∙◌, Outcome, returned, ◌>>=◌, All,
}
use sys_net_mon.Machine.{Machine}
use sys_net_mon.Text.{newline}
use sys_net_mon.Events.{MetricSnapshot}
use sys_net_mon.Sending.{IsWilling, send_line_whole}
use sys_net_mon.Metrics.Collect.{Previous, collect_metrics}
use sys_net_mon.Metrics.Collect.Within.{IsSane, collect_metrics-IsWithin}
use sys_net_mon.Agent.{AgentConfig, parse_args, register_message, metrics_payload}
use sys_net_mon.Agent.Loop.{
  Call, opens, closes, sends, whole, exited, is_killed, close_failed, AgentState, Attempt, Turn,
  Startup, drop_socket, send_on, register_on, connect_socket, connect_new, connect_to_server,
  server_address, measure, take_turn, stop, agent_loop, agent_start, agent_main,
}

-- the system makes the socket `fd`, finds the server and connects to it, and `send` takes bytes
pub record IsGood (attempt : Attempt) (fd : ℕ) : Type 0 where
  pub address : ℕ
  pub made : attempt.new_socket ≡ some fd
  pub found : server_address attempt ≡ some address
  pub connected : attempt.connects address ≡ true
  pub willing : IsWilling attempt.send_results

-- what is read for a snapshot is sane, and `send` takes bytes
pub record IsGoodTurn {D : Type 0} (turn : Turn D) : Type 0 where
  pub sane : IsSane turn.readings.usage
  pub willing : IsWilling turn.results

no_daemon : (b : Bool) → (b && false) ≡ false
no_daemon true = refl
no_daemon false = refl

-- The snapshots of the turns: each is made of the readings of its turn, and of the samples that were
-- taken for the snapshot before it.
unfoldable pub snapshots :
    {D : Type 0} → Machine D → Bytes → List (Turn D) → Previous → Outcome (List (MetricSnapshot D))
snapshots e name [] before = returned []
snapshots e name (turn ∷ turns) before = do
  taken ← collect_metrics e name turn.readings before
  rest ← snapshots e name turns taken.1
  returned (taken.0 ∷ rest)

module _ {D : Type 0} (e : Machine D) (config : AgentConfig) (fd : ℕ) where
  -- the whole line of a message
  abbrev pub sends_line : Bytes → Call
  sends_line payload = sends fd (payload ++ newline ∷ [])

  abbrev pub sends_metrics : List (MetricSnapshot D) → List Call
  sends_metrics = map (λ metric. sends_line (metrics_payload e metric))

  connect_good :
      (attempt : Attempt) (s : AgentState)
      → IsGood attempt fd
      → connect_to_server config attempt s ≡ (
        whole,
        record s {
          socket_fd = some fd;
          calls = (s.calls ++ opens fd ∷ []) ++ sends_line (register_message config) ∷ [];
        },
      )
  unfolding connect_to_server connect_new connect_socket register_on send_on close_failed
  connect_good attempt s h =
      rw
        (
          h.made,
          h.found,
          h.connected,
          send_line_whole attempt.send_results (register_message config) h.willing,
        )
        refl

  measure_good :
      (turn : Turn D) (s : AgentState) (taken : MetricSnapshot D × Previous)
      → IsWilling turn.results
      → collect_metrics e config.agent_name turn.readings s.previous ≡ returned taken
      → measure e config turn fd s
        ≡ returned (
          whole,
          record s {
            previous = taken.1;
            calls = s.calls ++ sends_line (metrics_payload e taken.0) ∷ [];
          },
        )
  unfolding measure send_on close_failed
  measure_good turn s taken willing returns =
      rw (returns, send_line_whole turn.results (metrics_payload e taken.0) willing) refl

  -- a state in which the agent is connected, and one after its end
  abbrev joined_state : Previous → List Call → AgentState
  joined_state before calls = record { socket_fd = some fd; previous = before; calls = calls }

  abbrev ended_state : Previous → List Call → AgentState
  ended_state before calls = record { socket_fd = none; previous = before; calls = calls }

  loop_good :
      (turns : List (Turn D)) (before : Previous) (calls : List Call)
      → All IsGoodTurn turns
      → (metrics : List (MetricSnapshot D)) × (after : Previous) × (snapshots e config.agent_name
            turns before
          ≡ returned metrics)
        × (agent_loop e config turns (joined_state before calls)
            ≡ returned
                (exited 0, ended_state after (calls ++ (sends_metrics metrics ++ closes fd ∷ []))))
  unfolding agent_loop take_turn stop drop_socket is_killed snapshots
  loop_good [] before calls good = ([], before, refl, refl)
  loop_good (turn ∷ turns) before calls (h, good) =
      let (taken, returns, within) =
        collect_metrics-IsWithin e config.agent_name turn.readings before h.sane in
      let sent = sends_line (metrics_payload e taken.0) in
      let (metrics, after, all_taken, later) = loop_good turns taken.1 (calls ++ sent ∷ []) good in
      (
        taken.0 ∷ metrics,
        after,
        rw (returns, all_taken) refl,
        rw (measure_good turn (joined_state before calls) taken h.willing returns) later
            ∙ ap (λ t. returned (exited 0, ended_state after t))
                (append_assoc calls (sent ∷ []) (sends_metrics metrics ++ closes fd ∷ [])),
      )

  -- If the arguments can be read, the agent starts, the first connection is made, and for each
  -- snapshot the system says sane things and `send` takes bytes, then the snapshots of the turns can
  -- be taken, and `main` returns 0 with one session: the registration, then one whole line for each of
  -- these snapshots in their order, and the socket is closed.
  pub agent_main-delivers :
      (arguments : List Bytes) (startup : Startup) (turn : Turn D) (turns : List (Turn D))
      → parse_args startup.name arguments ≡ returned config
      → startup.runtime_ok ≡ true
      → startup.daemon_fails ≡ false
      → IsGood turn.attempt fd
      → All IsGoodTurn turns
      → (metrics : List (MetricSnapshot D)) × (snapshots e config.agent_name turns
            (agent_start startup).previous
          ≡ returned metrics)
        × (agent_main e arguments startup (turn ∷ turns)
            ≡ returned (
              exited 0,
              opens fd
                  ∷ sends_line (register_message config)
                  ∷ (sends_metrics metrics ++ closes fd ∷ []),
            ))
  unfolding agent_main agent_start agent_loop take_turn is_killed
  agent_main-delivers arguments startup turn turns parsed ok daemon good goods =
      let s = agent_start startup in
      let (metrics, after, all_taken, later) =
        loop_good turns s.previous (opens fd ∷ sends_line (register_message config) ∷ []) goods in
      (
        metrics,
        all_taken,
        rw (parsed, ok, daemon, connect_good turn.attempt s good, later, no_daemon config.daemonize)
            refl,
      )
