-- ===== src/Agent/Together.antt =====
-- cpp/client/main.cpp and cpp/server/main.cpp: the agent and the server, from the readings of the
-- agent's system to the state of the server.
use sys_net_mon.Base.{
  ℕ, true, false, List, [], ◌∷◌, ◌++◌, append_assoc, map, Bytes, ◌≡◌, refl, ap, sym, subst, ◌∙◌,
  returned, >>=-eq-returned, at, All, ◌==◌, if◌then◌else◌, ==_refl,
}
use sys_net_mon.Machine.{Machine}
use sys_net_mon.Text.{newline}
use sys_net_mon.Events.{MetricSnapshot}
use sys_net_mon.Agent.{AgentConfig, parse_args, register_message, metrics_payload}
use sys_net_mon.Agent.Registration.{IsPlain}
use sys_net_mon.Agent.Measured.{IsSendable}
use sys_net_mon.Agent.Sendable.{HasTexts, collect_metrics-IsSendable}
use sys_net_mon.Agent.Received.{stored, with_agent, read_chunks-session}
use sys_net_mon.Agent.Loop.{
  Call, opens, closes, sends, Turn, Startup, exited, agent_start, agent_main,
}
use sys_net_mon.Metrics.Collect.{Previous, collect_metrics}
use sys_net_mon.Metrics.Collect.Named.{returned_inj}
use sys_net_mon.Agent.Loop.Delivery.{
  IsGood, IsGoodTurn, sends_line, sends_metrics, snapshots, agent_main-delivers,
}
use sys_net_mon.Server.{ClientConnection, MonitorServer}
use sys_net_mon.Server.Stream.{joined, read_chunks, written_lines}

-- the bytes that go out on a socket
abbrev pub wire : ℕ → List Call → Bytes
wire fd [] = []
wire fd (opens g ∷ calls) = wire fd calls
wire fd (closes g ∷ calls) = wire fd calls
wire fd (sends g bytes ∷ calls) = if g == fd then bytes ++ wire fd calls else wire fd calls

wire_line :
    (fd : ℕ) (payload : Bytes) (calls : List Call)
    → wire fd (sends fd (payload ++ newline ∷ []) ∷ calls) ≡ payload ++ newline ∷ wire fd calls
wire_line fd payload calls = rw (==_refl fd) (append_assoc payload (newline ∷ []) (wire fd calls))

module _ {D : Type 0} (e : Machine D) (rounded : D → D) (config : AgentConfig) where
  wire-metrics :
      (fd : ℕ) (metrics : List (MetricSnapshot D))
      → wire fd (sends_metrics e config fd metrics ++ closes fd ∷ [])
        ≡ written_lines (map (metrics_payload e) metrics)
  wire-metrics fd [] = refl
  wire-metrics fd (metric ∷ metrics) =
      wire_line fd (metrics_payload e metric) (sends_metrics e config fd metrics ++ closes fd ∷ [])
      ∙ ap (λ x. metrics_payload e metric ++ newline ∷ x) (wire-metrics fd metrics)

  wire-session :
      (fd : ℕ) (metrics : List (MetricSnapshot D))
      → wire fd (
          opens fd
          ∷ sends_line e config fd (register_message config)
          ∷ (sends_metrics e config fd metrics ++ closes fd ∷ []))
        ≡ written_lines (register_message config ∷ map (metrics_payload e) metrics)
  wire-session fd metrics =
      wire_line fd (register_message config) (sends_metrics e config fd metrics ++ closes fd ∷ [])
      ∙ ap (λ x. register_message config ++ newline ∷ x) (wire-metrics fd metrics)

  -- the session, in chunks
  read_session :
      (index : ℕ) (s : MonitorServer D) (client : ClientConnection)
      (metrics : List (MetricSnapshot D)) (chunks : List (ℕ × Bytes))
      → at s.clients index ≡ returned client
      → client.buffer ≡ []
      → IsPlain config.agent_name
      → All (IsSendable e rounded) metrics
      → joined chunks ≡ written_lines (register_message config ∷ map (metrics_payload e) metrics)
      → read_chunks e index chunks s
        ≡ returned (stored e rounded metrics (with_agent e rounded config index client s))
  read_session index s client metrics [] there empty plain h whole =
      absurd (unfold register_message in cc)
  read_session index s client metrics ((c, a) ∷ chunks) there empty plain h whole =
      read_chunks-session e rounded config index s client metrics c a chunks there empty plain h
        whole

  -- The snapshots of the turns can be sent, if they have texts.
  snapshots-IsSendable :
      (turns : List (Turn D)) (before : Previous) (metrics : List (MetricSnapshot D))
      → snapshots e config.agent_name turns before ≡ returned metrics
      → IsPlain config.agent_name
      → All IsGoodTurn turns
      → All (HasTexts e rounded) metrics
      → All (IsSendable e rounded) metrics
  unfolding snapshots
  snapshots-IsSendable [] before [] h plain good texts = tt
  snapshots-IsSendable [] before (m ∷ metrics) h plain good texts =
      absurd (let same = returned_inj h in cc)
  snapshots-IsSendable (turn ∷ turns) before metrics h plain (good, goods) texts =
      let (taken, returns, more) =
        >>=-eq-returned (collect_metrics e config.agent_name turn.readings before) _ h in
      let (later, all_taken, done) =
        >>=-eq-returned (snapshots e config.agent_name turns taken.1) _ more in
      let same : taken.0 ∷ later ≡ metrics = returned_inj done in
      let (text, all_texts) = subst (All (HasTexts e rounded)) (sym same) texts in
      subst (All (IsSendable e rounded)) same (
        collect_metrics-IsSendable e rounded config.agent_name turn.readings before taken.1 taken.0
            plain text good.sane returns,
        snapshots-IsSendable turns taken.1 later all_taken plain goods all_texts,
      )

  -- If the agent's system answers well, as in `agent_main-delivers`, if the network delivers the bytes
  -- that the agent sends, cut in any way, to a new connection of the server, if the agent's name needs
  -- no escape and the numbers of the snapshots of the turns have texts that are read again, then the
  -- agent returns 0, and the server registers it and stores these snapshots in their order.
  pub agent_main-stored :
      (arguments : List Bytes) (startup : Startup) (turn : Turn D) (turns : List (Turn D)) (fd : ℕ)
      (metrics : List (MetricSnapshot D)) (cut : Bytes → List (ℕ × Bytes)) (index : ℕ)
      (s : MonitorServer D) (client : ClientConnection)
      → parse_args startup.name arguments ≡ returned config
      → startup.runtime_ok ≡ true
      → startup.daemon_fails ≡ false
      → IsGood turn.attempt fd
      → All IsGoodTurn turns
      → snapshots e config.agent_name turns (agent_start startup).previous ≡ returned metrics
      → All (HasTexts e rounded) metrics
      → ((bytes : Bytes) → joined (cut bytes) ≡ bytes)
      → at s.clients index ≡ returned client
      → client.buffer ≡ []
      → IsPlain config.agent_name
      → (calls : List Call) × (agent_main e arguments startup (turn ∷ turns)
          ≡ returned (exited 0, calls))
        × (read_chunks e index (cut (wire fd calls)) s
            ≡ returned (stored e rounded metrics (with_agent e rounded config index client s)))
  agent_main-stored arguments startup turn turns fd metrics cut index s client parsed ok daemon good
        goods taken texts whole there empty plain =
      let (sent, all_sent, ends) =
        agent_main-delivers e config fd arguments startup turn turns parsed ok daemon good goods in
      let same : sent ≡ metrics = returned_inj (sym all_sent ∙ taken) in
      let sendable =
        snapshots-IsSendable turns (agent_start startup).previous metrics taken plain goods texts in
      (
        _,
        rw same at ends,
        read_session index s client metrics _ there empty plain sendable
            (whole _ ∙ wire-session fd metrics),
      )
