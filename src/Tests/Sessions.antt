-- ===== src/Tests/Sessions.antt =====
-- Runs of the agent at fixed inputs.
use sys_net_mon.Base.{
  ℕ, zero, suc, Option, true, false, some, none, List, [], ◌∷◌, ◌++◌, Bytes, codes, ◌≡◌, refl,
  arith, returned,
}
use sys_net_mon.Events.{MetricSnapshot}
use sys_net_mon.Sending.{IsWilling}
use sys_net_mon.Metrics.Cpu.{proc_stat}
use sys_net_mon.Metrics.Net.{proc_net}
use sys_net_mon.Agent.{register_message}
use sys_net_mon.Agent.Loop.{
  Call, opens, closes, Attempt, Turn, Startup, Ending, exited, agent_start, agent_main,
  server_address,
}
use sys_net_mon.Agent.Loop.Sessions.{Session, agent_main-IsTrace}
use sys_net_mon.Agent.Loop.Discipline.{open_after, agent_main-open_after}
use sys_net_mon.Agent.Loop.Delivery.{
  IsGood, IsGoodTurn, sends_line, sends_metrics, snapshots, agent_main-delivers,
}
use sys_net_mon.Tests.Agent.{arguments, parsed, parse_arguments, two_calls}
use sys_net_mon.Tests.Metrics.{stat_text}
use sys_net_mon.Tests.Collect.{readings, readings-IsSane}
use sys_net_mon.Sample.{sample}

two_calls-IsWilling : IsWilling two_calls
two_calls-IsWilling zero rest = omega arith
two_calls-IsWilling (suc n) rest = omega arith

-- a call of `send` that takes three bytes, and then none
abbrev breaking : ℕ → Bytes → ℕ
breaking zero rest = 3
breaking (suc n) rest = 0

-- the host is an address, and the server answers
abbrev attempt : Attempt
attempt = record {
  new_socket = some 6;
  direct_address = some 42;
  resolved = none;
  connects = λ address. true;
  send_results = two_calls;
  raises = false;
}

abbrev pub startup : Startup
startup = record {
  name = codes "agent-node";
  runtime_ok = true;
  daemon_fails = false;
  first_cpu = proc_stat (some (stat_text 100 900));
  first_net = proc_net none;
}

abbrev pub turn : (ℕ → Bytes → ℕ) → Turn ℕ
turn results = record { attempt = attempt; readings = readings; results = results; raises = false }

-- the server is gone
abbrev last_turn : Turn ℕ
last_turn = record (turn breaking) { raises = true }

-- a connection, a snapshot, a snapshot that breaks off, a connection again, and a snapshot that ends
-- the process
abbrev turns : List (Turn ℕ)
turns = turn two_calls ∷ turn two_calls ∷ turn breaking ∷ turn two_calls ∷ last_turn ∷ []

agent_main-IsTrace_example :
    (ending : Ending) × (calls : List Call) × (agent_main sample arguments startup turns
      ≡ returned (ending, calls))
    × Session sample parsed startup turns ending calls
agent_main-IsTrace_example =
    agent_main-IsTrace sample parsed arguments startup turns parse_arguments (
      readings-IsSane,
      (readings-IsSane, (readings-IsSane, (readings-IsSane, (readings-IsSane, tt)))),
    )

agent_main-open_after_example :
    (ending : Ending) × (calls : List Call) × (agent_main sample arguments startup turns
      ≡ returned (ending, calls))
    × (o : Option ℕ) × (open_after none calls ≡ some o)
    × ((code : ℕ) → ending ≡ exited code → o ≡ none)
agent_main-open_after_example =
    agent_main-open_after sample parsed arguments startup turns parse_arguments (
      readings-IsSane,
      (readings-IsSane, (readings-IsSane, (readings-IsSane, (readings-IsSane, tt)))),
    )

pub attempt-IsGood : IsGood attempt 6
unfolding server_address
attempt-IsGood = record {
  address = 42;
  made = refl;
  found = refl;
  connected = refl;
  willing = two_calls-IsWilling;
}

pub turn-IsGoodTurn : IsGoodTurn (turn two_calls)
turn-IsGoodTurn = record { sane = readings-IsSane; willing = two_calls-IsWilling }

agent_main-delivers_example :
    (metrics : List (MetricSnapshot ℕ)) × (snapshots sample parsed.agent_name
        (turn two_calls ∷ turn two_calls ∷ [])
        (agent_start startup).previous
      ≡ returned metrics)
    × (agent_main sample arguments startup (turn two_calls ∷ turn two_calls ∷ turn two_calls ∷ [])
        ≡ returned (
          exited 0,
          opens 6
              ∷ sends_line sample parsed 6 (register_message parsed)
              ∷ (sends_metrics sample parsed 6 metrics ++ closes 6 ∷ []),
        ))
agent_main-delivers_example =
    agent_main-delivers sample parsed 6 arguments startup (turn two_calls)
      (turn two_calls ∷ turn two_calls ∷ []) parse_arguments refl refl attempt-IsGood
      (turn-IsGoodTurn, (turn-IsGoodTurn, tt))
