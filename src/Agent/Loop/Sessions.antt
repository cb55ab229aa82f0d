-- ===== src/Agent/Loop/Sessions.antt =====
-- cpp/client/main.cpp: the sockets that the agent opens, and what it sends on them.
use sys_net_mon.Base.{
  ℕ, Bool, true, false, ◌&&◌, ◌||◌, not, Option, none, some, List, [], ◌∷◌, ◌++◌, Bytes, ◌≡◌, ◌≢◌,
  refl, inl, inr, returned, Outcome, All, Bool-cases, append-nil, append_assoc, subst, sym, ap, ◌∙◌,
  if◌then◌else◌,
}
use sys_net_mon.Machine.{Machine}
use sys_net_mon.Text.{newline}
use sys_net_mon.Sending.{send_line, send_line-IsSent}
use sys_net_mon.Events.{MetricSnapshot}
use sys_net_mon.Metrics.Collect.{Previous, collect_metrics}
use sys_net_mon.Metrics.Collect.Within.{IsSane, collect_metrics-IsWithin}
use sys_net_mon.Agent.{AgentConfig, parse_args, register_message, metrics_payload}
use sys_net_mon.Agent.Loop.{
  Call, opens, closes, sends, Sent, whole, failed, killed, Ending, exited, killed_by_sigpipe,
  is_killed, close_failed, AgentState, Attempt, Turn, drop_socket, note, send_on, register_on,
  connect_socket, connect_new, connect_to_server, server_address, measure, take_turn, stop,
  agent_loop, Startup, agent_start, agent_main,
}

-- a front part of a line, of which something is left
pub record IsFront (payload part : Bytes) : Type 0 where
  pub left : Bytes
  pub some_left : left ≢ []
  pub line : part ++ left ≡ payload ++ newline ∷ []

-- where the agent stands between two turns: without a socket, or registered on one
pub data Stage : Type 0 where
  idle : Stage
  joined : ℕ → Stage

abbrev pub socket_of : Stage → Option ℕ
socket_of idle = none
socket_of (joined fd) = some fd

-- the server has an address, and the connection to it is made
unfoldable pub reaches : Attempt → Bool
unfolding server_address
reaches attempt = elim (server_address attempt) [
  | none ↦ false
  | some address ↦ attempt.connects address
]

-- what `send_line` on a socket leaves, with the `close_socket` behind a failure
data SendCase (raises : Bool) (fd : ℕ) (payload : Bytes) (s : AgentState)
    : Sent × AgentState → Type 0 where
  goes : SendCase raises fd payload s (whole, note (sends fd (payload ++ newline ∷ [])) s)
  breaks :
      (part : Bytes)
      → IsFront payload part
      → raises ≡ false
      → SendCase raises fd payload s (failed, drop_socket fd (note (sends fd part) s))
  kills :
      (part : Bytes)
      → IsFront payload part
      → raises ≡ true
      → SendCase raises fd payload s (killed, note (sends fd part) s)

send_case :
    (results : ℕ → Bytes → ℕ) (raises : Bool) (fd : ℕ) (payload : Bytes) (s : AgentState)
    → SendCase raises fd payload s (close_failed fd (send_on results raises fd payload s))
unfolding send_on close_failed
send_case results raises fd payload s =
    let sent = send_line-IsSent results payload in
    let all = sent.whole in
    elim sent.outcome [
      | inl (ok, none_left) ↦ rw ok (
          subst (λ out. SendCase raises fd payload s (whole, note (sends fd out) s))
            (sym all ∙ ap (λ x. (send_line results payload).0 ++ x) none_left ∙ append-nil _) goes)
      | inr (ok, some_left, n, zero_result) ↦
          let part : IsFront payload (send_line results payload).0 = record {
            left = sent.left;
            some_left = some_left;
            line = all;
          } in
          elim (Bool-cases raises) [
            | inl h ↦ rw (ok, h) (kills _ part refl)
            | inr h ↦ rw (ok, h) (breaks _ part refl)
          ]
    ]

module _ {D : Type 0} (e : Machine D) (config : AgentConfig) where
  -- A turn that the process survives: the stage and the samples before it and after it, and its
  -- calls. A snapshot is made of the readings of the turn and the samples before it.
  pub data Step (turn : Turn D) : Stage → Previous → Stage → Previous → List Call → Type 0 where
    no_socket : (p : Previous) → turn.attempt.new_socket ≡ none → Step turn idle p idle p []
    unreached :
        (fd : ℕ) (p : Previous)
        → turn.attempt.new_socket ≡ some fd
        → reaches turn.attempt ≡ false
        → Step turn idle p idle p (opens fd ∷ closes fd ∷ [])
    registers :
        (fd : ℕ) (p : Previous)
        → turn.attempt.new_socket ≡ some fd
        → reaches turn.attempt ≡ true
        → Step turn idle p
            (joined fd)
            p
            (opens fd ∷ sends fd (register_message config ++ newline ∷ []) ∷ [])
    breaks_off :
        (fd : ℕ) (p : Previous) (part : Bytes)
        → turn.attempt.new_socket ≡ some fd
        → reaches turn.attempt ≡ true
        → IsFront (register_message config) part
        → turn.attempt.raises ≡ false
        → Step turn idle p idle p (opens fd ∷ sends fd part ∷ closes fd ∷ [])
    measures :
        (fd : ℕ) (p next : Previous) (metric : MetricSnapshot D)
        → collect_metrics e config.agent_name turn.readings p ≡ returned (metric, next)
        → Step turn
            (joined fd)
            p
            (joined fd)
            next
            (sends fd (metrics_payload e metric ++ newline ∷ []) ∷ [])
    loses :
        (fd : ℕ) (p next : Previous) (metric : MetricSnapshot D) (part : Bytes)
        → collect_metrics e config.agent_name turn.readings p ≡ returned (metric, next)
        → IsFront (metrics_payload e metric) part
        → turn.raises ≡ false
        → Step turn (joined fd) p idle next (sends fd part ∷ closes fd ∷ [])

  -- a turn in which SIGPIPE ends the process
  pub data Dies (turn : Turn D) : Stage → Previous → List Call → Type 0 where
    on_registration :
        (fd : ℕ) (p : Previous) (part : Bytes)
        → turn.attempt.new_socket ≡ some fd
        → reaches turn.attempt ≡ true
        → IsFront (register_message config) part
        → turn.attempt.raises ≡ true
        → Dies turn idle p (opens fd ∷ sends fd part ∷ [])
    on_snapshot :
        (fd : ℕ) (p next : Previous) (metric : MetricSnapshot D) (part : Bytes)
        → collect_metrics e config.agent_name turn.readings p ≡ returned (metric, next)
        → IsFront (metrics_payload e metric) part
        → turn.raises ≡ true
        → Dies turn (joined fd) p (sends fd part ∷ [])

  -- The calls from a stage on, turn by turn, and how they end.
  pub data IsTrace : Stage → Previous → List (Turn D) → Ending → List Call → Type 0 where
    ends : (p : Previous) → IsTrace idle p [] (exited 0) []
    ends_joined : (fd : ℕ) (p : Previous) → IsTrace (joined fd) p [] (exited 0) (closes fd ∷ [])
    goes_on :
        (turn : Turn D) (turns : List (Turn D)) (stage next : Stage) (p q : Previous)
        (ending : Ending) (calls more : List Call)
        → Step turn stage p next q calls
        → IsTrace next q turns ending more
        → IsTrace stage p (turn ∷ turns) ending (calls ++ more)
    dies :
        (turn : Turn D) (turns : List (Turn D)) (stage : Stage) (p : Previous) (calls : List Call)
        → Dies turn stage p calls
        → IsTrace stage p (turn ∷ turns) killed_by_sigpipe calls

  abbrev at_stage : Stage → Previous → List Call → AgentState
  at_stage stage p calls = record { socket_fd = socket_of stage; previous = p; calls = calls }

  -- what a turn leaves
  data Taken (turn : Turn D) (stage : Stage) (p : Previous) (calls : List Call)
      : Sent × AgentState → Type 0 where
    lives :
        (sent : Sent) (next : Stage) (q : Previous) (more : List Call)
        → is_killed sent ≡ false
        → Step turn stage p next q more
        → Taken turn stage p calls (sent, at_stage next q (calls ++ more))
    has_died :
        (s : AgentState) (more : List Call)
        → Dies turn stage p more
        → s.calls ≡ calls ++ more
        → Taken turn stage p calls (killed, s)

  -- two or three calls at the end of a list
  two_more : (calls : List Call) (a b : Call) → (calls ++ a ∷ []) ++ b ∷ [] ≡ calls ++ a ∷ b ∷ []
  two_more calls a b = append_assoc calls (a ∷ []) (b ∷ [])

  three_more :
      (calls : List Call) (a b c : Call)
      → ((calls ++ a ∷ []) ++ b ∷ []) ++ c ∷ [] ≡ calls ++ a ∷ b ∷ c ∷ []
  three_more calls a b c =
      append_assoc (calls ++ a ∷ []) (b ∷ []) (c ∷ []) ∙ append_assoc calls (a ∷ []) (b ∷ c ∷ [])

  module _ (turn : Turn D) (p : Previous) (calls : List Call) where
    -- the state behind `socket`
    abbrev opened : ℕ → AgentState
    opened fd = at_stage (joined fd) p (calls ++ opens fd ∷ [])

    left_at :
        (stage next : Stage) (q : Previous) (sent : Sent) (more all : List Call)
        → is_killed sent ≡ false
        → Step turn stage p next q more
        → all ≡ calls ++ more
        → Taken turn stage p calls (sent, at_stage next q all)
    left_at stage next q sent more all alive step eq =
        subst (λ x. Taken turn stage p calls (sent, at_stage next q x)) (sym eq)
          (lives sent next q more alive step)

    registered_Taken :
        (fd : ℕ) (result : Sent × AgentState)
        → turn.attempt.new_socket ≡ some fd
        → reaches turn.attempt ≡ true
        → SendCase turn.attempt.raises fd (register_message config) (opened fd) result
        → Taken turn idle p calls result
    unfolding drop_socket is_killed
    registered_Taken fd result made there goes =
        left_at idle (joined fd) p whole _ _ refl (registers fd p made there) (two_more calls _ _)
    registered_Taken fd result made there (breaks part front quiet) =
        left_at idle idle p failed _ _ refl (breaks_off fd p part made there front quiet)
          (three_more calls _ _ _)
    registered_Taken fd result made there (kills part front loud) =
        has_died _ _ (on_registration fd p part made there front loud) (two_more calls _ _)

    unreached_Taken :
        (fd : ℕ)
        → turn.attempt.new_socket ≡ some fd
        → reaches turn.attempt ≡ false
        → Taken turn idle p calls (failed, drop_socket fd (opened fd))
    unfolding drop_socket is_killed
    unreached_Taken fd made out =
        left_at idle idle p failed _ _ refl (unreached fd p made out) (two_more calls _ _)

    connect_socket-Taken :
        (fd : ℕ) (address : Option ℕ)
        → turn.attempt.new_socket ≡ some fd
        → server_address turn.attempt ≡ address
        → Taken turn idle p calls (connect_socket config turn.attempt fd address (opened fd))
    unfolding connect_socket register_on reaches
    connect_socket-Taken fd none made found = unreached_Taken fd made (rw (found, reaches) refl)
    connect_socket-Taken fd (some address) made found =
        elim (Bool-cases (turn.attempt.connects address)) [
          | inl h ↦
              let there : reaches turn.attempt ≡ true = rw (found, reaches) h in
              rw h (
                registered_Taken fd _ made there (
                  send_case turn.attempt.send_results turn.attempt.raises fd
                    (register_message config) (opened fd)))
          | inr h ↦
              let out : reaches turn.attempt ≡ false = rw (found, reaches) h in
              rw h (unreached_Taken fd made out)
        ]

    connect_new-Taken :
        (socket : Option ℕ)
        → turn.attempt.new_socket ≡ socket
        → Taken turn idle p calls (connect_new config turn.attempt socket (at_stage idle p calls))
    unfolding connect_new is_killed
    connect_new-Taken none made =
        left_at idle idle p failed [] calls refl (no_socket p made) (sym (append-nil calls))
    connect_new-Taken (some fd) made =
        connect_socket-Taken fd (server_address turn.attempt) made refl

    measured_Taken :
        (fd : ℕ) (metric : MetricSnapshot D) (next : Previous) (result : Sent × AgentState)
        → collect_metrics e config.agent_name turn.readings p ≡ returned (metric, next)
        → SendCase turn.raises fd
            (metrics_payload e metric)
            (at_stage (joined fd) next calls)
            result
        → Taken turn (joined fd) p calls result
    unfolding drop_socket is_killed
    measured_Taken fd metric next result returns goes =
        lives whole (joined fd) next _ refl (measures fd p next metric returns)
    measured_Taken fd metric next result returns (breaks part front quiet) =
        left_at (joined fd) idle next failed _ _ refl
          (loses fd p next metric part returns front quiet) (two_more calls _ _)
    measured_Taken fd metric next result returns (kills part front loud) =
        has_died _ _ (on_snapshot fd p next metric part returns front loud) refl

    take_turn-Taken :
        (stage : Stage)
        → IsSane turn.readings.usage
        → (result : Sent × AgentState) × (take_turn e config turn
              (socket_of stage)
              (at_stage stage p calls)
            ≡ returned result)
          × Taken turn stage p calls result
    unfolding take_turn measure connect_to_server
    take_turn-Taken idle sane = (_, refl, connect_new-Taken turn.attempt.new_socket refl)
    take_turn-Taken (joined fd) sane =
        let (taken, returns, within) =
          collect_metrics-IsWithin e config.agent_name turn.readings p sane in
        rw returns (
          _,
          refl,
          measured_Taken fd taken.0 taken.1 _ returns (
              send_case turn.results turn.raises fd (metrics_payload e taken.0)
                (at_stage (joined fd) taken.1 calls)),
        )

  -- A run of the loop from a stage comes to its end, with calls as the trace has them.
  abbrev Ends :
      List (Turn D) → Stage → Previous → List Call → Outcome (Ending × AgentState) → Type 0
  Ends turns stage p calls run =
      (ending : Ending) × (s : AgentState) × (more : List Call) × (run ≡ returned (ending, s))
      × (s.calls ≡ calls ++ more)
      × IsTrace stage p turns ending more

  Taken-Ends :
      (turn : Turn D) (turns : List (Turn D)) (stage : Stage) (p : Previous) (calls : List Call)
      (result : Sent × AgentState)
      → Taken turn stage p calls result
      → ((next : Stage) (q : Previous) (before : List Call)
          → Ends turns next q before (agent_loop e config turns (at_stage next q before)))
      → Ends (turn ∷ turns) stage p calls (
          if is_killed result.0
          then returned (killed_by_sigpipe, result.1)
          else agent_loop e config turns result.1)
  unfolding is_killed
  Taken-Ends turn turns stage p calls result (lives sent next q more alive step) later =
      let (ending, s, rest, returns, eq, trace) = later next q (calls ++ more) in
      rw alive (
        ending,
        s,
        more ++ rest,
        returns,
        eq ∙ append_assoc calls more rest,
        goes_on turn turns stage next p q ending more rest step trace,
      )
  Taken-Ends turn turns stage p calls result (has_died s more dead eq) later =
      (killed_by_sigpipe, s, more, refl, eq, dies turn turns stage p more dead)

  loop-Ends :
      (turns : List (Turn D)) (stage : Stage) (p : Previous) (calls : List Call)
      → All (λ turn. IsSane turn.readings.usage) turns
      → Ends turns stage p calls (agent_loop e config turns (at_stage stage p calls))
  unfolding agent_loop stop drop_socket
  loop-Ends [] idle p calls sane = (exited 0, _, [], refl, sym (append-nil calls), ends p)
  loop-Ends [] (joined fd) p calls sane =
      (exited 0, _, closes fd ∷ [], refl, refl, ends_joined fd p)
  loop-Ends (turn ∷ turns) stage p calls (sane, all_sane) =
      let (result, returns, taken) = take_turn-Taken turn p calls stage sane in
      rw returns (
        Taken-Ends turn turns stage p calls result taken
          (λ next q before. loop-Ends turns next q before all_sane))

  -- what `main` does: it ends at once, or it goes through the turns
  pub data Session (startup : Startup) (turns : List (Turn D)) : Ending → List Call → Type 0 where
    refused :
        (not startup.runtime_ok || (config.daemonize && startup.daemon_fails)) ≡ true
        → Session startup turns (exited 1) []
    loops :
        (ending : Ending) (calls : List Call)
        → IsTrace idle (agent_start startup).previous turns ending calls
        → Session startup turns ending calls

  -- If the arguments can be read, and the system says sane things of memory and disk, then the agent
  -- comes to an end, and its calls are those of its turns: without a connection it opens a socket,
  -- connects and registers on it, and with one it sends the snapshot of the turn's readings and of the
  -- samples of the turn before. A line that does not go out as a whole is the last on its socket, which
  -- is closed, or SIGPIPE ends the process there; at its end `main` closes the socket that is open.
  pub agent_main-IsTrace :
      (arguments : List Bytes) (startup : Startup) (turns : List (Turn D))
      → parse_args startup.name arguments ≡ returned config
      → All (λ turn. IsSane turn.readings.usage) turns
      → (ending : Ending) × (calls : List Call) × (agent_main e arguments startup turns
          ≡ returned (ending, calls))
        × Session startup turns ending calls
  unfolding agent_main agent_start
  agent_main-IsTrace arguments startup turns parsed sane =
      let (ending, s, calls, returns, eq, trace) =
        loop-Ends turns idle (agent_start startup).previous [] sane in
      elim (Bool-cases (not startup.runtime_ok)) [
        | inl h ↦ rw (parsed, h) (exited 1, [], refl, refused (rw h refl))
        | inr h ↦ elim (Bool-cases (config.daemonize && startup.daemon_fails)) [
          | inl k ↦ rw (parsed, h, k) (exited 1, [], refl, refused (rw (h, k) refl))
          | inr k ↦
              rw (parsed, h, k, returns) (ending, s.calls, refl, rw eq (loops ending calls trace))
        ]
      ]
