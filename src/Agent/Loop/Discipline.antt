-- ===== src/Agent/Loop/Discipline.antt =====
-- cpp/client/main.cpp: how the agent uses its sockets, seen from the calls alone.
use sys_net_mon.Base.{
  ℕ, Option, none, some, List, [], ◌∷◌, ◌++◌, Bytes, ◌≡◌, refl, ◌∙◌, returned, All, ◌==◌, and_then,
  if◌then◌else◌, ==_refl,
}
use sys_net_mon.Machine.{Machine}
use sys_net_mon.Metrics.Collect.Within.{IsSane}
use sys_net_mon.Agent.{AgentConfig, parse_args}
use sys_net_mon.Metrics.Collect.{Previous}
use sys_net_mon.Agent.Loop.{Call, opens, closes, sends, Turn, Startup, Ending, exited, agent_main}
use sys_net_mon.Agent.Loop.Sessions.{
  Stage, idle, socket_of, Step, no_socket, unreached, registers, breaks_off, measures, loses, Dies,
  on_registration, on_snapshot, IsTrace, ends, ends_joined, goes_on, dies, Session, refused, loops,
  agent_main-IsTrace,
}

-- The socket that is open after a call, if one was; `none` where the call is not allowed. A socket is
-- opened where none is open, and used or closed where it is the one that is open.
abbrev pub allow : Option ℕ → Call → Option (Option ℕ)
allow none (opens fd) = some (some fd)
allow none (closes fd) = none
allow none (sends fd bytes) = none
allow (some open_fd) (opens fd) = none
allow (some open_fd) (closes fd) = if fd == open_fd then some none else none
allow (some open_fd) (sends fd bytes) = if fd == open_fd then some (some open_fd) else none

unfoldable pub open_after : Option ℕ → List Call → Option (Option ℕ)
open_after open_fd [] = some open_fd
open_after open_fd (call ∷ calls) = and_then (allow open_fd call) λ next. open_after next calls

and_then_assoc :
    {A B C : Type 0} (m : Option A) (f : A → Option B) (g : B → Option C)
    → and_then m (λ a. and_then (f a) g) ≡ and_then (and_then m f) g
and_then_assoc none f g = refl
and_then_assoc (some a) f g = refl

open_after-append :
    (t u : List Call) (o : Option ℕ)
    → open_after o (t ++ u) ≡ and_then (open_after o t) (λ next. open_after next u)
unfolding open_after
open_after-append [] u o = refl
open_after-append (call ∷ t) u o =
    (λ i. and_then (allow o call) (λ next. open_after-append t u next i))
    ∙ and_then_assoc (allow o call) (λ next. open_after next t) (λ next. open_after next u)

module _ {D : Type 0} (e : Machine D) (config : AgentConfig) where
  Step-open_after :
      (turn : Turn D) (stage next : Stage) (p q : Previous) (calls : List Call)
      → Step e config turn stage p next q calls
      → open_after (socket_of stage) calls ≡ some (socket_of next)
  unfolding open_after
  Step-open_after turn stage next p q calls (no_socket p' made) = refl
  Step-open_after turn stage next p q calls (unreached fd p' made out) = rw (==_refl fd) refl
  Step-open_after turn stage next p q calls (registers fd p' made there) = rw (==_refl fd) refl
  Step-open_after turn stage next p q calls (breaks_off fd p' part made there front quiet) =
      rw (==_refl fd, ==_refl fd) refl
  Step-open_after turn stage next p q calls (measures fd p' q' metric returns) =
      rw (==_refl fd) refl
  Step-open_after turn stage next p q calls (loses fd p' q' metric part returns front quiet) =
      rw (==_refl fd, ==_refl fd) refl

  Dies-open_after :
      (turn : Turn D) (stage : Stage) (p : Previous) (calls : List Call)
      → Dies e config turn stage p calls
      → (o : Option ℕ) × (open_after (socket_of stage) calls ≡ some o)
  unfolding open_after
  Dies-open_after turn stage p calls (on_registration fd p' part made there front loud) =
      (some fd, rw (==_refl fd) refl)
  Dies-open_after turn stage p calls (on_snapshot fd p' q metric part returns front loud) =
      (some fd, rw (==_refl fd) refl)

  -- The calls are allowed, and if `main` returns, no socket is left open.
  abbrev pub Allowed : Option ℕ → Ending → List Call → Type 0
  Allowed from ending calls =
      (o : Option ℕ) × (open_after from calls ≡ some o)
      × ((code : ℕ) → ending ≡ exited code → o ≡ none)

  IsTrace-Allowed :
      (stage : Stage) (p : Previous) (turns : List (Turn D)) (ending : Ending) (calls : List Call)
      → IsTrace e config stage p turns ending calls
      → Allowed (socket_of stage) ending calls
  unfolding open_after
  IsTrace-Allowed stage p turns ending calls (ends p') = (none, refl, λ code h. refl)
  IsTrace-Allowed stage p turns ending calls (ends_joined fd p') =
      (none, rw (==_refl fd) refl, λ code h. refl)
  IsTrace-Allowed stage p turns ending calls
        (goes_on turn later stage' next p' q ending' before more step trace) =
      let (o, allowed, shut) = IsTrace-Allowed next q later ending more trace in
      (
        o,
        rw
            (
              open_after-append before more (socket_of stage),
              Step-open_after turn stage next p q before step,
            )
            allowed,
        shut,
      )
  IsTrace-Allowed stage p turns ending calls (dies turn later stage' p' calls' dead) =
      let (o, allowed) = Dies-open_after turn stage p calls dead in (o, allowed, λ code h. cc)

  Session-Allowed :
      (startup : Startup) (turns : List (Turn D)) (ending : Ending) (calls : List Call)
      → Session e config startup turns ending calls
      → Allowed none ending calls
  Session-Allowed startup turns ending calls (refused h) =
      (none, unfold open_after in refl, λ code k. refl)
  Session-Allowed startup turns ending calls (loops ending' calls' trace) =
      IsTrace-Allowed idle _ turns ending calls trace

  -- If the arguments can be read, and the system says sane things of memory and disk, then the agent
  -- comes to an end, it opens a socket only while it has none open, it sends on the open one only, and
  -- closes the open one only; if `main` returns, it leaves none open.
  pub agent_main-open_after :
      (arguments : List Bytes) (startup : Startup) (turns : List (Turn D))
      → parse_args startup.name arguments ≡ returned config
      → All (λ turn. IsSane turn.readings.usage) turns
      → (ending : Ending) × (calls : List Call) × (agent_main e arguments startup turns
          ≡ returned (ending, calls))
        × (o : Option ℕ) × (open_after none calls ≡ some o)
        × ((code : ℕ) → ending ≡ exited code → o ≡ none)
  agent_main-open_after arguments startup turns parsed sane =
      let (ending, calls, returns, session) =
        agent_main-IsTrace e config arguments startup turns parsed sane in
      let allowed = Session-Allowed startup turns ending calls session in
      (ending, calls, returns, allowed.0, allowed.1, allowed.2)
