-- ===== src/Tests/Start.antt =====
-- A whole run of the server's program.
use sys_net_mon.Base.{ℕ, true, some, [], ◌∷◌, returned, ◌≡◌, refl}
use sys_net_mon.Server.{MonitorServer}
use sys_net_mon.Server.Rounds.{run, serve_round, fits_set, listen_ready, is_set}
use sys_net_mon.Server.Ledger.{accepted_by, accepted_in}
use sys_net_mon.Server.Rules.{IsConsistent}
use sys_net_mon.Server.Start.{
  fresh, main_function, start, IsShut, IsClosed, sockets, main_function-IsShut,
}
use sys_net_mon.Sample.{sample, rounds}

-- socket 3 listens, and the connection with socket 6 is open until the end
abbrev after_run : MonitorServer ℕ
after_run = record fresh { closed = 6 ∷ 3 ∷ [] }

main_lem : main_function sample true (some 3) true true rounds ≡ returned (0, after_run)
unfolding main_function start run serve_round fits_set
main_lem = refl

main_function-IsShut_example :
    IsConsistent sample after_run
    × IsShut sample after_run
    × IsClosed sample (sockets sample true (some 3) true true rounds) after_run
main_function-IsShut_example =
    main_function-IsShut sample true (some 3) true true rounds 0 after_run main_lem

-- the listening socket, and the one that is accepted
sockets_lem : sockets sample true (some 3) true true rounds ≡ 3 ∷ 6 ∷ []
unfolding sockets start accepted_by accepted_in listen_ready is_set serve_round
sockets_lem = refl
