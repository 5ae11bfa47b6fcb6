-- ===== src/TcpServer/Tests.antt =====
-- A server whose two connections have come and gone.
use flux_a_high_performance.Prelude.{ℕ, Bool, true, ◌≡◌, refl, [], ◌∷◌, length, Result, ok, arith}
use flux_a_high_performance.TimerWheel.{fresh_wheel, has_timer}
use flux_a_high_performance.Connection
use flux_a_high_performance.Connection.Handlers.{call_if_set}
use flux_a_high_performance.TcpServer.Admit.{configured, admit, Admitted, admit_lem}
use flux_a_high_performance.TcpServer.{
  TcpServer, enable_inactive_release, set_message_callback, listening, accepted, released,
  timer_task, run,
}
use flux_a_high_performance.TcpServer.Table.{IsValid, accepted_in, run_conns}

listening-IsValid : IsValid listening
listening-IsValid = record { given = tt; unheard = tt }

run_conns_example :
    length
      (run listening (accepted 7 ∷ timer_task 5 ∷ accepted 8 ∷ released 1 ∷ released 3 ∷ [])).conns
    ≡ 2
unfolding accepted_in
run_conns_example =
    run_conns (accepted 7 ∷ timer_task 5 ∷ accepted 8 ∷ released 1 ∷ released 3 ∷ []) listening
      listening-IsValid (omega arith)

abbrev server : TcpServer
server = set_message_callback (enable_inactive_release listening 30) 1

abbrev accepting : ℕ → Bool
accepting n = true

abbrev quiet : ℕ → Connection.Connection ℕ → Result (Connection.Connection ℕ)
quiet f c = ok c

admit_lem_example :
    (c : Connection.Connection ℕ) × (admit quiet server (configured server accepting fresh_wheel 9)
      ≡ call_if_set quiet server.connected_callback c)
    × Admitted server accepting fresh_wheel 9 c
unfolding has_timer enable_inactive_release set_message_callback
admit_lem_example =
    admit_lem quiet server accepting fresh_wheel 9 (record { given = tt; unheard = tt })
      (omega arith) refl
