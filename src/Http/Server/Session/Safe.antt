-- ===== src/Http/Server/Session/Safe.antt =====
-- The connections of the HTTP server keep the invariant of the library, and no assert fails in them.
use flux_a_high_performance.Prelude.{◌+◌, ◌<◌, Bool-cases, ℕ, zero, suc, ◌≤◌, inl, inr, ◌==◌, arith}
use flux_a_high_performance.Buffer.{buffer_max_size, read_able_size}
use flux_a_high_performance.Buffer.Inv.{length-contents, read_able_size_lem}
use flux_a_high_performance.TimerWheel.{TimerWheel}
use flux_a_high_performance.Connection.Inv.{WellFormed, Keeps}
use flux_a_high_performance.TcpServer.{TcpServer}
use flux_a_high_performance.Http.Server.{Files, HttpServer}
use flux_a_high_performance.Http.Server.Session.{HttpConnection, on_message_on}
use flux_a_high_performance.Http.Server.Session.Costs.{http_policy, Costs-InputWithin}
use flux_a_high_performance.Http.Server.Session.Rounds.{known-Keeps}

pub on_message_on-Keeps :
    (fs : Files) (s : HttpServer) (fuel n : ℕ) (c : HttpConnection)
    → n < fuel
    → WellFormed (http_policy n) c
    → Keeps (http_policy n) (on_message_on fs s fuel c)
unfolding on_message_on
on_message_on-Keeps fs s zero n c less w = absurd (omega arith)
on_message_on-Keeps fs s (suc fuel) zero c less w =
    absurd (omega (arith, Costs-InputWithin 0 c.context c.in_buffer w.2.1))
on_message_on-Keeps fs s (suc fuel) (suc n) c less w =
    elim (Bool-cases (read_able_size c.in_buffer == 0)) [
      | inl z ↦ rw z w
      | inr more ↦
          let v = w.0.input_valid in
          let some_left : 1 ≤ read_able_size c.in_buffer = ground arith in
          let enough : 1 ≤ n = omega (
            arith,
            some_left,
            read_able_size_lem v,
            length-contents v,
            Costs-InputWithin (suc n) c.context c.in_buffer w.2.1,
          ) in
          rw more (
            known-Keeps n (on_message_on fs s fuel)
              (λ d u. on_message_on-Keeps fs s fuel n d (omega arith) u) fs s c.context c enough
              w.2.1 w)
    ]

-- No input of a buffer takes more rounds.
abbrev pub max_rounds : ℕ
max_rounds = buffer_max_size + 2
