-- ===== src/Http/Server/Session/Rounds.antt =====
-- A round of OnMessage on a connection, when the rest of the loop is known to keep what it should.
use flux_a_high_performance.Prelude.{
  ◌≡◌, ap, ℕ, zero, suc, ◌≤◌, refl, inl, inr, Option, some, none, leb, length, Result, ok, ◌>>=◌,
  arith,
}
use flux_a_high_performance.Buffer.{read_able_size, move_read_offset}
use flux_a_high_performance.Buffer.Inv.{contents, length-contents, read_able_size_lem}
use flux_a_high_performance.Buffer.Read.{advanced, advanced-IsValid, move_read_offset_ok}
use flux_a_high_performance.Connection.Inv.{flow, WellFormed, Keeps, then-Keeps, if-Keeps}
use flux_a_high_performance.Connection.Methods.{shutdown_in_loop-Keeps}
use flux_a_high_performance.Http.Response.{with_status}
use flux_a_high_performance.Http.Context.{
  HttpContext, HttpRecvStatus, recv_error, recv_line, recv_head, recv_body, recv_over,
  recv_http_request,
}
use flux_a_high_performance.Http.Context.Safety.{recv_http_request_lem}
use flux_a_high_performance.Http.Context.Bound.{measure, weight, recv_http_request-Within}
use flux_a_high_performance.Http.Server.{Files, HttpServer}
use flux_a_high_performance.Http.Server.Routes.{route_total}
use flux_a_high_performance.Http.Server.Session.{
  HttpConnection, set_http_context, http_callback, make_response_on, shutdown_on, reset_on,
  answer_error_on, answer_request_on, received_on, context_of, logged,
}
use flux_a_high_performance.Http.Server.Session.Costs.{
  policy_of, Costs, http_policy, InputWithin, Anything, Costs-InputWithin, reset-Costs, Keeps-le,
  next-Keeps, make_response_on-Keeps,
}

-- The rest of the loop, which has at most `n` rounds.
module _ (n : ℕ) (more : HttpConnection → Result HttpConnection)
    (more-Keeps : (c : HttpConnection)
      → WellFormed (http_policy n) c
      → Keeps (http_policy n) (more c)) where
  pub http_callback-Keeps :
      (f : ℕ) (c : HttpConnection)
      → WellFormed (http_policy n) c
      → Keeps (http_policy n) (http_callback more f c)
  unfolding http_callback set_http_context
  http_callback-Keeps zero c w =
      let h = Costs-InputWithin n c.context c.in_buffer w.2.1 in
      (w.0, w.1, (w.2.0, (refl, omega arith)))
  http_callback-Keeps (suc f) c w = more-Keeps (logged (suc f) c) w

  shutdown_on-Keeps :
      (c : HttpConnection)
      → WellFormed (http_policy n) c
      → Keeps (http_policy n) (shutdown_on more c)
  unfolding shutdown_on
  shutdown_on-Keeps c w =
      shutdown_in_loop-Keeps (http_policy n) (http_callback more) http_callback-Keeps c w

  -- All of the input is dropped.
  rejected-Keeps :
      (context : HttpContext) (c : HttpConnection)
      → 1 ≤ n
      → WellFormed (policy_of Anything) c
      → Keeps (http_policy n) (
          move_read_offset c.in_buffer (read_able_size c.in_buffer) >>= λ buffer.
          shutdown_on more (record (reset_on context c) { in_buffer = buffer }))
  rejected-Keeps context c enough w =
      let v = w.0.input_valid in
      let k = read_able_size c.in_buffer in
      let h : k ≤ length (contents c.in_buffer) =
        omega (arith, length-contents v, read_able_size_lem v) in
      let u = advanced-IsValid k v h in
      let nothing : length (contents (advanced c.in_buffer k)) ≡ 0 =
        omega (arith, length-contents u, read_able_size_lem v) in
      rw (move_read_offset_ok k v h) (
        shutdown_on-Keeps (record (reset_on context c) { in_buffer = advanced c.in_buffer k })
          (
            flow u w.0.output_valid w.0.accounted w.0.waiting,
            w.1,
            (w.2.0, reset-Costs n context (advanced c.in_buffer k) (omega arith)),
          ))

  answer_error_on-Keeps :
      (fs : Files) (s : HttpServer) (context : HttpContext) (c : HttpConnection)
      → 1 ≤ n
      → WellFormed (policy_of Anything) c
      → Keeps (http_policy n) (answer_error_on more fs s context c)
  unfolding answer_error_on
  answer_error_on-Keeps fs s context c enough w =
      next-Keeps Anything (Costs n) _ (make_response_on c context.request _)
        (make_response_on-Keeps Anything c context.request _ w)
        (λ d v. rejected-Keeps context d enough v)

  answer_request_on-Keeps :
      (fs : Files) (s : HttpServer) (context : HttpContext) (c : HttpConnection)
      → WellFormed (policy_of (InputWithin n)) c
      → Keeps (http_policy n) (answer_request_on more fs s context c)
  unfolding answer_request_on
  answer_request_on-Keeps fs s context c w =
      let (routed, e) = route_total fs s context.request (with_status context.resp_status) in
      rw e (
        next-Keeps (InputWithin n) (Costs n) _ (make_response_on c context.request _)
          (make_response_on-Keeps (InputWithin n) c context.request _ w)
          (λ d v.
            let u : WellFormed (http_policy n) (reset_on context d) =
              (v.0, v.1, (v.2.0, reset-Costs n context d.in_buffer v.2.1)) in
            then-Keeps (http_policy n) more _
              (if-Keeps (http_policy n) _ (shutdown_on more (reset_on context d))
                (ok (reset_on context d)) (shutdown_on-Keeps (reset_on context d) u) u)
              more-Keeps))

  by_status-Keeps :
      (fs : Files) (s : HttpServer) (context : HttpContext) (c : HttpConnection)
      (status : HttpRecvStatus)
      → context.recv_status ≡ status
      → measure context c.in_buffer ≤ suc n
      → WellFormed (http_policy (suc n)) c
      → Keeps
          (http_policy (suc n))
          (elim status [ recv_over ↦ answer_request_on more fs s context c | _ ↦ ok c ])
  by_status-Keeps fs s context c recv_over e m w =
      Keeps-le n (suc n) (answer_request_on more fs s context c) (omega arith)
        (answer_request_on-Keeps fs s context c (w.0, w.1, (w.2.0, omega (arith, m, ap weight e))))
  by_status-Keeps fs s context c recv_error e m w = w
  by_status-Keeps fs s context c recv_line e m w = w
  by_status-Keeps fs s context c recv_head e m w = w
  by_status-Keeps fs s context c recv_body e m w = w

  received_on-Keeps :
      (fs : Files) (s : HttpServer) (context : HttpContext) (c : HttpConnection)
      → 1 ≤ n
      → measure context c.in_buffer ≤ suc n
      → WellFormed (http_policy (suc n)) c
      → Keeps (http_policy (suc n)) (received_on more fs s context c)
  unfolding received_on
  received_on-Keeps fs s context c enough m w =
      if-Keeps (http_policy (suc n)) (leb 400 context.resp_status)
        (answer_error_on more fs s context c) _
        (Keeps-le n (suc n) (answer_error_on more fs s context c) (omega arith)
          (answer_error_on-Keeps fs s context c enough (w.0, w.1, (w.2.0, tt))))
        (by_status-Keeps fs s context c context.recv_status refl m w)

  -- RecvHttpRequest, and the rest of the round.
  parsed-Keeps :
      (fs : Files) (s : HttpServer) (context : HttpContext) (c : HttpConnection)
      → 1 ≤ n
      → Costs (suc n) (some context) c.in_buffer
      → WellFormed (http_policy (suc n)) c
      → Keeps (http_policy (suc n)) (
          recv_http_request context c.in_buffer >>= λ r.
          received_on more fs s r.0 (record c { context = some r.0; in_buffer = r.1 }))
  parsed-Keeps fs s context c enough (a, m) w =
      let within = recv_http_request-Within context w.0.input_valid a in
      elim (recv_http_request_lem context w.0.input_valid a) [
        | inl (context', b, e, p) ↦
            let less : measure context' b ≤ suc n = omega (arith, rw e at within) in
            rw e (
              received_on-Keeps fs s context' (record c { context = some context'; in_buffer = b })
                enough less
                (
                  flow p.valid w.0.output_valid w.0.accounted w.0.waiting,
                  w.1,
                  (w.2.0, (p.agreed, less)),
                ))
        | inr e ↦ rw e tt
      ]

  -- The context that the connection has.
  pub known-Keeps :
      (fs : Files) (s : HttpServer) (context : Option HttpContext) (c : HttpConnection)
      → 1 ≤ n
      → Costs (suc n) context c.in_buffer
      → WellFormed (http_policy (suc n)) c
      → Keeps (http_policy (suc n)) (
          context_of context >>= λ context'.
          (recv_http_request context' c.in_buffer >>= λ r.
          received_on more fs s r.0 (record c { context = some r.0; in_buffer = r.1 })))
  unfolding context_of
  known-Keeps fs s none c enough h w = absurd h
  known-Keeps fs s (some context) c enough h w = parsed-Keeps fs s context c enough h w
