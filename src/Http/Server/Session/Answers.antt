-- ===== src/Http/Server/Session/Answers.antt =====
-- The answers of OnMessage on a connection: to a request, and to one that could not be received.
use flux_a_high_performance.Prelude.{
  ◌<◌, ◌≡◌, inl, inr, refl, ap, Bool, false, leb, if◌then◌else◌, Bool-cases, some, Result, ok,
  fault, ◌>>=◌, arith,
}
use flux_a_high_performance.Buffer.{Buffer, read_able_size, move_read_offset}
use flux_a_high_performance.Connection.{is_disconnected}
use flux_a_high_performance.Http.Request.{HttpRequest}
use flux_a_high_performance.Http.Response.{
  HttpResponse, with_status, is_short_connection, completed,
}
use flux_a_high_performance.Http.Context.{
  HttpContext, HttpRecvStatus, recv_error, recv_line, recv_head, recv_body, recv_over,
}
use flux_a_high_performance.Http.Server.{Files, HttpServer, error_handler}
use flux_a_high_performance.Http.Server.Routes.{route_total}
use flux_a_high_performance.Http.Server.Message
use flux_a_high_performance.Http.Server.Message.{
  shut_down, make_response, finished, shutdown, answer_error, answer_request, received, on_message,
}
use flux_a_high_performance.Http.Server.Message.Steps.{Sends, make_response-Sends}
use flux_a_high_performance.Http.Server.Message.Grows.{
  amount, Grows, any-Grows, then-Grows, make_response-speaks, shutdown-Grows,
}
use flux_a_high_performance.Http.Server.Session.{
  HttpConnection, make_response_on, shutdown_on, reset_on, answer_error_on, answer_request_on,
  received_on,
}
use flux_a_high_performance.Http.Server.Session.Follows.{
  Tracks, Follows, then-Follows, make_response-Follows,
}
use flux_a_high_performance.Http.Server.Session.Shutdown.{
  shutdown-Follows, finished-Tracks, ended-Follows, ended-Grows, parsed-Tracks,
}

-- The rest of the loop, on both sides.
module _ (c0 : HttpConnection) (open_at_first : is_disconnected c0.statu ≡ false)
    (more : Message.Connection → Result Message.Connection)
    (more_on : HttpConnection → Result HttpConnection)
    (more-Grows : (m : Message.Connection) → Grows (amount m) (more m))
    (more-Follows : (m : Message.Connection) (c : HttpConnection)
      → Tracks c0 m c
      → Follows c0 (more m) (more_on c)) where
  -- What a response leaves of the connection that it answers.
  spoken :
      (m m' : Message.Connection) (req : HttpRequest) (resp : HttpResponse)
      → make_response m req resp ≡ ok m'
      → (m'.context ≡ m.context) × (0 < amount m')
  unfolding Sends
  spoken m m' req resp e =
      let sends = make_response-Sends m req resp in
      let speaks = make_response-speaks m req resp in
      ((rw e at sends).0, omega (arith, rw e at speaks))

  -- The rest of a refused request is dropped.
  rejected-Grows :
      (m : Message.Connection)
      → Grows (amount m) (
          move_read_offset m.buffer (read_able_size m.buffer) >>= λ buffer.
          shutdown more (record (finished m) { buffer = buffer }))
  rejected-Grows m =
      any-Grows (amount m) (move_read_offset m.buffer (read_able_size m.buffer)) _
        (λ buffer. shutdown-Grows more more-Grows (record (finished m) { buffer = buffer }))

  dropped-Follows :
      (context : HttpContext) (m : Message.Connection) (c : HttpConnection)
      → m.context ≡ context
      → 0 < amount m
      → Tracks c0 m c
      → (r q : Result Buffer) → q ≡ r
      → Follows c0
          (r >>= λ buffer. shutdown more (record (finished m) { buffer = buffer }))
          (q >>= λ buffer. shutdown_on more_on (record (reset_on context c) { in_buffer = buffer }))
  dropped-Follows context m c e h t (fault why) q same = rw same (inl refl)
  dropped-Follows context m c e h t (ok buffer) q same = rw same (
      shutdown-Follows c0 open_at_first more more_on more-Grows more-Follows
        (record (finished m) { buffer = buffer })
        (record (reset_on context c) { in_buffer = buffer }) h
        (finished-Tracks c0 context m c buffer buffer e refl t))

  rejected-Follows :
      (context : HttpContext) (m : Message.Connection) (c : HttpConnection)
      → m.context ≡ context
      → 0 < amount m
      → Tracks c0 m c
      → Follows c0
          (move_read_offset m.buffer (read_able_size m.buffer) >>= λ buffer.
            shutdown more (record (finished m) { buffer = buffer }))
          (move_read_offset c.in_buffer (read_able_size c.in_buffer) >>= λ buffer.
            shutdown_on more_on (record (reset_on context c) { in_buffer = buffer }))
  rejected-Follows context m c e h t =
      dropped-Follows context m c e h t (move_read_offset m.buffer (read_able_size m.buffer))
        (move_read_offset c.in_buffer (read_able_size c.in_buffer))
        (ap (λ b. move_read_offset b (read_able_size b)) t.input_same)

  answer_error-Follows :
      (fs : Files) (s : HttpServer) (m : Message.Connection) (c : HttpConnection)
      → Tracks c0 m c
      → Follows c0 (answer_error more fs s m) (answer_error_on more_on fs s m.context c)
  unfolding answer_error answer_error_on
  answer_error-Follows fs s m c t =
      let req = m.context.request in
      let resp = error_handler fs s (with_status m.context.resp_status) in
      then-Follows c0 (make_response m req resp) (make_response_on c req resp) _ _
        (make_response-Follows c0 open_at_first m c req resp t) (λ m'. rejected-Grows m')
        (λ m' c' e t'.
          rejected-Follows m.context m' c' (spoken m m' req resp e).0 (spoken m m' req resp e).1 t')

  -- The loop goes on after a response.
  answered-Grows :
      (short : Bool) (m : Message.Connection)
      → Grows (amount m) ((if short then shutdown more (finished m) else ok (finished m)) >>= more)
  answered-Grows short m =
      then-Grows (amount m) (if short then shutdown more (finished m) else ok (finished m)) more
        (ended-Grows c0 open_at_first more more_on more-Grows more-Follows short (finished m))
        more-Grows

  answered-Follows :
      (short : Bool) (context : HttpContext) (m : Message.Connection) (c : HttpConnection)
      → m.context ≡ context
      → 0 < amount m
      → Tracks c0 m c
      → Follows c0 ((if short then shutdown more (finished m) else ok (finished m)) >>= more) (
          (if short then shutdown_on more_on (reset_on context c) else ok (reset_on context c))
          >>= more_on)
  answered-Follows short context m c e h t =
      then-Follows c0 (if short then shutdown more (finished m) else ok (finished m)) _ more more_on
        (ended-Follows c0 open_at_first more more_on more-Grows more-Follows short (finished m)
          (reset_on context c) h
          (finished-Tracks c0 context m c m.buffer c.in_buffer e t.input_same t))
        more-Grows (λ m' c' _ t'. more-Follows m' c' t')

  routed-Follows :
      (fs : Files) (s : HttpServer) (m : Message.Connection) (c : HttpConnection)
      (routed : HttpResponse)
      → Tracks c0 m c
      → let req = m.context.request in
        let resp = if leb 400 routed.status then error_handler fs s routed else routed in
        let short = is_short_connection (completed req resp) in
        Follows c0
          (make_response m req resp >>= λ m'.
            ((if short then shutdown more (finished m') else ok (finished m')) >>= more))
          (make_response_on c req resp >>= λ c'.
            ((if short
                then shutdown_on more_on (reset_on m.context c')
                else ok (reset_on m.context c'))
              >>= more_on))
  routed-Follows fs s m c routed t =
      let req = m.context.request in
      let resp = if leb 400 routed.status then error_handler fs s routed else routed in
      let short = is_short_connection (completed req resp) in
      then-Follows c0 (make_response m req resp) (make_response_on c req resp) _ _
        (make_response-Follows c0 open_at_first m c req resp t) (λ m'. answered-Grows short m')
        (λ m' c' e t'.
          let (same, positive) = spoken m m' req resp e in
          answered-Follows short m.context m' c' same positive t')

  answer_request-Follows :
      (fs : Files) (s : HttpServer) (m : Message.Connection) (c : HttpConnection)
      → Tracks c0 m c
      → Follows c0 (answer_request more fs s m) (answer_request_on more_on fs s m.context c)
  unfolding answer_request answer_request_on
  answer_request-Follows fs s m c t =
      let (routed, e) = route_total fs s m.context.request (with_status m.context.resp_status) in
      rw e (routed-Follows fs s m c routed t)

  by_status-Follows :
      (fs : Files) (s : HttpServer) (m : Message.Connection) (c : HttpConnection)
      (status : HttpRecvStatus)
      → Tracks c0 m c
      → Follows c0
          (elim status [ recv_over ↦ answer_request more fs s m | _ ↦ ok m ])
          (elim status [ recv_over ↦ answer_request_on more_on fs s m.context c | _ ↦ ok c ])
  by_status-Follows fs s m c recv_over t = answer_request-Follows fs s m c t
  by_status-Follows fs s m c recv_error t = inl (c, refl, t)
  by_status-Follows fs s m c recv_line t = inl (c, refl, t)
  by_status-Follows fs s m c recv_head t = inl (c, refl, t)
  by_status-Follows fs s m c recv_body t = inl (c, refl, t)

  received-Follows :
      (fs : Files) (s : HttpServer) (m : Message.Connection) (c : HttpConnection)
      → Tracks c0 m c
      → Follows c0 (received more fs s m) (received_on more_on fs s m.context c)
  unfolding received received_on
  received-Follows fs s m c t = elim (Bool-cases (leb 400 m.context.resp_status)) [
    | inl refused ↦ rw refused (answer_error-Follows fs s m c t)
    | inr fine ↦ rw fine (by_status-Follows fs s m c m.context.recv_status t)
  ]

  pub parsed-Follows :
      (fs : Files) (s : HttpServer) (m : Message.Connection) (c : HttpConnection)
      (r : Result (HttpContext × Buffer))
      → Tracks c0 m c
      → Follows c0 (r >>= λ p. received more fs s (record m { context = p.0; buffer = p.1 })) (
          r >>= λ p.
          received_on more_on fs s p.0 (record c { context = some p.0; in_buffer = p.1 }))
  parsed-Follows fs s m c (fault why) t = inl refl
  parsed-Follows fs s m c (ok (context, b)) t =
      received-Follows fs s (record m { context = context; buffer = b })
        (record c { context = some context; in_buffer = b }) (parsed-Tracks c0 m c context b t)
