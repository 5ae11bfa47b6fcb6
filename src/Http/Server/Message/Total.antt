-- ===== src/Http/Server/Message/Total.antt =====
-- OnMessage ends: every request that it answers has been paid with a byte.
use flux_a_high_performance.Prelude.{
  ℕ, zero, suc, ◌+◌, ◌≤◌, ◌≡◌, inl, inr, refl, ap, true, leb, ◌==◌, if◌then◌else◌, Bool-cases,
  ==_iff, length, Result, ok, fault, ◌>>=◌, arith,
}
use flux_a_high_performance.Buffer.{Buffer, read_able_size, move_read_offset}
use flux_a_high_performance.Buffer.Inv.{IsValid, contents, length-contents}
use flux_a_high_performance.Buffer.Read.{advanced, advanced-IsValid, move_read_offset_ok}
use flux_a_high_performance.Http.Response.{with_status, is_short_connection, completed}
use flux_a_high_performance.Http.Context.{HttpContext, recv_over, recv_http_request}
use flux_a_high_performance.Http.Context.Head.{HttpRecvStatus-discrete}
use flux_a_high_performance.Http.Context.Safety.{recv_http_request_lem, Received}
use flux_a_high_performance.Http.Context.Bound.{
  weight, Within, recv_http_request-Within, weight-ge, weight-le, reset-new_context,
}
use flux_a_high_performance.Http.Server.Routes.{route_total}
use flux_a_high_performance.Http.Server.{Files, HttpServer, error_handler}
use flux_a_high_performance.Http.Server.Message.{
  Connection, finished, shutdown, answer_error, answer_request, received, on_message,
}
use flux_a_high_performance.Http.Server.Message.Steps.{
  Ender, Ends, Ends-le, IsReady, Sends, answered-Ends, make_response-Sends, size_of,
}

answer_request-Ends :
    (m : ℕ) (more : Connection → Result Connection) (fs : Files) (s : HttpServer)
    (conn : Connection)
    → Ender m more
    → IsReady conn
    → conn.context.recv_status ≡ recv_over
    → size_of conn ≤ m
    → Ends (size_of conn) (answer_request more fs s conn)
unfolding answer_request
answer_request-Ends m more fs s conn ender ready over h =
    let (routed, e) =
      route_total fs s conn.context.request (with_status conn.context.resp_status) in
    let resp = if leb 400 routed.status then error_handler fs s routed else routed in
    rw e (
      answered-Ends m more conn (is_short_connection (completed conn.context.request resp)) _ ender
        ready over h (make_response-Sends conn conn.context.request resp))

emptied-read_able :
    {b : Buffer} → IsValid b → (read_able_size (advanced b (read_able_size b)) == 0) ≡ true
emptied-read_able {b} v =
    let z : read_able_size (advanced b (read_able_size b)) ≡ 0 = omega arith in (==_iff _ 0).1 z

rejected-Ends :
    (more : Connection → Result Connection) (conn : Connection) (r : Result Connection)
    → IsReady conn
    → Sends conn r
    → Ends (size_of conn) (
        r >>= λ conn'.
        (move_read_offset conn'.buffer (read_able_size conn'.buffer) >>= λ buffer.
        shutdown more (record (finished conn') { buffer = buffer })))
unfolding Sends shutdown
rejected-Ends more conn (ok conn') ready (same_context, same_buffer) =
    let b = conn'.buffer in
    let v : IsValid b = rw same_buffer ready.buffer_valid in
    let n = read_able_size b in
    let h : n ≤ length (contents b) = omega (arith, length-contents v) in
    let w = advanced-IsValid n v h in
    let empty_now : length (contents (advanced b n)) ≡ 0 = omega (arith, length-contents w) in
    let (line, code) = reset-new_context conn'.context in
    rw (move_read_offset_ok n v h, emptied-read_able v)
      (
        record { buffer_valid = w; status_agreed = rw (line, code) refl },
        omega (arith, ap weight line, weight-ge conn.context.recv_status),
      )
rejected-Ends more conn (fault e) ready k = k

answer_error-Ends :
    (more : Connection → Result Connection) (fs : Files) (s : HttpServer) (conn : Connection)
    → IsReady conn
    → Ends (size_of conn) (answer_error more fs s conn)
unfolding answer_error
answer_error-Ends more fs s conn ready = rejected-Ends more conn _ ready (
    make_response-Sends conn conn.context.request
      (error_handler fs s (with_status conn.context.resp_status)))

received-Ends :
    (m : ℕ) (more : Connection → Result Connection) (fs : Files) (s : HttpServer)
    (conn : Connection)
    → Ender m more
    → IsReady conn
    → size_of conn ≤ m
    → Ends (size_of conn) (received more fs s conn)
unfolding received
received-Ends m more fs s conn ender ready h =
    elim (Bool-cases (leb 400 conn.context.resp_status)) [
      | inl t ↦ rw t (answer_error-Ends more fs s conn ready)
      | inr f ↦ elim (HttpRecvStatus-discrete conn.context.recv_status recv_over) [
        | yes e ↦
            let same : received more fs s conn ≡ answer_request more fs s conn =
              simp (f, e, received) in
            rw same (answer_request-Ends m more fs s conn ender ready e h)
        | no ne ↦
            let same : received more fs s conn ≡ ok conn = ground arith in
            rw same (ready, omega arith)
      ]
    ]

-- A round, from what RecvHttpRequest returns.
round-Ends :
    (m : ℕ) (more : Connection → Result Connection) (fs : Files) (s : HttpServer)
    (conn : Connection) (r : Result (HttpContext × Buffer))
    → Ender m more
    → size_of conn ≤ m
    → Received conn.context conn.buffer r
    → Within (size_of conn) r
    → Ends
        (size_of conn)
        (r >>= λ p. received more fs s (record conn { context = p.0; buffer = p.1 }))
round-Ends m more fs s conn r ender h (inl (c', b', e, p)) k =
    let conn' = record conn { context = c'; buffer = b' } in
    let less : size_of conn' ≤ size_of conn = rw e at k in
    let ready : IsReady conn' = record { buffer_valid = p.valid; status_agreed = p.agreed } in
    rw e (
      Ends-le (size_of conn') (size_of conn) (received more fs s conn') less
        (received-Ends m more fs s conn' ender ready (omega arith)))
round-Ends m more fs s conn r ender h (inr e) k = rw e (inl refl)

on_message-Ender : (fs : Files) (s : HttpServer) (fuel : ℕ) → Ender fuel (on_message fs s fuel)
unfolding on_message Ender
on_message-Ender fs s zero conn r h = absurd (omega arith)
on_message-Ender fs s (suc fuel) conn r h = elim (Bool-cases (read_able_size conn.buffer == 0)) [
  | inl t ↦ rw t (r, omega arith)
  | inr f ↦ rw f (
      round-Ends fuel (on_message fs s fuel) fs s conn (recv_http_request conn.context conn.buffer)
        (on_message-Ender fs s fuel) (omega arith)
        (recv_http_request_lem conn.context r.buffer_valid r.status_agreed)
        (recv_http_request-Within conn.context r.buffer_valid r.status_agreed))
]

-- With three rounds more than there are readable bytes, OnMessage returns, whatever the handlers and
-- the files do, or the process ends by the exception of std::stol or by a response that is too long
-- for a buffer. What it returns is a connection that is ready for the next bytes, with no more
-- readable bytes than before.
pub on_message_lem :
    (fs : Files) (s : HttpServer) (conn : Connection)
    → IsReady conn
    → Ends (size_of conn) (on_message fs s (length (contents conn.buffer) + 3) conn)
unfolding Ender
on_message_lem fs s conn r =
    on_message-Ender fs s (length (contents conn.buffer) + 3) conn r
      (omega (arith, weight-le conn.context.recv_status))
