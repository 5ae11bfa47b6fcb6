-- ===== src/Http/Server/Session.antt =====
-- HttpServer of source/Http/http.hpp on a class Connection of source/Reactor/Connection.hpp: OnMessage
-- and its helpers call Send and Shutdown of the connection, whose Shutdown calls OnMessage again.
pub mod Follows
pub mod Shutdown
pub mod Answers
pub mod Refines
pub mod Costs
pub mod Rounds
pub mod Safe
mod Tests
use flux_a_high_performance.Prelude.{
  ℕ, zero, suc, ◌^◌, List, [], ◌∷◌, ◌++◌, Option, some, none, leb, ◌==◌, if◌then◌else◌, length,
  Result, ok, fault, null_pointer, uncaught, stuck, ◌>>=◌,
}
use flux_a_high_performance.Buffer.{read_able_size, move_read_offset}
use flux_a_high_performance.Connection.{Connection}
use flux_a_high_performance.Connection.Basics.{send_data}
use flux_a_high_performance.Connection.Handlers.{shutdown_in_loop}
use flux_a_high_performance.Http.Request.{HttpRequest}
use flux_a_high_performance.Http.Response.{
  HttpResponse, with_status, is_short_connection, response_text, completed,
}
use flux_a_high_performance.Http.Context.{
  HttpContext, HttpRecvStatus, recv_over, recv_http_request, new_context, reset,
}
use flux_a_high_performance.Http.Server.{Files, HttpServer, route, error_handler}

-- The connections of the server: the context of each is an HttpContext.
abbrev pub HttpConnection : Type 0
HttpConnection = Connection HttpContext

-- The callbacks that the constructor gives to the TCP server.
abbrev pub on_connected_callback : ℕ
on_connected_callback = 0

abbrev pub on_message_callback : ℕ
on_message_callback = 1

unfoldable pub set_http_context : HttpConnection → HttpConnection
set_http_context c = record c { context = some new_context }

abbrev logged : ℕ → HttpConnection → HttpConnection
logged f c = record c { called = c.called ++ f ∷ [] }

-- What a call of a callback does.
unfoldable pub http_callback :
    (HttpConnection → Result HttpConnection) → ℕ → HttpConnection → Result HttpConnection
unfolding set_http_context
http_callback on_message zero c = ok (set_http_context (logged zero c))
http_callback on_message (suc f) c = on_message (logged (suc f) c)

-- A std::string of 2 ^ 63 bytes cannot be made.
pub make_response_on : HttpConnection → HttpRequest → HttpResponse → Result HttpConnection
make_response_on c req resp =
    if leb (2 ^ 63) (length (response_text req resp))
    then fault uncaught
    else send_data c (response_text req resp)

-- conn->Shutdown() in the thread of the loop.
pub shutdown_on : (HttpConnection → Result HttpConnection) → HttpConnection → Result HttpConnection
unfolding http_callback
shutdown_on on_message c = shutdown_in_loop (http_callback on_message) c

-- The context is changed in place.
abbrev pub reset_on : HttpContext → HttpConnection → HttpConnection
reset_on context c = record c { context = some (reset context) }

pub answer_error_on :
    (HttpConnection → Result HttpConnection)
    → Files
    → HttpServer
    → HttpContext
    → HttpConnection
    → Result HttpConnection
unfolding make_response_on shutdown_on
answer_error_on on_message fs s context c = do
  let resp = error_handler fs s (with_status context.resp_status)
  c' ← make_response_on c context.request resp
  in_buffer ← move_read_offset c'.in_buffer (read_able_size c'.in_buffer)
  shutdown_on on_message (record (reset_on context c') { in_buffer = in_buffer })

pub answer_request_on :
    (HttpConnection → Result HttpConnection)
    → Files
    → HttpServer
    → HttpContext
    → HttpConnection
    → Result HttpConnection
unfolding make_response_on shutdown_on
answer_request_on on_message fs s context c = do
  routed ← route fs s context.request (with_status context.resp_status)
  let resp = if leb 400 routed.status then error_handler fs s routed else routed
  c' ← make_response_on c context.request resp
  c'' ←
      (if is_short_connection (completed context.request resp)
        then shutdown_on on_message (reset_on context c')
        else ok (reset_on context c'))
  on_message c''

-- A round of the loop after RecvHttpRequest.
pub received_on :
    (HttpConnection → Result HttpConnection)
    → Files
    → HttpServer
    → HttpContext
    → HttpConnection
    → Result HttpConnection
unfolding answer_error_on answer_request_on
received_on on_message fs s context c =
    if leb 400 context.resp_status
    then answer_error_on on_message fs s context c
    else elim context.recv_status [
      | recv_over ↦ answer_request_on on_message fs s context c
      | _ ↦ ok c
    ]

-- GetContext()->get<HttpContext>(); a null pointer would be followed.
pub context_of : Option HttpContext → Result HttpContext
context_of none = fault null_pointer
context_of (some context) = ok context

-- The loop of OnMessage, with fuel.
pub on_message_on : Files → HttpServer → ℕ → HttpConnection → Result HttpConnection
unfolding received_on context_of
on_message_on fs s zero c = fault stuck
on_message_on fs s (suc fuel) c =
    let more = on_message_on fs s fuel in
    if read_able_size c.in_buffer == 0
    then ok c
    else context_of c.context >>= λ context.
        (recv_http_request context c.in_buffer >>= λ r.
        received_on more fs s r.0 (record c { context = some r.0; in_buffer = r.1 }))
