-- ===== src/Http/Server/Message.antt =====
-- HttpServer::OnMessage of source/Http/http.hpp: the requests in the input buffer of a connection are
-- answered one after the other. Of the connection the model has the context, the input buffer and
-- what it is asked to do; Shutdown calls OnMessage again while there is input.
pub mod Steps
pub mod Total
pub mod Grows
mod Tests
use flux_a_high_performance.Prelude.{
  ℕ, zero, suc, ◌-◌, ◌^◌, Bool, true, false, List, [], ◌∷◌, ◌++◌, leb, ltb, ◌==◌, if◌then◌else◌,
  length, Result, ok, fault, stuck, uncaught, ◌>>=◌,
}
use flux_a_high_performance.Buffer.{Buffer, read_able_size, move_read_offset, write_and_push, empty}
use flux_a_high_performance.Http.Request.{HttpRequest}
use flux_a_high_performance.Http.Response.{
  HttpResponse, with_status, is_short_connection, response_text, completed,
}
use flux_a_high_performance.Http.Context.{
  HttpContext, HttpRecvStatus, recv_over, recv_http_request, new_context, reset,
}
use flux_a_high_performance.Http.Server.{Files, HttpServer, route, error_handler}

-- conn->Send and conn->Shutdown.
pub data Event : Type 0 where
  sent : List ℕ → Event
  shut_down : Event

pub record Connection : Type 0 where
  pub context : HttpContext
  pub buffer : Buffer
  pub events : List Event

pub on_connected : Buffer → Connection
on_connected buffer = record { context = new_context; buffer = buffer; events = [] }

-- Send copies the bytes into a buffer of its own. A std::string of 2 ^ 63 bytes cannot be made: its
-- constructor throws, and nothing catches it.
unfoldable pub send : Connection → List ℕ → Result Connection
send conn bytes =
    if leb (2 ^ 63) (length bytes)
    then fault uncaught
    else write_and_push empty bytes >>= λ buf.
        ok (record conn { events = conn.events ++ sent bytes ∷ [] })

unfoldable pub make_response : Connection → HttpRequest → HttpResponse → Result Connection
unfolding send
make_response conn req resp = send conn (response_text req resp)

unfoldable pub shutdown : (Connection → Result Connection) → Connection → Result Connection
shutdown on_message conn =
    let conn' = record conn { events = conn.events ++ shut_down ∷ [] } in
    if read_able_size conn.buffer == 0 then ok conn' else on_message conn'

-- context->Reset() after a response.
abbrev pub finished : Connection → Connection
finished conn = record conn { context = reset conn.context }

-- A request that could not be received.
unfoldable pub answer_error :
    (Connection → Result Connection) → Files → HttpServer → Connection → Result Connection
unfolding make_response shutdown
answer_error on_message fs s conn = do
  let resp = error_handler fs s (with_status conn.context.resp_status)
  conn' ← make_response conn conn.context.request resp
  buffer ← move_read_offset conn'.buffer (read_able_size conn'.buffer)
  shutdown on_message (record (finished conn') { buffer = buffer })

-- A request that has been received, and the rest of the loop.
unfoldable pub answer_request :
    (Connection → Result Connection) → Files → HttpServer → Connection → Result Connection
unfolding make_response shutdown
answer_request on_message fs s conn = do
  routed ← route fs s conn.context.request (with_status conn.context.resp_status)
  let resp = if leb 400 routed.status then error_handler fs s routed else routed
  conn' ← make_response conn conn.context.request resp
  conn'' ←
      (if is_short_connection (completed conn.context.request resp)
        then shutdown on_message (finished conn')
        else ok (finished conn'))
  on_message conn''

-- A round of the loop after RecvHttpRequest.
unfoldable pub received :
    (Connection → Result Connection) → Files → HttpServer → Connection → Result Connection
unfolding answer_error answer_request
received on_message fs s conn =
    if leb 400 conn.context.resp_status
    then answer_error on_message fs s conn
    else elim conn.context.recv_status [
      | recv_over ↦ answer_request on_message fs s conn
      | _ ↦ ok conn
    ]

-- The loop, with fuel.
unfoldable pub on_message : Files → HttpServer → ℕ → Connection → Result Connection
unfolding received
on_message fs s zero conn = fault stuck
on_message fs s (suc fuel) conn =
    let more = on_message fs s fuel in
    if read_able_size conn.buffer == 0
    then ok conn
    else recv_http_request conn.context conn.buffer >>= λ r.
        received more fs s (record conn { context = r.0; buffer = r.1 })
