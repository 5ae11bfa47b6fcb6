-- ===== src/Http/Server/Message/Grows.antt =====
-- OnMessage takes back none of the bytes that it has sent.
use flux_a_high_performance.Prelude.{
  ℕ, zero, suc, ◌+◌, ◌^◌, ◌≤◌, ◌≡◌, refl, ap, Bool, true, false, List, [], ◌∷◌, ◌++◌, append_assoc,
  append-nil, leb, ◌==◌, if◌then◌else◌, length, length-append, Result, ok, fault, ◌>>=◌, arith,
}
use flux_a_high_performance.Buffer.{read_able_size, move_read_offset, write_and_push, empty}
use flux_a_high_performance.Http.Request.{HttpRequest}
use flux_a_high_performance.Http.Response.{
  HttpResponse, with_status, is_short_connection, completed, response_text,
}
use flux_a_high_performance.Http.Response.Complete.{response_text-ne_nil}
use flux_a_high_performance.Http.Context.{recv_over, recv_http_request}
use flux_a_high_performance.Http.Context.Head.{HttpRecvStatus-discrete}
use flux_a_high_performance.Http.Server.{Files, HttpServer, route, error_handler}
use flux_a_high_performance.Http.Server.Message.{
  Event, sent, shut_down, Connection, send, make_response, finished, shutdown, answer_error,
  answer_request, received, on_message,
}

-- The bytes sent, one response after the other.
unfoldable pub texts : List Event → List ℕ
texts [] = []
texts (sent bytes ∷ events) = bytes ++ texts events
texts (shut_down ∷ events) = texts events

pub texts-append : (es fs : List Event) → texts (es ++ fs) ≡ texts es ++ texts fs
unfolding texts
texts-append [] fs = refl
texts-append (sent bytes ∷ es) fs = rw (texts-append es fs, append_assoc)
texts-append (shut_down ∷ es) fs = texts-append es fs

pub texts-sent :
    (es : List Event) (bytes : List ℕ) → texts (es ++ sent bytes ∷ []) ≡ texts es ++ bytes
unfolding texts
texts-sent es bytes = rw (texts-append es (sent bytes ∷ []), append-nil)

pub texts-shut_down : (es : List Event) → texts (es ++ shut_down ∷ []) ≡ texts es
unfolding texts
texts-shut_down es = rw (texts-append es (shut_down ∷ []), append-nil)

-- How many bytes a connection has been given to send.
abbrev pub amount : Connection → ℕ
amount conn = length (texts conn.events)

abbrev pub Grows : ℕ → Result Connection → Type 0
Grows n (ok conn) = n ≤ amount conn
Grows n (fault e) = Unit

Grows-le : (m n : ℕ) (r : Result Connection) → m ≤ n → Grows n r → Grows m r
Grows-le m n (fault e) h g = tt
Grows-le m n (ok conn) h g = omega arith

pub then-Grows :
    (n : ℕ) (r : Result Connection) (f : Connection → Result Connection)
    → Grows n r
    → ((conn : Connection) → Grows (amount conn) (f conn))
    → Grows n (r >>= f)
then-Grows n (fault e) f g h = tt
then-Grows n (ok conn) f g h = Grows-le n (amount conn) (f conn) g (h conn)

-- A step that ignores how it came about.
pub any-Grows :
    {A : Type 0} (n : ℕ) (r : Result A) (f : A → Result Connection)
    → ((a : A) → Grows n (f a))
    → Grows n (r >>= f)
any-Grows n (fault e) f h = tt
any-Grows n (ok a) f h = h a

if-Grows :
    (n : ℕ) (b : Bool) (r q : Result Connection)
    → Grows n r
    → Grows n q
    → Grows n (if b then r else q)
if-Grows n true r q g h = g
if-Grows n false r q g h = h

send-Grows :
    (conn : Connection) (bytes : List ℕ) → Grows (amount conn + length bytes) (send conn bytes)
unfolding send
send-Grows conn bytes = if-Grows (amount conn + length bytes) (leb (2 ^ 63) (length bytes)) _ _ tt (
    any-Grows (amount conn + length bytes) (write_and_push empty bytes) _ (λ buf.
      omega
        (arith, ap length (texts-sent conn.events bytes), length-append (texts conn.events) bytes)))

-- A response has at least one byte.
pub make_response-speaks :
    (conn : Connection) (req : HttpRequest) (resp : HttpResponse)
    → Grows (amount conn + 1) (make_response conn req resp)
unfolding make_response
make_response-speaks conn req resp =
    Grows-le (amount conn + 1) (amount conn + length (response_text req resp)) _
      (omega (arith, response_text-ne_nil req resp)) (send-Grows conn (response_text req resp))

pub make_response-Grows :
    (conn : Connection) (req : HttpRequest) (resp : HttpResponse)
    → Grows (amount conn) (make_response conn req resp)
make_response-Grows conn req resp =
    Grows-le (amount conn) (amount conn + 1) _ (omega arith) (make_response-speaks conn req resp)

-- The rest of the loop.
module _ (more : Connection → Result Connection)
    (more-Grows : (conn : Connection) → Grows (amount conn) (more conn)) where
  pub shutdown-Grows : (conn : Connection) → Grows (amount conn) (shutdown more conn)
  unfolding shutdown
  shutdown-Grows conn =
      let conn' : Connection = record conn { events = conn.events ++ shut_down ∷ [] } in
      let same = ap length (texts-shut_down conn.events) in
      if-Grows (amount conn) (read_able_size conn.buffer == 0) (ok conn') (more conn') (omega arith)
        (Grows-le (amount conn) (amount conn') (more conn') (omega arith) (more-Grows conn'))

  answer_error-Grows :
      (fs : Files) (s : HttpServer) (conn : Connection)
      → Grows (amount conn) (answer_error more fs s conn)
  unfolding answer_error
  answer_error-Grows fs s conn =
      then-Grows (amount conn) (make_response conn conn.context.request _) _
        (make_response-Grows conn conn.context.request _)
        (λ conn'.
          any-Grows (amount conn') (move_read_offset conn'.buffer _) _
            (λ buffer. shutdown-Grows (record (finished conn') { buffer = buffer })))

  answer_request-Grows :
      (fs : Files) (s : HttpServer) (conn : Connection)
      → Grows (amount conn) (answer_request more fs s conn)
  unfolding answer_request
  answer_request-Grows fs s conn =
      any-Grows (amount conn)
        (route fs s conn.context.request (with_status conn.context.resp_status)) _
        (λ routed.
          let resp = if leb 400 routed.status then error_handler fs s routed else routed in
          then-Grows (amount conn) (make_response conn conn.context.request resp) _
            (make_response-Grows conn conn.context.request resp)
            (λ conn'.
              let short = is_short_connection (completed conn.context.request resp) in
              then-Grows (amount conn')
                (if short then shutdown more (finished conn') else ok (finished conn')) more
                (if-Grows (amount conn') short _ _ (shutdown-Grows (finished conn')) (omega arith))
                more-Grows))

  pub received-Grows :
      (fs : Files) (s : HttpServer) (conn : Connection)
      → Grows (amount conn) (received more fs s conn)
  unfolding received
  received-Grows fs s conn =
      if-Grows (amount conn) (leb 400 conn.context.resp_status) _ _ (answer_error-Grows fs s conn)
        (elim (HttpRecvStatus-discrete conn.context.recv_status recv_over) [
          | yes e ↦ rw e (answer_request-Grows fs s conn)
          | no ne ↦ ground arith
        ])

pub on_message-Grows :
    (fs : Files) (s : HttpServer) (fuel : ℕ) (conn : Connection)
    → Grows (amount conn) (on_message fs s fuel conn)
unfolding on_message
on_message-Grows fs s zero conn = tt
on_message-Grows fs s (suc fuel) conn =
    if-Grows (amount conn) (read_able_size conn.buffer == 0) _ _ (omega arith) (
      any-Grows (amount conn) (recv_http_request conn.context conn.buffer) _ (λ r.
        received-Grows (on_message fs s fuel) (on_message-Grows fs s fuel) fs s
          (record conn { context = r.0; buffer = r.1 })))
