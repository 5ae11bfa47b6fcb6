-- ===== src/Http/Server/Session/Tests.antt =====
-- A connection that is asked for a page and then for one that does not exist.
use flux_a_high_performance.Prelude.{
  ℕ, Bool, ◌+◌, true, refl, List, [], ◌∷◌, ◌++◌, some, length, codes, some, List, arith,
}
use flux_a_high_performance.Buffer.{Buffer}
use flux_a_high_performance.Buffer.Inv.{contents}
use flux_a_high_performance.Buffer.Stream.{empty-IsValid}
use flux_a_high_performance.Channel.{epollin, epollout}
use flux_a_high_performance.Socket.{got}
use flux_a_high_performance.Connection.{connected, new_connection, Event, ready}
use flux_a_high_performance.Connection.Shutdown.{took}
use flux_a_high_performance.TcpServer.{
  TcpServer, listening, set_connected_callback, set_message_callback,
}
use flux_a_high_performance.TimerWheel.{fresh_wheel}
use flux_a_high_performance.Http.Context.{HttpContext, new_context}
use flux_a_high_performance.Http.Server.Samples.{hello_server, no_files}
use flux_a_high_performance.Http.Server.Message.{on_message}
use flux_a_high_performance.Http.Server.Message.Steps.{Ends, size_of}
use flux_a_high_performance.Http.Server.Session.{
  HttpConnection, on_connected_callback, on_message_callback, on_message_on,
}
use flux_a_high_performance.Http.Server.Session.Follows.{Follows}
use flux_a_high_performance.Http.Server.Session.Safe.{max_rounds}
use flux_a_high_performance.Http.Server.Session.Refines.{at_first, on_message_on_lem}

abbrev crlf : List ℕ
crlf = b'\r' ∷ b'\n' ∷ []

abbrev asked_for : List ℕ
asked_for = codes "GET /hello HTTP/1.1" ++ crlf ++ crlf

abbrev filled : Buffer
filled = record {
  items = asked_for;
  capacity = length asked_for;
  reader_idx = 0;
  writer_idx = length asked_for;
}

abbrev accepting : ℕ → Bool
accepting n = true

abbrev conn : HttpConnection
conn = record (new_connection accepting fresh_wheel 7 9) {
  statu = connected;
  registered = true;
  context = some new_context;
  in_buffer = filled;
  message_callback = some on_message_callback;
}

on_message_on_lem_example :
    Ends (size_of (at_first new_context conn)) (
      on_message no_files hello_server
        (length (contents conn.in_buffer) + 3)
        (at_first new_context conn))
    × Follows conn
        (on_message no_files hello_server
          (length (contents conn.in_buffer) + 3)
          (at_first new_context conn))
        (on_message_on no_files hello_server (length (contents conn.in_buffer) + 3) conn)
unfolding new_connection
on_message_on_lem_example =
    on_message_on_lem no_files hello_server conn new_context refl refl refl (empty-IsValid.0)
      (record { buffer_valid = omega arith; status_agreed = refl })

-- Once it is established, the request comes, and the answer is sent in part.
abbrev history : List (Event HttpContext)
history = ready epollin (got asked_for) (took 0) ∷ ready epollout (got []) (took 9) ∷ []

abbrev tcp : TcpServer
tcp =
    set_message_callback (set_connected_callback listening on_connected_callback)
      on_message_callback

abbrev fuel : ℕ
fuel = max_rounds + 1
