-- ===== src/Http/Server/Message/Tests.antt =====
-- A connection with two requests in its buffer: one to a route, and one to none.
use flux_a_high_performance.Prelude.{
  ℕ, ◌+◌, refl, List, [], ◌∷◌, ◌++◌, length, codes, List, Result, arith,
}
use flux_a_high_performance.Buffer.Inv.{contents}
use flux_a_high_performance.Http.Context.{new_context}
use flux_a_high_performance.Http.Server.Samples.{hello_server, no_files}
use flux_a_high_performance.Http.Server.Message.{Connection, on_message}
use flux_a_high_performance.Http.Server.Message.Steps.{IsReady, Ends, size_of}
use flux_a_high_performance.Http.Server.Message.Total.{on_message_lem}

abbrev crlf : List ℕ
crlf = b'\r' ∷ b'\n' ∷ []

abbrev input : List ℕ
input =
    codes "GET /hello HTTP/1.1"
    ++ crlf
    ++ codes "Connection: keep-alive"
    ++ crlf
    ++ crlf
    ++ codes "GET /bye HTTP/1.1"
    ++ crlf
    ++ crlf

abbrev conn : Connection
conn = record {
  context = new_context;
  buffer = record {
    items = input;
    capacity = length input;
    reader_idx = 0;
    writer_idx = length input;
  };
  events = [];
}

conn-IsReady : IsReady conn
conn-IsReady = record { buffer_valid = omega arith; status_agreed = refl }

on_message_lem_example :
    Ends (size_of conn) (on_message no_files hello_server (length (contents conn.buffer) + 3) conn)
on_message_lem_example = on_message_lem no_files hello_server conn conn-IsReady

abbrev demo : Result Connection
demo = on_message no_files hello_server 9 conn
