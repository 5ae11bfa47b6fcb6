-- ===== src/Http/Server/Session/Refines.antt =====
-- OnMessage on a connection of the library does to it what the requests and responses say.
use flux_a_high_performance.Prelude.{
  ℕ, zero, suc, ◌+◌, ◌≡◌, inl, inr, refl, sym, ap, ◌∙◌, false, [], ◌==◌, if◌then◌else◌, Bool-cases,
  length, append-nil, Option, some, Result, ok, ◌>>=◌, arith,
}
use flux_a_high_performance.Buffer.{Buffer, read_able_size}
use flux_a_high_performance.Buffer.Inv.{IsValid, contents}
use flux_a_high_performance.Connection.{is_disconnected}
use flux_a_high_performance.Http.Context.{HttpContext, recv_http_request}
use flux_a_high_performance.Http.Server.{Files, HttpServer}
use flux_a_high_performance.Http.Server.Message
use flux_a_high_performance.Http.Server.Message.{
  shut_down, make_response, finished, shutdown, answer_error, answer_request, received, on_message,
}
use flux_a_high_performance.Http.Server.Message.Steps.{IsReady, Ends, size_of}
use flux_a_high_performance.Http.Server.Message.Total.{on_message_lem}
use flux_a_high_performance.Http.Server.Message.Grows.{texts, on_message-Grows}
use flux_a_high_performance.Http.Server.Session.{
  HttpConnection, on_message_callback, received_on, context_of, on_message_on,
}
use flux_a_high_performance.Http.Server.Session.Follows.{closing, Tracks, Follows}
use flux_a_high_performance.Http.Server.Session.Answers.{parsed-Follows}

-- A round on a connection, of which the context and the input are known.
abbrev round_on :
    Files → HttpServer → ℕ → HttpConnection → Option HttpContext → Buffer → Result HttpConnection
round_on fs s fuel c context b =
    if read_able_size b == 0
    then ok c
    else context_of context >>= λ context'.
        (recv_http_request context' b >>= λ r.
        received_on (on_message_on fs s fuel) fs s r.0
          (record c { context = some r.0; in_buffer = r.1 }))

on_message-Follows :
    (c0 : HttpConnection) (fs : Files) (s : HttpServer) (fuel : ℕ) (m : Message.Connection)
    (c : HttpConnection)
    → is_disconnected c0.statu ≡ false
    → Tracks c0 m c
    → Follows c0 (on_message fs s fuel m) (on_message_on fs s fuel c)
unfolding on_message on_message_on context_of
on_message-Follows c0 fs s zero m c h t = inl refl
on_message-Follows c0 fs s (suc fuel) m c h t =
    let r = recv_http_request m.context m.buffer in
    let known : on_message_on fs s (suc fuel) c ≡ round_on fs s fuel c (some m.context) m.buffer =
      ap (λ x. round_on fs s fuel c x c.in_buffer) t.context_same
      ∙ ap (round_on fs s fuel c (some m.context)) t.input_same in
    elim (Bool-cases (read_able_size m.buffer == 0)) [
      | inl z ↦ rw (known, z) (inl (c, refl, t))
      | inr n ↦
          rw (known, n)
            (parsed-Follows c0 h (on_message fs s fuel) (on_message_on fs s fuel)
              (on_message-Grows fs s fuel) (λ m' c' t'. on_message-Follows c0 fs s fuel m' c' h t')
              fs s m c r t)
    ]

-- The session of a connection before OnMessage.
abbrev pub at_first : HttpContext → HttpConnection → Message.Connection
at_first context c = record { context = context; buffer = c.in_buffer; events = [] }

first-Tracks :
    (c : HttpConnection) (context : HttpContext)
    → c.context ≡ some context
    → c.message_callback ≡ some on_message_callback
    → IsValid c.out_buffer
    → Tracks c (at_first context c) c
unfolding texts closing
first-Tracks c context e f v = record {
  context_same = e;
  input_same = refl;
  callback_set = f;
  statu_kept = refl;
  socket_kept = refl;
  output_valid = v;
  appended = sym (append-nil (contents c.out_buffer));
  recorded = sym (append-nil c.accepted);
  early = omega arith;
  waiting = inl refl;
}

-- OnMessage on a connection that is not disconnected, has an HttpContext and valid buffers, and calls
-- OnMessage as its message callback, ends within three rounds more than there are readable bytes, as
-- the requests and responses say: either its output, and what it has accepted, has grown by the
-- responses in their order, it waits to write if there are any, it has the context and the input that
-- are left, it is half closed exactly if one of them asked for Shutdown (or it was before), and its
-- descriptor is as it was; or the responses do not fit behind the written bytes of the largest output
-- buffer and are copied beyond the end of its array; or the process ends by the exception of std::stol
-- or by a response that is too long for a buffer.
pub on_message_on_lem :
    (fs : Files) (s : HttpServer) (c : HttpConnection) (context : HttpContext)
    → c.context ≡ some context
    → c.message_callback ≡ some on_message_callback
    → is_disconnected c.statu ≡ false
    → IsValid c.out_buffer
    → IsReady (at_first context c)
    → Ends
        (size_of (at_first context c))
        (on_message fs s (length (contents c.in_buffer) + 3) (at_first context c))
      × Follows c
          (on_message fs s (length (contents c.in_buffer) + 3) (at_first context c))
          (on_message_on fs s (length (contents c.in_buffer) + 3) c)
on_message_on_lem fs s c context e f h v ready = (
  on_message_lem fs s (at_first context c) ready,
  on_message-Follows c fs s (length (contents c.in_buffer) + 3) (at_first context c) c h
      (first-Tracks c context e f v),
)
