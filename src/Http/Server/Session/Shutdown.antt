-- ===== src/Http/Server/Session/Shutdown.antt =====
-- Shutdown of a connection that OnMessage has answered.
use flux_a_high_performance.Prelude.{
  ℕ, ◌<◌, ◌≡◌, inl, inr, refl, sym, ap, ◌∙◌, Bool, true, false, [], ◌∷◌, ◌++◌, ltb, lt→ltb, ◌==◌,
  if◌then◌else◌, Bool-cases, length, length-append, some, Result, ok, fault, ◌>>=◌, arith,
}
use flux_a_high_performance.Buffer.{Buffer, read_able_size}
use flux_a_high_performance.Buffer.Inv.{contents, length-contents, read_able_size_lem}
use flux_a_high_performance.Channel.{write_able}
use flux_a_high_performance.Connection.{disconnecting, is_disconnected}
use flux_a_high_performance.Connection.Handlers.{
  shutdown_in_loop, message_if_input, call_message, finish_output,
}
use flux_a_high_performance.Http.Context.{HttpContext, reset}
use flux_a_high_performance.Http.Server.Message
use flux_a_high_performance.Http.Server.Message.{
  shut_down, make_response, finished, shutdown, answer_error, answer_request, received, on_message,
}
use flux_a_high_performance.Http.Server.Message.Grows.{
  texts-shut_down, amount, Grows, shutdown-Grows,
}
use flux_a_high_performance.Http.Server.Session.{
  HttpConnection, http_callback, shutdown_on, reset_on, on_message_callback, logged,
}
use flux_a_high_performance.Http.Server.Session.Follows.{closing-shut_down, Tracks, Follows}

-- With output left, ShutdownInLoop leaves the connection to HandleWrite.
finish_output-waits :
    (invoke : ℕ → HttpConnection → Result HttpConnection) (c0 : HttpConnection)
    (m : Message.Connection) (c : HttpConnection)
    → Tracks c0 m c
    → 0 < amount m
    → finish_output invoke c ≡ ok c
unfolding finish_output
finish_output-waits invoke c0 m c t h =
    let w : write_able c.channel ≡ true = elim t.waiting [
      | inl z ↦ absurd (omega arith)
      | inr w ↦ w
    ] in
    let n : 0 < read_able_size c.out_buffer = omega (
      arith,
      read_able_size_lem t.output_valid,
      length-contents t.output_valid,
      ap length t.appended,
      length-append (contents c0.out_buffer) _,
    ) in
    let some_left : (read_able_size c.out_buffer == 0) ≡ false = ground arith in
    rw (w, lt→ltb _ _ n, some_left) refl

finish-Follows :
    (invoke : ℕ → HttpConnection → Result HttpConnection) (c0 : HttpConnection) (n : ℕ)
    (rm : Result Message.Connection) (r : Result HttpConnection)
    → 0 < n
    → Grows n rm
    → Follows c0 rm r
    → Follows c0 rm (r >>= finish_output invoke)
finish-Follows invoke c0 n (ok m) r h g (inl (c, e, t)) =
    inl (c, rw e (finish_output-waits invoke c0 m c t (omega arith)), t)
finish-Follows invoke c0 n (ok m) r h g (inr (e, k)) = inr (rw e refl, k)
finish-Follows invoke c0 n (fault why) r h g (inl e) = inl (rw e refl)
finish-Follows invoke c0 n (fault why) r h g (inr e) = inr (rw e refl)

-- RecvHttpRequest works on the context and the input of the connection in place.
pub parsed-Tracks :
    (c0 : HttpConnection) (m : Message.Connection) (c : HttpConnection) (context : HttpContext)
    (b : Buffer)
    → Tracks c0 m c
    → Tracks c0
        (record m { context = context; buffer = b })
        (record c { context = some context; in_buffer = b })
parsed-Tracks c0 m c context b t = record {
  context_same = refl;
  input_same = refl;
  callback_set = t.callback_set;
  statu_kept = t.statu_kept;
  socket_kept = t.socket_kept;
  output_valid = t.output_valid;
  appended = t.appended;
  recorded = t.recorded;
  early = t.early;
  waiting = t.waiting;
}

-- ShutdownInLoop up to the output.
half_closed-Tracks :
    (c0 : HttpConnection) (m : Message.Connection) (c : HttpConnection)
    → Tracks c0 m c
    → Tracks c0
        (record m { events = m.events ++ shut_down ∷ [] })
        (record c { statu = disconnecting })
half_closed-Tracks c0 m c t =
    let same = texts-shut_down m.events in
    record {
      context_same = t.context_same;
      input_same = t.input_same;
      callback_set = t.callback_set;
      statu_kept = rw (closing-shut_down m.events) refl;
      socket_kept = t.socket_kept;
      output_valid = t.output_valid;
      appended = rw same t.appended;
      recorded = rw same t.recorded;
      early = rw same t.early;
      waiting = rw same t.waiting;
    }

logged-Tracks :
    (c0 : HttpConnection) (f : ℕ) (m : Message.Connection) (c : HttpConnection)
    → Tracks c0 m c
    → Tracks c0 m (logged f c)
logged-Tracks c0 f m c t = record {
  context_same = t.context_same;
  input_same = t.input_same;
  callback_set = t.callback_set;
  statu_kept = t.statu_kept;
  socket_kept = t.socket_kept;
  output_valid = t.output_valid;
  appended = t.appended;
  recorded = t.recorded;
  early = t.early;
  waiting = t.waiting;
}

pub finished-Tracks :
    (c0 : HttpConnection) (context : HttpContext) (m : Message.Connection) (c : HttpConnection)
    (b b' : Buffer)
    → m.context ≡ context
    → b' ≡ b
    → Tracks c0 m c
    → Tracks c0
        (record (finished m) { buffer = b })
        (record (reset_on context c) { in_buffer = b' })
finished-Tracks c0 context m c b b' e input t = record {
  context_same = ap (λ x. some (reset x)) (sym e);
  input_same = input;
  callback_set = t.callback_set;
  statu_kept = t.statu_kept;
  socket_kept = t.socket_kept;
  output_valid = t.output_valid;
  appended = t.appended;
  recorded = t.recorded;
  early = t.early;
  waiting = t.waiting;
}

-- The rest of the loop, on both sides.
module _ (c0 : HttpConnection) (open_at_first : is_disconnected c0.statu ≡ false)
    (more : Message.Connection → Result Message.Connection)
    (more_on : HttpConnection → Result HttpConnection)
    (more-Grows : (m : Message.Connection) → Grows (amount m) (more m))
    (more-Follows : (m : Message.Connection) (c : HttpConnection)
      → Tracks c0 m c
      → Follows c0 (more m) (more_on c)) where
  remaining-Follows :
      (m : Message.Connection) (c : HttpConnection)
      → Tracks c0 m c
      → Follows c0
          (if read_able_size m.buffer == 0 then ok m else more m)
          (message_if_input (http_callback more_on) c)
  unfolding message_if_input call_message http_callback
  remaining-Follows m c t =
      let test = ap (λ b. ltb 0 (read_able_size b)) t.input_same in
      elim (Bool-cases (read_able_size m.buffer == 0)) [
        | inl z ↦
            let none_left : ltb 0 (read_able_size m.buffer) ≡ false = ground arith in
            rw (z, test ∙ none_left) (inl (c, refl, t))
        | inr n ↦
            let some_left : ltb 0 (read_able_size m.buffer) ≡ true = ground arith in
            let called : call_message (http_callback more_on) c.message_callback c
                ≡ more_on (logged on_message_callback c) =
              ap (λ f. call_message (http_callback more_on) f c) t.callback_set in
            rw (n, test ∙ some_left, called)
              (more-Follows m (logged on_message_callback c)
                (logged-Tracks c0 on_message_callback m c t))
      ]

  pub shutdown-Follows :
      (m : Message.Connection) (c : HttpConnection)
      → 0 < amount m
      → Tracks c0 m c
      → Follows c0 (shutdown more m) (shutdown_on more_on c)
  unfolding shutdown shutdown_on shutdown_in_loop
  shutdown-Follows m c h t =
      let m' : Message.Connection = record m { events = m.events ++ shut_down ∷ [] } in
      finish-Follows (http_callback more_on) c0 (amount m) (shutdown more m) _ h
        (shutdown-Grows more more-Grows m)
        (remaining-Follows m' (record c { statu = disconnecting }) (half_closed-Tracks c0 m c t))

  pub ended-Follows :
      (short : Bool) (m : Message.Connection) (c : HttpConnection)
      → 0 < amount m
      → Tracks c0 m c
      → Follows c0
          (if short then shutdown more m else ok m)
          (if short then shutdown_on more_on c else ok c)
  ended-Follows true m c h t = shutdown-Follows m c h t
  ended-Follows false m c h t = inl (c, refl, t)

  pub ended-Grows :
      (short : Bool) (m : Message.Connection)
      → Grows (amount m) (if short then shutdown more m else ok m)
  ended-Grows true m = shutdown-Grows more more-Grows m
  ended-Grows false m = omega arith
