-- ===== src/Connection/Methods.antt =====
-- The handlers and the methods of the loop keep the invariant, if the callbacks do.
use flux_a_high_performance.Prelude.{
  ℕ, ◌<◌, inl, inr, not, ◌&&◌, List, ltb, ◌==◌, if◌then◌else◌, length, length-take, take, word,
  Option, some, none, Result, ok, ◌>>=◌, arith, Bool-cases,
}
use flux_a_high_performance.Buffer.{read_able_size, write_and_push}
use flux_a_high_performance.Buffer.Write.{write_and_push_lem}
use flux_a_high_performance.Buffer.Inv.{contents}
use flux_a_high_performance.Buffer.Read.{move_read_offset_ok}
use flux_a_high_performance.Channel.{write_able, enable_write, disable_write}
use flux_a_high_performance.Socket.{ℤ, pos, negsuc, Errno, eagain, ewouldblock, eintr, other_error}
use flux_a_high_performance.Connection.{disconnecting, is_connecting, is_disconnecting, Connection}
use flux_a_high_performance.Connection.Basics.{update, disconnect}
use flux_a_high_performance.Connection.Handlers.{
  call_if_set, call_message, message_if_input, release_in_loop, finish_output, shutdown_in_loop,
  on_received, handle_close, on_output, on_sent, handle_any_event, established_in_loop,
}
use flux_a_high_performance.Connection.Inv.{
  Policy, AnyInput, flow, WellFormed, Keeps, then-Keeps, update-Alive, enable_write-WellFormed,
  if-WellFormed, if-Keeps, disconnect-WellFormed,
}
use flux_a_high_performance.Connection.Steps.{
  AtMost, nothing-readable, sent_part, sent_part-WellFormed, establish-WellFormed,
}

module _ {X : Type 0} (P : Policy X) (invoke : ℕ → Connection X → Result (Connection X))
    (invoke-Keeps : (f : ℕ) (c : Connection X) → WellFormed P c → Keeps P (invoke f c)) where
  call_if_set-Keeps :
      (f : Option ℕ) (c : Connection X) → WellFormed P c → Keeps P (call_if_set invoke f c)
  unfolding call_if_set
  call_if_set-Keeps none c w = w
  call_if_set-Keeps (some f) c w = invoke-Keeps f c w

  call_message-Keeps :
      (f : Option ℕ) (c : Connection X) → WellFormed P c → Keeps P (call_message invoke f c)
  unfolding call_message
  call_message-Keeps none c w = P.throws
  call_message-Keeps (some f) c w = invoke-Keeps f c w

  message_if_input-Keeps : (c : Connection X) → WellFormed P c → Keeps P (message_if_input invoke c)
  unfolding message_if_input
  message_if_input-Keeps c w =
      if-Keeps P (ltb 0 (read_able_size c.in_buffer)) (call_message invoke c.message_callback c)
        (ok c) (call_message-Keeps c.message_callback c w) w

  pub release_in_loop-Keeps :
      (c : Connection X) → WellFormed P c → Keeps P (release_in_loop invoke c)
  unfolding release_in_loop
  release_in_loop-Keeps c w =
      then-Keeps P (λ d. call_if_set invoke d.server_closed_callback d) _
        (call_if_set-Keeps _ (disconnect c) (disconnect-WellFormed P c w))
        (λ d v. call_if_set-Keeps _ d v)

  finish_output-Keeps : (c : Connection X) → WellFormed P c → Keeps P (finish_output invoke c)
  unfolding finish_output
  finish_output-Keeps c w =
      let writing = update c (enable_write c.channel) in
      let more = ltb 0 (read_able_size c.out_buffer) && not (write_able c.channel) in
      let d = if more then writing else c in
      let v : WellFormed P d =
        if-WellFormed P more writing c
          (enable_write-WellFormed P c c.out_buffer c.accepted w.0.input_valid w.0.output_valid
            w.0.accounted w.1 w.2)
          w in
      if-Keeps P (read_able_size d.out_buffer == 0) (release_in_loop invoke d) (ok d)
        (release_in_loop-Keeps d v) v

  pub shutdown_in_loop-Keeps :
      (c : Connection X) → WellFormed P c → Keeps P (shutdown_in_loop invoke c)
  unfolding shutdown_in_loop
  shutdown_in_loop-Keeps c w =
      then-Keeps P (finish_output invoke) _
        (message_if_input-Keeps (record c { statu = disconnecting }) (w.0, tt, w.2))
        finish_output-Keeps

  pub on_received-Keeps :
      (c : Connection X) (n : ℤ) (buffer : List ℕ)
      → length buffer < word
      → AnyInput P
      → WellFormed P c
      → Keeps P (on_received invoke c n buffer)
  unfolding on_received
  on_received-Keeps c (negsuc n) buffer h free w = shutdown_in_loop-Keeps c w
  on_received-Keeps c (pos n) buffer h free w =
      if-Keeps P (n == 0) (ok c)
        (write_and_push c.in_buffer (take n buffer) >>= λ input.
          message_if_input invoke (record c { in_buffer = input }))
        w
        (elim (write_and_push_lem (take n buffer) w.0.input_valid
          (omega (arith, length-take n buffer))) [
            | inr (f, e) ↦ rw e P.overflows
            | inl (f, (input, e, v, same)) ↦ rw e (
                message_if_input-Keeps (record c { in_buffer = input })
                  (
                    flow v w.0.output_valid w.0.accounted w.0.waiting,
                    w.1,
                    (w.2.0, free c.context c.in_buffer input v w.2.1),
                  ))
          ])

  pub handle_close-Keeps : (c : Connection X) → WellFormed P c → Keeps P (handle_close invoke c)
  unfolding handle_close
  handle_close-Keeps c w =
      then-Keeps P (release_in_loop invoke) _ (message_if_input-Keeps c w) release_in_loop-Keeps

  on_output-Keeps : (c : Connection X) → WellFormed P c → Keeps P (on_output invoke c)
  unfolding on_output update
  on_output-Keeps c w = elim (Bool-cases (read_able_size c.out_buffer == 0)) [
    | inr e ↦ rw e w
    | inl e ↦
        let c' = update c (disable_write c.channel) in
        let v : WellFormed P c' = (
          flow w.0.input_valid w.0.output_valid w.0.accounted
              (inl (nothing-readable w.0.output_valid e)),
          update-Alive c.statu c.socket.sockfd c.registered c.refused _ w.1,
          w.2,
        ) in
        rw e (if-Keeps P (is_disconnecting c'.statu) _ _ (release_in_loop-Keeps c' v) v)
  ]

  pub on_sent-Keeps :
      (c : Connection X) (n : ℤ) (errno : Errno)
      → AtMost (length (contents c.out_buffer)) n
      → WellFormed P c
      → Keeps P (on_sent invoke c n errno)
  unfolding on_sent
  on_sent-Keeps c (negsuc n) eagain h w = w
  on_sent-Keeps c (negsuc n) ewouldblock h w = w
  on_sent-Keeps c (negsuc n) eintr h w =
      then-Keeps P (release_in_loop invoke) _ (message_if_input-Keeps c w) release_in_loop-Keeps
  on_sent-Keeps c (negsuc n) other_error h w =
      then-Keeps P (release_in_loop invoke) _ (message_if_input-Keeps c w) release_in_loop-Keeps
  on_sent-Keeps c (pos n) errno h w =
      rw (move_read_offset_ok n w.0.output_valid h)
        (on_output-Keeps (sent_part c n) (sent_part-WellFormed P c n w h))

  pub handle_any_event-Keeps :
      (c : Connection X) → WellFormed P c → Keeps P (handle_any_event invoke c)
  unfolding handle_any_event
  handle_any_event-Keeps c w =
      call_if_set-Keeps _ _ (if-WellFormed P c.enable_inactive_release _ c w w)

  pub established_in_loop-Keeps :
      (c : Connection X) → WellFormed P c → Keeps P (established_in_loop invoke c)
  unfolding established_in_loop update
  established_in_loop-Keeps c w = elim (Bool-cases (is_connecting c.statu)) [
    | inr e ↦ rw e w
    | inl e ↦ rw e (call_if_set-Keeps _ _ (establish-WellFormed P c e w))
  ]
