-- ===== src/Connection/Handlers.antt =====
-- The methods of class Connection that run callbacks. `invoke` calls a callback that is set.
use flux_a_high_performance.Prelude.{
  ℕ, zero, suc, ◌-◌, not, ◌&&◌, List, [], ◌∷◌, ◌++◌, Option, some, none, ltb, ◌==◌, if◌then◌else◌,
  take, drop, Result, ok, fault, uncaught, stuck, ◌>>=◌,
}
use flux_a_high_performance.Buffer.{read_able_size, move_read_offset, write_and_push}
use flux_a_high_performance.Channel.{
  Channel, Callback, event_called, read_called, write_called, error_called, close_called,
  write_able, enable_read, enable_write, disable_write, set_r_events,
}
use flux_a_high_performance.Channel
use flux_a_high_performance.Socket.{
  ℤ, pos, negsuc, Errno, eagain, ewouldblock, eintr, other_error, Received, Sending, non_block_recv,
  non_block_send,
}
use flux_a_high_performance.TimerWheel.{timer_refresh_in_loop}
use flux_a_high_performance.Connection.{
  connected, disconnecting, is_connecting, is_disconnecting, buffer_size, Connection, Call, send,
  shutdown, release, cancel_inactive_release, enable_inactive_release_for, move_read, set_context,
  set_connected_callback, set_message_callback, set_closed_callback, set_anyevent_callback,
  set_srv_closed_callback, upgrade, Event, established, ready, asked,
}
use flux_a_high_performance.Connection.Basics.{
  update, cancel_inactive_release_in_loop, enable_inactive_release_in_loop, disconnect, send_data,
  upgrade_in_loop,
}

module _ {X : Type 0} (invoke : ℕ → Connection X → Result (Connection X)) where
  -- if (_callback) _callback(shared_from_this());
  unfoldable pub call_if_set : Option ℕ → Connection X → Result (Connection X)
  call_if_set none c = ok c
  call_if_set (some f) c = invoke f c

  -- An empty std::function throws.
  unfoldable pub call_message : Option ℕ → Connection X → Result (Connection X)
  call_message none c = fault uncaught
  call_message (some f) c = invoke f c

  unfoldable pub message_if_input : Connection X → Result (Connection X)
  unfolding call_message
  message_if_input c =
      if ltb 0 (read_able_size c.in_buffer) then call_message c.message_callback c else ok c

  unfoldable pub release_in_loop : Connection X → Result (Connection X)
  unfolding disconnect call_if_set
  release_in_loop c =
      let c' = disconnect c in
      call_if_set c'.closed_callback c' >>= λ c''. call_if_set c''.server_closed_callback c''

  -- ShutdownInLoop after the callback.
  unfoldable pub finish_output : Connection X → Result (Connection X)
  unfolding release_in_loop update
  finish_output c =
      let c' =
        if ltb 0 (read_able_size c.out_buffer) && not (write_able c.channel)
        then update c (enable_write c.channel)
        else c in
      if read_able_size c'.out_buffer == 0 then release_in_loop c' else ok c'

  unfoldable pub shutdown_in_loop : Connection X → Result (Connection X)
  unfolding message_if_input finish_output
  shutdown_in_loop c = message_if_input (record c { statu = disconnecting }) >>= finish_output

  -- HandleRead after NonBlockRecv has returned.
  unfoldable pub on_received : Connection X → ℤ → List ℕ → Result (Connection X)
  unfolding shutdown_in_loop message_if_input
  on_received c (negsuc n) buffer = shutdown_in_loop c
  on_received c (pos n) buffer =
      if n == 0
      then ok c
      else write_and_push c.in_buffer (take n buffer) >>= λ in_buffer.
          message_if_input (record c { in_buffer = in_buffer })

  unfoldable pub handle_read : Connection X → Received → Result (Connection X)
  unfolding on_received
  handle_read c received =
      let (n, buffer) = non_block_recv received (buffer_size - 1) in on_received c n buffer

  unfoldable pub handle_close : Connection X → Result (Connection X)
  unfolding message_if_input release_in_loop
  handle_close c = message_if_input c >>= release_in_loop

  unfoldable pub handle_error : Connection X → Result (Connection X)
  unfolding handle_close
  handle_error c = handle_close c

  -- HandleWrite after MoveReadOffset.
  unfoldable pub on_output : Connection X → Result (Connection X)
  unfolding release_in_loop update
  on_output c =
      if read_able_size c.out_buffer == 0
      then (let c' = update c (disable_write c.channel) in
          if is_disconnecting c'.statu then release_in_loop c' else ok c')
      else ok c

  -- HandleWrite after NonBlockSend has returned.
  unfoldable pub on_sent : Connection X → ℤ → Errno → Result (Connection X)
  unfolding message_if_input release_in_loop on_output
  on_sent c (negsuc n) eagain = ok c
  on_sent c (negsuc n) ewouldblock = ok c
  on_sent c (negsuc n) eintr = message_if_input c >>= release_in_loop
  on_sent c (negsuc n) other_error = message_if_input c >>= release_in_loop
  on_sent c (pos n) errno = do
    out_buffer ← move_read_offset c.out_buffer n
    on_output (record c {
      out_buffer = out_buffer;
      sent = c.sent ++ take n (drop c.out_buffer.reader_idx c.out_buffer.items);
    })

  unfoldable pub handle_write : Connection X → Sending → Result (Connection X)
  unfolding on_sent
  handle_write c sending =
      on_sent c (non_block_send sending (read_able_size c.out_buffer)) sending.errno

  unfoldable pub handle_any_event : Connection X → Result (Connection X)
  unfolding call_if_set
  handle_any_event c =
      let c' =
        if c.enable_inactive_release
        then record c { timer_wheel = timer_refresh_in_loop c.timer_wheel c.conn_id }
        else c in
      call_if_set c'.anyevent_callback c'

  unfoldable pub established_in_loop : Connection X → Result (Connection X)
  unfolding call_if_set update
  established_in_loop c =
      if is_connecting c.statu
      then (let c' = update (record c { statu = connected }) (enable_read c.channel) in
          call_if_set c'.connected_callback c')
      else ok c

  unfoldable pub make_call : Connection X → Call X → Result (Connection X)
  unfolding send_data shutdown_in_loop release_in_loop upgrade_in_loop
  make_call c (send bytes) = send_data c bytes
  make_call c shutdown = shutdown_in_loop c
  make_call c release = release_in_loop c
  make_call c cancel_inactive_release = ok (cancel_inactive_release_in_loop c)
  make_call c (enable_inactive_release_for sec) = ok (enable_inactive_release_in_loop c sec)
  make_call c (move_read n) = do
    in_buffer ← move_read_offset c.in_buffer n
    ok (record c { in_buffer = in_buffer })
  make_call c (set_context context) = ok (record c { context = some context })
  make_call c (set_connected_callback f) = ok (record c { connected_callback = some f })
  make_call c (set_message_callback f) = ok (record c { message_callback = some f })
  make_call c (set_closed_callback f) = ok (record c { closed_callback = some f })
  make_call c (set_anyevent_callback f) = ok (record c { anyevent_callback = some f })
  make_call c (set_srv_closed_callback f) = ok (record c { server_closed_callback = some f })
  make_call c (upgrade context conn msg closed event) =
      ok (upgrade_in_loop c context conn msg closed event)

  unfoldable pub perform : Connection X → List (Call X) → Result (Connection X)
  unfolding make_call
  perform c [] = ok c
  perform c (call ∷ calls) = make_call c call >>= λ c'. perform c' calls

  -- The handlers that the constructor binds.
  unfoldable pub handler : Received → Sending → Connection X → Callback → Result (Connection X)
  handler received sending c event_called = handle_any_event c
  handler received sending c read_called = handle_read c received
  handler received sending c write_called = handle_write c sending
  handler received sending c error_called = handle_error c
  handler received sending c close_called = handle_close c

  unfoldable pub dispatch :
      Received → Sending → Connection X → List Callback → Result (Connection X)
  unfolding handler
  dispatch received sending c [] = ok c
  dispatch received sending c (callback ∷ callbacks) =
      handler received sending c callback >>= λ c'. dispatch received sending c' callbacks

  unfoldable pub on_event : Connection X → Event X → Result (Connection X)
  unfolding dispatch established_in_loop make_call
  on_event c established = established_in_loop c
  on_event c (ready revents received sending) =
      let c' = record c { channel = set_r_events c.channel revents } in
      dispatch received sending c' (Channel.handle_event c'.channel)
  on_event c (asked call) = make_call c call

  unfoldable pub run : Connection X → List (Event X) → Result (Connection X)
  unfolding on_event
  run c [] = ok c
  run c (event ∷ events) = on_event c event >>= λ c'. run c' events

-- A program tells the calls of a callback; the depth is what is left of the stack.
unfoldable pub call_back :
    {X : Type 0} → (ℕ → Connection X → List (Call X)) → ℕ → ℕ → Connection X → Result (Connection X)
unfolding perform
call_back program zero f c = fault stuck
call_back program (suc depth) f c =
    let c' = record c { called = c.called ++ f ∷ [] } in
    perform (call_back program depth) c' (program f c')
