-- ===== src/Connection/Stream.antt =====
-- Every history of a connection keeps the invariant, whatever the callbacks do.
use flux_a_high_performance.Prelude.{ℕ, ◌-◌, List, [], ◌∷◌, All, some, assertion, Result}
use flux_a_high_performance.Buffer.{Buffer, read_able_size}
use flux_a_high_performance.Buffer.Inv.{IsValid}
use flux_a_high_performance.Channel.{
  Channel, Callback, event_called, read_called, write_called, error_called, close_called,
  write_able, enable_read, enable_write, disable_write, set_r_events,
}
use flux_a_high_performance.Channel
use flux_a_high_performance.Socket.{Received, Sending, non_block_recv, non_block_send}
use flux_a_high_performance.TimerWheel.{TimerWheel}
use flux_a_high_performance.Connection.{
  buffer_size, Connection, Call, send, shutdown, release, cancel_inactive_release,
  enable_inactive_release_for, move_read, set_context, set_connected_callback, set_message_callback,
  set_closed_callback, set_anyevent_callback, set_srv_closed_callback, upgrade, Event, established,
  ready, asked,
}
use flux_a_high_performance.Connection.Basics.{upgrade_in_loop}
use flux_a_high_performance.Connection.Handlers.{
  handle_read, handle_error, handle_write, make_call, perform, handler, dispatch, on_event, run,
}
use flux_a_high_performance.Connection.Inv.{
  Policy, AnyInput, WellFormed, Keeps, then-Keeps, cancel-WellFormed, enable-WellFormed,
  send_data-Keeps,
}
use flux_a_high_performance.Connection.Steps.{
  move_input-Keeps, ready-WellFormed, recv-short, sent-AtMost,
}
use flux_a_high_performance.Connection.Methods.{
  release_in_loop-Keeps, shutdown_in_loop-Keeps, on_received-Keeps, handle_close-Keeps,
  on_sent-Keeps, handle_any_event-Keeps, established_in_loop-Keeps,
}

-- The calls that leave the context as it should be. A read offset that is moved too far fails an assert.
abbrev pub Permits : {X : Type 0} (P : Policy X) → Call X → Type 0
Permits P (send bytes) = Unit
Permits P shutdown = Unit
Permits P release = Unit
Permits P cancel_inactive_release = Unit
Permits P (enable_inactive_release_for sec) = Unit
Permits P (move_read n) = P.Allows assertion
Permits P (set_context context) = (b : Buffer) → IsValid b → P.Holds (some context) b
Permits P (set_connected_callback f) = Unit
Permits P (set_message_callback f) = Unit
Permits P (set_closed_callback f) = Unit
Permits P (set_anyevent_callback f) = Unit
Permits P (set_srv_closed_callback f) = Unit
Permits P (upgrade context conn msg closed event) =
    (b : Buffer) → IsValid b → P.Holds (some context) b

abbrev pub PermitsEvent : {X : Type 0} (P : Policy X) → Event X → Type 0
PermitsEvent P established = Unit
PermitsEvent P (ready revents received sending) = Unit
PermitsEvent P (asked call) = Permits P call

module _ {X : Type 0} (P : Policy X) (free : AnyInput P)
    (invoke : ℕ → Connection X → Result (Connection X))
    (invoke-Keeps : (f : ℕ) (c : Connection X) → WellFormed P c → Keeps P (invoke f c)) where
  make_call-Keeps :
      (c : Connection X) (call : Call X)
      → Permits P call
      → WellFormed P c
      → Keeps P (make_call invoke c call)
  unfolding make_call upgrade_in_loop
  make_call-Keeps c (send bytes) p w = send_data-Keeps P c bytes w
  make_call-Keeps c shutdown p w = shutdown_in_loop-Keeps P invoke invoke-Keeps c w
  make_call-Keeps c release p w = release_in_loop-Keeps P invoke invoke-Keeps c w
  make_call-Keeps c cancel_inactive_release p w = cancel-WellFormed P c w
  make_call-Keeps c (enable_inactive_release_for sec) p w = enable-WellFormed P c sec w
  make_call-Keeps c (move_read n) p w = move_input-Keeps P c n p free w
  make_call-Keeps c (set_context context) p w = (w.0, w.1, (w.2.0, p c.in_buffer w.0.input_valid))
  make_call-Keeps c (set_connected_callback f) p w = w
  make_call-Keeps c (set_message_callback f) p w = w
  make_call-Keeps c (set_closed_callback f) p w = w
  make_call-Keeps c (set_anyevent_callback f) p w = w
  make_call-Keeps c (set_srv_closed_callback f) p w = w
  make_call-Keeps c (upgrade context conn msg closed event) p w =
      (w.0, w.1, (w.2.0, p c.in_buffer w.0.input_valid))

  pub perform-Keeps :
      (c : Connection X) (calls : List (Call X))
      → All (Permits P) calls
      → WellFormed P c
      → Keeps P (perform invoke c calls)
  unfolding perform
  perform-Keeps c [] p w = w
  perform-Keeps c (call ∷ calls) p w =
      then-Keeps P _ _ (make_call-Keeps c call p.0 w) (λ d v. perform-Keeps d calls p.1 v)

  handler-Keeps :
      (received : Received) (sending : Sending) (c : Connection X) (callback : Callback)
      → WellFormed P c
      → Keeps P (handler invoke received sending c callback)
  unfolding handler handle_read handle_error handle_write
  handler-Keeps received sending c event_called w = handle_any_event-Keeps P invoke invoke-Keeps c w
  handler-Keeps received sending c read_called w =
      on_received-Keeps P invoke invoke-Keeps c (non_block_recv received (buffer_size - 1)).0 _
        (recv-short received) free w
  handler-Keeps received sending c write_called w =
      on_sent-Keeps P invoke invoke-Keeps c (non_block_send sending (read_able_size c.out_buffer))
        sending.errno (sent-AtMost sending w.0.output_valid) w
  handler-Keeps received sending c error_called w = handle_close-Keeps P invoke invoke-Keeps c w
  handler-Keeps received sending c close_called w = handle_close-Keeps P invoke invoke-Keeps c w

  dispatch-Keeps :
      (received : Received) (sending : Sending) (c : Connection X) (callbacks : List Callback)
      → WellFormed P c
      → Keeps P (dispatch invoke received sending c callbacks)
  unfolding dispatch
  dispatch-Keeps received sending c [] w = w
  dispatch-Keeps received sending c (callback ∷ callbacks) w =
      then-Keeps P _ _ (handler-Keeps received sending c callback w)
        (λ d v. dispatch-Keeps received sending d callbacks v)

  pub on_event-Keeps :
      (c : Connection X) (event : Event X)
      → PermitsEvent P event
      → WellFormed P c
      → Keeps P (on_event invoke c event)
  unfolding on_event
  on_event-Keeps c established p w = established_in_loop-Keeps P invoke invoke-Keeps c w
  on_event-Keeps c (ready revents received sending) p w =
      let c' : Connection X = record c { channel = set_r_events c.channel revents } in
      dispatch-Keeps received sending c' (Channel.handle_event c'.channel)
        (ready-WellFormed P c revents w)
  on_event-Keeps c (asked call) p w = make_call-Keeps c call p w

  pub run-Keeps :
      (c : Connection X) (events : List (Event X))
      → All (PermitsEvent P) events
      → WellFormed P c
      → Keeps P (run invoke c events)
  unfolding run
  run-Keeps c [] p w = w
  run-Keeps c (event ∷ events) p w =
      then-Keeps P _ _ (on_event-Keeps c event p.0 w) (λ d v. run-Keeps d events p.1 v)
