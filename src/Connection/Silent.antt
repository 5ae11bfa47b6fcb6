-- ===== src/Connection/Silent.antt =====
-- The handlers of a connection whose only callback makes no calls.
use flux_a_high_performance.Prelude.{
  Bool, true, false, if◌then◌else◌, ℕ, suc, ◌-◌, ◌≡◌, refl, ap, ◌∙◌, Bool, true, false, List, [],
  ◌∷◌, ◌++◌, if◌then◌else◌, Option, some, none, Result, ok,
}
use flux_a_high_performance.Buffer.{Buffer, read_able_size}
use flux_a_high_performance.Socket.{close, negsuc, Received, non_block_recv}
use flux_a_high_performance.TimerWheel.{TimerWheel, timer_refresh_in_loop, has_timer}
use flux_a_high_performance.Connection.{disconnected, disconnecting, Connection, Call, buffer_size}
use flux_a_high_performance.Connection.Basics.{cancel_inactive_release_in_loop, disconnect}
use flux_a_high_performance.Connection.Handlers.{
  call_if_set, message_if_input, release_in_loop, finish_output, shutdown_in_loop, on_received,
  handle_read, handle_close, handle_any_event, perform, call_back,
}

-- What ReleaseInLoop leaves alone before its callbacks.
pub record Kept {X : Type 0} (c d : Connection X) : Type 0 where
  pub same_input : d.in_buffer ≡ c.in_buffer
  pub same_closed : d.closed_callback ≡ c.closed_callback
  pub same_server_closed : d.server_closed_callback ≡ c.server_closed_callback
  pub same_called : d.called ≡ c.called

if-Kept :
    {X : Type 0} {c : Connection X} (b : Bool) (d e : Connection X)
    → Kept c d
    → Kept c e
    → Kept c (if b then d else e)
if-Kept true d e k l = k
if-Kept false d e k l = l

cancel-Kept : {X : Type 0} (c : Connection X) → Kept c (cancel_inactive_release_in_loop c)
unfolding cancel_inactive_release_in_loop
cancel-Kept c =
    if-Kept (has_timer c.timer_wheel c.conn_id) _ _
      (record {
        same_input = refl;
        same_closed = refl;
        same_server_closed = refl;
        same_called = refl;
      })
      (record {
        same_input = refl;
        same_closed = refl;
        same_server_closed = refl;
        same_called = refl;
      })

pub disconnect-Kept : {X : Type 0} (c : Connection X) → Kept c (disconnect c)
unfolding disconnect
disconnect-Kept {X} c =
    let d : Connection X = record c {
      statu = disconnected;
      registered = false;
      socket = close c.socket;
    } in
    let k = cancel-Kept d in
    if-Kept (has_timer c.timer_wheel c.conn_id) (cancel_inactive_release_in_loop d) d
      (record {
        same_input = k.same_input;
        same_closed = k.same_closed;
        same_server_closed = k.same_server_closed;
        same_called = k.same_called;
      })
      (record {
        same_input = refl;
        same_closed = refl;
        same_server_closed = refl;
        same_called = refl;
      })

-- A connection with one callback, for its end.
pub record Ending (f : ℕ) (input : Buffer) (closed server_closed : Option ℕ) : Type 0 where
  pub no_input : read_able_size input ≡ 0
  pub closed_set : closed ≡ some f
  pub server_closed_unset : server_closed ≡ none

abbrev pub Closing : {X : Type 0} → ℕ → Connection X → Type 0
Closing f c = Ending f c.in_buffer c.closed_callback c.server_closed_callback

abbrev pub log : {X : Type 0} → Connection X → ℕ → Connection X
log c f = record c { called = c.called ++ f ∷ [] }

call_if_set-none :
    {X : Type 0} (invoke : ℕ → Connection X → Result (Connection X)) (o : Option ℕ)
    (c : Connection X)
    → o ≡ none
    → call_if_set invoke o c ≡ ok c
unfolding call_if_set
call_if_set-none invoke o c e = rw e refl

call_if_set-some :
    {X : Type 0} (invoke : ℕ → Connection X → Result (Connection X)) (o : Option ℕ)
    (c : Connection X) {f : ℕ}
    → o ≡ some f
    → call_if_set invoke o c ≡ invoke f c
unfolding call_if_set
call_if_set-some invoke o c e = rw e refl

message_if_input-none :
    {X : Type 0} (invoke : ℕ → Connection X → Result (Connection X)) (c : Connection X)
    → read_able_size c.in_buffer ≡ 0
    → message_if_input invoke c ≡ ok c
unfolding message_if_input
message_if_input-none invoke c e = simp e

finish_output-none :
    {X : Type 0} (invoke : ℕ → Connection X → Result (Connection X)) (c : Connection X)
    → read_able_size c.out_buffer ≡ 0
    → finish_output invoke c ≡ release_in_loop invoke c
unfolding finish_output
finish_output-none invoke c e = simp e

-- Without an any-event callback, the timer is refreshed if the connection is released for inactivity.
abbrev pub refreshed : {X : Type 0} → Connection X → Connection X
refreshed c = record c {
  timer_wheel =
      if c.enable_inactive_release
      then timer_refresh_in_loop c.timer_wheel c.conn_id
      else c.timer_wheel;
}

any_event-switch :
    {X : Type 0} (invoke : ℕ → Connection X → Result (Connection X)) (c : Connection X)
    (w : TimerWheel) (b : Bool)
    → c.anyevent_callback ≡ none
    → (let c' = if b then record c { timer_wheel = w } else c in
        call_if_set invoke c'.anyevent_callback c')
      ≡ ok (record c { timer_wheel = if b then w else c.timer_wheel })
any_event-switch invoke c w true a =
    call_if_set-none invoke c.anyevent_callback (record c { timer_wheel = w }) a
any_event-switch invoke c w false a = call_if_set-none invoke c.anyevent_callback c a

pub handle_any_event-none :
    {X : Type 0} (invoke : ℕ → Connection X → Result (Connection X)) (c : Connection X)
    → c.anyevent_callback ≡ none
    → handle_any_event invoke c ≡ ok (refreshed c)
unfolding handle_any_event
handle_any_event-none invoke c a =
    any_event-switch invoke c (timer_refresh_in_loop c.timer_wheel c.conn_id)
      c.enable_inactive_release a

module _ {X : Type 0} (program : ℕ → Connection X → List (Call X)) (depth f : ℕ)
    (silent : (c : Connection X) → program f c ≡ []) where
  call_back-silent : (c : Connection X) → call_back program (suc depth) f c ≡ ok (log c f)
  unfolding call_back perform
  call_back-silent c = rw (silent (log c f)) refl

  release-silent :
      (c : Connection X)
      → Closing f c
      → release_in_loop (call_back program (suc depth)) c ≡ ok (log (disconnect c) f)
  unfolding release_in_loop
  release-silent c h =
      let d = disconnect c in
      let k = disconnect-Kept c in
      let invoke = call_back program (suc depth) in
      rw
        (
          call_if_set-some invoke d.closed_callback d (k.same_closed ∙ h.closed_set),
          call_back-silent d,
          call_if_set-none invoke d.server_closed_callback (log d f)
              (k.same_server_closed ∙ h.server_closed_unset),
        )
        refl

  pub released-Closing : (c : Connection X) → Closing f c → Closing f (log (disconnect c) f)
  released-Closing c h =
      let k = disconnect-Kept c in
      record {
        no_input = ap read_able_size k.same_input ∙ h.no_input;
        closed_set = k.same_closed ∙ h.closed_set;
        server_closed_unset = k.same_server_closed ∙ h.server_closed_unset;
      }

  pub handle_close-silent :
      (c : Connection X)
      → Closing f c
      → handle_close (call_back program (suc depth)) c ≡ ok (log (disconnect c) f)
  unfolding handle_close
  handle_close-silent c h =
      rw (message_if_input-none (call_back program (suc depth)) c h.no_input) (release-silent c h)

  pub shutdown-silent :
      (c : Connection X)
      → Closing f c
      → read_able_size c.out_buffer ≡ 0
      → let c' : Connection X = record c { statu = disconnecting } in
        shutdown_in_loop (call_back program (suc depth)) c ≡ ok (log (disconnect c') f)
  unfolding shutdown_in_loop finish_output
  shutdown-silent c h e =
      let c' : Connection X = record c { statu = disconnecting } in
      let invoke = call_back program (suc depth) in
      rw (message_if_input-none invoke c' h.no_input)
        (finish_output-none invoke c' e ∙ release-silent c' h)

  pub handle_read-failed :
      (c : Connection X) (received : Received) {n : ℕ}
      → (non_block_recv received (buffer_size - 1)).0 ≡ negsuc n
      → handle_read (call_back program (suc depth)) c received
        ≡ shutdown_in_loop (call_back program (suc depth)) c
  unfolding handle_read on_received
  handle_read-failed c received e = rw e refl
