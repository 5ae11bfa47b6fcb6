-- ===== src/Connection/Tests.antt =====
-- Connections at work.
use flux_a_high_performance.Prelude.{
  codes, ℕ, Bool, ◌≡◌, refl, true, false, List, [], ◌∷◌, Option, none, some, Result, ok, fault,
  overflow, ◌⊎◌, length, take, arith, inr,
}
use flux_a_high_performance.Buffer.Inv.{contents}
use flux_a_high_performance.Buffer.Stream.{empty-IsValid, read_able_size-empty}
use flux_a_high_performance.Channel.{epollin, epollout, write_able, enable_write}
use flux_a_high_performance.Channel.Masks.{enable_write_lem}
use flux_a_high_performance.Socket.{recv, non_block_recv, got, recv_failed, other_error}
use flux_a_high_performance.TimerWheel.{
  TimerTask, fresh_wheel, timer_add_in_loop, on_time, find_timer, task_at,
}
use flux_a_high_performance.TimerWheel.Slots.{count}
use flux_a_high_performance.TimerWheel.Schedule.{fresh_wheel-IsValid}
use flux_a_high_performance.TimerWheel.Timers.{timer_add_in_loop-IsValid, timer_add_in_loop-DueIn}
use flux_a_high_performance.Socket.Close.{socket_of-ClosedOnce}
use flux_a_high_performance.Connection.{
  Connection, connected, disconnecting, bound_channel, new_connection, Call, send, move_read, Event,
  established, ready, asked, set_message_callback,
}
use flux_a_high_performance.Connection.Basics.{
  send_in_loop, cancel_inactive_release_in_loop, enable_inactive_release_in_loop,
}
use flux_a_high_performance.Connection.Handlers.{
  call_back, run, on_event, release_in_loop, shutdown_in_loop,
}
use flux_a_high_performance.Connection.Inv.{WellFormed, lenient, flow}
use flux_a_high_performance.Buffer.{Buffer}
use flux_a_high_performance.Buffer.Space.{Fits}
use flux_a_high_performance.Connection.Output.{Appended, send_in_loop_lem}
use flux_a_high_performance.Connection.Shutdown.{took, handle_writes, shutdown_flushes}
use flux_a_high_performance.Connection.Release.{closed_twice}
use flux_a_high_performance.Connection.Silent.{Closing}
use flux_a_high_performance.Connection.Inactive.{cancel_then_enable}

-- A callback that answers "hi", and one that does nothing.
abbrev greets : ℕ → Connection ℕ → List (Call ℕ)
greets f c = move_read 1 ∷ send (codes "hi") ∷ []

abbrev silent : ℕ → Connection ℕ → List (Call ℕ)
silent f c = []

abbrev accepting : ℕ → Bool
accepting n = true

abbrev fresh : Connection ℕ
fresh = new_connection accepting fresh_wheel 7 9

abbrev story : List (Event ℕ)
story =
    established
    ∷ asked (set_message_callback 1)
    ∷ ready epollin (got (codes "?")) (took 0)
    ∷ ready epollout (got []) (took 1)
    ∷ []

-- What the kernel has in the end: the first byte of the answer.
abbrev sent_by : Result (Connection ℕ) → Option (List ℕ)
sent_by (fault why) = none
sent_by (ok c) = some c.sent

abbrev outcome : Option (List ℕ)
outcome = sent_by (run (call_back greets 3) fresh story)

-- Two bytes are left to send.
abbrev two_left : Connection ℕ
two_left = record fresh {
  statu = connected;
  registered = true;
  channel = enable_write bound_channel;
  out_buffer = record { items = codes "hi"; capacity = 2; reader_idx = 0; writer_idx = 2 };
  accepted = codes "hi";
}

two_left-WellFormed : WellFormed lenient two_left
unfolding new_connection
two_left-WellFormed = (
  flow empty-IsValid.0 (omega arith) refl (inr (enable_write_lem bound_channel).0),
  (refl, refl),
  (socket_of-ClosedOnce 9, tt),
)

shutdown_flushes_example :
    (b : Connection ℕ) × (n : ℕ) × (d : Connection ℕ) × (shutdown_in_loop
        (call_back silent 1)
        two_left
      ≡ ok b)
    × (b.statu ≡ disconnecting)
    × (write_able b.channel ≡ true)
    × (handle_writes (call_back silent 1) b (take n (1 ∷ 5 ∷ []))
        ≡ release_in_loop (call_back silent 1) d)
    × (d.sent ≡ codes "hi")
    × (contents d.out_buffer ≡ [])
unfolding new_connection
shutdown_flushes_example =
    shutdown_flushes (call_back silent 1) two_left (1 ∷ 5 ∷ []) two_left-WellFormed empty-IsValid.1
      (omega arith) (omega arith)

-- Two more.
abbrev more_bytes : Buffer
more_bytes = record { items = codes "ok"; capacity = 2; reader_idx = 0; writer_idx = 2 }

send_in_loop_lem_example :
    (Fits two_left.out_buffer 2 × Appended two_left (codes "ok") (send_in_loop two_left more_bytes))
    ⊎ ((¬ Fits two_left.out_buffer 2) × (send_in_loop two_left more_bytes ≡ fault overflow))
unfolding new_connection
send_in_loop_lem_example =
    send_in_loop_lem two_left more_bytes two_left-WellFormed (omega arith) refl

abbrev listened : Connection ℕ
listened = record fresh { statu = connected; closed_callback = some 1 }

listened-Closing : Closing 1 listened
unfolding new_connection
listened-Closing = record {
  no_input = read_able_size-empty;
  closed_set = refl;
  server_closed_unset = refl;
}

closed_twice_example :
    (d : Connection ℕ) × (on_event
        (call_back silent 1)
        listened
        (ready 9 (recv_failed other_error) (took 0))
      ≡ ok d)
    × (d.called ≡ 1 ∷ 1 ∷ [])
unfolding new_connection non_block_recv recv
closed_twice_example =
    closed_twice silent 0 1 (λ c. refl) listened 9 0 (recv_failed other_error) (took 0)
      listened-Closing read_able_size-empty
      (record {
        read_set = refl;
        write_set = refl;
        error_set = refl;
        close_set = refl;
        event_set = refl;
      })
      refl refl refl refl refl

abbrev timer : TimerTask
timer = record { id = 7; timeout = 5; canceled = false }

abbrev timed : Connection ℕ
timed = new_connection accepting (timer_add_in_loop fresh_wheel 7 5) 7 9

cancel_then_enable_example :
    let c = enable_inactive_release_in_loop (cancel_inactive_release_in_loop timed) 30 in
    (c.enable_inactive_release ≡ true)
    × (length c.timer_wheel.tasks ≡ length timed.timer_wheel.tasks)
    × (count 0 (on_time c.timer_wheel 100).ran ≡ count 0 timed.timer_wheel.ran)
unfolding new_connection timer_add_in_loop find_timer task_at
cancel_then_enable_example =
    cancel_then_enable timed 30 100 0 5 timer
      (timer_add_in_loop-IsValid 7 5 fresh_wheel-IsValid (omega arith)) refl refl (omega arith)
      (timer_add_in_loop-DueIn 7 5 fresh_wheel-IsValid (omega arith)) (omega arith)
