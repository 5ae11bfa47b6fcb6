-- ===== src/Connection/Basics.antt =====
-- The methods of class Connection that run no callback, and ReleaseInLoop up to its callbacks.
use flux_a_high_performance.Prelude.{
  ℕ, ◌+◌, true, false, not, ◌||◌, List, ◌++◌, some, ltb, if◌then◌else◌, length, word, Result, ok,
  fault, overflow, ◌>>=◌,
}
use flux_a_high_performance.Buffer.{Buffer, empty, read_able_size, write_and_push, copy_out}
use flux_a_high_performance.Channel.{Channel, write_able, enable_write}
use flux_a_high_performance.Socket.{close, is_minus_one}
use flux_a_high_performance.TimerWheel.{
  has_timer, timer_refresh_in_loop, timer_add_in_loop, timer_cancel_in_loop,
}
use flux_a_high_performance.Connection.{disconnected, is_disconnected, Connection}

-- Channel::Update. UpdateEvent of the poller adds the channel, or modifies it if it has it; when the kernel
-- refuses the call, as it does for a descriptor that is closed, a channel is not added, and one that is
-- there stays. Update tells nobody.
unfoldable pub update : {X : Type 0} → Connection X → Channel → Connection X
update c channel =
    let done = if is_minus_one c.socket.sockfd then false else c.accepts c.updates in
    record c {
      channel = channel;
      registered = c.registered || done;
      updates = c.updates + 1;
      refused = c.refused || not done;
    }

unfoldable pub cancel_inactive_release_in_loop : {X : Type 0} → Connection X → Connection X
cancel_inactive_release_in_loop c =
    let c' = record c { enable_inactive_release = false } in
    if has_timer c.timer_wheel c.conn_id
    then record c' { timer_wheel = timer_cancel_in_loop c.timer_wheel c.conn_id }
    else c'

-- The callback of the timer is Release.
unfoldable pub enable_inactive_release_in_loop : {X : Type 0} → Connection X → ℕ → Connection X
enable_inactive_release_in_loop c sec =
    let c' = record c { enable_inactive_release = true } in
    if has_timer c.timer_wheel c.conn_id
    then record c' { timer_wheel = timer_refresh_in_loop c.timer_wheel c.conn_id }
    else record c' { timer_wheel = timer_add_in_loop c.timer_wheel c.conn_id sec }

-- ReleaseInLoop up to its callbacks.
unfoldable pub disconnect : {X : Type 0} → Connection X → Connection X
unfolding cancel_inactive_release_in_loop
disconnect c =
    let c' = record c { statu = disconnected; registered = false; socket = close c.socket } in
    if has_timer c'.timer_wheel c'.conn_id then cancel_inactive_release_in_loop c' else c'

unfoldable pub send_in_loop : {X : Type 0} → Connection X → Buffer → Result (Connection X)
unfolding update
send_in_loop c buf = if is_disconnected c.statu then ok c else (do
  bytes ← copy_out buf.items buf.reader_idx (read_able_size buf)
  out_buffer ← write_and_push c.out_buffer bytes
  let c' = record c { out_buffer = out_buffer; accepted = c.accepted ++ bytes }
  ok (if write_able c'.channel then c' else update c' (enable_write c'.channel)))

-- Send; no array has 2 ^ 64 bytes.
unfoldable pub send_data : {X : Type 0} → Connection X → List ℕ → Result (Connection X)
unfolding send_in_loop
send_data c bytes =
    if ltb (length bytes) word
    then (write_and_push empty bytes >>= λ buf. send_in_loop c buf)
    else fault overflow

unfoldable pub upgrade_in_loop :
    {X : Type 0}
    → Connection X
    → (context : X) → (connected message closed event : ℕ) → Connection X
upgrade_in_loop c context conn msg closed event = record c {
  context = some context;
  connected_callback = some conn;
  message_callback = some msg;
  closed_callback = some closed;
  anyevent_callback = some event;
}
