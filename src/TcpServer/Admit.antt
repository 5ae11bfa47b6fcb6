-- ===== src/TcpServer/Admit.antt =====
-- TcpServer::NewConnection of source/Reactor/TcpServer.hpp on a class Connection of Connection.hpp: the
-- callbacks are set at once, EnableInactiveRelease and Established are tasks of its loop, in this order.
use flux_a_high_performance.Prelude.{
  ℕ, ◌+◌, ◌<◌, word, ◌≡◌, refl, List, Bool, true, false, some, none, ==_iff, if◌then◌else◌, Result,
  add64, length, arith,
}
use flux_a_high_performance.Channel.{read_able, write_able, enable_read}
use flux_a_high_performance.Channel.Masks.{enable_read_lem}
use flux_a_high_performance.Socket.{pos}
use flux_a_high_performance.TimerWheel.{TimerWheel, has_timer, find_timer, timer_add_in_loop}
use flux_a_high_performance.TimerWheel.Refresh.{has_timer-found}
use flux_a_high_performance.Connection
use flux_a_high_performance.Connection.{connected, bound_channel}
use flux_a_high_performance.Connection.Basics.{update, enable_inactive_release_in_loop}
use flux_a_high_performance.Connection.Handlers.{call_if_set, established_in_loop}
use flux_a_high_performance.TcpServer.Table.{IsValid, not-has_conn}
use flux_a_high_performance.TcpServer
use flux_a_high_performance.TcpServer.{Loop, TcpServer, next_loop, has_conn, insert_conn, find_conn}

-- The connection when its tasks are queued.
unfoldable pub configured :
    {X : Type 0} → TcpServer → (accepts : ℕ → Bool) → TimerWheel → ℕ → Connection.Connection X
unfolding Connection.new_connection
configured s accepts wheel fd =
    record (Connection.new_connection accepts wheel (add64 s.next_id 1) fd) {
      connected_callback = s.connected_callback;
      message_callback = s.message_callback;
      closed_callback = s.close_callback;
      anyevent_callback = s.any_event_callback;
    }

-- The first task, if the server asks for it.
unfoldable pub timed : {X : Type 0} → TcpServer → Connection.Connection X → Connection.Connection X
unfolding enable_inactive_release_in_loop
timed s c = if s.enable_interactive_release then enable_inactive_release_in_loop c s.timeout else c

-- Both tasks.
unfoldable pub admit :
    {X : Type 0}
    → (invoke : ℕ → Connection.Connection X → Result (Connection.Connection X)) → TcpServer
    → Connection.Connection X
    → Result (Connection.Connection X)
unfolding timed established_in_loop
admit invoke s c = established_in_loop invoke (timed s c)

-- What the table of the server has of a connection.
abbrev pub entry_of :
    {X : Type 0}
    → (loop : Loop) → (timeout : ℕ) → (fd : ℕ) → Connection.Connection X
    → TcpServer.Connection
entry_of loop timeout fd c = record {
  conn_id = c.conn_id;
  fd = fd;
  loop = loop;
  inactive_release = if c.enable_inactive_release then some timeout else none;
  connected_callback = c.connected_callback;
  message_callback = c.message_callback;
  closed_callback = c.closed_callback;
  anyevent_callback = c.anyevent_callback;
  server_closed_callback = elim c.server_closed_callback [ none ↦ false | some f ↦ true ];
}

-- A connection as its connected callback finds it.
pub record Admitted {X : Type 0} (s : TcpServer) (accepts : ℕ → Bool) (wheel : TimerWheel) (fd : ℕ)
    (c : Connection.Connection X) : Type 0 where
  pub connected_now : c.statu ≡ connected
  pub numbered : c.conn_id ≡ s.next_id + 1
  pub watched : c.registered ≡ accepts 0
  pub on_fd : c.socket.sockfd ≡ pos fd
  pub reads : read_able c.channel ≡ true
  pub writes_not : write_able c.channel ≡ false
  pub on_connected : c.connected_callback ≡ s.connected_callback
  pub on_message : c.message_callback ≡ s.message_callback
  pub on_closed : c.closed_callback ≡ s.close_callback
  pub on_any_event : c.anyevent_callback ≡ s.any_event_callback
  pub untold : c.server_closed_callback ≡ none
  pub listed :
      find_conn c.conn_id (TcpServer.new_connection s fd).conns
      ≡ some (entry_of (next_loop s.pool).0 s.timeout fd c)
  pub timer : has_timer c.timer_wheel c.conn_id ≡ s.enable_interactive_release
  pub wheel_after : c.timer_wheel ≡ (
      if s.enable_interactive_release then timer_add_in_loop wheel c.conn_id s.timeout else wheel)

found-inserted :
    (id : ℕ) (e : TcpServer.Connection) (cs : List (ℕ × TcpServer.Connection))
    → has_conn id cs ≡ false
    → find_conn id (insert_conn id e cs) ≡ some e
unfolding find_conn insert_conn
found-inserted id e cs h = rw (h, (==_iff id id).1 refl) refl

added-found :
    (wheel : TimerWheel) (id sec : ℕ) → has_timer (timer_add_in_loop wheel id sec) id ≡ true
unfolding timer_add_in_loop find_timer
added-found wheel id sec =
    let pt = length wheel.tasks in
    let head : find_timer id (timer_add_in_loop wheel id sec).timers ≡ some pt =
      rw ((==_iff id id).1 refl) refl in
    has_timer-found (timer_add_in_loop wheel id sec) id pt head

-- EnableInactiveRelease of a connection without a timer, if it is called.
timed-fresh :
    {X : Type 0} (b : Bool) (sec : ℕ) (c : Connection.Connection X)
    → has_timer c.timer_wheel c.conn_id ≡ false
    → (if b then enable_inactive_release_in_loop c sec else c) ≡ record c {
      enable_inactive_release = if b then true else c.enable_inactive_release;
      timer_wheel = if b then timer_add_in_loop c.timer_wheel c.conn_id sec else c.timer_wheel;
    }
unfolding enable_inactive_release_in_loop
timed-fresh true sec c h = rw h refl
timed-fresh false sec c h = refl

-- Whether there is a timer afterwards.
timer-added :
    (b : Bool) (wheel : TimerWheel) (id sec : ℕ)
    → has_timer wheel id ≡ false
    → has_timer (if b then timer_add_in_loop wheel id sec else wheel) id ≡ b
timer-added true wheel id sec h = added-found wheel id sec
timer-added false wheel id sec h = h

flagged :
    (b : Bool) (timeout : ℕ)
    → (if (if b then true else false) then some timeout else none)
      ≡ (if b then some timeout else none)
flagged true timeout = refl
flagged false timeout = refl

-- While the numbers last, an accepted connection whose loop has no timer of its number is handed to
-- the connected callback of the server when it is connected and waits for reads and not for writes, in the
-- poller exactly if the kernel accepts its first call of epoll_ctl. It has the next number and each of the
-- four callbacks of the server in its place, and none that tells the server of its release. The table of
-- the server lists it like that, on the next loop of the pool. The wheel of its loop has a timer for it,
-- of the server's timeout, exactly if the server releases inactive connections.
pub admit_lem :
    {X : Type 0} (invoke : ℕ → Connection.Connection X → Result (Connection.Connection X))
    (s : TcpServer) (accepts : ℕ → Bool) (wheel : TimerWheel) (fd : ℕ)
    → IsValid s
    → s.next_id + 1 < word
    → has_timer wheel (add64 s.next_id 1) ≡ false
    → (c : Connection.Connection X) × (admit invoke s (configured s accepts wheel fd)
        ≡ call_if_set invoke s.connected_callback c)
      × Admitted s accepts wheel fd c
unfolding admit timed configured update Connection.new_connection TcpServer.new_connection
    write_able
admit_lem {X} invoke s accepts wheel fd v w h =
    let fresh : has_conn (add64 s.next_id 1) s.conns ≡ false =
      not-has_conn s.next_id (add64 s.next_id 1) s.conns v.given (omega arith) in
    let b = s.enable_interactive_release in
    let c0 : Connection.Connection X = configured s accepts wheel fd in
    let id = add64 s.next_id 1 in
    let timed_c : Connection.Connection X = record c0 {
      enable_inactive_release = if b then true else false;
      timer_wheel = if b then timer_add_in_loop wheel id s.timeout else wheel;
    } in
    let c = update (record timed_c { statu = connected }) (enable_read bound_channel) in
    let (on, off) = enable_read_lem bound_channel in
    (
      c,
      rw (timed-fresh b s.timeout c0 h) refl,
      record {
        connected_now = refl;
        numbered = omega arith;
        watched = refl;
        on_connected = refl;
        on_message = refl;
        on_closed = refl;
        on_any_event = refl;
        untold = refl;
        on_fd = refl;
        reads = on;
        writes_not = off;
        listed = rw (flagged b s.timeout) (found-inserted id _ s.conns fresh);
        timer = timer-added b wheel id s.timeout h;
        wheel_after = refl;
      },
    )
