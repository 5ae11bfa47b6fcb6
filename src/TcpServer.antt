-- ===== src/TcpServer.antt =====
-- class TcpServer of source/Reactor/TcpServer.hpp, with LoopThreadPool of LoopThreadPool.hpp: the
-- table of the connections, their numbers, and the loops they are given to. Of a connection the model
-- has what the server sets, and that its release calls the callback of the server if that is set.
pub mod Table
pub mod Admit
mod Tests
use flux_a_high_performance.Prelude.{
  ℕ, zero, suc, ◌+◌, ◌%◌, ◌<◌, Bool, true, false, List, [], ◌∷◌, ◌++◌, Option, some, none, ◌==◌,
  if◌then◌else◌, length, add64,
}

-- EventLoop *: the loop of the listening socket, or a thread of the pool.
pub data Loop : Type 0 where
  base_loop : Loop
  loops : ℕ → Loop

pub record LoopThreadPool : Type 0 where
  pub thread_count : ℕ
  pub next_idx : ℕ

abbrev pub empty_pool : LoopThreadPool
empty_pool = record { thread_count = 0; next_idx = 0 }

pub set_thread_count : LoopThreadPool → ℕ → LoopThreadPool
set_thread_count pool count = record pool { thread_count = count }

-- The threads from the i-th on; GetLoop waits for the loop of each.
pub create_loops : ℕ → ℕ → List Loop
create_loops i zero = []
create_loops i (suc n) = loops i ∷ create_loops (suc i) n

-- _loops after Create.
pub create : LoopThreadPool → List Loop
unfolding create_loops
create pool = create_loops 0 pool.thread_count

pub next_loop : LoopThreadPool → Loop × LoopThreadPool
next_loop pool =
    if pool.thread_count == 0
    then (base_loop, pool)
    else (let idx = (pool.next_idx + 1) % pool.thread_count in
        (loops idx, record pool { next_idx = idx }))

pub record Connection : Type 0 where
  pub conn_id : ℕ
  pub fd : ℕ
  pub loop : Loop
  pub inactive_release : Option ℕ
  pub connected_callback : Option ℕ
  pub message_callback : Option ℕ
  pub closed_callback : Option ℕ
  pub anyevent_callback : Option ℕ
  pub server_closed_callback : Bool

pub record TcpServer : Type 0 where
  pub next_id : ℕ
  pub timeout : ℕ
  pub enable_interactive_release : Bool
  pub pool : LoopThreadPool
  pub conns : List (ℕ × Connection)
  pub timers : List (ℕ × ℕ)
  pub connected_callback : Option ℕ
  pub message_callback : Option ℕ
  pub close_callback : Option ℕ
  pub any_event_callback : Option ℕ

abbrev pub listening : TcpServer
listening = record {
  next_id = 0;
  timeout = 0;
  enable_interactive_release = false;
  pool = empty_pool;
  conns = [];
  timers = [];
  connected_callback = none;
  message_callback = none;
  close_callback = none;
  any_event_callback = none;
}

-- A callback of the user is its number.
unfoldable pub set_connected_callback : TcpServer → ℕ → TcpServer
set_connected_callback s cb = record s { connected_callback = some cb }

unfoldable pub set_message_callback : TcpServer → ℕ → TcpServer
set_message_callback s cb = record s { message_callback = some cb }

pub set_close_callback : TcpServer → ℕ → TcpServer
set_close_callback s cb = record s { close_callback = some cb }

pub set_any_event_callback : TcpServer → ℕ → TcpServer
set_any_event_callback s cb = record s { any_event_callback = some cb }

pub set_thread_count_of : TcpServer → ℕ → TcpServer
unfolding set_thread_count
set_thread_count_of s count = record s { pool = set_thread_count s.pool count }

-- The loops of the pool that Start creates before it starts its own.
pub start_server : TcpServer → List Loop
unfolding create
start_server s = create s.pool

pub enable_inactive_release : TcpServer → ℕ → TcpServer
enable_inactive_release s timeout = record s {
  timeout = timeout;
  enable_interactive_release = true;
}

-- The timer of the base loop has the number and the timeout.
pub add_timer_task_in_loop : TcpServer → ℕ → TcpServer
add_timer_task_in_loop s timeout =
    let id = add64 s.next_id 1 in record s { next_id = id; timers = s.timers ++ (id, timeout) ∷ [] }

-- std::unordered_map::find, insert and erase.
pub has_conn : ℕ → List (ℕ × Connection) → Bool
has_conn id [] = false
has_conn id ((j, c) ∷ cs) = let rest = has_conn id cs in if j == id then true else rest

pub insert_conn : ℕ → Connection → List (ℕ × Connection) → List (ℕ × Connection)
unfolding has_conn
insert_conn id c cs = if has_conn id cs then cs else (id, c) ∷ cs

pub erase_conn : ℕ → List (ℕ × Connection) → List (ℕ × Connection)
erase_conn id [] = []
erase_conn id ((j, c) ∷ cs) = let rest = erase_conn id cs in if j == id then rest else (j, c) ∷ rest

pub new_connection : TcpServer → ℕ → TcpServer
unfolding next_loop insert_conn
new_connection s fd =
    let id = add64 s.next_id 1 in
    let taken = next_loop s.pool in
    let conn : Connection = record {
      conn_id = id;
      fd = fd;
      loop = taken.0;
      inactive_release = if s.enable_interactive_release then some s.timeout else none;
      connected_callback = s.connected_callback;
      message_callback = s.message_callback;
      closed_callback = s.close_callback;
      anyevent_callback = s.any_event_callback;
      server_closed_callback = false;
    } in
    record s { next_id = id; pool = taken.1; conns = insert_conn id conn s.conns }

pub remove_connection_in_loop : TcpServer → Connection → TcpServer
unfolding has_conn erase_conn
remove_connection_in_loop s conn =
    if has_conn conn.conn_id s.conns
    then record s { conns = erase_conn conn.conn_id s.conns }
    else s

-- The end of Connection::ReleaseInLoop.
pub release_in_loop : TcpServer → Connection → TcpServer
unfolding remove_connection_in_loop
release_in_loop s conn = if conn.server_closed_callback then remove_connection_in_loop s conn else s

-- The connection with a number, as the callers of Release hold it.
pub find_conn : ℕ → List (ℕ × Connection) → Option Connection
find_conn id [] = none
find_conn id ((j, c) ∷ cs) = let rest = find_conn id cs in if j == id then some c else rest

-- What happens to a server.
pub data Event : Type 0 where
  accepted : ℕ → Event
  released : ℕ → Event
  timer_task : ℕ → Event

pub handle : TcpServer → Event → TcpServer
unfolding new_connection release_in_loop add_timer_task_in_loop find_conn
handle s (accepted fd) = new_connection s fd
handle s (released id) = elim (find_conn id s.conns) [
  | none ↦ s
  | some conn ↦ release_in_loop s conn
]
handle s (timer_task timeout) = add_timer_task_in_loop s timeout

pub run : TcpServer → List Event → TcpServer
unfolding handle
run s [] = s
run s (e ∷ es) = run (handle s e) es
