-- ===== src/Connection.antt =====
-- class Connection of source/Reactor/Connection.hpp, run in the thread of its loop, where RunInLoop
-- calls its argument at once; what other threads ask for reaches that thread as a task. A std::function
-- is its number, an empty one is none, and a program tells which calls of the connection a callback
-- makes. Callbacks nest; the depth bounds how far, as the stack does. The wheel is that of the loop, and X
-- the type of the contexts that the class Any is to hold; an empty one is none.
pub mod Basics
pub mod Handlers
pub mod Inv
pub mod Steps
pub mod Methods
pub mod Stream
pub mod Output
pub mod Shutdown
pub mod Silent
pub mod Release
pub mod Inactive
mod Tests
use flux_a_high_performance.Prelude.{ℕ, Bool, true, false, List, [], ◌∷◌, Option, some, none}
use flux_a_high_performance.Buffer.{Buffer, empty}
use flux_a_high_performance.Channel.{Channel}
use flux_a_high_performance.Socket.{pos, Socket, socket_of, Received, Sending}
use flux_a_high_performance.TimerWheel.{TimerWheel}

pub data ConnStatu : Type 0 where
  disconnected connecting connected disconnecting : ConnStatu

abbrev pub is_disconnected : ConnStatu → Bool
is_disconnected disconnected = true
is_disconnected connecting = false
is_disconnected connected = false
is_disconnected disconnecting = false

abbrev pub is_connecting : ConnStatu → Bool
is_connecting disconnected = false
is_connecting connecting = true
is_connecting connected = false
is_connecting disconnecting = false

abbrev pub is_disconnecting : ConnStatu → Bool
is_disconnecting disconnected = false
is_disconnecting connecting = false
is_disconnecting connected = false
is_disconnecting disconnecting = true

abbrev pub buffer_size : ℕ
buffer_size = 65536

-- `registered`: the poller has the channel. `accepts` tells whether the kernel accepts the n-th call of
-- epoll_ctl that Update makes for an open descriptor. The last five fields are history: how often Update
-- was called, whether the kernel has refused one of the calls, the bytes that SendInLoop has taken over,
-- those that the kernel has, and the callbacks called.
pub record Connection (X : Type 0) : Type 0 where
  pub conn_id : ℕ
  pub enable_inactive_release : Bool
  pub statu : ConnStatu
  pub socket : Socket
  pub channel : Channel
  pub registered : Bool
  pub in_buffer : Buffer
  pub out_buffer : Buffer
  pub context : Option X
  pub timer_wheel : TimerWheel
  pub connected_callback : Option ℕ
  pub message_callback : Option ℕ
  pub closed_callback : Option ℕ
  pub anyevent_callback : Option ℕ
  pub server_closed_callback : Option ℕ
  pub accepts : ℕ → Bool
  pub updates : ℕ
  pub refused : Bool
  pub accepted : List ℕ
  pub sent : List ℕ
  pub called : List ℕ

-- The channel that the constructor sets up.
abbrev pub bound_channel : Channel
bound_channel = record {
  events = 0;
  revents = 0;
  read_callback = true;
  write_callback = true;
  error_callback = true;
  close_callback = true;
  event_callback = true;
}

unfoldable pub new_connection :
    {X : Type 0} → (accepts : ℕ → Bool) → TimerWheel → ℕ → ℕ → Connection X
new_connection accepts wheel conn_id sockfd = record {
  conn_id = conn_id;
  enable_inactive_release = false;
  statu = connecting;
  socket = socket_of (pos sockfd);
  channel = bound_channel;
  registered = false;
  in_buffer = empty;
  out_buffer = empty;
  context = none;
  timer_wheel = wheel;
  connected_callback = none;
  message_callback = none;
  closed_callback = none;
  anyevent_callback = none;
  server_closed_callback = none;
  accepts = accepts;
  updates = 0;
  refused = false;
  accepted = [];
  sent = [];
  called = [];
}

-- What a callback does with the connection and its input buffer.
pub data Call (X : Type 0) : Type 0 where
  send : List ℕ → Call X
  shutdown release cancel_inactive_release : Call X
  enable_inactive_release_for : ℕ → Call X
  move_read : ℕ → Call X
  set_context : X → Call X
  set_connected_callback set_message_callback set_closed_callback set_anyevent_callback
        set_srv_closed_callback :
      ℕ → Call X
  upgrade : (context : X) → (connected message closed event : ℕ) → Call X

-- What reaches a connection in its loop's thread: its establishing, the events of its descriptor with what
-- the kernel answers to a recv and a send, and the tasks that make a call.
pub data Event (X : Type 0) : Type 0 where
  established : Event X
  ready : (revents : ℕ) → Received → Sending → Event X
  asked : Call X → Event X
