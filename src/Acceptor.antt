-- ===== src/Acceptor.antt =====
-- class Acceptor of source/Reactor/Acceptor.hpp: the listening socket and its channel. `accepted` lists the
-- descriptors given to the callback.
pub mod Accepted
use flux_a_high_performance.Prelude.{
  ℕ, Bool, true, false, List, [], ◌∷◌, ◌++◌, if◌then◌else◌, Result, ok, fault, uncaught, ◌>>=◌,
}
use flux_a_high_performance.Socket.{
  ℤ, negsuc, is_negative, Errno, Socket, socket_of, Kernel, accept, close, create_server,
}
use flux_a_high_performance.Channel.{Channel, idle, enable_read}

pub record Acceptor : Type 0 where
  pub listensockfd : Socket
  pub channel : Channel
  pub registered : Bool
  pub accept_callback : Bool
  pub accepted : List ℤ

-- CreateServer; exit ends the process when the socket cannot be created.
pub create_listener : Kernel → ℕ → Result Socket
create_listener k port =
    let (created, s) = create_server k port false (socket_of (negsuc 0)) in
    if created then ok s else fault uncaught

pub acceptor : Kernel → ℕ → Result Acceptor
unfolding create_listener
acceptor k port = create_listener k port >>= λ s. ok (record {
  listensockfd = s;
  channel = record idle { read_callback = true };
  registered = false;
  accept_callback = false;
  accepted = [];
})

pub set_accept_callback : Acceptor → Acceptor
set_accept_callback a = record a { accept_callback = true }

pub listen_for_reads : Acceptor → Acceptor
listen_for_reads a = record a { channel = enable_read a.channel; registered = true }

pub handle_read : Acceptor → ℤ → Errno → Acceptor
handle_read a answer errno =
    let newfd = accept answer errno in
    if is_negative newfd
    then a
    else if a.accept_callback
    then record a { accepted = a.accepted ++ newfd ∷ [] }
    else a

-- Close, which the destructor calls.
pub close_acceptor : Acceptor → Acceptor
close_acceptor a = record a { registered = false; listensockfd = close a.listensockfd }
