-- ===== src/Socket.antt =====
-- class Socket of source/Reactor/Socket.hpp. The system calls are the kernel's: what a call returns is
-- an argument, and the calls made are listed, the latest last. Of an address the model has the port.
pub mod Results
pub mod Server
pub mod Close
mod Tests
use flux_a_high_performance.Prelude.{
  ℕ, zero, suc, ◌+◌, ◌-◌, ◌%◌, ◌^◌, min, Bool, true, false, List, [], ◌∷◌, ◌++◌, Option, some, none,
  ltb, ◌==◌, if◌then◌else◌, length, take,
}

-- int and ssize_t.
pub data ℤ : Type 0 where
  pos : ℕ → ℤ
  negsuc : ℕ → ℤ

abbrev pub is_negative : ℤ → Bool
is_negative (pos n) = false
is_negative (negsuc n) = true

-- The conversion of ssize_t to int keeps the low 32 bits.
pub to_int : ℤ → ℤ
to_int (pos n) =
    let low = n % 2 ^ 32 in if ltb low (2 ^ 31) then pos low else negsuc (2 ^ 32 - 1 - low)
to_int (negsuc n) =
    let low = n % 2 ^ 32 in if ltb low (2 ^ 31) then negsuc low else pos (2 ^ 32 - 1 - low)

pub data Errno : Type 0 where
  eagain ewouldblock eintr other_error : Errno

-- The errors after which the call can be tried again.
abbrev pub is_retry : Errno → Bool
is_retry eagain = true
is_retry ewouldblock = true
is_retry eintr = true
is_retry other_error = false

pub data Syscall : Type 0 where
  socket_call : Syscall
  reuse_address_call : ℤ → Syscall
  reuse_port_call : ℤ → Syscall
  get_flags_call : ℤ → Syscall
  set_nonblock_call : ℤ → Syscall
  bind_call : ℤ → ℕ → Syscall
  listen_call : ℤ → ℕ → Syscall
  connect_call : ℤ → ℕ → Syscall
  close_call : ℤ → Syscall

pub record Socket : Type 0 where
  pub sockfd : ℤ
  pub calls : List Syscall

-- Socket(int fd), and Socket() with -1.
abbrev pub socket_of : ℤ → Socket
socket_of fd = record { sockfd = fd; calls = [] }

pub called : Socket → Syscall → Socket
called s call = record s { calls = s.calls ++ call ∷ [] }

-- What the kernel answers to a call.
abbrev pub Kernel : Type 0
Kernel = Syscall → ℤ

pub create : Kernel → Socket → Bool × Socket
unfolding called
create k s =
    let fd = k socket_call in
    (if is_negative fd then false else true, record (called s socket_call) { sockfd = fd })

-- A call whose result is only tested.
pub tested : Kernel → Syscall → Socket → Bool × Socket
unfolding called
tested k call s = (if is_negative (k call) then false else true, called s call)

pub bind : Kernel → ℕ → Socket → Bool × Socket
unfolding tested
bind k port s = tested k (bind_call s.sockfd port) s

abbrev pub max_listen : ℕ
max_listen = 1024

pub listen : Kernel → ℕ → Socket → Bool × Socket
unfolding tested
listen k backlog s = tested k (listen_call s.sockfd backlog) s

pub connect : Kernel → ℕ → Socket → Bool × Socket
unfolding tested
connect k port s = tested k (connect_call s.sockfd port) s

-- accept of the kernel gives a descriptor, or fails; the errors differ only in what is logged.
unfoldable pub accept : ℤ → Errno → ℤ
accept (pos fd) e = pos fd
accept (negsuc n) e = if is_retry e then negsuc 0 else negsuc 0

-- What the kernel has for recv: the bytes that have come, none when the peer has closed, or an error.
pub data Received : Type 0 where
  got : List ℕ → Received
  recv_failed : Errno → Received

-- The kernel copies no more than `len` bytes. The result is what Recv returns, with the bytes in buf.
unfoldable pub recv : Received → ℕ → ℤ × List ℕ
recv (got bytes) len =
    let buf = take len bytes in (if length buf == 0 then negsuc 1 else pos (length buf), buf)
recv (recv_failed e) len = (if is_retry e then pos 0 else negsuc 0, [])

unfoldable pub non_block_recv : Received → ℕ → ℤ × List ℕ
unfolding recv
non_block_recv r len = recv r len

-- What the kernel does with send: it takes as many bytes, or fails; errno is left as it is then.
pub record Sending : Type 0 where
  pub taken : Option ℕ
  pub errno : Errno

-- send of the kernel, which takes no more than it is given.
abbrev pub sys_send : Option ℕ → ℕ → ℤ
sys_send none len = negsuc 0
sys_send (some k) len = pos (min k len)

abbrev pub sent_result : ℤ → Errno → ℤ
sent_result (pos n) e = pos n
sent_result (negsuc n) e = if is_retry e then pos 0 else negsuc 0

pub send : Sending → ℕ → ℤ
unfolding to_int
send s len = sent_result (to_int (sys_send s.taken len)) s.errno

pub non_block_send : Sending → ℕ → ℤ
unfolding send
non_block_send s len = send s len

abbrev pub is_minus_one : ℤ → Bool
is_minus_one (pos n) = false
is_minus_one (negsuc n) = n == 0

pub close : Socket → Socket
unfolding called
close s =
    if is_minus_one s.sockfd
    then s
    else record (called s (close_call s.sockfd)) { sockfd = negsuc 0 }

pub reuse_address : Socket → Socket
unfolding called
reuse_address s = called (called s (reuse_address_call s.sockfd)) (reuse_port_call s.sockfd)

pub non_block : Kernel → Socket → Socket
unfolding called
non_block k s =
    let s' = called s (get_flags_call s.sockfd) in
    if is_negative (k (get_flags_call s.sockfd)) then s' else called s' (set_nonblock_call s.sockfd)

-- The next step of a chain that ends with the first failure.
abbrev pub and_then : Bool × Socket → (Socket → Bool × Socket) → Bool × Socket
and_then (false, s) next = (false, s)
and_then (true, s) next = next s

pub create_server : Kernel → ℕ → Bool → Socket → Bool × Socket
unfolding create bind listen reuse_address non_block
create_server k port block_flag s = and_then (create k s) (λ s1.
    let s2 = reuse_address s1 in
    let s3 = if block_flag then non_block k s2 else s2 in
    and_then (bind k port s3) (λ s4. listen k max_listen s4))

pub create_client : Kernel → ℕ → Socket → Bool × Socket
unfolding create connect
create_client k port s = and_then (create k s) (λ s1. connect k port s1)
