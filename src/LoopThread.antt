-- ===== src/LoopThread.antt =====
-- class LoopThread of source/Reactor/LoopThread.hpp: the thread that runs an event loop, and the thread
-- that owns it, interleaved in any order. Each block under the mutex is one step. Of the event loop the
-- model has the flag that Start sets and Stop clears.
pub mod Join
mod Tests
use flux_a_high_performance.Prelude.{◌≡◌, Bool, true, false, if◌then◌else◌}

-- Where ThreadEntry stands: before _loop is set, before Start, in the loop, and after _loop is reset.
pub data ThreadPc : Type 0 where
  entering starting looping ended : ThreadPc

-- The owner: before the destructor, in join, and after it.
pub data OwnerPc : Type 0 where
  using joining joined : OwnerPc

pub record LoopThread : Type 0 where
  pub thread : ThreadPc
  pub owner : OwnerPc
  pub loop_set : Bool
  pub is_running : Bool

pub constructed : LoopThread
constructed = record { thread = entering; owner = using; loop_set = false; is_running = false }

pub set_loop : LoopThread → LoopThread
set_loop s = record s { thread = starting; loop_set = true }

-- The first line of EventLoop::Start.
pub start_loop : LoopThread → LoopThread
start_loop s = record s { thread = looping; is_running = true }

pub reset_loop : LoopThread → LoopThread
reset_loop s = record s { thread = ended; loop_set = false }

-- EventLoop::Stop
pub stop_loop : LoopThread → LoopThread
stop_loop s = record s { is_running = false }

-- The destructor up to join.
pub destroy : LoopThread → LoopThread
unfolding stop_loop
destroy s = record (if s.loop_set then stop_loop s else s) { owner = joining }

pub data Step (s : LoopThread) : LoopThread → Type 0 where
  enter : s.thread ≡ entering → Step s (set_loop s)
  start : s.thread ≡ starting → Step s (start_loop s)
  finish : s.thread ≡ looping → s.is_running ≡ false → Step s (reset_loop s)
  stop : s.owner ≡ using → s.loop_set ≡ true → Step s (stop_loop s)
  destruct : s.owner ≡ using → Step s (destroy s)
  join : s.owner ≡ joining → s.thread ≡ ended → Step s (record s { owner = joined })

-- Any number of steps.
pub data Steps (s : LoopThread) : LoopThread → Type 0 where
  here : Steps s s
  more : {t u : LoopThread} → Steps s t → Step t u → Steps s u
