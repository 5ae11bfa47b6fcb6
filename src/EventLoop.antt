-- ===== src/EventLoop.antt =====
-- class EventLoop of source/Reactor/EventLoop.hpp: the loop's thread and the threads that queue tasks
-- for it, interleaved in any order. A task is opaque. Each access to the queue is under the mutex, so
-- it is one step; the write to the eventfd that follows a push is another.
pub mod Order
pub mod Wakeup
pub mod Progress
mod Tests
use flux_a_high_performance.Prelude.{
  ℕ, zero, suc, ◌+◌, ◌-◌, ◌^◌, ◌≡◌, ◌<◌, Bool, true, false, List, [], ◌∷◌, ◌++◌, if◌then◌else◌,
}

abbrev pub Task : Type 0
Task = ℕ

-- A channel that epoll_wait returns: that of the eventfd, or another one.
pub data Active : Type 0 where
  event_channel : Active
  channel : ℕ → Active

-- Where the loop's thread stands in Start, with what is left of its for loops.
pub data Pc : Type 0 where
  polling : Pc
  handling : List Active → Pc
  running : List Task → Pc
  finished : Pc

-- `waking` counts the threads that have to write to the eventfd. The last three fields are history:
-- the tasks queued, those run from the queue, and those that RunInLoop called at once.
pub record EventLoop : Type 0 where
  pub is_running : Bool
  pub pc : Pc
  pub counter : ℕ
  pub tasks : List Task
  pub waking : ℕ
  pub queued : List Task
  pub ran : List Task
  pub called : List Task

-- Start has just set _isrunning.
abbrev pub started : EventLoop
started = record {
  is_running = true;
  pc = polling;
  counter = 0;
  tasks = [];
  waking = 0;
  queued = [];
  ran = [];
  called = [];
}

-- QueueInLoop up to the end of the lock's scope.
pub push_task : EventLoop → Task → EventLoop
push_task s cb = record s {
  tasks = s.tasks ++ cb ∷ [];
  queued = s.queued ++ cb ∷ [];
  waking = s.waking + 1;
}

pub wake_up_event_fd : EventLoop → EventLoop
wake_up_event_fd s = record s { counter = s.counter + 1; waking = s.waking - 1 }

-- read gives the counter of the eventfd and sets it to 0; at 0 it fails with EAGAIN, which is
-- ignored.
pub read_eventfd : EventLoop → EventLoop
read_eventfd s = record s { counter = 0 }

pub stop : EventLoop → EventLoop
stop s = record s { is_running = false; waking = s.waking + 1 }

-- RunInLoop; the flag is IsInLoop.
pub run_in_loop : Bool → EventLoop → Task → EventLoop
unfolding push_task
run_in_loop in_loop s cb =
    if in_loop then record s { called = s.called ++ cb ∷ [] } else push_task s cb

-- The swap of RunAllTask.
pub swap_tasks : EventLoop → EventLoop
swap_tasks s = record s { pc = running s.tasks; tasks = [] }

-- What epoll_wait may return: the eventfd only while its counter is not 0.
abbrev pub Pollable : EventLoop → List Active → Type 0
Pollable s [] = Unit
Pollable s (event_channel ∷ actives) = (0 < s.counter) × Pollable s actives
Pollable s (channel fd ∷ actives) = Pollable s actives

-- A step of the loop's thread. An interrupted epoll_wait returns no channel.
pub data LoopStep (s : EventLoop) : EventLoop → Type 0 where
  poll :
      (actives : List Active)
      → s.pc ≡ polling
      → Pollable s actives
      → LoopStep s (record s { pc = handling actives })
  handle_event_channel :
      (rest : List Active)
      → s.pc ≡ handling (event_channel ∷ rest)
      → LoopStep s (record (read_eventfd s) { pc = handling rest })
  handle_channel :
      (fd : ℕ) (rest : List Active)
      → s.pc ≡ handling (channel fd ∷ rest)
      → LoopStep s (record s { pc = handling rest })
  swap : s.pc ≡ handling [] → LoopStep s (swap_tasks s)
  run :
      (cb : Task) (rest : List Task)
      → s.pc ≡ running (cb ∷ rest)
      → LoopStep s (record s { pc = running rest; ran = s.ran ++ cb ∷ [] })
  again : s.pc ≡ running [] → s.is_running ≡ true → LoopStep s (record s { pc = polling })
  leave : s.pc ≡ running [] → s.is_running ≡ false → LoopStep s (record s { pc = finished })

-- A step of any thread; a callback or a task of the loop's thread may take it too. The write to the
-- eventfd succeeds while the counter is below its largest value.
pub data Step (s : EventLoop) : EventLoop → Type 0 where
  loop : {t : EventLoop} → LoopStep s t → Step s t
  request : (in_loop : Bool) (cb : Task) → Step s (run_in_loop in_loop s cb)
  wake : 0 < s.waking → s.counter < 2 ^ 64 - 2 → Step s (wake_up_event_fd s)
  stop_request : Step s (stop s)

pub data Reach : EventLoop → Type 0 where
  start : Reach started
  next : {s t : EventLoop} → Reach s → Step s t → Reach t

-- Steps of the loop's thread alone.
pub data LoopSteps (s : EventLoop) : EventLoop → Type 0 where
  done : LoopSteps s s
  more : {t u : EventLoop} → LoopSteps s t → LoopStep t u → LoopSteps s u
