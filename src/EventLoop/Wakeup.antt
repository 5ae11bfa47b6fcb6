-- ===== src/EventLoop/Wakeup.antt =====
-- No wake-up is lost.
use flux_a_high_performance.Prelude.{
  ℕ, ◌+◌, ◌-◌, ◌<◌, ◌≡◌, ◌≢◌, ◌⊎◌, inl, inr, refl, Bool, true, false, [], arith,
}
use flux_a_high_performance.EventLoop.{
  Task, Pc, polling, handling, running, finished, EventLoop, wake_up_event_fd, read_eventfd, stop,
  run_in_loop, swap_tasks, LoopStep, poll, handle_event_channel, handle_channel, swap, run, again,
  leave, Step, loop, request, wake, stop_request, Reach, start, next,
}

-- The loop's thread has yet to swap the queue in this round, or some thread has yet to write to the eventfd, or the
-- eventfd is readable.
abbrev pub Noticed : Pc → ℕ → ℕ → Type 0
Noticed (handling _) waking counter = Unit
Noticed _ waking counter = (0 < waking) ⊎ (0 < counter)

abbrev pub Awake : EventLoop → Type 0
Awake s = (s.tasks ≡ []) ⊎ Noticed s.pc s.waking s.counter

pub LoopStep-Awake : {s t : EventLoop} → LoopStep s t → Awake s → Awake t
unfolding read_eventfd swap_tasks
LoopStep-Awake {s} (poll actives e k) h = inr tt
LoopStep-Awake {s} (handle_event_channel rest e) h = inr tt
LoopStep-Awake {s} (handle_channel fd rest e) h = inr tt
LoopStep-Awake {s} (swap e) h = inl refl
LoopStep-Awake {s} (run cb rest e) h = simp e at h
LoopStep-Awake {s} (again e r) h = simp e at h
LoopStep-Awake {s} (leave e r) h = simp e at h

noticed : (pc : Pc) (waking counter : ℕ) → 0 < waking → Noticed pc waking counter
noticed polling w c h = inl h
noticed (handling _) w c h = tt
noticed (running _) w c h = inl h
noticed finished w c h = inl h

rung : (pc : Pc) (waking counter : ℕ) → 0 < counter → Noticed pc waking counter
rung polling w c h = inr h
rung (handling _) w c h = tt
rung (running _) w c h = inr h
rung finished w c h = inr h

request-Awake :
    (in_loop : Bool) (s : EventLoop) (cb : Task) → Awake s → Awake (run_in_loop in_loop s cb)
unfolding run_in_loop
request-Awake true s cb h = h
request-Awake false s cb h = inr (noticed s.pc (s.waking + 1) s.counter (omega arith))

stop-Awake : (s : EventLoop) → Awake s → Awake (stop s)
unfolding stop
stop-Awake s h = inr (noticed s.pc (s.waking + 1) s.counter (omega arith))

Step-Awake : {s t : EventLoop} → Step s t → Awake s → Awake t
unfolding wake_up_event_fd
Step-Awake (loop l) h = LoopStep-Awake l h
Step-Awake {s} (request in_loop cb) h = request-Awake in_loop s cb h
Step-Awake {s} (wake w c) h = inr (rung s.pc (s.waking - 1) (s.counter + 1) (omega arith))
Step-Awake {s} stop_request h = stop-Awake s h

pub Reach-Awake : {s : EventLoop} → Reach s → Awake s
Reach-Awake start = inl refl
Reach-Awake (next r st) = Step-Awake st (Reach-Awake r)

pub polling-Awake :
    (s : EventLoop) → s.pc ≡ polling → s.tasks ≢ [] → Awake s → (0 < s.waking) ⊎ (0 < s.counter)
polling-Awake s e n (inl h) = absurd (n h)
polling-Awake s e n (inr h) = simp e at h

-- Whenever the loop's thread is about to wait in epoll_wait with a task in the queue, the eventfd is
-- readable, or the thread that queued a task is about to make it so.
pub no_lost_wakeup :
    {s : EventLoop} → Reach s → s.pc ≡ polling → s.tasks ≢ [] → (0 < s.waking) ⊎ (0 < s.counter)
no_lost_wakeup {s} r e n = polling-Awake s e n (Reach-Awake r)
