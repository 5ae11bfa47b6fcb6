-- ===== src/EventLoop/Order.antt =====
-- The queue's tasks run once each, in the order in which they were queued.
use flux_a_high_performance.Prelude.{
  ◌≡◌, refl, sym, ap, ◌∙◌, Bool, true, false, List, [], ◌∷◌, ◌++◌, append-nil, append_assoc,
}
use flux_a_high_performance.EventLoop.{
  Task, Pc, polling, handling, running, finished, EventLoop, wake_up_event_fd, read_eventfd, stop,
  run_in_loop, swap_tasks, LoopStep, poll, handle_event_channel, handle_channel, swap, run, again,
  leave, Step, loop, request, wake, stop_request, Reach, start, next,
}

-- The tasks that RunAllTask has taken and not run.
abbrev pub batch : Pc → List Task
batch polling = []
batch (handling _) = []
batch (running rest) = rest
batch finished = []

-- The tasks queued so far are those that have run, those taken and those in the queue, in this order.
abbrev pub InOrder : EventLoop → Type 0
InOrder s = s.queued ≡ s.ran ++ (batch s.pc ++ s.tasks)

pub LoopStep-InOrder : {s t : EventLoop} → LoopStep s t → InOrder s → InOrder t
unfolding read_eventfd swap_tasks
LoopStep-InOrder {s} (poll actives e k) h = simp e at h
LoopStep-InOrder {s} (handle_event_channel rest e) h = simp e at h
LoopStep-InOrder {s} (handle_channel fd rest e) h = simp e at h
LoopStep-InOrder {s} (swap e) h = (simp e at h) ∙ ap (λ ts. s.ran ++ ts) (sym (append-nil s.tasks))
LoopStep-InOrder {s} (run cb rest e) h =
    (simp e at h) ∙ sym (append_assoc s.ran (cb ∷ []) (rest ++ s.tasks))
LoopStep-InOrder {s} (again e r) h = simp e at h
LoopStep-InOrder {s} (leave e r) h = simp e at h

request-InOrder :
    (in_loop : Bool) (s : EventLoop) (cb : Task) → InOrder s → InOrder (run_in_loop in_loop s cb)
unfolding run_in_loop
request-InOrder true s cb h = h
request-InOrder false s cb h =
    ap (λ ts. ts ++ cb ∷ []) h
    ∙ append_assoc s.ran (batch s.pc ++ s.tasks) (cb ∷ [])
    ∙ ap (λ ts. s.ran ++ ts) (append_assoc (batch s.pc) s.tasks (cb ∷ []))

Step-InOrder : {s t : EventLoop} → Step s t → InOrder s → InOrder t
unfolding wake_up_event_fd stop
Step-InOrder (loop l) h = LoopStep-InOrder l h
Step-InOrder {s} (request in_loop cb) h = request-InOrder in_loop s cb h
Step-InOrder (wake w c) h = h
Step-InOrder stop_request h = h

-- In every reachable state the tasks that were ever queued are, in the order of the queue, those that
-- have run, those that RunAllTask has taken, and those in the queue: none is lost, and none runs twice.
pub Reach-InOrder : {s : EventLoop} → Reach s → InOrder s
Reach-InOrder start = refl
Reach-InOrder (next r st) = Step-InOrder st (Reach-InOrder r)
