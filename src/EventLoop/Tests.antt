-- ===== src/EventLoop/Tests.antt =====
-- Another thread queues a task and wakes the loop.
use flux_a_high_performance.Prelude.{◌<◌, ◌≡◌, ◌≢◌, ◌⊎◌, refl, false, [], ◌∷◌, arith}
use flux_a_high_performance.EventLoop.{
  polling, finished, EventLoop, started, push_task, wake_up_event_fd, run_in_loop, request, wake,
  Reach, start, next, LoopSteps,
}
use flux_a_high_performance.EventLoop.Order.{Reach-InOrder}
use flux_a_high_performance.EventLoop.Wakeup.{no_lost_wakeup}
use flux_a_high_performance.EventLoop.Progress.{queue_drains}

abbrev pushed : EventLoop
pushed = run_in_loop false started 7

abbrev woken : EventLoop
woken = wake_up_event_fd pushed

pushed-Reach : Reach pushed
pushed-Reach = next start (request false 7)

woken-Reach : Reach woken
unfolding run_in_loop push_task
woken-Reach = next pushed-Reach (wake (omega arith) (omega arith))

woken-tasks : woken.tasks ≢ []
unfolding wake_up_event_fd run_in_loop push_task
woken-tasks = cc

not_finished : woken.pc ≢ finished
unfolding wake_up_event_fd run_in_loop push_task
not_finished = cc

Reach-InOrder_example : woken.queued ≡ 7 ∷ []
unfolding wake_up_event_fd run_in_loop push_task
Reach-InOrder_example = Reach-InOrder woken-Reach

no_lost_wakeup_example : (0 < woken.waking) ⊎ (0 < woken.counter)
unfolding wake_up_event_fd run_in_loop push_task
no_lost_wakeup_example = no_lost_wakeup woken-Reach refl woken-tasks

queue_drains_example :
    (t : EventLoop) × LoopSteps woken t × (t.pc ≡ polling) × (t.tasks ≡ []) × (t.ran ≡ 7 ∷ [])
unfolding wake_up_event_fd run_in_loop push_task
queue_drains_example = queue_drains woken-Reach not_finished refl refl
