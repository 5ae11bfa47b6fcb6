-- ===== src/TimerWheel/Tests.antt =====
-- A wheel with one timer of 5 seconds, and the theorems at it.
use flux_a_high_performance.Prelude.{
  ℕ, ◌+◌, ◌%◌, ◌≡◌, ◌≢◌, refl, false, not, ◌&&◌, ltb, if◌then◌else◌, arith,
}
use flux_a_high_performance.TimerWheel.Slots.{count}
use flux_a_high_performance.TimerWheel.{
  TimerTask, TimerWheel, fresh_wheel, on_time, timer_add_in_loop, timer_refresh_in_loop,
  timer_cancel_in_loop, find_timer, task_at, run_timer_task,
}
use flux_a_high_performance.TimerWheel.Tick.{loud}
use flux_a_high_performance.TimerWheel.Schedule.{
  IsValid, fresh_wheel-IsValid, DueIn, run_timer_task-IsValid, due_later,
}
use flux_a_high_performance.TimerWheel.Timers.{
  on_time_lem, timer_add_in_loop-IsValid, timer_add_in_loop-DueIn, timer_add_in_loop_lem,
}
use flux_a_high_performance.TimerWheel.Refresh.{timer_refresh_in_loop_lem, timer_cancel_in_loop_lem}

abbrev timer : TimerTask
timer = record { id = 7; timeout = 5; canceled = false }

abbrev with_timer : TimerWheel
with_timer = timer_add_in_loop fresh_wheel 7 5

with_timer-IsValid : IsValid with_timer
with_timer-IsValid = timer_add_in_loop-IsValid 7 5 fresh_wheel-IsValid (omega arith)

with_timer-DueIn : DueIn with_timer 0 5
with_timer-DueIn = timer_add_in_loop-DueIn 7 5 fresh_wheel-IsValid (omega arith)

-- Two ticks later.
abbrev later : TimerWheel
later = run_timer_task (run_timer_task with_timer)

later-IsValid : IsValid later
later-IsValid = run_timer_task-IsValid (run_timer_task-IsValid with_timer-IsValid)

later-DueIn : DueIn later 0 3
later-DueIn =
    due_later (run_timer_task-IsValid with_timer-IsValid)
      (due_later with_timer-IsValid with_timer-DueIn)

-- A timer of 60 seconds is called at the first tick.
timer_add_in_loop_lem_example : count 0 (on_time (timer_add_in_loop fresh_wheel 7 60) 1).ran ≡ 1
timer_add_in_loop_lem_example = timer_add_in_loop_lem 1 7 60 fresh_wheel-IsValid (omega arith)

on_time_lem_example :
    count 0 (on_time later 4).ran
    ≡ count 0 later.ran + (if ltb 3 4 && loud 0 later.tasks then 1 else 0)
on_time_lem_example = on_time_lem 4 0 3 later-IsValid later-DueIn

timer_refresh_in_loop_lem_example :
    (count 0 (on_time (timer_refresh_in_loop with_timer 7) 6).ran
      ≡ count 0 with_timer.ran + (if ltb (5 % 60) 6 && not false then 1 else 0))
    × ((q e : ℕ) → 0 ≢ q → DueIn with_timer q e → DueIn (timer_refresh_in_loop with_timer 7) q e)
unfolding timer_add_in_loop find_timer task_at
timer_refresh_in_loop_lem_example =
    timer_refresh_in_loop_lem 6 7 0 5 timer with_timer-IsValid refl refl (omega arith)
      with_timer-DueIn (omega arith)

timer_cancel_in_loop_lem_example :
    count 0 (on_time (timer_cancel_in_loop with_timer 7) 9).ran ≡ count 0 with_timer.ran
unfolding timer_add_in_loop find_timer task_at
timer_cancel_in_loop_lem_example =
    timer_cancel_in_loop_lem 9 7 0 5 timer with_timer-IsValid refl refl with_timer-DueIn
