-- ===== src/Connection/Inactive.antt =====
-- The inactive release, switched off and on.
use flux_a_high_performance.Prelude.{ℕ, ◌+◌, ◌%◌, ◌^◌, ◌≤◌, ◌≡◌, refl, true, length, some}
use flux_a_high_performance.TimerWheel.{TimerTask, on_time, find_timer, task_at}
use flux_a_high_performance.TimerWheel.Slots.{count}
use flux_a_high_performance.TimerWheel.Schedule.{IsValid, DueIn}
use flux_a_high_performance.TimerWheel.Refresh.{has_timer-found, refresh_canceled}
use flux_a_high_performance.Connection.{Connection}
use flux_a_high_performance.Connection.Basics.{
  cancel_inactive_release_in_loop, enable_inactive_release_in_loop,
}

-- CancelInactiveRelease and then EnableInactiveRelease, while the first timer is in the wheel: the inactive release
-- is marked as enabled, but no timer is added, and the callback of the one in the wheel is never called.
pub cancel_then_enable :
    {X : Type 0} (c : Connection X) (sec n p d : ℕ) (t : TimerTask)
    → IsValid c.timer_wheel
    → find_timer c.conn_id c.timer_wheel.timers ≡ some p
    → task_at p c.timer_wheel.tasks ≡ some t
    → t.timeout + 60 ≤ 2 ^ 32
    → DueIn c.timer_wheel p d
    → d ≤ t.timeout % 60
    → let c' = enable_inactive_release_in_loop (cancel_inactive_release_in_loop c) sec in
      (c'.enable_inactive_release ≡ true)
      × (length c'.timer_wheel.tasks ≡ length c.timer_wheel.tasks)
      × (count p (on_time c'.timer_wheel n).ran ≡ count p c.timer_wheel.ran)
unfolding cancel_inactive_release_in_loop enable_inactive_release_in_loop
cancel_then_enable c sec n p d t v f h k u l =
    let (still, same, silent) = refresh_canceled n c.conn_id p d t v f h k u l in
    rw (has_timer-found c.timer_wheel c.conn_id p f, still) (refl, same, silent)
