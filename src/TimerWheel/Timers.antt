-- ===== src/TimerWheel/Timers.antt =====
-- TimerAddInLoop, TimerRefreshInLoop and TimerCancelInLoop, followed by any number of ticks.
use flux_a_high_performance.Prelude.{
  ℕ, zero, suc, ◌+◌, ◌%◌, ◌^◌, ◌<◌, ◌≤◌, ◌≡◌, refl, ◌∙◌, true, false, [], ◌∷◌, ◌&&◌, if◌then◌else◌,
  length, ltb, arith, length-append,
}
use flux_a_high_performance.TimerWheel.Slots.{count, owns}
use flux_a_high_performance.TimerWheel.{
  TimerWheel, run_timer_task, on_time, position, timer_add_in_loop,
}
use flux_a_high_performance.TimerWheel.Tick.{
  loud, loud-snoc, fires, run_timer_task-tasks, run_timer_task-ran, run_timer_task-wheel,
}
use flux_a_high_performance.TimerWheel.Schedule.{
  IsValid, DueIn, slot_in, not-owns-slot, run_timer_task-IsValid, due_later, due_later-fires,
  due_now-fires, due_now-gone, emptied-not-owns,
}
use flux_a_high_performance.TimerWheel.Pushes.{
  Pushed, Pushed-DueIn, length-push_back, not-owns-push_back,
}

-- A task that the wheel does not hold stays silent.
gone-fires : (w : TimerWheel) (p : ℕ) → owns p w.wheel ≡ false → fires p w ≡ 0
unfolding fires
gone-fires w p h = rw (not-owns-slot p w.tick w.wheel h) refl

gone-stays :
    {w : TimerWheel} (p : ℕ)
    → IsValid w
    → owns p w.wheel ≡ false
    → owns p (run_timer_task w).wheel ≡ false
gone-stays {w} p v h =
    rw (run_timer_task-wheel w) (emptied-not-owns p v (λ i k n. not-owns-slot p i w.wheel h))

on_time-gone :
    (n : ℕ) {w : TimerWheel} (p : ℕ)
    → IsValid w
    → owns p w.wheel ≡ false
    → count p (on_time w n).ran ≡ count p w.ran
unfolding on_time
on_time-gone zero p v h = refl
on_time-gone (suc n) {w} p v h = omega (
  arith,
  on_time-gone n p (run_timer_task-IsValid v) (gone-stays p v h),
  run_timer_task-ran w p,
  gone-fires w p h,
)

-- The callback of a task is called once, at the tick after those that it is due in, unless it is
-- canceled; after any other number of ticks the count is what that says.
pub on_time_lem :
    (n : ℕ) {w : TimerWheel} (p d : ℕ)
    → IsValid w
    → DueIn w p d
    → count p (on_time w n).ran ≡ count p w.ran + (if ltb d n && loud p w.tasks then 1 else 0)
unfolding on_time
on_time_lem zero p d v u = ground arith
on_time_lem (suc n) {w} p zero v u =
    let g : owns p (run_timer_task w).wheel ≡ false =
      rw (run_timer_task-wheel w) (due_now-gone v u) in
    let t : ltb 0 (suc n) ≡ true = ground arith in
    rw (on_time-gone n p (run_timer_task-IsValid v) g, run_timer_task-ran w p, due_now-fires v u, t)
      refl
on_time_lem (suc n) {w} p (suc d) v u =
    let t : ltb (suc d) (suc n) ≡ ltb d n = ground arith in
    rw
      (
        on_time_lem n p d (run_timer_task-IsValid v) (due_later v u),
        run_timer_task-ran w p,
        due_later-fires v u,
        run_timer_task-tasks w,
        t,
      )
      (omega arith)

-- TimerAddInLoop.
pub position-lem :
    (w : TimerWheel) (timeout : ℕ)
    → w.tick < 60
    → timeout + 60 ≤ 2 ^ 32
    → position w timeout ≡ (w.tick + timeout % 60) % 60
unfolding position
position-lem w timeout h k = omega arith

add-Pushed :
    {w : TimerWheel} (id timeout : ℕ)
    → IsValid w
    → timeout + 60 ≤ 2 ^ 32
    → Pushed w (timer_add_in_loop w id timeout) (length w.tasks) (timeout % 60)
unfolding timer_add_in_loop
add-Pushed {w} id timeout v h = record {
  same_tick = refl;
  pushed = rw (position-lem w timeout v.on_dial h) refl;
}

pub push_back-IsValid :
    {w w' : TimerWheel} {p k : ℕ}
    → IsValid w
    → Pushed w w' p k
    → p < length w'.tasks
    → length w.tasks ≤ length w'.tasks
    → w'.ran ≡ w.ran
    → IsValid w'
push_back-IsValid {w} {w'} {p} {k} v s h l r = record {
  on_dial = rw s.same_tick v.on_dial;
  dial = rw s.pushed (length-push_back ((w.tick + k) % 60) p w.wheel ∙ v.dial);
  unmade = λ q m.
      let u = v.unmade q (omega arith) in
      (
        rw s.pushed (
            not-owns-push_back q ((w.tick + k) % 60) p w.wheel (omega (arith, v.dial))
              (λ e. omega arith) u.0),
        rw r u.1,
      );
}

length-add :
    (w : TimerWheel) (id timeout : ℕ)
    → length (timer_add_in_loop w id timeout).tasks ≡ length w.tasks + 1
unfolding timer_add_in_loop
length-add w id timeout =
    length-append w.tasks (record { id = id; timeout = timeout; canceled = false } ∷ [])

pub timer_add_in_loop-IsValid :
    {w : TimerWheel} (id timeout : ℕ)
    → IsValid w
    → timeout + 60 ≤ 2 ^ 32
    → IsValid (timer_add_in_loop w id timeout)
unfolding timer_add_in_loop
timer_add_in_loop-IsValid {w} id timeout v h =
    let l = length-add w id timeout in
    push_back-IsValid v (add-Pushed id timeout v h) (omega (arith, l)) (omega (arith, l)) refl

pub timer_add_in_loop-DueIn :
    {w : TimerWheel} (id timeout : ℕ)
    → IsValid w
    → timeout + 60 ≤ 2 ^ 32
    → DueIn (timer_add_in_loop w id timeout) (length w.tasks) (timeout % 60)
unfolding slot_in
timer_add_in_loop-DueIn {w} id timeout v h =
    Pushed-DueIn v (add-Pushed id timeout v h) (omega arith) (λ e k l.
      not-owns-slot (length w.tasks) ((w.tick + e) % 60) w.wheel
        (v.unmade (length w.tasks) (omega arith)).0)

-- From a valid wheel, the callback of a new timer is called exactly once, at the tick after
-- `timeout % 60` others, if the timeout is at least 60 below 2 ^ 32: a timeout below the 60 slots of
-- the wheel is waited for in full, and any other is called early.
pub timer_add_in_loop_lem :
    (n : ℕ) {w : TimerWheel} (id timeout : ℕ)
    → IsValid w
    → timeout + 60 ≤ 2 ^ 32
    → count (length w.tasks) (on_time (timer_add_in_loop w id timeout) n).ran
      ≡ (if ltb (timeout % 60) n then 1 else 0)
unfolding timer_add_in_loop
timer_add_in_loop_lem n {w} id timeout v h =
    rw
      (
        on_time_lem n (length w.tasks) (timeout % 60) (timer_add_in_loop-IsValid id timeout v h)
            (timer_add_in_loop-DueIn id timeout v h),
        loud-snoc w.tasks (record { id = id; timeout = timeout; canceled = false }),
        (v.unmade (length w.tasks) (omega arith)).1,
      )
      (ground arith)
