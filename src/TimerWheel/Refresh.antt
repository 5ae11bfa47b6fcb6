-- ===== src/TimerWheel/Refresh.antt =====
-- TimerRefreshInLoop and TimerCancelInLoop, followed by any number of ticks.
use flux_a_high_performance.Prelude.{
  ap, ℕ, zero, suc, List, [], ◌∷◌, ◌+◌, ◌%◌, ◌^◌, ◌<◌, ◌≤◌, ◌≡◌, ◌≢◌, refl, ◌∙◌, true, false, not,
  Option, none, some, ◌&&◌, if◌then◌else◌, length, ltb, arith,
}
use native.Mathlib.Decide.{dec_le}
use flux_a_high_performance.TimerWheel.Slots.{count, owns, owns-slot}
use flux_a_high_performance.TimerWheel.{
  TimerTask, TimerWheel, on_time, position, push_back, timer_refresh_in_loop, timer_cancel_in_loop,
  cancel_at, find_timer, has_timer, lock, task_at,
}
use flux_a_high_performance.TimerWheel.Tick.{loud-task_at, loud-cancel_at, length-cancel_at}
use flux_a_high_performance.TimerWheel.Schedule.{IsValid, DueIn, slot_in}
use flux_a_high_performance.TimerWheel.Pushes.{Pushed, Pushed-DueIn, Pushed-others}
use flux_a_high_performance.TimerWheel.Timers.{on_time_lem, push_back-IsValid, position-lem}

due-owns : {w : TimerWheel} {p d : ℕ} → DueIn w p d → owns p w.wheel ≡ true
unfolding slot_in
due-owns {w} {p} {d} u = owns-slot p ((w.tick + d) % 60) w.wheel u.held

due-made : {w : TimerWheel} {p d : ℕ} → IsValid w → DueIn w p d → p < length w.tasks
due-made {w} {p} v u = elim (dec_le (length w.tasks) p) [
  | yes h ↦ absurd (ground (arith, (v.unmade p h).0, due-owns u))
  | no h ↦ omega arith
]

lock-due : {w : TimerWheel} {p d : ℕ} → DueIn w p d → lock w p ≡ task_at p w.tasks
unfolding lock
lock-due {w} {p} u = rw (due-owns u) refl

abbrev refreshed : TimerWheel → ℕ → TimerTask → TimerWheel
refreshed w p t = record w { wheel = push_back (position w t.timeout) p w.wheel }

refresh-found :
    {w : TimerWheel} {d : ℕ} (id p : ℕ) (t : TimerTask)
    → find_timer id w.timers ≡ some p
    → task_at p w.tasks ≡ some t
    → DueIn w p d
    → timer_refresh_in_loop w id ≡ refreshed w p t
unfolding timer_refresh_in_loop
refresh-found {w} id p t f h u =
    let l : lock w p ≡ some t = lock-due u ∙ h in simp (f, l, timer_refresh_in_loop)

refreshed-Pushed :
    (w : TimerWheel) (p : ℕ) (t : TimerTask)
    → IsValid w
    → t.timeout + 60 ≤ 2 ^ 32
    → Pushed w (refreshed w p t) p (t.timeout % 60)
refreshed-Pushed w p t v h = record {
  same_tick = refl;
  pushed = rw (position-lem w t.timeout v.on_dial h) refl;
}

-- A refresh puts a timer off that is due within `timeout % 60` ticks: from then on it is called, unless it
-- is canceled, at the tick after `timeout % 60` others, and not at the tick that it was due at before. The
-- other tasks stay due as they were.
pub timer_refresh_in_loop_lem :
    (n : ℕ) {w : TimerWheel} (id p d : ℕ) (t : TimerTask)
    → IsValid w
    → find_timer id w.timers ≡ some p
    → task_at p w.tasks ≡ some t
    → t.timeout + 60 ≤ 2 ^ 32
    → DueIn w p d
    → d ≤ t.timeout % 60
    → (count p (on_time (timer_refresh_in_loop w id) n).ran
        ≡ count p w.ran + (if ltb (t.timeout % 60) n && not t.canceled then 1 else 0))
      × ((q e : ℕ) → p ≢ q → DueIn w q e → DueIn (timer_refresh_in_loop w id) q e)
timer_refresh_in_loop_lem n {w} id p d t v f h k u l =
    let s = refreshed-Pushed w p t v k in
    let v' : IsValid (refreshed w p t) = push_back-IsValid v s (due-made v u) (omega arith) refl in
    let u' : DueIn (refreshed w p t) p (t.timeout % 60) =
      Pushed-DueIn v s (omega arith) (λ e a b. u.last e (omega arith) b) in
    rw (refresh-found id p t f h u) (
      rw (on_time_lem n p (t.timeout % 60) v' u', loud-task_at p w.tasks t h) refl,
      λ q e m x. Pushed-others q e v s (omega arith) m x,
    )

abbrev silenced : TimerWheel → ℕ → TimerWheel
silenced w p = record w { tasks = cancel_at p w.tasks }

cancel-found :
    {w : TimerWheel} {d : ℕ} (id p : ℕ) (t : TimerTask)
    → find_timer id w.timers ≡ some p
    → task_at p w.tasks ≡ some t
    → DueIn w p d
    → timer_cancel_in_loop w id ≡ silenced w p
unfolding timer_cancel_in_loop
cancel-found {w} id p t f h u =
    let l : lock w p ≡ some t = lock-due u ∙ h in simp (f, l, timer_cancel_in_loop)

silenced-IsValid : {w : TimerWheel} (p : ℕ) → IsValid w → IsValid (silenced w p)
silenced-IsValid {w} p v = record {
  on_dial = v.on_dial;
  dial = v.dial;
  unmade = λ q m. v.unmade q (rw (length-cancel_at p w.tasks) at m);
}

-- A canceled timer is never called.
pub timer_cancel_in_loop_lem :
    (n : ℕ) {w : TimerWheel} (id p d : ℕ) (t : TimerTask)
    → IsValid w
    → find_timer id w.timers ≡ some p
    → task_at p w.tasks ≡ some t
    → DueIn w p d
    → count p (on_time (timer_cancel_in_loop w id) n).ran ≡ count p w.ran
unfolding slot_in
timer_cancel_in_loop_lem n {w} id p d t v f h u =
    let u' : DueIn (silenced w p) p d = record { soon = u.soon; held = u.held; last = u.last } in
    rw (cancel-found id p t f h u)
      (rw (on_time_lem n p d (silenced-IsValid p v) u', loud-cancel_at p w.tasks) (ground arith))

canceled_task : Option TimerTask → Option TimerTask
canceled_task none = none
canceled_task (some t) = some (record t { canceled = true })

pub task_at-cancel_at :
    (p : ℕ) (ts : List TimerTask) (t : TimerTask)
    → task_at p ts ≡ some t
    → task_at p (cancel_at p ts) ≡ some (record t { canceled = true })
unfolding task_at cancel_at canceled_task
task_at-cancel_at p [] t h = cc
task_at-cancel_at zero (s ∷ ts) t h = ap canceled_task h
task_at-cancel_at (suc p) (s ∷ ts) t h = task_at-cancel_at p ts t h

pub has_timer-found :
    (w : TimerWheel) (id p : ℕ) → find_timer id w.timers ≡ some p → has_timer w id ≡ true
unfolding has_timer
has_timer-found w id p f = rw (f, has_timer) refl

-- A refresh of a timer that was canceled does not bring it back: it is never called, and no task is
-- made in its place.
pub refresh_canceled :
    (n : ℕ) {w : TimerWheel} (id p d : ℕ) (t : TimerTask)
    → IsValid w
    → find_timer id w.timers ≡ some p
    → task_at p w.tasks ≡ some t
    → t.timeout + 60 ≤ 2 ^ 32
    → DueIn w p d
    → d ≤ t.timeout % 60
    → let w' = timer_cancel_in_loop w id in
      (has_timer w' id ≡ true)
      × (length (timer_refresh_in_loop w' id).tasks ≡ length w.tasks)
      × (count p (on_time (timer_refresh_in_loop w' id) n).ran ≡ count p w.ran)
unfolding slot_in
refresh_canceled n {w} id p d t v f h k u l =
    let t' = record t { canceled = true } in
    let u' : DueIn (silenced w p) p d = record { soon = u.soon; held = u.held; last = u.last } in
    let h' = task_at-cancel_at p w.tasks t h in
    rw (cancel-found id p t f h u) (
      has_timer-found (silenced w p) id p f,
      rw (refresh-found id p t' f h' u') (length-cancel_at p w.tasks),
      (timer_refresh_in_loop_lem n id p d t' (silenced-IsValid p v) f h' k u' l).0 ∙ ground arith,
    )

-- TimerCancel of a task that the wheel no longer holds, as the callback of a task calls it when the task is
-- destroyed, changes nothing.
cancel_expired :
    (w : TimerWheel) (id p : ℕ)
    → find_timer id w.timers ≡ some p
    → owns p w.wheel ≡ false
    → timer_cancel_in_loop w id ≡ w
unfolding timer_cancel_in_loop lock
cancel_expired w id p f gone =
    let expired : lock w p ≡ none = rw gone refl in rw (timer_cancel_in_loop, f, expired) refl
