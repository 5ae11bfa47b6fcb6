-- ===== src/TimerWheel.antt =====
-- class TimerTask and class TimerWheel of source/Reactor/TimerWheel.hpp. A shared_ptr<TimerTask> is
-- the index of its task among all the tasks made so far. A task lives as long as the wheel holds a
-- pointer to it: the pointers elsewhere are locals of the methods, or weak. The callbacks are opaque:
-- `ran` lists the tasks whose callbacks have been called, the latest first. Release of a connection is the
-- callback that the library sets; it calls TimerCancel, which finds the weak pointer of a task that is being
-- destroyed expired and leaves the wheel as it is, as Refresh shows.
pub mod Slots
pub mod Tick
pub mod Schedule
pub mod Pushes
pub mod Timers
pub mod Refresh
mod Tests
use flux_a_high_performance.Prelude.{
  ℕ, zero, suc, ◌+◌, ◌%◌, ◌^◌, Bool, true, false, not, List, [], ◌∷◌, ◌++◌, Option, some, none,
  ◌==◌, ◌||◌, if◌then◌else◌, length, replicate,
}
use flux_a_high_performance.TimerWheel.Slots.{mem, slot, set_slot, owns}

pub record TimerTask : Type 0 where
  pub id : ℕ
  pub timeout : ℕ
  pub canceled : Bool

pub record TimerWheel : Type 0 where
  pub tick : ℕ
  pub wheel : List (List ℕ)
  pub timers : List (ℕ × ℕ)
  pub tasks : List TimerTask
  pub ran : List ℕ

abbrev pub capacity : ℕ
capacity = 60

abbrev pub fresh_wheel : TimerWheel
fresh_wheel = record { tick = 0; wheel = replicate capacity []; timers = []; tasks = []; ran = [] }

-- _tasks of the heap: the task at an address.
unfoldable pub task_at : ℕ → List TimerTask → Option TimerTask
task_at p [] = none
task_at zero (t ∷ ts) = some t
task_at (suc p) (t ∷ ts) = task_at p ts

pub cancel_at : ℕ → List TimerTask → List TimerTask
cancel_at p [] = []
cancel_at zero (t ∷ ts) = record t { canceled = true } ∷ ts
cancel_at (suc p) (t ∷ ts) = t ∷ cancel_at p ts

-- std::unordered_map of weak pointers: find, erase, and the assignment to operator[].
unfoldable pub find_timer : ℕ → List (ℕ × ℕ) → Option ℕ
find_timer id [] = none
find_timer id ((j, p) ∷ ts) = if j == id then some p else find_timer id ts

pub erase_timer : ℕ → List (ℕ × ℕ) → List (ℕ × ℕ)
erase_timer id [] = []
erase_timer id ((j, p) ∷ ts) =
    let rest = erase_timer id ts in if j == id then rest else (j, p) ∷ rest

pub assign_timer : ℕ → ℕ → List (ℕ × ℕ) → List (ℕ × ℕ)
unfolding erase_timer
assign_timer id p ts = (id, p) ∷ erase_timer id ts

pub is_exist_timer : TimerWheel → ℕ → Bool
unfolding find_timer
is_exist_timer w id = elim (find_timer id w.timers) [ none ↦ false | some p ↦ true ]

-- HasTimer has the same body.
unfoldable pub has_timer : TimerWheel → ℕ → Bool
unfolding find_timer
has_timer w id = elim (find_timer id w.timers) [ none ↦ false | some p ↦ true ]

pub remove_timer : TimerWheel → ℕ → TimerWheel
unfolding is_exist_timer
remove_timer w id = if is_exist_timer w id then record w { timers = erase_timer id w.timers } else w

-- The destructor of a task: its callback unless it was canceled, then its release callback.
pub destroyed : TimerWheel → ℕ → TimerTask → TimerWheel
unfolding remove_timer
destroyed w p t =
    if t.canceled then remove_timer w t.id else remove_timer (record w { ran = p ∷ w.ran }) t.id

pub destroy : TimerWheel → ℕ → TimerWheel
unfolding task_at destroyed
destroy w p = elim (task_at p w.tasks) [ none ↦ w | some t ↦ destroyed w p t ]

-- vector::clear of a slot that has been taken out of the wheel, from the front. A pointer destroys
-- its task when none is left, in this slot or in the wheel.
pub clear_slot : List ℕ → TimerWheel → TimerWheel
unfolding destroy
clear_slot [] w = w
clear_slot (p ∷ ps) w = clear_slot ps (if mem p ps || owns p w.wheel then w else destroy w p)

pub run_timer_task : TimerWheel → TimerWheel
unfolding clear_slot
run_timer_task w =
    let cleared =
      clear_slot (slot w.tick w.wheel) (record w { wheel = set_slot w.tick [] w.wheel }) in
    record cleared { tick = (w.tick + 1) % capacity }

-- `times` is what read gives for the timerfd.
pub on_time : TimerWheel → ℕ → TimerWheel
on_time w zero = w
on_time w (suc times) = on_time (run_timer_task w) times

-- (_tick + timeout) % _capacity, in uint32_t.
pub position : TimerWheel → ℕ → ℕ
position w timeout = ((w.tick + timeout) % 2 ^ 32) % capacity

-- _wheel[pos].push_back(pt);
pub push_back : ℕ → ℕ → List (List ℕ) → List (List ℕ)
push_back pos p wheel = set_slot pos (slot pos wheel ++ p ∷ []) wheel

unfoldable pub timer_add_in_loop : TimerWheel → ℕ → ℕ → TimerWheel
unfolding position push_back assign_timer
timer_add_in_loop w id timeout =
    let pt = length w.tasks in
    record w {
      tasks = w.tasks ++ record { id = id; timeout = timeout; canceled = false } ∷ [];
      wheel = push_back (position w timeout) pt w.wheel;
      timers = assign_timer id pt w.timers;
    }

-- weak_ptr::lock: the task, while the wheel holds it.
pub lock : TimerWheel → ℕ → Option TimerTask
unfolding task_at
lock w p = if owns p w.wheel then task_at p w.tasks else none

pub timer_refresh_in_loop : TimerWheel → ℕ → TimerWheel
unfolding find_timer lock
timer_refresh_in_loop w id = elim (find_timer id w.timers) [
  | none ↦ w
  | some p ↦ elim (lock w p) [
    | none ↦ record w { timers = erase_timer id w.timers }
    | some t ↦ record w { wheel = push_back (position w t.timeout) p w.wheel }
  ]
]

pub timer_cancel_in_loop : TimerWheel → ℕ → TimerWheel
unfolding find_timer lock cancel_at
timer_cancel_in_loop w id = elim (find_timer id w.timers) [
  | none ↦ w
  | some p ↦ elim (lock w p) [ none ↦ w | some t ↦ record w { tasks = cancel_at p w.tasks } ]
]
