-- ===== src/TimerWheel/Tick.antt =====
-- RunTimerTask: which tasks a tick destroys, and which callbacks it calls.
use flux_a_high_performance.Prelude.{
  ℕ, zero, suc, ◌+◌, ◌%◌, ◌≡◌, refl, sym, ap, ◌∙◌, Bool, true, false, not, List, [], ◌∷◌, ◌++◌,
  some, none, ◌==◌, ◌&&◌, ◌||◌, if◌then◌else◌, length, Bool-cases, inl, inr, arith,
}
use flux_a_high_performance.TimerWheel.Slots.{mem, count, slot, set_slot, owns}
use flux_a_high_performance.TimerWheel.{
  TimerTask, TimerWheel, task_at, cancel_at, remove_timer, destroyed, destroy, clear_slot,
  run_timer_task,
}

-- The callback of the task is called when it is destroyed.
pub loud : ℕ → List TimerTask → Bool
unfolding task_at
loud p tasks = elim (task_at p tasks) [ none ↦ false | some t ↦ not t.canceled ]

pub loud-snoc :
    (ts : List TimerTask) (t : TimerTask) → loud (length ts) (ts ++ t ∷ []) ≡ not t.canceled
unfolding loud task_at
loud-snoc [] t = refl
loud-snoc (x ∷ ts) t = loud-snoc ts t

pub loud-task_at :
    (p : ℕ) (ts : List TimerTask) (t : TimerTask)
    → task_at p ts ≡ some t
    → loud p ts ≡ not t.canceled
unfolding loud
loud-task_at p ts t h = rw (h, loud) refl

pub loud-cancel_at : (p : ℕ) (ts : List TimerTask) → loud p (cancel_at p ts) ≡ false
unfolding loud task_at cancel_at
loud-cancel_at p [] = refl
loud-cancel_at zero (t ∷ ts) = refl
loud-cancel_at (suc p) (t ∷ ts) = loud-cancel_at p ts

pub length-cancel_at : (p : ℕ) (ts : List TimerTask) → length (cancel_at p ts) ≡ length ts
unfolding cancel_at
length-cancel_at p [] = refl
length-cancel_at zero (t ∷ ts) = refl
length-cancel_at (suc p) (t ∷ ts) = ap suc (length-cancel_at p ts)

-- The parts of the wheel that the destruction of tasks leaves alone.
pub record Same (w w' : TimerWheel) : Type 0 where
  pub same_tick : w'.tick ≡ w.tick
  pub same_wheel : w'.wheel ≡ w.wheel
  pub same_tasks : w'.tasks ≡ w.tasks

destroy-Same : (w : TimerWheel) (p : ℕ) → Same w (destroy w p)
unfolding destroy destroyed remove_timer
destroy-Same w p = record {
  same_tick = ground arith;
  same_wheel = ground arith;
  same_tasks = ground arith;
}

destroy-ran :
    (w : TimerWheel) (p q : ℕ)
    → count q (destroy w p).ran ≡ count q w.ran + (if (p == q) && loud p w.tasks then 1 else 0)
unfolding destroy destroyed remove_timer loud count
destroy-ran w p q = ground arith

Same-trans : {w v u : TimerWheel} → Same w v → Same v u → Same w u
Same-trans s t = record {
  same_tick = t.same_tick ∙ s.same_tick;
  same_wheel = t.same_wheel ∙ s.same_wheel;
  same_tasks = t.same_tasks ∙ s.same_tasks;
}

released-Same : (w : TimerWheel) (p : ℕ) (b : Bool) → Same w (if b then w else destroy w p)
released-Same w p true = record { same_tick = refl; same_wheel = refl; same_tasks = refl }
released-Same w p false = destroy-Same w p

pub clear_slot-Same : (ps : List ℕ) (w : TimerWheel) → Same w (clear_slot ps w)
unfolding clear_slot
clear_slot-Same [] w = record { same_tick = refl; same_wheel = refl; same_tasks = refl }
clear_slot-Same (p ∷ ps) w =
    Same-trans (released-Same w p (mem p ps || owns p w.wheel)) (clear_slot-Same ps _)

-- How often a callback is called when a slot is cleared that the wheel does not hold any more.
clears : ℕ → List ℕ → TimerWheel → ℕ
clears q ps w = if mem q ps && not (owns q w.wheel) && loud q w.tasks then 1 else 0

clears-Same : (q : ℕ) (ps : List ℕ) {w w' : TimerWheel} → Same w w' → clears q ps w' ≡ clears q ps w
unfolding clears
clears-Same q ps s = rw (s.same_wheel, s.same_tasks) refl

released-ran :
    (w : TimerWheel) (p q : ℕ) (ps : List ℕ) (b : Bool)
    → (mem p ps || owns p w.wheel) ≡ b
    → count q (if b then w else destroy w p).ran + clears q ps w
      ≡ count q w.ran + clears q (p ∷ ps) w
unfolding clears mem
released-ran w p q ps true h = elim (Bool-cases (p == q)) [
  | inl t ↦
      let e : p ≡ q = ground arith in
      let k : (mem q ps || owns q w.wheel) ≡ true = rw (sym e) h in rw e (ground arith)
  | inr f ↦ rw f refl
]
released-ran w p q ps false h = elim (Bool-cases (p == q)) [
  | inl t ↦
      let e : p ≡ q = ground arith in
      let k : (mem q ps || owns q w.wheel) ≡ false = rw (sym e) h in
      rw e (ground (arith, destroy-ran w q q))
  | inr f ↦ ground (arith, destroy-ran w p q)
]

clear_slot-ran :
    (ps : List ℕ) (w : TimerWheel) (q : ℕ)
    → count q (clear_slot ps w).ran ≡ count q w.ran + clears q ps w
unfolding clear_slot clears mem
clear_slot-ran [] w q = omega arith
clear_slot-ran (p ∷ ps) w q =
    let b = mem p ps || owns p w.wheel in
    let w' = if b then w else destroy w p in
    omega (
      arith,
      clear_slot-ran ps w' q,
      clears-Same q ps (released-Same w p b),
      released-ran w p q ps b refl,
    )

-- The wheel that a tick leaves.
unfoldable pub emptied : TimerWheel → List (List ℕ)
emptied w = set_slot w.tick [] w.wheel

-- How often a tick calls the callback of a task.
unfoldable pub fires : ℕ → TimerWheel → ℕ
unfolding emptied
fires p w =
    if mem p (slot w.tick w.wheel) && not (owns p (emptied w)) && loud p w.tasks then 1 else 0

pub run_timer_task-tick : (w : TimerWheel) → (run_timer_task w).tick ≡ (w.tick + 1) % 60
unfolding run_timer_task
run_timer_task-tick w = refl

pub run_timer_task-wheel : (w : TimerWheel) → (run_timer_task w).wheel ≡ emptied w
unfolding run_timer_task emptied
run_timer_task-wheel w = (clear_slot-Same (slot w.tick w.wheel) _).same_wheel

pub run_timer_task-tasks : (w : TimerWheel) → (run_timer_task w).tasks ≡ w.tasks
unfolding run_timer_task
run_timer_task-tasks w = (clear_slot-Same (slot w.tick w.wheel) _).same_tasks

pub run_timer_task-ran :
    (w : TimerWheel) (p : ℕ) → count p (run_timer_task w).ran ≡ count p w.ran + fires p w
unfolding run_timer_task fires clears emptied
run_timer_task-ran w p = clear_slot-ran (slot w.tick w.wheel) _ p
