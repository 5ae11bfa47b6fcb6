-- ===== src/TimerWheel/Schedule.antt =====
-- When a tick destroys a task: the schedule that the wheel implements.
use flux_a_high_performance.Prelude.{
  ℕ, suc, ◌+◌, ◌-◌, ◌%◌, ◌<◌, ◌≤◌, ◌≡◌, ◌≢◌, refl, ◌∙◌, true, false, List, [], ◌==◌, if◌then◌else◌,
  length, Bool-cases, inl, inr, ==_iff, arith,
}
use flux_a_high_performance.TimerWheel.Slots.{
  mem, count, slot, owns, slot-set_slot, length-set_slot, owns-slot, not-owns,
}
use flux_a_high_performance.TimerWheel.{fresh_wheel, TimerWheel, run_timer_task}
use flux_a_high_performance.TimerWheel.Tick.{
  loud, emptied, fires, run_timer_task-tick, run_timer_task-wheel, run_timer_task-tasks,
  run_timer_task-ran,
}

pub record IsValid (w : TimerWheel) : Type 0 where
  pub on_dial : w.tick < 60
  pub dial : length w.wheel ≡ 60
  pub unmade : (p : ℕ) → length w.tasks ≤ p → (owns p w.wheel ≡ false) × (count p w.ran ≡ 0)

pub fresh_wheel-IsValid : IsValid fresh_wheel
unfolding owns mem count
fresh_wheel-IsValid = record { on_dial = omega arith; dial = refl; unmade = λ p h. (refl, refl) }

-- The slot that is cleared `d` ticks after the next one.
unfoldable pub slot_in : ℕ → TimerWheel → List ℕ
slot_in d w = slot ((w.tick + d) % 60) w.wheel

-- The last pointer to the task stands in the slot that is cleared `d` ticks after the next one.
pub record DueIn (w : TimerWheel) (p d : ℕ) : Type 0 where
  pub soon : d < 60
  pub held : mem p (slot_in d w) ≡ true
  pub last : (e : ℕ) → d < e → e < 60 → mem p (slot_in e w) ≡ false

pub not-owns-slot : (p i : ℕ) (ss : List (List ℕ)) → owns p ss ≡ false → mem p (slot i ss) ≡ false
not-owns-slot p i ss h = elim (Bool-cases (mem p (slot i ss))) [
  | inl t ↦ absurd (ground (arith, owns-slot p i ss))
  | inr f ↦ f
]

slot-emptied :
    {w : TimerWheel} (i : ℕ)
    → IsValid w
    → slot i (emptied w) ≡ (if i == w.tick then [] else slot i w.wheel)
unfolding emptied
slot-emptied {w} i v = slot-set_slot i w.tick [] w.wheel (omega (arith, v.on_dial, v.dial))

length-emptied : {w : TimerWheel} → IsValid w → length (emptied w) ≡ 60
unfolding emptied
length-emptied {w} v = length-set_slot w.tick [] w.wheel ∙ v.dial

pub emptied-not-owns :
    {w : TimerWheel} (p : ℕ)
    → IsValid w
    → ((i : ℕ) → i < 60 → i ≢ w.tick → mem p (slot i w.wheel) ≡ false)
    → owns p (emptied w) ≡ false
unfolding mem
emptied-not-owns {w} p v h = not-owns p (emptied w) (λ i k. elim (Bool-cases (i == w.tick)) [
  | inl t ↦ rw (slot-emptied i v, t) refl
  | inr f ↦ rw (slot-emptied i v, f) (h i (omega (arith, length-emptied v)) (λ e. ground arith))
])

next-index : (t e : ℕ) → ((t + 1) % 60 + e) % 60 ≡ (t + suc e) % 60
next-index t e = omega arith

index-tick : (t e : ℕ) → t < 60 → e < 60 → ((t + suc e) % 60 == t) ≡ (e == 59)
index-tick t e h k = elim (Bool-cases (e == 59)) [
  | inl y ↦
      let d : (t + suc e) % 60 ≡ t = omega (arith, (==_iff e 59).0 y) in rw y ((==_iff _ t).1 d)
  | inr n ↦ ground arith
]

slot_in-run_timer_task :
    {w : TimerWheel} (e : ℕ)
    → IsValid w
    → e < 60
    → slot_in e (run_timer_task w) ≡ (if e == 59 then [] else slot_in (suc e) w)
unfolding slot_in
slot_in-run_timer_task {w} e v h = rw (
  run_timer_task-wheel w,
  run_timer_task-tick w,
  next-index w.tick e,
  slot-emptied ((w.tick + suc e) % 60) v,
  index-tick w.tick e v.on_dial h,
)

-- A tick leaves a valid wheel.
pub run_timer_task-IsValid : {w : TimerWheel} → IsValid w → IsValid (run_timer_task w)
unfolding fires
run_timer_task-IsValid {w} v = record {
  on_dial = rw (run_timer_task-tick w) (omega arith);
  dial = rw (run_timer_task-wheel w) (length-emptied v);
  unmade = λ p h.
      let u = v.unmade p (rw (run_timer_task-tasks w) at h) in
      let none_left : owns p (emptied w) ≡ false =
        emptied-not-owns p v (λ i k n. not-owns-slot p i w.wheel u.0) in
      (
        rw (run_timer_task-wheel w) none_left,
        rw (run_timer_task-ran w p, not-owns-slot p w.tick w.wheel u.0) (omega (arith, u.1)),
      );
}

-- A task that is due later stays, one tick nearer to its end.
pub due_later :
    {w : TimerWheel} {p d : ℕ} → IsValid w → DueIn w p (suc d) → DueIn (run_timer_task w) p d
unfolding mem
due_later {w} {p} {d} v u = record {
  soon = omega (arith, u.soon);
  held =
      let n : (d == 59) ≡ false = ground arith in
      rw (slot_in-run_timer_task d v (omega arith), n) u.held;
  last = λ e h k. elim (Bool-cases (e == 59)) [
    | inl y ↦ rw (slot_in-run_timer_task e v k, y) refl
    | inr n ↦ rw (slot_in-run_timer_task e v k, n) (u.last (suc e) (omega arith) (ground arith))
  ];
}

due_later-owns :
    {w : TimerWheel} {p d : ℕ} → IsValid w → DueIn w p (suc d) → owns p (emptied w) ≡ true
unfolding slot_in
due_later-owns {w} {p} {d} v u =
    let n : (d == 59) ≡ false = ground arith in
    owns-slot p ((w.tick + suc d) % 60) (emptied w) (
      rw (slot-emptied ((w.tick + suc d) % 60) v, index-tick w.tick d v.on_dial (omega arith), n)
        u.held)

pub due_later-fires : {w : TimerWheel} {p d : ℕ} → IsValid w → DueIn w p (suc d) → fires p w ≡ 0
unfolding fires
due_later-fires {w} {p} {d} v u = ground (arith, due_later-owns v u)

index-of : (t i : ℕ) → t < 60 → i < 60 → (t + (i + 60 - t) % 60) % 60 ≡ i
index-of t i h k = omega arith

due_now-elsewhere :
    {w : TimerWheel} {p : ℕ} (i : ℕ)
    → IsValid w
    → DueIn w p 0
    → i < 60
    → i ≢ w.tick
    → mem p (slot i w.wheel) ≡ false
unfolding slot_in
due_now-elsewhere {w} {p} i v u k n =
    let e = (i + 60 - w.tick) % 60 in
    let l : mem p (slot_in e w) ≡ false = u.last e (omega (arith, n)) (omega arith) in
    rw (index-of w.tick i v.on_dial k) at l

pub due_now-gone : {w : TimerWheel} {p : ℕ} → IsValid w → DueIn w p 0 → owns p (emptied w) ≡ false
due_now-gone {w} {p} v u = emptied-not-owns p v (λ i k n. due_now-elsewhere i v u k n)

pub due_now-fires :
    {w : TimerWheel} {p : ℕ}
    → IsValid w
    → DueIn w p 0
    → fires p w ≡ (if loud p w.tasks then 1 else 0)
unfolding fires slot_in
due_now-fires {w} {p} v u =
    let i : (w.tick + 0) % 60 ≡ w.tick = omega (arith, v.on_dial) in
    let h : mem p (slot w.tick w.wheel) ≡ true = rw i at u.held in rw (h, due_now-gone v u) refl
