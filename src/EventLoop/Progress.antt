-- ===== src/EventLoop/Progress.antt =====
-- The loop's thread, left alone, runs every task of the queue.
use flux_a_high_performance.Prelude.{
  ◌≡◌, ◌≢◌, ◌⊎◌, inl, inr, refl, sym, ◌∙◌, true, List, [], ◌∷◌, ◌++◌, append-nil, arith,
}
use flux_a_high_performance.EventLoop.{
  Task, Active, event_channel, channel, Pc, polling, handling, running, finished, EventLoop,
  read_eventfd, swap_tasks, LoopStep, poll, handle_event_channel, handle_channel, swap, run, again,
  Reach, LoopSteps, done, more,
}
use flux_a_high_performance.EventLoop.Order.{InOrder, LoopStep-InOrder, Reach-InOrder}
use flux_a_high_performance.EventLoop.Wakeup.{Awake, LoopStep-Awake, Reach-Awake, polling-Awake}

List-cases : {A : Type 0} (xs : List A) → (xs ≡ []) ⊎ (xs ≢ [])
List-cases [] = inl refl
List-cases (x ∷ xs) = inr cc

trans : {s t u : EventLoop} → LoopSteps s t → LoopSteps t u → LoopSteps s u
trans p done = p
trans p (more q l) = more (trans p q) l

one : {s t : EventLoop} → LoopStep s t → LoopSteps s t
one l = more done l

LoopSteps-InOrder : {s t : EventLoop} → LoopSteps s t → InOrder s → InOrder t
LoopSteps-InOrder done h = h
LoopSteps-InOrder (more p l) h = LoopStep-InOrder l (LoopSteps-InOrder p h)

LoopSteps-Awake : {s t : EventLoop} → LoopSteps s t → Awake s → Awake t
LoopSteps-Awake done h = h
LoopSteps-Awake (more p l) h = LoopStep-Awake l (LoopSteps-Awake p h)

-- Steps that queue nothing and do not stop the loop.
record Quiet (s t : EventLoop) : Type 0 where
  steps : LoopSteps s t
  same_queued : t.queued ≡ s.queued
  same_waking : t.waking ≡ s.waking
  same_running : t.is_running ≡ s.is_running

Quiet-trans : {s t u : EventLoop} → Quiet s t → Quiet t u → Quiet s u
Quiet-trans p q = record {
  steps = trans p.steps q.steps;
  same_queued = q.same_queued ∙ p.same_queued;
  same_waking = q.same_waking ∙ p.same_waking;
  same_running = q.same_running ∙ p.same_running;
}

quiet :
    {s t : EventLoop}
    → LoopStep s t
    → t.queued ≡ s.queued
    → t.waking ≡ s.waking
    → t.is_running ≡ s.is_running
    → Quiet s t
quiet l q w r = record { steps = one l; same_queued = q; same_waking = w; same_running = r }

Quiet-refl : (s : EventLoop) → Quiet s s
Quiet-refl s = record { steps = done; same_queued = refl; same_waking = refl; same_running = refl }

-- The rest of RunAllTask.
run_all :
    (rest : List Task) (s : EventLoop)
    → s.pc ≡ running rest
    → s.is_running ≡ true
    → (t : EventLoop) × Quiet s t × (t.pc ≡ polling) × (t.tasks ≡ s.tasks)
run_all [] s e r = (record s { pc = polling }, quiet (again e r) refl refl refl, refl, refl)
run_all (cb ∷ rest) s e r =
    let s' = record s { pc = running rest; ran = s.ran ++ cb ∷ [] } in
    let (t, q, p, k) = run_all rest s' refl r in
    (t, Quiet-trans (quiet (run cb rest e) refl refl refl) q, p, k)

-- The rest of the events of this round.
handle_all :
    (rest : List Active) (s : EventLoop)
    → s.pc ≡ handling rest
    → (t : EventLoop) × Quiet s t × (t.pc ≡ handling [])
unfolding read_eventfd
handle_all [] s e = (s, Quiet-refl s, e)
handle_all (event_channel ∷ rest) s e =
    let s' = record (read_eventfd s) { pc = handling rest } in
    let (t, q, p) = handle_all rest s' refl in
    (t, Quiet-trans (quiet (handle_event_channel rest e) refl refl refl) q, p)
handle_all (channel fd ∷ rest) s e =
    let s' = record s { pc = handling rest } in
    let (t, q, p) = handle_all rest s' refl in
    (t, Quiet-trans (quiet (handle_channel fd rest e) refl refl refl) q, p)

-- The end of a round empties the queue.
finish_round :
    (rest : List Active) (s : EventLoop)
    → s.pc ≡ handling rest
    → s.is_running ≡ true
    → (t : EventLoop) × Quiet s t × (t.pc ≡ polling) × (t.tasks ≡ [])
unfolding swap_tasks
finish_round rest s e r =
    let (t, q, p) = handle_all rest s e in
    let (u, q', p', k) = run_all t.tasks (swap_tasks t) refl (q.same_running ∙ r) in
    (u, Quiet-trans q (Quiet-trans (quiet (swap p) refl refl refl) q'), p', k)

-- A round that starts in epoll_wait empties the queue.
round :
    (s : EventLoop)
    → Awake s
    → s.pc ≡ polling
    → s.is_running ≡ true
    → s.waking ≡ 0
    → (t : EventLoop) × Quiet s t × (t.pc ≡ polling) × (t.tasks ≡ [])
round s a e r w = elim (List-cases s.tasks) [
  | inl k ↦ (s, Quiet-refl s, e, k)
  | inr n ↦ elim (polling-Awake s e n a) [
    | inl h ↦ absurd (omega arith)
    | inr c ↦
        let s' = record s { pc = handling (event_channel ∷ []) } in
        let (t, q, p, k) = finish_round (event_channel ∷ []) s' refl r in
        (t, Quiet-trans (quiet (poll (event_channel ∷ []) e (c, tt)) refl refl refl) q, p, k)
  ]
]

-- From any point of a round.
drain :
    (pc : Pc) (s : EventLoop)
    → s.pc ≡ pc
    → Awake s
    → pc ≢ finished
    → s.is_running ≡ true
    → s.waking ≡ 0
    → (t : EventLoop) × Quiet s t × (t.pc ≡ polling) × (t.tasks ≡ [])
drain polling s e a n r w = round s a e r w
drain (handling rest) s e a n r w = finish_round rest s e r
drain (running rest) s e a n r w =
    let (t, q, p, k) = run_all rest s e r in
    let (u, q', p', k') =
      round t (LoopSteps-Awake q.steps a) p (q.same_running ∙ r) (q.same_waking ∙ w) in
    (u, Quiet-trans q q', p', k')
drain finished s e a n r w = absurd (n refl)

all_ran : (t : EventLoop) → InOrder t → t.pc ≡ polling → t.tasks ≡ [] → t.ran ≡ t.queued
all_ran t h p k = sym ((simp (p, k) at h) ∙ append-nil t.ran)

-- From every reachable state of a loop that runs, once the threads that queued a task have written to
-- the eventfd, the loop's thread alone can come back to epoll_wait with its queue empty and every
-- task that was queued run, in the order of the queue.
pub queue_drains :
    {s : EventLoop}
    → Reach s
    → s.pc ≢ finished
    → s.is_running ≡ true
    → s.waking ≡ 0
    → (t : EventLoop) × LoopSteps s t × (t.pc ≡ polling) × (t.tasks ≡ []) × (t.ran ≡ s.queued)
queue_drains {s} reach n r w =
    let (t, q, p, k) = drain s.pc s refl (Reach-Awake reach) n r w in
    (
      t,
      q.steps,
      p,
      k,
      all_ran t (LoopSteps-InOrder q.steps (Reach-InOrder reach)) p k ∙ q.same_queued,
    )
