-- ===== src/LoopThread/Join.antt =====
-- When the destructor of LoopThread returns.
use flux_a_high_performance.Prelude.{
  ◌≡◌, ◌↔◌, ◌⊎◌, inl, inr, refl, sym, ◌∙◌, Bool, true, false, Bool-cases,
}
use flux_a_high_performance.LoopThread.{
  ThreadPc, entering, starting, looping, ended, joining, joined, LoopThread, constructed, set_loop,
  start_loop, reset_loop, stop_loop, destroy, Step, enter, start, finish, stop, destruct, join,
  Steps, here, more,
}

-- _loop is set while the loop exists.
abbrev LoopExists : ThreadPc → Bool → Type 0
LoopExists entering set = set ≡ false
LoopExists starting set = set ≡ true
LoopExists looping set = set ≡ true
LoopExists ended set = set ≡ false

destroy-loop_set : (s : LoopThread) → (destroy s).loop_set ≡ s.loop_set
unfolding destroy stop_loop
destroy-loop_set s = elim (Bool-cases s.loop_set) [ inl e ↦ simp e | inr e ↦ simp e ]

destroy-thread : (s : LoopThread) → (destroy s).thread ≡ s.thread
unfolding destroy stop_loop
destroy-thread s = elim (Bool-cases s.loop_set) [ inl e ↦ simp e | inr e ↦ simp e ]

Step-LoopExists :
    {s t : LoopThread} → Step s t → LoopExists s.thread s.loop_set → LoopExists t.thread t.loop_set
unfolding set_loop start_loop reset_loop stop_loop
Step-LoopExists (enter e) h = refl
Step-LoopExists (start e) h = simp e at h
Step-LoopExists (finish e r) h = refl
Step-LoopExists (stop o l) h = h
Step-LoopExists {s} (destruct o) h = rw (destroy-thread s, destroy-loop_set s) h
Step-LoopExists (join o e) h = h

Steps-LoopExists :
    {s t : LoopThread} → Steps s t → LoopExists s.thread s.loop_set → LoopExists t.thread t.loop_set
Steps-LoopExists here h = h
Steps-LoopExists (more p st) h = Step-LoopExists st (Steps-LoopExists p h)

-- The thread has not started its loop, or runs it with the flag set.
abbrev Unfinished : ThreadPc → Bool → Type 0
Unfinished entering r = Unit
Unfinished starting r = Unit
Unfinished looping r = r ≡ true
Unfinished ended r = ⊥

abbrev Hangs : LoopThread → Type 0
Hangs s = (s.owner ≡ joining) × Unfinished s.thread s.is_running

Step-Hangs : {s t : LoopThread} → Step s t → Hangs s → Hangs t
unfolding set_loop start_loop reset_loop
Step-Hangs (enter e) (o, u) = (o, tt)
Step-Hangs (start e) (o, u) = (o, refl)
Step-Hangs (finish e r) (o, u) = absurd (cc (simp e at u))
Step-Hangs (stop o' l) (o, u) = absurd (cc (sym o ∙ o'))
Step-Hangs (destruct o') (o, u) = absurd (cc (sym o ∙ o'))
Step-Hangs (join o' e) (o, u) = absurd (simp e at u)

Steps-Hangs : {s t : LoopThread} → Steps s t → Hangs s → Hangs t
Steps-Hangs here h = h
Steps-Hangs (more p st) h = Step-Hangs st (Steps-Hangs p h)

-- Start has run.
abbrev pub Started : ThreadPc → Type 0
Started entering = ⊥
Started starting = ⊥
Started looping = Unit
Started ended = Unit

-- The destructor gets through.
abbrev pub Joins : LoopThread → Type 0
Joins s = (t : LoopThread) × Steps (destroy s) t × (t.owner ≡ joined)

destroy-owner : (s : LoopThread) → (destroy s).owner ≡ joining
unfolding destroy
destroy-owner s = refl

not-Started : (pc : ThreadPc) (r : Bool) → ¬ Started pc → Unfinished pc r
not-Started entering r n = tt
not-Started starting r n = tt
not-Started looping r n = absurd (n tt)
not-Started ended r n = absurd (n tt)

Started-cases : (pc : ThreadPc) → Started pc ⊎ (¬ Started pc)
Started-cases entering = inr (λ b. b)
Started-cases starting = inr (λ b. b)
Started-cases looping = inl tt
Started-cases ended = inl tt

Joins-Started : (s : LoopThread) → Joins s → Started s.thread
Joins-Started s (t, p, j) = elim (Started-cases s.thread) [
  | inl y ↦ y
  | inr n ↦
      let h : Hangs (destroy s) =
        (destroy-owner s, rw (destroy-thread s) (not-Started s.thread (destroy s).is_running n)) in
      absurd (cc (sym (Steps-Hangs p h).0 ∙ j))
]

-- A loop that is stopped while it runs.
destroy-stops : (s : LoopThread) → s.loop_set ≡ true → (destroy s).is_running ≡ false
unfolding destroy stop_loop
destroy-stops s e = simp e

Started-Joins :
    (pc : ThreadPc) (s : LoopThread)
    → s.thread ≡ pc
    → LoopExists pc s.loop_set
    → Started pc
    → Joins s
unfolding reset_loop
Started-Joins looping s e l y =
    let d = destroy s in
    let p : Steps d (reset_loop d) =
      more here (finish (destroy-thread s ∙ e) (destroy-stops s l)) in
    (record (reset_loop d) { owner = joined }, more p (join (destroy-owner s) refl), refl)
Started-Joins ended s e l y = (
  record (destroy s) { owner = joined },
  more here (join (destroy-owner s) (destroy-thread s ∙ e)),
  refl,
)
Started-Joins entering s e l y = absurd y
Started-Joins starting s e l y = absurd y

-- The destructor of a LoopThread can return exactly if EventLoop::Start has set its flag before: called earlier,
-- it waits in join for ever, since Start sets the flag that Stop has cleared, or Stop is not called at
-- all.
pub destructor_lem : {s : LoopThread} → Steps constructed s → Joins s ↔ Started s.thread
unfolding constructed
destructor_lem {s} p = (Joins-Started s, Started-Joins s.thread s refl (Steps-LoopExists p refl))
