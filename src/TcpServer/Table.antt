-- ===== src/TcpServer/Table.antt =====
-- The numbers of the connections, the loops they get, and how long the table holds them.
use flux_a_high_performance.Prelude.{
  ℕ, zero, suc, ◌+◌, ◌%◌, ◌<◌, ◌≤◌, ◌≡◌, refl, sym, ap, ◌∙◌, false, List, [], ◌∷◌, some,
  Option-cases, Bool-cases, inl, inr, ◌==◌, length, word, arith, All, get_elem?,
}
use native.Mathlib.Nat.{mod-add-mod}
use flux_a_high_performance.TcpServer.{
  Loop, loops, LoopThreadPool, next_loop, create_loops, create, Connection, TcpServer, has_conn,
  insert_conn, new_connection, release_in_loop, find_conn, Event, accepted, released, timer_task,
  handle, run, add_timer_task_in_loop,
}

-- The loop of the call after `n` others.
loop_after : ℕ → LoopThreadPool → Loop
unfolding next_loop
loop_after zero pool = (next_loop pool).0
loop_after (suc n) pool = loop_after n ((next_loop pool).1)

next-some :
    (pool : LoopThreadPool)
    → 0 < pool.thread_count
    → next_loop pool ≡ (
      loops ((pool.next_idx + 1) % pool.thread_count),
      record pool { next_idx = (pool.next_idx + 1) % pool.thread_count },
    )
unfolding next_loop
next-some pool h = let f : (pool.thread_count == 0) ≡ false = ground arith in rw f refl

create_loops-get : (i n k : ℕ) → k < n → get_elem? (create_loops i n) k ≡ some (loops (i + k))
unfolding create_loops
create_loops-get i zero k h = absurd (omega arith)
create_loops-get i (suc n) zero h = ap (λ j. some (loops j)) (omega arith)
create_loops-get i (suc n) (suc k) h =
    create_loops-get (suc i) n k (omega arith) ∙ ap (λ j. some (loops j)) (omega arith)

-- NextLoop takes a loop that Create has made.
pub next_loop-create :
    (pool : LoopThreadPool)
    → 0 < pool.thread_count
    → get_elem? (create pool) ((next_loop pool).1).next_idx ≡ some (next_loop pool).0
unfolding create
next_loop-create pool h = rw (next-some pool h) (
    create_loops-get 0 pool.thread_count ((pool.next_idx + 1) % pool.thread_count) (omega arith)
    ∙ ap (λ j. some (loops j)) (omega arith))

-- NextLoop hands out the loops in turn: of any `thread_count` calls in a row each loop gets one.
loop_after_lem :
    (n : ℕ) (pool : LoopThreadPool)
    → 0 < pool.thread_count
    → loop_after n pool ≡ loops ((pool.next_idx + 1 + n) % pool.thread_count)
unfolding loop_after next_loop
loop_after_lem zero pool h =
    rw (next-some pool h, loop_after) (ap (λ i. loops (i % pool.thread_count)) (omega arith))
loop_after_lem (suc n) pool h =
    let c = pool.thread_count in
    let idx = (pool.next_idx + 1) % c in
    rw (next-some pool h, loop_after)
      (loop_after_lem n (record pool { next_idx = idx }) h
        ∙ ap loops (ap (λ i. i % c) (omega arith) ∙ mod-add-mod (pool.next_idx + 1) c (suc n)))

-- Every number in the table has been given out, and no connection tells the server of its release.
pub record IsValid (s : TcpServer) : Type 0 where
  pub given : All (λ e. e.0 ≤ s.next_id) s.conns
  pub unheard : All (λ e. e.1.server_closed_callback ≡ false) s.conns

-- How many connections a history accepts.
unfoldable pub accepted_in : List Event → ℕ
accepted_in [] = 0
accepted_in (accepted fd ∷ es) = suc (accepted_in es)
accepted_in (released id ∷ es) = accepted_in es
accepted_in (timer_task timeout ∷ es) = accepted_in es

pub not-has_conn :
    (n : ℕ) (id : ℕ) (cs : List (ℕ × Connection))
    → All (λ e. e.0 ≤ n) cs
    → n < id
    → has_conn id cs ≡ false
unfolding has_conn
not-has_conn n id [] h k = refl
not-has_conn n id ((j, c) ∷ cs) h k =
    let f : (j == id) ≡ false = ground (arith, h.0) in rw f (not-has_conn n id cs (h.1) k)

All-le :
    (n m : ℕ) (cs : List (ℕ × Connection)) → n ≤ m → All (λ e. e.0 ≤ n) cs → All (λ e. e.0 ≤ m) cs
All-le n m [] h k = tt
All-le n m ((j, c) ∷ cs) h k = (omega (arith, k.0), All-le n m cs h (k.1))

-- What an event does to a valid server.
record Grown (s s' : TcpServer) (more : ℕ) : Type 0 where
  valid : IsValid s'
  counted : length s'.conns ≡ length s.conns + more
  numbered : s'.next_id ≤ s.next_id + 1

new_connection-Grown :
    (s : TcpServer) (fd : ℕ) → IsValid s → s.next_id + 1 < word → Grown s (new_connection s fd) 1
unfolding new_connection insert_conn
new_connection-Grown s fd v h =
    let id : (s.next_id + 1) % word ≡ s.next_id + 1 = omega arith in
    let fresh : has_conn (s.next_id + 1) s.conns ≡ false =
      not-has_conn s.next_id (s.next_id + 1) s.conns v.given (omega arith) in
    rw (id, fresh)
      (record {
        valid = record {
          given = (omega arith, All-le s.next_id (s.next_id + 1) s.conns (omega arith) v.given);
          unheard = (refl, v.unheard);
        };
        counted = omega arith;
        numbered = omega arith;
      })

found-unheard :
    (id : ℕ) (cs : List (ℕ × Connection)) (c : Connection)
    → All (λ e. e.1.server_closed_callback ≡ false) cs
    → find_conn id cs ≡ some c
    → c.server_closed_callback ≡ false
unfolding find_conn
found-unheard id [] c h e = absurd (ground arith)
found-unheard id ((j, d) ∷ cs) c h e = elim (Bool-cases (j == id)) [
  | inl t ↦ let same : d ≡ c = ground arith in rw (sym same) h.0
  | inr f ↦ found-unheard id cs c (h.1) (ground arith)
]

release-same : (s : TcpServer) (id : ℕ) → IsValid s → handle s (released id) ≡ s
unfolding handle release_in_loop
release-same s id v = elim (Option-cases (find_conn id s.conns)) [
  | inl e ↦ rw (e, handle) refl
  | inr (c, e) ↦
      let u : c.server_closed_callback ≡ false = found-unheard id s.conns c v.unheard e in
      rw (e, handle) (simp u)
]

stays :
    (s s' : TcpServer)
    → IsValid s
    → s'.conns ≡ s.conns
    → s.next_id ≤ s'.next_id
    → s'.next_id ≤ s.next_id + 1
    → Grown s s' 0
stays s s' v e l h = record {
  valid = record {
    given = rw e (All-le s.next_id s'.next_id s.conns l v.given);
    unheard = rw e v.unheard;
  };
  counted = ap length e ∙ omega arith;
  numbered = h;
}

handle-Grown :
    (s : TcpServer) (e : Event)
    → IsValid s
    → s.next_id + 1 < word
    → Grown s (handle s e) (accepted_in (e ∷ []))
unfolding handle add_timer_task_in_loop accepted_in
handle-Grown s (accepted fd) v h = new_connection-Grown s fd v h
handle-Grown s (released id) v h =
    rw (release-same s id v) (stays s s v refl (omega arith) (omega arith))
handle-Grown s (timer_task timeout) v h =
    let id : (s.next_id + 1) % word ≡ s.next_id + 1 = omega arith in
    rw id (stays s _ v refl (omega arith) (omega arith))

accepted_in-cons :
    (e : Event) (es : List Event) → accepted_in (e ∷ es) ≡ accepted_in (e ∷ []) + accepted_in es
unfolding accepted_in
accepted_in-cons (accepted fd) es = omega arith
accepted_in-cons (released id) es = omega arith
accepted_in-cons (timer_task timeout) es = omega arith

-- The table keeps every connection that was ever accepted, whichever of them are released, while the
-- numbers last.
pub run_conns :
    (es : List Event) (s : TcpServer)
    → IsValid s
    → s.next_id + length es < word
    → length (run s es).conns ≡ length s.conns + accepted_in es
unfolding run accepted_in
run_conns [] s v h = omega arith
run_conns (e ∷ es) s v h =
    let g = handle-Grown s e v (omega arith) in
    omega (
      arith,
      run_conns es (handle s e) g.valid (omega (arith, g.numbered)),
      g.counted,
      accepted_in-cons e es,
    )
