-- ===== src/LoopThread/Tests.antt =====
-- A destructor that is called at once.
use flux_a_high_performance.Prelude.{◌↔◌, refl}
use flux_a_high_performance.LoopThread.{constructed, set_loop, Steps, here, more, enter}
use flux_a_high_performance.LoopThread.Join.{Joins, destructor_lem}

entered : Steps constructed (set_loop constructed)
unfolding constructed
entered = more here (enter refl)

destructor_lem_example : Joins (set_loop constructed) ↔ ⊥
unfolding set_loop
destructor_lem_example = destructor_lem entered
