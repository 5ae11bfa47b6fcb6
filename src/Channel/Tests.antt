-- ===== src/Channel/Tests.antt =====
-- A channel that is switched on and off.
use flux_a_high_performance.Prelude.{◌≡◌, true, false, [], ◌∷◌}
use flux_a_high_performance.Channel.{idle, read_able, write_able}
use flux_a_high_performance.Channel.Masks.{
  reads_on, writes_on, writes_off, changes, switch, switches, waits, changes_refine,
}

changes_refine_example :
    waits (changes (reads_on ∷ writes_on ∷ reads_on ∷ writes_off ∷ []) idle) ≡ (true, false)
unfolding switch switches read_able write_able
changes_refine_example = changes_refine (reads_on ∷ writes_on ∷ reads_on ∷ writes_off ∷ []) idle
