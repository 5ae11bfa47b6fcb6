-- ===== src/Channel/Masks.antt =====
-- The enabling and disabling of read and write events are independent.
use flux_a_high_performance.Prelude.{ℕ, ◌≡◌, refl, Bool, true, false, arith, ◌∙◌, ap, List, [], ◌∷◌}
use flux_a_high_performance.Channel.{
  Channel, epollin, epollpri, epollout, epollrdhup, has_flag, set_flag, clear_flag, read_able,
  write_able, enable_read, enable_write, disable_read, disable_write, disable_all, set_r_events,
}

set_in-in : (m : ℕ) → has_flag epollin (set_flag epollin m) ≡ true
unfolding set_flag
set_in-in m = ground arith

set_in-out : (m : ℕ) → has_flag epollout (set_flag epollin m) ≡ has_flag epollout m
unfolding set_flag
set_in-out m = ground arith

set_pri-out : (m : ℕ) → has_flag epollout (set_flag epollpri m) ≡ has_flag epollout m
unfolding set_flag
set_pri-out m = ground arith

set_out-in : (m : ℕ) → has_flag epollin (set_flag epollout m) ≡ has_flag epollin m
unfolding set_flag
set_out-in m = ground arith

set_out-out : (m : ℕ) → has_flag epollout (set_flag epollout m) ≡ true
unfolding set_flag
set_out-out m = ground arith

set_rdhup-out : (m : ℕ) → has_flag epollout (set_flag epollrdhup m) ≡ has_flag epollout m
unfolding set_flag
set_rdhup-out m = ground arith

clear_in-in : (m : ℕ) → has_flag epollin (clear_flag epollin m) ≡ false
unfolding clear_flag
clear_in-in m = ground arith

clear_in-out : (m : ℕ) → has_flag epollout (clear_flag epollin m) ≡ has_flag epollout m
unfolding clear_flag
clear_in-out m = ground arith

clear_pri-out : (m : ℕ) → has_flag epollout (clear_flag epollpri m) ≡ has_flag epollout m
unfolding clear_flag
clear_pri-out m = ground arith

clear_out-in : (m : ℕ) → has_flag epollin (clear_flag epollout m) ≡ has_flag epollin m
unfolding clear_flag
clear_out-in m = ground arith

clear_out-out : (m : ℕ) → has_flag epollout (clear_flag epollout m) ≡ false
unfolding clear_flag
clear_out-out m = ground arith

clear_rdhup-out : (m : ℕ) → has_flag epollout (clear_flag epollrdhup m) ≡ has_flag epollout m
unfolding clear_flag
clear_rdhup-out m = ground arith

pub enable_read_lem :
    (c : Channel) → (read_able (enable_read c) ≡ true) × (write_able (enable_read c) ≡ write_able c)
unfolding enable_read read_able write_able
enable_read_lem c =
    let m = set_flag epollrdhup (set_flag epollpri c.events) in
    (set_in-in m, set_in-out m ∙ set_rdhup-out (set_flag epollpri c.events) ∙ set_pri-out c.events)

disable_read_lem :
    (c : Channel)
    → (read_able (disable_read c) ≡ false) × (write_able (disable_read c) ≡ write_able c)
unfolding disable_read read_able write_able
disable_read_lem c =
    let m = clear_flag epollrdhup (clear_flag epollpri c.events) in
    (
      clear_in-in m,
      clear_in-out m ∙ clear_rdhup-out (clear_flag epollpri c.events) ∙ clear_pri-out c.events,
    )

pub enable_write_lem :
    (c : Channel)
    → (write_able (enable_write c) ≡ true) × (read_able (enable_write c) ≡ read_able c)
unfolding enable_write read_able write_able
enable_write_lem c = (set_out-out c.events, set_out-in c.events)

disable_write_lem :
    (c : Channel)
    → (write_able (disable_write c) ≡ false) × (read_able (disable_write c) ≡ read_able c)
unfolding disable_write read_able write_able
disable_write_lem c = (clear_out-out c.events, clear_out-in c.events)

pub set_r_events-write_able :
    (c : Channel) (revents : ℕ) → write_able (set_r_events c revents) ≡ write_able c
unfolding set_r_events write_able
set_r_events-write_able c revents = refl

-- The calls that change what a channel waits for.
pub data Change : Type 0 where
  reads_on reads_off writes_on writes_off all_off : Change

pub change : Change → Channel → Channel
change reads_on c = enable_read c
change reads_off c = disable_read c
change writes_on c = enable_write c
change writes_off c = disable_write c
change all_off c = disable_all c

unfoldable pub changes : List Change → Channel → Channel
unfolding change
changes [] c = c
changes (x ∷ xs) c = changes xs (change x c)

-- The same calls on two switches, for reads and for writes.
unfoldable pub switch : Change → Bool × Bool → Bool × Bool
switch reads_on (r, w) = (true, w)
switch reads_off (r, w) = (false, w)
switch writes_on (r, w) = (r, true)
switch writes_off (r, w) = (r, false)
switch all_off (r, w) = (false, false)

unfoldable pub switches : List Change → Bool × Bool → Bool × Bool
unfolding switch
switches [] s = s
switches (x ∷ xs) s = switches xs (switch x s)

abbrev pub waits : Channel → Bool × Bool
waits c = (read_able c, write_able c)

abbrev both : Bool → Bool → Bool × Bool
both r w = (r, w)

pair : {r r' w w' : Bool} → r ≡ r' → w ≡ w' → both r w ≡ both r' w'
pair {r} {r'} {w} {w'} p q = ap (λ r. both r w) p ∙ ap (λ w. both r' w) q

waits-change : (x : Change) (c : Channel) → waits (change x c) ≡ switch x (waits c)
unfolding change disable_all read_able write_able switch
waits-change reads_on c = pair (enable_read_lem c).0 (enable_read_lem c).1
waits-change reads_off c = pair (disable_read_lem c).0 (disable_read_lem c).1
waits-change writes_on c = pair (enable_write_lem c).1 (enable_write_lem c).0
waits-change writes_off c = pair (disable_write_lem c).1 (disable_write_lem c).0
waits-change all_off c = refl

-- After any history of calls, a channel waits for reads and writes as two independent switches say.
pub changes_refine : (xs : List Change) (c : Channel) → waits (changes xs c) ≡ switches xs (waits c)
unfolding changes switches
changes_refine [] c = refl
changes_refine (x ∷ xs) c = changes_refine xs (change x c) ∙ ap (switches xs) (waits-change x c)
