-- ===== src/Poller/Tests.antt =====
-- Two channels, one of which is removed.
use flux_a_high_performance.Prelude.{ℕ, ◌≡◌, refl, true, false, List, [], ◌∷◌, ok}
use flux_a_high_performance.Poller.{
  has_fd, erase_fd, epoll_ctl, update, has_channel, update_event, remove_event, no_channels,
  Channel, Call, updated, removed, after, poll, events_of,
}
use flux_a_high_performance.Poller.Watched.{Same, events_in, table_watched, polls_all}

abbrev five : Channel
five = record { pointer = 1; fd = 5; events = 3 }

abbrev six : Channel
six = record { pointer = 2; fd = 6; events = 3 }

abbrev history : List Call
history = updated true five ∷ updated true six ∷ updated true five ∷ removed true six ∷ []

table_watched_example :
    has_fd 5 (after no_channels (updated true five ∷ updated false six ∷ [])).interest ≡ true
unfolding after update_event update has_channel epoll_ctl has_fd erase_fd
table_watched_example = table_watched (updated true five ∷ updated false six ∷ []) 5 refl

polls_all_example :
    Same (after no_channels history)
    × ((actives : List (ℕ × ℕ)) × (poll (after no_channels history) (events_of ((5, 1) ∷ []))
          ≡ ok actives)
        × (events_in actives ≡ 1 ∷ []))
unfolding after update_event remove_event update has_channel epoll_ctl has_fd erase_fd
polls_all_example = polls_all history ((5, 1) ∷ []) refl (refl, tt)
