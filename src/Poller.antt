-- ===== src/Poller.antt =====
-- class Poller of source/Reactor/Poller.hpp: the table of channels, and beside it the interest list that
-- the kernel keeps for the epoll descriptor. A Channel * is a number.
pub mod Watched
mod Tests
use flux_a_high_performance.Prelude.{
  ℕ, Bool, true, false, not, ◌&&◌, List, [], ◌∷◌, Option, some, none, ◌==◌, if◌then◌else◌, Result,
  ok, fault, uncaught,
}
use flux_a_high_performance.Socket.{Errno, eagain, ewouldblock, eintr, other_error}

-- A table by descriptors.
pub find_fd : ℕ → List (ℕ × ℕ) → Option ℕ
find_fd fd [] = none
find_fd fd ((j, x) ∷ xs) = let rest = find_fd fd xs in if j == fd then some x else rest

pub has_fd : ℕ → List (ℕ × ℕ) → Bool
has_fd fd [] = false
has_fd fd ((j, x) ∷ xs) = let rest = has_fd fd xs in if j == fd then true else rest

pub erase_fd : ℕ → List (ℕ × ℕ) → List (ℕ × ℕ)
erase_fd fd [] = []
erase_fd fd ((j, x) ∷ xs) = let rest = erase_fd fd xs in if j == fd then rest else (j, x) ∷ rest

-- `channels` has the pointer for a descriptor, `interest` the events.
pub record Poller : Type 0 where
  pub channels : List (ℕ × ℕ)
  pub interest : List (ℕ × ℕ)

abbrev pub no_channels : Poller
no_channels = record { channels = []; interest = [] }

pub record Channel : Type 0 where
  pub pointer : ℕ
  pub fd : ℕ
  pub events : ℕ

pub data Op : Type 0 where
  epoll_ctl_add epoll_ctl_mod epoll_ctl_del : Op

-- epoll_ctl of the kernel. It fails for a descriptor that is already there (EEXIST) or not there (ENOENT),
-- and may fail for other reasons: `accepts` tells that there is none of these.
pub epoll_ctl : Bool → Op → ℕ → ℕ → List (ℕ × ℕ) → Bool × List (ℕ × ℕ)
unfolding has_fd erase_fd
epoll_ctl accepts epoll_ctl_add fd events interest =
    if accepts && not (has_fd fd interest)
    then (true, (fd, events) ∷ interest)
    else (false, interest)
epoll_ctl accepts epoll_ctl_mod fd events interest =
    if accepts && has_fd fd interest
    then (true, (fd, events) ∷ erase_fd fd interest)
    else (false, interest)
epoll_ctl accepts epoll_ctl_del fd events interest =
    if accepts && has_fd fd interest then (true, erase_fd fd interest) else (false, interest)

pub update : Bool → Poller → Channel → Op → Bool × Poller
unfolding epoll_ctl
update accepts p channel op =
    let (done, interest) = epoll_ctl accepts op channel.fd channel.events p.interest in
    (done, record p { interest = interest })

pub has_channel : Poller → Channel → Bool
unfolding has_fd
has_channel p channel = has_fd channel.fd p.channels

pub update_event : Bool → Poller → Channel → Bool × Poller
unfolding update has_channel erase_fd
update_event accepts p channel =
    if has_channel p channel
    then update accepts p channel epoll_ctl_mod
    else (let inserted = record p { channels = (channel.fd, channel.pointer) ∷ p.channels } in
        let (done, p') = update accepts inserted channel epoll_ctl_add in
        if done
        then (true, p')
        else (false, record p' { channels = erase_fd channel.fd p'.channels }))

-- The result of the removal by epoll_ctl is not tested.
pub remove_event : Bool → Poller → Channel → Bool × Poller
unfolding update has_channel erase_fd
remove_event accepts p channel =
    if has_channel p channel
    then (
      true,
      (update accepts (record p { channels = erase_fd channel.fd p.channels }) channel
          epoll_ctl_del).1,
    )
    else (false, p)

-- What epoll_wait gives: descriptors with their events, or an error.
pub data Waited : Type 0 where
  events_of : List (ℕ × ℕ) → Waited
  wait_failed : Errno → Waited

-- The channels that get their revents and go into `actives`; an unknown descriptor is dropped.
pub actives_of : Poller → List (ℕ × ℕ) → List (ℕ × ℕ)
unfolding find_fd
actives_of p [] = []
actives_of p ((fd, revents) ∷ evs) = elim (find_fd fd p.channels) [
  | none ↦ actives_of p evs
  | some pointer ↦ (pointer, revents) ∷ actives_of p evs
]

-- Poll; other errors than an interruption end the process.
pub poll : Poller → Waited → Result (List (ℕ × ℕ))
unfolding actives_of
poll p (events_of evs) = ok (actives_of p evs)
poll p (wait_failed eintr) = ok []
poll p (wait_failed eagain) = fault uncaught
poll p (wait_failed ewouldblock) = fault uncaught
poll p (wait_failed other_error) = fault uncaught

-- A call of the poller, with what the kernel makes of it.
pub data Call : Type 0 where
  updated : Bool → Channel → Call
  removed : Bool → Channel → Call

pub after : Poller → List Call → Poller
unfolding update_event remove_event
after p [] = p
after p (updated accepts channel ∷ calls) = after (update_event accepts p channel).1 calls
after p (removed accepts channel ∷ calls) = after (remove_event accepts p channel).1 calls
