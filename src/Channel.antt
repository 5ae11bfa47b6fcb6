-- ===== src/Channel.antt =====
-- class Channel of source/Reactor/Channel.hpp: the event mask of a descriptor, and the callbacks that
-- its events call. A mask is the number of its bits. Update and Remove pass
-- the channel to the Poller.
pub mod Masks
pub mod Events
mod Tests
use flux_a_high_performance.Prelude.{
  ℕ, zero, suc, ◌+◌, ◌-◌, ◌/◌, ◌%◌, Bool, true, false, List, [], ◌∷◌, ◌++◌, ◌==◌, ◌||◌,
  if◌then◌else◌,
}

-- The bits of sys/epoll.h.
abbrev pub epollin : ℕ
epollin = 1

abbrev pub epollpri : ℕ
epollpri = 2

abbrev pub epollout : ℕ
epollout = 4

abbrev pub epollerr : ℕ
epollerr = 8

abbrev pub epollhup : ℕ
epollhup = 16

abbrev pub epollrdhup : ℕ
epollrdhup = 8192

-- mask & flag, for a flag of one bit.
abbrev pub has_flag : ℕ → ℕ → Bool
has_flag flag mask = (mask / flag) % 2 == 1

-- mask | flag
pub set_flag : ℕ → ℕ → ℕ
set_flag flag mask = if has_flag flag mask then mask else mask + flag

-- mask & ~flag
pub clear_flag : ℕ → ℕ → ℕ
clear_flag flag mask = if has_flag flag mask then mask - flag else mask

-- A callback is there or not.
pub record Channel : Type 0 where
  pub events : ℕ
  pub revents : ℕ
  pub read_callback : Bool
  pub write_callback : Bool
  pub error_callback : Bool
  pub close_callback : Bool
  pub event_callback : Bool

abbrev pub idle : Channel
idle = record {
  events = 0;
  revents = 0;
  read_callback = false;
  write_callback = false;
  error_callback = false;
  close_callback = false;
  event_callback = false;
}

pub set_r_events : Channel → ℕ → Channel
set_r_events c events = record c { revents = events }

pub set_read_callback : Channel → Channel
set_read_callback c = record c { read_callback = true }

pub set_write_callback : Channel → Channel
set_write_callback c = record c { write_callback = true }

pub set_error_callback : Channel → Channel
set_error_callback c = record c { error_callback = true }

pub set_close_callback : Channel → Channel
set_close_callback c = record c { close_callback = true }

pub set_event_callback : Channel → Channel
set_event_callback c = record c { event_callback = true }

pub read_able : Channel → Bool
read_able c = has_flag epollin c.events

unfoldable pub write_able : Channel → Bool
write_able c = has_flag epollout c.events

pub enable_read : Channel → Channel
unfolding set_flag
enable_read c = record c {
  events = set_flag epollin (set_flag epollrdhup (set_flag epollpri c.events));
}

pub enable_write : Channel → Channel
unfolding set_flag
enable_write c = record c { events = set_flag epollout c.events }

pub disable_read : Channel → Channel
unfolding clear_flag
disable_read c = record c {
  events = clear_flag epollin (clear_flag epollrdhup (clear_flag epollpri c.events));
}

pub disable_write : Channel → Channel
unfolding clear_flag
disable_write c = record c { events = clear_flag epollout c.events }

pub disable_all : Channel → Channel
disable_all c = record c { events = 0 }

pub data Callback : Type 0 where
  event_called read_called write_called error_called close_called : Callback

-- if (_callback) _callback();
pub called : Bool → Callback → List Callback
called true callback = callback ∷ []
called false callback = []

-- The callbacks that HandleEvent calls, in order.
pub handle_event : Channel → List Callback
unfolding called
handle_event c =
    called c.event_callback event_called
    ++ (if has_flag epollin c.revents
          || (has_flag epollrdhup c.revents || has_flag epollpri c.revents)
        then called c.read_callback read_called
        else [])
    ++ (if has_flag epollout c.revents
        then called c.write_callback write_called
        else if has_flag epollerr c.revents
        then called c.error_callback error_called
        else if has_flag epollhup c.revents
        then called c.close_callback close_called
        else [])
