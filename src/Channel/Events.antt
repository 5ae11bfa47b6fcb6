-- ===== src/Channel/Events.antt =====
-- The callbacks that the events of a reset call.
use flux_a_high_performance.Prelude.{ℕ, ◌≡◌, ◌⊎◌, inl, inr, true, false, ◌||◌, [], ◌∷◌, Bool-cases}
use flux_a_high_performance.Channel.{
  Channel, epollin, epollout, epollerr, epollhup, has_flag, event_called, read_called, error_called,
  close_called, called, handle_event, set_r_events,
}

-- A channel whose callbacks are all set.
pub record Bound (c : Channel) : Type 0 where
  pub read_set : c.read_callback ≡ true
  pub write_set : c.write_callback ≡ true
  pub error_set : c.error_callback ≡ true
  pub close_set : c.close_callback ≡ true
  pub event_set : c.event_callback ≡ true

-- Readable, with an error or a hang-up, and not writable.
pub handle_event-reset :
    (c : Channel) (revents : ℕ)
    → Bound c
    → has_flag epollin revents ≡ true
    → has_flag epollout revents ≡ false
    → (has_flag epollerr revents || has_flag epollhup revents) ≡ true
    → (handle_event (set_r_events c revents) ≡ event_called ∷ read_called ∷ error_called ∷ [])
      ⊎ (handle_event (set_r_events c revents) ≡ event_called ∷ read_called ∷ close_called ∷ [])
unfolding handle_event called set_r_events
handle_event-reset c revents b i o e = elim (Bool-cases (has_flag epollerr revents)) [
  | inl x ↦ inl (simp (b.read_set, b.error_set, b.event_set, i, o, x))
  | inr x ↦
      let h : has_flag epollhup revents ≡ true = simp x at e in
      inr (simp (b.read_set, b.close_set, b.event_set, i, o, x, h))
]
