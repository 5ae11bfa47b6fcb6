-- ===== src/Connection/Release.antt =====
-- ReleaseInLoop runs again when a connection is reset.
use flux_a_high_performance.Prelude.{
  ℕ, suc, ◌-◌, ◌≡◌, ◌⊎◌, inl, inr, refl, ap, ◌∙◌, true, false, ◌||◌, List, [], ◌∷◌, ◌++◌,
  append_assoc, none, ok,
}
use flux_a_high_performance.Buffer.{read_able_size}
use flux_a_high_performance.Channel.{
  Callback, event_called, read_called, error_called, close_called, has_flag, epollin, epollout,
  epollerr, epollhup, set_r_events,
}
use flux_a_high_performance.Channel.Events.{Bound, handle_event-reset}
use flux_a_high_performance.Socket.{negsuc, Received, Sending, non_block_recv}
use flux_a_high_performance.Connection.{disconnecting, Connection, Call, ready, buffer_size}
use flux_a_high_performance.Connection.Basics.{disconnect}
use flux_a_high_performance.Connection.Handlers.{
  handle_error, handler, dispatch, on_event, call_back,
}
use flux_a_high_performance.Connection.Silent.{
  refreshed, Closing, log, disconnect-Kept, handle_close-silent, released-Closing,
  handle_any_event-none, handle_read-failed, shutdown-silent,
}

module _ {X : Type 0} (program : ℕ → Connection X → List (Call X)) (depth f : ℕ)
    (silent : (c : Connection X) → program f c ≡ []) where
  -- The handlers of a reset.
  dispatch-reset :
      (c : Connection X) (last : Callback) (received : Received) (sending : Sending) {n : ℕ}
      → (last ≡ error_called) ⊎ (last ≡ close_called)
      → Closing f c
      → read_able_size c.out_buffer ≡ 0
      → c.anyevent_callback ≡ none
      → (non_block_recv received (buffer_size - 1)).0 ≡ negsuc n
      → let c' : Connection X = record (refreshed c) { statu = disconnecting } in
        dispatch
          (call_back program (suc depth))
          received
          sending
          c
          (event_called ∷ read_called ∷ last ∷ [])
        ≡ ok (log (disconnect (log (disconnect c') f)) f)
  unfolding dispatch handler handle_error
  dispatch-reset c last received sending l h o a e =
      let c1 : Connection X = refreshed c in
      let c' : Connection X = record c1 { statu = disconnecting } in
      let end =
        handle_close-silent program depth f silent (log (disconnect c') f)
          (released-Closing program depth f silent c' h) in
      rw
        (
          handle_any_event-none (call_back program (suc depth)) c a,
          handle_read-failed program depth f silent c1 received e,
          shutdown-silent program depth f silent c1 h o,
        )
        (elim l [ inl q ↦ rw (q, end) refl | inr q ↦ rw (q, end) refl ])

  -- An event that is readable, and an error or a hang-up, but not writable, as a reset brings it, calls the
  -- closing callback twice, for a connection without pending input and output whose recv fails, whose
  -- callbacks of the channel are set, and which has a closing callback that makes no calls of its own, and
  -- neither an any-event callback nor one that tells the server.
  pub closed_twice :
      (c : Connection X) (revents n : ℕ) (received : Received) (sending : Sending)
      → Closing f c
      → read_able_size c.out_buffer ≡ 0
      → Bound c.channel
      → c.anyevent_callback ≡ none
      → has_flag epollin revents ≡ true
      → has_flag epollout revents ≡ false
      → (has_flag epollerr revents || has_flag epollhup revents) ≡ true
      → (non_block_recv received (buffer_size - 1)).0 ≡ negsuc n
      → (d : Connection X) × (on_event
            (call_back program (suc depth))
            c
            (ready revents received sending)
          ≡ ok d)
        × (d.called ≡ c.called ++ f ∷ f ∷ [])
  unfolding on_event
  closed_twice c revents n received sending h o b a x y z e =
      let c0 : Connection X = record c { channel = set_r_events c.channel revents } in
      let c' : Connection X = record (refreshed c0) { statu = disconnecting } in
      let d = log (disconnect c') f in
      let first = (disconnect-Kept c').same_called in
      let second = (disconnect-Kept d).same_called in
      (
        log (disconnect d) f,
        elim (handle_event-reset c.channel revents b x y z) [
          | inl q ↦ rw q (dispatch-reset c0 error_called received sending (inl refl) h o a e)
          | inr q ↦ rw q (dispatch-reset c0 close_called received sending (inr refl) h o a e)
        ],
        ap (λ fs. fs ++ f ∷ []) (second ∙ ap (λ fs. fs ++ f ∷ []) first)
            ∙ append_assoc c.called _ _,
      )
