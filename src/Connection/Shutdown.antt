-- ===== src/Connection/Shutdown.antt =====
-- Shutdown sends what is left before it releases the connection.
use flux_a_high_performance.Prelude.{
  ℕ, suc, ◌+◌, ◌<◌, ◌≤◌, ◌≡◌, inl, inr, refl, sym, ap, ◌∙◌, Bool, true, false, ◌&&◌, List, [], ◌∷◌,
  ◌++◌, append-nil, ltb, ◌==◌, length, take, min, some, Result, ok, fault, ◌>>=◌, arith, Bool-cases,
}
use flux_a_high_performance.Buffer.{Buffer, read_able_size}
use flux_a_high_performance.Buffer.Inv.{IsValid, contents, length-contents, read_able_size_lem}
use flux_a_high_performance.Buffer.Read.{move_read_offset_ok}
use flux_a_high_performance.Channel.{Channel, write_able, disable_write}
use flux_a_high_performance.Socket.{eagain, Sending}
use flux_a_high_performance.Socket.Results.{non_block_send-took}
use flux_a_high_performance.Connection.{disconnecting, Connection}
use flux_a_high_performance.Connection.Basics.{update}
use flux_a_high_performance.Connection.Handlers.{
  message_if_input, release_in_loop, finish_output, shutdown_in_loop, on_output, on_sent,
  handle_write,
}
use flux_a_high_performance.Connection.Inv.{Flow, WellFormed, lenient}
use flux_a_high_performance.Connection.Steps.{sent_part, sent_part-WellFormed, nothing-readable}

-- The kernel takes up to k bytes.
abbrev pub took : ℕ → Sending
took k = record { taken = some k; errno = eagain }

abbrev pub total : List ℕ → ℕ
total [] = 0
total (k ∷ ks) = k + total ks

and-false : (b : Bool) → (b && false) ≡ false
and-false true = refl
and-false false = refl

waiting-output :
    {input output : Buffer} {channel : Channel} {sent accepted : List ℕ}
    → Flow input output channel sent accepted
    → 0 < length (contents output)
    → write_able channel ≡ true
waiting-output f h = elim f.waiting [ inl e ↦ absurd (omega (arith, ap length e)) | inr a ↦ a ]

bind-ok : {X : Type 0} (r : Result (Connection X)) → (r >>= λ d. ok d) ≡ r
bind-ok (fault why) = refl
bind-ok (ok c) = refl

unfoldable pub handle_writes :
    {X : Type 0}
    → (ℕ → Connection X → Result (Connection X))
    → Connection X
    → List ℕ
    → Result (Connection X)
handle_writes invoke c [] = ok c
handle_writes invoke c (k ∷ ks) = handle_write invoke c (took k) >>= λ d. handle_writes invoke d ks

read_able-length : {b : Buffer} → IsValid b → read_able_size b ≡ length (contents b)
read_able-length v = read_able_size_lem v ∙ sym (length-contents v)

module _ {X : Type 0} (invoke : ℕ → Connection X → Result (Connection X)) where
  handle_write-took :
      (c : Connection X) (k : ℕ)
      → WellFormed lenient c
      → handle_write invoke c (took k)
        ≡ on_output invoke (sent_part c (min k (length (contents c.out_buffer))))
  unfolding handle_write on_sent
  handle_write-took c k w =
      let v = w.0.output_valid in
      let m = min k (length (contents c.out_buffer)) in
      rw (
        read_able-length v,
        non_block_send-took k (length (contents c.out_buffer)) eagain
            (omega (arith, v.limited, length-contents v)),
        move_read_offset_ok m v (omega arith),
      )

  on_output-empty :
      (c : Connection X)
      → c.statu ≡ disconnecting
      → (read_able_size c.out_buffer == 0) ≡ true
      → on_output invoke c ≡ release_in_loop invoke (update c (disable_write c.channel))
  unfolding on_output update
  on_output-empty c s e = simp (e, s)

  on_output-more :
      (c : Connection X) → (read_able_size c.out_buffer == 0) ≡ false → on_output invoke c ≡ ok c
  unfolding on_output
  on_output-more c e = rw e

  flushes :
      (ks : List ℕ) (c : Connection X)
      → WellFormed lenient c
      → c.statu ≡ disconnecting
      → 0 < length (contents c.out_buffer)
      → length (contents c.out_buffer) ≤ total ks
      → (n : ℕ) × (d : Connection X) × (handle_writes invoke c (take n ks)
          ≡ release_in_loop invoke d)
        × (d.sent ≡ c.accepted)
        × (contents d.out_buffer ≡ [])
  unfolding handle_writes update
  flushes [] c w s h k = absurd (omega arith)
  flushes (k ∷ ks) c w s h t =
      let v = w.0.output_valid in
      let m = min k (length (contents c.out_buffer)) in
      let d = sent_part c m in
      let x : WellFormed lenient d = sent_part-WellFormed lenient c m w (omega arith) in
      let first = handle_write-took c k w in
      elim (Bool-cases (read_able_size d.out_buffer == 0)) [
        | inl e ↦
            let gone = nothing-readable x.0.output_valid e in
            (
              1,
              update d (disable_write d.channel),
              rw first (bind-ok _ ∙ on_output-empty d s e),
              sym (x.0.accounted ∙ ap (λ xs. d.sent ++ xs) gone ∙ append-nil d.sent),
              gone,
            )
        | inr e ↦
            let (n, u, r, all, none_left) =
              flushes ks d x s (ground (arith, length-contents x.0.output_valid))
                (omega (arith, length-contents v, length-contents x.0.output_valid)) in
            (suc n, u, rw (first, on_output-more d e) r, all, none_left)
      ]

  no_input :
      (c : Connection X)
      → IsValid c.in_buffer
      → contents c.in_buffer ≡ []
      → message_if_input invoke c ≡ ok c
  unfolding message_if_input
  no_input c v e = simp (read_able-length v ∙ ap length e)

  finish_output-waits :
      (c : Connection X)
      → IsValid c.out_buffer
      → 0 < length (contents c.out_buffer)
      → write_able c.channel ≡ true
      → finish_output invoke c ≡ ok c
  unfolding finish_output
  finish_output-waits c v h a =
      let some_left : (read_able_size c.out_buffer == 0) ≡ false =
        ground (arith, read_able-length v) in
      rw (a, and-false (ltb 0 (read_able_size c.out_buffer)), some_left)

  -- Shutdown of a connection that has no input left but some output does not release it: it is released once the
  -- kernel has taken the output, in however many parts, and by then all that was accepted has
  -- been sent.
  pub shutdown_flushes :
      (c : Connection X) (ks : List ℕ)
      → WellFormed lenient c
      → contents c.in_buffer ≡ []
      → 0 < length (contents c.out_buffer)
      → length (contents c.out_buffer) ≤ total ks
      → (b : Connection X) × (n : ℕ) × (d : Connection X) × (shutdown_in_loop invoke c ≡ ok b)
        × (b.statu ≡ disconnecting)
        × (write_able b.channel ≡ true)
        × (handle_writes invoke b (take n ks) ≡ release_in_loop invoke d)
        × (d.sent ≡ c.accepted)
        × (contents d.out_buffer ≡ [])
  unfolding shutdown_in_loop message_if_input finish_output
  shutdown_flushes c ks w i h t =
      let b : Connection X = record c { statu = disconnecting } in
      let (n, d, r, all, none_left) = flushes ks b (w.0, tt, w.2) refl h t in
      let writing = waiting-output w.0 h in
      (
        b,
        n,
        d,
        rw (no_input b w.0.input_valid i) (finish_output-waits b w.0.output_valid h writing),
        refl,
        writing,
        r,
        all,
        none_left,
      )
