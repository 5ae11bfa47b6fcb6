-- ===== src/Connection/Output.antt =====
-- SendInLoop on every branch.
use flux_a_high_performance.Prelude.{
  ℕ, ◌≡◌, ◌⊎◌, inl, inr, refl, sym, ap, ◌∙◌, true, false, List, ◌++◌, length, take-all, Result, ok,
  fault, overflow, arith, Bool-cases, ◌+◌, ◌≤◌, ◌<◌, if◌then◌else◌, word, lt_of_not-le,
}
use flux_a_high_performance.Buffer.{Buffer, read_able_size, copy_out, buffer_max_size}
use flux_a_high_performance.Buffer.Inv.{IsValid, contents, length-contents, read_able_size_lem}
use flux_a_high_performance.Buffer.Space.{Fits, Fits-cases}
use flux_a_high_performance.Buffer.Write.{
  write_and_push_lem, write_and_push_ok, write_and_push_fault,
}
use flux_a_high_performance.Buffer.Read.{copy_out-contents}
use flux_a_high_performance.Channel.{write_able, enable_write}
use flux_a_high_performance.Channel.Masks.{enable_write_lem}
use flux_a_high_performance.Connection.{Connection, is_disconnected}
use flux_a_high_performance.Connection.Basics.{update, send_in_loop}
use flux_a_high_performance.Connection.Inv.{WellFormed, lenient}

-- The buffer that Send has made is copied whole.
copied :
    {b : Buffer} → IsValid b → copy_out b.items b.reader_idx (read_able_size b) ≡ ok (contents b)
copied {b} v =
    let n = read_able_size b in
    let whole : length (contents b) ≡ n = length-contents v ∙ sym (read_able_size_lem v) in
    copy_out-contents n v (omega arith) ∙ ap ok (take-all n (contents b) (omega arith))

abbrev pub Appended : {X : Type 0} → Connection X → List ℕ → Result (Connection X) → Type 0
Appended {X} c bytes r =
    (c' : Connection X) × (r ≡ ok c')
    × (contents c'.out_buffer ≡ contents c.out_buffer ++ bytes)
    × (c'.accepted ≡ c.accepted ++ bytes)
    × (write_able c'.channel ≡ true)

-- SendInLoop of a connection that is not disconnected appends the bytes to the output and waits to write, if they fit
-- into the output buffer; if the peer has left so much unread that they do not, it copies beyond the end of
-- the array.
pub send_in_loop_lem :
    {X : Type 0} (c : Connection X) (buf : Buffer)
    → WellFormed lenient c
    → IsValid buf
    → is_disconnected c.statu ≡ false
    → (Fits c.out_buffer (length (contents buf)) × Appended c (contents buf) (send_in_loop c buf))
      ⊎ ((¬ Fits c.out_buffer (length (contents buf))) × (send_in_loop c buf ≡ fault overflow))
unfolding send_in_loop update
send_in_loop_lem c buf w v live =
    elim (write_and_push_lem (contents buf) w.0.output_valid
      (omega (arith, v.limited, length-contents v))) [
        | inr (f, e) ↦ inr (f, rw (live, copied v, e) refl)
        | inl (f, (output, e, u, same)) ↦ elim (Bool-cases (write_able c.channel)) [
          | inl a ↦ inl (
            f,
            (
              record c { out_buffer = output; accepted = c.accepted ++ contents buf },
              rw (live, copied v, e, a) refl,
              same,
              refl,
              a,
            ),
          )
          | inr a ↦ inl (
            f,
            (
              update (record c { out_buffer = output; accepted = c.accepted ++ contents buf })
                  (enable_write c.channel),
              rw (live, copied v, e, a) refl,
              same,
              refl,
              (enable_write_lem c.channel).0,
            ),
          )
        ]
      ]

-- What SendInLoop changes, and what it leaves as it was.
pub record Taken {X : Type 0} (c : Connection X) (bytes : List ℕ) (c' : Connection X) : Type 0 where
  pub output_valid : IsValid c'.out_buffer
  pub appended : contents c'.out_buffer ≡ contents c.out_buffer ++ bytes
  pub early : c'.out_buffer.writer_idx ≤ c.out_buffer.writer_idx + length bytes
  pub recorded : c'.accepted ≡ c.accepted ++ bytes
  pub waiting : write_able c'.channel ≡ true
  pub same_statu : c'.statu ≡ c.statu
  pub same_socket : c'.socket ≡ c.socket
  pub same_context : c'.context ≡ c.context
  pub same_input : c'.in_buffer ≡ c.in_buffer
  pub same_message : c'.message_callback ≡ c.message_callback

-- The two branches of SendInLoop, of which the one for a channel that does not wait yet switches it.
written : {X : Type 0} → Connection X → Buffer → List ℕ → Connection X
unfolding update
written c output bytes =
    let c' = record c { out_buffer = output; accepted = c.accepted ++ bytes } in
    if write_able c'.channel then c' else update c' (enable_write c'.channel)

written-Taken :
    {X : Type 0} (c : Connection X) (output : Buffer) (bytes : List ℕ)
    → IsValid output
    → contents output ≡ contents c.out_buffer ++ bytes
    → output.writer_idx ≤ c.out_buffer.writer_idx + length bytes
    → Taken c bytes (written c output bytes)
unfolding written
written-Taken c output bytes v e h = elim (Bool-cases (write_able c.channel)) [
  | inl a ↦ rw a (record {
    output_valid = v;
    appended = e;
    early = h;
    recorded = refl;
    waiting = a;
    same_statu = refl;
    same_socket = refl;
    same_context = refl;
    same_input = refl;
    same_message = refl;
  })
  | inr a ↦ rw a (record {
    output_valid = v;
    appended = e;
    early = h;
    recorded = refl;
    waiting = (enable_write_lem c.channel).0;
    same_statu = refl;
    same_socket = refl;
    same_context = refl;
    same_input = refl;
    same_message = refl;
  })
]

pub send_in_loop-Taken :
    {X : Type 0} (c : Connection X) (buf : Buffer)
    → IsValid c.out_buffer
    → IsValid buf
    → is_disconnected c.statu ≡ false
    → ((c' : Connection X) × (send_in_loop c buf ≡ ok c') × Taken c (contents buf) c')
      ⊎ ((send_in_loop c buf ≡ fault overflow)
          × (buffer_max_size < c.out_buffer.writer_idx + length (contents buf)))
unfolding send_in_loop written
send_in_loop-Taken c buf w v live =
    let bytes = contents buf in
    let short : length bytes < word = omega (arith, v.limited, length-contents v) in
    elim (Fits-cases c.out_buffer (length bytes)) [
      | inl f ↦
          let (output, e, u, same, early) = write_and_push_ok bytes w short f in
          inl (
            written c output bytes,
            rw (live, copied v, e) refl,
            written-Taken c output bytes u same early,
          )
      | inr f ↦ inr (
        rw (live, copied v, write_and_push_fault bytes w short f) refl,
        lt_of_not-le (λ h. f (inr h)),
      )
    ]
