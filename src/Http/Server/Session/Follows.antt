-- ===== src/Http/Server/Session/Follows.antt =====
-- How a connection follows the requests and responses of OnMessage: what both have in common, and that
-- sending a response keeps it.
use flux_a_high_performance.Prelude.{
  ℕ, ◌+◌, ◌^◌, ◌≤◌, ◌<◌, ◌≡◌, ◌⊎◌, inl, inr, refl, ap, ◌∙◌, Bool, true, false, List, [], ◌∷◌, ◌++◌,
  append_assoc, leb, if◌then◌else◌, Bool-cases, length, length-append, some, word, lt→ltb, Result,
  ok, fault, overflow, ◌>>=◌, arith,
}
use flux_a_high_performance.Buffer.{buffer_max_size}
use flux_a_high_performance.Buffer.Inv.{IsValid, contents}
use flux_a_high_performance.Buffer.Stream.{empty-IsValid}
use flux_a_high_performance.Buffer.Write.{write_and_push_lem}
use flux_a_high_performance.Channel.{write_able}
use flux_a_high_performance.Connection.{ConnStatu, disconnecting, is_disconnected}
use flux_a_high_performance.Connection.Basics.{send_data}
use flux_a_high_performance.Connection.Output.{Taken, send_in_loop-Taken}
use flux_a_high_performance.Http.Request.{HttpRequest}
use flux_a_high_performance.Http.Response.{HttpResponse, response_text}
use flux_a_high_performance.Http.Server.Message
use flux_a_high_performance.Http.Server.Message.{Event, sent, shut_down, make_response}
use flux_a_high_performance.Http.Server.Message.Grows.{texts, texts-sent, amount, Grows}
use flux_a_high_performance.Http.Server.Session.{
  HttpConnection, on_message_callback, make_response_on,
}

-- Whether a Shutdown is among the events.
unfoldable pub closing : List Event → Bool
closing [] = false
closing (sent bytes ∷ events) = closing events
closing (shut_down ∷ events) = true

pub closing-sent : (es : List Event) (bytes : List ℕ) → closing (es ++ sent bytes ∷ []) ≡ closing es
unfolding closing
closing-sent [] bytes = refl
closing-sent (sent b ∷ es) bytes = closing-sent es bytes
closing-sent (shut_down ∷ es) bytes = refl

pub closing-shut_down : (es : List Event) → closing (es ++ shut_down ∷ []) ≡ true
unfolding closing
closing-shut_down [] = refl
closing-shut_down (sent b ∷ es) = closing-shut_down es
closing-shut_down (shut_down ∷ es) = refl

abbrev pub statu_after : ConnStatu → List Event → ConnStatu
statu_after statu events = if closing events then disconnecting else statu

-- The connection `c`, which was `c0`, stands where the events of `m` have led it: it has the context
-- and the input, its output has grown by the responses, and it has not been released.
pub record Tracks (c0 : HttpConnection) (m : Message.Connection) (c : HttpConnection) : Type 0 where
  pub context_same : c.context ≡ some m.context
  pub input_same : c.in_buffer ≡ m.buffer
  pub callback_set : c.message_callback ≡ some on_message_callback
  pub statu_kept : c.statu ≡ statu_after c0.statu m.events
  pub socket_kept : c.socket ≡ c0.socket
  pub output_valid : IsValid c.out_buffer
  pub appended : contents c.out_buffer ≡ contents c0.out_buffer ++ texts m.events
  pub recorded : c.accepted ≡ c0.accepted ++ texts m.events
  pub early : c.out_buffer.writer_idx ≤ c0.out_buffer.writer_idx + amount m
  pub waiting : (amount m ≡ 0) ⊎ (write_able c.channel ≡ true)

-- The output does not fit behind what the output buffer held at first.
abbrev pub TooMuch : HttpConnection → Message.Connection → Type 0
TooMuch c0 m = buffer_max_size < c0.out_buffer.writer_idx + amount m

-- The same faults, or a connection that tracks the other. An output that is too long for the buffer
-- is copied beyond the end of its array.
abbrev pub Follows : HttpConnection → Result Message.Connection → Result HttpConnection → Type 0
Follows c0 (ok m) r =
    ((c : HttpConnection) × (r ≡ ok c) × Tracks c0 m c) ⊎ ((r ≡ fault overflow) × TooMuch c0 m)
Follows c0 (fault e) r = (r ≡ fault e) ⊎ (r ≡ fault overflow)

overflow-Follows :
    (c0 : HttpConnection) (m : Message.Connection) (r : Result Message.Connection)
    → Grows (amount m) r
    → TooMuch c0 m
    → Follows c0 r (fault overflow)
overflow-Follows c0 m (ok m') g h = inr (refl, omega arith)
overflow-Follows c0 m (fault e) g h = inr refl

-- One step after another.
pub then-Follows :
    (c0 : HttpConnection) (rm : Result Message.Connection) (r : Result HttpConnection)
    (f : Message.Connection → Result Message.Connection)
    (g : HttpConnection → Result HttpConnection)
    → Follows c0 rm r
    → ((m : Message.Connection) → Grows (amount m) (f m))
    → ((m : Message.Connection) (c : HttpConnection)
        → rm ≡ ok m
        → Tracks c0 m c
        → Follows c0 (f m) (g c))
    → Follows c0 (rm >>= f) (r >>= g)
then-Follows c0 (ok m) r f g (inl (c, e, t)) grows next = rw e (next m c refl t)
then-Follows c0 (ok m) r f g (inr (e, h)) grows next =
    rw e (overflow-Follows c0 m (f m) (grows m) h)
then-Follows c0 (fault why) r f g (inl e) grows next = rw e (inl refl)
then-Follows c0 (fault why) r f g (inr e) grows next = rw e (inr refl)

live :
    (statu : ConnStatu) (b : Bool)
    → is_disconnected statu ≡ false
    → is_disconnected (if b then disconnecting else statu) ≡ false
live statu true h = refl
live statu false h = h

module _ (c0 : HttpConnection) (open_at_first : is_disconnected c0.statu ≡ false) where
  Taken-Tracks :
      (m : Message.Connection) (c c' : HttpConnection) (bytes : List ℕ)
      → Tracks c0 m c
      → Taken c bytes c'
      → Tracks c0 (record m { events = m.events ++ sent bytes ∷ [] }) c'
  Taken-Tracks m c c' bytes t k =
      let more = texts-sent m.events bytes in
      record {
        context_same = k.same_context ∙ t.context_same;
        input_same = k.same_input ∙ t.input_same;
        callback_set = k.same_message ∙ t.callback_set;
        statu_kept = rw (closing-sent m.events bytes) (k.same_statu ∙ t.statu_kept);
        socket_kept = k.same_socket ∙ t.socket_kept;
        output_valid = k.output_valid;
        appended = rw more (
            k.appended
            ∙ ap (λ x. x ++ bytes) t.appended
            ∙ append_assoc (contents c0.out_buffer) (texts m.events) bytes);
        recorded = rw more (
            k.recorded
            ∙ ap (λ x. x ++ bytes) t.recorded
            ∙ append_assoc c0.accepted (texts m.events) bytes);
        early =
            omega (arith, k.early, t.early, ap length more, length-append (texts m.events) bytes);
        waiting = inr k.waiting;
      }

  pub make_response-Follows :
      (m : Message.Connection) (c : HttpConnection) (req : HttpRequest) (resp : HttpResponse)
      → Tracks c0 m c
      → Follows c0 (make_response m req resp) (make_response_on c req resp)
  unfolding make_response make_response_on Message.send send_data
  make_response-Follows m c req resp t =
      let bytes = response_text req resp in
      elim (Bool-cases (leb (2 ^ 63) (length bytes))) [
        | inl long ↦ rw long (inl refl)
        | inr fine ↦
            let short : length bytes < word = ground arith in
            elim (write_and_push_lem bytes empty-IsValid.0 short) [
              | inr (_, e) ↦ rw (fine, lt→ltb _ _ short, e) (inl refl)
              | inl (_, (buf, e, v, same)) ↦
                  let whole : contents buf ≡ bytes = same ∙ ap (λ x. x ++ bytes) empty-IsValid.1 in
                  rw (fine, lt→ltb _ _ short, e)
                    (elim (send_in_loop-Taken c buf t.output_valid v (
                      ap is_disconnected t.statu_kept
                      ∙ live c0.statu (closing m.events) open_at_first)) [
                        | inl (c', e', k) ↦
                            inl (c', e', Taken-Tracks m c c' bytes t (rw whole at k))
                        | inr (e', h) ↦ inr (
                          e',
                          omega (
                            arith,
                            t.early,
                            ap length whole,
                            ap length (texts-sent m.events bytes),
                            length-append (texts m.events) bytes,
                          ),
                        )
                      ])
            ]
      ]
