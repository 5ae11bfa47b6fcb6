-- ===== src/Connection/Steps.antt =====
-- The steps of the handlers that change the buffers, the channel or the state keep the invariant.
use flux_a_high_performance.Prelude.{
  ℕ, ◌-◌, ◌^◌, if◌then◌else◌, ◌<◌, ◌≤◌, ◌≡◌, ◌⊎◌, inl, inr, refl, sym, ap, ◌∙◌, Bool, true, false,
  [], ◌++◌, append_assoc, ◌==◌, length, take-append-drop, take-take, drop-nil, ==_iff, take, drop,
  word, ok, fault, assertion, ◌>>=◌, arith,
}
use flux_a_high_performance.Buffer.{Buffer, read_able_size, move_read_offset}
use flux_a_high_performance.Buffer.Inv.{IsValid, contents, length-contents, read_able_size_lem}
use flux_a_high_performance.Buffer.Read.{
  advanced, advanced-IsValid, contents-advanced, move_read_offset_ok, move_read_offset_fault,
}
use flux_a_high_performance.Channel.{enable_read, set_r_events}
use flux_a_high_performance.Channel.Masks.{enable_read_lem, set_r_events-write_able}
use flux_a_high_performance.Socket.Results.{non_block_send_lem, non_block_recv_lem}
use native.Mathlib.Decide.{dec_le}
use flux_a_high_performance.Socket.{
  pos, negsuc, is_retry, Sending, non_block_send, ℤ, Received, non_block_recv,
}
use flux_a_high_performance.Connection.{
  disconnected, connecting, connected, disconnecting, is_connecting, buffer_size, ConnStatu,
  Connection,
}
use flux_a_high_performance.Connection.Basics.{update}
use flux_a_high_performance.Connection.Inv.{
  watched, update-watched, Policy, AnyInput, Alive, flow, WellFormed, Keeps, is_open,
}

-- MoveReadOffset moves within the contents, or its assert fails.
pub moved-cases :
    {b : Buffer} (n : ℕ)
    → IsValid b
    → (move_read_offset b n ≡ fault assertion)
      ⊎ ((n ≤ length (contents b)) × (move_read_offset b n ≡ ok (advanced b n)))
moved-cases {b} n v = elim (dec_le n (length (contents b))) [
  | yes h ↦ inr (h, move_read_offset_ok n v h)
  | no h ↦ inl (move_read_offset_fault n v (omega arith))
]

-- A read offset that is moved.
pub move_input-Keeps :
    {X : Type 0} (P : Policy X) (c : Connection X) (n : ℕ)
    → P.Allows assertion
    → AnyInput P
    → WellFormed P c
    → Keeps P (move_read_offset c.in_buffer n >>= λ input. ok (record c { in_buffer = input }))
move_input-Keeps P c n a free w = elim (moved-cases n w.0.input_valid) [
  | inl e ↦ rw e a
  | inr (h, e) ↦ rw e (
    flow (advanced-IsValid n w.0.input_valid h) w.0.output_valid w.0.accounted w.0.waiting,
    w.1,
    (w.2.0, free c.context c.in_buffer _ (advanced-IsValid n w.0.input_valid h) w.2.1),
  )
]

pub nothing-readable : {b : Buffer} → IsValid b → (read_able_size b == 0) ≡ true → contents b ≡ []
nothing-readable {b} v e = rw (sym (read_able_size_lem v) ∙ (==_iff _ _).0 e) refl

pub contents-split :
    {b : Buffer} (n : ℕ)
    → IsValid b
    → n ≤ length (contents b)
    → contents b ≡ take n (drop b.reader_idx b.items) ++ contents (advanced b n)
contents-split {b} n v h =
    let d = drop b.reader_idx b.items in
    sym (take-append-drop n (contents b))
    ∙ ap (λ xs. xs ++ drop n (contents b))
        (take-take n (b.writer_idx - b.reader_idx) d (omega (arith, length-contents v)))
    ∙ ap (λ xs. take n d ++ xs) (sym (contents-advanced n v h))

pub advanced-empty :
    {b : Buffer} (n : ℕ)
    → IsValid b
    → n ≤ length (contents b)
    → contents b ≡ []
    → contents (advanced b n) ≡ []
advanced-empty {b} n v h e = contents-advanced n v h ∙ ap (drop n) e ∙ drop-nil n

-- A count that is no more than a bound, or an error.
abbrev pub AtMost : ℕ → ℤ → Type 0
AtMost m (pos n) = n ≤ m
AtMost m (negsuc n) = Unit

retry-AtMost : (m : ℕ) (b : Bool) → AtMost m (if b then pos 0 else negsuc 0)
retry-AtMost m true = omega arith
retry-AtMost m false = tt

-- The kernel takes no more than it is given.
pub sent-AtMost :
    (sending : Sending) {b : Buffer}
    → IsValid b
    → AtMost (length (contents b)) (non_block_send sending (read_able_size b))
sent-AtMost sending {b} v =
    let m = length (contents b) in
    let given : read_able_size b ≤ m = omega (arith, read_able_size_lem v, length-contents v) in
    let short : read_able_size b < 2 ^ 31 = omega (arith, read_able_size_lem v, v.limited) in
    elim (non_block_send_lem sending (read_able_size b) short) [
      | inl (k, t, e) ↦ rw e (omega arith)
      | inr (t, e) ↦ rw e (retry-AtMost m (is_retry sending.errno))
    ]

-- HandleWrite has moved the read offset over what the kernel has taken.
abbrev pub sent_part : {X : Type 0} → Connection X → ℕ → Connection X
sent_part c n = record c {
  out_buffer = advanced c.out_buffer n;
  sent = c.sent ++ take n (drop c.out_buffer.reader_idx c.out_buffer.items);
}

pub sent_part-WellFormed :
    {X : Type 0} (P : Policy X) (c : Connection X) (n : ℕ)
    → WellFormed P c
    → n ≤ length (contents c.out_buffer)
    → WellFormed P (sent_part c n)
sent_part-WellFormed P c n w h = (
  record {
    input_valid = w.0.input_valid;
    output_valid = advanced-IsValid n w.0.output_valid h;
    accounted =
        w.0.accounted
        ∙ ap (λ xs. c.sent ++ xs) (contents-split n w.0.output_valid h)
        ∙ sym (append_assoc c.sent _ _);
    waiting = elim w.0.waiting [
      | inl e ↦ inl (advanced-empty n w.0.output_valid h e)
      | inr a ↦ inr a
    ];
  },
  w.1,
  w.2,
)

pub connecting-open :
    (statu : ConnStatu) (fd : ℤ) (registered : Bool)
    → is_connecting statu ≡ true
    → Alive statu fd registered
    → is_open fd ≡ true
connecting-open connecting fd r e a = a
connecting-open disconnected fd r e a = cc
connecting-open connected fd r e a = cc
connecting-open disconnecting fd r e a = cc

pub establish-WellFormed :
    {X : Type 0} (P : Policy X) (c : Connection X)
    → is_connecting c.statu ≡ true
    → WellFormed P c
    → WellFormed P (update (record c { statu = connected }) (enable_read c.channel))
unfolding update
establish-WellFormed P c e w =
    let usable : is_open c.socket.sockfd ≡ true =
      connecting-open c.statu c.socket.sockfd (watched c) e w.1 in
    (
      record {
        input_valid = w.0.input_valid;
        output_valid = w.0.output_valid;
        accounted = w.0.accounted;
        waiting = rw ((enable_read_lem c.channel).1) w.0.waiting;
      },
      (usable, update-watched c.registered c.refused _),
      w.2,
    )

pub ready-WellFormed :
    {X : Type 0} (P : Policy X) (c : Connection X) (revents : ℕ)
    → WellFormed P c
    → WellFormed P (record c { channel = set_r_events c.channel revents })
ready-WellFormed P c revents w = (
  record {
    input_valid = w.0.input_valid;
    output_valid = w.0.output_valid;
    accounted = w.0.accounted;
    waiting = rw (set_r_events-write_able c.channel revents) w.0.waiting;
  },
  w.1,
  w.2,
)

pub recv-short : (received : Received) → length (non_block_recv received (buffer_size - 1)).1 < word
recv-short received = elim (non_block_recv_lem received (buffer_size - 1) (omega arith)) [
  | inl (bytes, come, stored, told, some_come, few) ↦ omega arith
  | inr (e, k) ↦ rw e (omega arith)
]
