-- ===== src/Connection/Inv.antt =====
-- The invariant of a connection, and the steps that keep it.
use flux_a_high_performance.Prelude.{
  ℕ, ◌<◌, ◌≤◌, ◌≡◌, refl, ◌⊎◌, inl, inr, sym, ap, ◌∙◌, Bool, true, false, not, ◌||◌, List, [], ◌++◌,
  append_assoc, ltb, ltb→lt, if◌then◌else◌, length, take, length-take, word, Option, Fault, Result,
  ok, fault, overflow, uncaught, ◌>>=◌, arith, Bool-cases,
}
use flux_a_high_performance.Buffer.{Buffer, read_able_size, write_and_push}
use flux_a_high_performance.Buffer.Inv.{IsValid, contents, length-contents, read_able_size_lem}
use flux_a_high_performance.Buffer.Write.{write_and_push_lem}
use flux_a_high_performance.Buffer.Stream.{empty-IsValid}
use flux_a_high_performance.Buffer.Read.{copy_out-contents}
use flux_a_high_performance.Channel.{Channel, write_able, enable_write}
use flux_a_high_performance.Channel.Masks.{enable_write_lem}
use flux_a_high_performance.TimerWheel.{has_timer}
use flux_a_high_performance.Socket.{ℤ, close, is_minus_one}
use flux_a_high_performance.Socket.Close.{ClosedOnce, close-ClosedOnce}
use flux_a_high_performance.Connection.{
  ConnStatu, disconnected, connecting, connected, disconnecting, is_disconnected, Connection,
}
use flux_a_high_performance.Connection.Basics.{
  update, cancel_inactive_release_in_loop, enable_inactive_release_in_loop, disconnect,
  send_in_loop, send_data,
}

-- What has been accepted has been sent or is in the output buffer, in this order; and while there is
-- output, the channel waits to write.
pub record Flow (input output : Buffer) (channel : Channel) (sent accepted : List ℕ) : Type 0 where
  pub input_valid : IsValid input
  pub output_valid : IsValid output
  pub accounted : accepted ≡ sent ++ contents output
  pub waiting : (contents output ≡ []) ⊎ (write_able channel ≡ true)

pub flow :
    {input output : Buffer} {channel : Channel} {sent accepted : List ℕ}
    → IsValid input
    → IsValid output
    → accepted ≡ sent ++ contents output
    → (contents output ≡ []) ⊎ (write_able channel ≡ true)
    → Flow input output channel sent accepted
flow i o a q = record { input_valid = i; output_valid = o; accounted = a; waiting = q }

abbrev pub is_open : ℤ → Bool
is_open fd = not (is_minus_one fd)

-- The poller has the channel, or the kernel has refused a call of epoll_ctl for it.
abbrev pub watched : {X : Type 0} → Connection X → Bool
watched c = c.registered || c.refused

-- A connection that is connected is open, and watched.
abbrev pub Alive : ConnStatu → ℤ → Bool → Type 0
Alive disconnected fd watched = Unit
Alive connecting fd watched = is_open fd ≡ true
Alive connected fd watched = (is_open fd ≡ true) × (watched ≡ true)
Alive disconnecting fd watched = Unit

-- What the callbacks leave as context and input, and how the process may end.
pub record Policy (X : Type 0) : Type 1 where
  pub Holds : Option X → Buffer → Type 0
  pub Allows : Fault → Type 0
  pub overflows : Allows overflow
  pub throws : Allows uncaught

-- Anything goes.
abbrev pub lenient : {X : Type 0} → Policy X
lenient = record {
  Holds = λ context input. Unit;
  Allows = λ why. Unit;
  overflows = tt;
  throws = tt;
}

-- Any other input would do.
abbrev pub AnyInput : {X : Type 0} (P : Policy X) → Type 0
AnyInput {X} P =
    (context : Option X) (b b' : Buffer) → IsValid b' → P.Holds context b → P.Holds context b'

-- The descriptor is closed at most once, and the context and the input are as they should be.
abbrev pub Held : {X : Type 0} (P : Policy X) → Connection X → Type 0
Held P c = ClosedOnce c.socket × P.Holds c.context c.in_buffer

abbrev pub WellFormed : {X : Type 0} (P : Policy X) → Connection X → Type 0
WellFormed P c =
    Flow c.in_buffer c.out_buffer c.channel c.sent c.accepted
    × Alive c.statu c.socket.sockfd (watched c)
    × Held P c

abbrev pub Keeps : {X : Type 0} (P : Policy X) → Result (Connection X) → Type 0
Keeps P (fault why) = P.Allows why
Keeps P (ok c) = WellFormed P c

pub then-Keeps :
    {X : Type 0} (P : Policy X) (f : Connection X → Result (Connection X))
    (r : Result (Connection X))
    → Keeps P r
    → ((c : Connection X) → WellFormed P c → Keeps P (f c))
    → Keeps P (r >>= f)
then-Keeps P f (fault why) k h = k
then-Keeps P f (ok c) k h = h c k

-- After Update the channel is watched, unless this call is refused.
pub update-watched : (r q done : Bool) → ((r || done) || (q || not done)) ≡ true
update-watched true q done = refl
update-watched false q true = refl
update-watched false true false = refl
update-watched false false false = refl

pub update-Alive :
    (statu : ConnStatu) (fd : ℤ) (r q done : Bool)
    → Alive statu fd (r || q)
    → Alive statu fd ((r || done) || (q || not done))
update-Alive disconnected fd r q done a = tt
update-Alive connecting fd r q done a = a
update-Alive connected fd r q done a = (a.0, update-watched r q done)
update-Alive disconnecting fd r q done a = tt

-- EnableWrite.
pub enable_write-WellFormed :
    {X : Type 0} (P : Policy X) (c : Connection X) (output : Buffer) (accepted : List ℕ)
    → IsValid c.in_buffer
    → IsValid output
    → accepted ≡ c.sent ++ contents output
    → Alive c.statu c.socket.sockfd (watched c)
    → Held P c
    → WellFormed P
        (update (record c { out_buffer = output; accepted = accepted }) (enable_write c.channel))
unfolding update
enable_write-WellFormed P c output accepted i o a l q = (
  flow i o a (inr (enable_write_lem c.channel).0),
  update-Alive c.statu c.socket.sockfd c.registered c.refused _ l,
  q,
)

pub if-WellFormed :
    {X : Type 0} (P : Policy X) (b : Bool) (c d : Connection X)
    → WellFormed P c
    → WellFormed P d
    → WellFormed P (if b then c else d)
if-WellFormed P true c d v w = v
if-WellFormed P false c d v w = w

pub if-Keeps :
    {X : Type 0} (P : Policy X) (b : Bool) (r s : Result (Connection X))
    → Keeps P r
    → Keeps P s
    → Keeps P (if b then r else s)
if-Keeps P true r s v w = v
if-Keeps P false r s v w = w

-- The wheel and the switch of the inactive release are no part of the invariant.
pub cancel-WellFormed :
    {X : Type 0} (P : Policy X) (c : Connection X)
    → WellFormed P c
    → WellFormed P (cancel_inactive_release_in_loop c)
unfolding cancel_inactive_release_in_loop
cancel-WellFormed P c w = if-WellFormed P (has_timer c.timer_wheel c.conn_id) _ _ w w

pub enable-WellFormed :
    {X : Type 0} (P : Policy X) (c : Connection X) (sec : ℕ)
    → WellFormed P c
    → WellFormed P (enable_inactive_release_in_loop c sec)
unfolding enable_inactive_release_in_loop
enable-WellFormed P c sec w = if-WellFormed P (has_timer c.timer_wheel c.conn_id) _ _ w w

pub disconnect-WellFormed :
    {X : Type 0} (P : Policy X) (c : Connection X) → WellFormed P c → WellFormed P (disconnect c)
unfolding disconnect
disconnect-WellFormed {X} P c w =
    let c' : Connection X = record c {
      statu = disconnected;
      registered = false;
      socket = close c.socket;
    } in
    if-WellFormed P (has_timer c.timer_wheel c.conn_id) (cancel_inactive_release_in_loop c') c'
      (cancel-WellFormed P c' (w.0, tt, (close-ClosedOnce c.socket w.2.0, w.2.1)))
      (w.0, tt, (close-ClosedOnce c.socket w.2.0, w.2.1))

-- SendInLoop after the copy out of its buffer.
append_output : {X : Type 0} → Connection X → List ℕ → Result (Connection X)
append_output c bytes = write_and_push c.out_buffer bytes >>= λ output.
    let c' = record c { out_buffer = output; accepted = c.accepted ++ bytes } in
    ok (if write_able c'.channel then c' else update c' (enable_write c'.channel))

append_output-Keeps :
    {X : Type 0} (P : Policy X) (c : Connection X) (bytes : List ℕ)
    → length bytes < word
    → WellFormed P c
    → Keeps P (append_output c bytes)
unfolding append_output
append_output-Keeps P c bytes n w = elim (write_and_push_lem bytes w.0.output_valid n) [
  | inr (f, e) ↦ rw e P.overflows
  | inl (f, (output, e, v, same)) ↦
      let acc : c.accepted ++ bytes ≡ c.sent ++ contents output =
        ap (λ xs. xs ++ bytes) w.0.accounted
        ∙ append_assoc c.sent _ _
        ∙ ap (λ xs. c.sent ++ xs) (sym same) in
      elim (Bool-cases (write_able c.channel)) [
        | inl a ↦ rw (e, a) (flow w.0.input_valid v acc (inr a), w.1, w.2)
        | inr a ↦
            rw (e, a)
              (enable_write-WellFormed P c output (c.accepted ++ bytes) w.0.input_valid v acc w.1
                w.2)
      ]
]

pub send_in_loop-Keeps :
    {X : Type 0} (P : Policy X) (c : Connection X) (buf : Buffer)
    → IsValid buf
    → WellFormed P c
    → Keeps P (send_in_loop c buf)
unfolding send_in_loop append_output
send_in_loop-Keeps P c buf v w =
    let n = read_able_size buf in
    let short : n ≤ length (contents buf) =
      omega (arith, length-contents v, read_able_size_lem v) in
    if-Keeps P (is_disconnected c.statu) _ _ w (
      rw (copy_out-contents n v short) (
        append_output-Keeps P c (take n (contents buf))
          (omega (arith, v.limited, length-contents v, length-take n (contents buf))) w))

pub send_data-Keeps :
    {X : Type 0} (P : Policy X) (c : Connection X) (bytes : List ℕ)
    → WellFormed P c
    → Keeps P (send_data c bytes)
unfolding send_data
send_data-Keeps P c bytes w = elim (Bool-cases (ltb (length bytes) word)) [
  | inr e ↦ rw e P.overflows
  | inl e ↦ elim (write_and_push_lem bytes empty-IsValid.0 (ltb→lt _ _ e)) [
    | inr (f, g) ↦ rw (e, g) P.overflows
    | inl (f, (buf, g, v, same)) ↦ rw (e, g) (send_in_loop-Keeps P c buf v w)
  ]
]
