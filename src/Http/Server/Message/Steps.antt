-- ===== src/Http/Server/Message/Steps.antt =====
-- The steps of OnMessage: a response is sent, a connection is shut down, and the loop goes on.
use flux_a_high_performance.Prelude.{
  ℕ, ◌+◌, ◌^◌, ◌≤◌, ◌<◌, ◌≡◌, ◌⊎◌, inl, inr, refl, ap, ◌∙◌, Bool, true, false, List, [], ◌∷◌, ◌++◌,
  leb, ◌==◌, if◌then◌else◌, Bool-cases, length, Result, ok, fault, uncaught, overflow, ◌>>=◌, arith,
}
use flux_a_high_performance.Buffer.{read_able_size}
use flux_a_high_performance.Buffer.Inv.{IsValid, contents}
use flux_a_high_performance.Buffer.Stream.{empty-IsValid}
use flux_a_high_performance.Buffer.Write.{write_and_push_lem}
use flux_a_high_performance.Http.Request.{HttpRequest}
use flux_a_high_performance.Http.Response.{HttpResponse, response_text}
use flux_a_high_performance.Http.Context.{recv_over}
use flux_a_high_performance.Http.Context.Progress.{Agreed}
use flux_a_high_performance.Http.Context.Bound.{weight, measure, reset-new_context}
use flux_a_high_performance.Http.Server.Message.{
  Connection, finished, send, make_response, shutdown, shut_down,
}

-- What OnMessage keeps of a connection.
pub record IsReady (conn : Connection) : Type 0 where
  pub buffer_valid : IsValid conn.buffer
  pub status_agreed : Agreed conn.context.recv_status conn.context.resp_status

abbrev pub size_of : Connection → ℕ
size_of conn = measure conn.context conn.buffer

-- A result within a bound; the faults are the exception of std::stol and a response that is too long
-- for a buffer.
abbrev pub Ends : ℕ → Result Connection → Type 0
Ends m (ok conn) = IsReady conn × (size_of conn ≤ m)
Ends m (fault e) = (e ≡ uncaught) ⊎ (e ≡ overflow)

-- The step sends something and changes nothing else.
unfoldable pub Sends : Connection → Result Connection → Type 0
Sends conn (ok conn') = (conn'.context ≡ conn.context) × (conn'.buffer ≡ conn.buffer)
Sends conn (fault e) = (e ≡ uncaught) ⊎ (e ≡ overflow)

pub send-Sends : (conn : Connection) (bytes : List ℕ) → Sends conn (send conn bytes)
unfolding send Sends
send-Sends conn bytes = elim (Bool-cases (leb (2 ^ 63) (length bytes))) [
  | inl t ↦ rw t (inl refl)
  | inr f ↦ elim (write_and_push_lem bytes (empty-IsValid.0) (ground arith)) [
    | inl (_, (b', e, _, _)) ↦ rw (f, e) (refl, refl)
    | inr (_, e) ↦ rw (f, e) (inr refl)
  ]
]

-- The rest of the loop, on everything below a bound.
unfoldable pub Ender : ℕ → (Connection → Result Connection) → Type 0
Ender m more =
    (conn : Connection) → IsReady conn → size_of conn < m → Ends (size_of conn) (more conn)

pub make_response-Sends :
    (conn : Connection) (req : HttpRequest) (resp : HttpResponse)
    → Sends conn (make_response conn req resp)
unfolding make_response
make_response-Sends conn req resp = send-Sends conn (response_text req resp)

pub finished-IsReady : (conn : Connection) → IsValid conn.buffer → IsReady (finished conn)
finished-IsReady conn v =
    let (s, r) = reset-new_context conn.context in
    record { buffer_valid = v; status_agreed = rw (s, r) refl }

pub size_of-finished :
    (conn : Connection) → size_of (finished conn) ≡ length (contents conn.buffer) + 1
size_of-finished conn =
    ap (λ s. length (contents conn.buffer) + weight s) ((reset-new_context conn.context).0)

pub Ends-le : (m n : ℕ) (r : Result Connection) → m ≤ n → Ends m r → Ends n r
Ends-le m n (ok conn) h (p, q) = (p, omega arith)
Ends-le m n (fault e) h k = k

pub shutdown-Ends :
    (m : ℕ) (more : Connection → Result Connection) (conn : Connection)
    → Ender m more
    → IsReady conn
    → size_of conn < m
    → Ends (size_of conn) (shutdown more conn)
unfolding shutdown Ender
shutdown-Ends m more conn ender r h =
    let conn' = record conn { events = conn.events ++ shut_down ∷ [] } in
    let r' : IsReady conn' = record {
      buffer_valid = r.buffer_valid;
      status_agreed = r.status_agreed;
    } in
    elim (Bool-cases (read_able_size conn.buffer == 0)) [
      | inl t ↦ rw t (r', omega arith)
      | inr f ↦ rw f (ender conn' r' h)
    ]

-- The rest of the loop after a step.
pub then-Ends :
    (m n : ℕ) (more : Connection → Result Connection) (r : Result Connection)
    → Ender m more
    → n < m
    → Ends n r
    → Ends n (r >>= more)
unfolding Ender
then-Ends m n more (ok conn) ender h (p, q) =
    Ends-le (size_of conn) n (more conn) q (ender conn p (omega arith))
then-Ends m n more (fault e) ender h k = k

pub closed_or_not-Ends :
    (m : ℕ) (more : Connection → Result Connection) (conn : Connection) (short : Bool)
    → Ender m more
    → IsReady conn
    → size_of conn < m
    → Ends (size_of conn) (if short then shutdown more conn else ok conn)
closed_or_not-Ends m more conn true ender r h = shutdown-Ends m more conn ender r h
closed_or_not-Ends m more conn false ender r h = (r, omega arith)

-- The loop goes on with a connection whose request has been answered.
pub answered-Ends :
    (m : ℕ) (more : Connection → Result Connection) (conn : Connection) (short : Bool)
    (r : Result Connection)
    → Ender m more
    → IsReady conn
    → conn.context.recv_status ≡ recv_over
    → size_of conn ≤ m
    → Sends conn r
    → Ends (size_of conn) (
        r >>= λ conn'.
        ((if short then shutdown more (finished conn') else ok (finished conn')) >>= more))
unfolding Sends
answered-Ends m more conn short (ok conn') ender ready over h (same_context, same_buffer) =
    let v : IsValid conn'.buffer = rw same_buffer ready.buffer_valid in
    let p : size_of (finished conn') ≡ length (contents conn.buffer) + 1 =
      size_of-finished conn' ∙ ap (λ b. length (contents b) + 1) same_buffer in
    let q : size_of conn ≡ length (contents conn.buffer) + 2 =
      ap (λ s. length (contents conn.buffer) + weight s) over in
    Ends-le (size_of (finished conn')) (size_of conn) _ (omega arith) (
      then-Ends m (size_of (finished conn')) more _ ender (omega arith) (
        closed_or_not-Ends m more (finished conn') short ender (finished-IsReady conn' v)
          (omega arith)))
answered-Ends m more conn short (fault e) ender ready over h k = k
