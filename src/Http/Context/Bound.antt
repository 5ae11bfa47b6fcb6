-- ===== src/Http/Context/Bound.antt =====
-- A bound for the rounds of OnMessage: RecvHttpRequest pays for a finished request with bytes, or
-- with the state it began in.
use flux_a_high_performance.Prelude.{
  ℕ, zero, suc, ◌+◌, ◌≤◌, ◌<◌, ◌≡◌, inl, inr, refl, ap, ◌∙◌, List, [], ◌∷◌, ◌++◌, Bool-cases,
  length, ltb, length-append, Result, ok, fault, ◌>>=◌, arith,
}
use flux_a_high_performance.Buffer.{Buffer, read_able_size, get_line_and_pop}
use flux_a_high_performance.Buffer.Inv.{IsValid, contents, length-contents}
use flux_a_high_performance.Buffer.Lines.{get_line_and_pop-cases}
use flux_a_high_performance.Http.Context.{
  HttpRecvStatus, recv_error, recv_line, recv_head, recv_body, recv_over, HttpContext, error,
  RecvResult, no_line, line_received, recv_http_line, head_received, head_loop, recv_http_head,
  recv_http_body, from_state, next, recv_http_request, reset,
}
use flux_a_high_performance.Http.Context.Progress.{
  Agreed, Safe, In, line_received-Safe, recv_http_line-Safe,
}
use flux_a_high_performance.Http.Context.Head.{
  HttpRecvStatus-discrete, head_received-Safe, head_loop-Safe, recv_http_head-Safe,
}
use flux_a_high_performance.Http.Context.Safety.{recv_http_body-Safe, next-Safe}

-- A request that is over, or whose body is due, has been paid with one byte more.
abbrev pub weight : HttpRecvStatus → ℕ
weight recv_line = 1
weight recv_head = 1
weight recv_body = 2
weight recv_over = 2
weight recv_error = 1

abbrev pub measure : HttpContext → Buffer → ℕ
measure c b = length (contents b) + weight c.recv_status

abbrev pub Bounded : ℕ → RecvResult → Type 0
Bounded m (ok (_, c', b')) = measure c' b' ≤ m
Bounded m (fault e) = Unit {0}

pub weight-le : (s : HttpRecvStatus) → weight s ≤ 2
weight-le recv_line = omega arith
weight-le recv_head = omega arith
weight-le recv_body = omega arith
weight-le recv_over = omega arith
weight-le recv_error = omega arith

pub weight-ge : (s : HttpRecvStatus) → 1 ≤ weight s
weight-ge recv_line = omega arith
weight-ge recv_head = omega arith
weight-ge recv_body = omega arith
weight-ge recv_over = omega arith
weight-ge recv_error = omega arith

-- A safe step from a buffer that has lost a byte already.
paid :
    (c : HttpContext) (b b' : Buffer) (s : RecvResult)
    → length (contents b') < length (contents b)
    → Safe c b' s
    → Bounded (measure c b) s
paid c b b' (ok (_, c', b'')) h p =
    let e = ap length p.rest ∙ length-append p.taken (contents b'') in
    omega (arith, weight-le c'.recv_status, weight-ge c.recv_status)
paid c b b' (fault e) h p = tt

no_line-Bounded : (c : HttpContext) (b : Buffer) → Bounded (measure c b) (no_line c b)
unfolding no_line
no_line-Bounded c b = elim (Bool-cases (ltb 8192 (read_able_size b))) [
  | inl t ↦ rw t (omega (arith, weight-ge c.recv_status))
  | inr f ↦ rw f (omega arith)
]

line_taken-Bounded :
    (c : HttpContext) {b : Buffer} (f : List ℕ → Buffer → RecvResult)
    → IsValid b
    → Bounded (measure c b) (f [] b)
    → ((line : List ℕ) (b' : Buffer)
        → IsValid b'
        → length (contents b') < length (contents b)
        → Safe c b' (f line b'))
    → Bounded (measure c b) (do (line, b') ← get_line_and_pop b; f line b')
line_taken-Bounded c {b} f v nothing safe = elim (get_line_and_pop-cases v) [
  | inl (_, e) ↦ rw e nothing
  | inr (line, b', _, e, g, v') ↦
      let shorter : length (contents b') < length (contents b) =
        omega (arith, ap length e, length-append line (b'\n' ∷ contents b')) in
      rw g
        (paid c b b' (f (line ++ b'\n' ∷ []) b') shorter (safe (line ++ b'\n' ∷ []) b' v' shorter))
]

recv_http_line-Bounded :
    (c : HttpContext) {b : Buffer}
    → IsValid b
    → In c recv_line
    → Bounded (measure c b) (recv_http_line c b)
unfolding recv_http_line line_received
recv_http_line-Bounded c {b} v i =
    let same : recv_http_line c b ≡ (do (line, b') ← get_line_and_pop b; line_received c line b') =
      simp (i.0, recv_http_line) in
    rw same (
      line_taken-Bounded c (line_received c) v (no_line-Bounded c b)
        (λ line b' v' _. line_received-Safe c line v' i))

head_loop-Bounded :
    (fuel : ℕ) (c : HttpContext) {b : Buffer}
    → IsValid b
    → In c recv_head
    → length (contents b) < fuel
    → Bounded (measure c b) (head_loop fuel c b)
unfolding head_loop head_received
head_loop-Bounded zero c v i h = absurd (omega arith)
head_loop-Bounded (suc fuel) c {b} v i h =
    line_taken-Bounded c (head_received (head_loop fuel) c) v (no_line-Bounded c b)
      (λ line b' v' less.
        head_received-Safe {P = Unit {0}} (head_loop fuel) c line v' i (inr tt)
          (λ _ c' i'. head_loop-Safe fuel c' v' i' (omega arith)))

recv_http_head-Bounded :
    (c : HttpContext) {b : Buffer}
    → IsValid b
    → Agreed c.recv_status c.resp_status
    → Bounded (measure c b) (recv_http_head c b)
unfolding recv_http_head
recv_http_head-Bounded c {b} v a = elim (HttpRecvStatus-discrete c.recv_status recv_head) [
  | yes e ↦
      let same : recv_http_head c b ≡ head_loop (read_able_size b + 1) c b =
        simp (e, recv_http_head) in
      rw same (
        head_loop-Bounded (read_able_size b + 1) c v (e, rw e at a)
          (omega (arith, length-contents v)))
  | no ne ↦ let same : recv_http_head c b ≡ ok (error, c, b) = ground arith in rw same (omega arith)
]

-- A step in a state of the greatest weight.
heavy :
    (c : HttpContext) (b : Buffer) (s : RecvResult)
    → weight c.recv_status ≡ 2
    → Safe c b s
    → Bounded (measure c b) s
heavy c b (ok (_, c', b')) h p =
    let e = ap length p.rest ∙ length-append p.taken (contents b') in
    omega (arith, weight-le c'.recv_status)
heavy c b (fault e) h p = tt

recv_http_body-Bounded :
    (c : HttpContext) {b : Buffer}
    → IsValid b
    → Agreed c.recv_status c.resp_status
    → Bounded (measure c b) (recv_http_body c b)
unfolding recv_http_body
recv_http_body-Bounded c {b} v a = elim (HttpRecvStatus-discrete c.recv_status recv_body) [
  | yes e ↦ heavy c b (recv_http_body c b) (ap weight e) (recv_http_body-Safe c v a)
  | no ne ↦ let same : recv_http_body c b ≡ ok (error, c, b) = ground arith in rw same (omega arith)
]

Bounded-le : (m n : ℕ) (s : RecvResult) → m ≤ n → Bounded m s → Bounded n s
Bounded-le m n (ok (_, c', b')) h k = omega arith
Bounded-le m n (fault e) h k = tt

next-Bounded :
    (c : HttpContext) (b : Buffer) (s : RecvResult) (f : HttpContext → Buffer → RecvResult)
    → Safe c b s
    → Bounded (measure c b) s
    → ((c' : HttpContext) (b' : Buffer)
        → IsValid b'
        → Agreed c'.recv_status c'.resp_status
        → Bounded (measure c' b') (f c' b'))
    → Bounded (measure c b) (next s f)
next-Bounded c b (ok (_, c', b')) f p k bounded =
    Bounded-le (measure c' b') (measure c b) (f c' b') k (bounded c' b' p.valid p.agreed)
next-Bounded c b (fault e) f p k bounded = tt

from_state-Bounded :
    (c : HttpContext) {b : Buffer} (s : HttpRecvStatus)
    → IsValid b
    → c.recv_status ≡ s
    → Agreed s c.resp_status
    → Bounded (measure c b) (from_state s c b)
unfolding from_state
from_state-Bounded c {b} recv_line v e a =
    next-Bounded c b _ recv_http_body
      (next-Safe c b _ recv_http_head (recv_http_line-Safe c v (e, a))
        (λ c' b' v' a'. recv_http_head-Safe c' v' a'))
      (next-Bounded c b _ recv_http_head (recv_http_line-Safe c v (e, a))
        (recv_http_line-Bounded c v (e, a)) (λ c' b' v' a'. recv_http_head-Bounded c' v' a'))
      (λ c' b' v' a'. recv_http_body-Bounded c' v' a')
from_state-Bounded c {b} recv_head v e a =
    next-Bounded c b _ recv_http_body (recv_http_head-Safe c v (rw e a))
      (recv_http_head-Bounded c v (rw e a)) (λ c' b' v' a'. recv_http_body-Bounded c' v' a')
from_state-Bounded c {b} recv_body v e a = recv_http_body-Bounded c v (rw e a)
from_state-Bounded c {b} recv_over v e a = omega arith
from_state-Bounded c {b} recv_error v e a = omega arith

abbrev pub Within : ℕ → Result (HttpContext × Buffer) → Type 0
Within m (ok (c', b')) = measure c' b' ≤ m
Within m (fault e) = Unit {0}

result-Within : (m : ℕ) (s : RecvResult) → Bounded m s → Within m (s >>= λ r. ok (r.1, r.2))
result-Within m (ok (_, c', b')) k = k
result-Within m (fault e) k = tt

-- What RecvHttpRequest leaves is within the measure of what it began with.
pub recv_http_request-Within :
    (c : HttpContext) {b : Buffer}
    → IsValid b
    → Agreed c.recv_status c.resp_status
    → Within (measure c b) (recv_http_request c b)
unfolding recv_http_request
recv_http_request-Within c {b} v a =
    result-Within (measure c b) (from_state c.recv_status c b)
      (from_state-Bounded c c.recv_status v refl a)

-- What Reset leaves, for a request of any kind.
pub reset-new_context :
    (c : HttpContext) → ((reset c).recv_status ≡ recv_line) × ((reset c).resp_status ≡ 200)
unfolding reset
reset-new_context c = (refl, refl)
