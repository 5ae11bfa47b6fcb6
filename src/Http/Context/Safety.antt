-- ===== src/Http/Context/Safety.antt =====
-- Every call of RecvHttpRequest: RecvHttpBody, and the composition of the three steps.
use flux_a_high_performance.Prelude.{
  ℕ, ◌-◌, ◌≤◌, ◌≡◌, ◌⊎◌, inl, inr, refl, sym, ap, ◌∙◌, min, List, ◌++◌, Bool-cases, length, take,
  take-append-drop, ltb, ◌==◌, Result, ok, fault, uncaught, ◌>>=◌, arith,
}
use flux_a_high_performance.Buffer.{Buffer, read_able_size}
use flux_a_high_performance.Buffer.Inv.{IsValid, contents, length-contents}
use flux_a_high_performance.Buffer.Read.{
  advanced, advanced-IsValid, contents-advanced, move_read_offset_ok, copy_out-contents,
}
use flux_a_high_performance.Http.Request.{content_length}
use flux_a_high_performance.Http.Request.Length.{OnlyUncaught, content_length-OnlyUncaught}
use flux_a_high_performance.Http.Context.{
  HttpRecvStatus, recv_error, recv_line, recv_head, recv_body, recv_over, HttpContext, error,
  RecvResult, recv_http_head, take_body, body_taken, body_received, recv_http_body,
  recv_http_request, over, from_state, next,
}
use flux_a_high_performance.Http.Context.Progress.{
  Agreed, rank, Progress, Safe, Safe-trans, stays_put, In, In-Agreed, recv_http_line-Safe,
}
use flux_a_high_performance.Http.Context.Head.{
  HttpRecvStatus-discrete, unchanged, recv_http_head-Safe,
}

-- The context with more of the body, and the body bytes as a part of the buffer's.
abbrev pub appended : HttpContext → List ℕ → HttpContext
appended c bytes = record c { request = record (c.request) { body = c.request.body ++ bytes } }

pub take_body_ok :
    (c : HttpContext) {b : Buffer} (len : ℕ)
    → IsValid b
    → len ≤ length (contents b)
    → take_body c b len ≡ ok (appended c (take len (contents b)), advanced b len)
unfolding take_body
take_body_ok c len v h = rw (copy_out-contents len v h, move_read_offset_ok len v h)

took :
    (c c' : HttpContext) {b : Buffer} (len : ℕ)
    → IsValid b
    → len ≤ length (contents b)
    → Agreed c'.recv_status c'.resp_status
    → rank c.recv_status ≤ rank c'.recv_status
    → Progress c b c' (advanced b len)
took c c' {b} len v h a r = record {
  valid = advanced-IsValid len v h;
  agreed = a;
  forward = r;
  taken = take len (contents b);
  rest =
      sym (take-append-drop len (contents b))
      ∙ ap (λ r. take len (contents b) ++ r) (sym (contents-advanced len v h));
}

over-Progress :
    (c : HttpContext) {b : Buffer} → IsValid b → In c recv_body → Progress c b (over c) b
over-Progress c v i = stays_put c (over c) v (i.1) (simp (i.0) (omega arith))

body_taken-Safe :
    (c : HttpContext) {b : Buffer} (len need : ℕ)
    → IsValid b
    → In c recv_body
    → len ≤ length (contents b)
    → Safe c b (take_body c b len >>= body_taken len need)
unfolding body_taken
body_taken-Safe c {b} len need v i h = elim (Bool-cases (len == need)) [
  | inl t ↦ rw (take_body_ok c len v h, t) (took c _ len v h (i.1) (simp (i.0) (omega arith)))
  | inr f ↦
      rw (take_body_ok c len v h, f)
        (took c (appended c (take len (contents b))) len v h (In-Agreed c recv_body (λ e. cc) i)
          (omega arith))
]

pub body_received-Safe :
    (c : HttpContext) {b : Buffer} (content_len : ℕ)
    → IsValid b
    → In c recv_body
    → Safe c b (body_received c b content_len)
unfolding body_received
body_received-Safe c {b} n v i =
    let need = n - length c.request.body in
    elim (Bool-cases (ltb n (length c.request.body))) [
      | inl t ↦ rw t (unchanged c v (In-Agreed c recv_body (λ e. cc) i))
      | inr f ↦ elim (Bool-cases (n == 0)) [
        | inl t ↦ rw (f, t) (over-Progress c v i)
        | inr g ↦ elim (Bool-cases (need == 0)) [
          | inl t ↦ rw (f, g, t) (over-Progress c v i)
          | inr h ↦
              rw (f, g, h)
                (body_taken-Safe c (min need (read_able_size b)) need v i
                  (omega (arith, length-contents v)))
        ]
      ]
    ]

length_known-Safe :
    (c : HttpContext) {b : Buffer} (n : Result ℕ)
    → IsValid b
    → In c recv_body
    → OnlyUncaught n
    → Safe c b (n >>= body_received c b)
length_known-Safe c (ok n) v i h = body_received-Safe c n v i
length_known-Safe c (fault e) v i h = h

pub recv_http_body-Safe :
    (c : HttpContext) {b : Buffer}
    → IsValid b
    → Agreed c.recv_status c.resp_status
    → Safe c b (recv_http_body c b)
unfolding recv_http_body
recv_http_body-Safe c {b} v a = elim (HttpRecvStatus-discrete c.recv_status recv_body) [
  | yes e ↦
      simp (e, recv_http_body)
        (length_known-Safe c (content_length c.request) v (e, rw e at a)
          (content_length-OnlyUncaught c.request))
  | no ne ↦
      let same : recv_http_body c b ≡ ok (error, c, b) = ground arith in rw same (unchanged c v a)
]

pub next-Safe :
    (c : HttpContext) (b : Buffer) (s : RecvResult) (f : HttpContext → Buffer → RecvResult)
    → Safe c b s
    → ((c' : HttpContext) (b' : Buffer)
        → IsValid b'
        → Agreed c'.recv_status c'.resp_status
        → Safe c' b' (f c' b'))
    → Safe c b (next s f)
next-Safe c b (ok (_, c', b')) f p safe = Safe-trans (f c' b') p (safe c' b' p.valid p.agreed)
next-Safe c b (fault e) f p safe = p

pub from_state-Safe :
    (c : HttpContext) {b : Buffer} (s : HttpRecvStatus)
    → IsValid b
    → c.recv_status ≡ s
    → Agreed s c.resp_status
    → Safe c b (from_state s c b)
unfolding from_state
from_state-Safe c {b} recv_line v e a =
    next-Safe c b _ recv_http_body
      (next-Safe c b _ recv_http_head (recv_http_line-Safe c v (e, a))
        (λ c' b' v' a'. recv_http_head-Safe c' v' a'))
      (λ c' b' v' a'. recv_http_body-Safe c' v' a')
from_state-Safe c {b} recv_head v e a =
    next-Safe c b _ recv_http_body (recv_http_head-Safe c v (rw e a))
      (λ c' b' v' a'. recv_http_body-Safe c' v' a')
from_state-Safe c {b} recv_body v e a = recv_http_body-Safe c v (rw e a)
from_state-Safe c {b} recv_over v e a = unchanged c v (rw e a)
from_state-Safe c {b} recv_error v e a = unchanged c v (rw e a)

-- The result of a safe step, as RecvHttpRequest returns it.
abbrev pub Received : HttpContext → Buffer → Result (HttpContext × Buffer) → Type 0
Received c b r =
    ((c' : HttpContext) × (b' : Buffer) × (r ≡ ok (c', b')) × Progress c b c' b')
    ⊎ (r ≡ fault uncaught)

received :
    (c : HttpContext) {b : Buffer} (s : RecvResult)
    → Safe c b s
    → Received c b (s >>= λ r. ok (r.1, r.2))
received c (ok (_, c', b')) p = inl (c', b', refl, p)
received c (fault e) p = inr (ap fault p)

-- From a valid buffer, and a status code in step with the state, RecvHttpRequest returns (its loop
-- ends, no assert fails and nothing outside the buffer is read), unless std::stol throws. What it
-- returns is a valid buffer that has lost bytes at its front only, a state that is not an earlier
-- one, and a status code that is still in step: 200 before an error, 400 or more after one.
pub recv_http_request_lem :
    (c : HttpContext) {b : Buffer}
    → IsValid b
    → Agreed c.recv_status c.resp_status
    → Received c b (recv_http_request c b)
unfolding recv_http_request
recv_http_request_lem c {b} v a =
    received c (from_state c.recv_status c b) (from_state-Safe c c.recv_status v refl a)
