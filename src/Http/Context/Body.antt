-- ===== src/Http/Context/Body.antt =====
-- RecvHttpBody: how much of the body it takes.
use flux_a_high_performance.Prelude.{
  ℕ, ◌+◌, ◌-◌, ◌≤◌, ◌<◌, ◌≡◌, ◌⊎◌, inl, inr, ◌∙◌, min, true, false, [], length, take, drop,
  take-all, drop-all, ltb, ◌==◌, ok, ◌>>=◌, arith,
}
use native.Mathlib.Decide.{dec_le}
use flux_a_high_performance.Buffer.{Buffer, read_able_size}
use flux_a_high_performance.Buffer.Inv.{IsValid, contents, length-contents}
use flux_a_high_performance.Buffer.Read.{advanced, contents-advanced}
use flux_a_high_performance.Http.Request.{content_length}
use flux_a_high_performance.Http.Context.{
  recv_body, HttpContext, need_more, success, body_taken, body_received, recv_http_body, over,
  take_body,
}
use flux_a_high_performance.Http.Context.Safety.{appended, take_body_ok}

-- With bytes missing, the branch that takes some.
body_step :
    (c : HttpContext) (b : Buffer) (n m : ℕ)
    → length c.request.body < n
    → min (n - length c.request.body) (read_able_size b) ≡ m
    → body_received c b n ≡ (take_body c b m >>= body_taken m (n - length c.request.body))
unfolding body_received
body_step c b n m h e =
    let f : ltb n (length c.request.body) ≡ false = ground arith in
    let g : (n == 0) ≡ false = ground arith in
    let k : (n - length c.request.body == 0) ≡ false = ground arith in rw (f, g, k, e)

body_complete :
    (c : HttpContext) {b : Buffer} (n need : ℕ)
    → IsValid b
    → length c.request.body + need ≡ n
    → 0 < need
    → need ≤ length (contents b)
    → body_received c b n
      ≡ ok (success, over (appended c (take need (contents b))), advanced b need)
unfolding body_taken
body_complete c {b} n need v e p h =
    let m : n - length c.request.body ≡ need = omega arith in
    let t : (need == need) ≡ true = ground arith in
    rw (
      body_step c b n need (omega arith) (omega (arith, length-contents v)),
      take_body_ok c need v h,
      m,
      t,
    )

body_partial :
    (c : HttpContext) {b : Buffer} (n need : ℕ)
    → IsValid b
    → length c.request.body + need ≡ n
    → length (contents b) < need
    → body_received c b n
      ≡ ok (need_more, appended c (contents b), advanced b (length (contents b)))
unfolding body_taken
body_partial c {b} n need v e h =
    let len = length (contents b) in
    let m : n - length c.request.body ≡ need = omega arith in
    let t : (len == need) ≡ false = ground arith in
    rw (
      body_step c b n len (omega arith) (omega (arith, length-contents v)),
      take_body_ok c len v (omega arith),
      take-all len (contents b) (omega arith),
      m,
      t,
    )

pub body_due :
    (c : HttpContext) (b : Buffer) (n : ℕ)
    → c.recv_status ≡ recv_body
    → content_length c.request ≡ ok n
    → recv_http_body c b ≡ body_received c b n
unfolding recv_http_body
body_due c b n s l = simp (s, l, recv_http_body)

-- RecvHttpBody, with a body of which `need` bytes are missing. If the buffer holds as many, exactly
-- those are taken, the request is over, and the bytes behind them stay for the next request.
-- Otherwise all of the buffer is taken and the state stays.
pub recv_http_body_lem :
    (c : HttpContext) {b : Buffer} (n need : ℕ)
    → IsValid b
    → c.recv_status ≡ recv_body
    → content_length c.request ≡ ok n
    → length c.request.body + need ≡ n
    → 0 < need
    → ((need ≤ length (contents b))
        × (recv_http_body c b
            ≡ ok (success, over (appended c (take need (contents b))), advanced b need))
        × (contents (advanced b need) ≡ drop need (contents b)))
      ⊎ ((length (contents b) < need)
          × (recv_http_body c b
              ≡ ok (need_more, appended c (contents b), advanced b (length (contents b))))
          × (contents (advanced b (length (contents b))) ≡ []))
recv_http_body_lem c {b} n need v s l e p = elim (dec_le need (length (contents b))) [
  | yes h ↦ inl (h, body_due c b n s l ∙ body_complete c n need v e p h, contents-advanced need v h)
  | no h ↦ inr (
    omega arith,
    body_due c b n s l ∙ body_partial c n need v e (omega arith),
    contents-advanced (length (contents b)) v (omega arith)
        ∙ drop-all (length (contents b)) (contents b) (omega arith),
  )
]
