-- ===== src/Http/Context/Head.antt =====
-- RecvHttpHead: a header line in each round, until the blank line.
use flux_a_high_performance.Prelude.{
  ℕ, zero, suc, ◌+◌, ◌<◌, ◌≡◌, ◌⊎◌, inl, inr, refl, ◌∙◌, Bool, true, false, List, Option-cases,
  Bool-cases, length, ltb, ◌==◌, ok, arith, codes, find,
}
use flux_a_high_performance.Buffer.{Buffer, read_able_size}
use flux_a_high_performance.Buffer.Inv.{IsValid, contents, length-contents}
use flux_a_high_performance.Http.Context.{
  HttpRecvStatus, recv_head, recv_body, HttpContext, error, RecvResult, parse_http_head,
  head_parsed, head_received, head_loop, recv_http_head, is_blank_line, drop_last,
}
use flux_a_high_performance.Http.Context.Progress.{
  Agreed, Progress, Safe, Safe-trans, stays_put, rank-le, fail_with-Progress, no_line-Safe, In,
  In-Agreed, Parsed, with_line,
}

pub HttpRecvStatus-discrete : Discrete HttpRecvStatus
HttpRecvStatus-discrete = hlevel

parse_http_head-Parsed : (c : HttpContext) (line : List ℕ) → Parsed c (ok (parse_http_head c line))
unfolding parse_http_head
parse_http_head-Parsed c line =
    elim (Option-cases (find (codes ": ") (drop_last b'\r' (drop_last b'\n' line)))) [
      | inl e ↦ rw (e, parse_http_head) (refl, refl)
      | inr (pos, e) ↦ rw (e, parse_http_head) (refl, refl)
    ]

head_parsed-Safe :
    (more : HttpContext → Buffer → RecvResult) (c : HttpContext) {b : Buffer}
    (r : Bool × HttpContext)
    → IsValid b
    → In c recv_head
    → ((c' : HttpContext) → In c' recv_head → Safe c' b (more c' b))
    → Parsed c (ok r)
    → Safe c b (head_parsed more r b)
unfolding head_parsed
head_parsed-Safe more c {b} (true, c') v i safe (p, q) =
    Safe-trans (more c' b) (stays_put c c' v (rw (p, i.0) (q ∙ i.1)) (rw p (omega arith)))
      (safe c' (p ∙ i.0, q ∙ i.1))
head_parsed-Safe more c (false, c') v i safe (p, q) =
    stays_put c c' v (rw p (omega (arith, q))) (rw p (rank-le c.recv_status))

not_empty : {P : Type 0} (line : List ℕ) → (length line == 0) ≡ false → (length line ≡ 0) ⊎ P → P
not_empty line f (inl e) = absurd (ground arith)
not_empty line f (inr p) = p

pub head_received-Safe :
    {P : Type 0} (more : HttpContext → Buffer → RecvResult) (c : HttpContext) (line : List ℕ)
    {b : Buffer}
    → IsValid b
    → In c recv_head
    → (length line ≡ 0) ⊎ P
    → (P → (c' : HttpContext) → In c' recv_head → Safe c' b (more c' b))
    → Safe c b (head_received more c line b)
unfolding head_received
head_received-Safe more c line {b} v i short safe =
    let a = In-Agreed c recv_head (λ e. cc) i in
    elim (Bool-cases (length line == 0)) [
      | inl t ↦ rw t (no_line-Safe c v a)
      | inr f ↦ elim (Bool-cases (ltb 8192 (length line))) [
        | inl t ↦ rw (f, t) (fail_with-Progress c 414 v (omega arith))
        | inr g ↦ elim (Bool-cases (is_blank_line line)) [
          | inl t ↦
              rw (f, g, t)
                (stays_put c (record c { recv_status = recv_body }) v (i.1)
                  (simp (i.0) (omega arith)))
          | inr h ↦
              rw (f, g, h)
                (head_parsed-Safe more c (parse_http_head c line) v i
                  (safe (not_empty line f short)) (parse_http_head-Parsed c line))
        ]
      ]
    ]

-- A round with a line leaves fewer bytes, so as much fuel as there are bytes is enough.
pub head_loop-Safe :
    (fuel : ℕ) (c : HttpContext) {b : Buffer}
    → IsValid b
    → In c recv_head
    → length (contents b) < fuel
    → Safe c b (head_loop fuel c b)
unfolding head_loop
head_loop-Safe zero c v i h = absurd (omega arith)
head_loop-Safe (suc fuel) c {b} v i h =
    with_line c (head_received (head_loop fuel) c) v (In-Agreed c recv_head (λ e. cc) i)
      (λ line b' v' _ short.
        head_received-Safe (head_loop fuel) c line v' i short
          (λ less c' i'. head_loop-Safe fuel c' v' i' (omega (arith, less))))

-- In any other state the call does nothing.
pub unchanged :
    (c : HttpContext) {b : Buffer}
    → IsValid b
    → Agreed c.recv_status c.resp_status
    → Progress c b c b
unchanged c v a = stays_put c c v a (omega arith)

pub recv_http_head-Safe :
    (c : HttpContext) {b : Buffer}
    → IsValid b
    → Agreed c.recv_status c.resp_status
    → Safe c b (recv_http_head c b)
unfolding recv_http_head
recv_http_head-Safe c {b} v a = elim (HttpRecvStatus-discrete c.recv_status recv_head) [
  | yes e ↦
      simp (e, recv_http_head)
        (head_loop-Safe (read_able_size b + 1) c v (e, rw e at a)
          (omega (arith, length-contents v)))
  | no ne ↦
      let same : recv_http_head c b ≡ ok (error, c, b) = ground arith in rw same (unchanged c v a)
]
