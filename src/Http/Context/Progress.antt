-- ===== src/Http/Context/Progress.antt =====
-- What a step of HttpContext keeps, and that RecvHttpLine keeps it: the buffer's invariant, the status code in step with the
-- state, the order of the states, and the bytes behind those that it takes.
use flux_a_high_performance.Prelude.{
  ℕ, ◌≤◌, ◌<◌, ◌≡◌, ◌≢◌, ◌⊎◌, inl, inr, refl, sym, ap, ◌∙◌, Bool, true, false, List, [], ◌∷◌, ◌++◌,
  append_assoc, Option-cases, Bool-cases, length, ltb, ◌==◌, length-append, Result, ok, fault,
  uncaught, ◌>>=◌, arith,
}
use flux_a_high_performance.Buffer.{Buffer, read_able_size, get_line_and_pop}
use flux_a_high_performance.Buffer.Inv.{IsValid, contents}
use flux_a_high_performance.Buffer.Lines.{get_line_and_pop-cases}
use flux_a_high_performance.Http.Util.Tokens.{tokens}
use flux_a_high_performance.Http.Util.Split.{split_lem}
use flux_a_high_performance.Http.Line.{RequestLine, match_line}
use flux_a_high_performance.Http.Context.{
  HttpRecvStatus, recv_error, recv_line, recv_head, recv_body, recv_over, HttpContext, RecvResult,
  fail_with, no_line, query_parts, query_parsed, set_params, with_target, parse_http_line,
  line_parsed, line_received, recv_http_line,
}

-- The status code is 200 until an error is recorded, and then 400 or more.
abbrev pub Agreed : HttpRecvStatus → ℕ → Type 0
Agreed recv_error code = 400 ≤ code
Agreed recv_line code = code ≡ 200
Agreed recv_head code = code ≡ 200
Agreed recv_body code = code ≡ 200
Agreed recv_over code = code ≡ 200

abbrev pub rank : HttpRecvStatus → ℕ
rank recv_line = 0
rank recv_head = 1
rank recv_body = 2
rank recv_over = 3
rank recv_error = 4

pub record Progress (c : HttpContext) (b : Buffer) (c' : HttpContext) (b' : Buffer) : Type 0 where
  pub valid : IsValid b'
  pub agreed : Agreed c'.recv_status c'.resp_status
  pub forward : rank c.recv_status ≤ rank c'.recv_status
  pub taken : List ℕ
  pub rest : contents b ≡ taken ++ contents b'

-- The only fault left is the exception of std::stol.
abbrev pub Safe : HttpContext → Buffer → RecvResult → Type 0
Safe c b (ok (_, c', b')) = Progress c b c' b'
Safe c b (fault e) = e ≡ uncaught

pub trans :
    {c c' c'' : HttpContext} {b b' b'' : Buffer}
    → Progress c b c' b'
    → Progress c' b' c'' b''
    → Progress c b c'' b''
trans p q = record {
  valid = q.valid;
  agreed = q.agreed;
  forward = omega arith;
  taken = p.taken ++ q.taken;
  rest = p.rest ∙ ap (λ r. p.taken ++ r) q.rest ∙ sym (append_assoc p.taken q.taken _);
}

pub Safe-trans :
    {c c' : HttpContext} {b b' : Buffer} (s : RecvResult)
    → Progress c b c' b'
    → Safe c' b' s
    → Safe c b s
Safe-trans (ok (_, _, _)) p q = trans p q
Safe-trans (fault e) p q = q

-- A step that takes no byte.
pub stays_put :
    (c c' : HttpContext) {b : Buffer}
    → IsValid b
    → Agreed c'.recv_status c'.resp_status
    → rank c.recv_status ≤ rank c'.recv_status
    → Progress c b c' b
stays_put c c' v a h = record { valid = v; agreed = a; forward = h; taken = []; rest = refl }

pub rank-le : (s : HttpRecvStatus) → rank s ≤ 4
rank-le recv_line = omega arith
rank-le recv_head = omega arith
rank-le recv_body = omega arith
rank-le recv_over = omega arith
rank-le recv_error = omega arith

pub fail_with-Progress :
    (c : HttpContext) {b : Buffer} (code : ℕ)
    → IsValid b
    → 400 ≤ code
    → Progress c b (fail_with c code) b
fail_with-Progress c code v h = stays_put c (fail_with c code) v h (rank-le c.recv_status)

pub no_line-Safe :
    (c : HttpContext) {b : Buffer}
    → IsValid b
    → Agreed c.recv_status c.resp_status
    → Safe c b (no_line c b)
unfolding no_line
no_line-Safe c {b} v a = elim (Bool-cases (ltb 8192 (read_able_size b))) [
  | inl t ↦ rw t (fail_with-Progress c 414 v (omega arith))
  | inr f ↦ rw f (stays_put c c v a (omega arith))
]

query_parts_total : (q : List ℕ) → (parts : List (List ℕ)) × (query_parts q ≡ ok parts)
unfolding query_parts
query_parts_total q = elim (Bool-cases (length q == 0)) [
  | inl t ↦ ([], rw t)
  | inr f ↦ elim (split_lem b'&' q) [
    | inl (_, e) ↦ ([], rw (f, e))
    | inr (_, e) ↦ (tokens b'&' q, rw (f, e))
  ]
]

-- A parsed line leaves the state alone, and any other records 400.
abbrev pub Parsed : HttpContext → Result (Bool × HttpContext) → Type 0
Parsed c (ok (true, c')) = (c'.recv_status ≡ c.recv_status) × (c'.resp_status ≡ c.resp_status)
Parsed c (ok (false, c')) = (c'.recv_status ≡ recv_error) × (c'.resp_status ≡ 400)
Parsed c (fault e) = ⊥

query_parsed-Parsed :
    (c : HttpContext) (l : RequestLine) (parts : List (List ℕ))
    → Parsed c (ok (query_parsed c l parts))
unfolding query_parsed
query_parsed-Parsed c l parts = elim (Option-cases (set_params (with_target c.request l) parts)) [
  | inl g ↦ rw (g, query_parsed) (refl, refl)
  | inr (r, g) ↦ rw (g, query_parsed) (refl, refl)
]

parse_http_line-Parsed : (c : HttpContext) (line : List ℕ) → Parsed c (parse_http_line c line)
unfolding parse_http_line
parse_http_line-Parsed c line = elim (Option-cases (match_line line)) [
  | inl e ↦ rw (e, parse_http_line) (refl, refl)
  | inr (l, e) ↦
      let (parts, f) = query_parts_total l.query in
      rw (e, parse_http_line, f) (query_parsed-Parsed c l parts)
]

line_parsed-Safe :
    (c : HttpContext) {b : Buffer} (r : Result (Bool × HttpContext))
    → IsValid b
    → Agreed c.recv_status c.resp_status
    → c.recv_status ≡ recv_line
    → Parsed c r
    → Safe c b (r >>= λ p. line_parsed p b)
unfolding line_parsed
line_parsed-Safe c (ok (true, c')) v a s (p, q) =
    stays_put c (record c' { recv_status = recv_head }) v (q ∙ (rw s at a)) (rw s (omega arith))
line_parsed-Safe c (ok (false, c')) v a s (p, q) =
    stays_put c c' v (rw p (omega (arith, q))) (rw p (rank-le c.recv_status))
line_parsed-Safe c (fault e) v a s p = absurd p

-- The state in which a step is taken.
abbrev pub In : HttpContext → HttpRecvStatus → Type 0
In c s = (c.recv_status ≡ s) × (c.resp_status ≡ 200)

pub In-Agreed :
    (c : HttpContext) (s : HttpRecvStatus)
    → s ≢ recv_error
    → In c s
    → Agreed c.recv_status c.resp_status
In-Agreed c recv_error ne i = absurd (ne refl)
In-Agreed c recv_line ne i = rw (i.0) (i.1)
In-Agreed c recv_head ne i = rw (i.0) (i.1)
In-Agreed c recv_body ne i = rw (i.0) (i.1)
In-Agreed c recv_over ne i = rw (i.0) (i.1)

pub line_received-Safe :
    (c : HttpContext) (line : List ℕ) {b : Buffer}
    → IsValid b
    → In c recv_line
    → Safe c b (line_received c line b)
unfolding line_received
line_received-Safe c line {b} v i =
    let a = In-Agreed c recv_line (λ e. cc) i in
    elim (Bool-cases (length line == 0)) [
      | inl t ↦ rw t (no_line-Safe c v a)
      | inr f ↦ elim (Bool-cases (ltb 8192 (length line))) [
        | inl t ↦ rw (f, t) (fail_with-Progress c 414 v (omega arith))
        | inr g ↦
            rw (f, g)
              (line_parsed-Safe c (parse_http_line c line) v a (i.0)
                (parse_http_line-Parsed c line))
      ]
    ]

-- A taken line is a part of the buffer's bytes.
take_line :
    (c : HttpContext) {b b' : Buffer} (line : List ℕ)
    → IsValid b'
    → Agreed c.recv_status c.resp_status
    → contents b ≡ line ++ b'\n' ∷ contents b'
    → Progress c b c b'
take_line c {b} {b'} line v a e = record {
  valid = v;
  agreed = a;
  forward = omega arith;
  taken = line ++ b'\n' ∷ [];
  rest = e ∙ sym (append_assoc line (b'\n' ∷ []) (contents b'));
}

pub with_line :
    (c : HttpContext) {b : Buffer} (f : List ℕ → Buffer → RecvResult)
    → IsValid b
    → Agreed c.recv_status c.resp_status
    → ((line : List ℕ) (b' : Buffer)
        → IsValid b'
        → length (contents b') ≤ length (contents b)
        → (length line ≡ 0) ⊎ (length (contents b') < length (contents b))
        → Safe c b' (f line b'))
    → Safe c b (do (line, b') ← get_line_and_pop b; f line b')
with_line c {b} f v a safe = elim (get_line_and_pop-cases v) [
  | inl (_, e) ↦ rw e (safe [] b v (omega arith) (inl refl))
  | inr (line, b', _, e, g, v') ↦
      let shorter : length (contents b') < length (contents b) =
        omega (arith, ap length e, length-append line (b'\n' ∷ contents b')) in
      rw g (
        Safe-trans (f (line ++ b'\n' ∷ []) b') (take_line c line v' a e)
          (safe (line ++ b'\n' ∷ []) b' v' (omega arith) (inr shorter)))
]

pub recv_http_line-Safe :
    (c : HttpContext) {b : Buffer} → IsValid b → In c recv_line → Safe c b (recv_http_line c b)
unfolding recv_http_line
recv_http_line-Safe c {b} v i =
    simp (i.0, recv_http_line)
      (with_line c (line_received c) v (In-Agreed c recv_line (λ e. cc) i)
        (λ line b' v' _ _. line_received-Safe c line v' i))
