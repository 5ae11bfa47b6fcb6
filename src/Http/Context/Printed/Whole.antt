-- ===== src/Http/Context/Printed/Whole.antt =====
-- RecvHttpRequest on a whole request that a client has written.
use flux_a_high_performance.Prelude.{
  codes, some, fault, uncaught, ℕ, false, ◌+◌, ◌≤◌, ◌<◌, ◌≡◌, refl, ap, ◌∙◌, List, [], ◌∷◌, ◌++◌,
  ◌⊎◌, inl, inr, length, take, drop, take-append_left, drop-append_left, length-append, All, ok,
  ◌>>=◌, arith,
}
use flux_a_high_performance.Buffer.{Buffer}
use flux_a_high_performance.Buffer.Inv.{IsValid, contents}
use flux_a_high_performance.Buffer.Read.{advanced, advanced-IsValid}
use flux_a_high_performance.Http.Util.{url_encode}
use flux_a_high_performance.Http.Line.{methods}
use flux_a_high_performance.Http.Request.{HttpRequest, set_header, content_length}
use flux_a_high_performance.Http.Request.Headers.{Table, find_entry}
use flux_a_high_performance.Http.Request.Length.{IsNoNumber, content_length-no_number}
use flux_a_high_performance.Http.Context.{
  HttpContext, recv_line, recv_head, recv_body, recv_over, success, over, body_received,
  recv_http_body, from_state, recv_http_request,
}
use flux_a_high_performance.Http.Context.Body.{recv_http_body_lem, body_due}
use flux_a_high_performance.Http.Line.Printed.{OneOf, version_of, request_line}
use flux_a_high_performance.Http.Context.Printed.{line_then, with_line_of, recv_http_line_lem}
use flux_a_high_performance.Http.Context.Printed.Head.{
  head_text, add_headers, with_headers, IsHeader, recv_http_head_lem,
}

abbrev with_body : HttpContext → List ℕ → HttpContext
with_body c body = record c { request = record c.request { body = body } }

-- Nothing is left to take for an empty body.
no_body :
    (c : HttpContext) (b : Buffer)
    → c.recv_status ≡ recv_body
    → content_length c.request ≡ ok 0
    → c.request.body ≡ []
    → recv_http_body c b ≡ ok (success, over (with_body c []), b)
unfolding body_received
no_body c b i n e =
    let same : body_received c b 0 ≡ ok (success, over c, b) = simp e in
    body_due c b 0 i n ∙ same ∙ ap (λ body. ok (success, over (with_body c body), b)) e

-- RecvHttpBody takes a body that is there.
body_lem :
    (c : HttpContext) {b : Buffer} (body rest : List ℕ)
    → IsValid b
    → c.recv_status ≡ recv_body
    → content_length c.request ≡ ok (length body)
    → c.request.body ≡ []
    → contents b ≡ body ++ rest
    → (b' : Buffer) × IsValid b'
      × (contents b' ≡ rest)
      × (recv_http_body c b ≡ ok (success, over (with_body c body), b'))
body_lem c {b} [] rest v i n e k = (b, v, k, no_body c b i n e)
body_lem c {b} (x ∷ xs) rest v i n e k =
    let body : List ℕ = x ∷ xs in
    let here : length body ≤ length (contents b) =
      omega (arith, ap length k, length-append body rest) in
    let none_yet : length c.request.body + length body ≡ length body = omega (arith, ap length e) in
    elim (recv_http_body_lem c (length body) (length body) v i n none_yet (omega arith)) [
      | inl (_, taken, left) ↦ (
        advanced b (length body),
        advanced-IsValid (length body) v here,
        left ∙ (ap (drop (length body)) k ∙ drop-append_left body rest),
        taken
            ∙ ap
                (λ bytes.
                  ok (
                    success,
                    over (with_body c (c.request.body ++ bytes)),
                    advanced b (length body),
                  ))
                (ap (take (length body)) k ∙ take-append_left body rest)
            ∙ ap
                (λ front.
                  ok (success, over (with_body c (front ++ body)), advanced b (length body)))
                e,
      )
      | inr (short, _, _) ↦ absurd (omega arith)
    ]

add_headers-body : (headers : Table) (r : HttpRequest) → (add_headers r headers).body ≡ r.body
unfolding add_headers set_header
add_headers-body [] r = refl
add_headers-body ((key, value) ∷ headers) r = add_headers-body headers (set_header r key value)

-- The head of a request: the fields of its line, and its headers.
unfoldable pub head_of : HttpRequest → List ℕ → List ℕ → ℕ → Table → HttpRequest
unfolding add_headers
head_of r m path minor headers =
    add_headers (record r { method = m; path = path; version = version_of minor }) headers

-- A request as it is sent, and the bytes behind it.
unfoldable pub request_text : List ℕ → List ℕ → ℕ → Table → List ℕ → List ℕ
unfolding request_line head_text
request_text m path minor headers rest =
    line_then (request_line m (url_encode path false) minor) (head_text headers rest)

-- RecvHttpRequest, at its first line and with an empty body so far, takes a whole request from the
-- front of the buffer and leaves the bytes behind it: from a line with a method in upper case, a path of
-- bytes below 128 that UrlEncode has encoded, no query and version 1.0 or 1.1, the method, the path and
-- the version; from header lines whose keys have no colon, without line feeds and with every line at most
-- 8192 bytes long, those headers as SetHeader sets them; and the body, if the headers tell its length.
pub recv_http_request-request_text :
    (c : HttpContext) {b : Buffer} (m path : List ℕ) (minor : ℕ) (headers : Table)
    (body rest : List ℕ)
    → IsValid b
    → c.recv_status ≡ recv_line
    → c.request.body ≡ []
    → OneOf m methods
    → All (λ x. x < 128) path
    → (minor ≡ b'0') ⊎ (minor ≡ b'1')
    → length (request_line m (url_encode path false) minor) + 2 ≤ 8192
    → All IsHeader headers
    → content_length (head_of c.request m path minor headers) ≡ ok (length body)
    → contents b ≡ request_text m path minor headers (body ++ rest)
    → (b' : Buffer) × IsValid b'
      × (contents b' ≡ rest)
      × (recv_http_request c b
          ≡ ok (
            record c {
              recv_status = recv_over;
              request = record (head_of c.request m path minor headers) { body = body };
            },
            b',
          ))
unfolding recv_http_request from_state request_text head_of
recv_http_request-request_text c {b} m path minor headers body rest v i empty hm hp hv long hh n e =
    let c1 : HttpContext = record (with_line_of c m path minor) { recv_status = recv_head } in
    let c2 : HttpContext = record (with_headers c1 headers) { recv_status = recv_body } in
    let (b1, v1, e1, line) =
      recv_http_line_lem c m path (head_text headers (body ++ rest)) minor v i hm hp hv long e in
    let (b2, v2, e2, head) = recv_http_head_lem headers c1 (body ++ rest) v1 refl hh e1 in
    let (b3, v3, e3, whole) =
      body_lem c2 body rest v2 refl n (add_headers-body headers c1.request ∙ empty) e2 in
    let start : recv_http_request c b
        ≡ (do (_, c', buf') ← from_state recv_line c b; ok (c', buf')) =
      simp (i, recv_http_request) in
    (b3, v3, e3, start ∙ simp (from_state, line, head, whole))

-- A request whose line and header lines are written as above, with a Content-Length that has no digit
-- behind any blanks and at most one sign, ends the process when RecvHttpRequest comes to its body: std::stol
-- throws and nothing catches the exception, whatever bytes follow.
pub recv_http_request_no_number :
    (c : HttpContext) {b : Buffer} (m path : List ℕ) (minor : ℕ) (headers : Table)
    (value rest : List ℕ)
    → IsValid b
    → c.recv_status ≡ recv_line
    → OneOf m methods
    → All (λ x. x < 128) path
    → (minor ≡ b'0') ⊎ (minor ≡ b'1')
    → length (request_line m (url_encode path false) minor) + 2 ≤ 8192
    → All IsHeader headers
    → find_entry (codes "Content-Length") (head_of c.request m path minor headers).headers
      ≡ some value
    → IsNoNumber value
    → contents b ≡ request_text m path minor headers rest
    → recv_http_request c b ≡ fault uncaught
unfolding recv_http_request from_state request_text head_of recv_http_body
recv_http_request_no_number c {b} m path minor headers value rest v i hm hp hv long hh entry bad e =
    let c1 : HttpContext = record (with_line_of c m path minor) { recv_status = recv_head } in
    let (b1, v1, e1, line) =
      recv_http_line_lem c m path (head_text headers rest) minor v i hm hp hv long e in
    let (b2, v2, e2, head) = recv_http_head_lem headers c1 rest v1 refl hh e1 in
    let throws = content_length-no_number (add_headers c1.request headers) value entry bad in
    let start : recv_http_request c b
        ≡ (do (_, c', buf') ← from_state recv_line c b; ok (c', buf')) =
      simp (i, recv_http_request) in
    start ∙ simp (from_state, line, head, recv_http_body, throws)
