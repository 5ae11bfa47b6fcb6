-- ===== src/Http/Context/Tests.antt =====
-- A request with a query and a body, and the theorems at concrete inputs.
use flux_a_high_performance.Prelude.{
  inl, inr, ℕ, ◌≤◌, ◌<◌, ◌≡◌, ◌⊎◌, refl, List, [], ◌∷◌, ◌++◌, length, codes, eq_bytes, ok, fault,
  uncaught, arith,
}
use flux_a_high_performance.Buffer.{Buffer}
use flux_a_high_performance.Buffer.Inv.{IsValid, contents}
use flux_a_high_performance.Buffer.Read.{advanced}
use flux_a_high_performance.Http.Request
use flux_a_high_performance.Http.Request.Headers.{Table, find_entry, insert}
use flux_a_high_performance.Http.Request.Tests.{content_length_five}
use flux_a_high_performance.Http.Request.{HttpRequest, content_length, set_header}
use flux_a_high_performance.Http.Context.{
  recv_over, HttpContext, new_context, recv_body, recv_http_request, recv_http_body, success,
  need_more, over,
}
use flux_a_high_performance.Http.Context.Safety.{Received, recv_http_request_lem, appended}
use flux_a_high_performance.Http.Context.Body.{recv_http_body_lem}
use flux_a_high_performance.Http.Util.{url_encode}
use flux_a_high_performance.Http.Line.Printed.{request_line}
use flux_a_high_performance.Http.Context.Printed.Head.{header_line, head_text, add_headers}
use flux_a_high_performance.Http.Context.Printed.Whole.{
  request_text, head_of, recv_http_request-request_text, recv_http_request_no_number,
}

abbrev crlf : List ℕ
crlf = b'\r' ∷ b'\n' ∷ []

abbrev post : List ℕ
post =
    codes "post /a%20b?x=1&y=C%2B%2B HTTP/1.1"
    ++ crlf
    ++ codes "Content-Length: 3"
    ++ crlf
    ++ crlf
    ++ codes "abcdef"

abbrev filled : List ℕ → Buffer
filled bytes = record {
  items = bytes;
  capacity = length bytes;
  reader_idx = 0;
  writer_idx = length bytes;
}

filled-IsValid : (bytes : List ℕ) → length bytes ≤ 1048576 → IsValid (filled bytes)
filled-IsValid bytes h = omega arith

recv_http_request_lem_example :
    Received new_context (filled post) (recv_http_request new_context (filled post))
recv_http_request_lem_example =
    recv_http_request_lem new_context (filled-IsValid post (omega arith)) refl

-- A request whose head has been read, and the first two bytes of its body.
abbrev half : HttpContext
half = record {
  resp_status = 200;
  recv_status = recv_body;
  request = record (Request.empty) {
    headers = (codes "Content-Length", codes "5") ∷ [];
    body = codes "ab";
  };
}

half-length : content_length half.request ≡ ok 5
unfolding find_entry eq_bytes
half-length = content_length_five half.request refl

recv_http_body_lem_example :
    ((3 ≤ 6)
      × (recv_http_body half (filled (codes "cdefgh"))
          ≡ ok (success, over (appended half (codes "cde")), advanced (filled (codes "cdefgh")) 3))
      × (contents (advanced (filled (codes "cdefgh")) 3) ≡ codes "fgh"))
    ⊎ ((6 < 3)
        × (recv_http_body half (filled (codes "cdefgh"))
            ≡ ok (need_more, appended half (codes "cdefgh"), advanced (filled (codes "cdefgh")) 6))
        × (contents (advanced (filled (codes "cdefgh")) 6) ≡ []))
recv_http_body_lem_example =
    recv_http_body_lem half 5 3 (filled-IsValid (codes "cdefgh") (omega arith)) refl half-length
      refl (omega arith)

abbrev headers : Table
headers = (codes "Host", codes "flux") ∷ (codes "Content-Length", codes "5") ∷ []

-- A request with a blank and a question mark in its path, and the first bytes of the next one.
abbrev sent : List ℕ
sent = request_text (codes "POST") (codes "/a b?") b'1' headers (codes "hello" ++ codes "GET ")

recv_http_request-request_text_example :
    (b' : Buffer) × IsValid b'
    × (contents b' ≡ codes "GET ")
    × (recv_http_request new_context (filled sent)
        ≡ ok (
          record new_context {
            recv_status = recv_over;
            request = record (head_of Request.empty (codes "POST") (codes "/a b?") b'1' headers) {
              body = codes "hello";
            };
          },
          b',
        ))
unfolding request_text request_line url_encode head_text header_line head_of add_headers set_header
    insert find_entry eq_bytes
recv_http_request-request_text_example =
    recv_http_request-request_text new_context (codes "POST") (codes "/a b?") b'1' headers
      (codes "hello") (codes "GET ") (filled-IsValid sent (omega arith)) refl refl
      (inr (inr (inl refl))) (omega arith) (inr refl) (omega arith) (omega arith)
      (content_length_five (head_of Request.empty (codes "POST") (codes "/a b?") b'1' headers) refl)
      refl

abbrev bad_headers : Table
bad_headers = (codes "Content-Length", codes " -x") ∷ []

abbrev bad : List ℕ
bad = request_text (codes "GET") (codes "/") b'0' bad_headers []

recv_http_request_no_number_example : recv_http_request new_context (filled bad) ≡ fault uncaught
unfolding request_text request_line url_encode head_text header_line head_of add_headers set_header
    insert find_entry eq_bytes
recv_http_request_no_number_example =
    recv_http_request_no_number new_context (codes "GET") (codes "/") b'0' bad_headers (codes " -x")
      [] (filled-IsValid bad (omega arith)) refl (inl refl) (omega arith) (inl refl) (omega arith)
      (omega arith) refl (inl (inl refl, inr (inl (inl refl, λ d. omega arith)))) refl
