-- ===== src/Http/Context/Printed.antt =====
-- RecvHttpLine on a request line that a client has written.
pub mod Head
pub mod Whole
use flux_a_high_performance.Prelude.{
  ℕ, zero, suc, ◌+◌, ◌-◌, ◌≤◌, ◌<◌, ◌≡◌, refl, sym, ap, ◌∙◌, Bool, true, false, not, List, [], ◌∷◌,
  ◌++◌, map, Option, some, none, ◌⊎◌, inl, inr, length, take, drop, take-append_left,
  drop-append_left, drop-past, length-append, append_assoc, ltb, leb, ◌==◌, ==_iff, ◌&&◌, ◌||◌,
  if◌then◌else◌, codes, eq_bytes, eq_bytes_refl, index_of, index_of-none, starts_with, Avoids,
  Avoids-append, ◌≢◌, All, holds_below, holds_below_at, ok, ◌>>=◌, arith,
}
use flux_a_high_performance.Buffer.{Buffer, get_line_and_pop}
use flux_a_high_performance.Buffer.Inv.{IsValid, contents}
use flux_a_high_performance.Buffer.Read.{advanced}
use flux_a_high_performance.Buffer.Lines.{
  get_line_and_pop_some, after_line-IsValid, contents-after_line,
}
use flux_a_high_performance.Http.Util.{url_encode}
use flux_a_high_performance.Http.Util.Encoded.{url_encode-Avoids, path_back}
use flux_a_high_performance.Http.Context.{
  HttpContext, recv_line, recv_head, success, recv_http_line, line_received, parse_http_line,
  line_parsed, query_parts, query_parsed, set_params, with_target,
}
use flux_a_high_performance.Http.Line.Printed.{
  OneOf, version_of, method_upper, request_line, match_line-request_line, request_line-Avoids,
}
use flux_a_high_performance.Http.Line.{
  RequestLine, to_lower, to_upper, starts_with_icase, ends_with, strip_newline, match_method,
  methods, match_version, match_target, match_line,
}

-- A line, and the bytes that follow it.
abbrev pub line_then : List ℕ → List ℕ → List ℕ
line_then line rest = line ++ b'\r' ∷ b'\n' ∷ rest

-- The next line of a buffer.
pub next_line :
    {b : Buffer} (line rest : List ℕ)
    → IsValid b
    → Avoids b'\n' line
    → contents b ≡ line_then line rest
    → (b' : Buffer) × IsValid b'
      × (contents b' ≡ rest)
      × (get_line_and_pop b ≡ ok (line ++ b'\r' ∷ b'\n' ∷ [], b'))
next_line {b} line rest v a e =
    let full : List ℕ = line ++ b'\r' ∷ [] in
    let e' : contents b ≡ full ++ b'\n' ∷ rest =
      e ∙ sym (append_assoc line (b'\r' ∷ []) (b'\n' ∷ rest)) in
    let a' : Avoids b'\n' full =
      Avoids-append b'\n' line (b'\r' ∷ []) a ((λ q. ground arith), tt) in
    (
      advanced b (length full + 1),
      after_line-IsValid full rest v e',
      contents-after_line full rest v e',
      get_line_and_pop_some full rest v e' a'
          ∙ ap (λ l. ok (l, advanced b (length full + 1)))
              (append_assoc line (b'\r' ∷ []) (b'\n' ∷ [])),
    )

-- The context with the parts of a line.
abbrev pub with_line_of : HttpContext → List ℕ → List ℕ → ℕ → HttpContext
with_line_of c m path minor = record c {
  request = record c.request { method = m; path = path; version = version_of minor };
}

parse_http_line-request_line :
    (c : HttpContext) (m path : List ℕ) (minor : ℕ)
    → OneOf m methods
    → All (λ x. x < 128) path
    → (minor ≡ b'0') ⊎ (minor ≡ b'1')
    → parse_http_line c (request_line m (url_encode path false) minor ++ b'\r' ∷ b'\n' ∷ [])
      ≡ ok (true, with_line_of c m path minor)
unfolding parse_http_line query_parts query_parsed set_params with_target
parse_http_line-request_line c m path minor hm hp hv =
    let target : List ℕ = url_encode path false in
    rw
      (
        parse_http_line,
        match_line-request_line m target minor hm (url_encode-Avoids path hp).0 hv,
        method_upper m hm,
        path_back path hp,
      )
      refl

-- RecvHttpLine takes such a line, and sets the method, the path and the version.
pub recv_http_line_lem :
    (c : HttpContext) {b : Buffer} (m path rest : List ℕ) (minor : ℕ)
    → IsValid b
    → c.recv_status ≡ recv_line
    → OneOf m methods
    → All (λ x. x < 128) path
    → (minor ≡ b'0') ⊎ (minor ≡ b'1')
    → length (request_line m (url_encode path false) minor) + 2 ≤ 8192
    → contents b ≡ line_then (request_line m (url_encode path false) minor) rest
    → (b' : Buffer) × IsValid b'
      × (contents b' ≡ rest)
      × (recv_http_line c b
          ≡ ok (success, record (with_line_of c m path minor) { recv_status = recv_head }, b'))
unfolding recv_http_line line_received line_parsed
recv_http_line_lem c {b} m path rest minor v i hm hp hv long e =
    let target : List ℕ = url_encode path false in
    let line : List ℕ = request_line m target minor in
    let avoids = url_encode-Avoids path hp in
    let (b', v', e', g) =
      next_line line rest v (request_line-Avoids m target minor hm avoids.1 hv) e in
    let len : length (line ++ b'\r' ∷ b'\n' ∷ []) ≡ length line + 2 =
      length-append line (b'\r' ∷ b'\n' ∷ []) in
    let f : (length (line ++ b'\r' ∷ b'\n' ∷ []) == 0) ≡ false = ground (arith, len) in
    let k : ltb 8192 (length (line ++ b'\r' ∷ b'\n' ∷ [])) ≡ false = ground (arith, len, long) in
    (
      b',
      v',
      e',
      rw
          (
            recv_http_line,
            i,
            g,
            line_received,
            f,
            k,
            parse_http_line-request_line c m path minor hm hp hv,
          )
          refl,
    )
