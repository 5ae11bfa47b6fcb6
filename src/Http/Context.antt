-- ===== src/Http/Context.antt =====
-- class HttpContext of source/Http/http.hpp: a request is received line by line, then its body.
-- A method returns its ParseState, the new context and the rest of the buffer.
pub mod Progress
pub mod Head
pub mod Safety
pub mod Body
pub mod Bound
pub mod Printed
mod Tests
use flux_a_high_performance.Prelude.{
  ℕ, zero, suc, ◌+◌, ◌-◌, ◌*◌, min, Bool, true, false, not, List, [], ◌∷◌, ◌++◌, Option, some, none,
  map, leb, ltb, ◌==◌, ◌&&◌, ◌||◌, if◌then◌else◌, length, take, drop, codes, eq_bytes, index_of,
  find, starts_with, Result, ok, fault, ◌>>=◌, stuck, sub64,
}
use flux_a_high_performance.Buffer.{
  Buffer, get_line_and_pop, read_able_size, move_read_offset, copy_out,
}
use flux_a_high_performance.Http.Util.{split, url_decode}
use flux_a_high_performance.Http.Line.{RequestLine, match_line, to_upper, ends_with}
use flux_a_high_performance.Http.Request
use flux_a_high_performance.Http.Request.{HttpRequest, set_header, set_param, content_length}

pub data HttpRecvStatus : Type 0 where
  recv_error recv_line recv_head recv_body recv_over : HttpRecvStatus

pub data ParseState : Type 0 where
  need_more success error : ParseState

abbrev pub max_line : ℕ
max_line = 8192

pub record HttpContext : Type 0 where
  pub resp_status : ℕ
  pub recv_status : HttpRecvStatus
  pub request : HttpRequest

abbrev pub new_context : HttpContext
new_context = record { resp_status = 200; recv_status = recv_line; request = Request.empty }

pub reset : HttpContext → HttpContext
reset c = record c { resp_status = 200; recv_status = recv_line; request = Request.reset c.request }

-- _resp_status = code; _recv_status = RECV_HTTP_ERROR;
abbrev pub fail_with : HttpContext → ℕ → HttpContext
fail_with c code = record c { resp_status = code; recv_status = recv_error }

-- The query string: each part is a key and a value, decoded; one without "=" is an error.
pub set_params : HttpRequest → List (List ℕ) → Option HttpRequest
set_params r [] = some r
set_params r (str ∷ parts) = elim (find (codes "=") str) [
  | none ↦ none
  | some pos ↦
      set_params
        (set_param r (url_decode (take pos str) true) (url_decode (drop (pos + 1) str) true)) parts
]

-- The parts of a non-empty query string. Split of a separator of one byte always ends.
pub query_parts : List ℕ → Result (List (List ℕ))
query_parts query =
    if length query == 0
    then ok []
    else elim (split query (codes "&")) [ none ↦ fault stuck | some parts ↦ ok parts ]

-- The assignments of ParseHttpLine before the query string.
pub with_target : HttpRequest → RequestLine → HttpRequest
with_target r l = record r { method = map to_upper l.method; path = url_decode l.path false }

-- The rest of ParseHttpLine, on the parts of the query string.
pub query_parsed : HttpContext → RequestLine → List (List ℕ) → Bool × HttpContext
unfolding with_target
query_parsed c l parts = elim (set_params (with_target c.request l) parts) [
  | none ↦ (false, fail_with (record c { request = Request.reset c.request }) 400)
  | some r ↦ (true, record c { request = record r { version = l.version } })
]

pub parse_http_line : HttpContext → List ℕ → Result (Bool × HttpContext)
unfolding query_parts query_parsed
parse_http_line c line = elim (match_line line) [
  | none ↦ ok (false, fail_with c 400)
  | some l ↦ do parts ← query_parts l.query; ok (query_parsed c l parts)
]

abbrev pub RecvResult : Type 0
RecvResult = Result (ParseState × HttpContext × Buffer)

-- The two early returns when no whole line is there, or a line is too long.
pub no_line : HttpContext → Buffer → RecvResult
no_line c buf =
    if ltb max_line (read_able_size buf)
    then ok (error, fail_with c 414, buf)
    else ok (need_more, c, buf)

-- What follows the line that RecvHttpLine has taken, and its parsing.
pub line_parsed : Bool × HttpContext → Buffer → RecvResult
line_parsed (true, c) buf = ok (success, record c { recv_status = recv_head }, buf)
line_parsed (false, c) buf = ok (error, c, buf)

pub line_received : HttpContext → List ℕ → Buffer → RecvResult
unfolding no_line line_parsed
line_received c line buf =
    if length line == 0
    then no_line c buf
    else if ltb max_line (length line)
    then ok (error, fail_with c 414, buf)
    else parse_http_line c line >>= λ r. line_parsed r buf

pub recv_http_line : HttpContext → Buffer → RecvResult
unfolding line_received
recv_http_line c buf = elim c.recv_status [
  | recv_line ↦ do (line, buf') ← get_line_and_pop buf; line_received c line buf'
  | _ ↦ ok (error, c, buf)
]

-- back() and pop_back() of one byte, if it is there.
pub drop_last : ℕ → List ℕ → List ℕ
unfolding ends_with
drop_last c line = if ends_with (c ∷ []) line then take (length line - 1) line else line

pub parse_http_head : HttpContext → List ℕ → Bool × HttpContext
unfolding drop_last
parse_http_head c line =
    let line' = drop_last b'\r' (drop_last b'\n' line) in
    elim (find (codes ": ") line') [
      | none ↦ (false, fail_with c 400)
      | some pos ↦ (
        true,
        record c { request = set_header c.request (take pos line') (drop (pos + 2) line') },
      )
    ]

pub is_blank_line : List ℕ → Bool
is_blank_line line = eq_bytes line (b'\r' ∷ b'\n' ∷ []) || eq_bytes line (b'\n' ∷ [])

-- What follows the parsing of a header line: `more` is the rest of the loop.
pub head_parsed : (HttpContext → Buffer → RecvResult) → Bool × HttpContext → Buffer → RecvResult
head_parsed more (true, c) buf = more c buf
head_parsed more (false, c) buf = ok (error, c, buf)

-- A round of RecvHttpHead with the line that it has taken.
pub head_received : (HttpContext → Buffer → RecvResult) → HttpContext → List ℕ → Buffer → RecvResult
unfolding no_line is_blank_line head_parsed
head_received more c line buf =
    if length line == 0
    then no_line c buf
    else if ltb max_line (length line)
    then ok (error, fail_with c 414, buf)
    else if is_blank_line line
    then ok (success, record c { recv_status = recv_body }, buf)
    else head_parsed more (parse_http_head c line) buf

-- The loop of RecvHttpHead, a line in each round, with fuel.
pub head_loop : ℕ → HttpContext → Buffer → RecvResult
head_loop zero c buf = fault stuck
head_loop (suc fuel) c buf = do
  (line, buf') ← get_line_and_pop buf
  head_received (head_loop fuel) c line buf'

pub recv_http_head : HttpContext → Buffer → RecvResult
recv_http_head c buf = elim c.recv_status [
  | recv_head ↦ head_loop (read_able_size buf + 1) c buf
  | _ ↦ ok (error, c, buf)
]

abbrev pub over : HttpContext → HttpContext
over c = record c { recv_status = recv_over }

-- _body.append(buf.ReaderPosition(), take_len); buf.MoveReadOffset(take_len);
pub take_body : HttpContext → Buffer → ℕ → Result (HttpContext × Buffer)
take_body c buf take_len = do
  bytes ← copy_out buf.items buf.reader_idx take_len
  buf' ← move_read_offset buf take_len
  ok (record c { request = record (c.request) { body = c.request.body ++ bytes } }, buf')

pub body_taken : ℕ → ℕ → HttpContext × Buffer → RecvResult
body_taken take_len need_len (c, buf) =
    if take_len == need_len then ok (success, over c, buf) else ok (need_more, c, buf)

-- RecvHttpBody once the length of the body is known.
pub body_received : HttpContext → Buffer → ℕ → RecvResult
unfolding take_body body_taken
body_received c buf content_len =
    if ltb content_len (length c.request.body)
    then ok (error, c, buf)
    else if content_len == 0
    then ok (success, over c, buf)
    else (let need_len = content_len - length c.request.body in
        if need_len == 0
        then ok (success, over c, buf)
        else (let take_len = min need_len (read_able_size buf) in
            take_body c buf take_len >>= body_taken take_len need_len))

pub recv_http_body : HttpContext → Buffer → RecvResult
unfolding body_received
recv_http_body c buf = elim c.recv_status [
  | recv_body ↦ content_length c.request >>= body_received c buf
  | _ ↦ ok (error, c, buf)
]

-- The switch of RecvHttpRequest: its cases fall through, and their results are ignored. In the
-- last two states nothing is called.
abbrev pub next : RecvResult → (HttpContext → Buffer → RecvResult) → RecvResult
next (ok (_, c, buf)) f = f c buf
next (fault e) f = fault e

pub from_state : HttpRecvStatus → HttpContext → Buffer → RecvResult
from_state recv_line c buf = next (next (recv_http_line c buf) recv_http_head) recv_http_body
from_state recv_head c buf = next (recv_http_head c buf) recv_http_body
from_state recv_body c buf = recv_http_body c buf
from_state recv_over c buf = ok (need_more, c, buf)
from_state recv_error c buf = ok (need_more, c, buf)

pub recv_http_request : HttpContext → Buffer → Result (HttpContext × Buffer)
unfolding from_state
recv_http_request c buf = do (_, c', buf') ← from_state c.recv_status c buf; ok (c', buf')
