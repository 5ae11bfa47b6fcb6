-- ===== src/Http/Response.antt =====
-- class HttpResponse of source/Http/http.hpp, and the bytes that HttpServer::MakeResponse sends.
pub mod Complete
pub mod Digits
mod Tests
use flux_a_high_performance.Prelude.{
  ℕ, zero, suc, ◌+◌, ◌/◌, ◌%◌, ◌≡◌, ◌≢◌, ◌⊎◌, inl, inr, refl, Bool, true, false, not, List, [], ◌∷◌,
  ◌++◌, ◌==◌, ◌&&◌, if◌then◌else◌, length, codes, eq_bytes, ltb, some, none, arith, Option-cases,
  Bool-cases,
}
use flux_a_high_performance.Http.Util.{statu_desc}
use flux_a_high_performance.Http.Request.Headers.{
  Table, insert, has, get, find_entry, find_entry-insert,
}
use flux_a_high_performance.Http.Request.{HttpRequest}
use flux_a_high_performance.Http.Request

pub record HttpResponse : Type 0 where
  pub status : ℕ
  pub redirect_flag : Bool
  pub body : List ℕ
  pub redirect_url : List ℕ
  pub headers : Table

abbrev pub with_status : ℕ → HttpResponse
with_status status = record {
  status = status;
  redirect_flag = false;
  body = [];
  redirect_url = [];
  headers = [];
}

pub reset : HttpResponse → HttpResponse
reset r = record r {
  status = 200;
  redirect_flag = false;
  body = [];
  redirect_url = [];
  headers = [];
}

pub set_header : HttpResponse → List ℕ → List ℕ → HttpResponse
set_header r key value = record r { headers = insert key value r.headers }

pub has_header : HttpResponse → List ℕ → Bool
has_header r key = has key r.headers

pub get_header : HttpResponse → List ℕ → List ℕ
get_header r key = get key r.headers

pub set_content : HttpResponse → List ℕ → List ℕ → HttpResponse
unfolding set_header
set_content r body type = set_header (record r { body = body }) (codes "Content-Type") type

pub enable_redirect : HttpResponse → HttpResponse
enable_redirect r = record r { redirect_flag = true }

pub set_redirect : HttpResponse → List ℕ → ℕ → HttpResponse
set_redirect r url status =
    if r.redirect_flag then record r { status = status; redirect_url = url } else r

pub is_short_connection : HttpResponse → Bool
unfolding has_header get_header
is_short_connection r = not (
    has_header r (codes "Connection")
    && eq_bytes (get_header r (codes "Connection")) (codes "keep-alive"))

-- std::to_string, of a number below 10 ^ rounds.
pub to_digits : ℕ → ℕ → List ℕ
to_digits zero n = []
to_digits (suc rounds) n =
    let more = to_digits rounds (n / 10) in
    if ltb n 10 then (b'0' + n) ∷ [] else more ++ (b'0' + n % 10) ∷ []

-- A 64-bit number has at most 20 digits.
pub to_string : ℕ → List ℕ
unfolding to_digits
to_string n = to_digits 20 n

abbrev crlf : List ℕ
crlf = b'\r' ∷ b'\n' ∷ []

-- The headers that MakeResponse completes. A header that is there keeps its value.
pub with_connection : HttpRequest → HttpResponse → HttpResponse
unfolding set_header
with_connection req r =
    if Request.is_short_connection req
    then set_header r (codes "Connection") (codes "close")
    else set_header r (codes "Connection") (codes "keep-alive")

pub with_length : HttpResponse → HttpResponse
unfolding set_header has_header
with_length r =
    if not (length r.body == 0) && not (has_header r (codes "Content-Length"))
    then set_header r (codes "Content-Length") (to_string (length r.body))
    else r

pub with_type : HttpResponse → HttpResponse
unfolding set_header has_header
with_type r =
    if not (length r.body == 0) && not (has_header r (codes "Content-Type"))
    then set_header r (codes "Content-Type") (codes "application/octet-stream")
    else r

pub with_location : HttpResponse → HttpResponse
unfolding set_header
with_location r = if r.redirect_flag then set_header r (codes "Location") r.redirect_url else r

pub completed : HttpRequest → HttpResponse → HttpResponse
unfolding with_connection with_length with_type with_location
completed req r = with_location (with_type (with_length (with_connection req r)))

pub header_lines : Table → List ℕ
header_lines [] = []
header_lines ((key, value) ∷ t) = key ++ codes ": " ++ value ++ crlf ++ header_lines t

-- The text that MakeResponse sends. The order of the headers is that of the table, since an
-- unordered_map promises none.
pub response_text : HttpRequest → HttpResponse → List ℕ
response_text req r =
    req.version
    ++ codes " "
    ++ to_string r.status
    ++ codes " "
    ++ statu_desc r.status
    ++ crlf
    ++ header_lines (completed req r).headers
    ++ crlf
    ++ r.body
