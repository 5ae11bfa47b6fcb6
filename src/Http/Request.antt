-- ===== src/Http/Request.antt =====
-- class HttpRequest of source/Http/http.hpp. An unordered_map is an association list in which no key
-- stands twice; the matches of the router's regular expression are left out.
pub mod Headers
pub mod Length
pub mod Decimal
pub mod Tests
use flux_a_high_performance.Prelude.{
  ℕ, zero, suc, ◌+◌, ◌-◌, ◌*◌, ◌^◌, Bool, true, false, not, List, [], ◌∷◌, leb, ltb, ◌==◌, ◌&&◌,
  ◌||◌, if◌then◌else◌, codes, eq_bytes, sub64, word, Result, ok, fault, uncaught,
}
use flux_a_high_performance.Http.Request.Headers.{Table, insert, has, get}

-- `matches`: the texts of the last match of the path with the pattern of a route, the whole first; none if
-- it did not match.
pub record HttpRequest : Type 0 where
  pub method : List ℕ
  pub path : List ℕ
  pub version : List ℕ
  pub body : List ℕ
  pub matches : List (List ℕ)
  pub headers : Table
  pub params : Table

abbrev pub http_1_1 : List ℕ
http_1_1 = codes "HTTP/1.1"

abbrev pub empty : HttpRequest
empty = record {
  method = [];
  path = [];
  version = http_1_1;
  body = [];
  matches = [];
  headers = [];
  params = [];
}

pub reset : HttpRequest → HttpRequest
reset r = record r {
  method = [];
  path = [];
  version = http_1_1;
  body = [];
  matches = [];
  headers = [];
  params = [];
}

unfoldable pub set_header : HttpRequest → List ℕ → List ℕ → HttpRequest
set_header r key value = record r { headers = insert key value r.headers }

pub has_header : HttpRequest → List ℕ → Bool
has_header r key = has key r.headers

pub get_header : HttpRequest → List ℕ → List ℕ
get_header r key = get key r.headers

pub set_param : HttpRequest → List ℕ → List ℕ → HttpRequest
set_param r key value = record r { params = insert key value r.params }

pub has_param : HttpRequest → List ℕ → Bool
has_param r key = has key r.params

pub get_param : HttpRequest → List ℕ → List ℕ
get_param r key = get key r.params

-- std::stol: blanks, a sign, digits. No digit is invalid_argument, and a value that is no long is
-- out_of_range; nothing catches either. The result is the long as a size_t.
pub is_space : ℕ → Bool
is_space c = c == b' ' || (leb 9 c && leb c 13)

pub is_digit : ℕ → Bool
is_digit c = leb b'0' c && leb c b'9'

pub skip_spaces : List ℕ → List ℕ
unfolding is_space
skip_spaces [] = []
skip_spaces (c ∷ cs) = if is_space c then skip_spaces cs else c ∷ cs

pub digits_value : ℕ → List ℕ → ℕ
unfolding is_digit
digits_value acc [] = acc
digits_value acc (c ∷ cs) = elim (is_digit c) [
  | true ↦ digits_value (acc * 10 + (c - b'0')) cs
  | false ↦ acc
]

pub unsigned_long : Bool → List ℕ → Result ℕ
unfolding digits_value
unsigned_long negative [] = fault uncaught
unsigned_long negative (c ∷ cs) =
    let n = digits_value 0 (c ∷ cs) in
    if not (is_digit c)
    then fault uncaught
    else if negative
    then (if leb n (2 ^ 63) then ok (sub64 0 n) else fault uncaught)
    else if ltb n (2 ^ 63)
    then ok n
    else fault uncaught

pub signed_long : List ℕ → Result ℕ
unfolding unsigned_long
signed_long [] = fault uncaught
signed_long (c ∷ cs) =
    if c == b'-'
    then unsigned_long true cs
    else if c == b'+'
    then unsigned_long false cs
    else unsigned_long false (c ∷ cs)

pub stol : List ℕ → Result ℕ
unfolding signed_long skip_spaces
stol s = signed_long (skip_spaces s)

pub content_length : HttpRequest → Result ℕ
unfolding has_header get_header
content_length r =
    if not (has_header r (codes "Content-Length"))
    then ok 0
    else stol (get_header r (codes "Content-Length"))

pub is_short_connection : HttpRequest → Bool
unfolding has_header get_header
is_short_connection r = not (
    has_header r (codes "Connection")
    && eq_bytes (get_header r (codes "Connection")) (codes "keep-alive"))
