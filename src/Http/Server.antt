-- ===== src/Http/Server.antt =====
-- class HttpServer of source/Http/http.hpp. The handlers are code of the user, the patterns of the
-- routes tests of a path, and the files those of the file system: all of them are parameters.
pub mod Routes
pub mod Confined
pub mod Serving
pub mod Message
pub mod Session
mod Samples
mod Tests
use flux_a_high_performance.Prelude.{
  ℕ, zero, suc, ◌+◌, ◌≤◌, Bool, true, false, not, List, [], ◌∷◌, ◌++◌, Option, some, none, leb, ltb,
  ◌==◌, ◌&&◌, ◌||◌, if◌then◌else◌, length, codes, eq_bytes, Result, ok, fault, stuck, ◌>>=◌,
}
use flux_a_high_performance.Buffer.{Buffer, read_able_size, move_read_offset, write_and_push}
use flux_a_high_performance.Buffer
use flux_a_high_performance.Http.Util.{valid_path, ext_mime}
use flux_a_high_performance.Http.Line.{ends_with}
use flux_a_high_performance.Http.Request.{HttpRequest}
use flux_a_high_performance.Http.Response.{
  HttpResponse, with_status, set_content, set_header, is_short_connection, response_text, completed,
}
use flux_a_high_performance.Http.Context.{HttpContext, HttpRecvStatus, recv_over, recv_http_request}
use flux_a_high_performance.Http.Context

-- The file system, as Util asks it: ReadFile takes the buffer that it fills, and leaves one.
pub record Files : Type 0 where
  pub is_regular : List ℕ → Bool
  pub read_file : List ℕ → List ℕ → Bool × List ℕ

abbrev pub Handler : Type 0
Handler = HttpRequest → HttpResponse → HttpResponse

-- std::regex_match of a pattern with the path: the texts matched.
abbrev pub Pattern : Type 0
Pattern = List ℕ → Option (List (List ℕ))

abbrev pub Handlers : Type 0
Handlers = List (Pattern × Handler)

pub record HttpServer : Type 0 where
  pub get_route : Handlers
  pub post_route : Handlers
  pub put_route : Handlers
  pub delete_route : Handlers
  pub basedir : List ℕ

pub register_get : HttpServer → Pattern → Handler → HttpServer
register_get s pattern handler = record s { get_route = s.get_route ++ (pattern, handler) ∷ [] }

pub register_post : HttpServer → Pattern → Handler → HttpServer
register_post s pattern handler = record s { post_route = s.post_route ++ (pattern, handler) ∷ [] }

pub register_put : HttpServer → Pattern → Handler → HttpServer
register_put s pattern handler = record s { put_route = s.put_route ++ (pattern, handler) ∷ [] }

pub register_delete : HttpServer → Pattern → Handler → HttpServer
register_delete s pattern handler = record s {
  delete_route = s.delete_route ++ (pattern, handler) ∷ [];
}

-- A file is read into the body of the response; SetContent replaces it.
pub error_handler : Files → HttpServer → HttpResponse → HttpResponse
error_handler fs s resp =
    let read = fs.read_file (s.basedir ++ codes "/404.html") [] in
    if read.0 then set_content resp (read.1) (codes "text/html") else resp

-- The file of a path: the index of a directory.
pub file_name : HttpServer → List ℕ → List ℕ
file_name s path =
    let req_path = s.basedir ++ path in
    if ends_with (b'/' ∷ []) req_path then req_path ++ codes "index.html" else req_path

pub is_file_handler : Files → HttpServer → HttpRequest → Result Bool
unfolding file_name
is_file_handler fs s req =
    if length s.basedir == 0
    then ok false
    else if not (eq_bytes req.method (codes "GET")) && not (eq_bytes req.method (codes "HEAD"))
    then ok false
    else elim (valid_path req.path) [
      | none ↦ fault stuck
      | some valid ↦ ok (if valid then fs.is_regular (file_name s req.path) else false)
    ]

pub file_handler : Files → HttpServer → HttpRequest → HttpResponse → HttpResponse
unfolding file_name
file_handler fs s req resp =
    let read = fs.read_file (file_name s req.path) resp.body in
    let filled = record resp { body = read.1 } in
    if read.0
    then set_header filled (codes "Content-Type") (ext_mime (file_name s req.path))
    else filled

pub dispatcher : HttpRequest → HttpResponse → Handlers → HttpResponse
dispatcher req resp [] = record resp { status = 404 }
dispatcher req resp ((re, functor) ∷ handlers) = elim (re req.path) [
  | none ↦ dispatcher (record req { matches = [] }) resp handlers
  | some matches ↦ functor (record req { matches = matches }) resp
]

-- The second half of Route.
pub route_by_method : HttpServer → HttpRequest → HttpResponse → HttpResponse
unfolding dispatcher
route_by_method s req resp =
    if eq_bytes req.method (codes "GET") || eq_bytes req.method (codes "HEAD")
    then dispatcher req resp s.get_route
    else if eq_bytes req.method (codes "POST")
    then dispatcher req resp s.post_route
    else if eq_bytes req.method (codes "PUT")
    then dispatcher req resp s.put_route
    else if eq_bytes req.method (codes "DELETE")
    then dispatcher req resp s.delete_route
    else record resp { status = 405 }

pub route : Files → HttpServer → HttpRequest → HttpResponse → Result HttpResponse
unfolding is_file_handler file_handler route_by_method
route fs s req resp = do
  is_file ← is_file_handler fs s req
  ok (if is_file then file_handler fs s req resp else route_by_method s req resp)
