-- ===== src/Http/Server/Confined.antt =====
-- Route reads only files whose paths ValidPath accepts.
use flux_a_high_performance.Prelude.{
  ℕ, ◌≡◌, refl, ap, Bool, true, false, List, some, Option-cases, inl, inr, if◌then◌else◌, Result,
  ok, fault, ◌>>=◌, arith,
}
use flux_a_high_performance.Http.Util.{valid_path}
use flux_a_high_performance.Http.Request.{HttpRequest}
use flux_a_high_performance.Http.Response.{HttpResponse}
use flux_a_high_performance.Http.Server.{
  Files, HttpServer, route, route_by_method, is_file_handler, file_handler, file_name,
}

-- Two file systems with the same files under the paths that ValidPath accepts.
pub record SameValid (s : HttpServer) (fs fs' : Files) : Type 0 where
  pub same_regular :
      (path : List ℕ)
      → valid_path path ≡ some true
      → fs.is_regular (file_name s path) ≡ fs'.is_regular (file_name s path)
  pub same_content :
      (path buf : List ℕ)
      → valid_path path ≡ some true
      → fs.read_file (file_name s path) buf ≡ fs'.read_file (file_name s path) buf

is_file_handler-same :
    (s : HttpServer) (fs fs' : Files) (req : HttpRequest)
    → SameValid s fs fs'
    → is_file_handler fs s req ≡ is_file_handler fs' s req
unfolding is_file_handler
is_file_handler-same s fs fs' req h = elim (Option-cases (valid_path req.path)) [
  | inl e ↦ rw e refl
  | inr (true, e) ↦ rw (e, h.same_regular req.path e) refl
  | inr (false, e) ↦ rw e refl
]

-- A request is answered from a file only if ValidPath accepts its path.
is_file_handler-valid :
    (s : HttpServer) (fs : Files) (req : HttpRequest)
    → is_file_handler fs s req ≡ ok true
    → valid_path req.path ≡ some true
unfolding is_file_handler
is_file_handler-valid s fs req h = elim (Option-cases (valid_path req.path)) [
  | inl e ↦ absurd (ground arith)
  | inr (true, e) ↦ e
  | inr (false, e) ↦ absurd (ground arith)
]

file_handler-same :
    (s : HttpServer) (fs fs' : Files) (req : HttpRequest) (resp : HttpResponse)
    → SameValid s fs fs'
    → valid_path req.path ≡ some true
    → file_handler fs s req resp ≡ file_handler fs' s req resp
unfolding file_handler
file_handler-same s fs fs' req resp h v = rw (h.same_content req.path resp.body v) refl

answer : Files → HttpServer → HttpRequest → HttpResponse → Result Bool → Result HttpResponse
answer fs s req resp r =
    r >>= λ is_file. ok (if is_file then file_handler fs s req resp else route_by_method s req resp)

answer-same :
    (s : HttpServer) (fs fs' : Files) (req : HttpRequest) (resp : HttpResponse) (r : Result Bool)
    → SameValid s fs fs'
    → is_file_handler fs s req ≡ r
    → answer fs s req resp r ≡ answer fs' s req resp r
unfolding answer
answer-same s fs fs' req resp (ok true) h e =
    ap ok (file_handler-same s fs fs' req resp h (is_file_handler-valid s fs req e))
answer-same s fs fs' req resp (ok false) h e = refl
answer-same s fs fs' req resp (fault f) h e = refl

-- A response depends on no file but those whose paths, below the base directory, ValidPath accepts:
-- two file systems that agree on these give the same response.
pub route_confined :
    (s : HttpServer) (fs fs' : Files) (req : HttpRequest) (resp : HttpResponse)
    → SameValid s fs fs'
    → route fs s req resp ≡ route fs' s req resp
unfolding route answer
route_confined s fs fs' req resp h = rw (is_file_handler-same s fs fs' req h) (
    answer-same s fs fs' req resp (is_file_handler fs' s req) h
      (is_file_handler-same s fs fs' req h))
