-- ===== src/Http/Server/Serving.antt =====
-- The files that HttpServer serves: SetBaseDir, and a request for a file.
use flux_a_high_performance.Prelude.{
  Result, fault, uncaught, if◌then◌else◌, ℕ, ◌<◌, ◌≡◌, refl, true, false, List, Option, some, none,
  ◌==◌, length, codes, eq_bytes, ok, arith,
}
use flux_a_high_performance.Http.Util.{valid_path, ext_mime}
use flux_a_high_performance.Http.Util.Files.{
  Ifstream, whole, read_file, read_file-whole, is_regular, is_directory,
}
use flux_a_high_performance.Http.Request.{HttpRequest}
use flux_a_high_performance.Http.Response.{HttpResponse, set_header}
use flux_a_high_performance.Http.Server.{
  Files, HttpServer, route, is_file_handler, file_handler, file_name,
}

-- The file system as the streams and stat show it.
unfoldable pub files_of : (List ℕ → Option ℕ) → (List ℕ → Option Ifstream) → Files
unfolding is_regular
files_of stat open_file = record {
  is_regular = λ name. is_regular (stat name);
  read_file = λ name buf. read_file (open_file name) buf;
}

-- SetBaseDir: exit ends the process when the path names no directory.
pub set_base_dir : (List ℕ → Option ℕ) → HttpServer → List ℕ → Result HttpServer
unfolding is_directory
set_base_dir stat s path =
    if is_directory (stat path) then ok (record s { basedir = path }) else fault uncaught

module _ (stat : List ℕ → Option ℕ) (open_file : List ℕ → Option Ifstream) (s : HttpServer)
    (req : HttpRequest) (resp : HttpResponse) (based : 0 < length s.basedir)
    (get : req.method ≡ codes "GET") (valid : valid_path req.path ≡ some true)
    (regular : is_regular (stat (file_name s req.path)) ≡ true) where
  abbrev fs : Files
  fs = files_of stat open_file

  handled-by_file : is_file_handler fs s req ≡ ok true
  unfolding is_file_handler files_of eq_bytes
  handled-by_file =
      let f : (length s.basedir == 0) ≡ false = ground arith in rw (f, get, valid, regular) refl

  -- With the base directory set, a GET for a path that ValidPath accepts and that names a regular file
  -- which is read whole is answered by the response given, with the bytes of the file as its body, whatever
  -- that was, and the type of the file's suffix.
  route_file :
      (bytes : List ℕ)
      → open_file (file_name s req.path) ≡ some (whole bytes)
      → route fs s req resp
        ≡ ok (
            set_header
              (record resp { body = bytes })
              (codes "Content-Type")
              (ext_mime (file_name s req.path)))
  unfolding route file_handler files_of
  route_file bytes e = rw (handled-by_file, e, read_file-whole bytes resp.body) refl

  -- A file that cannot be opened: the response is left as it is, with its status.
  route_unreadable : open_file (file_name s req.path) ≡ none → route fs s req resp ≡ ok resp
  unfolding route file_handler files_of read_file
  route_unreadable e = rw (handled-by_file, e) refl
