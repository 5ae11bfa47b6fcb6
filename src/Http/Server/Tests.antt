-- ===== src/Http/Server/Tests.antt =====
-- A server with one route, and files.
use flux_a_high_performance.Prelude.{◌≡◌, refl, false, [], ◌∷◌, codes, eq_bytes, ok, arith}
use flux_a_high_performance.Http.Request
use flux_a_high_performance.Http.Request.{HttpRequest}
use flux_a_high_performance.Http.Response.{with_status}
use flux_a_high_performance.Http.Server.{
  Files, Handler, HttpServer, route, register_post, file_name,
}
use flux_a_high_performance.Http.Server.Samples.{exactly}
use flux_a_high_performance.Http.Server.Routes.{route-register_post}
use flux_a_high_performance.Http.Server.Confined.{SameValid, route_confined}

abbrev server : HttpServer
server = record {
  get_route = [];
  post_route = (exactly (codes "/hello"), λ req resp. record resp { body = req.body }) ∷ [];
  put_route = [];
  delete_route = [];
  basedir = codes "/www";
}

abbrev empty_files : Files
empty_files = record { is_regular = λ name. false; read_file = λ name buf. (false, buf) }

-- A file outside the names that the server makes.
abbrev secret_files : Files
secret_files = record {
  is_regular = λ name. eq_bytes name (codes "/etc/passwd");
  read_file = λ name buf. (false, buf);
}

abbrev login : HttpRequest
login = record (Request.empty) { method = codes "POST"; path = codes "/login"; body = codes "x" }

abbrev created : Handler
created req resp = record resp { status = 201 }

route-register_post_example :
    route empty_files
      (register_post server (exactly (codes "/login")) created)
      login
      (with_status 200)
    ≡ ok (created (record login { matches = codes "/login" ∷ [] }) (with_status 200))
unfolding eq_bytes
route-register_post_example =
    route-register_post empty_files server login (with_status 200) (exactly (codes "/login"))
      created refl (refl, tt)

same_files : SameValid server empty_files secret_files
unfolding file_name eq_bytes
same_files = record { same_regular = λ path v. ground arith; same_content = λ path buf v. refl }

-- A request for a file.
abbrev fetch : HttpRequest
fetch = record (Request.empty) { method = codes "GET"; path = codes "/css/../index.html" }

route_confined_example :
    route empty_files server fetch (with_status 200)
    ≡ route secret_files server fetch (with_status 200)
route_confined_example =
    route_confined server empty_files secret_files fetch (with_status 200) same_files
