-- ===== src/Http/Server/Samples.antt =====
-- A server with one route and no files, for the tests.
use flux_a_high_performance.Prelude.{
  ℕ, false, List, [], ◌∷◌, some, none, if◌then◌else◌, codes, eq_bytes,
}
use flux_a_high_performance.Http.Server.{Files, Pattern, HttpServer}

-- A pattern without variable parts.
abbrev pub exactly : List ℕ → Pattern
exactly text path = if eq_bytes text path then some (path ∷ []) else none

abbrev pub hello_server : HttpServer
hello_server = record {
  get_route = (exactly (codes "/hello"), λ req resp. record resp { body = codes "hello" }) ∷ [];
  post_route = [];
  put_route = [];
  delete_route = [];
  basedir = [];
}

abbrev pub no_files : Files
no_files = record { is_regular = λ name. false; read_file = λ name buf. (false, buf) }
