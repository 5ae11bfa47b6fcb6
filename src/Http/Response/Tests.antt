-- ===== src/Http/Response/Tests.antt =====
-- A response with a body, to a request that keeps the connection open.
use flux_a_high_performance.Prelude.{◌≡◌, refl, codes, eq_bytes, ok, arith}
use flux_a_high_performance.Http.Request
use flux_a_high_performance.Http.Request.Headers.{find_entry, insert}
use flux_a_high_performance.Http.Request.{HttpRequest, content_length}
use flux_a_high_performance.Http.Response.{HttpResponse, with_status, set_content, completed}
use flux_a_high_performance.Http.Response.Digits.{content_length-completed}

abbrev request : HttpRequest
request = Request.set_header Request.empty (codes "Connection") (codes "keep-alive")

abbrev page : HttpResponse
page = set_content (with_status 404) (codes "<html>Not Found</html>") (codes "text/html")

content_length-completed_example :
    content_length (record (Request.empty) { headers = (completed request page).headers }) ≡ ok 22
unfolding find_entry set_content insert eq_bytes
content_length-completed_example =
    content_length-completed request page refl (omega arith) (omega arith)
