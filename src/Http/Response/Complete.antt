-- ===== src/Http/Response/Complete.antt =====
-- The headers that MakeResponse adds to a response.
use flux_a_high_performance.Prelude.{
  ℕ, ◌≡◌, ◌<◌, refl, ap, ◌∙◌, Bool, true, false, List, if◌then◌else◌, length, codes, eq_bytes,
  eq_bytes_refl, some, none, arith, length-append,
}
use flux_a_high_performance.Http.Request.Headers.{
  Table, insert, has, get, find_entry, find_entry-insert,
}
use flux_a_high_performance.Http.Request.{HttpRequest}
use flux_a_high_performance.Http.Request
use flux_a_high_performance.Http.Response.{
  HttpResponse, with_connection, with_length, with_type, with_location, completed, to_string,
  is_short_connection, has_header, get_header, response_text,
}

abbrev connection : List ℕ
connection = codes "Connection"

abbrev content_length : List ℕ
content_length = codes "Content-Length"

insert-other :
    (k j v : List ℕ) (t : Table)
    → eq_bytes k j ≡ false
    → find_entry j (insert k v t) ≡ find_entry j t
insert-other k j v t h = ground (arith, find_entry-insert k j v t)

insert-same :
    (k v : List ℕ) (t : Table) → find_entry k t ≡ none → find_entry k (insert k v t) ≡ some v
insert-same k v t h = ground (arith, find_entry-insert k k v t, eq_bytes_refl k)

-- The later steps leave an entry alone whose key is not theirs.
with_location-other :
    (j : List ℕ) (r : HttpResponse)
    → eq_bytes (codes "Location") j ≡ false
    → find_entry j (with_location r).headers ≡ find_entry j r.headers
unfolding with_location
with_location-other j r h =
    ground (arith, insert-other (codes "Location") j r.redirect_url r.headers)

with_type-other :
    (j : List ℕ) (r : HttpResponse)
    → eq_bytes (codes "Content-Type") j ≡ false
    → find_entry j (with_type r).headers ≡ find_entry j r.headers
unfolding with_type
with_type-other j r h =
    ground
      (arith, insert-other (codes "Content-Type") j (codes "application/octet-stream") r.headers)

with_length-other :
    (j : List ℕ) (r : HttpResponse)
    → eq_bytes content_length j ≡ false
    → find_entry j (with_length r).headers ≡ find_entry j r.headers
unfolding with_length
with_length-other j r h =
    ground (arith, insert-other content_length j (to_string (length r.body)) r.headers)

with_length-same :
    (r : HttpResponse)
    → find_entry content_length r.headers ≡ none
    → 0 < length r.body
    → find_entry content_length (with_length r).headers ≡ some (to_string (length r.body))
unfolding with_length has
with_length-same r h k =
    ground (arith, insert-same content_length (to_string (length r.body)) r.headers)

with_connection-entry :
    (req : HttpRequest) (r : HttpResponse)
    → find_entry connection r.headers ≡ none
    → find_entry connection (with_connection req r).headers
      ≡ some (if Request.is_short_connection req then codes "close" else codes "keep-alive")
unfolding with_connection
with_connection-entry req r h = ground (
  arith,
  insert-same connection (codes "close") r.headers,
  insert-same connection (codes "keep-alive") r.headers,
)

with_connection-other :
    (j : List ℕ) (req : HttpRequest) (r : HttpResponse)
    → eq_bytes connection j ≡ false
    → find_entry j (with_connection req r).headers ≡ find_entry j r.headers
unfolding with_connection
with_connection-other j req r h = ground (
  arith,
  insert-other connection j (codes "close") r.headers,
  insert-other connection j (codes "keep-alive") r.headers,
)

with_connection-body :
    (req : HttpRequest) (r : HttpResponse) → (with_connection req r).body ≡ r.body
unfolding with_connection
with_connection-body req r = ground arith

-- The header that tells a client whether the connection stays open.
completed-connection :
    (req : HttpRequest) (r : HttpResponse)
    → find_entry connection r.headers ≡ none
    → find_entry connection (completed req r).headers
      ≡ some (if Request.is_short_connection req then codes "close" else codes "keep-alive")
unfolding completed eq_bytes
completed-connection req r h =
    with_location-other connection (with_type (with_length (with_connection req r))) refl
    ∙ with_type-other connection (with_length (with_connection req r)) refl
    ∙ with_length-other connection (with_connection req r) refl
    ∙ with_connection-entry req r h

pub completed-length :
    (req : HttpRequest) (r : HttpResponse)
    → find_entry content_length r.headers ≡ none
    → 0 < length r.body
    → find_entry content_length (completed req r).headers ≡ some (to_string (length r.body))
unfolding completed eq_bytes
completed-length req r h k =
    with_location-other content_length (with_type (with_length (with_connection req r))) refl
    ∙ with_type-other content_length (with_length (with_connection req r)) refl
    ∙ with_length-same (with_connection req r) (with_connection-other content_length req r refl ∙ h)
        (rw (with_connection-body req r) k)
    ∙ ap (λ body. some (to_string (length body))) (with_connection-body req r)

short_from_entry :
    (r : HttpResponse) (short : Bool)
    → find_entry connection r.headers ≡ some (if short then codes "close" else codes "keep-alive")
    → is_short_connection r ≡ short
unfolding is_short_connection has_header get_header has get eq_bytes
short_from_entry r true e = simp (e, is_short_connection, has_header, get_header, has, get)
short_from_entry r false e = simp (e, is_short_connection, has_header, get_header, has, get)

-- The response closes the connection exactly when the request asks for that, unless the handler set
-- a Connection header itself.
completed-is_short_connection :
    (req : HttpRequest) (r : HttpResponse)
    → find_entry connection r.headers ≡ none
    → is_short_connection (completed req r) ≡ Request.is_short_connection req
completed-is_short_connection req r h =
    short_from_entry (completed req r) (Request.is_short_connection req)
      (completed-connection req r h)

pub response_text-ne_nil : (req : HttpRequest) (r : HttpResponse) → 0 < length (response_text req r)
unfolding response_text
response_text-ne_nil req r = simp length-append (omega arith)
