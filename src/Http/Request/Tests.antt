-- ===== src/Http/Request/Tests.antt =====
-- std::stol at concrete texts.
use flux_a_high_performance.Prelude.{◌≡◌, ◌∙◌, refl, codes, some, ok, fault, uncaught}
use flux_a_high_performance.Http.Request.Headers.{find_entry}
use flux_a_high_performance.Http.Request.{
  HttpRequest, is_space, is_digit, skip_spaces, digits_value, unsigned_long, signed_long, stol,
  content_length,
}
use flux_a_high_performance.Http.Request.Decimal.{content_length-find_entry}

stol_signed : stol (codes " +120 bytes") ≡ ok 120
unfolding stol is_space is_digit skip_spaces digits_value unsigned_long signed_long
stol_signed = refl

-- A negative long is a large size_t.
stol_negative : stol (codes "-1") ≡ ok 18446744073709551615
unfolding stol is_space is_digit skip_spaces digits_value unsigned_long signed_long
stol_negative = refl

stol_text : stol (codes "abc") ≡ fault uncaught
unfolding stol is_space is_digit skip_spaces digits_value unsigned_long signed_long
stol_text = refl

stol_five : stol (codes "5") ≡ ok 5
unfolding stol is_space is_digit skip_spaces digits_value unsigned_long signed_long
stol_five = refl

pub content_length_five :
    (r : HttpRequest)
    → find_entry (codes "Content-Length") r.headers ≡ some (codes "5")
    → content_length r ≡ ok 5
content_length_five r e = content_length-find_entry r (codes "5") e ∙ stol_five
