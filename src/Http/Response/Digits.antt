-- ===== src/Http/Response/Digits.antt =====
-- std::to_string against std::stol, and the length that MakeResponse announces.
use flux_a_high_performance.Prelude.{
  ℕ, zero, suc, ◌+◌, ◌-◌, ◌*◌, ◌/◌, ◌%◌, ◌^◌, ◌<◌, ◌≡◌, ap, ◌∙◌, ltb, Bool-cases, inl, inr, length,
  codes, none, ok, arith,
}
use flux_a_high_performance.Http.Request
use flux_a_high_performance.Http.Request.Headers.{find_entry}
use flux_a_high_performance.Http.Request.{HttpRequest, is_digit, digits_value, stol, content_length}
use flux_a_high_performance.Http.Request.Decimal.{
  Digits, digits_value-snoc, digits_value-single, Digits-snoc, is_digit-digit, stol-positive,
  digits_value-nil, content_length-find_entry,
}
use flux_a_high_performance.Http.Response.{HttpResponse, to_digits, to_string, completed}
use flux_a_high_performance.Http.Response.Complete.{completed-length}

to_digits-Digits : (rounds n : ℕ) → Digits (to_digits rounds n)
unfolding to_digits
to_digits-Digits zero n = tt
to_digits-Digits (suc rounds) n = elim (Bool-cases (ltb n 10)) [
  | inl t ↦ rw t (is_digit-digit n (ground arith), tt)
  | inr f ↦ rw f (
      Digits-snoc (to_digits rounds (n / 10)) (b'0' + n % 10) (to_digits-Digits rounds (n / 10))
        (is_digit-digit (n % 10) (omega arith)))
]

tenth-lt : (rounds n : ℕ) → n < 10 ^ suc rounds → n / 10 < 10 ^ rounds
tenth-lt rounds n h = omega arith

digits_value-to_digits : (rounds n : ℕ) → n < 10 ^ rounds → digits_value 0 (to_digits rounds n) ≡ n
unfolding to_digits
digits_value-to_digits zero n h = digits_value-nil ∙ omega arith
digits_value-to_digits (suc rounds) n h = elim (Bool-cases (ltb n 10)) [
  | inl t ↦ rw t (digits_value-single n (ground arith))
  | inr f ↦ rw f (
      digits_value-snoc 0 (to_digits rounds (n / 10)) (b'0' + n % 10)
        (to_digits-Digits rounds (n / 10)) (is_digit-digit (n % 10) (omega arith))
      ∙ ap (λ v. v * 10 + (b'0' + n % 10 - b'0'))
          (digits_value-to_digits rounds (n / 10) (tenth-lt rounds n h))
      ∙ omega arith)
]

pub stol-to_string : (n : ℕ) → 0 < n → n < 2 ^ 63 → stol (to_string n) ≡ ok n
unfolding to_string
stol-to_string n p h =
    let e = digits_value-to_digits 20 n (omega arith) in
    stol-positive (to_digits 20 n) (to_digits-Digits 20 n) (rw e p) (rw e h) ∙ ap ok e

-- The peer that reads the headers of a response with a body, which set no Content-Length, with this library's own
-- ContentLength gets the number of bytes of the body.
pub content_length-completed :
    (req : HttpRequest) (r : HttpResponse)
    → find_entry (codes "Content-Length") r.headers ≡ none
    → 0 < length r.body
    → length r.body < 2 ^ 63
    → content_length (record (Request.empty) { headers = (completed req r).headers })
      ≡ ok (length r.body)
content_length-completed req r h p k =
    content_length-find_entry (record (Request.empty) { headers = (completed req r).headers }) _
      (completed-length req r h p)
    ∙ stol-to_string (length r.body) p k
