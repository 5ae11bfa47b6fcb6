-- ===== src/Http/Request/Decimal.antt =====
-- std::stol on decimal digits.
use flux_a_high_performance.Prelude.{
  ℕ, ◌+◌, ◌-◌, ◌*◌, ◌^◌, ◌<◌, ◌≡◌, refl, true, false, List, [], ◌∷◌, ◌++◌, ◌==◌, codes, some, ok,
  arith, All, lt→ltb,
}
use flux_a_high_performance.Http.Request.Headers.{find_entry, has, get}
use flux_a_high_performance.Http.Request.{
  HttpRequest, is_space, is_digit, skip_spaces, digits_value, unsigned_long, signed_long, stol,
  content_length, has_header, get_header,
}

abbrev pub Digits : List ℕ → Type 0
Digits xs = All (λ c. is_digit c ≡ true) xs

pub digits_value-snoc :
    (acc : ℕ) (xs : List ℕ) (d : ℕ)
    → Digits xs
    → is_digit d ≡ true
    → digits_value acc (xs ++ d ∷ []) ≡ digits_value acc xs * 10 + (d - b'0')
unfolding digits_value
digits_value-snoc acc [] d h k = rw (k, digits_value) refl
digits_value-snoc acc (x ∷ xs) d h k =
    rw (h.0, digits_value) (digits_value-snoc (acc * 10 + (x - b'0')) xs d (h.1) k)

pub digits_value-nil : digits_value 0 [] ≡ 0
unfolding digits_value
digits_value-nil = refl

pub digits_value-single : (d : ℕ) → d < 10 → digits_value 0 ((b'0' + d) ∷ []) ≡ d
unfolding digits_value is_digit
digits_value-single d h = ground arith

pub Digits-snoc : (xs : List ℕ) (d : ℕ) → Digits xs → is_digit d ≡ true → Digits (xs ++ d ∷ [])
Digits-snoc [] d h k = (k, tt)
Digits-snoc (x ∷ xs) d h k = (h.0, Digits-snoc xs d (h.1) k)

pub is_digit-digit : (d : ℕ) → d < 10 → is_digit (b'0' + d) ≡ true
unfolding is_digit
is_digit-digit d h = ground arith

digit_not-blank : (x : ℕ) → is_digit x ≡ true → is_space x ≡ false
unfolding is_digit is_space
digit_not-blank x h = ground arith

digit_not-minus : (x : ℕ) → is_digit x ≡ true → (x == b'-') ≡ false
unfolding is_digit
digit_not-minus x h = ground arith

digit_not-plus : (x : ℕ) → is_digit x ≡ true → (x == b'+') ≡ false
unfolding is_digit
digit_not-plus x h = ground arith

pub stol-Digits :
    (x : ℕ) (xs : List ℕ)
    → Digits (x ∷ xs)
    → digits_value 0 (x ∷ xs) < 2 ^ 63
    → stol (x ∷ xs) ≡ ok (digits_value 0 (x ∷ xs))
unfolding stol skip_spaces signed_long unsigned_long
stol-Digits x xs h k = rw (
  digit_not-blank x h.0,
  signed_long,
  digit_not-minus x h.0,
  digit_not-plus x h.0,
  unsigned_long,
  h.0,
  lt→ltb _ _ k,
)

-- A text of digits whose value is not 0 is not empty.
pub stol-positive :
    (xs : List ℕ)
    → Digits xs
    → 0 < digits_value 0 xs
    → digits_value 0 xs < 2 ^ 63
    → stol xs ≡ ok (digits_value 0 xs)
unfolding digits_value
stol-positive [] h p k = absurd (omega arith)
stol-positive (x ∷ xs) h p k = stol-Digits x xs h k

pub content_length-find_entry :
    (r : HttpRequest) (v : List ℕ)
    → find_entry (codes "Content-Length") r.headers ≡ some v
    → content_length r ≡ stol v
unfolding content_length has get
content_length-find_entry r v e = simp (e, has_header, has, get_header, get)
