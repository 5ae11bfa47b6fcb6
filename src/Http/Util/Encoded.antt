-- ===== src/Http/Util/Encoded.antt =====
-- What UrlEncode writes for a path of a request line.
use flux_a_high_performance.Prelude.{
  ℕ, ◌<◌, ◌≡◌, refl, ◌∙◌, Bool, true, false, not, ◌&&◌, ◌||◌, List, [], ◌∷◌, ◌++◌, map, ltb, ◌==◌,
  All, Avoids, holds_below, holds_below_at, arith,
}
use flux_a_high_performance.Http.Util.{encode_char, url_encode, url_decode}
use flux_a_high_performance.Http.Util.Url.{through, url_decode-url_encode}

-- Neither the query nor the line ends at this byte.
plain : ℕ → Bool
plain c = not (c == b'?' || c == b'\n')

unfoldable all_plain : List ℕ → Bool
unfolding plain
all_plain [] = true
all_plain (c ∷ cs) = plain c && all_plain cs

all_plain-Avoids :
    (xs ys : List ℕ)
    → all_plain xs ≡ true
    → Avoids b'?' ys
    → Avoids b'\n' ys
    → Avoids b'?' (xs ++ ys) × Avoids b'\n' (xs ++ ys)
unfolding all_plain
all_plain-Avoids [] ys h p q = (p, q)
all_plain-Avoids (x ∷ xs) ys h p q =
    let rest = all_plain-Avoids xs ys (ground arith) p q in
    (((λ e. ground arith), rest.0), ((λ e. ground arith), rest.1))

plain_table : holds_below (λ c. all_plain (encode_char false c)) 256 ≡ true
unfolding holds_below encode_char all_plain
plain_table = refl

pub url_encode-Avoids :
    (path : List ℕ)
    → All (λ c. c < 128) path
    → Avoids b'?' (url_encode path false) × Avoids b'\n' (url_encode path false)
unfolding url_encode
url_encode-Avoids [] h = (tt, tt)
url_encode-Avoids (c ∷ path) h =
    let rest = url_encode-Avoids path h.1 in
    all_plain-Avoids (encode_char false c) (url_encode path false)
      (holds_below_at (λ c. all_plain (encode_char false c)) 256 c (omega (arith, h.0)) plain_table)
      rest.0 rest.1

through-ascii :
    (path : List ℕ) → All (λ c. c < 128) path → (map through path ≡ path) × All (λ c. c < 256) path
through-ascii [] h = (refl, tt)
through-ascii (c ∷ path) h =
    let rest = through-ascii path h.1 in
    let low : ltb c 128 ≡ true = ground (arith, h.0) in
    (rw (low, rest.0) refl, (omega (arith, h.0), rest.1))

-- A text of bytes below 128 comes back from its code.
pub path_back :
    (path : List ℕ) → All (λ c. c < 128) path → url_decode (url_encode path false) false ≡ path
path_back path h =
    url_decode-url_encode path false (through-ascii path h).1 ∙ (through-ascii path h).0
