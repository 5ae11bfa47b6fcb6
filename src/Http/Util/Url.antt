-- ===== src/Http/Util/Url.antt =====
-- UrlEncode and UrlDecode against one another.
use flux_a_high_performance.Prelude.{
  ℕ, ◌<◌, ◌≡◌, refl, ap, ◌∙◌, Bool, true, false, not, ◌&&◌, List, [], ◌∷◌, ◌++◌, map, ltb, ◌==◌,
  ==_iff, if◌then◌else◌, All, holds_below, holds_below_at, arith,
}
use flux_a_high_performance.Http.Util.{encode_char, url_encode, decode_char, hex_pair, url_decode}

-- What a byte is after both: a byte that a signed char takes for negative is lost.
abbrev pub through : ℕ → ℕ
through c = if ltb c 128 then c else 255

-- A code that UrlDecode reads as the byte `v`, whatever follows it.
unfoldable reads_as : Bool → ℕ → List ℕ → Bool
reads_as plus v [] = false
reads_as plus v (x ∷ []) = not (x == b'%') && (decode_char plus x == v)
reads_as plus v (x ∷ a ∷ []) = false
reads_as plus v (x ∷ a ∷ b ∷ []) = x == b'%' && (hex_pair a b == v)
reads_as plus v (x ∷ a ∷ b ∷ c ∷ xs) = false

decode-plain :
    (plus : Bool) (x : ℕ) (rest : List ℕ)
    → (x == b'%') ≡ false
    → url_decode (x ∷ rest) plus ≡ decode_char plus x ∷ url_decode rest plus
unfolding url_decode
decode-plain plus x [] h = refl
decode-plain plus x (a ∷ []) h = refl
decode-plain plus x (a ∷ b ∷ rest) h = rw (h, url_decode)

decode-percent :
    (plus : Bool) (x a b v : ℕ) (rest : List ℕ)
    → (x == b'%') ≡ true
    → (hex_pair a b == v) ≡ true
    → url_decode (x ∷ a ∷ b ∷ rest) plus ≡ v ∷ url_decode rest plus
unfolding url_decode
decode-percent plus x a b v rest h k =
    rw (h, url_decode) (ap (λ y. y ∷ url_decode rest plus) ((==_iff (hex_pair a b) v).0 k))

decode-reads_as :
    (plus : Bool) (v : ℕ) (xs rest : List ℕ)
    → reads_as plus v xs ≡ true
    → url_decode (xs ++ rest) plus ≡ v ∷ url_decode rest plus
unfolding reads_as
decode-reads_as plus v [] rest h = cc
decode-reads_as plus v (x ∷ []) rest h = ground (arith, decode-plain plus x rest)
decode-reads_as plus v (x ∷ a ∷ []) rest h = cc
decode-reads_as plus v (x ∷ a ∷ b ∷ []) rest h = ground (arith, decode-percent plus x a b v rest)
decode-reads_as plus v (x ∷ a ∷ b ∷ c ∷ xs) rest h = cc

code_table :
    (plus : Bool) → holds_below (λ c. reads_as plus (through c) (encode_char plus c)) 256 ≡ true
unfolding holds_below encode_char reads_as decode_char hex_pair
code_table true = refl
code_table false = refl

encode_char-reads_as :
    (plus : Bool) (c : ℕ) → c < 256 → reads_as plus (through c) (encode_char plus c) ≡ true
encode_char-reads_as plus c h =
    holds_below_at (λ c. reads_as plus (through c) (encode_char plus c)) 256 c h (code_table plus)

-- Decoding what UrlEncode made of a text of bytes, under the same flag: each byte below 128 comes
-- back, and each other byte has become 255.
pub url_decode-url_encode :
    (url : List ℕ) (plus : Bool)
    → All (λ c. c < 256) url
    → url_decode (url_encode url plus) plus ≡ map through url
unfolding url_encode url_decode
url_decode-url_encode [] plus h = refl
url_decode-url_encode (c ∷ url) plus h =
    decode-reads_as plus (through c) (encode_char plus c) (url_encode url plus)
      (encode_char-reads_as plus c h.0)
    ∙ ap (λ r. through c ∷ r) (url_decode-url_encode url plus h.1)
