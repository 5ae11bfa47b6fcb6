-- ===== src/Http/Util.antt =====
-- class Util of source/Http/http.hpp: splitting, percent-encoding, look-ups and the check of paths.
-- A char is a byte, 0 to 255; those from 128 on are the negative values of a signed char.
pub mod Tokens
pub mod Split
pub mod Url
pub mod Path
pub mod Mime
pub mod Files
pub mod Encoded
mod Tests
use mathlib.Core.Option
use flux_a_high_performance.Prelude.{
  ℕ, zero, suc, ◌+◌, ◌-◌, ◌*◌, ◌/◌, ◌%◌, ◌^◌, Bool, true, false, List, [], ◌∷◌, ◌++◌, Option, none,
  some, ltb, leb, ◌==◌, ◌&&◌, ◌||◌, if◌then◌else◌, length, take, drop, codes, eq_bytes, find_from,
  find_last,
}
use flux_a_high_performance.Http.Tables.{statu_msg, mime_msg}

-- The loop of Split, with fuel; `none` means that the fuel ran out.
unfoldable pub split_loop : ℕ → List ℕ → List ℕ → ℕ → List (List ℕ) → Option (List (List ℕ))
unfolding find_from
split_loop zero src sep offset arry = none
split_loop (suc fuel) src sep offset arry = elim (ltb offset (length src)) [
  | false ↦ some arry
  | true ↦ elim (find_from sep src offset) [
    | none ↦ some (if offset == length arry then arry else arry ++ drop offset src ∷ [])
    | some pos ↦ elim (pos == offset) [
      | true ↦ split_loop fuel src sep (pos + length sep) arry
      | false ↦
          split_loop fuel src sep (pos + length sep)
            (arry ++ take (pos - offset) (drop offset src) ∷ [])
    ]
  ]
]

-- Split into an empty vector. A round moves the offset on, unless `sep` is empty.
unfoldable pub split : List ℕ → List ℕ → Option (List (List ℕ))
split src sep = split_loop (length src + 1) src sep 0 []

-- isalnum of the C locale.
pub is_alnum : ℕ → Bool
is_alnum c = (leb b'0' c && leb c b'9') || (leb b'A' c && leb c b'Z') || (leb b'a' c && leb c b'z')

pub is_unreserved : ℕ → Bool
unfolding is_alnum
is_unreserved c = c == b'.' || c == b'-' || c == b'_' || c == b'~' || is_alnum c

-- The conversion of a signed char to the unsigned int that %X prints.
pub sign_extend : ℕ → ℕ
sign_extend c = if ltb c 128 then c else 2 ^ 32 - 256 + c

pub hex_digit : ℕ → ℕ
hex_digit n = if ltb n 10 then b'0' + n else b'A' + (n - 10)

-- The hexadecimal digits of a number below 16 ^ rounds, without leading zeros.
pub hex_digits : ℕ → ℕ → List ℕ
unfolding hex_digit
hex_digits zero n = []
hex_digits (suc rounds) n =
    let more = hex_digits rounds (n / 16) in
    if ltb n 16 then hex_digit n ∷ [] else more ++ hex_digit (n % 16) ∷ []

-- snprintf(tmp, 4, "%%%02X", c): at most three bytes of the text are kept.
pub percent_code : ℕ → List ℕ
unfolding hex_digits sign_extend
percent_code c =
    let digits = hex_digits 8 (sign_extend c) in
    take 3 (b'%' ∷ (if ltb (length digits) 2 then b'0' ∷ digits else digits))

pub encode_char : Bool → ℕ → List ℕ
unfolding is_unreserved percent_code
encode_char convert_space_to_plus c =
    if is_unreserved c
    then c ∷ []
    else if c == b' ' && convert_space_to_plus
    then b'+' ∷ []
    else percent_code c

unfoldable pub url_encode : List ℕ → Bool → List ℕ
unfolding encode_char
url_encode [] convert_space_to_plus = []
url_encode (c ∷ url) convert_space_to_plus =
    encode_char convert_space_to_plus c ++ url_encode url convert_space_to_plus

-- HEXTOI; -1 is the char 255.
pub hex_to_i : ℕ → ℕ
hex_to_i c =
    if leb b'0' c && leb c b'9'
    then c - b'0'
    else if leb b'a' c && leb c b'f'
    then c - b'a' + 10
    else if leb b'A' c && leb c b'F'
    then c - b'A' + 10
    else 255

-- v1 * 16 + v2, as a char.
pub hex_pair : ℕ → ℕ → ℕ
unfolding hex_to_i
hex_pair a b = (hex_to_i a * 16 + hex_to_i b) % 256

pub decode_char : Bool → ℕ → ℕ
decode_char convert_plus_to_space c = if c == b'+' && convert_plus_to_space then b' ' else c

pub url_decode : List ℕ → Bool → List ℕ
unfolding decode_char hex_pair
url_decode [] plus = []
url_decode (c ∷ []) plus = decode_char plus c ∷ []
url_decode (c ∷ a ∷ []) plus = decode_char plus c ∷ decode_char plus a ∷ []
url_decode (c ∷ a ∷ b ∷ url) plus = elim (c == b'%') [
  | true ↦ hex_pair a b ∷ url_decode url plus
  | false ↦ decode_char plus c ∷ url_decode (a ∷ b ∷ url) plus
]

-- unordered_map::find in a table: the first entry of a key counts.
pub lookup_code : ℕ → List (ℕ × List ℕ) → Option (List ℕ)
lookup_code k [] = none
lookup_code k ((j, v) ∷ table) = if j == k then some v else lookup_code k table

pub lookup_text : List ℕ → List (List ℕ × List ℕ) → Option (List ℕ)
lookup_text k [] = none
lookup_text k ((j, v) ∷ table) = if eq_bytes j k then some v else lookup_text k table

abbrev pub value_or : Option (List ℕ) → List ℕ → List ℕ
value_or none d = d
value_or (some v) d = v

pub statu_desc : ℕ → List ℕ
statu_desc statu = value_or (lookup_code statu statu_msg) (codes "Unknown")

abbrev pub octet_stream : List ℕ
octet_stream = codes "application/octet-stream"

pub ext_mime : List ℕ → List ℕ
ext_mime filename = elim (find_last b'.' filename) [
  | none ↦ octet_stream
  | some pos ↦ value_or (lookup_text (drop pos filename) mime_msg) octet_stream
]

-- The loop of ValidPath over the parts of a path, at a level below the root.
unfoldable pub valid_levels : ℕ → List (List ℕ) → Bool
unfolding eq_bytes
valid_levels level [] = true
valid_levels level (dir ∷ subdir) = elim (eq_bytes dir (codes "..")) [
  | true ↦ elim (level == 0) [ true ↦ false | false ↦ valid_levels (level - 1) subdir ]
  | false ↦ valid_levels (level + 1) subdir
]

unfoldable pub valid_path : List ℕ → Option Bool
valid_path path = Option.map (valid_levels 0) (split path (codes "/"))
