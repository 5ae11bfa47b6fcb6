-- ===== src/Http/Line.antt =====
-- The request line of source/Http/http.hpp: what std::regex_match makes of the pattern of
-- HttpContext::ParseHttpLine, ignoring case. Every part of the pattern but the target has a fixed
-- length, so there is one way to match.
pub mod Printed
use flux_a_high_performance.Prelude.{
  ℕ, ◌+◌, ◌-◌, Bool, true, not, List, [], ◌∷◌, ◌++◌, Option, some, none, map, leb, ◌==◌, ◌&&◌, ◌||◌,
  if◌then◌else◌, length, take, drop, codes, eq_bytes, index_of, starts_with,
}

-- tolower and toupper of the C locale.
unfoldable pub to_lower : ℕ → ℕ
to_lower c = if leb b'A' c && leb c b'Z' then c + 32 else c

unfoldable pub to_upper : ℕ → ℕ
to_upper c = if leb b'a' c && leb c b'z' then c - 32 else c

-- std::regex::icase on a literal.
unfoldable pub starts_with_icase : List ℕ → List ℕ → Bool
unfolding to_lower
starts_with_icase lit s = starts_with (map to_lower lit) (map to_lower s)

-- (?:\r\n|\n)? at the end of the line.
unfoldable pub ends_with : List ℕ → List ℕ → Bool
ends_with suffix s =
    leb (length suffix) (length s) && eq_bytes (drop (length s - length suffix) s) suffix

unfoldable pub strip_newline : List ℕ → List ℕ
unfolding ends_with
strip_newline s =
    if ends_with (b'\r' ∷ b'\n' ∷ []) s
    then take (length s - 2) s
    else if ends_with (b'\n' ∷ []) s
    then take (length s - 1) s
    else s

-- (GET|HEAD|POST|PUT|DELETE) and the blank: the method as written, and what follows.
unfoldable pub match_method : List (List ℕ) → List ℕ → Option (List ℕ × List ℕ)
unfolding starts_with_icase
match_method [] s = none
match_method (m ∷ ms) s =
    if starts_with_icase (m ++ b' ' ∷ []) s
    then some (take (length m) s, drop (length m + 1) s)
    else match_method ms s

abbrev pub methods : List (List ℕ)
methods = codes "GET" ∷ codes "HEAD" ∷ codes "POST" ∷ codes "PUT" ∷ codes "DELETE" ∷ []

-- (HTTP/1\.[01]) behind a blank, at the end: what stands before, and the version.
unfoldable pub match_version : List ℕ → Option (List ℕ × List ℕ)
unfolding starts_with_icase
match_version s =
    let at = length s - 9 in
    if leb 9 (length s)
      && (starts_with_icase (codes " HTTP/1.") (drop at s)
          && (ends_with (b'0' ∷ []) s || ends_with (b'1' ∷ []) s))
    then some (take at s, drop (at + 1) s)
    else none

-- .* matches no line terminator.
unfoldable pub is_dot_text : List ℕ → Bool
is_dot_text [] = true
is_dot_text (c ∷ cs) = not (c == b'\n' || c == b'\r') && is_dot_text cs

pub record RequestLine : Type 0 where
  pub method : List ℕ
  pub path : List ℕ
  pub query : List ℕ
  pub version : List ℕ

-- ([^?]*)(?:\?(.*))?
unfoldable pub match_target : List ℕ → List ℕ → List ℕ → Option RequestLine
unfolding is_dot_text
match_target method version s = elim (index_of b'?' s) [
  | none ↦ some (record { method = method; path = s; query = []; version = version })
  | some i ↦
      if is_dot_text (drop (i + 1) s)
      then some
          (record { method = method; path = take i s; query = drop (i + 1) s; version = version })
      else none
]

-- std::regex_match of a line against the pattern of ParseHttpLine.
unfoldable pub match_line : List ℕ → Option RequestLine
unfolding strip_newline match_version match_method match_target
match_line line = elim (match_version (strip_newline line)) [
  | none ↦ none
  | some (front, version) ↦ elim (match_method methods front) [
    | none ↦ none
    | some (method, target) ↦ match_target method version target
  ]
]
