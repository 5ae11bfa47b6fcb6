-- ===== src/Http/Util/Tests.antt =====
-- The utilities on texts of the source's comments, and the theorems at concrete inputs.
use flux_a_high_performance.Prelude.{
  ◌≡◌, refl, true, false, [], ◌∷◌, some, codes, Avoids, arith, find_from, ◌⊎◌,
}
use flux_a_high_performance.Http.Util.{
  split_loop, split, url_encode, url_decode, valid_path, valid_levels, statu_desc, lookup_code,
}
use flux_a_high_performance.Http.Util.Tokens.{tokens}
use flux_a_high_performance.Http.Util.Split.{split_lem}
use flux_a_high_performance.Http.Util.Url.{url_decode-url_encode}
use flux_a_high_performance.Http.Util.Path.{
  stays, path_of, climb, valid_path-stays, valid_path_escapes, valid_path_no_slash,
}

split_commas : split (codes "a,,b,c,") (codes ",") ≡ some (codes "a" ∷ codes "b" ∷ codes "c" ∷ [])
unfolding split split_loop find_from
split_commas = refl

encode_plus_plus : url_encode (codes "C++ ~") true ≡ codes "C%2B%2B+~"
unfolding url_encode
encode_plus_plus = refl

decode_plus_plus : url_decode (codes "C%2b%2B+%4") true ≡ codes "C++ %4"
unfolding url_decode
decode_plus_plus = refl

not_found : statu_desc 404 ≡ codes "Not Found"
unfolding statu_desc lookup_code
not_found = refl

path_above_root : valid_path (codes "/a/../../b") ≡ some false
unfolding valid_path valid_levels split split_loop find_from
path_above_root = refl

split_lem_example :
    (Avoids b'&' (codes "a=1&b=2") × (split (codes "a=1&b=2") (codes "&") ≡ some []))
    ⊎ ((¬ Avoids b'&' (codes "a=1&b=2"))
        × (split (codes "a=1&b=2") (codes "&") ≡ some (codes "a=1" ∷ codes "b=2" ∷ [])))
unfolding tokens
split_lem_example = split_lem b'&' (codes "a=1&b=2")

url_decode-url_encode_example :
    url_decode (url_encode (b'a' ∷ b' ' ∷ 0xe4 ∷ []) true) true ≡ b'a' ∷ b' ' ∷ 255 ∷ []
url_decode-url_encode_example = url_decode-url_encode (b'a' ∷ b' ' ∷ 0xe4 ∷ []) true (omega arith)

no_avoid : ¬ Avoids b'/' (codes "/a/..")
no_avoid a = a.0 refl

valid_path-stays_example : valid_path (codes "/a/..") ≡ some (stays 0 (tokens b'/' (codes "/a/..")))
unfolding tokens
valid_path-stays_example =
    valid_path-stays (codes "/a/..") no_avoid ((λ e. ground arith), ((λ e. cc), tt))

valid_path_escapes_example :
    (valid_path (path_of (climb 2)) ≡ some true)
    × (stays 0 (tokens b'/' (path_of (climb 2))) ≡ false)
valid_path_escapes_example = valid_path_escapes 1

dots_without_slash : valid_path (codes "..") ≡ some true
dots_without_slash = valid_path_no_slash (codes "..") (omega arith)
