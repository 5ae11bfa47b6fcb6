-- ===== src/Http/Line/Printed.antt =====
-- The pattern of ParseHttpLine on a request line that a client has written: what each part of it matches.
use flux_a_high_performance.Prelude.{
  ℕ, ◌+◌, ◌-◌, ◌≡◌, refl, true, List, [], ◌∷◌, ◌++◌, map, some, ◌⊎◌, inl, inr, length,
  take-append_left, drop-append_left, drop-past, length-append, append_assoc, leb, ◌||◌, codes,
  eq_bytes_refl, index_of-none, starts_with, Avoids, Avoids-append, ◌≢◌, arith,
}
use flux_a_high_performance.Http.Line.{
  to_lower, to_upper, starts_with_icase, ends_with, strip_newline, match_method, methods,
  match_version, match_target, match_line,
}

-- One of the methods, in upper case.
abbrev pub OneOf : List ℕ → List (List ℕ) → Type 0
OneOf m [] = m ≡ []
OneOf m (x ∷ []) = m ≡ x
OneOf m (x ∷ y ∷ xs) = (m ≡ x) ⊎ OneOf m (y ∷ xs)

pub ends_with-append : (xs suffix : List ℕ) → ends_with suffix (xs ++ suffix) ≡ true
unfolding ends_with
ends_with-append xs suffix =
    let n : length (xs ++ suffix) - length suffix ≡ length xs =
      omega (arith, length-append xs suffix) in
    let l : leb (length suffix) (length (xs ++ suffix)) ≡ true =
      ground (arith, length-append xs suffix) in
    rw (n, l, drop-append_left xs suffix) (eq_bytes_refl suffix)

strip_newline-append : (xs : List ℕ) → strip_newline (xs ++ b'\r' ∷ b'\n' ∷ []) ≡ xs
unfolding strip_newline
strip_newline-append xs =
    let crlf : List ℕ = b'\r' ∷ b'\n' ∷ [] in
    let n : length (xs ++ crlf) - 2 ≡ length xs = omega (arith, length-append xs crlf) in
    rw (ends_with-append xs crlf, n) (take-append_left xs crlf)

abbrev pub version_of : ℕ → List ℕ
version_of minor = codes "HTTP/1." ++ minor ∷ []

version_digit :
    (xs : List ℕ) (minor : ℕ)
    → (minor ≡ b'0') ⊎ (minor ≡ b'1')
    → (ends_with (b'0' ∷ []) (xs ++ b' ' ∷ version_of minor)
        || ends_with (b'1' ∷ []) (xs ++ b' ' ∷ version_of minor))
      ≡ true
version_digit xs minor (inl e) =
    let front : List ℕ = xs ++ codes " HTTP/1." in
    rw (e, ← append_assoc xs (codes " HTTP/1.") (b'0' ∷ []), ends_with-append front (b'0' ∷ []))
      refl
version_digit xs minor (inr e) =
    let front : List ℕ = xs ++ codes " HTTP/1." in
    rw (e, ← append_assoc xs (codes " HTTP/1.") (b'1' ∷ []), ends_with-append front (b'1' ∷ []))
      (ground arith)

match_version-append :
    (xs : List ℕ) (minor : ℕ)
    → (minor ≡ b'0') ⊎ (minor ≡ b'1')
    → match_version (xs ++ b' ' ∷ version_of minor) ≡ some (xs, version_of minor)
unfolding match_version starts_with_icase starts_with
match_version-append xs minor h =
    let line : List ℕ = xs ++ b' ' ∷ version_of minor in
    let len : length line ≡ length xs + 9 = length-append xs (b' ' ∷ version_of minor) in
    let n : length line - 9 ≡ length xs = omega (arith, len) in
    let l : leb 9 (length line) ≡ true = ground (arith, len) in
    rw
      (
        n,
        l,
        drop-append_left xs (b' ' ∷ version_of minor),
        version_digit xs minor h,
        take-append_left xs (b' ' ∷ version_of minor),
        drop-past (length xs + 1) xs b' ' (version_of minor) refl,
      )
      refl

match_method-append :
    (m target : List ℕ)
    → OneOf m methods
    → match_method methods (m ++ b' ' ∷ target) ≡ some (m, target)
unfolding match_method starts_with_icase to_lower starts_with
match_method-append m target (inl e) = rw e refl
match_method-append m target (inr (inl e)) = rw e refl
match_method-append m target (inr (inr (inl e))) = rw e refl
match_method-append m target (inr (inr (inr (inl e)))) = rw e refl
match_method-append m target (inr (inr (inr (inr e)))) = rw e refl

pub method_upper : (m : List ℕ) → OneOf m methods → map to_upper m ≡ m
unfolding to_upper
method_upper m (inl e) = rw e refl
method_upper m (inr (inl e)) = rw e refl
method_upper m (inr (inr (inl e))) = rw e refl
method_upper m (inr (inr (inr (inl e)))) = rw e refl
method_upper m (inr (inr (inr (inr e)))) = rw e refl

-- The line without its line break.
unfoldable pub request_line : List ℕ → List ℕ → ℕ → List ℕ
request_line m target minor = (m ++ b' ' ∷ target) ++ b' ' ∷ version_of minor

pub match_line-request_line :
    (m target : List ℕ) (minor : ℕ)
    → OneOf m methods
    → Avoids b'?' target
    → (minor ≡ b'0') ⊎ (minor ≡ b'1')
    → match_line (request_line m target minor ++ b'\r' ∷ b'\n' ∷ [])
      ≡ some (record { method = m; path = target; query = []; version = version_of minor })
unfolding match_line request_line match_target
match_line-request_line m target minor hm ht hv =
    rw
      (
        match_line,
        strip_newline-append (request_line m target minor),
        request_line,
        match_version-append (m ++ b' ' ∷ target) minor hv,
        match_method-append m target hm,
        match_target,
        index_of-none b'?' target ht,
      )
      refl

method-Avoids : (m : List ℕ) → OneOf m methods → Avoids b'\n' m
method-Avoids m (inl e) = rw e (omega arith)
method-Avoids m (inr (inl e)) = rw e (omega arith)
method-Avoids m (inr (inr (inl e))) = rw e (omega arith)
method-Avoids m (inr (inr (inr (inl e)))) = rw e (omega arith)
method-Avoids m (inr (inr (inr (inr e)))) = rw e (omega arith)

pub request_line-Avoids :
    (m target : List ℕ) (minor : ℕ)
    → OneOf m methods
    → Avoids b'\n' target
    → (minor ≡ b'0') ⊎ (minor ≡ b'1')
    → Avoids b'\n' (request_line m target minor)
unfolding request_line
request_line-Avoids m target minor hm ht hv =
    let front : Avoids b'\n' (m ++ b' ' ∷ target) =
      Avoids-append b'\n' m (b' ' ∷ target) (method-Avoids m hm) ((λ e. ground arith), ht) in
    let digit : minor ≢ b'\n' = elim hv [
      | inl e ↦ (λ q. ground arith)
      | inr e ↦ (λ q. ground arith)
    ] in
    Avoids-append b'\n' (m ++ b' ' ∷ target) (b' ' ∷ version_of minor) front (omega (arith, digit))
