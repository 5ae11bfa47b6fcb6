-- ===== src/Http/Request/Length.antt =====
-- ContentLength: a number, or the exception of std::stol.
use flux_a_high_performance.Prelude.{
  ℕ, ◌^◌, ◌≤◌, ◌≡◌, ◌⊎◌, inl, inr, refl, Bool, true, false, not, List, [], ◌∷◌, leb, ltb, ◌==◌,
  some, if◌then◌else◌, codes, Result, ok, fault, uncaught, arith,
}
use flux_a_high_performance.Http.Request.Headers.{find_entry, has, get}
use flux_a_high_performance.Http.Request.{
  HttpRequest, is_space, is_digit, digits_value, unsigned_long, signed_long, stol, skip_spaces,
  content_length, has_header, get_header,
}

abbrev pub OnlyUncaught : Result ℕ → Type 0
OnlyUncaught (ok n) = Unit {0}
OnlyUncaught (fault e) = e ≡ uncaught

if-OnlyUncaught :
    (b : Bool) (r s : Result ℕ)
    → OnlyUncaught r
    → OnlyUncaught s
    → OnlyUncaught (if b then r else s)
if-OnlyUncaught true r s h k = h
if-OnlyUncaught false r s h k = k

unsigned_long-OnlyUncaught :
    (negative : Bool) (s : List ℕ) → OnlyUncaught (unsigned_long negative s)
unfolding unsigned_long
unsigned_long-OnlyUncaught negative [] = refl
unsigned_long-OnlyUncaught negative (c ∷ cs) = if-OnlyUncaught (not (is_digit c)) _ _ refl (
    if-OnlyUncaught negative _ _
      (if-OnlyUncaught (leb (digits_value 0 (c ∷ cs)) (2 ^ 63)) _ _ tt refl)
      (if-OnlyUncaught (ltb (digits_value 0 (c ∷ cs)) (2 ^ 63)) _ _ tt refl))

signed_long-OnlyUncaught : (s : List ℕ) → OnlyUncaught (signed_long s)
unfolding signed_long
signed_long-OnlyUncaught [] = refl
signed_long-OnlyUncaught (c ∷ cs) =
    if-OnlyUncaught (c == b'-') _ _ (unsigned_long-OnlyUncaught true cs) (
      if-OnlyUncaught (c == b'+') _ _ (unsigned_long-OnlyUncaught false cs)
        (unsigned_long-OnlyUncaught false (c ∷ cs)))

pub content_length-OnlyUncaught : (r : HttpRequest) → OnlyUncaught (content_length r)
unfolding content_length stol
content_length-OnlyUncaught r =
    if-OnlyUncaught (not (has_header r (codes "Content-Length"))) _ _ tt
      (signed_long-OnlyUncaught (skip_spaces (get_header r (codes "Content-Length"))))

abbrev pub IsBlank : ℕ → Type 0
IsBlank c = (c ≡ b' ') ⊎ ((9 ≤ c) × (c ≤ 13))

abbrev pub IsDigit : ℕ → Type 0
IsDigit c = (b'0' ≤ c) × (c ≤ b'9')

abbrev pub IsSign : ℕ → Type 0
IsSign c = (c ≡ b'-') ⊎ (c ≡ b'+')

-- No digit stands in front.
abbrev pub NoDigit : List ℕ → Type 0
NoDigit [] = Unit
NoDigit (c ∷ cs) = IsDigit c → ⊥

-- Behind any blanks and at most one sign, there is no digit: an empty text, for instance, or abc, or - 5.
abbrev pub IsNoNumber : List ℕ → Type 0
IsNoNumber [] = Unit
IsNoNumber (c ∷ cs) =
    (IsBlank c × IsNoNumber cs)
    ⊎ (IsSign c × NoDigit cs)
    ⊎ ((IsBlank c → ⊥) × (IsSign c → ⊥) × (IsDigit c → ⊥))

unsigned_long-NoDigit :
    (negative : Bool) (cs : List ℕ) → NoDigit cs → unsigned_long negative cs ≡ fault uncaught
unfolding unsigned_long is_digit
unsigned_long-NoDigit negative [] h = refl
unsigned_long-NoDigit negative (c ∷ cs) h = ground (arith, h)

blank-is_space : (c : ℕ) → IsBlank c → is_space c ≡ true
unfolding is_space
blank-is_space c (inl e) = ground arith
blank-is_space c (inr h) = ground (arith, h.0, h.1)

no_blank-is_space : (c : ℕ) → (IsBlank c → ⊥) → is_space c ≡ false
unfolding is_space
no_blank-is_space c h = ground (arith, h)

stol-no_number : (s : List ℕ) → IsNoNumber s → stol s ≡ fault uncaught
unfolding stol skip_spaces signed_long
stol-no_number [] h = refl
stol-no_number (c ∷ cs) (inl (blank, h)) = rw (blank-is_space c blank) (stol-no_number cs h)
stol-no_number (c ∷ cs) (inr (inl (inl minus, h))) = rw minus (unsigned_long-NoDigit true cs h)
stol-no_number (c ∷ cs) (inr (inl (inr plus, h))) = rw plus (unsigned_long-NoDigit false cs h)
stol-no_number (c ∷ cs) (inr (inr (no_blank, no_sign, no_digit))) =
    let minus : (c == b'-') ≡ false = ground (arith, no_sign) in
    let plus : (c == b'+') ≡ false = ground (arith, no_sign) in
    rw (no_blank-is_space c no_blank, minus, plus) (unsigned_long-NoDigit false (c ∷ cs) no_digit)

pub content_length-no_number :
    (r : HttpRequest) (value : List ℕ)
    → find_entry (codes "Content-Length") r.headers ≡ some value
    → IsNoNumber value
    → content_length r ≡ fault uncaught
unfolding content_length has get
content_length-no_number r value e h =
    simp (e, has_header, has, get_header, get) (stol-no_number value h)
