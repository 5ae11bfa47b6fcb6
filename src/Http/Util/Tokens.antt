-- ===== src/Http/Util/Tokens.antt =====
-- The non-empty parts of a text between separators, as Split of class Util is to return them.
use flux_a_high_performance.Prelude.{
  ℕ, ◌<◌, ◌≡◌, refl, List, [], ◌∷◌, ◌++◌, ◌==◌, if◌then◌else◌, length, Avoids, arith,
}

-- A part in front of the others, unless it is empty.
unfoldable pub part : List ℕ → List (List ℕ) → List (List ℕ)
part [] rest = rest
part (x ∷ xs) rest = (x ∷ xs) ∷ rest

-- The text up to the first `c`, and the parts behind it.
unfoldable pub cut : ℕ → List ℕ → List ℕ × List (List ℕ)
unfolding part
cut c [] = ([], [])
cut c (x ∷ xs) =
    let (run, rest) = cut c xs in if x == c then ([], part run rest) else (x ∷ run, rest)

-- The non-empty parts of a text between the bytes `c`.
unfoldable pub tokens : ℕ → List ℕ → List (List ℕ)
unfolding cut
tokens c xs = let (run, rest) = cut c xs in part run rest

pub part-ne_nil : (xs : List ℕ) → 0 < length xs → part xs [] ≡ xs ∷ []
unfolding part
part-ne_nil [] h = absurd (omega arith)
part-ne_nil (x ∷ xs) h = refl

cut-none : (c : ℕ) (xs : List ℕ) → Avoids c xs → cut c xs ≡ (xs, [])
unfolding cut
cut-none c [] h = refl
cut-none c (x ∷ xs) h = ground (arith, cut-none c xs h.1, h.0)

cut-append : (c : ℕ) (p q : List ℕ) → Avoids c p → cut c (p ++ c ∷ q) ≡ (p, tokens c q)
unfolding cut tokens
cut-append c [] q h = ground arith
cut-append c (x ∷ p) q h = ground (arith, cut-append c p q h.1, h.0)

pub tokens-none : (c : ℕ) (xs : List ℕ) → Avoids c xs → tokens c xs ≡ part xs []
unfolding tokens
tokens-none c xs h = rw (cut-none c xs h)

pub tokens-append :
    (c : ℕ) (p q : List ℕ) → Avoids c p → tokens c (p ++ c ∷ q) ≡ part p (tokens c q)
unfolding tokens
tokens-append c p q h = rw (cut-append c p q h)
