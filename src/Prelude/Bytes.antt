-- ===== src/Prelude/Bytes.antt =====
-- Byte strings: what the program uses of std::string and of memchr, and laws of the searches.
use Prim.Native.Nat.{ℕ, suc, ◌+◌}
use Prim.Native.Char.{code}
use Prim.Native.String.{String}
use mathlib.Core.Path.{◌≡◌, refl, ap}
use mathlib.Core.Logic.{◌≢◌, ◌⊎◌, inl, inr, ◌↔◌}
use mathlib.Core.Bool.{Bool, true, false, ◌&&◌}
use mathlib.Core.List.{List, [], ◌∷◌, ◌++◌}
use mathlib.Core.Option.{Option, none, some}
use mathlib.Core.Option
use native.Mathlib.Decide.{ℕ_discrete}
use native.Mathlib.Omega.{arith}
use flux_a_high_performance.Prelude.Tests.{◌==◌, if◌then◌else◌}
use flux_a_high_performance.Prelude.Lists.{length, drop, All}

-- The bytes of a text in the source.
abbrev pub codes : String → List ℕ
codes String.[] = []
codes (String.◌∷◌ c s) = code c ∷ codes s

unfoldable pub eq_bytes : List ℕ → List ℕ → Bool
eq_bytes [] [] = true
eq_bytes [] (y ∷ ys) = false
eq_bytes (x ∷ xs) [] = false
eq_bytes (x ∷ xs) (y ∷ ys) = x == y && eq_bytes xs ys

pub eq_bytes→eq : (xs ys : List ℕ) → eq_bytes xs ys ≡ true → xs ≡ ys
unfolding eq_bytes
eq_bytes→eq [] [] h = refl
eq_bytes→eq [] (y ∷ ys) h = cc
eq_bytes→eq (x ∷ xs) [] h = cc
eq_bytes→eq (x ∷ xs) (y ∷ ys) h = ground (arith, eq_bytes→eq xs ys)

pub eq_bytes_refl : (xs : List ℕ) → eq_bytes xs xs ≡ true
unfolding eq_bytes
eq_bytes_refl [] = refl
eq_bytes_refl (x ∷ xs) = ground (arith, eq_bytes_refl xs)

pub eq_bytes_iff : (xs ys : List ℕ) → (eq_bytes xs ys ≡ true) ↔ (xs ≡ ys)
eq_bytes_iff xs ys = (eq_bytes→eq xs ys, λ e. rw e (eq_bytes_refl ys))

-- memchr: the index of the first byte `c`.
unfoldable pub index_of : ℕ → List ℕ → Option ℕ
index_of c [] = none
index_of c (x ∷ xs) = if x == c then some 0 else Option.map suc (index_of c xs)

-- Is `sep` a prefix?
unfoldable pub starts_with : List ℕ → List ℕ → Bool
starts_with [] xs = true
starts_with (c ∷ sep) [] = false
starts_with (c ∷ sep) (x ∷ xs) = x == c && starts_with sep xs

-- std::string::find: the first index at which `sep` stands.
unfoldable pub find : List ℕ → List ℕ → Option ℕ
unfolding starts_with
find sep [] = if starts_with sep [] then some 0 else none
find sep (x ∷ xs) =
    let later = Option.map suc (find sep xs) in if starts_with sep (x ∷ xs) then some 0 else later

-- The same from an offset, as an index of the whole.
unfoldable pub find_from : List ℕ → List ℕ → ℕ → Option ℕ
unfolding find
find_from sep xs offset = Option.map (λ i. offset + i) (find sep (drop offset xs))

-- std::string::find_last_of of one byte.
unfoldable pub find_last : ℕ → List ℕ → Option ℕ
find_last c [] = none
find_last c (x ∷ xs) = elim (find_last c xs) [
  | some i ↦ some (suc i)
  | none ↦ if x == c then some 0 else none
]

abbrev pub Avoids : ℕ → List ℕ → Type 0
Avoids c = All (λ x. x ≢ c)

pub Avoids-append : (c : ℕ) (xs ys : List ℕ) → Avoids c xs → Avoids c ys → Avoids c (xs ++ ys)
Avoids-append c [] ys h k = k
Avoids-append c (x ∷ xs) ys h k = (h.0, Avoids-append c xs ys h.1 k)

pub index_of-none : (c : ℕ) (xs : List ℕ) → Avoids c xs → index_of c xs ≡ none
unfolding index_of
index_of-none c [] h = refl
index_of-none c (x ∷ xs) h = ground (arith, index_of-none c xs h.1, h.0)

pub index_of-append :
    (c : ℕ) (xs ys : List ℕ) → Avoids c xs → index_of c (xs ++ c ∷ ys) ≡ some (length xs)
unfolding index_of
index_of-append c [] ys h = ground arith
index_of-append c (x ∷ xs) ys h = ground (arith, index_of-append c xs ys h.1, h.0)

-- A text without `c`, or its part before the first `c` and what follows.
pub first_of-cases :
    (c : ℕ) (xs : List ℕ)
    → Avoids c xs ⊎ ((p : List ℕ) × (q : List ℕ) × Avoids c p × (xs ≡ p ++ c ∷ q))
first_of-cases c [] = inl tt
first_of-cases c (x ∷ xs) = elim (ℕ_discrete x c) [
  | yes e ↦ inr ([], xs, tt, ap (λ y. y ∷ xs) e)
  | no ne ↦ elim (first_of-cases c xs) [
    | inl a ↦ inl (ne, a)
    | inr (p, q, a, e) ↦ inr (x ∷ p, q, (ne, a), ap (λ r. x ∷ r) e)
  ]
]

-- A search for one byte.
pub find-one : (c : ℕ) (xs : List ℕ) → find (c ∷ []) xs ≡ index_of c xs
unfolding find index_of starts_with
find-one c [] = refl
find-one c (x ∷ xs) = ground (arith, find-one c xs)

pub find_last-none : (c : ℕ) (xs : List ℕ) → Avoids c xs → find_last c xs ≡ none
unfolding find_last
find_last-none c [] h = refl
find_last-none c (x ∷ xs) h = ground (arith, find_last-none c xs h.1, h.0)

pub find_last-append :
    (c : ℕ) (xs ys : List ℕ) → Avoids c ys → find_last c (xs ++ c ∷ ys) ≡ some (length xs)
unfolding find_last
find_last-append c [] ys h = ground (arith, find_last-none c ys h)
find_last-append c (x ∷ xs) ys h = ground (arith, find_last-append c xs ys h)

pub not-Avoids : (c : ℕ) (p q xs : List ℕ) → xs ≡ p ++ c ∷ q → ¬ Avoids c xs
not-Avoids c [] q xs e a = let b : Avoids c (c ∷ q) = rw e at a in b.0 refl
not-Avoids c (x ∷ p) q xs e a =
    let b : Avoids c (x ∷ p ++ c ∷ q) = rw e at a in not-Avoids c p q (p ++ c ∷ q) refl b.1
