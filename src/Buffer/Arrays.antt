-- ===== src/Buffer/Arrays.antt =====
-- Laws of the block copy: what a window of an array holds after a write next to it.
use flux_a_high_performance.Prelude.{
  ℕ, zero, suc, ◌+◌, ◌≤◌, ◌≡◌, refl, ap, List, [], ◌∷◌, ◌++◌, length, take, drop, copy_to,
  take-append, drop-append, length-drop, arith,
}

module _ {ℓ} {A : Type ℓ} where
  take-copy_to : (xs ys : List A) → length ys ≤ length xs → take (length ys) (copy_to xs 0 ys) ≡ ys
  take-copy_to [] [] h = refl
  take-copy_to [] (y ∷ ys) h = absurd (omega arith)
  take-copy_to (x ∷ xs) [] h = refl
  take-copy_to (x ∷ xs) (y ∷ ys) h = ap (λ r. y ∷ r) (take-copy_to xs ys (omega arith))

  -- Bytes copied just behind a window lengthen it.
  pub window-copy_to :
      (xs ys : List A) (r n i k : ℕ)
      → i ≡ r + n
      → k ≡ n + length ys
      → i + length ys ≤ length xs
      → take k (drop r (copy_to xs i ys)) ≡ take n (drop r xs) ++ ys
  window-copy_to xs ys zero zero i k e f h =
      let e' : i ≡ 0 = omega arith in
      let f' : k ≡ length ys = omega arith in rw (e', f') (take-copy_to xs ys (omega arith))
  window-copy_to [] ys zero (suc n) i k e f h = absurd (omega arith)
  window-copy_to (x ∷ xs) ys zero (suc n) zero k e f h = absurd (omega arith)
  window-copy_to (x ∷ xs) ys zero (suc n) (suc i) zero e f h = absurd (omega arith)
  window-copy_to (x ∷ xs) ys zero (suc n) (suc i) (suc k) e f h =
      ap (λ r. x ∷ r) (window-copy_to xs ys zero n i k (omega arith) (omega arith) (omega arith))
  window-copy_to [] ys (suc r) n i k e f h = absurd (omega arith)
  window-copy_to (x ∷ xs) ys (suc r) n zero k e f h = absurd (omega arith)
  window-copy_to (x ∷ xs) ys (suc r) n (suc i) k e f h =
      window-copy_to xs ys r n i k (omega arith) (omega arith) (omega arith)

  -- A window does not see what the array is lengthened by.
  pub window-append :
      (xs zs : List A) (r n : ℕ)
      → r + n ≤ length xs
      → take n (drop r (xs ++ zs)) ≡ take n (drop r xs)
  window-append xs zs r n h =
      rw (drop-append r xs zs (omega arith))
        (take-append n (drop r xs) zs (omega (arith, length-drop r xs)))
