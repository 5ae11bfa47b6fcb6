-- ===== src/Http/Util/Split.antt =====
-- Split at a single byte: it ends, and returns the parts between separators that are not empty,
-- except that a text without a separator is not returned.
use flux_a_high_performance.Prelude.{
  ℕ, zero, suc, ◌+◌, ◌-◌, ◌≤◌, ◌<◌, ◌≡◌, ◌⊎◌, inl, inr, refl, sym, ap, ◌∙◌, false, List, [], ◌∷◌,
  ◌++◌, append_assoc, append-nil, some, none, ◌==◌, if◌then◌else◌, length, take, drop, drop-drop,
  drop-all, drop-past, length-drop, length-append, take-append_left, Avoids, not-Avoids,
  index_of-none, index_of-append, first_of-cases, find-one, find_from, arith,
}
use native.Mathlib.Nat.{add-zero}
use native.Mathlib.Numerals.{add-one}
use native.Mathlib.Decide.{dec_lt}
use flux_a_high_performance.Http.Util.{split_loop, split}
use flux_a_high_performance.Http.Util.Tokens.{part, tokens, part-ne_nil, tokens-none, tokens-append}

module _ (c : ℕ) (src : List ℕ) where
  abbrev sep : List ℕ
  sep = c ∷ []

  -- The search of a round: the text from the offset on has no separator, or splits at one.
  find-none : (offset : ℕ) → Avoids c (drop offset src) → find_from sep src offset ≡ none
  unfolding find_from
  find-none offset h = rw (find-one c (drop offset src), index_of-none c (drop offset src) h)

  find-some :
      (offset : ℕ) (p q : List ℕ)
      → Avoids c p
      → drop offset src ≡ p ++ c ∷ q
      → find_from sep src offset ≡ some (offset + length p)
  unfolding find_from
  find-some offset p q h e = rw (e, find-one c (p ++ c ∷ q), index_of-append c p q h)

  -- One round: at the end of the text, with no further separator, at a separator, before one.
  round_end :
      (f offset : ℕ) (arry : List (List ℕ))
      → length src ≤ offset
      → split_loop (suc f) src sep offset arry ≡ some arry
  unfolding split_loop
  round_end f offset arry h = ground arith

  round_rest :
      (f offset : ℕ) (arry : List (List ℕ))
      → offset < length src
      → find_from sep src offset ≡ none
      → split_loop (suc f) src sep offset arry
        ≡ some (if offset == length arry then arry else arry ++ drop offset src ∷ [])
  unfolding split_loop
  round_rest f offset arry h e = ground arith

  round_skip :
      (f offset : ℕ) (arry : List (List ℕ))
      → offset < length src
      → find_from sep src offset ≡ some offset
      → split_loop (suc f) src sep offset arry ≡ split_loop f src sep (offset + 1) arry
  unfolding split_loop
  round_skip f offset arry h e = ground arith

  round_take :
      (f offset pos : ℕ) (arry : List (List ℕ)) (p : List ℕ)
      → offset < length src
      → offset < pos
      → find_from sep src offset ≡ some pos
      → take (pos - offset) (drop offset src) ≡ p
      → split_loop (suc f) src sep offset arry ≡ split_loop f src sep (pos + 1) (arry ++ p ∷ [])
  unfolding split_loop
  round_take f offset pos arry p h k e t = ground arith

  taken :
      (offset : ℕ) (p q : List ℕ)
      → drop offset src ≡ p ++ c ∷ q
      → take (offset + length p - offset) (drop offset src) ≡ p
  taken offset p q e =
      let n : offset + length p - offset ≡ length p = omega arith in
      rw (n, e) (take-append_left p (c ∷ q))

  -- What is left behind a separator.
  drop-next :
      (offset k : ℕ) (p q : List ℕ)
      → drop offset src ≡ p ++ c ∷ q
      → k ≡ offset + length p + 1
      → drop k src ≡ q
  drop-next offset k p q e h =
      sym (drop-drop (length p + 1) offset k src (omega arith))
      ∙ ap (drop (length p + 1)) e
      ∙ drop-past (length p + 1) p c q refl

  fits_next :
      (offset : ℕ) (p q : List ℕ)
      → drop offset src ≡ p ++ c ∷ q
      → offset + length p + 1 ≤ length src
  fits_next offset p q e =
      omega (arith, ap length e, length-drop offset src, length-append p (c ∷ q))

  last_part :
      (f offset : ℕ) (arry : List (List ℕ))
      → offset < length src
      → length arry < offset
      → Avoids c (drop offset src)
      → split_loop (suc f) src sep offset arry ≡ some (arry ++ tokens c (drop offset src))
  last_part f offset arry h k a =
      let ne : (offset == length arry) ≡ false = ground arith in
      rw (
        round_rest f offset arry h (find-none offset a),
        ne,
        tokens-none c (drop offset src) a,
        part-ne_nil (drop offset src) (omega (arith, length-drop offset src)),
      )

  loop_lem :
      (fuel offset : ℕ) (arry : List (List ℕ))
      → offset ≤ length src
      → length src < fuel + offset
      → length arry < offset
      → split_loop fuel src sep offset arry ≡ some (arry ++ tokens c (drop offset src))
  unfolding part
  loop_lem zero offset arry le h k = absurd (omega arith)
  loop_lem (suc fuel) offset arry le h k = elim (dec_lt offset (length src)) [
    | no end ↦ rw (
      round_end fuel offset arry (omega arith),
      drop-all offset src (omega arith),
      tokens-none c [] tt,
      part,
      append-nil,
    )
    | yes more ↦ elim (first_of-cases c (drop offset src)) [
      | inl a ↦ last_part fuel offset arry more k a
      | inr ([], q, a, e) ↦
          let at_start : find_from sep src offset ≡ some offset =
            find-some offset [] q a e ∙ ap (λ i. some i) (add-zero offset) in
          rw (
            round_skip fuel offset arry more at_start,
            loop_lem fuel (offset + 1) arry (omega arith) (omega arith) (omega arith),
            drop-next offset (offset + 1) [] q e (omega arith),
            e,
            tokens-append c [] q tt,
          )
      | inr (y ∷ ys, q, a, e) ↦
          let p = y ∷ ys in
          let pos = offset + length p in
          rw
            (
              round_take fuel offset pos arry p more (omega arith) (find-some offset p q a e)
                  (taken offset p q e),
              loop_lem fuel (pos + 1) (arry ++ p ∷ []) (fits_next offset p q e) (omega arith)
                  (omega (arith, length-append arry (p ∷ []))),
              drop-next offset (pos + 1) p q e refl,
              e,
              tokens-append c p q a,
            )
            (ap some (append_assoc arry (p ∷ []) (tokens c q)))
    ]
  ]

  -- From the start the offset is 0, and so is the size of the vector: a text without a separator
  -- takes the branch that is meant for a separator at the end of the text.
  pub split-none : Avoids c src → split src sep ≡ some []
  unfolding split
  split-none a = elim (dec_lt 0 (length src)) [
    | yes h ↦ rw (add-one, round_rest (length src) 0 [] h (find-none 0 a))
    | no h ↦ rw (add-one, round_end (length src) 0 [] (omega arith))
  ]

  pub split-some :
      (p q : List ℕ) → Avoids c p → src ≡ p ++ c ∷ q → split src sep ≡ some (tokens c src)
  unfolding split part
  split-some [] q a e =
      rw
        (
          add-one,
          round_skip (length src) 0 [] (omega (arith, ap length e)) (find-some 0 [] q a e),
          loop_lem (length src) 1 [] (omega (arith, ap length e)) (omega arith) (omega arith),
          drop-next 0 1 [] q e refl,
        )
        (ap some (sym (ap (tokens c) e ∙ tokens-append c [] q tt)))
  split-some (y ∷ ys) q a e =
      let p = y ∷ ys in
      let pos = 0 + length p in
      rw
        (
          add-one,
          round_take (length src) 0 pos [] p (omega (arith, ap length e)) (omega arith)
              (find-some 0 p q a e) (taken 0 p q e),
          loop_lem (length src) (pos + 1) (p ∷ []) (fits_next 0 p q e) (omega arith) (omega arith),
          drop-next 0 (pos + 1) p q e refl,
        )
        (ap some (sym (ap (tokens c) e ∙ tokens-append c p q a)))

-- Split at a single byte, with the fuel of `split`, always ends. A text that holds the separator is
-- split into its non-empty parts, and any other text yields nothing.
pub split_lem :
    (c : ℕ) (src : List ℕ)
    → (Avoids c src × (split src (c ∷ []) ≡ some []))
      ⊎ ((¬ Avoids c src) × (split src (c ∷ []) ≡ some (tokens c src)))
split_lem c src = elim (first_of-cases c src) [
  | inl a ↦ inl (a, split-none c src a)
  | inr (p, q, a, e) ↦ inr (not-Avoids c p q src e, split-some c src p q a e)
]

-- A text with no separator is one part, and Split loses it.
split_drops_single :
    (c : ℕ) (src : List ℕ)
    → Avoids c src
    → 0 < length src
    → (split src (c ∷ []) ≡ some []) × (tokens c src ≡ src ∷ [])
split_drops_single c src a h = (split-none c src a, tokens-none c src a ∙ part-ne_nil src h)
