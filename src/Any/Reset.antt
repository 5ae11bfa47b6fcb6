-- ===== src/Any/Reset.antt =====
-- A destructor changes the variable that it ends, and no other.
use flux_a_high_performance.Prelude.{
  ℕ, ◌≡◌, ◌≢◌, inl, inr, refl, sym, ap, ◌∙◌, Option, some, none, Result, ok, Option-cases,
}
use flux_a_high_performance.Any.{Holder, Store, set, delete, reset, holder}
use flux_a_high_performance.Any.Values.{
  IsValid, set-same, set-other, set-cases, same-or-not, holder-none, holder-same,
}

module _ {El : ℕ → Type 0} where
  -- The heap after a delete, or as it was.
  dropped : Store El → ℕ → (ℕ → Option (Holder El)) → Store El
  dropped s i heap = record s { heap = heap; content = set s.content i none }

  -- Every other variable keeps its holder.
  abbrev Kept : Store El → ℕ → (ℕ → Option (Holder El)) → Type 0
  Kept s i heap = (k p : ℕ) → i ≢ k → s.content k ≡ some p → heap p ≡ s.heap p

  dropped-IsValid :
      (s : Store El) (i : ℕ) (heap : ℕ → Option (Holder El))
      → IsValid s
      → Kept s i heap
      → ((p : ℕ) → s.heap p ≡ none → heap p ≡ none)
      → IsValid (dropped s i heap)
  unfolding dropped
  dropped-IsValid s i heap v kept gone = record {
    live = λ k p e. elim (set-cases s.content i k e) [
      | inl (q, r) ↦ absurd (cc r)
      | inr (n, r) ↦ let (h, l) = v.live k p r in (h, kept k p n r ∙ l)
    ];
    apart = λ k l p e f. elim (set-cases s.content i k e) [
      | inl (q, r) ↦ absurd (cc r)
      | inr (n, r) ↦ elim (set-cases s.content i l f) [
        | inl (q', r') ↦ absurd (cc r')
        | inr (n', r') ↦ v.apart k l p r r'
      ]
    ];
    below = λ p l. gone p (v.below p l);
    unused = λ k l. elim (same-or-not i k) [
      | inl q ↦ set-same s.content i k none q
      | inr n ↦ set-other s.content i k none n ∙ v.unused k l
    ];
  }

  dropped-holder :
      (s : Store El) (i : ℕ) (heap : ℕ → Option (Holder El)) (k : ℕ)
      → Kept s i heap
      → holder (dropped s i heap) k ≡ set (holder s) i none k
  unfolding dropped
  dropped-holder s i heap k kept = elim (same-or-not i k) [
    | inl q ↦
        holder-none (dropped s i heap) k (set-same s.content i k none q)
        ∙ sym (set-same (holder s) i k none q)
    | inr n ↦
        holder-same s (dropped s i heap) k k (set-other s.content i k none n) (λ p e. kept k p n e)
        ∙ sym (set-other (holder s) i k none n)
  ]

  -- What a destructor does.
  abbrev pub Cleared : Store El → ℕ → Result (Store El) → Type 0
  Cleared s i r =
      (s' : Store El) × (r ≡ ok s')
      × IsValid s'
      × ((k : ℕ) → holder s' k ≡ set (holder s) i none k)
      × (s'.next_variable ≡ s.next_variable)
      × (s'.content i ≡ none)

  dropped-Cleared :
      (s : Store El) (i : ℕ) (heap : ℕ → Option (Holder El)) (r : Result (Store El))
      → r ≡ ok (dropped s i heap)
      → IsValid s
      → Kept s i heap
      → ((p : ℕ) → s.heap p ≡ none → heap p ≡ none)
      → Cleared s i r
  unfolding dropped
  dropped-Cleared s i heap r e v kept gone = (
    dropped s i heap,
    e,
    dropped-IsValid s i heap v kept gone,
    λ k. dropped-holder s i heap k kept,
    refl,
    set-same s.content i i none refl,
  )

  pub reset_lem : (s : Store El) (i : ℕ) → IsValid s → Cleared s i (reset s i)
  unfolding reset delete dropped
  reset_lem s i v = elim (Option-cases (s.content i)) [
    | inl e ↦
        dropped-Cleared s i s.heap (reset s i) (rw (e, reset, delete) refl) v (λ k p n c. refl)
          (λ p h. h)
    | inr (p, e) ↦
        let (h, l) = v.live i p e in
        dropped-Cleared s i (set s.heap p none) (reset s i) (rw (e, reset, delete, l) refl) v
          (λ k q n c. set-other s.heap p q none (λ x. n (v.apart i k p e (c ∙ ap some (sym x)))))
          (λ q g. elim (same-or-not p q) [
            | inl x ↦ set-same s.heap p q none x
            | inr x ↦ set-other s.heap p q none x ∙ g
          ])
  ]
