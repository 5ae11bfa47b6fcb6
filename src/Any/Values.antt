-- ===== src/Any/Values.antt =====
-- The variables are values: none of them shares its holder with another.
use flux_a_high_performance.Prelude.{
  ℕ, ◌+◌, ◌≤◌, ◌≡◌, ◌≢◌, ◌⊎◌, inl, inr, refl, sym, ◌∙◌, some, none, ◌==◌, ==_iff, ok, arith,
  Bool-cases, Option-cases,
}
use native.Mathlib.Decide.{ℕ_discrete}
use flux_a_high_performance.Any.{
  Holder, Store, set, fresh, allocate, construct, any_of, any_copy, holder,
}

pub record IsValid {El : ℕ → Type 0} (s : Store El) : Type 0 where
  pub live : (i p : ℕ) → s.content i ≡ some p → (h : Holder El) × (s.heap p ≡ some h)
  pub apart : (i j p : ℕ) → s.content i ≡ some p → s.content j ≡ some p → i ≡ j
  pub below : (p : ℕ) → s.next_pointer ≤ p → s.heap p ≡ none
  pub unused : (i : ℕ) → s.next_variable ≤ i → s.content i ≡ none

pub set-same : {A : Type 0} (f : ℕ → A) (i j : ℕ) (x : A) → i ≡ j → set f i x j ≡ x
set-same f i j x e = rw ((==_iff i j).1 e) refl

pub set-other : {A : Type 0} (f : ℕ → A) (i j : ℕ) (x : A) → i ≢ j → set f i x j ≡ f j
set-other f i j x n = elim (Bool-cases (i == j)) [
  | inl e ↦ absurd (n ((==_iff i j).0 e))
  | inr e ↦ rw e refl
]

pub set-cases :
    {A : Type 0} (f : ℕ → A) (i j : ℕ) {x y : A}
    → set f i x j ≡ y
    → ((i ≡ j) × (x ≡ y)) ⊎ ((i ≢ j) × (f j ≡ y))
set-cases f i j {x} e = elim (Bool-cases (i == j)) [
  | inl t ↦ let q = (==_iff i j).0 t in inl (q, sym (set-same f i j x q) ∙ e)
  | inr t ↦
      let n : i ≢ j = λ q. absurd (cc (sym t ∙ (==_iff i j).1 q)) in
      inr (n, sym (set-other f i j x n) ∙ e)
]

pub same-or-not : (i j : ℕ) → (i ≡ j) ⊎ (i ≢ j)
same-or-not i j = elim (ℕ_discrete i j) [ yes e ↦ inl e | no n ↦ inr n ]

pub some-inj : {A : Type 0} {x y : A} → some x ≡ some y → x ≡ y
some-inj e = cc e

module _ {El : ℕ → Type 0} where
  pub holder-none : (s : Store El) (i : ℕ) → s.content i ≡ none → holder s i ≡ none
  unfolding holder
  holder-none s i e = rw (e, holder) refl

  pub holder-some : (s : Store El) (i p : ℕ) → s.content i ≡ some p → holder s i ≡ s.heap p
  unfolding holder
  holder-some s i p e = rw (e, holder) refl

  -- A variable holds what another held before, if the pointer and its holder are the same.
  pub holder-same :
      (s t : Store El) (i j : ℕ)
      → t.content j ≡ s.content i
      → ((p : ℕ) → s.content i ≡ some p → t.heap p ≡ s.heap p)
      → holder t j ≡ holder s i
  holder-same s t i j c h = elim (Option-cases (s.content i)) [
    | inl e ↦ holder-none t j (c ∙ e) ∙ sym (holder-none s i e)
    | inr (p, e) ↦ holder-some t j p (c ∙ e) ∙ h p e ∙ sym (holder-some s i p e)
  ]

  pub fresh-IsValid : IsValid {El = El} fresh
  fresh-IsValid = record {
    live = λ i p e. absurd (cc e);
    apart = λ i j p e f. absurd (cc e);
    below = λ p h. refl;
    unused = λ i h. refl;
  }

  -- A live pointer is not the next one.
  old :
      {s : Store El} → IsValid s → {p : ℕ} {g : Holder El} → s.heap p ≡ some g → s.next_pointer ≢ p
  old {s} v {p} k e = absurd (cc (sym (v.below p (omega arith)) ∙ k))

  pointer-old : {s : Store El} → IsValid s → {i p : ℕ} → s.content i ≡ some p → s.next_pointer ≢ p
  pointer-old v {i} {p} e = old v (v.live i p e).1

  pointer-apart : {s : Store El} → IsValid s → {i : ℕ} → s.content i ≡ some s.next_pointer → ⊥
  pointer-apart v e = pointer-old v e refl

  pub any_of-IsValid : (s : Store El) (h : Holder El) → IsValid s → IsValid (any_of s h)
  unfolding any_of construct allocate
  any_of-IsValid s h v = record {
    live = λ i p e. elim (set-cases s.content s.next_variable i e) [
      | inl (q, r) ↦ (h, set-same s.heap s.next_pointer p (some h) (some-inj r))
      | inr (n, r) ↦
          let (g, k) = v.live i p r in (g, set-other s.heap s.next_pointer p (some h) (old v k) ∙ k)
    ];
    apart = λ i j p e f. elim (set-cases s.content s.next_variable i e) [
      | inl (q, r) ↦ elim (set-cases s.content s.next_variable j f) [
        | inl (q', r') ↦ sym q ∙ q'
        | inr (n', r') ↦ absurd (pointer-apart v (r' ∙ sym r))
      ]
      | inr (n, r) ↦ elim (set-cases s.content s.next_variable j f) [
        | inl (q', r') ↦ absurd (pointer-apart v (r ∙ sym r'))
        | inr (n', r') ↦ v.apart i j p r r'
      ]
    ];
    below =
        λ p l. set-other s.heap s.next_pointer p (some h) (omega arith) ∙ v.below p (omega arith);
    unused = λ i l.
        set-other s.content s.next_variable i (some s.next_pointer) (omega arith)
        ∙ v.unused i (omega arith);
  }

  -- Holders do not move when a variable is made.
  pub any_of-holder :
      (s : Store El) (h : Holder El) (k : ℕ)
      → IsValid s
      → holder (any_of s h) k ≡ set (holder s) s.next_variable (some h) k
  unfolding any_of construct allocate holder
  any_of-holder s h k v = elim (same-or-not s.next_variable k) [
    | inl q ↦
        holder-some (any_of s h) k s.next_pointer
          (set-same s.content s.next_variable k (some s.next_pointer) q)
        ∙ set-same s.heap s.next_pointer s.next_pointer (some h) refl
        ∙ sym (set-same (holder s) s.next_variable k (some h) q)
    | inr n ↦
        holder-same s (any_of s h) k k
          (set-other s.content s.next_variable k (some s.next_pointer) n)
          (λ p e. set-other s.heap s.next_pointer p (some h) (pointer-old v e))
        ∙ sym (set-other (holder s) s.next_variable k (some h) n)
  ]

  pub construct-IsValid : (s : Store El) → IsValid s → IsValid (construct s none)
  unfolding construct
  construct-IsValid s v = record {
    live = λ i p e. elim (set-cases s.content s.next_variable i e) [
      | inl (q, r) ↦ absurd (cc r)
      | inr (n, r) ↦ v.live i p r
    ];
    apart = λ i j p e f. elim (set-cases s.content s.next_variable i e) [
      | inl (q, r) ↦ absurd (cc r)
      | inr (n, r) ↦ elim (set-cases s.content s.next_variable j f) [
        | inl (q', r') ↦ absurd (cc r')
        | inr (n', r') ↦ v.apart i j p r r'
      ]
    ];
    below = v.below;
    unused =
        λ i l. set-other s.content s.next_variable i none (omega arith) ∙ v.unused i (omega arith);
  }

  pub construct-holder :
      (s : Store El) (k : ℕ) → holder (construct s none) k ≡ set (holder s) s.next_variable none k
  unfolding construct
  construct-holder s k = elim (same-or-not s.next_variable k) [
    | inl q ↦
        holder-none (construct s none) k (set-same s.content s.next_variable k none q)
        ∙ sym (set-same (holder s) s.next_variable k none q)
    | inr n ↦
        holder-same s (construct s none) k k (set-other s.content s.next_variable k none n)
          (λ p e. refl)
        ∙ sym (set-other (holder s) s.next_variable k none n)
  ]

  pub any_copy_lem :
      (s : Store El) (j : ℕ)
      → IsValid s
      → (s' : Store El) × (any_copy s j ≡ ok s')
        × IsValid s'
        × ((k : ℕ) → holder s' k ≡ set (holder s) s.next_variable (holder s j) k)
        × (s'.next_variable ≡ s.next_variable + 1)
  unfolding any_copy any_of construct allocate
  any_copy_lem s j v = elim (Option-cases (s.content j)) [
    | inl e ↦ (
      construct s none,
      rw (e, any_copy) refl,
      construct-IsValid s v,
      λ k. rw (holder-none s j e) (construct-holder s k),
      refl,
    )
    | inr (p, e) ↦
        let (h, l) = v.live j p e in
        (
          any_of s h,
          rw (e, l, any_copy) refl,
          any_of-IsValid s h v,
          λ k. rw (holder-some s j p e ∙ l) (any_of-holder s h k v),
          refl,
        )
  ]
