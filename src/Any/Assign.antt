-- ===== src/Any/Assign.antt =====
-- Exchange and assignment change the values that they name, and no other.
use flux_a_high_performance.Prelude.{
  ℕ, ◌+◌, ◌<◌, ◌≤◌, ◌≡◌, ◌≢◌, inl, inr, refl, sym, ap, ◌∙◌, Option, some, none, ◌==◌, ==_iff,
  if◌then◌else◌, Result, ok, arith, Bool-cases,
}
use flux_a_high_performance.Any.{
  Holder, Store, set, construct, any_of, allocate, swap, destroy, end_temporary, assign,
  assign_value, holder,
}
use flux_a_high_performance.Any.Reset.{reset_lem}
use flux_a_high_performance.Any.Values.{
  IsValid, set-same, set-other, same-or-not, holder-none, holder-same, any_of-IsValid,
  any_of-holder, any_copy_lem,
}

-- Where the pointer of a variable comes from when i and j are exchanged.
abbrev pub exchange : ℕ → ℕ → ℕ → ℕ
exchange i j k = if j == k then i else if i == k then j else k

exchange-inj : (i j k l : ℕ) → exchange i j k ≡ exchange i j l → k ≡ l
exchange-inj i j k l e = ground arith

exchange-above : (i j n k : ℕ) → i < n → j < n → n ≤ k → exchange i j k ≡ k
exchange-above i j n k a b l = ground arith

exchange-first : (i n k : ℕ) → n ≢ k → i ≡ k → exchange i n k ≡ n
exchange-first i n k m q = ground arith

exchange-neither : (i n k : ℕ) → n ≢ k → i ≢ k → exchange i n k ≡ k
exchange-neither i n k m o = ground arith

exchange_comm : (i j k : ℕ) → exchange j i k ≡ exchange i j k
exchange_comm i j k = ground arith

module _ {El : ℕ → Type 0} where
  swap-content : (s : Store El) (i j k : ℕ) → (swap s i j).content k ≡ s.content (exchange i j k)
  unfolding swap
  swap-content s i j k = elim (Bool-cases (j == k)) [
    | inl e ↦ rw e refl
    | inr e ↦ elim (Bool-cases (i == k)) [ inl f ↦ rw (e, f) refl | inr f ↦ rw (e, f) refl ]
  ]

  pub swap-IsValid :
      (s : Store El) (i j : ℕ)
      → IsValid s
      → i < s.next_variable
      → j < s.next_variable
      → IsValid (swap s i j)
  unfolding swap
  swap-IsValid s i j v a b = record {
    live = λ k p e. v.live (exchange i j k) p (sym (swap-content s i j k) ∙ e);
    apart = λ k l p e f. exchange-inj i j k l (
        v.apart (exchange i j k) (exchange i j l) p (sym (swap-content s i j k) ∙ e)
          (sym (swap-content s i j l) ∙ f));
    below = v.below;
    unused = λ k l.
        swap-content s i j k
        ∙ ap s.content (exchange-above i j s.next_variable k a b l)
        ∙ v.unused k l;
  }

  pub swap-holder : (s : Store El) (i j k : ℕ) → holder (swap s i j) k ≡ holder s (exchange i j k)
  unfolding swap
  swap-holder s i j k =
      holder-same s (swap s i j) (exchange i j k) k (swap-content s i j k) (λ p e. refl)

  -- An operation that changes one value.
  abbrev pub Changed : Store El → ℕ → Option (Holder El) → Result (Store El) → Type 0
  Changed s i x r =
      (s' : Store El) × (r ≡ ok s')
      × IsValid s'
      × ((k : ℕ) → holder s' k ≡ set (holder s) i x k)
      × (s'.next_variable ≡ s.next_variable)

  exchanged-holder :
      (s t : Store El) (i a b : ℕ) (x : Option (Holder El)) (k : ℕ)
      → i < s.next_variable
      → IsValid s
      → ((k : ℕ) → holder t k ≡ set (holder s) s.next_variable x k)
      → ((k : ℕ) → exchange a b k ≡ exchange i s.next_variable k)
      → set (holder (swap t a b)) s.next_variable none k ≡ set (holder s) i x k
  exchanged-holder s t i a b x k l v h same =
      let n = s.next_variable in
      elim (same-or-not n k) [
        | inl q ↦
            set-same (holder (swap t a b)) n k none q
            ∙ sym (holder-none s k (v.unused k (omega arith)))
            ∙ sym (set-other (holder s) i k x (λ e. absurd (omega arith)))
        | inr m ↦
            let moved : set (holder (swap t a b)) n none k ≡ holder t (exchange i n k) =
              set-other (holder (swap t a b)) n k none m
              ∙ swap-holder t a b k
              ∙ ap (holder t) (same k) in
            elim (same-or-not i k) [
              | inl q ↦
                  moved
                  ∙ ap (holder t) (exchange-first i n k m q)
                  ∙ h n
                  ∙ set-same (holder s) n n x refl
                  ∙ sym (set-same (holder s) i k x q)
              | inr o ↦
                  moved
                  ∙ ap (holder t) (exchange-neither i n k m o)
                  ∙ h k
                  ∙ set-other (holder s) n k x m
                  ∙ sym (set-other (holder s) i k x o)
            ]
      ]

  temporary_lem :
      (s t : Store El) (i a b : ℕ) (x : Option (Holder El))
      → IsValid s
      → IsValid t
      → t.next_variable ≡ s.next_variable + 1
      → i < s.next_variable
      → a ≤ s.next_variable
      → b ≤ s.next_variable
      → ((k : ℕ) → holder t k ≡ set (holder s) s.next_variable x k)
      → ((k : ℕ) → exchange a b k ≡ exchange i s.next_variable k)
      → Changed s i x (end_temporary (swap t a b) s.next_variable)
  unfolding end_temporary destroy holder swap
  temporary_lem s t i a b x v w m l la lb h same =
      let n = s.next_variable in
      let (u, e, y, g, o, c) =
        reset_lem (swap t a b) n (swap-IsValid t a b w (omega arith) (omega arith)) in
      (
        record u { next_variable = n },
        rw (e, end_temporary) refl,
        record {
          live = y.live;
          apart = y.apart;
          below = y.below;
          unused = λ k z. elim (same-or-not n k) [
            | inl q ↦ ap u.content (sym q) ∙ c
            | inr d ↦ y.unused k (omega arith)
          ];
        },
        λ k. g k ∙ exchanged-holder s t i a b x k l v h same,
        refl,
      )

  pub any_of-next :
      (s : Store El) (h : Holder El) → (any_of s h).next_variable ≡ s.next_variable + 1
  unfolding any_of construct allocate
  any_of-next s h = refl

  unchanged : (s : Store El) (i j k : ℕ) → i ≡ j → holder s k ≡ set (holder s) i (holder s j) k
  unchanged s i j k e = elim (same-or-not i k) [
    | inl q ↦ ap (holder s) (sym q ∙ e) ∙ sym (set-same (holder s) i k (holder s j) q)
    | inr n ↦ sym (set-other (holder s) i k (holder s j) n)
  ]

  pub assign_lem :
      (s : Store El) (i j : ℕ)
      → IsValid s
      → i < s.next_variable
      → Changed s i (holder s j) (assign s i j)
  unfolding assign
  assign_lem s i j v l = elim (Bool-cases (i == j)) [
    | inl e ↦ (s, rw e refl, v, λ k. unchanged s i j k ((==_iff i j).0 e), refl)
    | inr e ↦
        let (t, f, w, h, m) = any_copy_lem s j v in
        let (u, g, y, o, q) =
          temporary_lem s t i i s.next_variable (holder s j) v w m l (omega arith) (omega arith) h
            (λ k. refl) in
        (u, rw (e, f) g, y, o, q)
  ]

  pub assign_value_lem :
      (s : Store El) (i : ℕ) (h : Holder El)
      → IsValid s
      → i < s.next_variable
      → Changed s i (some h) (assign_value s i h)
  unfolding assign_value
  assign_value_lem s i h v l =
      temporary_lem s (any_of s h) i s.next_variable i (some h) v (any_of-IsValid s h v)
        (any_of-next s h) l (omega arith) (omega arith) (λ k. any_of-holder s h k v)
        (λ k. exchange_comm i s.next_variable k)
