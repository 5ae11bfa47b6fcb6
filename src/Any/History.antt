-- ===== src/Any/History.antt =====
-- Variables of class Any behave as values do.
use flux_a_high_performance.Prelude.{
  ℕ, ◌+◌, ◌<◌, ◌≡◌, inl, inr, refl, ap, ◌∙◌, Option, some, none, List, [], ◌∷◌, Result, ok, ◌>>=◌,
  Option-cases,
}
use mathlib.Core.Path.{fun_ext}
use flux_a_high_performance.Any.{
  Holder, Store, set, fresh, construct, any, any_of, any_copy, swap, reset, assign, assign_value,
  holder, cast_to, get,
}
use flux_a_high_performance.Any.Values.{
  holder-none, IsValid, fresh-IsValid, any_of-IsValid, any_of-holder, construct-IsValid,
  construct-holder, any_copy_lem,
}
use flux_a_high_performance.Any.Reset.{reset_lem}
use flux_a_high_performance.Any.Assign.{
  exchange, swap-IsValid, swap-holder, any_of-next, assign_lem, assign_value_lem,
}

-- A call of a constructor or of a method.
pub data Op (El : ℕ → Type 0) : Type 0 where
  make : Op El
  make_of : Holder El → Op El
  copy : ℕ → Op El
  assign_to : ℕ → ℕ → Op El
  assign_val : ℕ → Holder El → Op El
  exchange_with : ℕ → ℕ → Op El
  reset_at : ℕ → Op El

-- What the variables hold.
abbrev pub Values : (ℕ → Type 0) → Type 0
Values El = ℕ → Option (Holder El)

module _ {El : ℕ → Type 0} where
  -- What a call does to the variables.
  unfoldable pub apply : Store El → Op El → Result (Store El)
  apply s make = ok (any s)
  apply s (make_of h) = ok (any_of s h)
  apply s (copy j) = any_copy s j
  apply s (assign_to i j) = assign s i j
  apply s (assign_val i h) = assign_value s i h
  apply s (exchange_with i j) = ok (swap s i j)
  apply s (reset_at i) = reset s i

  unfoldable pub run : Store El → List (Op El) → Result (Store El)
  unfolding apply
  run s [] = ok s
  run s (op ∷ ops) = apply s op >>= λ s'. run s' ops

  -- The same calls on values; n variables have been made.
  abbrev pub next_of : ℕ → Op El → ℕ
  next_of n make = n + 1
  next_of n (make_of h) = n + 1
  next_of n (copy j) = n + 1
  next_of n (assign_to i j) = n
  next_of n (assign_val i h) = n
  next_of n (exchange_with i j) = n
  next_of n (reset_at i) = n

  unfoldable pub spec_step : ℕ → Values El → Op El → Values El
  spec_step n f make = set f n none
  spec_step n f (make_of h) = set f n (some h)
  spec_step n f (copy j) = set f n (f j)
  spec_step n f (assign_to i j) = set f i (f j)
  spec_step n f (assign_val i h) = set f i (some h)
  spec_step n f (exchange_with i j) = λ k. f (exchange i j k)
  spec_step n f (reset_at i) = set f i none

  unfoldable pub spec_run : ℕ → Values El → List (Op El) → Values El
  unfolding spec_step
  spec_run n f [] = f
  spec_run n f (op ∷ ops) = spec_run (next_of n op) (spec_step n f op) ops

  -- The calls name variables that have been made.
  abbrev pub Named : ℕ → Op El → Type 0
  Named n make = Unit
  Named n (make_of h) = Unit
  Named n (copy j) = j < n
  Named n (assign_to i j) = (i < n) × (j < n)
  Named n (assign_val i h) = i < n
  Named n (exchange_with i j) = (i < n) × (j < n)
  Named n (reset_at i) = i < n

  abbrev pub AllNamed : ℕ → List (Op El) → Type 0
  AllNamed n [] = Unit
  AllNamed n (op ∷ ops) = Named n op × AllNamed (next_of n op) ops

  apply_lem :
      (s : Store El) (op : Op El)
      → IsValid s
      → Named s.next_variable op
      → (t : Store El) × (apply s op ≡ ok t)
        × IsValid t
        × (holder t ≡ spec_step s.next_variable (holder s) op)
        × (t.next_variable ≡ next_of s.next_variable op)
  unfolding apply spec_step any construct swap
  apply_lem s make v m =
      (construct s none, refl, construct-IsValid s v, fun_ext (construct-holder s), refl)
  apply_lem s (make_of h) v m = (
    any_of s h,
    refl,
    any_of-IsValid s h v,
    fun_ext (λ k. any_of-holder s h k v),
    any_of-next s h,
  )
  apply_lem s (copy j) v m = let (t, e, w, h, n) = any_copy_lem s j v in (t, e, w, fun_ext h, n)
  apply_lem s (assign_to i j) v (l, m) =
      let (t, e, w, h, n) = assign_lem s i j v l in (t, e, w, fun_ext h, n)
  apply_lem s (assign_val i g) v m =
      let (t, e, w, h, n) = assign_value_lem s i g v m in (t, e, w, fun_ext h, n)
  apply_lem s (exchange_with i j) v (l, m) =
      (swap s i j, refl, swap-IsValid s i j v l m, fun_ext (swap-holder s i j), refl)
  apply_lem s (reset_at i) v m = let (t, e, w, h, n, c) = reset_lem s i v in (t, e, w, fun_ext h, n)

  run-Values :
      (ops : List (Op El)) (s : Store El)
      → IsValid s
      → AllNamed s.next_variable ops
      → (t : Store El) × (run s ops ≡ ok t) × (holder t ≡ spec_run s.next_variable (holder s) ops)
  unfolding run spec_run
  run-Values [] s v m = (s, refl, refl)
  run-Values (op ∷ ops) s v (m, ms) =
      let (t, e, w, h, n) = apply_lem s op v m in
      let (u, f, g) = run-Values ops t w (rw n ms) in (u, rw e f, g ∙ (rw (n, h) refl))

  -- The value of a type that a variable holds.
  abbrev pub typed : (type : ℕ) → Option (Holder El) → Option (El type)
  typed type none = none
  typed type (some h) = cast_to type h

  get-typed : (s : Store El) (type i : ℕ) → get s type i ≡ typed type (holder s i)
  unfolding get
  get-typed s type i = elim (Option-cases (holder s i)) [
    | inl e ↦ rw (e, get) refl
    | inr (h, e) ↦ rw (e, get) refl
  ]

  nothing : (k : ℕ) → holder (fresh {El = El}) k ≡ none
  nothing k = holder-none fresh k refl

  -- Whatever constructors, assignments, exchanges and resets the variables of class Any go through, no holder is deleted
  -- twice or read after its deletion, and get gives for each variable what the same calls on plain values
  -- leave in it, if that has the type that is asked for, and nothing otherwise: no two variables
  -- share a value.
  pub any_is_value :
      (ops : List (Op El))
      → AllNamed 0 ops
      → (s : Store El) × (run fresh ops ≡ ok s)
        × ((type i : ℕ) → get s type i ≡ typed type (spec_run 0 (λ k. none) ops i))
  any_is_value ops m =
      let (s, e, h) = run-Values ops fresh fresh-IsValid m in
      (
        s,
        e,
        λ type i.
            get-typed s type i
            ∙ ap (λ f. typed type (f i))
                (h ∙ ap (λ f. spec_run 0 f ops) (fun_ext (λ k. nothing k))),
      )
