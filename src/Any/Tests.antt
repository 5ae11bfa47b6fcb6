-- ===== src/Any/Tests.antt =====
-- Variables with numbers and Booleans.
use flux_a_high_performance.Prelude.{ℕ, zero, suc, ◌≡◌, Bool, true, none, List, [], ◌∷◌, ok, arith}
use flux_a_high_performance.Any.{Holder, Store, fresh, get}
use flux_a_high_performance.Any.History.{
  Op, make_of, copy, assign_to, assign_val, exchange_with, reset_at, run, spec_run, typed,
  any_is_value,
}

abbrev Meaning : ℕ → Type 0
Meaning zero = ℕ
Meaning (suc n) = Bool

abbrev seven : Holder Meaning
seven = record { type = 0; val = 7 }

abbrev yes_holder : Holder Meaning
yes_holder = record { type = 1; val = true }

abbrev history : List (Op Meaning)
history =
    make_of seven
    ∷ copy 0
    ∷ assign_val 1 yes_holder
    ∷ exchange_with 0 1
    ∷ assign_to 1 1
    ∷ reset_at 0
    ∷ []

any_is_value_example :
    (s : Store Meaning) × (run fresh history ≡ ok s)
    × ((type i : ℕ) → get s type i ≡ typed type (spec_run 0 (λ k. none) history i))
any_is_value_example = any_is_value history (
  tt,
  (
    omega arith,
    (omega arith, ((omega arith, omega arith), ((omega arith, omega arith), (omega arith, tt)))),
  ),
)
