-- ===== src/Any.antt =====
-- class Any of source/Reactor/Any.hpp: the variables of this type and the heap with the holders that they
-- own. A type is its number, El gives its values. A variable is a number; one that is not constructed holds
-- no pointer. Deleting a holder that is not there is a fault.
pub mod Values
pub mod Reset
pub mod Assign
pub mod History
mod Tests
use flux_a_high_performance.Prelude.{
  ℕ, ◌+◌, Bool, true, false, Option, some, none, ◌==◌, if◌then◌else◌, ◌≡◌, sym, Result, ok, fault,
  overflow, uncaught, ◌>>=◌,
}
use native.Mathlib.Decide.{ℕ_discrete}
use std.Path.{subst}

-- placeholder<T>
pub record Holder (El : ℕ → Type 0) : Type 0 where
  pub type : ℕ
  pub val : El type

pub record Store (El : ℕ → Type 0) : Type 0 where
  pub heap : ℕ → Option (Holder El)
  pub next_pointer : ℕ
  pub content : ℕ → Option ℕ
  pub next_variable : ℕ

-- A function changed at one place.
abbrev pub set {ℓ} : {A : Type ℓ} → (ℕ → A) → ℕ → A → ℕ → A
set f i x j = if i == j then x else f j

module _ {El : ℕ → Type 0} where
  abbrev pub fresh : Store El
  fresh = record { heap = λ p. none; next_pointer = 0; content = λ i. none; next_variable = 0 }

  -- new placeholder(val)
  pub allocate : Store El → Holder El → Store El
  allocate s h = record s {
    heap = set s.heap s.next_pointer (some h);
    next_pointer = s.next_pointer + 1;
  }

  -- delete
  pub delete : Store El → Option ℕ → Result (Store El)
  delete s none = ok s
  delete s (some p) = elim (s.heap p) [
    | none ↦ fault overflow
    | some h ↦ ok (record s { heap = set s.heap p none })
  ]

  -- A new variable with a pointer.
  pub construct : Store El → Option ℕ → Store El
  construct s content = record s {
    content = set s.content s.next_variable content;
    next_variable = s.next_variable + 1;
  }

  pub any : Store El → Store El
  unfolding construct
  any s = construct s none

  pub any_of : Store El → Holder El → Store El
  unfolding construct allocate
  any_of s h = construct (allocate s h) (some s.next_pointer)

  -- _content->clone(), of a pointer to a holder that is there.
  pub any_copy : Store El → ℕ → Result (Store El)
  unfolding construct any_of
  any_copy s j = elim (s.content j) [
    | none ↦ ok (construct s none)
    | some p ↦ elim (s.heap p) [ none ↦ fault overflow | some h ↦ ok (any_of s h) ]
  ]

  pub swap : Store El → ℕ → ℕ → Store El
  swap s i j = record s { content = set (set s.content i (s.content j)) j (s.content i) }

  -- delete _content; _content = nullptr;
  pub reset : Store El → ℕ → Result (Store El)
  unfolding delete
  reset s i = delete s (s.content i) >>= λ s'. ok (record s' { content = set s'.content i none })

  -- The destructor, after which the variable is not used.
  pub destroy : Store El → ℕ → Result (Store El)
  unfolding reset
  destroy s i = reset s i

  -- A temporary is destroyed, and the next variable has its number.
  pub end_temporary : Store El → ℕ → Result (Store El)
  unfolding destroy
  end_temporary s tmp = destroy s tmp >>= λ s'. ok (record s' { next_variable = tmp })

  -- operator=(const Any &); the temporary is the next variable.
  pub assign : Store El → ℕ → ℕ → Result (Store El)
  unfolding any_copy swap end_temporary
  assign s i j =
      if i == j
      then ok s
      else any_copy s j >>= λ s'. end_temporary (swap s' i s.next_variable) s.next_variable

  -- operator=(const T &)
  pub assign_value : Store El → ℕ → Holder El → Result (Store El)
  unfolding any_of swap end_temporary
  assign_value s i h = end_temporary (swap (any_of s h) s.next_variable i) s.next_variable

  -- The holder of a variable.
  pub holder : Store El → ℕ → Option (Holder El)
  holder s i = elim (s.content i) [ none ↦ none | some p ↦ s.heap p ]

  -- The static_cast of a holder of the type.
  pub cast_to : (type : ℕ) → Holder El → Option (El type)
  cast_to type h = elim (ℕ_discrete type h.type) [
    | yes e ↦ some (subst El (sym e) h.val)
    | no n ↦ none
  ]

  pub get : Store El → (type : ℕ) → ℕ → Option (El type)
  unfolding holder cast_to
  get s type i = elim (holder s i) [ none ↦ none | some h ↦ cast_to type h ]

  pub has_value : Store El → ℕ → Bool
  has_value s i = elim (s.content i) [ none ↦ false | some p ↦ true ]

  -- std::bad_cast is thrown for an empty variable.
  pub type_of : Store El → ℕ → Result ℕ
  unfolding holder
  type_of s i = elim (holder s i) [ none ↦ fault uncaught | some h ↦ ok h.type ]
