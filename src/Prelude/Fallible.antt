-- ===== src/Prelude/Fallible.antt =====
-- Code that can stop the process: a failed assert, an access outside an object or through a
-- null pointer, an exception that
-- nothing catches. `stuck` is not of the code: it means that the fuel of a model ran out.
use mathlib.Core.Bool.{Bool, true, false}

pub data Fault : Type 0 where
  assertion overflow null_pointer uncaught stuck : Fault

pub data Result {ℓ} (A : Type ℓ) : Type ℓ where
  ok : A → Result A
  fault : Fault → Result A

module _ {ℓ κ} {A : Type ℓ} {B : Type κ} where
  infixl 5 ◌>>=◌
  abbrev pub ◌>>=◌ : Result A → (A → Result B) → Result B
  fault why >>= next = fault why
  ok value >>= next = next value

module _ {κ} {B : Type κ} where
  infixl 5 ◌>>◌
  abbrev pub ◌>>◌ : Result (Unit {0}) → Result B → Result B
  first >> next = first >>= λ _. next

-- assert(b)
abbrev pub guard : Bool → Result (Unit {0})
guard false = fault assertion
guard true = ok tt
