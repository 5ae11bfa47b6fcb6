-- ===== src/TimerWheel/Slots.antt =====
-- The slots of a wheel: std::vector<std::vector<PtrTask>>, its pointers as numbers.
use flux_a_high_performance.Prelude.{
  ℕ, zero, suc, ◌<◌, ◌≡◌, refl, ap, Bool, true, false, List, [], ◌∷◌, ◌++◌, ◌==◌, ◌||◌,
  if◌then◌else◌, length, arith,
}

unfoldable pub mem : ℕ → List ℕ → Bool
mem p [] = false
mem p (q ∷ qs) = (q == p) || mem p qs

unfoldable pub count : ℕ → List ℕ → ℕ
count p [] = 0
count p (q ∷ qs) = let n = count p qs in if q == p then suc n else n

-- _wheel[i]. Every index of the program is a remainder by the number of slots.
unfoldable pub slot : ℕ → List (List ℕ) → List ℕ
slot i [] = []
slot zero (s ∷ ss) = s
slot (suc i) (s ∷ ss) = slot i ss

unfoldable pub set_slot : ℕ → List ℕ → List (List ℕ) → List (List ℕ)
set_slot i new [] = []
set_slot zero new (s ∷ ss) = new ∷ ss
set_slot (suc i) new (s ∷ ss) = s ∷ set_slot i new ss

-- Some slot holds the pointer.
unfoldable pub owns : ℕ → List (List ℕ) → Bool
unfolding mem
owns p [] = false
owns p (s ∷ ss) = mem p s || owns p ss

pub length-set_slot :
    (i : ℕ) (s : List ℕ) (ss : List (List ℕ)) → length (set_slot i s ss) ≡ length ss
unfolding set_slot
length-set_slot i s [] = refl
length-set_slot zero s (x ∷ ss) = refl
length-set_slot (suc i) s (x ∷ ss) = ap suc (length-set_slot i s ss)

pub slot-set_slot :
    (i j : ℕ) (s : List ℕ) (ss : List (List ℕ))
    → j < length ss
    → slot i (set_slot j s ss) ≡ (if i == j then s else slot i ss)
unfolding slot set_slot
slot-set_slot i j s [] h = absurd (omega arith)
slot-set_slot zero zero s (x ∷ ss) h = ground arith
slot-set_slot zero (suc j) s (x ∷ ss) h = ground arith
slot-set_slot (suc i) zero s (x ∷ ss) h = ground arith
slot-set_slot (suc i) (suc j) s (x ∷ ss) h = ground (arith, slot-set_slot i j s ss)

pub mem-append : (p : ℕ) (xs ys : List ℕ) → mem p (xs ++ ys) ≡ (mem p xs || mem p ys)
unfolding mem
mem-append p [] ys = refl
mem-append p (x ∷ xs) ys = ground (arith, mem-append p xs ys)

pub owns-slot : (p i : ℕ) (ss : List (List ℕ)) → mem p (slot i ss) ≡ true → owns p ss ≡ true
unfolding mem slot owns
owns-slot p i [] h = h
owns-slot p zero (s ∷ ss) h = ground arith
owns-slot p (suc i) (s ∷ ss) h = ground (arith, owns-slot p i ss)

-- A pointer that no slot holds.
pub not-owns :
    (p : ℕ) (ss : List (List ℕ))
    → ((i : ℕ) → i < length ss → mem p (slot i ss) ≡ false)
    → owns p ss ≡ false
unfolding slot owns
not-owns p [] h = refl
not-owns p (s ∷ ss) h =
    let here : mem p s ≡ false = h 0 (omega arith) in
    let there : owns p ss ≡ false = not-owns p ss (λ i k. h (suc i) (omega arith)) in ground arith
