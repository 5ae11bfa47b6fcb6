-- ===== src/Buffer/Stream.antt =====
-- What a client of Buffer sees: a queue of bytes. The buffer answers a history of calls as the
-- queue does, while what is pushed stays within the largest array.
use flux_a_high_performance.Prelude.{
  Avoids, ℕ, zero, ◌+◌, ◌≤◌, ◌≡◌, ◌≢◌, refl, List, [], ◌∷◌, ◌++◌, length, ◌==◌, take, drop, Result,
  ok, fault, assertion, ◌>>=◌, arith, ap, leb, if◌then◌else◌, Bool-cases, inl, inr, ◌⊎◌, leb→le,
  length-append, length-replicate,
}
use native.Mathlib.Decide.{ℕ_discrete}
use flux_a_high_performance.Buffer.{
  Buffer, write_and_push, read_as_string_and_pop, get_line_and_pop, clear, buffer_max_size,
  buffer_default_size, default_items, size, empty, read_able_size,
}
use flux_a_high_performance.Buffer.Inv.{IsValid, contents}
use flux_a_high_performance.Buffer.Read.{
  advanced, advanced-IsValid, contents-advanced, read_as_string_and_pop_ok,
  read_as_string_and_pop_fault,
}
use flux_a_high_performance.Buffer.Lines.{
  get_line_and_pop_none, get_line_and_pop_some, after_line-IsValid, contents-after_line,
}
use flux_a_high_performance.Buffer.Write.{write_and_push_ok}

pub data Op : Type 0 where
  push : List ℕ → Op
  pop : ℕ → Op
  pop_line : Op
  wipe : Op

-- The first line of a text with its line break, and what follows; no line, with no line break.
pub split_line : List ℕ → List ℕ × List ℕ
split_line [] = ([], [])
split_line (x ∷ xs) =
    if x == b'\n'
    then (x ∷ [], xs)
    else let (line, rest) = split_line xs in
      if length line == 0 then ([], x ∷ xs) else (x ∷ line, rest)

-- The queue: each call answers with bytes.
pub spec_step : List ℕ → Op → Result (List ℕ × List ℕ)
spec_step q (push bytes) = ok ([], q ++ bytes)
spec_step q (pop n) = if leb n (length q) then ok (take n q, drop n q) else fault assertion
spec_step q pop_line = ok (split_line q)
spec_step q wipe = ok ([], [])

-- The buffer.
pub step : Buffer → Op → Result (List ℕ × Buffer)
step b (push bytes) = do b' ← write_and_push b bytes; ok ([], b')
step b (pop n) = read_as_string_and_pop b n
step b pop_line = get_line_and_pop b
step b wipe = ok ([], clear b)

-- The answers to a history of calls; the first fault ends it.
pub spec_run : List ℕ → List Op → Result (List (List ℕ))
spec_run q [] = ok []
spec_run q (op ∷ ops) = do
  (reply, q') ← spec_step q op
  replies ← spec_run q' ops
  ok (reply ∷ replies)

pub run : Buffer → List Op → Result (List (List ℕ))
run b [] = ok []
run b (op ∷ ops) = do (reply, b') ← step b op; replies ← run b' ops; ok (reply ∷ replies)

abbrev pub pushed_by : Op → ℕ
pushed_by (push bytes) = length bytes
pushed_by (pop n) = 0
pushed_by pop_line = 0
pushed_by wipe = 0

abbrev pub total_pushed : List Op → ℕ
total_pushed [] = 0
total_pushed (op ∷ ops) = pushed_by op + total_pushed ops

abbrev Splits : List ℕ → Type 0
Splits xs =
    (Avoids b'\n' xs × (split_line xs ≡ ([], xs)))
    ⊎ ((line : List ℕ) × (rest : List ℕ) × Avoids b'\n' line
        × (xs ≡ line ++ b'\n' ∷ rest)
        × (split_line xs ≡ (line ++ b'\n' ∷ [], rest)))

split_line_later : (x : ℕ) (xs : List ℕ) → x ≢ b'\n' → Splits xs → Splits (x ∷ xs)
unfolding split_line
split_line_later x xs h (inl (a, e)) = inl ((h, a), ground arith)
split_line_later x xs h (inr (line, rest, a, e, f)) =
    inr (x ∷ line, rest, (h, a), ap (λ r. x ∷ r) e, ground (arith, length-append line (b'\n' ∷ [])))

split_line_cases : (xs : List ℕ) → Splits xs
unfolding split_line
split_line_cases [] = inl (tt, refl)
split_line_cases (x ∷ xs) = elim (ℕ_discrete x b'\n') [
  | yes e ↦ inr ([], xs, tt, ground arith, ground arith)
  | no ne ↦ split_line_later x xs ne (split_line_cases xs)
]

-- The buffer and the queue answer alike, or both refuse.
abbrev Agrees : Buffer → Op → Type 0
Agrees b op =
    ((reply : List ℕ) × (b' : Buffer) × (step b op ≡ ok (reply, b'))
      × (spec_step (contents b) op ≡ ok (reply, contents b'))
      × IsValid b'
      × (b'.writer_idx ≤ b.writer_idx + pushed_by op))
    ⊎ ((step b op ≡ fault assertion) × (spec_step (contents b) op ≡ fault assertion))

length-default_items : length default_items ≡ buffer_default_size
unfolding default_items
length-default_items = length-replicate buffer_default_size (zero)

-- The constructor's buffer is valid and holds nothing.
pub empty-IsValid : IsValid empty × (contents empty ≡ []) × (empty.writer_idx ≡ 0)
unfolding empty
empty-IsValid = (omega (arith, length-default_items), refl, refl)

pub read_able_size-empty : read_able_size empty ≡ 0
unfolding empty
read_able_size-empty = refl

-- Clear leaves a valid buffer that holds nothing, and an array beyond the default size is given up.
pub clear_lem :
    {b : Buffer}
    → IsValid b
    → IsValid (clear b)
      × (contents (clear b) ≡ [])
      × ((clear b).writer_idx ≡ 0)
      × (size (clear b) ≤ buffer_default_size)
unfolding clear
clear_lem {b} v = ground (arith, length-default_items)

step-push :
    {b : Buffer} (bytes : List ℕ)
    → IsValid b
    → b.writer_idx + length bytes ≤ buffer_max_size
    → Agrees b (push bytes)
unfolding step spec_step
step-push bytes v h =
    let (b', e, v', same, early) = write_and_push_ok bytes v (omega arith) (inr h) in
    inl ([], b', rw e, rw same, v', early)

step-pop : {b : Buffer} (n : ℕ) → IsValid b → Agrees b (pop n)
unfolding step spec_step
step-pop {b} n v = elim (Bool-cases (leb n (length (contents b)))) [
  | inl enough ↦ inl (
    take n (contents b),
    advanced b n,
    read_as_string_and_pop_ok n v (leb→le _ _ enough),
    rw (enough, contents-advanced n v (leb→le _ _ enough)),
    advanced-IsValid n v (leb→le _ _ enough),
    omega arith,
  )
  | inr short ↦ inr (read_as_string_and_pop_fault n v (ground arith), rw short)
]

step-pop_line : {b : Buffer} → IsValid b → Agrees b pop_line
unfolding step spec_step
step-pop_line {b} v = elim (split_line_cases (contents b)) [
  | inl (a, e) ↦ inl ([], b, get_line_and_pop_none v a, rw e, v, omega arith)
  | inr (line, rest, a, e, f) ↦ inl (
    line ++ b'\n' ∷ [],
    advanced b (length line + 1),
    get_line_and_pop_some line rest v e a,
    rw (f, contents-after_line line rest v e),
    after_line-IsValid line rest v e,
    omega arith,
  )
]

step-Agrees :
    {b : Buffer} (op : Op) → IsValid b → b.writer_idx + pushed_by op ≤ buffer_max_size → Agrees b op
unfolding step spec_step
step-Agrees (push bytes) v h = step-push bytes v h
step-Agrees (pop n) v h = step-pop n v
step-Agrees pop_line v h = step-pop_line v
step-Agrees {b} wipe v h =
    inl ([], clear b, refl, rw ((clear_lem v).1), (clear_lem v).0, omega (arith, (clear_lem v).2))

-- A valid buffer answers any history of pushes, pops, lines and clears as the queue of its readable
-- bytes does, if all the pushes together fit behind its write offset into the largest array.
pub run_refines :
    (ops : List Op) {b : Buffer}
    → IsValid b
    → b.writer_idx + total_pushed ops ≤ buffer_max_size
    → run b ops ≡ spec_run (contents b) ops
unfolding run spec_run
run_refines [] v h = refl
run_refines (op ∷ ops) {b} v h = elim (step-Agrees op v (omega arith)) [
  | inl (reply, b', e, f, v', early) ↦ rw (e, f, run_refines ops v' (omega arith))
  | inr (e, f) ↦ rw (e, f)
]
