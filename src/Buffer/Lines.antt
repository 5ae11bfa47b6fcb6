-- ===== src/Buffer/Lines.antt =====
-- FindCRLF, GetLine and GetLineAndPop: one line with its line break, or nothing.
use flux_a_high_performance.Prelude.{
  ◌⊎◌, inl, inr, first_of-cases, Avoids, index_of, index_of-none, index_of-append, ℕ, ◌+◌, ◌≤◌, ◌≡◌,
  List, [], ◌∷◌, ◌++◌, length, take, take-append_left, drop-append_left, length-append,
  append_assoc, ok, arith, sym, ap, ◌∙◌, add64,
}
use flux_a_high_performance.Buffer.{Buffer, find_crlf, get_line, get_line_and_pop, move_read_offset}
use flux_a_high_performance.Buffer.Inv.{IsValid, contents, read_able_size_lem, length-contents}
use flux_a_high_performance.Buffer.Read.{
  advanced, advanced-IsValid, contents-advanced, move_read_offset_ok, read_as_string_ok,
}

find_crlf_lem : {b : Buffer} → IsValid b → find_crlf b ≡ index_of b'\n' (contents b)
unfolding find_crlf
find_crlf_lem v = rw (read_able_size_lem v)

-- With no line break among the readable bytes, nothing is returned and nothing is taken.
pub get_line_and_pop_none :
    {b : Buffer} → IsValid b → Avoids b'\n' (contents b) → get_line_and_pop b ≡ ok ([], b)
unfolding get_line_and_pop get_line move_read_offset
get_line_and_pop_none {b} v h = rw (find_crlf_lem v, index_of-none b'\n' (contents b) h, get_line)

module _ {b : Buffer} (line rest : List ℕ) (v : IsValid b)
    (e : contents b ≡ line ++ b'\n' ∷ rest) where
  abbrev full_line : List ℕ
  full_line = line ++ b'\n' ∷ []

  length-full_line : length full_line ≡ length line + 1
  length-full_line = omega (arith, length-append line (b'\n' ∷ []))

  regroup : contents b ≡ full_line ++ rest
  regroup = e ∙ sym (append_assoc line (b'\n' ∷ []) rest)

  in_contents : length line + 1 ≤ length (contents b)
  in_contents = omega (arith, ap length e, length-append line (b'\n' ∷ rest))

  no_wrap : add64 (length line) 1 ≡ length line + 1
  no_wrap = omega (arith, in_contents, length-contents v)

  first_line : take (length line + 1) (contents b) ≡ full_line
  first_line = rw (regroup, ← length-full_line) (take-append_left full_line rest)

  get_line_some : Avoids b'\n' line → get_line b ≡ ok full_line
  unfolding get_line
  get_line_some h = rw (
    find_crlf_lem v,
    e,
    index_of-append b'\n' line rest h,
    get_line,
    no_wrap,
    read_as_string_ok (length line + 1) v in_contents,
    first_line,
  )

  -- Otherwise the first line is taken, with its line break.
  pub get_line_and_pop_some :
      Avoids b'\n' line → get_line_and_pop b ≡ ok (line ++ b'\n' ∷ [], advanced b (length line + 1))
  unfolding get_line_and_pop
  get_line_and_pop_some h =
      rw (get_line_some h, length-full_line, move_read_offset_ok (length line + 1) v in_contents)

  pub after_line-IsValid : IsValid (advanced b (length line + 1))
  after_line-IsValid = advanced-IsValid (length line + 1) v in_contents

  pub contents-after_line : contents (advanced b (length line + 1)) ≡ rest
  contents-after_line =
      contents-advanced (length line + 1) v in_contents
      ∙ (rw (regroup, ← length-full_line) (drop-append_left full_line rest))

-- Both cases: nothing is taken from bytes without a line break, or the first line is.
pub get_line_and_pop-cases :
    {b : Buffer}
    → IsValid b
    → (Avoids b'\n' (contents b) × (get_line_and_pop b ≡ ok ([], b)))
      ⊎ ((line : List ℕ) × (b' : Buffer) × Avoids b'\n' line
          × (contents b ≡ line ++ b'\n' ∷ contents b')
          × (get_line_and_pop b ≡ ok (line ++ b'\n' ∷ [], b'))
          × IsValid b')
get_line_and_pop-cases {b} v = elim (first_of-cases b'\n' (contents b)) [
  | inl a ↦ inl (a, get_line_and_pop_none v a)
  | inr (line, rest, a, e) ↦ inr (
    line,
    advanced b (length line + 1),
    a,
    e ∙ ap (λ r. line ++ b'\n' ∷ r) (sym (contents-after_line line rest v e)),
    get_line_and_pop_some line rest v e a,
    after_line-IsValid line rest v e,
  )
]
