-- ===== src/Buffer/Read.antt =====
-- The reads: what they return, and what they leave readable.
use flux_a_high_performance.Prelude.{
  ℕ, ◌+◌, ◌-◌, ◌≤◌, ◌<◌, ◌≡◌, refl, length, take, drop, take-take, drop-take, drop-drop, ok, fault,
  assertion, arith, sym, ◌∙◌, ap,
}
use flux_a_high_performance.Buffer.{
  Buffer, copy_out, move_read_offset, read_and_pop, read_as_string, read_as_string_and_pop,
}
use flux_a_high_performance.Buffer.Inv.{IsValid, contents, copy_out_ok, length-contents}

abbrev pub advanced : Buffer → ℕ → Buffer
advanced b len = record b { reader_idx = b.reader_idx + len }

pub advanced-IsValid :
    {b : Buffer} (len : ℕ) → IsValid b → len ≤ length (contents b) → IsValid (advanced b len)
advanced-IsValid {b} len v h = omega (arith, length-contents v)

pub contents-advanced :
    {b : Buffer} (len : ℕ)
    → IsValid b
    → len ≤ length (contents b)
    → contents (advanced b len) ≡ drop len (contents b)
contents-advanced {b} len v h =
    let n = b.writer_idx - (b.reader_idx + len) in
    sym (
      drop-take len (b.writer_idx - b.reader_idx) n (drop b.reader_idx b.items)
        (omega (arith, length-contents v))
      ∙ ap (take n) (drop-drop len b.reader_idx (b.reader_idx + len) b.items refl))

pub move_read_offset_ok :
    {b : Buffer} (len : ℕ)
    → IsValid b
    → len ≤ length (contents b)
    → move_read_offset b len ≡ ok (advanced b len)
unfolding move_read_offset
move_read_offset_ok {b} len v h = ground (arith, length-contents v)

pub move_read_offset_fault :
    {b : Buffer} (len : ℕ)
    → IsValid b
    → length (contents b) < len
    → move_read_offset b len ≡ fault assertion
unfolding move_read_offset
move_read_offset_fault {b} len v h = ground (arith, length-contents v)

-- A copy of readable bytes, as the body of a request is taken.
pub copy_out-contents :
    {b : Buffer} (len : ℕ)
    → IsValid b
    → len ≤ length (contents b)
    → copy_out b.items b.reader_idx len ≡ ok (take len (contents b))
copy_out-contents {b} len v h =
    copy_out_ok b.items b.reader_idx len (omega (arith, length-contents v))
    ∙ ap ok (
        sym (
          take-take len (b.writer_idx - b.reader_idx) (drop b.reader_idx b.items)
            (omega (arith, length-contents v))))

pub read_as_string_ok :
    {b : Buffer} (len : ℕ)
    → IsValid b
    → len ≤ length (contents b)
    → read_as_string b len ≡ ok (take len (contents b))
unfolding read_as_string
read_as_string_ok {b} len v h = ground (
  arith,
  length-contents v,
  copy_out_ok b.items b.reader_idx len,
  take-take len (b.writer_idx - b.reader_idx) (drop b.reader_idx b.items),
)

pub read_as_string_fault :
    {b : Buffer} (len : ℕ)
    → IsValid b
    → length (contents b) < len
    → read_as_string b len ≡ fault assertion
unfolding read_as_string
read_as_string_fault {b} len v h = ground (arith, length-contents v)

pub read_as_string_and_pop_ok :
    {b : Buffer} (len : ℕ)
    → IsValid b
    → len ≤ length (contents b)
    → read_as_string_and_pop b len ≡ ok (take len (contents b), advanced b len)
unfolding read_as_string_and_pop
read_as_string_and_pop_ok {b} len v h = rw (read_as_string_ok len v h, move_read_offset_ok len v h)

pub read_as_string_and_pop_fault :
    {b : Buffer} (len : ℕ)
    → IsValid b
    → length (contents b) < len
    → read_as_string_and_pop b len ≡ fault assertion
unfolding read_as_string_and_pop
read_as_string_and_pop_fault len v h = rw (read_as_string_fault len v h)

-- ReadAndPop takes the same bytes as ReadAsStringAndPop, and fails as it does.
pub read_and_pop-eq : (b : Buffer) (len : ℕ) → read_and_pop b len ≡ read_as_string_and_pop b len
unfolding read_and_pop read_as_string_and_pop read_as_string
read_and_pop-eq b len = ground arith
