-- ===== src/Buffer/Space.antt =====
-- EnsureWriteSpace and the writes: when there is room, and what happens when there is none.
use flux_a_high_performance.Prelude.{
  ℕ, ◌+◌, ◌≤◌, ◌<◌, ◌≡◌, ◌⊎◌, inl, inr, refl, word, Bool-cases, leb, length-copy_to, ok, add64,
  arith,
}
use native.Mathlib.Decide.{dec_le}
use flux_a_high_performance.Buffer.{
  Buffer, size, head_idle_size, tail_idle_size, buffer_max_size, grow_size, resize,
  ensure_write_space,
}
use flux_a_high_performance.Buffer.Inv.{
  IsValid, contents, compacted, compact_lem, compacted-IsValid, contents-compacted,
  grow_size-bounds, size-resize, resize-IsValid, contents-resize, resize_cases,
}

-- `len` more bytes can be stored: in the free space at both ends, or behind the written bytes
-- once the array has its largest size.
abbrev pub Fits : Buffer → ℕ → Type 0
Fits b len = (len + b.writer_idx ≤ size b + b.reader_idx) ⊎ (b.writer_idx + len ≤ buffer_max_size)

pub record Ensured (b : Buffer) (len : ℕ) (b' : Buffer) : Type 0 where
  pub valid : IsValid b'
  pub same : contents b' ≡ contents b
  pub not_later : b'.writer_idx ≤ b.writer_idx
  pub room : Fits b len → b'.writer_idx + len ≤ size b'
  pub no_room : b'.writer_idx + len ≤ size b' → Fits b len

grow_size-room :
    {b : Buffer} (len : ℕ)
    → IsValid b
    → len < word
    → size b < b.writer_idx + len
    → size b + b.reader_idx < len + b.writer_idx
    → (b.writer_idx + len ≤ buffer_max_size → b.writer_idx + len ≤ grow_size b len)
unfolding grow_size
grow_size-room {b} len v w h k f = ground arith

writer_idx-resize : (b : Buffer) (n : ℕ) → size b ≤ n → (resize b n).writer_idx ≡ b.writer_idx
writer_idx-resize b n h = let (_, _, e, _, _) = resize_cases b n h in rw e

grown-Ensured :
    {b : Buffer} (len : ℕ)
    → IsValid b
    → len < word
    → size b < b.writer_idx + len
    → size b + b.reader_idx < len + b.writer_idx
    → Ensured b len (resize b (grow_size b len))
grown-Ensured {b} len v w h k =
    let g = grow_size-bounds len v in
    let n = grow_size b len in
    record {
      valid = resize-IsValid n v g.0 g.1;
      same = contents-resize n v g.0;
      not_later = omega (arith, writer_idx-resize b n g.0);
      room = λ f.
          omega (arith, grow_size-room len v w h k, size-resize b n g.0, writer_idx-resize b n g.0);
      no_room = λ f. inr (omega (arith, g, size-resize b n g.0, writer_idx-resize b n g.0));
    }

-- EnsureWriteSpace on every branch: it does not fail, keeps the invariant and the readable bytes,
-- and afterwards there is room for `len` bytes exactly when they fit.
pub ensure_write_space_lem :
    {b : Buffer} (len : ℕ)
    → IsValid b
    → len < word
    → (b' : Buffer) × (ensure_write_space b len ≡ ok b') × Ensured b len b'
unfolding ensure_write_space
ensure_write_space_lem {b} len v w = elim (Bool-cases (leb len (tail_idle_size b))) [
  | inl tail ↦ (
    b,
    rw tail,
    record {
      valid = v;
      same = refl;
      not_later = omega arith;
      room = λ f. ground arith;
      no_room = λ f. inl (ground arith);
    },
  )
  | inr no_tail ↦ elim (Bool-cases (leb len (add64 (head_idle_size b) (tail_idle_size b)))) [
    | inl total ↦ (
      compacted b,
      rw (no_tail, total) (compact_lem v),
      record {
        valid = compacted-IsValid v;
        same = contents-compacted v;
        not_later = omega arith;
        room = λ f. ground (arith, length-copy_to b.items 0 (contents b));
        no_room = λ f. inl (ground arith);
      },
    )
    | inr no_total ↦ (
      resize b (grow_size b len),
      rw (no_tail, no_total),
      grown-Ensured len v w (ground arith) (ground arith),
    )
  ]
]

pub not-Fits_apart :
    (b : Buffer) (len : ℕ)
    → size b + b.reader_idx < len + b.writer_idx
    → buffer_max_size < b.writer_idx + len
    → ¬ Fits b len
not-Fits_apart b len h k f = ground arith

pub not-Fits : {b : Buffer} {len : ℕ} → IsValid b → buffer_max_size < len → ¬ Fits b len
not-Fits v h f = ground arith

pub Fits-cases : (b : Buffer) (len : ℕ) → Fits b len ⊎ (¬ Fits b len)
Fits-cases b len = elim (dec_le (len + b.writer_idx) (size b + b.reader_idx)) [
  | yes h ↦ inl (inl h)
  | no h ↦ elim (dec_le (b.writer_idx + len) buffer_max_size) [
    | yes k ↦ inl (inr k)
    | no k ↦ inr (not-Fits_apart b len (omega arith) (omega arith))
  ]
]
