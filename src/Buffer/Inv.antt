-- ===== src/Buffer/Inv.antt =====
-- The representation invariant of Buffer, the bytes it holds, and each step under the invariant.
use flux_a_high_performance.Prelude.{
  ℕ, ◌+◌, ◌-◌, ◌≤◌, ◌<◌, ◌≡◌, refl, List, [], ◌++◌, length, take, drop, replicate, copy_to,
  length-append, length-copy_to, length-replicate, length-take, length-drop, ok, fault, overflow,
  arith, leb, Bool-cases, zero, max, if◌then◌else◌, inl, inr, take-all, append-nil,
}
use flux_a_high_performance.Buffer.{
  Buffer, size, read_able_size, tail_idle_size, buffer_max_size, copy_out, copy_in, resize,
  grow_size, compact,
}
use flux_a_high_performance.Buffer.Arrays.{window-copy_to, window-append}

pub record IsValid (b : Buffer) : Type 0 where
  pub ordered : b.reader_idx ≤ b.writer_idx
  pub in_bounds : b.writer_idx ≤ size b
  pub reserved : size b ≤ b.capacity
  pub limited : size b ≤ buffer_max_size

-- The readable bytes, oldest first.
abbrev pub contents : Buffer → List ℕ
contents b = take (b.writer_idx - b.reader_idx) (drop b.reader_idx b.items)

pub read_able_size_lem : {b : Buffer} → IsValid b → read_able_size b ≡ b.writer_idx - b.reader_idx
read_able_size_lem v = omega arith

pub tail_idle_size_lem : {b : Buffer} → IsValid b → tail_idle_size b ≡ size b - b.writer_idx
tail_idle_size_lem v = omega arith

pub length-contents : {b : Buffer} → IsValid b → length (contents b) ≡ b.writer_idx - b.reader_idx
length-contents {b} v = omega (
  arith,
  length-take (b.writer_idx - b.reader_idx) (drop b.reader_idx b.items),
  length-drop b.reader_idx b.items,
)

pub copy_out_ok :
    (xs : List ℕ) (i len : ℕ) → i + len ≤ length xs → copy_out xs i len ≡ ok (take len (drop i xs))
unfolding copy_out
copy_out_ok xs i len h = ground arith

pub copy_in_ok :
    (xs : List ℕ) (i : ℕ) (ys : List ℕ)
    → i + length ys ≤ length xs
    → copy_in xs i ys ≡ ok (copy_to xs i ys)
unfolding copy_in
copy_in_ok xs i ys h = ground arith

pub copy_in_fault :
    (xs : List ℕ) (i : ℕ) (ys : List ℕ)
    → length xs < i + length ys
    → copy_in xs i ys ≡ fault overflow
unfolding copy_in
copy_in_fault xs i ys h = ground arith

abbrev pub compacted : Buffer → Buffer
compacted b = record b {
  items = copy_to b.items 0 (contents b);
  reader_idx = 0;
  writer_idx = b.writer_idx - b.reader_idx;
}

pub compact_lem : {b : Buffer} → IsValid b → compact b ≡ ok (compacted b)
unfolding compact
compact_lem {b} v = rw (
  read_able_size_lem v,
  copy_out_ok b.items b.reader_idx (b.writer_idx - b.reader_idx) (omega arith),
  copy_in_ok b.items 0 (contents b) (omega (arith, length-contents v)),
)

pub compacted-IsValid : {b : Buffer} → IsValid b → IsValid (compacted b)
compacted-IsValid {b} v = omega (arith, length-copy_to b.items 0 (contents b))

pub contents-compacted : {b : Buffer} → IsValid b → contents (compacted b) ≡ contents b
contents-compacted {b} v =
    let e : b.writer_idx - b.reader_idx - 0 ≡ b.writer_idx - b.reader_idx = omega arith in
    rw e (
      window-copy_to b.items (contents b) 0 0 0 (b.writer_idx - b.reader_idx) refl
        (omega (arith, length-contents v)) (omega (arith, length-contents v)))

pub grow_size-bounds :
    {b : Buffer} (len : ℕ)
    → IsValid b
    → (size b ≤ grow_size b len) × (grow_size b len ≤ buffer_max_size)
unfolding grow_size
grow_size-bounds {b} len v = ground arith

-- A buffer is never asked to shrink, so `resize` keeps the array or lengthens it.
pub resize_cases :
    (b : Buffer) (n : ℕ)
    → size b ≤ n
    → (zs : List ℕ) × (cap : ℕ) × (resize b n ≡ record b { items = b.items ++ zs; capacity = cap })
      × (size b + length zs ≡ n)
      × (size b ≤ b.capacity → n ≤ cap)
unfolding resize
resize_cases b n h = elim (Bool-cases (leb n (size b))) [
  | inl same ↦ (
    [],
    b.capacity,
    ground (arith, take-all n b.items, append-nil b.items),
    ground arith,
    λ k. ground arith,
  )
  | inr more ↦ (
    replicate (n - size b) 0,
    if leb n b.capacity then b.capacity else size b + max (size b) (n - size b),
    rw more,
    ground (arith, length-replicate (n - size b) (zero)),
    λ k. ground arith,
  )
]

pub size-resize : (b : Buffer) (n : ℕ) → size b ≤ n → size (resize b n) ≡ n
size-resize b n h =
    let (zs, cap, e, k, _) = resize_cases b n h in rw e (omega (arith, length-append b.items zs))

pub resize-IsValid :
    {b : Buffer} (n : ℕ) → IsValid b → size b ≤ n → n ≤ buffer_max_size → IsValid (resize b n)
resize-IsValid {b} n v h k =
    let (zs, cap, e, l, m) = resize_cases b n h in
    rw e (record {
      ordered = v.ordered;
      in_bounds = omega (arith, length-append b.items zs);
      reserved = omega (arith, length-append b.items zs, m v.reserved);
      limited = omega (arith, length-append b.items zs);
    })

pub contents-resize :
    {b : Buffer} (n : ℕ) → IsValid b → size b ≤ n → contents (resize b n) ≡ contents b
contents-resize {b} n v h =
    let (zs, cap, e, l, m) = resize_cases b n h in
    rw e (window-append b.items zs b.reader_idx (b.writer_idx - b.reader_idx) (omega arith))
