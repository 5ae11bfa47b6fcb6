-- ===== src/Buffer/Write.antt =====
-- Write, WriteAndPush, WriteStringAndPush and WriteBufferAndPush: they append, or overflow.
use flux_a_high_performance.Prelude.{
  ℕ, ◌+◌, ◌-◌, ◌≤◌, ◌<◌, ◌≡◌, inl, inr, ◌⊎◌, refl, ◌∙◌, List, [], ◌∷◌, ◌++◌, length, word,
  length-copy_to, copy_to, copy_to-nil, suc-==-zero, lt_of_not-le, ap, ok, fault, overflow, arith,
}
use flux_a_high_performance.Buffer.{
  Buffer, size, write, move_write_offset, write_and_push, buffer_max_size,
}
use flux_a_high_performance.Buffer.Arrays.{window-copy_to}
use flux_a_high_performance.Buffer.Inv.{IsValid, contents, copy_in_ok, copy_in_fault}
use flux_a_high_performance.Buffer.Space.{
  Fits, ensure_write_space_lem, Fits-cases, not-Fits, not-Fits_apart,
}

-- The buffer after `bytes` were copied behind the written ones, and the offset moved.
abbrev pub stored : Buffer → List ℕ → Buffer
stored b bytes = record b { items = copy_to b.items b.writer_idx bytes }

abbrev pub pushed : Buffer → List ℕ → Buffer
pushed b bytes = record (stored b bytes) { writer_idx = b.writer_idx + length bytes }

pub pushed-IsValid :
    {b : Buffer} (bytes : List ℕ)
    → IsValid b
    → b.writer_idx + length bytes ≤ size b
    → IsValid (pushed b bytes)
pushed-IsValid {b} bytes v h = omega (arith, length-copy_to b.items b.writer_idx bytes)

pub contents-pushed :
    {b : Buffer} (bytes : List ℕ)
    → IsValid b
    → b.writer_idx + length bytes ≤ size b
    → contents (pushed b bytes) ≡ contents b ++ bytes
contents-pushed {b} bytes v h =
    window-copy_to b.items bytes b.reader_idx (b.writer_idx - b.reader_idx) b.writer_idx _
      (omega arith) (omega arith) (omega arith)

pub move_write_offset-stored :
    {b : Buffer} (bytes : List ℕ)
    → IsValid b
    → b.writer_idx + length bytes ≤ size b
    → move_write_offset (stored b bytes) (length bytes) ≡ ok (pushed b bytes)
unfolding move_write_offset
move_write_offset-stored {b} bytes v h = ground (arith, length-copy_to b.items b.writer_idx bytes)

-- Write with room after EnsureWriteSpace, and without.
pub write_ok :
    {b : Buffer} (bytes : List ℕ)
    → IsValid b
    → length bytes < word
    → Fits b (length bytes)
    → (b' : Buffer) × (write b bytes ≡ ok (stored b' bytes))
      × IsValid b'
      × (contents b' ≡ contents b)
      × (b'.writer_idx + length bytes ≤ size b')
      × (b'.writer_idx ≤ b.writer_idx)
unfolding write
write_ok {b} [] v w f =
    (b, rw (copy_to-nil b.items b.writer_idx), v, refl, omega arith, omega arith)
write_ok {b} (x ∷ xs) v w f =
    let (b', e, m) = ensure_write_space_lem (length (x ∷ xs)) v w in
    let room = m.room f in
    (
      b',
      rw (suc-==-zero (length xs), e, copy_in_ok b'.items b'.writer_idx (x ∷ xs) room),
      m.valid,
      m.same,
      room,
      m.not_later,
    )

write_fault :
    {b : Buffer} (bytes : List ℕ)
    → IsValid b
    → length bytes < word
    → ¬ Fits b (length bytes)
    → write b bytes ≡ fault overflow
unfolding write
write_fault {b} [] v w f = absurd (f (inl (omega arith)))
write_fault {b} (x ∷ xs) v w f =
    let (b', e, m) = ensure_write_space_lem (length (x ∷ xs)) v w in
    rw (
      suc-==-zero (length xs),
      e,
      copy_in_fault b'.items b'.writer_idx (x ∷ xs) (lt_of_not-le (λ h. f (m.no_room h))),
    )

-- WriteAndPush on every branch.
pub write_and_push_ok :
    {b : Buffer} (bytes : List ℕ)
    → IsValid b
    → length bytes < word
    → Fits b (length bytes)
    → (b' : Buffer) × (write_and_push b bytes ≡ ok b')
      × IsValid b'
      × (contents b' ≡ contents b ++ bytes)
      × (b'.writer_idx ≤ b.writer_idx + length bytes)
unfolding write_and_push
write_and_push_ok {b} bytes v w f =
    let (b', e, v', same, room, early) = write_ok bytes v w f in
    (
      pushed b' bytes,
      rw (e, move_write_offset-stored bytes v' room),
      pushed-IsValid bytes v' room,
      contents-pushed bytes v' room ∙ ap (λ c. c ++ bytes) same,
      omega arith,
    )

pub write_and_push_fault :
    {b : Buffer} (bytes : List ℕ)
    → IsValid b
    → length bytes < word
    → ¬ Fits b (length bytes)
    → write_and_push b bytes ≡ fault overflow
unfolding write_and_push
write_and_push_fault bytes v w f = rw (write_fault bytes v w f)

-- WriteAndPush on every branch. From a valid buffer it appends the bytes and keeps the invariant if
-- they fit into the free space at both ends or behind the written bytes in the largest array;
-- otherwise it copies beyond the end of the array.
pub write_and_push_lem :
    {b : Buffer} (bytes : List ℕ)
    → IsValid b
    → length bytes < word
    → (Fits b (length bytes)
        × ((b' : Buffer) × (write_and_push b bytes ≡ ok b')
            × IsValid b'
            × (contents b' ≡ contents b ++ bytes)))
      ⊎ ((¬ Fits b (length bytes)) × (write_and_push b bytes ≡ fault overflow))
write_and_push_lem {b} bytes v w = elim (Fits-cases b (length bytes)) [
  | inl f ↦ let (b', e, v', same, _) = write_and_push_ok bytes v w f in inl (f, (b', e, v', same))
  | inr f ↦ inr (f, write_and_push_fault bytes v w f)
]

-- Bytes that no array of the largest size can hold are always written beyond its end.
pub write_and_push_too_long :
    {b : Buffer} (bytes : List ℕ)
    → IsValid b
    → length bytes < word
    → buffer_max_size < length bytes
    → write_and_push b bytes ≡ fault overflow
write_and_push_too_long bytes v w h = write_and_push_fault bytes v w (not-Fits v h)

-- Bytes that would fit beside the readable ones can still be written beyond the end: an expansion
-- does not first move the readable bytes to the front.
write_and_push_fragmented :
    {b : Buffer} (bytes : List ℕ)
    → IsValid b
    → length (contents b) + length bytes ≤ buffer_max_size
    → size b + b.reader_idx < length bytes + b.writer_idx
    → buffer_max_size < b.writer_idx + length bytes
    → write_and_push b bytes ≡ fault overflow
write_and_push_fragmented {b} bytes v small h k =
    write_and_push_fault bytes v (omega arith) (not-Fits_apart b (length bytes) h k)
