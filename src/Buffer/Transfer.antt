-- ===== src/Buffer/Transfer.antt =====
-- WriteBufferAndPush: one buffer appended to another, or to itself.
use flux_a_high_performance.Prelude.{
  ℕ, ◌-◌, ◌<◌, ◌≡◌, refl, ◌∙◌, ap, List, ◌++◌, length, word, ok, arith, take-all,
}
use flux_a_high_performance.Buffer.{
  Buffer, Source, self, other, write, write_buffer, write_buffer_and_push, read_able_size,
  read_as_string, source_size,
}
use flux_a_high_performance.Buffer.Inv.{
  IsValid, contents, copy_out_ok, length-contents, read_able_size_lem,
}
use flux_a_high_performance.Buffer.Read.{read_as_string_ok}
use flux_a_high_performance.Buffer.Space.{Fits}
use flux_a_high_performance.Buffer.Write.{
  stored, write_ok, pushed, pushed-IsValid, contents-pushed, move_write_offset-stored,
}

-- The bytes that a source holds when it is written to `b`, and when that is well formed.
abbrev pub source_contents : Buffer → Source → List ℕ
source_contents b self = contents b
source_contents b (other d) = contents d

abbrev pub IsValidSource : Source → Type 0
IsValidSource self = Unit {0}
IsValidSource (other d) = IsValid d

read_able_size-length : {b : Buffer} → IsValid b → read_able_size b ≡ length (contents b)
read_able_size-length v = omega (arith, length-contents v)

whole_string : {b : Buffer} → IsValid b → read_as_string b (read_able_size b) ≡ ok (contents b)
whole_string {b} v =
    ap (read_as_string b) (read_able_size-length v)
    ∙ read_as_string_ok (length (contents b)) v (omega arith)
    ∙ ap ok (take-all (length (contents b)) (contents b) (omega arith))

write_buffer-write :
    {b : Buffer} (s : Source)
    → IsValid b
    → IsValidSource s
    → write_buffer b s ≡ write b (source_contents b s)
unfolding write_buffer
write_buffer-write {b} self v k = rw (whole_string v)
write_buffer-write {b} (other d) v k = rw (
  read_able_size_lem k,
  copy_out_ok d.items d.reader_idx (d.writer_idx - d.reader_idx) (omega arith),
)

source_contents-lt-word :
    {b : Buffer} (s : Source) → IsValid b → IsValidSource s → length (source_contents b s) < word
source_contents-lt-word self v k = omega (arith, length-contents v)
source_contents-lt-word (other d) v k = omega (arith, length-contents k)

source_size_lem :
    (b : Buffer) {b' : Buffer} (s : Source)
    → IsValid b'
    → IsValidSource s
    → contents b' ≡ contents b
    → source_size b' s ≡ length (source_contents b s)
source_size_lem b self v k same = read_able_size-length v ∙ ap length same
source_size_lem b (other d) v k same = read_able_size-length k

source_size-stored :
    (b : Buffer) (bytes : List ℕ) (s : Source) → source_size (stored b bytes) s ≡ source_size b s
source_size-stored b bytes self = refl
source_size-stored b bytes (other d) = refl

-- A buffer appended to another, or to itself, appends the readable bytes of the source if they fit.
pub write_buffer_and_push_lem :
    {b : Buffer} (s : Source)
    → IsValid b
    → IsValidSource s
    → Fits b (length (source_contents b s))
    → (b' : Buffer) × (write_buffer_and_push b s ≡ ok b')
      × IsValid b'
      × (contents b' ≡ contents b ++ source_contents b s)
unfolding write_buffer_and_push
write_buffer_and_push_lem {b} s v k f =
    let bytes = source_contents b s in
    let (b', e, v', same, room, _) = write_ok bytes v (source_contents-lt-word s v k) f in
    (
      pushed b' bytes,
      rw (
        write_buffer-write s v k,
        e,
        source_size-stored b' bytes s,
        source_size_lem b s v' k same,
        move_write_offset-stored bytes v' room,
      ),
      pushed-IsValid bytes v' room,
      contents-pushed bytes v' room ∙ ap (λ c. c ++ bytes) same,
    )
