-- ===== src/Buffer/Tests.antt =====
-- Buffer on small arrays, and the theorems at inputs that meet their hypotheses.
use flux_a_high_performance.Prelude.{
  index_of, ℕ, zero, ◌≡◌, refl, inl, ◌⊎◌, List, [], ◌∷◌, length, replicate, length-replicate, ok,
  fault, overflow, arith,
}
use flux_a_high_performance.Buffer.{
  Buffer, self, write_and_push, write_buffer_and_push, write, ensure_write_space, compact, copy_out,
  copy_in, resize, grow_size, move_write_offset, get_line, get_line_and_pop, find_crlf,
  read_as_string, move_read_offset,
}
use flux_a_high_performance.Buffer.Inv.{IsValid, contents}
use flux_a_high_performance.Buffer.Space.{Fits, ensure_write_space_lem, Ensured}
use flux_a_high_performance.Buffer.Write.{write_and_push_lem}
use flux_a_high_performance.Buffer.Transfer.{write_buffer_and_push_lem}
use flux_a_high_performance.Buffer.Stream.{push, pop, pop_line, wipe, run, spec_run, run_refines}

-- Two readable bytes in the middle of four.
abbrev small : Buffer
small = record { items = 1 ∷ 2 ∷ 3 ∷ 4 ∷ []; capacity = 4; reader_idx = 1; writer_idx = 3 }

small-IsValid : IsValid small
small-IsValid = omega arith

abbrev text : Buffer
text = record { items = b'a' ∷ b'\n' ∷ b'b' ∷ []; capacity = 3; reader_idx = 0; writer_idx = 3 }

text-IsValid : IsValid text
text-IsValid = omega arith

-- Two bytes do not fit behind the written ones, and the readable ones move to the front.
write_compacts :
    write_and_push small (8 ∷ 9 ∷ [])
    ≡ ok (record { items = 2 ∷ 3 ∷ 8 ∷ 9 ∷ []; capacity = 4; reader_idx = 0; writer_idx = 4 })
unfolding write_and_push write ensure_write_space compact copy_out copy_in move_write_offset
write_compacts = refl

-- Three do not fit at all, and the array doubles.
write_grows :
    write_and_push small (7 ∷ 8 ∷ 9 ∷ [])
    ≡ ok (record {
      items = 1 ∷ 2 ∷ 3 ∷ 7 ∷ 8 ∷ 9 ∷ 0 ∷ 0 ∷ [];
      capacity = 8;
      reader_idx = 1;
      writer_idx = 6;
    })
unfolding write_and_push write ensure_write_space resize grow_size copy_in move_write_offset
write_grows = refl

line_is_taken : get_line_and_pop text ≡ ok (b'a' ∷ b'\n' ∷ [], record text { reader_idx = 2 })
unfolding get_line_and_pop get_line find_crlf index_of read_as_string move_read_offset copy_out
line_is_taken = refl

run_refines_example :
    run small (push (5 ∷ []) ∷ pop 2 ∷ pop_line ∷ wipe ∷ pop 1 ∷ [])
    ≡ spec_run (2 ∷ 3 ∷ []) (push (5 ∷ []) ∷ pop 2 ∷ pop_line ∷ wipe ∷ pop 1 ∷ [])
run_refines_example =
    run_refines (push (5 ∷ []) ∷ pop 2 ∷ pop_line ∷ wipe ∷ pop 1 ∷ []) small-IsValid (omega arith)

write_and_push_lem_example :
    (Fits small 3
      × ((b' : Buffer) × (write_and_push small (7 ∷ 8 ∷ 9 ∷ []) ≡ ok b')
          × IsValid b'
          × (contents b' ≡ 2 ∷ 3 ∷ 7 ∷ 8 ∷ 9 ∷ [])))
    ⊎ ((¬ Fits small 3) × (write_and_push small (7 ∷ 8 ∷ 9 ∷ []) ≡ fault overflow))
write_and_push_lem_example = write_and_push_lem (7 ∷ 8 ∷ 9 ∷ []) small-IsValid (omega arith)

ensure_write_space_lem_example :
    (b' : Buffer) × (ensure_write_space small 2 ≡ ok b') × Ensured small 2 b'
ensure_write_space_lem_example = ensure_write_space_lem 2 small-IsValid (omega arith)

write_buffer_and_push_lem_example :
    (b' : Buffer) × (write_buffer_and_push small self ≡ ok b')
    × IsValid b'
    × (contents b' ≡ 2 ∷ 3 ∷ 2 ∷ 3 ∷ [])
write_buffer_and_push_lem_example =
    write_buffer_and_push_lem self small-IsValid tt (inl (omega arith))

-- Half of the array is free at its front, and more is asked for than lies behind the written bytes.
block : List ℕ
block = replicate 600_000 0

length-block : length block ≡ 600_000
unfolding block
length-block = length-replicate 600_000 zero

abbrev worn : Buffer
worn = record { items = block; capacity = 600_000; reader_idx = 300_000; writer_idx = 500_000 }

worn-IsValid : IsValid worn
worn-IsValid = omega (arith, length-block)
