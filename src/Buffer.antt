-- ===== src/Buffer.antt =====
-- class Buffer of source/Reactor/Buffer.hpp: a growing array of bytes with a read and a write
-- offset. A method that changes the buffer returns the new one; a failed assert and a copy outside
-- the array are faults.
pub mod Arrays
pub mod Inv
pub mod Space
pub mod Write
pub mod Read
pub mod Lines
pub mod Stream
pub mod Transfer
mod Tests
use flux_a_high_performance.Prelude.{
  ℕ, suc, ◌+◌, ◌-◌, ◌*◌, max, Bool, List, [], ◌∷◌, ◌++◌, Option, none, some, ltb, leb, ◌==◌, ◌&&◌,
  if◌then◌else◌, length, take, drop, index_of, replicate, copy_to, add64, sub64, mul64, Result, ok,
  fault, overflow, ◌>>=◌, ◌>>◌, guard,
}

abbrev pub buffer_default_size : ℕ
buffer_default_size = 1024

abbrev pub buffer_max_size : ℕ
buffer_max_size = 1024 * 1024

-- `items` and `capacity` are the size and the capacity of std::vector<char> _buffer.
pub record Buffer : Type 0 where
  pub items : List ℕ
  pub capacity : ℕ
  pub reader_idx : ℕ
  pub writer_idx : ℕ

abbrev pub size : Buffer → ℕ
size b = length b.items

-- std::vector<char>(BUFFER_DEFAULT_SIZE)
pub default_items : List ℕ
default_items = replicate buffer_default_size 0

pub empty : Buffer
empty = record {
  items = default_items;
  capacity = buffer_default_size;
  reader_idx = 0;
  writer_idx = 0;
}

abbrev pub head_idle_size : Buffer → ℕ
head_idle_size b = b.reader_idx

abbrev pub tail_idle_size : Buffer → ℕ
tail_idle_size b = sub64 (size b) b.writer_idx

abbrev pub read_able_size : Buffer → ℕ
read_able_size b = sub64 b.writer_idx b.reader_idx

pub move_read_offset : Buffer → ℕ → Result Buffer
move_read_offset b len = if len == 0 then ok b else (do
  guard (leb len (read_able_size b))
  ok (record b { reader_idx = add64 b.reader_idx len }))

pub move_write_offset : Buffer → ℕ → Result Buffer
move_write_offset b len = if len == 0 then ok b else (do
  guard (leb len (tail_idle_size b))
  ok (record b { writer_idx = add64 b.writer_idx len }))

-- std::copy of `len` bytes from index `i` of the array.
pub copy_out : List ℕ → ℕ → ℕ → Result (List ℕ)
copy_out xs i len = if leb (i + len) (length xs) then ok (take len (drop i xs)) else fault overflow

-- std::copy of bytes to index `i` of the array.
pub copy_in : List ℕ → ℕ → List ℕ → Result (List ℕ)
copy_in xs i ys = if leb (i + length ys) (length xs) then ok (copy_to xs i ys) else fault overflow

-- std::vector::resize: a larger size is filled with zeros, and a reallocation at least doubles.
pub resize : Buffer → ℕ → Buffer
resize b n = if leb n (size b) then record b { items = take n b.items } else record b {
  items = b.items ++ replicate (n - size b) 0;
  capacity = if leb n b.capacity then b.capacity else size b + max (size b) (n - size b);
}

-- The size that an expansion asks for, at most 1 MB.
pub grow_size : Buffer → ℕ → ℕ
grow_size b len =
    let new_size = max (mul64 (size b) 2) (add64 b.writer_idx len) in
    if ltb buffer_max_size new_size then buffer_max_size else new_size

-- The memmove of the readable bytes to the front.
pub compact : Buffer → Result Buffer
compact b = do
  let rsz = read_able_size b
  bytes ← copy_out b.items b.reader_idx rsz
  items ← copy_in b.items 0 bytes
  ok (record b { items = items; reader_idx = 0; writer_idx = rsz })

pub ensure_write_space : Buffer → ℕ → Result Buffer
ensure_write_space b len =
    if leb len (tail_idle_size b)
    then ok b
    else if leb len (add64 (head_idle_size b) (tail_idle_size b))
    then compact b
    else ok (resize b (grow_size b len))

pub read : Buffer → ℕ → Result (List ℕ)
read b len =
    if len == 0
    then ok []
    else (do guard (leb len (read_able_size b)); copy_out b.items b.reader_idx len)

pub read_and_pop : Buffer → ℕ → Result (List ℕ × Buffer)
read_and_pop b len = do bytes ← read b len; b' ← move_read_offset b len; ok (bytes, b')

pub read_as_string : Buffer → ℕ → Result (List ℕ)
unfolding read
read_as_string b len =
    if len == 0 then ok [] else (do guard (leb len (read_able_size b)); read b len)

pub read_as_string_and_pop : Buffer → ℕ → Result (List ℕ × Buffer)
read_as_string_and_pop b len = do
  str ← read_as_string b len
  b' ← move_read_offset b len
  ok (str, b')

pub write : Buffer → List ℕ → Result Buffer
write b bytes = if length bytes == 0 then ok b else (do
  b' ← ensure_write_space b (length bytes)
  items ← copy_in b'.items b'.writer_idx bytes
  ok (record b' { items = items }))

pub write_and_push : Buffer → List ℕ → Result Buffer
write_and_push b bytes = do b' ← write b bytes; move_write_offset b' (length bytes)

pub write_string : Buffer → List ℕ → Result Buffer
write_string b str = write b str

pub write_string_and_push : Buffer → List ℕ → Result Buffer
unfolding write_string
write_string_and_push b str = do b' ← write_string b str; move_write_offset b' (length str)

-- The buffer that WriteBuffer is given: this one, or another.
pub data Source : Type 0 where
  self : Source
  other : Buffer → Source

pub write_buffer : Buffer → Source → Result Buffer
unfolding write_string
write_buffer b self = do temp ← read_as_string b (read_able_size b); write_string b temp
write_buffer b (other d) = do
  bytes ← copy_out d.items d.reader_idx (read_able_size d)
  write b bytes

-- How much the source holds once `b` has been written.
abbrev pub source_size : Buffer → Source → ℕ
source_size b self = read_able_size b
source_size b (other d) = read_able_size d

pub write_buffer_and_push : Buffer → Source → Result Buffer
write_buffer_and_push b source = do
  b' ← write_buffer b source
  move_write_offset b' (source_size b' source)

pub find_crlf : Buffer → Option ℕ
find_crlf b = index_of b'\n' (take (read_able_size b) (drop b.reader_idx b.items))

-- The first line with its line break, or nothing.
pub get_line : Buffer → Result (List ℕ)
get_line b = elim (find_crlf b) [ none ↦ ok [] | some pos ↦ read_as_string b (add64 pos 1) ]

pub get_line_and_pop : Buffer → Result (List ℕ × Buffer)
get_line_and_pop b = do str ← get_line b; b' ← move_read_offset b (length str); ok (str, b')

pub clear : Buffer → Buffer
clear b =
    let b' = record b { reader_idx = 0; writer_idx = 0 } in
    if ltb buffer_default_size b'.capacity && (read_able_size b' == 0)
    then record b' { items = default_items; capacity = buffer_default_size }
    else b'
