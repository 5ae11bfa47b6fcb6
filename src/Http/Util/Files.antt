-- ===== src/Http/Util/Files.antt =====
-- The files of class Util of source/Http/http.hpp: ReadFile, WriteFile, IsDirectory and IsRegular. What
-- the streams and stat answer is an argument.
use flux_a_high_performance.Prelude.{
  ℕ, ◌/◌, ◌%◌, ◌^◌, ◌≡◌, refl, ap, Bool, true, false, List, [], ◌∷◌, ◌++◌, Option, none, some, ◌==◌,
  length, take, replicate, copy_to, length-append, length-take, length-replicate, take-all, arith,
}

-- A std::ifstream that is open: the position of its end, which is the size of a string, the bytes that
-- its read stores, and whether it is good then.
pub record Ifstream : Type 0 where
  pub size : ℕ
  pub bytes : List ℕ
  pub good : Bool

-- A file that is read whole.
abbrev pub whole : List ℕ → Ifstream
whole bytes = record { size = length bytes; bytes = bytes; good = true }

-- std::string::resize.
unfoldable pub resized : List ℕ → ℕ → List ℕ
resized buf n = take n (buf ++ replicate n 0)

-- `none`: the file cannot be opened. The result, and the string with what read has stored in front.
unfoldable pub read_file : Option Ifstream → List ℕ → Bool × List ℕ
unfolding resized
read_file none buf = (false, buf)
read_file (some ifs) buf = (ifs.good, copy_to (resized buf ifs.size) 0 (take ifs.size ifs.bytes))

-- Of a std::ofstream: whether it is open, and whether it is good after the write.
pub write_file : Option Bool → Bool
write_file none = false
write_file (some good) = good

-- st_mode of stat, if it succeeds; the type of a file stands in four bits.
abbrev file_type : ℕ → ℕ
file_type mode = mode / 2 ^ 12 % 16

unfoldable pub is_directory : Option ℕ → Bool
is_directory none = false
is_directory (some mode) = file_type mode == 4

unfoldable pub is_regular : Option ℕ → Bool
is_regular none = false
is_regular (some mode) = file_type mode == 8

copy_to-all : (xs ys : List ℕ) → length xs ≡ length ys → copy_to xs 0 ys ≡ ys
copy_to-all [] [] h = refl
copy_to-all [] (y ∷ ys) h = absurd (omega arith)
copy_to-all (x ∷ xs) [] h = absurd (omega arith)
copy_to-all (x ∷ xs) (y ∷ ys) h = ap (λ r. y ∷ r) (copy_to-all xs ys (omega arith))

length-resized : (buf : List ℕ) (n : ℕ) → length (resized buf n) ≡ n
unfolding resized
length-resized buf n =
    let filled = buf ++ replicate n 0 in
    omega (
      arith,
      length-take n filled,
      length-append buf (replicate n 0),
      length-replicate n (let z : ℕ = 0 in z),
    )

-- ReadFile of a file that is read whole stores its bytes and nothing else, whatever the string held.
pub read_file-whole : (bytes buf : List ℕ) → read_file (some (whole bytes)) buf ≡ (true, bytes)
unfolding read_file
read_file-whole bytes buf = rw (take-all (length bytes) bytes (omega arith)) (
    ap (λ stored. (true, stored))
      (copy_to-all (resized buf (length bytes)) bytes (length-resized buf (length bytes))))

-- No file is both.
is_regular-is_directory : (st : Option ℕ) → is_regular st ≡ true → is_directory st ≡ false
unfolding is_regular is_directory
is_regular-is_directory none h = refl
is_regular-is_directory (some mode) h = ground arith
