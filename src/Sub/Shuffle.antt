-- ===== src/Sub/Shuffle.antt =====
-- `CShuffleFileLines` of src/sub/shuffle/Shuffle.cc: the lines of a mapped file are written to
-- another file in a random order. The name of that file, `mmap`, `ftruncate` and `msync` are left
-- out, and what `du` and `shuf` answer are arguments. `none` is an access beyond the mapped bytes or
-- beyond the two tables.
pub mod Xor
pub mod Swaps
pub mod Lines
use Prim.Native.Nat.{bit_xor}
use litealigndata.Prelude.{
  ℕ, zero, suc, ◌+◌, ◌-◌, ◌*◌, ◌/◌, ◌%◌, ◌^◌, Bool, true, false, Option, none, some, List, [], ◌∷◌,
  ◌++◌, ltb, ◌==◌, not, ◌&&◌, if◌then◌else◌, ◌>>=◌, get_elem?, set, length, take, drop, u32, u64,
}

-- `lineData`: where a line begins in the file, and its length with the line feed.
pub record LineData : Type 0 where
  pub ptr : ℕ
  pub len : ℕ

-- MAX_LINEDATA_DATA_BYTE / sizeof( lineData ): the lines that `lineptr` has room for. The table
-- `lineCountIndex` has room for more.
abbrev pub max_lines : ℕ
max_lines = 8 * 1024 * 1024 * 2 / 16

-- The bytes that a program can read behind `base`: the file, and zeros up to the end of the last
-- page. A file that fills its last page has nothing behind it, and the mapping of none fails.
unfoldable pub mapped : ℕ → List ℕ → Option (List ℕ)
mapped page file = if length file % page == 0 then none else some (file ++ 0 ∷ [])

-- Whether a line can be stored: the tables of `swapFileLineBymmap` are full at some time, the file
-- of `swapFileLineBymmapshuf` is not.
unfoldable pub in_tables : ℕ → Bool
in_tables line_count = ltb line_count max_lines

unfoldable pub in_file : ℕ → Bool
in_file line_count = true

-- The loop over the mapped bytes: `ptr` is the position, `point` the start of the line, `i_count`
-- the bytes of the line so far, and `line_count` the number of lines before.
unfoldable pub find_lines : (ℕ → Bool) → List ℕ → ℕ → ℕ → ℕ → ℕ → Option (List LineData)
find_lines room [] ptr point i_count line_count = none
find_lines room (zero ∷ rest) ptr point i_count line_count = some []
find_lines room (suc c ∷ rest) ptr point i_count line_count =
    let count = u32 (i_count + 1) in
    let more = find_lines room rest (ptr + 1) (ptr + 1) 0 (line_count + 1) in
    let on = find_lines room rest (ptr + 1) point count line_count in
    if suc c == 10
    then (if room line_count
        then (more >>= λ lines. some (record { ptr = point; len = count } ∷ lines))
        else none)
    else on

-- The exchange of two entries of `lineCountIndex` by three exclusive ors.
unfoldable pub xor_swap : ℕ → ℕ → List ℕ → Option (List ℕ)
xor_swap index i a = get_elem? a index >>= λ p. get_elem? a i >>= λ q.
    let first = bit_xor p q in
    let second = bit_xor first q in
    some (set (set (set a index first) i second) index (bit_xor first second))

-- `memcpy` from the file.
unfoldable pub line_bytes : List ℕ → LineData → List ℕ
line_bytes file l = take l.len (drop l.ptr file)

-- The second loop, from the line `i` on with `left` lines left: what it copies to the output. The
-- draw of a line is the `uint64_t` that `rand()*32767 + rand()` is converted to.
unfoldable pub write_lines : ℕ → ℕ → (ℕ → ℕ) → List ℕ → List LineData → List ℕ → Option (List ℕ)
unfolding line_bytes
write_lines i zero draw file lines index_of = some []
write_lines i (suc left) draw file lines index_of =
    let line_count = i + suc left in
    let index = draw i % (line_count - i) + i in
    let moved =
      if not (index == i) && ltb index line_count
      then xor_swap index i index_of
      else some index_of in
    moved >>= λ a. get_elem? a i >>= λ l. get_elem? lines l >>= λ line.
    write_lines (suc i) left draw file lines a >>= λ rest. some (line_bytes file line ++ rest)

-- `lineCountIndex[lineCount] = lineCount`, for every line.
unfoldable pub identity : ℕ → ℕ → List ℕ
identity i zero = []
identity i (suc left) = i ∷ identity (suc i) left

-- The bytes that are copied to the output, behind one another.
unfoldable pub swap_file_line_by_mmap : ℕ → (ℕ → ℕ) → List ℕ → Option (List ℕ)
swap_file_line_by_mmap page draw file = mapped page file >>= λ bytes.
    find_lines in_tables bytes 0 0 0 0 >>= λ lines.
    write_lines 0 (length lines) draw file lines (identity 0 (length lines))

-- The lines that the program `shuf` lists, behind one another.
unfoldable pub copy_lines : List ℕ → List LineData → List ℕ
unfolding line_bytes
copy_lines file [] = []
copy_lines file (line ∷ lines) = line_bytes file line ++ copy_lines file lines

-- The table of the lines is written to a file, which `shuf` brings into another order.
unfoldable pub swap_file_line_by_mmapshuf :
    ℕ → (List LineData → List LineData) → List ℕ → Option (List ℕ)
swap_file_line_by_mmapshuf page shuf file = mapped page file >>= λ bytes.
    find_lines in_file bytes 0 0 0 0 >>= λ lines. some (copy_lines file (shuf lines))

-- `swapLines` for the number of kilobytes that `du` counts: what it returns, and what the output
-- holds, where one is written.
unfoldable pub swap_lines :
    ℕ → (ℕ → ℕ) → (List LineData → List LineData) → ℕ → List ℕ → Option (ℕ × Option (List ℕ))
swap_lines page draw shuf num file =
    if ltb (2 ^ 20 * 500) num
    then some (1, none)
    else ((if ltb (2 ^ 20 * 200) num
          then swap_file_line_by_mmapshuf page shuf file
          else swap_file_line_by_mmap page draw file)
        >>= λ output. some (0, some output))
