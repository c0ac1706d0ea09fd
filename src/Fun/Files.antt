-- ===== src/Fun/Files.antt =====
-- Rows out of several dimension files: the parts of `RandomFunc` in src/fun/BaseFuncClass.cc for
-- the random type MultiFile, and `FileRandomCalculate`.
pub mod Shuffles
pub mod Windows
pub mod Rounds
use litealigndata.Prelude.{
  ℕ, zero, suc, ◌+◌, ◌-◌, ◌%◌, Bool, true, false, Option, none, some, List, [], ◌∷◌, leb, ltb, ◌==◌,
  not, ◌||◌, ◌&&◌, if◌then◌else◌, ◌>>=◌, get_elem?, set, length, u8, u32,
}
use litealigndata.Com.Clock.{randnumer}

-- `tmp = a[i]; a[i] = a[index]; a[index] = tmp`; an index outside the array is `none`.
unfoldable pub swap : List ℕ → ℕ → ℕ → Option (List ℕ)
swap a i index =
    get_elem? a i >>= λ tmp. get_elem? a index >>= λ v. some (set (set a i v) index tmp)

-- `RandomArray`, from the index `i` on with `left` elements left, for the draws of `rand()`.
unfoldable pub random_array : ℕ → ℕ → (ℕ → ℕ) → List ℕ → Option (List ℕ)
random_array i zero rand a = some a
random_array i (suc left) rand a =
    let n = i + suc left in
    let index = rand i % (n - i) + i in
    let moved = if not (index == i) && ltb index n then swap a i index else some a in
    moved >>= λ b. random_array (suc i) left rand b

-- `randomArr[i + total_percentage] = fileIdx`, `left` times.
unfoldable pub write_run : List ℕ → ℕ → ℕ → ℕ → Option (List ℕ)
write_run a pos file zero = some a
write_run a pos file (suc left) =
    if ltb pos (length a) then write_run (set a pos file) (suc pos) file left else none

-- The loop over the files' percentages, with its `uint8_t` sum and file index.
unfoldable pub fill_files : List ℕ → ℕ → ℕ → List ℕ → Option (List ℕ × ℕ)
fill_files a total file [] = some (a, total)
fill_files a total file (percentage ∷ rest) = write_run a total file percentage >>= λ b.
    fill_files b (u8 (total + percentage)) (u8 (file + 1)) rest

-- The end of `process`: the array of file indices, and whether the percentages are valid.
unfoldable pub file_array : (ℕ → ℕ) → List ℕ → List ℕ → Option (List ℕ × Bool)
file_array rand percentages a = fill_files a 0 0 percentages >>= λ f.
    random_array 0 100 rand f.0 >>= λ b. some (b, (length percentages == 0) || (f.1 == 100))

-- The rows of a dimension file that a column uses: the fields of `DependencyInfo` for them.
pub record Rows : Type 0 where
  pub init_row : ℕ
  pub end_row : ℕ
  pub number : ℕ
  pub last_number : ℕ

-- `fillDimensionInfo` for a file of `maxsize` rows, which are not none, and a draw of `rand()`.
unfoldable pub fill_dimension_info : ℕ → ℕ → Rows → Rows
fill_dimension_info maxsize rand info =
    let init_row = rand % maxsize in
    let number = if (info.number == 0) || ltb maxsize info.number then maxsize else info.number in
    record {
      init_row = init_row;
      end_row = u32 (init_row + number) % maxsize;
      number = number;
      last_number = init_row;
    }

-- The row that `MultiFileRandomCalculate` takes from a file of `dim_file_size` rows, and the
-- fields behind it.
unfoldable pub next_row : ℕ → Rows → ℕ × Rows
next_row dim_file_size info =
    let last = if info.last_number == info.end_row then info.init_row else info.last_number in
    let rowidx = if last == dim_file_size then 0 else last in
    (rowidx, record info { last_number = u32 (rowidx + 1) })

-- The file that a row takes: the next entry of the array, which is read in a circle.
unfoldable pub next_file : List ℕ → ℕ → Option (ℕ × ℕ)
next_file random_arr index = get_elem? random_arr index >>= λ file.
    some (file, if u32 (index + 1) == 100 then 0 else u32 (index + 1))

-- The row that `FileRandomCalculate` takes from a file of `size` rows, and the bounds that it
-- keeps; a file of no rows is refused before. `none` is the division by zero of `randnumer`.
unfoldable pub file_row : ℕ → ℕ → ℕ → ℕ → ℕ → Option (ℕ × ℕ × ℕ)
file_row rand_max drawn size low high =
    let maxsize = size - 1 in
    let low_range = if leb maxsize low then maxsize else low in
    let high_range = if leb maxsize high || (high == 0) then maxsize else high in
    randnumer rand_max drawn low_range high_range >>= λ r. some (u32 r, low_range, high_range)
