-- ===== src/Struct/Rows.antt =====
-- How `CTableObject` in src/struct/TableObject.cc splits a table's rows over files, and how it fills
-- the rows from a seed file.
pub mod Splitting
pub mod Filling
use litealigndata.Prelude.{
  ℕ, zero, suc, ◌+◌, ◌-◌, ◌*◌, ◌/◌, ◌%◌, Bool, true, false, Option, none, some, List, [], ◌∷◌, ◌++◌,
  ltb, ◌==◌, if◌then◌else◌, ◌^◌, take, u32, u64,
}

-- `for (unsigned i = max_row_num; 0 < i; i--)`: the first `i` that divides the rows, or all rows.
unfoldable pub adapted_row_num : ℕ → ℕ → ℕ
adapted_row_num origin zero = origin
adapted_row_num origin (suc i) =
    let rest = adapted_row_num origin i in if origin % suc i == 0 then suc i else rest

-- `adpt_row_and_file` with the rows of one read as the limit: the rows per file and the files. The
-- division by the rows of a file is by zero for a table of no rows, which is `none`.
unfoldable pub adpt_row_and_file : ℕ → ℕ → ℕ → Option (ℕ × ℕ)
adpt_row_and_file row_num file_num row_num_each_time_read =
    let max_row_num = u32 row_num_each_time_read in
    let adapted =
      if ltb max_row_num row_num then adapted_row_num row_num max_row_num else row_num in
    if adapted == 0 then none else some (adapted, u64 (row_num * file_num) / adapted)

-- `adpt_row_and_file` with the limit of 100000 rows.
unfoldable pub adpt_row_and_file_default : ℕ → ℕ → Option (ℕ × ℕ)
adpt_row_and_file_default row_num file_num = adpt_row_and_file row_num file_num (100 * 1000)

-- The copy loop of `fillAlltheTableData` in rows, for the attribute "false": `rownum` rows of the
-- seed file at a time, of which the last time takes only the rest. `seed` holds the rows that
-- `Getbody` points to; the loop ends when `rowcopyed` reaches the table's rows.
unfoldable pub copy_rows {ℓ} : {A : Type ℓ} → ℕ → List A → ℕ → ℕ → ℕ → ℕ → List A
copy_rows zero seed seedfilenum m_rownum rowcopyed rownum = []
copy_rows (suc fuel) seed seedfilenum m_rownum rowcopyed rownum =
    let copied = u64 (rowcopyed + rownum) in
    let left = u32 (u64 (m_rownum + (2 ^ 64 - copied))) in
    let next = if ltb seedfilenum left then seedfilenum else left in
    let rest = copy_rows fuel seed seedfilenum m_rownum copied next in
    if ltb rowcopyed m_rownum then take rownum seed ++ rest else []

-- `fillAlltheTableData` for the attribute "false", for a seed file with rows. Every turn but the
-- first copies a row at least, so that there is fuel for all turns.
unfoldable pub fill_table {ℓ} : {A : Type ℓ} → List A → ℕ → ℕ → ℕ → List A
fill_table seed seedfilenum num_entries m_rownum =
    copy_rows (suc m_rownum) seed seedfilenum m_rownum 0
      (if ltb num_entries seedfilenum then num_entries else seedfilenum)
