-- ===== src/File/Example/Tables.antt =====
-- Whole tables in src/file/Example/Example.cc: `TableGeneratedData` writes them, `ReadData` reads them.
use litealigndata.Prelude.{
  ℕ, zero, suc, ◌+◌, ◌*◌, Bool, Option, none, some, List, [], ◌∷◌, ◌++◌, ◌==◌, ◌||◌, if◌then◌else◌,
  ◌>>=◌, length, take, replicate, u8, u16, u32,
}
use litealigndata.Com.Text.{atoi}
use litealigndata.Struct.Objects.{Element, column, structure, union, other, Elements, nil, cons}
use litealigndata.File.Example.{write_all}
use litealigndata.File.Example.Reading.{example_parse_one_line}

-- `encodedStr.replace(encodedStr.size() - 1, 1, "\n")`, which throws for an empty text.
unfoldable pub end_line : List ℕ → Option (List ℕ)
end_line [] = none
end_line (c ∷ []) = some (10 ∷ [])
end_line (c ∷ d ∷ s) = end_line (d ∷ s) >>= λ r. some (c ∷ r)

-- `example_encode_data`: the text, and its length as a `uint16_t`. A table with another number has
-- no text.
unfoldable pub example_encode_data : Elements → ℕ → List ℕ → ℕ → Option (List ℕ × ℕ)
unfolding end_line
example_encode_data body p_dr_table mem table_id =
    if (table_id == 0) || (table_id == 1)
    then (write_all body p_dr_table mem [] >>= λ s.
        end_line s >>= λ line. some (line, u16 (length line)))
    else some ([], 0)

-- `WriteColumnName`: of a union the first member's name is written.
unfoldable mutual
  write_column_name : Element → (List ℕ → Option (List ℕ)) → List ℕ → Option (List ℕ)
  write_column_name (column c) next encoded =
      let text = encoded ++ (c.name ++ b',' ∷ []) in if c.union_flag then next text else some text
  write_column_name (structure g kids) next encoded = write_names kids encoded
  write_column_name (union g kids) next encoded = write_first_name kids encoded
  write_column_name other next encoded = some encoded

  write_first_name : Elements → List ℕ → Option (List ℕ)
  write_first_name nil encoded = none
  write_first_name (cons e rest) encoded = write_column_name e (write_first_name rest) encoded

  write_names : Elements → List ℕ → Option (List ℕ)
  write_names nil encoded = some encoded
  write_names (cons e rest) encoded =
      write_column_name e (write_first_name rest) encoded >>= λ r. write_names rest r

-- The line of the column names, where the table has one.
unfoldable pub csv_head : Bool → Elements → Option (List ℕ)
unfolding write_column_name end_line
csv_head csvhead_flag body =
    if csvhead_flag then (write_names body [] >>= λ s. end_line s) else some []

-- The loop of `TableGeneratedData` over the rows, `left` to go: what is written to the file.
unfoldable pub write_rows : Elements → ℕ → ℕ → List ℕ → ℕ → ℕ → Option (List ℕ)
unfolding example_encode_data
write_rows body table_id entry_size mem p_dr_table zero = some []
write_rows body table_id entry_size mem p_dr_table (suc left) =
    example_encode_data body p_dr_table mem table_id >>= λ r.
    write_rows body table_id entry_size mem (p_dr_table + entry_size) left >>= λ rest.
    some (take r.1 r.0 ++ rest)

unfoldable pub table_generated_data : Elements → Bool → List ℕ → ℕ → ℕ → List ℕ → Option (List ℕ)
unfolding csv_head write_rows
table_generated_data body csvhead_flag get_table_id entry_size row_num mem =
    csv_head csvhead_flag body >>= λ head.
    write_rows body (u8 (atoi get_table_id)) entry_size mem 0 row_num >>= λ rows.
    some (head ++ rows)

-- What `getline` returns until the end of the file: the pieces between the line feeds.
unfoldable pub lines_of : List ℕ → List ℕ → List (List ℕ)
lines_of piece [] = piece ∷ []
lines_of piece (c ∷ s) =
    let rest = lines_of [] s in
    let on = lines_of (piece ++ c ∷ []) s in if c == 10 then piece ∷ rest else on

-- The loop of `ReadData`, which ends at an empty line: the memory, and the number of lines.
unfoldable pub read_lines : Elements → ℕ → List (List ℕ) → List ℕ → ℕ → ℕ → Option (List ℕ × ℕ)
read_lines body table_id [] mem item_data i = some (mem, i)
read_lines body table_id ([] ∷ rest) mem item_data i = some (mem, i)
read_lines body table_id ((c ∷ line) ∷ rest) mem item_data i =
    example_parse_one_line body table_id (c ∷ line) mem item_data >>= λ r.
    read_lines body table_id rest r.0 r.1 (u32 (i + 1))

-- `ReadData`, where the file opens and the memory is there: the data, and whether the number of lines
-- is the table's.
unfoldable pub read_data : Elements → List ℕ → ℕ → ℕ → List ℕ → Option (List ℕ × Bool)
unfolding lines_of read_lines
read_data body table_id num_entries entry_size file =
    read_lines body (u8 (atoi table_id)) (lines_of [] file)
      (replicate (u32 (num_entries * entry_size)) 0) 0 0
    >>= λ r. some (r.0, r.1 == num_entries)
