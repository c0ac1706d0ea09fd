-- ===== src/File/Example/RoundTrip.antt =====
-- A whole table that is written to a file and read again.
use mathlib.Core.Path.{subst}
use litealigndata.Prelude.{
  ℕ, ◌+◌, ◌*◌, ◌^◌, ◌≤◌, ◌<◌, ◌≡◌, ◌≢◌, refl, ap, ◌∙◌, inl, arith, true, false, Option, some, List,
  [], ◌∷◌, ◌++◌, ◌==◌, length, get_elem?, map, replicate, length-replicate, u8, u32,
}
use litealigndata.Com.Text.{atoi}
use litealigndata.Struct.Objects.{Column, Elements}
use litealigndata.File.Example.{format}
use litealigndata.File.Example.Reading.{Cursor, example_parse_one_line}
use litealigndata.File.Example.Tables.{table_generated_data, csv_head, read_lines, read_data}
use litealigndata.File.Example.Flat.{ArePlain, columns, entry_all-columns}
use litealigndata.File.Example.Fields.{FieldValue, width, Agree, HasValue-Agree}
use litealigndata.File.Example.Rows.{
  AreLaid, row_width, AreWritable, HasRow, line_text, IsRowKept, entry_row,
}
use litealigndata.File.Example.Lines.{
  HasRows, AreLines, file_text, table_test, write_rows-file_text, lines_of-file_text,
}

parse_line :
    (body : Elements) (vs : List FieldValue) (id p_data : ℕ) (mem : List ℕ)
    → ArePlain body
    → id < 2
    → AreWritable (columns body) vs
    → p_data + row_width (columns body) ≤ length mem
    → (after : List ℕ) × (example_parse_one_line body id (line_text vs) mem p_data
        ≡ some (after, p_data + row_width (columns body)))
      × IsRowKept (columns body) vs p_data mem after
unfolding example_parse_one_line
parse_line body vs id p_data mem plain known w fits =
    let cur : Cursor = record { mem = mem; p_data = p_data; pos = 0 } in
    let (after, end, pos, stop, found, r) =
      entry_row (columns body) vs (line_text vs) [] cur refl refl w fits in
    (
      after,
      rw (table_test id known, entry_all-columns body (line_text vs) cur plain, found, stop) refl,
      r,
    )

HasRow-Agree :
    (cs : List Column) (vs : List FieldValue) (addr : ℕ) (mem mem' : List ℕ)
    → Agree addr (row_width cs) mem mem'
    → HasRow cs vs mem addr
    → HasRow cs vs mem' addr
HasRow-Agree [] [] addr mem mem' a h = tt
HasRow-Agree [] (v ∷ vs) addr mem mem' a h = h
HasRow-Agree (c ∷ cs) [] addr mem mem' a h = h
HasRow-Agree (c ∷ cs) (v ∷ vs) addr mem mem' a h = (
  HasValue-Agree (format c) v addr mem mem' (λ j lt. a j (omega arith)) h.0,
  HasRow-Agree cs vs (addr + width (format c)) mem mem'
      (λ j lt.
        let e : addr + width (format c) + j ≡ addr + (width (format c) + j) = omega arith in
        rw e (a (width (format c) + j) (omega arith)))
      h.1,
)

-- The rows from the address on are there, and what stood before them still does.
record AreRead (cs : List Column) (size : ℕ) (rows : List (List FieldValue)) (addr : ℕ)
    (mem after : List ℕ) : Type 0 where
  values : HasRows cs size rows after addr
  before : (i : ℕ) → i < addr → get_elem? after i ≡ get_elem? mem i

-- A line that is not empty is parsed, and then the others.
read_some :
    (body : Elements) (id : ℕ) (line : List ℕ) (rest : List (List ℕ)) (mem mid : List ℕ)
    (p_data i c : ℕ) {q : ℕ} {result : Option (List ℕ × ℕ)}
    → line ≢ []
    → example_parse_one_line body id line mem p_data ≡ some (mid, q)
    → u32 (i + 1) ≡ c
    → read_lines body id rest mid q c ≡ result
    → read_lines body id (line ∷ rest) mem p_data i ≡ result
unfolding read_lines
read_some body id [] rest mem mid p_data i c ne e g f = absurd (ne refl)
read_some body id (x ∷ line) rest mem mid p_data i c ne e g f = rw (e, g) f

read_lines-AreRead :
    (body : Elements) (rows : List (List FieldValue)) (id p_data i total : ℕ) (mem : List ℕ)
    → ArePlain body
    → id < 2
    → AreLines (columns body) rows
    → p_data + length rows * row_width (columns body) ≤ length mem
    → i + length rows ≡ total
    → total < 2 ^ 32
    → (after : List ℕ) × (read_lines body id (map line_text rows ++ [] ∷ []) mem p_data i
        ≡ some (after, total))
      × AreRead (columns body) (row_width (columns body)) rows p_data mem after
unfolding read_lines
read_lines-AreRead body [] id p_data i total mem plain known w fits sum few =
    (mem, ap (λ n. some (mem, n)) (omega arith), record { values = tt; before = λ j lt. refl })
read_lines-AreRead body (vs ∷ rows) id p_data i total mem plain known w fits sum few =
    let size = row_width (columns body) in
    let (mid, parsed, k) = parse_line body vs id p_data mem plain known w.0 (grind arith) in
    let next : u32 (i + 1) ≡ i + 1 = omega arith in
    let (after, found, r) =
      read_lines-AreRead body rows id (p_data + size) (i + 1) total mid plain known w.3
        (omega (arith, k.same_length)) (omega arith) few in
    (
      after,
      read_some body id (line_text vs) (map line_text rows ++ [] ∷ []) mem mid p_data i (i + 1) w.1
          parsed next found,
      record {
        values = (
          HasRow-Agree (columns body) vs p_data mid after
              (λ j lt. r.before (p_data + j) (omega arith)) k.values,
          r.values,
        );
        before = λ j lt. r.before j (omega arith) ∙ k.outside j (inl lt);
      },
    )

-- For a table with one of the example's two numbers, and a body without unions whose columns stand
-- one behind the other in an entry, all of types that the format writes: when no line is empty or
-- longer than 65535 bytes, and the table has less than 2 ^ 32 bytes and rows, then the file that is
-- written without a line of names is read again, and each row of the data read has the values of
-- the table's row. The numbers are below 2 ^ 63, and the texts shorter than 256 characters, without
-- commas and line feeds.
pub read_data-table_generated_data :
    (body : Elements) (table_id : List ℕ) (entry_size : ℕ) (rows : List (List FieldValue))
    (mem : List ℕ)
    → u8 (atoi table_id) < 2
    → ArePlain body
    → AreLaid (columns body) 0
    → row_width (columns body) ≡ entry_size
    → AreLines (columns body) rows
    → length rows < 2 ^ 32
    → length rows * entry_size < 2 ^ 32
    → HasRows (columns body) entry_size rows mem 0
    → (file after : List ℕ) × (table_generated_data body false table_id entry_size (length rows) mem
        ≡ some file)
      × (read_data body table_id (length rows) entry_size file ≡ some (after, true))
      × HasRows (columns body) entry_size rows after 0
unfolding table_generated_data csv_head read_data
read_data-table_generated_data body table_id entry_size rows mem known plain laid size w few small
      h =
    let id = u8 (atoi table_id) in
    let fits : u32 (length rows * entry_size) ≡ length rows * entry_size = omega arith in
    let zeros : List ℕ = replicate (u32 (length rows * entry_size)) 0 in
    let wrote = write_rows-file_text body rows id entry_size 0 mem plain laid known w h in
    let (after, found, r) =
      read_lines-AreRead body rows id 0 0 (length rows) zeros plain known w
        (omega (
          arith,
          fits,
          length-replicate {A = ℕ} (u32 (length rows * entry_size)) 0,
          ap (λ n. length rows * n) size,
        ))
        (omega arith) few in
    let same : length rows == length rows ≡ true = ground arith in
    (
      file_text rows,
      after,
      rw wrote refl,
      rw (lines_of-file_text (columns body) rows w, found, same) refl,
      subst (λ n. HasRows (columns body) n rows after 0) size r.values,
    )
