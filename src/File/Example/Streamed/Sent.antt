-- ===== src/File/Example/Streamed/Sent.antt =====
-- What of a table is handed to `bufferevent_write` is what the file of the table holds.
use mathlib.Core.List.{append_assoc, append-nil}
use litealigndata.Prelude.{
  ℕ, ◌+◌, ◌*◌, ◌^◌, ◌≤◌, ◌<◌, ◌≡◌, refl, sym, ap, ◌∙◌, arith, true, false, Bool, some, List, [],
  ◌∷◌, ◌++◌, length, length-append, take, take_append, u8, u64,
}
use litealigndata.Com.Text.{atoi}
use litealigndata.Struct.Objects.{Elements, Column}
use litealigndata.Struct.Sending.{Sending, send_table_data}
use litealigndata.Struct.Sending.Limit.{InOrder, delivers, send_table_data_lem}
use litealigndata.File.Example.Tables.{csv_head, table_generated_data}
use litealigndata.File.Example.Flat.{ArePlain, columns}
use litealigndata.File.Example.Fields.{FieldValue}
use litealigndata.File.Example.Rows.{AreLaid, line_text}
use litealigndata.File.Example.Lines.{
  HasRows, AreLines, file_text, encode_line, write_rows-file_text,
}
use litealigndata.File.Example.Streamed.{stream_head, stream_rows, table_generated_stream_data}

length-file_text :
    (cs : List Column) (rows : List (List FieldValue))
    → AreLines cs rows
    → length (file_text rows) ≤ 2 ^ 16 * length rows
unfolding file_text
length-file_text cs [] w = omega arith
length-file_text cs (vs ∷ rows) w =
    omega
      (arith, length-file_text cs rows w.3, length-append (line_text vs) (10 ∷ file_text rows), w.2)

abbrev measured : List ℕ → List ℕ × ℕ
measured s = (s, length s)

measured-append :
    (line rest whole : List ℕ)
    → line ++ rest ≡ whole
    → ◌≡◌ {A = List ℕ × ℕ} (line ++ rest, length line + length rest) (measured whole)
measured-append line rest whole e =
    ap (λ n. (line ++ rest, n)) (sym (length-append line rest)) ∙ ap measured e

stream_rows-file_text :
    (body : Elements) (rows : List (List FieldValue)) (id size p_data : ℕ) (mem : List ℕ)
    → ArePlain body
    → AreLaid (columns body) 0
    → id < 2
    → AreLines (columns body) rows
    → HasRows (columns body) size rows mem p_data
    → stream_rows body id size mem p_data (length rows)
      ≡ some (file_text rows, length (file_text rows))
unfolding stream_rows file_text
stream_rows-file_text body [] id size p_data mem plain l known w h = refl
stream_rows-file_text body (vs ∷ rows) id size p_data mem plain l known w h =
    let rest = stream_rows-file_text body rows id size (p_data + size) mem plain l known w.3 h.1 in
    rw (encode_line body vs id p_data mem plain l known w.0 w.1 w.2 h.0, rest)
      (ap some (
        measured-append (line_text vs ++ 10 ∷ []) (file_text rows)
          (line_text vs ++ (10 ∷ file_text rows))
          (append_assoc (line_text vs) (10 ∷ []) (file_text rows))))

-- For a table as in the reading back of its file, and a clock that does not go back or beyond
-- 2 ^ 63 microseconds: streamed without a line of names, `bufferevent_write` has taken the
-- first `bytes_sent` bytes of the file that would be written, whichever writes fail, and the whole
-- file as soon as a write succeeds at a time for which the rate allows it.
pub table_generated_stream_data-file :
    (body : Elements) (table_id : List ℕ) (entry_size : ℕ) (rows : List (List FieldValue))
    (mem : List ℕ) (turns : List (ℕ × Bool))
    → u8 (atoi table_id) < 2
    → ArePlain body
    → AreLaid (columns body) 0
    → AreLines (columns body) rows
    → length rows < 2 ^ 32
    → HasRows (columns body) entry_size rows mem 0
    → InOrder 0 turns
    → (file : List ℕ) × (s : Sending) × (table_generated_data body false table_id entry_size
          (length rows)
          mem
        ≡ some file)
      × (table_generated_stream_data body false [] table_id entry_size (length rows) mem turns
          ≡ some s)
      × (s.written ≡ take s.bytes_sent file)
      × (delivers (length file) turns ≡ true → s.written ≡ file)
unfolding table_generated_data csv_head table_generated_stream_data stream_head
table_generated_stream_data-file body table_id entry_size rows mem turns known plain laid w few h
      order =
    let id = u8 (atoi table_id) in
    let file = file_text rows in
    let wrote = write_rows-file_text body rows id entry_size 0 mem plain laid known w h in
    let streamed = stream_rows-file_text body rows id entry_size 0 mem plain laid known w h in
    let short : length file < 2 ^ 63 = omega (arith, length-file_text (columns body) rows w) in
    let fits : u64 (0 + length file) ≡ length file = omega (arith, short) in
    let whole : take (length file) file ≡ file =
      ap (take (length file)) (sym (append-nil file)) ∙ take_append file [] in
    let (given, _, complete) = send_table_data_lem file turns short order in
    (
      file,
      send_table_data file turns,
      rw wrote refl,
      rw (streamed, fits, whole) refl,
      given,
      complete,
    )
