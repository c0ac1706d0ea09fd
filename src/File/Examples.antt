-- ===== src/File/Examples.antt =====
-- Runs of the theorems about the example format.
use litealigndata.Prelude.{
  Bool, take, ℕ, ◌+◌, ap, u8, ◌<◌, ◌≡◌, refl, false, true, some, List, [], ◌∷◌, ◌++◌, codes, length,
  replicate, arith,
}
use litealigndata.Com.Text.{atoi, atol, signed_decimal, skip_space}
use litealigndata.Com.Types.{find_nameautotype}
use litealigndata.Com.Value.{to_string}
use litealigndata.File.Example.Rows.{line_text}
use litealigndata.Struct.Objects.{Column, Elements, column, structure, nil, cons}
use litealigndata.Com.Bytes.{read_le}
use litealigndata.File.Example.{format, copied_text}
use litealigndata.File.Example.Tables.{table_generated_data, read_data}
use litealigndata.File.Example.Flat.{columns}
use litealigndata.File.Example.Fields.{IsPlainText, FieldValue, num, chars}
use litealigndata.File.Example.Lines.{AreLines, HasRows}
use litealigndata.Struct.Sending.{Sending}
use litealigndata.Struct.Sending.Limit.{InOrder, none_left, next_turn, delivers}
use litealigndata.File.Example.Streamed.{table_generated_stream_data}
use litealigndata.File.Example.Streamed.Sent.{table_generated_stream_data-file}
use litealigndata.File.Example.RoundTrip.{read_data-table_generated_data}

abbrev of_type : List ℕ → ℕ → ℕ → Column
of_type type offset len = record {
  name = codes "c";
  type = type;
  union_flag = false;
  offset = offset;
  len = len;
}

-- A number and a text in a structure.
abbrev body_of_two : Elements
body_of_two =
    cons
      (structure (record { name = codes "BodyData"; offset = 0; len = 264; column_no = 2 })
        (cons (column (of_type (codes "AUTO_UINT64") 0 8))
          (cons (column (of_type (codes "AUTO_STRING") 8 256)) nil)))
      nil

abbrev two_rows : List (List FieldValue)
two_rows = (num 258 ∷ chars (codes "hi") ∷ []) ∷ (num 0 ∷ chars [] ∷ []) ∷ []

abbrev two_rows_bytes : List ℕ
two_rows_bytes = 2 ∷ 1 ∷ replicate 6 0 ++ (codes "hi" ++ replicate (254 + 264) 0)

two_rows-HasRows : HasRows (columns body_of_two) 264 two_rows two_rows_bytes 0
unfolding format read_le copied_text find_nameautotype
two_rows-HasRows = ((refl, (refl, tt)), ((refl, (refl, tt)), tt))

hi-IsPlainText : IsPlainText (codes "hi")
hi-IsPlainText =
    ((omega arith), (omega arith), (omega arith), ((omega arith), (omega arith), (omega arith), tt))

known : u8 (atoi (codes "1")) < 2
unfolding atoi atol signed_decimal skip_space
known = omega arith

two_rows-AreLines : AreLines (columns body_of_two) two_rows
unfolding format find_nameautotype line_text to_string
two_rows-AreLines = (
  ((omega arith), ((hi-IsPlainText, (omega arith)), tt)),
  (λ e. absurd (omega (arith, ap length e))),
  (omega arith),
  (
    ((omega arith), ((tt, (omega arith)), tt)),
    (λ e. absurd (omega (arith, ap length e))),
    (omega arith),
    tt,
  ),
)

read_data-table_generated_data_example :
    (file after : List ℕ) × (table_generated_data body_of_two false
        (codes "1")
        264
        (length two_rows)
        two_rows_bytes
      ≡ some file)
    × (read_data body_of_two (codes "1") (length two_rows) 264 file ≡ some (after, true))
    × HasRows (columns body_of_two) 264 two_rows after 0
unfolding format find_nameautotype
read_data-table_generated_data_example =
    read_data-table_generated_data body_of_two (codes "1") 264 two_rows two_rows_bytes known
      ((refl, (refl, tt)), tt) (refl, (refl, tt)) refl two_rows-AreLines (omega arith) (omega arith)
      two_rows-HasRows

-- A turn too early, a failure, a part and the rest.
abbrev turns : List (ℕ × Bool)
turns = (0, true) ∷ (3, false) ∷ (4, true) ∷ (900, true) ∷ []

turns-InOrder : InOrder 0 turns
turns-InOrder = next_turn (omega arith) (omega arith) (
    next_turn (omega arith) (omega arith)
      (next_turn (omega arith) (omega arith) (next_turn (omega arith) (omega arith) none_left)))

table_generated_stream_data-file_example :
    (file : List ℕ) × (s : Sending) × (table_generated_data body_of_two false
        (codes "1")
        264
        (length two_rows)
        two_rows_bytes
      ≡ some file)
    × (table_generated_stream_data body_of_two false []
          (codes "1")
          264
          (length two_rows)
          two_rows_bytes
          turns
        ≡ some s)
    × (s.written ≡ take s.bytes_sent file)
    × (delivers (length file) turns ≡ true → s.written ≡ file)
unfolding format find_nameautotype
table_generated_stream_data-file_example =
    table_generated_stream_data-file body_of_two (codes "1") 264 two_rows two_rows_bytes turns known
      ((refl, (refl, tt)), tt) (refl, (refl, tt)) two_rows-AreLines (omega arith) two_rows-HasRows
      turns-InOrder
