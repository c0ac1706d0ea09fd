-- ===== src/File/Example/Streamed.antt =====
-- `TableGeneratedStreamData` of src/file/Example/Example.cc: the text of a table, which
-- `SendTableData` sends. The names of the objects that stand in the body are an argument.
pub mod Sent
use litealigndata.Prelude.{
  ℕ, zero, suc, ◌+◌, Bool, Option, none, some, List, [], ◌∷◌, ◌++◌, if◌then◌else◌, ◌>>=◌, length,
  take, u8, u16, u64,
}
use litealigndata.Com.Text.{atoi}
use litealigndata.Struct.Objects.{Elements}
use litealigndata.Struct.Sending.{Sending, send_table_data}
use litealigndata.File.Example.Tables.{end_line, example_encode_data}

-- `encodedStr = encodedStr + (*it)->getObjectName() + ","` over the body's objects.
unfoldable pub object_names : List (List ℕ) → List ℕ
object_names [] = []
object_names (name ∷ names) = name ++ (b',' ∷ object_names names)

-- The text and `total_len` behind the names.
unfoldable pub stream_head : Bool → List (List ℕ) → Option (List ℕ × ℕ)
unfolding object_names
stream_head csvhead_flag names =
    if csvhead_flag
    then (end_line (object_names names) >>= λ line. some (line, u16 (length line)))
    else some ([], 0)

-- The loop over the rows, `left` to go: what is added to `total_str` and to `total_len`.
unfoldable pub stream_rows : Elements → ℕ → ℕ → List ℕ → ℕ → ℕ → Option (List ℕ × ℕ)
stream_rows body table_id entry_size mem p_dr_table zero = some ([], 0)
stream_rows body table_id entry_size mem p_dr_table (suc left) =
    example_encode_data body p_dr_table mem table_id >>= λ r.
    stream_rows body table_id entry_size mem (p_dr_table + entry_size) left >>= λ rest.
    some (r.0 ++ rest.0, r.1 + rest.1)

-- The `total_len` bytes that `ptr` points to are sent, over the turns of `SendTableData`.
unfoldable pub table_generated_stream_data :
    Elements → Bool → List (List ℕ) → List ℕ → ℕ → ℕ → List ℕ → List (ℕ × Bool) → Option Sending
unfolding stream_head stream_rows
table_generated_stream_data body csvhead_flag names get_table_id entry_size row_num mem turns =
    stream_head csvhead_flag names >>= λ head.
    stream_rows body (u8 (atoi get_table_id)) entry_size mem 0 row_num >>= λ rows.
    some (send_table_data (take (u64 (head.1 + rows.1)) (head.0 ++ rows.0)) turns)
