-- ===== src/Struct/Examples.antt =====
-- Runs of the theorems about the objects in src/struct.
use litealigndata.Prelude.{
  ℕ, Bool, ◌*◌, ◌%◌, ◌≤◌, ◌<◌, ◌≡◌, ◌≢◌, true, false, some, List, [], ◌∷◌, arith, length, take,
  get_elem?,
}
use litealigndata.Struct.Rows.{adpt_row_and_file, fill_table}
use litealigndata.Struct.Rows.Splitting.{adpt_row_and_file_lem}
use litealigndata.Struct.Rows.Filling.{fill_table-circle}
use litealigndata.Struct.Sending.{send_table_data, send_bit_rate}
use litealigndata.Struct.Sending.Limit.{
  InOrder, none_left, next_turn, last_time, delivers, send_table_data_lem,
}

adpt_row_and_file_lem_example :
    (rows files : ℕ) × (adpt_row_and_file 12 5 7 ≡ some (rows, files))
    × (rows * files ≡ 12 * 5)
    × (12 % rows ≡ 0)
    × (rows ≤ 7)
    × ((d : ℕ) → rows < d → d ≤ 7 → 12 % d ≢ 0)
adpt_row_and_file_lem_example =
    adpt_row_and_file_lem 12 5 7 (omega arith) (omega arith) (omega arith) (omega arith)

abbrev three_rows : List ℕ
three_rows = 1 ∷ 2 ∷ 3 ∷ []

fill_table-circle_example :
    let rows = fill_table three_rows 3 3 8 in
    (length rows ≡ 8) × ((i : ℕ) → i < 8 → get_elem? rows i ≡ get_elem? three_rows (i % 3))
fill_table-circle_example =
    fill_table-circle three_rows 3 8 (omega arith) (omega arith) (omega arith) (omega arith)

-- A turn too early, a part, a failure, and the rest.
abbrev four_turns : List (ℕ × Bool)
four_turns = (0, true) ∷ (2, true) ∷ (3, false) ∷ (9, true) ∷ []

four_turns-InOrder : InOrder 0 four_turns
four_turns-InOrder = next_turn (omega arith) (omega arith) (
    next_turn (omega arith) (omega arith)
      (next_turn (omega arith) (omega arith) (next_turn (omega arith) (omega arith) none_left)))

send_table_data_lem_example :
    let s = send_table_data (7 ∷ 8 ∷ 9 ∷ []) four_turns in
    (s.written ≡ take s.bytes_sent (7 ∷ 8 ∷ 9 ∷ []))
    × (s.bytes_sent ≤ send_bit_rate * last_time 0 four_turns)
    × (delivers 3 four_turns ≡ true → s.written ≡ 7 ∷ 8 ∷ 9 ∷ [])
send_table_data_lem_example =
    send_table_data_lem (7 ∷ 8 ∷ 9 ∷ []) four_turns (omega arith) four_turns-InOrder
