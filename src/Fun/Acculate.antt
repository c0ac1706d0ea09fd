-- ===== src/Fun/Acculate.antt =====
-- `AcculateFunc` of src/fun/BaseFuncClass.h and BaseFuncClass.cc: numbers that count up through a
-- range.
pub mod Sequence
use litealigndata.Prelude.{
  ℕ, ◌+◌, ◌-◌, ◌*◌, ◌/◌, ◌%◌, ◌^◌, Bool, true, false, not, ◌&&◌, Option, none, some, List, [], ltb,
  ◌==◌, if◌then◌else◌, ◌>>=◌, u32, u64,
}
use litealigndata.Com.Value.{AutoValue}
use litealigndata.Fun.Base.{x_value, set_value}

-- The fields that `process` sets: `duplicated_unit` is `m_duplicatedUnit`.
pub record Settings : Type 0 where
  pub low_range : ℕ
  pub high_range : ℕ
  pub init : ℕ
  pub step : ℕ
  pub duplicated_unit : ℕ
  pub is_reset : ℕ
  pub percent : ℕ
  pub rows_in_batch : ℕ
  pub percent_in_batch : ℕ

-- The fields that `Calculate` changes: `duplicated` is the counter `duplicatedUnit`.
pub record Counter : Type 0 where
  pub last_number : ℕ
  pub duplicated : ℕ
  pub row_idx : ℕ

-- The start of a table, when no row of it is filled yet.
unfoldable pub start_table : Settings → ℕ → Counter → Counter
start_table p filled c =
    if filled == 0
    then record c { last_number = if p.is_reset == 0 then c.last_number else p.init; row_idx = 0 }
    else c

-- The number is brought back to the lower end when it lies outside the range.
unfoldable pub clamp : Settings → ℕ → ℕ
clamp p last =
    let raised = if ltb last p.low_range then p.low_range else last in
    if ltb p.high_range raised then p.low_range else raised

-- In a batch the number steps back once the row of the batch's percentage is reached.
unfoldable pub step_back : Settings → Counter → ℕ
step_back p c =
    if not (p.rows_in_batch == 0) && not (p.percent_in_batch == 100)
    then (let reset_row_idx = u32 (p.rows_in_batch * p.percent_in_batch) / 100 in
        if c.row_idx % p.rows_in_batch == reset_row_idx
        then u64 (
            c.last_number
            + 2 ^ 64
            - u32 (p.rows_in_batch * u32 (100 + 2 ^ 32 - p.percent_in_batch)) / 100)
        else c.last_number)
    else c.last_number

-- After a row the number goes on by the step, once it has been given out `duplicated_unit` times.
unfoldable pub advance : Settings → Counter → Counter
advance p c =
    let next : Counter = record {
      last_number = u64 (c.last_number + p.step);
      duplicated = 1;
      row_idx = u32 (c.row_idx + 1);
    } in
    if ltb 1 p.duplicated_unit
    then (if p.duplicated_unit == c.duplicated
        then next
        else record c { duplicated = u32 (c.duplicated + 1) })
    else record next { duplicated = c.duplicated }

-- The part of `Calculate` behind the range test: the counter, and the number for the row.
unfoldable pub give_out : Settings → ℕ → Counter → Counter × ℕ
give_out p rand c =
    if ltb rand (x_value p.percent)
    then (let back = record c { last_number = step_back p c } in (advance p back, back.last_number))
    else (c, 0)

-- `Calculate` without the source file, for a row of a table with `filled` rows and a draw `rand`.
unfoldable pub next_number : Settings → ℕ → ℕ → Counter → Counter × ℕ
next_number p filled rand c =
    let c₁ = start_table p filled c in
    give_out p rand (record c₁ { last_number = clamp p c₁.last_number })

-- The number is stored in the column's value; that `SetValue` refuses it is not looked at.
unfoldable pub calculate :
    Settings → ℕ → ℕ → Counter → AutoValue → List ℕ → Option (Counter × AutoValue × List ℕ)
calculate p filled rand c v mem =
    let (c', number) = next_number p filled rand c in
    set_value number v mem >>= λ r. some (c', r.1, r.2)
