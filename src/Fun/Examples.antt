-- ===== src/Fun/Examples.antt =====
-- Runs of the theorems about the functions in src/fun.
use mathlib.Core.List.{Perm}
use litealigndata.Prelude.{
  ℕ, ◌+◌, ◌-◌, ◌*◌, ◌%◌, ◌≤◌, ◌<◌, ◌≡◌, inl, true, some, List, [], ◌∷◌, arith, replicate, refl,
  length,
}
use litealigndata.Prelude.{◌++◌, ◌/◌}
use litealigndata.Com.Tags.Para.{ParameterTag, para_string}
use litealigndata.Fun.Parameters.{Parameter, BaseFields, UniqueFields}
use litealigndata.Fun.Files.Rounds.{take_files, take_files-round}
use litealigndata.Fun.Acculate.{Counter, start_table, clamp}
use litealigndata.Fun.Acculate.Sequence.{IsPlain, numbers, number_at, number_at-numbers, repeats}
use litealigndata.Fun.UniqueRandom.{Pools, pick, refill}
use litealigndata.Fun.UniqueRandom.Shares.{handed_out, length-refill_shares}
use litealigndata.Fun.UniqueRandom.Conservation.{Takes, pick-Takes}
use litealigndata.Fun.Files.{Rows, fill_dimension_info, file_row, file_array}
use litealigndata.Fun.Files.Windows.{row_at, row_at-window, file_row_bounds}
use litealigndata.Fun.Files.Shuffles.{blocks, sum, file_array-blocks}
use litealigndata.Fun.Acculate as Acculate
use litealigndata.Fun.UniqueRandom as UniqueRandom

-- Numbers from 10 to 12, each twice.
abbrev counting : Acculate.Settings
counting = record {
  low_range = 10;
  high_range = 12;
  init = 10;
  step = 1;
  duplicated_unit = 2;
  is_reset = 1;
  percent = 100;
  rows_in_batch = 0;
  percent_in_batch = 100;
}

abbrev fresh : Counter
fresh = record { last_number = 0; duplicated = 1; row_idx = 0 }

counting-IsPlain : IsPlain counting
counting-IsPlain = record {
  in_order = omega arith;
  no_overflow = omega arith;
  every_row = refl;
  no_batches = refl;
  unit_fits = omega arith;
}

number_at-numbers_example :
    let first = clamp counting (start_table counting 0 fresh).last_number in
    (number_at counting (λ i. 7) (3 * 2 + 1) fresh ≡ numbers counting 3 first)
    × (10 ≤ numbers counting 3 first)
    × (numbers counting 3 first ≤ 12)
unfolding repeats
number_at-numbers_example =
    number_at-numbers counting (λ i. 7) fresh 3 1 counting-IsPlain (λ i. omega arith) (λ many. refl)
      (omega arith)

-- A batch of 10 rows, of which 60 percent are to be unique.
abbrev batch : UniqueRandom.Settings
batch = record {
  low_range = 1;
  high_range = 20;
  is_reset = 0;
  percent = 100;
  rows_in_batch = 10;
  percent_in_batch = 60;
}

abbrev some_pools : Pools
some_pools = record {
  last_number = 5;
  row_idx = 0;
  uniq_pool = 4 ∷ [];
  dup_pool₀ = [];
  dup_pool₁ = 3 ∷ [];
}

pick-Takes_example : Takes some_pools (pick batch 32000 some_pools)
pick-Takes_example = pick-Takes batch 32000 some_pools

length-refill_shares_example :
    (once twice : List ℕ) × ((refill batch some_pools).uniq_pool ≡ once ++ some_pools.uniq_pool)
    × ((refill batch some_pools).dup_pool₀ ≡ twice ++ some_pools.dup_pool₀)
    × ((refill batch some_pools).dup_pool₁ ≡ twice ++ some_pools.dup_pool₁)
    × (twice ++ once
        ≡ handed_out batch
            (batch.rows_in_batch * batch.percent_in_batch / 100)
            some_pools.last_number)
    × (length once + 2 * length twice + (batch.rows_in_batch - length once) % 2
        ≡ batch.rows_in_batch)
length-refill_shares_example =
    length-refill_shares batch some_pools (omega arith) (omega arith) (omega arith)

-- Three rows of a file of ten, from row 8 on.
abbrev three_rows : Rows
three_rows = record { init_row = 0; end_row = 0; number = 3; last_number = 0 }

row_at-window_example :
    let w = fill_dimension_info 10 28 three_rows in
    (w.number ≤ 10) × (row_at 10 w (4 * w.number + 2) ≡ (w.init_row + 2) % 10)
unfolding fill_dimension_info
row_at-window_example =
    row_at-window 10 28 4 2 three_rows (omega arith) (omega arith) (omega arith) (inl (omega arith))

file_row_bounds_example :
    (row low' high' : ℕ) × (file_row 2147483647 1000 6 2 4 ≡ some (row, low', high'))
    × (row < 6)
    × (2 ≤ 4 → 0 < 4 → 4 < 6 → (2 ≤ row) × (row ≤ 4))
file_row_bounds_example =
    file_row_bounds 2147483647 1000 6 2 4 (omega arith) (omega arith) (omega arith)

file_array-blocks_example :
    (b : List ℕ) × (file_array (λ i. 3 * i) (30 ∷ 70 ∷ []) (replicate 100 0) ≡ some (b, true))
    × (Perm b (blocks 0 (30 ∷ 70 ∷ [])))
    × (length b ≡ 100)
unfolding sum
file_array-blocks_example =
    file_array-blocks (λ i. 3 * i) (30 ∷ 70 ∷ []) (replicate 100 0) refl refl (omega arith)

-- The parameter of a percentage, with the text "50".
abbrev half_percent : List Parameter
half_percent = record { name = para_string ParameterTag.percent; value = b'5' ∷ b'0' ∷ [] } ∷ []

abbrev base_fields : BaseFields
base_fields = record { imsi_type = 0; right_align = 0 }

abbrev unique_fields : UniqueFields
unique_fields = record { settings = batch; imsi_type = 0; last_number = 0 }

take_files-round_example :
    (b files : List ℕ) × (file_array (λ i. 3 * i) (30 ∷ 70 ∷ []) (replicate 100 0) ≡ some (b, true))
    × (take_files 100 b 0 ≡ some (files, 0))
    × (Perm files (blocks 0 (30 ∷ 70 ∷ [])))
unfolding sum
take_files-round_example =
    take_files-round (λ i. 3 * i) (30 ∷ 70 ∷ []) (replicate 100 0) refl refl (omega arith)
