-- ===== src/Struct/Percent.antt =====
-- The turns that a parent's children take when their shares of its rows are percentages:
-- `initPercent` of src/struct/AlignDataObject.cc and `ProducedRowDataPercent` of
-- src/struct/TableObject.cc.
pub mod Shares
pub mod Turns
pub mod Circle
mod Examples
use litealigndata.Prelude.{
  ℕ, zero, suc, ◌+◌, ◌-◌, ◌^◌, Bool, true, false, Option, none, some, List, [], ◌∷◌, ◌++◌, leb,
  ◌==◌, not, ◌&&◌, if◌then◌else◌, ◌>>=◌, get_elem?, set, length, u32, replicate,
}

-- `a <= b` for two `int`s in their 32 bits.
unfoldable pub int_leb : ℕ → ℕ → Bool
int_leb a b = leb (u32 (a + 2 ^ 31)) (u32 (b + 2 ^ 31))

-- The rows of a child that has no percentage: -1.
unfoldable pub no_rows : ℕ
no_rows = 2 ^ 32 - 1

-- What the children of a parent keep: their rows to create and the rows created, both in 32 bits,
-- and the child that `percent_it` points to.
pub record PercentCount : Type 0 where
  pub rows_to_create : List ℕ
  pub rows_created : List ℕ
  pub percent_it : ℕ

module _ {ℓ} {P : Type ℓ} (rows_of : P → ℕ) where
  -- The first loop: the children's rows. `rows_of` is the part of the parent's rows that a percentage
  -- takes, which is computed in floating point.
  unfoldable pub rows_of_children : List (Option P) → List ℕ
  rows_of_children [] = []
  rows_of_children (none ∷ rest) = no_rows ∷ rows_of_children rest
  rows_of_children (some percentage ∷ rest) = rows_of percentage ∷ rows_of_children rest

  unfoldable pub sum_of_children : List (Option P) → ℕ → ℕ
  sum_of_children [] sum = sum
  sum_of_children (none ∷ rest) sum = sum_of_children rest sum
  sum_of_children (some percentage ∷ rest) sum =
      sum_of_children rest (u32 (sum + rows_of percentage))

  -- The first child with a percentage.
  unfoldable pub first_child : List (Option P) → ℕ → ℕ
  first_child [] i = 0
  first_child (none ∷ rest) i = first_child rest (suc i)
  first_child (some percentage ∷ rest) i = i

  unfoldable pub has_percent_child : List (Option P) → Bool
  has_percent_child [] = false
  has_percent_child (none ∷ rest) = has_percent_child rest
  has_percent_child (some percentage ∷ rest) = true

  -- The second loop, from the end: the rows that are left go to the last child with a percentage.
  unfoldable pub add_left : ℕ → List (Option P) → List ℕ → List ℕ
  add_left left (some percentage ∷ rest) (rows ∷ others) =
      if has_percent_child rest
      then rows ∷ add_left left rest others
      else u32 (rows + left) ∷ others
  add_left left (none ∷ rest) (rows ∷ others) = rows ∷ add_left left rest others
  add_left left _ others = others

  -- `initPercent`, for a parent with `num_rows` rows to create.
  unfoldable pub init_percent : ℕ → List (Option P) → PercentCount
  init_percent num_rows children =
      let rows = rows_of_children children in
      let left = u32 (num_rows + (2 ^ 32 - sum_of_children children 0)) in
      record {
        rows_to_create =
            if not (left == 0) && has_percent_child children
            then add_left left children rows
            else rows;
        rows_created = replicate (length children) 0;
        percent_it = first_child children 0;
      }

-- `ProducedRowDataPercent`: the child that produces the row, and the fields behind it. A child that
-- has created all its rows starts over, and the next one is looked at.
unfoldable pub select_child : ℕ → PercentCount → Option (ℕ × PercentCount)
select_child zero p = none
select_child (suc fuel) p = get_elem? p.rows_to_create p.percent_it >>= λ rows.
    get_elem? p.rows_created p.percent_it >>= λ made.
    let next = if p.percent_it + 1 == length p.rows_created then 0 else p.percent_it + 1 in
    let rest =
      select_child fuel
        (record p { rows_created = set p.rows_created p.percent_it 0; percent_it = next }) in
    if int_leb rows made
    then rest
    else some
        (p.percent_it, record p { rows_created = set p.rows_created p.percent_it (u32 (made + 1)) })

-- The children of so many rows, one behind the other, and the fields behind them.
unfoldable pub select_children : ℕ → PercentCount → Option (List ℕ × PercentCount)
select_children zero p = some ([], p)
select_children (suc rows) p = select_child (suc (length p.rows_created)) p >>= λ r.
    select_children rows r.1 >>= λ s. some (r.0 ∷ s.0, s.1)
