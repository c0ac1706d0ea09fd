-- ===== src/Fun/Acculate/Sequence.antt =====
-- The numbers that a column counts through.
use litealigndata.Prelude.{
  ℕ, zero, suc, ◌+◌, ◌-◌, ◌*◌, ◌≤◌, ◌<◌, ◌≡◌, ◌^◌, refl, arith, ltb, if◌then◌else◌,
}
use litealigndata.Com.Random.{max_rand}
use litealigndata.Fun.Base.{x_value}
use litealigndata.Fun.Acculate.{
  Settings, Counter, start_table, clamp, step_back, advance, give_out, next_number,
}

-- Settings that count through every row: all rows get a number, no batches, a range in order
-- that the step cannot overflow, and fields of their widths.
pub record IsPlain (p : Settings) : Type 0 where
  pub in_order : p.low_range ≤ p.high_range
  pub no_overflow : p.high_range + p.step < 2 ^ 64
  pub every_row : p.percent ≡ 100
  pub no_batches : p.rows_in_batch ≡ 0
  pub unit_fits : p.duplicated_unit < 2 ^ 32

-- The number behind `n`: on by the step, and back to the lower end past the upper one.
pub following : Settings → ℕ → ℕ
following p n = if ltb p.high_range (n + p.step) then p.low_range else n + p.step

-- The `k`-th number from `n` on.
pub numbers : Settings → ℕ → ℕ → ℕ
numbers p zero n = n
numbers p (suc k) n = following p (numbers p k n)

-- The counter after the first `rows` rows of a table, for the draws that the rows make.
pub after_rows : Settings → (ℕ → ℕ) → ℕ → Counter → Counter
after_rows p draw zero c = c
after_rows p draw (suc rows) c = (next_number p rows (draw rows) (after_rows p draw rows c)).0

-- How often each number is given out.
unfoldable pub repeats : Settings → ℕ
repeats p = if ltb 1 p.duplicated_unit then p.duplicated_unit else 1

-- The counter with `r` rows given out of the number that `clamp` makes of it.
record At (p : Settings) (n r : ℕ) (c : Counter) : Type 0 where
  number : clamp p c.last_number ≡ n
  given : 1 < p.duplicated_unit → c.duplicated ≡ r + 1

module _ (p : Settings) (plain : IsPlain p) where
  open plain use {in_order, no_overflow, every_row, no_batches, unit_fits}

  clamp_range : (n : ℕ) → (p.low_range ≤ clamp p n) × (clamp p n ≤ p.high_range)
  unfolding clamp
  clamp_range n = ground arith

  give_out_plain :
      (rand : ℕ) (c : Counter) → rand ≤ max_rand → give_out p rand c ≡ (advance p c, c.last_number)
  unfolding give_out step_back x_value
  give_out_plain rand c draw = rw (every_row, no_batches) (ground arith)

  -- A row in the middle of a number, and the last row of a number.
  advance-At :
      (n r : ℕ) (c : Counter)
      → n ≤ p.high_range
      → p.low_range ≤ n
      → c.last_number ≡ n
      → (1 < p.duplicated_unit → c.duplicated ≡ r + 1)
      → r < repeats p
      → (r + 1 < repeats p → At p n (suc r) (advance p c))
        × (r + 1 ≡ repeats p → At p (following p n) 0 (advance p c))
  unfolding advance repeats following clamp
  advance-At n r c top low e d small = (
    λ h. record { number = ground arith; given = λ many. ground arith },
    λ h. record { number = ground arith; given = λ many. ground arith },
  )

  number_range :
      (n : ℕ) (k : ℕ)
      → (p.low_range ≤ n) × (n ≤ p.high_range)
      → (p.low_range ≤ numbers p k n) × (numbers p k n ≤ p.high_range)
  unfolding numbers following
  number_range n zero h = h
  number_range n (suc k) h = ground (arith, number_range n k h)

  repeats_pos : 0 < repeats p
  unfolding repeats
  repeats_pos = ground arith

  -- One row, from a counter that has given out the number `n` in `r` rows.
  next_number-At :
      (filled rand n r : ℕ) (c : Counter)
      → rand ≤ max_rand
      → At p n r (start_table p filled c)
      → r < repeats p
      → ((next_number p filled rand c).1 ≡ n)
        × (r + 1 < repeats p → At p n (suc r) (next_number p filled rand c).0)
        × (r + 1 ≡ repeats p → At p (following p n) 0 (next_number p filled rand c).0)
  unfolding next_number
  next_number-At filled rand n r c draw at small =
      let c₁ = start_table p filled c in
      let c₂ : Counter = record c₁ { last_number = clamp p c₁.last_number } in
      let range = clamp_range c₁.last_number in
      let (middle, last) =
        advance-At n r c₂ (omega (arith, at.number)) (omega (arith, at.number)) at.number at.given
          small in
      rw (give_out_plain rand c₂ draw) (at.number, middle, last)

  start_table_later : (i : ℕ) (c : Counter) → start_table p (suc i) c ≡ c
  unfolding start_table
  start_table_later i c = ground arith

  module _ (draw : ℕ → ℕ) (draws : (i : ℕ) → draw i ≤ max_rand) (c : Counter)
      (fresh : 1 < p.duplicated_unit → c.duplicated ≡ 1) where
    start : ℕ
    start = clamp p (start_table p 0 c).last_number

    after_rows-At :
        (i q r : ℕ)
        → i ≡ q * repeats p + r
        → r < repeats p
        → At p (numbers p q start) r (start_table p i (after_rows p draw i c))
    unfolding after_rows numbers start
    after_rows-At zero q (suc r) e small = absurd (omega arith)
    after_rows-At zero (suc q) zero e small = absurd (grind (arith, repeats_pos))
    after_rows-At zero zero zero e small = record {
      number = refl;
      given = λ many. unfold start_table in ground (arith, fresh many);
    }
    after_rows-At (suc i) q (suc r) e small =
        let before = after_rows-At i q r (omega arith) (omega arith) in
        let row =
          next_number-At i (draw i) (numbers p q start) r (after_rows p draw i c) (draws i) before
            (omega arith) in
        rw (start_table_later i) (row.1 (omega arith))
    after_rows-At (suc i) zero zero e small = absurd (omega arith)
    after_rows-At (suc i) (suc q) zero e small =
        let before = after_rows-At i q (repeats p - 1) (grind arith) (omega arith) in
        let row =
          next_number-At i (draw i) (numbers p q start) (repeats p - 1) (after_rows p draw i c)
            (draws i) before (omega arith) in
        rw (start_table_later i) (row.2 (omega arith))

-- The number that a row of a table gets, after the rows before it.
pub number_at : Settings → (ℕ → ℕ) → ℕ → Counter → ℕ
number_at p draw row c = (next_number p row (draw row) (after_rows p draw row c)).1

-- Without batches and with every row taken, row `q * repeats + r` of a table gets the `q`-th number
-- that follows the first one by the step, wrapping to the lower end past the upper one: each
-- number stands in exactly `repeats` rows one behind the other, and lies in the range. The counter
-- of repetitions has to be fresh when the table starts.
pub number_at-numbers :
    (p : Settings) (draw : ℕ → ℕ) (c : Counter) (q r : ℕ)
    → IsPlain p
    → ((i : ℕ) → draw i ≤ max_rand)
    → (1 < p.duplicated_unit → c.duplicated ≡ 1)
    → r < repeats p
    → let first = clamp p (start_table p 0 c).last_number in
      (number_at p draw (q * repeats p + r) c ≡ numbers p q first)
      × (p.low_range ≤ numbers p q first)
      × (numbers p q first ≤ p.high_range)
unfolding number_at clamp start
number_at-numbers p draw c q r plain draws fresh small =
    let i = q * repeats p + r in
    let first = clamp p (start_table p 0 c).last_number in
    let before = after_rows-At p plain draw draws c fresh i q r refl small in
    let row =
      next_number-At p plain i (draw i) (numbers p q first) r (after_rows p draw i c) (draws i)
        before small in
    let range =
      number_range p plain first q (clamp_range p plain (start_table p 0 c).last_number) in
    (row.0, range.0, range.1)
