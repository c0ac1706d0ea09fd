-- ===== src/Fun/Files/Windows.antt =====
-- Which rows of a dimension file the columns get.
use native.Mathlib.Nat.{mod-eq_of_lt, mod-eq-sub-mod}
use litealigndata.Prelude.{
  ℕ, zero, suc, ◌+◌, ◌-◌, ◌*◌, ◌%◌, ◌≤◌, ◌<◌, ◌^◌, ◌≡◌, ◌≢◌, refl, sym, ap, ◌||◌, ◌∙◌, Bool-cases,
  u32, ◌⊎◌, inl, inr, arith, ltb, leb, if◌then◌else◌, some, ◌==◌,
}
use litealigndata.Com.Clock.{randnumer, range_top}
use litealigndata.Com.Clock.Draws.{randnumer_bounds}
use litealigndata.Fun.Files.{Rows, fill_dimension_info, next_row, file_row}

-- The fields after `k` rows, and the row that comes behind them.
pub after : ℕ → Rows → ℕ → Rows
after size info zero = info
after size info (suc k) = (next_row size (after size info k)).1

pub row_at : ℕ → Rows → ℕ → ℕ
row_at size info k = (next_row size (after size info k)).0

-- The row `r` of a window that begins at `init`, in a file read in a circle.
around : ℕ → ℕ → ℕ → ℕ
around size init r = if ltb (init + r) size then init + r else init + r - size

around-mod : (size init r : ℕ) → init < size → r ≤ size → around size init r ≡ (init + r) % size
unfolding around
around-mod size init r h g = elim (Bool-cases (ltb (init + r) size)) [
  | inl e ↦ rw e (sym (mod-eq_of_lt (ground arith)))
  | inr e ↦
      rw e (
        sym (mod-eq-sub-mod {n = init + r} {m = size} (ground arith) ∙ mod-eq_of_lt (ground arith)))
]

-- A window of rows of a file, as `fillDimensionInfo` leaves it.
record IsWindow (size : ℕ) (info : Rows) : Type 0 where
  size_fits : size < 2 ^ 31
  starts : info.init_row < size
  some_rows : 0 < info.number
  at_most : info.number ≤ size
  ends : info.end_row ≡ around size info.init_row info.number
  inner_end : (info.init_row + info.number ≢ size) ⊎ (info.init_row ≡ 0)

module _ (size : ℕ) (info : Rows) (ok : IsWindow size info) where
  open ok use {size_fits, starts, some_rows, at_most, ends, inner_end}

  -- The row of a round before row `r`, and the row behind it; the round begins again at its end.
  before_row : ℕ → ℕ
  before_row r = if r == 0 then info.number - 1 else r - 1

  behind_row : ℕ → ℕ
  behind_row r = if suc r == info.number then 0 else suc r

  -- The fields before row `r` of a round: untouched, or with the row before it taken.
  record Before (r : ℕ) (now : Rows) : Type 0 where
    same_init : now.init_row ≡ info.init_row
    same_end : now.end_row ≡ info.end_row
    position :
        ((now.last_number ≡ info.init_row) × (r ≡ 0))
        ⊎ (now.last_number ≡ around size info.init_row (before_row r) + 1)

  next_row-around :
      (r : ℕ) (now : Rows)
      → r < info.number
      → Before r now
      → (next_row size now).0 ≡ around size info.init_row r
  unfolding next_row around before_row
  next_row-around r now small b =
      ground (arith, b.same_init, b.same_end, b.position, ends, inner_end)

  around-lt : (r : ℕ) → r < info.number → around size info.init_row r < size
  unfolding around
  around-lt r small = ground arith

  before_row-behind_row : (r : ℕ) → r < info.number → before_row (behind_row r) ≡ r
  unfolding before_row behind_row
  before_row-behind_row r small = ground arith

  behind_row_inner : (r : ℕ) → suc r < info.number → behind_row r ≡ suc r
  unfolding behind_row
  behind_row_inner r small = ground arith

  behind_row_end : behind_row (info.number - 1) ≡ 0
  unfolding behind_row
  behind_row_end = ground arith

  next_row-Before :
      (r : ℕ) (now : Rows)
      → r < info.number
      → Before r now
      → Before (behind_row r) (next_row size now).1
  unfolding next_row
  next_row-Before r now small b = record {
    same_init = b.same_init;
    same_end = b.same_end;
    position = inr (
        rw (before_row-behind_row r small)
          (step (next_row size now).0 (next_row-around r now small b)));
  }
    where
      step :
          (row : ℕ)
          → row ≡ around size info.init_row r
          → u32 (row + 1) ≡ around size info.init_row r + 1
      step row e = omega (arith, e, around-lt r small)

  module _ (fresh : info.last_number ≡ info.init_row) where
    after-Before :
        (k q r : ℕ) → k ≡ q * info.number + r → r < info.number → Before r (after size info k)
    unfolding after
    after-Before zero q r e small = record {
      same_init = refl;
      same_end = refl;
      position = inl (fresh, grind arith);
    }
    after-Before (suc k) q (suc r) e small =
        let now = after-Before k q r (omega arith) (omega arith) in
        rw (sym (behind_row_inner r small))
          (next_row-Before r (after size info k) (omega arith) now)
    after-Before (suc k) (suc q) zero e small =
        let now = after-Before k q (info.number - 1) (grind arith) (omega arith) in
        rw (sym behind_row_end)
          (next_row-Before (info.number - 1) (after size info k) (omega arith) now)
    after-Before (suc k) zero zero e small = absurd (omega arith)

fill_dimension_info-IsWindow :
    (size rand : ℕ) (info : Rows)
    → 0 < size
    → size < 2 ^ 31
    → let w = fill_dimension_info size rand info in
      (w.init_row + w.number ≢ size) ⊎ (w.init_row ≡ 0) → IsWindow size w
unfolding fill_dimension_info
fill_dimension_info-IsWindow size rand info some_rows fits inner =
    let number = if (info.number == 0) || ltb size info.number then size else info.number in
    let starts : rand % size < size = omega arith in
    let at_most : number ≤ size = ground arith in
    record {
      size_fits = fits;
      starts = starts;
      some_rows = ground arith;
      at_most = at_most;
      ends =
          ap (λ n. n % size) (no_wrap (rand % size + number) (omega arith))
          ∙ sym (around-mod size (rand % size) number starts at_most);
      inner_end = inner;
    }
  where
    no_wrap : (n : ℕ) → n < 2 ^ 32 → u32 n ≡ n
    no_wrap n h = omega arith

-- Of the rows taken from a dimension file of less than 2 ^ 31 rows, row `q * number + r` is row `r`
-- of the window of `number` rows that begins at the drawn row, read in a circle: the window is
-- gone through again and again, and no other row of the file is taken. It must not end with the
-- last row of the file, unless it begins with the first one or is the whole file.
pub row_at-window :
    (size rand q r : ℕ) (info : Rows)
    → 0 < size
    → size < 2 ^ 31
    → let w = fill_dimension_info size rand info in
      r < w.number
      → (w.init_row + w.number ≢ size) ⊎ (w.init_row ≡ 0)
      → (w.number ≤ size) × (row_at size w (q * w.number + r) ≡ (w.init_row + r) % size)
unfolding row_at fill_dimension_info
row_at-window size rand q r info some_rows fits small inner =
    let w = fill_dimension_info size rand info in
    let ok = fill_dimension_info-IsWindow size rand info some_rows fits inner in
    let now = after-Before size w ok refl (q * w.number + r) q r refl small in
    (
      ok.at_most,
      next_row-around size w ok r (after size w (q * w.number + r)) small now
          ∙ around-mod size w.init_row r ok.starts (omega (arith, ok.at_most)),
    )

range_top_small : (rand_max high : ℕ) → high < 2 ^ 32 → range_top rand_max high ≡ high
unfolding range_top
range_top_small rand_max high h = ground arith

-- A draw with an upper bound in the file.
randnumer_row :
    (rand_max drawn low high : ℕ)
    → rand_max < 2 ^ 63
    → high < 2 ^ 32
    → (v : ℕ) × (randnumer rand_max drawn low high ≡ some v) × (v ≤ high) × (low ≤ high → low ≤ v)
randnumer_row rand_max drawn low high m fits =
    let top = range_top_small rand_max high fits in
    let (in_order, out_of_order) = randnumer_bounds rand_max drawn low high m (omega arith) in
    elim (Bool-cases (leb low high)) [
      | inl e ↦
          let (v, drew, above, below) = in_order (ground (arith, top)) in
          (v, drew, omega (arith, top, below), λ ord. above)
      | inr e ↦ (0, out_of_order (ground (arith, top)), omega arith, λ ord. ground arith)
    ]

-- With a RAND_MAX below 2 ^ 63 and a file of less than 2 ^ 32 rows that has some: the row that the
-- random type File takes lies in the file, whatever the configured range is; and where the range
-- is in order, in the file and does not end at 0, in the range.
pub file_row_bounds :
    (rand_max drawn size low high : ℕ)
    → rand_max < 2 ^ 63
    → 0 < size
    → size < 2 ^ 32
    → (row low' high' : ℕ) × (file_row rand_max drawn size low high ≡ some (row, low', high'))
      × (row < size)
      × (low ≤ high → 0 < high → high < size → (low ≤ row) × (row ≤ high))
unfolding file_row
file_row_bounds rand_max drawn size low high m some_rows fits =
    let low' = if leb (size - 1) low then size - 1 else low in
    let high' = if leb (size - 1) high || (high == 0) then size - 1 else high in
    let small_high : high' ≤ size - 1 = ground arith in
    let (v, drew, below, above) =
      randnumer_row rand_max drawn low' high' m (omega (arith, small_high)) in
    let same : u32 v ≡ v = omega (arith, below, small_high) in
    (
      u32 v,
      low',
      high',
      rw drew refl,
      omega (arith, same, below, small_high),
      λ ord pos inside. rw same (kept low' high' v below above (ground arith) (ground arith) ord),
    )
  where
    kept :
        (low' high' v : ℕ)
        → v ≤ high'
        → (low' ≤ high' → low' ≤ v)
        → low' ≡ low
        → high' ≡ high
        → low ≤ high
        → (low ≤ v) × (v ≤ high)
    kept low' high' v below above e f ord = ground arith
