-- ===== src/Com/Clock/Draws.antt =====
-- The range of `randnumer`.
use litealigndata.Prelude.{
  ℕ, ◌+◌, ◌-◌, ◌%◌, ◌^◌, ◌<◌, ◌≤◌, ◌≡◌, arith, some, ◌==◌, Bool-cases, inl, inr,
}
use litealigndata.Com.Clock.{randnumer, range_top, draw_between}

draw_between_reduced :
    (drawn low high : ℕ)
    → low ≤ high
    → 0 < high
    → high < 2 ^ 64 - 1
    → draw_between drawn low high ≡ some (drawn % (high - low + 1) + low)
unfolding draw_between
draw_between_reduced drawn low high h p f =
    let max : (high + 2 ^ 64 - low + 1) % 2 ^ 64 ≡ high - low + 1 = omega arith in
    rw max (ground arith)

-- A draw between bounds in order lies between them, and bounds out of order give 0.
pub draw_between_bounds :
    (drawn low high : ℕ)
    → high < 2 ^ 64 - 1
    → (low ≤ high → (v : ℕ) × (draw_between drawn low high ≡ some v) × (low ≤ v) × (v ≤ high))
      × (high < low → draw_between drawn low high ≡ some 0)
unfolding draw_between
draw_between_bounds drawn low high f = (in_order, λ h. ground arith)
  where
    in_order :
        low ≤ high → (v : ℕ) × (draw_between drawn low high ≡ some v) × (low ≤ v) × (v ≤ high)
    in_order h = elim (Bool-cases (high == 0)) [
      | inl z ↦ (0, ground arith, ground arith, ground arith)
      | inr p ↦
          let pos : 0 < high = ground arith in
          (
            drawn % (high - low + 1) + low,
            draw_between_reduced drawn low high h pos f,
            omega arith,
            omega arith,
          )
    ]

-- With a RAND_MAX below 2 ^ 63 and an upper bound below 2 ^ 64 - 1: a draw from a range with its
-- bounds in order lies in the range, where the upper bound MAX_UINT64 stands for RAND_MAX; a range
-- out of order gives 0.
pub randnumer_bounds :
    (rand_max drawn low high : ℕ)
    → rand_max < 2 ^ 63
    → high < 2 ^ 64 - 1
    → let top = range_top rand_max high in
      (low ≤ top → (v : ℕ) × (randnumer rand_max drawn low high ≡ some v) × (low ≤ v) × (v ≤ top))
      × (top < low → randnumer rand_max drawn low high ≡ some 0)
unfolding randnumer
randnumer_bounds rand_max drawn low high m f =
    draw_between_bounds drawn low (range_top rand_max high) top_fits
  where
    top_fits : range_top rand_max high < 2 ^ 64 - 1
    top_fits = unfold range_top in ground arith
