-- ===== src/Fun/Base/Percent.antt =====
-- The threshold of a percentage.
use litealigndata.Prelude.{ℕ, ◌+◌, ◌≤◌, ◌≡◌, arith}
use litealigndata.Com.Random.{max_rand}
use litealigndata.Fun.Base.{x_value}

-- At 100 percent every draw of `rand` is below the threshold, at 0 percent none is, and the
-- threshold never passes the number of draws for a percentage of at most 100.
pub x_value_bounds :
    (percent : ℕ)
    → percent ≤ 100
    → (x_value 100 ≡ max_rand + 1) × (x_value 0 ≡ 0) × (x_value percent ≤ max_rand + 1)
unfolding x_value
x_value_bounds percent h = (omega arith, omega arith, omega arith)
