-- ===== src/Com/Clock/Spans.antt =====
-- Differences of times, and the alignment of a time to an interval.
use litealigndata.Prelude.{
  ℕ, ◌+◌, ◌*◌, ◌/◌, ◌%◌, ◌^◌, ◌<◌, ◌≤◌, ◌≡◌, arith, some, Bool-cases, inl, inr, ◌==◌,
}
use litealigndata.Com.Clock.{
  Time, one_million, micros, get_time_diff, add_time_diff, calc_align, time_msec,
}

-- A time of 32-bit fields whose microseconds are below a million.
pub record IsTime (t : Time) : Type 0 where
  pub sec_fits : t.sec < 2 ^ 32
  pub usec_fits : t.usec < one_million

-- For two times of 32-bit seconds with microseconds below a million, the first not behind the
-- second: adding their difference to the first gives the second back.
pub add_time_diff-get_time_diff :
    (start end : Time)
    → IsTime start
    → IsTime end
    → micros start ≤ micros end
    → add_time_diff start (get_time_diff start end) ≡ end
unfolding add_time_diff get_time_diff
add_time_diff-get_time_diff start end s e h = ground arith

-- For two times of 32-bit seconds with microseconds below a million: the difference is zero where
-- the first is not before the second, and otherwise has the true number of microseconds.
pub get_time_diff-micros :
    (start end : Time)
    → IsTime start
    → IsTime end
    → (micros end ≤ micros start → micros (get_time_diff start end) ≡ 0)
      × (micros start ≤ micros end → micros start + micros (get_time_diff start end) ≡ micros end)
unfolding get_time_diff
get_time_diff-micros start end s e = (λ h. ground arith, λ h. ground arith)

-- The 32-bit product in the millisecond field wraps, and the field is right all the same.
pub time_msec-mod : (time : ℕ) → time < 2 ^ 64 → time_msec time ≡ time % 1000000 / 1000
unfolding time_msec
time_msec-mod time h = omega arith

-- Short of the top of the range, `calc_align` returns the least multiple of `align` that is not
-- below `n`.
pub calc_align_least :
    (n align : ℕ)
    → 0 < align
    → n + align < 2 ^ 64
    → (q : ℕ) × (calc_align n align ≡ some (q * align)) × (n ≤ q * align) × (q * align < n + align)
unfolding calc_align
calc_align_least n align pos fits = elim (Bool-cases (n / align * align == n)) [
  | inl even ↦ (n / align, ground (arith, small), ground arith, ground arith)
  | inr odd ↦ (n / align + 1, ground (arith, small), grind arith, grind arith)
]
  where
    small : (n / align * align ≤ n) × (n < n / align * align + align)
    small = grind arith
