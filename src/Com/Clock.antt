-- ===== src/Com/Clock.antt =====
-- Times and numbers of `CAlignDataTypeDef` in src/com/AlignDataTypeDef.cc.
pub mod Spans
pub mod Draws
use litealigndata.Prelude.{
  ℕ, ◌+◌, ◌-◌, ◌*◌, ◌/◌, ◌%◌, ◌^◌, ◌<◌, ◌≤◌, Option, none, some, leb, ltb, ◌==◌, if◌then◌else◌, u32,
  u64,
}

abbrev pub one_million : ℕ
one_million = 1000000

-- A time as the pair of seconds and microseconds that the callers pass by reference.
pub record Time : Type 0 where
  pub sec : ℕ
  pub usec : ℕ

abbrev pub micros : Time → ℕ
micros t = u64 (u64 (t.sec * one_million) + t.usec)

unfoldable pub get_time_diff : Time → Time → Time
get_time_diff start end =
    let diff = u64 (micros end + 2 ^ 64 - micros start) in
    if leb (micros end) (micros start)
    then record { sec = 0; usec = 0 }
    else record { sec = u32 (diff / one_million); usec = u32 (diff % one_million) }

unfoldable pub add_time_diff : Time → Time → Time
add_time_diff start diff =
    let end = u64 (micros start + micros diff) in
    record { sec = u32 (end / one_million); usec = u32 (end % one_million) }

-- `calc_align`; a division by zero is `none`.
unfoldable pub calc_align : ℕ → ℕ → Option ℕ
calc_align n align =
    if align == 0
    then none
    else some (if u64 (n / align * align) == n then n else u64 (u64 (n / align + 1) * align))

-- The milliseconds that `TimeUsecToString` prints, with its 32-bit product.
unfoldable pub time_msec : ℕ → ℕ
time_msec time =
    let time_sec = time / 1000000 in u32 (u64 (time + 2 ^ 64 - u32 (u32 time_sec * 1000000))) / 1000

-- The header's MAX_UINT64, which is one less than the largest `uint64_t`.
abbrev pub max_uint64 : ℕ
max_uint64 = 0xfffffffffffffffe

-- The upper bound that `randnumer` works with; `rand_max` is the platform's RAND_MAX.
unfoldable pub range_top : ℕ → ℕ → ℕ
range_top rand_max high = if high == max_uint64 then rand_max else high

-- The rest of `randnumer`. A remainder by zero is `none`.
unfoldable pub draw_between : ℕ → ℕ → ℕ → Option ℕ
draw_between drawn low high =
    let max = u64 (high + 2 ^ 64 - low + 1) in
    if high == 0
    then some 0
    else if ltb high low
    then some 0
    else if max == 0
    then none
    else some (u64 (drawn % max + low))

-- `randnumer`, where `drawn` is what `rand()` returns.
unfoldable pub randnumer : ℕ → ℕ → ℕ → ℕ → Option ℕ
randnumer rand_max drawn low high = draw_between drawn low (range_top rand_max high)
