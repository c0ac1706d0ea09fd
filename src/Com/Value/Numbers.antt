-- ===== src/Com/Value/Numbers.antt =====
-- A number that is stored in a value is read back in the width of its type.
use litealigndata.Prelude.{
  ℕ, ◌+◌, ◌%◌, ◌^◌, ◌≤◌, ◌≡◌, false, Option, none, some, List, arith, length,
}
use litealigndata.Com.Bytes.Words.{low_bytes}
use litealigndata.Com.Tags.Auto.{AutoType}
use litealigndata.Com.Value.{AutoValue, number_width, reduced}

low_bytes-mod :
    (n : ℕ)
    → (low_bytes 1 n ≡ n % 2 ^ 8)
      × (low_bytes 2 n ≡ n % 2 ^ 16)
      × (low_bytes 4 n ≡ n % 2 ^ 32)
      × (low_bytes 8 n ≡ n % 2 ^ 64)
low_bytes-mod n = (omega arith, omega arith, omega arith, omega arith)

-- The low bytes of the reduced number are those of the number itself.
abbrev KeepsLow : AutoType → ℕ → Option ℕ → Type 0
KeepsLow t n none = Unit {0}
KeepsLow t n (some width) = low_bytes width (reduced t n) ≡ n % 256 ^ width

-- A value of a numeric type that points to enough bytes of the table's memory.
pub record PointsTo (v : AutoValue) (addr width : ℕ) (mem : List ℕ) : Type 0 where
  pub outside_itself : v.is_sub_column ≡ false
  pub points : v.pointer ≡ some addr
  pub numeric : number_width v.type ≡ some width
  pub fits : addr + width ≤ length mem
