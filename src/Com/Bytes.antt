-- ===== src/Com/Bytes.antt =====
-- Memory as a list of bytes: the little-endian loads and stores behind `*( uintN_t* )pData`, and
-- `memcpy` and `memset`. `none` is an access beyond the list.
pub mod Words
pub mod Blocks
use litealigndata.Prelude.{
  ℕ, zero, suc, ◌+◌, ◌*◌, ◌/◌, ◌%◌, Option, none, some, List, [], ◌∷◌, get_elem?, set, ◌>>=◌,
}

-- The store of `width` bytes of `n` at `addr`.
unfoldable pub write_le : ℕ → ℕ → ℕ → List ℕ → Option (List ℕ)
write_le zero addr n mem = some mem
write_le (suc width) addr n mem =
    get_elem? mem addr >>= λ _. write_le width (addr + 1) (n / 256) (set mem addr (n % 256))

unfoldable pub read_le : ℕ → ℕ → List ℕ → Option ℕ
read_le zero addr mem = some 0
read_le (suc width) addr mem =
    get_elem? mem addr >>= λ b. read_le width (addr + 1) mem >>= λ r. some (b + 256 * r)

-- `memcpy` of the listed bytes to `addr`.
unfoldable pub write_bytes : ℕ → List ℕ → List ℕ → Option (List ℕ)
write_bytes addr [] mem = some mem
write_bytes addr (b ∷ bs) mem =
    get_elem? mem addr >>= λ _. write_bytes (addr + 1) bs (set mem addr b)

-- The bytes of the C string at `addr`, up to its terminator.
unfoldable pub read_text : ℕ → List ℕ → List ℕ
read_text zero [] = []
read_text zero (zero ∷ mem) = []
read_text zero (suc b ∷ mem) = suc b ∷ read_text zero mem
read_text (suc addr) [] = []
read_text (suc addr) (b ∷ mem) = read_text addr mem
