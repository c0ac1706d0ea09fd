-- ===== src/Com/Bytes/Words.antt =====
-- A word that is stored is loaded again, and the bytes around it stay.
use litealigndata.Prelude.{
  ℕ, zero, suc, ◌+◌, ◌*◌, ◌/◌, ◌%◌, ◌≤◌, ◌<◌, ◌≡◌, refl, ◌⊎◌, some, List, arith, length, set,
  get_elem?, get_elem?-in_range, get_elem?-set_self, get_elem?-set_ne, length-set,
}
use litealigndata.Com.Bytes.{write_le, read_le}

-- What is left of a number in `width` bytes.
abbrev pub low_bytes : ℕ → ℕ → ℕ
low_bytes zero n = 0
low_bytes (suc width) n = n % 256 + 256 * low_bytes width (n / 256)

-- `after` is the memory with `width` bytes of `n` stored at `addr`.
pub record IsStored (width addr n : ℕ) (mem after : List ℕ) : Type 0 where
  pub same_length : length after ≡ length mem
  pub loads : read_le width addr after ≡ some (low_bytes width n)
  pub outside : (i : ℕ) → (i < addr) ⊎ (addr + width ≤ i) → get_elem? after i ≡ get_elem? mem i

loads-suc :
    (width addr n : ℕ) (after : List ℕ)
    → get_elem? after addr ≡ some (n % 256)
    → read_le width (addr + 1) after ≡ some (low_bytes width (n / 256))
    → read_le (suc width) addr after ≡ some (low_bytes (suc width) n)
unfolding read_le
loads-suc width addr n after head rest = ground arith

-- A store within the memory succeeds.
pub write_le-IsStored :
    (width addr n : ℕ) (mem : List ℕ)
    → addr + width ≤ length mem
    → (after : List ℕ) × (write_le width addr n mem ≡ some after) × IsStored width addr n mem after
unfolding write_le
write_le-IsStored zero addr n mem h = (
  mem,
  refl,
  record { same_length = refl; loads = unfold read_le in refl; outside = λ i p. refl },
)
write_le-IsStored (suc width) addr n mem h =
    let b = n % 256 in
    let mem₁ = set mem addr b in
    let (old, e) = get_elem?-in_range mem addr (omega arith) in
    let (after, done, s) =
      write_le-IsStored width (addr + 1) (n / 256) mem₁ (omega (arith, length-set mem addr b)) in
    (
      after,
      ground (arith, e, done),
      record {
        same_length = omega (arith, s.same_length, length-set mem addr b);
        loads =
            loads-suc width addr n after
              (ground (arith, s.outside addr, get_elem?-set_self mem addr b)) s.loads;
        outside = λ i p. ground (arith, s.outside i, get_elem?-set_ne mem addr i b);
      },
    )
