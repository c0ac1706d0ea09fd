-- ===== src/Com/Bytes/Blocks.antt =====
-- What `memcpy` leaves in memory.
use litealigndata.Prelude.{
  ℕ, zero, suc, ◌+◌, ◌≤◌, ◌<◌, ◌≡◌, refl, ◌⊎◌, some, List, [], ◌∷◌, arith, length, set, get_elem?,
  get_elem?-in_range, get_elem?-set_self, get_elem?-set_ne, length-set,
}
use litealigndata.Com.Bytes.{write_bytes}

-- `after` is the memory with the bytes `bs` copied to `addr`.
pub record IsCopied (addr : ℕ) (bs mem after : List ℕ) : Type 0 where
  pub same_length : length after ≡ length mem
  pub inside : (j : ℕ) → j < length bs → get_elem? after (addr + j) ≡ get_elem? bs j
  pub outside : (i : ℕ) → (i < addr) ⊎ (addr + length bs ≤ i) → get_elem? after i ≡ get_elem? mem i

inside-cons :
    (addr b : ℕ) (bs after : List ℕ)
    → get_elem? after addr ≡ some b
    → ((j : ℕ) → j < length bs → get_elem? after (addr + 1 + j) ≡ get_elem? bs j)
    → (j : ℕ) → j < length (b ∷ bs)
    → get_elem? after (addr + j) ≡ get_elem? (b ∷ bs) j
inside-cons addr b bs after head rest zero p = let e : addr + 0 ≡ addr = omega arith in rw e head
inside-cons addr b bs after head rest (suc j) p =
    let e : addr + suc j ≡ addr + 1 + j = omega arith in rw e (rest j (omega arith))

-- A copy within the memory succeeds.
pub write_bytes-IsCopied :
    (addr : ℕ) (bs mem : List ℕ)
    → addr + length bs ≤ length mem
    → (after : List ℕ) × (write_bytes addr bs mem ≡ some after) × IsCopied addr bs mem after
unfolding write_bytes
write_bytes-IsCopied addr [] mem h = (
  mem,
  refl,
  record { same_length = refl; inside = λ j p. absurd (omega arith); outside = λ i p. refl },
)
write_bytes-IsCopied addr (b ∷ bs) mem h =
    let mem₁ = set mem addr b in
    let (old, e) = get_elem?-in_range mem addr (omega arith) in
    let (after, done, s) =
      write_bytes-IsCopied (addr + 1) bs mem₁ (omega (arith, length-set mem addr b)) in
    (
      after,
      ground (arith, e, done),
      record {
        same_length = omega (arith, s.same_length, length-set mem addr b);
        inside =
            inside-cons addr b bs after
              (ground (arith, s.outside addr, get_elem?-set_self mem addr b)) s.inside;
        outside = λ i p. ground (arith, s.outside i, get_elem?-set_ne mem addr i b);
      },
    )
