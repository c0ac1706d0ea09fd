-- ===== src/Struct/Rows/Splitting.antt =====
-- The split of a table's rows over more files of fewer rows.
use native.Mathlib.Nat.{mul-div_cancel, mul-div_cancel_left, div-add-mod, mod_self, mod-eq_of_lt}
use litealigndata.Prelude.{
  ℕ, zero, suc, ◌*◌, ◌/◌, ◌%◌, ◌^◌, ◌≤◌, ◌<◌, ◌≡◌, ◌≢◌, refl, ap, sym, false, ◌∙◌, arith, ltb, ◌==◌,
  inl, inr, Bool-cases, some, u32, u64,
}
use litealigndata.Struct.Rows.{adapted_row_num, adpt_row_and_file}

missed : (n d m : ℕ) → n % m == 0 ≡ false → d ≡ m → n % d ≢ 0
missed n d m e f zero_rest =
    let at_m : n % m ≡ 0 = sym (ap (λ k. n % k) f) ∙ zero_rest in ground arith

-- The loop finds the largest divisor up to its limit, which a limit above 0 has.
adapted_row_num-largest :
    (n limit : ℕ)
    → 0 < limit
    → (n % adapted_row_num n limit ≡ 0)
      × (0 < adapted_row_num n limit)
      × (adapted_row_num n limit ≤ limit)
      × ((d : ℕ) → adapted_row_num n limit < d → d ≤ limit → n % d ≢ 0)
unfolding adapted_row_num
adapted_row_num-largest n zero pos = absurd (omega arith)
adapted_row_num-largest n (suc zero) pos =
    (ground arith, ground arith, ground arith, λ d low high. absurd (ground arith))
adapted_row_num-largest n (suc (suc i)) pos = elim (Bool-cases (n % suc (suc i) == 0)) [
  | inl e ↦ rw e (ground arith, omega arith, omega arith, λ d low high. absurd (omega arith))
  | inr e ↦
      let (divides, some_rows, below, largest) = adapted_row_num-largest n (suc i) (omega arith) in
      rw e (
        divides,
        some_rows,
        omega (arith, below),
        λ d low high. elim (Bool-cases (d == suc (suc i))) [
          | inl f ↦ missed n d (suc (suc i)) e (ground arith)
          | inr f ↦ largest d low (ground arith)
        ],
      )
]

exact : (n f r : ℕ) → 0 < r → n % r ≡ 0 → r * (n * f / r) ≡ n * f
exact n f r pos divides =
    let k = n / r in
    let whole : n ≡ r * k = omega (arith, div-add-mod n r, divides) in
    let shape : n * f ≡ k * f * r = ap (λ m. m * f) whole ∙ grind arith in
    let quotient : n * f / r ≡ k * f = ap (λ m. m / r) shape ∙ mul-div_cancel (k * f) pos in
    ap (λ q. r * q) quotient ∙ (grind arith ∙ sym shape)

-- For a table with rows, fewer than 2 ^ 64 rows over all files, and a limit from 1 to 2 ^ 32 - 1:
-- no row is lost or added over all files, the rows of a file divide the table's rows and are at
-- most the limit, and no larger number up to the limit divides them.
pub adpt_row_and_file_lem :
    (row_num file_num limit : ℕ)
    → 0 < row_num
    → row_num * file_num < 2 ^ 64
    → 0 < limit
    → limit < 2 ^ 32
    → (rows files : ℕ) × (adpt_row_and_file row_num file_num limit ≡ some (rows, files))
      × (rows * files ≡ row_num * file_num)
      × (row_num % rows ≡ 0)
      × (rows ≤ limit)
      × ((d : ℕ) → rows < d → d ≤ limit → row_num % d ≢ 0)
unfolding adpt_row_and_file
adpt_row_and_file_lem row_num file_num limit some_rows fits pos small =
    elim (Bool-cases (ltb limit row_num)) [
      | inl more ↦
          let (divides, some_in_file, below, largest) = adapted_row_num-largest row_num limit pos in
          let r = adapted_row_num row_num limit in
          (
            r,
            row_num * file_num / r,
            rw (same, more, above_zero r some_in_file, no_wrap) refl,
            exact row_num file_num r some_in_file divides,
            divides,
            below,
            largest,
          )
      | inr few ↦ (
        row_num,
        file_num,
        rw (same, few, above_zero row_num some_rows, no_wrap)
            (ap some (ap (λ f. (row_num, f)) (mul-div_cancel_left file_num some_rows))),
        refl,
        mod_self row_num,
        ground arith,
        λ d low high e. absurd (omega (arith, sym (mod-eq_of_lt low) ∙ e)),
      )
    ]
  where
    same : u32 limit ≡ limit
    same = omega arith

    no_wrap : u64 (row_num * file_num) ≡ row_num * file_num
    no_wrap = omega arith

    above_zero : (r : ℕ) → 0 < r → r == 0 ≡ false
    above_zero r h = ground arith
