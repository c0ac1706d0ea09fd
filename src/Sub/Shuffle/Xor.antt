-- ===== src/Sub/Shuffle/Xor.antt =====
-- The exclusive or, which the library gives by its digits: it undoes itself.
use Prim.Native.Nat.{bit_xor, digits, differ, bit_xor-bitwise}
use litealigndata.Prelude.{ℕ, zero, suc, ◌+◌, ◌*◌, ◌/◌, ◌%◌, ◌≤◌, ◌<◌, ◌≡◌, refl, arith, ◌∙◌}

abbrev xor_digits : ℕ → ℕ → ℕ → ℕ
xor_digits n a b = digits (λ b. b) differ n a b

-- Any number of digits serves that the first number has at most.
xor_digits_fuel : (n m a b : ℕ) → a ≤ n → a ≤ m → xor_digits n a b ≡ xor_digits m a b
xor_digits_fuel zero zero a b p q = refl
xor_digits_fuel zero (suc m) zero b p q = refl
xor_digits_fuel zero (suc m) (suc a) b p q = absurd (omega arith)
xor_digits_fuel (suc n) zero zero b p q = refl
xor_digits_fuel (suc n) zero (suc a) b p q = absurd (omega arith)
xor_digits_fuel (suc n) (suc m) zero b p q = refl
xor_digits_fuel (suc n) (suc m) (suc a) b p q =
    omega (arith, xor_digits_fuel n m (suc a / 2) (b / 2) (omega arith) (omega arith))

zero-bit_xor : (b : ℕ) → bit_xor 0 b ≡ b
zero-bit_xor b = bit_xor-bitwise 0 b

-- The lowest digit of two.
abbrev low : ℕ → ℕ → ℕ
low a b = differ (a % 2) (b % 2)

low-zero : (b : ℕ) → low 0 b ≡ b % 2
low-zero b = refl

bit_xor_step : (a b : ℕ) → bit_xor a b ≡ bit_xor (a / 2) (b / 2) * 2 + low a b
bit_xor_step zero b = omega (arith, zero-bit_xor b, zero-bit_xor (b / 2), low-zero b)
bit_xor_step (suc a) b = omega (
  arith,
  bit_xor-bitwise (suc a) b,
  bit_xor-bitwise (suc a / 2) (b / 2),
  xor_digits_fuel a (suc a / 2) (suc a / 2) (b / 2) (omega arith) (omega arith),
)

-- Two digits and the one that tells whether they differ.
record AreBits (x y d : ℕ) : Type 0 where
  small : d < 2
  second : differ d y ≡ x
  first : differ d x ≡ y

differ-AreBits : (x y : ℕ) → x < 2 → y < 2 → AreBits x y (differ x y)
differ-AreBits zero zero p q = record { small = omega arith; second = refl; first = refl }
differ-AreBits zero (suc zero) p q = record { small = omega arith; second = refl; first = refl }
differ-AreBits (suc zero) zero p q = record { small = omega arith; second = refl; first = refl }
differ-AreBits (suc zero) (suc zero) p q = record {
  small = omega arith;
  second = refl;
  first = refl;
}
differ-AreBits (suc (suc x)) y p q = absurd (omega arith)
differ-AreBits x (suc (suc y)) p q = absurd (omega arith)

low-AreBits : (a b : ℕ) → AreBits (a % 2) (b % 2) (low a b)
low-AreBits a b = differ-AreBits (a % 2) (b % 2) (omega arith) (omega arith)

xor_half : (a b : ℕ) → bit_xor a b / 2 ≡ bit_xor (a / 2) (b / 2)
xor_half a b = omega (arith, bit_xor_step a b, (low-AreBits a b).small)

xor_low : (a b : ℕ) → bit_xor a b % 2 ≡ low a b
xor_low a b = omega (arith, bit_xor_step a b, (low-AreBits a b).small)

-- Either number undoes itself.
cancel_fuel :
    (n a b : ℕ) → a ≤ n → b ≤ n → (bit_xor (bit_xor a b) b ≡ a) × (bit_xor (bit_xor a b) a ≡ b)
cancel_fuel zero zero zero p q = (refl, refl)
cancel_fuel zero (suc a) b p q = absurd (omega arith)
cancel_fuel zero zero (suc b) p q = absurd (omega arith)
cancel_fuel (suc n) a b p q =
    let (back, back') = cancel_fuel n (a / 2) (b / 2) (omega arith) (omega arith) in
    let bits = low-AreBits a b in
    let step : bit_xor (bit_xor a b) b ≡ bit_xor (bit_xor (a / 2) (b / 2)) (b / 2) * 2 + a % 2 =
      bit_xor_step (bit_xor a b) b ∙ rw (xor_half a b, xor_low a b, bits.second) refl in
    let step' : bit_xor (bit_xor a b) a ≡ bit_xor (bit_xor (a / 2) (b / 2)) (a / 2) * 2 + b % 2 =
      bit_xor_step (bit_xor a b) a ∙ rw (xor_half a b, xor_low a b, bits.first) refl in
    (omega (arith, step, back), omega (arith, step', back'))

pub xor_cancel : (a b : ℕ) → (bit_xor (bit_xor a b) b ≡ a) × (bit_xor (bit_xor a b) a ≡ b)
xor_cancel a b = cancel_fuel (a + b) a b (omega arith) (omega arith)
