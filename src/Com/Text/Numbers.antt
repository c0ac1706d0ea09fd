-- ===== src/Com/Text/Numbers.antt =====
-- What the digit test and the number readers of the C library have to do with one another.
use litealigndata.Prelude.{
  ℕ, ◌+◌, ◌-◌, ◌*◌, ◌^◌, ◌<◌, ◌≡◌, refl, true, false, List, [], ◌∷◌, arith, length, u32,
}
use litealigndata.Com.Text.{
  is_all_digits, skip_space, decimal, signed_decimal, atol, atoi, strtoull,
}

-- The number that a list of decimal digits stands for, the first digit the highest.
unfoldable pub number_of : ℕ → List ℕ → ℕ
number_of acc [] = acc
number_of acc (c ∷ s) = number_of (acc * 10 + (c - b'0')) s

decimal-digits :
    (acc : ℕ) (s : List ℕ) → is_all_digits s (length s) ≡ true → decimal acc s ≡ number_of acc s
unfolding decimal is_all_digits number_of
decimal-digits acc [] h = refl
decimal-digits acc (c ∷ s) h = ground (arith, decimal-digits (acc * 10 + (c - b'0')) s)

unsigned :
    (s : List ℕ)
    → is_all_digits s (length s) ≡ true
    → signed_decimal (skip_space s) ≡ (false, number_of 0 s)
unfolding signed_decimal skip_space is_all_digits number_of
unsigned [] h = refl
unsigned (c ∷ s) h = ground (arith, decimal-digits 0 (c ∷ s) h)

-- On a text that passes `isAlldigits`, `atol` and `strtoull` read the number that the digits stand
-- for, as long as it fits, and `atoi` reads its low 32 bits.
pub atol-number_of :
    (s : List ℕ)
    → is_all_digits s (length s) ≡ true
    → number_of 0 s < 2 ^ 63
    → (atol s ≡ number_of 0 s) × (strtoull s ≡ number_of 0 s) × (atoi s ≡ u32 (number_of 0 s))
unfolding atol strtoull atoi
atol-number_of s h fits = rw (unsigned s h) (omega arith, ground arith, omega arith)
