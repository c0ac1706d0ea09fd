-- ===== src/Com/Value/Decimal.antt =====
-- The digits that `to_string` writes, read by `atol` again.
use litealigndata.Prelude.{
  ℕ, zero, suc, ◌+◌, ◌*◌, ◌/◌, ◌%◌, ◌^◌, ◌<◌, ◌≡◌, refl, ap, ◌∙◌, arith, true, Bool-cases, inl, inr,
  List, [], ◌∷◌, length, ltb, ltb→lt,
}
use litealigndata.Com.Text.{is_digit, is_all_digits, atol}
use litealigndata.Com.Text.Numbers.{number_of, atol-number_of}
use litealigndata.Com.Value.{digits_of, to_string}

-- 10 ^ fuel.
power : ℕ → ℕ
power zero = 1
power (suc f) = 10 * power f

last_digit : (n : ℕ) (acc : List ℕ) → n < 10 → number_of 0 ((b'0' + n % 10) ∷ acc) ≡ number_of n acc
unfolding number_of
last_digit n acc h = ap (λ m. number_of m acc) (omega arith)

next_digit : (n : ℕ) (acc : List ℕ) → number_of (n / 10) ((b'0' + n % 10) ∷ acc) ≡ number_of n acc
unfolding number_of
next_digit n acc = ap (λ m. number_of m acc) (omega arith)

digits_of-number_of :
    (fuel n : ℕ) (acc : List ℕ)
    → n < power fuel
    → 0 < fuel
    → number_of 0 (digits_of fuel n acc) ≡ number_of n acc
unfolding digits_of power
digits_of-number_of zero n acc h pos = absurd (omega arith)
digits_of-number_of (suc zero) n acc h pos =
    let small : ltb n 10 ≡ true = ground arith in rw small (last_digit n acc (omega arith))
digits_of-number_of (suc (suc fuel)) n acc h pos = elim (Bool-cases (ltb n 10)) [
  | inl e ↦ rw e (last_digit n acc (ltb→lt n 10 e))
  | inr e ↦ rw e (
      digits_of-number_of (suc fuel) (n / 10) ((b'0' + n % 10) ∷ acc) (omega arith) (omega arith)
      ∙ next_digit n acc)
]

digit : (n : ℕ) → is_digit (b'0' + n % 10) ≡ true
unfolding is_digit
digit n = ground arith

digits_of-is_all_digits :
    (fuel n : ℕ) (acc : List ℕ)
    → is_all_digits acc (length acc) ≡ true
    → is_all_digits (digits_of fuel n acc) (length (digits_of fuel n acc)) ≡ true
unfolding digits_of is_all_digits
digits_of-is_all_digits zero n acc h = h
digits_of-is_all_digits (suc fuel) n acc h = elim (Bool-cases (ltb n 10)) [
  | inl e ↦ rw e (rw (digit n) h)
  | inr e ↦ rw e (digits_of-is_all_digits fuel (n / 10) ((b'0' + n % 10) ∷ acc) (rw (digit n) h))
]

-- The digits of a number that fits are digits, and stand for it.
pub to_string-is_all_digits : (n : ℕ) → is_all_digits (to_string n) (length (to_string n)) ≡ true
unfolding to_string is_all_digits
to_string-is_all_digits n = digits_of-is_all_digits 20 n [] refl

pub atol-to_string : (n : ℕ) → n < 2 ^ 63 → atol (to_string n) ≡ n
unfolding to_string power number_of
atol-to_string n h =
    let value : number_of 0 (to_string n) ≡ n =
      digits_of-number_of 20 n [] (omega arith) (omega arith) in
    (atol-number_of (to_string n) (to_string-is_all_digits n) (omega (arith, value))).0 ∙ value
