-- ===== src/Fun/Parameters/Reading.antt =====
-- One parameter: whether it is accepted, and what is read from it.
use litealigndata.Prelude.{
  ℕ, ◌^◌, ◌≤◌, ◌<◌, ◌≡◌, ◌≢◌, ◌⊎◌, leb→le, ap, refl, arith, Bool, true, false, Bool-cases, inl, inr,
  Option, none, some, List, [], ◌∷◌, ◌==◌, ltb, leb, length, u8, u32, u64, if◌then◌else◌,
}
use litealigndata.Com.Text.{is_digit, is_all_digits, atol, atoi}
use litealigndata.Com.Text.Fields.{Every}
use litealigndata.Com.Text.Numbers.{number_of, atol-number_of}
use litealigndata.Com.Tags.Para.{ParameterTag}
use litealigndata.Fun.Parameters.{UniqueFields, checked, percentage, unique_parameter}
use litealigndata.Fun.Parameters.Meaning.{
  Meaning, meaning, IsMeant, IsFitting, Setting, setting, is_named,
}

clash : {b : Bool} → b ≡ true → b ≡ false → ⊥
clash x y = cc

digits-Every : (s : List ℕ) → is_all_digits s (length s) ≡ true → Every is_digit s
unfolding is_all_digits
digits-Every [] h = tt
digits-Every (c ∷ s) h = (ground arith, digits-Every s (ground arith))

Every-digits : (s : List ℕ) → Every is_digit s → is_all_digits s (length s) ≡ true
unfolding is_all_digits
Every-digits [] h = refl
Every-digits (c ∷ s) h = rw (h.0, Every-digits s h.1) refl

-- A test that lets `g` through just where `P` holds.
pub record Decides {A : Type 0} (P : Type 0) (o : Option A) (g : A) : Type 0 where
  pub accepts : P → o ≡ some g
  pub refuses : (P → ⊥) → o ≡ none

pub checked-Decides :
    {A : Type 0} (value : List ℕ) (g : A) → Decides (Every is_digit value) (checked value g) g
unfolding checked
checked-Decides value g = record {
  accepts = λ h. rw (Every-digits value h) refl;
  refuses = λ h. elim (Bool-cases (is_all_digits value (length value))) [
    | inl e ↦ absurd (h (digits-Every value e))
    | inr e ↦ rw e refl
  ];
}

small-number :
    (value : List ℕ)
    → Every is_digit value
    → number_of 0 value < 2 ^ 8
    → u8 (atoi value) ≡ number_of 0 value
small-number value h lt =
    let read = atol-number_of value (Every-digits value h) (omega arith) in omega (arith, read.2)

percentage-Decides :
    {A : Type 0} (value : List ℕ) (g : ℕ → A)
    → (Every is_digit value → number_of 0 value < 2 ^ 8)
    → Decides (IsMeant Meaning.share value) (percentage value g) (g (number_of 0 value))
unfolding percentage
percentage-Decides value g fits = record {
  accepts = λ h.
      let passes : ltb 100 (number_of 0 value) ≡ false = ground (arith, h.1) in
      rw (Every-digits value h.0, small-number value h.0 (fits h.0), passes) refl;
  refuses = λ h. elim (Bool-cases (is_all_digits value (length value))) [
    | inl e ↦
        let d = digits-Every value e in
        let large : ltb 100 (number_of 0 value) ≡ true =
          above (number_of 0 value) (λ le. h (d, le)) in
        rw (e, small-number value d (fits d), large) refl
    | inr e ↦ rw e refl
  ];
}
  where
    above : (n : ℕ) → (n ≤ 100 → ⊥) → ltb 100 n ≡ true
    above n h = ground (arith, h)

-- The fields behind a parameter.
abbrev pub IsAssigned : ParameterTag → List ℕ → UniqueFields → UniqueFields → Type 0
IsAssigned tag value f g =
    (k : Setting)
    → setting k g.settings ≡ (if is_named k tag then number_of 0 value else setting k f.settings)

pub record Reads (tag : ParameterTag) (value : List ℕ) (f : UniqueFields) (o : Option UniqueFields)
    : Type 0 where
  pub accepts :
      IsMeant (meaning tag) value → (g : UniqueFields) × (o ≡ some g) × IsAssigned tag value f g
  pub refuses : (IsMeant (meaning tag) value → ⊥) → o ≡ none

decided-Reads :
    (tag : ParameterTag) (value : List ℕ) (f g : UniqueFields) (o : Option UniqueFields)
    → Decides (IsMeant (meaning tag) value) o g
    → (IsMeant (meaning tag) value → IsAssigned tag value f g)
    → Reads tag value f o
decided-Reads tag value f g o d set = record {
  accepts = λ h. (g, d.accepts h, set h);
  refuses = d.refuses;
}

free-Decides : {A : Type 0} (g : A) → Decides (Unit {0}) (some g) g
free-Decides g = record { accepts = λ h. refl; refuses = λ h. absurd (h tt) }

read_long :
    (value : List ℕ)
    → Every is_digit value
    → number_of 0 value < 2 ^ 63
    → u64 (atol value) ≡ number_of 0 value
read_long value h lt =
    let read = atol-number_of value (Every-digits value h) lt in omega (arith, read.0)

read_int :
    (value : List ℕ)
    → Every is_digit value
    → number_of 0 value < 2 ^ 32
    → u32 (atoi value) ≡ number_of 0 value
read_int value h lt =
    let read = atol-number_of value (Every-digits value h) (omega arith) in omega (arith, read.2)

by_setting :
    (P : Setting → Type 0)
    → P Setting.low
    → P Setting.high
    → P Setting.percent
    → P Setting.percent_in_batch
    → P Setting.rows_in_batch
    → (k : Setting) → P k
by_setting P a b c d e Setting.low = a
by_setting P a b c d e Setting.high = b
by_setting P a b c d e Setting.percent = c
by_setting P a b c d e Setting.percent_in_batch = d
by_setting P a b c d e Setting.rows_in_batch = e

pub unique_parameter-Reads :
    (tag : ParameterTag) (value : List ℕ) (f : UniqueFields)
    → IsFitting tag value
    → Reads tag value f (unique_parameter tag value f)
unfolding unique_parameter
unique_parameter-Reads ParameterTag.invalid value f fits = record {
  accepts = λ h. absurd h;
  refuses = λ h. refl;
}
unique_parameter-Reads ParameterTag.low_range value f fits =
    decided-Reads ParameterTag.low_range value f _ _ (checked-Decides value _)
      (λ h. by_setting _ (read_long value h (fits h)) refl refl refl refl)
unique_parameter-Reads ParameterTag.high_range value f fits =
    decided-Reads ParameterTag.high_range value f _ _ (checked-Decides value _)
      (λ h. by_setting _ refl (read_long value h (fits h)) refl refl refl)
unique_parameter-Reads ParameterTag.rows_in_batch value f fits =
    decided-Reads ParameterTag.rows_in_batch value f _ _ (checked-Decides value _)
      (λ h. by_setting _ refl refl refl refl (read_int value h (fits h)))
unique_parameter-Reads ParameterTag.imsitype value f fits =
    decided-Reads ParameterTag.imsitype value f _ _ (checked-Decides value _)
      (λ h. by_setting _ refl refl refl refl refl)
unique_parameter-Reads ParameterTag.percent value f fits =
    decided-Reads ParameterTag.percent value f _ _ (percentage-Decides value _ fits)
      (λ h. by_setting _ refl refl refl refl refl)
unique_parameter-Reads ParameterTag.percent_in_batch value f fits =
    decided-Reads ParameterTag.percent_in_batch value f _ _ (percentage-Decides value _ fits)
      (λ h. by_setting _ refl refl refl refl refl)
unique_parameter-Reads ParameterTag.reset value f fits =
    decided-Reads ParameterTag.reset value f _ _ (free-Decides _)
      (λ h. by_setting _ refl refl refl refl refl)
unique_parameter-Reads ParameterTag.byte_array_right_align value f fits = absurd fits
unique_parameter-Reads tag value f fits =
    decided-Reads tag value f f _ (free-Decides f) (λ h. by_setting _ refl refl refl refl refl)

pub decide-IsMeant : (m : Meaning) (s : List ℕ) → IsMeant m s ⊎ (IsMeant m s → ⊥)
decide-IsMeant Meaning.number s = elim (Bool-cases (is_all_digits s (length s))) [
  | inl e ↦ inl (digits-Every s e)
  | inr e ↦ inr (λ h. clash (Every-digits s h) e)
]
decide-IsMeant Meaning.share s = elim (Bool-cases (is_all_digits s (length s))) [
  | inl e ↦ elim (Bool-cases (leb (number_of 0 s) 100)) [
    | inl small ↦ inl (digits-Every s e, leb→le (number_of 0 s) 100 small)
    | inr large ↦ inr (λ h. above (number_of 0 s) h.1 large)
  ]
  | inr e ↦ inr (λ h. clash (Every-digits s h.0) e)
]
  where
    above : (n : ℕ) → n ≤ 100 → leb n 100 ≡ false → ⊥
    above n h e = ground arith
decide-IsMeant Meaning.free s = inl tt
decide-IsMeant Meaning.unknown s = inr (λ h. h)

pub not-empty : (s : List ℕ) → (length s == 0) ≡ false → s ≢ []
not-empty [] h e = cc
not-empty (c ∷ s) h e = absurd (omega (arith, ap length e))

empty-length : (s : List ℕ) → (length s == 0) ≡ true → s ≡ []
empty-length [] h = refl
empty-length (c ∷ s) h = absurd (ground arith)

pub nonempty-length : (s : List ℕ) → s ≢ [] → (length s == 0) ≡ false
nonempty-length [] h = absurd (h refl)
nonempty-length (c ∷ s) h = ground arith
