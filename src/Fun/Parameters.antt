-- ===== src/Fun/Parameters.antt =====
-- The parameter loops of `CBaseFunc::process` and `UniqueRandomFunc::process` in
-- src/fun/BaseFuncClass.cc.
pub mod Meaning
pub mod Reading
pub mod Meant
use litealigndata.Prelude.{
  ℕ, Bool, true, false, Option, none, some, List, [], ◌∷◌, ◌==◌, ltb, ◌&&◌, not, if◌then◌else◌,
  ◌>>=◌, length, u8, u32, u64,
}
use litealigndata.Com.Text.{is_all_digits, atol, atoi}
use litealigndata.Com.Tags.Para.{ParameterTag, para_of_string}
use litealigndata.Fun.UniqueRandom.{Settings}

-- A parameter object, by its name and its text.
pub record Parameter : Type 0 where
  pub name : List ℕ
  pub value : List ℕ

pub record BaseFields : Type 0 where
  pub imsi_type : ℕ
  pub right_align : ℕ

-- `if ( !isAlldigits( value ) ) return false`, before what goes on.
unfoldable pub checked {ℓ} : {A : Type ℓ} → List ℕ → A → Option A
checked value rest = if is_all_digits value (length value) then some rest else none

-- The `switch` of the base class; its right alignment refuses just the texts of digits.
unfoldable pub base_parameter : ParameterTag → List ℕ → BaseFields → Option BaseFields
base_parameter ParameterTag.imsitype value f =
    checked value (record f { imsi_type = u32 (atoi value) })
base_parameter ParameterTag.byte_array_right_align value f =
    if is_all_digits value (length value)
    then none
    else some (record f { right_align = u32 (atoi value) })
base_parameter _ value f = some f

unfoldable pub is_value : ParameterTag → Bool
is_value ParameterTag.value = true
is_value _ = false

unfoldable pub base_process : List Parameter → BaseFields → Option BaseFields
base_process [] f = some f
base_process (p ∷ rest) f =
    let tag = para_of_string p.name in
    let next =
      if (length p.value == 0) && not (is_value tag) then none else base_parameter tag p.value f in
    next >>= λ g. base_process rest g

-- The fields of `UniqueRandomFunc` that its parameters set.
pub record UniqueFields : Type 0 where
  pub settings : Settings
  pub imsi_type : ℕ
  pub last_number : ℕ

-- `uint8_t percent = atoi( value )`, which has to be at most 100.
unfoldable pub percentage {ℓ} : {A : Type ℓ} → List ℕ → (ℕ → A) → Option A
percentage value f =
    let percent = u8 (atoi value) in
    if is_all_digits value (length value)
    then if ltb 100 percent then none else some (f percent)
    else none

unfoldable pub unique_parameter : ParameterTag → List ℕ → UniqueFields → Option UniqueFields
unique_parameter ParameterTag.invalid value f = none
unique_parameter ParameterTag.low_range value f =
    checked value (record f { settings = record f.settings { low_range = u64 (atol value) } })
unique_parameter ParameterTag.high_range value f =
    checked value (record f { settings = record f.settings { high_range = u64 (atol value) } })
unique_parameter ParameterTag.imsitype value f =
    checked value (record f { imsi_type = u32 (atoi value) })
unique_parameter ParameterTag.reset value f =
    some (record f { settings = record f.settings { is_reset = u8 (atoi value) } })
unique_parameter ParameterTag.percent value f =
    percentage value (λ n. record f { settings = record f.settings { percent = n } })
unique_parameter ParameterTag.percent_in_batch value f =
    percentage value (λ n. record f { settings = record f.settings { percent_in_batch = n } })
unique_parameter ParameterTag.rows_in_batch value f =
    checked value (record f { settings = record f.settings { rows_in_batch = u32 (atoi value) } })
unique_parameter _ value f = some f

unfoldable pub unique_loop : List Parameter → UniqueFields → Option UniqueFields
unique_loop [] f = some f
unique_loop (p ∷ rest) f =
    let next =
      if length p.value == 0 then none else unique_parameter (para_of_string p.name) p.value f in
    next >>= λ g. unique_loop rest g

-- `UniqueRandomFunc::process`: the base class first, then the loop, then the first number.
unfoldable pub unique_process :
    List Parameter → BaseFields → UniqueFields → Option (BaseFields × UniqueFields)
unique_process params base f = base_process params base >>= λ b.
    unique_loop params f >>= λ g. some (b, record g { last_number = g.settings.low_range })
