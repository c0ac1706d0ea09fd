-- ===== src/Fun/Base.antt =====
-- `CBaseFunc::SetValue` of src/fun/BaseFuncClass.cc, by number and by text, and the percentage that
-- a draw of `rand` is compared with.
pub mod Percent
use litealigndata.Prelude.{
  ℕ, ◌+◌, ◌*◌, ◌/◌, Bool, true, false, Option, none, some, List, ltb, ◌==◌, if◌then◌else◌, ◌>>=◌,
  u32,
}
use litealigndata.Com.Random.{max_rand}
use litealigndata.Com.Tags.Auto.{AutoType}
use litealigndata.Com.Value.{AutoValue, set_number, ascii_to_byte_array, ascii_to_dec}

-- What `SetValue` does with a number that is not 0, by the type of the value.
pub data NumberCase : Type 0 where
  refused ignored stored : NumberCase

unfoldable pub number_case : AutoType → NumberCase
number_case AutoType.ipv6_rsa_cu = NumberCase.refused
number_case AutoType.ipv6 = NumberCase.refused
number_case AutoType.sp_ipv6 = NumberCase.refused
number_case AutoType.string = NumberCase.refused
number_case AutoType.sp_u8_4 = NumberCase.refused
number_case AutoType.ipv4_ipv6 = NumberCase.refused
number_case AutoType.imsibcd = NumberCase.ignored
number_case AutoType.bcd = NumberCase.ignored
number_case AutoType.imsi_tbcd = NumberCase.ignored
number_case AutoType.imeisv_bcd = NumberCase.ignored
number_case AutoType.bcd_2bytes = NumberCase.ignored
number_case _ = NumberCase.stored

-- The number 0 is stored whatever the type, unless the type is refused.
unfoldable pub set_value : ℕ → AutoValue → List ℕ → Option (Bool × AutoValue × List ℕ)
set_value ivalue v mem = elim (number_case v.type) [
  | NumberCase.refused ↦ some (false, v, mem)
  | NumberCase.ignored ↦
      if ivalue == 0
      then (set_number 0 v mem >>= λ r. some (true, r.0, r.1))
      else some (true, v, mem)
  | NumberCase.stored ↦ set_number ivalue v mem >>= λ r. some (true, r.0, r.1)
]

-- What `SetValue` does with a text. Of a `std::string` the assignment goes to raw memory, which C++
-- leaves undefined.
pub data TextCase : Type 0 where
  array undefined ignored decimal : TextCase

unfoldable pub text_case : AutoType → TextCase
text_case AutoType.byte_array = TextCase.array
text_case AutoType.string = TextCase.undefined
text_case AutoType.imsibcd = TextCase.ignored
text_case AutoType.bcd = TextCase.ignored
text_case AutoType.ipv6 = TextCase.ignored
text_case AutoType.ipv6_rsa_cu = TextCase.ignored
text_case AutoType.ipv4_ipv6 = TextCase.ignored
text_case AutoType.sp_ipv6 = TextCase.ignored
text_case AutoType.sp_u8_4 = TextCase.ignored
text_case AutoType.ipv4 = TextCase.ignored
text_case AutoType.imsi_tbcd = TextCase.ignored
text_case AutoType.imeisv_bcd = TextCase.ignored
text_case AutoType.bcd_2bytes = TextCase.ignored
text_case AutoType.ipv4_net = TextCase.ignored
text_case AutoType.ipv6_net = TextCase.ignored
text_case AutoType.string_net = TextCase.ignored
text_case _ = TextCase.decimal

unfoldable pub set_value_text :
    List ℕ → Bool → AutoValue → List ℕ → Option (Bool × AutoValue × List ℕ)
set_value_text value right_align v mem = elim (text_case v.type) [
  | TextCase.array ↦ ascii_to_byte_array value right_align v mem >>= λ r. some (true, r.0, r.1)
  | TextCase.undefined ↦ none
  | TextCase.ignored ↦ some (true, v, mem)
  | TextCase.decimal ↦ ascii_to_dec value v mem >>= λ r. some (true, r.0, r.1)
]

-- `(Random::MAX_RAND + 1) * percent / 100`.
unfoldable pub x_value : ℕ → ℕ
x_value percent = u32 ((max_rand + 1) * percent) / 100
