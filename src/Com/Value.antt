-- ===== src/Com/Value.antt =====
-- `autoValue` of src/com/AlignDataTypeDef.h and AlignDataTypeDef.cc, and the two `SetValue` of
-- `CBaseFunc` in src/fun/BaseFuncClass.cc. A value points into the table's memory, or keeps its
-- bytes itself when it belongs to a sub-column. `none` is an access beyond the memory or through
-- the null pointer.
pub mod Access
pub mod Numbers
pub mod Arrays
pub mod Decimal
use litealigndata.Prelude.{
  ℕ, zero, suc, ◌+◌, ◌-◌, ◌*◌, ◌/◌, ◌%◌, ◌^◌, Bool, true, false, Option, none, some, List, [], ◌∷◌,
  ◌++◌, leb, ltb, ◌==◌, if◌then◌else◌, ◌>>=◌, u32, u64, length, take, replicate, same,
}
use litealigndata.Com.Bytes.{write_le, read_le, write_bytes, read_text}
use litealigndata.Com.Text.{strtoull}
use litealigndata.Com.Tags.Auto.{AutoType}
use litealigndata.Com.Types.{type_len, GenericType, convert_auto_type}

-- `m_inerData` has 64 bytes.
abbrev pub max_column_len : ℕ
max_column_len = 64

-- `data` is the offset that `m_data` points to in the table's memory, `none` the null pointer.
pub record AutoValue : Type 0 where
  pub type : AutoType
  pub pointer : Option ℕ
  pub inner : List ℕ
  pub len : ℕ
  pub is_sub_column : Bool

unfoldable pub new_value : AutoValue
new_value = record {
  type = AutoType.invalid;
  pointer = none;
  inner = replicate max_column_len 0;
  len = 0;
  is_sub_column = false;
}

-- `setType`.
unfoldable pub set_type : AutoType → AutoValue → AutoValue
set_type type v = record v { type = type; len = type_len type v.len }

-- A change of the bytes that `getData` points to.
unfoldable pub with_data :
    (ℕ → List ℕ → Option (List ℕ)) → AutoValue → List ℕ → Option (AutoValue × List ℕ)
with_data change v mem =
    if v.is_sub_column
    then (change 0 v.inner >>= λ bytes. some (record v { inner = bytes }, mem))
    else (v.pointer >>= λ addr. change addr mem >>= λ bytes. some (v, bytes))

-- A look at the bytes that `getData` points to.
unfoldable pub from_data {ℓ} :
    {A : Type ℓ} → (ℕ → List ℕ → Option A) → AutoValue → List ℕ → Option A
from_data look v mem =
    if v.is_sub_column then look 0 v.inner else (v.pointer >>= λ addr. look addr mem)

-- The number of bytes of a type that `setNumber` and `getnumber` treat as a number.
unfoldable pub number_width : AutoType → Option ℕ
number_width AutoType.uint64 = some 8
number_width AutoType.imsibcd = some 8
number_width AutoType.bcd = some 8
number_width AutoType.imsi_tbcd = some 8
number_width AutoType.imeisv_bcd = some 8
number_width AutoType.real_time = some 8
number_width AutoType.real_time_ms = some 8
number_width AutoType.int64 = some 8
number_width AutoType.uint32 = some 4
number_width AutoType.ipv4 = some 4
number_width AutoType.ipv4v6 = some 4
number_width AutoType.int32 = some 4
number_width AutoType.uint16 = some 2
number_width AutoType.bcd_2bytes = some 2
number_width AutoType.int16 = some 2
number_width AutoType.uint8 = some 1
number_width AutoType.int8 = some 1
number_width _ = none

-- `if ( number >= 1 << bits ) number -= 1 << bits`, for the unsigned types below 64 bits.
unfoldable pub reduced : AutoType → ℕ → ℕ
reduced AutoType.uint32 n = if leb (2 ^ 32) n then n - 2 ^ 32 else n
reduced AutoType.ipv4 n = if leb (2 ^ 32) n then n - 2 ^ 32 else n
reduced AutoType.ipv4v6 n = if leb (2 ^ 32) n then n - 2 ^ 32 else n
reduced AutoType.uint16 n = if leb (2 ^ 16) n then n - 2 ^ 16 else n
reduced AutoType.bcd_2bytes n = if leb (2 ^ 16) n then n - 2 ^ 16 else n
reduced AutoType.uint8 n = if leb (2 ^ 8) n then n - 2 ^ 8 else n
reduced _ n = n

-- `std::to_string`: the digits of a number below 10 ^ fuel, behind which `acc` stands.
unfoldable pub digits_of : ℕ → ℕ → List ℕ → List ℕ
digits_of zero n acc = acc
digits_of (suc fuel) n acc =
    let more = digits_of fuel (n / 10) ((b'0' + n % 10) ∷ acc) in
    if ltb n 10 then (b'0' + n % 10) ∷ acc else more

unfoldable pub to_string : ℕ → List ℕ
unfolding digits_of
to_string n = digits_of 20 n []

unfoldable pub is_byte_array : AutoType → Bool
is_byte_array AutoType.byte_array = true
is_byte_array _ = false

-- `setNumber`: a byte array takes the decimal digits with a terminator, the numbers take their low
-- bytes, and the other types take nothing.
unfoldable pub set_number : ℕ → AutoValue → List ℕ → Option (AutoValue × List ℕ)
set_number number v mem = elim (number_width v.type) [
  | some width ↦ with_data (λ addr. write_le width addr (reduced v.type number)) v mem
  | none ↦
      if is_byte_array v.type
      then with_data (λ addr. write_bytes addr (to_string number ++ 0 ∷ [])) v mem
      else some (v, mem)
]

-- A signed number of `bits` bits as the `uint64_t` that it is returned as.
abbrev pub extended : ℕ → ℕ → ℕ
extended bits n = if leb (2 ^ (bits - 1)) n then n + (2 ^ 64 - 2 ^ bits) else n

unfoldable pub widened : AutoType → ℕ → ℕ
widened AutoType.int32 n = extended 32 n
widened AutoType.int16 n = extended 16 n
widened AutoType.int8 n = extended 8 n
widened _ n = n

-- `getnumber`.
unfoldable pub get_number : AutoValue → List ℕ → Option ℕ
get_number v mem = elim (number_width v.type) [
  | some width ↦ from_data (read_le width) v mem >>= λ n. some (widened v.type n)
  | none ↦ some 0
]

-- `getString`.
unfoldable pub get_string : AutoValue → List ℕ → Option (List ℕ)
get_string v mem = from_data (λ addr bytes. some (read_text addr bytes)) v mem

-- `getToString`, whose cases other than that of a byte array leave the text empty.
unfoldable pub get_to_string : AutoValue → List ℕ → Option (List ℕ)
get_to_string v mem = elim (convert_auto_type v.type) [
  | GenericType.byte_array ↦ get_string v mem
  | _ ↦ some []
]

-- The copied length of `AsciiToByteArray`: at most 255, and with right alignment at most that of
-- the value.
unfoldable pub capped : ℕ → ℕ
capped len = if ltb 255 len then 255 else len

unfoldable pub fitted : ℕ → ℕ → ℕ
fitted len data_length = if ltb data_length len then data_length else len

-- `AsciiToByteArray` at the address of the value.
unfoldable pub align_right : List ℕ → ℕ → ℕ → List ℕ → Option (List ℕ)
align_right ascii data_length addr mem =
    let fit = fitted (capped (length ascii)) data_length in
    write_bytes addr (replicate data_length 0) mem >>= λ cleared.
    write_bytes (addr + (data_length - fit)) (take fit ascii) cleared

unfoldable pub align_left : List ℕ → ℕ → List ℕ → Option (List ℕ)
align_left ascii addr mem = write_bytes addr (take (capped (length ascii)) ascii ++ 0 ∷ []) mem

unfoldable pub ascii_to_byte_array :
    List ℕ → Bool → AutoValue → List ℕ → Option (AutoValue × List ℕ)
ascii_to_byte_array ascii is_right_align v mem =
    if is_right_align
    then with_data (align_right ascii v.len) v mem
    else with_data (align_left ascii) v mem

abbrev pub magic_number : ℕ
magic_number = 0x7fffffffffffffff

-- `AsciiToDec`.
unfoldable pub ascii_to_dec : List ℕ → AutoValue → List ℕ → Option (AutoValue × List ℕ)
ascii_to_dec ascii v mem = set_number (if same ascii [] then magic_number else strtoull ascii) v mem
