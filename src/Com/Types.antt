-- ===== src/Com/Types.antt =====
-- What a data type means: the tables `nametype` of src/com/Comm.cc, and `setType` and
-- `ConvertAutoTypeToGenericType` of src/com/AlignDataTypeDef.h.
pub mod Tables
use litealigndata.Prelude.{
  ℕ, Bool, true, false, Option, none, some, List, [], ◌∷◌, codes, same, ◌==◌, if◌then◌else◌,
}
use litealigndata.Com.Tags.Auto.{AutoType}

pub data GenericType : Type 0 where
  invalid number byte_array ipv6 bcd max : GenericType

-- The cases of the byte arrays and texts have no `return` of their own and fall through to those of
-- the BCD numbers.
unfoldable pub convert_auto_type : AutoType → GenericType
convert_auto_type AutoType.uint64 = GenericType.number
convert_auto_type AutoType.uint32 = GenericType.number
convert_auto_type AutoType.ipv4 = GenericType.number
convert_auto_type AutoType.ipv4v6 = GenericType.number
convert_auto_type AutoType.uint16 = GenericType.number
convert_auto_type AutoType.uint8 = GenericType.number
convert_auto_type AutoType.int64 = GenericType.number
convert_auto_type AutoType.int32 = GenericType.number
convert_auto_type AutoType.int16 = GenericType.number
convert_auto_type AutoType.int8 = GenericType.number
convert_auto_type AutoType.ipv6_rsa_cu = GenericType.ipv6
convert_auto_type AutoType.ipv6 = GenericType.ipv6
convert_auto_type AutoType.ipv4_ipv6 = GenericType.ipv6
convert_auto_type AutoType.byte_array = GenericType.bcd
convert_auto_type AutoType.string = GenericType.bcd
convert_auto_type AutoType.ipv4_net = GenericType.bcd
convert_auto_type AutoType.ipv6_net = GenericType.bcd
convert_auto_type AutoType.string_net = GenericType.bcd
convert_auto_type AutoType.imsibcd = GenericType.bcd
convert_auto_type AutoType.bcd = GenericType.bcd
convert_auto_type AutoType.imsi_tbcd = GenericType.bcd
convert_auto_type AutoType.imeisv_bcd = GenericType.bcd
convert_auto_type AutoType.bcd_2bytes = GenericType.bcd
convert_auto_type _ = GenericType.invalid

abbrev pub max_str_len : ℕ
max_str_len = 256

-- The length that `setType` gives a value, from the one it has.
unfoldable pub type_len : AutoType → ℕ → ℕ
type_len AutoType.uint64 len = 8
type_len AutoType.int64 len = 8
type_len AutoType.imsibcd len = 8
type_len AutoType.imsi_tbcd len = 8
type_len AutoType.imeisv_bcd len = 8
type_len AutoType.real_time len = 8
type_len AutoType.real_time_ms len = 8
type_len AutoType.uint32 len = 4
type_len AutoType.int32 len = 4
type_len AutoType.ipv4 len = 4
type_len AutoType.ipv4v6 len = 4
type_len AutoType.uint16 len = 2
type_len AutoType.int16 len = 2
type_len AutoType.bcd_2bytes len = 2
type_len AutoType.uint8 len = 1
type_len AutoType.int8 len = 1
type_len AutoType.ipv6_rsa_cu len = 16
type_len AutoType.ipv6 len = 16
type_len AutoType.ipv4_ipv6 len = 16
type_len AutoType.ipv4_net len = 4
type_len AutoType.byte_array len = max_str_len
type_len _ len = len

pub record NameType : Type 0 where
  pub name : List ℕ
  pub type : AutoType
  pub len : ℕ

abbrev name_type : List ℕ → AutoType → ℕ → NameType
name_type name type len = record { name = name; type = type; len = len }

unfoldable pub nametype : List NameType
nametype =
    name_type (codes "AUTO_Invalid") AutoType.invalid 0
    ∷ name_type (codes "AUTO_UINT64") AutoType.uint64 8
    ∷ name_type (codes "AUTO_INT64") AutoType.int64 8
    ∷ name_type (codes "AUTO_UINT32") AutoType.uint32 4
    ∷ name_type (codes "AUTO_INT32") AutoType.int32 4
    ∷ name_type (codes "AUTO_UINT16") AutoType.uint16 2
    ∷ name_type (codes "AUTO_INT16") AutoType.int16 2
    ∷ name_type (codes "AUTO_UINT8") AutoType.uint8 1
    ∷ name_type (codes "AUTO_INT8") AutoType.int8 1
    ∷ name_type (codes "AUTO_IPV4") AutoType.ipv4 0
    ∷ name_type (codes "AUTO_IPV6") AutoType.ipv6 0
    ∷ name_type (codes "AUTO_IPV4V6") AutoType.ipv4v6 0
    ∷ name_type (codes "AUTO_DateTime") AutoType.date_time 0
    ∷ name_type (codes "AUTO_ByteArray") AutoType.byte_array 256
    ∷ name_type (codes "AUTO_STRING") AutoType.string 256
    ∷ name_type (codes "AUTO_IMSIBCD") AutoType.imsibcd 0
    ∷ name_type (codes "AUTO_BCD") AutoType.bcd 0
    ∷ name_type (codes "AUTO_TIMEVAL") AutoType.timeval 0
    ∷ name_type (codes "AUTO_SP_U8_4") AutoType.sp_u8_4 0
    ∷ name_type (codes "AUTO_SP_IPV6") AutoType.sp_ipv6 0
    ∷ name_type (codes "AUTO_IMSI_TBCD") AutoType.imsi_tbcd 0
    ∷ name_type (codes "AUTO_IMEISV_BCD") AutoType.imeisv_bcd 0
    ∷ name_type (codes "AUTO_RealTime") AutoType.real_time 8
    ∷ name_type (codes "AUTO_BCD_2Bytes") AutoType.bcd_2bytes 0
    ∷ name_type (codes "AUTO_IPV6_RSA_CU") AutoType.ipv6_rsa_cu 0
    ∷ name_type (codes "AUTO_Metric_List") AutoType.metric_list 0
    ∷ name_type (codes "AUTO_RealTime_ms") AutoType.real_time_ms 8
    ∷ name_type (codes "AUTO_IPV4_IPV6") AutoType.ipv4_ipv6 0
    ∷ name_type (codes "AUTO_SharePointer_MAC_6Byte") AutoType.share_pointer_mac_6byte 0
    ∷ name_type (codes "AUTO_IPV4_NET") AutoType.ipv4_net 0
    ∷ name_type (codes "AUTO_IPV6_NET") AutoType.ipv6_net 0
    ∷ name_type (codes "AUTO_STRING_NET") AutoType.string_net 0
    ∷ name_type (codes "AUTO_STRING_NET") AutoType.string_net 0
    ∷ name_type (codes "AUTO_Struct") AutoType.structure 0
    ∷ name_type (codes "AUTO_Union") AutoType.union 0
    ∷ name_type (codes "AUTO_MAX") AutoType.max 0
    ∷ []

-- The loop over the table by name.
unfoldable pub find_entry : List NameType → List ℕ → Option NameType
find_entry [] name = none
find_entry (e ∷ rest) name = if same name e.name then some e else find_entry rest name

unfoldable pub find_nametype : List ℕ → Option NameType
unfolding find_entry nametype
find_nametype name = find_entry nametype name

unfoldable pub find_nameautotype : List ℕ → AutoType
unfolding find_nametype
find_nameautotype name = elim (find_nametype name) [ none ↦ AutoType.invalid | some e ↦ e.type ]

unfoldable pub find_nametype_len : List ℕ → ℕ
unfolding find_nametype
find_nametype_len name = elim (find_nametype name) [ none ↦ 0 | some e ↦ e.len ]

-- Two values of the enum, compared as numbers.
unfoldable pub auto_code : AutoType → ℕ
auto_code AutoType.invalid = 0
auto_code AutoType.head = 1
auto_code AutoType.body = 2
auto_code AutoType.structure = 3
auto_code AutoType.union = 4
auto_code AutoType.uint64 = 5
auto_code AutoType.int64 = 6
auto_code AutoType.uint32 = 7
auto_code AutoType.int32 = 8
auto_code AutoType.uint16 = 9
auto_code AutoType.int16 = 10
auto_code AutoType.uint8 = 11
auto_code AutoType.int8 = 12
auto_code AutoType.ipv4 = 13
auto_code AutoType.ipv6 = 14
auto_code AutoType.ipv4v6 = 15
auto_code AutoType.date_time = 16
auto_code AutoType.byte_array = 17
auto_code AutoType.string = 18
auto_code AutoType.imsibcd = 19
auto_code AutoType.bcd = 20
auto_code AutoType.timeval = 21
auto_code AutoType.sp_u8_4 = 22
auto_code AutoType.sp_ipv6 = 23
auto_code AutoType.imsi_tbcd = 24
auto_code AutoType.imeisv_bcd = 25
auto_code AutoType.real_time = 26
auto_code AutoType.bcd_2bytes = 27
auto_code AutoType.ipv6_rsa_cu = 28
auto_code AutoType.metric_list = 29
auto_code AutoType.real_time_ms = 30
auto_code AutoType.ipv4_ipv6 = 31
auto_code AutoType.share_pointer_mac_6byte = 32
auto_code AutoType.ipv4_net = 33
auto_code AutoType.ipv6_net = 34
auto_code AutoType.string_net = 35
auto_code AutoType.max = 36

-- The loop over the table by type.
unfoldable pub scan_len : List NameType → AutoType → ℕ
unfolding auto_code
scan_len [] type = 0
scan_len (e ∷ rest) type = if auto_code type == auto_code e.type then e.len else scan_len rest type

unfoldable pub find_namelen : AutoType → ℕ
unfolding scan_len nametype
find_namelen type = scan_len nametype type
