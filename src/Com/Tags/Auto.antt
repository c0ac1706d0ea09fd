-- ===== src/Com/Tags/Auto.antt =====
-- The enum `autoType` and its table `autoTypeString` of src/com/Comm.h.
use litealigndata.Prelude.{ℕ, List, [], ◌∷◌, codes}
use litealigndata.Com.Tags.{find_relative_tag, nth}

pub data AutoType : Type 0 where
  invalid head body structure union uint64 int64 uint32 int32 uint16 int16 uint8 int8 : AutoType
  ipv4 ipv6 ipv4v6 date_time byte_array string imsibcd bcd timeval sp_u8_4 sp_ipv6 : AutoType
  imsi_tbcd imeisv_bcd real_time bcd_2bytes ipv6_rsa_cu metric_list real_time_ms : AutoType
  ipv4_ipv6 share_pointer_mac_6byte ipv4_net ipv6_net string_net max : AutoType

-- The values in the order of the enum.
abbrev pub auto_tags : List AutoType
auto_tags =
    AutoType.invalid ∷ AutoType.head ∷ AutoType.body ∷ AutoType.structure ∷ AutoType.union
    ∷ AutoType.uint64 ∷ AutoType.int64 ∷ AutoType.uint32 ∷ AutoType.int32 ∷ AutoType.uint16
    ∷ AutoType.int16 ∷ AutoType.uint8 ∷ AutoType.int8 ∷ AutoType.ipv4 ∷ AutoType.ipv6
    ∷ AutoType.ipv4v6 ∷ AutoType.date_time ∷ AutoType.byte_array ∷ AutoType.string
    ∷ AutoType.imsibcd ∷ AutoType.bcd ∷ AutoType.timeval ∷ AutoType.sp_u8_4 ∷ AutoType.sp_ipv6
    ∷ AutoType.imsi_tbcd ∷ AutoType.imeisv_bcd ∷ AutoType.real_time ∷ AutoType.bcd_2bytes
    ∷ AutoType.ipv6_rsa_cu ∷ AutoType.metric_list ∷ AutoType.real_time_ms ∷ AutoType.ipv4_ipv6
    ∷ AutoType.share_pointer_mac_6byte ∷ AutoType.ipv4_net ∷ AutoType.ipv6_net ∷ AutoType.string_net
    ∷ AutoType.max ∷ []

abbrev pub auto_strings : List (List ℕ)
auto_strings =
    codes "AUTO_Invalid"
    ∷ codes "AUTO_Head"
    ∷ codes "AUTO_Body"
    ∷ codes "AUTO_Struct"
    ∷ codes "AUTO_Union"
    ∷ codes "AUTO_UINT64"
    ∷ codes "AUTO_INT64"
    ∷ codes "AUTO_UINT32"
    ∷ codes "AUTO_INT32"
    ∷ codes "AUTO_UINT16"
    ∷ codes "AUTO_INT16"
    ∷ codes "AUTO_UINT8"
    ∷ codes "AUTO_INT8"
    ∷ codes "AUTO_IPV4"
    ∷ codes "AUTO_IPV6"
    ∷ codes "AUTO_IPV4V6"
    ∷ codes "AUTO_DateTime"
    ∷ codes "AUTO_ByteArray"
    ∷ codes "AUTO_STRING"
    ∷ codes "AUTO_IMSIBCD"
    ∷ codes "AUTO_BCD"
    ∷ codes "AUTO_TIMEVAL"
    ∷ codes "AUTO_SP_U8_4"
    ∷ codes "AUTO_SP_IPV6"
    ∷ codes "AUTO_IMSI_TBCD"
    ∷ codes "AUTO_IMEISV_BCD"
    ∷ codes "AUTO_RealTime"
    ∷ codes "AUTO_BCD_2Bytes"
    ∷ codes "AUTO_IPV6_RSA_CU"
    ∷ codes "AUTO_Metric_List"
    ∷ codes "AUTO_RealTime_ms"
    ∷ codes "AUTO_IPV4_IPV6"
    ∷ codes "AUTO_SharePointer_MAC_6Byte"
    ∷ codes "AUTO_IPV4_NET"
    ∷ codes "AUTO_IPV6_NET"
    ∷ codes "AUTO_STRING_NET"
    ∷ []

abbrev pub auto_max : ℕ
auto_max = 36

-- `(autoType) FindRelativeTag (autoTypeString, AUTO_MAX, str)`.
unfoldable pub auto_of_string : List ℕ → AutoType
unfolding find_relative_tag
auto_of_string str = nth AutoType.invalid auto_tags (find_relative_tag auto_strings auto_max str)

-- The table's entry of a value.
unfoldable pub auto_string : AutoType → List ℕ
auto_string AutoType.invalid = codes "AUTO_Invalid"
auto_string AutoType.head = codes "AUTO_Head"
auto_string AutoType.body = codes "AUTO_Body"
auto_string AutoType.structure = codes "AUTO_Struct"
auto_string AutoType.union = codes "AUTO_Union"
auto_string AutoType.uint64 = codes "AUTO_UINT64"
auto_string AutoType.int64 = codes "AUTO_INT64"
auto_string AutoType.uint32 = codes "AUTO_UINT32"
auto_string AutoType.int32 = codes "AUTO_INT32"
auto_string AutoType.uint16 = codes "AUTO_UINT16"
auto_string AutoType.int16 = codes "AUTO_INT16"
auto_string AutoType.uint8 = codes "AUTO_UINT8"
auto_string AutoType.int8 = codes "AUTO_INT8"
auto_string AutoType.ipv4 = codes "AUTO_IPV4"
auto_string AutoType.ipv6 = codes "AUTO_IPV6"
auto_string AutoType.ipv4v6 = codes "AUTO_IPV4V6"
auto_string AutoType.date_time = codes "AUTO_DateTime"
auto_string AutoType.byte_array = codes "AUTO_ByteArray"
auto_string AutoType.string = codes "AUTO_STRING"
auto_string AutoType.imsibcd = codes "AUTO_IMSIBCD"
auto_string AutoType.bcd = codes "AUTO_BCD"
auto_string AutoType.timeval = codes "AUTO_TIMEVAL"
auto_string AutoType.sp_u8_4 = codes "AUTO_SP_U8_4"
auto_string AutoType.sp_ipv6 = codes "AUTO_SP_IPV6"
auto_string AutoType.imsi_tbcd = codes "AUTO_IMSI_TBCD"
auto_string AutoType.imeisv_bcd = codes "AUTO_IMEISV_BCD"
auto_string AutoType.real_time = codes "AUTO_RealTime"
auto_string AutoType.bcd_2bytes = codes "AUTO_BCD_2Bytes"
auto_string AutoType.ipv6_rsa_cu = codes "AUTO_IPV6_RSA_CU"
auto_string AutoType.metric_list = codes "AUTO_Metric_List"
auto_string AutoType.real_time_ms = codes "AUTO_RealTime_ms"
auto_string AutoType.ipv4_ipv6 = codes "AUTO_IPV4_IPV6"
auto_string AutoType.share_pointer_mac_6byte = codes "AUTO_SharePointer_MAC_6Byte"
auto_string AutoType.ipv4_net = codes "AUTO_IPV4_NET"
auto_string AutoType.ipv6_net = codes "AUTO_IPV6_NET"
auto_string AutoType.string_net = codes "AUTO_STRING_NET"
auto_string AutoType.max = []
