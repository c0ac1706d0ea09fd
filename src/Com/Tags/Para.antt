-- ===== src/Com/Tags/Para.antt =====
-- The enum `parameterTag` and its table `ParaTypeString` of src/com/Comm.h.
use litealigndata.Prelude.{ℕ, List, [], ◌∷◌, codes}
use litealigndata.Com.Tags.{find_relative_tag, nth}

pub data ParameterTag : Type 0 where
  invalid prefix init step low_range high_range source_type value imsitype dep_column : ParameterTag
  dep_key tot_number file_number percent rows_in_batch percent_in_batch reset max_num : ParameterTag
  subscriber_id_type subscriber_id_hi_range subscriber_id_low_range session_id_hi_range :
      ParameterTag
  session_id_low_range ipv4_ipv6 ip_hi_range ip_low_range port_hi_range port_low_range :
      ParameterTag
  effect_on_interface sip_child_app byte_array_right_align duplicated_unit max : ParameterTag

-- The values in the order of the enum.
abbrev pub para_tags : List ParameterTag
para_tags =
    ParameterTag.invalid ∷ ParameterTag.prefix ∷ ParameterTag.init ∷ ParameterTag.step
    ∷ ParameterTag.low_range ∷ ParameterTag.high_range ∷ ParameterTag.source_type
    ∷ ParameterTag.value ∷ ParameterTag.imsitype ∷ ParameterTag.dep_column ∷ ParameterTag.dep_key
    ∷ ParameterTag.tot_number ∷ ParameterTag.file_number ∷ ParameterTag.percent
    ∷ ParameterTag.rows_in_batch ∷ ParameterTag.percent_in_batch ∷ ParameterTag.reset
    ∷ ParameterTag.max_num ∷ ParameterTag.subscriber_id_type ∷ ParameterTag.subscriber_id_hi_range
    ∷ ParameterTag.subscriber_id_low_range ∷ ParameterTag.session_id_hi_range
    ∷ ParameterTag.session_id_low_range ∷ ParameterTag.ipv4_ipv6 ∷ ParameterTag.ip_hi_range
    ∷ ParameterTag.ip_low_range ∷ ParameterTag.port_hi_range ∷ ParameterTag.port_low_range
    ∷ ParameterTag.effect_on_interface ∷ ParameterTag.sip_child_app
    ∷ ParameterTag.byte_array_right_align ∷ ParameterTag.duplicated_unit ∷ ParameterTag.max ∷ []

abbrev pub para_strings : List (List ℕ)
para_strings =
    codes "invalid"
    ∷ codes "prefix"
    ∷ codes "init"
    ∷ codes "step"
    ∷ codes "lowrange"
    ∷ codes "highrange"
    ∷ codes "SourceType"
    ∷ codes "value"
    ∷ codes "imsitype"
    ∷ codes "depColumn"
    ∷ codes "depKey"
    ∷ codes "totalnumber"
    ∷ codes "filenumber"
    ∷ codes "percent"
    ∷ codes "rowsInBatch"
    ∷ codes "percentInBatch"
    ∷ codes "reset"
    ∷ codes "maxnum"
    ∷ codes "subscriberid_type"
    ∷ codes "subscriberid_highrange"
    ∷ codes "subscriberid_lowrange"
    ∷ codes "sessionid_highrange"
    ∷ codes "sessionid_lowrange"
    ∷ codes "is_ipv4"
    ∷ codes "ip_highrange"
    ∷ codes "ip_lowrange"
    ∷ codes "port_highrange"
    ∷ codes "port_lowrange"
    ∷ codes "Effect_On_Interface"
    ∷ codes "sip_child_app"
    ∷ codes "byte_array_right_align"
    ∷ codes "duplicatedunit"
    ∷ []

abbrev pub para_max : ℕ
para_max = 32

-- `(parameterTag) FindRelativeTag (ParaTypeString, PARA_MAX, str)`.
unfoldable pub para_of_string : List ℕ → ParameterTag
unfolding find_relative_tag
para_of_string str =
    nth ParameterTag.invalid para_tags (find_relative_tag para_strings para_max str)

-- The table's entry of a value.
unfoldable pub para_string : ParameterTag → List ℕ
para_string ParameterTag.invalid = codes "invalid"
para_string ParameterTag.prefix = codes "prefix"
para_string ParameterTag.init = codes "init"
para_string ParameterTag.step = codes "step"
para_string ParameterTag.low_range = codes "lowrange"
para_string ParameterTag.high_range = codes "highrange"
para_string ParameterTag.source_type = codes "SourceType"
para_string ParameterTag.value = codes "value"
para_string ParameterTag.imsitype = codes "imsitype"
para_string ParameterTag.dep_column = codes "depColumn"
para_string ParameterTag.dep_key = codes "depKey"
para_string ParameterTag.tot_number = codes "totalnumber"
para_string ParameterTag.file_number = codes "filenumber"
para_string ParameterTag.percent = codes "percent"
para_string ParameterTag.rows_in_batch = codes "rowsInBatch"
para_string ParameterTag.percent_in_batch = codes "percentInBatch"
para_string ParameterTag.reset = codes "reset"
para_string ParameterTag.max_num = codes "maxnum"
para_string ParameterTag.subscriber_id_type = codes "subscriberid_type"
para_string ParameterTag.subscriber_id_hi_range = codes "subscriberid_highrange"
para_string ParameterTag.subscriber_id_low_range = codes "subscriberid_lowrange"
para_string ParameterTag.session_id_hi_range = codes "sessionid_highrange"
para_string ParameterTag.session_id_low_range = codes "sessionid_lowrange"
para_string ParameterTag.ipv4_ipv6 = codes "is_ipv4"
para_string ParameterTag.ip_hi_range = codes "ip_highrange"
para_string ParameterTag.ip_low_range = codes "ip_lowrange"
para_string ParameterTag.port_hi_range = codes "port_highrange"
para_string ParameterTag.port_low_range = codes "port_lowrange"
para_string ParameterTag.effect_on_interface = codes "Effect_On_Interface"
para_string ParameterTag.sip_child_app = codes "sip_child_app"
para_string ParameterTag.byte_array_right_align = codes "byte_array_right_align"
para_string ParameterTag.duplicated_unit = codes "duplicatedunit"
para_string ParameterTag.max = []
