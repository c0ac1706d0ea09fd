-- ===== src/Com/Tags/Attr.antt =====
-- The enum `AttrTag` and its table `AttrTagString` of src/com/Comm.h.
use litealigndata.Prelude.{ℕ, List, [], ◌∷◌, codes}
use litealigndata.Com.Tags.{find_relative_tag, nth}

pub data AttrTag : Type 0 where
  invalid union_flag name interval file_num row_num row_num_per_flow type gen_func_name : AttrTag
  source_type len low_range high_range prefix tableid localkey local_key_type : AttrTag
  local_key_bit col_idx csvhead_flag csv_flag bit_len path seed_file table_name confile : AttrTag
  seedfile_readline_or_whole is_stream table_type metrics_num rows_per_time_interval : AttrTag
  percentage offset misc percentage_period_rows duplicate_ifn_start duplicate_ifn_num : AttrTag
  row_quantity_each_time_read template_id col_value is_random_order max : AttrTag

-- The values in the order of the enum.
abbrev pub attr_tags : List AttrTag
attr_tags =
    AttrTag.invalid ∷ AttrTag.union_flag ∷ AttrTag.name ∷ AttrTag.interval ∷ AttrTag.file_num
    ∷ AttrTag.row_num ∷ AttrTag.row_num_per_flow ∷ AttrTag.type ∷ AttrTag.gen_func_name
    ∷ AttrTag.source_type ∷ AttrTag.len ∷ AttrTag.low_range ∷ AttrTag.high_range ∷ AttrTag.prefix
    ∷ AttrTag.tableid ∷ AttrTag.localkey ∷ AttrTag.local_key_type ∷ AttrTag.local_key_bit
    ∷ AttrTag.col_idx ∷ AttrTag.csvhead_flag ∷ AttrTag.csv_flag ∷ AttrTag.bit_len ∷ AttrTag.path
    ∷ AttrTag.seed_file ∷ AttrTag.table_name ∷ AttrTag.confile ∷ AttrTag.seedfile_readline_or_whole
    ∷ AttrTag.is_stream ∷ AttrTag.table_type ∷ AttrTag.metrics_num ∷ AttrTag.rows_per_time_interval
    ∷ AttrTag.percentage ∷ AttrTag.offset ∷ AttrTag.misc ∷ AttrTag.percentage_period_rows
    ∷ AttrTag.duplicate_ifn_start ∷ AttrTag.duplicate_ifn_num ∷ AttrTag.row_quantity_each_time_read
    ∷ AttrTag.template_id ∷ AttrTag.col_value ∷ AttrTag.is_random_order ∷ AttrTag.max ∷ []

abbrev pub attr_strings : List (List ℕ)
attr_strings =
    codes "invalid"
    ∷ codes "union_flag"
    ∷ codes "name"
    ∷ codes "interval"
    ∷ codes "fileNum"
    ∷ codes "rowNum"
    ∷ codes "rowNumPerFlow"
    ∷ codes "type"
    ∷ codes "genFuncName"
    ∷ codes "sourceType"
    ∷ codes "len"
    ∷ codes "LowRange"
    ∷ codes "HighRange"
    ∷ codes "Prefix"
    ∷ codes "TableId"
    ∷ codes "localkey"
    ∷ codes "localkeytype"
    ∷ codes "localkeybit"
    ∷ codes "ColIdx"
    ∷ codes "csvheadFlag"
    ∷ codes "csvFlag"
    ∷ codes "bitlen"
    ∷ codes "path"
    ∷ codes "seedfile"
    ∷ codes "TableName"
    ∷ codes "Confile"
    ∷ codes "seedfileReadlineOrWhole"
    ∷ codes "isStream"
    ∷ codes "tableType"
    ∷ codes "metricsNum"
    ∷ codes "RowsPerTimeInterval"
    ∷ codes "percentage"
    ∷ codes "offset"
    ∷ codes "misc"
    ∷ codes "percentage_period_rows"
    ∷ codes "duplicateIfnStart"
    ∷ codes "duplicateIfnNum"
    ∷ codes "row_quantity_each_time_read"
    ∷ codes "templateid"
    ∷ codes "colValue"
    ∷ codes "isRandomOrder"
    ∷ []

abbrev pub attr_max : ℕ
attr_max = 41

-- `(AttrTag) FindRelativeTag (AttrTagString, ATTR_Max, str)`.
unfoldable pub attr_of_string : List ℕ → AttrTag
unfolding find_relative_tag
attr_of_string str = nth AttrTag.invalid attr_tags (find_relative_tag attr_strings attr_max str)

-- The table's entry of a value.
unfoldable pub attr_string : AttrTag → List ℕ
attr_string AttrTag.invalid = codes "invalid"
attr_string AttrTag.union_flag = codes "union_flag"
attr_string AttrTag.name = codes "name"
attr_string AttrTag.interval = codes "interval"
attr_string AttrTag.file_num = codes "fileNum"
attr_string AttrTag.row_num = codes "rowNum"
attr_string AttrTag.row_num_per_flow = codes "rowNumPerFlow"
attr_string AttrTag.type = codes "type"
attr_string AttrTag.gen_func_name = codes "genFuncName"
attr_string AttrTag.source_type = codes "sourceType"
attr_string AttrTag.len = codes "len"
attr_string AttrTag.low_range = codes "LowRange"
attr_string AttrTag.high_range = codes "HighRange"
attr_string AttrTag.prefix = codes "Prefix"
attr_string AttrTag.tableid = codes "TableId"
attr_string AttrTag.localkey = codes "localkey"
attr_string AttrTag.local_key_type = codes "localkeytype"
attr_string AttrTag.local_key_bit = codes "localkeybit"
attr_string AttrTag.col_idx = codes "ColIdx"
attr_string AttrTag.csvhead_flag = codes "csvheadFlag"
attr_string AttrTag.csv_flag = codes "csvFlag"
attr_string AttrTag.bit_len = codes "bitlen"
attr_string AttrTag.path = codes "path"
attr_string AttrTag.seed_file = codes "seedfile"
attr_string AttrTag.table_name = codes "TableName"
attr_string AttrTag.confile = codes "Confile"
attr_string AttrTag.seedfile_readline_or_whole = codes "seedfileReadlineOrWhole"
attr_string AttrTag.is_stream = codes "isStream"
attr_string AttrTag.table_type = codes "tableType"
attr_string AttrTag.metrics_num = codes "metricsNum"
attr_string AttrTag.rows_per_time_interval = codes "RowsPerTimeInterval"
attr_string AttrTag.percentage = codes "percentage"
attr_string AttrTag.offset = codes "offset"
attr_string AttrTag.misc = codes "misc"
attr_string AttrTag.percentage_period_rows = codes "percentage_period_rows"
attr_string AttrTag.duplicate_ifn_start = codes "duplicateIfnStart"
attr_string AttrTag.duplicate_ifn_num = codes "duplicateIfnNum"
attr_string AttrTag.row_quantity_each_time_read = codes "row_quantity_each_time_read"
attr_string AttrTag.template_id = codes "templateid"
attr_string AttrTag.col_value = codes "colValue"
attr_string AttrTag.is_random_order = codes "isRandomOrder"
attr_string AttrTag.max = []
