-- ===== src/Com/Tags/Element.antt =====
-- The enum `elementTag` and its table `elementTagString` of src/com/Comm.h.
use litealigndata.Prelude.{ℕ, List, [], ◌∷◌, codes}
use litealigndata.Com.Tags.{find_relative_tag, nth}

pub data ElementTag : Type 0 where
  invalid aligndata_model interface table head body structure union column bit parameter :
      ElementTag
  sub_column subbit dimensional_file file_column function func_parameter max : ElementTag

-- The values in the order of the enum.
abbrev pub element_tags : List ElementTag
element_tags =
    ElementTag.invalid ∷ ElementTag.aligndata_model ∷ ElementTag.interface ∷ ElementTag.table
    ∷ ElementTag.head ∷ ElementTag.body ∷ ElementTag.structure ∷ ElementTag.union
    ∷ ElementTag.column ∷ ElementTag.bit ∷ ElementTag.parameter ∷ ElementTag.sub_column
    ∷ ElementTag.subbit ∷ ElementTag.dimensional_file ∷ ElementTag.file_column ∷ ElementTag.function
    ∷ ElementTag.func_parameter ∷ ElementTag.max ∷ []

abbrev pub element_strings : List (List ℕ)
element_strings =
    codes "INVALID"
    ∷ codes "aligndataMODEL"
    ∷ codes "INTERFACE"
    ∷ codes "TABLE"
    ∷ codes "Head"
    ∷ codes "Body"
    ∷ codes "Struct"
    ∷ codes "Union"
    ∷ codes "COLUMN"
    ∷ codes "Bit"
    ∷ codes "PARAMETER"
    ∷ codes "SUBCOLUMN"
    ∷ codes "Subbit"
    ∷ codes "DimensionalFile"
    ∷ codes "FileColumn"
    ∷ codes "Function"
    ∷ codes "FuncParameter"
    ∷ []

abbrev pub element_max : ℕ
element_max = 17

-- `(elementTag) FindRelativeTag (elementTagString, ELEMENT_Max, str)`.
unfoldable pub element_of_string : List ℕ → ElementTag
unfolding find_relative_tag
element_of_string str =
    nth ElementTag.invalid element_tags (find_relative_tag element_strings element_max str)

-- The table's entry of a value.
unfoldable pub element_string : ElementTag → List ℕ
element_string ElementTag.invalid = codes "INVALID"
element_string ElementTag.aligndata_model = codes "aligndataMODEL"
element_string ElementTag.interface = codes "INTERFACE"
element_string ElementTag.table = codes "TABLE"
element_string ElementTag.head = codes "Head"
element_string ElementTag.body = codes "Body"
element_string ElementTag.structure = codes "Struct"
element_string ElementTag.union = codes "Union"
element_string ElementTag.column = codes "COLUMN"
element_string ElementTag.bit = codes "Bit"
element_string ElementTag.parameter = codes "PARAMETER"
element_string ElementTag.sub_column = codes "SUBCOLUMN"
element_string ElementTag.subbit = codes "Subbit"
element_string ElementTag.dimensional_file = codes "DimensionalFile"
element_string ElementTag.file_column = codes "FileColumn"
element_string ElementTag.function = codes "Function"
element_string ElementTag.func_parameter = codes "FuncParameter"
element_string ElementTag.max = []
