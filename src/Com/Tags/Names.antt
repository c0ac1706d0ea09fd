-- ===== src/Com/Tags/Names.antt =====
-- Every value of the five enums is found by its own name.
use litealigndata.Prelude.{◌≡◌, refl, ◌≢◌}
use litealigndata.Com.Tags.Auto.{AutoType, auto_of_string, auto_string}
use litealigndata.Com.Tags.Attr.{AttrTag, attr_of_string, attr_string}
use litealigndata.Com.Tags.Element.{ElementTag, element_of_string, element_string}
use litealigndata.Com.Tags.Func.{FuncTag, func_of_string, func_string}
use litealigndata.Com.Tags.Para.{ParameterTag, para_of_string, para_string}

-- The table's name of a data type tag, whichever it is but the end mark, is read back as that tag.
pub auto_of_string-auto_string :
    (t : AutoType) → t ≢ AutoType.max → auto_of_string (auto_string t) ≡ t
unfolding auto_of_string auto_string
auto_of_string-auto_string AutoType.max h = absurd (h refl)
auto_of_string-auto_string _ h = refl

-- The table's name of an attribute tag, whichever it is but the end mark, is read back as that
-- tag.
attr_of_string-attr_string : (t : AttrTag) → t ≢ AttrTag.max → attr_of_string (attr_string t) ≡ t
unfolding attr_of_string attr_string
attr_of_string-attr_string AttrTag.max h = absurd (h refl)
attr_of_string-attr_string _ h = refl

-- The table's name of an element tag, whichever it is but the end mark, is read back as that tag.
pub element_of_string-element_string :
    (t : ElementTag) → t ≢ ElementTag.max → element_of_string (element_string t) ≡ t
unfolding element_of_string element_string
element_of_string-element_string ElementTag.max h = absurd (h refl)
element_of_string-element_string _ h = refl

-- The table's name of a function tag, whichever it is but the end mark, is read back as that tag.
pub func_of_string-func_string :
    (t : FuncTag) → t ≢ FuncTag.max → func_of_string (func_string t) ≡ t
unfolding func_of_string func_string
func_of_string-func_string FuncTag.max h = absurd (h refl)
func_of_string-func_string _ h = refl

-- The table's name of a parameter tag, whichever it is but the end mark, is read back as that tag.
para_of_string-para_string :
    (t : ParameterTag) → t ≢ ParameterTag.max → para_of_string (para_string t) ≡ t
unfolding para_of_string para_string
para_of_string-para_string ParameterTag.max h = absurd (h refl)
para_of_string-para_string _ h = refl
