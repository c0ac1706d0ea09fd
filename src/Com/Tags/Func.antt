-- ===== src/Com/Tags/Func.antt =====
-- The enum `funcTag` and its table `funcTagString` of src/com/Comm.h.
use litealigndata.Prelude.{ℕ, List, [], ◌∷◌, codes}
use litealigndata.Com.Tags.{find_relative_tag, nth}

pub data FuncTag : Type 0 where
  invalid acculate random file_reader fix merge none redefinenumber correlation : FuncTag
  unique_random max : FuncTag

-- The values in the order of the enum.
abbrev pub func_tags : List FuncTag
func_tags =
    FuncTag.invalid ∷ FuncTag.acculate ∷ FuncTag.random ∷ FuncTag.file_reader ∷ FuncTag.fix
    ∷ FuncTag.merge ∷ FuncTag.none ∷ FuncTag.redefinenumber ∷ FuncTag.correlation
    ∷ FuncTag.unique_random ∷ FuncTag.max ∷ []

abbrev pub func_strings : List (List ℕ)
func_strings =
    codes "invalid"
    ∷ codes "accumulate"
    ∷ codes "random"
    ∷ codes "fileReader"
    ∷ codes "fix"
    ∷ codes "merge"
    ∷ codes "None"
    ∷ codes "RedefineRowNumber"
    ∷ codes "Correlation"
    ∷ codes "UniqueRandom"
    ∷ []

abbrev pub func_max : ℕ
func_max = 10

-- `(funcTag) FindRelativeTag (funcTagString, FUNC_MAX, str)`.
unfoldable pub func_of_string : List ℕ → FuncTag
unfolding find_relative_tag
func_of_string str = nth FuncTag.invalid func_tags (find_relative_tag func_strings func_max str)

-- The table's entry of a value.
unfoldable pub func_string : FuncTag → List ℕ
func_string FuncTag.invalid = codes "invalid"
func_string FuncTag.acculate = codes "accumulate"
func_string FuncTag.random = codes "random"
func_string FuncTag.file_reader = codes "fileReader"
func_string FuncTag.fix = codes "fix"
func_string FuncTag.merge = codes "merge"
func_string FuncTag.none = codes "None"
func_string FuncTag.redefinenumber = codes "RedefineRowNumber"
func_string FuncTag.correlation = codes "Correlation"
func_string FuncTag.unique_random = codes "UniqueRandom"
func_string FuncTag.max = []
