-- ===== src/Struct/Objects.antt =====
-- The tree of objects below a table, as src/struct/AlignDataObject.h keeps it: what the layout and
-- the file formats read and write of it.
use litealigndata.Prelude.{ℕ, Bool, List}

-- `type` is the attribute's text; `union_flag` says whether `union_flag` is "true" in any case.
pub record Column : Type 0 where
  pub name : List ℕ
  pub type : List ℕ
  pub union_flag : Bool
  pub offset : ℕ
  pub len : ℕ

-- A structure or a union, apart from its children.
pub record Group : Type 0 where
  pub name : List ℕ
  pub offset : ℕ
  pub len : ℕ
  pub column_no : ℕ

mutual
  -- The `elementTag` of an object, with its fields and its children.
  pub data Element : Type 0 where
    column : Column → Element
    structure : Group → Elements → Element
    union : Group → Elements → Element
    other : Element

  pub data Elements : Type 0 where
    nil : Elements
    cons : Element → Elements → Elements
