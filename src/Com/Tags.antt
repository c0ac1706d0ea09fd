-- ===== src/Com/Tags.antt =====
-- The name tables of src/com/Comm.h and the search in them, `FindRelativeTag` of
-- src/com/AlignDataTypeDef.cc.
pub mod Search
pub mod Auto
pub mod Attr
pub mod Element
pub mod Func
pub mod Para
pub mod Names
use litealigndata.Prelude.{
  ℕ, zero, suc, ◌+◌, ◌-◌, Bool, true, false, ◌&&◌, Option, none, some, List, [], ◌∷◌, map, leb,
  same, take, drop, if◌then◌else◌,
}

-- The letters compared by `strcasecmp` in lower case.
unfoldable pub to_lower : ℕ → ℕ
to_lower c = if leb b'A' c && leb c b'Z' then c + 32 else c

unfoldable pub same_case : List ℕ → List ℕ → Bool
unfolding to_lower
same_case a b = same (map to_lower a) (map to_lower b)

-- The loop of `FindRelativeTag` at index `i`, over the entries that are left.
unfoldable pub scan_tags : ℕ → List (List ℕ) → List ℕ → ℕ
scan_tags i [] str = 0
scan_tags i (entry ∷ rest) str = if same_case entry str then i else scan_tags (i + 1) rest str

-- `size` is at most the number of entries of the array, whose entry 0 is skipped.
unfoldable pub find_relative_tag : List (List ℕ) → ℕ → List ℕ → ℕ
unfolding scan_tags same_case
find_relative_tag strings size str = scan_tags 1 (drop 1 (take size strings)) str

-- The cast of a number to an enum whose values are listed in order.
abbrev pub nth {ℓ} : {A : Type ℓ} → A → List A → ℕ → A
nth d [] n = d
nth d (x ∷ xs) zero = x
nth d (x ∷ xs) (suc n) = nth d xs n
