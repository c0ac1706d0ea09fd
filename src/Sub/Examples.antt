-- ===== src/Sub/Examples.antt =====
-- Runs of the theorems about the code in src/sub.
use mathlib.Core.List.{Perm}
use mathlib.Core.List.Perm
use litealigndata.Prelude.{
  ℕ, ◌+◌, ◌*◌, ◌≡◌, refl, false, codes, replicate, length-replicate, some, List, [], ◌∷◌, arith,
  map,
}
use litealigndata.Com.Stack.Contents.{IsStack}
use litealigndata.Com.Types.{find_nametype_len, find_nameautotype}
use litealigndata.Struct.Objects.{Column, Group, Elements, column, structure, union, nil, cons}
use litealigndata.File.Example.{format, format_of}
use litealigndata.File.Example.Flat.{ArePlain, columns}
use litealigndata.File.Example.Rows.{AreLaid, row_width}
use litealigndata.Sub.Parser.{of_struct, Parser, new_element, parse_body}
use litealigndata.Sub.Parser.Sizes.{HaveFew, AreMeasured}
use litealigndata.Sub.Parser.Lengths.{parse_body-AreMeasured}
use litealigndata.Sub.Parser.Layout.{AreColumns, parse_body-AreLaid}
use litealigndata.Sub.Shuffle.{swap_lines}
use litealigndata.Sub.Shuffle.Swaps.{concat}
use litealigndata.Sub.Shuffle.Lines.{contents, ended, swap_lines-order}

-- Two lines, the second of which is empty, and a rest.
abbrev two_lines : List (List ℕ)
two_lines = (b'a' ∷ b'b' ∷ []) ∷ [] ∷ []

swap_lines-order_example :
    (order : List (List ℕ)) × (swap_lines 4096
        (λ i. 7 * i + 3)
        (λ lines. lines)
        4
        (contents two_lines (b'c' ∷ []))
      ≡ some (0, some (concat order)))
    × Perm order (map ended two_lines)
swap_lines-order_example =
    swap_lines-order 4096 (λ i. 7 * i + 3) (λ lines. lines) 4 two_lines (b'c' ∷ [])
      (λ lines. Perm.refl lines) (omega arith)
      (
        ((omega arith), (omega arith), ((omega arith), (omega arith), tt)),
        (omega arith),
        (tt, (omega arith), tt),
      )
      (omega arith, omega arith, tt) (omega arith) (omega arith)

abbrev cells : ℕ → List ℕ
cells n = replicate n 0

abbrev new_parser : Parser
new_parser = record {
  offset = 0;
  struct_offset = 0;
  union_offset = 0;
  stack = record { cells = replicate 100 (new_element cells of_struct); depth = 0 };
  column_no = 0;
}

new_parser-IsStack : IsStack new_parser.stack
new_parser-IsStack = record {
  allocated = length-replicate 100 (new_element cells of_struct);
  in_use = omega arith;
}

abbrev of_type : List ℕ → Column
of_type type = record { name = codes "c"; type = type; union_flag = false; offset = 0; len = 0 }

abbrev group : Group
group = record { name = codes "BodyData"; offset = 0; len = 0; column_no = 0 }

abbrev two_columns : Elements
two_columns =
    cons (column (of_type (codes "AUTO_UINT64")))
      (cons (column (of_type (codes "AUTO_STRING"))) nil)

-- A number, and a union of a text and a structure.
abbrev nested_body : Elements
nested_body =
    cons
      (structure group (
        cons (column (of_type (codes "AUTO_UINT32"))) (
          cons
            (union group (
              cons (column (of_type (codes "AUTO_STRING")))
                (cons (structure group two_columns) nil)))
            nil)))
      nil

nested_body-HaveFew : HaveFew nested_body
unfolding find_nametype_len
nested_body-HaveFew = (
  (
    (omega arith),
    (omega arith),
    (
      tt,
      (
        ((omega arith), (omega arith), (tt, (((omega arith), (omega arith), (tt, (tt, tt))), tt))),
        tt,
      ),
    ),
  ),
  tt,
)

parse_body-AreMeasured_example :
    (body' : Elements) × (p' : Parser) × (parse_body cells nested_body new_parser
      ≡ some (body', p'))
    × AreMeasured nested_body body'
    × (p'.stack.depth ≡ 0)
parse_body-AreMeasured_example =
    parse_body-AreMeasured cells nested_body new_parser (λ n. length-replicate n 0)
      new_parser-IsStack refl (omega arith) nested_body-HaveFew

two_columns-AreColumns : AreColumns two_columns
unfolding format format_of find_nameautotype
two_columns-AreColumns = (refl, cc, (refl, cc, tt))

parse_body-AreLaid_example :
    (h : Group) × (kids' : Elements) × (p' : Parser) × (parse_body cells
        (cons (structure group two_columns) nil)
        new_parser
      ≡ some (cons (structure h kids') nil, p'))
    × ArePlain kids'
    × AreLaid (columns kids') 0
    × (row_width (columns kids') ≡ h.len)
unfolding find_nametype_len
parse_body-AreLaid_example =
    parse_body-AreLaid cells group two_columns new_parser (λ n. length-replicate n 0)
      new_parser-IsStack refl two_columns-AreColumns (omega arith) (omega arith)
