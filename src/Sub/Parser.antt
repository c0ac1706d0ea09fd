-- ===== src/Sub/Parser.antt =====
-- `parse_node` of src/sub/parser/XmlParser.cc for the objects of a table's body: the offsets and
-- lengths of the columns, structures and unions. The names on the stack, which are only printed, and
-- what `parse_node` returns, which no caller reads, are left out; a column without a type, which
-- stays as it is, is an object of another kind. What `malloc` returns is an argument.
pub mod Sizes
pub mod Members
pub mod Frames
pub mod Joins
pub mod Groups
pub mod Lengths
pub mod Widths
pub mod Layout
use litealigndata.Prelude.{
  ℕ, zero, suc, ◌+◌, ◌-◌, Bool, true, false, Option, none, some, List, [], ◌∷◌, if◌then◌else◌,
  ◌>>=◌, set, codes, same, u32, u64,
}
use litealigndata.Com.Types.{find_nametype_len}
use litealigndata.Com.Stack.{
  DynamicArray, dynamic_array_init, dynamic_array_add, dynamic_array_max, OffsetStack,
  stack_is_empty, stack_push, stack_pop, stack_top,
}
use litealigndata.Struct.Objects.{
  Column, Group, Element, column, structure, union, other, Elements, nil, cons,
}

-- The texts "struct" and "union" of an element's type.
pub data Kind : Type 0 where
  of_struct of_union : Kind

pub record NestedElement : Type 0 where
  pub kind : Kind
  pub total_length : ℕ
  pub member_lengths : DynamicArray

-- The parser's fields that `parse_node` changes, and its reference argument `columnNo`.
pub record Parser : Type 0 where
  pub offset : ℕ
  pub struct_offset : ℕ
  pub union_offset : ℕ
  pub stack : OffsetStack NestedElement
  pub column_no : ℕ

module _ (malloc : ℕ → List ℕ) where
  unfoldable pub new_element : Kind → NestedElement
  new_element kind = record {
    kind = kind;
    total_length = 0;
    member_lengths = dynamic_array_init malloc;
  }

  -- A member's length reaches the element that it stands in.
  unfoldable pub add_length : ℕ → NestedElement → Option NestedElement
  add_length len current = elim current.kind [
    | of_struct ↦ some (record current { total_length = u64 (current.total_length + len) })
    | of_union ↦ dynamic_array_add malloc len current.member_lengths >>= λ lengths.
        dynamic_array_max lengths >>= λ largest.
        some (record current { total_length = largest; member_lengths = lengths })
  ]

  -- The element that `stack_top` points to is changed where it stands.
  unfoldable pub add_to_top : ℕ → OffsetStack NestedElement → Option (OffsetStack NestedElement)
  unfolding add_length
  add_to_top len stack =
      if stack_is_empty stack
      then some stack
      else (stack_top stack >>= λ current. add_length len current >>= λ changed.
          some (record stack { cells = set stack.cells (stack.depth - 1) changed }))

  -- The branch for a column.
  unfoldable pub parse_column : Column → Parser → Option (Column × Parser)
  parse_column c p =
      let len = find_nametype_len c.type in
      add_to_top len p.stack >>= λ stack. some (
        record c { offset = p.offset; len = len },
        record p {
          offset = u32 (p.offset + len);
          stack = stack;
          column_no = u32 (p.column_no + 1);
        },
      )

  -- Behind the children of a structure: `struct_offset` is what the last structure inside left.
  unfoldable pub end_struct : Group → Parser → Option (Group × Parser)
  end_struct g p =
      let (stack, popped) = stack_pop p.stack in
      popped >>= λ elem. add_to_top elem.total_length stack >>= λ stack'. some (
        record g {
          offset = p.struct_offset;
          len = u32 elem.total_length;
          column_no = if same g.name (codes "BodyData") then p.column_no else g.column_no;
        },
        record p { offset = u32 (p.struct_offset + elem.total_length); stack = stack' },
      )

  unfoldable pub end_union : Group → Parser → Option (Group × Parser)
  end_union g p =
      let (stack, popped) = stack_pop p.stack in
      popped >>= λ elem. add_to_top elem.total_length stack >>= λ stack'. some (
        record g { offset = p.union_offset; len = u32 elem.total_length },
        record p { offset = u32 (p.union_offset + elem.total_length); stack = stack' },
      )

  -- The branches of `parse_node`; where the stack is full, the children are not visited.
  unfoldable mutual
    pub parse_node : Element → Parser → Option (Element × Parser)
    parse_node (column c) p = parse_column c p >>= λ r. some (column r.0, r.1)
    parse_node (structure g kids) p =
        let (stack, pushed) = stack_push (new_element of_struct) p.stack in
        if pushed
        then (parse_list kids (record p { stack = stack; struct_offset = p.offset }) >>= λ r.
            end_struct g r.1 >>= λ s. some (structure s.0 r.0, s.1))
        else some (structure g kids, p)
    parse_node (union g kids) p =
        let (stack, pushed) = stack_push (new_element of_union) p.stack in
        if pushed
        then (parse_list kids (record p { stack = stack; union_offset = p.offset }) >>= λ r.
            end_union g r.1 >>= λ s. some (union s.0 r.0, s.1))
        else some (union g kids, p)
    parse_node other p = some (other, p)

    pub parse_list : Elements → Parser → Option (Elements × Parser)
    parse_list nil p = some (nil, p)
    parse_list (cons e rest) p =
        parse_node e p >>= λ r. parse_list rest r.1 >>= λ s. some (cons r.0 s.0, s.1)

  -- The branch for a body.
  unfoldable pub parse_body : Elements → Parser → Option (Elements × Parser)
  parse_body body p = parse_list body (record p { offset = 0 })
