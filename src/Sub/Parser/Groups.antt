-- ===== src/Sub/Parser/Groups.antt =====
-- One column, and one structure or union around members that are parsed.
use mathlib.Core.Path.{subst}
use litealigndata.Prelude.{
  ℕ, suc, ◌+◌, ◌^◌, ◌<◌, ◌≡◌, refl, sym, ◌∙◌, arith, true, some, List, length, u32, same, codes,
  if◌then◌else◌,
}
use litealigndata.Com.Stack.{OffsetStack, stack_push, stack_pop}
use litealigndata.Com.Stack.Contents.{IsStack}
use litealigndata.Com.Types.{find_nametype_len}
use litealigndata.Struct.Objects.{Column, Group, Element, column, structure, union, Elements}
use litealigndata.Sub.Parser.{
  Kind, of_struct, of_union, NestedElement, Parser, new_element, add_to_top, parse_column,
  end_struct, end_union, parse_node, parse_list,
}
use litealigndata.Sub.Parser.Sizes.{size_of, total_of, count, IsMeasured, AreMeasured}
use litealigndata.Sub.Parser.Frames.{
  Frame, inside, IsTop, Room, after, Kept, Kept-trans, add_to_top-IsTop, stack_push-IsPushed,
  stack_pop-IsTop,
}
use litealigndata.Sub.Parser.Members.{joined}
use litealigndata.Sub.Parser.Joins.{
  group_of, whole, whole_total, joined-zero, all_after, inside-same, all_after-whole,
}

-- An object is parsed inside of `f`: it succeeds, and gives the lengths that are meant.
abbrev pub NodeResult : (ℕ → List ℕ) → Element → Frame → Parser → Type 0
NodeResult malloc e f p =
    (e' : Element) × (p' : Parser) × (parse_node malloc e p ≡ some (e', p'))
    × IsMeasured e e'
    × Kept p.stack p'.stack
    × IsTop (after f (size_of e)) p'.stack

abbrev pub ListResult : (ℕ → List ℕ) → Elements → Frame → Parser → Type 0
ListResult malloc es f p =
    (es' : Elements) × (p' : Parser) × (parse_list malloc es p ≡ some (es', p'))
    × AreMeasured es es'
    × Kept p.stack p'.stack
    × IsTop (all_after f es) p'.stack

-- Behind the push.
abbrev pub entered : Kind → Parser → OffsetStack NestedElement → Parser
entered of_struct p s = record p { stack = s; struct_offset = p.offset }
entered of_union p s = record p { stack = s; union_offset = p.offset }

entered-stack : (k : Kind) (p : Parser) (s : OffsetStack NestedElement) → (entered k p s).stack ≡ s
entered-stack of_struct p s = refl
entered-stack of_union p s = refl

all_after-start :
    (k : Kind) (kids : Elements)
    → all_after (inside k 0 0) kids ≡ inside k (whole k kids) (count kids)
all_after-start k kids =
    all_after-whole k 0 0 kids
    ∙ inside-same k (joined k 0 (whole k kids)) (whole k kids) (0 + count kids) (count kids)
        (joined-zero k (whole k kids)) (omega arith)

abbrev GroupResult : (ℕ → List ℕ) → Kind → Group → Elements → Frame → Parser → Type 0
GroupResult malloc k g kids f p =
    (h : Group) × (kids' : Elements) × (p' : Parser) × (parse_node malloc (group_of k g kids) p
      ≡ some (group_of k h kids', p'))
    × (h.name ≡ g.name)
    × (h.len ≡ whole k kids)
    × AreMeasured kids kids'
    × Kept p.stack p'.stack
    × IsTop (after f (whole k kids)) p'.stack

module _ (malloc : ℕ → List ℕ) (cells_of : (n : ℕ) → length (malloc n) ≡ n) where
  pub column-NodeResult :
      (c : Column) (f : Frame) (p : Parser)
      → IsStack p.stack
      → IsTop f p.stack
      → Room f (size_of (column c)) 1
      → NodeResult malloc (column c) f p
  unfolding parse_node parse_column
  column-NodeResult c f p ok top room =
      let (s, added, kept, top') =
        add_to_top-IsTop malloc f (find_nametype_len c.type) p.stack cells_of ok top room in
      (
        column (record c { offset = p.offset; len = find_nametype_len c.type }),
        record p {
          offset = u32 (p.offset + find_nametype_len c.type);
          stack = s;
          column_no = u32 (p.column_no + 1);
        },
        rw (added, parse_column) refl,
        (refl, refl, refl, refl),
        kept,
        top',
      )

  -- The push, the members, the pop and the length of the enclosing element.
  structure-parsed :
      (g : Group) (kids kids' : Elements) (p p1 : Parser) (s1 s3 s4 : OffsetStack NestedElement)
      (elem : NestedElement)
      → stack_push (new_element malloc of_struct) p.stack ≡ (s1, true)
      → parse_list malloc kids (record p { stack = s1; struct_offset = p.offset })
        ≡ some (kids', p1)
      → stack_pop p1.stack ≡ (s3, some elem)
      → add_to_top malloc elem.total_length s3 ≡ some s4
      → (h : Group) × (p' : Parser) × (parse_node malloc (structure g kids) p
          ≡ some (structure h kids', p'))
        × (h.name ≡ g.name)
        × (h.len ≡ u32 elem.total_length)
        × (p'.stack ≡ s4)
  unfolding parse_node end_struct
  structure-parsed g kids kids' p p1 s1 s3 s4 elem pushed inner popped added = (
    record g {
      offset = p1.struct_offset;
      len = u32 elem.total_length;
      column_no = if same g.name (codes "BodyData") then p1.column_no else g.column_no;
    },
    record p1 { offset = u32 (p1.struct_offset + elem.total_length); stack = s4 },
    rw (pushed, inner, end_struct) (rw (popped, added) refl),
    refl,
    refl,
    refl,
  )

  union-parsed :
      (g : Group) (kids kids' : Elements) (p p1 : Parser) (s1 s3 s4 : OffsetStack NestedElement)
      (elem : NestedElement)
      → stack_push (new_element malloc of_union) p.stack ≡ (s1, true)
      → parse_list malloc kids (record p { stack = s1; union_offset = p.offset }) ≡ some (kids', p1)
      → stack_pop p1.stack ≡ (s3, some elem)
      → add_to_top malloc elem.total_length s3 ≡ some s4
      → (h : Group) × (p' : Parser) × (parse_node malloc (union g kids) p
          ≡ some (union h kids', p'))
        × (h.name ≡ g.name)
        × (h.len ≡ u32 elem.total_length)
        × (p'.stack ≡ s4)
  unfolding parse_node end_union
  union-parsed g kids kids' p p1 s1 s3 s4 elem pushed inner popped added = (
    record g { offset = p1.union_offset; len = u32 elem.total_length },
    record p1 { offset = u32 (p1.union_offset + elem.total_length); stack = s4 },
    rw (pushed, inner, end_union) (rw (popped, added) refl),
    refl,
    refl,
    refl,
  )

  group-parsed :
      (k : Kind) (g : Group) (kids kids' : Elements) (p p1 : Parser)
      (s1 s3 s4 : OffsetStack NestedElement) (elem : NestedElement)
      → stack_push (new_element malloc k) p.stack ≡ (s1, true)
      → parse_list malloc kids (entered k p s1) ≡ some (kids', p1)
      → stack_pop p1.stack ≡ (s3, some elem)
      → add_to_top malloc elem.total_length s3 ≡ some s4
      → (h : Group) × (p' : Parser) × (parse_node malloc (group_of k g kids) p
          ≡ some (group_of k h kids', p'))
        × (h.name ≡ g.name)
        × (h.len ≡ u32 elem.total_length)
        × (p'.stack ≡ s4)
  group-parsed of_struct g kids kids' p p1 s1 s3 s4 elem pushed inner popped added =
      structure-parsed g kids kids' p p1 s1 s3 s4 elem pushed inner popped added
  group-parsed of_union g kids kids' p p1 s1 s3 s4 elem pushed inner popped added =
      union-parsed g kids kids' p p1 s1 s3 s4 elem pushed inner popped added

  pub group-result :
      (k : Kind) (g : Group) (kids : Elements) (f : Frame) (p : Parser)
      → IsStack p.stack
      → IsTop f p.stack
      → Room f (whole k kids) 1
      → p.stack.depth < 100
      → total_of kids < 2 ^ 32
      → ((s1 : OffsetStack NestedElement)
          → IsStack s1
          → IsTop (inside k 0 0) s1
          → s1.depth ≡ suc p.stack.depth
          → ListResult malloc kids (inside k 0 0) (entered k p s1))
      → GroupResult malloc k g kids f p
  group-result k g kids f p ok top room deep small inner =
      let (s1, pushed, new, top1) = stack_push-IsPushed malloc k p.stack cells_of ok deep in
      let (kids', p1, parsed, measured, kept, top2) = inner s1 new.whole top1 new.one_more in
      let kept' : Kept s1 p1.stack = subst (λ s. Kept s p1.stack) (entered-stack k p s1) kept in
      let end : IsTop (inside k (whole k kids) (count kids)) p1.stack =
        subst (λ x. IsTop x p1.stack) (all_after-start k kids) top2 in
      let (s3, elem, popped, total, kept3, top3) =
        stack_pop-IsTop f k (whole k kids) (count kids) p.stack s1 p1.stack top new kept' end in
      let (s4, added, kept4, top4) =
        add_to_top-IsTop malloc f elem.total_length s3 cells_of kept3.whole top3
          (subst (λ n. Room f n 1) (sym total) room) in
      let (h, p', done, name, len, stack) =
        group-parsed k g kids kids' p p1 s1 s3 s4 elem pushed parsed popped added in
      let fits : u32 elem.total_length ≡ whole k kids = omega (arith, total, whole_total k kids) in
      (
        h,
        kids',
        p',
        done,
        name,
        len ∙ fits,
        measured,
        subst (λ s. Kept p.stack s) (sym stack) (Kept-trans kept3 kept4),
        subst (λ s. IsTop (after f (whole k kids)) s) (sym stack)
            (subst (λ n. IsTop (after f n) s4) total top4),
      )
