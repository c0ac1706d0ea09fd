-- ===== src/Sub/Parser/Lengths.antt =====
-- The lengths that `parse_node` gives to the objects of a body.
use litealigndata.Prelude.{ℕ, ◌+◌, ◌≤◌, ◌≡◌, refl, ◌∙◌, arith, some, List, length}
use litealigndata.Com.Stack.Contents.{IsStack}
use litealigndata.Struct.Objects.{Element, column, structure, union, other, Elements, nil, cons}
use litealigndata.Sub.Parser.{of_struct, of_union, Parser, parse_node, parse_body}
use litealigndata.Sub.Parser.Sizes.{
  size_of, total_of, height, height_all, count, HasFew, HaveFew, AreMeasured,
}
use litealigndata.Sub.Parser.Frames.{Frame, outside, inside, IsTop, Room, after, Kept-trans}
use litealigndata.Sub.Parser.Joins.{Room-first, Room-after, after-nothing}
use litealigndata.Sub.Parser.Groups.{
  NodeResult, ListResult, entered, column-NodeResult, group-result,
}

module _ (malloc : ℕ → List ℕ) (cells_of : (n : ℕ) → length (malloc n) ≡ n) where
  mutual
    unfolding parse_node

    node-result :
        (e : Element) (f : Frame) (p : Parser)
        → IsStack p.stack
        → IsTop f p.stack
        → Room f (size_of e) 1
        → height e + p.stack.depth ≤ 100
        → HasFew e
        → NodeResult malloc e f p
    node-result (column c) f p ok top room deep few =
        column-NodeResult malloc cells_of c f p ok top room
    node-result (structure g kids) f p ok top room deep few =
        let (h, kids', p', done, name, len, measured, kept, top') =
          group-result malloc cells_of of_struct g kids f p ok top room (omega arith) few.1
            (λ s1 ok1 top1 more.
              list-result kids (inside of_struct 0 0) (entered of_struct p s1) ok1 top1
                (omega (arith, few.1), omega (arith, few.0)) (omega (arith, more)) few.2) in
        (structure h kids', p', done, (name, len, measured), kept, top')
    node-result (union g kids) f p ok top room deep few =
        let (h, kids', p', done, name, len, measured, kept, top') =
          group-result malloc cells_of of_union g kids f p ok top room (omega arith) few.1
            (λ s1 ok1 top1 more.
              list-result kids (inside of_union 0 0) (entered of_union p s1) ok1 top1
                (omega (arith, few.1), omega (arith, few.0)) (omega (arith, more)) few.2) in
        (union h kids', p', done, (name, len, measured), kept, top')
    node-result other f p ok top room deep few = (
      other,
      p,
      refl,
      tt,
      record { whole = ok; same_depth = refl; below = λ i lt. refl },
      after-nothing f p.stack top,
    )

    list-result :
        (es : Elements) (f : Frame) (p : Parser)
        → IsStack p.stack
        → IsTop f p.stack
        → Room f (total_of es) (count es)
        → height_all es + p.stack.depth ≤ 100
        → HaveFew es
        → ListResult malloc es f p
    list-result nil f p ok top room deep few =
        (nil, p, refl, tt, record { whole = ok; same_depth = refl; below = λ i lt. refl }, top)
    list-result (cons e rest) f p ok top room deep few =
        let (e', p1, first, measured, kept, top1) =
          node-result e f p ok top (Room-first f (size_of e) (total_of rest) (count rest) room)
            (omega arith) few.0 in
        let (rest', p2, others, measured', kept', top2) =
          list-result rest (after f (size_of e)) p1 kept.whole top1
            (Room-after f (size_of e) (total_of rest) (count rest) room)
            (omega (arith, kept.same_depth)) few.1 in
        (
          cons e' rest',
          p2,
          rw (first, others) refl,
          (measured, measured'),
          Kept-trans kept kept',
          top2,
        )

-- For a body that is parsed from an empty stack, where `malloc` gives the cells that are asked for:
-- when structures and unions stand in one another at most 100 deep, and each has fewer than 2 ^ 28
-- members whose lengths sum to less than 2 ^ 32, then parsing succeeds and leaves the stack empty,
-- and every object of the tree has the length that is meant: a column that of its type, a structure
-- the sum of its members' lengths, a union the largest of them. Names and types stay.
pub parse_body-AreMeasured :
    (malloc : ℕ → List ℕ) (body : Elements) (p : Parser)
    → ((n : ℕ) → length (malloc n) ≡ n)
    → IsStack p.stack
    → p.stack.depth ≡ 0
    → height_all body ≤ 100
    → HaveFew body
    → (body' : Elements) × (p' : Parser) × (parse_body malloc body p ≡ some (body', p'))
      × AreMeasured body body'
      × (p'.stack.depth ≡ 0)
unfolding parse_body
parse_body-AreMeasured malloc body p cells_of ok empty flat few =
    let (body', p', parsed, measured, kept, _) =
      list-result malloc cells_of body outside (record p { offset = 0 }) ok empty tt
        (omega (arith, empty)) few in
    (body', p', parsed, measured, kept.same_depth ∙ empty)
