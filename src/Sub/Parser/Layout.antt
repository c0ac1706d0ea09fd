-- ===== src/Sub/Parser/Layout.antt =====
-- Where `parse_node` places the columns of a body, as the file formats want them.
use mathlib.Core.Path.{subst}
use litealigndata.Prelude.{
  ℕ, ◌+◌, ◌^◌, ◌<◌, ◌≡◌, ◌≢◌, refl, sym, ap, ◌∙◌, arith, true, false, Option, none, some, List,
  length, u32, ◌>>=◌,
}
use litealigndata.Com.Stack.{OffsetStack, stack_push}
use litealigndata.Com.Stack.Contents.{IsStack}
use litealigndata.Com.Types.{find_nametype_len}
use litealigndata.Struct.Objects.{
  Column, Group, column, structure, union, other, Elements, nil, cons,
}
use litealigndata.File.Example.{Format, format}
use litealigndata.File.Example.Flat.{ArePlain, columns}
use litealigndata.File.Example.Fields.{width}
use litealigndata.File.Example.Rows.{AreLaid, row_width}
use litealigndata.Sub.Parser.{
  NestedElement, end_struct, of_struct, Parser, new_element, add_to_top, parse_column, parse_node,
  parse_list, parse_body,
}
use litealigndata.Sub.Parser.Sizes.{total_of, count, height_all, HaveFew, AreMeasured}
use litealigndata.Sub.Parser.Frames.{stack_push-IsPushed}
use litealigndata.Sub.Parser.Lengths.{parse_body-AreMeasured}
use litealigndata.Sub.Parser.Widths.{column_width}

-- Columns that choose no member of a union, of types that the format writes.
abbrev pub AreColumns : Elements → Type 0
AreColumns nil = Unit {0}
AreColumns (cons (column c) rest) =
    (c.union_flag ≡ false) × (format c ≢ Format.skipped) × AreColumns rest
AreColumns (cons (structure g kids) rest) = ⊥
AreColumns (cons (union g kids) rest) = ⊥
AreColumns (cons other rest) = ⊥

columns-HaveFew : (es : Elements) → AreColumns es → HaveFew es
columns-HaveFew nil h = tt
columns-HaveFew (cons (column c) rest) h = (tt, columns-HaveFew rest h.2)
columns-HaveFew (cons (structure g kids) rest) h = absurd h
columns-HaveFew (cons (union g kids) rest) h = absurd h
columns-HaveFew (cons other rest) h = absurd h

columns-height : (es : Elements) → AreColumns es → height_all es ≡ 0
columns-height nil h = refl
columns-height (cons (column c) rest) h = omega (arith, columns-height rest h.2)
columns-height (cons (structure g kids) rest) h = absurd h
columns-height (cons (union g kids) rest) h = absurd h
columns-height (cons other rest) h = absurd h

-- What a chain that succeeds has gone through.
chain_some :
    {A B : Type 0} (o : Option A) (f : A → Option B) {b : B}
    → (o >>= f) ≡ some b
    → (a : A) × (o ≡ some a) × (f a ≡ some b)
chain_some none f h = cc
chain_some (some a) f h = (a, refl, h)

some-injective : {A : Type 0} {a b : A} → some a ≡ some b → a ≡ b
some-injective h = cc

module _ (malloc : ℕ → List ℕ) where
  parse_column-some :
      (c : Column) (p : Parser) (r : Column × Parser)
      → parse_column malloc c p ≡ some r
      → (r.0 ≡ record c { offset = p.offset; len = find_nametype_len c.type })
        × (r.1.offset ≡ u32 (p.offset + find_nametype_len c.type))
  unfolding parse_column
  parse_column-some c p r h =
      let (stack, _, made) =
        chain_some (add_to_top malloc (find_nametype_len c.type) p.stack)
          (λ stack. some (
            record c { offset = p.offset; len = find_nametype_len c.type },
            record p {
              offset = u32 (p.offset + find_nametype_len c.type);
              stack = stack;
              column_no = u32 (p.column_no + 1);
            },
          ))
          h in
      let same_pair = some-injective made in
      (sym (ap (λ x. x.0) same_pair), sym (ap (λ x. x.1.offset) same_pair))

  -- The columns that come out of `es`, which are parsed from `offset` on.
  record ArePlaced (es es' : Elements) (offset : ℕ) : Type 0 where
    laid : AreLaid (columns es') offset
    together : row_width (columns es') ≡ total_of es
    plain : ArePlain es'

  column-ArePlaced :
      (c d : Column) (rest rest' : Elements) (offset next : ℕ)
      → d ≡ record c { offset = offset; len = find_nametype_len c.type }
      → c.union_flag ≡ false
      → format c ≢ Format.skipped
      → next ≡ offset + find_nametype_len c.type
      → ArePlaced rest rest' next
      → ArePlaced (cons (column c) rest) (cons (column d) rest') offset
  unfolding format
  column-ArePlaced c d rest rest' offset next e flag field n placed =
      let laid_out : Column = record c { offset = offset; len = find_nametype_len c.type } in
      let wide : width (format c) ≡ find_nametype_len c.type = column_width c field in
      let here : ArePlaced (cons (column c) rest) (cons (column laid_out) rest') offset = record {
        laid = (refl, subst (AreLaid (columns rest')) (omega (arith, n, wide)) placed.laid);
        together = omega (arith, placed.together, wide);
        plain = (flag, placed.plain);
      } in
      subst (λ x. ArePlaced (cons (column c) rest) (cons (column x) rest') offset) (sym e) here

  parse_list-ArePlaced :
      (es : Elements) (p : Parser) (r : Elements × Parser)
      → AreColumns es
      → p.offset + total_of es < 2 ^ 32
      → parse_list malloc es p ≡ some r
      → ArePlaced es r.0 p.offset
  unfolding parse_list parse_node
  parse_list-ArePlaced nil p r h small parsed =
      subst (λ x. ArePlaced nil x p.offset) (ap (λ x. x.0) (some-injective parsed))
        (record { laid = tt; together = refl; plain = tt })
  parse_list-ArePlaced (cons (column c) rest) p r h small parsed =
      let (q, first, tail) =
        chain_some (parse_node malloc (column c) p)
          (λ q. parse_list malloc rest q.1 >>= λ s. some (cons q.0 s.0, s.1)) parsed in
      let (d, done, made) =
        chain_some (parse_column malloc c p) (λ d. some (column d.0, d.1)) first in
      let (s, others, all) =
        chain_some (parse_list malloc rest q.1) (λ s. some (cons q.0 s.0, s.1)) tail in
      let (at, next) = parse_column-some c p d done in
      let q_is : (column d.0, d.1) ≡ q = some-injective made in
      let moved : q.1.offset ≡ p.offset + find_nametype_len c.type =
        omega (arith, next, ap (λ x. x.1.offset) q_is) in
      let placed = parse_list-ArePlaced rest q.1 s h.2 (omega (arith, moved)) others in
      let whole : cons (column d.0) s.0 ≡ r.0 =
        ap (λ x. cons x.0 s.0) q_is ∙ ap (λ x. x.0) (some-injective all) in
      subst (λ x. ArePlaced (cons (column c) rest) x p.offset) whole
        (column-ArePlaced c d.0 rest s.0 p.offset q.1.offset at h.0 h.1 moved placed)
  parse_list-ArePlaced (cons (structure g kids) rest) p r h small parsed = absurd h
  parse_list-ArePlaced (cons (union g kids) rest) p r h small parsed = absurd h
  parse_list-ArePlaced (cons other rest) p r h small parsed = absurd h

  parse_structure :
      (g : Group) (kids : Elements) (p : Parser) (s1 : OffsetStack NestedElement)
      → stack_push (new_element malloc of_struct) p.stack ≡ (s1, true)
      → parse_node malloc (structure g kids) p ≡ (
          parse_list malloc kids (record p { stack = s1; struct_offset = p.offset }) >>= λ r.
          end_struct malloc g r.1 >>= λ s. some (structure s.0 r.0, s.1))
  unfolding parse_node
  parse_structure g kids p s1 pushed = rw pushed refl

  structure-ArePlaced :
      (g : Group) (kids : Elements) (p : Parser) (s1 : OffsetStack NestedElement)
      (r : Elements × Parser)
      → stack_push (new_element malloc of_struct) p.stack ≡ (s1, true)
      → AreColumns kids
      → p.offset + total_of kids < 2 ^ 32
      → parse_list malloc (cons (structure g kids) nil) p ≡ some r
      → (h : Group) × (kids' : Elements) × (r.0 ≡ cons (structure h kids') nil)
        × ArePlaced kids kids' p.offset
  unfolding parse_list
  structure-ArePlaced g kids p s1 r pushed cols small parsed =
      let (q, first, tail) =
        chain_some (parse_node malloc (structure g kids) p)
          (λ q. parse_list malloc nil q.1 >>= λ s. some (cons q.0 s.0, s.1)) parsed in
      let (k, inner, rest) =
        chain_some (parse_list malloc kids (record p { stack = s1; struct_offset = p.offset }))
          (λ r. end_struct malloc g r.1 >>= λ s. some (structure s.0 r.0, s.1))
          (sym (parse_structure g kids p s1 pushed) ∙ first) in
      let (e, _, made) =
        chain_some (end_struct malloc g k.1) (λ s. some (structure s.0 k.0, s.1)) rest in
      let q_is : (structure e.0 k.0, e.1) ≡ q = some-injective made in
      (
        e.0,
        k.0,
        sym (ap (λ x. x.0) (some-injective tail)) ∙ ap (λ x. cons x.0 nil) (sym q_is),
        parse_list-ArePlaced kids (record p { stack = s1; struct_offset = p.offset }) k cols small
            inner,
      )

-- For a body of one structure, whose members are fewer than 2 ^ 28 columns that choose no member of a
-- union, of types that the example format writes, and of less than 2 ^ 32 bytes together, parsed from
-- an empty stack: parsing succeeds, and the columns stand one behind the other from the offset 0 on,
-- each as wide as the format reads and writes it, in an entry of their bytes together, which is the
-- length of the structure.
pub parse_body-AreLaid :
    (malloc : ℕ → List ℕ) (g : Group) (kids : Elements) (p : Parser)
    → ((n : ℕ) → length (malloc n) ≡ n)
    → IsStack p.stack
    → p.stack.depth ≡ 0
    → AreColumns kids
    → count kids < 2 ^ 28
    → total_of kids < 2 ^ 32
    → (h : Group) × (kids' : Elements) × (p' : Parser) × (parse_body malloc
          (cons (structure g kids) nil)
          p
        ≡ some (cons (structure h kids') nil, p'))
      × ArePlain kids'
      × AreLaid (columns kids') 0
      × (row_width (columns kids') ≡ h.len)
unfolding parse_body
parse_body-AreLaid malloc g kids p cells_of ok empty cols few small =
    let (body', p', parsed, measured, _) =
      parse_body-AreMeasured malloc (cons (structure g kids) nil) p cells_of ok empty
        (omega (arith, columns-height kids cols)) ((few, small, columns-HaveFew kids cols), tt) in
    let (s1, pushed, _, _) =
      stack_push-IsPushed malloc of_struct p.stack cells_of ok (omega (arith, empty)) in
    let (h, kids', body_is, placed) =
      structure-ArePlaced malloc g kids (record p { offset = 0 }) s1 (body', p') pushed cols
        (omega arith) parsed in
    let same_body : some (body', p') ≡ some (cons (structure h kids') nil, p') =
      ap (λ b. some (b, p')) body_is in
    let lengths = subst (AreMeasured (cons (structure g kids) nil)) body_is measured in
    (h, kids', p', parsed ∙ same_body, placed.plain, placed.laid, placed.together ∙ sym lengths.0.1)
