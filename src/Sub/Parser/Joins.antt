-- ===== src/Sub/Parser/Joins.antt =====
-- How the length of an element grows with its members.
use litealigndata.Prelude.{ℕ, suc, ◌+◌, ◌≤◌, ◌≡◌, refl, sym, ◌∙◌, arith}
use litealigndata.Com.Stack.{OffsetStack}
use litealigndata.Struct.Objects.{Group, Element, structure, union, Elements, nil, cons}
use litealigndata.Sub.Parser.{Kind, of_struct, of_union, NestedElement}
use litealigndata.Sub.Parser.Sizes.{size_of, total_of, largest_of, count}
use litealigndata.Sub.Parser.Frames.{Frame, outside, inside, IsTop, Room, after}
use litealigndata.Sub.Parser.Members.{joined}

abbrev pub group_of : Kind → Group → Elements → Element
group_of of_struct g kids = structure g kids
group_of of_union g kids = union g kids

-- The length of an element with these members.
abbrev pub whole : Kind → Elements → ℕ
whole of_struct kids = total_of kids
whole of_union kids = largest_of kids

largest_of_total : (es : Elements) → largest_of es ≤ total_of es
largest_of_total nil = omega arith
largest_of_total (cons e rest) = omega (arith, largest_of_total rest)

pub whole_total : (k : Kind) (es : Elements) → whole k es ≤ total_of es
whole_total of_struct es = omega arith
whole_total of_union es = largest_of_total es

pub joined-zero : (k : Kind) (n : ℕ) → joined k 0 n ≡ n
joined-zero of_struct n = omega arith
joined-zero of_union n = omega arith

joined-nothing : (k : Kind) (t : ℕ) → joined k t 0 ≡ t
joined-nothing of_struct t = omega arith
joined-nothing of_union t = omega arith

joined_sum : (k : Kind) (t n : ℕ) → joined k t n ≤ t + n
joined_sum of_struct t n = omega arith
joined_sum of_union t n = omega arith

joined-whole :
    (k : Kind) (t : ℕ) (e : Element) (rest : Elements)
    → joined k (joined k t (size_of e)) (whole k rest) ≡ joined k t (whole k (cons e rest))
joined-whole of_struct t e rest = omega arith
joined-whole of_union t e rest = omega arith

abbrev pub all_after : Frame → Elements → Frame
all_after f nil = f
all_after f (cons e rest) = all_after (after f (size_of e)) rest

pub inside-same : (k : Kind) (t t' n n' : ℕ) → t ≡ t' → n ≡ n' → inside k t n ≡ inside k t' n'
inside-same k t t' n n' p q = cc

whole-nil : (k : Kind) → whole k nil ≡ 0
whole-nil of_struct = refl
whole-nil of_union = refl

pub all_after-whole :
    (k : Kind) (t n : ℕ) (es : Elements)
    → all_after (inside k t n) es ≡ inside k (joined k t (whole k es)) (n + count es)
all_after-whole k t n nil =
    rw (whole-nil k)
      (inside-same k t (joined k t 0) n (n + 0) (sym (joined-nothing k t)) (omega arith))
all_after-whole k t n (cons e rest) =
    all_after-whole k (joined k t (size_of e)) (suc n) rest
    ∙ inside-same k (joined k (joined k t (size_of e)) (whole k rest))
        (joined k t (whole k (cons e rest))) (suc n + count rest) (n + suc (count rest))
        (joined-whole k t e rest) (omega arith)

pub Room-first : (f : Frame) (a b c : ℕ) → Room f (a + b) (suc c) → Room f a 1
Room-first outside a b c r = tt
Room-first (inside k t n) a b c r = ((omega (arith, r.0)), (omega (arith, r.1)))

pub Room-after : (f : Frame) (a b c : ℕ) → Room f (a + b) (suc c) → Room (after f a) b c
Room-after outside a b c r = tt
Room-after (inside k t n) a b c r = ((omega (arith, r.0, joined_sum k t a)), (omega (arith, r.1)))

pub after-nothing : (f : Frame) (s : OffsetStack NestedElement) → IsTop f s → IsTop (after f 0) s
after-nothing outside s top = top
after-nothing (inside k t n) s (d, e, deep, at, h) = (
  d,
  e,
  deep,
  at,
  rw (joined-nothing k t) (record {
    kind_is = h.kind_is;
    total_is = h.total_is;
    array = h.array;
    used = omega (arith, h.used);
    cells = omega (arith, h.cells);
    peak = h.peak;
  }),
)
