-- ===== src/Sub/Parser/Frames.antt =====
-- The element on top of the stack while its members are parsed.
use litealigndata.Prelude.{
  ℕ, suc, ◌+◌, ◌-◌, ◌^◌, ◌≤◌, ◌<◌, ◌≡◌, refl, ◌∙◌, arith, true, false, some, List, length,
  length-set, get_elem?, set, ◌==◌, get_elem?-set_self, get_elem?-set_ne,
}
use litealigndata.Com.Stack.{OffsetStack, stack_is_empty, stack_top, stack_push, stack_pop}
use litealigndata.Com.Stack.Contents.{IsStack, stack_push_room}
use litealigndata.Sub.Parser.{Kind, NestedElement, new_element, add_to_top}
use litealigndata.Sub.Parser.Members.{joined, Holds, new_element-Holds, add_length-Holds}

-- What is parsed at the moment: nothing that encloses it, or a member of an element of the length
-- `t` with at most `n` members before.
pub data Frame : Type 0 where
  outside : Frame
  inside : Kind → ℕ → ℕ → Frame

abbrev pub IsTop : Frame → OffsetStack NestedElement → Type 0
IsTop outside s = s.depth ≡ 0
IsTop (inside k t n) s =
    (d : ℕ) × (e : NestedElement) × (s.depth ≡ suc d)
    × (get_elem? s.cells d ≡ some e)
    × Holds e k t n

-- There is the place for `count` more members, of the length `len` together.
abbrev pub Room : Frame → ℕ → ℕ → Type 0
Room outside len count = Unit {0}
Room (inside k t n) len count = (t + len < 2 ^ 64) × (n + count ≤ 2 ^ 28)

abbrev pub after : Frame → ℕ → Frame
after outside len = outside
after (inside k t n) len = inside k (joined k t len) (suc n)

-- The elements below the top stay as they are.
pub record Kept (s s' : OffsetStack NestedElement) : Type 0 where
  pub whole : IsStack s'
  pub same_depth : s'.depth ≡ s.depth
  pub below : (i : ℕ) → suc i < s.depth → get_elem? s'.cells i ≡ get_elem? s.cells i

pub add_to_top-IsTop :
    (malloc : ℕ → List ℕ) (f : Frame) (len : ℕ) (s : OffsetStack NestedElement)
    → ((n : ℕ) → length (malloc n) ≡ n)
    → IsStack s
    → IsTop f s
    → Room f len 1
    → (s' : OffsetStack NestedElement) × (add_to_top malloc len s ≡ some s')
      × Kept s s'
      × IsTop (after f len) s'
unfolding add_to_top stack_is_empty stack_top
add_to_top-IsTop malloc outside len s cells_of ok top room =
    (s, rw top refl, record { whole = ok; same_depth = refl; below = λ i lt. refl }, top)
add_to_top-IsTop malloc (inside k t n) len s cells_of ok (d, e, deep, at, h) room =
    let (e', added, h') = add_length-Holds malloc cells_of e k t n len h room.0 (omega arith) in
    let some_in : s.depth == 0 ≡ false = ground arith in
    let back : s.depth - 1 ≡ d = omega arith in
    let on : d < length s.cells = omega (arith, ok.allocated, ok.in_use) in
    (
      record s { cells = set s.cells d e' },
      rw (some_in, back, at, added) refl,
      record {
        whole = record { allocated = length-set s.cells d e' ∙ ok.allocated; in_use = ok.in_use };
        same_depth = refl;
        below = λ i lt. get_elem?-set_ne s.cells d i e' (omega arith);
      },
      (d, e', deep, get_elem?-set_self s.cells d e' on, h'),
    )

-- A new element is on the stack.
pub record IsPushed (s s' : OffsetStack NestedElement) : Type 0 where
  pub whole : IsStack s'
  pub one_more : s'.depth ≡ suc s.depth
  pub below : (i : ℕ) → i < s.depth → get_elem? s'.cells i ≡ get_elem? s.cells i

pub stack_push-IsPushed :
    (malloc : ℕ → List ℕ) (k : Kind) (s : OffsetStack NestedElement)
    → ((n : ℕ) → length (malloc n) ≡ n)
    → IsStack s
    → s.depth < 100
    → (s' : OffsetStack NestedElement) × (stack_push (new_element malloc k) s ≡ (s', true))
      × IsPushed s s'
      × IsTop (inside k 0 0) s'
stack_push-IsPushed malloc k s cells_of ok room =
    let e = new_element malloc k in
    (
      record { cells = set s.cells s.depth e; depth = suc s.depth },
      stack_push_room e s room,
      record {
        whole = record {
          allocated = length-set s.cells s.depth e ∙ ok.allocated;
          in_use = omega arith;
        };
        one_more = refl;
        below = λ i lt. get_elem?-set_ne s.cells s.depth i e (omega arith);
      },
      (
        s.depth,
        e,
        refl,
        get_elem?-set_self s.cells s.depth e (omega (arith, ok.allocated)),
        new_element-Holds malloc cells_of k,
      ),
    )

below-IsTop :
    (f : Frame) (s s' : OffsetStack NestedElement)
    → s'.depth ≡ s.depth
    → ((i : ℕ) → i < s.depth → get_elem? s'.cells i ≡ get_elem? s.cells i)
    → IsTop f s
    → IsTop f s'
below-IsTop outside s s' same below top = same ∙ top
below-IsTop (inside k t n) s s' same below (d, e, deep, at, h) =
    (d, e, same ∙ deep, below d (omega arith) ∙ at, h)

-- What was pushed is popped with the length that it has reached.
pub stack_pop-IsTop :
    (f : Frame) (k : Kind) (t n : ℕ) (s s1 s2 : OffsetStack NestedElement)
    → IsTop f s
    → IsPushed s s1
    → Kept s1 s2
    → IsTop (inside k t n) s2
    → (s3 : OffsetStack NestedElement) × (e : NestedElement) × (stack_pop s2 ≡ (s3, some e))
      × (e.total_length ≡ t)
      × Kept s s3
      × IsTop f s3
unfolding stack_pop stack_is_empty
stack_pop-IsTop f k t n s s1 s2 top pushed kept (d, e, deep, at, h) =
    let some_in : s2.depth == 0 ≡ false = ground arith in
    let back : s2.depth - 1 ≡ d = omega arith in
    let depth : d ≡ s.depth = omega (arith, deep, kept.same_depth, pushed.one_more) in
    let s3 : OffsetStack NestedElement = record { cells = s2.cells; depth = d } in
    let below : (i : ℕ) → i < s.depth → get_elem? s2.cells i ≡ get_elem? s.cells i =
      λ i lt. kept.below i (omega (arith, pushed.one_more)) ∙ pushed.below i lt in
    (
      s3,
      e,
      rw (some_in, back, at) refl,
      h.total_is,
      record {
        whole = record {
          allocated = kept.whole.allocated;
          in_use = omega (arith, kept.whole.in_use);
        };
        same_depth = depth;
        below = λ i lt. below i (omega arith);
      },
      below-IsTop f s s3 depth below top,
    )

pub Kept-trans : {s s' s'' : OffsetStack NestedElement} → Kept s s' → Kept s' s'' → Kept s s''
Kept-trans a b = record {
  whole = b.whole;
  same_depth = b.same_depth ∙ a.same_depth;
  below = λ i lt. b.below i (omega (arith, a.same_depth)) ∙ a.below i lt;
}
