-- ===== src/Sub/Parser/Members.antt =====
-- One element on the stack: its length after its members.
use Prim.Native.Nat.{max}
use litealigndata.Prelude.{
  ℕ, suc, ◌+◌, ◌*◌, ◌^◌, ◌≤◌, ◌<◌, ◌≡◌, refl, ap, ◌∙◌, arith, inl, inr, some, List, length, u64,
}
use litealigndata.Com.Stack.{DynamicArray, dynamic_array_init}
use litealigndata.Com.Stack.Contents.{IsArray, contents, init-IsArray, dynamic_array_add-IsAdded}
use litealigndata.Com.Stack.Peaks.{largest, largest-snoc, dynamic_array_max-contents}
use litealigndata.Sub.Parser.{Kind, of_struct, of_union, NestedElement, new_element, add_length}

-- The length of an element after a member's, by its kind.
abbrev pub joined : Kind → ℕ → ℕ → ℕ
joined of_struct t len = t + len
joined of_union t len = max t len

abbrev pub IsPeak : Kind → ℕ → DynamicArray → Type 0
IsPeak of_struct t arr = Unit {0}
IsPeak of_union t arr = largest (contents arr) ≡ t

-- An element of the length `t` after at most `n` members.
pub record Holds (e : NestedElement) (k : Kind) (t n : ℕ) : Type 0 where
  pub kind_is : e.kind ≡ k
  pub total_is : e.total_length ≡ t
  pub array : IsArray e.member_lengths
  pub used : e.member_lengths.size ≤ n
  pub cells : e.member_lengths.capacity ≤ 8 + 2 * n
  pub peak : IsPeak k t e.member_lengths

module _ (malloc : ℕ → List ℕ) (cells_of : (n : ℕ) → length (malloc n) ≡ n) where
  pub new_element-Holds : (k : Kind) → Holds (new_element malloc k) k 0 0
  unfolding new_element dynamic_array_init contents largest
  new_element-Holds of_struct = record {
    kind_is = refl;
    total_is = refl;
    array = init-IsArray malloc cells_of;
    used = omega arith;
    cells = omega arith;
    peak = tt;
  }
  new_element-Holds of_union = record {
    kind_is = refl;
    total_is = refl;
    array = init-IsArray malloc cells_of;
    used = omega arith;
    cells = omega arith;
    peak = refl;
  }

  pub add_length-Holds :
      (e : NestedElement) (k : Kind) (t n len : ℕ)
      → Holds e k t n
      → t + len < 2 ^ 64
      → n < 2 ^ 28
      → (e' : NestedElement) × (add_length malloc len e ≡ some e')
        × Holds e' k (joined k t len) (suc n)
  unfolding add_length
  add_length-Holds e of_struct t n len h small few = (
    record e { total_length = u64 (e.total_length + len) },
    rw (h.kind_is) refl,
    record {
      kind_is = h.kind_is;
      total_is = omega (arith, h.total_is);
      array = h.array;
      used = omega (arith, h.used);
      cells = omega (arith, h.cells);
      peak = tt;
    },
  )
  add_length-Holds e of_union t n len h small few =
      let (after, added, a) =
        dynamic_array_add-IsAdded malloc len e.member_lengths cells_of h.array
          (omega (arith, h.cells)) in
      let found = dynamic_array_max-contents after a.well_formed in
      let peak : largest (contents after) ≡ max t len =
        ap largest a.behind
        ∙ largest-snoc (contents e.member_lengths) len
        ∙ ap (λ x. max x len) h.peak in
      (
        record e { total_length = max t len; member_lengths = after },
        rw (h.kind_is, added, found, peak) refl,
        record {
          kind_is = h.kind_is;
          total_is = refl;
          array = a.well_formed;
          used = omega (arith, a.one_more, h.used);
          cells = elim a.grown [
            | inl e ↦ omega (arith, e, h.cells)
            | inr e ↦ omega (arith, e, h.used)
          ];
          peak = peak;
        },
      )
