-- ===== src/Com/Stack/Largest.antt =====
-- What `dynamic_array_max` finds.
use litealigndata.Prelude.{
  ℕ, zero, suc, ◌+◌, ◌-◌, ◌≤◌, ◌<◌, ◌≡◌, refl, ap, sym, ◌∙◌, ◌⊎◌, arith, Bool-cases, inl, inr,
  false, some, List, ltb, ◌==◌, if◌then◌else◌, get_elem?, length, get_elem?-in_range,
}
use litealigndata.Com.Stack.{DynamicArray, max_from, dynamic_array_max}
use litealigndata.Com.Stack.Contents.{IsArray}

-- `m` is at least `max` and every cell from `i` on, and one of them.
record IsLargest (cells : List ℕ) (i left max m : ℕ) : Type 0 where
  above : max ≤ m
  above_cells : (j v : ℕ) → i ≤ j → j < i + left → get_elem? cells j ≡ some v → v ≤ m
  one_of : (m ≡ max) ⊎ ((j : ℕ) × (i ≤ j) × (j < i + left) × (get_elem? cells j ≡ some m))

one_cell :
    (cells : List ℕ) (i left max v m : ℕ)
    → get_elem? cells i ≡ some v
    → IsLargest cells (suc i) left (if ltb max v then v else max) m
    → IsLargest cells i (suc left) max m
one_cell cells i left max v m at_i ok = record {
  above = ground (arith, ok.above);
  above_cells = λ j w low high at_j. elim (Bool-cases (i == j)) [
    | inl e ↦
        let same : i ≡ j = ground arith in
        let v_is : some v ≡ some w = sym at_i ∙ (ap (get_elem? cells) same ∙ at_j) in
        let value : v ≡ w = cc in ground (arith, ok.above, value)
    | inr e ↦ ok.above_cells j w (ground arith) (omega arith) at_j
  ];
  one_of = elim ok.one_of [
    | inl m_is ↦ elim (Bool-cases (ltb max v)) [
      | inl e ↦
          let m_v : m ≡ v = ground arith in
          inr (i, omega arith, omega arith, at_i ∙ ap some (sym m_v))
      | inr e ↦ inl (ground arith)
    ]
    | inr (j, low, high, at_j) ↦ inr (j, omega arith, omega arith, at_j)
  ];
}

max_from-IsLargest :
    (cells : List ℕ) (i left max : ℕ)
    → i + left ≤ length cells
    → (m : ℕ) × (max_from cells i left max ≡ some m) × IsLargest cells i left max m
unfolding max_from
max_from-IsLargest cells i zero max h = (
  max,
  refl,
  record {
    above = omega arith;
    above_cells = λ j v low high at_j. absurd (omega arith);
    one_of = inl refl;
  },
)
max_from-IsLargest cells i (suc left) max h =
    let (v, at_i) = get_elem?-in_range cells i (omega arith) in
    let (m, found, ok) =
      max_from-IsLargest cells (suc i) left (if ltb max v then v else max) (omega arith) in
    (m, rw at_i found, one_cell cells i left max v m at_i ok)

from_first :
    (cells : List ℕ) (size first m : ℕ)
    → 0 < size
    → get_elem? cells 0 ≡ some first
    → IsLargest cells 1 (size - 1) first m
    → ((j v : ℕ) → j < size → get_elem? cells j ≡ some v → v ≤ m)
      × ((j : ℕ) × (j < size) × (get_elem? cells j ≡ some m))
from_first cells size first m pos at_0 ok = (
  λ j v below at_j. elim (Bool-cases (0 == j)) [
    | inl e ↦
        let same : 0 ≡ j = ground arith in
        let first_is : some first ≡ some v = sym at_0 ∙ (ap (get_elem? cells) same ∙ at_j) in
        let value : first ≡ v = cc in omega (arith, ok.above, value)
    | inr e ↦ ok.above_cells j v (ground arith) (omega arith) at_j
  ],
  elim ok.one_of [
    | inl m_is ↦ (0, pos, at_0 ∙ ap some (sym m_is))
    | inr (j, low, high, at_j) ↦ (j, omega arith, at_j)
  ],
)

-- For a well-formed array, the largest of its values in use is found: no value is larger, and it is
-- one of them; without values it is 0.
pub dynamic_array_max-largest :
    (arr : DynamicArray)
    → IsArray arr
    → (arr.size ≡ 0 → dynamic_array_max arr ≡ some 0)
      × (0 < arr.size
          → (m : ℕ) × (dynamic_array_max arr ≡ some m)
            × ((j v : ℕ) → j < arr.size → get_elem? arr.cells j ≡ some v → v ≤ m)
            × ((j : ℕ) × (j < arr.size) × (get_elem? arr.cells j ≡ some m)))
unfolding dynamic_array_max
dynamic_array_max-largest arr ok = (λ e. rw e refl, λ pos. largest pos)
  where
    empty : 0 < arr.size → arr.size == 0 ≡ false
    empty h = ground arith

    largest :
        0 < arr.size
        → (m : ℕ) × (dynamic_array_max arr ≡ some m)
          × ((j v : ℕ) → j < arr.size → get_elem? arr.cells j ≡ some v → v ≤ m)
          × ((j : ℕ) × (j < arr.size) × (get_elem? arr.cells j ≡ some m))
    largest pos =
        let (first, at_0) =
          get_elem?-in_range arr.cells 0 (omega (arith, ok.allocated, ok.in_use)) in
        let (m, found, ok') =
          max_from-IsLargest arr.cells 1 (arr.size - 1) first
            (omega (arith, ok.allocated, ok.in_use)) in
        let all = from_first arr.cells arr.size first m pos at_0 ok' in
        (m, rw (empty pos, at_0) found, all.0, all.1)
