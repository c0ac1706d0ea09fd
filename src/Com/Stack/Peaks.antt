-- ===== src/Com/Stack/Peaks.antt =====
-- What `dynamic_array_max` returns, as a function of the values in use.
use Prim.Native.Nat.{max}
use litealigndata.Prelude.{
  ℕ, zero, suc, ◌-◌, ◌==◌, false, ◌≤◌, ◌≡◌, refl, ap, ◌∙◌, arith, Option, none, some, ◌>>=◌,
  get_elem?, List, [], ◌∷◌, ◌++◌, ltb, length, take, if◌then◌else◌,
}
use litealigndata.Com.Stack.{DynamicArray, max_from, dynamic_array_max}
use litealigndata.Com.Stack.Contents.{IsArray, contents}

unfoldable pub largest : List ℕ → ℕ
largest [] = 0
largest (v ∷ vs) = max v (largest vs)

pub largest-snoc : (vs : List ℕ) (v : ℕ) → largest (vs ++ (v ∷ [])) ≡ max (largest vs) v
unfolding largest
largest-snoc [] v = omega arith
largest-snoc (w ∷ vs) v = omega (arith, largest-snoc vs v)

max_from-shift :
    (c : ℕ) (cs : List ℕ) (i left m : ℕ) → max_from (c ∷ cs) (suc i) left m ≡ max_from cs i left m
unfolding max_from
max_from-shift c cs i zero m = refl
max_from-shift c cs i (suc left) m =
    by_cell (get_elem? cs i) (λ k. max_from-shift c cs (suc i) left k)
  where
    by_cell :
        (o : Option ℕ)
        → ((k : ℕ) → max_from (c ∷ cs) (suc (suc i)) left k ≡ max_from cs (suc i) left k)
        → (o >>= λ v. max_from (c ∷ cs) (suc (suc i)) left (if ltb m v then v else m))
          ≡ (o >>= λ v. max_from cs (suc i) left (if ltb m v then v else m))
    by_cell none h = refl
    by_cell (some v) h = h (if ltb m v then v else m)

max_from-largest :
    (cs : List ℕ) (left m : ℕ)
    → left ≤ length cs
    → max_from cs 0 left m ≡ some (max m (largest (take left cs)))
unfolding max_from largest
max_from-largest cs zero m h = ap some (omega arith)
max_from-largest [] (suc left) m h = absurd (omega arith)
max_from-largest (v ∷ vs) (suc left) m h =
    max_from-shift v vs 0 left (if ltb m v then v else m)
    ∙ max_from-largest vs left (if ltb m v then v else m) (omega arith)
    ∙ ap some (ground arith)

max_by_cells :
    (cells : List ℕ) (size capacity : ℕ)
    → size ≤ length cells
    → dynamic_array_max (record { cells = cells; size = size; capacity = capacity })
      ≡ some (largest (take size cells))
unfolding dynamic_array_max largest
max_by_cells cells zero capacity h = refl
max_by_cells [] (suc size) capacity h = absurd (omega arith)
max_by_cells (c ∷ cs) (suc size) capacity h =
    let some_in : suc size == 0 ≡ false = ground arith in
    let back : suc size - 1 ≡ size = omega arith in
    rw (some_in, back) (max_from-shift c cs 0 size c ∙ max_from-largest cs size c (omega arith))

pub dynamic_array_max-contents :
    (arr : DynamicArray) → IsArray arr → dynamic_array_max arr ≡ some (largest (contents arr))
unfolding contents
dynamic_array_max-contents arr ok =
    max_by_cells arr.cells arr.size arr.capacity (omega (arith, ok.allocated, ok.in_use))
