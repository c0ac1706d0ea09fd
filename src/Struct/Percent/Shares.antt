-- ===== src/Struct/Percent/Shares.antt =====
-- The children's shares sum to their parent's rows, so that a round gives the parent all its rows.
use mathlib.Core.Path.{subst}
use litealigndata.Prelude.{
  ℕ, zero, suc, ◌+◌, ◌-◌, ◌%◌, ◌^◌, ◌<◌, ◌≤◌, ◌≡◌, refl, ap, arith, true, Bool-cases, inl, inr,
  Option, none, some, List, [], ◌∷◌, ◌==◌, get_elem?, replicate, length, u32,
}
use litealigndata.Struct.Percent.{
  PercentCount, no_rows, rows_of_children, sum_of_children, first_child, has_percent_child,
  add_left, init_percent, select_children,
}
use litealigndata.Struct.Percent.Turns.{select_children-round}
use litealigndata.Struct.Percent.Circle.{rows_in_round, total_rows, rows_before, IsTurn}

-- Just the children with a percentage have rows to create, which are no negative numbers.
data IsAligned {ℓ} {P : Type ℓ} : List (Option P) → List ℕ → Type ℓ where
  nil : IsAligned [] []
  unset :
      {cs : List (Option P)} {xs : List ℕ} → IsAligned cs xs → IsAligned (none ∷ cs) (no_rows ∷ xs)
  taken :
      {p : P} {cs : List (Option P)} {x : ℕ} {xs : List ℕ}
      → x < 2 ^ 31
      → IsAligned cs xs
      → IsAligned (some p ∷ cs) (x ∷ xs)

no_rows_none : rows_in_round no_rows ≡ 0
unfolding no_rows
no_rows_none = refl

no_rows_small : no_rows < 2 ^ 32
unfolding no_rows
no_rows_small = omega arith

module _ {ℓ} {P : Type ℓ} where
  length_aligned : {cs : List (Option P)} {xs : List ℕ} → IsAligned cs xs → length xs ≡ length cs
  length_aligned IsAligned.nil = refl
  length_aligned (IsAligned.unset a) = ap suc (length_aligned a)
  length_aligned (IsAligned.taken h a) = ap suc (length_aligned a)

  fits_aligned :
      {cs : List (Option P)} {xs : List ℕ}
      → IsAligned cs xs
      → (i rows : ℕ) → get_elem? xs i ≡ some rows
      → rows < 2 ^ 32
  fits_aligned IsAligned.nil i rows e = cc
  fits_aligned (IsAligned.unset a) zero rows e = ground (arith, no_rows_small, e)
  fits_aligned (IsAligned.unset a) (suc i) rows e = fits_aligned a i rows e
  fits_aligned (IsAligned.taken h a) zero rows e = ground (arith, e)
  fits_aligned (IsAligned.taken h a) (suc i) rows e = fits_aligned a i rows e

module _ {ℓ} {P : Type ℓ} (rows_of : P → ℕ) where
  -- The children's parts without any wrap-around.
  unfoldable pub parts : List (Option P) → ℕ
  parts [] = 0
  parts (none ∷ rest) = parts rest
  parts (some percentage ∷ rest) = rows_of percentage + parts rest

  -- The first child with a percentage has only children without one before it.
  first_aligned :
      {cs : List (Option P)} {xs : List ℕ}
      → IsAligned cs xs
      → has_percent_child rows_of cs ≡ true
      → (i : ℕ)
      → (j : ℕ) × (first_child rows_of cs i ≡ i + j) × (j < length xs) × (rows_before j xs ≡ 0)
  unfolding has_percent_child first_child
  first_aligned IsAligned.nil e i = cc
  first_aligned (IsAligned.unset a) e i =
      let (j, first, inside, none_before) = first_aligned a e (suc i) in
      (suc j, omega (arith, first), omega (arith, inside), omega (arith, none_before, no_rows_none))
  first_aligned (IsAligned.taken h a) e i = (0, omega arith, omega arith, refl)

  rows_of_children-IsAligned :
      (cs : List (Option P)) → parts cs < 2 ^ 31 → IsAligned cs (rows_of_children rows_of cs)
  unfolding rows_of_children parts
  rows_of_children-IsAligned [] h = IsAligned.nil
  rows_of_children-IsAligned (none ∷ cs) h = IsAligned.unset (rows_of_children-IsAligned cs h)
  rows_of_children-IsAligned (some p ∷ cs) h =
      IsAligned.taken (omega arith) (rows_of_children-IsAligned cs (omega arith))

  total_rows-children :
      (cs : List (Option P))
      → parts cs < 2 ^ 31
      → total_rows (rows_of_children rows_of cs) ≡ parts cs
  unfolding rows_of_children parts
  total_rows-children [] h = refl
  total_rows-children (none ∷ cs) h = omega (arith, no_rows_none, total_rows-children cs h)
  total_rows-children (some p ∷ cs) h = ground (arith, total_rows-children cs (omega arith))

  sum_of_children-parts :
      (cs : List (Option P)) (s : ℕ)
      → s + parts cs < 2 ^ 32
      → sum_of_children rows_of cs s ≡ s + parts cs
  unfolding sum_of_children parts
  sum_of_children-parts [] s h = omega arith
  sum_of_children-parts (none ∷ cs) s h = sum_of_children-parts cs s h
  sum_of_children-parts (some p ∷ cs) s h =
      let next : u32 (s + rows_of p) ≡ s + rows_of p = omega arith in
      rw next (omega (arith, sum_of_children-parts cs (s + rows_of p) (omega arith)))

  -- The rows left make the sum larger by just themselves.
  add_left_lem :
      (left : ℕ) (cs : List (Option P)) (xs : List ℕ)
      → IsAligned cs xs
      → has_percent_child rows_of cs ≡ true
      → total_rows xs + left < 2 ^ 31
      → IsAligned cs (add_left rows_of left cs xs)
        × (total_rows (add_left rows_of left cs xs) ≡ total_rows xs + left)
  unfolding has_percent_child add_left
  add_left_lem left cs xs IsAligned.nil e h = cc
  add_left_lem left cs xs (IsAligned.unset {cs = rest} {xs = others} a) e h =
      let (fine, total) = add_left_lem left rest others a e (omega arith) in
      (IsAligned.unset fine, omega (arith, total))
  add_left_lem left cs xs (IsAligned.taken {cs = rest} {x} {xs = others} small a) e h =
      elim (Bool-cases (has_percent_child rows_of rest)) [
        | inl more ↦
            let few : total_rows others + left < 2 ^ 31 = omega (arith, h) in
            let (fine, total) = add_left_lem left rest others a more few in
            rw more (IsAligned.taken small fine, omega (arith, total))
        | inr last ↦
            let fits : x + left < 2 ^ 31 = ground (arith, h) in
            let sum : u32 (x + left) ≡ x + left = omega arith in
            rw (last, sum) (IsAligned.taken fits a, ground (arith, h))
      ]

  -- The rows that `initPercent` gives to the children.
  init_percent_lem :
      (num_rows : ℕ) (cs : List (Option P))
      → parts cs ≤ num_rows
      → num_rows < 2 ^ 31
      → has_percent_child rows_of cs ≡ true
      → let xs = (init_percent rows_of num_rows cs).rows_to_create in
        IsAligned cs xs × (total_rows xs ≡ num_rows)
  unfolding init_percent
  init_percent_lem num_rows cs h small e =
      let aligned = rows_of_children-IsAligned cs (omega arith) in
      let total = total_rows-children cs (omega arith) in
      let left : u32 (num_rows + (2 ^ 32 - sum_of_children rows_of cs 0)) ≡ num_rows - parts cs =
        omega (arith, sum_of_children-parts cs 0 (omega arith)) in
      elim (Bool-cases (num_rows - parts cs == 0)) [
        | inl none_left ↦ rw (left, none_left) (aligned, ground (arith, total))
        | inr some_left ↦
            let (fine, sum) =
              add_left_lem (num_rows - parts cs) cs (rows_of_children rows_of cs) aligned e
                (omega (arith, total)) in
            rw (left, some_left, e) (fine, omega (arith, sum, total))
      ]

  init_percent_shape :
      (num_rows : ℕ) (cs : List (Option P)) (j n : ℕ)
      → n ≡ length cs
      → first_child rows_of cs 0 ≡ 0 + j
      → let start = init_percent rows_of num_rows cs in
        record {
          rows_to_create = start.rows_to_create;
          rows_created = replicate n 0;
          percent_it = j;
        }
        ≡ start
  unfolding init_percent
  init_percent_shape num_rows cs j n size first =
      let same : j ≡ first_child rows_of cs 0 = omega (arith, first) in rw (size, same) refl

  -- When the children's parts sum to at most their parent's rows, which are some but fewer than
  -- 2 ^ 31, and at least one child has a percentage: the rows to create of the children with a
  -- percentage sum to just the parent's rows, and for any number of rows that follow, row `s` is
  -- given to the child in whose part of the round row `s`, modulo the parent's rows, lies. So the
  -- parent's rows are shared out as `initPercent` divides them, round after round, and the search for
  -- a child always ends.
  pub init_percent-round :
      (num_rows k : ℕ) (cs : List (Option P))
      → parts cs ≤ num_rows
      → 0 < num_rows
      → num_rows < 2 ^ 31
      → has_percent_child rows_of cs ≡ true
      → let start = init_percent rows_of num_rows cs in
        (total_rows start.rows_to_create ≡ num_rows)
        × (children : List ℕ) × (p : PercentCount) × (select_children k start ≡ some (children, p))
        × (length children ≡ k)
        × ((s : ℕ)
            → s < k
            → (j : ℕ) × (get_elem? children s ≡ some j)
              × IsTurn start.rows_to_create (s % num_rows) j)
  init_percent-round num_rows k cs h pos small e =
      let start = init_percent rows_of num_rows cs in
      let (aligned, total) = init_percent_lem num_rows cs h small e in
      let (j, first, inside, none_before) = first_aligned aligned e 0 in
      let (children, p, gives, size, turns) =
        select_children-round start.rows_to_create j k (fits_aligned aligned) (omega (arith, total))
          inside none_before in
      (
        total,
        children,
        p,
        subst (λ from. select_children k from ≡ some (children, p))
            (init_percent_shape num_rows cs j (length start.rows_to_create) (length_aligned aligned)
              first)
            gives,
        size,
        λ s lt.
            let (i, found, turn) = turns s lt in
            (i, found, subst (λ t. IsTurn start.rows_to_create (s % t) i) total turn),
      )
