-- ===== src/Struct/Percent/Circle.antt =====
-- The rows of a round in the children's order, and the children in a circle.
use litealigndata.Prelude.{
  ℕ, zero, suc, ◌+◌, ◌-◌, ◌%◌, ◌^◌, ◌<◌, ◌≤◌, ◌≡◌, refl, ap, arith, Bool-cases, inl, inr, some,
  List, [], ◌∷◌, ◌==◌, if◌then◌else◌, leb, leb→le, ltb, ltb→lt, get_elem?, set, take, replicate,
  length, u32,
}
use litealigndata.Struct.Percent.{PercentCount, int_leb, select_child, select_children}

-- The rows of a child in a round; a negative number is none.
abbrev pub rows_in_round : ℕ → ℕ
rows_in_round rows = if leb (2 ^ 31) rows then 0 else rows

abbrev pub total_rows : List ℕ → ℕ
total_rows [] = 0
total_rows (rows ∷ rest) = rows_in_round rows + total_rows rest

abbrev pub rows_before : ℕ → List ℕ → ℕ
rows_before i to_create = total_rows (take i to_create)

-- Row `r` of a round is one of child `i`.
pub record IsTurn (to_create : List ℕ) (r i : ℕ) : Type 0 where
  pub rows : ℕ
  pub child : get_elem? to_create i ≡ some rows
  pub behind : rows_before i to_create ≤ r
  pub before : r < rows_before i to_create + rows_in_round rows

-- The fields of a parent where all children but `i` have created no row.
abbrev pub at_child : List ℕ → ℕ → ℕ → PercentCount
at_child to_create i made = record {
  rows_to_create = to_create;
  rows_created = set (replicate (length to_create) 0) i made;
  percent_it = i;
}

-- ... and row `r` is next.
pub record IsNext (to_create : List ℕ) (r i made : ℕ) : Type 0 where
  pub rows : ℕ
  pub child : get_elem? to_create i ≡ some rows
  pub made_small : made ≤ rows_in_round rows
  pub position : (rows_before i to_create + made) % total_rows to_create ≡ r % total_rows to_create

pub int_leb-rows :
    (rows made : ℕ)
    → rows < 2 ^ 32
    → made < 2 ^ 31
    → int_leb rows made ≡ leb (rows_in_round rows) made
unfolding int_leb
int_leb-rows rows made h g = elim (Bool-cases (leb (2 ^ 31) rows)) [
  | inl e ↦
      let a : u32 (rows + 2 ^ 31) ≡ rows - 2 ^ 31 = omega (arith, leb→le (2 ^ 31) rows e) in
      rw (a, b) (ground arith)
  | inr e ↦ let a : u32 (rows + 2 ^ 31) ≡ rows + 2 ^ 31 = ground arith in rw (a, b) (ground arith)
]
  where
    b : u32 (made + 2 ^ 31) ≡ made + 2 ^ 31
    b = omega arith

pub set_again : (xs : List ℕ) (i a b : ℕ) → set (set xs i a) i b ≡ set xs i b
set_again [] i a b = refl
set_again (x ∷ xs) zero a b = refl
set_again (x ∷ xs) (suc i) a b = ap (λ ys. x ∷ ys) (set_again xs i a b)

abbrev pub zeros : ℕ → List ℕ
zeros n = replicate n 0

pub set_zero : (n i : ℕ) → set (zeros n) i 0 ≡ zeros n
set_zero zero i = refl
set_zero (suc n) zero = refl
set_zero (suc n) (suc i) = ap (λ ys. 0 ∷ ys) (set_zero n i)

pub length-zeros : (n : ℕ) → length (zeros n) ≡ n
length-zeros zero = refl
length-zeros (suc n) = ap suc (length-zeros n)

pub rows_before-suc :
    (i rows : ℕ) (xs : List ℕ)
    → get_elem? xs i ≡ some rows
    → rows_before (suc i) xs ≡ rows_before i xs + rows_in_round rows
rows_before-suc i rows [] e = cc
rows_before-suc zero rows (x ∷ xs) e = ground (arith, e)
rows_before-suc (suc i) rows (x ∷ xs) e = omega (arith, rows_before-suc i rows xs e)

pub rows_before-le : (i : ℕ) (xs : List ℕ) → rows_before i xs ≤ total_rows xs
rows_before-le zero xs = omega arith
rows_before-le (suc i) [] = omega arith
rows_before-le (suc i) (x ∷ xs) = omega (arith, rows_before-le i xs)

pub rows_before-all : (i : ℕ) (xs : List ℕ) → length xs ≤ i → rows_before i xs ≡ total_rows xs
rows_before-all zero [] h = refl
rows_before-all (suc i) [] h = refl
rows_before-all zero (x ∷ xs) h = absurd (omega arith)
rows_before-all (suc i) (x ∷ xs) h = omega (arith, rows_before-all i xs (omega arith))

pub same_rows :
    (xs : List ℕ) (i j a b : ℕ) → i ≡ j → get_elem? xs i ≡ some a → get_elem? xs j ≡ some b → a ≡ b
same_rows xs i j a b e h g = cc

pub some_child :
    (xs : List ℕ)
    → 0 < total_rows xs
    → (j : ℕ) × (rows : ℕ) × (get_elem? xs j ≡ some rows) × (0 < rows_in_round rows)
some_child [] h = absurd (omega arith)
some_child (x ∷ xs) h = elim (Bool-cases (ltb 0 (rows_in_round x))) [
  | inl e ↦ (0, x, refl, ltb→lt 0 _ e)
  | inr e ↦ let (j, rows, child, pos) = some_child xs (ground arith) in (suc j, rows, child, pos)
]

pub select_children_step :
    (k j n : ℕ) (p q u : PercentCount) (rest : List ℕ)
    → length p.rows_created ≡ n
    → select_child (suc n) p ≡ some (j, q)
    → select_children k q ≡ some (rest, u)
    → select_children (suc k) p ≡ some (j ∷ rest, u)
unfolding select_children
select_children_step k j n p q u rest size gives goes_on = rw (size, gives, goes_on) refl

-- The steps from child `i` to child `j`, in a circle.
abbrev pub distance : ℕ → ℕ → ℕ → ℕ
distance n i j = if leb i j then j - i else n + j - i

abbrev pub next_child : List ℕ → ℕ → ℕ
next_child xs i = if i + 1 == length xs then 0 else i + 1
