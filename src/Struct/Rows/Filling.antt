-- ===== src/Struct/Rows/Filling.antt =====
-- The rows of a table that is filled from a seed file.
use native.Mathlib.Nat.{mod-eq-sub-mod, mod-eq_of_lt}
use litealigndata.Prelude.{
  ℕ, zero, suc, ◌+◌, ◌-◌, ◌%◌, ◌^◌, ◌≤◌, ◌<◌, ◌≡◌, refl, sym, ap, ◌∙◌, arith, Bool-cases, inl, inr,
  List, [], ◌∷◌, ◌++◌, ltb, if◌then◌else◌, take, length, length-take, length-append, get_elem?, u32,
  u64,
}
use litealigndata.Struct.Rows.{copy_rows, fill_table}

module _ {ℓ} {A : Type ℓ} where
  get_elem?-append_left :
      (xs ys : List A) (i : ℕ) → i < length xs → get_elem? (xs ++ ys) i ≡ get_elem? xs i
  get_elem?-append_left [] ys i h = absurd (omega arith)
  get_elem?-append_left (x ∷ xs) ys zero h = refl
  get_elem?-append_left (x ∷ xs) ys (suc i) h = get_elem?-append_left xs ys i (omega arith)

  get_elem?-append_right :
      (xs ys : List A) (n i : ℕ)
      → n ≡ length xs
      → n ≤ i
      → get_elem? (xs ++ ys) i ≡ get_elem? ys (i - n)
  get_elem?-append_right [] ys zero i e h = ap (get_elem? ys) (omega arith)
  get_elem?-append_right [] ys (suc n) i e h = absurd (omega arith)
  get_elem?-append_right (x ∷ xs) ys zero i e h = absurd (omega arith)
  get_elem?-append_right (x ∷ xs) ys (suc n) zero e h = absurd (omega arith)
  get_elem?-append_right (x ∷ xs) ys (suc n) (suc i) e h =
      get_elem?-append_right xs ys n i (omega arith) (omega arith) ∙ ap (get_elem? ys) (omega arith)

  get_elem?-take : (n : ℕ) (xs : List A) (i : ℕ) → i < n → get_elem? (take n xs) i ≡ get_elem? xs i
  get_elem?-take zero xs i h = absurd (omega arith)
  get_elem?-take (suc n) [] i h = refl
  get_elem?-take (suc n) (x ∷ xs) zero h = refl
  get_elem?-take (suc n) (x ∷ xs) (suc i) h = get_elem?-take n xs i (omega arith)

  module _ (seed : List A) (m : ℕ) (some_rows : 0 < length seed) (fits : m < 2 ^ 32)
      (small : length seed < 2 ^ 32) where
    n : ℕ
    n = length seed

    -- The number of rows that the next turn takes, with `left` rows to go.
    turn : ℕ → ℕ
    turn left = if ltb n left then n else left

    -- The loop from a turn on: the rows to go, read from the seed file in a circle.
    record IsFilled (left : ℕ) (rows : List A) : Type ℓ where
      size : length rows ≡ left
      row : (i : ℕ) → i < left → get_elem? rows i ≡ get_elem? seed (i % n)

    turn_bounds :
        (left : ℕ) → (turn left ≤ n) × (turn left ≤ left) × (turn left < left → turn left ≡ n)
    unfolding turn n
    turn_bounds left = ground arith

    sub_sub : (a b c : ℕ) → a - b - c ≡ a - (b + c)
    sub_sub a b c = omega arith

    one_turn :
        (left t : ℕ) (rest : List A)
        → (t ≤ n) × (t ≤ left) × (t < left → t ≡ n)
        → IsFilled (left - t) rest
        → IsFilled left (take t seed ++ rest)
    unfolding n
    one_turn left t rest (inside, below, whole) ok =
        let chunk : length (take t seed) ≡ t = omega (arith, length-take t seed) in
        record {
          size = omega (arith, length-append (take t seed) rest, chunk, ok.size);
          row = λ i h. elim (Bool-cases (ltb i t)) [
            | inl e ↦
                get_elem?-append_left (take t seed) rest i (ground (arith, chunk))
                ∙ (get_elem?-take t seed i (ground arith)
                    ∙ ap (get_elem? seed) (sym (mod-eq_of_lt (ground arith))))
            | inr e ↦
                let t_is : t ≡ n = whole (ground arith) in
                get_elem?-append_right (take t seed) rest t i (sym chunk) (ground arith)
                ∙ (ok.row (i - t) (ground arith)
                    ∙ ap (get_elem? seed)
                        (ap (λ k. (i - k) % n) t_is ∙ sym (mod-eq-sub-mod (ground arith))))
          ];
        }

    copy_rows-IsFilled :
        (fuel copied : ℕ)
        → copied ≤ m
        → m - copied ≤ fuel
        → IsFilled (m - copied) (copy_rows fuel seed n m copied (turn (m - copied)))
    unfolding copy_rows turn n
    copy_rows-IsFilled zero copied h enough = record {
      size = omega arith;
      row = λ i below. absurd (omega arith);
    }
    copy_rows-IsFilled (suc fuel) copied h enough = elim (Bool-cases (ltb copied m)) [
      | inl e ↦
          let t = turn (m - copied) in
          let bounds = turn_bounds (m - copied) in
          let moved : u64 (copied + t) ≡ copied + t = omega (arith, bounds.1) in
          let left : u32 (u64 (m + (2 ^ 64 - (copied + t)))) ≡ m - (copied + t) =
            omega (arith, bounds.1) in
          let rest =
            copy_rows-IsFilled fuel (copied + t) (omega (arith, bounds.1))
              (ground (arith, bounds.0, bounds.1, bounds.2)) in
          rw (e, moved, left) (one_turn (m - copied) t _ bounds (rw (sub_sub m copied t) rest))
      | inr e ↦ rw e (record { size = ground arith; row = λ i below. absurd (ground arith) })
    ]

-- For a seed file of less than 2 ^ 32 rows, but some, that all take part, and a table of at least as
-- many rows: the copy fills exactly the table's rows, and row `i` is row `i` of the seed file read
-- in a circle. No copy writes behind the table, although the last one may take a part of the file.
pub fill_table-circle {ℓ} :
    {A : Type ℓ} (seed : List A) (num_entries m_rownum : ℕ)
    → 0 < length seed
    → length seed ≤ num_entries
    → length seed ≤ m_rownum
    → m_rownum < 2 ^ 32
    → let rows = fill_table seed (length seed) num_entries m_rownum in
      (length rows ≡ m_rownum)
      × ((i : ℕ) → i < m_rownum → get_elem? rows i ≡ get_elem? seed (i % length seed))
unfolding fill_table turn n
fill_table-circle seed num_entries m_rownum some_rows all_part fits small =
    let total = length seed in
    let first : (if ltb num_entries total then num_entries else total)
        ≡ (if ltb total (m_rownum - 0) then total else m_rownum - 0) =
      ground arith in
    let filled =
      copy_rows-IsFilled seed m_rownum some_rows small (omega arith) (suc m_rownum) 0 (omega arith)
        (omega arith) in
    rw first (omega (arith, filled.size), λ i h. filled.row i (omega arith))
