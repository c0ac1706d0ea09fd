-- ===== src/Com/Tags/Search.antt =====
-- What the search in a name table returns, for any table.
use litealigndata.Prelude.{
  ℕ, zero, suc, ◌+◌, ◌≤◌, ◌<◌, ◌≡◌, refl, ◌⊎◌, inl, inr, true, false, some, List, [], ◌∷◌, arith,
  length, get_elem?, Bool-cases, take,
}
use litealigndata.Com.Tags.{same_case, scan_tags, find_relative_tag}

-- No entry from index `lo` up to `hi` has the name, in any case.
abbrev pub NoMatch : List (List ℕ) → ℕ → ℕ → List ℕ → Type 0
NoMatch strings lo hi str =
    (i : ℕ) (e : List ℕ) → lo ≤ i → i < hi → get_elem? strings i ≡ some e → same_case e str ≡ false

-- The number `r` is the first index of the name from `lo` on, or 0 where there is none.
abbrev pub IsFirst : List (List ℕ) → ℕ → List ℕ → ℕ → Type 0
IsFirst strings lo str r =
    ((r ≡ 0) × NoMatch strings lo (length strings) str)
    ⊎ ((e : List ℕ) × (lo ≤ r)
        × (get_elem? strings r ≡ some e)
        × (same_case e str ≡ true)
        × NoMatch strings lo r str)

NoMatch-cons :
    (x : List ℕ) (rest : List (List ℕ)) (hi : ℕ) (str : List ℕ)
    → same_case x str ≡ false
    → NoMatch rest 0 hi str
    → NoMatch (x ∷ rest) 0 (suc hi) str
NoMatch-cons x rest hi str miss none_in zero e p q h = ground arith
NoMatch-cons x rest hi str miss none_in (suc i) e p q h = none_in i e (omega arith) (omega arith) h

-- The first match in the entries that are left, by its distance from the loop's index.
abbrev Scanned : ℕ → List (List ℕ) → List ℕ → Type 0
Scanned k rest str =
    ((scan_tags k rest str ≡ 0) × NoMatch rest 0 (length rest) str)
    ⊎ ((j : ℕ) × (e : List ℕ) × (scan_tags k rest str ≡ k + j)
        × (get_elem? rest j ≡ some e)
        × (same_case e str ≡ true)
        × NoMatch rest 0 j str)

scan_tags-Scanned : (k : ℕ) (rest : List (List ℕ)) (str : List ℕ) → 0 < k → Scanned k rest str
unfolding scan_tags
scan_tags-Scanned k [] str pos = inl (refl, λ i e p q h. absurd (omega arith))
scan_tags-Scanned k (x ∷ rest) str pos = elim (Bool-cases (same_case x str)) [
  | inl hit ↦ inr (0, x, rw hit (omega arith), refl, hit, λ i e p q h. absurd (omega arith))
  | inr miss ↦ elim (scan_tags-Scanned (k + 1) rest str (omega arith)) [
    | inl (zeroed, nowhere) ↦
        inl (rw miss zeroed, NoMatch-cons x rest (length rest) str miss nowhere)
    | inr (j, e, found, at_j, matches, before) ↦
        inr (suc j, e, rw miss (omega arith), at_j, matches, NoMatch-cons x rest j str miss before)
  ]
]

NoMatch-behind :
    (x : List ℕ) (rest : List (List ℕ)) (hi : ℕ) (str : List ℕ)
    → NoMatch rest 0 hi str
    → NoMatch (x ∷ rest) 1 (suc hi) str
NoMatch-behind x rest hi str none_in zero e p q h = absurd (omega arith)
NoMatch-behind x rest hi str none_in (suc i) e p q h = none_in i e (omega arith) (omega arith) h

take-all : (xs : List (List ℕ)) → take (length xs) xs ≡ xs
take-all [] = refl
take-all (x ∷ xs) = rw (take-all xs)

-- The search of a whole table that skips entry 0 returns the index of the first entry behind it
-- that has the name in any case, and 0 where there is none.
pub find_relative_tag-IsFirst :
    (x : List ℕ) (rest : List (List ℕ)) (str : List ℕ)
    → let strings = x ∷ rest in
      IsFirst strings 1 str (find_relative_tag strings (length strings) str)
unfolding find_relative_tag
find_relative_tag-IsFirst x rest str =
    rw (take-all rest) (elim (scan_tags-Scanned 1 rest str (omega arith)) [
      | inl (zeroed, nowhere) ↦ inl (zeroed, NoMatch-behind x rest (length rest) str nowhere)
      | inr (j, e, found, at_j, matches, before) ↦
          let position : scan_tags 1 rest str ≡ suc j = omega arith in
          rw position (inr (e, omega arith, at_j, matches, NoMatch-behind x rest j str before))
    ])
