-- ===== src/Fun/Files/Shuffles.antt =====
-- The array of file indices and its shuffle.
use mathlib.Core.List.{Perm, append-nil, append_assoc}
use mathlib.Core.List.Perm
use litealigndata.Prelude.{
  length-replicate, ℕ, zero, suc, ◌+◌, ◌-◌, ◌%◌, ◌≤◌, ◌<◌, ◌≡◌, ◌≢◌, refl, ◌∙◌, sym, ap, u8,
  length-append, inl, inr, arith, ltb, ◌||◌, ◌==◌, true, Bool-cases, some, List, [], ◌∷◌, ◌++◌,
  length, set, replicate, length-set, get_elem?-set_ne, get_elem?-in_range, set-Perm,
}
use litealigndata.Fun.Files.{swap, random_array, write_run, fill_files, file_array}

-- Two different indices in range can be swapped, and that only reorders the array.
swap-Perm :
    (a : List ℕ) (i j : ℕ)
    → i < length a
    → j < length a
    → i ≢ j
    → (b : List ℕ) × (swap a i j ≡ some b) × (Perm b a) × (length b ≡ length a)
unfolding swap
swap-Perm a i j hi hj ne =
    let (x, ex) = get_elem?-in_range a i hi in
    let (y, ey) = get_elem?-in_range a j hj in
    let still = get_elem?-set_ne a i j y ne ∙ ey in
    (
      set (set a i y) j x,
      rw (ex, ey) refl,
      Perm.cons_inv (Perm.trans (set-Perm (set a i y) j y x still) (set-Perm a i x y ex)),
      length-set (set a i y) j x ∙ length-set a i y,
    )

ltb-true : {m n : ℕ} → m < n → ltb m n ≡ true
ltb-true h = ground arith

random_array-Perm :
    (i left : ℕ) (rand : ℕ → ℕ) (a : List ℕ)
    → i + left ≤ length a
    → (b : List ℕ) × (random_array i left rand a ≡ some b) × (Perm b a) × (length b ≡ length a)
unfolding random_array
random_array-Perm i zero rand a h = (a, refl, Perm.refl a, refl)
random_array-Perm i (suc left) rand a h =
    let n = i + suc left in
    let index = rand i % (n - i) + i in
    let inside : index < n = omega arith in
    elim (Bool-cases (index == i)) [
      | inl e ↦
          let (b, found, perm, same) = random_array-Perm (suc i) left rand a (omega arith) in
          (b, rw e found, perm, same)
      | inr e ↦
          let (c, swapped, perm, size) =
            swap-Perm a i index (omega arith) (omega arith) (ground arith) in
          let (b, found, perm', same) = random_array-Perm (suc i) left rand c (omega arith) in
          (b, rw (e, ltb-true inside, swapped) found, Perm.trans perm' perm, same ∙ size)
    ]

set-append :
    (pre : List ℕ) (x v : ℕ) (post : List ℕ)
    → set (pre ++ (x ∷ post)) (length pre) v ≡ pre ++ (v ∷ post)
set-append [] x v post = refl
set-append (y ∷ pre) x v post = rw (set-append pre x v post)

length-snoc : (pre : List ℕ) (x : ℕ) → length (pre ++ (x ∷ [])) ≡ suc (length pre)
length-snoc pre x = omega (arith, length-append pre (x ∷ []))

-- An array of `pre` and `post`: the run stands behind `pre`.
write_run-append :
    (a pre post : List ℕ) (pos file n : ℕ)
    → a ≡ pre ++ post
    → pos ≡ length pre
    → n ≤ length post
    → (rest : List ℕ) × (write_run a pos file n ≡ some (pre ++ (replicate n file ++ rest)))
      × (length rest + n ≡ length post)
unfolding write_run
write_run-append a pre post pos file zero e p h = (post, rw e refl, omega arith)
write_run-append a pre [] pos file (suc n) e p h = absurd (omega arith)
write_run-append a pre (x ∷ post) pos file (suc n) e p h =
    let (rest, wrote, size) =
      write_run-append (set a pos file) (pre ++ (file ∷ [])) post (suc pos) file n
        (ap (λ b. set b pos file) e
          ∙ ap (λ i. set (pre ++ (x ∷ post)) i file) p
          ∙ set-append pre x file post
          ∙ sym (append_assoc pre (file ∷ []) post))
        (omega (arith, length-snoc pre file)) (omega arith) in
    let inside : pos < length a = omega (arith, ap length e, length-append pre (x ∷ post)) in
    (
      rest,
      rw (ltb-true inside)
          (wrote ∙ ap some (append_assoc pre (file ∷ []) (replicate n file ++ rest))),
      omega (arith, size),
    )

-- The entries that the files' percentages ask for, the first file's first.
pub blocks : ℕ → List ℕ → List ℕ
blocks file [] = []
blocks file (percentage ∷ rest) = replicate percentage file ++ blocks (suc file) rest

unfoldable pub sum : List ℕ → ℕ
sum [] = 0
sum (n ∷ ns) = n + sum ns

plus_zero : (n : ℕ) → n + 0 ≡ n
plus_zero n = omega arith

-- One file of the loop, by what the rest of it makes of the array that its run leaves.
fill_files_step :
    (a b next : List ℕ) (total file n : ℕ) (ns : List ℕ) {t f sum₁ sum₂ : ℕ}
    {whole₁ whole₂ : List ℕ}
    → write_run a total file n ≡ some b
    → b ≡ next
    → u8 (total + n) ≡ t
    → u8 (file + 1) ≡ f
    → fill_files next t f ns ≡ some (whole₁, sum₁)
    → whole₁ ≡ whole₂
    → sum₁ ≡ sum₂
    → fill_files a total file (n ∷ ns) ≡ some (whole₂, sum₂)
unfolding fill_files
fill_files_step a b next total file n ns wrote e et ef filled same_list same_sum =
    rw (wrote, e, et, ef, filled, same_list, same_sum) refl

fill_files-blocks :
    (a pre post percentages : List ℕ) (total file : ℕ)
    → a ≡ pre ++ post
    → total ≡ length pre
    → sum percentages ≤ length post
    → length a ≤ 100
    → file + length percentages < 256
    → (rest : List ℕ) × (fill_files a total file percentages
        ≡ some (pre ++ (blocks file percentages ++ rest), total + sum percentages))
      × (length rest + sum percentages ≡ length post)
unfolding fill_files blocks sum
fill_files-blocks a pre post [] total file e p h fits few =
    (post, rw (e, plus_zero total) refl, omega arith)
fill_files-blocks a pre post (n ∷ ns) total file e p h fits few =
    let sizes = ap length e ∙ length-append pre post in
    let (rest, wrote, size) = write_run-append a pre post total file n e p (omega arith) in
    let run = pre ++ replicate n file in
    let next = run ++ rest in
    let run_size : length run ≡ total + n =
      omega (arith, length-append pre (replicate n file), length-replicate n file) in
    let joined : pre ++ (replicate n file ++ rest) ≡ next =
      sym (append_assoc pre (replicate n file) rest) in
    let next_total : u8 (total + n) ≡ total + n = omega (arith, sizes) in
    let next_file : u8 (file + 1) ≡ suc file = omega arith in
    let (rest', filled, size') =
      fill_files-blocks next run rest ns (total + n) (suc file) refl (sym run_size)
        (omega (arith, size)) (omega (arith, sizes, size, run_size, length-append run rest))
        (omega arith) in
    let shape : run ++ (blocks (suc file) ns ++ rest')
        ≡ pre ++ (replicate n file ++ blocks (suc file) ns ++ rest') =
      append_assoc pre (replicate n file) (blocks (suc file) ns ++ rest')
      ∙ ap (λ b. pre ++ b) (sym (append_assoc (replicate n file) (blocks (suc file) ns) rest')) in
    (
      rest',
      fill_files_step a (pre ++ (replicate n file ++ rest)) next total file n ns wrote joined
          next_total next_file filled shape (omega arith),
      omega (arith, size, size'),
    )

length-blocks : (file : ℕ) (ps : List ℕ) → length (blocks file ps) ≡ sum ps
unfolding blocks sum
length-blocks file [] = refl
length-blocks file (p ∷ ps) = omega (
  arith,
  length-append (replicate p file) (blocks (suc file) ps),
  length-replicate p file,
  length-blocks (suc file) ps,
)

-- When the percentages of at most 255 files sum to 100, the array that `process`
-- leaves has 100 entries and holds the index of every file as often as its percentage says, in whatever order the
-- shuffle brings them, and the percentages are accepted. The array's old entries do not matter.
pub file_array-blocks :
    (rand : ℕ → ℕ) (percentages a : List ℕ)
    → length a ≡ 100
    → sum percentages ≡ 100
    → length percentages < 256
    → (b : List ℕ) × (file_array rand percentages a ≡ some (b, true))
      × (Perm b (blocks 0 percentages))
      × (length b ≡ 100)
unfolding file_array
file_array-blocks rand percentages a size all few =
    let (rest, filled, left) =
      fill_files-blocks a [] a percentages 0 0 refl refl (omega arith) (omega arith)
        (omega arith) in
    let only : rest ≡ [] = no_entries rest (omega arith) in
    let entries = ap (λ r. blocks 0 percentages ++ r) only ∙ append-nil (blocks 0 percentages) in
    let total : 0 + sum percentages ≡ 100 = omega arith in
    finish (blocks 0 percentages ++ rest) (0 + sum percentages) filled entries total
  where
    no_entries : (r : List ℕ) → length r ≡ 0 → r ≡ []
    no_entries [] h = refl
    no_entries (x ∷ r) h = absurd (omega arith)

    accepted : (total : ℕ) → total ≡ 100 → (length percentages == 0) || (total == 100) ≡ true
    accepted total sums = ground arith

    finish :
        (b : List ℕ) (total : ℕ)
        → fill_files a 0 0 percentages ≡ some (b, total)
        → b ≡ blocks 0 percentages
        → total ≡ 100
        → (c : List ℕ) × (file_array rand percentages a ≡ some (c, true))
          × (Perm c (blocks 0 percentages))
          × (length c ≡ 100)
    finish b total filled entries sums =
        let whole : length b ≡ 100 =
          omega (arith, ap length entries, length-blocks 0 percentages) in
        let (c, mixed, perm, same) = random_array-Perm 0 100 rand b (omega (arith, whole)) in
        (c, rw (filled, mixed, accepted total sums) refl, rw (sym entries) perm, same ∙ whole)
