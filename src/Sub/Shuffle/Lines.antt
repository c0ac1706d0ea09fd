-- ===== src/Sub/Shuffle/Lines.antt =====
-- The lines that the first loop finds, and what the whole shuffle writes.
use mathlib.Core.List.{Perm, append_assoc}
use mathlib.Core.List.Perm
use litealigndata.Prelude.{
  ℕ, zero, suc, ◌+◌, ◌%◌, ◌^◌, ◌≤◌, ◌<◌, ◌≡◌, ◌≢◌, refl, sym, ap, ◌∙◌, arith, some, List, [], ◌∷◌,
  ◌++◌, map, length, length-append, get_elem?, get_elem?-middle, take, drop, take_append,
  drop_append, u32, lt→ltb, ltb, Bool, true, Bool-cases, inl, inr, ◌*◌, ◌==◌, false,
}
use litealigndata.Sub.Shuffle.{
  LineData, max_lines, mapped, find_lines, line_bytes, identity, swap_file_line_by_mmap,
  swap_file_line_by_mmapshuf, swap_lines, copy_lines, in_file, in_tables,
}
use litealigndata.Sub.Shuffle.Swaps.{concat, line_at, line_at-found, AreBelow, write_lines-order}

-- Text without a line feed and without a zero.
abbrev pub IsText : List ℕ → Type 0
IsText [] = Unit {0}
IsText (c ∷ s) = (c ≢ 10) × (c ≢ 0) × IsText s

abbrev pub ended : List ℕ → List ℕ
ended l = l ++ 10 ∷ []

-- Lines that the tables have the place for.
abbrev pub AreLines : List (List ℕ) → Type 0
AreLines [] = Unit {0}
AreLines (l ∷ ls) = IsText l × (length l + 1 < 2 ^ 32) × AreLines ls

-- Where lines stand that begin at `p`.
placed : ℕ → List (List ℕ) → List LineData
placed p [] = []
placed p (l ∷ ls) = record { ptr = p; len = length l + 1 } ∷ placed (p + length l + 1) ls

find_lines-tail :
    (room : ℕ → Bool) (t : List ℕ) (ptr point count n : ℕ)
    → IsText t
    → find_lines room (t ++ 0 ∷ []) ptr point count n ≡ some []
unfolding find_lines
find_lines-tail room [] ptr point count n h = refl
find_lines-tail room (zero ∷ t) ptr point count n h = absurd (h.1 refl)
find_lines-tail room (suc c ∷ t) ptr point count n h =
    ground (arith, h.0, find_lines-tail room t (ptr + 1) point (u32 (count + 1)) n h.2)

find_lines-line :
    (room : ℕ → Bool) (l rest : List ℕ) (ptr point count n next len : ℕ) (lines : List LineData)
    → IsText l
    → len < 2 ^ 32
    → room n ≡ true
    → next ≡ ptr + length l + 1
    → len ≡ count + length l + 1
    → find_lines room rest next next 0 (n + 1) ≡ some lines
    → find_lines room (l ++ (10 ∷ rest)) ptr point count n
      ≡ some (record { ptr = point; len = len } ∷ lines)
unfolding find_lines
find_lines-line room [] rest ptr point count n next len lines h short few en el e =
    let at : ptr + 1 ≡ next = omega arith in
    let size : u32 (count + 1) ≡ len = omega arith in rw (few, at, size, e) refl
find_lines-line room (zero ∷ l) rest ptr point count n next len lines h short few en el e =
    absurd (h.1 refl)
find_lines-line room (suc c ∷ l) rest ptr point count n next len lines h short few en el e =
    let other : suc c == 10 ≡ false = ground (arith, h.0) in
    rw other (
      find_lines-line room l rest (ptr + 1) point (u32 (count + 1)) n next len lines h.2 short few
        (omega arith) (omega arith) e)

-- A text of whole lines and a rest.
abbrev pub contents : List (List ℕ) → List ℕ → List ℕ
contents [] tail = tail
contents (l ∷ ls) tail = l ++ (10 ∷ contents ls tail)

find_lines-contents :
    (room : ℕ → Bool) (ls : List (List ℕ)) (tail : List ℕ) (p n : ℕ)
    → AreLines ls
    → IsText tail
    → ((i : ℕ) → i < n + length ls → room i ≡ true)
    → find_lines room (contents ls tail ++ 0 ∷ []) p p 0 n ≡ some (placed p ls)
unfolding placed
find_lines-contents room [] tail p n h t few = find_lines-tail room tail p p 0 n t
find_lines-contents room (l ∷ ls) tail p n h t few =
    rw (append_assoc l (10 ∷ contents ls tail) (0 ∷ [])) (
      find_lines-line room l (contents ls tail ++ 0 ∷ []) p p 0 n (p + length l + 1) (length l + 1)
        (placed (p + length l + 1) ls) h.0 h.1 (few n (omega arith)) refl (omega arith)
        (find_lines-contents room ls tail (p + length l + 1) (n + 1) h.2 t
          (λ i lt. few i (omega arith))))

bytes_between :
    (pre mid post file : List ℕ) (p n : ℕ)
    → file ≡ pre ++ (mid ++ post)
    → p ≡ length pre
    → n ≡ length mid
    → take n (drop p file) ≡ mid
bytes_between pre mid post file p n e h k =
    rw (e, h, k) (ap (take (length mid)) (drop_append pre (mid ++ post)) ∙ take_append mid post)

-- What stands at the places found.
placed-bytes :
    (ls : List (List ℕ)) (tail pre file : List ℕ) (p : ℕ)
    → file ≡ pre ++ contents ls tail
    → p ≡ length pre
    → map (line_bytes file) (placed p ls) ≡ map ended ls
unfolding placed
placed-bytes [] tail pre file p e h = refl
placed-bytes (l ∷ ls) tail pre file p e h =
    let whole : file ≡ pre ++ (ended l ++ contents ls tail) =
      e ∙ ap (λ x. pre ++ x) (sym (append_assoc l (10 ∷ []) (contents ls tail))) in
    let size : length (ended l) ≡ length l + 1 = omega (arith, length-append l (10 ∷ [])) in
    let here : take (length l + 1) (drop p file) ≡ ended l =
      bytes_between pre (ended l) (contents ls tail) file p (length l + 1) whole h (sym size) in
    let there : map (line_bytes file) (placed (p + length l + 1) ls) ≡ map ended ls =
      placed-bytes ls tail (pre ++ ended l) file (p + length l + 1)
        (whole ∙ sym (append_assoc pre (ended l) (contents ls tail)))
        (omega (arith, length-append pre (ended l), size)) in
    rw there (ap (λ x. x ∷ map ended ls) (unfold line_bytes in here))

-- The lines by their numbers from `length pre` on.
lines_by_number :
    (file : List ℕ) (pre post lines : List LineData) (i : ℕ)
    → lines ≡ pre ++ post
    → i ≡ length pre
    → map (line_at file lines) (identity i (length post)) ≡ map (line_bytes file) post
unfolding identity
lines_by_number file pre [] lines i e h = refl
lines_by_number file pre (x ∷ post) lines i e h =
    let found : get_elem? lines i ≡ some x =
      ap (λ a. get_elem? a i) e ∙ get_elem?-middle pre x post i h in
    let there : map (line_at file lines) (identity (suc i) (length post))
        ≡ map (line_bytes file) post =
      lines_by_number file (pre ++ (x ∷ [])) post lines (suc i)
        (e ∙ sym (append_assoc pre (x ∷ []) post))
        (omega (arith, length-append {0} pre (x ∷ []))) in
    rw there (ap (λ y. y ∷ map (line_bytes file) post) (line_at-found file lines i x found))

identity-AreBelow : (n i left : ℕ) → i + left ≤ n → AreBelow n (identity i left)
unfolding identity
identity-AreBelow n i zero h j l e = cc
identity-AreBelow n i (suc left) h zero l e = ground arith
identity-AreBelow n i (suc left) h (suc j) l e =
    identity-AreBelow n (suc i) left (omega arith) j l e

length-identity : (i left : ℕ) → length (identity i left) ≡ left
unfolding identity
length-identity i zero = refl
length-identity i (suc left) = ap suc (length-identity (suc i) left)

length-placed : (p : ℕ) (ls : List (List ℕ)) → length (placed p ls) ≡ length ls
unfolding placed
length-placed p [] = refl
length-placed p (l ∷ ls) = ap suc (length-placed (p + length l + 1) ls)

-- What the second loop of `swapFileLineBymmap` writes.
swap_file_line_by_mmap-order :
    (page : ℕ) (draw : ℕ → ℕ) (ls : List (List ℕ)) (tail : List ℕ)
    → AreLines ls
    → IsText tail
    → length ls ≤ max_lines
    → length (contents ls tail) % page ≢ 0
    → (order : List (List ℕ)) × (swap_file_line_by_mmap page draw (contents ls tail)
        ≡ some (concat order))
      × Perm order (map ended ls)
unfolding swap_file_line_by_mmap mapped in_tables
swap_file_line_by_mmap-order page draw ls tail h t few fits =
    let file = contents ls tail in
    let lines = placed 0 ls in
    let n = length lines in
    let (a, wrote, r) =
      write_lines-order file lines draw 0 n (identity 0 n) (omega (arith, length-identity 0 n))
        (identity-AreBelow n 0 n (omega arith)) in
    let found =
      find_lines-contents in_tables ls tail 0 0 h t (λ i lt. lt→ltb i max_lines (omega arith)) in
    let ends : length file % page == 0 ≡ false = ground arith in
    let numbered : map (line_at file lines) (identity 0 n) ≡ map ended ls =
      lines_by_number file [] lines lines 0 refl refl ∙ placed-bytes ls tail [] file 0 refl refl in
    (
      map (line_at file lines) a,
      rw (ends, found) wrote,
      rw numbered at (Perm.map (line_at file lines) r.perm),
    )

copy_lines-concat :
    (file : List ℕ) (lines : List LineData)
    → copy_lines file lines ≡ concat (map (line_bytes file) lines)
unfolding copy_lines
copy_lines-concat file [] = refl
copy_lines-concat file (x ∷ lines) = rw (copy_lines-concat file lines) refl

swap_file_line_by_mmapshuf-order :
    (page : ℕ) (shuf : List LineData → List LineData) (ls : List (List ℕ)) (tail : List ℕ)
    → ((lines : List LineData) → Perm (shuf lines) lines)
    → AreLines ls
    → IsText tail
    → length (contents ls tail) % page ≢ 0
    → (order : List (List ℕ)) × (swap_file_line_by_mmapshuf page shuf (contents ls tail)
        ≡ some (concat order))
      × Perm order (map ended ls)
unfolding swap_file_line_by_mmapshuf mapped in_file
swap_file_line_by_mmapshuf-order page shuf ls tail mixed h t fits =
    let file = contents ls tail in
    let lines = placed 0 ls in
    let found = find_lines-contents in_file ls tail 0 0 h t (λ i lt. refl) in
    let ends : length file % page == 0 ≡ false = ground arith in
    (
      map (line_bytes file) (shuf lines),
      rw (ends, found) (ap some (copy_lines-concat file (shuf lines))),
      rw (placed-bytes ls tail [] file 0 refl refl) at (Perm.map (line_bytes file) (mixed lines)),
    )

-- For a file of at most `max_lines` whole lines and a rest behind the last line feed, all without
-- zeros, whose bytes do not fill the last page, of at most 500 * 2 ^ 20 kilobytes, and whatever
-- numbers are drawn, where `shuf` only reorders: the shuffle succeeds, by either method, and writes
-- each whole line just as often as the file has it, in some order, and nothing else, so that the
-- rest is lost. Each line is shorter than 2 ^ 32 bytes with its line feed.
pub swap_lines-order :
    (page : ℕ) (draw : ℕ → ℕ) (shuf : List LineData → List LineData) (num : ℕ) (ls : List (List ℕ))
    (tail : List ℕ)
    → ((lines : List LineData) → Perm (shuf lines) lines)
    → num ≤ 2 ^ 20 * 500
    → AreLines ls
    → IsText tail
    → length ls ≤ max_lines
    → length (contents ls tail) % page ≢ 0
    → (order : List (List ℕ)) × (swap_lines page draw shuf num (contents ls tail)
        ≡ some (0, some (concat order)))
      × Perm order (map ended ls)
unfolding swap_lines
swap_lines-order page draw shuf num ls tail mixed small h t few fits =
    let taken : ltb (2 ^ 20 * 500) num ≡ false = ground arith in
    elim (Bool-cases (ltb (2 ^ 20 * 200) num)) [
      | inl large ↦
          let (order, wrote, perm) =
            swap_file_line_by_mmapshuf-order page shuf ls tail mixed h t fits in
          (order, rw (taken, large, wrote) refl, perm)
      | inr fit ↦
          let (order, wrote, perm) = swap_file_line_by_mmap-order page draw ls tail h t few fits in
          (order, rw (taken, fit, wrote) refl, perm)
    ]
