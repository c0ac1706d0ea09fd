-- ===== src/Fun/Files/Rounds.antt =====
-- The files that a hundred rows take.
use mathlib.Core.List.{Perm, append_assoc}
use litealigndata.Prelude.{
  ℕ, zero, suc, ◌+◌, ◌<◌, ◌≡◌, refl, sym, ap, ◌∙◌, arith, true, false, Option, some, List, [], ◌∷◌,
  ◌++◌, ◌==◌, if◌then◌else◌, ◌>>=◌, length, length-append, get_elem?-middle, u32,
}
use litealigndata.Fun.Files.{next_file, file_array}
use litealigndata.Fun.Files.Shuffles.{sum, blocks, file_array-blocks}

-- The files of `k` rows, and the index behind them.
pub take_files : ℕ → List ℕ → ℕ → Option (List ℕ × ℕ)
take_files zero arr index = some ([], index)
take_files (suc k) arr index =
    next_file arr index >>= λ r. take_files k arr r.1 >>= λ s. some (r.0 ∷ s.0, s.1)

next_file-middle :
    (pre : List ℕ) (v : ℕ) (post : List ℕ) (i : ℕ)
    → i ≡ length pre
    → i < 100
    → next_file (pre ++ (v ∷ post)) i ≡ some (v, if suc i == 100 then 0 else suc i)
unfolding next_file
next_file-middle pre v post i e small =
    let next : u32 (i + 1) ≡ suc i = omega arith in rw (get_elem?-middle pre v post i e, next) refl

take_files-rest :
    (pre post arr : List ℕ) (i k : ℕ)
    → arr ≡ pre ++ post
    → i ≡ length pre
    → k ≡ length post
    → length arr ≡ 100
    → 0 < k
    → take_files k arr i ≡ some (post, 0)
unfolding take_files
take_files-rest pre [] arr i k e p q h pos = absurd (omega arith)
take_files-rest pre (v ∷ []) arr i zero e p q h pos = absurd (omega arith)
take_files-rest pre (v ∷ []) arr i (suc (suc k)) e p q h pos = absurd (omega arith)
take_files-rest pre (v ∷ []) arr i (suc zero) e p q h pos =
    let sizes = ap length e ∙ length-append pre (v ∷ []) in
    let last : suc i ≡ 100 = omega (arith, sizes) in
    let ends : suc i == 100 ≡ true = ground arith in
    rw (e, next_file-middle pre v [] i p (omega (arith, sizes)), ends) refl
take_files-rest pre (v ∷ w ∷ post) arr i zero e p q h pos = absurd (omega arith)
take_files-rest pre (v ∷ w ∷ post) arr i (suc k) e p q h pos =
    let sizes = ap length e ∙ length-append pre (v ∷ w ∷ post) in
    let inside : suc i < 100 = omega (arith, sizes) in
    let goes_on : suc i == 100 ≡ false = ground arith in
    let rest =
      take_files-rest (pre ++ (v ∷ [])) (w ∷ post) arr (suc i) k
        (e ∙ sym (append_assoc pre (v ∷ []) (w ∷ post))) (omega (arith, length-append pre (v ∷ [])))
        (omega arith) h (omega arith) in
    let next : next_file arr i ≡ some (v, suc i) =
      rw (e, next_file-middle pre v (w ∷ post) i p (omega arith), goes_on) refl in
    rw (next, rest) refl

-- When the percentages of at most 255 files sum to 100, every round of 100 rows takes each file as
-- often as its percentage says, and the next round begins with the first entry of the array again.
pub take_files-round :
    (rand : ℕ → ℕ) (percentages a : List ℕ)
    → length a ≡ 100
    → sum percentages ≡ 100
    → length percentages < 256
    → (b files : List ℕ) × (file_array rand percentages a ≡ some (b, true))
      × (take_files 100 b 0 ≡ some (files, 0))
      × (Perm files (blocks 0 percentages))
take_files-round rand percentages a size all few =
    let (b, made, perm, whole) = file_array-blocks rand percentages a size all few in
    (b, b, made, take_files-rest [] b b 0 100 refl refl (sym whole) whole (omega arith), perm)
