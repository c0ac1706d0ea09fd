-- ===== src/Struct/Schedule/Between.antt =====
-- What holds between two rounds, and what the end of a round does.
use mathlib.Core.List.{Memᴰ}
use mathlib.Core.List.Memᴰ
use litealigndata.Prelude.{
  ℕ, suc, ◌+◌, ◌*◌, ◌/◌, ◌^◌, ◌<◌, ◌≤◌, ◌≡◌, refl, ap, arith, Bool, true, false, Bool-cases, inl,
  inr, List, [], ◌∷◌, ◌==◌, ==_iff,
}
use litealigndata.Struct.Schedule.{TableStatus, Tables, World, put, is_done, all_done, reset_tables}
use litealigndata.Struct.Schedule.Progress.{per_round, counted}

-- The rounds that `n` files take.
abbrev pub rounds_of : Bool → ℕ → ℕ
rounds_of false n = n
rounds_of true n = (n + 1) / 2

rounds_of-files : (stream : Bool) (n j : ℕ) → j < rounds_of stream n → j * per_round stream < n
rounds_of-files false n j h = omega arith
rounds_of-files true n j h = omega arith

pub rounds_of-all : (stream : Bool) (n : ℕ) → n ≤ rounds_of stream n * per_round stream
rounds_of-all false n = omega arith
rounds_of-all true n = omega arith

rounds_of-pos : (stream : Bool) (n : ℕ) → 0 < n → 0 < rounds_of stream n
rounds_of-pos false n h = omega arith
rounds_of-pos true n h = omega arith

pub reached :
    (stream : Bool) (n i : ℕ)
    → i + 0 ≡ rounds_of stream n
    → i * per_round stream ≡ rounds_of stream n * per_round stream
reached stream n i e = ap (λ i. i * per_round stream) (omega (arith, e))

pub lt_of :
    (stream : Bool) (n left i : ℕ) → i + suc left ≡ rounds_of stream n → i * per_round stream < n
lt_of stream n left i e = rounds_of-files stream n i (omega (arith, e))

pub counted-files :
    (stream : Bool) (n j : ℕ)
    → n + per_round stream ≤ 2 ^ 32
    → j * per_round stream < n
    → counted stream (j * per_round stream) ≡ suc j * per_round stream
counted-files false n j h lt = omega arith
counted-files true n j h lt = omega arith

-- Between two rounds, behind `j` of them: no table is done, and all have the same number of files.
pub record IsBetween (ts : Tables) (tables : List ℕ) (n j : ℕ) (w : World) : Type 0 where
  pub waiting : (k : ℕ) → is_done (w.status k) ≡ false
  pub counts : (k : ℕ) → Memᴰ k tables → w.created k ≡ j * per_round ts.get_stream
  pub flagged : (k : ℕ) → Memᴰ k tables → n ≤ w.created k → w.full (ts.table_id k) ≡ true
  pub flag_of : (i : ℕ) → w.full i ≡ true → (k : ℕ) × Memᴰ k tables × (n ≤ w.created k)

pub all_done_of :
    (w : World) (ds : List ℕ)
    → ((d : ℕ) → Memᴰ d ds → is_done (w.status d) ≡ true)
    → all_done w ds ≡ true
unfolding all_done
all_done_of w [] h = refl
all_done_of w (d ∷ rest) h =
    rw (h d (Memᴰ.head refl)) (all_done_of w rest (λ j m. h j (Memᴰ.tail m)))

pub clash : {b : Bool} → b ≡ true → b ≡ false → ⊥
clash x y = cc

-- What the end of a round leaves done was so before and is none of its tables; and it keeps the
-- numbers of files and the list.
pub reset_tables_lem :
    (tables : List ℕ) (w : World)
    → ((k : ℕ)
        → is_done ((reset_tables tables w).status k) ≡ true
        → (is_done (w.status k) ≡ true) × (Memᴰ k tables → ⊥))
      × ((reset_tables tables w).created ≡ w.created)
      × ((reset_tables tables w).full ≡ w.full)
unfolding reset_tables
reset_tables_lem [] w = (λ k d. (d, λ m. elim m [ ]), refl, refl)
reset_tables_lem (t ∷ rest) w =
    let next = record w {
      status = put w.status t TableStatus.not_ready;
      filled = put w.filled t 0;
    } in
    let (below, files, flags) = reset_tables_lem rest next in
    (
      λ k d.
          let (before, out) = below k d in
          elim (Bool-cases (k == t)) [
            | inl same ↦ absurd (clash before (rw same refl))
            | inr other ↦ (
              rw other at before,
              λ m. elim (Memᴰ.cases_cons m) [
                | inl e ↦ absurd (clash ((==_iff k t).1 e) other)
                | inr m' ↦ out m'
              ],
            )
          ],
      files,
      flags,
    )
