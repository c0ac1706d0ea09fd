-- ===== src/Fun/UniqueRandom.antt =====
-- `UniqueRandomFunc` of src/fun/BaseFuncClass.h and BaseFuncClass.cc: numbers drawn from a pool of
-- those that are to stand once in a batch and two pools of those that are to stand twice.
pub mod Conservation
pub mod Shares
use litealigndata.Prelude.{
  ℕ, zero, suc, ◌+◌, ◌-◌, ◌*◌, ◌/◌, ◌%◌, ◌^◌, Bool, true, false, Option, none, some, List, [], ◌∷◌,
  ltb, ◌==◌, if◌then◌else◌, ◌>>=◌, u32, u64,
}
use litealigndata.Com.Value.{AutoValue}
use litealigndata.Fun.Base.{x_value, set_value}

pub record Settings : Type 0 where
  pub low_range : ℕ
  pub high_range : ℕ
  pub is_reset : ℕ
  pub percent : ℕ
  pub rows_in_batch : ℕ
  pub percent_in_batch : ℕ

-- The head of a pool's list is the back of its vector.
pub record Pools : Type 0 where
  pub last_number : ℕ
  pub row_idx : ℕ
  pub uniq_pool : List ℕ
  pub dup_pool₀ : List ℕ
  pub dup_pool₁ : List ℕ

unfoldable pub start_table : Settings → ℕ → Pools → Pools
start_table p filled s =
    if filled == 0
    then record s {
      last_number = if p.is_reset == 0 then s.last_number else p.low_range;
      row_idx = 0;
    }
    else s

-- `if ( ++m_lastnumber > m_highRange ) m_lastnumber = m_lowRange`.
unfoldable pub next_last : Settings → ℕ → ℕ
next_last p last = let n = u64 (last + 1) in if ltb p.high_range n then p.low_range else n

-- The loop that fills the pool of the unique numbers.
unfoldable pub fill_uniq : Settings → ℕ → Pools → Pools
fill_uniq p zero s = s
fill_uniq p (suc left) s =
    fill_uniq p left (record s {
      last_number = next_last p s.last_number;
      uniq_pool = s.last_number ∷ s.uniq_pool;
    })

-- The loop that fills both pools of the duplicates.
unfoldable pub fill_dup : Settings → ℕ → Pools → Pools
fill_dup p zero s = s
fill_dup p (suc left) s = fill_dup p left (record s {
  last_number = next_last p s.last_number;
  dup_pool₀ = s.last_number ∷ s.dup_pool₀;
  dup_pool₁ = s.last_number ∷ s.dup_pool₁;
})

-- `rowNum * ( 2 * m_percentInBatch - 100 ) / 100` and `(rowNum - uniqRowNum) / 2` on `uint32_t`.
unfoldable pub uniq_row_num : Settings → ℕ
uniq_row_num p = u32 (p.rows_in_batch * u32 (2 * p.percent_in_batch + 2 ^ 32 - 100)) / 100

unfoldable pub dup_row_num : Settings → ℕ
dup_row_num p = u32 (p.rows_in_batch + 2 ^ 32 - uniq_row_num p) / 2

unfoldable pub refill : Settings → Pools → Pools
refill p s = fill_dup p (dup_row_num p) (fill_uniq p (uniq_row_num p) s)

unfoldable pub pop_uniq : Pools → Option (ℕ × Pools)
pop_uniq s = elim s.uniq_pool [ [] ↦ none | v ∷ rest ↦ some (v, record s { uniq_pool = rest }) ]

-- `dupPool[0].swap(dupPool[1])`, when the first pool is empty and the second is not.
unfoldable pub swap_dup : Pools → Pools
swap_dup s = elim s.dup_pool₀ [
  | [] ↦ record s { dup_pool₀ = s.dup_pool₁; dup_pool₁ = [] }
  | v ∷ rest ↦ s
]

unfoldable pub pop_dup : Pools → Option (ℕ × Pools)
pop_dup s = elim s.dup_pool₀ [ [] ↦ none | v ∷ rest ↦ some (v, record s { dup_pool₀ = rest }) ]

abbrev pub or_else : Option (ℕ × Pools) → Option (ℕ × Pools) → Option (ℕ × Pools)
or_else none other = other
or_else (some r) other = some r

-- The number for a row, from the unique numbers first or from the duplicates, and from the others
-- where those are used up; it is 0 where all pools are empty.
unfoldable pub pick_from : Bool → Pools → Pools × ℕ
pick_from from_uniq s =
    let from_dup = or_else (pop_dup (swap_dup s)) (pop_uniq (swap_dup s)) in
    let taken = if from_uniq then or_else (pop_uniq s) from_dup else from_dup in
    elim taken [ none ↦ (swap_dup s, 0) | some (v, rest) ↦ (rest, v) ]

unfoldable pub pick : Settings → ℕ → Pools → Pools × ℕ
pick p rand s = pick_from (ltb rand (x_value p.percent_in_batch)) s

-- `Calculate` for a row of a table with `filled` rows. The first draw decides whether the row gets
-- a number, and the second one from which pool; a batch of no rows divides by zero.
unfoldable pub next_number : Settings → ℕ → ℕ → ℕ → Pools → Option (Pools × ℕ)
next_number p filled total_rand rand s =
    let s₁ = start_table p filled s in
    if ltb total_rand (x_value p.percent)
    then if p.rows_in_batch == 0
      then none
      else (let full = if s₁.row_idx % p.rows_in_batch == 0 then refill p s₁ else s₁ in
          let (s₂, value) = pick p rand full in
          some (record s₂ { row_idx = u32 (s₂.row_idx + 1) }, value))
    else some (s₁, 0)

unfoldable pub calculate :
    Settings → ℕ → ℕ → ℕ → Pools → AutoValue → List ℕ → Option (Pools × AutoValue × List ℕ)
calculate p filled total_rand rand s v mem = next_number p filled total_rand rand s >>= λ r.
    set_value r.1 v mem >>= λ w. some (r.0, w.1, w.2)
