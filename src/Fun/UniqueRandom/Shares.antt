-- ===== src/Fun/UniqueRandom/Shares.antt =====
-- How many numbers a refill of the pools for a batch adds, and which.
use mathlib.Core.List.{append_assoc, append-nil}
use mathlib.Core.Path.{fun_ext}
use native.Mathlib.Nat.{mul-add, mul_left_comm}
use litealigndata.Prelude.{
  ◌%◌, ◌∙◌, sym, List, [], ℕ, zero, suc, ◌+◌, ◌-◌, ◌*◌, ◌/◌, ◌≤◌, ◌<◌, ◌^◌, ◌≡◌, refl, ap, ◌∷◌,
  ◌++◌, arith, length, length-append, u32,
}
use litealigndata.Fun.UniqueRandom.{
  Settings, Pools, next_last, fill_uniq, fill_dup, uniq_row_num, dup_row_num, refill,
}

-- What `n` turns hand out from the number `last` on, the latest first.
abbrev pub handed_out : Settings → ℕ → ℕ → List ℕ
handed_out p zero last = []
handed_out p (suc n) last = handed_out p n (next_last p last) ++ last ∷ []

abbrev last_after : Settings → ℕ → ℕ → ℕ
last_after p zero last = last
last_after p (suc n) last = last_after p n (next_last p last)

length-handed_out : (p : Settings) (n last : ℕ) → length (handed_out p n last) ≡ n
length-handed_out p zero last = refl
length-handed_out p (suc n) last = omega (
  arith,
  length-append (handed_out p n (next_last p last)) (last ∷ []),
  length-handed_out p n (next_last p last),
)

handed_out-add :
    (p : Settings) (m n last : ℕ)
    → handed_out p n (last_after p m last) ++ handed_out p m last ≡ handed_out p (m + n) last
handed_out-add p zero n last =
    append-nil (handed_out p n last) ∙ ap (λ k. handed_out p k last) (zero_more n)
  where
    zero_more : (a : ℕ) → a ≡ 0 + a
    zero_more a = omega arith
handed_out-add p (suc m) n last =
    let next = next_last p last in
    sym (append_assoc (handed_out p n (last_after p m next)) (handed_out p m next) (last ∷ []))
    ∙ ap (λ l. l ++ last ∷ []) (handed_out-add p m n next)
    ∙ ap (λ k. handed_out p k last) (one_more m n)
  where
    one_more : (a b : ℕ) → suc (a + b) ≡ suc a + b
    one_more a b = omega arith

fill_uniq-handed_out :
    (p : Settings) (n : ℕ) (s : Pools)
    → fill_uniq p n s ≡ record s {
      last_number = last_after p n s.last_number;
      uniq_pool = handed_out p n s.last_number ++ s.uniq_pool;
    }
unfolding fill_uniq
fill_uniq-handed_out p zero s = refl
fill_uniq-handed_out p (suc n) s =
    let next = record s {
      last_number = next_last p s.last_number;
      uniq_pool = s.last_number ∷ s.uniq_pool;
    } in
    fill_uniq-handed_out p n next
    ∙ ap (λ pool. record s { last_number = last_after p (suc n) s.last_number; uniq_pool = pool })
        (sym (
          append_assoc (handed_out p n (next_last p s.last_number)) (s.last_number ∷ [])
            s.uniq_pool))

fill_dup-handed_out :
    (p : Settings) (n : ℕ) (s : Pools)
    → fill_dup p n s ≡ record s {
      last_number = last_after p n s.last_number;
      dup_pool₀ = handed_out p n s.last_number ++ s.dup_pool₀;
      dup_pool₁ = handed_out p n s.last_number ++ s.dup_pool₁;
    }
unfolding fill_dup
fill_dup-handed_out p zero s = refl
fill_dup-handed_out p (suc n) s =
    let next = record s {
      last_number = next_last p s.last_number;
      dup_pool₀ = s.last_number ∷ s.dup_pool₀;
      dup_pool₁ = s.last_number ∷ s.dup_pool₁;
    } in
    let back = handed_out p n (next_last p s.last_number) in
    fill_dup-handed_out p n next
    ∙ ap
        (λ (add : List ℕ → List ℕ). record s {
          last_number = last_after p (suc n) s.last_number;
          dup_pool₀ = add s.dup_pool₀;
          dup_pool₁ = add s.dup_pool₁;
        })
        (fun_ext (λ pool. sym (append_assoc back (s.last_number ∷ []) pool)))

doubling : (r c k : ℕ) → k + 100 ≡ 2 * c → r * k + r * 100 ≡ 2 * (r * c)
doubling r c k e = sym (mul-add r k 100) ∙ ap (λ x. r * x) e ∙ mul_left_comm r 2 c

-- The share of unique numbers in percent, of a batch whose products do not overflow, and that of
-- the numbers that stand twice.
row_nums-share :
    (p : Settings)
    → 50 ≤ p.percent_in_batch
    → p.percent_in_batch ≤ 100
    → p.rows_in_batch * 100 < 2 ^ 32
    → (uniq_row_num p + dup_row_num p ≡ p.rows_in_batch * p.percent_in_batch / 100)
      × (uniq_row_num p + 2 * dup_row_num p + (p.rows_in_batch - uniq_row_num p) % 2
          ≡ p.rows_in_batch)
unfolding uniq_row_num dup_row_num
row_nums-share p low high small =
    let k = 2 * p.percent_in_batch - 100 in
    let wrapped : u32 (2 * p.percent_in_batch + 2 ^ 32 - 100) ≡ k = omega arith in
    let product : p.rows_in_batch * k ≤ p.rows_in_batch * 100 = grind arith in
    let doubled : p.rows_in_batch * k + p.rows_in_batch * 100
        ≡ 2 * (p.rows_in_batch * p.percent_in_batch) =
      doubling p.rows_in_batch p.percent_in_batch k (omega arith) in
    rw wrapped (omega arith, omega arith)

-- For a percentage of unique rows from 50 to 100 and at most 42949672 rows in a batch, a refill puts
-- some numbers on the pool of those that stand once, and others on both pools of those that stand
-- twice. Together they are the numbers that follow one another from the last one on, in their
-- order, and as many as the percentage is of the batch's rows, rounded down. Each counted as often
-- as it stands, they are as many as the batch has rows, or one less where the rows beside those
-- that stand once are an odd number.
pub length-refill_shares :
    (p : Settings) (s : Pools)
    → 50 ≤ p.percent_in_batch
    → p.percent_in_batch ≤ 100
    → p.rows_in_batch * 100 < 2 ^ 32
    → (once twice : List ℕ) × ((refill p s).uniq_pool ≡ once ++ s.uniq_pool)
      × ((refill p s).dup_pool₀ ≡ twice ++ s.dup_pool₀)
      × ((refill p s).dup_pool₁ ≡ twice ++ s.dup_pool₁)
      × (twice ++ once ≡ handed_out p (p.rows_in_batch * p.percent_in_batch / 100) s.last_number)
      × (length once + 2 * length twice + (p.rows_in_batch - length once) % 2 ≡ p.rows_in_batch)
unfolding refill
length-refill_shares p s low high small =
    let m = uniq_row_num p in
    let n = dup_row_num p in
    let (distinct, all) = row_nums-share p low high small in
    let last = last_after p m s.last_number in
    let filled =
      ap (fill_dup p n) (fill_uniq-handed_out p m s)
      ∙ fill_dup-handed_out p n (record s {
        last_number = last;
        uniq_pool = handed_out p m s.last_number ++ s.uniq_pool;
      }) in
    let ones = length-handed_out p m s.last_number in
    let twos = length-handed_out p n last in
    (
      handed_out p m s.last_number,
      handed_out p n last,
      ap (λ (t : Pools). t.uniq_pool) filled,
      ap (λ (t : Pools). t.dup_pool₀) filled,
      ap (λ (t : Pools). t.dup_pool₁) filled,
      handed_out-add p m n s.last_number ∙ ap (λ k. handed_out p k s.last_number) distinct,
      rw (ones, twos) all,
    )
