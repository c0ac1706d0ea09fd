-- ===== src/Com/Random.antt =====
-- `Random` of src/com/AlignDataUtils.h and AlignDataUtils.cc: one linear congruential generator for
-- each thread and one for the master. `none` is the read out of range that C++ leaves undefined.
pub mod Streams
use litealigndata.Prelude.{
  ℕ, zero, suc, ◌+◌, ◌-◌, ◌*◌, ◌/◌, ◌%◌, ◌^◌, Bool, true, false, Option, none, some, List, [], ◌∷◌,
  ◌++◌, length, get_elem?, set, leb, ltb, ◌==◌, if◌then◌else◌, ◌>>=◌, u16, u32, u64,
}

abbrev pub max_threads : ℕ
max_threads = 33

abbrev pub max_rand : ℕ
max_rand = 32767

pub record Random : Type 0 where
  pub nexts : List ℕ
  pub seed_num : ℕ

-- The loop of the constructor, with `left` rounds to go.
unfoldable pub seeds : ℕ → ℕ → List ℕ
seeds zero idx = []
seeds (suc left) idx = (idx + 10) ∷ seeds left (idx + 1)

unfoldable pub new_random : ℕ → Random
unfolding seeds
new_random total = record { nexts = seeds total 0 ++ (total + 10) ∷ []; seed_num = total }

unfoldable pub lcg : ℕ → ℕ
lcg s = u64 (u64 (s * 1103515245) + 12345)

unfoldable pub output : ℕ → ℕ
output s = u32 (s / 65536) % (max_rand + 1)

-- The slot that `rand` reads: `max_threads` stands for the master, and a wrong number is replaced.
unfoldable pub slot : ℕ → ℕ → ℕ
slot size thread =
    let t = if thread == max_threads then u16 (size + 2 ^ 64 - 1) else thread in
    if leb size t then max_threads + 1 else t

unfoldable pub rand : Random → ℕ → Option (ℕ × Random)
rand r thread =
    let i = slot (length r.nexts) thread in
    get_elem? r.nexts i >>= λ s. some (output (lcg s), record r { nexts = set r.nexts i (lcg s) })

-- `createInstance`, on the static pointer `m_Instance`.
unfoldable pub create_instance : ℕ → Option Random → Bool × Option Random
unfolding new_random
create_instance ins_num (some r) =
    if ltb (max_threads - 1) ins_num then (false, some r) else (true, some r)
create_instance ins_num none =
    if ltb (max_threads - 1) ins_num then (false, none) else (true, some (new_random ins_num))
