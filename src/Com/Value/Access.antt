-- ===== src/Com/Value/Access.antt =====
-- Where a value's bytes lie.
use litealigndata.Prelude.{ℕ, ◌≡◌, true, false, Option, some, List, arith}
use litealigndata.Com.Bytes.{write_le, read_le}
use litealigndata.Com.Value.{
  AutoValue, with_data, from_data, number_width, reduced, widened, set_number, get_number,
}

pub with_data_at :
    (change : ℕ → List ℕ → Option (List ℕ)) (v : AutoValue) (addr : ℕ) (mem after : List ℕ)
    → v.is_sub_column ≡ false
    → v.pointer ≡ some addr
    → change addr mem ≡ some after
    → with_data change v mem ≡ some (v, after)
unfolding with_data
with_data_at change v addr mem after f p e = ground (arith, e)

pub with_data_inner :
    (change : ℕ → List ℕ → Option (List ℕ)) (v : AutoValue) (mem after : List ℕ)
    → v.is_sub_column ≡ true
    → change 0 v.inner ≡ some after
    → with_data change v mem ≡ some (record v { inner = after }, mem)
unfolding with_data
with_data_inner change v mem after f e = ground (arith, e)

pub from_data_at {ℓ} :
    {A : Type ℓ} (look : ℕ → List ℕ → Option A) (v : AutoValue) (addr : ℕ) (mem : List ℕ)
    → v.is_sub_column ≡ false
    → v.pointer ≡ some addr
    → from_data look v mem ≡ look addr mem
unfolding from_data
from_data_at look v addr mem f p = rw (f, p)

pub from_data_inner {ℓ} :
    {A : Type ℓ} (look : ℕ → List ℕ → Option A) (v : AutoValue) (mem : List ℕ)
    → v.is_sub_column ≡ true
    → from_data look v mem ≡ look 0 v.inner
unfolding from_data
from_data_inner look v mem f = rw f

pub set_number_numeric :
    (n width : ℕ) (v : AutoValue) (mem : List ℕ)
    → number_width v.type ≡ some width
    → set_number n v mem ≡ with_data (λ addr. write_le width addr (reduced v.type n)) v mem
unfolding set_number
set_number_numeric n width v mem e = rw (e, set_number)

pub get_number_numeric :
    (width n : ℕ) (v : AutoValue) (mem : List ℕ)
    → number_width v.type ≡ some width
    → from_data (read_le width) v mem ≡ some n
    → get_number v mem ≡ some (widened v.type n)
unfolding get_number
get_number_numeric width n v mem e f = rw (e, f, get_number)
