-- ===== src/Struct/Schedule/Examples.antt =====
-- Runs of the theorems about the order of the tables, for three tables that depend on each other.
use mathlib.Core.List.{Memᴰ}
use mathlib.Core.List.Memᴰ
use mathlib.Core.Path.{subst}
use litealigndata.Prelude.{
  ℕ, zero, suc, ◌<◌, ◌≡◌, refl, sym, arith, Bool, true, false, Option, none, some, List, [], ◌∷◌,
  if◌then◌else◌, ◌==◌,
}
use litealigndata.Struct.Schedule.{
  TableStatus, Tables, World, is_done, all_done, sweep, start_produce_data, notify_all_depended,
  notify_each, and_then, produce_ready, create_table_data, start_next, fill_rows,
  finish_to_create_table_num, set_table_finished, check_status, made_ready,
}
use litealigndata.Struct.Schedule.Order.{sweep_in_order}
use litealigndata.Struct.Schedule.Plan.{IsPlan}
use litealigndata.Struct.Schedule.Ending.{start_produce_data-ends}

-- Table 1 depends on table 0, and table 2 on both.
abbrev deps : ℕ → List ℕ
deps zero = []
deps (suc zero) = 0 ∷ []
deps (suc (suc zero)) = 0 ∷ 1 ∷ []
deps (suc (suc (suc _))) = []

abbrev dependents : ℕ → List ℕ
dependents zero = 1 ∷ 2 ∷ []
dependents (suc zero) = 2 ∷ []
dependents (suc (suc _)) = []

abbrev three : Tables
three = record {
  get_stream = true;
  dep_tables = deps;
  be_depended = dependents;
  parent = λ t. 0;
  rownum = λ t. 2;
  to_create = λ t. 3;
  table_id = λ t. 7;
  header_id = λ t. 0;
  interval = λ t. 5;
  produced_row_data = λ t file row. true;
}

abbrev order : List ℕ
order = 2 ∷ 0 ∷ 1 ∷ []

abbrev fresh : World
fresh = record {
  status = λ t. TableStatus.not_ready;
  created = λ t. 0;
  filled = λ t. 0;
  initial_time = λ t. 600;
  full = λ i. false;
}

members : (P : ℕ → Type 0) → P 2 → P 0 → P 1 → (t : ℕ) → Memᴰ t order → P t
members P a b c t (Memᴰ.head e) = subst P (sym e) a
members P a b c t (Memᴰ.tail (Memᴰ.head e)) = subst P (sym e) b
members P a b c t (Memᴰ.tail (Memᴰ.tail (Memᴰ.head e))) = subst P (sym e) c
members P a b c t (Memᴰ.tail (Memᴰ.tail (Memᴰ.tail m))) = elim m [ ]

none_of : (P : ℕ → Type 0) (d : ℕ) → Memᴰ d [] → P d
none_of P d m = elim m [ ]

one_of : (P : ℕ → Type 0) (k : ℕ) → P k → (d : ℕ) → Memᴰ d (k ∷ []) → P d
one_of P k a d m = subst P (sym (Memᴰ.eq_of_singleton m)) a

two_of : (P : ℕ → Type 0) (k j : ℕ) → P k → P j → (d : ℕ) → Memᴰ d (k ∷ j ∷ []) → P d
two_of P k j a b d (Memᴰ.head e) = subst P (sym e) a
two_of P k j a b d (Memᴰ.tail m) = one_of P j b d m

first : Memᴰ 2 order
first = Memᴰ.head refl

second : Memᴰ 0 order
second = Memᴰ.tail (Memᴰ.head refl)

third : Memᴰ 1 order
third = Memᴰ.tail (Memᴰ.tail (Memᴰ.head refl))

three-IsPlan : IsPlan three order (λ t. t) 3 3
three-IsPlan = record {
  number_small = omega arith;
  numbers = λ t m. refl;
  ids_small = λ t m. omega arith;
  headers_small = λ t m. omega arith;
  rows_succeed = λ t file row m. refl;
  same_interface = λ t d m i. refl;
  known = λ t d m i.
      members (λ t. (d : ℕ) → Memᴰ d (dependents t) → Memᴰ d order) (none_of _)
        (two_of _ 1 2 third first) (one_of _ 2 first) t m d i;
  closed = λ t d m i.
      members (λ t. (d : ℕ) → Memᴰ d (deps t) → Memᴰ d order) (two_of _ 0 1 second third)
        (none_of _) (one_of _ 0 second) t m d i;
  mirrored = λ t d m i.
      members (λ t. (d : ℕ) → Memᴰ d (deps t) → Memᴰ t (dependents d))
        (two_of (λ d. Memᴰ 2 (dependents d)) 0 1 (Memᴰ.tail (Memᴰ.head refl)) (Memᴰ.head refl))
        (none_of _) (one_of (λ d. Memᴰ 1 (dependents d)) 0 (Memᴰ.head refl)) t m d i;
  ranked = λ t d m i.
      members (λ t. (d : ℕ) → Memᴰ d (dependents t) → t < d) (none_of (λ d. 2 < d))
        (two_of (λ d. 0 < d) 1 2 (omega arith) (omega arith)) (one_of (λ d. 1 < d) 2 (omega arith))
        t m d i;
  rank_small = members (λ t. t < 3) (omega arith) (omega arith) (omega arith);
}

start_produce_data-ends_example :
    (v : World) × (start_produce_data three 2 3 order fresh ≡ some (true, v))
    × ((k : ℕ) → Memᴰ k order → v.created k ≡ 4)
start_produce_data-ends_example =
    start_produce_data-ends {ts = three} {tables = order} {rank = λ t. t} {depth = 3} {n = 3} fresh
      three-IsPlan (omega arith) (λ k. refl) (λ k m. refl) (λ i. refl)

-- A round in file mode in which table 1 fails: table 0 is done, and the two others are not.
abbrev failing : Tables
failing = record three {
  get_stream = false;
  produced_row_data = λ t file row. if t == 1 then false else true;
}

abbrev world_of : Option (Bool × World) → World
world_of none = fresh
world_of (some r) = r.1

abbrev behind : World
behind = world_of (sweep failing 3 order fresh)

sweep_in_order_example :
    (is_done (behind.status 0) ≡ true → all_done behind (failing.dep_tables 0) ≡ true)
    × (behind.created 0 ≡ (if is_done (behind.status 0) then 1 else 0))
unfolding sweep notify_all_depended notify_each and_then produce_ready create_table_data start_next
    fill_rows finish_to_create_table_num set_table_finished check_status all_done made_ready
sweep_in_order_example = sweep_in_order failing 3 order fresh behind false (λ k. refl) refl 0
