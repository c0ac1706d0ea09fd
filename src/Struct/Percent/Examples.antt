-- ===== src/Struct/Percent/Examples.antt =====
-- Runs of the theorems about the children's turns.
use litealigndata.Prelude.{
  ℕ, ◌%◌, ◌*◌, ◌/◌, ◌<◌, ◌≡◌, refl, arith, Option, none, some, List, [], ◌∷◌, get_elem?, length,
}
use litealigndata.Struct.Percent.{PercentCount, init_percent, has_percent_child, select_children}
use litealigndata.Struct.Percent.Circle.{IsTurn, total_rows}
use litealigndata.Struct.Percent.Shares.{parts, init_percent-round}

-- A part of seven rows, rounded down.
abbrev part_of_seven : ℕ → ℕ
part_of_seven percentage = 7 * percentage / 100

-- 40 and 60 per cent, with a child without a percentage before them.
abbrev children : List (Option ℕ)
children = none ∷ some 40 ∷ some 60 ∷ []

init_percent-round_example :
    let start = init_percent part_of_seven 7 children in
    (total_rows start.rows_to_create ≡ 7)
    × (turns : List ℕ) × (p : PercentCount) × (select_children 20 start ≡ some (turns, p))
    × (length turns ≡ 20)
    × ((s : ℕ)
        → s < 20
        → (j : ℕ) × (get_elem? turns s ≡ some j) × IsTurn start.rows_to_create (s % 7) j)
unfolding parts has_percent_child
init_percent-round_example =
    init_percent-round part_of_seven 7 20 children (omega arith) (omega arith) (omega arith) refl
