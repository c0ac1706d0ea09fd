-- ===== src/Struct/Percent/Turns.antt =====
-- The turns go round: every round of rows gives each child just its rows, one behind the other.
use native.Mathlib.Nat.{mod-add-mod, zero-mod, mod-eq_of_lt, mod_self}
use mathlib.Core.Path.{subst}
use litealigndata.Prelude.{
  ℕ, zero, suc, ◌+◌, ◌%◌, ◌^◌, ◌<◌, ◌≤◌, ◌≡◌, ◌≢◌, ◌∙◌, refl, sym, ap, arith, true, false,
  Bool-cases, inl, inr, Option, some, List, [], ◌∷◌, ◌==◌, ltb, ltb→lt, get_elem?, set, replicate,
  length, length-set, get_elem?-set_self, get_elem?-in_range, lt-length_of_some, u32,
}
use litealigndata.Struct.Percent.{PercentCount, int_leb, select_child, select_children}
use litealigndata.Struct.Percent.Circle.{
  rows_in_round, total_rows, rows_before, IsTurn, at_child, IsNext, int_leb-rows, set_again, zeros,
  set_zero, length-zeros, rows_before-suc, rows_before-le, rows_before-all, same_rows, some_child,
  select_children_step, distance, next_child,
}

module _ (xs : List ℕ) (fits : (i rows : ℕ) → get_elem? xs i ≡ some rows → rows < 2 ^ 32) where
  made_at :
      (i made rows : ℕ)
      → get_elem? xs i ≡ some rows
      → get_elem? (set (zeros (length xs)) i made) i ≡ some made
  made_at i made rows e =
      get_elem?-set_self (zeros (length xs)) i made
        (omega (arith, lt-length_of_some xs i rows e, length-zeros (length xs)))

  pick_here :
      (fuel i made rows : ℕ)
      → get_elem? xs i ≡ some rows
      → made < rows_in_round rows
      → select_child (suc fuel) (at_child xs i made) ≡ some (i, at_child xs i (suc made))
  unfolding select_child
  pick_here fuel i made rows e h =
      let small : made < 2 ^ 31 = ground arith in
      let more : int_leb rows made ≡ false =
        int_leb-rows rows made (fits i rows e) small ∙ ground arith in
      let one_more : u32 (made + 1) ≡ suc made = omega arith in
      rw
        (
          e,
          made_at i made rows e,
          more,
          set_again (zeros (length xs)) i made (u32 (made + 1)),
          one_more,
        )
        refl

  skip_here :
      (fuel i made rows : ℕ)
      → get_elem? xs i ≡ some rows
      → made < 2 ^ 31
      → rows_in_round rows ≤ made
      → select_child (suc fuel) (at_child xs i made)
        ≡ select_child fuel (at_child xs (next_child xs i) 0)
  unfolding select_child
  skip_here fuel i made rows e small h =
      let full : int_leb rows made ≡ true =
        int_leb-rows rows made (fits i rows e) small ∙ ground arith in
      let cleared : set (set (zeros (length xs)) i made) i 0 ≡ zeros (length xs) =
        set_again (zeros (length xs)) i made 0 ∙ set_zero (length xs) i in
      let size : length (set (zeros (length xs)) i made) ≡ length xs =
        length-set (zeros (length xs)) i made ∙ length-zeros (length xs) in
      rw (e, made_at i made rows e, full, cleared, size, set_zero (length xs) (next_child xs i))
        refl

  -- A row picked, and the fields behind it.
  abbrev IsPicked : ℕ → Option (ℕ × PercentCount) → Type 0
  IsPicked r o =
      (j : ℕ) × (made : ℕ) × (o ≡ some (j, at_child xs j made))
      × IsTurn xs (r % total_rows xs) j
      × IsNext xs (suc r) j made

  pick-IsPicked :
      (fuel r i made : ℕ) (n : IsNext xs r i made)
      → made < rows_in_round n.rows
      → IsPicked r (select_child (suc fuel) (at_child xs i made))
  pick-IsPicked fuel r i made n h =
      let inside = rows_before-suc i n.rows xs n.child in
      let all = rows_before-le (suc i) xs in
      let here : rows_before i xs + made ≡ r % total_rows xs =
        sym (mod-eq_of_lt (omega (arith, inside, all))) ∙ n.position in
      (
        i,
        suc made,
        pick_here fuel i made n.rows n.child h,
        record {
          rows = n.rows;
          child = n.child;
          behind = omega (arith, here);
          before = omega (arith, here);
        },
        record {
          rows = n.rows;
          child = n.child;
          made_small = omega arith;
          position =
              ap (λ k. k % total_rows xs)
                (one_more (rows_before i xs) made (r % total_rows xs) here)
              ∙ mod-add-mod r (total_rows xs) 1
              ∙ ap (λ k. k % total_rows xs) (plus_one r);
        },
      )
    where
      one_more : (b m t : ℕ) → b + m ≡ t → b + suc m ≡ t + 1
      one_more b m t e = omega arith

      plus_one : (k : ℕ) → k + 1 ≡ suc k
      plus_one k = omega arith

  skip-IsNext :
      (r i made : ℕ) (n : IsNext xs r i made)
      → made ≡ rows_in_round n.rows
      → 0 < total_rows xs
      → IsNext xs r (next_child xs i) 0
  skip-IsNext r i made n e pos = elim (Bool-cases (i + 1 == length xs)) [
    | inl last ↦
        let (rows, child) = get_elem?-in_range xs 0 (ground arith) in
        rw last (record {
          rows = rows;
          child = child;
          made_small = omega arith;
          position =
              zero_mod (total_rows xs)
              ∙ sym (mod_self (total_rows xs))
              ∙ ap (λ k. k % total_rows xs)
                  (sym (rows_before-all (suc i) xs (ground arith))
                    ∙ rows_before-suc i n.rows xs n.child
                    ∙ ap (λ k. rows_before i xs + k) (sym e))
              ∙ n.position;
        })
    | inr more ↦
        let small = lt-length_of_some xs i n.rows n.child in
        let (rows, child) = get_elem?-in_range xs (i + 1) (ground arith) in
        rw more (record {
          rows = rows;
          child = child;
          made_small = omega arith;
          position = ap (λ k. k % total_rows xs) (onwards (i + 1) (omega arith)) ∙ n.position;
        })
  ]
    where
      zero_mod : (t : ℕ) → (0 + 0) % t ≡ 0
      zero_mod t = zero-mod t

      onwards : (k : ℕ) → k ≡ suc i → rows_before k xs + 0 ≡ rows_before i xs + made
      onwards k same =
          omega (arith, ap (λ j. rows_before j xs) same, rows_before-suc i n.rows xs n.child, e)

  -- From a child that has created no row, a later one is found: `j` has rows.
  walk-IsPicked :
      (j most fuel r i : ℕ)
      → get_elem? xs j ≡ some most
      → 0 < rows_in_round most
      → 0 < total_rows xs
      → distance (length xs) i j < fuel
      → IsNext xs r i 0
      → IsPicked r (select_child fuel (at_child xs i 0))
  walk-IsPicked j most zero r i e q pos near n = absurd (omega arith)
  walk-IsPicked j most (suc fuel) r i e q pos near n =
      elim (Bool-cases (ltb 0 (rows_in_round n.rows))) [
        | inl some_rows ↦ pick-IsPicked fuel r i 0 n (ltb→lt 0 _ some_rows)
        | inr none_left ↦
            let none_of : 0 ≡ rows_in_round n.rows = ground arith in
            let next = skip-IsNext r i 0 n none_of pos in
            subst (IsPicked r)
              (sym (skip_here fuel i 0 n.rows n.child (omega arith) (omega (arith, none_of))))
              (walk-IsPicked j most fuel r (next_child xs i) e q pos
                (nearer none_of (lt-length_of_some xs i n.rows n.child)
                  (lt-length_of_some xs j most e))
                next)
      ]
    where
      apart : 0 ≡ rows_in_round n.rows → i ≢ j
      apart none_of same = absurd (
          omega (arith, ap rows_in_round (same_rows xs i j n.rows most same n.child e), none_of, q))

      nearer :
          0 ≡ rows_in_round n.rows
          → i < length xs
          → j < length xs
          → distance (length xs) (next_child xs i) j < fuel
      nearer none_of hi hj = let other : i ≢ j = apart none_of in ground arith

  select-IsPicked :
      (r i made : ℕ)
      → 0 < total_rows xs
      → IsNext xs r i made
      → IsPicked r (select_child (suc (length xs)) (at_child xs i made))
  select-IsPicked r i made pos n = elim (Bool-cases (ltb made (rows_in_round n.rows))) [
    | inl more ↦ pick-IsPicked (length xs) r i made n (ltb→lt made _ more)
    | inr full ↦
        let (j, most, child, some_rows) = some_child xs pos in
        let all : made ≡ rows_in_round n.rows = grind (arith, n.made_small, full) in
        let next = skip-IsNext r i made n all pos in
        subst (IsPicked r)
          (sym (skip_here (length xs) i made n.rows n.child (small all) (omega (arith, all))))
          (walk-IsPicked j most (length xs) r (next_child xs i) child some_rows pos
            (near (lt-length_of_some xs i n.rows n.child) (lt-length_of_some xs j most child)) next)
  ]
    where
      small : made ≡ rows_in_round n.rows → made < 2 ^ 31
      small all = ground arith

      near :
          {j : ℕ}
          → i < length xs
          → j < length xs
          → distance (length xs) (next_child xs i) j < length xs
      near hi hj = ground arith

  select_children-turns :
      (k r i made : ℕ)
      → 0 < total_rows xs
      → IsNext xs r i made
      → (children : List ℕ) × (p : PercentCount) × (select_children k (at_child xs i made)
          ≡ some (children, p))
        × (length children ≡ k)
        × ((s : ℕ)
            → s < k
            → (j : ℕ) × (get_elem? children s ≡ some j) × IsTurn xs ((r + s) % total_rows xs) j)
  unfolding select_children
  select_children-turns zero r i made pos n = ([], _, refl, refl, λ s h. absurd (omega arith))
  select_children-turns (suc k) r i made pos n =
      let (j, more, gives, turn, next) = select-IsPicked r i made pos n in
      let (rest, p, goes_on, size, turns) = select_children-turns k (suc r) j more pos next in
      (
        j ∷ rest,
        p,
        select_children_step k j (length xs) (at_child xs i made) (at_child xs j more) p rest
            (length-set (zeros (length xs)) i made ∙ length-zeros (length xs)) gives goes_on,
        ap suc size,
        all_turns k r j rest turn turns,
      )
    where
      all_turns :
          (k r j : ℕ) (rest : List ℕ)
          → IsTurn xs (r % total_rows xs) j
          → ((s : ℕ)
              → s < k
              → (i : ℕ) × (get_elem? rest s ≡ some i) × IsTurn xs ((suc r + s) % total_rows xs) i)
          → (s : ℕ) → s < suc k
          → (i : ℕ) × (get_elem? (j ∷ rest) s ≡ some i) × IsTurn xs ((r + s) % total_rows xs) i
      all_turns k r j rest turn turns zero h =
          (j, refl, subst (λ t. IsTurn xs (t % total_rows xs) j) (plus_none r) turn)
        where
          plus_none : (t : ℕ) → t ≡ t + 0
          plus_none t = omega arith
      all_turns k r j rest turn turns (suc s) h =
          let (i, child, later) = turns s (omega arith) in
          (i, child, subst (λ t. IsTurn xs (t % total_rows xs) i) (shift r s) later)
        where
          shift : (t s : ℕ) → suc t + s ≡ t + suc s
          shift t s = omega arith

-- When the children's rows to create are 32-bit numbers that sum to some rows, negative ones not
-- counted, and the first child with any is `first`: with as many looks at a child as there are
-- children and one more, every row finds its child. Row `s` is given to the child in whose part of
-- the round row `s`, modulo the sum, lies: every round gives each child just its rows to create, one
-- behind the other, in the children's order.
pub select_children-round :
    (to_create : List ℕ) (first k : ℕ)
    → ((i rows : ℕ) → get_elem? to_create i ≡ some rows → rows < 2 ^ 32)
    → 0 < total_rows to_create
    → first < length to_create
    → rows_before first to_create ≡ 0
    → (children : List ℕ) × (p : PercentCount) × (select_children k (record {
      rows_to_create = to_create;
      rows_created = replicate (length to_create) 0;
      percent_it = first;
    })
        ≡ some (children, p))
      × (length children ≡ k)
      × ((s : ℕ)
          → s < k
          → (j : ℕ) × (get_elem? children s ≡ some j)
            × IsTurn to_create (s % total_rows to_create) j)
select_children-round to_create first k fits pos inside none_before =
    let (rows, child) = get_elem?-in_range to_create first inside in
    let (children, p, gives, size, turns) =
      select_children-turns to_create fits k 0 first 0 pos (record {
        rows = rows;
        child = child;
        made_small = omega arith;
        position = ap (λ t. t % total_rows to_create) (start none_before);
      }) in
    (
      children,
      p,
      subst
          (λ made.
            select_children k
              (record { rows_to_create = to_create; rows_created = made; percent_it = first })
            ≡ some (children, p))
          (set_zero (length to_create) first) gives,
      size,
      λ s h.
          let (j, found, turn) = turns s h in
          (j, found, subst (λ t. IsTurn to_create (t % total_rows to_create) j) (zero_plus s) turn),
    )
  where
    start : {b : ℕ} → b ≡ 0 → b + 0 ≡ 0
    start e = omega arith

    zero_plus : (s : ℕ) → 0 + s ≡ s
    zero_plus s = omega arith
