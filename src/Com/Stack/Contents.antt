-- ===== src/Com/Stack/Contents.antt =====
-- The dynamic array and the stack as lists.
use litealigndata.Prelude.{
  ℕ, zero, suc, ◌-◌, ◌*◌, ◌^◌, ◌≤◌, ◌<◌, ◌≡◌, ◌⊎◌, refl, ap, ◌∙◌, arith, Bool-cases, inl, inr, true,
  false, some, List, [], ◌∷◌, ◌++◌, leb, ltb, ◌==◌, get_elem?, set, take, length, length-set,
  length-append, get_elem?-set_self,
}
use litealigndata.Com.Stack.{
  DynamicArray, dynamic_array_init, dynamic_array_resize, store, dynamic_array_add, OffsetStack,
  stack_push, stack_pop, stack_is_full, stack_is_empty, max_stack_depth,
}

module _ {ℓ} {A : Type ℓ} where
  take-set_snoc :
      (xs : List A) (n : ℕ) (v : A)
      → n < length xs
      → take (suc n) (set xs n v) ≡ take n xs ++ (v ∷ [])
  take-set_snoc [] n v h = absurd (omega arith)
  take-set_snoc (x ∷ xs) zero v h = refl
  take-set_snoc (x ∷ xs) (suc n) v h = ap (λ l. x ∷ l) (take-set_snoc xs n v (omega arith))

  take-set_same : (xs : List A) (n : ℕ) (v : A) → take n (set xs n v) ≡ take n xs
  take-set_same [] zero v = refl
  take-set_same [] (suc n) v = refl
  take-set_same (x ∷ xs) zero v = refl
  take-set_same (x ∷ xs) (suc n) v = ap (λ l. x ∷ l) (take-set_same xs n v)

  take-append_left : (n : ℕ) (xs ys : List A) → n ≤ length xs → take n (xs ++ ys) ≡ take n xs
  take-append_left zero xs ys h = refl
  take-append_left (suc n) [] ys h = absurd (omega arith)
  take-append_left (suc n) (x ∷ xs) ys h = ap (λ l. x ∷ l) (take-append_left n xs ys (omega arith))

-- The cells in use.
unfoldable pub contents : DynamicArray → List ℕ
contents arr = take arr.size arr.cells

-- An array with as many cells as its capacity says, and no more in use.
pub record IsArray (arr : DynamicArray) : Type 0 where
  pub allocated : length arr.cells ≡ arr.capacity
  pub in_use : arr.size ≤ arr.capacity
  pub some_cells : 0 < arr.capacity

module _ (malloc : ℕ → List ℕ) (cells_of : (n : ℕ) → length (malloc n) ≡ n) where
  pub init-IsArray : IsArray (dynamic_array_init malloc)
  unfolding dynamic_array_init
  init-IsArray = record { allocated = cells_of 8; in_use = omega arith; some_cells = omega arith }

  store-contents :
      (value : ℕ) (arr : DynamicArray)
      → IsArray arr
      → arr.size < arr.capacity
      → (after : DynamicArray) × (store value arr ≡ some after)
        × IsArray after
        × (contents after ≡ contents arr ++ (value ∷ []))
        × (after.size ≡ suc arr.size)
        × (after.capacity ≡ arr.capacity)
  unfolding store contents
  store-contents value arr ok room = (
    record arr { cells = set arr.cells arr.size value; size = suc arr.size },
    rw (holds (length arr.cells) (omega (arith, ok.allocated))) refl,
    record {
      allocated = length-set arr.cells arr.size value ∙ ok.allocated;
      in_use = omega arith;
      some_cells = ok.some_cells;
    },
    take-set_snoc arr.cells arr.size value (omega (arith, ok.allocated)),
    refl,
    refl,
  )
    where
      holds : (n : ℕ) → arr.size < n → ltb arr.size n ≡ true
      holds n h = ground arith

  resize-contents :
      (arr : DynamicArray)
      → IsArray arr
      → arr.capacity * 2 < 2 ^ 31
      → (after : DynamicArray) × (dynamic_array_resize malloc arr ≡ some after)
        × IsArray after
        × (contents after ≡ contents arr)
        × (after.size ≡ arr.size)
        × (after.capacity ≡ arr.capacity * 2)
  unfolding dynamic_array_resize contents
  resize-contents arr ok small = (
    record arr { cells = arr.cells ++ malloc arr.capacity; capacity = arr.capacity * 2 },
    rw (refused (arr.capacity * 2) small) refl,
    record {
      allocated = omega (
        arith,
        length-append arr.cells (malloc arr.capacity),
        ok.allocated,
        cells_of arr.capacity,
      );
      in_use = omega (arith, ok.in_use);
      some_cells = omega (arith, ok.some_cells);
    },
    take-append_left arr.size arr.cells (malloc arr.capacity)
        (omega (arith, ok.allocated, ok.in_use)),
    refl,
    refl,
  )
    where
      refused : (n : ℕ) → n < 2 ^ 31 → leb (2 ^ 31) n ≡ false
      refused n h = ground arith

-- An array after a value was added to it.
pub record IsAdded (value : ℕ) (arr after : DynamicArray) : Type 0 where
  pub well_formed : IsArray after
  pub behind : contents after ≡ contents arr ++ (value ∷ [])
  pub one_more : after.size ≡ suc arr.size
  pub grown : (after.capacity ≡ arr.capacity) ⊎ (after.capacity ≡ 2 * arr.size)

pub dynamic_array_add-IsAdded :
    (malloc : ℕ → List ℕ) (value : ℕ) (arr : DynamicArray)
    → ((n : ℕ) → length (malloc n) ≡ n)
    → IsArray arr
    → arr.capacity * 2 < 2 ^ 31
    → (after : DynamicArray) × (dynamic_array_add malloc value arr ≡ some after)
      × IsAdded value arr after
unfolding dynamic_array_add
dynamic_array_add-IsAdded malloc value arr cells_of ok small =
    elim (Bool-cases (leb arr.capacity arr.size)) [
      | inl full ↦
          let (grown, made, ok', same, size, capacity) =
            resize-contents malloc cells_of arr ok small in
          let (after, stored, ok'', added, more, cells) =
            store-contents malloc cells_of value grown ok'
              (ground (arith, size, capacity, ok.in_use, ok.some_cells)) in
          (
            after,
            rw (full, made) stored,
            record {
              well_formed = ok'';
              behind = added ∙ ap (λ l. l ++ (value ∷ [])) same;
              one_more = omega (arith, more, size);
              grown = inr (ground (arith, cells, capacity, ok.in_use));
            },
          )
      | inr room ↦
          let (after, stored, ok'', added, more, cells) =
            store-contents malloc cells_of value arr ok (ground arith) in
          (
            after,
            rw room stored,
            record { well_formed = ok''; behind = added; one_more = more; grown = inl cells },
          )
    ]

-- Adding a value to an array puts it behind the others, whether or not the array has to grow, and
-- keeps the array well formed, as long as twice its capacity is an `int`.
pub dynamic_array_add-contents :
    (malloc : ℕ → List ℕ) (value : ℕ) (arr : DynamicArray)
    → ((n : ℕ) → length (malloc n) ≡ n)
    → IsArray arr
    → arr.capacity * 2 < 2 ^ 31
    → (after : DynamicArray) × (dynamic_array_add malloc value arr ≡ some after)
      × IsArray after
      × (contents after ≡ contents arr ++ (value ∷ []))
dynamic_array_add-contents malloc value arr cells_of ok small =
    let (after, added, a) = dynamic_array_add-IsAdded malloc value arr cells_of ok small in
    (after, added, a.well_formed, a.behind)

-- A stack with its 100 cells, and no more in use.
pub record IsStack {ℓ} {A : Type ℓ} (stack : OffsetStack A) : Type ℓ where
  pub allocated : length stack.cells ≡ max_stack_depth
  pub in_use : stack.depth ≤ max_stack_depth

module _ {ℓ} {A : Type ℓ} where
  stack_push_full :
      (elem : A) (stack : OffsetStack A)
      → stack.depth ≡ 100
      → stack_push elem stack ≡ (stack, false)
  unfolding stack_push stack_is_full
  stack_push_full elem stack full = rw full refl

  pub stack_push_room :
      (elem : A) (stack : OffsetStack A)
      → stack.depth < 100
      → stack_push elem stack
        ≡ (record { cells = set stack.cells stack.depth elem; depth = suc stack.depth }, true)
  unfolding stack_push stack_is_full
  stack_push_room elem stack h =
      let room : stack.depth == 100 ≡ false = ground arith in rw room refl

  stack_pop-suc :
      (cells : List A) (depth : ℕ)
      → stack_pop (record { cells = cells; depth = suc depth })
        ≡ (record { cells = cells; depth = depth }, get_elem? cells depth)
  unfolding stack_pop stack_is_empty
  stack_pop-suc cells depth =
      let some_in : suc depth == 0 ≡ false = ground arith in
      let back : suc depth - 1 ≡ depth = omega arith in rw (some_in, back) refl

-- For a stack of 100 cells: a push is refused just where 100 elements are on it, and then changes
-- nothing. After any other push the stack is well formed, and the pop returns the pushed element
-- and leaves the elements from before.
pub stack_pop-stack_push {ℓ} :
    {A : Type ℓ} (elem : A) (stack : OffsetStack A)
    → IsStack stack
    → (stack.depth ≡ 100 → stack_push elem stack ≡ (stack, false))
      × (stack.depth < 100
          → ((stack_push elem stack).1 ≡ true)
            × IsStack (stack_push elem stack).0
            × ((stack_pop (stack_push elem stack).0).1 ≡ some elem)
            × ((stack_pop (stack_push elem stack).0).0.depth ≡ stack.depth)
            × (take stack.depth (stack_pop (stack_push elem stack).0).0.cells
                ≡ take stack.depth stack.cells))
stack_pop-stack_push elem stack ok = (
  stack_push_full elem stack,
  λ h.
      rw
        (stack_push_room elem stack h, stack_pop-suc (set stack.cells stack.depth elem) stack.depth)
        (
          refl,
          record { allocated = length-set stack.cells stack.depth elem ∙ ok.allocated; in_use = h },
          get_elem?-set_self stack.cells stack.depth elem (omega (arith, ok.allocated)),
          refl,
          take-set_same stack.cells stack.depth elem,
        ),
)
