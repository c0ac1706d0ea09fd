-- ===== src/Com/Stack.antt =====
-- The dynamic array and the stack of src/com/Comm.h and Comm.cc, which offsets are computed with.
pub mod Contents
pub mod Largest
pub mod Peaks
use litealigndata.Prelude.{
  ℕ, zero, suc, ◌+◌, ◌-◌, ◌*◌, ◌^◌, Bool, true, false, Option, none, some, List, [], ◌∷◌, ◌++◌, leb,
  ltb, ◌==◌, if◌then◌else◌, ◌>>=◌, get_elem?, set, length,
}

abbrev pub init_array_size : ℕ
init_array_size = 8

abbrev pub max_stack_depth : ℕ
max_stack_depth = 100

-- `data` is the allocated memory, of which the first `size` cells are in use.
pub record DynamicArray : Type 0 where
  pub cells : List ℕ
  pub size : ℕ
  pub capacity : ℕ

-- What `malloc` returns for a number of cells is an argument.
unfoldable pub dynamic_array_init : (ℕ → List ℕ) → DynamicArray
dynamic_array_init malloc = record {
  cells = malloc init_array_size;
  size = 0;
  capacity = init_array_size;
}

-- `realloc` keeps the cells and adds as many. A capacity beyond `int` is `none`.
unfoldable pub dynamic_array_resize : (ℕ → List ℕ) → DynamicArray → Option DynamicArray
dynamic_array_resize malloc arr =
    if leb (2 ^ 31) (arr.capacity * 2)
    then none
    else some (record arr { cells = arr.cells ++ malloc arr.capacity; capacity = arr.capacity * 2 })

-- `arr->data[arr->size++] = value`.
unfoldable pub store : ℕ → DynamicArray → Option DynamicArray
store value arr =
    if ltb arr.size (length arr.cells)
    then some (record arr { cells = set arr.cells arr.size value; size = suc arr.size })
    else none

unfoldable pub dynamic_array_add : (ℕ → List ℕ) → ℕ → DynamicArray → Option DynamicArray
dynamic_array_add malloc value arr =
    let room = if leb arr.capacity arr.size then dynamic_array_resize malloc arr else some arr in
    room >>= λ a. store value a

-- The loop of `dynamic_array_max` over the cells from `i` on, with `left` to go.
unfoldable pub max_from : List ℕ → ℕ → ℕ → ℕ → Option ℕ
max_from cells i zero max = some max
max_from cells i (suc left) max =
    get_elem? cells i >>= λ v. max_from cells (suc i) left (if ltb max v then v else max)

unfoldable pub dynamic_array_max : DynamicArray → Option ℕ
dynamic_array_max arr =
    if arr.size == 0
    then some 0
    else (get_elem? arr.cells 0 >>= λ first. max_from arr.cells 1 (arr.size - 1) first)

-- `Offset_Stack`: an array of 100 cells, and `top + 1`, which is 0 for the empty stack.
pub record OffsetStack {ℓ} (A : Type ℓ) : Type ℓ where
  pub cells : List A
  pub depth : ℕ

module _ {ℓ} {A : Type ℓ} where
  unfoldable pub stack_is_empty : OffsetStack A → Bool
  stack_is_empty stack = stack.depth == 0

  unfoldable pub stack_is_full : OffsetStack A → Bool
  stack_is_full stack = stack.depth == max_stack_depth

  -- The result -1 for a full stack is `false`.
  unfoldable pub stack_push : A → OffsetStack A → OffsetStack A × Bool
  stack_push elem stack =
      if stack_is_full stack
      then (stack, false)
      else (record { cells = set stack.cells stack.depth elem; depth = suc stack.depth }, true)

  -- An empty stack returns an element that was never set, which is `none`.
  unfoldable pub stack_pop : OffsetStack A → OffsetStack A × Option A
  stack_pop stack =
      if stack_is_empty stack
      then (stack, none)
      else (record stack { depth = stack.depth - 1 }, get_elem? stack.cells (stack.depth - 1))

  unfoldable pub stack_top : OffsetStack A → Option A
  stack_top stack = if stack_is_empty stack then none else get_elem? stack.cells (stack.depth - 1)
