-- ===== src/Com/Examples.antt =====
-- Runs of the theorems about the helpers in src/com.
use litealigndata.Prelude.{
  replicate, ℕ, ◌+◌, ◌*◌, ◌≤◌, ◌<◌, ◌≡◌, ◌≢◌, ◌⊎◌, true, false, none, some, List, [], ◌∷◌, ◌++◌,
  arith, refl, length, get_elem?, min,
}
use litealigndata.Com.Random.{Random, new_random, rand, slot, output, max_threads, max_rand, lcg}
use litealigndata.Com.Random.Streams.{
  draws, drawn_by, stream, draws-stream, rand-new_random, rand-le-max_rand,
}
use litealigndata.Com.Stack.{
  DynamicArray, dynamic_array_add, dynamic_array_max, OffsetStack, stack_push, stack_pop,
}
use litealigndata.Com.Stack.Contents.{
  contents, IsArray, dynamic_array_add-contents, IsStack, stack_pop-stack_push,
}
use litealigndata.Com.Stack.Largest.{dynamic_array_max-largest}
use litealigndata.Prelude.{zero, suc, ap, take}
use litealigndata.Com.Clock.{
  Time, micros, get_time_diff, add_time_diff, calc_align, range_top, randnumer,
}
use litealigndata.Com.Clock.Spans.{
  IsTime, add_time_diff-get_time_diff, get_time_diff-micros, calc_align_least,
}
use litealigndata.Com.Clock.Draws.{randnumer_bounds}
use litealigndata.Com.Text.{TableInfo, parse_table_info, split_value, atoi, is_blank}
use litealigndata.Com.Text.Fields.{joined, split_value-joined}
use litealigndata.Com.Text.References.{
  reference, parse_table_info-reference, parse_table_info-row_reference,
}
use litealigndata.Com.Tags.Auto.{AutoType, auto_string}
use litealigndata.Com.Tags.{find_relative_tag}
use litealigndata.Com.Tags.Search.{IsFirst, find_relative_tag-IsFirst}
use litealigndata.Com.Types.{find_nameautotype, find_nametype_len, find_namelen}
use litealigndata.Com.Types.Tables.{find_nameautotype-auto_string}
use litealigndata.Com.Value.{AutoValue, ascii_to_byte_array}
use litealigndata.Com.Value.Arrays.{IsAligned, ascii_to_byte_array-IsAligned}

-- Two slots drawn from in turn.
abbrev two_slots : Random
two_slots = record { nexts = 10 ∷ 11 ∷ []; seed_num = 1 }

abbrev three_values : List ℕ
three_values = 4543 ∷ 21381 ∷ 28214 ∷ []

abbrev drawn_from : Random
drawn_from = record { nexts = 12177472582369812120 ∷ 12138680040 ∷ []; seed_num = 1 }

three_draws : draws two_slots (0 ∷ 1 ∷ 0 ∷ []) ≡ some (three_values, drawn_from)
unfolding draws rand slot output lcg
three_draws = refl

draws-stream_example :
    drawn_by 2 0 (0 ∷ 1 ∷ 0 ∷ []) three_values
    ≡ stream 10 (length (drawn_by 2 0 (0 ∷ 1 ∷ 0 ∷ []) three_values))
draws-stream_example =
    draws-stream (0 ∷ 1 ∷ 0 ∷ []) three_values two_slots drawn_from 0 10 three_draws refl

one_draw : rand two_slots 0 ≡ some (4543, record two_slots { nexts = 11035164795 ∷ 11 ∷ [] })
unfolding rand slot output lcg
one_draw = refl

rand-le-max_rand_example : 4543 ≤ max_rand
rand-le-max_rand_example =
    rand-le-max_rand two_slots (record two_slots { nexts = 11035164795 ∷ 11 ∷ [] }) 0 4543 one_draw

rand-new_random_example :
    (1 ≤ 2 ⊎ (1 ≡ max_threads) → (v : ℕ) × (r : Random) × (rand (new_random 2) 1 ≡ some (v, r)))
    × (2 < 1 → 1 ≢ max_threads → rand (new_random 2) 1 ≡ none)
rand-new_random_example = rand-new_random 2 1 (omega arith)

-- The low bytes of a number in the middle of the memory.
abbrev in_memory : AutoValue
in_memory = record {
  type = AutoType.uint16;
  pointer = some 1;
  inner = [];
  len = 2;
  is_sub_column = false;
}

abbrev four_bytes : List ℕ
four_bytes = 1 ∷ 2 ∷ 3 ∷ 4 ∷ []

abbrev by_itself : AutoValue
by_itself = record in_memory { inner = 0 ∷ 0 ∷ []; is_sub_column = true }

ascii_to_byte_array-IsAligned_example :
    (after : List ℕ) × (ascii_to_byte_array (b'7' ∷ []) true in_memory four_bytes
      ≡ some (in_memory, after))
    × IsAligned (b'7' ∷ []) 2 (min (min 1 255) 2) 1 four_bytes after
ascii_to_byte_array-IsAligned_example =
    ascii_to_byte_array-IsAligned (b'7' ∷ []) in_memory 1 four_bytes refl refl (omega arith)

-- The text "dr" and "id", with a blank behind.
abbrev dr : List ℕ
dr = b'd' ∷ b'r' ∷ []

abbrev id : List ℕ
id = b'i' ∷ b'd' ∷ []

abbrev blank : List ℕ
blank = b' ' ∷ []

abbrev twelve : List ℕ
twelve = b'1' ∷ b'2' ∷ []

abbrev no_info : TableInfo
no_info = record { table = []; row = 3; col = [] }

parse_table_info-reference_example :
    let str = reference dr id blank in
    (blank ≡ []
      → parse_table_info str (length str) no_info ≡ record { table = dr; row = 3; col = id })
    × (blank ≢ []
        → parse_table_info str (length str) no_info ≡ record { table = dr; row = 3; col = [] })
unfolding is_blank
parse_table_info-reference_example =
    parse_table_info-reference dr id blank no_info (refl, (refl, (refl, tt))) (refl, (refl, tt))
      (refl, tt) (omega arith)

parse_table_info-row_reference_example :
    let str = reference dr (b'1' ∷ []) (b'[' ∷ id ++ b']' ∷ []) in
    parse_table_info str (length str) no_info
    ≡ record { table = dr; row = atoi (b'1' ∷ []); col = id }
unfolding is_blank
parse_table_info-row_reference_example =
    parse_table_info-row_reference dr (b'1' ∷ []) id no_info (refl, (refl, (refl, tt))) (refl, tt)
      (refl, (refl, tt)) (omega arith)

split_value-joined_example :
    split_value (joined b',' (dr ∷ id ∷ [])) (id ∷ []) ≡ (id ∷ []) ++ (dr ∷ id ∷ [])
split_value-joined_example =
    split_value-joined (dr ∷ id ∷ []) (id ∷ [])
      ((λ e. cc), (refl, (refl, tt)), ((λ e. cc), (refl, (refl, tt)), tt))

find_relative_tag-IsFirst_example :
    IsFirst (dr ∷ id ∷ []) 1 id (find_relative_tag (dr ∷ id ∷ []) 2 id)
find_relative_tag-IsFirst_example = find_relative_tag-IsFirst dr (id ∷ []) id

find_nameautotype-auto_string_example :
    (find_nameautotype (auto_string AutoType.uint16) ≡ AutoType.uint16)
    × (find_nametype_len (auto_string AutoType.uint16) ≡ find_namelen AutoType.uint16)
find_nameautotype-auto_string_example =
    find_nameautotype-auto_string AutoType.uint16 (λ e. cc) (λ e. cc) (λ e. cc)

abbrev early : Time
early = record { sec = 10; usec = 900000 }

abbrev late : Time
late = record { sec = 12; usec = 100000 }

early-IsTime : IsTime early
early-IsTime = record { sec_fits = omega arith; usec_fits = omega arith }

late-IsTime : IsTime late
late-IsTime = record { sec_fits = omega arith; usec_fits = omega arith }

add_time_diff-get_time_diff_example : add_time_diff early (get_time_diff early late) ≡ late
add_time_diff-get_time_diff_example =
    add_time_diff-get_time_diff early late early-IsTime late-IsTime (omega arith)

get_time_diff-micros_example :
    (micros late ≤ micros early → micros (get_time_diff early late) ≡ 0)
    × (micros early ≤ micros late → micros early + micros (get_time_diff early late) ≡ micros late)
get_time_diff-micros_example = get_time_diff-micros early late early-IsTime late-IsTime

calc_align_least_example :
    (q : ℕ) × (calc_align 125 60 ≡ some (q * 60)) × (125 ≤ q * 60) × (q * 60 < 125 + 60)
calc_align_least_example = calc_align_least 125 60 (omega arith) (omega arith)

randnumer_bounds_example :
    let top = range_top 2147483647 9 in
    (5 ≤ top → (v : ℕ) × (randnumer 2147483647 1000 5 9 ≡ some v) × (5 ≤ v) × (v ≤ top))
    × (top < 5 → randnumer 2147483647 1000 5 9 ≡ some 0)
randnumer_bounds_example = randnumer_bounds 2147483647 1000 5 9 (omega arith) (omega arith)

-- A full array, which has to grow.
abbrev zeros : ℕ → List ℕ
zeros n = replicate n 0

length-zeros : (n : ℕ) → length (zeros n) ≡ n
length-zeros zero = refl
length-zeros (suc n) = ap suc (length-zeros n)

abbrev full_array : DynamicArray
full_array = record { cells = 5 ∷ 9 ∷ []; size = 2; capacity = 2 }

full_array-IsArray : IsArray full_array
full_array-IsArray = record { allocated = refl; in_use = omega arith; some_cells = omega arith }

dynamic_array_add-contents_example :
    (after : DynamicArray) × (dynamic_array_add zeros 7 full_array ≡ some after)
    × IsArray after
    × (contents after ≡ contents full_array ++ (7 ∷ []))
dynamic_array_add-contents_example =
    dynamic_array_add-contents zeros 7 full_array length-zeros full_array-IsArray (omega arith)

dynamic_array_max-largest_example :
    (full_array.size ≡ 0 → dynamic_array_max full_array ≡ some 0)
    × (0 < 2
        → (m : ℕ) × (dynamic_array_max full_array ≡ some m)
          × ((j v : ℕ) → j < 2 → get_elem? full_array.cells j ≡ some v → v ≤ m)
          × ((j : ℕ) × (j < 2) × (get_elem? full_array.cells j ≡ some m)))
dynamic_array_max-largest_example = dynamic_array_max-largest full_array full_array-IsArray

abbrev one_element : OffsetStack ℕ
one_element = record { cells = 4 ∷ replicate 99 0; depth = 1 }

one_element-IsStack : IsStack one_element
one_element-IsStack = record { allocated = refl; in_use = omega arith }

stack_pop-stack_push_example :
    (one_element.depth ≡ 100 → stack_push 6 one_element ≡ (one_element, false))
    × (1 < 100
        → ((stack_push 6 one_element).1 ≡ true)
          × IsStack (stack_push 6 one_element).0
          × ((stack_pop (stack_push 6 one_element).0).1 ≡ some 6)
          × ((stack_pop (stack_push 6 one_element).0).0.depth ≡ 1)
          × (take 1 (stack_pop (stack_push 6 one_element).0).0.cells ≡ take 1 one_element.cells))
stack_pop-stack_push_example = stack_pop-stack_push 6 one_element one_element-IsStack
