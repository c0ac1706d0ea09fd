-- ===== src/Com/Value/Arrays.antt =====
-- Byte arrays: where `AsciiToByteArray` puts a text, and what `getToString` makes of it.
use litealigndata.Prelude.{
  length-replicate, ℕ, zero, suc, ◌+◌, ◌-◌, ◌≤◌, ◌<◌, ◌≡◌, refl, ◌⊎◌, true, false, some, List, [],
  ◌∷◌, arith, length, get_elem?, take, replicate, length-take, min,
}
use litealigndata.Com.Bytes.{write_bytes}
use litealigndata.Com.Bytes.Blocks.{write_bytes-IsCopied}
use litealigndata.Com.Types.Tables.{convert_auto_type-ne-byte_array}
use litealigndata.Com.Value.{
  AutoValue, get_to_string, ascii_to_byte_array, align_right, capped, fitted,
}
use litealigndata.Com.Value.Access.{with_data_at}

-- Whatever its type and its bytes, a value is turned into the empty text.
get_to_string-empty : (v : AutoValue) (mem : List ℕ) → get_to_string v mem ≡ some []
unfolding get_to_string
get_to_string-empty v mem = ground (arith, convert_auto_type-ne-byte_array v.type)

get_elem?-replicate : (n a i : ℕ) → i < n → get_elem? (replicate n a) i ≡ some a
get_elem?-replicate zero a i h = absurd (omega arith)
get_elem?-replicate (suc n) a zero h = refl
get_elem?-replicate (suc n) a (suc i) h = get_elem?-replicate n a i (omega arith)

get_elem?-take : (n : ℕ) (s : List ℕ) (j : ℕ) → j < n → get_elem? (take n s) j ≡ get_elem? s j
get_elem?-take zero s j h = absurd (omega arith)
get_elem?-take (suc n) [] j h = refl
get_elem?-take (suc n) (c ∷ s) zero h = refl
get_elem?-take (suc n) (c ∷ s) (suc j) h = get_elem?-take n s j (omega arith)

-- The bytes of a value of length `size` at `addr`, with the text's first `fit` bytes at its end.
pub record IsAligned (ascii : List ℕ) (size fit addr : ℕ) (mem after : List ℕ) : Type 0 where
  pub same_length : length after ≡ length mem
  pub zeros : (j : ℕ) → j < size - fit → get_elem? after (addr + j) ≡ some 0
  pub text : (j : ℕ) → j < fit → get_elem? after (addr + (size - fit) + j) ≡ get_elem? ascii j
  pub outside : (i : ℕ) → (i < addr) ⊎ (addr + size ≤ i) → get_elem? after i ≡ get_elem? mem i

fitted-capped : (len size : ℕ) → fitted (capped len) size ≡ min (min len 255) size
unfolding fitted capped
fitted-capped len size = ground arith

align_right_runs :
    (ascii : List ℕ) (size fit addr : ℕ) (mem cleared after : List ℕ)
    → fit ≡ min (min (length ascii) 255) size
    → write_bytes addr (replicate size 0) mem ≡ some cleared
    → write_bytes (addr + (size - fit)) (take fit ascii) cleared ≡ some after
    → align_right ascii size addr mem ≡ some after
unfolding align_right
align_right_runs ascii size fit addr mem cleared after e f g =
    rw (fitted-capped (length ascii) size, ← e, f) g

align_right-IsAligned :
    (ascii : List ℕ) (size fit addr : ℕ) (mem : List ℕ)
    → fit ≡ min (min (length ascii) 255) size
    → addr + size ≤ length mem
    → (after : List ℕ) × (align_right ascii size addr mem ≡ some after)
      × IsAligned ascii size fit addr mem after
align_right-IsAligned ascii size fit addr mem e fits =
    let zs : List ℕ = replicate size 0 in
    let text = take fit ascii in
    let sized = length-replicate {A = ℕ} size 0 in
    let cut : length text ≡ fit = omega (arith, length-take fit ascii) in
    let (cleared, done, c) = write_bytes-IsCopied addr zs mem (omega (arith, sized)) in
    let (after, done', a) =
      write_bytes-IsCopied (addr + (size - fit)) text cleared (omega (arith, c.same_length)) in
    (
      after,
      align_right_runs ascii size fit addr mem cleared after e done done',
      record {
        same_length = omega (arith, c.same_length, a.same_length);
        zeros = λ j h. ground (
          arith,
          a.outside (addr + j),
          c.inside j (omega (arith, sized)),
          get_elem?-replicate size 0 j,
        );
        text = λ j h. ground (arith, a.inside j (omega (arith, cut)), get_elem?-take fit ascii j);
        outside = λ i h. ground (arith, sized, cut, c.outside i, a.outside i);
      },
    )

-- For a value that points to enough bytes of the memory: with right alignment the text fills the
-- last bytes of the value, zeros stand in front of it, and no byte outside the value changes; a
-- text longer than the value or than 255 bytes is cut at its end.
pub ascii_to_byte_array-IsAligned :
    (ascii : List ℕ) (v : AutoValue) (addr : ℕ) (mem : List ℕ)
    → v.is_sub_column ≡ false
    → v.pointer ≡ some addr
    → addr + v.len ≤ length mem
    → (after : List ℕ) × (ascii_to_byte_array ascii true v mem ≡ some (v, after))
      × IsAligned ascii v.len (min (min (length ascii) 255) v.len) addr mem after
unfolding ascii_to_byte_array
ascii_to_byte_array-IsAligned ascii v addr mem outside_itself points fits =
    let (after, done, a) =
      align_right-IsAligned ascii v.len (min (min (length ascii) 255) v.len) addr mem refl fits in
    (after, with_data_at (align_right ascii v.len) v addr mem after outside_itself points done, a)
