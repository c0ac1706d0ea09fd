-- ===== src/File/Example.antt =====
-- `CExampledata` of src/file/Example/Example.cc: a table as lines of fields that commas separate. The
-- opening of the files is left out: a file is its bytes. `none` is an access beyond the memory, the
-- use of an iterator at the end or of a value that was not set, or an exception.
pub mod Reading
pub mod Tables
pub mod Flat
pub mod Fields
pub mod Rows
pub mod Lines
pub mod RoundTrip
pub mod Streamed
use litealigndata.Prelude.{
  ℕ, zero, suc, ◌+◌, ◌-◌, Option, none, some, List, [], ◌∷◌, ◌++◌, ◌==◌, if◌then◌else◌, ◌>>=◌,
  get_elem?,
}
use litealigndata.Com.Bytes.{read_le}
use litealigndata.Com.Value.{to_string}
use litealigndata.Com.Tags.Auto.{AutoType}
use litealigndata.Com.Types.{find_nameautotype, max_str_len}
use litealigndata.Struct.Objects.{
  Column, Element, column, structure, union, other, Elements, nil, cons,
}

-- What both directions do with a column, by its type.
pub data Format : Type 0 where
  number text skipped : Format

unfoldable pub format_of : AutoType → Format
format_of AutoType.uint64 = Format.number
format_of AutoType.real_time = Format.number
format_of AutoType.real_time_ms = Format.number
format_of AutoType.string = Format.text
format_of AutoType.byte_array = Format.text
format_of _ = Format.skipped

unfoldable pub format : Column → Format
unfolding format_of
format c = format_of (find_nameautotype c.type)

-- The characters from `addr` on, up to the terminator that stands among the first `room` of them.
unfoldable pub c_string : ℕ → ℕ → List ℕ → Option (List ℕ)
c_string zero addr mem = none
c_string (suc room) addr mem = get_elem? mem addr >>= λ b.
    let more = c_string room (addr + 1) mem >>= λ s. some (b ∷ s) in
    if b == 0 then some [] else more

-- `memcpy(name, p_dr_table, 256); encodedStr += name`, where `name` ends within its 256 bytes.
unfoldable pub copied_text : ℕ → List ℕ → Option (List ℕ)
unfolding c_string
copied_text addr mem =
    get_elem? mem (addr + (max_str_len - 1)) >>= λ last. c_string max_str_len addr mem

-- The branch of `WriteColumn` for a column: the text so far, and the local variable `value`, which
-- only a number sets.
unfoldable pub write_field : Column → ℕ → List ℕ → List ℕ → Option (List ℕ × Option ℕ)
write_field c p_data mem encoded = elim (format c) [
  | Format.number ↦ read_le 8 (p_data + c.offset) mem >>= λ value.
      some (encoded ++ (to_string value ++ b',' ∷ []), some value)
  | Format.text ↦
      copied_text (p_data + c.offset) mem >>= λ name. some (encoded ++ (name ++ b',' ∷ []), none)
  | Format.skipped ↦ some (encoded, none)
]

-- `WriteColumn`. `next` is the visit of the object behind this one in its list.
unfoldable mutual
  unfolding write_field

  pub write_column :
      Element → (ℕ → List ℕ → Option (List ℕ)) → ℕ → ℕ → List ℕ → List ℕ → Option (List ℕ)
  write_column (column c) next value p_data mem encoded = write_field c p_data mem encoded >>= λ r.
      if c.union_flag then (r.1 >>= λ v. next v r.0) else some r.0
  write_column (structure g kids) next value p_data mem encoded = write_all kids p_data mem encoded
  write_column (union g kids) next value p_data mem encoded =
      write_member kids value p_data mem encoded
  write_column other next value p_data mem encoded = some encoded

  -- The visit of a list's first object; behind the list there is none.
  pub write_first : Elements → ℕ → List ℕ → ℕ → List ℕ → Option (List ℕ)
  write_first nil p_data mem value encoded = none
  write_first (cons e rest) p_data mem value encoded =
      write_column e (write_first rest p_data mem) value p_data mem encoded

  -- The loop over a list.
  pub write_all : Elements → ℕ → List ℕ → List ℕ → Option (List ℕ)
  write_all nil p_data mem encoded = some encoded
  write_all (cons e rest) p_data mem encoded =
      write_column e (write_first rest p_data mem) 0 p_data mem encoded >>= λ r.
      write_all rest p_data mem r

  -- The member of a union by its index.
  pub write_member : Elements → ℕ → ℕ → List ℕ → List ℕ → Option (List ℕ)
  write_member nil value p_data mem encoded = none
  write_member (cons e rest) zero p_data mem encoded =
      write_column e (write_first rest p_data mem) 0 p_data mem encoded
  write_member (cons e rest) (suc value) p_data mem encoded =
      write_member rest value p_data mem encoded
