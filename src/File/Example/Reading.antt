-- ===== src/File/Example/Reading.antt =====
-- `EntryColumn` and `example_parse_one_line` of src/file/Example/Example.cc: a line's fields are
-- stored one behind the other. The message about a wrong length is left out.
use litealigndata.Prelude.{
  ℕ, zero, suc, ◌+◌, Option, none, some, List, [], ◌∷◌, ◌++◌, ltb, ◌==◌, ◌||◌, if◌then◌else◌, ◌>>=◌,
  length, drop, u32,
}
use litealigndata.Com.Bytes.{write_le, write_bytes, read_text}
use litealigndata.Com.Text.{atol}
use litealigndata.Com.Types.{max_str_len}
use litealigndata.Struct.Objects.{
  Column, Element, column, structure, union, other, Elements, nil, cons,
}
use litealigndata.File.Example.{Format, format}

-- The memory, `pData` and the position `m` in the line.
pub record Cursor : Type 0 where
  pub mem : List ℕ
  pub p_data : ℕ
  pub pos : ℕ

unfoldable pub before_comma : List ℕ → List ℕ
before_comma [] = []
before_comma (c ∷ s) = if c == b',' then [] else c ∷ before_comma s

-- `find` and `substr`: a position behind the end is an exception. Behind a field the position is
-- the one behind its comma, or one behind the end.
unfoldable pub next_field : List ℕ → ℕ → Option (List ℕ × ℕ)
unfolding before_comma
next_field line pos =
    let str = before_comma (drop pos line) in
    if ltb (length line) pos then none else some (str, pos + length str + 1)

-- What the branch for a column stores of the text `p_token`; `atoll` is `atol` on 64 bits.
unfoldable pub store_field : Column → List ℕ → Cursor → Option Cursor
store_field c p_token cur = elim (format c) [
  | Format.number ↦ write_le 8 cur.p_data (atol p_token) cur.mem >>= λ mem.
      some (record cur { mem = mem; p_data = cur.p_data + 8 })
  | Format.text ↦ write_bytes cur.p_data (p_token ++ 0 ∷ []) cur.mem >>= λ mem.
      some (record cur { mem = mem; p_data = cur.p_data + max_str_len })
  | Format.skipped ↦ some cur
]

-- The branch of `EntryColumn` for a column, with the text that it reads.
unfoldable pub entry_field : Column → List ℕ → Cursor → Option (Cursor × List ℕ)
entry_field c line cur = next_field line cur.pos >>= λ f.
    let p_token = read_text 0 f.0 in
    store_field c p_token (record cur { pos = f.1 }) >>= λ cur'. some (cur', p_token)

-- `EntryColumn`. `next` is the visit of the object behind this one in its list.
unfoldable mutual
  unfolding entry_field

  pub entry_column : Element → (ℕ → Cursor → Option Cursor) → ℕ → List ℕ → Cursor → Option Cursor
  entry_column (column c) next index line cur =
      entry_field c line cur >>= λ r. if c.union_flag then next (u32 (atol r.1)) r.0 else some r.0
  entry_column (structure g kids) next index line cur = entry_all kids line cur
  entry_column (union g kids) next index line cur = entry_member kids index line cur
  entry_column other next index line cur = some cur

  pub entry_first : Elements → List ℕ → ℕ → Cursor → Option Cursor
  entry_first nil line index cur = none
  entry_first (cons e rest) line index cur = entry_column e (entry_first rest line) index line cur

  pub entry_all : Elements → List ℕ → Cursor → Option Cursor
  entry_all nil line cur = some cur
  entry_all (cons e rest) line cur =
      entry_column e (entry_first rest line) 0 line cur >>= λ r. entry_all rest line r

  pub entry_member : Elements → ℕ → List ℕ → Cursor → Option Cursor
  entry_member nil index line cur = none
  entry_member (cons e rest) zero line cur = entry_column e (entry_first rest line) 0 line cur
  entry_member (cons e rest) (suc index) line cur = entry_member rest index line cur

-- `example_parse_one_line` from `pData` on: a table with another number than those of the example is
-- refused, and its line stores nothing.
unfoldable pub example_parse_one_line : Elements → ℕ → List ℕ → List ℕ → ℕ → Option (List ℕ × ℕ)
unfolding entry_column
example_parse_one_line body table_id line mem p_data =
    if (table_id == 0) || (table_id == 1)
    then (entry_all body line (record { mem = mem; p_data = p_data; pos = 0 }) >>= λ cur.
        some (cur.mem, cur.p_data))
    else some (mem, p_data)
