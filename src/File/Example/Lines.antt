-- ===== src/File/Example/Lines.antt =====
-- The text of a file: the lines of the rows, and the pieces that it is read in.
use mathlib.Core.List.{append_assoc, append-nil}
use litealigndata.Prelude.{
  ℕ, ◌+◌, ◌^◌, ◌<◌, ◌≡◌, ◌≢◌, refl, sym, ap, ◌∙◌, arith, true, false, Option, none, some, List, [],
  ◌∷◌, ◌++◌, ◌==◌, ◌||◌, length, length-append, map, take, take_append, ◌>>=◌, u16,
}
use litealigndata.Struct.Objects.{Column, Elements}
use litealigndata.File.Example.{format}
use litealigndata.File.Example.Tables.{end_line, example_encode_data, write_rows, lines_of}
use litealigndata.File.Example.Flat.{ArePlain, columns, visit, write_step, write_all-columns}
use litealigndata.File.Example.Fields.{FieldValue, IsPlainText, field_text}
use litealigndata.File.Example.Rows.{
  AreLaid, AreWritable, HasRow, line_text, encode_row, field_text-IsPlainText,
}

-- Rows of `size` bytes from the address on.
abbrev pub HasRows : List Column → ℕ → List (List FieldValue) → List ℕ → ℕ → Type 0
HasRows cs size [] mem addr = Unit {0}
HasRows cs size (vs ∷ rows) mem addr =
    HasRow cs vs mem addr × HasRows cs size rows mem (addr + size)

-- Lines that are not empty and whose length is a `uint16_t`.
abbrev pub AreLines : List Column → List (List FieldValue) → Type 0
AreLines cs [] = Unit {0}
AreLines cs (vs ∷ rows) =
    AreWritable cs vs
    × (line_text vs ≢ [])
    × (length (line_text vs) + 1 < 2 ^ 16)
    × AreLines cs rows

unfoldable pub file_text : List (List FieldValue) → List ℕ
file_text [] = []
file_text (vs ∷ rows) = line_text vs ++ (10 ∷ file_text rows)

pub table_test : (id : ℕ) → id < 2 → (id == 0) || (id == 1) ≡ true
table_test id h = ground arith

encode_columns :
    (cs : List Column) (vs : List FieldValue) (p_data : ℕ) (mem : List ℕ)
    → AreLaid cs 0
    → AreWritable cs vs
    → line_text vs ≢ []
    → HasRow cs vs mem p_data
    → (visit (write_step p_data mem) cs [] >>= end_line) ≡ some (line_text vs ++ 10 ∷ [])
encode_columns [] [] p_data mem l w some_text h = absurd (some_text (unfold line_text in refl))
encode_columns [] (v ∷ vs) p_data mem l w some_text h = absurd h
encode_columns (c ∷ cs) vs p_data mem l w some_text h = encode_row c cs vs p_data mem l h

-- A line and its length.
abbrev measured : List ℕ → Option (List ℕ × ℕ)
measured line = some (line, u16 (length line))

ended_line :
    (o : Option (List ℕ)) (whole : List ℕ)
    → (o >>= end_line) ≡ some whole
    → (o >>= λ s. end_line s >>= measured) ≡ measured whole
ended_line none whole h = cc
ended_line (some s) whole h = rw h refl

pub encode_line :
    (body : Elements) (vs : List FieldValue) (id p_data : ℕ) (mem : List ℕ)
    → ArePlain body
    → AreLaid (columns body) 0
    → id < 2
    → AreWritable (columns body) vs
    → line_text vs ≢ []
    → length (line_text vs) + 1 < 2 ^ 16
    → HasRow (columns body) vs mem p_data
    → example_encode_data body p_data mem id
      ≡ some (line_text vs ++ 10 ∷ [], length (line_text vs ++ 10 ∷ []))
unfolding example_encode_data
encode_line body vs id p_data mem plain l known w some_text short h =
    let whole = line_text vs ++ 10 ∷ [] in
    let fits : u16 (length whole) ≡ length whole =
      omega (arith, length-append (line_text vs) (10 ∷ [])) in
    let made =
      ended_line (visit (write_step p_data mem) (columns body) []) whole
        (encode_columns (columns body) vs p_data mem l w some_text h) in
    rw (table_test id known, write_all-columns body p_data mem [] plain, made, fits) refl

pub write_rows-file_text :
    (body : Elements) (rows : List (List FieldValue)) (id size p_data : ℕ) (mem : List ℕ)
    → ArePlain body
    → AreLaid (columns body) 0
    → id < 2
    → AreLines (columns body) rows
    → HasRows (columns body) size rows mem p_data
    → write_rows body id size mem p_data (length rows) ≡ some (file_text rows)
unfolding write_rows file_text
write_rows-file_text body [] id size p_data mem plain l known w h = refl
write_rows-file_text body (vs ∷ rows) id size p_data mem plain l known w h =
    let rest = write_rows-file_text body rows id size (p_data + size) mem plain l known w.3 h.1 in
    let line = line_text vs ++ 10 ∷ [] in
    let whole : take (length line) line ≡ line =
      ap (take (length line)) (sym (append-nil line)) ∙ take_append line [] in
    rw (encode_line body vs id p_data mem plain l known w.0 w.1 w.2 h.0, rest, whole)
      (ap some (append_assoc (line_text vs) (10 ∷ []) (file_text rows)))

-- Text without a line feed.
abbrev IsLine : List ℕ → Type 0
IsLine [] = Unit {0}
IsLine (c ∷ s) = (c ≢ 10) × IsLine s

IsLine-append : (s t : List ℕ) → IsLine s → IsLine t → IsLine (s ++ t)
IsLine-append [] t h k = k
IsLine-append (c ∷ s) t h k = (h.0, IsLine-append s t h.1 k)

IsPlainText-IsLine : (s : List ℕ) → IsPlainText s → IsLine s
IsPlainText-IsLine [] h = tt
IsPlainText-IsLine (c ∷ s) h = (h.2, IsPlainText-IsLine s h.3)

line_text-IsPlain :
    (cs : List Column) (vs : List FieldValue) → AreWritable cs vs → IsLine (line_text vs)
unfolding line_text
line_text-IsPlain [] [] w = tt
line_text-IsPlain [] (v ∷ vs) w = absurd w
line_text-IsPlain (c ∷ cs) [] w = absurd w
line_text-IsPlain (c ∷ cs) (v ∷ []) w =
    IsPlainText-IsLine (field_text v) (field_text-IsPlainText (format c) v w.0)
line_text-IsPlain (c ∷ []) (v ∷ x ∷ vs) w = absurd w.1
line_text-IsPlain (c ∷ d ∷ cs) (v ∷ x ∷ vs) w =
    IsLine-append (field_text v) (b',' ∷ line_text (x ∷ vs))
      (IsPlainText-IsLine (field_text v) (field_text-IsPlainText (format c) v w.0))
      (omega arith, line_text-IsPlain (d ∷ cs) (x ∷ vs) w.1)

lines_of-line :
    (piece s rest : List ℕ)
    → IsLine s
    → lines_of piece (s ++ (10 ∷ rest)) ≡ (piece ++ s) ∷ lines_of [] rest
unfolding lines_of
lines_of-line piece [] rest h = ap (λ p. p ∷ lines_of [] rest) (sym (append-nil piece))
lines_of-line piece (c ∷ s) rest h =
    let other : c == 10 ≡ false = ground (arith, h.0) in
    rw (other, lines_of-line (piece ++ c ∷ []) s rest h.1)
      (ap (λ p. p ∷ lines_of [] rest) (append_assoc piece (c ∷ []) s))

pub lines_of-file_text :
    (cs : List Column) (rows : List (List FieldValue))
    → AreLines cs rows
    → lines_of [] (file_text rows) ≡ map line_text rows ++ [] ∷ []
unfolding file_text
lines_of-file_text cs [] h = unfold lines_of in refl
lines_of-file_text cs (vs ∷ rows) h =
    lines_of-line [] (line_text vs) (file_text rows) (line_text-IsPlain cs vs h.0)
    ∙ ap (λ r. line_text vs ∷ r) (lines_of-file_text cs rows h.3)
