-- ===== src/Com/Text/References.antt =====
-- The references "table[column]" and "table[row][column]" of `ParserTableInfoFromString`.
use litealigndata.Prelude.{
  ℕ, ◌+◌, ◌<◌, ◌≡◌, ◌≢◌, refl, ◌∙◌, ap, false, List, [], ◌∷◌, ◌++◌, arith, length, length-append,
  sym, ◌^◌, take, take_append, u32,
}
use mathlib.Core.List.{append_assoc, append-nil}
use litealigndata.Com.Text.{
  strchr, cut, is_blank, trim, TableInfo, parse_row, parse_table_info, atoi,
}
use litealigndata.Com.Text.Fields.{Free, Blank, trim-padded, strchr-found, bracketed-found}

-- "table[inside]rest".
abbrev pub reference : List ℕ → List ℕ → List ℕ → List ℕ
reference table inside rest = table ++ (b'[' ∷ inside ++ (b']' ∷ rest))

-- A name that begins with something else than a blank and holds no opening bracket.
abbrev pub IsName : List ℕ → Type 0
IsName [] = ⊥
IsName (c ∷ t) = (is_blank c ≡ false) × Free b'[' (c ∷ t)

cut-short : (s : List ℕ) → length s < 2 ^ 32 → cut s ≡ s
unfolding cut
cut-short s h =
    let fits : u32 (length s) ≡ length s = omega arith in
    rw fits (ap (take (length s)) (sym (append-nil s)) ∙ take_append s [])

-- Of a trimmed text `table[inside]rest`, the table and the text inside the first brackets are read,
-- and what follows depends on whether the length that was passed ends there.
parse_table_info_split :
    (str table inside rest : List ℕ) (str_len : ℕ) (old : TableInfo)
    → trim str ≡ reference table inside rest
    → Free b'[' table
    → Free b']' inside
    → 0 < str_len
    → str_len < 2 ^ 32
    → length table + length inside + 2 < 2 ^ 32
    → (length table + length inside + 2 ≡ str_len
        → parse_table_info str str_len old ≡ record { table = table; row = old.row; col = inside })
      × (length table + length inside + 2 < str_len
          → parse_table_info str str_len old ≡ parse_row table inside rest old)
unfolding parse_table_info
parse_table_info_split str table inside rest str_len old e f g pos few short =
    let fits : u32 (length table + length inside + 2) ≡ length table + length inside + 2 =
      omega arith in
    rw
      (
        e,
        strchr-found b'[' table (inside ++ (b']' ∷ rest)) f,
        bracketed-found inside rest g,
        cut-short table (omega arith),
        cut-short inside (omega arith),
        fits,
      )
      (λ h. ground arith, λ h. ground arith)

trim-reference :
    (table inside w : List ℕ)
    → IsName table
    → Blank w
    → trim (reference table inside w) ≡ reference table inside []
trim-reference [] inside w n b = absurd n
trim-reference (c ∷ t) inside w n b =
    ap trim (sym (append_assoc (c ∷ t) (b'[' ∷ inside) (b']' ∷ w)))
    ∙ trim-padded c (t ++ (b'[' ∷ inside)) w b']' n.0 (unfold is_blank in refl) b
    ∙ append_assoc (c ∷ t) (b'[' ∷ inside) (b']' ∷ [])

Free-name : (table : List ℕ) → IsName table → Free b'[' table
Free-name [] n = absurd n
Free-name (c ∷ t) n = n.1

length-reference :
    (table inside rest : List ℕ)
    → length (reference table inside rest) ≡ length table + length inside + 2 + length rest
length-reference table inside rest = omega (
  arith,
  length-append table (b'[' ∷ inside ++ (b']' ∷ rest)),
  length-append inside (b']' ∷ rest),
)

-- For a text shorter than 2 ^ 32, a table name that begins with something else than a blank and
-- holds no opening bracket, and a column without a closing bracket: "table[column]" is read as that
-- table and that column, and the row stays as it was; the same text with blanks behind it gives the
-- table, and an empty column.
pub parse_table_info-reference :
    (table col : List ℕ) (w : List ℕ) (old : TableInfo)
    → IsName table
    → Free b']' col
    → Blank w
    → length (reference table col w) < 2 ^ 32
    → let str = reference table col w in
      (w ≡ []
        → parse_table_info str (length str) old
          ≡ record { table = table; row = old.row; col = col })
      × (w ≢ []
          → parse_table_info str (length str) old
            ≡ record { table = table; row = old.row; col = [] })
parse_table_info-reference table col w old n f b short =
    let str = reference table col w in
    let size = length-reference table col w in
    let parts =
      parse_table_info_split str table col [] (length str) old (trim-reference table col w n b)
        (Free-name table n) f (omega (arith, size)) short (omega (arith, size, short)) in
    (
      λ none_behind. parts.0 (omega (arith, size, ap length none_behind)),
      λ some_behind. parts.1 (omega (arith, size, length-pos w some_behind)) ∙ nothing_more,
    )
  where
    length-pos : (xs : List ℕ) → xs ≢ [] → 0 < length xs
    length-pos [] h = absurd (h refl)
    length-pos (x ∷ xs) h = omega arith

    nothing_more : parse_row table col [] old ≡ record { table = table; row = old.row; col = [] }
    nothing_more = unfold parse_row strchr in refl

parse_row-second :
    (table row col : List ℕ) (old : TableInfo)
    → Free b']' col
    → length col < 2 ^ 32
    → parse_row table row (b'[' ∷ col ++ b']' ∷ []) old
      ≡ record { table = table; row = atoi row; col = col }
unfolding parse_row strchr
parse_row-second table row col old g short =
    rw (bracketed-found col [] g, parse_row, cut-short col short)

trim-row_reference :
    (table row col : List ℕ)
    → IsName table
    → let str = reference table row (b'[' ∷ col ++ b']' ∷ []) in trim str ≡ str
trim-row_reference [] row col n = absurd n
trim-row_reference (c ∷ t) row col n =
    let regroup : ((c ∷ t) ++ (b'[' ∷ row ++ (b']' ∷ b'[' ∷ col))) ++ b']' ∷ []
        ≡ reference (c ∷ t) row (b'[' ∷ col ++ b']' ∷ []) =
      simp append_assoc in
    ap trim (sym regroup)
    ∙ trim-padded c (t ++ (b'[' ∷ row ++ (b']' ∷ b'[' ∷ col))) [] b']' n.0 (unfold is_blank in refl)
        tt
    ∙ regroup

-- For a text shorter than 2 ^ 32, a table name that begins with something else than a blank and
-- holds no opening bracket, and a row and a column without a closing bracket: "table[row][column]"
-- is read as the table, the number that `atoi` makes of the row, and the column.
pub parse_table_info-row_reference :
    (table row col : List ℕ) (old : TableInfo)
    → IsName table
    → Free b']' row
    → Free b']' col
    → length (reference table row (b'[' ∷ col ++ b']' ∷ [])) < 2 ^ 32
    → let str = reference table row (b'[' ∷ col ++ b']' ∷ []) in
      parse_table_info str (length str) old ≡ record { table = table; row = atoi row; col = col }
parse_table_info-row_reference table row col old n f g short =
    let rest : List ℕ = b'[' ∷ col ++ b']' ∷ [] in
    let str = reference table row rest in
    let size = length-reference table row rest in
    let parts =
      parse_table_info_split str table row rest (length str) old
        (trim-row_reference table row col n) (Free-name table n) f (omega (arith, size)) short
        (omega (arith, size, short)) in
    let second : length col < 2 ^ 32 = omega (arith, size, short, length-append col (b']' ∷ [])) in
    parts.1 (omega (arith, size, length-append col (b']' ∷ [])))
    ∙ parse_row-second table row col old g second
