-- ===== src/Com/Text.antt =====
-- The text helpers of `CAlignDataTypeDef` in src/com/AlignDataTypeDef.cc, and what the code uses of
-- the C library's number readers. A text is the list of its bytes, without the terminator.
pub mod Numbers
pub mod Fields
pub mod References
use litealigndata.Prelude.{
  ℕ, zero, suc, ◌+◌, ◌-◌, ◌*◌, ◌/◌, ◌%◌, ◌^◌, Bool, true, false, not, ◌&&◌, ◌||◌, Option, none,
  some, List, [], ◌∷◌, ◌++◌, leb, ltb, ◌==◌, if◌then◌else◌, u32, u64, min, ◌>>=◌, length, take,
  drop, map,
}

unfoldable pub is_digit : ℕ → Bool
is_digit c = leb b'0' c && leb c b'9'

-- `isAlldigits`: beyond the text stands the terminator, which is no digit.
unfoldable pub is_all_digits : List ℕ → ℕ → Bool
unfolding is_digit
is_all_digits pchar zero = true
is_all_digits [] (suc len) = false
is_all_digits (c ∷ pchar) (suc len) = is_digit c && is_all_digits pchar len

unfoldable pub is_space : ℕ → Bool
is_space c = c == 32 || leb 9 c && leb c 13

unfoldable pub skip_space : List ℕ → List ℕ
unfolding is_space
skip_space [] = []
skip_space (c ∷ s) = if is_space c then skip_space s else c ∷ s

-- The value of the leading decimal digits, behind those that `acc` holds.
unfoldable pub decimal : ℕ → List ℕ → ℕ
unfolding is_digit
decimal acc [] = acc
decimal acc (c ∷ s) =
    let rest = decimal (acc * 10 + (c - b'0')) s in if is_digit c then rest else acc

-- A sign and the digits behind it, as whether a minus stands there and the value.
unfoldable pub signed_decimal : List ℕ → Bool × ℕ
unfolding decimal
signed_decimal [] = (false, 0)
signed_decimal (c ∷ s) =
    if c == b'-'
    then (true, decimal 0 s)
    else if c == b'+'
    then (false, decimal 0 s)
    else (false, decimal 0 (c ∷ s))

-- `atol` as a 64-bit pattern: out of range it stops at LONG_MAX and LONG_MIN, as `strtol` does.
unfoldable pub atol : List ℕ → ℕ
atol s =
    let (minus, n) = signed_decimal (skip_space s) in
    if minus then (2 ^ 64 - min n (2 ^ 63)) % 2 ^ 64 else min n (2 ^ 63 - 1)

-- `atoi` as a 32-bit pattern: the low half of `atol`.
unfoldable pub atoi : List ℕ → ℕ
atoi s = u32 (atol s)

-- `strtoull ( s, NULL, 10 )`: out of range it stops at ULLONG_MAX, and a minus negates the pattern.
unfoldable pub strtoull : List ℕ → ℕ
strtoull s =
    let (minus, n) = signed_decimal (skip_space s) in
    if leb (2 ^ 64) n then 2 ^ 64 - 1 else if minus then (2 ^ 64 - n) % 2 ^ 64 else n

-- `strtok_r` with one delimiter: the pieces of the text between delimiters, the empty ones left out.
-- `piece` holds the characters read since the last delimiter.
unfoldable pub tokens : ℕ → List ℕ → List ℕ → List (List ℕ)
tokens delimiter [] [] = []
tokens delimiter (p ∷ piece) [] = (p ∷ piece) ∷ []
tokens delimiter [] (c ∷ s) = tokens delimiter (if c == delimiter then [] else c ∷ []) s
tokens delimiter (p ∷ piece) (c ∷ s) =
    if c == delimiter
    then (p ∷ piece) ∷ tokens delimiter [] s
    else tokens delimiter ((p ∷ piece) ++ c ∷ []) s

-- `splitValue`, which appends to its list.
unfoldable pub split_value : List ℕ → List (List ℕ) → List (List ℕ)
unfolding tokens
split_value default_value str_value_list = str_value_list ++ tokens b',' [] default_value

-- `strchr`: the text before the first occurrence, and the text from it on.
unfoldable pub strchr : ℕ → List ℕ → Option (List ℕ × List ℕ)
strchr c [] = none
strchr c (x ∷ s) = if x == c then some ([], x ∷ s) else strchr c s >>= λ p. some (x ∷ p.0, p.1)

-- The white space of `trim` and `Trim`.
unfoldable pub is_blank : ℕ → Bool
is_blank c = c == 32 || (c == 9 || (c == 13 || c == 10))

unfoldable pub trim_left : List ℕ → List ℕ
trim_left [] = []
trim_left (c ∷ s) = if is_blank c then trim_left s else c ∷ s

-- The text without its last blanks: a blank is kept when something that is kept follows it.
unfoldable pub trim_right : List ℕ → List ℕ
trim_right [] = []
trim_right (c ∷ s) =
    let rest = trim_right s in
    elim rest [ [] ↦ (if is_blank c then [] else c ∷ []) | r ∷ rs ↦ c ∷ r ∷ rs ]

-- `trim` and `Trim`, on a text that is not all blank (on an all-blank one `trim` runs off its start).
unfoldable pub trim : List ℕ → List ℕ
trim s = trim_right (trim_left s)

-- What `ParserTableInfoFromString` writes into its reference arguments: the table, the row and the
-- column of "table[column]" or "table[row][column]".
pub record TableInfo : Type 0 where
  pub table : List ℕ
  pub row : ℕ
  pub col : List ℕ

-- The text between the bracket that `s` begins with and the first `]`, and the text behind it.
unfoldable pub bracketed : List ℕ → Option (List ℕ × List ℕ)
bracketed s = strchr b']' s >>= λ p. some (drop 1 p.0, drop 1 p.1)

-- A text as far as its length is a `uint32_t`.
unfoldable pub cut : List ℕ → List ℕ
cut s = take (u32 (length s)) s

-- The part of `ParserTableInfoFromString` behind the first pair of brackets.
unfoldable pub parse_row : List ℕ → List ℕ → List ℕ → TableInfo → TableInfo
parse_row table first rest old = elim (strchr b'[' rest) [
  | none ↦ record { table = table; row = old.row; col = [] }
  | some (gap, second) ↦ elim (bracketed second) [
    | none ↦ record { table = table; row = old.row; col = [] }
    | some (col, more) ↦ record { table = table; row = atoi first; col = cut col }
  ]
]

-- `str_len` is the length that the caller passes, that of the text before it is trimmed. The blanks
-- that `trim` cuts off the caller's text are not given back.
unfoldable pub parse_table_info : List ℕ → ℕ → TableInfo → TableInfo
unfolding cut
parse_table_info str str_len old =
    let s = trim str in
    if str_len == 0 then old else elim (strchr b'[' s) [
      | none ↦ old
      | some (table, from_left) ↦ elim (bracketed from_left) [
        | none ↦ old
        | some (inside, rest) ↦
            let match_len = u32 (length table + length inside + 2) in
            if match_len == str_len
            then record { table = cut table; row = old.row; col = cut inside }
            else if ltb match_len str_len
            then parse_row (cut table) (cut inside) rest old
            else record { table = cut table; row = old.row; col = [] }
      ]
    ]
