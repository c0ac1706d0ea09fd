-- ===== src/File/Example/Rows.antt =====
-- One row: the line that is written of it, and what is stored of the line.
use mathlib.Core.List.{append_assoc, append-nil}
use litealigndata.Prelude.{
  ℕ, zero, suc, ◌+◌, ◌≤◌, ◌<◌, ◌≡◌, refl, sym, ap, ◌∙◌, ◌⊎◌, arith, true, false, some, List, [],
  ◌∷◌, ◌++◌, ltb, length, length-append, get_elem?, drop, drop_append, ◌>>=◌,
}
use litealigndata.Com.Bytes.{read_text}
use litealigndata.Com.Text.{is_digit, is_all_digits}
use litealigndata.Com.Value.Decimal.{to_string-is_all_digits}
use litealigndata.Struct.Objects.{Column}
use litealigndata.File.Example.{Format, format}
use litealigndata.File.Example.Reading.{Cursor, before_comma, next_field, entry_field}
use litealigndata.File.Example.Tables.{end_line}
use litealigndata.File.Example.Flat.{visit, write_step, entry_step}
use litealigndata.File.Example.Fields.{
  FieldValue, num, chars, IsPlainText, IsWritable, HasValue, width, field_text, write_step-HasValue,
  HasValue-Agree, IsKept, store_field-IsKept,
}

-- The columns stand one behind the other from `offset` on.
abbrev pub AreLaid : List Column → ℕ → Type 0
AreLaid [] offset = Unit {0}
AreLaid (c ∷ cs) offset = (c.offset ≡ offset) × AreLaid cs (offset + width (format c))

abbrev pub row_width : List Column → ℕ
row_width [] = 0
row_width (c ∷ cs) = width (format c) + row_width cs

-- A value for each column.
abbrev pub AreWritable : List Column → List FieldValue → Type 0
AreWritable [] [] = Unit {0}
AreWritable [] (v ∷ vs) = ⊥
AreWritable (c ∷ cs) [] = ⊥
AreWritable (c ∷ cs) (v ∷ vs) = IsWritable (format c) v × AreWritable cs vs

-- The memory holds the values one behind the other from the address on.
abbrev pub HasRow : List Column → List FieldValue → List ℕ → ℕ → Type 0
HasRow [] [] mem addr = Unit {0}
HasRow [] (v ∷ vs) mem addr = ⊥
HasRow (c ∷ cs) [] mem addr = ⊥
HasRow (c ∷ cs) (v ∷ vs) mem addr =
    HasValue (format c) v mem addr × HasRow cs vs mem (addr + width (format c))

-- The texts with a comma behind each, and with commas between them.
commas : List FieldValue → List ℕ
commas [] = []
commas (v ∷ vs) = field_text v ++ (b',' ∷ commas vs)

unfoldable pub line_text : List FieldValue → List ℕ
line_text [] = []
line_text (v ∷ []) = field_text v
line_text (v ∷ w ∷ vs) = field_text v ++ (b',' ∷ line_text (w ∷ vs))

write_row :
    (cs : List Column) (vs : List FieldValue) (p_data offset : ℕ) (mem encoded : List ℕ)
    → AreLaid cs offset
    → HasRow cs vs mem (p_data + offset)
    → visit (write_step p_data mem) cs encoded ≡ some (encoded ++ commas vs)
unfolding visit commas
write_row [] [] p_data offset mem encoded l h = ap some (sym (append-nil encoded))
write_row [] (v ∷ vs) p_data offset mem encoded l h = absurd h
write_row (c ∷ cs) [] p_data offset mem encoded l h = absurd h
write_row (c ∷ cs) (v ∷ vs) p_data offset mem encoded l h =
    let at : p_data + c.offset ≡ p_data + offset = omega (arith, l.0) in
    let here : HasValue (format c) v mem (p_data + c.offset) = rw at h.0 in
    let next : p_data + (offset + width (format c)) ≡ p_data + offset + width (format c) =
      omega arith in
    rw (write_step-HasValue c v p_data mem encoded here) (
      write_row cs vs p_data (offset + width (format c)) mem
        (encoded ++ (field_text v ++ b',' ∷ [])) l.1 (rw next h.1)
      ∙ ap some (
          append_assoc encoded (field_text v ++ b',' ∷ []) (commas vs)
          ∙ ap (λ s. encoded ++ s) (append_assoc (field_text v) (b',' ∷ []) (commas vs))))

end_line-append : (s : List ℕ) (x : ℕ) → end_line (s ++ x ∷ []) ≡ some (s ++ 10 ∷ [])
unfolding end_line
end_line-append [] x = refl
end_line-append (c ∷ []) x = refl
end_line-append (c ∷ d ∷ s) x = rw (end_line-append (d ∷ s) x) refl

commas-line :
    (v : FieldValue) (vs : List FieldValue) → commas (v ∷ vs) ≡ line_text (v ∷ vs) ++ b',' ∷ []
unfolding commas line_text
commas-line v [] = refl
commas-line v (w ∷ vs) =
    rw (commas-line w vs)
      (sym (append_assoc (field_text v) (b',' ∷ line_text (w ∷ vs)) (b',' ∷ [])))

digits-IsPlainText : (s : List ℕ) → is_all_digits s (length s) ≡ true → IsPlainText s
unfolding is_all_digits is_digit
digits-IsPlainText [] h = tt
digits-IsPlainText (c ∷ s) h =
    (ground arith, ground arith, ground arith, digits-IsPlainText s (ground arith))

pub field_text-IsPlainText :
    (f : Format) (v : FieldValue) → IsWritable f v → IsPlainText (field_text v)
field_text-IsPlainText Format.number (num n) h = digits-IsPlainText _ (to_string-is_all_digits n)
field_text-IsPlainText Format.number (chars s) h = absurd h
field_text-IsPlainText Format.text (num n) h = absurd h
field_text-IsPlainText Format.text (chars s) h = h.0
field_text-IsPlainText Format.skipped v h = absurd h

read_text-plain : (s : List ℕ) → IsPlainText s → read_text 0 s ≡ s
unfolding read_text
read_text-plain [] h = refl
read_text-plain (zero ∷ s) h = absurd (h.0 refl)
read_text-plain (suc c ∷ s) h = ap (λ r. suc c ∷ r) (read_text-plain s h.3)

-- The line ends behind a field, or has a comma there.
abbrev EndsField : List ℕ → Type 0
EndsField [] = Unit {0}
EndsField (c ∷ s) = c ≡ b','

before_comma-field :
    (t rest : List ℕ) → IsPlainText t → EndsField rest → before_comma (t ++ rest) ≡ t
unfolding before_comma
before_comma-field [] [] p h = refl
before_comma-field [] (c ∷ rest) p h = ground arith
before_comma-field (c ∷ t) rest p h = ground (arith, p.1, before_comma-field t rest p.3 h)

next_field-at :
    (line pre t rest : List ℕ) (pos : ℕ)
    → line ≡ pre ++ (t ++ rest)
    → pos ≡ length pre
    → IsPlainText t
    → EndsField rest
    → next_field line pos ≡ some (t, pos + length t + 1)
unfolding next_field
next_field-at line pre t rest pos e h p ends =
    let inside : ltb (length line) pos ≡ false =
      ground (arith, ap length e, length-append pre (t ++ rest)) in
    let found : before_comma (drop pos line) ≡ t =
      rw (e, h)
        (ap before_comma (drop_append pre (t ++ rest)) ∙ before_comma-field t rest p ends) in
    rw (inside, found) refl

-- What the fields of a row leave behind.
pub record IsRowKept (cs : List Column) (vs : List FieldValue) (addr : ℕ) (mem after : List ℕ)
    : Type 0 where
  pub values : HasRow cs vs after addr
  pub same_length : length after ≡ length mem
  pub outside :
      (i : ℕ) → (i < addr) ⊎ (addr + row_width cs ≤ i) → get_elem? after i ≡ get_elem? mem i

-- A field, and then the others behind it.
join-IsRowKept :
    (c : Column) (cs : List Column) (v : FieldValue) (vs : List FieldValue) (addr : ℕ)
    (mem mid after : List ℕ)
    → IsKept (format c) v addr mem mid
    → IsRowKept cs vs (addr + width (format c)) mid after
    → IsRowKept (c ∷ cs) (v ∷ vs) addr mem after
join-IsRowKept c cs v vs addr mem mid after k r = record {
  values = (
    HasValue-Agree (format c) v addr mid after (λ j lt. r.outside (addr + j) (omega arith)) k.value,
    r.values,
  );
  same_length = r.same_length ∙ k.same_length;
  outside = λ i p. r.outside i (omega arith) ∙ k.outside i (omega arith);
}

entry_step-field :
    (c : Column) (v : FieldValue) (line pre rest : List ℕ) (cur : Cursor)
    → line ≡ pre ++ (field_text v ++ rest)
    → cur.pos ≡ length pre
    → EndsField rest
    → IsWritable (format c) v
    → cur.p_data + width (format c) ≤ length cur.mem
    → (after : List ℕ) × (entry_step line c cur
        ≡ some (record {
          mem = after;
          p_data = cur.p_data + width (format c);
          pos = cur.pos + length (field_text v) + 1;
        }))
      × IsKept (format c) v cur.p_data cur.mem after
unfolding entry_field
entry_step-field c v line pre rest cur e at ends w fits =
    let plain = field_text-IsPlainText (format c) v w in
    let field = next_field-at line pre (field_text v) rest cur.pos e at plain ends in
    let (after, stored, k) =
      store_field-IsKept c v (record cur { pos = cur.pos + length (field_text v) + 1 }) w fits in
    (after, rw field (rw (read_text-plain (field_text v) plain, stored) refl), k)

nothing-IsRowKept : (addr : ℕ) (mem : List ℕ) → IsRowKept [] [] addr mem mem
nothing-IsRowKept addr mem = record { values = tt; same_length = refl; outside = λ i p. refl }

pub entry_row :
    (cs : List Column) (vs : List FieldValue) (line pre : List ℕ) (cur : Cursor)
    → line ≡ pre ++ line_text vs
    → cur.pos ≡ length pre
    → AreWritable cs vs
    → cur.p_data + row_width cs ≤ length cur.mem
    → (after : List ℕ) × (end pos : ℕ) × (end ≡ cur.p_data + row_width cs)
      × (visit (entry_step line) cs cur ≡ some (record { mem = after; p_data = end; pos = pos }))
      × IsRowKept cs vs cur.p_data cur.mem after
unfolding visit line_text
entry_row [] [] line pre cur e at w fits =
    (cur.mem, cur.p_data, cur.pos, omega arith, refl, nothing-IsRowKept cur.p_data cur.mem)
entry_row [] (v ∷ vs) line pre cur e at w fits = absurd w
entry_row (c ∷ cs) [] line pre cur e at w fits = absurd w
entry_row (c ∷ []) (v ∷ []) line pre cur e at w fits =
    let (after, found, k) =
      entry_step-field c v line pre [] cur
        (e ∙ ap (λ s. pre ++ s) (sym (append-nil (field_text v)))) at tt w.0 (omega arith) in
    (
      after,
      cur.p_data + width (format c),
      cur.pos + length (field_text v) + 1,
      omega arith,
      rw found refl,
      join-IsRowKept c [] v [] cur.p_data cur.mem after after k
          (nothing-IsRowKept (cur.p_data + width (format c)) after),
    )
entry_row (c ∷ d ∷ cs) (v ∷ []) line pre cur e at w fits = absurd w.1
entry_row (c ∷ []) (v ∷ x ∷ vs) line pre cur e at w fits = absurd w.1
entry_row (c ∷ d ∷ cs) (v ∷ x ∷ vs) line pre cur e at w fits =
    let text = field_text v ++ b',' ∷ [] in
    let (mid, found, k) =
      entry_step-field c v line pre (b',' ∷ line_text (x ∷ vs)) cur e at refl w.0 (omega arith) in
    let next : Cursor = record {
      mem = mid;
      p_data = cur.p_data + width (format c);
      pos = cur.pos + length (field_text v) + 1;
    } in
    let (after, end, pos, stop, rest, r) =
      entry_row (d ∷ cs) (x ∷ vs) line (pre ++ text) next
        (e
          ∙ sym (
              append_assoc pre text (line_text (x ∷ vs))
              ∙ ap (λ s. pre ++ s) (append_assoc (field_text v) (b',' ∷ []) (line_text (x ∷ vs)))))
        (omega (arith, at, length-append pre text, length-append (field_text v) (b',' ∷ []))) w.1
        (omega (arith, k.same_length)) in
    (
      after,
      end,
      pos,
      omega (arith, stop),
      rw found rest,
      join-IsRowKept c (d ∷ cs) v (x ∷ vs) cur.p_data cur.mem mid after k r,
    )

-- The line of a row that has a column.
pub encode_row :
    (c : Column) (cs : List Column) (vs : List FieldValue) (p_data : ℕ) (mem : List ℕ)
    → AreLaid (c ∷ cs) 0
    → HasRow (c ∷ cs) vs mem p_data
    → (visit (write_step p_data mem) (c ∷ cs) [] >>= end_line) ≡ some (line_text vs ++ 10 ∷ [])
encode_row c cs [] p_data mem l h = absurd h
encode_row c cs (v ∷ vs) p_data mem l h =
    let at : p_data + 0 ≡ p_data = omega arith in
    rw (write_row (c ∷ cs) (v ∷ vs) p_data 0 mem [] l (rw at h))
      (rw (commas-line v vs) (end_line-append (line_text (v ∷ vs)) b','))
