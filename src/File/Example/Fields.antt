-- ===== src/File/Example/Fields.antt =====
-- One field: what is written of a value is stored as that value again.
use litealigndata.Prelude.{
  ℕ, zero, suc, ◌+◌, ◌^◌, ◌≤◌, ◌<◌, ◌≡◌, ◌≢◌, refl, ap, ◌∙◌, ◌⊎◌, arith, some, List, [], ◌∷◌, ◌++◌,
  length, length-append, get_elem?, get_elem?-in_range, ◌==◌, false,
}
use litealigndata.Com.Bytes.{read_le}
use litealigndata.Com.Bytes.Words.{write_le-IsStored}
use litealigndata.Com.Bytes.Blocks.{write_bytes-IsCopied}
use litealigndata.Com.Value.{to_string}
use litealigndata.Com.Value.Decimal.{atol-to_string}
use litealigndata.Struct.Objects.{Column}
use litealigndata.File.Example.{Format, format, c_string, copied_text, write_field}
use litealigndata.File.Example.Reading.{Cursor, store_field}
use litealigndata.File.Example.Flat.{write_step}

pub data FieldValue : Type 0 where
  num : ℕ → FieldValue
  chars : List ℕ → FieldValue

-- Characters other than the terminator, the comma and the line feed.
abbrev pub IsPlainText : List ℕ → Type 0
IsPlainText [] = Unit {0}
IsPlainText (c ∷ s) = (c ≢ 0) × (c ≢ b',') × (c ≢ 10) × IsPlainText s

-- Numbers that `atoll` reads, and texts that fit their column.
abbrev pub IsWritable : Format → FieldValue → Type 0
IsWritable Format.number (num n) = n < 2 ^ 63
IsWritable Format.text (chars s) = IsPlainText s × (length s < 256)
IsWritable _ _ = ⊥

-- The memory holds the value at the address.
abbrev pub HasValue : Format → FieldValue → List ℕ → ℕ → Type 0
HasValue Format.number (num n) mem addr = read_le 8 addr mem ≡ some n
HasValue Format.text (chars s) mem addr = copied_text addr mem ≡ some s
HasValue _ _ mem addr = ⊥

abbrev pub width : Format → ℕ
width Format.number = 8
width Format.text = 256
width Format.skipped = 0

abbrev pub field_text : FieldValue → List ℕ
field_text (num n) = to_string n
field_text (chars s) = s

write_by :
    (c : Column) (f : Format) (v : FieldValue) (p_data : ℕ) (mem encoded : List ℕ)
    → format c ≡ f
    → HasValue f v mem (p_data + c.offset)
    → write_step p_data mem c encoded ≡ some (encoded ++ (field_text v ++ b',' ∷ []))
unfolding write_field
write_by c Format.number (num n) p_data mem encoded e h = rw (e, write_field) (rw h refl)
write_by c Format.number (chars s) p_data mem encoded e h = absurd h
write_by c Format.text (num n) p_data mem encoded e h = absurd h
write_by c Format.text (chars s) p_data mem encoded e h = rw (e, write_field) (rw h refl)
write_by c Format.skipped v p_data mem encoded e h = absurd h

pub write_step-HasValue :
    (c : Column) (v : FieldValue) (p_data : ℕ) (mem encoded : List ℕ)
    → HasValue (format c) v mem (p_data + c.offset)
    → write_step p_data mem c encoded ≡ some (encoded ++ (field_text v ++ b',' ∷ []))
write_step-HasValue c v p_data mem encoded h = write_by c (format c) v p_data mem encoded refl h

-- Two memories with the same bytes from `addr` on.
abbrev pub Agree : ℕ → ℕ → List ℕ → List ℕ → Type 0
Agree addr n mem mem' = (j : ℕ) → j < n → get_elem? mem' (addr + j) ≡ get_elem? mem (addr + j)

Agree-suc :
    (addr n : ℕ) (mem mem' : List ℕ) → Agree addr (suc n) mem mem' → Agree (addr + 1) n mem mem'
Agree-suc addr n mem mem' h j lt =
    let e : addr + 1 + j ≡ addr + suc j = omega arith in rw e (h (suc j) (omega arith))

Agree-head :
    (addr n : ℕ) (mem mem' : List ℕ)
    → Agree addr (suc n) mem mem'
    → get_elem? mem' addr ≡ get_elem? mem addr
Agree-head addr n mem mem' h = let e : addr ≡ addr + 0 = omega arith in rw e (h 0 (omega arith))

read_le-Agree :
    (n addr : ℕ) (mem mem' : List ℕ)
    → Agree addr n mem mem'
    → read_le n addr mem' ≡ read_le n addr mem
unfolding read_le
read_le-Agree zero addr mem mem' h = refl
read_le-Agree (suc n) addr mem mem' h =
    rw
      (
        Agree-head addr n mem mem' h,
        read_le-Agree n (addr + 1) mem mem' (Agree-suc addr n mem mem' h),
      )
      refl

c_string-Agree :
    (n addr : ℕ) (mem mem' : List ℕ)
    → Agree addr n mem mem'
    → c_string n addr mem' ≡ c_string n addr mem
unfolding c_string
c_string-Agree zero addr mem mem' h = refl
c_string-Agree (suc n) addr mem mem' h =
    rw
      (
        Agree-head addr n mem mem' h,
        c_string-Agree n (addr + 1) mem mem' (Agree-suc addr n mem mem' h),
      )
      refl

pub HasValue-Agree :
    (f : Format) (v : FieldValue) (addr : ℕ) (mem mem' : List ℕ)
    → Agree addr (width f) mem mem'
    → HasValue f v mem addr
    → HasValue f v mem' addr
unfolding copied_text
HasValue-Agree Format.number (num n) addr mem mem' a h = read_le-Agree 8 addr mem mem' a ∙ h
HasValue-Agree Format.number (chars s) addr mem mem' a h = h
HasValue-Agree Format.text (num n) addr mem mem' a h = h
HasValue-Agree Format.text (chars s) addr mem mem' a h =
    rw (a 255 (omega arith), c_string-Agree 256 addr mem mem' a) h
HasValue-Agree Format.skipped v addr mem mem' a h = h

-- A text that stands in memory with its terminator is read.
c_string-placed :
    (s : List ℕ) (room addr : ℕ) (mem : List ℕ)
    → IsPlainText s
    → length s < room
    → ((j : ℕ) → j < length s + 1 → get_elem? mem (addr + j) ≡ get_elem? (s ++ 0 ∷ []) j)
    → c_string room addr mem ≡ some s
unfolding c_string
c_string-placed s zero addr mem p h at = absurd (omega arith)
c_string-placed [] (suc room) addr mem p h at =
    let e : addr ≡ addr + 0 = omega arith in
    let here : get_elem? mem addr ≡ some 0 = rw e (at 0 (omega arith)) in rw here refl
c_string-placed (c ∷ s) (suc room) addr mem p h at =
    let e : addr ≡ addr + 0 = omega arith in
    let here : get_elem? mem addr ≡ some c = rw e (at 0 (omega arith)) in
    let other : c == 0 ≡ false = ground (arith, p.0) in
    let rest : c_string room (addr + 1) mem ≡ some s =
      c_string-placed s room (addr + 1) mem p.3 (omega arith) (λ j lt.
        let f : addr + 1 + j ≡ addr + suc j = omega arith in rw f (at (suc j) (omega arith))) in
    rw (here, other, rest) refl

-- What a field leaves behind: the value, and the same bytes elsewhere.
pub record IsKept (f : Format) (v : FieldValue) (addr : ℕ) (mem after : List ℕ) : Type 0 where
  pub value : HasValue f v after addr
  pub same_length : length after ≡ length mem
  pub outside : (i : ℕ) → (i < addr) ⊎ (addr + width f ≤ i) → get_elem? after i ≡ get_elem? mem i

store_by :
    (c : Column) (f : Format) (v : FieldValue) (cur : Cursor)
    → format c ≡ f
    → IsWritable f v
    → cur.p_data + width f ≤ length cur.mem
    → (after : List ℕ) × (store_field c (field_text v) cur
        ≡ some (record cur { mem = after; p_data = cur.p_data + width f }))
      × IsKept f v cur.p_data cur.mem after
unfolding store_field
store_by c Format.number (num n) cur e w fits =
    let (after, stored, s) = write_le-IsStored 8 cur.p_data n cur.mem fits in
    (
      after,
      rw (e, store_field) (rw (atol-to_string n w, stored) refl),
      record {
        value = s.loads ∙ ap some (omega arith);
        same_length = s.same_length;
        outside = s.outside;
      },
    )
store_by c Format.number (chars s) cur e w fits = absurd w
store_by c Format.text (num n) cur e w fits = absurd w
store_by c Format.text (chars s) cur e w fits =
    let size = length-append s (0 ∷ []) in
    let (after, stored, k) =
      write_bytes-IsCopied cur.p_data (s ++ 0 ∷ []) cur.mem (omega (arith, size)) in
    let (last, found) =
      get_elem?-in_range after (cur.p_data + 255) (omega (arith, k.same_length)) in
    (
      after,
      rw (e, store_field) (rw stored refl),
      record {
        value =
            unfold copied_text in
            rw found (
              c_string-placed s 256 cur.p_data after w.0 w.1
                (λ j lt. k.inside j (omega (arith, size))));
        same_length = k.same_length;
        outside = λ i p. k.outside i (omega (arith, size));
      },
    )
store_by c Format.skipped v cur e w fits = absurd w

pub store_field-IsKept :
    (c : Column) (v : FieldValue) (cur : Cursor)
    → IsWritable (format c) v
    → cur.p_data + width (format c) ≤ length cur.mem
    → (after : List ℕ) × (store_field c (field_text v) cur
        ≡ some (record cur { mem = after; p_data = cur.p_data + width (format c) }))
      × IsKept (format c) v cur.p_data cur.mem after
store_field-IsKept c v cur w fits = store_by c (format c) v cur refl w fits
