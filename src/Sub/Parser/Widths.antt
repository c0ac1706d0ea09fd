-- ===== src/Sub/Parser/Widths.antt =====
-- The width of a column, in the name table and in the example format.
use mathlib.Core.Path.{subst}
use litealigndata.Prelude.{
  ℕ, ◌≡◌, ◌≢◌, refl, arith, true, false, Bool, Bool-cases, inl, inr, Option, none, some, List, [],
  ◌∷◌, same, ◌==◌, if◌then◌else◌,
}
use litealigndata.Com.Tags.Auto.{AutoType}
use litealigndata.Com.Types.{
  NameType, nametype, find_entry, find_nametype, find_nametype_len, find_nameautotype,
}
use litealigndata.Struct.Objects.{Column}
use litealigndata.File.Example.{Format, format, format_of}
use litealigndata.File.Example.Fields.{width}

-- An entry of the name table gives a type the width that the format gives it.
fits : Format → ℕ → Bool
fits Format.skipped len = true
fits Format.number len = 8 == len
fits Format.text len = 256 == len

all_fit : List NameType → Bool
all_fit [] = true
all_fit (e ∷ es) = if fits (format_of e.type) e.len then all_fit es else false

nametype-fits : all_fit nametype ≡ true
unfolding nametype format_of all_fit fits
nametype-fits = refl

fits-width : (f : Format) (len : ℕ) → f ≢ Format.skipped → fits f len ≡ true → width f ≡ len
unfolding fits
fits-width Format.skipped len h e = absurd (h refl)
fits-width Format.number len h e = ground arith
fits-width Format.text len h e = ground arith

found_width :
    (es : List NameType) (name : List ℕ) (e : NameType)
    → all_fit es ≡ true
    → find_entry es name ≡ some e
    → format_of e.type ≢ Format.skipped
    → width (format_of e.type) ≡ e.len
unfolding find_entry all_fit
found_width [] name e h found field = cc
found_width (x ∷ es) name e h found field = elim (Bool-cases (fits (format_of x.type) x.len)) [
  | inr none_fits ↦ cc
  | inl x_fits ↦ elim (Bool-cases (same name x.name)) [
    | inl here ↦
        let it : some x ≡ some e = rw here at found in
        let is_x : x ≡ e = cc in
        fits-width (format_of e.type) e.len field
          (subst (λ y. fits (format_of y.type) y.len ≡ true) is_x x_fits)
    | inr elsewhere ↦ found_width es name e (rw x_fits at h) (rw elsewhere at found) field
  ]
]

entry_width :
    (o : Option NameType)
    → ((e : NameType)
        → o ≡ some e
        → format_of e.type ≢ Format.skipped
        → width (format_of e.type) ≡ e.len)
    → format_of (elim o [ none ↦ AutoType.invalid | some e ↦ e.type ]) ≢ Format.skipped
    → width (format_of (elim o [ none ↦ AutoType.invalid | some e ↦ e.type ]))
      ≡ elim o [ none ↦ 0 | some e ↦ e.len ]
unfolding format_of
entry_width none h field = refl
entry_width (some e) h field = h e refl field

pub column_width :
    (c : Column) → format c ≢ Format.skipped → width (format c) ≡ find_nametype_len c.type
unfolding format find_nametype_len find_nameautotype find_nametype
column_width c field =
    entry_width (find_entry nametype c.type)
      (λ e found written. found_width nametype c.type e nametype-fits found written) field
