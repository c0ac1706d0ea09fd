-- ===== src/Com/Types/Tables.antt =====
-- The tables agree with one another.
use litealigndata.Prelude.{◌≡◌, ◌≢◌, refl}
use litealigndata.Com.Tags.Auto.{AutoType, auto_string}
use litealigndata.Com.Types.{
  GenericType, convert_auto_type, find_nameautotype, find_nametype_len, find_namelen,
}

-- For every data type but the marks of a head, a body and the end: its name in the XML table finds
-- that type in the table of lengths too, and the length found by the name is the one found by the
-- type.
pub find_nameautotype-auto_string :
    (t : AutoType)
    → t ≢ AutoType.head
    → t ≢ AutoType.body
    → t ≢ AutoType.max
    → (find_nameautotype (auto_string t) ≡ t) × (find_nametype_len (auto_string t) ≡ find_namelen t)
unfolding find_nameautotype find_nametype_len find_namelen auto_string
find_nameautotype-auto_string AutoType.head h b m = absurd (h refl)
find_nameautotype-auto_string AutoType.body h b m = absurd (b refl)
find_nameautotype-auto_string AutoType.max h b m = absurd (m refl)
find_nameautotype-auto_string _ h b m = (refl, refl)

-- No data type converts to the generic byte array.
pub convert_auto_type-ne-byte_array : (t : AutoType) → convert_auto_type t ≢ GenericType.byte_array
unfolding convert_auto_type
convert_auto_type-ne-byte_array AutoType.invalid = λ e. cc
convert_auto_type-ne-byte_array _ = λ e. cc
