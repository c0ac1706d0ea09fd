-- ===== src/Fun/Parameters/Meaning.antt =====
-- What the parameters of `UniqueRandomFunc` are meant to be, and the settings that they name.
use litealigndata.Prelude.{ℕ, ◌^◌, ◌≤◌, ◌<◌, ◌≢◌, Bool, true, false, List, [], ◌∷◌, if◌then◌else◌}
use litealigndata.Com.Text.{is_digit}
use litealigndata.Com.Text.Fields.{Every}
use litealigndata.Com.Text.Numbers.{number_of}
use litealigndata.Com.Tags.Para.{ParameterTag, para_of_string}
use litealigndata.Fun.UniqueRandom.{Settings}
use litealigndata.Fun.Parameters.{Parameter}

-- What the text of a parameter is meant to be.
pub data Meaning : Type 0 where
  number share free unknown : Meaning

abbrev pub meaning : ParameterTag → Meaning
meaning ParameterTag.invalid = Meaning.unknown
meaning ParameterTag.low_range = Meaning.number
meaning ParameterTag.high_range = Meaning.number
meaning ParameterTag.imsitype = Meaning.number
meaning ParameterTag.rows_in_batch = Meaning.number
meaning ParameterTag.percent = Meaning.share
meaning ParameterTag.percent_in_batch = Meaning.share
meaning _ = Meaning.free

-- Digits, which stand for at most 100 for a share in percent.
abbrev pub IsMeant : Meaning → List ℕ → Type 0
IsMeant Meaning.number s = Every is_digit s
IsMeant Meaning.share s = Every is_digit s × (number_of 0 s ≤ 100)
IsMeant Meaning.free s = Unit {0}
IsMeant Meaning.unknown s = ⊥

abbrev pub AreMeant : List Parameter → Type 0
AreMeant [] = Unit {0}
AreMeant (p ∷ rest) =
    (p.value ≢ []) × IsMeant (meaning (para_of_string p.name)) p.value × AreMeant rest

-- The numbers fit the types that they are read into, and the right alignment is not set.
abbrev pub IsFitting : ParameterTag → List ℕ → Type 0
IsFitting ParameterTag.low_range s = Every is_digit s → number_of 0 s < 2 ^ 63
IsFitting ParameterTag.high_range s = Every is_digit s → number_of 0 s < 2 ^ 63
IsFitting ParameterTag.rows_in_batch s = Every is_digit s → number_of 0 s < 2 ^ 32
IsFitting ParameterTag.percent s = Every is_digit s → number_of 0 s < 2 ^ 8
IsFitting ParameterTag.percent_in_batch s = Every is_digit s → number_of 0 s < 2 ^ 8
IsFitting ParameterTag.byte_array_right_align s = ⊥
IsFitting _ s = Unit {0}

abbrev pub AreFitting : List Parameter → Type 0
AreFitting [] = Unit {0}
AreFitting (p ∷ rest) = IsFitting (para_of_string p.name) p.value × AreFitting rest

pub data Setting : Type 0 where
  low high percent percent_in_batch rows_in_batch : Setting

abbrev pub setting : Setting → Settings → ℕ
setting Setting.low s = s.low_range
setting Setting.high s = s.high_range
setting Setting.percent s = s.percent
setting Setting.percent_in_batch s = s.percent_in_batch
setting Setting.rows_in_batch s = s.rows_in_batch

abbrev pub is_named : Setting → ParameterTag → Bool
is_named Setting.low ParameterTag.low_range = true
is_named Setting.high ParameterTag.high_range = true
is_named Setting.percent ParameterTag.percent = true
is_named Setting.percent_in_batch ParameterTag.percent_in_batch = true
is_named Setting.rows_in_batch ParameterTag.rows_in_batch = true
is_named _ _ = false

-- The number of the last parameter that names the setting, or the one from before.
abbrev pub last_of : Setting → List Parameter → ℕ → ℕ
last_of k [] old = old
last_of k (p ∷ rest) old =
    last_of k rest (if is_named k (para_of_string p.name) then number_of 0 p.value else old)
