-- ===== src/Fun/Parameters/Meant.antt =====
-- Which parameter lists `UniqueRandomFunc::process` accepts, and what it reads from them.
use litealigndata.Prelude.{◌≡◌, Option, none, some, List}
use litealigndata.Fun.Parameters.{Parameter, UniqueFields}
use litealigndata.Fun.Parameters.Meaning.{AreMeant, Setting, setting, last_of}

-- All settings have what the parameters say.
abbrev AllSet : List Parameter → UniqueFields → UniqueFields → Type 0
AllSet params f g = (k : Setting) → setting k g.settings ≡ last_of k params (setting k f.settings)

record ReadsAll (params : List Parameter) (f : UniqueFields) (o : Option UniqueFields)
    : Type 0 where
  accepts : AreMeant params → (g : UniqueFields) × (o ≡ some g) × AllSet params f g
  refuses : (AreMeant params → ⊥) → o ≡ none
