-- ===== src/Com/Text/Fields.antt =====
-- Splitting at a delimiter, trimming, and the references "table[column]" and "table[row][column]".
use litealigndata.Prelude.{
  ℕ, ◌≡◌, ◌≢◌, refl, sym, ap, ◌∙◌, Bool, true, false, List, [], ◌∷◌, ◌++◌, arith, some, ◌==◌,
  if◌then◌else◌,
}
use mathlib.Core.List.{append_assoc, append-nil}
use litealigndata.Com.Text.{
  tokens, split_value, strchr, is_blank, trim_left, trim_right, trim, bracketed,
}

-- Every character satisfies the test.
abbrev pub Every : (ℕ → Bool) → List ℕ → Type 0
Every p [] = Unit {0}
Every p (c ∷ s) = (p c ≡ true) × Every p s

-- The character does not stand in the text.
abbrev pub Free : ℕ → List ℕ → Type 0
Free d s = Every (λ c. if c == d then false else true) s

-- The pieces with the delimiter behind each but the last.
abbrev pub joined : ℕ → List (List ℕ) → List ℕ
joined d [] = []
joined d (p ∷ []) = p
joined d (p ∷ q ∷ ps) = p ++ (d ∷ joined d (q ∷ ps))

-- Pieces that are not empty and hold no delimiter.
abbrev pub ArePieces : ℕ → List (List ℕ) → Type 0
ArePieces d [] = Unit {0}
ArePieces d (p ∷ ps) = (p ≢ []) × Free d p × ArePieces d ps

tokens-piece :
    (d : ℕ) (held p rest : List ℕ)
    → Free d p
    → tokens d held (p ++ rest) ≡ tokens d (held ++ p) rest
unfolding tokens
tokens-piece d held [] rest f = rw append-nil
tokens-piece d [] (c ∷ p) rest f = ground (arith, tokens-piece d (c ∷ []) p rest f.1)
tokens-piece d (h ∷ held) (c ∷ p) rest f =
    ground (arith, tokens-piece d ((h ∷ held) ++ c ∷ []) p rest f.1, append_assoc held (c ∷ []) p)

tokens-end : (d : ℕ) (p : List ℕ) → p ≢ [] → tokens d p [] ≡ p ∷ []
unfolding tokens
tokens-end d [] h = absurd (h refl)
tokens-end d (c ∷ p) h = refl

tokens-delimiter : (d : ℕ) (p rest : List ℕ) → p ≢ [] → tokens d p (d ∷ rest) ≡ p ∷ tokens d [] rest
unfolding tokens
tokens-delimiter d [] rest h = absurd (h refl)
tokens-delimiter d (c ∷ p) rest h = ground arith

tokens-joined : (d : ℕ) (ps : List (List ℕ)) → ArePieces d ps → tokens d [] (joined d ps) ≡ ps
tokens-joined d [] h = unfold tokens in refl
tokens-joined d (p ∷ []) h =
    ap (tokens d []) (sym (append-nil p)) ∙ tokens-piece d [] p [] h.1 ∙ tokens-end d p h.0
tokens-joined d (p ∷ q ∷ ps) h =
    tokens-piece d [] p (d ∷ joined d (q ∷ ps)) h.1
    ∙ tokens-delimiter d p (joined d (q ∷ ps)) h.0
    ∙ ap (◌∷◌ p) (tokens-joined d (q ∷ ps) h.2)

-- Pieces that are not empty and hold no comma, joined by commas, are split into the same pieces
-- again, which stand behind those that the list had, in their order.
pub split_value-joined :
    (ps held : List (List ℕ)) → ArePieces b',' ps → split_value (joined b',' ps) held ≡ held ++ ps
unfolding split_value
split_value-joined ps held h = ap (λ l. held ++ l) (tokens-joined b',' ps h)

pub strchr-found :
    (d : ℕ) (p rest : List ℕ) → Free d p → strchr d (p ++ (d ∷ rest)) ≡ some (p, d ∷ rest)
unfolding strchr
strchr-found d [] rest f = ground arith
strchr-found d (c ∷ p) rest f = ground (arith, strchr-found d p rest f.1)

pub bracketed-found :
    (inside rest : List ℕ)
    → Free b']' inside
    → bracketed (b'[' ∷ inside ++ (b']' ∷ rest)) ≡ some (inside, rest)
unfolding bracketed
bracketed-found inside rest f = rw (strchr-found b']' (b'[' ∷ inside) rest (ground arith, f))

-- Text whose characters are all blank.
abbrev pub Blank : List ℕ → Type 0
Blank = Every is_blank

trim_right-Blank : (w : List ℕ) → Blank w → trim_right w ≡ []
unfolding trim_right
trim_right-Blank [] b = refl
trim_right-Blank (c ∷ w) b = rw (trim_right-Blank w b.1, b.0)

trim_right-end :
    (s w : List ℕ) (d : ℕ) → is_blank d ≡ false → Blank w → trim_right (s ++ (d ∷ w)) ≡ s ++ d ∷ []
unfolding trim_right
trim_right-end [] w d e b = rw (trim_right-Blank w b, e)
trim_right-end (c ∷ []) w d e b = rw (trim_right-end [] w d e b)
trim_right-end (c ∷ c' ∷ s) w d e b = rw (trim_right-end (c' ∷ s) w d e b)

-- A text that begins and ends with something else than a blank loses just the blanks behind it.
pub trim-padded :
    (c : ℕ) (s w : List ℕ) (d : ℕ)
    → is_blank c ≡ false
    → is_blank d ≡ false
    → Blank w
    → trim ((c ∷ s) ++ (d ∷ w)) ≡ (c ∷ s) ++ d ∷ []
unfolding trim trim_left
trim-padded c s w d e f b = rw e (trim_right-end (c ∷ s) w d f b)
