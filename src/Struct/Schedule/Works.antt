-- ===== src/Struct/Schedule/Works.antt =====
-- Steps that leave no table behind that could be produced, and their composition.
use mathlib.Core.List.{Memᴰ}
use mathlib.Core.List.Memᴰ
use litealigndata.Prelude.{
  ℕ, ◌≡◌, refl, arith, Bool, true, false, Bool-cases, inl, inr, Option, some, List, [], ◌∷◌,
  if◌then◌else◌,
}
use litealigndata.Struct.Schedule.{Tables, World, is_done, all_done, and_then}
use litealigndata.Struct.Schedule.Progress.{Progress, refl-Progress, trans-Progress}
use litealigndata.Struct.Schedule.Plan.{IsRound}

-- A table that could be produced, and is not.
abbrev pub IsLeft : Tables → World → ℕ → Type 0
IsLeft ts w k = (all_done w (ts.dep_tables k) ≡ true) × (is_done (w.status k) ≡ false)

pub newly_done :
    (w v : World) (ds : List ℕ)
    → all_done v ds ≡ true
    → all_done w ds ≡ false
    → (d : ℕ) × Memᴰ d ds × (is_done (w.status d) ≡ false) × (is_done (v.status d) ≡ true)
unfolding all_done
newly_done w v [] h g = cc
newly_done w v (d ∷ rest) h g = elim (Bool-cases (is_done (w.status d))) [
  | inl e ↦
      let (k, m, n, y) = newly_done w v rest (ground arith) (ground arith) in (k, Memᴰ.tail m, n, y)
  | inr e ↦ (d, Memᴰ.head refl, e, ground arith)
]

-- A step that succeeds from `w`: the round goes on, and a table left behind was left before and is
-- none of `us`.
pub record Works (ts : Tables) (tables : List ℕ) (n : ℕ) (w : World) (us : List ℕ)
    (o : Option (Bool × World)) : Type 0 where
  pub after : World
  pub gives : o ≡ some (true, after)
  pub round : IsRound ts tables n after
  pub progress : Progress ts w after
  pub cleared : (k : ℕ) → Memᴰ k tables → IsLeft ts after k → IsLeft ts w k × (Memᴰ k us → ⊥)

module _ {ts : Tables} {tables : List ℕ} {n : ℕ} where
  pub none-Works : (w : World) → IsRound ts tables n w → Works ts tables n w [] (some (true, w))
  none-Works w r = record {
    after = w;
    gives = refl;
    round = r;
    progress = refl-Progress ts w r.ordered;
    cleared = λ k h l. (l, λ m. elim m [ ]);
  }

  pub if-Works :
      {w : World} {us : List ℕ} (b : Bool) (x y : Option (Bool × World))
      → b ≡ true
      → Works ts tables n w us x
      → Works ts tables n w us (if b then x else y)
  if-Works true x y e a = a
  if-Works false x y e a = cc

  pub either-Works :
      {w : World} {us : List ℕ} (b : Bool) (x y : Option (Bool × World))
      → (b ≡ true → Works ts tables n w us x)
      → (b ≡ false → Works ts tables n w us y)
      → Works ts tables n w us (if b then x else y)
  either-Works true x y h g = h refl
  either-Works false x y h g = g refl

  pub and_then-Works :
      (w : World) (u : ℕ) (us : List ℕ) (o : Option (Bool × World))
      (k : World → Option (Bool × World))
      → Works ts tables n w (u ∷ []) o
      → ((v : World) → IsRound ts tables n v → Works ts tables n v us (k v))
      → Works ts tables n w (u ∷ us) (and_then o k)
  unfolding and_then
  and_then-Works w u us o k a b =
      let c = b a.after a.round in
      record {
        after = c.after;
        gives = rw a.gives c.gives;
        round = c.round;
        progress = trans-Progress ts w a.after c.after a.progress c.progress;
        cleared = λ j h l.
            let (left, out) = c.cleared j h l in
            let (before, other) = a.cleared j h left in
            (
              before,
              λ m. elim (Memᴰ.cases_cons m) [ inl e ↦ other (Memᴰ.head e) | inr m' ↦ out m' ],
            );
      }
