-- ===== src/Prelude/Orders.antt =====
-- Lists up to their order.
use mathlib.Core.Path.{◌≡◌}
use mathlib.Core.List.{List, [], ◌∷◌, Perm}
use mathlib.Core.List.Perm
use mathlib.Core.Option.{some}
use Prim.Native.Nat.{ℕ, zero, suc}
use litealigndata.Prelude.Lists.{get_elem?, set}

-- A write exchanges the old value for the new one.
pub set-Perm {ℓ} :
    {A : Type ℓ} (xs : List A) (i : ℕ) (x v : A)
    → get_elem? xs i ≡ some x
    → Perm (x ∷ set xs i v) (v ∷ xs)
set-Perm [] i x v h = cc
set-Perm (y ∷ xs) zero x v h =
    Perm.trans (Perm.swap v x xs) (Perm.cons v (Perm.cons' same (Perm.refl xs)))
  where
    same : x ≡ y
    same = cc
set-Perm (y ∷ xs) (suc i) x v h =
    Perm.trans (Perm.swap y x _) (Perm.trans (Perm.cons y (set-Perm xs i x v h)) (Perm.swap v y xs))
