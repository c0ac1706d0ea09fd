-- ===== src/Fun/UniqueRandom/Conservation.antt =====
-- What the pools hold, and what the draws take out of them.
use mathlib.Core.List.{Perm, append-nil, perm_middle}
use mathlib.Core.List.Perm
use litealigndata.Prelude.{ℕ, ◌≡◌, refl, ◌⊎◌, inl, inr, Bool, true, false, List, [], ◌∷◌, ◌++◌}
use litealigndata.Fun.UniqueRandom.{Settings, Pools, pop_uniq, swap_dup, pop_dup, pick, pick_from}

-- All the numbers in the pools.
abbrev pub contents : Pools → List ℕ
contents s = s.uniq_pool ++ (s.dup_pool₀ ++ s.dup_pool₁)

-- A draw takes one number out of the contents, and has none, so gives 0, only from no contents.
pub record Takes (s : Pools) (r : Pools × ℕ) : Type 0 where
  pub taken : Perm (contents s) (r.1 ∷ contents r.0) ⊎ ((contents s ≡ []) × (r.1 ≡ 0))

module _ (last row : ℕ) where
  pools : List ℕ → List ℕ → List ℕ → Pools
  pools u d e = record {
    last_number = last;
    row_idx = row;
    uniq_pool = u;
    dup_pool₀ = d;
    dup_pool₁ = e;
  }

  pick_from-Takes : (b : Bool) (u d e : List ℕ) → Takes (pools u d e) (pick_from b (pools u d e))
  unfolding pick_from pop_uniq pop_dup swap_dup pools
  pick_from-Takes true (v ∷ u) d e = record { taken = inl (Perm.refl _) }
  pick_from-Takes false u (v ∷ d) e = record { taken = inl (perm_middle u (d ++ e)) }
  pick_from-Takes true [] (v ∷ d) e = record { taken = inl (Perm.refl _) }
  pick_from-Takes false [] [] [] = record { taken = inr (refl, refl) }
  pick_from-Takes true [] [] [] = record { taken = inr (refl, refl) }
  pick_from-Takes false (v ∷ u) [] [] = record { taken = inl (Perm.refl _) }
  pick_from-Takes true [] [] (v ∷ e) = record { taken = inl (rw append-nil (Perm.refl _)) }
  pick_from-Takes false u [] (v ∷ e) = record { taken = inl (rw append-nil (perm_middle u e)) }

-- A row's draw conserves the pools: what they held is the row's number and what they hold after it,
-- whichever pool the number comes from and whether or not the two pools of duplicates are swapped;
-- only from empty pools is there no number, and the row then gets 0.
pub pick-Takes : (p : Settings) (rand : ℕ) (s : Pools) → Takes s (pick p rand s)
unfolding pick pools
pick-Takes p rand s = pick_from-Takes s.last_number s.row_idx _ s.uniq_pool s.dup_pool₀ s.dup_pool₁
