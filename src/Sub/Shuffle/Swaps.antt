-- ===== src/Sub/Shuffle/Swaps.antt =====
-- The exchange by exclusive ors, and the second loop: the lines are written in some order.
use mathlib.Core.List.{Perm}
use mathlib.Core.List.Perm
use Prim.Native.Nat.{bit_xor}
use litealigndata.Prelude.{
  ℕ, zero, suc, ◌+◌, ◌-◌, ◌%◌, ◌≤◌, ◌<◌, ◌≡◌, ◌≢◌, refl, sym, ap, ◌∙◌, inl, inr, arith, ltb, ◌==◌,
  lt→ltb, Bool-cases, none, some, List, [], ◌∷◌, ◌++◌, map, not, ◌&&◌, if◌then◌else◌, length,
  get_elem?, set, drop, length-set, get_elem?-set_self, get_elem?-set_ne, get_elem?-in_range,
  set-Perm,
}
use litealigndata.Sub.Shuffle.{LineData, line_bytes, xor_swap, write_lines}
use litealigndata.Sub.Shuffle.Xor.{xor_cancel}

-- Every entry is the number of a line.
abbrev pub AreBelow : ℕ → List ℕ → Type 0
AreBelow n a = (j l : ℕ) → get_elem? a j ≡ some l → l < n

-- `b` is `a` in another order from the entry `i` on.
pub record IsReordered (i n : ℕ) (a b : List ℕ) : Type 0 where
  pub perm : Perm b a
  pub same_length : length b ≡ length a
  pub before : (j : ℕ) → j < i → get_elem? b j ≡ get_elem? a j
  pub below : AreBelow n b

set-below :
    (n : ℕ) (a : List ℕ) (i v j l : ℕ)
    → v < n
    → (i ≢ j → get_elem? a j ≡ some l → l < n)
    → get_elem? (set a i v) j ≡ some l
    → l < n
set-below n [] i v j l small h e = cc
set-below n (x ∷ a) zero v zero l small h e = ground arith
set-below n (x ∷ a) zero v (suc j) l small h e = h (λ q. absurd (omega arith)) e
set-below n (x ∷ a) (suc i) v zero l small h e = h (λ q. absurd (omega arith)) e
set-below n (x ∷ a) (suc i) v (suc j) l small h e =
    set-below n a i v j l small (λ ne. h (λ q. ne (omega arith))) e

-- The exchange of two different entries succeeds, and is an exchange.
xor_swap-IsReordered :
    (n i index : ℕ) (a : List ℕ)
    → i ≤ index
    → index ≢ i
    → index < length a
    → AreBelow n a
    → (b : List ℕ) × (xor_swap index i a ≡ some b) × IsReordered i n a b
unfolding xor_swap
xor_swap-IsReordered n i index a le ne inside h =
    let (p, ep) = get_elem?-in_range a index inside in
    let (q, eq) = get_elem?-in_range a i (omega arith) in
    let f = bit_xor p q in
    let a₁ = set a index f in
    let a₂ = set a₁ i p in
    let b = set a₂ index q in
    let e₁ : get_elem? a₁ i ≡ some q = get_elem?-set_ne a index i f ne ∙ eq in
    let e₂ : get_elem? a₂ index ≡ some f =
      get_elem?-set_ne a₁ i index p (λ e. ne (sym e)) ∙ get_elem?-set_self a index f inside in
    (
      b,
      rw (ep, eq) (rw ((xor_cancel p q).0, (xor_cancel p q).1) refl),
      record {
        perm = Perm.cons_inv (
            Perm.trans (set-Perm a₂ index f q e₂)
              (Perm.trans (set-Perm a₁ i q p e₁) (set-Perm a index p f ep)));
        same_length = length-set a₂ index q ∙ length-set a₁ i p ∙ length-set a index f;
        before = λ j lt.
            get_elem?-set_ne a₂ index j q (omega arith)
            ∙ get_elem?-set_ne a₁ i j p (omega arith)
            ∙ get_elem?-set_ne a index j f (omega arith);
        below = λ j l e.
            set-below n a₂ index q j l (h i q eq)
              (λ off.
                set-below n a₁ i p j l (h index p ep)
                  (λ _ e'. h j l (sym (get_elem?-set_ne a index j f off) ∙ e')))
              e;
      },
    )

abbrev pub concat : List (List ℕ) → List ℕ
concat [] = []
concat (x ∷ xs) = x ++ concat xs

-- The bytes of a line by its number.
pub line_at : List ℕ → List LineData → ℕ → List ℕ
line_at file lines l = elim (get_elem? lines l) [ none ↦ [] | some line ↦ line_bytes file line ]

pub line_at-found :
    (file : List ℕ) (lines : List LineData) (l : ℕ) (line : LineData)
    → get_elem? lines l ≡ some line
    → line_at file lines l ≡ line_bytes file line
unfolding line_at
line_at-found file lines l line e = rw (e, line_at) refl

drop-all : (a : List ℕ) (i : ℕ) → length a ≡ i → drop i a ≡ []
drop-all [] zero e = refl
drop-all [] (suc i) e = refl
drop-all (x ∷ a) zero e = absurd (omega arith)
drop-all (x ∷ a) (suc i) e = drop-all a i (omega arith)

drop-get : (a : List ℕ) (i x : ℕ) → get_elem? a i ≡ some x → drop i a ≡ x ∷ drop (suc i) a
drop-get [] i x e = cc
drop-get (y ∷ a) zero x e = cc
drop-get (y ∷ a) (suc i) x e = drop-get a i x e

IsReordered-refl : (i n : ℕ) (a : List ℕ) → AreBelow n a → IsReordered i n a a
IsReordered-refl i n a h = record {
  perm = Perm.refl a;
  same_length = refl;
  before = λ j lt. refl;
  below = h;
}

IsReordered-trans :
    {i n : ℕ} {a b c : List ℕ}
    → IsReordered i n a b
    → IsReordered (suc i) n b c
    → IsReordered i n a c
IsReordered-trans r s = record {
  perm = Perm.trans s.perm r.perm;
  same_length = s.same_length ∙ r.same_length;
  before = λ j lt. s.before j (omega arith) ∙ r.before j lt;
  below = s.below;
}

-- The exchange that the loop makes for a draw.
moved-IsReordered :
    (n i left d : ℕ) (a : List ℕ)
    → length a ≡ i + suc left
    → AreBelow n a
    → let index = d % (i + suc left - i) + i in
      (b : List ℕ) × ((if not (index == i) && ltb index (i + suc left)
          then xor_swap index i a
          else some a)
        ≡ some b)
      × IsReordered i n a b
moved-IsReordered n i left d a size h =
    let index = d % (i + suc left - i) + i in
    let inside : index < i + suc left = omega arith in
    elim (Bool-cases (index == i)) [
      | inl e ↦ (a, rw e refl, IsReordered-refl i n a h)
      | inr e ↦
          let (b, swapped, r) =
            xor_swap-IsReordered n i index a (omega arith) (ground arith) (omega arith) h in
          (b, rw (e, lt→ltb index (i + suc left) inside) swapped, r)
    ]

pub write_lines-order :
    (file : List ℕ) (lines : List LineData) (draw : ℕ → ℕ) (i left : ℕ) (a : List ℕ)
    → length a ≡ i + left
    → AreBelow (length lines) a
    → (b : List ℕ) × (write_lines i left draw file lines a
        ≡ some (concat (map (line_at file lines) (drop i b))))
      × IsReordered i (length lines) a b
unfolding write_lines
write_lines-order file lines draw i zero a size h =
    (a, rw (drop-all a i (omega arith)) refl, IsReordered-refl i (length lines) a h)
write_lines-order file lines draw i (suc left) a size h =
    let (b, moved, r) = moved-IsReordered (length lines) i left (draw i) a size h in
    let (l, el) = get_elem?-in_range b i (omega (arith, r.same_length)) in
    let (line, found) = get_elem?-in_range lines l (r.below i l el) in
    let (c, wrote, s) =
      write_lines-order file lines draw (suc i) left b (omega (arith, r.same_length)) r.below in
    let head : drop i c ≡ l ∷ drop (suc i) c = drop-get c i l (s.before i (omega arith) ∙ el) in
    let same : line_bytes file line ≡ line_at file lines l =
      sym (line_at-found file lines l line found) in
    (
      c,
      rw (moved, el, found, wrote, head)
          (ap (λ x. some (x ++ concat (map (line_at file lines) (drop (suc i) c)))) same),
      IsReordered-trans r s,
    )
