-- ===== src/Struct/Schedule/Kept.antt =====
-- A table that is produced keeps what holds in the middle of a round.
use mathlib.Core.List.{Memᴰ}
use mathlib.Core.List.Memᴰ
use litealigndata.Prelude.{
  ℕ, ◌≤◌, ◌≡◌, ◌∙◌, refl, sym, ap, arith, Bool, true, false, Bool-cases, ◌⊎◌, inl, inr, List, ◌==◌,
  ==_iff, if◌then◌else◌, leb,
}
use litealigndata.Struct.Schedule.{TableStatus, Tables, World, put, is_done}
use litealigndata.Struct.Schedule.Progress.{Progress, put_self, put_other, counted}
use litealigndata.Struct.Schedule.Plan.{IsPlan, IsRound, IsProduced}

-- Where an entry of the list is set, it was set, or the table just produced has all its files.
listed_entry :
    (ts : Tables) (t n i : ℕ) (w v : World)
    → IsProduced ts t n w v
    → v.full i ≡ true
    → (w.full i ≡ true) ⊎ ((i ≡ ts.table_id t) × (n ≤ counted ts.get_stream (w.created t)))
listed_entry ts t n i w v p e =
    let f = sym (ap (λ (g : ℕ → Bool). g i) p.listed) ∙ e in ground (arith, f)

listed_kept :
    (ts : Tables) (t n i : ℕ) (w v : World)
    → IsProduced ts t n w v
    → (w.full i ≡ true) ⊎ ((i ≡ ts.table_id t) × (n ≤ counted ts.get_stream (w.created t)))
    → v.full i ≡ true
listed_kept ts t n i w v p h = ap (λ (g : ℕ → Bool). g i) p.listed ∙ kept h
  where
    kept :
        (w.full i ≡ true) ⊎ ((i ≡ ts.table_id t) × (n ≤ counted ts.get_stream (w.created t)))
        → (if leb n (counted ts.get_stream (w.created t))
              then put w.full (ts.table_id t) true
              else w.full)
            i
          ≡ true
    kept h = ground (arith, h)

created_self :
    (ts : Tables) (t n k : ℕ) (w v : World)
    → IsProduced ts t n w v
    → k ≡ t
    → v.created k ≡ counted ts.get_stream (w.created t)
created_self ts t n k w v p e =
    ap (λ (f : ℕ → ℕ). f k) p.added
    ∙ rw e (put_self w.created t (counted ts.get_stream (w.created t)))

created_other :
    (ts : Tables) (t n k : ℕ) (w v : World)
    → IsProduced ts t n w v
    → (k == t) ≡ false
    → v.created k ≡ w.created k
created_other ts t n k w v p e = ap (λ (f : ℕ → ℕ). f k) p.added ∙ put_other w.created t k _ e

module _ {ts : Tables} {tables : List ℕ} {rank : ℕ → ℕ} {depth n : ℕ}
    (plan : IsPlan ts tables rank depth n) where
  produced_inside :
      (t : ℕ) (w : World) (f : ℕ → TableStatus)
      → Memᴰ t tables
      → f ≡ w.status
      → ((k : ℕ) → is_done (w.status k) ≡ true → Memᴰ k tables)
      → (k : ℕ) → is_done (put f t TableStatus.done k) ≡ true
      → Memᴰ k tables
  produced_inside t w f m e h k d = elim (Bool-cases (k == t)) [
    | inl same ↦ Memᴰ.cast ((==_iff k t).0 same) m
    | inr other ↦ h k (
        ap (λ (g : ℕ → TableStatus). is_done (g k)) (sym e)
        ∙ ap is_done (sym (put_other f t k TableStatus.done other))
        ∙ d)
  ]

  -- The round goes on behind a table that was produced.
  pub produced-IsRound :
      (t : ℕ) (w v : World)
      → Memᴰ t tables
      → IsRound ts tables n w
      → is_done (w.status t) ≡ false
      → IsProduced ts t n w v
      → Progress ts w (record v { status = put v.status t TableStatus.done })
      → IsRound ts tables n (record v { status = put v.status t TableStatus.done })
  produced-IsRound t w v m r e p g = record {
    ordered = g.ordered;
    inside = λ k d. produced_inside t w (v.status) m p.kept r.inside k d;
    has_room = λ k h d. ground (arith, g.once k, r.has_room k h);
    flagged = λ k h d. elim (Bool-cases (k == t)) [
      | inl same ↦
          let e : k ≡ t = (==_iff k t).0 same in
          listed_kept ts t n (ts.table_id k) w v p
            (inr (ap ts.table_id e, omega (arith, d, created_self ts t n k w v p e)))
      | inr other ↦
          listed_kept ts t n (ts.table_id k) w v p
            (inl (r.flagged k h (omega (arith, d, created_other ts t n k w v p other))))
    ];
    flag_of = λ i d. elim (listed_entry ts t n i w v p d) [
      | inl old ↦
          let (k, h, le) = r.flag_of i old in
          (
            k,
            h,
            elim (Bool-cases (k == t)) [
              | inl same ↦
                  let room = r.has_room t m e in
                  absurd (omega (arith, le, room, ap w.created ((==_iff k t).0 same)))
              | inr other ↦ omega (arith, le, created_other ts t n k w v p other)
            ],
          )
      | inr new ↦ (t, m, omega (arith, new.1, created_self ts t n t w v p refl))
    ];
  }
