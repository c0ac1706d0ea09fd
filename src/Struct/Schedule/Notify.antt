-- ===== src/Struct/Schedule/Notify.antt =====
-- A notified table leaves nothing behind: every table that can be produced is produced at once.
use mathlib.Core.List.{Memᴰ}
use mathlib.Core.List.Memᴰ
use mathlib.Core.Path.{subst}
use litealigndata.Prelude.{
  ℕ, zero, suc, ◌+◌, ◌<◌, ◌≤◌, ◌≡◌, ◌∙◌, refl, sym, ap, arith, Bool, true, false, Bool-cases, ◌⊎◌,
  inl, inr, Option, some, List, [], ◌∷◌, ◌==◌, ==_iff,
}
use litealigndata.Struct.Schedule.{
  TableStatus, Tables, World, put, is_done, all_done, made_ready, check_status, and_then,
  produce_ready, notify_each, notify_all_depended,
}
use litealigndata.Struct.Schedule.Progress.{
  IsOnce, Progress, refl-Progress, trans-Progress, check_status-same_done, check_status-Progress,
  put_self, put_other, all_done_mono,
}
use litealigndata.Struct.Schedule.Produced.{done-Progress}
use litealigndata.Struct.Schedule.Order.{check_status_of_done, check_status_of_not_done}
use litealigndata.Struct.Schedule.Plan.{IsPlan, IsRound, IsProduced, produced, produced-IsProduced}
use litealigndata.Struct.Schedule.Kept.{produced-IsRound}
use litealigndata.Struct.Schedule.Works.{
  IsLeft, newly_done, Works, none-Works, if-Works, and_then-Works,
}

-- A table behind its first half, which made it done or found it so: what it leaves are tables that
-- depend on it.
record Heads (ts : Tables) (tables : List ℕ) (n t : ℕ) (w : World) (o : Option (Bool × World))
    : Type 0 where
  after : World
  gives : o ≡ some (true, after)
  round : IsRound ts tables n after
  progress : Progress ts w after
  now_done : is_done (after.status t) ≡ true
  spread : (k : ℕ) → Memᴰ k tables → IsLeft ts after k → IsLeft ts w k ⊎ Memᴰ k (ts.be_depended t)

was_left :
    (stream : Bool) (w v : World) (k : ℕ)
    → IsOnce stream w v k
    → is_done (v.status k) ≡ false
    → is_done (w.status k) ≡ false
was_left stream w v k h e = ground (arith, h)

check_status-kept :
    (ts : Tables) (t : ℕ) (w : World)
    → ((check_status ts t w).created ≡ w.created) × ((check_status ts t w).full ≡ w.full)
unfolding check_status
check_status-kept ts t w = elim (Bool-cases (all_done w (ts.dep_tables t))) [
  | inl e ↦ rw e (refl, refl)
  | inr e ↦ rw e (refl, refl)
]

module _ {ts : Tables} {tables : List ℕ} {rank : ℕ → ℕ} {depth n : ℕ}
    (plan : IsPlan ts tables rank depth n) where
  produced_spread :
      (t k : ℕ) (w v : World)
      → Memᴰ k tables
      → v.status ≡ put w.status t TableStatus.done
      → Progress ts w v
      → IsLeft ts v k
      → IsLeft ts w k ⊎ Memᴰ k (ts.be_depended t)
  produced_spread t k w v h e g l = elim (Bool-cases (all_done w (ts.dep_tables k))) [
    | inl old ↦ inl (old, was_left ts.get_stream w v k (g.once k) l.1)
    | inr new ↦
        let (j, m, before, now) = newly_done w v (ts.dep_tables k) l.0 new in
        inr (elim (Bool-cases (j == t)) [
          | inl same ↦
              subst (λ i. Memᴰ k (ts.be_depended i)) ((==_iff j t).0 same) (plan.mirrored k j h m)
          | inr other ↦ absurd (
              clash now before
                (ap (λ (f : ℕ → TableStatus). f j) e ∙ put_other w.status t j _ other))
        ])
  ]
    where
      clash : {a b : TableStatus} → is_done a ≡ true → is_done b ≡ false → a ≡ b → ⊥
      clash x y z = ground arith

  produced-Heads :
      (t : ℕ) (w v : World) (o : Option (Bool × World))
      → Memᴰ t tables
      → IsRound ts tables n w
      → all_done w (ts.dep_tables t) ≡ true
      → w.status t ≡ TableStatus.ready
      → o ≡ some (true, v)
      → IsProduced ts t n w v
      → Heads ts tables n t w
          (and_then o λ u. some (true, record u { status = put u.status t TableStatus.done }))
  unfolding and_then
  produced-Heads t w v o m r d e gives p =
      let made = record v { status = put v.status t TableStatus.done } in
      let kept = ap (λ (f : ℕ → TableStatus). put f t TableStatus.done) p.kept in
      let g = done-Progress ts t w made r.ordered (rw e refl) d kept p.added in
      record {
        after = made;
        gives = rw gives refl;
        round = produced-IsRound plan t w v m r (rw e refl) p g;
        progress = g;
        now_done = rw (put_self v.status t TableStatus.done) refl;
        spread = λ k h l. produced_spread t k w made h kept g l;
      }

  ready-Heads :
      (t : ℕ) (w : World)
      → Memᴰ t tables
      → IsRound ts tables n w
      → all_done w (ts.dep_tables t) ≡ true
      → w.status t ≡ TableStatus.ready
      → Heads ts tables n t w (produce_ready ts t TableStatus.ready w)
  unfolding produce_ready
  ready-Heads t w m r d e =
      let (v, gives, p) =
        produced-IsProduced ts t n w (plan.numbers t m) (plan.ids_small t m)
          (λ f row. plan.rows_succeed t f row m) (r.has_room t m (rw e refl)) plan.number_small in
      produced-Heads t w v (produced ts t w) m r d e gives p

  done-Heads :
      (t : ℕ) (w : World)
      → IsRound ts tables n w
      → w.status t ≡ TableStatus.done
      → Heads ts tables n t w (produce_ready ts t TableStatus.done w)
  unfolding produce_ready
  done-Heads t w r e = record {
    after = w;
    gives = refl;
    round = r;
    progress = refl-Progress ts w r.ordered;
    now_done = rw e refl;
    spread = λ k h l. inl l;
  }

  head-Heads :
      (t : ℕ) (s : TableStatus) (w : World)
      → Memᴰ t tables
      → IsRound ts tables n w
      → all_done w (ts.dep_tables t) ≡ true
      → w.status t ≡ made_ready s
      → Heads ts tables n t w (produce_ready ts t (w.status t) w)
  unfolding made_ready
  head-Heads t TableStatus.not_ready w m r d e = rw e (ready-Heads t w m r d e)
  head-Heads t TableStatus.ready w m r d e = rw e (ready-Heads t w m r d e)
  head-Heads t TableStatus.done w m r d e = rw e (done-Heads t w r e)

  -- The loop over the tables that depend on `t`.
  each-Works :
      (t : ℕ) (notify_one : ℕ → World → Option (Bool × World)) (ds : List ℕ) (w : World)
      → Memᴰ t tables
      → ((d : ℕ) → Memᴰ d ds → Memᴰ d (ts.be_depended t))
      → ((d : ℕ) (u : World)
          → Memᴰ d (ts.be_depended t)
          → IsRound ts tables n u
          → Works ts tables n u (d ∷ []) (notify_one d u))
      → IsRound ts tables n w
      → Works ts tables n w ds (notify_each ts t notify_one ds w)
  unfolding notify_each
  each-Works t notify_one [] w m inside h r = none-Works w r
  each-Works t notify_one (d ∷ rest) w m inside h r =
      if-Works (ts.parent d == ts.parent t) _ _
        ((==_iff (ts.parent d) (ts.parent t)).1
          (plan.same_interface t d m (inside d (Memᴰ.head refl))))
        (and_then-Works w d rest (notify_one d w) (notify_each ts t notify_one rest)
          (h d w (inside d (Memᴰ.head refl)) r)
          (λ u p. each-Works t notify_one rest u m (λ j i. inside j (Memᴰ.tail i)) h p))

  stays_done :
      (w v : World) (k : ℕ)
      → IsOnce ts.get_stream w v k
      → is_done (w.status k) ≡ true
      → is_done (v.status k) ≡ true
  stays_done w v k h e = ground (arith, h)

  IsLeft-before :
      (w v : World) (k : ℕ)
      → ((j : ℕ) → is_done (v.status j) ≡ is_done (w.status j))
      → IsLeft ts v k
      → IsLeft ts w k
  IsLeft-before w v k h l =
      (all_done_mono v w (ts.dep_tables k) (λ j e. sym (h j) ∙ e) l.0, sym (h k) ∙ l.1)

  check-IsRound :
      (t : ℕ) (w : World) → IsRound ts tables n w → IsRound ts tables n (check_status ts t w)
  check-IsRound t w r =
      let same = check_status-kept ts t w in
      record {
        ordered = (check_status-Progress ts t w r.ordered).ordered;
        inside = λ k d. r.inside k (sym (check_status-same_done ts t k w r.ordered) ∙ d);
        has_room = λ k h d.
            subst (λ (f : ℕ → ℕ). f k < n) (sym same.0)
              (r.has_room k h (sym (check_status-same_done ts t k w r.ordered) ∙ d));
        flagged = λ k h d.
            ap (λ (f : ℕ → Bool). f (ts.table_id k)) same.1
            ∙ r.flagged k h (subst (λ (f : ℕ → ℕ). n ≤ f k) same.0 d);
        flag_of = λ i d.
            let (k, h, le) = r.flag_of i (sym (ap (λ (f : ℕ → Bool). f i) same.1) ∙ d) in
            (k, h, subst (λ (f : ℕ → ℕ). n ≤ f k) (sym same.0) le);
      }

  -- The two halves together.
  Heads-Works :
      (t : ℕ) (w c : World) (o : Option (Bool × World)) (k : World → Option (Bool × World))
      → Progress ts w c
      → ((j : ℕ) → is_done (c.status j) ≡ is_done (w.status j))
      → Heads ts tables n t c o
      → ((v : World)
          → IsRound ts tables n v
          → is_done (v.status t) ≡ true
          → Works ts tables n v (ts.be_depended t) (k v))
      → Works ts tables n w (t ∷ []) (and_then o k)
  unfolding and_then
  Heads-Works t w c o k g same a b =
      let e = b a.after a.round a.now_done in
      record {
        after = e.after;
        gives = rw a.gives e.gives;
        round = e.round;
        progress =
            trans-Progress ts w c e.after g
              (trans-Progress ts c a.after e.after a.progress e.progress);
        cleared = λ j h l.
            let (left, out) = e.cleared j h l in
            (
              elim (a.spread j h left) [
                | inl before ↦ IsLeft-before w c j same before
                | inr waiting ↦ absurd (out waiting)
              ],
              λ m. absurd (
                  clash (stays_done a.after e.after t (e.progress.once t) a.now_done)
                    (subst (λ i. is_done (e.after.status i) ≡ false) (Memᴰ.eq_of_singleton m) l.1)),
            );
      }
    where
      clash : {b : Bool} → b ≡ true → b ≡ false → ⊥
      clash x y = cc

  waiting-Works :
      (t : ℕ) (w : World) (k : World → Option (Bool × World))
      → IsRound ts tables n w
      → all_done w (ts.dep_tables t) ≡ false
      → (check_status ts t w).status t ≡ TableStatus.not_ready
      → k (check_status ts t w) ≡ some (true, check_status ts t w)
      → Works ts tables n w
          (t ∷ [])
          (and_then (produce_ready ts t TableStatus.not_ready (check_status ts t w)) k)
  unfolding and_then produce_ready
  waiting-Works t w k r d e g = record {
    after = check_status ts t w;
    gives = g;
    round = check-IsRound t w r;
    progress = check_status-Progress ts t w r.ordered;
    cleared = λ j h l.
        let before =
          IsLeft-before w (check_status ts t w) j (λ i. check_status-same_done ts t i w r.ordered)
            l in
        (
          before,
          λ m. absurd (
              clash (before.0)
                (ap (λ i. all_done w (ts.dep_tables i)) (Memᴰ.eq_of_singleton m) ∙ d)),
        );
  }
    where
      clash : {b : Bool} → b ≡ true → b ≡ false → ⊥
      clash x y = cc

  -- Notifying succeeds within the depth of the dependencies.
  pub notify-Works :
      (fuel t : ℕ) (w : World)
      → Memᴰ t tables
      → depth ≤ rank t + fuel
      → IsRound ts tables n w
      → Works ts tables n w (t ∷ []) (notify_all_depended ts fuel t w)
  unfolding notify_all_depended
  notify-Works zero t w m h r = absurd (omega (arith, plan.rank_small t m))
  notify-Works (suc fuel) t w m h r = elim (Bool-cases (all_done w (ts.dep_tables t))) [
    | inl d ↦
        let same = λ (j : ℕ). check_status-same_done ts t j w r.ordered in
        let c = check_status ts t w in
        Heads-Works t w c _ _ (check_status-Progress ts t w r.ordered) same
          (head-Heads t (w.status t) c m (check-IsRound t w r)
            (all_done_mono w c (ts.dep_tables t) (λ j e. same j ∙ e) d)
            (check_status_of_done ts t w d))
          (λ v p e. if-Works (is_done (v.status t)) _ _ e (
            each-Works t (notify_all_depended ts fuel) (ts.be_depended t) v m (λ j i. i)
              (λ j u i q.
                notify-Works fuel j u (plan.known t j m i) (omega (arith, plan.ranked t j m i)) q)
              p))
    | inr d ↦
        let e = check_status_of_not_done ts t w d in rw e (waiting-Works t w _ r d e (rw e refl))
  ]
