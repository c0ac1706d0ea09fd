-- ===== src/Struct/Schedule/Order.antt =====
-- A round produces a table at most once, and only behind the tables that it depends on.
use litealigndata.Prelude.{
  ℕ, zero, suc, ◌+◌, ◌≡◌, ◌∙◌, refl, arith, Bool, true, false, Bool-cases, inl, inr, Option, none,
  some, List, [], ◌∷◌, ◌==◌, if◌then◌else◌, ltb, u32,
}
use litealigndata.Struct.Schedule.{
  TableStatus, Tables, World, is_done, made_ready, all_done, check_status, and_then, produce_ready,
  notify_each, notify_all_depended, sweep,
}
use litealigndata.Struct.Schedule.Progress.{
  Safe, InOrder, IsOnce, Progress, refl-Progress, trans-Progress, all_done_mono,
  check_status-same_done, check_status-Progress, put_self, and_then-Safe, if-Safe,
}
use litealigndata.Struct.Schedule.Produced.{produce_ready-Progress, is_ready}

-- A step from a state behind `u`, continued from `u`.
Safe-trans :
    (ts : Tables) (w u : World) (o : Option (Bool × World))
    → Progress ts w u
    → Safe (Progress ts u) o
    → Safe (Progress ts w) o
Safe-trans ts w u none h g = tt
Safe-trans ts w u (some r) h g = trans-Progress ts w u r.1 h g

and_then-Progress :
    (ts : Tables) (w : World) (o : Option (Bool × World)) (k : World → Option (Bool × World))
    → Safe (Progress ts w) o
    → ((u : World) → InOrder ts u → Safe (Progress ts u) (k u))
    → Safe (Progress ts w) (and_then o k)
and_then-Progress ts w o k h g =
    and_then-Safe (Progress ts w) (Progress ts w) o k h (λ u p. p)
      (λ u p. Safe-trans ts w u (k u) p (g u p.ordered))

notify_each-Progress :
    (ts : Tables) (t : ℕ) (notify_one : ℕ → World → Option (Bool × World)) (ds : List ℕ) (w : World)
    → ((d : ℕ) (u : World) → InOrder ts u → Safe (Progress ts u) (notify_one d u))
    → InOrder ts w
    → Safe (Progress ts w) (notify_each ts t notify_one ds w)
unfolding notify_each
notify_each-Progress ts t notify_one [] w h o = refl-Progress ts w o
notify_each-Progress ts t notify_one (d ∷ rest) w h o =
    if-Safe (Progress ts w) (ts.parent d == ts.parent t) _ _
      (λ e.
        and_then-Progress ts w (notify_one d w) (notify_each ts t notify_one rest) (h d w o)
          (λ u p. notify_each-Progress ts t notify_one rest u h p))
      (λ e. notify_each-Progress ts t notify_one rest w h o)

pub check_status_of_done :
    (ts : Tables) (t : ℕ) (w : World)
    → all_done w (ts.dep_tables t) ≡ true
    → (check_status ts t w).status t ≡ made_ready (w.status t)
unfolding check_status
check_status_of_done ts t w e = rw e (put_self w.status t (made_ready (w.status t)))

pub check_status_of_not_done :
    (ts : Tables) (t : ℕ) (w : World)
    → all_done w (ts.dep_tables t) ≡ false
    → (check_status ts t w).status t ≡ TableStatus.not_ready
unfolding check_status
check_status_of_not_done ts t w e = rw e (put_self w.status t TableStatus.not_ready)

check_status-ready :
    (ts : Tables) (t : ℕ) (w : World)
    → InOrder ts w
    → is_ready ((check_status ts t w).status t) ≡ true
    → all_done (check_status ts t w) (ts.dep_tables t) ≡ true
check_status-ready ts t w h e =
    all_done_mono w (check_status ts t w) (ts.dep_tables t)
      (λ k d. check_status-same_done ts t k w h ∙ d)
      (elim (Bool-cases (all_done w (ts.dep_tables t))) [
        | inl d ↦ d
        | inr d ↦ absurd (not_ready e (check_status_of_not_done ts t w d))
      ])
  where
    not_ready : {s : TableStatus} → is_ready s ≡ true → s ≡ TableStatus.not_ready → ⊥
    not_ready e d = ground arith

pub notify_all_depended-Progress :
    (ts : Tables) (fuel t : ℕ) (w : World)
    → InOrder ts w
    → Safe (Progress ts w) (notify_all_depended ts fuel t w)
unfolding notify_all_depended
notify_all_depended-Progress ts zero t w h = tt
notify_all_depended-Progress ts (suc fuel) t w h =
    let checked = check_status ts t w in
    let start = check_status-Progress ts t w h in
    Safe-trans ts w checked _ start (
      and_then-Progress ts checked (produce_ready ts t (checked.status t) checked) _
        (produce_ready-Progress ts t (checked.status t) checked start.ordered refl
          (check_status-ready ts t w h))
        (λ v o.
          if-Safe (Progress ts v) (is_done (v.status t)) _ _
            (λ e.
              notify_each-Progress ts t (notify_all_depended ts fuel) (ts.be_depended t) v
                (λ d u p. notify_all_depended-Progress ts fuel d u p) o)
            (λ e. refl-Progress ts v o)))

pub sweep-Progress :
    (ts : Tables) (fuel : ℕ) (tables : List ℕ) (w : World)
    → InOrder ts w
    → Safe (Progress ts w) (sweep ts fuel tables w)
unfolding sweep
sweep-Progress ts fuel [] w h = refl-Progress ts w h
sweep-Progress ts fuel (t ∷ rest) w h =
    if-Safe (Progress ts w) (ltb (w.created t) (ts.to_create t)) _ _
      (λ e.
        and_then-Progress ts w (notify_all_depended ts fuel t w) (sweep ts fuel rest)
          (notify_all_depended-Progress ts fuel t w h) (λ u p. sweep-Progress ts fuel rest u p))
      (λ e. sweep-Progress ts fuel rest w h)

-- In a round that begins with no table done, whatever rows fail and however deep the calls go, as
-- soon as there is a result: a table that is done depends on done tables only; where it is done,
-- its number of files has grown by one in file mode and by two in stream mode, where a streamed
-- file is counted twice; and it has not changed where the table is not done. So no table is
-- produced twice in a round, and none before a table that it depends on.
pub sweep_in_order :
    (ts : Tables) (fuel : ℕ) (tables : List ℕ) (w v : World) (ok : Bool)
    → ((k : ℕ) → is_done (w.status k) ≡ false)
    → sweep ts fuel tables w ≡ some (ok, v)
    → (k : ℕ)
    → (is_done (v.status k) ≡ true → all_done v (ts.dep_tables k) ≡ true)
      × (v.created k ≡ (
          if is_done (v.status k)
          then u32 (w.created k + (if ts.get_stream then 2 else 1))
          else w.created k))
sweep_in_order ts fuel tables w v ok fresh e k =
    let p : Progress ts w v =
      rw e at (sweep-Progress ts fuel tables w (λ j d. absurd (ground (arith, fresh j)))) in
    (p.ordered k, grown ts.get_stream (p.once k))
  where
    grown :
        (stream : Bool)
        → IsOnce stream w v k
        → v.created k ≡ (
            if is_done (v.status k)
            then u32 (w.created k + (if stream then 2 else 1))
            else w.created k)
    grown true h = ground (arith, h, fresh k)
    grown false h = ground (arith, h, fresh k)
