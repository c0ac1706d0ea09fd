-- ===== src/Struct/Schedule/Ending.antt =====
-- All files of all tables are produced in the end.
use mathlib.Core.List.{Memᴰ}
use mathlib.Core.List.Memᴰ
use mathlib.Core.Path.{subst}
use litealigndata.Prelude.{
  ℕ, zero, suc, ◌+◌, ◌*◌, ◌/◌, if◌then◌else◌, ◌<◌, ◌≤◌, ◌≡◌, ◌∙◌, refl, sym, ap, arith, Bool, true,
  false, Bool-cases, ◌⊎◌, inl, inr, Option, some, List, [], ◌∷◌, ltb, lt→ltb,
}
use litealigndata.Struct.Schedule.{
  Tables, World, put, is_done, and_then, notify_all_depended, sweep, reset_tables,
  check_all_the_table_full, produce_rounds, clear_full, start_produce_data,
}
use litealigndata.Struct.Schedule.Progress.{IsOnce, per_round, counted}
use litealigndata.Struct.Schedule.Plan.{IsPlan, IsRound}
use litealigndata.Struct.Schedule.Notify.{notify-Works}
use litealigndata.Struct.Schedule.Works.{Works, none-Works, and_then-Works, either-Works}
use litealigndata.Struct.Schedule.Between.{
  rounds_of, rounds_of-all, reached, lt_of, counted-files, IsBetween, all_done_of, clash,
  reset_tables_lem,
}

module _ {ts : Tables} {tables : List ℕ} {rank : ℕ → ℕ} {depth n : ℕ}
    (plan : IsPlan ts tables rank depth n) where
  skip-Works :
      (t : ℕ) (us : List ℕ) (w : World) (o : Option (Bool × World))
      → is_done (w.status t) ≡ true
      → Works ts tables n w us o
      → Works ts tables n w (t ∷ us) o
  skip-Works t us w o e a = record {
    after = a.after;
    gives = a.gives;
    round = a.round;
    progress = a.progress;
    cleared = λ j h l.
        let (before, out) = a.cleared j h l in
        (
          before,
          λ m. elim (Memᴰ.cases_cons m) [
            | inl same ↦ clash (ap (λ i. is_done (w.status i)) same ∙ e) before.1
            | inr m' ↦ out m'
          ],
        );
  }

  sweep-Works :
      (fuel : ℕ) (us : List ℕ) (w : World)
      → ((t : ℕ) → Memᴰ t us → Memᴰ t tables)
      → depth ≤ fuel
      → IsRound ts tables n w
      → Works ts tables n w us (sweep ts fuel us w)
  unfolding sweep
  sweep-Works fuel [] w inside h r = none-Works w r
  sweep-Works fuel (t ∷ us) w inside h r =
      either-Works (ltb (w.created t) (ts.to_create t)) _ _
        (λ more.
          and_then-Works w t us (notify_all_depended ts fuel t w) (sweep ts fuel us)
            (notify-Works plan fuel t w m (omega (arith, h)) r)
            (λ v p. sweep-Works fuel us v rest h p))
        (λ full.
          skip-Works t us w (sweep ts fuel us w)
            (elim (Bool-cases (is_done (w.status t))) [
              | inl e ↦ e
              | inr e ↦ absurd (
                  clash
                    (lt→ltb (w.created t) (ts.to_create t)
                      (omega (arith, r.has_room t m e, plan.numbers t m)))
                    full)
            ])
            (sweep-Works fuel us w rest h r))
    where
      m : Memᴰ t tables
      m = inside t (Memᴰ.head refl)

      rest : (j : ℕ) → Memᴰ j us → Memᴰ j tables
      rest j i = inside j (Memᴰ.tail i)

  -- A round makes all its tables done.
  all_done_after :
      (w : World) (o : Option (Bool × World)) (a : Works ts tables n w tables o) (r k : ℕ)
      → Memᴰ k tables
      → rank k < r
      → is_done (a.after.status k) ≡ true
  all_done_after w o a zero k m h = absurd (omega arith)
  all_done_after w o a (suc r) k m h = elim (Bool-cases (is_done (a.after.status k))) [
    | inl e ↦ e
    | inr e ↦ absurd (
        (a.cleared k m (
          all_done_of a.after (ts.dep_tables k) (λ d i.
              all_done_after w o a r d (plan.closed k d m i)
                (omega (arith, plan.ranked d k (plan.closed k d m i) (plan.mirrored k d m i)))),
          e,
        )).1
          m)
  ]

  start-IsRound :
      (j : ℕ) (w : World)
      → j * per_round ts.get_stream < n
      → IsBetween ts tables n j w
      → IsRound ts tables n w
  start-IsRound j w lt b = record {
    ordered = λ k d. absurd (clash d (b.waiting k));
    inside = λ k d. absurd (clash d (b.waiting k));
    has_room = λ k m d. omega (arith, lt, b.counts k m);
    flagged = b.flagged;
    flag_of = b.flag_of;
  }

  -- A round, and what it leaves for the next one.
  round_lem :
      (fuel j : ℕ) (w : World)
      → j * per_round ts.get_stream < n
      → depth ≤ fuel
      → IsBetween ts tables n j w
      → (v : World) × (sweep ts fuel tables w ≡ some (true, v))
        × IsBetween ts tables n (suc j) (reset_tables tables v)
  round_lem fuel j w lt h b =
      let a = sweep-Works fuel tables w (λ t m. m) h (start-IsRound j w lt b) in
      let (left, files, flags) = reset_tables_lem tables a.after in
      (
        a.after,
        a.gives,
        record {
          waiting = λ k. elim (Bool-cases (is_done ((reset_tables tables a.after).status k))) [
            | inl e ↦ let (before, out) = left k e in absurd (out (a.round.inside k before))
            | inr e ↦ e
          ];
          counts = λ k m.
              ap (λ (f : ℕ → ℕ). f k) files
              ∙ one_more a.after k m (a.progress.once k)
                  (all_done_after w _ a (suc (rank k)) k m (omega arith));
          flagged = λ k m le.
              ap (λ (f : ℕ → Bool). f (ts.table_id k)) flags
              ∙ a.round.flagged k m (subst (λ (f : ℕ → ℕ). n ≤ f k) files le);
          flag_of = λ i e.
              let (k, m, le) = a.round.flag_of i (sym (ap (λ (f : ℕ → Bool). f i) flags) ∙ e) in
              (k, m, subst (λ (f : ℕ → ℕ). n ≤ f k) (sym files) le);
        },
      )
    where
      one_more :
          (v : World) (k : ℕ)
          → Memᴰ k tables
          → IsOnce ts.get_stream w v k
          → is_done (v.status k) ≡ true
          → v.created k ≡ suc j * per_round ts.get_stream
      one_more v k m once e =
          grown (b.waiting k) once
          ∙ ap (counted ts.get_stream) (b.counts k m)
          ∙ counted-files ts.get_stream n j plan.number_small lt
        where
          grown :
              is_done (w.status k) ≡ false
              → IsOnce ts.get_stream w v k
              → v.created k ≡ counted ts.get_stream (w.created k)
          grown x y = ground (arith, e)

  all_full :
      (us : List ℕ) (w : World)
      → ((t : ℕ) → Memᴰ t us → Memᴰ t tables)
      → ((k : ℕ) → Memᴰ k tables → w.full (ts.table_id k) ≡ true)
      → check_all_the_table_full ts us w ≡ some true
  unfolding check_all_the_table_full
  all_full [] w inside h = refl
  all_full (t ∷ us) w inside h =
      let m = inside t (Memᴰ.head refl) in
      rw (lt→ltb (ts.table_id t) 255 (plan.ids_small t m), h t m)
        (all_full us w (λ j i. inside j (Memᴰ.tail i)) h)

  not_full :
      (t : ℕ) (us : List ℕ) (w : World)
      → Memᴰ t tables
      → w.full (ts.table_id t) ≡ false
      → check_all_the_table_full ts (t ∷ us) w ≡ some false
  unfolding check_all_the_table_full
  not_full t us w m h = rw (lt→ltb (ts.table_id t) 255 (plan.ids_small t m), h) refl

  -- Before the last round, the list is not full: the tables are all of them, and some there are.
  not_yet :
      (us : List ℕ) (j : ℕ) (w : World)
      → ((t : ℕ) → Memᴰ t us → Memᴰ t tables)
      → j * per_round ts.get_stream < n
      → IsBetween ts tables n j w
      → (us ≡ []) ⊎ (check_all_the_table_full ts us w ≡ some false)
  not_yet [] j w inside lt b = inl refl
  not_yet (t ∷ us) j w inside lt b =
      let m = inside t (Memᴰ.head refl) in
      inr (elim (Bool-cases (w.full (ts.table_id t))) [
        | inl e ↦
            let (k, i, le) = b.flag_of (ts.table_id t) e in
            absurd (omega (arith, le, lt, b.counts k i))
        | inr e ↦ not_full t us w m e
      ])

  check_empty : (us : List ℕ) (w : World) → us ≡ [] → check_all_the_table_full ts us w ≡ some true
  unfolding check_all_the_table_full
  check_empty us w e = rw e refl

  rounds_lem :
      (fuel left j : ℕ) (w : World)
      → j + left ≡ rounds_of ts.get_stream n
      → depth ≤ fuel
      → IsBetween ts tables n j w
      → (v : World) × (produce_rounds ts left fuel tables w ≡ some (true, v))
        × ((k : ℕ)
            → Memᴰ k tables
            → v.created k ≡ rounds_of ts.get_stream n * per_round ts.get_stream)
  unfolding produce_rounds and_then
  rounds_lem fuel zero j w e h b =
      let all = reached ts.get_stream n j e in
      (
        w,
        rw
            (all_full tables w (λ t m. m)
              (λ k m.
                b.flagged k m (omega (arith, rounds_of-all ts.get_stream n, b.counts k m, all))))
            refl,
        λ k m. b.counts k m ∙ all,
      )
  rounds_lem fuel (suc left) j w e h b =
      elim (not_yet tables j w (λ t m. m) (lt_of ts.get_stream n left j e) b) [
        | inl empty ↦ (
          w,
          rw (check_empty tables w empty) refl,
          λ k m. absurd (Memᴰ.not-nil (subst (Memᴰ k) empty m)),
        )
        | inr more ↦
            let (v, gives, next) = round_lem fuel j w (lt_of ts.get_stream n left j e) h b in
            let (u, ends, files) =
              rounds_lem fuel left (suc j) (reset_tables tables v) (omega arith) h next in
            (u, rw (more, gives) ends, files)
      ]

clear_full_lem :
    (ts : Tables) (us : List ℕ) (w : World)
    → ((t : ℕ) → Memᴰ t us → ts.header_id t < 255)
    → (v : World) × (clear_full ts us w ≡ some (true, v)) × (v.created ≡ w.created)
unfolding clear_full
clear_full_lem ts [] w h = (w, refl, refl)
clear_full_lem ts (t ∷ []) w h = (
  record w { full = put w.full (ts.header_id t) false },
  rw (lt→ltb (ts.header_id t) 255 (h t (Memᴰ.head refl))) refl,
  refl,
)
clear_full_lem ts (t ∷ u ∷ us) w h = clear_full_lem ts (u ∷ us) w (λ j m. h j (Memᴰ.tail m))

ending :
    {ts : Tables} {tables : List ℕ} {rank : ℕ → ℕ} {depth n : ℕ} (w : World)
    → IsPlan ts tables rank depth n
    → 0 < n
    → ((k : ℕ) → is_done (w.status k) ≡ false)
    → ((k : ℕ) → Memᴰ k tables → w.created k ≡ 0)
    → ((i : ℕ) → w.full i ≡ false)
    → (v : World) × (start_produce_data ts (rounds_of ts.get_stream n) depth tables w
        ≡ some (true, v))
      × ((k : ℕ)
          → Memᴰ k tables
          → v.created k ≡ rounds_of ts.get_stream n * per_round ts.get_stream)
unfolding start_produce_data and_then
ending {ts} {tables} {rank} {depth} {n} w plan some_files fresh none_yet clear =
    let rounds = rounds_of ts.get_stream n in
    let (u, gives, files) = rounds_lem plan depth rounds 0 w (omega arith) (omega arith) (record {
      waiting = fresh;
      counts = λ k m. none_yet k m ∙ omega arith;
      flagged = λ k m le. absurd (omega (arith, le, some_files, none_yet k m));
      flag_of = λ i e. absurd (clash e (clear i));
    }) in
    let (v, cleared, same) = clear_full_lem ts tables u plan.headers_small in
    (v, rw gives cleared, λ k m. ap (λ (f : ℕ → ℕ). f k) same ∙ files k m)

-- `StartProduceData` ends and succeeds, and every table then has just the number of files that it is
-- to have in file mode, and that number rounded up to an even one in stream mode, where a streamed
-- file is counted twice, when: all tables of the interface have the same number of files, some, and
-- too few for the counter to overflow; their numbers are below 255; their rows can be produced; the
-- tables that depend on each other are tables of the interface, each known to the ones that it
-- depends on; and a rank below `depth` grows along the dependencies, so that none is circular. It
-- begins with no table done, no file created and no number in the list. As many rounds as files are
-- enough in file mode, and half as many in stream mode, and calls as deep as the ranks.
pub start_produce_data-ends :
    {ts : Tables} {tables : List ℕ} {rank : ℕ → ℕ} {depth n : ℕ} (w : World)
    → IsPlan ts tables rank depth n
    → 0 < n
    → ((k : ℕ) → is_done (w.status k) ≡ false)
    → ((k : ℕ) → Memᴰ k tables → w.created k ≡ 0)
    → ((i : ℕ) → w.full i ≡ false)
    → let rounds = if ts.get_stream then (n + 1) / 2 else n in
      (v : World) × (start_produce_data ts rounds depth tables w ≡ some (true, v))
      × ((k : ℕ) → Memᴰ k tables → v.created k ≡ (if ts.get_stream then rounds * 2 else n))
start_produce_data-ends {ts} {tables} {rank} {depth} {n} w plan some_files fresh none_yet clear =
    let (v, gives, files) = ending w plan some_files fresh none_yet clear in
    by_mode ts.get_stream v gives files
  where
    by_mode :
        (stream : Bool) (v : World)
        → start_produce_data ts (rounds_of stream n) depth tables w ≡ some (true, v)
        → ((k : ℕ) → Memᴰ k tables → v.created k ≡ rounds_of stream n * per_round stream)
        → let rounds = if stream then (n + 1) / 2 else n in
          (v : World) × (start_produce_data ts rounds depth tables w ≡ some (true, v))
          × ((k : ℕ) → Memᴰ k tables → v.created k ≡ (if stream then rounds * 2 else n))
    by_mode true v gives files = (v, gives, files)
    by_mode false v gives files = (v, gives, λ k m. omega (arith, files k m))
