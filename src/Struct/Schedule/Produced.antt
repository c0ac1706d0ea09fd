-- ===== src/Struct/Schedule/Produced.antt =====
-- What producing one table does to the states and the numbers of files, in either mode.
use mathlib.Core.Path.{fun_ext}
use litealigndata.Prelude.{
  ℕ, ◌+◌, ◌>>=◌, ◌≡◌, refl, sym, ap, ◌∙◌, arith, Bool, true, false, Bool-cases, inl, inr, Option,
  none, some, ◌==◌, ==_iff, if◌then◌else◌, ltb, leb, u8, u32,
}
use litealigndata.Struct.Schedule.{
  TableStatus, Tables, World, put, is_done, all_done, fill_rows, set_table_finished,
  finish_to_create_table_num, and_then, start_next, send_and_finish, create_table_data,
  stream_table_data, produce_ready,
}
use litealigndata.Struct.Schedule.Progress.{
  put_self, put_other, Safe, InOrder, per_round, counted, IsOnce, Progress, refl-Progress,
  all_done_mono, same_done-Progress, fill_rows-same,
}

-- The states are kept, and the number of files of `t` has grown by `n`.
abbrev IsCounted : ℕ → ℕ → World → Option World → Type 0
IsCounted n t w none = Unit
IsCounted n t w (some v) =
    (v.status ≡ w.status) × (v.created ≡ put w.created t (u32 (w.created t + n)))

finish-IsCounted :
    (ts : Tables) (t : ℕ) (w : World) → IsCounted 1 t w (finish_to_create_table_num ts t w)
unfolding finish_to_create_table_num set_table_finished
finish-IsCounted ts t w = elim (Bool-cases (leb (ts.to_create t) (u32 (w.created t + 1)))) [
  | inl e ↦ rw e (elim (Bool-cases (ltb (u8 (ts.table_id t)) 255)) [
    | inl g ↦ rw g (refl, refl)
    | inr g ↦ rw g tt
  ])
  | inr e ↦ rw e (refl, refl)
]

pub put_twice {ℓ} : {A : Type ℓ} (f : ℕ → A) (t : ℕ) (a b : A) → put (put f t a) t b ≡ put f t b
put_twice f t a b =
    fun_ext (λ k. elim (Bool-cases (k == t)) [ inl e ↦ rw e refl | inr e ↦ rw e refl ])

-- Two files more for one table.
pub counted_twice :
    (f : ℕ → ℕ) (t : ℕ)
    → put (put f t (u32 (f t + 1))) t (u32 (put f t (u32 (f t + 1)) t + 1))
      ≡ put f t (u32 (f t + 2))
counted_twice f t =
    let sum : u32 (u32 (f t + 1) + 1) ≡ u32 (f t + 2) = omega arith in
    ap (λ n. put (put f t (u32 (f t + 1))) t (u32 (n + 1))) (put_self f t (u32 (f t + 1)))
    ∙ ap (put (put f t (u32 (f t + 1))) t) sum
    ∙ put_twice f t (u32 (f t + 1)) (u32 (f t + 2))

-- After a failure, only rows have been filled.
abbrev IsCreated : ℕ → ℕ → World → Option (Bool × World) → Type 0
IsCreated n t w none = Unit
IsCreated n t w (some (true, v)) =
    (v.status ≡ w.status) × (v.created ≡ put w.created t (u32 (w.created t + n)))
IsCreated n t w (some (false, v)) = (v.status ≡ w.status) × (v.created ≡ w.created)

finished-IsCreated :
    (n t : ℕ) (w v : World) (o : Option World)
    → v.status ≡ w.status
    → v.created ≡ w.created
    → IsCounted n t v o
    → IsCreated n t w (o >>= λ u. some (true, u))
finished-IsCreated n t w v none hs hc h = tt
finished-IsCreated n t w v (some u) hs hc h =
    (h.0 ∙ hs, h.1 ∙ ap (λ (f : ℕ → ℕ). put f t (u32 (f t + n))) hc)

IsCounted-again :
    (ts : Tables) (t : ℕ) (w : World) (o : Option World)
    → IsCounted 1 t w o
    → IsCounted 2 t w (o >>= λ sent. finish_to_create_table_num ts t (start_next ts t sent))
IsCounted-again ts t w none h = tt
IsCounted-again ts t w (some u) h =
    more (finish_to_create_table_num ts t (start_next ts t u))
      (unfold start_next in finish-IsCounted ts t (start_next ts t u))
  where
    more : (o : Option World) → IsCounted 1 t u o → IsCounted 2 t w o
    more none g = tt
    more (some v) g = (
      g.0 ∙ h.0,
      g.1 ∙ ap (λ (f : ℕ → ℕ). put f t (u32 (f t + 1))) h.1 ∙ counted_twice w.created t,
    )

rows-IsCreated :
    (n t : ℕ) (w : World) (r : Bool × World) (k : World → Option World)
    → r.1.status ≡ w.status
    → r.1.created ≡ w.created
    → ((v : World) → IsCounted n t v (k v))
    → IsCreated n t w (and_then (some r) λ v. k v >>= λ u. some (true, u))
unfolding and_then
rows-IsCreated n t w (true, v) k hs hc h = finished-IsCreated n t w v (k v) hs hc (h v)
rows-IsCreated n t w (false, v) k hs hc h = (hs, hc)

create_table_data-IsCreated :
    (ts : Tables) (t : ℕ) (w : World) → IsCreated 1 t w (create_table_data ts t w)
unfolding create_table_data
create_table_data-IsCreated ts t w =
    let same = fill_rows-same ts t (ts.rownum t) 0 w in
    rows-IsCreated 1 t w (fill_rows ts t (ts.rownum t) 0 w)
      (λ v. finish_to_create_table_num ts t (start_next ts t v)) same.0 same.1
      (λ v. unfold start_next in finish-IsCounted ts t (start_next ts t v))

stream_table_data-IsCreated :
    (ts : Tables) (t : ℕ) (w : World) → IsCreated 2 t w (stream_table_data ts t w)
unfolding stream_table_data send_and_finish
stream_table_data-IsCreated ts t w =
    let same = fill_rows-same ts t (ts.rownum t) 0 w in
    rows-IsCreated 2 t w (fill_rows ts t (ts.rownum t) 0 w) (send_and_finish ts t) same.0 same.1
      (λ v. IsCounted-again ts t v (finish_to_create_table_num ts t v) (finish-IsCounted ts t v))

put-is_done_self :
    (f : ℕ → TableStatus) (t k : ℕ)
    → is_done (f k) ≡ true
    → is_done (put f t TableStatus.done k) ≡ true
put-is_done_self f t k e = ground arith

-- A table that becomes done while all tables that it depends on are done.
pub done-Progress :
    (ts : Tables) (t : ℕ) (w v : World)
    → InOrder ts w
    → is_done (w.status t) ≡ false
    → all_done w (ts.dep_tables t) ≡ true
    → v.status ≡ put w.status t TableStatus.done
    → v.created ≡ put w.created t (counted ts.get_stream (w.created t))
    → Progress ts w v
done-Progress ts t w v h n d hs hc = record {
  ordered = λ k e. all_done_mono w v (ts.dep_tables k) mono (before k (hs' k ∙ e));
  once = grown;
}
  where
    hs' : (k : ℕ) → is_done (put w.status t TableStatus.done k) ≡ is_done (v.status k)
    hs' k = ap (λ (f : ℕ → TableStatus). is_done (f k)) (sym hs)

    mono : (k : ℕ) → is_done (w.status k) ≡ true → is_done (v.status k) ≡ true
    mono k e = sym (hs' k) ∙ put-is_done_self w.status t k e

    before :
        (k : ℕ)
        → is_done (put w.status t TableStatus.done k) ≡ true
        → all_done w (ts.dep_tables k) ≡ true
    before k e = elim (Bool-cases (k == t)) [
      | inl same ↦ ap (λ n. all_done w (ts.dep_tables n)) ((==_iff k t).0 same) ∙ d
      | inr other ↦ h k (ap is_done (sym (put_other w.status t k TableStatus.done other)) ∙ e)
    ]

    files : (k : ℕ) → v.created k ≡ put w.created t (counted ts.get_stream (w.created t)) k
    files k = ap (λ (f : ℕ → ℕ). f k) hc

    grown : (k : ℕ) → IsOnce ts.get_stream w v k
    grown k = elim (Bool-cases (k == t)) [
      | inl same ↦ inr (
          inr (
            ap (λ n. is_done (w.status n)) ((==_iff k t).0 same) ∙ n,
            sym (hs' k) ∙ rw same refl,
            files k
                ∙ rw same
                    (ap (λ n. counted ts.get_stream (w.created n)) (sym ((==_iff k t).0 same))),
          ))
      | inr other ↦ elim (Bool-cases (is_done (w.status k))) [
        | inl e ↦ inl (e, mono k e, files k ∙ put_other w.created t k _ other)
        | inr e ↦ inr (inl (e, sym (hs' k) ∙ rw other e, files k ∙ put_other w.created t k _ other))
      ]
    ]

abbrev pub is_ready : TableStatus → Bool
is_ready TableStatus.ready = true
is_ready _ = false

created-Progress :
    (ts : Tables) (t : ℕ) (w : World) (o : Option (Bool × World))
    → InOrder ts w
    → is_done (w.status t) ≡ false
    → all_done w (ts.dep_tables t) ≡ true
    → IsCreated (per_round ts.get_stream) t w o
    → Safe
        (Progress ts w)
        (and_then o λ v. some (true, record v { status = put v.status t TableStatus.done }))
unfolding and_then
created-Progress ts t w none h n d c = tt
created-Progress ts t w (some (false, v)) h n d c =
    same_done-Progress ts w v (λ k. ap (λ (f : ℕ → TableStatus). is_done (f k)) c.0)
      (λ k. ap (λ (f : ℕ → ℕ). f k) c.1) h
created-Progress ts t w (some (true, v)) h n d c =
    done-Progress ts t w (record v { status = put v.status t TableStatus.done }) h n d
      (ap (λ (f : ℕ → TableStatus). put f t TableStatus.done) c.0) c.1

produced-IsCreated :
    (ts : Tables) (t : ℕ) (w : World) (stream : Bool)
    → IsCreated
        (per_round stream)
        t
        w
        (if stream then stream_table_data ts t w else create_table_data ts t w)
produced-IsCreated ts t w true = stream_table_data-IsCreated ts t w
produced-IsCreated ts t w false = create_table_data-IsCreated ts t w

pub produce_ready-Progress :
    (ts : Tables) (t : ℕ) (s : TableStatus) (w : World)
    → InOrder ts w
    → w.status t ≡ s
    → (is_ready s ≡ true → all_done w (ts.dep_tables t) ≡ true)
    → Safe (Progress ts w) (produce_ready ts t s w)
unfolding produce_ready
produce_ready-Progress ts t TableStatus.not_ready w h e d = refl-Progress ts w h
produce_ready-Progress ts t TableStatus.done w h e d = refl-Progress ts w h
produce_ready-Progress ts t TableStatus.ready w h e d =
    created-Progress ts t w _ h (rw e refl) (d refl) (produced-IsCreated ts t w ts.get_stream)
