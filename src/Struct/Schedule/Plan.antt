-- ===== src/Struct/Schedule/Plan.antt =====
-- Interfaces whose tables can all be produced: acyclic dependencies, the same number of files, and
-- rows that succeed; and what holds of their tables in the middle of a round.
use mathlib.Core.List.{Memᴰ}
use mathlib.Core.Path.{subst}
use litealigndata.Prelude.{
  ℕ, zero, suc, ◌+◌, ◌^◌, ◌<◌, ◌≤◌, ◌≡◌, ◌∙◌, refl, sym, ap, arith, Bool, true, false, Bool-cases,
  inl, inr, Option, some, List, if◌then◌else◌, ltb, leb, u8, u32, ◌>>=◌,
}
use litealigndata.Struct.Schedule.{
  Tables, World, put, is_done, fill_rows, set_table_finished, finish_to_create_table_num, and_then,
  start_next, create_table_data, send_and_finish, stream_table_data,
}
use litealigndata.Struct.Schedule.Progress.{InOrder, fill_rows-same, put_self, per_round}
use litealigndata.Struct.Schedule.Produced.{put_twice, counted_twice}

-- `rank` grows along the dependencies and is below `depth`; every table has `n` files to create.
pub record IsPlan (ts : Tables) (tables : List ℕ) (rank : ℕ → ℕ) (depth n : ℕ) : Type 0 where
  pub number_small : n + per_round ts.get_stream ≤ 2 ^ 32
  pub numbers : (t : ℕ) → Memᴰ t tables → ts.to_create t ≡ n
  pub ids_small : (t : ℕ) → Memᴰ t tables → ts.table_id t < 255
  pub headers_small : (t : ℕ) → Memᴰ t tables → ts.header_id t < 255
  pub rows_succeed : (t file row : ℕ) → Memᴰ t tables → ts.produced_row_data t file row ≡ true
  pub same_interface :
      (t d : ℕ) → Memᴰ t tables → Memᴰ d (ts.be_depended t) → ts.parent d ≡ ts.parent t
  pub known : (t d : ℕ) → Memᴰ t tables → Memᴰ d (ts.be_depended t) → Memᴰ d tables
  pub closed : (t d : ℕ) → Memᴰ t tables → Memᴰ d (ts.dep_tables t) → Memᴰ d tables
  pub mirrored : (t d : ℕ) → Memᴰ t tables → Memᴰ d (ts.dep_tables t) → Memᴰ t (ts.be_depended d)
  pub ranked : (t d : ℕ) → Memᴰ t tables → Memᴰ d (ts.be_depended t) → rank t < rank d
  pub rank_small : (t : ℕ) → Memᴰ t tables → rank t < depth

-- In the middle of a round: a table that is not done has files left, and the interface's list holds
-- just the numbers of tables that have all files.
pub record IsRound (ts : Tables) (tables : List ℕ) (n : ℕ) (w : World) : Type 0 where
  pub ordered : InOrder ts w
  pub inside : (k : ℕ) → is_done (w.status k) ≡ true → Memᴰ k tables
  pub has_room : (k : ℕ) → Memᴰ k tables → is_done (w.status k) ≡ false → w.created k < n
  pub flagged : (k : ℕ) → Memᴰ k tables → n ≤ w.created k → w.full (ts.table_id k) ≡ true
  pub flag_of : (i : ℕ) → w.full i ≡ true → (k : ℕ) × Memᴰ k tables × (n ≤ w.created k)

-- `t` has got `more` files: `w` is the state before, and `v` behind.
pub record IsFinished (ts : Tables) (t n more : ℕ) (w v : World) : Type 0 where
  pub kept : v.status ≡ w.status
  pub added : v.created ≡ put w.created t (u32 (w.created t + more))
  pub listed :
      v.full
      ≡ (if leb n (u32 (w.created t + more)) then put w.full (ts.table_id t) true else w.full)

-- `t` has been produced.
abbrev pub IsProduced : Tables → ℕ → ℕ → World → World → Type 0
IsProduced ts t n w v = IsFinished ts t n (per_round ts.get_stream) w v

fill_rows-true :
    (ts : Tables) (t left row : ℕ) (w : World)
    → ((file r : ℕ) → ts.produced_row_data t file r ≡ true)
    → (fill_rows ts t left row w).0 ≡ true
unfolding fill_rows
fill_rows-true ts t zero row w h = refl
fill_rows-true ts t (suc left) row w h =
    rw (h (w.created t) row) (fill_rows-true ts t left (suc row) _ h)

u8-small : (i : ℕ) → i < 255 → u8 i ≡ i
u8-small i h = omega arith

finish-IsFinished :
    (ts : Tables) (t n : ℕ) (w : World)
    → ts.to_create t ≡ n
    → ts.table_id t < 255
    → (v : World) × (finish_to_create_table_num ts t w ≡ some v) × IsFinished ts t n 1 w v
unfolding finish_to_create_table_num set_table_finished
finish-IsFinished ts t n w e small = elim (Bool-cases (leb n (u32 (w.created t + 1)))) [
  | inl full ↦ (
    record w {
      created = put w.created t (u32 (w.created t + 1));
      full = put w.full (ts.table_id t) true;
    },
    rw (e, full, u8-small (ts.table_id t) small, small_id) refl,
    record { kept = refl; added = refl; listed = rw full refl },
  )
  | inr more ↦ (
    record w { created = put w.created t (u32 (w.created t + 1)) },
    rw (e, more) refl,
    record { kept = refl; added = refl; listed = rw more refl },
  )
]
  where
    small_id : ltb (ts.table_id t) 255 ≡ true
    small_id = ground arith

-- The list behind the first of two files, and behind both.
abbrev listed_of : ℕ → ℕ → ℕ → (ℕ → Bool) → ℕ → Bool
listed_of n count id f = if leb n count then put f id true else f

listed_twice :
    (n c id : ℕ) (f : ℕ → Bool)
    → c < n
    → n + 2 ≤ 2 ^ 32
    → listed_of n (u32 (u32 (c + 1) + 1)) id (listed_of n (u32 (c + 1)) id f)
      ≡ listed_of n (u32 (c + 2)) id f
listed_twice n c id f lt small =
    let all : leb n (u32 (c + 2)) ≡ leb n (c + 2) = ap (leb n) (omega arith) in
    let both : leb n (u32 (u32 (c + 1) + 1)) ≡ leb n (c + 2) = ap (leb n) (omega arith) in
    let first : leb n (u32 (c + 1)) ≡ leb n (c + 1) = ap (leb n) (omega arith) in
    elim (Bool-cases (leb n (c + 1))) [
      | inl one ↦
          let two : leb n (c + 2) ≡ true = ground arith in
          rw (all, both, first, one, two) (put_twice f id true true)
      | inr one ↦ rw (all, both, first, one) refl
    ]

send_and_finish-IsFinished :
    (ts : Tables) (t n : ℕ) (w : World)
    → ts.to_create t ≡ n
    → ts.table_id t < 255
    → w.created t < n
    → n + 2 ≤ 2 ^ 32
    → (v : World) × (send_and_finish ts t w ≡ some v) × IsFinished ts t n 2 w v
unfolding send_and_finish start_next
send_and_finish-IsFinished ts t n w e small lt wide =
    let (sent, first, p) = finish-IsFinished ts t n w e small in
    let (v, second, q) = finish-IsFinished ts t n (start_next ts t sent) e small in
    let count : sent.created t ≡ u32 (w.created t + 1) =
      ap (λ (f : ℕ → ℕ). f t) p.added ∙ put_self w.created t (u32 (w.created t + 1)) in
    (
      v,
      rw first second,
      record {
        kept = q.kept ∙ p.kept;
        added =
            q.added
            ∙ ap (λ (f : ℕ → ℕ). put f t (u32 (f t + 1))) p.added
            ∙ counted_twice w.created t;
        listed =
            q.listed
            ∙ ap (λ c. listed_of n (u32 (c + 1)) (ts.table_id t) sent.full) count
            ∙ ap (listed_of n (u32 (u32 (w.created t + 1) + 1)) (ts.table_id t)) p.listed
            ∙ listed_twice n (w.created t) (ts.table_id t) w.full lt wide;
      },
    )

-- Rows that are filled, and what is done behind them.
rows-IsFinished :
    (ts : Tables) (t n more : ℕ) (w : World) (r : Bool × World) (k : World → Option World)
    → r.0 ≡ true
    → (r.1.status ≡ w.status) × (r.1.created ≡ w.created) × (r.1.full ≡ w.full)
    → (v : World) × (k r.1 ≡ some v) × IsFinished ts t n more r.1 v
    → (v : World) × (and_then (some r) (λ v. k v >>= λ u. some (true, u)) ≡ some (true, v))
      × IsFinished ts t n more w v
unfolding and_then
rows-IsFinished ts t n more w (false, v) k ok same done = cc
rows-IsFinished ts t n more w (true, v) k ok same (u, gives, p) = (
  u,
  rw gives refl,
  record {
    kept = p.kept ∙ same.0;
    added = p.added ∙ ap (λ (f : ℕ → ℕ). put f t (u32 (f t + more))) same.1;
    listed =
        p.listed
        ∙ ap (λ (f : ℕ → ℕ). listed_of n (u32 (f t + more)) (ts.table_id t) v.full) same.1
        ∙ ap (listed_of n (u32 (w.created t + more)) (ts.table_id t)) same.2;
  },
)

create_table_data-IsFinished :
    (ts : Tables) (t n : ℕ) (w : World)
    → ts.to_create t ≡ n
    → ts.table_id t < 255
    → ((file r : ℕ) → ts.produced_row_data t file r ≡ true)
    → (v : World) × (create_table_data ts t w ≡ some (true, v)) × IsFinished ts t n 1 w v
unfolding create_table_data start_next
create_table_data-IsFinished ts t n w e small rows =
    let filled = fill_rows ts t (ts.rownum t) 0 w in
    let (v, gives, p) = finish-IsFinished ts t n (start_next ts t filled.1) e small in
    rows-IsFinished ts t n 1 w filled (λ v. finish_to_create_table_num ts t (start_next ts t v))
      (fill_rows-true ts t (ts.rownum t) 0 w rows) (fill_rows-same ts t (ts.rownum t) 0 w)
      (v, gives, record { kept = p.kept; added = p.added; listed = p.listed })

stream_table_data-IsFinished :
    (ts : Tables) (t n : ℕ) (w : World)
    → ts.to_create t ≡ n
    → ts.table_id t < 255
    → ((file r : ℕ) → ts.produced_row_data t file r ≡ true)
    → w.created t < n
    → n + 2 ≤ 2 ^ 32
    → (v : World) × (stream_table_data ts t w ≡ some (true, v)) × IsFinished ts t n 2 w v
unfolding stream_table_data
stream_table_data-IsFinished ts t n w e small rows lt wide =
    let filled = fill_rows ts t (ts.rownum t) 0 w in
    let same = fill_rows-same ts t (ts.rownum t) 0 w in
    rows-IsFinished ts t n 2 w filled (send_and_finish ts t)
      (fill_rows-true ts t (ts.rownum t) 0 w rows) same
      (send_and_finish-IsFinished ts t n filled.1 e small
        (subst (λ (f : ℕ → ℕ). f t < n) (sym same.1) lt) wide)

-- In either mode.
abbrev pub produced : Tables → ℕ → World → Option (Bool × World)
produced ts t w = if ts.get_stream then stream_table_data ts t w else create_table_data ts t w

pub produced-IsProduced :
    (ts : Tables) (t n : ℕ) (w : World)
    → ts.to_create t ≡ n
    → ts.table_id t < 255
    → ((file r : ℕ) → ts.produced_row_data t file r ≡ true)
    → w.created t < n
    → n + per_round ts.get_stream ≤ 2 ^ 32
    → (v : World) × (produced ts t w ≡ some (true, v)) × IsProduced ts t n w v
produced-IsProduced ts t n w e small rows lt = by_mode ts.get_stream
  where
    by_mode :
        (stream : Bool)
        → n + per_round stream ≤ 2 ^ 32
        → (v : World) × ((if stream then stream_table_data ts t w else create_table_data ts t w)
            ≡ some (true, v))
          × IsFinished ts t n (per_round stream) w v
    by_mode true wide = stream_table_data-IsFinished ts t n w e small rows lt wide
    by_mode false wide = create_table_data-IsFinished ts t n w e small rows
