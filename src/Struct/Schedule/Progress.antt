-- ===== src/Struct/Schedule/Progress.antt =====
-- What every step of the production keeps: a table that is done stays done, and its number of files
-- grows just where it becomes done, which needs that all tables that it depends on are done.
use litealigndata.Prelude.{
  ℕ, zero, suc, ◌+◌, ◌≡◌, refl, sym, ap, ◌∙◌, arith, Bool, true, false, Bool-cases, ◌⊎◌, inl, inr,
  Option, none, some, List, [], ◌∷◌, ◌==◌, ==_iff, if◌then◌else◌, u32,
}
use litealigndata.Struct.Schedule.{
  TableStatus, Tables, World, put, is_done, all_done, made_ready, check_status, fill_rows, and_then,
}

pub put_self {ℓ} : {A : Type ℓ} (f : ℕ → A) (t : ℕ) (v : A) → put f t v t ≡ v
put_self f t v = rw ((==_iff t t).1 refl)

pub put_other {ℓ} :
    {A : Type ℓ} (f : ℕ → A) (t k : ℕ) (v : A) → (k == t) ≡ false → put f t v k ≡ f k
put_other f t k v e = rw e

-- A result that there is satisfies `P`.
abbrev pub Safe : (World → Type 0) → Option (Bool × World) → Type 0
Safe P none = Unit
Safe P (some r) = P r.1

pub if-Safe :
    (P : World → Type 0) (b : Bool) (x y : Option (Bool × World))
    → (b ≡ true → Safe P x)
    → (b ≡ false → Safe P y)
    → Safe P (if b then x else y)
if-Safe P true x y h g = h refl
if-Safe P false x y h g = g refl

pub and_then-Safe :
    (P Q : World → Type 0) (o : Option (Bool × World)) (k : World → Option (Bool × World))
    → Safe P o
    → ((u : World) → P u → Q u)
    → ((u : World) → P u → Safe Q (k u))
    → Safe Q (and_then o k)
unfolding and_then
and_then-Safe P Q none k h m g = tt
and_then-Safe P Q (some (true, w)) k h m g = g w h
and_then-Safe P Q (some (false, w)) k h m g = m w h

-- Done tables depend on done tables only.
abbrev pub InOrder : Tables → World → Type 0
InOrder ts w = (k : ℕ) → is_done (w.status k) ≡ true → all_done w (ts.dep_tables k) ≡ true

-- How much the number of files of a table grows where it becomes done: a streamed file counts twice.
abbrev pub per_round : Bool → ℕ
per_round false = 1
per_round true = 2

abbrev pub counted : Bool → ℕ → ℕ
counted stream c = u32 (c + per_round stream)

abbrev pub IsOnce : Bool → World → World → ℕ → Type 0
IsOnce stream w v k =
    ((is_done (w.status k) ≡ true) × (is_done (v.status k) ≡ true) × (v.created k ≡ w.created k))
    ⊎ (((is_done (w.status k) ≡ false)
          × (is_done (v.status k) ≡ false)
          × (v.created k ≡ w.created k))
        ⊎ ((is_done (w.status k) ≡ false)
            × (is_done (v.status k) ≡ true)
            × (v.created k ≡ counted stream (w.created k))))

pub record Progress (ts : Tables) (w v : World) : Type 0 where
  pub ordered : InOrder ts v
  pub once : (k : ℕ) → IsOnce ts.get_stream w v k

refl-IsOnce : (stream : Bool) (w : World) (k : ℕ) → IsOnce stream w w k
refl-IsOnce stream w k = elim (Bool-cases (is_done (w.status k))) [
  | inl e ↦ inl (e, e, refl)
  | inr e ↦ inr (inl (e, e, refl))
]

trans-IsOnce :
    (stream : Bool) (u v w : World) (k : ℕ)
    → IsOnce stream u v k
    → IsOnce stream v w k
    → IsOnce stream u w k
trans-IsOnce stream u v w k h g = ground arith

pub refl-Progress : (ts : Tables) (w : World) → InOrder ts w → Progress ts w w
refl-Progress ts w h = record { ordered = h; once = refl-IsOnce ts.get_stream w }

pub trans-Progress :
    (ts : Tables) (u v w : World) → Progress ts u v → Progress ts v w → Progress ts u w
trans-Progress ts u v w h g = record {
  ordered = g.ordered;
  once = λ k. trans-IsOnce ts.get_stream u v w k (h.once k) (g.once k);
}

-- What is done stays done, so that a list of tables that are all done stays one.
pub all_done_mono :
    (w v : World) (ds : List ℕ)
    → ((k : ℕ) → is_done (w.status k) ≡ true → is_done (v.status k) ≡ true)
    → all_done w ds ≡ true
    → all_done v ds ≡ true
unfolding all_done
all_done_mono w v [] h e = refl
all_done_mono w v (d ∷ rest) h e = ground (arith, h d, all_done_mono w v rest h)

pub same_done-Progress :
    (ts : Tables) (w v : World)
    → ((k : ℕ) → is_done (v.status k) ≡ is_done (w.status k))
    → ((k : ℕ) → v.created k ≡ w.created k)
    → InOrder ts w
    → Progress ts w v
same_done-Progress ts w v h c o = record {
  ordered = λ k d. all_done_mono w v (ts.dep_tables k) (λ j e. h j ∙ e) (o k (sym (h k) ∙ d));
  once = λ k. elim (Bool-cases (is_done (w.status k))) [
    | inl e ↦ inl (e, h k ∙ e, c k)
    | inr e ↦ inr (inl (e, h k ∙ e, c k))
  ];
}

is_done-made_ready : (s : TableStatus) → is_done (made_ready s) ≡ is_done s
unfolding made_ready
is_done-made_ready TableStatus.not_ready = refl
is_done-made_ready TableStatus.ready = refl
is_done-made_ready TableStatus.done = refl

put-is_done :
    (f : ℕ → TableStatus) (t k : ℕ) (s : TableStatus)
    → is_done s ≡ is_done (f t)
    → is_done (put f t s k) ≡ is_done (f k)
put-is_done f t k s e = ground (arith, ap (λ n. is_done (f n)))

pub check_status-same_done :
    (ts : Tables) (t k : ℕ) (w : World)
    → InOrder ts w
    → is_done ((check_status ts t w).status k) ≡ is_done (w.status k)
unfolding check_status
check_status-same_done ts t k w h = elim (Bool-cases (all_done w (ts.dep_tables t))) [
  | inl e ↦ rw e (put-is_done w.status t k _ (is_done-made_ready (w.status t)))
  | inr e ↦ rw e (put-is_done w.status t k _ (ground (arith, h t)))
]

check_status-created :
    (ts : Tables) (t k : ℕ) (w : World) → (check_status ts t w).created k ≡ w.created k
unfolding check_status
check_status-created ts t k w = ground arith

pub check_status-Progress :
    (ts : Tables) (t : ℕ) (w : World) → InOrder ts w → Progress ts w (check_status ts t w)
check_status-Progress ts t w h =
    same_done-Progress ts w (check_status ts t w) (λ k. check_status-same_done ts t k w h)
      (λ k. check_status-created ts t k w) h

-- The rows change neither the states nor the numbers of files.
pub fill_rows-same :
    (ts : Tables) (t left row : ℕ) (w : World)
    → let v = (fill_rows ts t left row w).1 in
      (v.status ≡ w.status) × (v.created ≡ w.created) × (v.full ≡ w.full)
unfolding fill_rows
fill_rows-same ts t zero row w = (refl, refl, refl)
fill_rows-same ts t (suc left) row w =
    elim (Bool-cases (ts.produced_row_data t (w.created t) row)) [
      | inl e ↦ rw e (fill_rows-same ts t left (suc row) _)
      | inr e ↦ rw e (refl, refl, refl)
    ]
