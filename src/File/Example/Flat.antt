-- ===== src/File/Example/Flat.antt =====
-- Without unions, both directions go through the columns of the tree from left to right.
use mathlib.Core.Path.{fun_ext}
use litealigndata.Prelude.{
  ℕ, ◌≡◌, refl, sym, ap, ◌∙◌, false, Bool, u32, Option, none, some, List, [], ◌∷◌, ◌++◌, ◌>>=◌,
  if◌then◌else◌,
}
use litealigndata.Com.Text.{atol}
use litealigndata.Struct.Objects.{
  Column, Element, column, structure, union, other, Elements, nil, cons,
}
use litealigndata.File.Example.{write_field, write_column, write_first, write_all}
use litealigndata.File.Example.Reading.{Cursor, entry_field, entry_column, entry_first, entry_all}

-- No column chooses a member of a union, and there is no union.
abbrev mutual
  pub IsPlain : Element → Type 0
  IsPlain (column c) = c.union_flag ≡ false
  IsPlain (structure g kids) = ArePlain kids
  IsPlain (union g kids) = ⊥
  IsPlain other = Unit {0}

  pub ArePlain : Elements → Type 0
  ArePlain nil = Unit {0}
  ArePlain (cons e rest) = IsPlain e × ArePlain rest

abbrev mutual
  pub columns_of : Element → List Column
  columns_of (column c) = c ∷ []
  columns_of (structure g kids) = columns kids
  columns_of (union g kids) = []
  columns_of other = []

  pub columns : Elements → List Column
  columns nil = []
  columns (cons e rest) = columns_of e ++ columns rest

module _ {S : Type 0} (step : Column → S → Option S) where
  unfoldable pub visit : List Column → S → Option S
  visit [] s = some s
  visit (c ∷ cs) s = step c s >>= λ t. visit cs t

  visit-append : (cs ds : List Column) (s : S) → visit (cs ++ ds) s ≡ (visit cs s >>= visit ds)
  unfolding visit
  visit-append [] ds s = refl
  visit-append (c ∷ cs) ds s = go (step c s) (visit-append cs ds)
    where
      go :
          (o : Option S)
          → ((t : S) → visit (cs ++ ds) t ≡ (visit cs t >>= visit ds))
          → (o >>= λ t. visit (cs ++ ds) t) ≡ ((o >>= λ t. visit cs t) >>= visit ds)
      go none h = refl
      go (some t) h = h t

abbrev pub write_step : ℕ → List ℕ → Column → List ℕ → Option (List ℕ)
write_step p_data mem c encoded = write_field c p_data mem encoded >>= λ r. some r.0

abbrev pub entry_step : List ℕ → Column → Cursor → Option Cursor
entry_step line c cur = entry_field c line cur >>= λ r. some r.0

-- What a list does, by its first object and the others.
rest_first :
    {S : Type 0} (step : Column → S → Option S) (cs ds : List Column) (s : S) (o : Option S)
    (more : S → Option S)
    → o ≡ visit step cs s
    → ((t : S) → more t ≡ visit step ds t)
    → (o >>= more) ≡ visit step (cs ++ ds) s
rest_first step cs ds s o more e h =
    ap (λ x. x >>= more) e
    ∙ ap (λ f. visit step cs s >>= f) (fun_ext h)
    ∙ sym (visit-append step cs ds s)

-- A column that chooses no member.
plain_step :
    {S A : Type 0} (o : Option (S × A)) (flag : Bool) (chosen : S × A → Option S)
    → flag ≡ false
    → (o >>= λ r. if flag then chosen r else some r.0) ≡ ((o >>= λ r. some r.0) >>= λ t. some t)
plain_step none flag chosen e = refl
plain_step (some r) flag chosen e = rw e refl

visit_one :
    {S : Type 0} (step : Column → S → Option S) (c : Column) (s : S)
    → visit step (c ∷ []) s ≡ (step c s >>= λ t. some t)
unfolding visit
visit_one step c s = refl

visit_none : {S : Type 0} (step : Column → S → Option S) (s : S) → some s ≡ visit step [] s
unfolding visit
visit_none step s = refl

mutual
  unfolding write_column

  write_column-columns :
      (e : Element) (next : ℕ → List ℕ → Option (List ℕ)) (p_data : ℕ) (mem encoded : List ℕ)
      → IsPlain e
      → write_column e next 0 p_data mem encoded
        ≡ visit (write_step p_data mem) (columns_of e) encoded
  write_column-columns (column c) next p_data mem encoded h =
      plain_step (write_field c p_data mem encoded) c.union_flag (λ r. r.1 >>= λ v. next v r.0) h
      ∙ sym (visit_one (write_step p_data mem) c encoded)
  write_column-columns (structure g kids) next p_data mem encoded h =
      write_all-columns kids p_data mem encoded h
  write_column-columns (union g kids) next p_data mem encoded h = absurd h
  write_column-columns other next p_data mem encoded h = visit_none (write_step p_data mem) encoded

  pub write_all-columns :
      (es : Elements) (p_data : ℕ) (mem encoded : List ℕ)
      → ArePlain es
      → write_all es p_data mem encoded ≡ visit (write_step p_data mem) (columns es) encoded
  write_all-columns nil p_data mem encoded h = visit_none (write_step p_data mem) encoded
  write_all-columns (cons e rest) p_data mem encoded h =
      rest_first (write_step p_data mem) (columns_of e) (columns rest) encoded
        (write_column e (write_first rest p_data mem) 0 p_data mem encoded)
        (write_all rest p_data mem)
        (write_column-columns e (write_first rest p_data mem) p_data mem encoded h.0)
        (λ t. write_all-columns rest p_data mem t h.1)

mutual
  unfolding entry_column

  entry_column-columns :
      (e : Element) (next : ℕ → Cursor → Option Cursor) (line : List ℕ) (cur : Cursor)
      → IsPlain e
      → entry_column e next 0 line cur ≡ visit (entry_step line) (columns_of e) cur
  entry_column-columns (column c) next line cur h =
      plain_step (entry_field c line cur) c.union_flag (λ r. next (u32 (atol r.1)) r.0) h
      ∙ sym (visit_one (entry_step line) c cur)
  entry_column-columns (structure g kids) next line cur h = entry_all-columns kids line cur h
  entry_column-columns (union g kids) next line cur h = absurd h
  entry_column-columns other next line cur h = visit_none (entry_step line) cur

  pub entry_all-columns :
      (es : Elements) (line : List ℕ) (cur : Cursor)
      → ArePlain es
      → entry_all es line cur ≡ visit (entry_step line) (columns es) cur
  entry_all-columns nil line cur h = visit_none (entry_step line) cur
  entry_all-columns (cons e rest) line cur h =
      rest_first (entry_step line) (columns_of e) (columns rest) cur
        (entry_column e (entry_first rest line) 0 line cur) (entry_all rest line)
        (entry_column-columns e (entry_first rest line) line cur h.0)
        (λ t. entry_all-columns rest line t h.1)
