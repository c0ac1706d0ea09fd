-- ===== src/Sub/Parser/Sizes.antt =====
-- The lengths that the objects are meant to have: that of a structure is the sum of its members', that
-- of a union the largest of them.
use Prim.Native.Nat.{max}
use litealigndata.Prelude.{ℕ, ◌+◌, ◌≡◌, ◌^◌, ◌<◌, suc}
use litealigndata.Com.Types.{find_nametype_len}
use litealigndata.Struct.Objects.{Element, column, structure, union, other, Elements, nil, cons}

abbrev mutual
  pub size_of : Element → ℕ
  size_of (column c) = find_nametype_len c.type
  size_of (structure g kids) = total_of kids
  size_of (union g kids) = largest_of kids
  size_of other = 0

  pub total_of : Elements → ℕ
  total_of nil = 0
  total_of (cons e rest) = size_of e + total_of rest

  pub largest_of : Elements → ℕ
  largest_of nil = 0
  largest_of (cons e rest) = max (size_of e) (largest_of rest)

-- How deep structures and unions stand in one another, and the most members that one has.
abbrev mutual
  pub height : Element → ℕ
  height (column c) = 0
  height (structure g kids) = suc (height_all kids)
  height (union g kids) = suc (height_all kids)
  height other = 0

  pub height_all : Elements → ℕ
  height_all nil = 0
  height_all (cons e rest) = max (height e) (height_all rest)

abbrev pub count : Elements → ℕ
count nil = 0
count (cons e rest) = suc (count rest)

-- Groups of fewer than 2 ^ 28 members, whose lengths sum to less than 2 ^ 32.
abbrev mutual
  pub HasFew : Element → Type 0
  HasFew (column c) = Unit {0}
  HasFew (structure g kids) = (count kids < 2 ^ 28) × (total_of kids < 2 ^ 32) × HaveFew kids
  HasFew (union g kids) = (count kids < 2 ^ 28) × (total_of kids < 2 ^ 32) × HaveFew kids
  HasFew other = Unit {0}

  pub HaveFew : Elements → Type 0
  HaveFew nil = Unit {0}
  HaveFew (cons e rest) = HasFew e × HaveFew rest

-- The second object is the first one with its length, and so are its members.
abbrev mutual
  pub IsMeasured : Element → Element → Type 0
  IsMeasured (column c) (column d) =
      (d.name ≡ c.name)
      × (d.type ≡ c.type)
      × (d.union_flag ≡ c.union_flag)
      × (d.len ≡ find_nametype_len c.type)
  IsMeasured (structure g kids) (structure h kids') =
      (h.name ≡ g.name) × (h.len ≡ total_of kids) × AreMeasured kids kids'
  IsMeasured (union g kids) (union h kids') =
      (h.name ≡ g.name) × (h.len ≡ largest_of kids) × AreMeasured kids kids'
  IsMeasured other other = Unit {0}
  IsMeasured _ _ = ⊥

  pub AreMeasured : Elements → Elements → Type 0
  AreMeasured nil nil = Unit {0}
  AreMeasured nil (cons e' rest') = ⊥
  AreMeasured (cons e rest) nil = ⊥
  AreMeasured (cons e rest) (cons e' rest') = IsMeasured e e' × AreMeasured rest rest'
