-- ===== src/Com/Random/Streams.antt =====
-- What a caller of `rand` may rely on: the range, which threads are served, independent streams.
use litealigndata.Prelude.{
  ℕ, zero, suc, ◌+◌, ◌≤◌, ◌<◌, ◌≡◌, refl, ◌∙◌, ◌⊎◌, Bool-cases, Option, none, some, List, [], ◌∷◌,
  arith, length, length-append, length-set, get_elem?, get_elem?-set_self, get_elem?-set_ne, set,
  get_elem?-in_range, get_elem?-out, lt-length_of_some, ◌==◌, if◌then◌else◌, ◌>>=◌, Option-cases,
  inl, inr, ◌≢◌,
}
use litealigndata.Com.Random.{
  Random, new_random, seeds, lcg, output, slot, rand, max_rand, max_threads,
}

-- Every value drawn is at most MAX_RAND.
pub rand-le-max_rand : (r r' : Random) (thread v : ℕ) → rand r thread ≡ some (v, r') → v ≤ max_rand
unfolding rand output
rand-le-max_rand r r' thread v h = ground arith

length-seeds : (left idx : ℕ) → length (seeds left idx) ≡ left
unfolding seeds
length-seeds zero idx = refl
length-seeds (suc left) idx = omega (arith, length-seeds left (idx + 1))

pub length-new_random : (total : ℕ) → length (new_random total).nexts ≡ total + 1
unfolding new_random
length-new_random total =
    omega (arith, length-append (seeds total 0) ((total + 10) ∷ []), length-seeds total 0)

slot_served :
    (size thread : ℕ)
    → 0 < size
    → size ≤ 33
    → (thread < size) ⊎ (thread ≡ 33)
    → slot size thread < size
unfolding slot
slot_served size thread pos small h = ground arith

slot_refused : (size thread : ℕ) → size ≤ 33 → size ≤ thread → thread ≢ 33 → slot size thread ≡ 34
unfolding slot
slot_refused size thread small h ne = ground arith

-- A generator made for at most 32 threads serves exactly the threads `0 .. total` and the number
-- MAX_THREADS, which stands for the master: those draw a value, and any other thread number makes
-- `rand` read beyond the vector, for the slot that replaces a wrong number does not exist either.
pub rand-new_random :
    (total thread : ℕ)
    → total < max_threads
    → ((thread ≤ total) ⊎ (thread ≡ max_threads)
        → (v : ℕ) × (r : Random) × (rand (new_random total) thread ≡ some (v, r)))
      × (total < thread → thread ≢ max_threads → rand (new_random total) thread ≡ none)
unfolding rand
rand-new_random total thread small = (served, refused)
  where
    made : Random
    made = new_random total

    size : ℕ
    size = length made.nexts

    sized : size ≡ total + 1
    sized = length-new_random total

    served :
        (thread ≤ total) ⊎ (thread ≡ 33)
        → (v : ℕ) × (r : Random) × (rand (new_random total) thread ≡ some (v, r))
    served h =
        let i = slot size thread in
        let below : i < size =
          slot_served size thread (omega (arith, sized)) (omega (arith, sized))
            (ground (arith, sized)) in
        let (s, e) = get_elem?-in_range made.nexts i below in
        (output (lcg s), record made { nexts = set made.nexts i (lcg s) }, ground (arith, e))

    refused : total < thread → thread ≢ 33 → rand (new_random total) thread ≡ none
    refused h ne =
        rw (slot_refused size thread (omega (arith, sized)) (omega (arith, sized)) ne)
          (rw (get_elem?-out made.nexts 34 (omega (arith, sized))))

-- Draws for a schedule of threads, in order.
unfoldable pub draws : Random → List ℕ → Option (List ℕ × Random)
draws r [] = some ([], r)
draws r (t ∷ ts) = rand r t >>= λ p. draws p.1 ts >>= λ q. some (p.0 ∷ q.0, q.1)

-- The values that were drawn through slot `i`.
unfoldable pub drawn_by : ℕ → ℕ → List ℕ → List ℕ → List ℕ
drawn_by size i [] vs = []
drawn_by size i (t ∷ ts) [] = []
drawn_by size i (t ∷ ts) (v ∷ vs) =
    if slot size t == i then v ∷ drawn_by size i ts vs else drawn_by size i ts vs

-- The first `n` values of the generator whose state is `s`.
unfoldable pub stream : ℕ → ℕ → List ℕ
stream s zero = []
stream s (suc n) = output (lcg s) ∷ stream (lcg s) n

rand_step :
    (r r' : Random) (t v : ℕ)
    → rand r t ≡ some (v, r')
    → (s : ℕ) × (get_elem? r.nexts (slot (length r.nexts) t) ≡ some s)
      × (v ≡ output (lcg s))
      × (length r'.nexts ≡ length r.nexts)
      × (get_elem? r'.nexts (slot (length r.nexts) t) ≡ some (lcg s))
      × ((i : ℕ) → slot (length r.nexts) t ≢ i → get_elem? r'.nexts i ≡ get_elem? r.nexts i)
unfolding rand
rand_step r r' t v h = elim (Option-cases (get_elem? r.nexts i)) [
  | inl e ↦ ground arith
  | inr (s, e) ↦ (
    s,
    e,
    ground arith,
    ground (arith, length-set r.nexts i (lcg s)),
    ground (arith, get_elem?-set_self r.nexts i (lcg s), lt-length_of_some r.nexts i s e),
    λ j ne. ground (arith, get_elem?-set_ne r.nexts i j (lcg s) ne),
  )
]
  where
    i : ℕ
    i = slot (length r.nexts) t

draws_cons :
    (r r' : Random) (t : ℕ) (ts vs : List ℕ)
    → draws r (t ∷ ts) ≡ some (vs, r')
    → (v : ℕ) × (r₁ : Random) × (ws : List ℕ) × (rand r t ≡ some (v, r₁))
      × (draws r₁ ts ≡ some (ws, r'))
      × (vs ≡ v ∷ ws)
unfolding draws
draws_cons r r' t ts vs h = elim (Option-cases (rand r t)) [
  | inl e ↦ ground arith
  | inr ((v, r₁), e) ↦ elim (Option-cases (draws r₁ ts)) [
    | inl f ↦ ground arith
    | inr ((ws, r₂), f) ↦ (v, r₁, ws, ground arith, ground arith, ground arith)
  ]
]

draws-stream_sized :
    (size : ℕ) (ts vs : List ℕ) (r r' : Random) (i s : ℕ)
    → length r.nexts ≡ size
    → draws r ts ≡ some (vs, r')
    → get_elem? r.nexts i ≡ some s
    → drawn_by size i ts vs ≡ stream s (length (drawn_by size i ts vs))
unfolding drawn_by stream
draws-stream_sized size [] vs r r' i s n h e = refl
draws-stream_sized size (t ∷ ts) vs r r' i s n h e =
    let (v, r₁, ws, first, rest, split) = draws_cons r r' t ts vs h in
    let (s₁, before, drawn, same_size, own, others) = rand_step r r₁ t v first in
    let later = λ (s' : ℕ) (e' : get_elem? r₁.nexts i ≡ some s').
      draws-stream_sized size ts ws r₁ r' i s' (same_size ∙ n) rest e' in
    rw split (elim (Bool-cases (slot size t == i)) [
      | inl hit ↦ rw hit (ground (arith, later (lcg s) (ground arith)))
      | inr miss ↦ rw miss (later s (ground (arith, others i)))
    ])

-- In any interleaving of draws that all succeed, the values drawn through a slot of the vector are
-- the first values of that slot's own generator: the threads do not disturb one another.
pub draws-stream :
    (ts vs : List ℕ) (r r' : Random) (i s : ℕ)
    → draws r ts ≡ some (vs, r')
    → get_elem? r.nexts i ≡ some s
    → drawn_by (length r.nexts) i ts vs ≡ stream s (length (drawn_by (length r.nexts) i ts vs))
draws-stream ts vs r r' i s = draws-stream_sized (length r.nexts) ts vs r r' i s refl
