-- ===== src/Stream/Least.antt =====
-- Which thread `CreateConnection` chooses.
use litealigndata.Prelude.{
  ℕ, suc, ◌+◌, ◌≤◌, ◌<◌, ◌≡◌, refl, ◌⊎◌, inl, inr, arith, true, false, Bool-cases, some, List, [],
  ◌∷◌, ltb, get_elem?, set, take,
}
use litealigndata.Stream.Workers.{
  Worker, size, least, create_connection, notify, connected, add_socket,
}

abbrev pub All : (Worker → Type 0) → List Worker → Type 0
All P [] = Unit {0}
All P (w ∷ ws) = P w × All P ws

-- `w` is the thread at `k`, no thread has fewer clients than it, and those before it have more.
pub record IsLeast (ws : List Worker) (k : ℕ) (w : Worker) : Type 0 where
  pub found : get_elem? ws k ≡ some w
  pub fewest : All (λ v. size w ≤ size v) ws
  pub first : All (λ v. size w < size v) (take k ws)

All-weaken :
    (a b : ℕ) (ws : List Worker) → a ≤ b → All (λ v. b ≤ size v) ws → All (λ v. a ≤ size v) ws
All-weaken a b [] h p = tt
All-weaken a b (w ∷ ws) h p = (omega arith, All-weaken a b ws h p.1)

-- What the loop adds to the thread that it holds.
abbrev Outcome : ℕ → ℕ → ℕ → List Worker → Type 0
Outcome index min best ws =
    ((least index min best ws ≡ best) × All (λ v. min ≤ size v) ws)
    ⊎ ((k : ℕ) × (w : Worker) × (least index min best ws ≡ index + k)
        × (size w < min)
        × IsLeast ws k w)

smaller-Outcome :
    (index min best : ℕ) (w : Worker) (ws : List Worker)
    → ltb (size w) min ≡ true
    → Outcome (suc index) (size w) index ws
    → Outcome index min best (w ∷ ws)
unfolding least
smaller-Outcome index min best w ws e (inl (same, all)) = inr (
  0,
  w,
  rw e (omega (arith, same)),
  ground arith,
  record { found = refl; fewest = (omega arith, all); first = tt },
)
smaller-Outcome index min best w ws e (inr (k, v, at, less, l)) = inr (
  suc k,
  v,
  rw e (omega (arith, at)),
  ground arith,
  record { found = l.found; fewest = (omega arith, l.fewest); first = (less, l.first) },
)

other-Outcome :
    (index min best : ℕ) (w : Worker) (ws : List Worker)
    → ltb (size w) min ≡ false
    → Outcome (suc index) min best ws
    → Outcome index min best (w ∷ ws)
unfolding least
other-Outcome index min best w ws e (inl (same, all)) = inl (rw e same, (ground arith, all))
other-Outcome index min best w ws e (inr (k, v, at, less, l)) = inr (
  suc k,
  v,
  rw e (omega (arith, at)),
  less,
  record { found = l.found; fewest = (ground arith, l.fewest); first = (ground arith, l.first) },
)

least-Outcome : (index min best : ℕ) (ws : List Worker) → Outcome index min best ws
least-Outcome index min best [] = inl (unfold least in refl, tt)
least-Outcome index min best (w ∷ ws) = elim (Bool-cases (ltb (size w) min)) [
  | inl e ↦ smaller-Outcome index min best w ws e (least-Outcome (suc index) (size w) index ws)
  | inr e ↦ other-Outcome index min best w ws e (least-Outcome (suc index) min best ws)
]

-- With a thread at least, while no thread changes meanwhile: the first of the threads with the
-- fewest clients gets the socket, behind those that wait there, and a notification; the others stay
-- as they are.
pub create_connection-IsLeast :
    (sock : ℕ) (first : Worker) (rest : List Worker)
    → (k : ℕ) × (w : Worker) × IsLeast (first ∷ rest) k w
      × (create_connection sock (first ∷ rest)
          ≡ some (set (first ∷ rest) k (notify connected (add_socket sock w))))
unfolding create_connection
create_connection-IsLeast sock first rest = elim (least-Outcome 0 (size first) 0 (first ∷ rest)) [
  | inl (same, all) ↦ (0, first, record { found = refl; fewest = all; first = tt }, rw same refl)
  | inr (k, w, at, less, l) ↦
      let here : least 0 (size first) 0 (first ∷ rest) ≡ k = omega (arith, at) in
      (k, w, l, rw (here, l.found) refl)
]
