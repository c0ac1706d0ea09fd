-- ===== src/Stream/Fifo.antt =====
-- What holds in every run: the notifications match the waiting sockets, and no socket is lost.
use mathlib.Core.List.{append_assoc}
use litealigndata.Prelude.{
  ℕ, zero, suc, ◌+◌, ◌*◌, ◌≡◌, ◌≢◌, refl, sym, ap, ◌∙◌, ◌⊎◌, inl, inr, arith, Bool, true, false,
  Option, some, List, [], ◌∷◌, ◌++◌, length, length-append, get_elem?, set, replicate, ◌==◌,
  if◌then◌else◌, ==_iff,
}
use litealigndata.Stream.Workers.{
  Worker, new_worker, init, add_socket, notify, connected, activated, disconnection,
}
use litealigndata.Stream.Runs.{
  Manager, idle, notifying, System, Label, gave, took, silent, Step, adds, notifies, wakes, leaves,
  Run, start, later, given, optional, taken,
}

-- The bytes of `k` notifications.
notes : ℕ → List ℕ
notes zero = []
notes (suc k) = connected ++ notes k

notes-append : (k : ℕ) → notes k ++ connected ≡ notes (suc k)
unfolding notes
notes-append zero = refl
notes-append (suc k) = ap (λ x. connected ++ x) (notes-append k)

-- A notification that the manager still owes the thread.
pub owed : Manager → ℕ → ℕ
owed idle i = 0
owed (notifying j) i = if i == j then 1 else 0

record IsServed (log : List Label) (m : Manager) (i : ℕ) (w : Worker) : Type 0 where
  notified : ℕ
  bytes : w.pipe ≡ notes notified
  waiting : length w.fd_list ≡ notified + owed m i
  in_order : given i log ≡ taken i log ++ w.fd_list

abbrev Inv : List Label → System → Type 0
Inv log s = (i : ℕ) (w : Worker) → get_elem? s.workers i ≡ some w → IsServed log s.manager i w

set-cases :
    (ws : List Worker) (j i : ℕ) (v w : Worker)
    → get_elem? (set ws j v) i ≡ some w
    → ((i == j ≡ true) × (w ≡ v)) ⊎ ((i == j ≡ false) × (get_elem? ws i ≡ some w))
set-cases [] j i v w e = cc
set-cases (x ∷ ws) zero zero v w e = inl (ground arith, cc)
set-cases (x ∷ ws) zero (suc i) v w e = inr (ground arith, e)
set-cases (x ∷ ws) (suc j) zero v w e = inr (ground arith, e)
set-cases (x ∷ ws) (suc j) (suc i) v w e = ground (arith, set-cases ws j i v w e)

replicate-get : (n i : ℕ) (v w : Worker) → get_elem? (replicate n v) i ≡ some w → w ≡ v
replicate-get zero i v w e = cc
replicate-get (suc n) zero v w e = cc
replicate-get (suc n) (suc i) v w e = replicate-get n i v w e

new_worker-IsServed : (i : ℕ) → IsServed [] idle i new_worker
unfolding new_worker given taken owed
new_worker-IsServed i = record {
  notified = 0;
  bytes = unfold notes in refl;
  waiting = refl;
  in_order = refl;
}

init-Inv : (n : ℕ) → Inv [] (record { manager = idle; workers = init n })
unfolding init
init-Inv n i w e = rw (replicate-get n i new_worker w e) (new_worker-IsServed i)

-- Each step serves the thread that it changes.
add_socket-IsServed :
    {log : List Label} (i j sock : ℕ) (w : Worker)
    → i == j ≡ true
    → IsServed log idle i w
    → IsServed (gave j sock ∷ log) (notifying j) i (add_socket sock w)
unfolding add_socket given taken owed
add_socket-IsServed {log} i j sock w e h = record {
  notified = h.notified;
  bytes = h.bytes;
  waiting = rw e (omega (arith, h.waiting, length-append w.fd_list (sock ∷ [])));
  in_order = rw (e, h.in_order) (append_assoc (taken i log) w.fd_list (sock ∷ []));
}

notify-IsServed :
    {log : List Label} (i j : ℕ) (w : Worker)
    → i == j ≡ true
    → IsServed log (notifying j) i w
    → IsServed (silent ∷ log) idle i (notify connected w)
unfolding notify given taken owed
notify-IsServed i j w e h = record {
  notified = suc h.notified;
  bytes = rw h.bytes (notes-append h.notified);
  waiting =
      let before : length w.fd_list ≡ h.notified + 1 = rw e at h.waiting in omega (arith, before);
  in_order = h.in_order;
}

-- A thread with a notification takes the socket at the front.
activated-front :
    (inits : ℕ → Bool) (w : Worker) (k fd : ℕ) (rest : List ℕ)
    → w.pipe ≡ notes (suc k)
    → w.fd_list ≡ fd ∷ rest
    → activated inits w ≡ (
      record {
        fd_list = rest;
        acceptor_list = if inits fd then w.acceptor_list ++ fd ∷ [] else w.acceptor_list;
        pipe = notes k;
      },
      some fd,
    )
unfolding activated notes
activated-front inits w k fd rest e f = rw (e, f) refl

wakes-IsServed :
    {log : List Label} {m : Manager} (i j : ℕ) (inits : ℕ → Bool) (w : Worker)
    → i == j ≡ true
    → w.pipe ≢ []
    → IsServed log m i w
    → IsServed (took j (activated inits w).1 ∷ log) m i (activated inits w).0
wakes-IsServed {log} {m} i j inits w e busy h = go h.notified w.fd_list refl refl
  where
    go :
        (k : ℕ) (fds : List ℕ)
        → h.notified ≡ k
        → w.fd_list ≡ fds
        → IsServed (took j (activated inits w).1 ∷ log) m i (activated inits w).0
    go zero fds f g = absurd (busy (h.bytes ∙ ap notes f ∙ unfold notes in refl))
    go (suc k) [] f g = absurd (omega (arith, h.waiting, ap length g))
    go (suc k) (fd ∷ rest) f g =
        rw (activated-front inits w k fd rest (h.bytes ∙ ap notes f) g) (record {
          notified = k;
          bytes = refl;
          waiting = omega (arith, h.waiting, ap length g);
          in_order =
              unfold given taken optional in
              rw e (
                h.in_order
                ∙ ap (λ x. taken i log ++ x) g
                ∙ sym (append_assoc (taken i log) (fd ∷ []) rest));
        })

-- The other threads do not see a step.
adds-other :
    {log : List Label} (i j sock : ℕ) (w : Worker)
    → i == j ≡ false
    → IsServed log idle i w
    → IsServed (gave j sock ∷ log) (notifying j) i w
unfolding given taken owed
adds-other i j sock w e h = record {
  notified = h.notified;
  bytes = h.bytes;
  waiting = rw e h.waiting;
  in_order = rw e h.in_order;
}

notifies-other :
    {log : List Label} (i j : ℕ) (w : Worker)
    → i == j ≡ false
    → IsServed log (notifying j) i w
    → IsServed (silent ∷ log) idle i w
unfolding given taken owed
notifies-other i j w e h = record {
  notified = h.notified;
  bytes = h.bytes;
  waiting = rw e at h.waiting;
  in_order = h.in_order;
}

wakes-other :
    {log : List Label} {m : Manager} (i j : ℕ) (fd : Option ℕ) (w : Worker)
    → i == j ≡ false
    → IsServed log m i w
    → IsServed (took j fd ∷ log) m i w
unfolding given taken
wakes-other i j fd w e h = record {
  notified = h.notified;
  bytes = h.bytes;
  waiting = h.waiting;
  in_order = rw e h.in_order;
}

leaves-IsServed :
    {log : List Label} {m : Manager} (i ac : ℕ) (w : Worker)
    → IsServed log m i w
    → IsServed (silent ∷ log) m i (disconnection ac w) × IsServed (silent ∷ log) m i w
unfolding disconnection given taken
leaves-IsServed i ac w h = (
  record { notified = h.notified; bytes = h.bytes; waiting = h.waiting; in_order = h.in_order },
  record { notified = h.notified; bytes = h.bytes; waiting = h.waiting; in_order = h.in_order },
)

same_worker :
    (ws : List Worker) (i j : ℕ) (w : Worker)
    → i == j ≡ true
    → get_elem? ws j ≡ some w
    → get_elem? ws i ≡ some w
same_worker ws i j w here e = ap (get_elem? ws) ((==_iff i j).0 here) ∙ e

Step-Inv : {log : List Label} {s t : System} {l : Label} → Inv log s → Step s l t → Inv (l ∷ log) t
Step-Inv {s} inv (adds j sock w quiet e) i v f = elim (set-cases s.workers j i _ v f) [
  | inl (here, changed) ↦ rw changed (
      add_socket-IsServed i j sock w here
        (rw quiet at (inv i w (same_worker s.workers i j w here e))))
  | inr (off, before) ↦ adds-other i j sock v off (rw quiet at (inv i v before))
]
Step-Inv {s} inv (notifies j w owes e) i v f = elim (set-cases s.workers j i _ v f) [
  | inl (here, changed) ↦
      rw changed
        (notify-IsServed i j w here (rw owes at (inv i w (same_worker s.workers i j w here e))))
  | inr (off, before) ↦ notifies-other i j v off (rw owes at (inv i v before))
]
Step-Inv {s} inv (wakes j inits w e busy) i v f = elim (set-cases s.workers j i _ v f) [
  | inl (here, changed) ↦
      rw changed
        (wakes-IsServed i j inits w here busy (inv i w (same_worker s.workers i j w here e)))
  | inr (off, before) ↦ wakes-other i j (activated inits w).1 v off (inv i v before)
]
Step-Inv {s} inv (leaves j ac w e) i v f = elim (set-cases s.workers j i _ v f) [
  | inl (here, changed) ↦
      rw changed (leaves-IsServed i ac w (inv i w (same_worker s.workers i j w here e))).0
  | inr (off, before) ↦ (leaves-IsServed i ac v (inv i v before)).1
]

Run-Inv : {size : ℕ} {log : List Label} {s : System} → Run size log s → Inv log s
Run-Inv {size} start = init-Inv size
Run-Inv (later r st) = Step-Inv (Run-Inv r) st

length-notes : (k : ℕ) → length (notes k) ≡ 9 * k
unfolding notes
length-notes zero = refl
length-notes (suc k) = omega (arith, length-append connected (notes k), length-notes k)

-- In every run, for every thread, in whatever order the manager and the threads go on: the
-- sockets that the thread was given are those that it took and then those that wait, in this order,
-- so that none is lost, doubled or passed over; and as many notifications, of nine bytes each, are in
-- its pipe as sockets wait, or one less while the manager is between its two calls for this thread.
pub Run-in_order :
    {size : ℕ} {log : List Label} {s : System} (i : ℕ) {w : Worker}
    → Run size log s
    → get_elem? s.workers i ≡ some w
    → (given i log ≡ taken i log ++ w.fd_list)
      × (9 * length w.fd_list ≡ length w.pipe + 9 * owed s.manager i)
Run-in_order {log} {s} i {w} r e =
    (h.in_order, omega (arith, h.waiting, ap length h.bytes, length-notes h.notified))
  where
    h : IsServed log s.manager i w
    h = Run-Inv r i w e

-- In every run, a thread whose pipe can be read takes the socket that has waited the longest: the
-- notification is valid and a socket is there. Its acceptor is added if its `Init` succeeds.
pub Run-activated :
    {size : ℕ} {log : List Label} {s : System} (i : ℕ) {w : Worker} (inits : ℕ → Bool)
    → Run size log s
    → get_elem? s.workers i ≡ some w
    → w.pipe ≢ []
    → (fd : ℕ) × ((activated inits w).1 ≡ some fd)
      × (w.fd_list ≡ fd ∷ (activated inits w).0.fd_list)
      × ((activated inits w).0.acceptor_list
          ≡ (if inits fd then w.acceptor_list ++ fd ∷ [] else w.acceptor_list))
Run-activated {log} {s} i {w} inits r e busy = go h.notified w.fd_list refl refl
  where
    h : IsServed log s.manager i w
    h = Run-Inv r i w e

    go :
        (k : ℕ) (fds : List ℕ)
        → h.notified ≡ k
        → w.fd_list ≡ fds
        → (fd : ℕ) × ((activated inits w).1 ≡ some fd)
          × (w.fd_list ≡ fd ∷ (activated inits w).0.fd_list)
          × ((activated inits w).0.acceptor_list
              ≡ (if inits fd then w.acceptor_list ++ fd ∷ [] else w.acceptor_list))
    go zero fds f g = absurd (busy (h.bytes ∙ ap notes f ∙ unfold notes in refl))
    go (suc k) [] f g = absurd (omega (arith, h.waiting, ap length g))
    go (suc k) (fd ∷ rest) f g =
        let now = activated-front inits w k fd rest (h.bytes ∙ ap notes f) g in
        (fd, rw now refl, rw now g, rw now refl)
