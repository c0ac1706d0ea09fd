-- ===== src/Stream/Runs.antt =====
-- The runs of a manager and its threads, as the steps that each makes while the others wait. The
-- manager is between its two calls of `CreateConnection`, or outside of it.
use litealigndata.Prelude.{
  ℕ, ◌≡◌, ◌≢◌, Bool, Option, none, some, List, [], ◌∷◌, ◌++◌, get_elem?, set, ◌==◌, if◌then◌else◌,
}
use litealigndata.Stream.Workers.{
  Worker, init, add_socket, notify, connected, activated, disconnection,
}

pub data Manager : Type 0 where
  idle : Manager
  -- `AddSocket` is done for this thread, and `Notify` is not.
  notifying : ℕ → Manager

pub record System : Type 0 where
  pub manager : Manager
  pub workers : List Worker

pub data Label : Type 0 where
  gave : ℕ → ℕ → Label
  took : ℕ → Option ℕ → Label
  silent : Label

-- The sizes that the manager reads change meanwhile, so the chosen thread is any.
pub data Step (s : System) : Label → System → Type 0 where
  adds :
      (i sock : ℕ) (w : Worker)
      → s.manager ≡ idle
      → get_elem? s.workers i ≡ some w
      → Step s
          (gave i sock)
          (record { manager = notifying i; workers = set s.workers i (add_socket sock w) })
  notifies :
      (i : ℕ) (w : Worker)
      → s.manager ≡ notifying i
      → get_elem? s.workers i ≡ some w
      → Step s silent (record { manager = idle; workers = set s.workers i (notify connected w) })
  -- The pipe can be read.
  wakes :
      (i : ℕ) (inits : ℕ → Bool) (w : Worker)
      → get_elem? s.workers i ≡ some w
      → w.pipe ≢ []
      → Step s
          (took i (activated inits w).1)
          (record { manager = s.manager; workers = set s.workers i (activated inits w).0 })
  leaves :
      (i ac : ℕ) (w : Worker)
      → get_elem? s.workers i ≡ some w
      → Step s silent
          (record { manager = s.manager; workers = set s.workers i (disconnection ac w) })

-- The steps from the start, the last label at the head.
pub data Run (size : ℕ) : List Label → System → Type 0 where
  start : Run size [] (record { manager = idle; workers = init size })
  later :
      {log : List Label} {s t : System} {l : Label}
      → Run size log s
      → Step s l t
      → Run size (l ∷ log) t

-- The sockets that a thread was given, and those that it took, in their order.
unfoldable pub given : ℕ → List Label → List ℕ
given i [] = []
given i (gave j sock ∷ log) = if i == j then given i log ++ sock ∷ [] else given i log
given i (took j fd ∷ log) = given i log
given i (silent ∷ log) = given i log

unfoldable pub optional : Option ℕ → List ℕ
optional none = []
optional (some fd) = fd ∷ []

unfoldable pub taken : ℕ → List Label → List ℕ
unfolding optional
taken i [] = []
taken i (gave j sock ∷ log) = taken i log
taken i (took j fd ∷ log) = if i == j then taken i log ++ optional fd else taken i log
taken i (silent ∷ log) = taken i log
