-- ===== src/Stream/Examples.antt =====
-- Runs of the theorems about the threads.
use litealigndata.Prelude.{
  ℕ, ◌+◌, ◌*◌, ◌≡◌, ◌≢◌, refl, ap, arith, true, some, List, [], ◌∷◌, ◌++◌, length, set,
  if◌then◌else◌,
}
use litealigndata.Stream.Workers.{
  Worker, init, new_worker, add_socket, notify, connected, activated, create_connection,
}
use litealigndata.Stream.Runs.{
  idle, System, Label, gave, silent, adds, notifies, Run, start, later, given, taken,
}
use litealigndata.Stream.Fifo.{owed, Run-in_order, Run-activated}
use litealigndata.Stream.Least.{IsLeast, create_connection-IsLeast}

-- A thread that has one socket and a notification of it.
abbrev waiting : Worker
waiting = record { fd_list = 5 ∷ []; acceptor_list = []; pipe = connected }

abbrev waiting_system : System
waiting_system = record { manager = idle; workers = waiting ∷ [] }

abbrev one_given : List Label
one_given = silent ∷ gave 0 5 ∷ []

one_given-Run : Run 1 one_given waiting_system
unfolding init new_worker add_socket notify
one_given-Run =
    later (later start (adds 0 5 new_worker refl refl))
      (notifies 0 (add_socket 5 new_worker) refl refl)

connected_some : connected ≢ []
connected_some e = absurd (omega (arith, ap length e))

Run-in_order_example :
    (given 0 one_given ≡ taken 0 one_given ++ waiting.fd_list)
    × (9 * length waiting.fd_list ≡ length waiting.pipe + 9 * owed idle 0)
Run-in_order_example = Run-in_order 0 one_given-Run refl

Run-activated_example :
    (fd : ℕ) × ((activated (λ fd. true) waiting).1 ≡ some fd)
    × (waiting.fd_list ≡ fd ∷ (activated (λ fd. true) waiting).0.fd_list)
    × ((activated (λ fd. true) waiting).0.acceptor_list
        ≡ (if true then waiting.acceptor_list ++ fd ∷ [] else waiting.acceptor_list))
Run-activated_example = Run-activated 0 (λ fd. true) one_given-Run refl connected_some

-- A thread with two clients, one with one, and one more.
abbrev busy : List ℕ → Worker
busy clients = record { fd_list = []; acceptor_list = clients; pipe = [] }

abbrev others : List Worker
others = busy (4 ∷ []) ∷ busy (6 ∷ []) ∷ []

create_connection-IsLeast_example :
    (k : ℕ) × (w : Worker) × IsLeast (busy (2 ∷ 3 ∷ []) ∷ others) k w
    × (create_connection 9 (busy (2 ∷ 3 ∷ []) ∷ others)
        ≡ some (set (busy (2 ∷ 3 ∷ []) ∷ others) k (notify connected (add_socket 9 w))))
create_connection-IsLeast_example = create_connection-IsLeast 9 (busy (2 ∷ 3 ∷ [])) others
