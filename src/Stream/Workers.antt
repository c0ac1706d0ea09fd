-- ===== src/Stream/Workers.antt =====
-- `CWorkThread` of src/stream/WorkThread.cc and `CThreadManager` of src/stream/ThreadManager.cc. A
-- client's acceptor is the number of its socket. Whether `CAcceptor::Init` succeeds, which calls
-- libevent, is an argument; the event loop and the thread itself are not modelled.
use litealigndata.Prelude.{
  ℕ, suc, Bool, Option, none, some, List, [], ◌∷◌, ◌++◌, ltb, ◌==◌, if◌then◌else◌, ◌>>=◌, length,
  take, drop, replicate, get_elem?, set, codes, same,
}

-- `pipe` holds the bytes written to `m_pipefd[1]` and not yet read from `m_pipefd[0]`.
pub record Worker : Type 0 where
  pub fd_list : List ℕ
  pub acceptor_list : List ℕ
  pub pipe : List ℕ

-- A thread after `Init`, and the manager's list after its `Init`.
unfoldable pub new_worker : Worker
new_worker = record { fd_list = []; acceptor_list = []; pipe = [] }

unfoldable pub init : ℕ → List Worker
unfolding new_worker
init size = replicate size new_worker

unfoldable pub add_socket : ℕ → Worker → Worker
add_socket fd w = record w { fd_list = w.fd_list ++ fd ∷ [] }

unfoldable pub notify : List ℕ → Worker → Worker
notify sign w = record w { pipe = w.pipe ++ sign }

abbrev pub connected : List ℕ
connected = codes "connected"

-- `m_fd_list` from its front, where the acceptor's `Init` answers `inits` for a socket: the thread
-- afterwards, and the socket that is taken.
unfoldable pub take_socket : (ℕ → Bool) → List ℕ → Worker → Worker × Option ℕ
take_socket inits [] w = (w, none)
take_socket inits (fd ∷ rest) w = (
  record w {
    fd_list = rest;
    acceptor_list = if inits fd then w.acceptor_list ++ fd ∷ [] else w.acceptor_list;
  },
  some fd,
)

-- `Activated`: nine bytes at most are read.
unfoldable pub activated : (ℕ → Bool) → Worker → Worker × Option ℕ
unfolding take_socket
activated inits w =
    let buf = take 9 w.pipe in
    let w' = record w { pipe = drop 9 w.pipe } in
    if same buf connected then take_socket inits w.fd_list w' else (w', none)

-- `std::list::remove`.
unfoldable remove : ℕ → List ℕ → List ℕ
remove ac [] = []
remove ac (x ∷ xs) = if x == ac then remove ac xs else x ∷ remove ac xs

unfoldable pub disconnection : ℕ → Worker → Worker
unfolding remove
disconnection ac w = record w { acceptor_list = remove ac w.acceptor_list }

unfoldable pub size : Worker → ℕ
size w = length w.acceptor_list

-- The loop of `CreateConnection`: `index` is the position of the iterator, and `best` that of `wt`.
unfoldable pub least : ℕ → ℕ → ℕ → List Worker → ℕ
unfolding size
least index min best [] = best
least index min best (w ∷ rest) =
    let smaller = least (suc index) (size w) index rest in
    let same_one = least (suc index) min best rest in if ltb (size w) min then smaller else same_one

-- `CreateConnection`: the chosen thread gets the socket and a notification. Without threads the
-- iterator is invalid.
unfoldable pub create_connection : ℕ → List Worker → Option (List Worker)
unfolding least
create_connection sock [] = none
create_connection sock (first ∷ rest) =
    let workers = first ∷ rest in
    let best = least 0 (size first) 0 workers in
    get_elem? workers best >>= λ w. some (set workers best (notify connected (add_socket sock w)))
