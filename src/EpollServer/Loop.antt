-- ===== src/EpollServer/Loop.antt =====
-- The class Server of the epoll server.
use cpp_programming.Base.{
  ℕ, zero, suc, ◌+◌, ◌/◌, ◌%◌, ◌^◌, Bool, true, false, not, Option, none, some, List, [], ◌∷◌, ◌==◌,
  if◌then◌else◌, length, Exn, out_of_fuel, Result, ok, err,
}
use cpp_programming.Base.Actions.{gives, raises, give, raise, ◌>>=◌, ◌>>◌}
use cpp_programming.Base.Maps.{Dict, lookup, has, insert_sorted}
use cpp_programming.EpollServer.State.{
  Effect, watch, unwatch, close_fd, World, Act, call, set_conns,
}
use cpp_programming.EpollServer.Sessions.{
  ensure, new_connection, can_read, can_write, error_occurred, time_to_exit,
}
use cpp_programming.Text.Calls.{SysRead, SysWrite}

-- The constructor, and then `Listen`, which gives the listening descriptor.
unfoldable pub new : ℕ → List SysRead → List SysWrite → (List Effect → Option Exn) → World
new fd reads writes answers = record {
  listen_fd = fd;
  next_conn_id = 0;
  conns = [];
  sessions = [];
  effects = [];
  reads = reads;
  writes = writes;
  answers = answers;
}

-- What `accept` answers.
abbrev pub accepted : Result ℕ → Act ℕ
accepted (ok fd) s = gives fd s
accepted (err e) s = raises e s

-- `nextConnId++`, in 64 bits.
abbrev pub next_id : Act ℕ
next_id s = let id = (s.next_conn_id + 1) % 2 ^ 64 in gives id (record s { next_conn_id = id })

-- Server::ProcessNewConnection. The session comes first, then its place in the map.
unfoldable pub process_new_connection : Result ℕ → Act (Unit {0})
unfolding has insert_sorted new_connection
process_new_connection a = do
  fd ← accepted a
  (λ s. ensure (not (has fd s.conns)) s)
  id ← next_id
  call (watch fd)
  new_connection id fd
  (λ s. set_conns (insert_sorted fd id s.conns) s)

-- `conns[fd]`: a key that is not there gets the value 0.
abbrev pub found : ℕ → Option ℕ → Act ℕ
unfolding insert_sorted
found fd (some id) s = gives id s
found fd none s = gives 0 (record s { conns = insert_sorted fd 0 s.conns })

unfoldable pub conn_at : ℕ → Act ℕ
unfolding lookup insert_sorted
conn_at fd s = found fd (lookup fd s.conns) s

abbrev pub has_bit : ℕ → ℕ → Bool
has_bit mask value = mask / value % 2 == 1

-- One of the reports of ProcessEvent.
unfoldable pub report : Bool → (ℕ → Act (Unit {0})) → ℕ → Act (Unit {0})
unfolding conn_at
report due f fd = if due then (do id ← conn_at fd; f id) else give tt

-- Server::ProcessEvent, with the values of EPOLLIN, EPOLLOUT and EPOLLERR.
unfoldable pub process_event : ℕ → ℕ → Act (Unit {0})
unfolding has report can_read can_write error_occurred
process_event fd mask = do
  (λ s. ensure (has fd s.conns) s)
  report (has_bit mask 1) can_read fd
  report (has_bit mask 4) can_write fd
  report (has_bit mask 8) error_occurred fd

-- An event that epoll_wait gives, and what `accept` answers if it is one of the listening socket.
pub record Event : Type 0 where
  pub fd : ℕ
  pub mask : ℕ
  pub peer : Result ℕ

unfoldable pub process_one : Event → Act (Unit {0})
unfolding process_new_connection process_event
process_one e s =
    (if e.fd == s.listen_fd then process_new_connection e.peer else process_event e.fd e.mask) s

-- Server::ProcessEvents.
unfoldable pub process_events : List Event → Act (Unit {0})
unfolding process_one
process_events [] = give tt
process_events (e ∷ es) = do process_one e; process_events es

-- The loop of Release: a round for each connection is enough, since each closes one.
abbrev pub release_rest : (ℕ → Act (Unit {0})) → Dict ℕ → Act (Unit {0})
release_rest f [] = give tt
release_rest f ((fd, id) ∷ conns) = f id

unfoldable pub release_loop : ℕ → Act (Unit {0})
unfolding time_to_exit
release_loop zero s = release_rest (λ id. raise out_of_fuel) s.conns s
release_loop (suc f) s = release_rest (λ id. (do time_to_exit id; release_loop f)) s.conns s

-- Server::Release.
unfoldable pub release : Act (Unit {0})
unfolding release_loop
release s =
    (do release_loop (length s.conns); call (unwatch s.listen_fd); call (close_fd s.listen_fd)) s

-- A round of the loop of Start, for what `Wait` gives; `false`: the loop ends.
unfoldable pub start_round : Result (List Event) → Bool → Act Bool
unfolding process_events release
start_round (err e) time_to_exit = raise e
start_round (ok events) false = do process_events events; give true
start_round (ok events) true = do process_events events; release; give false
