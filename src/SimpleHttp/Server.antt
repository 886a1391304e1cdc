-- ===== src/SimpleHttp/Server.antt =====
-- simple_http/tcp_server/src/server.cpp: the classes SocketMap and Server, with the calls of the
-- class Epoll. What the kernel answers is an argument; the calls of the kernel and of the reporting
-- functions are kept as a list of effects.
pub mod Sockets
pub mod Events
pub mod Reports
use cpp_programming.Base.{
  ℕ, zero, suc, ◌+◌, ◌-◌, ◌*◌, ◌/◌, ◌%◌, ◌^◌, ◌≤◌, ◌<◌, pred, ◌≡◌, refl, sym, ap, ◌∙◌, subst, ◌≢◌,
  ◌↔◌, ◌⊎◌, inl, inr, Bool, true, false, ◌&&◌, ◌||◌, not, Option, none, some, List, [], ◌∷◌, ◌++◌,
  map, append-nil, append_assoc, arith, ltb, leb, ◌==◌, if◌then◌else◌, ==_iff, ==_refl, Bool-cases,
  Option-cases, length, is_empty, get_elem?, set, take, drop, All, length-append, length-drop,
  length-take, take-append-drop, take-append, drop-append, length-set, Exn, runtime_error,
  invalid_argument, out_of_range, out_of_fuel, undefined, blocked, system_error, Outcome, returned,
  threw, Result, ok, err,
}
use cpp_programming.Base.Actions.{
  Reply, gives, raises, Action, give, raise, and_then, ◌>>=◌, ◌>>◌, when, swallow, try_log,
  state_of,
}

-- `std::map<int, uint64_t>`, in the order of the descriptors.
abbrev pub Sockets : Type 0
Sockets = List (ℕ × ℕ)

-- `sockets[fd] = id`, `sockets.erase(fd)` and the value of a key.
unfoldable pub insert : ℕ → ℕ → Sockets → Sockets
insert fd id [] = (fd, id) ∷ []
insert fd id ((g, j) ∷ s) =
    let rest = insert fd id s in
    if ltb fd g then (fd, id) ∷ (g, j) ∷ s else if fd == g then (fd, id) ∷ s else (g, j) ∷ rest

unfoldable pub remove : ℕ → Sockets → Sockets
remove fd [] = []
remove fd ((g, j) ∷ s) = let rest = remove fd s in if fd == g then rest else (g, j) ∷ rest

unfoldable pub lookup : ℕ → Sockets → Option ℕ
lookup fd [] = none
lookup fd ((g, j) ∷ s) = let rest = lookup fd s in if fd == g then some j else rest

-- The calls of the kernel and of the functions that `RegisterReportFunctions` sets.
pub data Effect : Type 0 where
  watch unwatch close_fd : ℕ → Effect
  new_connection : ℕ → ℕ → Effect
  can_read can_write error_occurred time_to_exit : ℕ → Effect

pub record Server : Type 0 where
  pub listen_fd : ℕ
  pub next_conn_id : ℕ
  pub sockets : Sockets
  pub effects : List Effect

abbrev pub Act {ℓ} : Type ℓ → Type ℓ
Act A = Action Server A

-- The constructor, and then `Listen`.
unfoldable pub new : ℕ → Server
new fd = record { listen_fd = fd; next_conn_id = 0; sockets = []; effects = [] }

-- How a call of the kernel ends: the exception that it makes its caller throw.
abbrev pub Answer : Type 0
Answer = Option Exn

abbrev pub emit : Effect → Act (Unit {0})
emit e s = gives tt (record s { effects = s.effects ++ e ∷ [] })

abbrev pub answered : Answer → Act (Unit {0})
answered none s = gives tt s
answered (some e) s = raises e s

-- Epoll::Add, Epoll::Delete, Server::CloseFd.
unfoldable pub epoll_add : Answer → ℕ → Act (Unit {0})
epoll_add a fd = do emit (watch fd); answered a

unfoldable pub epoll_delete : Answer → ℕ → Act (Unit {0})
epoll_delete a fd = do emit (unwatch fd); answered a

unfoldable pub server_close_fd : Answer → ℕ → Act (Unit {0})
server_close_fd a fd = do emit (close_fd fd); answered a

abbrev set_sockets : Sockets → Act (Unit {0})
set_sockets t s = gives tt (record s { sockets = t })

-- SocketMap. `GetValue` puts a missing key into the map with the value 0.
unfoldable pub socket_add : ℕ → ℕ → Act (Unit {0})
unfolding insert
socket_add fd id s = set_sockets (insert fd id s.sockets) s

unfoldable pub socket_delete : ℕ → Act (Unit {0})
unfolding remove lookup
socket_delete fd s = elim (lookup fd s.sockets) [
  | none ↦ raises runtime_error s
  | some id ↦ set_sockets (remove fd s.sockets) s
]

unfoldable pub socket_get_value : ℕ → Act ℕ
unfolding insert lookup
socket_get_value fd s = elim (lookup fd s.sockets) [
  | none ↦ gives 0 (record s { sockets = insert fd 0 s.sockets })
  | some id ↦ gives id s
]

unfoldable pub check_socket_exist : ℕ → Act Bool
unfolding lookup
check_socket_exist fd s = gives (elim (lookup fd s.sockets) [ none ↦ false | some id ↦ true ]) s

-- The answers while one event is processed: of `accept` and of `epoll_ctl`.
pub record Answers : Type 0 where
  pub accepted : Result ℕ
  pub added : Answer

abbrev pub accept : Result ℕ → Act ℕ
accept (ok fd) s = gives fd s
accept (err e) s = raises e s

-- `nextConnId++`, a uint64_t, and its new value.
abbrev pub next_id : Act ℕ
next_id s = let id = (s.next_conn_id + 1) % 2 ^ 64 in gives id (record s { next_conn_id = id })

unfoldable pub process_new_connection : Answers → Act (Unit {0})
process_new_connection a = do
  fd ← accept a.accepted
  exists ← check_socket_exist fd
  if exists
      then raise runtime_error
      else (do epoll_add a.added fd; id ← next_id; socket_add fd id; emit (new_connection id fd))

-- The function that `ProcessNewConnection` gives to the SocketHandler, which closes the socket.
unfoldable pub close_connection : Answer → Answer → ℕ → Act (Unit {0})
close_connection deleted closed fd = do
  epoll_delete deleted fd
  server_close_fd closed fd
  socket_delete fd

-- `eventMask & EPOLLIN`, EPOLLOUT and EPOLLERR, whose values are 1, 4 and 8.
abbrev pub has_bit : ℕ → ℕ → Bool
has_bit mask value = mask / value % 2 == 1

abbrev pub report : Bool → (ℕ → Effect) → ℕ → Act (Unit {0})
report b f fd = when b (do id ← socket_get_value fd; emit (f id))

unfoldable pub remove_all : List ℕ → Sockets → Sockets
unfolding remove
remove_all [] t = t
remove_all (fd ∷ fds) t = remove_all fds (remove fd t)

-- The calls of SocketMap::Delete by the threads of the connection manager that close connections
-- meanwhile. One that throws does so in its own thread and leaves the map alone.
abbrev pub others_delete : List ℕ → Act (Unit {0})
others_delete fds s = gives tt (record s { sockets = remove_all fds s.sockets })

-- The descriptors that those threads take out of the map in front of the processing of an event, and
-- between the check in ProcessEvent and its reports.
pub record Closings : Type 0 where
  pub before : List ℕ
  pub before_read : List ℕ
  pub before_write : List ℕ
  pub before_error : List ℕ

unfoldable pub process_event : Closings → ℕ → ℕ → Act (Unit {0})
unfolding remove_all
process_event c fd mask = do
  exists ← check_socket_exist fd
  if not exists then raise runtime_error else (do
    others_delete c.before_read
    report (has_bit mask 1) can_read fd
    others_delete c.before_write
    report (has_bit mask 4) can_write fd
    others_delete c.before_error
    report (has_bit mask 8) error_occurred fd)

-- One entry of the array of events, with the answers and the other threads while it is processed. A
-- new connection needs no more of the threads than what they do in front of it: its descriptor is
-- not theirs until it is reported.
pub record Event : Type 0 where
  pub fd : ℕ
  pub mask : ℕ
  pub answers : Answers
  pub closings : Closings

unfoldable pub process_one : Event → Act (Unit {0})
unfolding remove_all
process_one e = do
  others_delete e.closings.before
  (λ s.
      (if e.fd == s.listen_fd
          then process_new_connection e.answers
          else process_event e.closings e.fd e.mask)
        s)

unfoldable pub process_events : List Event → Act (Unit {0})
process_events [] = give tt
process_events (e ∷ es) = do process_one e; process_events es

unfoldable pub report_exits : Sockets → Act (Unit {0})
report_exits [] = give tt
report_exits ((fd, id) ∷ t) = do emit (time_to_exit id); report_exits t

unfoldable pub release : Answer → Answer → Act (Unit {0})
release deleted closed s =
    (do
      report_exits s.sockets
      epoll_delete deleted s.listen_fd
      server_close_fd closed s.listen_fd)
      s

-- What `epoll_wait` answers: the events, none of them after its time is over, or its errno.
pub data WaitAnswer : Type 0 where
  ready : List Event → WaitAnswer
  wait_failed : ℕ → WaitAnswer

-- EINTR.
abbrev pub eintr : ℕ
eintr = 4

-- Epoll::Wait and what `Start` does with its result.
unfoldable pub process_wait : WaitAnswer → Act (Unit {0})
process_wait (ready es) = process_events es
process_wait (wait_failed code) = if code == eintr then give tt else raise (system_error code)

-- The loop of `Start`: each round with the answer of `epoll_wait` and whether `isTimeToExit` is set
-- after it. A list that ends stands for a server that still waits.
unfoldable pub start_loop : List (WaitAnswer × Bool) → Answer → Answer → Act (Unit {0})
start_loop [] deleted closed = raise blocked
start_loop ((w, exit) ∷ ws) deleted closed = do
  process_wait w
  if exit then release deleted closed else start_loop ws deleted closed
