-- ===== src/SimpleHttp/Threads.antt =====
-- The threads of simple_http: the thread that runs the server and calls the connection manager, and
-- the reading and writing threads that the constructor of ConnectionManager starts. A step is a
-- part of the code that holds one lock, or one call of Connection::Read or Connection::Write, or
-- an entry into a queue with its signal; between steps any other thread may go on.
pub mod Tickets
pub mod Steps
use cpp_programming.Base.{
  ℕ, zero, suc, ◌+◌, ◌-◌, ◌*◌, ◌/◌, ◌%◌, ◌^◌, ◌≤◌, ◌<◌, pred, ◌≡◌, refl, sym, ap, ◌∙◌, subst, ◌≢◌,
  ◌↔◌, ◌⊎◌, inl, inr, Bool, true, false, ◌&&◌, ◌||◌, not, Option, none, some, List, [], ◌∷◌, ◌++◌,
  map, append-nil, append_assoc, arith, ltb, leb, ◌==◌, if◌then◌else◌, ==_iff, ==_refl, Bool-cases,
  Option-cases, length, is_empty, get_elem?, set, take, drop, All, length-append, length-drop,
  length-take, take-append-drop, take-append, drop-append, length-set, Exn, runtime_error,
  invalid_argument, out_of_range, out_of_fuel, undefined, blocked, system_error, Outcome, returned,
  threw, Result, ok, err,
}
use cpp_programming.Base.Actions.{
  Reply, gives, raises, Action, give, raise, and_then, ◌>>=◌, ◌>>◌, when, swallow, try_log,
  state_of,
}
use cpp_programming.SimpleHttp.Connection.{
  ConnectionErrorCode, no_error, socket_error, socket_closed, Connection, new_connection, has_error,
  read_event_happened, write_event_happened, can_close, Manager, Act, update, get, modify,
  get_value, add, erase, in_queue_read, de_queue_read, in_queue_write, de_queue_write, cache_add,
  cache_get, has_content_to_write, set_read_signal, wait_read_signal, set_write_signal,
  wait_write_signal,
}
use cpp_programming.SimpleHttp.Manager.{
  mark_closed, take_readable, take_writable, set_response, add_response, answer_read, await_write,
  end_write, store, Kernel, transfer, close_socket, set_reading, set_writing, with_handler,
  need_in_queue_read, need_re_in_queue_read, enqueue_read, check_to_in_queue_read,
  need_in_queue_write, need_re_in_queue_write, enqueue_write, check_to_in_queue_write,
  add_to_write_cache, release_connection, close, handler_write, read_complete_callback,
  write_complete_callback, store_handler, read_error, write_error, close_if_done, receive,
  connection_read, send, connection_write, new_connection_event, set_readable, set_writable,
  set_error, can_read, can_write, error_occurred, time_to_exit, write_out, process_read_round,
  process_write_round, start, close_manager,
}

-- Where a reading thread stands in ProcessRead; a writing thread in ProcessWrite goes through the
-- same places.
pub data Place : Type 0 where
  at_top waiting at_inner exited : Place
  holding checking requeueing : ℕ → Place

unfoldable pub reader_step : Kernel → Place → Act Place
reader_step k at_top m = (if m.closed then (set_read_signal >> give exited) else give waiting) m
reader_step k waiting m = (wait_read_signal >> give at_inner) m
reader_step k at_inner m =
    (if m.closed then give at_top else (do
      taken ← de_queue_read
      elim taken [ none ↦ give at_top | some c ↦ give (holding c) ]))
      m
reader_step k (holding c) m = (connection_read k c >> give (checking c)) m
reader_step k (checking c) m =
    (do again ← need_re_in_queue_read c; if again then give (requeueing c) else give at_inner) m
reader_step k (requeueing c) m = (in_queue_read c >> give at_inner) m
reader_step k exited m = raise blocked m

unfoldable pub writer_step : Kernel → Place → Act Place
writer_step k at_top m = (if m.closed then (set_write_signal >> give exited) else give waiting) m
writer_step k waiting m = (wait_write_signal >> give at_inner) m
writer_step k at_inner m =
    (if m.closed then give at_top else (do
      taken ← de_queue_write
      elim taken [ none ↦ give at_top | some c ↦ give (holding c) ]))
      m
writer_step k (holding c) m = (write_out k c >> give (checking c)) m
writer_step k (checking c) m =
    (do again ← need_re_in_queue_write c; if again then give (requeueing c) else give at_inner) m
writer_step k (requeueing c) m = (in_queue_write c >> give at_inner) m
writer_step k exited m = raise blocked m

-- What the server's thread still has to do for the event that it reports: the parts of
-- CheckToInQueueRead and CheckToInQueueWrite.
pub data Todo : Type 0 where
  check_read enter_read check_write enter_write : ℕ → Todo

unfoldable pub main_step : List Todo → Act (List Todo)
main_step [] m = raise blocked m
main_step (check_read c ∷ t) m =
    (do b ← need_in_queue_read c; give (if b then enter_read c ∷ t else t)) m
main_step (enter_read c ∷ t) m = (enqueue_read c >> give t) m
main_step (check_write c ∷ t) m =
    (do b ← need_in_queue_write c; give (if b then enter_write c ∷ t else t)) m
main_step (enter_write c ∷ t) m = (enqueue_write c >> give t) m

-- The events of the server; a new connection with the memory that it gets.
pub data Event : Type 0 where
  readable writable broken exiting : ℕ → Event
  connected : ℕ → ℕ → Event

abbrev pub no_todos {ℓ} : {A : Type ℓ} → Reply Manager A → Reply Manager (List Todo)
no_todos (gives a m) = gives [] m
no_todos (raises e m) = gives [] m

abbrev pub log_todos : Reply Manager (List Todo) → Reply Manager (List Todo)
log_todos (gives t m) = gives t m
log_todos (raises e m) = gives [] m

-- CanRead, CanWrite, ErrorOccurred, TimeToExit and NewConnection up to the first lock that they
-- wait for. An id that is not in the map is logged.
unfoldable pub post : Event → Act (List Todo)
post (readable id) m =
    log_todos ((do c ← get_value id; modify c set_readable; give (check_read c ∷ [])) m)
post (writable id) m =
    log_todos ((do c ← get_value id; modify c set_writable; give (check_write c ∷ [])) m)
post (broken id) m = log_todos (
    (do
      c ← get_value id
      modify c (set_error socket_error)
      give (check_read c ∷ check_write c ∷ []))
      m)
post (exiting id) m = log_todos (
    (do
      c ← get_value id
      modify c (set_error socket_closed)
      give (check_read c ∷ check_write c ∷ []))
      m)
post (connected id address) m = no_todos (new_connection_event id address m)

pub record System : Type 0 where
  pub manager : Manager
  pub todos : List Todo
  pub readers : List Place
  pub writers : List Place
