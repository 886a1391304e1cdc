-- ===== src/SimpleHttp/Manager.antt =====
-- simple_http/tcp_server/src/connection.cpp: the member functions of Connection that call back into
-- the ConnectionManager, and those of the ConnectionManager. What the kernel answers is an argument.
pub mod Frame
pub mod Serving
use cpp_programming.Base.{
  ℕ, zero, suc, ◌+◌, ◌-◌, ◌*◌, ◌/◌, ◌%◌, ◌^◌, ◌≤◌, ◌<◌, pred, ◌≡◌, refl, sym, ap, ◌∙◌, subst, ◌≢◌,
  ◌↔◌, ◌⊎◌, inl, inr, Bool, true, false, ◌&&◌, ◌||◌, not, Option, none, some, List, [], ◌∷◌, ◌++◌,
  map, append-nil, append_assoc, arith, ltb, leb, ◌==◌, if◌then◌else◌, ==_iff, ==_refl, Bool-cases,
  Option-cases, length, is_empty, get_elem?, set, take, drop, All, length-append, length-drop,
  length-take, take-append-drop, take-append, drop-append, length-set, Exn, runtime_error,
  invalid_argument, out_of_range, out_of_fuel, undefined, blocked, system_error, Outcome, returned,
  threw, Result, ok, err,
}
use cpp_programming.Base.Actions.{
  Reply, gives, raises, Action, give, raise, and_then, ◌>>=◌, ◌>>◌, when, swallow, try_log,
  state_of,
}
use cpp_programming.SimpleHttp.Connection.{
  ConnectionErrorCode, no_error, socket_error, socket_closed, Connection, new_connection, has_error,
  read_event_happened, write_event_happened, can_close, Manager, Act, update, get, modify,
  get_value, add, erase, in_queue_read, de_queue_read, in_queue_write, de_queue_write, cache_add,
  cache_get, has_content_to_write, set_read_signal, wait_read_signal, set_write_signal,
  wait_write_signal,
}
use cpp_programming.Text.{Text}
use cpp_programming.SimpleHttp.Socket.{SysRead, SysWrite, Transfer, done, failed, overrun, pending}
use cpp_programming.SimpleHttp.Socket
use cpp_programming.SimpleHttp.Handler.{
  Handler, is_waiting, append_received_data, check_data_integrity,
}
use cpp_programming.SimpleHttp.Handler

-- The answers during one call of Connection::Read or Connection::Write: to the reads and writes of
-- the socket, and how the server's function that closes the socket ends, the first and the second
-- time it is called.
pub record Kernel : Type 0 where
  pub reads : List SysRead
  pub writes : List SysWrite
  pub first_close : Option Exn
  pub second_close : Option Exn

abbrev pub transfer : Transfer → Act Text
transfer (done s) m = give s m
transfer (failed e) m = raise e m
transfer overrun m = raise undefined m
transfer pending m = raise blocked m

abbrev pub close_socket : Option Exn → Act (Unit {0})
close_socket none m = give tt m
close_socket (some e) m = raise e m

abbrev pub set_reading : Bool → Connection → Connection
set_reading b c = record c { is_reading = b }

abbrev pub set_writing : Bool → Connection → Connection
set_writing b c = record c { is_writing = b }

abbrev pub with_handler : (Handler → Handler) → Connection → Connection
with_handler f c = record c { request_handler = f c.request_handler }

-- The other assignments to fields that the functions below make.
abbrev pub mark_closed : Connection → Connection
mark_closed c = record c { is_closed = true }

abbrev pub take_readable : Connection → Connection
take_readable c = record c { is_readable = c.is_readable - 1 }

abbrev pub take_writable : Connection → Connection
take_writable c = record c { is_writable = c.is_writable - 1 }

abbrev pub set_response : Text → Connection → Connection
set_response s c = record c { response = s }

abbrev pub add_response : Text → Connection → Connection
add_response s c = record c { response = c.response ++ s }

abbrev pub answer_read : Handler → Handler
answer_read h = record h { is_read_waiting = false; content_to_write = Handler.response }

abbrev pub await_write : Handler → Handler
await_write h = record h { is_write_waiting = true }

abbrev pub end_write : Handler → Handler
end_write h = record h { is_write_waiting = false }

abbrev pub store : Handler → Handler → Handler
store h old = h

unfoldable pub need_in_queue_read : ℕ → Act Bool
need_in_queue_read c = do
  cn ← get c
  if read_event_happened cn && not cn.is_reading
      then (modify c (set_reading true) >> give true)
      else give false

unfoldable pub need_re_in_queue_read : ℕ → Act Bool
need_re_in_queue_read c = do
  cn ← get c
  if not cn.is_reading
      then raise runtime_error
      else if not (read_event_happened cn)
      then (modify c (set_reading false) >> give false)
      else give true

abbrev pub enqueue_read : ℕ → Act (Unit {0})
enqueue_read c = do in_queue_read c; set_read_signal

unfoldable pub check_to_in_queue_read : ℕ → Act (Unit {0})
check_to_in_queue_read c = do b ← need_in_queue_read c; when b (enqueue_read c)

unfoldable pub need_in_queue_write : ℕ → Act Bool
need_in_queue_write c m =
    let cn = m.heap c in
    let due = (write_event_happened cn && has_content_to_write cn.id m) || can_close cn in
    (if due && not cn.is_writing then (modify c (set_writing true) >> give true) else give false) m

unfoldable pub need_re_in_queue_write : ℕ → Act Bool
need_re_in_queue_write c m =
    let cn = m.heap c in
    (if not cn.is_writing
        then raise runtime_error
        else if not (write_event_happened cn) || not (has_content_to_write cn.id m)
        then (modify c (set_writing false) >> give false)
        else give true)
      m

abbrev pub enqueue_write : ℕ → Act (Unit {0})
enqueue_write c = do in_queue_write c; set_write_signal

unfoldable pub check_to_in_queue_write : ℕ → Act (Unit {0})
check_to_in_queue_write c = do b ← need_in_queue_write c; when b (enqueue_write c)

unfoldable pub add_to_write_cache : ℕ → Text → Act (Unit {0})
add_to_write_cache id content = do cache_add id content; c ← get_value id; check_to_in_queue_write c

unfoldable pub release_connection : ℕ → Act (Unit {0})
release_connection id = try_log (erase id)

-- Connection::Close. A connection that is closed already is closed again.
unfoldable pub close : Option Exn → ℕ → Act (Unit {0})
close answer c = do close_socket answer; cn ← get c; release_connection cn.id; modify c mark_closed

-- HttpRequestHandler::Write.
unfoldable pub handler_write : ℕ → Text → Act (Unit {0})
handler_write c s = do cn ← get c; add_to_write_cache cn.id s; modify c (with_handler await_write)

-- HttpRequestHandler::ReadCompleteCallback; the error code is only logged.
unfoldable pub read_complete_callback : ℕ → Act (Unit {0})
read_complete_callback c = do
  cn ← get c
  when cn.request_handler.is_read_waiting
      (do modify c (with_handler answer_read); handler_write c Handler.response)

unfoldable pub write_complete_callback : ℕ → Act (Unit {0})
write_complete_callback c = do
  cn ← get c
  when cn.request_handler.is_write_waiting (modify c (with_handler end_write))

abbrev pub store_handler : ℕ → Outcome Handler → Act (Unit {0})
store_handler c (returned h) = modify c (with_handler (store h))
store_handler c (threw e h) = do modify c (with_handler (store h)); raise e

-- The start of Read and of Write: an error is reported and closes the connection, and the function
-- goes on.
unfoldable pub read_error : Option Exn → ℕ → Act (Unit {0})
read_error answer c = do
  cn ← get c
  when (has_error cn.error_code) (do read_complete_callback c; close answer c)

unfoldable pub write_error : Option Exn → ℕ → Act (Unit {0})
write_error answer c = do
  cn ← get c
  when (has_error cn.error_code) (do write_complete_callback c; close answer c)

-- The end of Read and of Write: a handler that waits for nothing more has its connection closed.
unfoldable pub close_if_done : Option Exn → ℕ → Act (Unit {0})
close_if_done answer c = do cn ← get c; when (not (is_waiting cn.request_handler)) (close answer c)

-- Connection::Read from the socket's read on.
unfoldable pub receive : Kernel → ℕ → Act (Unit {0})
receive k c = do
  modify c take_readable
  s ← transfer (Socket.read k.reads)
  cn ← get c
  store_handler c (append_received_data s cn.request_handler)
  cn' ← get c
  when (check_data_integrity cn'.request_handler) (read_complete_callback c)
  close_if_done k.second_close c

-- Connection::Read.
unfoldable pub connection_read : Kernel → ℕ → Act (Unit {0})
connection_read k c = do
  read_error k.first_close c
  cn ← get c
  when (not (cn.is_readable == 0)) (receive k c)

-- Connection::Write from the socket's write on.
unfoldable pub send : Kernel → ℕ → Act (Unit {0})
send k c = do
  cn ← get c
  rest ← transfer (Socket.write k.writes cn.response)
  modify c (set_response rest)
  when (is_empty rest) (write_complete_callback c)
  close_if_done k.second_close c

-- Connection::Write.
unfoldable pub connection_write : Kernel → ℕ → Act (Unit {0})
connection_write k c = do
  write_error k.first_close c
  cn ← get c
  when (not (cn.is_writable == 0))
      (do modify c take_writable; when (not (is_empty cn.response)) (send k c))

-- `make_shared` takes memory at `address`.
unfoldable pub new_connection_event : ℕ → ℕ → Act (Unit {0})
new_connection_event id address =
    try_log (do modify address (λ _. new_connection id Handler.new); add id address)

abbrev pub set_readable : Connection → Connection
set_readable c = record c { is_readable = suc c.is_readable }

abbrev pub set_writable : Connection → Connection
set_writable c = record c { is_writable = suc c.is_writable }

abbrev pub set_error : ConnectionErrorCode → Connection → Connection
set_error e c = record c { error_code = e }

unfoldable pub can_read : ℕ → Act (Unit {0})
can_read id = try_log (do c ← get_value id; modify c set_readable; check_to_in_queue_read c)

unfoldable pub can_write : ℕ → Act (Unit {0})
can_write id = try_log (do c ← get_value id; modify c set_writable; check_to_in_queue_write c)

unfoldable pub error_occurred : ℕ → Act (Unit {0})
error_occurred id = try_log (do
  c ← get_value id
  modify c (set_error socket_error)
  check_to_in_queue_read c
  check_to_in_queue_write c)

unfoldable pub time_to_exit : ℕ → Act (Unit {0})
time_to_exit id = try_log (do
  c ← get_value id
  modify c (set_error socket_closed)
  check_to_in_queue_read c
  check_to_in_queue_write c)

-- What a writing thread does with a connection that it has taken: its cached content is added to
-- the response, and written.
unfoldable pub write_out : Kernel → ℕ → Act (Unit {0})
write_out k c = do
  cn ← get c
  content ← cache_get cn.id
  modify c (add_response content)
  connection_write k c

-- One round of the inner loops of ProcessRead and ProcessWrite; `false`: the queue was empty.
unfoldable pub process_read_round : Kernel → Act Bool
process_read_round k = do
  taken ← de_queue_read
  elim taken [
    | none ↦ give false
    | some c ↦ (do
      connection_read k c
      again ← need_re_in_queue_read c
      when again (in_queue_read c)
      give true)
  ]

unfoldable pub process_write_round : Kernel → Act Bool
process_write_round k = do
  taken ← de_queue_write
  elim taken [
    | none ↦ give false
    | some c ↦ (do
      write_out k c
      again ← need_re_in_queue_write c
      when again (in_queue_write c)
      give true)
  ]

-- The constructor, but for the threads that it starts. It does not set `closed`, whose value is
-- what the memory held. No connection exists, so what the heap holds does not matter.
unfoldable pub start : Bool → Manager
start closed = record {
  heap = λ _. new_connection 0 Handler.new;
  connections = λ _. none;
  read_queue = [];
  write_queue = [];
  write_cache = λ _. none;
  read_signaled = false;
  write_signaled = false;
  closed = closed;
}

abbrev set_closed : Act (Unit {0})
set_closed m = give tt (record m { closed = true })

-- ConnectionManager::Close.
unfoldable pub close_manager : Act (Unit {0})
close_manager m =
    (if m.closed then give tt else (do set_closed; set_write_signal; set_read_signal)) m
