-- ===== src/SimpleHttp/Manager/Frame.antt =====
-- What the member functions of Connection leave alone: the queues and the flags isReading and
-- isWriting, by which the connection manager decides who may use a connection.
pub mod Relations
use cpp_programming.Base.{
  ℕ, zero, suc, ◌+◌, ◌-◌, ◌*◌, ◌/◌, ◌%◌, ◌^◌, ◌≤◌, ◌<◌, pred, ◌≡◌, refl, sym, ap, ◌∙◌, subst, ◌≢◌,
  ◌↔◌, ◌⊎◌, inl, inr, Bool, true, false, ◌&&◌, ◌||◌, not, Option, none, some, List, [], ◌∷◌, ◌++◌,
  map, append-nil, append_assoc, arith, ltb, leb, ◌==◌, if◌then◌else◌, ==_iff, ==_refl, Bool-cases,
  Option-cases, length, is_empty, get_elem?, set, take, drop, All, length-append, length-drop,
  length-take, take-append-drop, take-append, drop-append, length-set, Exn, runtime_error,
  invalid_argument, out_of_range, out_of_fuel, undefined, blocked, system_error, Outcome, returned,
  threw, Result, ok, err,
}
use cpp_programming.Base.Actions.{
  Reply, gives, raises, Action, give, raise, and_then, ◌>>=◌, ◌>>◌, when, swallow, try_log,
  state_of,
}
use cpp_programming.SimpleHttp.Connection.{
  ConnectionErrorCode, no_error, socket_error, socket_closed, Connection, new_connection, has_error,
  read_event_happened, write_event_happened, can_close, Manager, Act, update, get, modify,
  get_value, add, erase, in_queue_read, de_queue_read, in_queue_write, de_queue_write, cache_add,
  cache_get, has_content_to_write, set_read_signal, wait_read_signal, set_write_signal,
  wait_write_signal,
}
use cpp_programming.SimpleHttp.Manager.{
  mark_closed, take_readable, take_writable, set_response, add_response, answer_read, await_write,
  end_write, store, Kernel, transfer, close_socket, set_reading, set_writing, with_handler,
  need_in_queue_read, need_re_in_queue_read, enqueue_read, check_to_in_queue_read,
  need_in_queue_write, need_re_in_queue_write, enqueue_write, check_to_in_queue_write,
  add_to_write_cache, release_connection, close, handler_write, read_complete_callback,
  write_complete_callback, store_handler, read_error, write_error, close_if_done, receive,
  connection_read, send, connection_write, new_connection_event, set_readable, set_writable,
  set_error, can_read, can_write, error_occurred, time_to_exit, write_out, process_read_round,
  process_write_round, close_manager,
}
use cpp_programming.Text.{Text}
use cpp_programming.SimpleHttp.Socket.{Transfer, done, failed, overrun, pending}
use cpp_programming.SimpleHttp.Handler.{
  Handler, is_waiting, append_received_data, check_data_integrity,
}
use cpp_programming.SimpleHttp.Handler
use cpp_programming.SimpleHttp.Socket
use Relations.{
  ReadStill, Still-refl, bit, count, count-append, Still, Still-trans, Quiet, Quiet-trans,
  Still-Quiet, Keeps, Keeps-bind, Keeps-when, Keeps-try_log,
}

-- A change of an object that leaves both marks alone, and gives no new reason to read.
modify-Still :
    (c d : ℕ) (f : Connection → Connection)
    → ((x : Connection)
        → ((f x).is_reading ≡ x.is_reading)
          × (read_event_happened (f x) ≡ true → read_event_happened x ≡ true)
          × ((f x).is_writing ≡ x.is_writing)
          × ((f x).error_code ≡ x.error_code))
    → Keeps (Still c) (modify d f)
modify-Still c d f h = record { keeps = λ m. ground (arith, h (m.heap d)) }

get-Still : (c d : ℕ) → Keeps (Still c) (get d)
get-Still c d = record { keeps = λ m. Still-refl c m }

erase-Still : (c id : ℕ) → Keeps (Still c) (erase id)
unfolding erase
erase-Still c id = record { keeps = λ m. ground arith }

cache_add-Still : (c id : ℕ) (t : Text) → Keeps (Still c) (cache_add id t)
unfolding cache_add
cache_add-Still c id t = record { keeps = λ m. ground arith }

get_value-Still : (c id : ℕ) → Keeps (Still c) (get_value id)
unfolding get_value
get_value-Still c id = record { keeps = λ m. ground arith }

check_to_in_queue_write-Quiet : (c d : ℕ) → Keeps (Quiet c) (check_to_in_queue_write d)
unfolding check_to_in_queue_write need_in_queue_write in_queue_write set_write_signal
check_to_in_queue_write-Quiet c d = record {
  keeps = λ m. ground (arith, count-append c m.write_queue (d ∷ []));
}

module _ (c : ℕ) where
  Still-then {ℓ κ} :
      {A : Type ℓ} {B : Type κ} (act : Act A) (f : A → Act B)
      → Keeps (Still c) act
      → ((a : A) → Keeps (Still c) (f a))
      → Keeps (Still c) (act >>= f)
  Still-then = Keeps-bind (Still c) (Still-trans c)

  Quiet-then {ℓ κ} :
      {A : Type ℓ} {B : Type κ} (act : Act A) (f : A → Act B)
      → Keeps (Quiet c) act
      → ((a : A) → Keeps (Quiet c) (f a))
      → Keeps (Quiet c) (act >>= f)
  Quiet-then = Keeps-bind (Quiet c) (Quiet-trans c)

  Still-when :
      (b : Bool) (act : Act (Unit {0})) → Keeps (Still c) act → Keeps (Still c) (when b act)
  Still-when b act = Keeps-when (Still c) (Still-trans c) b act (Still-refl c)

  Quiet-when :
      (b : Bool) (act : Act (Unit {0})) → Keeps (Quiet c) act → Keeps (Quiet c) (when b act)
  Quiet-when b act =
      Keeps-when (Quiet c) (Quiet-trans c) b act (λ m. Still-Quiet c m m (Still-refl c m))

  to_quiet {ℓ} : {A : Type ℓ} (act : Act A) → Keeps (Still c) act → Keeps (Quiet c) act
  to_quiet act h = record { keeps = λ m. Still-Quiet c m (state_of (act m)) (h.keeps m) }

  change_handler : (d : ℕ) (f : Handler → Handler) → Keeps (Still c) (modify d (with_handler f))
  change_handler d f = modify-Still c d (with_handler f) (λ x. (refl, (λ e. e), refl, refl))

  transfer-Still : (t : Transfer) → Keeps (Still c) (transfer t)
  transfer-Still (done s) = record { keeps = λ m. Still-refl c m }
  transfer-Still (failed e) = record { keeps = λ m. Still-refl c m }
  transfer-Still overrun = record { keeps = λ m. Still-refl c m }
  transfer-Still pending = record { keeps = λ m. Still-refl c m }

  close_socket-Still : (answer : Option Exn) → Keeps (Still c) (close_socket answer)
  close_socket-Still none = record { keeps = λ m. Still-refl c m }
  close_socket-Still (some e) = record { keeps = λ m. Still-refl c m }

  release_connection-Still : (id : ℕ) → Keeps (Still c) (release_connection id)
  unfolding release_connection
  release_connection-Still id =
      Keeps-try_log (Still c) (Still-trans c) (erase id) (erase-Still c id)

  close-Still : (answer : Option Exn) (d : ℕ) → Keeps (Still c) (close answer d)
  unfolding close
  close-Still answer d = Still-then (close_socket answer) _ (close_socket-Still answer) λ _.
      Still-then (get d) _ (get-Still c d) λ cn.
        Still-then (release_connection cn.id) _ (release_connection-Still cn.id)
          λ _. modify-Still c d mark_closed (λ x. (refl, (λ e. e), refl, refl))

  write_complete_callback-Still : (d : ℕ) → Keeps (Still c) (write_complete_callback d)
  unfolding write_complete_callback
  write_complete_callback-Still d = Still-then (get d) _ (get-Still c d) λ cn.
      Still-when cn.request_handler.is_write_waiting (modify d (with_handler end_write))
        (change_handler d end_write)

  close_if_done-Still : (answer : Option Exn) (d : ℕ) → Keeps (Still c) (close_if_done answer d)
  unfolding close_if_done
  close_if_done-Still answer d =
      Still-then (get d) _ (get-Still c d) λ cn.
        Still-when (not (is_waiting cn.request_handler)) (close answer d) (close-Still answer d)

  write_error-Still : (answer : Option Exn) (d : ℕ) → Keeps (Still c) (write_error answer d)
  unfolding write_error
  write_error-Still answer d = Still-then (get d) _ (get-Still c d) λ cn.
      Still-when (has_error cn.error_code) (write_complete_callback d >> close answer d) (
        Still-then (write_complete_callback d) _ (write_complete_callback-Still d)
          λ _. close-Still answer d)

  send-Still : (k : Kernel) (d : ℕ) → Keeps (Still c) (send k d)
  unfolding send
  send-Still k d = Still-then (get d) _ (get-Still c d) λ cn.
      Still-then (transfer (Socket.write k.writes cn.response)) _
        (transfer-Still (Socket.write k.writes cn.response))
        λ rest.
          Still-then (modify d (set_response rest)) _
            (modify-Still c d (set_response rest) (λ x. (refl, (λ e. e), refl, refl)))
            λ _.
              Still-then (when (is_empty rest) (write_complete_callback d)) _
                (Still-when (is_empty rest) (write_complete_callback d)
                  (write_complete_callback-Still d))
                λ _. close_if_done-Still k.second_close d

  connection_write-Still : (k : Kernel) (d : ℕ) → Keeps (Still c) (connection_write k d)
  unfolding connection_write
  connection_write-Still k d =
      Still-then (write_error k.first_close d) _ (write_error-Still k.first_close d) λ _.
        Still-then (get d) _ (get-Still c d) λ cn.
          Still-when (not (cn.is_writable == 0))
            (modify d take_writable >> when (not (is_empty cn.response)) (send k d))
            (Still-then (modify d take_writable) _
              (modify-Still c d take_writable (λ x. (refl, (λ e. e), refl, refl)))
              λ _. Still-when (not (is_empty cn.response)) (send k d) (send-Still k d))

  cache_get-Still : (id : ℕ) → Keeps (Still c) (cache_get id)
  unfolding cache_get
  cache_get-Still id = record { keeps = λ m. ground arith }

  -- A thread that writes out for a connection leaves the queues and all marks alone.
  pub write_out-Still : (k : Kernel) (d : ℕ) → Keeps (Still c) (write_out k d)
  unfolding write_out
  write_out-Still k d = Still-then (get d) _ (get-Still c d) λ cn.
      Still-then (cache_get cn.id) _ (cache_get-Still cn.id) λ content.
        Still-then (modify d (add_response content)) _
          (modify-Still c d (add_response content) (λ x. (refl, (λ e. e), refl, refl)))
          λ _. connection_write-Still k d

  add_to_write_cache-Quiet : (id : ℕ) (t : Text) → Keeps (Quiet c) (add_to_write_cache id t)
  unfolding add_to_write_cache
  add_to_write_cache-Quiet id t =
      Quiet-then (cache_add id t) _ (to_quiet (cache_add id t) (cache_add-Still c id t)) λ _.
        Quiet-then (get_value id) _ (to_quiet (get_value id) (get_value-Still c id))
          λ d. check_to_in_queue_write-Quiet c d

  read_complete_callback-Quiet : (d : ℕ) → Keeps (Quiet c) (read_complete_callback d)
  unfolding read_complete_callback handler_write
  read_complete_callback-Quiet d = Quiet-then (get d) _ (to_quiet (get d) (get-Still c d)) λ cn.
      Quiet-when cn.request_handler.is_read_waiting
        (modify d (with_handler answer_read) >> handler_write d Handler.response)
        (Quiet-then (modify d (with_handler answer_read)) _
          (to_quiet (modify d (with_handler answer_read)) (change_handler d answer_read))
          λ _. Quiet-then (get d) _ (to_quiet (get d) (get-Still c d)) λ cn'.
            Quiet-then (add_to_write_cache cn'.id Handler.response) _
              (add_to_write_cache-Quiet cn'.id Handler.response)
              λ _. to_quiet (modify d (with_handler await_write)) (change_handler d await_write))

  store_handler-Still : (d : ℕ) (o : Outcome Handler) → Keeps (Still c) (store_handler d o)
  store_handler-Still d (returned h) = change_handler d (store h)
  store_handler-Still d (threw e h) =
      Still-then (modify d (with_handler (store h))) (λ _. raise e) (change_handler d (store h))
        λ _. record { keeps = λ m. Still-refl c m }

  read_error-Quiet : (answer : Option Exn) (d : ℕ) → Keeps (Quiet c) (read_error answer d)
  unfolding read_error
  read_error-Quiet answer d = Quiet-then (get d) _ (to_quiet (get d) (get-Still c d)) λ cn.
      Quiet-when (has_error cn.error_code) (read_complete_callback d >> close answer d) (
        Quiet-then (read_complete_callback d) _ (read_complete_callback-Quiet d)
          λ _. to_quiet (close answer d) (close-Still answer d))

  receive-Quiet : (k : Kernel) (d : ℕ) → Keeps (Quiet c) (receive k d)
  unfolding receive
  receive-Quiet k d =
      Quiet-then (modify d take_readable) _
        (to_quiet (modify d take_readable)
          (modify-Still c d take_readable (λ x. (refl, ground arith, refl, refl))))
        λ _.
          Quiet-then (transfer (Socket.read k.reads)) _
            (to_quiet (transfer (Socket.read k.reads)) (transfer-Still (Socket.read k.reads)))
            λ s. Quiet-then (get d) _ (to_quiet (get d) (get-Still c d)) λ cn.
              Quiet-then (store_handler d (append_received_data s cn.request_handler)) _
                (to_quiet (store_handler d (append_received_data s cn.request_handler))
                  (store_handler-Still d (append_received_data s cn.request_handler)))
                λ _. Quiet-then (get d) _ (to_quiet (get d) (get-Still c d)) λ cn'.
                  Quiet-then
                    (when (check_data_integrity cn'.request_handler) (read_complete_callback d)) _
                    (Quiet-when (check_data_integrity cn'.request_handler)
                      (read_complete_callback d) (read_complete_callback-Quiet d))
                    λ _.
                      to_quiet (close_if_done k.second_close d)
                        (close_if_done-Still k.second_close d)

  -- A thread that reads for a connection leaves the marks of reading and the queue of reading
  -- alone, and puts a connection into the queue of writing only as it marks it.
  pub connection_read-Quiet : (k : Kernel) (d : ℕ) → Keeps (Quiet c) (connection_read k d)
  unfolding connection_read
  connection_read-Quiet k d =
      Quiet-then (read_error k.first_close d) _ (read_error-Quiet k.first_close d) λ _.
        Quiet-then (get d) _ (to_quiet (get d) (get-Still c d))
          λ cn. Quiet-when (not (cn.is_readable == 0)) (receive k d) (receive-Quiet k d)
