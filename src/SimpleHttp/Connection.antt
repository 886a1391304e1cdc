-- ===== src/SimpleHttp/Connection.antt =====
-- simple_http/tcp_server/src/connection.cpp: the class Connection, the maps, the queues and the
-- state of the class ConnectionManager. Connections are objects on a heap, since the map and the
-- two queues share them; `clientInfo` is only logged.
use cpp_programming.Base.{
  ℕ, Bool, true, false, ◌||◌, not, Option, none, some, List, [], ◌∷◌, ◌++◌, ◌==◌, if◌then◌else◌,
  is_empty, runtime_error, blocked,
}
use cpp_programming.Base.Actions.{Action, give, raise, gives}
use cpp_programming.Text.{Text}
use cpp_programming.SimpleHttp.Handler.{Handler, is_waiting}

pub data ConnectionErrorCode : Type 0 where
  no_error socket_error socket_closed : ConnectionErrorCode

pub record Connection : Type 0 where
  pub id : ℕ
  pub is_readable : ℕ  -- std::atomic_int
  pub is_writable : ℕ  -- std::atomic_int
  pub error_code : ConnectionErrorCode
  pub is_closed : Bool
  pub is_reading : Bool
  pub is_writing : Bool
  pub request_handler : Handler
  pub response : Text

unfoldable pub new_connection : ℕ → Handler → Connection
new_connection id h = record {
  id = id;
  is_readable = 0;
  is_writable = 0;
  error_code = no_error;
  is_closed = false;
  is_reading = false;
  is_writing = false;
  request_handler = h;
  response = [];
}

abbrev pub has_error : ConnectionErrorCode → Bool
has_error no_error = false
has_error socket_error = true
has_error socket_closed = true

-- `isReadable | errorCode` as a bool, and the same for writing.
abbrev pub read_event_happened : Connection → Bool
read_event_happened c = not (c.is_readable == 0) || has_error c.error_code

abbrev pub write_event_happened : Connection → Bool
write_event_happened c = not (c.is_writable == 0) || has_error c.error_code

abbrev pub can_close : Connection → Bool
can_close c = not (is_waiting c.request_handler)

-- The state that the threads share. A connection is named by its address on the heap.
pub record Manager : Type 0 where
  pub heap : ℕ → Connection
  pub connections : ℕ → Option ℕ  -- ConnectionMap: the address of the connection with an id
  pub read_queue : List ℕ
  pub write_queue : List ℕ
  pub write_cache : ℕ → Option Text  -- WriteCache, by the connection's id
  pub read_signaled : Bool  -- the EventNotifier readInQueueHappened
  pub write_signaled : Bool
  pub closed : Bool

abbrev pub Act {ℓ} : Type ℓ → Type ℓ
Act A = Action Manager A

abbrev pub update {ℓ} : {A : Type ℓ} → (ℕ → A) → ℕ → A → ℕ → A
update f p v q = if p == q then v else f q

-- The object at an address, and a change of it.
abbrev pub get : ℕ → Act Connection
get c m = gives (m.heap c) m

abbrev pub modify : ℕ → (Connection → Connection) → Act (Unit {0})
modify c f m = gives tt (record m { heap = update m.heap c (f (m.heap c)) })

-- ConnectionMap.
unfoldable pub get_value : ℕ → Act ℕ
get_value id m = elim (m.connections id) [ none ↦ raise runtime_error m | some c ↦ give c m ]

unfoldable pub add : ℕ → ℕ → Act (Unit {0})
add id c m = elim (m.connections id) [
  | none ↦ give tt (record m { connections = update m.connections id (some c) })
  | some d ↦ raise runtime_error m
]

unfoldable pub erase : ℕ → Act (Unit {0})
erase id m = elim (m.connections id) [
  | none ↦ raise runtime_error m
  | some c ↦ give tt (record m { connections = update m.connections id none })
]

-- ConnectionQueue, once for each of the two queues.
unfoldable pub in_queue_read : ℕ → Act (Unit {0})
in_queue_read c m = give tt (record m { read_queue = m.read_queue ++ c ∷ [] })

unfoldable pub de_queue_read : Act (Option ℕ)
de_queue_read m = elim m.read_queue [
  | [] ↦ give none m
  | c ∷ q ↦ give (some c) (record m { read_queue = q })
]

unfoldable pub in_queue_write : ℕ → Act (Unit {0})
in_queue_write c m = give tt (record m { write_queue = m.write_queue ++ c ∷ [] })

unfoldable pub de_queue_write : Act (Option ℕ)
de_queue_write m = elim m.write_queue [
  | [] ↦ give none m
  | c ∷ q ↦ give (some c) (record m { write_queue = q })
]

-- WriteCache. `Get` leaves an empty text behind.
unfoldable pub cache_add : ℕ → Text → Act (Unit {0})
cache_add id t m = elim (m.write_cache id) [
  | none ↦ give tt (record m { write_cache = update m.write_cache id (some t) })
  | some s ↦ give tt (record m { write_cache = update m.write_cache id (some (s ++ t)) })
]

unfoldable pub cache_get : ℕ → Act Text
cache_get id m = elim (m.write_cache id) [
  | none ↦ give [] m
  | some s ↦ give s (record m { write_cache = update m.write_cache id (some []) })
]

abbrev pub has_content_to_write : ℕ → Manager → Bool
has_content_to_write id m = elim (m.write_cache id) [ none ↦ false | some s ↦ not (is_empty s) ]

-- EventNotifier::Set, for each of the two notifiers. A wait ends when the flag is set, and
-- clears it.
unfoldable pub set_read_signal : Act (Unit {0})
set_read_signal m = give tt (record m { read_signaled = true })

unfoldable pub wait_read_signal : Act (Unit {0})
wait_read_signal m =
    if m.read_signaled then give tt (record m { read_signaled = false }) else raise blocked m

unfoldable pub set_write_signal : Act (Unit {0})
set_write_signal m = give tt (record m { write_signaled = true })

unfoldable pub wait_write_signal : Act (Unit {0})
wait_write_signal m =
    if m.write_signaled then give tt (record m { write_signaled = false }) else raise blocked m
