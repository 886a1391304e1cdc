-- ===== src/SimpleHttp/Manager/Serving.antt =====
-- What the rounds of the reading and the writing threads do for one connection.
use cpp_programming.Base.{
  ℕ, zero, suc, ◌≡◌, refl, sym, ap, ◌∙◌, Bool, true, false, none, some, List, [], ◌∷◌, ◌++◌, arith,
  is_empty, Exn, returned,
}
use cpp_programming.Base.Actions.{Reply, gives, raises, give, and_then, ◌>>=◌, ◌>>◌, when, state_of}
use cpp_programming.SimpleHttp.Connection.{
  no_error, has_error, Manager, Act, get_value, erase, in_queue_read, de_queue_read, in_queue_write,
  de_queue_write, cache_add, cache_get, set_write_signal,
}
use cpp_programming.SimpleHttp.Manager.{
  Kernel, need_re_in_queue_read, need_in_queue_write, need_re_in_queue_write,
  check_to_in_queue_write, add_to_write_cache, release_connection, close, handler_write,
  read_complete_callback, write_complete_callback, read_error, write_error, close_if_done, receive,
  connection_read, send, connection_write, can_write, write_out, process_read_round,
  process_write_round,
}
use cpp_programming.Text.{Text}
use cpp_programming.SimpleHttp.Socket.{done}
use cpp_programming.SimpleHttp.Socket
use cpp_programming.SimpleHttp.Request.{Request, append, all_received}
use cpp_programming.SimpleHttp.Handler.{append_received_data, check_data_integrity, response}
use cpp_programming.SimpleHttp.Manager.Frame.Relations.{Quiet}
use cpp_programming.SimpleHttp.Manager.Frame.{connection_read-Quiet}

response-filled : is_empty response ≡ false
unfolding response
response-filled = refl

-- A connection whose handler still waits for a request, with one event of reading and `w` events of
-- writing, alone in the queue of reading.
pub record AwaitsRequest (id c w : ℕ) (m : Manager) : Type 0 where
  pub queued : m.read_queue ≡ c ∷ []
  pub write_queue_empty : m.write_queue ≡ []
  pub writable : (m.heap c).is_writable ≡ w
  pub unsent : (m.heap c).response ≡ []
  pub open_still : (m.heap c).is_closed ≡ false
  pub mapped : m.connections id ≡ some c
  pub named : (m.heap c).id ≡ id
  pub readable : (m.heap c).is_readable ≡ 1
  pub sound : (m.heap c).error_code ≡ no_error
  pub reading : (m.heap c).is_reading ≡ true
  pub idle : (m.heap c).is_writing ≡ false
  pub read_waiting : (m.heap c).request_handler.is_read_waiting ≡ true
  pub write_waiting : (m.heap c).request_handler.is_write_waiting ≡ false
  pub uncached : m.write_cache id ≡ none

-- Then the response is cached, and the connection is in the queue of writing.
pub record Answered (id c : ℕ) (w : ℕ) (m : Manager) : Type 0 where
  pub cached : m.write_cache id ≡ some response
  pub queued : m.write_queue ≡ c ∷ []
  pub mapped : m.connections id ≡ some c
  pub named : (m.heap c).id ≡ id
  pub writable : (m.heap c).is_writable ≡ w
  pub sound : (m.heap c).error_code ≡ no_error
  pub writing : (m.heap c).is_writing ≡ true
  pub read_waiting : (m.heap c).request_handler.is_read_waiting ≡ false
  pub write_waiting : (m.heap c).request_handler.is_write_waiting ≡ true
  pub unsent : (m.heap c).response ≡ []
  pub read_queue_empty : m.read_queue ≡ []
  pub open_still : (m.heap c).is_closed ≡ false

-- The reading of the request and what it calls, as far as the fields of `Answered` go.
read_round_rest : Kernel → ℕ → Manager → Manager
unfolding process_read_round de_queue_read connection_read read_error receive append_received_data
    check_data_integrity read_complete_callback handler_write add_to_write_cache cache_add get_value
    check_to_in_queue_write need_in_queue_write in_queue_write set_write_signal close_if_done
    need_re_in_queue_read
read_round_rest k c m = state_of (process_read_round k m)

module _ (id c w : ℕ) (k : Kernel) (m : Manager) (s : Text) (r : Request)
    (h : AwaitsRequest id c w m) (e : Socket.read k.reads ≡ done s)
    (a : append s (m.heap c).request_handler.http_request ≡ returned r)
    (t : all_received r ≡ true) where
  answered_cached : let m' = read_round_rest k c m in m'.write_cache id ≡ some response
  unfolding read_round_rest
  answered_cached = ground arith

  answered_queued : let m' = read_round_rest k c m in m'.write_queue ≡ c ∷ []
  unfolding read_round_rest
  answered_queued = ground arith

  answered_mapped : let m' = read_round_rest k c m in m'.connections id ≡ some c
  unfolding read_round_rest
  answered_mapped = ground arith

  answered_named : let m' = read_round_rest k c m in (m'.heap c).id ≡ id
  unfolding read_round_rest
  answered_named = ground arith

  answered_writable : let m' = read_round_rest k c m in (m'.heap c).is_writable ≡ w
  unfolding read_round_rest
  answered_writable = ground arith

  answered_sound : let m' = read_round_rest k c m in (m'.heap c).error_code ≡ no_error
  unfolding read_round_rest
  answered_sound = ground arith

  answered_writing : let m' = read_round_rest k c m in (m'.heap c).is_writing ≡ true
  unfolding read_round_rest
  answered_writing = ground arith

  answered_read_waiting :
      let m' = read_round_rest k c m in (m'.heap c).request_handler.is_read_waiting ≡ false
  unfolding read_round_rest
  answered_read_waiting = ground arith

  answered_write_waiting :
      let m' = read_round_rest k c m in (m'.heap c).request_handler.is_write_waiting ≡ true
  unfolding read_round_rest
  answered_write_waiting = ground arith

  answered_unsent : let m' = read_round_rest k c m in (m'.heap c).response ≡ []
  unfolding read_round_rest
  answered_unsent = ground arith

  answered_read_queue_empty : let m' = read_round_rest k c m in m'.read_queue ≡ []
  unfolding read_round_rest
  answered_read_queue_empty = ground arith

  answered_open_still : let m' = read_round_rest k c m in (m'.heap c).is_closed ≡ false
  unfolding read_round_rest
  answered_open_still = ground arith

  read_round_answers : Answered id c w (state_of (process_read_round k m))
  unfolding read_round_rest
  read_round_answers = record {
    cached = answered_cached;
    queued = answered_queued;
    mapped = answered_mapped;
    named = answered_named;
    writable = answered_writable;
    sound = answered_sound;
    writing = answered_writing;
    read_waiting = answered_read_waiting;
    write_waiting = answered_write_waiting;
    unsent = answered_unsent;
    read_queue_empty = answered_read_queue_empty;
    open_still = answered_open_still;
  }

-- The connection has been closed and taken out of the map, with nothing left to send.
pub record IsServed (id c : ℕ) (m : Manager) : Type 0 where
  pub unmapped : m.connections id ≡ none
  pub closed : (m.heap c).is_closed ≡ true
  pub sent : (m.heap c).response ≡ []
  pub queues : (m.write_queue ≡ []) × (m.read_queue ≡ [])
  pub unmarked : (m.heap c).is_writing ≡ false

write_round_serves :
    (id c : ℕ) (k : Kernel) (m : Manager)
    → Answered id c 1 m
    → Socket.write k.writes response ≡ done []
    → k.second_close ≡ none
    → IsServed id c (state_of (process_write_round k m))
unfolding process_write_round de_queue_write write_out cache_get connection_write write_error send
    write_complete_callback close_if_done close release_connection erase need_re_in_queue_write
    in_queue_write
write_round_serves id c k m h e q = ground (arith, response-filled)

-- A reading thread that gets a whole request for a connection, and then a writing thread for which
-- the kernel takes all of the response, leave the connection closed and out of the map, with the
-- response sent, if the socket became readable once and writable once.
pub serves_request :
    (id c : ℕ) (k l : Kernel) (m : Manager) (s : Text) (r : Request)
    → AwaitsRequest id c 1 m
    → Socket.read k.reads ≡ done s
    → append s (m.heap c).request_handler.http_request ≡ returned r
    → all_received r ≡ true
    → Socket.write l.writes response ≡ done []
    → l.second_close ≡ none
    → IsServed id c (state_of (process_write_round l (state_of (process_read_round k m))))
serves_request id c k l m s r h e a t w q =
    write_round_serves id c l (state_of (process_read_round k m))
      (read_round_answers id c 1 k m s r h e a t) w q

-- The response waits, neither in the cache nor in the queue.
pub record IsStalled (id c : ℕ) (m : Manager) : Type 0 where
  pub mapped : m.connections id ≡ some c
  pub named : (m.heap c).id ≡ id
  pub uncached : m.write_cache id ≡ some []
  pub unqueued : m.write_queue ≡ []
  pub unmarked : (m.heap c).is_writing ≡ false
  pub unsent : (m.heap c).response ≡ response
  pub write_waiting : (m.heap c).request_handler.is_write_waiting ≡ true
  pub open_still : (m.heap c).is_closed ≡ false

write_round_stalls :
    (id c : ℕ) (k : Kernel) (m : Manager)
    → Answered id c 0 m
    → IsStalled id c (state_of (process_write_round k m))
unfolding process_write_round de_queue_write write_out cache_get connection_write write_error send
    need_re_in_queue_write in_queue_write
write_round_stalls id c k m h = ground (arith, response-filled)

can_write-IsStalled :
    (id c : ℕ) (m : Manager) → IsStalled id c m → IsStalled id c (state_of (can_write id m))
unfolding can_write get_value check_to_in_queue_write need_in_queue_write
can_write-IsStalled id c m h = ground arith

-- So many reports that the socket can be written.
pub can_writes : ℕ → ℕ → Manager → Manager
can_writes id zero m = m
can_writes id (suc n) m = can_writes id n (state_of (can_write id m))

can_writes-IsStalled :
    (id c n : ℕ) (m : Manager) → IsStalled id c m → IsStalled id c (can_writes id n m)
unfolding can_writes
can_writes-IsStalled id c zero m h = h
can_writes-IsStalled id c (suc n) m h =
    can_writes-IsStalled id c n (state_of (can_write id m)) (can_write-IsStalled id c m h)

-- If a reading thread gets the whole request of a waiting connection, and a writing thread takes
-- the connection before its socket has been reported writable, then the response is not sent:
-- however often the socket is reported writable afterwards, the connection stays out of the queue
-- of writing and the whole response unsent.
pub early_write_round_stalls :
    (id c n : ℕ) (k l : Kernel) (m : Manager) (s : Text) (r : Request)
    → AwaitsRequest id c 0 m
    → Socket.read k.reads ≡ done s
    → append s (m.heap c).request_handler.http_request ≡ returned r
    → all_received r ≡ true
    → IsStalled id c
        (can_writes id n (state_of (process_write_round l (state_of (process_read_round k m)))))
early_write_round_stalls id c n k l m s r h e a t = can_writes-IsStalled id c n _ (
    write_round_stalls id c l (state_of (process_read_round k m))
      (read_round_answers id c 0 k m s r h e a t))

-- What a round does once it has taken a connection.
abbrev read_rest : Kernel → ℕ → Act Bool
read_rest k c = do
  connection_read k c
  again ← need_re_in_queue_read c
  when again (in_queue_read c)
  give true

process_read_round-taken :
    (c : ℕ) (q : List ℕ) (k : Kernel) (m : Manager)
    → m.read_queue ≡ c ∷ q
    → process_read_round k m ≡ read_rest k c (record m { read_queue = q })
unfolding process_read_round de_queue_read
process_read_round-taken c q k m h = rw h

abbrev ErroredLast : ℕ → List ℕ → Manager → Type 0
ErroredLast c q m =
    (m.read_queue ≡ q ++ c ∷ [])
    × (has_error (m.heap c).error_code ≡ true)
    × ((m.heap c).is_reading ≡ true)

errored_requeues :
    (c : ℕ) (q : List ℕ) (m m' : Manager)
    → m.read_queue ≡ q
    → has_error (m.heap c).error_code ≡ true
    → (m.heap c).is_reading ≡ true
    → (do again ← need_re_in_queue_read c; when again (in_queue_read c); give true) m
      ≡ gives true m'
    → ErroredLast c q m'
unfolding need_re_in_queue_read in_queue_read
errored_requeues c q m m' e h b p = ground arith

errored_after :
    (c : ℕ) (q : List ℕ) (m m' : Manager) (r : Reply Manager (Unit {0}))
    → m.read_queue ≡ q
    → has_error (m.heap c).error_code ≡ true
    → (m.heap c).is_reading ≡ true
    → Quiet c m (state_of r)
    → and_then r (λ _. do again ← need_re_in_queue_read c; when again (in_queue_read c); give true)
      ≡ gives true m'
    → ErroredLast c q m'
unfolding need_re_in_queue_read in_queue_read
errored_after c q m m' (gives a n) e h b f p =
    let e' : n.read_queue ≡ q = f.0.0 ∙ e in
    let h' : has_error (n.heap c).error_code ≡ true = ap has_error f.0.3 ∙ h in
    let b' : (n.heap c).is_reading ≡ true = f.0.1 ∙ b in errored_requeues c q n m' e' h' b' p
errored_after c q m m' (raises x n) e h b f p = cc

-- A connection with an error that is marked as being read and stands first in the queue of reading
-- goes back to the end of the queue with a round that does not throw, with its error and its mark.
pub errored_round :
    (c : ℕ) (q : List ℕ) (k : Kernel) (m m' : Manager)
    → m.read_queue ≡ c ∷ q
    → has_error (m.heap c).error_code ≡ true
    → (m.heap c).is_reading ≡ true
    → process_read_round k m ≡ gives true m'
    → (m'.read_queue ≡ q ++ c ∷ [])
      × (has_error (m'.heap c).error_code ≡ true)
      × ((m'.heap c).is_reading ≡ true)
errored_round c q k m m' h e b p =
    let n = record m { read_queue = q } in
    errored_after c q n m' (connection_read k c n) refl e b ((connection_read-Quiet c k c).keeps n)
      (sym (process_read_round-taken c q k m h) ∙ p)

-- A read of a connection with an error whose handler waits for no request closes the socket,
-- whether or not the connection is closed already: if the closing of the socket throws, so does the
-- read, and nothing else is changed.
pub errored_read_closes :
    (c : ℕ) (k : Kernel) (m : Manager) (x : Exn)
    → has_error (m.heap c).error_code ≡ true
    → (m.heap c).request_handler.is_read_waiting ≡ false
    → k.first_close ≡ some x
    → connection_read k c m ≡ raises x m
unfolding connection_read read_error read_complete_callback close
errored_read_closes c k m x e w f = ground arith
