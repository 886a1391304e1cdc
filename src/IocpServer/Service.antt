-- ===== src/IocpServer/Service.antt =====
-- How the class IOCP starts and stops its threads.
use cpp_programming.Base.{
  ℕ, zero, suc, ◌+◌, ◌≡◌, Bool, true, false, Option, none, some, List, [], ◌∷◌, ◌++◌, if◌then◌else◌,
  runtime_error, system_error, Result, ok, err,
}
use cpp_programming.Base.Actions.{gives, raises, Action, give, raise, ◌>>=◌, ◌>>◌}

-- Where a thread of the pool is: at the test of `stopped`, in GetQueuedCompletionStatus, or at its
-- end.
pub data Thread : Type 0 where
  testing waiting done : Thread

-- The fields of the object with the threads of the pool, the packets that wait at the port to wake
-- one of them, the packets of operations that have ended, and the sockets and events that are
-- closed by now. `none`: no handle.
pub record Service : Type 0 where
  pub started : Bool
  pub stopped : Bool
  pub iocp : Option ℕ
  pub listen_socket : Option ℕ
  pub accept_event : Option ℕ
  pub accepts : Bool  -- `acceptThread` can be joined
  pub thread_pool : List Thread
  pub packets : ℕ
  pub completions : ℕ
  pub closed : List ℕ

abbrev pub Act {ℓ} : Type ℓ → Type ℓ
Act A = Action Service A

-- IOCP::IOCP.
unfoldable pub new_service : Service
new_service = record {
  started = false;
  stopped = false;
  iocp = none;
  listen_socket = none;
  accept_event = none;
  accepts = false;
  thread_pool = [];
  packets = 0;
  completions = 0;
  closed = [];
}

-- A call that gives a handle, or a failure that its caller throws.
abbrev pub obtain : Result ℕ → Act ℕ
obtain (ok h) s = gives h s
obtain (err e) s = raises e s

abbrev pub close_handle : ℕ → Act (Unit {0})
close_handle h s = gives tt (record s { closed = s.closed ++ h ∷ [] })

-- A call on a handle, which is closed if the call fails.
unfoldable pub or_close : ℕ → Option ℕ → Act (Unit {0})
or_close h none = give tt
or_close h (some code) = do close_handle h; raise runtime_error

-- CreateListenSocket: what WSASocket, `bind` and `listen` answer.
unfoldable pub create_listen_socket : Result ℕ → Option ℕ → Option ℕ → Act ℕ
unfolding or_close
create_listen_socket socket binding listening = do
  h ← obtain socket
  or_close h binding
  or_close h listening
  give h

-- CreateAcceptEvent: what WSACreateEvent and WSAEventSelect answer.
unfoldable pub create_accept_event : Result ℕ → Option ℕ → Act ℕ
unfolding or_close
create_accept_event event selection = do h ← obtain event; or_close h selection; give h

-- What the system answers to the calls of `start`.
pub record Answers : Type 0 where
  pub port : Result ℕ
  pub socket : Result ℕ
  pub binding : Option ℕ
  pub listening : Option ℕ
  pub event : Result ℕ
  pub selection : Option ℕ

abbrev pub replicate : ℕ → List Thread
replicate zero = []
replicate (suc n) = testing ∷ replicate n

-- The compare_exchange at the front of `start`.
abbrev pub claim : Act (Unit {0})
claim s =
    (if s.started then raise runtime_error else (λ t. gives tt (record t { started = true }))) s

abbrev pub set_iocp : Option ℕ → Act (Unit {0})
set_iocp h s = gives tt (record s { iocp = h })

abbrev pub set_listen_socket : ℕ → Act (Unit {0})
set_listen_socket h s = gives tt (record s { listen_socket = some h })

abbrev pub set_accept_event : ℕ → Act (Unit {0})
set_accept_event h s = gives tt (record s { accept_event = some h })

abbrev pub set_stopped : Act (Unit {0})
set_stopped s = gives tt (record s { stopped = true })

-- createAcceptThread, and the threads of the pool behind it.
abbrev pub create_threads : ℕ → Act (Unit {0})
create_threads size s =
    gives tt (record s { accepts = true; thread_pool = s.thread_pool ++ replicate size })

-- IOCP::start.
unfoldable pub start : Answers → ℕ → Act (Unit {0})
unfolding create_listen_socket create_accept_event
start a size = do
  claim
  h ← obtain a.port
  set_iocp (some h)
  l ← create_listen_socket a.socket a.binding a.listening
  set_listen_socket l
  e ← create_accept_event a.event a.selection
  set_accept_event e
  create_threads size

-- The first loop of stopThreadPool, with what PostQueuedCompletionStatus answers.
unfoldable pub post_packets : List Thread → List (Option ℕ) → ℕ → ℕ
post_packets [] answers n = n
post_packets (t ∷ ts) [] n = post_packets ts [] (n + 1)
post_packets (t ∷ ts) (none ∷ answers) n = post_packets ts answers (n + 1)
post_packets (t ∷ ts) (some code ∷ answers) n = post_packets ts answers n

unfoldable pub stop_thread_pool : List (Option ℕ) → Act (Unit {0})
unfolding post_packets
stop_thread_pool answers s =
    gives tt (record s { packets = post_packets s.thread_pool answers s.packets })

-- `acceptThread.join()` throws if there is no such thread, which `start` makes late.
abbrev pub join_accept : Act (Unit {0})
join_accept s =
    (if s.accepts then (λ t. gives tt (record t { accepts = false })) else raise (system_error 22))
      s

-- IOCP::stop up to the joining of the pool.
unfoldable pub stop_begin : List (Option ℕ) → Act (Unit {0})
unfolding stop_thread_pool
stop_begin answers = do set_stopped; join_accept; stop_thread_pool answers

abbrev pub all_done : List Thread → Bool
all_done [] = true
all_done (done ∷ ts) = all_done ts
all_done (testing ∷ ts) = false
all_done (waiting ∷ ts) = false

abbrev pub close_opt : Option ℕ → Act (Unit {0})
close_opt none = give tt
close_opt (some h) = close_handle h

-- IOCP::stop behind it.
unfoldable pub stop_end : Act (Unit {0})
stop_end = do
  (λ s. close_opt s.accept_event s)
  (λ s. close_opt s.listen_socket s)
  (λ s. close_opt s.iocp s)
  set_iocp none

-- The loop of a thread of the pool: it tests `stopped`, and waits for a packet; one that was
-- posted to wake it, or one of an operation that has ended, ends the call of `process`.
pub data Turn (s : Service) : Service → Type 0 where
  leaves :
      (l r : List Thread)
      → s.thread_pool ≡ l ++ testing ∷ r
      → s.stopped ≡ true
      → Turn s (record s { thread_pool = l ++ done ∷ r })
  enters :
      (l r : List Thread)
      → s.thread_pool ≡ l ++ testing ∷ r
      → s.stopped ≡ false
      → Turn s (record s { thread_pool = l ++ waiting ∷ r })
  wakes :
      (l r : List Thread) (k : ℕ)
      → s.thread_pool ≡ l ++ waiting ∷ r
      → s.packets ≡ suc k
      → Turn s (record s { thread_pool = l ++ testing ∷ r; packets = k })
  serves :
      (l r : List Thread) (k : ℕ)
      → s.thread_pool ≡ l ++ waiting ∷ r
      → s.completions ≡ suc k
      → Turn s (record s { thread_pool = l ++ testing ∷ r; completions = k })
