-- ===== src/SimpleHttp/Threads/Steps.antt =====
-- All interleavings of the server's thread, the reading threads and the writing threads.
pub mod Exclusion
use cpp_programming.Base.{
  ℕ, zero, suc, ◌+◌, ◌-◌, ◌*◌, ◌/◌, ◌%◌, ◌^◌, ◌≤◌, ◌<◌, pred, ◌≡◌, refl, sym, ap, ◌∙◌, subst, ◌≢◌,
  ◌↔◌, ◌⊎◌, inl, inr, Bool, true, false, ◌&&◌, ◌||◌, not, Option, none, some, List, [], ◌∷◌, ◌++◌,
  map, append-nil, append_assoc, arith, ltb, leb, ◌==◌, if◌then◌else◌, ==_iff, ==_refl, Bool-cases,
  Option-cases, length, is_empty, get_elem?, set, take, drop, All, length-append, length-drop,
  length-take, take-append-drop, take-append, drop-append, length-set, Exn, runtime_error,
  invalid_argument, out_of_range, out_of_fuel, undefined, blocked, system_error, Outcome, returned,
  threw, Result, ok, err,
}
use cpp_programming.Base.Actions.{
  Reply, gives, raises, Action, give, raise, and_then, ◌>>=◌, ◌>>◌, when, swallow, try_log,
  state_of,
}
use cpp_programming.SimpleHttp.Connection.{
  ConnectionErrorCode, no_error, socket_error, socket_closed, Connection, new_connection, has_error,
  read_event_happened, write_event_happened, can_close, Manager, Act, update, get, modify,
  get_value, add, erase, in_queue_read, de_queue_read, in_queue_write, de_queue_write, cache_add,
  cache_get, has_content_to_write, set_read_signal, wait_read_signal, set_write_signal,
  wait_write_signal,
}
use cpp_programming.SimpleHttp.Manager.{
  mark_closed, take_readable, take_writable, set_response, add_response, answer_read, await_write,
  end_write, store, Kernel, transfer, close_socket, set_reading, set_writing, with_handler,
  need_in_queue_read, need_re_in_queue_read, enqueue_read, check_to_in_queue_read,
  need_in_queue_write, need_re_in_queue_write, enqueue_write, check_to_in_queue_write,
  add_to_write_cache, release_connection, close, handler_write, read_complete_callback,
  write_complete_callback, store_handler, read_error, write_error, close_if_done, receive,
  connection_read, send, connection_write, new_connection_event, set_readable, set_writable,
  set_error, can_read, can_write, error_occurred, time_to_exit, write_out, process_read_round,
  process_write_round, start, close_manager,
}
use cpp_programming.SimpleHttp.Manager.Frame.Relations.{bit, count}
use cpp_programming.SimpleHttp.Threads.{
  Place, at_top, waiting, at_inner, exited, holding, checking, requeueing, reader_step, writer_step,
  Todo, check_read, enter_read, check_write, enter_write, main_step, Event, readable, writable,
  broken, exiting, connected, post, no_todos, log_todos, System,
}
use cpp_programming.SimpleHttp.Threads.Tickets.{
  Attended, ReaderMoves, WriterMoves, MainMoves, holds, held, held-append, entering_read,
  entering_write, checking_read, reader_step-ReaderMoves, writer_step-WriterMoves,
  main_step-MainMoves,
}

-- No thread and no queue has to do with the connection at this address: what an allocator assures
-- of memory that it gives out while every object in use is referred to.
pub record Unused (a : ℕ) (s : System) : Type 0 where
  pub not_queued : count a s.manager.read_queue + count a s.manager.write_queue ≡ 0
  pub not_held : held a s.readers + held a s.writers ≡ 0

abbrev MemoryFree : Event → System → Type 0
MemoryFree (connected id a) s = Unused a s
MemoryFree (readable id) s = Unit
MemoryFree (writable id) s = Unit
MemoryFree (broken id) s = Unit
MemoryFree (exiting id) s = Unit

-- A step of one thread, a new event once the server's thread is done with the last one, or the
-- closing of the manager. A thread that throws ends the program, and has no step.
pub data Step (s : System) : System → Type 0 where
  main :
      {t : List Todo} {m : Manager}
      → main_step s.todos s.manager ≡ gives t m
      → Step s (record s { manager = m; todos = t })
  event :
      (e : Event) {t : List Todo} {m : Manager}
      → s.todos ≡ []
      → MemoryFree e s
      → post e s.manager ≡ gives t m
      → Step s (record s { manager = m; todos = t })
  reader :
      (k : Kernel) (l r : List Place) (p p' : Place) {m : Manager}
      → s.readers ≡ l ++ p ∷ r
      → reader_step k p s.manager ≡ gives p' m
      → Step s (record s { manager = m; readers = l ++ p' ∷ r })
  writer :
      (k : Kernel) (l r : List Place) (p p' : Place) {m : Manager}
      → s.writers ≡ l ++ p ∷ r
      → writer_step k p s.manager ≡ gives p' m
      → Step s (record s { manager = m; writers = l ++ p' ∷ r })
  closing :
      {m : Manager}
      → s.todos ≡ []
      → close_manager s.manager ≡ gives tt m
      → Step s (record s { manager = m })

pub data Reach (s : System) : System → Type 0 where
  here : Reach s s
  next : {t u : System} → Reach s t → Step t u → Reach s u

abbrev pub places : ℕ → List Place
places zero = []
places (suc n) = at_top ∷ places n

-- The program after the constructor has started `n` reading and `n` writing threads.
abbrev pub started : Bool → ℕ → System
started closed n = record {
  manager = start closed;
  todos = [];
  readers = places n;
  writers = places n;
}

-- For the connection at `c`: it stands in the queue of reading, is worked for by a reading thread,
-- or is about to enter the queue, all together once if it is marked as being read and else never;
-- the same for writing; and a reason to read it is attended to.
pub record Inv (c : ℕ) (s : System) : Type 0 where
  pub reading_once :
      count c s.manager.read_queue + held c s.readers + entering_read c s.todos
      ≡ bit (s.manager.heap c).is_reading
  pub writing_once :
      count c s.manager.write_queue + held c s.writers + entering_write c s.todos
      ≡ bit (s.manager.heap c).is_writing
  pub attended : Attended c s.manager (checking_read c s.todos)

Unmarked : Event → Manager → Type 0
Unmarked (connected id a) m = ((m.heap a).is_reading ≡ false) × ((m.heap a).is_writing ≡ false)
Unmarked (readable id) m = Unit
Unmarked (writable id) m = Unit
Unmarked (broken id) m = Unit
Unmarked (exiting id) m = Unit

post-MainMoves :
    (c : ℕ) (e : Event) (m : Manager) (t' : List Todo) (m' : Manager)
    → Unmarked e m
    → post e m ≡ gives t' m'
    → MainMoves c [] m t' m'
unfolding post get_value add new_connection_event new_connection Unmarked
post-MainMoves c (readable id) m t' m' u e = (ground arith, ground arith, λ a. ground arith)
post-MainMoves c (writable id) m t' m' u e = (ground arith, ground arith, λ a. ground arith)
post-MainMoves c (broken id) m t' m' u e = (ground arith, ground arith, λ a. ground arith)
post-MainMoves c (exiting id) m t' m' u e = (ground arith, ground arith, λ a. ground arith)
post-MainMoves c (connected id a) m t' m' u e = (ground arith, ground arith, λ q. ground arith)

MemoryFree-Unmarked :
    (e : Event) (s : System)
    → s.todos ≡ []
    → ((c : ℕ) → Inv c s)
    → MemoryFree e s
    → Unmarked e s.manager
unfolding Unmarked
MemoryFree-Unmarked (connected id a) s n v f = ground (arith, v a)
MemoryFree-Unmarked (readable id) s n v f = tt
MemoryFree-Unmarked (writable id) s n v f = tt
MemoryFree-Unmarked (broken id) s n v f = tt
MemoryFree-Unmarked (exiting id) s n v f = tt

main-Inv :
    (c : ℕ) (s : System) (t : List Todo) (m : Manager)
    → MainMoves c s.todos s.manager t m
    → Inv c s
    → Inv c (record s { manager = m; todos = t })
main-Inv c s t m h v = record {
  reading_once = omega (arith, h.0, v.reading_once);
  writing_once = omega (arith, h.1, v.writing_once);
  attended = h.2 v.attended;
}

reader-Inv :
    (c : ℕ) (s : System) (l r : List Place) (p p' : Place) (m : Manager)
    → s.readers ≡ l ++ p ∷ r
    → ReaderMoves c p s.manager p' m
    → Inv c s
    → Inv c (record s { manager = m; readers = l ++ p' ∷ r })
reader-Inv c s l r p p' m e h v = record {
  reading_once = omega (
    arith,
    h.0,
    v.reading_once,
    ap (held c) e,
    held-append c l (p ∷ r),
    held-append c l (p' ∷ r),
  );
  writing_once = omega (arith, h.1, v.writing_once);
  attended = h.2 (checking_read c s.todos) v.attended;
}

writer-Inv :
    (c : ℕ) (s : System) (l r : List Place) (p p' : Place) (m : Manager)
    → s.writers ≡ l ++ p ∷ r
    → WriterMoves c p s.manager p' m
    → Inv c s
    → Inv c (record s { manager = m; writers = l ++ p' ∷ r })
writer-Inv c s l r p p' m e h v = record {
  reading_once = rw (h.0, h.1) v.reading_once;
  writing_once = omega (
    arith,
    h.2,
    v.writing_once,
    ap (held c) e,
    held-append c l (p ∷ r),
    held-append c l (p' ∷ r),
  );
  attended = h.3 (checking_read c s.todos) v.attended;
}

closing-Inv :
    (c : ℕ) (s : System) (m : Manager)
    → close_manager s.manager ≡ gives tt m
    → Inv c s
    → Inv c (record s { manager = m })
unfolding close_manager set_read_signal set_write_signal
closing-Inv c s m e v = record {
  reading_once = ground (arith, v.reading_once);
  writing_once = ground (arith, v.writing_once);
  attended = λ q. ground (arith, v.attended);
}

Step-Inv : {s t : System} → Step s t → ((c : ℕ) → Inv c s) → (c : ℕ) → Inv c t
Step-Inv {s} (main {t} {m} e) v c =
    main-Inv c s t m (main_step-MainMoves c s.todos s.manager t m e) (v c)
Step-Inv {s} (event x {t} {m} n f e) v c =
    main-Inv c s t m (rw n (post-MainMoves c x s.manager t m (MemoryFree-Unmarked x s n v f) e))
      (v c)
Step-Inv {s} (reader k l r p p' {m} q e) v c =
    reader-Inv c s l r p p' m q (reader_step-ReaderMoves c k p s.manager p' m e) (v c)
Step-Inv {s} (writer k l r p p' {m} q e) v c =
    writer-Inv c s l r p p' m q (writer_step-WriterMoves c k p s.manager p' m e) (v c)
Step-Inv {s} (closing {m} n e) v c = closing-Inv c s m e (v c)

held-places : (c n : ℕ) → held c (places n) ≡ 0
held-places c zero = refl
held-places c (suc n) = omega (arith, held-places c n)

started-Inv : (closed : Bool) (n c : ℕ) → Inv c (started closed n)
unfolding start new_connection
started-Inv closed n c = record {
  reading_once = omega (arith, held-places c n);
  writing_once = omega (arith, held-places c n);
  attended = λ q. cc;
}

Reach-Inv-all :
    (closed : Bool) (n : ℕ) {s : System} → Reach (started closed n) s → (c : ℕ) → Inv c s
Reach-Inv-all closed n here = started-Inv closed n
Reach-Inv-all closed n (next r t) = Step-Inv t (Reach-Inv-all closed n r)

-- However the threads are interleaved, with any number of them, and whatever the server reports and
-- the kernel answers, each connection stands in the queue of reading, is worked for by a reading
-- thread or is about to enter that queue exactly once if it is marked as being read, and never
-- otherwise; so too for writing; and a connection with a reason to be read is marked as being read,
-- or the server's thread is about to see to it.
pub Reach-Inv : (closed : Bool) (n c : ℕ) {s : System} → Reach (started closed n) s → Inv c s
Reach-Inv closed n c r = Reach-Inv-all closed n r c
