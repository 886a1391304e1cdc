-- ===== src/LearnGrpc/Tests.antt =====
-- A server whose handler of a Talk is called, and events of its registry.
use cpp_programming.Base.{ℕ, ◌≡◌, refl, none, length, true, false, List, [], ◌∷◌, ◌++◌, arith, ok}
use cpp_programming.Base.Actions.{gives, state_of}
use cpp_programming.Text.Literals.{codes}
use cpp_programming.LearnGrpc.Event.{of_key, get_key, get_opt, set_opt}
use cpp_programming.LearnGrpc.Handlers.{
  hello, hello_again, goodbye, goodbye_again, greet, listen, speak, talk, Message, Handler,
  ok_status, cancelled, Operation, write, read, finish_call, Pending, Proactor, new, new_handler,
  register_handler, talk_process, process, handle, got, demultiplex_round, register_all,
  start_handlers,
}
use cpp_programming.Base.Maps.{lookup, has, insert}
use cpp_programming.LearnGrpc.Registry.{Registry, add_loop, added, add, count, remove}
use cpp_programming.LearnGrpc.Handlers.Accounting.{for_key, Fits, request_at}
use cpp_programming.LearnGrpc.Registry
use cpp_programming.LearnGrpc.Registry.Keys.{add-has}
use cpp_programming.LearnGrpc.Services.{rounds, serve, words, endings, talk_words, serve-talk_words}
use cpp_programming.LearnGrpc.Handlers.Runs.{completed, Reach, started, next, Reach-Fits}
use cpp_programming.LearnGrpc.Handlers.Requests.{requests, Reach-requests}
use cpp_programming.LearnGrpc.Handlers.Talks.{Waits, cancelled_talk_reads}
use cpp_programming.Base.Maps.{has}
use cpp_programming.Base.Actions.{state_of}

-- The keys 0 and 4294967295 are in use, and the counter wraps around.
abbrev two_handlers : Registry Handler
two_handlers = record {
  handlers = (0, new_handler hello) ∷ (4294967295, new_handler talk) ∷ [];
  last_key = 4294967294;
}

add-has_example :
    (k : ℕ) × (r : Registry Handler) × (add (new_handler speak) two_handlers ≡ ok (k, r))
unfolding has lookup
add-has_example = add-has (new_handler speak) two_handlers 9 (omega arith) (omega arith) refl

abbrev begun : Proactor
unfolding start_handlers
begun = state_of (start_handlers new)

started_lem : start_handlers new ≡ gives tt begun
unfolding start_handlers register_all register_handler new add add_loop has insert lookup
    Registry.new
started_lem = refl

-- All requests but that of Talk.
abbrev front : List Pending
unfolding register_all new
front =
    (state_of (
      register_all (hello ∷ hello_again ∷ goodbye ∷ goodbye_again ∷ greet ∷ listen ∷ speak ∷ [])
        new)).pending

abbrev hi : Message
hi = record { first_name = []; last_name = []; content = codes "hi" }

-- The request for a Talk, with key 8, is the last; it is given back.
abbrev called : Proactor
unfolding start_handlers demultiplex_round
called =
    state_of
      (demultiplex_round (got true hi (request_at talk 8)) (record begun { pending = front }))

trace : Reach called
unfolding start_handlers register_all register_handler new add add_loop has insert lookup
    Registry.new demultiplex_round handle process talk_process new_handler of_key set_opt get_key
    get_opt
trace =
    next (started begun started_lem)
      (completed true hi (front) [] (request_at talk 8) called refl refl)

Reach-Fits_example : Fits (lookup 8 called.registry.handlers) (for_key 8 called.pending)
Reach-Fits_example = Reach-Fits called 8 trace

Reach-requests_example : requests talk called.pending ≡ 1
unfolding called handle lookup register_handler new add get_key set_opt of_key process new_handler
    talk_process get_opt
Reach-requests_example = Reach-requests called talk trace refl

abbrev talker : Handler
talker = record { kind = talk; finish = false; request = hi; responses = [] }

-- The Talk with an operation of its own behind the requests.
abbrev talking_to : Pending → Proactor
talking_to p = record {
  registry = record { handlers = (8, talker) ∷ []; last_key = 8 };
  stopped = false;
  pending = front ++ p ∷ [];
}

abbrev written : Pending
written = record { token = of_key 8 3; operation = write (codes "hi") }

abbrev reading : Pending
reading = record { token = of_key 8 4; operation = read }

writes_now : Waits (write (codes "hi")) 3 talker front (talking_to written)
unfolding get_opt get_key of_key lookup
writes_now = record {
  last = written;
  behind = refl;
  operation = refl;
  option = refl;
  talking = record { registered = refl; is_talk = refl; waiting = refl };
}

reads_now : Waits read 4 talker front (talking_to reading)
unfolding get_opt get_key of_key lookup
reads_now = record {
  last = reading;
  behind = refl;
  operation = refl;
  option = refl;
  talking = record { registered = refl; is_talk = refl; waiting = refl };
}

cancelled_talk_reads_example :
    (u : Proactor) × (w : Waits (finish_call cancelled) 3 talker front u) × (x : Proactor) × (handle
        false hi writes_now.last
        (record (talking_to written) { pending = front })
      ≡ gives tt u)
    × (handle true hi w.last (record u { pending = front }) ≡ gives tt x)
    × (z : Waits read 4 talker front x) × (get_key z.last.token ≡ get_key writes_now.last.token)
cancelled_talk_reads_example =
    cancelled_talk_reads (codes "hi") talker front (talking_to written) writes_now hi hi

serve-talk_words_example :
    (ops : List Operation) × (t : Proactor) × (serve
        (rounds (hi ∷ hi ∷ []))
        (length front)
        (hi ∷ hi ∷ [])
        (talking_to reading)
      ≡ gives ops t)
    × (words ops ≡ talk_words (hi ∷ hi ∷ []))
    × (endings ops ≡ ok_status ∷ [])
    × (t.pending ≡ front)
    × (lookup (get_key reads_now.last.token) t.registry.handlers ≡ none)
serve-talk_words_example =
    serve-talk_words (hi ∷ hi ∷ []) talker front (talking_to reading) reads_now
