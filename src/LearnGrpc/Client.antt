-- ===== src/LearnGrpc/Client.antt =====
-- learn_grpc/hello_world/src/client/async: the classes of calls in async_chat_client.cpp,
-- async_hello_client.cpp and async_goodbye_client.cpp, and the class ClientProactor, for one call.
-- Calls meet in the registry alone, where each has its own key.
pub mod Calls
pub mod Rounds
pub mod Lives
pub mod Courses
mod Tests
use cpp_programming.Base.{
  ℕ, zero, suc, ◌+◌, ◌-◌, ◌*◌, ◌/◌, ◌%◌, ◌^◌, ◌≤◌, ◌<◌, pred, ◌≡◌, refl, sym, ap, ◌∙◌, subst, ◌≢◌,
  ◌↔◌, ◌⊎◌, inl, inr, Bool, true, false, ◌&&◌, ◌||◌, not, Option, none, some, List, [], ◌∷◌, ◌++◌,
  map, append-nil, append_assoc, arith, ltb, leb, ◌==◌, if◌then◌else◌, ==_iff, ==_refl, Bool-cases,
  Option-cases, length, is_empty, get_elem?, set, take, drop, All, length-append, length-drop,
  length-take, take-append-drop, take-append, drop-append, length-set, Exn, runtime_error,
  invalid_argument, out_of_range, out_of_fuel, undefined, blocked, system_error, Outcome, returned,
  threw, Result, ok, err,
}
use cpp_programming.Base.Actions.{
  Reply, gives, raises, Action, give, raise, and_then, ◌>>=◌, ◌>>◌, when, swallow, try_log,
  state_of,
}
use cpp_programming.Text.{Text}
use cpp_programming.LearnGrpc.Event.{Event, half, of_key, get_key, get_opt, set_opt}

-- CLIENT_EVENT_OPT.
abbrev pub opt_start_call : ℕ
opt_start_call = 0

abbrev pub opt_finish : ℕ
opt_finish = 1

abbrev pub opt_read : ℕ
opt_read = 2

abbrev pub opt_write : ℕ
opt_write = 3

abbrev pub opt_write_done : ℕ
opt_write_done = 4

-- GreetCall and the four classes of the hello and goodbye clients, ListenCall, SpeakCall, TalkCall.
pub data Kind : Type 0 where
  unary listen speak talk : Kind

-- The operations that are handed to gRPC with a token.
pub data Operation : Type 0 where
  start_call finish_call read writes_done : Operation
  write : Text → Operation

pub record Pending : Type 0 where
  pub token : Event
  pub operation : Operation

-- A call with its place in the registry, what remains of its semaphore `canWrite`, and what gRPC has
-- not ended yet.
pub record Call : Type 0 where
  pub kind : Kind
  pub key : ℕ
  pub finish : Bool
  pub closed : Bool
  pub remaining : ℕ
  pub registered : Bool
  pub pending : List Pending

abbrev pub Act {ℓ} : Type ℓ → Type ℓ
Act A = Action Call A

abbrev pub post : Operation → Event → Act (Unit {0})
post operation token s =
    gives tt
      (record s { pending = s.pending ++ record { token = token; operation = operation } ∷ [] })

abbrev pub set_finish : Act (Unit {0})
set_finish s = gives tt (record s { finish = true })

abbrev pub set_closed : Act (Unit {0})
set_closed s = gives tt (record s { closed = true })

-- `while (!canWrite.release()) {}`: with all of its capacity of 1 left, the call does not come back
-- before another thread acquires it.
unfoldable pub release : Act (Unit {0})
release s =
    (if s.remaining == 1
        then raise blocked
        else (λ t. gives tt (record t { remaining = t.remaining + 1 })))
      s

-- `canWrite.acquire()`.
unfoldable pub acquire : Act (Unit {0})
acquire s =
    (if s.remaining == 0
        then raise blocked
        else (λ t. gives tt (record t { remaining = t.remaining - 1 })))
      s

abbrev pub check_key : Event → Act (Unit {0})
check_key event s = (if s.key == get_key event then give tt else raise runtime_error) s

-- The `switch` of each `process`, by the option of the event.
unfoldable pub listen_switch : Bool → ℕ → Event → Act (Unit {0})
listen_switch is_ok opt event =
    if opt == opt_start_call
    then (if is_ok then post read (set_opt opt_read event) else set_finish)
    else if opt == opt_read
    then (if is_ok then post read event else post finish_call (set_opt opt_finish event))
    else if opt == opt_finish
    then set_finish
    else give tt

unfoldable pub listen_process : Bool → Event → Act (Unit {0})
unfolding listen_switch
listen_process is_ok event = do check_key event; listen_switch is_ok (get_opt event) event

unfoldable pub speak_switch : Bool → ℕ → Event → Act (Unit {0})
unfolding release
speak_switch is_ok opt event =
    if opt == opt_start_call
    then release
    else if opt == opt_write
    then release
    else if opt == opt_write_done
    then set_closed
    else if opt == opt_finish
    then set_finish
    else give tt

unfoldable pub speak_process : Bool → Event → Act (Unit {0})
unfolding speak_switch
speak_process is_ok event = do check_key event; speak_switch is_ok (get_opt event) event

unfoldable pub talk_switch : Bool → ℕ → Event → Act (Unit {0})
unfolding release
talk_switch is_ok opt event =
    if opt == opt_start_call
    then (do if is_ok then post read (set_opt opt_read event) else set_finish; release)
    else if opt == opt_read
    then (if is_ok then post read event else post finish_call (set_opt opt_finish event))
    else if opt == opt_write
    then release
    else if opt == opt_write_done
    then set_closed
    else if opt == opt_finish
    then set_finish
    else give tt

unfoldable pub talk_process : Bool → Event → Act (Unit {0})
unfolding talk_switch
talk_process is_ok event = do check_key event; talk_switch is_ok (get_opt event) event

-- The calls with one response log it.
unfoldable pub process : Kind → Bool → Event → Act (Unit {0})
unfolding listen_process speak_process talk_process
process unary is_ok event = give tt
process listen is_ok event = listen_process is_ok event
process speak is_ok event = speak_process is_ok event
process talk is_ok event = talk_process is_ok event

-- `isComplete` by the fields `finish` and `closed`.
abbrev pub is_complete : Kind → Bool → Bool → Bool
is_complete unary finish closed = true
is_complete listen finish closed = finish
is_complete speak finish closed = finish && closed
is_complete talk finish closed = finish && closed

-- The end of a round of `asyncCompleteRpc`.
abbrev pub remove_complete : Act (Unit {0})
remove_complete s =
    gives tt (record s { registered = not (is_complete s.kind s.finish s.closed) && s.registered })

-- A round of `asyncCompleteRpc` for an event of the call. An event whose key is not in the map is
-- logged.
unfoldable pub complete_round : Bool → Event → Act (Unit {0})
unfolding process
complete_round is_ok event s =
    (if s.registered then (do process s.kind is_ok event; remove_complete) else give tt) s

-- The constructors, and `prepareAsyncCall`, which gives the call its key.
unfoldable pub new_call : Kind → ℕ → Call
new_call kind key = record {
  kind = kind;
  key = key;
  finish = false;
  closed = false;
  remaining = 1;
  registered = true;
  pending = [];
}

-- What `greet` and the functions of the hello and goodbye clients do behind `prepareAsyncCall`; the
-- memory of the option is set before it is read.
unfoldable pub unary_start : ℕ → Act (Unit {0})
unary_start key = post finish_call (set_opt opt_finish (of_key key 0))

-- `start` of the streaming calls.
unfoldable pub listen_start : ℕ → Act (Unit {0})
listen_start key = post start_call (set_opt opt_start_call (of_key key 0))

unfoldable pub speak_start : ℕ → Act (Unit {0})
unfolding acquire
speak_start key = do
  acquire
  post start_call (set_opt opt_start_call (of_key key 0))
  post finish_call (set_opt opt_finish (set_opt opt_start_call (of_key key 0)))

unfoldable pub talk_start : ℕ → Act (Unit {0})
unfolding acquire
talk_start key = do acquire; post start_call (set_opt opt_start_call (of_key key 0))

abbrev pub start : Kind → ℕ → Act (Unit {0})
start unary = unary_start
start listen = listen_start
start speak = speak_start
start talk = talk_start

-- `write` and `close` of SpeakCall and TalkCall.
unfoldable pub write_message : Text → Act (Unit {0})
unfolding acquire
write_message text s = (do acquire; post (write text) (set_opt opt_write (of_key s.key 0))) s

unfoldable pub close : Act (Unit {0})
unfolding acquire
close s = (do acquire; post writes_done (set_opt opt_write_done (of_key s.key 0))) s
