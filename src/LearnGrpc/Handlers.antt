-- ===== src/LearnGrpc/Handlers.antt =====
-- learn_grpc/hello_world/src/server/async: the classes of event_handler/ and the class ServerProactor,
-- with one thread and its completion queue. An operation that is handed to gRPC is pending until the
-- queue gives its token back.
pub mod Reactions
pub mod Classes
pub mod Accounting
pub mod Runs
pub mod Talks
pub mod Requests
use cpp_programming.Base.{
  ℕ, zero, suc, ◌+◌, ◌-◌, ◌*◌, ◌/◌, ◌%◌, ◌^◌, ◌≤◌, ◌<◌, pred, ◌≡◌, refl, sym, ap, ◌∙◌, subst, ◌≢◌,
  ◌↔◌, ◌⊎◌, inl, inr, Bool, true, false, ◌&&◌, ◌||◌, not, Option, none, some, List, [], ◌∷◌, ◌++◌,
  map, append-nil, append_assoc, arith, ltb, leb, ◌==◌, if◌then◌else◌, ==_iff, ==_refl, Bool-cases,
  Option-cases, length, is_empty, get_elem?, set, take, drop, All, length-append, length-drop,
  length-take, take-append-drop, take-append, drop-append, length-set, Exn, runtime_error,
  invalid_argument, out_of_range, out_of_fuel, undefined, blocked, system_error, exit_status,
  Outcome, returned, threw, Result, ok, err,
}
use cpp_programming.Base.Actions.{
  Reply, gives, raises, Action, give, raise, and_then, ◌>>=◌, ◌>>◌, when, swallow, try_log,
  state_of,
}
use cpp_programming.Base.Maps.{Dict, lookup, has, insert, erase}
use cpp_programming.Text.{Text}
use cpp_programming.Text.Literals.{codes}
use cpp_programming.LearnGrpc.Event.{Event, half, of_key, get_key, get_opt, set_opt}
use cpp_programming.LearnGrpc.Registry.{Registry, add, count, contains, remove}
use cpp_programming.LearnGrpc.Registry

-- SERVER_EVENT_OPT.
abbrev pub opt_receive : ℕ
opt_receive = 1

abbrev pub opt_finish : ℕ
opt_finish = 2

abbrev pub opt_write : ℕ
opt_write = 3

abbrev pub opt_read : ℕ
opt_read = 4

-- The eight classes of handlers.
pub data Kind : Type 0 where
  hello hello_again goodbye goodbye_again greet listen speak talk : Kind

-- What the requests hold: HelloRequest and GoodbyeRequest two names, ClientWords its content. Times
-- are only logged or passed on, and left out.
pub record Message : Type 0 where
  pub first_name : Text
  pub last_name : Text
  pub content : Text

-- The fields of the handlers; `responses` is that of ChatListenEventHandler.
pub record Handler : Type 0 where
  pub kind : Kind
  pub finish : Bool
  pub request : Message
  pub responses : List Text

pub data Status : Type 0 where
  ok_status cancelled : Status

-- The calls of gRPC that end with an event: to wait for a call of the client, Write and Read of the
-- streams, and Finish with a response and without.
pub data Operation : Type 0 where
  request_call : Kind → Operation
  write : Text → Operation
  read : Operation
  finish_with : Text → Status → Operation
  finish_call : Status → Operation

pub record Pending : Type 0 where
  pub token : Event
  pub operation : Operation

pub record Proactor : Type 0 where
  pub registry : Registry Handler
  pub stopped : Bool
  pub pending : List Pending

abbrev pub Act {ℓ} : Type ℓ → Type ℓ
Act A = Action Proactor A

unfoldable pub new : Proactor
unfolding Registry.new
new = record { registry = Registry.new; stopped = false; pending = [] }

-- The constructors, but for the registration.
unfoldable pub new_handler : Kind → Handler
new_handler kind = record {
  kind = kind;
  finish = false;
  request = record { first_name = []; last_name = []; content = [] };
  responses = [];
}

abbrev pub post : Operation → Event → Act (Unit {0})
post operation token s =
    gives tt
      (record s { pending = s.pending ++ record { token = token; operation = operation } ∷ [] })

abbrev pub keep_added : Proactor → Result (ℕ × Registry Handler) → Reply Proactor ℕ
keep_added s (ok p) = gives p.0 (record s { registry = p.1 })
keep_added s (err e) = raises e s

-- ServerProactor::registerHandler with the request function of the handler's class. The option of
-- the event is set before it is read.
unfoldable pub register_handler : Kind → Act (Unit {0})
register_handler kind s =
    (if s.stopped then give tt else (do
      key ← λ t. keep_added t (add (new_handler kind) t.registry)
      post (request_call kind) (set_opt opt_receive (of_key key 0))))
      s

abbrev pub finished : Handler → Handler
finished h = record h { finish = true }

-- `process` of the handlers of calls with one request and one response.
unfoldable pub process_unary : Kind → Text → Bool → Event → Handler → Act Handler
process_unary kind response is_ok event h =
    if get_opt event == opt_receive
    then (do
      register_handler kind
      if is_ok
          then (do post (finish_with response ok_status) (set_opt opt_finish event); give h)
          else give (finished h))
    else if get_opt event == opt_finish
    then give (finished h)
    else give h

abbrev pub greeting : Text → Message → Text
greeting start m = start ++ (m.first_name ++ (codes " " ++ m.last_name))

unfoldable pub hello_process : Bool → Event → Handler → Act Handler
unfolding process_unary
hello_process is_ok event h =
    process_unary hello (greeting (codes "Hello, ") h.request) is_ok event h

unfoldable pub hello_again_process : Bool → Event → Handler → Act Handler
unfolding process_unary
hello_again_process is_ok event h =
    process_unary hello_again (greeting (codes "Hello, ") h.request) is_ok event h

unfoldable pub goodbye_process : Bool → Event → Handler → Act Handler
unfolding process_unary
goodbye_process is_ok event h =
    process_unary goodbye (greeting (codes "Goodbye, ") h.request) is_ok event h

unfoldable pub goodbye_again_process : Bool → Event → Handler → Act Handler
unfolding process_unary
goodbye_again_process is_ok event h =
    process_unary goodbye_again (greeting (codes "Goodbye, ") h.request) is_ok event h

unfoldable pub greet_process : Bool → Event → Handler → Act Handler
unfolding process_unary
greet_process is_ok event h = process_unary greet (codes "Me too!") is_ok event h

-- `asyncWriter.Write(responses.front(), ...)` and `responses.pop()`; both are undefined for an empty
-- queue.
abbrev pub write_front : Event → Handler → List Text → Act Handler
write_front event h [] = raise undefined
write_front event h (t ∷ ts) = do
  post (write t) (set_opt opt_write event)
  give (record h { responses = ts })

abbrev pub write_or_finish : Event → Handler → List Text → Act Handler
write_or_finish event h [] = do post (finish_call ok_status) (set_opt opt_finish event); give h
write_or_finish event h (t ∷ ts) = write_front event h (t ∷ ts)

unfoldable pub listen_process : Bool → Event → Handler → Act Handler
listen_process is_ok event h =
    if get_opt event == opt_receive
    then (do
      register_handler listen
      if is_ok
          then write_front event h (h.responses ++ codes "aaa" ∷ codes "bbb" ∷ codes "ccc" ∷ [])
          else give (finished h))
    else if get_opt event == opt_write
    then (if is_ok then write_or_finish event h h.responses else give (finished h))
    else if get_opt event == opt_finish
    then give (finished h)
    else give h

unfoldable pub speak_process : Bool → Event → Handler → Act Handler
speak_process is_ok event h =
    if get_opt event == opt_receive
    then (do
      register_handler speak
      if is_ok then (do post read (set_opt opt_read event); give h) else give (finished h))
    else if get_opt event == opt_read
    then (if is_ok
        then (do post read event; give h)
        else (do post (finish_with (codes "OK.") ok_status) (set_opt opt_finish event); give h))
    else if get_opt event == opt_finish
    then give (finished h)
    else give h

-- After a write that failed the event keeps the option of a write.
unfoldable pub talk_process : Bool → Event → Handler → Act Handler
talk_process is_ok event h =
    if get_opt event == opt_receive
    then (do
      register_handler talk
      if is_ok then (do post read (set_opt opt_read event); give h) else give (finished h))
    else if get_opt event == opt_read
    then (if is_ok
        then (do post (write h.request.content) (set_opt opt_write event); give h)
        else (do post (finish_call ok_status) (set_opt opt_finish event); give h))
    else if get_opt event == opt_write
    then (if is_ok
        then (do post read (set_opt opt_read event); give h)
        else (do post (finish_call cancelled) event; give h))
    else if get_opt event == opt_finish
    then give (finished h)
    else give (finished h)

unfoldable pub process : Kind → Bool → Event → Handler → Act Handler
process hello = hello_process
process hello_again = hello_again_process
process goodbye = goodbye_process
process goodbye_again = goodbye_again_process
process greet = greet_process
process listen = listen_process
process speak = speak_process
process talk = talk_process

-- What gRPC puts into the request of a handler when it ends an operation.
abbrev pub fill : Operation → Message → Handler → Handler
fill (request_call kind) m h = record h { request = m }
fill read m h = record h { request = m }
fill (write t) m h = h
fill (finish_with t s) m h = h
fill (finish_call s) m h = h

abbrev pub store : ℕ → Handler → Act (Unit {0})
store key h s =
    gives tt
      (record s { registry = record s.registry { handlers = insert key h s.registry.handlers } })

abbrev pub drop_handler : ℕ → Act (Unit {0})
drop_handler key s = gives tt (record s { registry = remove key s.registry })

-- The end of a round of `demultiplex`: the handler is an object that the map refers to.
abbrev pub conclude : ℕ → Handler → Act (Unit {0})
conclude key h = do store key h; when h.finish (drop_handler key)

abbrev pub work : Bool → Message → Pending → Option Handler → Act (Unit {0})
work is_ok m p none = give tt
work is_ok m p (some h) = do
  h' ← process h.kind is_ok p.token (fill p.operation m h)
  conclude (get_key p.token) h'

-- A round of the loop of `demultiplex` for an event. A key that is not in the map is logged; the
-- call of `get` finds the handler that `contains` has found.
unfoldable pub handle : Bool → Message → Pending → Act (Unit {0})
handle is_ok m p s = work is_ok m p (lookup (get_key p.token) s.registry.handlers) s

-- What `AsyncNext` answers.
pub data Next : Type 0 where
  shutdown timeout : Next
  got : Bool → Message → Pending → Next

-- A round of the loop; `false`: the loop ends.
unfoldable pub demultiplex_round : Next → Act Bool
demultiplex_round shutdown s = give false s
demultiplex_round timeout s = give (not (count s.registry == 0)) s
demultiplex_round (got is_ok m p) s = (handle is_ok m p >> give true) s

unfoldable pub register_all : List Kind → Act (Unit {0})
register_all [] = give tt
register_all (k ∷ ks) = do register_handler k; register_all ks

abbrev pub kinds : List Kind
kinds = hello ∷ hello_again ∷ goodbye ∷ goodbye_again ∷ greet ∷ listen ∷ speak ∷ talk ∷ []

-- The start of `demultiplex`.
unfoldable pub start_handlers : Act (Unit {0})
unfolding register_all
start_handlers = register_all kinds

-- ServerProactor::stop.
unfoldable pub stop : Proactor → Proactor
stop s = record s { stopped = true }
