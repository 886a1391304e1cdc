-- ===== src/IocpServer/Tests.antt =====
-- A client that sends "hello" and gets it back in two pieces, and a pool of two threads.
use cpp_programming.Base.{
  ℕ, ◌≤◌, ◌<◌, ◌≢◌, ◌^◌, ◌≡◌, refl, ◌⊎◌, true, none, some, List, [], ◌∷◌, arith, length, ok,
}
use cpp_programming.Base.Actions.{gives, state_of}
use cpp_programming.Base.Maps.{lookup, has, insert, erase}
use cpp_programming.Text.{Text}
use cpp_programming.Text.Literals.{codes}
use cpp_programming.IocpServer.Contexts.{
  ClientContext, Port, new_context, id_loop, create_client_context, store, begin,
  remove_client_context, get_client_context, sending, receiving,
}
use cpp_programming.IocpServer.Port.{
  posted, associate_with_iocp, initial_recv, accept_connection, recv_completed, send_next,
  send_completed, on_context, process, packet,
}
use cpp_programming.IocpServer.Fresh.{create_client_context-gives}
use cpp_programming.IocpServer.Steps.{
  new_port, finished, received, Event, connected, arrived, departed, heard, echoed, Reach, begun,
  next, accepting, arriving, departing,
}
use cpp_programming.IocpServer.Completions.{Begins}
use cpp_programming.IocpServer.Echo.{
  echoed-heard, pending-within, process-returns, Later, at_once, then_step, stranded_stays,
}
use cpp_programming.IocpServer.Service.{
  testing, waiting, done, Service, new_service, start, Answers, create_listen_socket,
  create_accept_event, or_close, post_packets, stop_thread_pool, all_done, Turn, leaves,
}
use cpp_programming.IocpServer.Pool.{none_yet, one_more, stop_thread_pool-ends}

abbrev one : Port
one = state_of (accept_connection (some 7) none none new_port)

abbrev two : Port
two = state_of (process (packet 0 5) (some 997) (received 0 0 (codes "hello") one))

abbrev three : Port
three = state_of (process (packet 0 2) none (finished 0 two))

abbrev four : Port
four = state_of (process (packet 0 3) none (finished 0 three))

abbrev events : List Event
events =
    departed 0 (codes "llo")
    ∷ departed 0 (codes "he")
    ∷ arrived 0 (codes "hello")
    ∷ connected 0
    ∷ []

reach_four : Reach events four
unfolding new_port accept_connection create_client_context id_loop new_context associate_with_iocp
    initial_recv store posted begin process get_client_context on_context recv_completed
    send_completed send_next received finished lookup has insert erase remove_client_context
reach_four =
    next
      (next
        (next (next begun (accepting 7 none none one (omega arith) refl))
          (arriving 0 0 4096 (codes "hello") (some 997) two refl (omega arith) refl))
        (departing 0 0 5 2 _ none three refl refl (omega arith) refl))
      (departing 0 2 3 3 _ none four refl refl (omega arith) refl)

create_client_context-gives_example :
    (id : ℕ) × (lookup id one.contexts ≡ none)
    × (id ≢ 1)
    × (id < 2 ^ 32)
    × (create_client_context 8 one
        ≡ gives
            (new_context id 8)
            (record one { next_id = id; contexts = insert id (new_context id 8) one.contexts }))
unfolding new_port accept_connection create_client_context id_loop new_context associate_with_iocp
    initial_recv store posted begin process get_client_context on_context recv_completed
    send_completed send_next received finished lookup has insert erase remove_client_context
create_client_context-gives_example = create_client_context-gives 8 one (omega arith) (omega arith)

echoed-heard_example :
    Begins (echoed 0 events) (heard 0 events)
    × ((off len : ℕ)
        → lookup 0 four.pending ≡ some (receiving off len)
        → echoed 0 events ≡ heard 0 events)
echoed-heard_example = echoed-heard events four 0 reach_four

heard_lem : heard 0 events ≡ codes "hello"
unfolding heard
heard_lem = refl

pending-within_example :
    (c : ClientContext) × (lookup 0 four.contexts ≡ some c) × (4096 ≤ length c.buffer)
unfolding new_port accept_connection create_client_context id_loop new_context associate_with_iocp
    initial_recv store posted begin process get_client_context on_context recv_completed
    send_completed send_next received finished lookup has insert erase remove_client_context
pending-within_example = pending-within events four 0 (receiving 0 4096) reach_four refl

process-returns_example :
    ((b : Text)
      → lookup 0 four.pending ≡ some (receiving 0 4096)
      → length b ≤ 4096
      → (t : Port) × (process (packet 0 (length b)) none (received 0 0 b four) ≡ gives tt t))
    × ((n : ℕ)
        → lookup 0 four.pending ≡ some (sending 0 4096)
        → n ≤ 4096
        → (t : Port) × (process (packet 0 n) none (finished 0 four) ≡ gives tt t))
process-returns_example = process-returns events four 0 0 4096 none reach_four

-- A socket that could not be associated with the port, and one that comes later.
abbrev stuck : Port
stuck = state_of (accept_connection (some 7) (some 87) none new_port)

abbrev context : ClientContext
context = new_context 0 7

abbrev busy : Port
busy = state_of (accept_connection (some 8) none none stuck)

reach_stuck : Reach (connected 0 ∷ []) stuck
unfolding new_port accept_connection create_client_context id_loop new_context associate_with_iocp
    initial_recv store posted begin process get_client_context on_context recv_completed
    send_completed send_next received finished lookup has insert erase remove_client_context
reach_stuck = next begun (accepting 7 (some 87) none stuck (omega arith) refl)

Later-busy : Later (connected 0 ∷ []) stuck (connected 2 ∷ connected 0 ∷ []) busy
unfolding new_port accept_connection create_client_context id_loop new_context associate_with_iocp
    initial_recv store posted begin process get_client_context on_context recv_completed
    send_completed send_next received finished lookup has insert erase remove_client_context
Later-busy = then_step at_once (accepting 8 none none busy (omega arith) refl)

stranded_stays_example : (lookup 0 busy.contexts ≡ some context) × (lookup 0 busy.pending ≡ none)
unfolding new_port accept_connection create_client_context id_loop new_context associate_with_iocp
    initial_recv store posted begin process get_client_context on_context recv_completed
    send_completed send_next received finished lookup has insert erase remove_client_context
stranded_stays_example =
    stranded_stays (connected 0 ∷ []) stuck (connected 2 ∷ connected 0 ∷ []) busy 0 context
      reach_stuck refl refl Later-busy

-- A pool of two threads, one of which waits.
abbrev answers : Answers
answers = record {
  port = ok 1;
  socket = ok 2;
  binding = none;
  listening = none;
  event = ok 3;
  selection = none;
}

abbrev running : Service
running = state_of (start answers 2 new_service)

abbrev stopping : Service
stopping = record running { thread_pool = testing ∷ waiting ∷ []; stopped = true }

abbrev joining : Service
joining = state_of (stop_thread_pool [] stopping)

abbrev left_one : Service
left_one = record joining { thread_pool = done ∷ waiting ∷ [] }

stop_thread_pool-ends_example :
    (1 ≤ 4) × ((all_done left_one.thread_pool ≡ true) ⊎ ((v : Service) × Turn left_one v))
unfolding start new_service create_listen_socket create_accept_event or_close stop_thread_pool
    post_packets
stop_thread_pool-ends_example =
    stop_thread_pool-ends stopping joining left_one 1 refl refl
      (one_more none_yet (leaves [] (waiting ∷ []) refl refl))
