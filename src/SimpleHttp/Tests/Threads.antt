-- ===== src/SimpleHttp/Tests/Threads.antt =====
-- One run of the threads: a connection that becomes readable, is read by the first of two reading
-- threads, answered, and written by the first of two writing threads.
use cpp_programming.Base.{◌+◌, ◌<◌, ◌≡◌, refl, false, none, List, [], ◌∷◌}
use cpp_programming.Base.Actions.{Reply, gives, raises, state_of}
use cpp_programming.SimpleHttp.Connection.{
  new_connection, Manager, get_value, add, erase, in_queue_read, de_queue_read, in_queue_write,
  de_queue_write, cache_add, cache_get, set_read_signal, wait_read_signal, set_write_signal,
  wait_write_signal,
}
use cpp_programming.SimpleHttp.Manager.{
  Kernel, need_in_queue_read, need_re_in_queue_read, need_in_queue_write, need_re_in_queue_write,
  check_to_in_queue_write, add_to_write_cache, release_connection, close, handler_write,
  read_complete_callback, write_complete_callback, read_error, write_error, close_if_done, receive,
  connection_read, send, connection_write, new_connection_event, write_out, process_read_round,
  process_write_round, start,
}
use cpp_programming.Text.{Text, find, to_string, c_string}
use cpp_programming.SimpleHttp.Request.{
  Request, append, all_received, set_first_line, add_header, set_content_length, header_round,
  set_headers_loop, set_headers, parse_message_body, parse_request, lookup, assign,
}
use cpp_programming.SimpleHttp.Request
use cpp_programming.SimpleHttp.Socket.{
  got, read_failed, took, eagain, read, read_loop, write, write_loop,
}
use cpp_programming.SimpleHttp.Handler.{
  Handler, is_waiting, append_received_data, check_data_integrity, response,
}
use cpp_programming.SimpleHttp.Handler
use cpp_programming.SimpleHttp.Manager.Frame.Relations.{count}
use cpp_programming.SimpleHttp.Threads.{
  Place, at_top, waiting, at_inner, exited, holding, checking, reader_step, writer_step, Todo,
  main_step, Event, readable, connected, post, System,
}
use cpp_programming.SimpleHttp.Threads.Tickets.{held, holds}
use cpp_programming.SimpleHttp.Threads.Steps.{
  main, event, reader, writer, Reach, here, next, started, Inv, Reach-Inv,
}
use cpp_programming.SimpleHttp.Threads.Steps.Exclusion.{
  readers_exclude, writers_exclude, read_event_attended,
}

-- "G\r\n\r\n": a first line, and no header.
abbrev pub request : Text
request = 71 ∷ 13 ∷ 10 ∷ 13 ∷ 10 ∷ []

abbrev pub kernel : Kernel
kernel = record {
  reads = got request ∷ read_failed eagain ∷ [];
  writes = took 100 ∷ [];
  first_close = none;
  second_close = none;
}

abbrev place_of : Reply Manager Place → Place
place_of (gives p m) = p
place_of (raises e m) = exited

abbrev todos_of : Reply Manager (List Todo) → List Todo
todos_of (gives t m) = t
todos_of (raises e m) = []

abbrev pub posted : Event → System → System
posted e s = record s { manager = state_of (post e s.manager); todos = todos_of (post e s.manager) }

abbrev pub main_on : System → System
main_on s = record s {
  manager = state_of (main_step s.todos s.manager);
  todos = todos_of (main_step s.todos s.manager);
}

abbrev reader_on : Place → System → System
reader_on p s = record s {
  manager = state_of (reader_step kernel p s.manager);
  readers = place_of (reader_step kernel p s.manager) ∷ at_top ∷ [];
}

abbrev writer_on : Place → System → System
writer_on p s = record s {
  manager = state_of (writer_step kernel p s.manager);
  writers = place_of (writer_step kernel p s.manager) ∷ at_top ∷ [];
}

abbrev pub connected_system : System
connected_system = posted (connected 7 3) (started false 2)

abbrev pub queued_system : System
queued_system = main_on (main_on (posted (readable 7) connected_system))

abbrev held_system : System
held_system = reader_on at_inner (reader_on waiting (reader_on at_top queued_system))

-- The functions that a step computes with.
Opened : Type 0
unfolding reader_step writer_step main_step post get_value add erase new_connection_event
    new_connection start in_queue_read in_queue_write de_queue_read de_queue_write cache_add
    cache_get set_read_signal wait_read_signal set_write_signal wait_write_signal need_in_queue_read
    need_re_in_queue_read need_in_queue_write need_re_in_queue_write Handler.new connection_read
    read_error receive append_received_data append all_received set_first_line add_header
    set_content_length header_round set_headers_loop set_headers parse_message_body parse_request
    read read_loop find check_data_integrity add_to_write_cache check_to_in_queue_write
    handler_write read_complete_callback close Request.new c_string response lookup close_if_done
    write_out connection_write write_error send write write_loop write_complete_callback
    release_connection process_read_round process_write_round to_string
Opened = Unit

held_trace : Reach (started false 2) held_system
unfolding Opened
held_trace =
    next
      (next
        (next
          (next
            (next
              (next
                (next here
                  (event (connected 7 3) refl (record { not_queued = refl; not_held = refl }) refl))
                (event (readable 7) refl tt refl))
              (main refl))
            (main refl))
          (reader kernel [] (at_top ∷ []) at_top waiting refl refl))
        (reader kernel [] (at_top ∷ []) waiting at_inner refl refl))
      (reader kernel [] (at_top ∷ []) at_inner (holding 3) refl refl)

readers_exclude_example : (holds 3 at_top ≡ 0) × (count 3 held_system.manager.read_queue ≡ 0)
unfolding Opened
readers_exclude_example = readers_exclude false 2 3 [] [] [] (holding 3) at_top held_trace refl refl

abbrev pub checking_system : System
checking_system = reader_on (holding 3) held_system

checking_trace : Reach (started false 2) checking_system
unfolding Opened
checking_trace = next held_trace (reader kernel [] (at_top ∷ []) (holding 3) (checking 3) refl refl)

Reach-Inv_example : Inv 3 checking_system
Reach-Inv_example = Reach-Inv false 2 3 checking_trace

read_event_attended_example :
    0 < count 3 held_system.manager.read_queue + held 3 held_system.readers
unfolding Opened
read_event_attended_example = read_event_attended false 2 3 held_trace refl refl

-- The connection is closed once the response is sent.
abbrev writing_system : System
writing_system = writer_on at_inner (writer_on waiting (writer_on at_top checking_system))

writing_trace : Reach (started false 2) writing_system
unfolding Opened
writing_trace =
    next
      (next (next checking_trace (writer kernel [] (at_top ∷ []) at_top waiting refl refl))
        (writer kernel [] (at_top ∷ []) waiting at_inner refl refl))
      (writer kernel [] (at_top ∷ []) at_inner (holding 3) refl refl)

writers_exclude_example : (holds 3 at_top ≡ 0) × (count 3 writing_system.manager.write_queue ≡ 0)
unfolding Opened
writers_exclude_example =
    writers_exclude false 2 3 [] [] [] (holding 3) at_top writing_trace refl refl
