-- ===== src/SimpleHttp/Tests/Rounds.antt =====
-- One connection that is answered, and one that is written too early.
use cpp_programming.Base.{refl, true, [], ◌∷◌}
use cpp_programming.Base.Actions.{state_of}
use cpp_programming.SimpleHttp.Connection.{
  new_connection, Manager, get_value, add, erase, in_queue_read, de_queue_read, in_queue_write,
  de_queue_write, cache_add, cache_get, set_read_signal, wait_read_signal, set_write_signal,
  wait_write_signal,
}
use cpp_programming.SimpleHttp.Manager.{
  need_in_queue_read, need_re_in_queue_read, need_in_queue_write, need_re_in_queue_write,
  check_to_in_queue_write, add_to_write_cache, release_connection, close, handler_write,
  read_complete_callback, write_complete_callback, read_error, write_error, close_if_done, receive,
  connection_read, send, connection_write, new_connection_event, write_out, process_read_round,
  process_write_round, start,
}
use cpp_programming.Text.{find, to_string, c_string}
use cpp_programming.SimpleHttp.Request.{
  Request, append, all_received, set_first_line, add_header, set_content_length, header_round,
  set_headers_loop, set_headers, parse_message_body, parse_request, lookup, assign,
}
use cpp_programming.SimpleHttp.Request
use cpp_programming.SimpleHttp.Socket.{read, read_loop, write, write_loop}
use cpp_programming.SimpleHttp.Handler.{
  Handler, is_waiting, append_received_data, check_data_integrity, response,
}
use cpp_programming.SimpleHttp.Handler
use cpp_programming.SimpleHttp.Threads.{reader_step, writer_step, main_step, writable, post}
use cpp_programming.SimpleHttp.Manager.Serving.{
  AwaitsRequest, IsServed, IsStalled, can_writes, serves_request, early_write_round_stalls,
}
use cpp_programming.SimpleHttp.Tests.Threads.{request, kernel, main_on, posted, queued_system}

Opened : Type 0
unfolding reader_step writer_step main_step post get_value add erase new_connection_event
    new_connection start in_queue_read in_queue_write de_queue_read de_queue_write cache_add
    cache_get set_read_signal wait_read_signal set_write_signal wait_write_signal need_in_queue_read
    need_re_in_queue_read need_in_queue_write need_re_in_queue_write Handler.new connection_read
    read_error receive append_received_data append all_received set_first_line add_header
    set_content_length header_round set_headers_loop set_headers parse_message_body parse_request
    read read_loop find check_data_integrity add_to_write_cache check_to_in_queue_write
    handler_write read_complete_callback close Request.new c_string response lookup close_if_done
    write_out connection_write write_error send write write_loop write_complete_callback
    release_connection process_read_round process_write_round to_string
Opened = Unit

abbrev waiting_manager : Manager
waiting_manager = (main_on (posted (writable 7) queued_system)).manager

-- The request after it has been parsed.
abbrev parsed : Request
parsed = record {
  buf = [];
  content_length = 0;
  first_line = 71 ∷ [];
  headers = [];
  message_body = [];
  headers_parse_complete = true;
  total_parse_complete = true;
}

waits : AwaitsRequest 7 3 1 waiting_manager
unfolding Opened
waits = record {
  queued = refl;
  write_queue_empty = refl;
  writable = refl;
  unsent = refl;
  open_still = refl;
  mapped = refl;
  named = refl;
  readable = refl;
  sound = refl;
  reading = refl;
  idle = refl;
  read_waiting = refl;
  write_waiting = refl;
  uncached = refl;
}

waits_early : AwaitsRequest 7 3 0 queued_system.manager
unfolding Opened
waits_early = record {
  queued = refl;
  write_queue_empty = refl;
  writable = refl;
  unsent = refl;
  open_still = refl;
  mapped = refl;
  named = refl;
  readable = refl;
  sound = refl;
  reading = refl;
  idle = refl;
  read_waiting = refl;
  write_waiting = refl;
  uncached = refl;
}

serves_request_example :
    IsServed 7 3
      (state_of (process_write_round kernel (state_of (process_read_round kernel waiting_manager))))
unfolding Opened
serves_request_example =
    serves_request 7 3 kernel kernel waiting_manager request parsed waits refl refl refl refl refl

early_write_round_stalls_example : IsStalled 7 3 (
    can_writes 7 2 (
      state_of
        (process_write_round kernel (state_of (process_read_round kernel queued_system.manager)))))
unfolding Opened
early_write_round_stalls_example =
    early_write_round_stalls 7 3 2 kernel kernel queued_system.manager request parsed waits_early
      refl refl refl
