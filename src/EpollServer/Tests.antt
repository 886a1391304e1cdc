-- ===== src/EpollServer/Tests.antt =====
-- A client that asks for "ab", and one that ends its stream.
use cpp_programming.Base.{
  ℕ, ◌<◌, ◌≡◌, refl, subst, ◌⊎◌, none, List, [], ◌∷◌, arith, length, runtime_error, undefined,
  blocked, ok, err,
}
use cpp_programming.Base.Actions.{gives, raises, state_of}
use cpp_programming.Base.Actions.{Gives}
use cpp_programming.Base.Maps.{lookup, has, insert_sorted, erase}
use cpp_programming.EpollServer.State.{
  Session, watch, sent, World, close_conn, read_loop, conn_read, write_loop, conn_write,
}
use cpp_programming.EpollServer.Sessions.{
  split_loop, split, release_session, session_close, session_write, session_read, store_back,
  with_session, new_connection, can_read, can_write,
}
use cpp_programming.EpollServer.Loop.{
  new, process_new_connection, conn_at, report, process_event, Event, process_one, process_events,
  has_bit, release,
}
use cpp_programming.EpollServer.Frames.{take_bytes, split_all, split_all-take_bytes}
use cpp_programming.EpollServer.Pieces.{read_loop-got}
use cpp_programming.EpollServer.Links.{Inv}
use cpp_programming.EpollServer.Events.{fresh, process_events-Inv, process_event_late}
use cpp_programming.EpollServer.Release.{release-conns}
use cpp_programming.Text.{Text, c_string, find}
use cpp_programming.Text.Literals.{codes}
use cpp_programming.Text.Calls.{got, read_failed, took}

-- What the client of descriptor 5 sends comes in two pieces; the third event ends the stream.
abbrev start : World
unfolding new
start =
    new 3 (got (codes "a") ∷ got (codes "b.") ∷ read_failed 11 ∷ got [] ∷ []) (took 4 ∷ [])
      (λ es. none)

abbrev events : List Event
events =
    record { fd = 3; mask = 1; peer = ok 5 } ∷ record { fd = 5; mask = 5; peer = err blocked } ∷ []

abbrev served : World
unfolding process_events
served = state_of (process_events events start)

served_lem : process_events events start ≡ gives tt served
unfolding process_events process_one process_new_connection process_event report conn_at can_read
    can_write with_session session_read session_write conn_read conn_write read_loop write_loop
    split split_loop find c_string new_connection lookup has insert_sorted store_back new
served_lem = refl

effects_lem : served.effects ≡ watch 5 ∷ sent 5 (codes "[ba]") ∷ []
unfolding served process_events process_one process_new_connection process_event report conn_at
    can_read can_write with_session session_read session_write conn_read conn_write read_loop
    write_loop split split_loop find c_string new_connection lookup has insert_sorted store_back new
effects_lem = refl

start-Inv : Inv start
unfolding new lookup
start-Inv = record { conn_has = λ fd id e. cc; session_has = λ id x e. cc }

process_events-Inv_example : Gives (λ _. Inv) (process_events events start)
unfolding new
process_events-Inv_example = process_events-Inv events start start-Inv (omega arith)

served-Inv : Inv served
served-Inv = subst (Gives (λ _. Inv)) served_lem process_events-Inv_example

release-conns_example :
    (t : World) × (release served ≡ gives tt t)
    × (t.conns ≡ [])
    × ((id : ℕ) → lookup id t.sessions ≡ none)
unfolding served start c_string store_back
release-conns_example = release-conns served served-Inv (λ es. refl)

-- The client has ended its stream, and the mask tells of an error too.
abbrev read_end : World
unfolding report
read_end = state_of (report (has_bit 13 1) can_read 5 served)

abbrev write_end : World
unfolding report
write_end = state_of (report (has_bit 13 4) can_write 5 read_end)

process_event_late_example : (v : World) × (process_event 5 13 served ≡ raises runtime_error v)
unfolding read_end write_end report conn_at can_read can_write with_session session_read
    session_write session_close close_conn release_session conn_read conn_write read_loop write_loop
    split split_loop find c_string lookup has insert_sorted erase store_back new process_events
    process_one process_new_connection process_event new_connection served
process_event_late_example =
    process_event_late 5 1 13 served read_end write_end served-Inv refl refl refl refl refl

split_all-take_bytes_example :
    (y : Session) × (split_all (codes "a" ∷ codes "b.c" ∷ []) (fresh 1 5) start ≡ gives y start)
    × (◌≡◌ {A = Text × Text} (y.input, y.output) (codes "c", codes "[ba]"))
unfolding take_bytes
split_all-take_bytes_example =
    split_all-take_bytes (codes "a" ∷ codes "b.c" ∷ []) (fresh 1 5) start tt

read_loop-got_example :
    ((length (codes "abc") ≡ 3) × (read_loop (got (codes "abc") ∷ []) [] ≡ err undefined))
    ⊎ ((length (codes "abc") < 3)
        × (read_loop (got (codes "abc") ∷ []) [] ≡ read_loop [] (codes "abc")))
read_loop-got_example =
    read_loop-got (codes "abc") [] [] (omega arith) (omega arith) (refl, (refl, (refl, tt)))
