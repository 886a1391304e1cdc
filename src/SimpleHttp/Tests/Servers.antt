-- ===== src/SimpleHttp/Tests/Servers.antt =====
-- A server that accepts a connection, and reports what happens to it.
use cpp_programming.Base.{ℕ, ◌≡◌, refl, none, some, List, [], ◌∷◌, arith, runtime_error, ok}
use cpp_programming.Base.Actions.{gives, raises, state_of}
use cpp_programming.SimpleHttp.Server.{
  lookup, can_read, error_occurred, Server, Answers, Closings, process_new_connection,
  process_event, Event, process_events,
}
use cpp_programming.SimpleHttp.Server.Events.{IsWellFormed, process_events-IsWellFormed}
use cpp_programming.SimpleHttp.Server.Reports.{expected, process_event_stale}

-- Descriptor 5 is connected, and the one that listens is 3.
abbrev server : Server
server = record { listen_fd = 3; next_conn_id = 1; sockets = (5, 1) ∷ []; effects = [] }

server-IsWellFormed : IsWellFormed server
server-IsWellFormed = record { sorted = (tt, tt); distinct = (tt, tt); given = (omega arith, tt) }

abbrev quiet : Closings
quiet = record { before = []; before_read = []; before_write = []; before_error = [] }

-- The connection of descriptor 5 is closed behind the check of its event.
abbrev closed_late : Closings
closed_late = record quiet { before_read = 5 ∷ [] }

abbrev answer_of : ℕ → Answers
answer_of fd = record { accepted = ok fd; added = none }

abbrev events : List Event
events =
    (record { fd = 3; mask = 1; answers = answer_of 4; closings = quiet })
    ∷ (record { fd = 5; mask = 5; answers = answer_of 4; closings = closed_late })
    ∷ []

process_events-IsWellFormed_example : IsWellFormed (state_of (process_events events server))
process_events-IsWellFormed_example =
    process_events-IsWellFormed events server server-IsWellFormed (omega arith)

process_event_stale_example :
    (t : Server) × (process_event closed_late 5 9 server ≡ gives tt t)
    × (t.effects ≡ can_read 0 ∷ error_occurred 0 ∷ [])
    × (lookup 5 t.sockets ≡ some 0)
    × (process_new_connection (answer_of 5) t ≡ raises runtime_error t)
unfolding lookup expected
process_event_stale_example =
    process_event_stale 5 1 9 [] closed_late (answer_of 5) server refl refl refl refl refl refl
