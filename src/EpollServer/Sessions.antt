-- ===== src/EpollServer/Sessions.antt =====
-- The classes Session and SessionManager of the epoll server.
use cpp_programming.Base.{
  ℕ, zero, suc, ◌+◌, Bool, true, false, ◌&&◌, ◌||◌, not, Option, none, some, [], ◌∷◌, ◌++◌,
  if◌then◌else◌, length, is_empty, take, drop, runtime_error, out_of_fuel, Result, ok, err,
}
use cpp_programming.Base.Actions.{gives, raises, give, raise, ◌>>=◌, ◌>>◌}
use cpp_programming.Base.Maps.{Dict, lookup, has, insert_sorted, erase}
use cpp_programming.Text.{Text, find}
use cpp_programming.Text.Literals.{codes}
use cpp_programming.EpollServer.State.{Session, Act, close_conn, conn_read, conn_write}

abbrev pub reverse : Text → Text
reverse [] = []
reverse (c ∷ s) = reverse s ++ c ∷ []

-- The loop of Session::Read: the input and the output behind it. Each round takes a full stop out of
-- the input, so that one round more than it has bytes is enough.
unfoldable pub split_loop : ℕ → Text → Text → Result (Text × Text)
unfolding find
split_loop zero input output = err out_of_fuel
split_loop (suc f) input output = elim (find (codes ".") input) [
  | none ↦ ok (input, output)
  | some pos ↦
      split_loop f (drop (pos + 1) input)
        (output ++ (codes "[" ++ (reverse (take pos input) ++ codes "]")))
]

abbrev pub keep_split : Session → Result (Text × Text) → Act Session
keep_split x (ok r) s = gives (record x { input = r.0; output = r.1; is_readable = false }) s
keep_split x (err e) s = raises e s

-- The loop of Session::Read, and the assignment behind it.
unfoldable pub split : Session → Act Session
unfolding split_loop
split x = keep_split x (split_loop (suc (length x.input)) x.input x.output)

-- `if (!b) throw std::runtime_error(...)`.
abbrev pub ensure : Bool → Act (Unit {0})
ensure true = give tt
ensure false = raise runtime_error

abbrev pub verify_session_exist : ℕ → Act (Unit {0})
unfolding has
verify_session_exist id s = ensure (has id s.sessions) s

abbrev pub verify_session_not_exist : ℕ → Act (Unit {0})
unfolding has
verify_session_not_exist id s = ensure (not (has id s.sessions)) s

abbrev pub set_sessions : Dict Session → Act (Unit {0})
set_sessions m s = gives tt (record s { sessions = m })

-- SessionManager::ReleaseSession.
unfoldable pub release_session : ℕ → Act (Unit {0})
unfolding has erase
release_session id = do verify_session_exist id; (λ s. set_sessions (erase id s.sessions) s)

-- Session::Close.
unfoldable pub session_close : Session → Act Session
unfolding close_conn release_session
session_close x =
    if x.is_closed
    then raise runtime_error
    else (do close_conn x.fd; release_session x.id; give (record x { is_closed = true }))

-- Session::Write.
unfoldable pub session_write : Session → Act Session
unfolding session_close conn_write
session_write x = if not x.is_writable then give x else (do
  rest ← conn_write x.fd x.output
  if x.is_eof && is_empty rest
      then session_close (record x { output = rest; is_writable = false })
      else give (record x { output = rest; is_writable = false }))

-- Session::Read.
unfoldable pub session_read : Session → Act Session
unfolding conn_read split session_write
session_read x = if not x.is_readable then give x else (do
  r ← conn_read
  y ← split (record x { is_eof = r.eof || x.is_eof; input = x.input ++ r.text })
  session_write y)

-- A session is an object that the map refers to: what is done to it shows there, if it still stands
-- there.
unfoldable pub store_back : ℕ → Session → Act (Unit {0})
unfolding has insert_sorted
store_back id x s =
    (if has id s.sessions then set_sessions (insert_sorted id x s.sessions) else give tt) s

-- What the functions of SessionManager do with the session that they find.
abbrev pub on_session : ℕ → (Session → Act Session) → Option Session → Act (Unit {0})
on_session id f none = raise runtime_error
on_session id f (some x) = do y ← f x; store_back id y

unfoldable pub with_session : ℕ → (Session → Act Session) → Act (Unit {0})
unfolding has insert_sorted lookup
with_session id f = do verify_session_exist id; (λ s. on_session id f (lookup id s.sessions) s)

-- SessionManager::NewConnection.
unfoldable pub new_connection : ℕ → ℕ → Act (Unit {0})
unfolding has insert_sorted
new_connection id fd = do
  verify_session_not_exist id
  (λ s.
      set_sessions
        (insert_sorted id
          (record {
            id = id;
            fd = fd;
            is_eof = false;
            input = [];
            output = [];
            is_readable = false;
            is_writable = false;
            is_closed = false;
          })
          s.sessions)
        s)

-- SessionManager::CanRead, CanWrite, ErrorOccurred and TimeToExit.
unfoldable pub can_read : ℕ → Act (Unit {0})
unfolding with_session session_read
can_read id = with_session id (λ x. session_read (record x { is_readable = true }))

unfoldable pub can_write : ℕ → Act (Unit {0})
unfolding with_session session_write
can_write id = with_session id (λ x. session_write (record x { is_writable = true }))

unfoldable pub error_occurred : ℕ → Act (Unit {0})
unfolding with_session session_close
error_occurred id = with_session id session_close

unfoldable pub time_to_exit : ℕ → Act (Unit {0})
unfolding with_session session_close
time_to_exit id = with_session id session_close
