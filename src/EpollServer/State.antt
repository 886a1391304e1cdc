-- ===== src/EpollServer/State.antt =====
-- The state of the epoll server, the calls of the kernel, and the class ConnHandler.
use cpp_programming.Base.{
  ℕ, ◌-◌, Bool, true, false, Option, none, some, List, [], ◌∷◌, ◌++◌, ◌==◌, if◌then◌else◌, length,
  is_empty, take, drop, Exn, undefined, blocked, system_error, Result, ok, err,
}
use cpp_programming.Base.Actions.{Reply, gives, raises, Action, give, ◌>>◌}
use cpp_programming.Base.Maps.{Dict, erase}
use cpp_programming.Text.{Text, c_string}
use cpp_programming.Text.Calls.{
  eagain, SysRead, got, read_failed, SysWrite, took, write_failed, zeros,
}

-- A session with the fields of its ConnHandler: `fd` and `is_eof`.
pub record Session : Type 0 where
  pub id : ℕ
  pub fd : ℕ
  pub is_eof : Bool
  pub input : Text
  pub output : Text
  pub is_readable : Bool
  pub is_writable : Bool
  pub is_closed : Bool

-- The calls of epoll_ctl and `close`, and what a call of ConnHandler::Write that returned has sent.
pub data Effect : Type 0 where
  watch unwatch close_fd : ℕ → Effect
  sent : ℕ → Text → Effect

-- The server with its sessions; what the kernel will answer to the calls of `read` and `write` that
-- are still to come, and how it answers to the last of some calls of epoll_ctl and `close`: the
-- exception that it makes its caller throw.
pub record World : Type 0 where
  pub listen_fd : ℕ
  pub next_conn_id : ℕ
  pub conns : Dict ℕ
  pub sessions : Dict Session
  pub effects : List Effect
  pub reads : List SysRead
  pub writes : List SysWrite
  pub answers : List Effect → Option Exn

abbrev pub Act {ℓ} : Type ℓ → Type ℓ
Act A = Action World A

abbrev pub emit : Effect → Act (Unit {0})
emit e s = gives tt (record s { effects = s.effects ++ e ∷ [] })

abbrev pub answered : Option Exn → Act (Unit {0})
answered none s = gives tt s
answered (some e) s = raises e s

-- Epoll::Add, Epoll::DeleteFd and Server::CloseFd.
abbrev pub call : Effect → Act (Unit {0})
call e = do emit e; (λ s. answered (s.answers s.effects) s)

abbrev pub set_conns : Dict ℕ → Act (Unit {0})
set_conns m s = gives tt (record s { conns = m })

-- The function that ProcessNewConnection gives to the ConnHandler.
unfoldable pub close_conn : ℕ → Act (Unit {0})
unfolding erase
close_conn fd = do call (unwatch fd); call (close_fd fd); (λ s. set_conns (erase fd s.conns) s)

abbrev pub buf_size : ℕ
buf_size = 3

-- What a read gives: the text, whether the stream has ended, and the answers that are left.
pub record Received : Type 0 where
  pub text : Text
  pub eof : Bool
  pub left : List SysRead

-- The loop of ConnHandler::Read. `s += &buf[0]` is undefined for a buffer without a NUL.
unfoldable pub read_loop : List SysRead → Text → Result Received
read_loop [] s = err blocked
read_loop (read_failed code ∷ answers) s =
    if code == eagain
    then ok (record { text = s; eof = false; left = answers })
    else err (system_error code)
read_loop (got [] ∷ answers) s = ok (record { text = s; eof = true; left = answers })
read_loop (got (c ∷ bytes) ∷ answers) s =
    elim (c_string ((c ∷ bytes) ++ zeros (buf_size - length (c ∷ bytes)))) [
      | none ↦ err undefined
      | some t ↦ read_loop answers (s ++ t)
    ]

abbrev pub keep_read : World → Result Received → Reply World Received
keep_read s (ok r) = gives r (record s { reads = r.left })
keep_read s (err e) = raises e s

-- ConnHandler::Read.
unfoldable pub conn_read : Act Received
unfolding read_loop
conn_read s = keep_read s (read_loop s.reads [])

-- The loop of ConnHandler::Write: the text that is left, and the answers.
unfoldable pub write_loop : List SysWrite → Text → Result (Text × List SysWrite)
write_loop answers [] = ok ([], answers)
write_loop [] (c ∷ s) = err blocked
write_loop (write_failed code ∷ answers) (c ∷ s) =
    if code == eagain then ok (c ∷ s, answers) else err (system_error code)
write_loop (took n ∷ answers) (c ∷ s) = write_loop answers (drop n (c ∷ s))

abbrev pub keep_written : ℕ → Text → World → Result (Text × List SysWrite) → Reply World Text
keep_written fd t s (ok r) = gives r.0 (record s {
  writes = r.1;
  effects = s.effects ++ sent fd (take (length t - length r.0) t) ∷ [];
})
keep_written fd t s (err e) = raises e s

-- ConnHandler::Write. An empty text is returned at once.
unfoldable pub conn_write : ℕ → Text → Act Text
unfolding write_loop
conn_write fd t s =
    (if is_empty t then give [] else (λ u. keep_written fd t u (write_loop u.writes t))) s
