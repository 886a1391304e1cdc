-- ===== src/TcpPeer/Rounds.antt =====
-- The function `Process`, as it is built with and without USE_POLL.
use cpp_programming.Base.{
  Bool, true, false, ◌&&◌, ◌||◌, not, Option, none, some, List, [], ◌∷◌, if◌then◌else◌, is_empty,
}
use cpp_programming.Base.Actions.{gives, give, ◌>>=◌, ◌>>◌, when}
use cpp_programming.Text.Literals.{codes}
use cpp_programming.TcpPeer.CommandLine.{Config}
use cpp_programming.TcpPeer.Peer.{
  Act, print, Received, read, read_input, write, shutdown_read, shutdown_write, set_write_shutdown,
  command_of, run_command,
}

-- What the kernel could report: the socket can be read (POLLIN), something was typed (POLLIN of the
-- standard input), the socket can be written (POLLOUT), and what `poll` reports unasked, that the
-- peer has hung up (POLLHUP), that the socket has an error (POLLERR), and that the standard input
-- has one of these. A call of `poll` or `select` reports of this what is asked for.
pub record Ready : Type 0 where
  pub readable : Bool
  pub typed : Bool
  pub writable : Bool
  pub hung_up : Bool
  pub failed : Bool
  pub input_ended : Bool

-- What `select` takes for readable and writable: a hang-up makes a descriptor readable, and an error
-- makes it both.
abbrev pub select_readable : Ready → Bool
select_readable ready = (ready.hung_up || ready.failed) || ready.readable

abbrev pub select_typed : Ready → Bool
select_typed ready = ready.input_ended || ready.typed

abbrev pub select_writable : Ready → Bool
select_writable ready = ready.failed || ready.writable

-- `if (!s.empty()) { std::cout << s; std::cout.flush(); }`.
abbrev pub print_received : Received → Act (Unit {0})
print_received r = do
  (if is_empty r.text then give tt else print r.text)
  (if r.stop then print (codes "read stop\n") else give tt)

-- The read of the socket; it gives `readStop`, which is as before if there was nothing to read.
unfoldable pub receive : Bool → Bool → Act Bool
unfolding read
receive false before = give before
receive true before = do r ← read; print_received r; give r.stop

-- The read of the standard input; `false`: the loop ends.
unfoldable pub take_input : Bool → Act Bool
unfolding read_input command_of run_command
take_input false = give true
take_input true = do r ← read_input; run_command (command_of r) r

-- The write to the socket, and whether there is text left.
unfoldable pub send_rest : Bool → Act Bool
unfolding write
send_rest due = do when due write; (λ p. gives (not (is_empty p.w)) p)

-- `fds[1].events` of the version with `poll`: POLLIN and POLLOUT.
pub record Events : Type 0 where
  pub pollin : Bool
  pub pollout : Bool

-- The part of Process before the loop.
unfoldable pub poll_begin : Config → Act Events
unfolding shutdown_read shutdown_write
poll_begin config = do
  (if not config.read then shutdown_read else give tt)
  (if not config.write then (do shutdown_write; set_write_shutdown) else give tt)
  give (record { pollin = config.read; pollout = config.write })

-- A round of the loop, which tests `revents` for POLLIN and POLLOUT alone; `none`: the loop ends.
unfoldable pub poll_round : Ready → Events → Act (Option Events)
unfolding receive take_input send_rest
poll_round ready e = do
  stop ← receive (e.pollin && ready.readable) false
  on ← take_input ready.typed
  if on
      then (do
        rest ← send_rest (e.pollout && ready.writable)
        give (some (record { pollin = e.pollin && not stop; pollout = rest })))
      else give none

-- `rSet` for the socket and for the standard input, `wSet`, and `readStop`, of the version with
-- `select`.
pub record Sets : Type 0 where
  pub r_fd : Bool
  pub r_input : Bool
  pub w_fd : Bool
  pub read_stop : Bool

unfoldable pub select_begin : Config → Act Sets
unfolding shutdown_read shutdown_write
select_begin config = do
  (if not config.read then shutdown_read else give tt)
  (if not config.write then (do shutdown_write; set_write_shutdown) else give tt)
  give (record { r_fd = true; r_input = config.read; w_fd = false; read_stop = false })

-- `Select` leaves in the sets what is ready; the round puts the others back, the socket unless the
-- reading has stopped.
unfoldable pub select_round : Ready → Sets → Act (Option Sets)
unfolding receive take_input send_rest
select_round ready x = do
  stop ← receive (x.r_fd && select_readable ready) x.read_stop
  on ← take_input (x.r_input && select_typed ready)
  if on
      then (do
        rest ← send_rest (x.w_fd && select_writable ready)
        give (some (record { r_fd = not stop; r_input = true; w_fd = rest; read_stop = stop })))
      else give none

-- The rounds of a version up to the end of the list or of the loop; `true`: it has ended.
unfoldable pub poll_rounds : List Ready → Events → Act Bool
unfolding poll_round
poll_rounds [] e = give false
poll_rounds (ready ∷ rs) e = do
  o ← poll_round ready e
  elim o [ none ↦ give true | some e' ↦ poll_rounds rs e' ]

unfoldable pub select_rounds : List Ready → Sets → Act Bool
unfolding select_round
select_rounds [] x = give false
select_rounds (ready ∷ rs) x = do
  o ← select_round ready x
  elim o [ none ↦ give true | some x' ↦ select_rounds rs x' ]

-- Process, up to the end of the rounds.
unfoldable pub poll_process : Config → List Ready → Act Bool
unfolding poll_begin poll_rounds
poll_process config rs = do e ← poll_begin config; poll_rounds rs e

unfoldable pub select_process : Config → List Ready → Act Bool
unfolding select_begin select_rounds
select_process config rs = do x ← select_begin config; select_rounds rs x
