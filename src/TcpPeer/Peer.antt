-- ===== src/TcpPeer/Peer.antt =====
-- The calls of the kernel that `Process` makes, and the texts that are typed.
use cpp_programming.Base.{
  ℕ, ◌-◌, Bool, true, false, Option, none, some, List, [], ◌∷◌, ◌++◌, ◌==◌, if◌then◌else◌, length,
  is_empty, take, drop, runtime_error, undefined, blocked, Result, ok, err,
}
use cpp_programming.Base.Actions.{Reply, gives, raises, Action, give, ◌>>◌}
use cpp_programming.Text.{Text, text_eq, c_string, to_string}
use cpp_programming.Text.Literals.{codes}
use cpp_programming.Text.Calls.{eagain, SysRead, got, read_failed, SysWrite, took, write_failed}

-- What `Process` keeps: the text that is still to be sent, and whether writing has been shut down.
-- Besides: what the kernel will answer to the reads of the socket and of the standard input, to
-- the writes, and to the calls of `shutdown`, whose errno it gives; what was printed, what the
-- writes have taken, and the texts that were typed, the last one first.
pub record Peer : Type 0 where
  pub w : Text
  pub write_shutdown : Bool
  pub reads : List SysRead
  pub inputs : List SysRead
  pub writes : List SysWrite
  pub shutdowns : List (Option ℕ)
  pub printed : Text
  pub sent : Text
  pub typed : List Text

abbrev pub Act {ℓ} : Type ℓ → Type ℓ
Act A = Action Peer A

-- `std::cout << s`.
abbrev pub print : Text → Act (Unit {0})
print s p = gives tt (record p { printed = p.printed ++ s })

-- What `Read` returns: the text, `readStop`, and the answers that are left.
pub record Received : Type 0 where
  pub text : Text
  pub stop : Bool
  pub left : List SysRead

-- The loop of `Read`. The buffer has one byte more than `read` may fill, which is set to NUL.
unfoldable pub read_loop : List SysRead → Text → Result Received
unfolding c_string
read_loop [] s = err blocked
read_loop (read_failed code ∷ answers) s =
    if code == eagain
    then ok (record { text = s; stop = false; left = answers })
    else err runtime_error
read_loop (got [] ∷ answers) s = ok (record { text = s; stop = true; left = answers })
read_loop (got (c ∷ bytes) ∷ answers) s = elim (c_string ((c ∷ bytes) ++ 0 ∷ [])) [
  | none ↦ err undefined
  | some t ↦ read_loop answers (s ++ t)
]

abbrev pub keep_read : Peer → Result Received → Reply Peer Received
keep_read p (ok r) = gives r (record p { reads = r.left })
keep_read p (err e) = raises e p

abbrev pub keep_input : Peer → Result Received → Reply Peer Text
keep_input p (ok r) = gives r.text (record p { inputs = r.left; typed = r.text ∷ p.typed })
keep_input p (err e) = raises e p

-- `Read(fd, readStop)`, and `Read(STDIN_FILENO)`.
unfoldable pub read : Act Received
unfolding read_loop
read p = keep_read p (read_loop p.reads [])

unfoldable pub read_input : Act Text
unfolding read_loop
read_input p = keep_input p (read_loop p.inputs [])

-- The loop of `Write`: the text that is left, and the answers.
unfoldable pub write_loop : List SysWrite → Text → Result (Text × List SysWrite)
write_loop answers [] = ok ([], answers)
write_loop [] (c ∷ s) = err blocked
write_loop (write_failed code ∷ answers) (c ∷ s) =
    if code == eagain then ok (c ∷ s, answers) else err runtime_error
write_loop (took n ∷ answers) (c ∷ s) = write_loop answers (drop n (c ∷ s))

abbrev pub keep_written : Peer → Result (Text × List SysWrite) → Reply Peer (Unit {0})
keep_written p (ok r) =
    gives tt
      (record p { w = r.0; writes = r.1; sent = p.sent ++ take (length p.w - length r.0) p.w })
keep_written p (err e) = raises e p

-- `w = Write(fd, w)`. An empty text is returned at once; the loop does the same with it.
unfoldable pub write : Act (Unit {0})
unfolding write_loop
write p = keep_written p (if is_empty p.w then ok ([], p.writes) else write_loop p.writes p.w)

-- `Shutdown`.
abbrev pub shutdown_answer : List (Option ℕ) → Act (Unit {0})
shutdown_answer [] p = gives tt p
shutdown_answer (none ∷ answers) p = gives tt (record p { shutdowns = answers })
shutdown_answer (some code ∷ answers) p = raises runtime_error (record p { shutdowns = answers })

unfoldable pub shutdown : Act (Unit {0})
shutdown p = shutdown_answer p.shutdowns p

-- ShutdownRead, ShutdownWrite and ShutdownBoth.
unfoldable pub shutdown_read : Act (Unit {0})
unfolding shutdown
shutdown_read = do print (codes "SHUT_RD\n"); shutdown

unfoldable pub shutdown_write : Act (Unit {0})
unfolding shutdown
shutdown_write = do print (codes "SHUT_WR\n"); shutdown

unfoldable pub shutdown_both : Act (Unit {0})
unfolding shutdown
shutdown_both = do print (codes "SHUT_RDWR\n"); shutdown

abbrev pub set_write_shutdown : Act (Unit {0})
set_write_shutdown p = gives tt (record p { write_shutdown = true })

abbrev pub append_w : Text → Act (Unit {0})
append_w r p = gives tt (record p { w = p.w ++ r })

pub data Command : Type 0 where
  exit_loop stop_read stop_write stop_both unwritten plain : Command

-- The comparisons with a text that was typed.
unfoldable pub command_of : Text → Command
command_of r =
    if text_eq r (codes "exit\n")
    then exit_loop
    else if text_eq r (codes "shutdown read\n")
    then stop_read
    else if text_eq r (codes "shutdown write\n")
    then stop_write
    else if text_eq r (codes "shutdown both\n")
    then stop_both
    else if text_eq r (codes "unwritten length\n")
    then unwritten
    else plain

-- What is done with it; `false`: the loop ends.
unfoldable pub run_command : Command → Text → Act Bool
unfolding shutdown_read shutdown_write shutdown_both
run_command exit_loop r = give false
run_command stop_read r = do shutdown_read; give true
run_command stop_write r = do shutdown_write; set_write_shutdown; give true
run_command stop_both r = do shutdown_both; set_write_shutdown; give true
run_command unwritten r = do (λ p. print (to_string (length p.w) ++ codes "\n") p); give true
run_command plain r = do
  (λ p. (if p.write_shutdown then print (codes "write is shutdown\n") else append_w r) p)
  give true
