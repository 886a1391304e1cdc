-- ===== src/TcpPeer/Run.antt =====
-- The wrappers of the calls that make a connection, and the function `Run`.
use cpp_programming.Base.{
  Bool, false, List, [], ◌∷◌, ◌++◌, ◌==◌, if◌then◌else◌, runtime_error, Result, ok, err,
}
use cpp_programming.Base.Actions.{gives, Action, give, raise, ◌>>◌, when}
use cpp_programming.Text.{Text, ℤ, pos, negsuc}
use cpp_programming.TcpPeer.CommandLine.{Config}

-- A call of the kernel, or of `Process` for the accepted connection or for the socket itself.
pub data Call : Type 0 where
  open_socket set_receive_size set_send_size listening accepting process_accepted process_connected
        type_e :
      Call
  binding connecting : Text → ℤ → Call

-- What is outside: what the calls of the kernel return, which addresses `inet_aton` takes, and how
-- `Process` ends.
pub record Outside : Type 0 where
  pub answer : Call → ℤ
  pub is_address : Text → Bool
  pub ending : Call → Result (Unit {0})

abbrev pub Act {ℓ} : Type ℓ → Type ℓ
Act A = Action (List Call) A

abbrev pub log : Call → Act (Unit {0})
log c s = gives tt (s ++ c ∷ [])

abbrev pub is_minus_one : ℤ → Bool
is_minus_one (pos n) = false
is_minus_one (negsuc n) = n == 0

abbrev pub is_one : ℤ → Bool
is_one (pos n) = n == 1
is_one (negsuc n) = false

-- Socket, Accept, and the ends of Bind and Connect: -1 makes them throw.
unfoldable pub checked : Outside → Call → Act (Unit {0})
checked o c = do log c; if is_minus_one (o.answer c) then raise runtime_error else give tt

-- Setsockopt is not used: the sizes are set without a look at the result.
unfoldable pub set_sizes : Act (Unit {0})
set_sizes = do log set_receive_size; log set_send_size

-- Bind and Connect.
unfoldable pub bind : Outside → Text → ℤ → Act (Unit {0})
unfolding checked
bind o addr port = if o.is_address addr then checked o (binding addr port) else raise runtime_error

unfoldable pub connect : Outside → Text → ℤ → Act (Unit {0})
unfolding checked
connect o addr port =
    if o.is_address addr then checked o (connecting addr port) else raise runtime_error

-- Listen compares with 1.
unfoldable pub listen : Outside → Act (Unit {0})
listen o = do log listening; if is_one (o.answer listening) then raise runtime_error else give tt

abbrev pub ended : Result (Unit {0}) → Act (Unit {0})
ended (ok u) = give tt
ended (err e) = raise e

unfoldable pub process : Outside → Call → Act (Unit {0})
process o c = do log c; ended (o.ending c)

-- `Run`.
unfoldable pub run : Outside → Config → Act (Unit {0})
unfolding checked set_sizes bind connect listen process
run o config = do
  checked o open_socket
  set_sizes
  when config.bind (bind o config.src_addr config.src_port)
  when config.listen (listen o)
  when config.accept (do checked o accepting; process o process_accepted)
  when config.connect (do connect o config.dst_addr config.dst_port; process o process_connected)
  log type_e
