-- ===== src/TcpPeer/Tests.antt =====
-- A peer that sends two typed lines and one that does not read.
use cpp_programming.Base.{
  ◌≤◌, ◌≡◌, refl, Bool, true, false, ◌&&◌, List, [], ◌∷◌, arith, if◌then◌else◌, runtime_error, ok,
  err,
}
use cpp_programming.Base.Actions.{gives, state_of}
use cpp_programming.Text.{Text, ℤ, pos, negsuc, to_string, c_string}
use cpp_programming.Text.Literals.{codes}
use cpp_programming.Text.Calls.{got, read_failed, took}
use cpp_programming.TcpPeer.CommandLine.{Config, new_config, flag_of, set_loop, set}
use cpp_programming.TcpPeer.Arguments.{
  Opt, opt_listen, opt_accept, opt_bind, opt_read, opt_write, render, apply_all, set-render,
}
use cpp_programming.TcpPeer.Peer.{
  Peer, read_loop, read, read_input, write_loop, write, shutdown, shutdown_read, shutdown_write,
  command_of, run_command,
}
use cpp_programming.TcpPeer.Rounds.{
  Ready, receive, take_input, send_rest, poll_begin, poll_round, poll_rounds, poll_process,
  select_begin, select_round, select_rounds, select_process,
}
use cpp_programming.TcpPeer.Versions.{select_process-poll_process}
use cpp_programming.TcpPeer.Run.{
  Call, open_socket, set_receive_size, set_send_size, listening, accepting, process_accepted,
  process_connected, type_e, binding, connecting, Outside, checked, set_sizes, bind, connect,
  listen, process, run,
}
use cpp_programming.TcpPeer.Once.{processes, set-run}

-- The server of the readme.
abbrev server : List (Text × Opt)
server =
    ([], opt_listen)
    ∷ ([], opt_accept)
    ∷ ([], opt_bind (codes "0.0.0.0") 10000)
    ∷ (codes "ead", opt_read)
    ∷ ([], opt_write)
    ∷ []

set-render_example : set (render server) new_config ≡ (
    if (apply_all server new_config).accept && (apply_all server new_config).connect
    then err runtime_error
    else ok (apply_all server new_config))
set-render_example = set-render server new_config (tt, (tt, (omega arith, (tt, (tt, tt)))))

server_args :
    render server
    ≡ codes "-l"
      ∷ codes "-a"
      ∷ codes "-b"
      ∷ codes "0.0.0.0"
      ∷ to_string 10000
      ∷ codes "-read"
      ∷ codes "-w"
      ∷ []
unfolding render
server_args = refl

abbrev both : Config
both = record new_config { accept = true; read = true; write = true }

abbrev start : Peer
start = record {
  w = [];
  write_shutdown = false;
  reads = got (codes "hi") ∷ read_failed 11 ∷ [];
  inputs =
      got (codes "one\n")
      ∷ read_failed 11
      ∷ got (codes "shutdown write\n")
      ∷ read_failed 11
      ∷ got (codes "two\n")
      ∷ read_failed 11
      ∷ [];
  writes = took 1 ∷ took 3 ∷ [];
  shutdowns = [];
  printed = [];
  sent = [];
  typed = [];
}

abbrev reported : Bool → Bool → Bool → Ready
reported readable typed writable = record {
  readable = readable;
  typed = typed;
  writable = writable;
  hung_up = false;
  failed = false;
  input_ended = false;
}

abbrev idle : Ready
idle = reported true false true

abbrev line : Ready
line = reported false true true

abbrev reports : List Ready
reports = idle ∷ line ∷ line ∷ line ∷ []

sent_lem : (state_of (poll_process both reports start)).sent ≡ codes "one\n"
unfolding new_config poll_process poll_begin poll_rounds poll_round receive take_input send_rest
    read read_input read_loop write write_loop command_of run_command shutdown shutdown_write
    c_string
sent_lem = refl

select_process-poll_process_example :
    select_process both reports start ≡ poll_process both reports start
unfolding new_config
select_process-poll_process_example =
    select_process-poll_process both idle (line ∷ line ∷ line ∷ []) start refl refl refl
      ((refl, refl, refl), ((refl, refl, refl), ((refl, refl, refl), ((refl, refl, refl), tt))))

-- A standard input that has hung up is read with `select`, and left alone with `poll`.
abbrev ended_input : Ready
ended_input = record (reported false false true) { input_ended = true }

ended_poll : (state_of (poll_process both (ended_input ∷ []) start)).typed ≡ []
unfolding new_config poll_process poll_begin poll_rounds poll_round receive take_input send_rest
    read read_input read_loop write write_loop command_of run_command shutdown shutdown_write
    c_string
ended_poll = refl

ended_select : (state_of (select_process both (ended_input ∷ []) start)).typed ≡ codes "one\n" ∷ []
unfolding new_config select_process select_begin select_rounds select_round receive take_input
    send_rest read read_input read_loop write write_loop command_of run_command shutdown
    shutdown_write c_string
ended_select = refl

-- Without -r the version with `select` leaves a typed line alone that `poll` takes at once.
abbrev deaf : Config
deaf = record new_config { accept = true; write = true }

deaf_poll : (state_of (poll_process deaf (line ∷ []) start)).w ≡ []
unfolding new_config poll_process poll_begin poll_rounds poll_round receive take_input send_rest
    read read_input read_loop write write_loop command_of run_command shutdown shutdown_read
    c_string
deaf_poll = refl

deaf_select : (state_of (select_process deaf (line ∷ []) start)).typed ≡ []
unfolding new_config select_process select_begin select_rounds select_round receive take_input
    send_rest read read_input read_loop write write_loop command_of run_command shutdown
    shutdown_read c_string
deaf_select = refl

-- `listen` fails with -1, and `Run` accepts all the same.
abbrev answer_of : Call → ℤ
answer_of listening = negsuc 0
answer_of open_socket = pos 3
answer_of accepting = pos 4
answer_of process_accepted = pos 0
answer_of process_connected = pos 0
answer_of type_e = pos 0
answer_of set_receive_size = pos 0
answer_of set_send_size = pos 0
answer_of (binding addr port) = pos 0
answer_of (connecting addr port) = pos 0

abbrev outside : Outside
outside = record { answer = answer_of; is_address = λ a. true; ending = λ c. ok tt }

run_once : processes (state_of (run outside both [])) ≤ 1
unfolding new_config set set_loop flag_of
run_once = set-run outside (codes "-r" ∷ codes "-a" ∷ codes "-w" ∷ []) new_config both refl

deaf_listen :
    run outside (record both { listen = true }) []
    ≡ gives tt (
        open_socket ∷ set_receive_size ∷ set_send_size ∷ listening ∷ accepting ∷ process_accepted
        ∷ type_e ∷ [])
unfolding new_config run checked set_sizes bind connect listen process
deaf_listen = refl
