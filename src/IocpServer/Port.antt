-- ===== src/IocpServer/Port.antt =====
-- What the threads of the class IOCP do: acceptConnection and process.
use cpp_programming.Base.{
  ℕ, ◌+◌, ◌-◌, ◌%◌, ◌^◌, Bool, true, false, Option, none, some, ltb, ◌==◌, if◌then◌else◌, length,
}
use cpp_programming.Base.Actions.{give, ◌>>=◌, ◌>>◌}
use cpp_programming.IocpServer.Contexts.{
  invalid_client_context_id, ClientContext, set_last_option_recv, set_last_option_send,
  is_last_option_recv, is_last_option_send, Operation, sending, receiving, Act,
  create_client_context, remove_client_context, get_client_context, store, begin,
}

-- WSA_IO_PENDING.
abbrev pub wsa_io_pending : ℕ
wsa_io_pending = 997

-- What follows a call of WSASend or WSARecv, by the code of its error, if it gives one: none, and
-- the one of an operation that will end later, both begin the operation.
unfoldable pub posted : ℕ → Operation → Option ℕ → Act (Unit {0})
unfolding begin remove_client_context
posted id op none = begin id op
posted id op (some code) = if code == wsa_io_pending then begin id op else remove_client_context id

-- IOCP::associateWithIOCP, for what CreateIoCompletionPort gives.
unfoldable pub associate_with_iocp : ClientContext → Option ℕ → Bool
associate_with_iocp c none = true
associate_with_iocp c (some code) = false

-- The initial WSARecv of acceptConnection.
unfoldable pub initial_recv : ClientContext → Option ℕ → Act (Unit {0})
unfolding store posted
initial_recv c answer = do
  store (set_last_option_recv (record c { wsa_len = length c.buffer }))
  posted c.id (receiving 0 (length c.buffer)) answer

-- IOCP::acceptConnection: the socket that `accept` gives, and the errors of the two calls after it.
unfoldable pub accept_connection : Option ℕ → Option ℕ → Option ℕ → Act (Unit {0})
unfolding create_client_context associate_with_iocp initial_recv
accept_connection none association answer = give tt
accept_connection (some socket) association answer = do
  c ← create_client_context socket
  if associate_with_iocp c association then initial_recv c answer else give tt

-- A receive has ended: what came is sent back from the same buffer.
unfoldable pub recv_completed : ℕ → Option ℕ → ClientContext → Act (Unit {0})
unfolding store posted
recv_completed n answer c = do
  store (
      set_last_option_send
        (record c { number_of_bytes_to_send = n; number_of_bytes_sent = 0; wsa_len = n }))
  posted c.id (sending 0 n) answer

-- A send has ended, with `sent` bytes of the buffer sent by now.
unfoldable pub send_next : ℕ → Option ℕ → ClientContext → Act (Unit {0})
unfolding store posted
send_next sent answer c =
    if ltb sent c.number_of_bytes_to_send
    then (do
      store (set_last_option_send (record c { number_of_bytes_sent = sent }))
      posted c.id (sending sent (c.number_of_bytes_to_send - sent)) answer)
    else (do
      store (set_last_option_recv (record c { number_of_bytes_sent = sent }))
      posted c.id (receiving 0 (length c.buffer)) answer)

unfoldable pub send_completed : ℕ → Option ℕ → ClientContext → Act (Unit {0})
unfolding send_next
send_completed n answer c = send_next ((c.number_of_bytes_sent + n) % 2 ^ 32) answer c

unfoldable pub on_context : ℕ → Option ℕ → Option ClientContext → Act (Unit {0})
unfolding recv_completed send_completed
on_context n answer none = give tt
on_context n answer (some c) =
    if is_last_option_recv c
    then recv_completed n answer c
    else if is_last_option_send c
    then send_completed n answer c
    else give tt

-- What GetQueuedCompletionStatus gives: FALSE with a code, or a packet with its key and the number
-- of bytes.
pub data Status : Type 0 where
  failure : ℕ → Status
  packet : ℕ → ℕ → Status

-- IOCP::process, with the error of the one call of WSASend or WSARecv that it comes to.
unfoldable pub process : Status → Option ℕ → Act (Unit {0})
unfolding get_client_context remove_client_context on_context
process (failure code) answer = give tt
process (packet key n) answer =
    if key == invalid_client_context_id
    then give tt
    else if n == 0
    then remove_client_context key
    else (do c ← get_client_context key; on_context n answer c)
