-- ===== src/IocpServer/Contexts.antt =====
-- The class ClientContext, and the map of contexts of the class IOCP.
use cpp_programming.Base.{
  ℕ, zero, suc, ◌+◌, ◌%◌, ◌^◌, Bool, true, false, ◌||◌, Option, none, some, List, [], ◌∷◌, ◌++◌,
  ◌==◌, if◌then◌else◌, length, out_of_fuel, undefined, Result, ok, err,
}
use cpp_programming.Base.Actions.{gives, raises, Action, raise, Reply}
use cpp_programming.Base.Maps.{Dict, lookup, has, insert, erase}
use cpp_programming.Text.{Text}
use cpp_programming.Text.Calls.{zeros}

abbrev pub buffer_size : ℕ
buffer_size = 4096

abbrev pub invalid_client_context_id : ℕ
invalid_client_context_id = 1

pub data LastOption : Type 0 where
  option_none option_send option_recv : LastOption

-- `wsa_len`: the length in `wsaBuf`, whose pointer is at the start of the buffer.
pub record ClientContext : Type 0 where
  pub last_option : LastOption
  pub id : ℕ  -- uint32_t
  pub socket : ℕ
  pub wsa_len : ℕ
  pub buffer : Text
  pub number_of_bytes_to_send : ℕ  -- uint32_t
  pub number_of_bytes_sent : ℕ  -- uint32_t

-- The constructor. It leaves `wsaBuf` as the memory was; acceptConnection sets it.
unfoldable pub new_context : ℕ → ℕ → ClientContext
new_context id socket = record {
  last_option = option_none;
  id = id;
  socket = socket;
  wsa_len = 0;
  buffer = zeros buffer_size;
  number_of_bytes_to_send = 0;
  number_of_bytes_sent = 0;
}

abbrev pub set_last_option_recv : ClientContext → ClientContext
set_last_option_recv c = record c { last_option = option_recv }

abbrev pub set_last_option_send : ClientContext → ClientContext
set_last_option_send c = record c { last_option = option_send }

abbrev pub is_recv : LastOption → Bool
is_recv option_none = false
is_recv option_send = false
is_recv option_recv = true

abbrev pub is_send : LastOption → Bool
is_send option_none = false
is_send option_send = true
is_send option_recv = false

abbrev pub is_last_option_recv : ClientContext → Bool
is_last_option_recv c = is_recv c.last_option

abbrev pub is_last_option_send : ClientContext → Bool
is_last_option_send c = is_send c.last_option

-- What WSASend and WSARecv have begun: where in the buffer the bytes start, and how many they are.
pub data Operation : Type 0 where
  sending receiving : ℕ → ℕ → Operation

-- The static `id` of createClientContext, the map, the operations that the system has not ended, by
-- the key of their context, and the sockets that were closed, in order.
pub record Port : Type 0 where
  pub next_id : ℕ  -- uint32_t
  pub contexts : Dict ClientContext
  pub pending : Dict Operation
  pub closed : List ℕ

abbrev pub Act {ℓ} : Type ℓ → Type ℓ
Act A = Action Port A

-- The loop of createClientContext; `id++` wraps around. A round for each context, one for the key
-- that stands for none, and the last one are enough.
unfoldable pub id_loop : ℕ → Dict ClientContext → ℕ → Result ℕ
unfolding has
id_loop zero m id = err out_of_fuel
id_loop (suc f) m id =
    let rest = id_loop f m ((id + 1) % 2 ^ 32) in
    if has id m || (id == invalid_client_context_id) then rest else ok id

abbrev pub register : ℕ → Port → Result ℕ → Reply Port ClientContext
register socket s (ok id) =
    gives (new_context id socket)
      (record s { next_id = id; contexts = insert id (new_context id socket) s.contexts })
register socket s (err e) = raises e s

-- IOCP::createClientContext.
unfoldable pub create_client_context : ℕ → Act ClientContext
unfolding id_loop insert new_context
create_client_context socket s =
    register socket s (id_loop (length s.contexts + 2) s.contexts s.next_id)

-- What leaves the map is destroyed, which closes its socket: no other reference lasts.
abbrev pub drop_context : ℕ → Option ClientContext → Act (Unit {0})
drop_context id none s = gives tt s
drop_context id (some c) s =
    gives tt (record s { contexts = erase id s.contexts; closed = s.closed ++ c.socket ∷ [] })

-- IOCP::removeClientContext.
unfoldable pub remove_client_context : ℕ → Act (Unit {0})
unfolding erase lookup
remove_client_context id s = drop_context id (lookup id s.contexts) s

-- IOCP::getClientContext.
unfoldable pub get_client_context : ℕ → Act (Option ClientContext)
unfolding lookup
get_client_context id s = gives (lookup id s.contexts) s

-- A change of a context, which is an object that the map refers to.
unfoldable pub store : ClientContext → Act (Unit {0})
unfolding insert
store c s = gives tt (record s { contexts = insert c.id c s.contexts })

-- An operation begins with the OVERLAPPED of the context; one that is in use already must not be
-- used again.
unfoldable pub begin : ℕ → Operation → Act (Unit {0})
unfolding has insert
begin id op s =
    (if has id s.pending
        then raise undefined
        else (λ t. gives tt (record t { pending = insert id op t.pending })))
      s
