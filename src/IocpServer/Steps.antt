-- ===== src/IocpServer/Steps.antt =====
-- The completion port between the threads: how the system ends the operations, and what a client
-- has sent and got back.
use cpp_programming.Base.{
  ℕ, ◌+◌, ◌^◌, ◌≤◌, ◌≡◌, Option, none, some, List, [], ◌∷◌, ◌++◌, ◌==◌, if◌then◌else◌, length, take,
  drop,
}
use cpp_programming.Base.Actions.{gives}
use cpp_programming.Base.Maps.{lookup, insert, erase}
use cpp_programming.Text.{Text}
use cpp_programming.IocpServer.Contexts.{ClientContext, Operation, sending, receiving, Port}
use cpp_programming.IocpServer.Port.{failure, packet, process, accept_connection}

-- The port before its first connection.
unfoldable pub new_port : Port
new_port = record { next_id = 0; contexts = []; pending = []; closed = [] }

abbrev pub slice : ℕ → ℕ → ClientContext → Text
slice off len c = take len (drop off c.buffer)

-- An operation has ended.
unfoldable pub finished : ℕ → Port → Port
unfolding erase
finished id s = record s { pending = erase id s.pending }

abbrev pub overwrite : ℕ → Text → ClientContext → ClientContext
overwrite off bytes c = record c {
  buffer = take off c.buffer ++ (bytes ++ drop (off + length bytes) c.buffer);
}

abbrev pub fill : ℕ → ℕ → Text → Option ClientContext → Port → Port
fill id off bytes none s = s
fill id off bytes (some c) s = record s { contexts = insert id (overwrite off bytes c) s.contexts }

-- A receive has ended, and the system has put what came into the buffer.
unfoldable pub received : ℕ → ℕ → Text → Port → Port
unfolding lookup insert finished
received id off bytes s = fill id off bytes (lookup id s.contexts) (finished id s)

-- What the clients notice: a connection with the id of its context, what one has sent, and what
-- one has got.
pub data Event : Type 0 where
  connected : ℕ → Event
  arrived departed : ℕ → Text → Event
  unnoticed : Event

-- One call of acceptConnection or process, behind what the system did before it. With 2^32 - 1
-- contexts the loop of createClientContext would not end.
pub data Step (s : Port) : Event → Port → Type 0 where
  accepting :
      (socket : ℕ) (association answer : Option ℕ) (t : Port)
      → length s.contexts + 2 ≤ 2 ^ 32
      → accept_connection (some socket) association answer s ≡ gives tt t
      → Step s (connected t.next_id) t
  refused :
      (association answer : Option ℕ) (t : Port)
      → accept_connection none association answer s ≡ gives tt t
      → Step s unnoticed t
  arriving :
      (id off len : ℕ) (bytes : Text) (answer : Option ℕ) (t : Port)
      → lookup id s.pending ≡ some (receiving off len)
      → length bytes ≤ len
      → process (packet id (length bytes)) answer (received id off bytes s) ≡ gives tt t
      → Step s (arrived id bytes) t
  departing :
      (id off len n : ℕ) (c : ClientContext) (answer : Option ℕ) (t : Port)
      → lookup id s.pending ≡ some (sending off len)
      → lookup id s.contexts ≡ some c
      → n ≤ len
      → process (packet id n) answer (finished id s) ≡ gives tt t
      → Step s (departed id (take n (slice off len c))) t
  breaking :
      (id code : ℕ) (op : Operation) (answer : Option ℕ) (t : Port)
      → lookup id s.pending ≡ some op
      → process (failure code) answer (finished id s) ≡ gives tt t
      → Step s unnoticed t
  waking :
      (n : ℕ) (answer : Option ℕ) (t : Port)
      → process (packet 1 n) answer s ≡ gives tt t
      → Step s unnoticed t

-- The states that the port comes to, with the events, the last one first.
pub data Reach : List Event → Port → Type 0 where
  begun : Reach [] new_port
  next : {es : List Event} {e : Event} {s t : Port} → Reach es s → Step s e t → Reach (e ∷ es) t

-- What the client of a context has sent since it connected, and what it has got.
unfoldable pub heard : ℕ → List Event → Text
heard id [] = []
heard id (connected j ∷ es) = let before = heard id es in if j == id then [] else before
heard id (arrived j bytes ∷ es) =
    let before = heard id es in if j == id then before ++ bytes else before
heard id (departed j bytes ∷ es) = heard id es
heard id (unnoticed ∷ es) = heard id es

unfoldable pub echoed : ℕ → List Event → Text
echoed id [] = []
echoed id (connected j ∷ es) = let before = echoed id es in if j == id then [] else before
echoed id (arrived j bytes ∷ es) = echoed id es
echoed id (departed j bytes ∷ es) =
    let before = echoed id es in if j == id then before ++ bytes else before
echoed id (unnoticed ∷ es) = echoed id es
