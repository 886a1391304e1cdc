-- ===== src/LearnGrpc/Services.antt =====
-- learn_grpc/hello_world/src/server/sync: what the services of the synchronous server answer, and
-- that the asynchronous handler of a Talk answers the same.
use cpp_programming.Base.{
  ℕ, zero, suc, ◌≡◌, refl, sym, ap, ◌∙◌, Bool, true, false, none, List, [], ◌∷◌, ◌++◌, append-nil,
  length, take, drop, take-length-append, out_of_fuel,
}
use cpp_programming.Base.Actions.{gives, raises, give, and_then, ◌>>=◌, ◌>>◌}
use cpp_programming.Base.Maps.{lookup}
use cpp_programming.Text.{Text}
use cpp_programming.Text.Literals.{codes}
use cpp_programming.LearnGrpc.Event.{get_key}
use cpp_programming.LearnGrpc.Handlers.{
  Message, Handler, Status, ok_status, Operation, request_call, write, read, finish_with,
  finish_call, Pending, Proactor, Act, handle, greeting,
}
use cpp_programming.LearnGrpc.Handlers.Talks.{
  only, Waits, read-Goes, read-ends, write-Goes, finish-ends,
}

-- HelloServiceImpl and GoodbyeServiceImpl.
abbrev pub say_hello : Message → Text
say_hello m = greeting (codes "Hello, ") m

abbrev pub say_hello_again : Message → Text
say_hello_again m = greeting (codes "Hello again, ") m

abbrev pub say_goodbye : Message → Text
say_goodbye m = greeting (codes "Goodbye, ") m

abbrev pub say_goodbye_again : Message → Text
say_goodbye_again m = greeting (codes "Goodbye again, ") m

-- ChatServiceImpl: the words that each call writes, for the requests that it reads.
abbrev pub greet_words : Message → Text
greet_words m = codes "Me too!"

abbrev pub listen_words : Message → List Text
listen_words m = codes "aaa" ∷ codes "bbb" ∷ codes "ccc" ∷ []

unfoldable pub speak_words : List Message → Text
speak_words [] = codes "OK."
speak_words (m ∷ ms) = speak_words ms

unfoldable pub talk_words : List Message → List Text
talk_words [] = []
talk_words (m ∷ ms) = m.content ∷ talk_words ms

-- How gRPC ends an operation of a Talk whose client still has these requests to send: a read well,
-- with the next of them, if there is one, and any other operation well.
abbrev ends_well : Operation → List Message → Bool
ends_well read [] = false
ends_well read (m ∷ ms) = true
ends_well (write t) ms = true
ends_well (request_call k) ms = true
ends_well (finish_with t x) ms = true
ends_well (finish_call x) ms = true

abbrev nothing : Message
nothing = record { first_name = []; last_name = []; content = [] }

abbrev received : Operation → List Message → Message
received read [] = nothing
received read (m ∷ ms) = m
received (write t) ms = nothing
received (request_call k) ms = nothing
received (finish_with t x) ms = nothing
received (finish_call x) ms = nothing

abbrev still_to_send : Operation → List Message → List Message
still_to_send read [] = []
still_to_send read (m ∷ ms) = ms
still_to_send (write t) ms = ms
still_to_send (request_call k) ms = ms
still_to_send (finish_with t x) ms = ms
still_to_send (finish_call x) ms = ms

-- A round of `demultiplex` for the first operation of a list, with `front` pending besides the rest
-- of it; `others` is what follows.
abbrev serve_first :
    (List Message → Act (List Operation))
    → List Message
    → List Pending
    → List Pending
    → Act (List Operation)
serve_first others ms front [] s = gives [] s
serve_first others ms front (p ∷ ps) s =
    (do
      handle (ends_well p.operation ms) (received p.operation ms) p
      operations ← others (still_to_send p.operation ms)
      give (p.operation ∷ operations))
      (record s { pending = front ++ ps })

-- Such rounds for what is pending behind the first `waiting` operations, until nothing is: the
-- operations that have ended.
unfoldable pub serve : ℕ → ℕ → List Message → Act (List Operation)
serve zero waiting ms s = raises out_of_fuel s
serve (suc f) waiting ms s =
    serve_first (serve f waiting) ms (take waiting s.pending) (drop waiting s.pending) s

-- The words that the operations write, and how they end the call.
abbrev word : Operation → List Text
word (write t) = t ∷ []
word (request_call k) = []
word read = []
word (finish_with t x) = []
word (finish_call x) = []

unfoldable pub words : List Operation → List Text
words [] = []
words (op ∷ ops) = word op ++ words ops

abbrev ending : Operation → List Status
ending (finish_call x) = x ∷ []
ending (finish_with t x) = x ∷ []
ending (write t) = []
ending (request_call k) = []
ending read = []

unfoldable pub endings : List Operation → List Status
endings [] = []
endings (op ∷ ops) = ending op ++ endings ops

-- A read and a write for each request, and then a read and the end of the call; and a round that
-- finds nothing pending.
abbrev pub rounds : List Message → ℕ
rounds [] = 3
rounds (m ∷ ms) = suc (suc (rounds ms))

drop-length-append : (l r : List Pending) → drop (length l) (l ++ r) ≡ r
drop-length-append [] r = refl
drop-length-append (p ∷ l) r = drop-length-append l r

take-drop_behind :
    (l r : List Pending) (s : Proactor)
    → s.pending ≡ l ++ r
    → (take (length l) s.pending ≡ l) × (drop (length l) s.pending ≡ r)
take-drop_behind l r s e = (
  ap (take (length l)) e ∙ take-length-append l r,
  ap (drop (length l)) e ∙ drop-length-append l r,
)

serve-cons :
    (f : ℕ) (ms : List Message) (l : List Pending) (s t u : Proactor) (p : Pending) (op : Operation)
    (ops : List Operation)
    → s.pending ≡ l ++ p ∷ []
    → p.operation ≡ op
    → handle (ends_well op ms) (received op ms) p (only s l) ≡ gives tt t
    → serve f (length l) (still_to_send op ms) t ≡ gives ops u
    → serve (suc f) (length l) ms s ≡ gives (op ∷ ops) u
unfolding serve
serve-cons f ms l s t u p op ops e o h k =
    let go = serve f (length l) in
    let (a, b) = take-drop_behind l (p ∷ []) s e in
    ap (λ x. serve_first go ms x (drop (length l) s.pending) s) a
    ∙ ap (λ x. serve_first go ms l x s) b
    ∙ ap
        (λ x.
          (do
            handle (ends_well p.operation ms) (received p.operation ms) p
            operations ← go (still_to_send p.operation ms)
            give (p.operation ∷ operations))
            (only s x))
        (append-nil l)
    ∙ ap
        (λ x.
          (do
            handle (ends_well x ms) (received x ms) p
            operations ← go (still_to_send x ms)
            give (x ∷ operations))
            (only s l))
        o
    ∙ ap (λ r. and_then r (λ _. (do operations ← go (still_to_send op ms); give (op ∷ operations))))
        h
    ∙ ap (λ r. and_then r (λ operations. give (op ∷ operations))) k

serve-nil :
    (f : ℕ) (ms : List Message) (l : List Pending) (s : Proactor)
    → s.pending ≡ l
    → serve (suc f) (length l) ms s ≡ gives [] s
unfolding serve
serve-nil f ms l s e =
    let (a, b) = take-drop_behind l [] s (e ∙ sym (append-nil l)) in
    ap (λ x. serve_first (serve f (length l)) ms (take (length l) s.pending) x s) b

-- The call is served: in the end nothing of it is pending or registered.
abbrev Served : List Message → List Pending → Proactor → ℕ → Type 0
Served ms l s key =
    (ops : List Operation) × (t : Proactor) × (serve (rounds ms) (length l) ms s ≡ gives ops t)
    × (words ops ≡ talk_words ms)
    × (endings ops ≡ ok_status ∷ [])
    × (t.pending ≡ l)
    × (lookup key t.registry.handlers ≡ none)

serve-talk_words_from :
    (ms : List Message) (h : Handler) (l : List Pending) (s : Proactor) (key : ℕ)
    (v : Waits read 4 h l s)
    → get_key v.last.token ≡ key
    → Served ms l s key
unfolding talk_words words endings
serve-talk_words_from [] h l s key v c =
    let (t, e, w, d) = read-ends v nothing in
    let (u, f, a, b) = finish-ends ok_status w true nothing in
    (
      read ∷ finish_call ok_status ∷ [],
      u,
      serve-cons 2 [] l s t u v.last read (finish_call ok_status ∷ []) v.behind v.operation e (
          serve-cons 1 [] l t u u w.last (finish_call ok_status) [] w.behind w.operation f
            (serve-nil 0 [] l u a)),
      refl,
      refl,
      a,
      ap (λ k. lookup k u.registry.handlers) (sym c ∙ sym d) ∙ b,
    )
serve-talk_words_from (m ∷ ms) h l s key v c =
    let (t, e, w, d) = read-Goes v m in
    let (u, f, x, a) = write-Goes m.content w nothing in
    let (ops, z, g, p, q, closed, gone) =
      serve-talk_words_from ms (record h { request = m }) l u key x (a ∙ d ∙ c) in
    (
      read ∷ write m.content ∷ ops,
      z,
      serve-cons (suc (rounds ms)) (m ∷ ms) l s t z v.last read (write m.content ∷ ops) v.behind
          v.operation e
          (serve-cons (rounds ms) ms l t u z w.last (write m.content) ops w.behind w.operation f g),
      ap (λ ws. m.content ∷ ws) p,
      q,
      closed,
      gone,
    )

-- From a read of a Talk on, with other operations pending before it, the loop of the asynchronous
-- server, if gRPC ends each operation of the call well until the client has sent all of its
-- requests, writes for them what the synchronous service writes, in order, and ends the call once
-- and well; after two rounds for each request and two more nothing of the call is pending and its
-- handler has left the registry.
pub serve-talk_words :
    (ms : List Message) (h : Handler) (l : List Pending) (s : Proactor) (v : Waits read 4 h l s)
    → (ops : List Operation) × (t : Proactor) × (serve (rounds ms) (length l) ms s ≡ gives ops t)
      × (words ops ≡ talk_words ms)
      × (endings ops ≡ ok_status ∷ [])
      × (t.pending ≡ l)
      × (lookup (get_key v.last.token) t.registry.handlers ≡ none)
serve-talk_words ms h l s v = serve-talk_words_from ms h l s (get_key v.last.token) v refl
