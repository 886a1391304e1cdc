-- ===== src/LearnGrpc/Handlers/Reactions.antt =====
-- How a handler reacts to an event: it may register another of its kind, and then hands one more
-- operation to gRPC, or is done.
use cpp_programming.Base.{
  ℕ, ◌<◌, ◌≡◌, refl, sym, ap, ◌∙◌, subst, ◌≢◌, ◌⊎◌, inl, inr, Bool, true, false, ◌&&◌, ◌||◌, not,
  [], ◌∷◌, ◌++◌, arith, ◌==◌, if◌then◌else◌,
}
use cpp_programming.Base.Actions.{Reply, gives, and_then}
use cpp_programming.Base.Actions.{Gives, Gives-bind, Gives-map}
use cpp_programming.LearnGrpc.Event.{
  Event, half, get_key, get_opt, set_opt, get_key-set_opt, get_opt-set_opt,
}
use cpp_programming.LearnGrpc.Handlers.{
  opt_receive, opt_finish, opt_write, opt_read, Kind, hello, hello_again, goodbye, goodbye_again,
  greet, listen, speak, talk, Handler, ok_status, cancelled, Operation, request_call, write, read,
  finish_with, finish_call, Pending, Proactor, Act, register_handler, finished,
}

abbrev pub kind_code : Kind → ℕ
kind_code hello = 0
kind_code hello_again = 1
kind_code goodbye = 2
kind_code goodbye_again = 3
kind_code greet = 4
kind_code listen = 5
kind_code speak = 6
kind_code talk = 7

abbrev pub same : Kind → Kind → Bool
same j k = kind_code j == kind_code k

-- The handlers that write to a stream, that read from one, and that finish with a response.
abbrev pub writes : Kind → Bool
writes k = same k listen || same k talk

abbrev pub reads : Kind → Bool
reads k = same k speak || same k talk

abbrev pub answers : Kind → Bool
answers k = not (writes k)

-- The option that belongs to an operation, whoever asks for it.
abbrev pub option_of : Operation → ℕ
option_of (request_call j) = opt_receive
option_of (write t) = opt_write
option_of read = opt_read
option_of (finish_with t s) = opt_finish
option_of (finish_call s) = opt_finish

-- The Finish of a Talk after a write that failed, whose event keeps the option of the write.
abbrev pub is_misfiled : Operation → Bool
is_misfiled (finish_call cancelled) = true
is_misfiled (finish_call ok_status) = false
is_misfiled (request_call j) = false
is_misfiled (write t) = false
is_misfiled read = false
is_misfiled (finish_with t s) = false

abbrev pub pending_option : Operation → ℕ
pending_option op = if is_misfiled op then opt_write else option_of op

-- The operations that the handlers of a kind ask for.
abbrev pub asks_for : Kind → Operation → Bool
asks_for k (request_call j) = same j k
asks_for k (write t) = writes k
asks_for k read = reads k
asks_for k (finish_with t s) = answers k
asks_for k (finish_call ok_status) = writes k
asks_for k (finish_call cancelled) = same k talk

-- The operation is one that a handler of the kind asks for, and the option is its own, but for the
-- misfiled one.
abbrev pub expected : Kind → Operation → ℕ → Bool
expected k op o = o == pending_option op && asks_for k op

abbrev pub is_request : Operation → Bool
is_request (request_call j) = true
is_request read = false
is_request (write t) = false
is_request (finish_with t s) = false
is_request (finish_call s) = false

abbrev pub with_pending : Proactor → Pending → Proactor
with_pending t q = record t { pending = t.pending ++ q ∷ [] }

-- The first part of a reaction.
abbrev pub Begins : ℕ → Kind → Proactor → Proactor → Type 0
Begins o k s t =
    ((o ≡ opt_receive) × (register_handler k s ≡ gives tt t)) ⊎ ((o ≢ opt_receive) × (t ≡ s))

-- The second part, of the handler as it then is.
pub data Ends (event : Event) (h' : Handler) (t : Proactor) : Proactor → Type 0 where
  is_done : h'.finish ≡ true → Ends event h' t t
  waits_for :
      (q : Pending)
      → h'.finish ≡ false
      → get_key q.token ≡ get_key event
      → expected h'.kind q.operation (get_opt q.token) ≡ true
      → is_request q.operation ≡ false
      → Ends event h' t (with_pending t q)

pub record Reacts (event : Event) (h : Handler) (s : Proactor) (h' : Handler) (s' : Proactor)
    : Type 0 where
  pub between : Proactor
  pub begins : Begins (get_opt event) h.kind s between
  pub ends : Ends event h' between s'
  pub kept : h'.kind ≡ h.kind

abbrev pub pending_at : Event → ℕ → Operation → Pending
pending_at event o op = record { token = set_opt o event; operation = op }

pub Ends-set_opt :
    (event : Event) (o : ℕ) (op : Operation) (h' : Handler) (t : Proactor)
    → h'.finish ≡ false
    → o < half
    → expected h'.kind op o ≡ true
    → is_request op ≡ false
    → Ends event h' t (with_pending t (pending_at event o op))
Ends-set_opt event o op h' t f small e n =
    waits_for (pending_at event o op) f (get_key-set_opt o event)
      (subst (λ x. expected h'.kind op x ≡ true) (sym (get_opt-set_opt o event small)) e) n

-- The second part of a reaction, with the kind kept.
abbrev pub Concludes : Event → Handler → Proactor → Handler → Proactor → Type 0
Concludes event h t h' s' = Ends event h' t s' × (h'.kind ≡ h.kind)

module _ (event : Event) (h : Handler) (s : Proactor) where
  pub received :
      (k : Kind) (f : Act Handler)
      → h.kind ≡ k
      → get_opt event ≡ opt_receive
      → ((t : Proactor) → Gives (Concludes event h t) (f t))
      → Gives (Reacts event h s) (and_then (register_handler k s) (λ _. f))
  received k f e o g =
      Gives-bind (Reacts event h s) (register_handler k s) (λ _. f)
        (λ a t q.
          Gives-map (Concludes event h t) (Reacts event h s) (f t)
            (λ h' s' c. record {
              between = t;
              begins = inl (o, ap (λ j. register_handler j s) e ∙ q);
              ends = c.0;
              kept = c.1;
            })
            (g t))

  pub continued :
      (r : Reply Proactor Handler)
      → get_opt event ≢ opt_receive
      → Gives (Concludes event h s) r
      → Gives (Reacts event h s) r
  continued r o g =
      Gives-map (Concludes event h s) (Reacts event h s) r
        (λ h' s' c. record { between = s; begins = inr (o, refl); ends = c.0; kept = c.1 }) g

module _ (event : Event) (h : Handler) (waiting : h.finish ≡ false) where
  pub posts :
      (o : ℕ) (op : Operation) (t : Proactor)
      → o < half
      → expected h.kind op o ≡ true
      → is_request op ≡ false
      → Concludes event h t h (with_pending t (pending_at event o op))
  posts o op t small e n = (Ends-set_opt event o op h t waiting small e n, refl)

  pub ends : (t : Proactor) → Concludes event h t (finished h) t
  ends t = (is_done refl, refl)

pub not_receive : (o : ℕ) → (o == 1) ≡ false → o ≢ opt_receive
not_receive o e = ground arith

pub finishes :
    (event : Event) (h : Handler) (s : Proactor)
    → h.finish ≡ false
    → get_opt event ≢ opt_receive
    → Gives (Reacts event h s) (gives (finished h) s)
finishes event h s waiting o = continued event h s (gives (finished h) s) o (ends event h waiting s)
