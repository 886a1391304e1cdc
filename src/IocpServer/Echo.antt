-- ===== src/IocpServer/Echo.antt =====
-- What the clients of the port get back, and what becomes of their contexts.
use cpp_programming.Base.{
  ℕ, ◌+◌, ◌≤◌, ◌≡◌, refl, sym, ap, ◌∙◌, subst, inl, inr, Option, none, some, List, [], ◌∷◌,
  append-nil, arith, ◌==◌, Bool-cases, length, take,
}
use cpp_programming.Base.Actions.{Reply, gives, state_of}
use cpp_programming.Base.Maps.{lookup}
use cpp_programming.Text.{Text}
use cpp_programming.IocpServer.Contexts.{ClientContext, Operation, sending, receiving, Port}
use cpp_programming.IocpServer.Port.{process, packet, accept_connection}
use cpp_programming.IocpServer.Steps.{
  slice, finished, received, Event, connected, arrived, departed, unnoticed, Step, accepting,
  refused, arriving, departing, breaking, waking, heard, echoed,
}
use cpp_programming.IocpServer.Completions.{IsValid, Expects, Begins, Line-Begins}
use cpp_programming.IocpServer.Steps.{new_port, Reach, begun, next}
use cpp_programming.IocpServer.Changes.{line_context}
use cpp_programming.IocpServer.Invariant.{Inv, Touch, Touch-Inv, quiet-Touch}
use cpp_programming.IocpServer.Touches.{
  line_at, arriving-Touch, departing-Touch, accepting-Touch, breaking-Touch,
}

same_state : (r : Reply Port (Unit {0})) (s t : Port) → r ≡ gives tt s → r ≡ gives tt t → s ≡ t
same_state r s t p q = ap state_of (sym p ∙ q)

step-Touch :
    (es : List Event) (s : Port) (e : Event) (t : Port) → Inv es s → Step s e t → Touch es s e t
unfolding accept_connection process
step-Touch es s e _ i (accepting socket association answer t room q) =
    let (u, p, k) = accepting-Touch socket association answer es s i room in
    subst (λ x. Touch es s (connected x.next_id) x) (same_state _ u t p q) k
step-Touch es s e _ i (refused association answer t q) =
    subst (Touch es s unnoticed) (same_state _ s t refl q) (quiet-Touch es s i)
step-Touch es s e _ i (arriving id off len b answer t p l q) =
    let (u, r, k) = arriving-Touch id off len b answer es s i p l in
    subst (Touch es s (arrived id b)) (same_state _ u t r q) k
step-Touch es s e _ i (departing id off len n c answer t p m l q) =
    let (u, r, k) = departing-Touch id off len n c answer es s i p m l in
    subst (Touch es s (departed id (take n (slice off len c)))) (same_state _ u t r q) k
step-Touch es s e _ i (breaking id code op answer t p q) =
    subst (Touch es s unnoticed) (same_state _ (finished id s) t refl q)
      (breaking-Touch id op es s i p)
step-Touch es s e _ i (waking n answer t q) =
    subst (Touch es s unnoticed) (same_state _ s t refl q) (quiet-Touch es s i)

new_port-Inv : Inv [] new_port
unfolding new_port heard echoed lookup
new_port-Inv = record { next_small = omega arith; line = λ id. ([], refl) }

pub reach-Inv : (es : List Event) (s : Port) → Reach es s → Inv es s
reach-Inv es s begun = new_port-Inv
reach-Inv es t (next {es = es'} {e = e} {s = s} r k) =
    let i = reach-Inv es' s r in Touch-Inv es' s e t i (step-Touch es' s e t i k)

-- Whatever the order in which operations end, in pieces of whatever size, and whichever of the
-- calls fail, what a client has got back is the beginning of what it has sent; and while a receive
-- is pending for its context it has got all of it.
pub echoed-heard :
    (es : List Event) (s : Port) (id : ℕ)
    → Reach es s
    → Begins (echoed id es) (heard id es)
      × ((off len : ℕ)
          → lookup id s.pending ≡ some (receiving off len)
          → echoed id es ≡ heard id es)
echoed-heard es s id r =
    let i = reach-Inv es s r in
    (
      Line-Begins id (heard id es) (echoed id es) (lookup id s.contexts) (lookup id s.pending)
          (i.line id),
      λ off len p.
          let (c, m, v, x, g) =
            line_context id (heard id es) (echoed id es) (lookup id s.contexts) (receiving off len)
              (line_at id es s (receiving off len) i p) in
          sym (append-nil (echoed id es)) ∙ g,
    )

-- Where the bytes of an operation end.
abbrev pub extent : Operation → ℕ
extent (sending off len) = off + len
extent (receiving off len) = off + len

-- An operation that is pending has the context of its key in the map, whose buffer it stays within.
pub pending-within :
    (es : List Event) (s : Port) (id : ℕ) (op : Operation)
    → Reach es s
    → lookup id s.pending ≡ some op
    → (c : ClientContext) × (lookup id s.contexts ≡ some c) × (extent op ≤ length c.buffer)
pending-within es s id op r p =
    let i = reach-Inv es s r in
    let (c, m, v, x, g) =
      line_context id (heard id es) (echoed id es) (lookup id s.contexts) op
        (line_at id es s op i p) in
    (c, m, go op c v x)
  where
    go :
        (o : Operation) (c : ClientContext)
        → IsValid id c
        → Expects c o
        → extent o ≤ length c.buffer
    go (sending off len) c v x = omega (arith, x.1, x.2, x.3, v.full)
    go (receiving off len) c v x = omega (arith, x.1, x.2, v.full)

-- When an operation ends, with as many bytes as it asked for at most, `process` returns, whichever
-- answer the call of WSASend or WSARecv in it gets: in particular no OVERLAPPED is used again before
-- its operation has ended.
pub process-returns :
    (es : List Event) (s : Port) (id off len : ℕ) (answer : Option ℕ)
    → Reach es s
    → ((b : Text)
        → lookup id s.pending ≡ some (receiving off len)
        → length b ≤ len
        → (t : Port) × (process (packet id (length b)) answer (received id off b s) ≡ gives tt t))
      × ((n : ℕ)
          → lookup id s.pending ≡ some (sending off len)
          → n ≤ len
          → (t : Port) × (process (packet id n) answer (finished id s) ≡ gives tt t))
process-returns es s id off len answer r =
    let i = reach-Inv es s r in
    (
      λ b p l. let (t, q, k) = arriving-Touch id off len b answer es s i p l in (t, q),
      λ n p l.
          let (c, m, v, x, g) =
            line_context id (heard id es) (echoed id es) (lookup id s.contexts) (sending off len)
              (line_at id es s (sending off len) i p) in
          let (t, q, k) = departing-Touch id off len n c answer es s i p m l in (t, q),
    )

-- What may follow a state of the port.
pub data Later (es : List Event) (s : Port) : List Event → Port → Type 0 where
  at_once : Later es s es s
  then_step :
      {fs : List Event} {e : Event} {t u : Port}
      → Later es s fs t
      → Step t e u
      → Later es s (e ∷ fs) u

Later-Reach :
    (es : List Event) (s : Port) (fs : List Event) (t : Port)
    → Reach es s
    → Later es s fs t
    → Reach fs t
Later-Reach es s fs t r at_once = r
Later-Reach es s fs _ r (then_step {fs = gs} {t = u} l k) = next (Later-Reach es s gs u r l) k

step_stranded :
    (es : List Event) (s : Port) (e : Event) (t : Port) (id : ℕ) (c : ClientContext)
    → Touch es s e t
    → lookup id s.contexts ≡ some c
    → lookup id s.pending ≡ none
    → (lookup id t.contexts ≡ some c) × (lookup id t.pending ≡ none)
step_stranded es s e t id c k m p = elim (Bool-cases (k.key == id)) [
  | inl q ↦
      let same : k.key ≡ id = ground (arith, q) in
      elim k.was [
        | inl a ↦
            let a' : lookup id s.contexts ≡ none = subst (λ x. lookup x s.contexts ≡ none) same a in
            absurd cc
        | inr (op, a) ↦
            let a' : lookup id s.pending ≡ some op =
              subst (λ x. lookup x s.pending ≡ some op) same a in
            absurd cc
      ]
  | inr q ↦ let o = k.others id q in (o.0 ∙ m, o.1 ∙ p)
]

-- A context whose operation has ended without another one, as one whose socket could not be
-- associated with the port, or for which GetQueuedCompletionStatus gave FALSE, stays in the map
-- for ever, whatever else happens at the port.
pub stranded_stays :
    (es : List Event) (s : Port) (fs : List Event) (t : Port) (id : ℕ) (c : ClientContext)
    → Reach es s
    → lookup id s.contexts ≡ some c
    → lookup id s.pending ≡ none
    → Later es s fs t
    → (lookup id t.contexts ≡ some c) × (lookup id t.pending ≡ none)
stranded_stays es s fs t id c r m p at_once = (m, p)
stranded_stays es s fs u id c r m p (then_step {fs = gs} {e = e} {t = t} l k) =
    let (a, b) = stranded_stays es s gs t id c r m p l in
    let i = reach-Inv gs t (Later-Reach es s gs t r l) in
    step_stranded gs t e u id c (step-Touch gs t e u i k) a b
