-- ===== src/IocpServer/Touches.antt =====
-- The steps of the port and its invariant.
use cpp_programming.Base.{
  ℕ, ◌+◌, ◌^◌, ◌≤◌, ◌≡◌, refl, sym, subst, inl, inr, false, Option, none, some, List, [], ◌∷◌, ◌++◌,
  ◌==◌, ==_refl, length, take,
}
use cpp_programming.Base.Actions.{gives}
use cpp_programming.Base.Maps.{lookup}
use cpp_programming.Text.{Text}
use cpp_programming.IocpServer.Contexts.{ClientContext, Operation, sending, receiving, Port}
use cpp_programming.IocpServer.Port.{process, packet, accept_connection}
use cpp_programming.IocpServer.Steps.{
  slice, finished, received, Event, connected, arrived, departed, unnoticed, heard, echoed,
}
use cpp_programming.IocpServer.Completions.{unsent, Line}
use cpp_programming.IocpServer.Changes.{
  line_context, line_none, arriving-Turns, departing-Turns, finished-Sets,
}
use cpp_programming.IocpServer.Invariant.{Inv, Touch, Sets-Touch, accept-Turns}

heard-connected :
    (id : ℕ) (es : List Event)
    → (heard id (connected id ∷ es) ≡ []) × (echoed id (connected id ∷ es) ≡ [])
unfolding heard echoed
heard-connected id es = (rw (heard, ==_refl id) refl, rw (echoed, ==_refl id) refl)

heard-arrived :
    (id : ℕ) (b : Text) (es : List Event) → heard id (arrived id b ∷ es) ≡ heard id es ++ b
unfolding heard
heard-arrived id b es = rw (heard, ==_refl id) refl

echoed-departed :
    (id : ℕ) (b : Text) (es : List Event) → echoed id (departed id b ∷ es) ≡ echoed id es ++ b
unfolding echoed
echoed-departed id b es = rw (echoed, ==_refl id) refl

-- The event of another key.
abbrev Apart : ℕ → Event → Type 0
Apart j e = (es : List Event) → (heard j (e ∷ es) ≡ heard j es) × (echoed j (e ∷ es) ≡ echoed j es)

connected-Apart : (id j : ℕ) → (id == j) ≡ false → Apart j (connected id)
unfolding heard echoed
connected-Apart id j q es = (rw (heard, q) refl, rw (echoed, q) refl)

arrived-Apart : (id j : ℕ) (b : Text) → (id == j) ≡ false → Apart j (arrived id b)
unfolding heard echoed
arrived-Apart id j b q es = (rw (heard, q) refl, refl)

departed-Apart : (id j : ℕ) (b : Text) → (id == j) ≡ false → Apart j (departed id b)
unfolding heard echoed
departed-Apart id j b q es = (refl, rw (echoed, q) refl)

pub line_at :
    (id : ℕ) (es : List Event) (s : Port) (op : Operation)
    → Inv es s
    → lookup id s.pending ≡ some op
    → Line id (heard id es) (echoed id es) (lookup id s.contexts) (some op)
line_at id es s op i p =
    subst (Line id (heard id es) (echoed id es) (lookup id s.contexts)) p (i.line id)

pub arriving-Touch :
    (id off len : ℕ) (b : Text) (answer : Option ℕ) (es : List Event) (s : Port)
    → Inv es s
    → lookup id s.pending ≡ some (receiving off len)
    → length b ≤ len
    → (t : Port) × (process (packet id (length b)) answer (received id off b s) ≡ gives tt t)
      × Touch es s (arrived id b) t
unfolding echoed
arriving-Touch id off len b answer es s i p l =
    let h = heard id es in
    let e = echoed id es in
    let (t, q, c, op, a, x) =
      arriving-Turns id off len h e b answer s (line_at id es s (receiving off len) i p) l in
    (
      t,
      q,
      Sets-Touch id es s s (arrived id b) t c op refl refl i.next_small a
          (subst (λ k. Line id k e c op) (sym (heard-arrived id b es)) x)
          (λ j n. arrived-Apart id j b n es) (inr (receiving off len, p)),
    )

pub departing-Touch :
    (id off len n : ℕ) (c : ClientContext) (answer : Option ℕ) (es : List Event) (s : Port)
    → Inv es s
    → lookup id s.pending ≡ some (sending off len)
    → lookup id s.contexts ≡ some c
    → n ≤ len
    → (t : Port) × (process (packet id n) answer (finished id s) ≡ gives tt t)
      × Touch es s (departed id (take n (slice off len c))) t
unfolding heard
departing-Touch id off len n c answer es s i p m l =
    let h = heard id es in
    let e = echoed id es in
    let b = take n (slice off len c) in
    let (t, q, c', op, a, x) =
      departing-Turns id off len n h e c answer s (line_at id es s (sending off len) i p) m l in
    (
      t,
      q,
      Sets-Touch id es s s (departed id b) t c' op refl refl i.next_small a
          (subst (λ k. Line id h k c' op) (sym (echoed-departed id b es)) x)
          (λ j n. departed-Apart id j b n es) (inr (sending off len, p)),
    )

pub accepting-Touch :
    (socket : ℕ) (association answer : Option ℕ) (es : List Event) (s : Port)
    → Inv es s
    → length s.contexts + 2 ≤ 2 ^ 32
    → (t : Port) × (accept_connection (some socket) association answer s ≡ gives tt t)
      × Touch es s (connected t.next_id) t
accepting-Touch socket association answer es s i room =
    let idle : (id : ℕ) → lookup id s.contexts ≡ none → lookup id s.pending ≡ none = λ id m.
      line_none id (heard id es) (echoed id es) (lookup id s.contexts) (lookup id s.pending)
        (i.line id) m in
    let (id, l, free, (t, q, c, op, a, x)) =
      accept-Turns socket association answer s i.next_small room idle in
    let none_heard = heard-connected id es in
    (
      t,
      q,
      subst (λ k. Touch es s (connected k) t) (sym a.same_id)
          (Sets-Touch id es s (record s { next_id = id }) (connected id) t c op refl refl l a
            (rw (none_heard.0, none_heard.1) x) (λ j n. connected-Apart id j n es) (inl free)),
    )

pub breaking-Touch :
    (id : ℕ) (op : Operation) (es : List Event) (s : Port)
    → Inv es s
    → lookup id s.pending ≡ some op
    → Touch es s unnoticed (finished id s)
unfolding heard echoed
breaking-Touch id op es s i p =
    let (c, m, v, x, g) =
      line_context id (heard id es) (echoed id es) (lookup id s.contexts) op
        (line_at id es s op i p) in
    Sets-Touch id es s s unnoticed (finished id s) (some c) none refl refl i.next_small
      (finished-Sets id (some c) s m) (v, (unsent c op, g)) (λ j n. (refl, refl)) (inr (op, p))
