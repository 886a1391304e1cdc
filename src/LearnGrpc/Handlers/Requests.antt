-- ===== src/LearnGrpc/Handlers/Requests.antt =====
-- The requests for calls that the server has pending.
use cpp_programming.Base.{
  ℕ, ◌+◌, ◌≡◌, refl, sym, ap, ◌∙◌, subst, ◌≢◌, inl, inr, Bool, true, false, List, [], ◌∷◌, ◌++◌,
  arith, if◌then◌else◌, ==_iff,
}
use cpp_programming.Base.Actions.{when}
use cpp_programming.Base.Actions.{Gives, Gives-bind, Gives-map}
use cpp_programming.LearnGrpc.Event.{Event, get_key, get_opt}
use cpp_programming.LearnGrpc.Handlers.{
  Kind, hello, hello_again, goodbye, goodbye_again, greet, listen, speak, talk, Message, Handler,
  ok_status, cancelled, Operation, request_call, write, read, finish_with, finish_call, Pending,
  Proactor, new, register_handler, drop_handler, conclude, handle, register_all, kinds,
  start_handlers, stop,
}
use cpp_programming.Base.Maps.{insert}
use cpp_programming.LearnGrpc.Handlers.Reactions.{
  kind_code, same, expected, is_request, Begins, Ends, is_done, waits_for,
}
use cpp_programming.LearnGrpc.Handlers.Accounting.{
  Inv, request_at, Registered, refused, entered, register-Registered,
}
use cpp_programming.LearnGrpc.Handlers.Runs.{
  handle-Gives, handled, completed, stopping, Reach, started, next, Reach-Inv,
}

-- How many operations wait for a call of the kind.
abbrev pub request_of : Kind → Operation → ℕ
request_of k (request_call j) = if same j k then 1 else 0
request_of k read = 0
request_of k (write t) = 0
request_of k (finish_with t s) = 0
request_of k (finish_call s) = 0

unfoldable pub requests : Kind → List Pending → ℕ
requests k [] = 0
requests k (p ∷ ps) = request_of k p.operation + requests k ps

-- The server waits for one call of each kind until it is stopped.
Available : Proactor → Type 0
Available s = s.stopped ≡ false → (k : Kind) → requests k s.pending ≡ 1

requests-append :
    (k : Kind) (ps qs : List Pending) → requests k (ps ++ qs) ≡ requests k ps + requests k qs
unfolding requests
requests-append k [] qs = omega arith
requests-append k (p ∷ ps) qs = omega (arith, requests-append k ps qs)

requests-middle :
    (k : Kind) (l r : List Pending) (p : Pending)
    → requests k (l ++ p ∷ r) ≡ request_of k p.operation + requests k (l ++ r)
unfolding requests
requests-middle k l r p = omega (arith, requests-append k l (p ∷ r), requests-append k l r)

requests-snoc :
    (k : Kind) (ps : List Pending) (p : Pending)
    → requests k (ps ++ p ∷ []) ≡ requests k ps + request_of k p.operation
unfolding requests
requests-snoc k ps p = omega (arith, requests-append k ps (p ∷ []))

same_eq :
    (i j k : Kind) → same i j ≡ true → request_of k (request_call i) ≡ request_of k (request_call j)
same_eq i j k e = rw ((==_iff (kind_code i) (kind_code j)).0 e) refl

expected-request :
    (kind k : Kind) (op : Operation) (o : ℕ)
    → expected kind op o ≡ true
    → o ≡ 1
    → request_of k op ≡ request_of k (request_call kind)
expected-request kind k (request_call j) o e q = same_eq j kind k (ground arith)
expected-request kind k read o e q = absurd (ground arith)
expected-request kind k (write t) o e q = absurd (ground arith)
expected-request kind k (finish_with t s) o e q = absurd (ground arith)
expected-request kind k (finish_call ok_status) o e q = absurd (ground arith)
expected-request kind k (finish_call cancelled) o e q = absurd (ground arith)

expected-other :
    (kind k : Kind) (op : Operation) (o : ℕ)
    → expected kind op o ≡ true
    → o ≢ 1
    → request_of k op ≡ 0
expected-other kind k (request_call j) o e q = absurd (ground arith)
expected-other kind k read o e q = refl
expected-other kind k (write t) o e q = refl
expected-other kind k (finish_with t s) o e q = refl
expected-other kind k (finish_call s) o e q = refl

not_request : (k : Kind) (op : Operation) → is_request op ≡ false → request_of k op ≡ 0
not_request k (request_call j) e = cc
not_request k read e = refl
not_request k (write t) e = refl
not_request k (finish_with t s) e = refl
not_request k (finish_call s) e = refl

-- The request that was given back is made again.
Begins-Available :
    (kind : Kind) (op : Operation) (o : ℕ) (s t : Proactor)
    → expected kind op o ≡ true
    → (s.stopped ≡ false → (k : Kind) → request_of k op + requests k s.pending ≡ 1)
    → Begins o kind s t
    → Available t
unfolding Available
Begins-Available kind op o s t e a (inl b) = go (register-Registered kind s t b.1)
  where
    go : Registered kind s t → t.stopped ≡ false → (k : Kind) → requests k t.pending ≡ 1
    go (refused z q) x k =
        let both : true ≡ false = sym z ∙ ap (λ (u : Proactor). u.stopped) (sym q) ∙ x in cc
    go (entered key r z n small w q) x k =
        ap (λ (u : Proactor). requests k u.pending) q
        ∙ omega (
          arith,
          requests-snoc k s.pending (request_at kind key),
          a z k,
          expected-request kind k op o e b.0,
        )
Begins-Available kind op o s t e a (inr b) = λ x k.
    ap (λ (u : Proactor). requests k u.pending) b.1
    ∙ omega (
      arith,
      a (sym (ap (λ (u : Proactor). u.stopped) b.1) ∙ x) k,
      expected-other kind k op o e b.0,
    )

Ends-Available :
    (event : Event) (h : Handler) (t u : Proactor) → Available t → Ends event h t u → Available u
unfolding Available
Ends-Available event h t u a (is_done f) x k = a x k
Ends-Available event h t u a (waits_for q f g w n) x k =
    omega (arith, requests-snoc k t.pending q, not_request k q.operation n, a x k)

conclude-Available :
    (key : ℕ) (h : Handler) (s : Proactor) → Available s → Gives (λ _. Available) (conclude key h s)
unfolding Available
conclude-Available key h s a = go h.finish
  where
    go :
        (b : Bool)
        → Gives
            (λ _. Available)
            (when b (drop_handler key) (record s {
              registry = record s.registry { handlers = insert key h s.registry.handlers };
            }))
    go true = a
    go false = a

handle-Available :
    (is_ok : Bool) (m : Message) (s : Proactor) (l r : List Pending) (p : Pending)
    → Inv s
    → Available s
    → s.pending ≡ l ++ p ∷ r
    → Gives (λ _. Available) (handle is_ok m p (record s { pending = l ++ r }))
unfolding Available
handle-Available is_ok m s l r p i a e =
    let s0 = record s { pending = l ++ r } in
    let due : s.stopped ≡ false → (k : Kind) → request_of k p.operation + requests k (l ++ r) ≡ 1 =
      λ x k. sym (ap (requests k) e ∙ requests-middle k l r p) ∙ a x k in
    handle-Gives Available is_ok m s l r p i e (λ h h' t u x c b d.
      conclude-Available (get_key p.token) h' u (
        Ends-Available p.token h' t u
          (Begins-Available h.kind p.operation (get_opt p.token) s0 t x due b) d))

total : Kind → List Kind → ℕ
total k [] = 0
total k (j ∷ js) = request_of k (request_call j) + total k js

total-kinds : (k : Kind) → total k kinds ≡ 1
unfolding total
total-kinds hello = refl
total-kinds hello_again = refl
total-kinds goodbye = refl
total-kinds goodbye_again = refl
total-kinds greet = refl
total-kinds listen = refl
total-kinds speak = refl
total-kinds talk = refl

abbrev Counts : List Kind → Proactor → Proactor → Type 0
Counts ks s t =
    (t.stopped ≡ false) × ((k : Kind) → requests k t.pending ≡ requests k s.pending + total k ks)

register-Counts :
    (kind : Kind) (s t : Proactor)
    → s.stopped ≡ false
    → Registered kind s t
    → Counts (kind ∷ []) s t
unfolding total
register-Counts kind s t x (refused z e) = let both : true ≡ false = sym z ∙ x in cc
register-Counts kind s t x (entered key r z n small w e) = (
  ap (λ (u : Proactor). u.stopped) e ∙ x,
  λ k.
      ap (λ (u : Proactor). requests k u.pending) e
      ∙ omega (arith, requests-snoc k s.pending (request_at kind key)),
)

register_all-Counts :
    (ks : List Kind) (s : Proactor)
    → s.stopped ≡ false
    → Gives (λ _. Counts ks s) (register_all ks s)
unfolding register_all total
register_all-Counts [] s x = (x, λ k. omega arith)
register_all-Counts (j ∷ ks) s x =
    Gives-bind (λ _. Counts (j ∷ ks) s) (register_handler j s) (λ _. register_all ks)
      (λ a t e.
        let (y, f) = register-Counts j s t x (register-Registered j s t e) in
        Gives-map (λ _. Counts ks t) (λ _. Counts (j ∷ ks) s) (register_all ks t)
          (λ b u c. (c.0, λ k. omega (arith, c.1 k, f k))) (register_all-Counts ks t y))

start_handlers-Available : Gives (λ _. Available) (start_handlers new)
unfolding start_handlers new Available requests
start_handlers-Available =
    Gives-map (λ _. Counts kinds new) (λ _. Available) (register_all kinds new)
      (λ a s c x k. c.1 k ∙ ap (λ n. 0 + n) (total-kinds k)) (register_all-Counts kinds new refl)

stop-Available : (s : Proactor) → Available (stop s)
unfolding Available stop
stop-Available s x = cc

Reach-Available : (s : Proactor) → Reach s → Available s
Reach-Available s (started t e) = subst (Gives (λ _. Available)) e start_handlers-Available
Reach-Available s (next {s = u} w (completed is_ok m l r p t q e)) =
    handled is_ok m p (record u { pending = l ++ r }) t Available e
      (handle-Available is_ok m u l r p (Reach-Inv u w) (Reach-Available u w) q)
Reach-Available s (next {s = u} w stopping) = stop-Available u

-- Until it is stopped, the server waits for one call of each of its eight kinds in every state that
-- the loop reaches: a request that ends, well or not, is made again at once, and only once.
pub Reach-requests :
    (s : Proactor) (k : Kind) → Reach s → s.stopped ≡ false → requests k s.pending ≡ 1
unfolding Available
Reach-requests s k w x = Reach-Available s w x k
