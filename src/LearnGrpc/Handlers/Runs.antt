-- ===== src/LearnGrpc/Handlers/Runs.antt =====
-- The loops of the server: what holds of its handlers and of the operations that are pending in
-- every state that they reach.
use cpp_programming.Base.{
  ℕ, ◌≡◌, refl, sym, ap, ◌∙◌, subst, inl, inr, Bool, true, false, none, some, List, [], ◌∷◌, ◌++◌,
  ◌==◌, ==_iff, Bool-cases,
}
use cpp_programming.Base.Actions.{Reply, gives, raises, give, and_then, when, state_of}
use cpp_programming.Base.Actions.{Gives, Gives-bind}
use cpp_programming.LearnGrpc.Event.{Event, get_key, get_opt}
use cpp_programming.LearnGrpc.Handlers.{
  Kind, Message, Handler, Operation, request_call, write, read, finish_with, finish_call, Pending,
  Proactor, new, register_handler, process, fill, drop_handler, conclude, work, handle, got,
  demultiplex_round, register_all, kinds, start_handlers, stop,
}
use cpp_programming.Base.Maps.{lookup, insert, erase, lookup-insert, lookup-erase}
use cpp_programming.LearnGrpc.Registry.{Registry, add, count, remove}
use cpp_programming.LearnGrpc.Registry
use cpp_programming.LearnGrpc.Handlers.Reactions.{
  expected, with_pending, Begins, Ends, is_done, waits_for, Reacts,
}
use cpp_programming.LearnGrpc.Handlers.Classes.{process-Reacts}
use cpp_programming.LearnGrpc.Handlers.Accounting.{
  for_key, Fits, Inv, Held, request_at, request_at-key, Registered, refused, entered,
  register-Registered, taken_out, added_other, added_own, entered-Fits,
}

register-Held :
    (kind : Kind) (s t : Proactor) (j : ℕ) (h : Handler)
    → Held j h s
    → Registered kind s t
    → Held j h t
register-Held kind s t j h c (refused z e) = subst (Held j h) (sym e) c
register-Held kind s t j h c (entered key r z n small w e) =
    let apart : (key == j) ≡ false = elim (Bool-cases (key == j)) [
      | inl q ↦
          let k : key ≡ j = (==_iff key j).0 q in
          let both : some h ≡ none =
            sym c.own ∙ ap (λ i. lookup i s.registry.handlers) (sym k) ∙ n in
          cc
      | inr q ↦ q
    ] in
    let found : lookup j r.handlers ≡ lookup j s.registry.handlers = rw apart at (w j) in
    subst (Held j h) (sym e) (record {
      own = found ∙ c.own;
      none_left =
          sym (
            added_other j (request_at kind key) s.pending
              (rw (request_at-key kind key small) apart))
          ∙ c.none_left;
      others = λ k q.
          entered-Fits kind key k s.registry.handlers r.handlers s.pending small n (w k)
            (c.others k q);
    })

register-Inv : (kind : Kind) (s t : Proactor) → Inv s → Registered kind s t → Inv t
unfolding Inv
register-Inv kind s t i (refused z e) = subst Inv (sym e) i
register-Inv kind s t i (entered key r z n small w e) =
    subst Inv (sym e)
      (λ k. entered-Fits kind key k s.registry.handlers r.handlers s.pending small n (w k) (i k))

concluded :
    (key : ℕ) (h : Handler) (s : Proactor) (b : Bool)
    → h.finish ≡ b
    → Gives
        (λ _. Inv)
        (when b (drop_handler key) (record s {
          registry = record s.registry { handlers = insert key h s.registry.handlers };
        }))
    → Gives (λ _. Inv) (conclude key h s)
concluded key h s b f g =
    subst
      (λ c.
        Gives (λ _. Inv)
          (when c (drop_handler key) (record s {
            registry = record s.registry { handlers = insert key h s.registry.handlers };
          })))
      (sym f) g

conclude-Inv :
    (event : Event) (h h' : Handler) (t s : Proactor)
    → Held (get_key event) h t
    → Ends event h' t s
    → Gives (λ _. Inv) (conclude (get_key event) h' s)
unfolding Inv remove
conclude-Inv event h h' t s c (is_done f) =
    let key = get_key event in
    let m = insert key h' t.registry.handlers in
    concluded key h' t true f (λ k.
      let gone = lookup-erase k key m in
      elim (Bool-cases (key == k)) [
        | inl e ↦
            subst (λ o. Fits o (for_key k t.pending)) (sym (rw e at gone))
              (subst (λ j. for_key j t.pending ≡ []) ((==_iff key k).0 e) c.none_left)
        | inr e ↦
            let same : lookup k (erase key m) ≡ lookup k t.registry.handlers =
              (rw e at gone) ∙ (rw e at (lookup-insert k key h' t.registry.handlers)) in
            subst (λ o. Fits o (for_key k t.pending)) (sym same) (c.others k e)
      ])
conclude-Inv event h h' t s c (waits_for q f a w n) =
    let key = get_key event in
    concluded key h' (with_pending t q) false f (λ k.
      let put = lookup-insert k key h' t.registry.handlers in
      elim (Bool-cases (key == k)) [
        | inl e ↦
            subst (λ o. Fits o (for_key k (t.pending ++ q ∷ []))) (sym (rw e at put))
              (
                q,
                added_own k q t.pending (rw a e)
                    (subst (λ j. for_key j t.pending ≡ []) ((==_iff key k).0 e) c.none_left),
                f,
                w,
              )
        | inr e ↦
            subst (λ o. Fits o (for_key k (t.pending ++ q ∷ []))) (sym (rw e at put))
              (subst (Fits (lookup k t.registry.handlers)) (added_other k q t.pending (rw a e))
                (c.others k e))
      ])

begun-Held :
    (o : ℕ) (kind : Kind) (s t : Proactor) (j : ℕ) (h : Handler)
    → Held j h s
    → Begins o kind s t
    → Held j h t
begun-Held o kind s t j h c (inl b) =
    register-Held kind s t j h c (register-Registered kind s t b.1)
begun-Held o kind s t j h c (inr b) = subst (Held j h) (sym b.1) c

fill-kept :
    (op : Operation) (m : Message) (h : Handler)
    → ((fill op m h).kind ≡ h.kind) × ((fill op m h).finish ≡ h.finish)
fill-kept (request_call kind) m h = (refl, refl)
fill-kept read m h = (refl, refl)
fill-kept (write t) m h = (refl, refl)
fill-kept (finish_with t s) m h = (refl, refl)
fill-kept (finish_call s) m h = (refl, refl)

-- What the reaction to an event does, whatever holds of its end.
pub handle-Gives :
    (Q : Proactor → Type 0) (is_ok : Bool) (m : Message) (s : Proactor) (l r : List Pending)
    (p : Pending)
    → Inv s
    → s.pending ≡ l ++ p ∷ r
    → ((h h' : Handler) (t u : Proactor)
        → expected h.kind p.operation (get_opt p.token) ≡ true
        → Held (get_key p.token) h t
        → Begins (get_opt p.token) h.kind (record s { pending = l ++ r }) t
        → Ends p.token h' t u
        → Gives (λ _. Q) (conclude (get_key p.token) h' u))
    → Gives (λ _. Q) (handle is_ok m p (record s { pending = l ++ r }))
unfolding handle
handle-Gives Q is_ok m s l r p i e k =
    let s0 = record s { pending = l ++ r } in
    let (h, q, z, w, c) =
      taken_out s l r p (lookup (get_key p.token) s.registry.handlers) i e refl in
    let f = fill p.operation m h in
    let (a, b) = fill-kept p.operation m h in
    subst (λ o. Gives (λ _. Q) (work is_ok m p o s0)) (sym q)
      (Gives-bind (λ _. Q) (process h.kind is_ok p.token f s0) (conclude (get_key p.token))
        (λ h' u y.
          let reacts : Reacts p.token f s0 h' u =
            subst (Gives (Reacts p.token f s0)) y
              (process-Reacts p.token f s0 (b ∙ z) h.kind is_ok p.operation a w) in
          let begun : Begins (get_opt p.token) h.kind s0 reacts.between =
            subst (λ j. Begins (get_opt p.token) j s0 reacts.between) a reacts.begins in
          k h h' reacts.between u w (begun-Held _ _ _ _ _ _ c begun) begun reacts.ends))

pub handle-Inv :
    (is_ok : Bool) (m : Message) (s : Proactor) (l r : List Pending) (p : Pending)
    → Inv s
    → s.pending ≡ l ++ p ∷ r
    → Gives (λ _. Inv) (handle is_ok m p (record s { pending = l ++ r }))
handle-Inv is_ok m s l r p i e =
    handle-Gives Inv is_ok m s l r p i e (λ h h' t u x c b d. conclude-Inv p.token h h' t u c d)

-- The steps of the loop: the queue gives back one of the tokens, or the server is told to stop.
pub data Step (s : Proactor) : Proactor → Type 0 where
  completed :
      (is_ok : Bool) (m : Message) (l r : List Pending) (p : Pending) (t : Proactor)
      → s.pending ≡ l ++ p ∷ r
      → demultiplex_round (got is_ok m p) (record s { pending = l ++ r }) ≡ gives true t
      → Step s t
  stopping : Step s (stop s)

-- The states from the start of `demultiplex` on.
pub data Reach : Proactor → Type 0 where
  started : (s : Proactor) → start_handlers new ≡ gives tt s → Reach s
  next : {s : Proactor} {t : Proactor} → Reach s → Step s t → Reach t

pub handled :
    (is_ok : Bool) (m : Message) (p : Pending) (s t : Proactor) (Q : Proactor → Type 0)
    → demultiplex_round (got is_ok m p) s ≡ gives true t
    → Gives (λ _. Q) (handle is_ok m p s)
    → Q t
unfolding demultiplex_round
handled is_ok m p s t Q e g = go (handle is_ok m p s) e g
  where
    go :
        (r : Reply Proactor (Unit {0}))
        → and_then r (λ _. give true) ≡ gives true t
        → Gives (λ _. Q) r
        → Q t
    go (gives a u) q h = subst Q (ap (λ (z : Reply Proactor Bool). state_of z) q) h
    go (raises x u) q h = cc

register_all-Inv : (ks : List Kind) (s : Proactor) → Inv s → Gives (λ _. Inv) (register_all ks s)
unfolding register_all
register_all-Inv [] s i = i
register_all-Inv (k ∷ ks) s i =
    Gives-bind (λ _. Inv) (register_handler k s) (λ _. register_all ks)
      (λ a t e. register_all-Inv ks t (register-Inv k s t i (register-Registered k s t e)))

new-Inv : Inv new
unfolding Inv new for_key lookup Registry.new
new-Inv k = refl

pub start_handlers-Inv : Gives (λ _. Inv) (start_handlers new)
unfolding start_handlers
start_handlers-Inv = register_all-Inv kinds new new-Inv

stop-Inv : (s : Proactor) → Inv s → Inv (stop s)
unfolding Inv stop
stop-Inv s i = i

pub Reach-Inv : (s : Proactor) → Reach s → Inv s
Reach-Inv s (started t e) = subst (Gives (λ _. Inv)) e start_handlers-Inv
Reach-Inv s (next {s = u} w (completed is_ok m l r p t q e)) =
    handled is_ok m p (record u { pending = l ++ r }) t Inv e
      (handle-Inv is_ok m u l r p (Reach-Inv u w) q)
Reach-Inv s (next {s = u} w stopping) = stop-Inv u (Reach-Inv u w)

-- In every state that the loop of `demultiplex` reaches, whatever order the queue gives the tokens
-- back in and whether the operations end well or not, a key of the map has one operation pending,
-- which is one that the class of its handler asks for, and the handler is not done; a key that is
-- not in the map has none. The option of the event is the one that belongs to the operation, but
-- for the Finish with CANCELLED of a Talk, which is pending under the option of a write.
pub Reach-Fits :
    (s : Proactor) (k : ℕ) → Reach s → Fits (lookup k s.registry.handlers) (for_key k s.pending)
unfolding Inv
Reach-Fits s k w = Reach-Inv s w k
