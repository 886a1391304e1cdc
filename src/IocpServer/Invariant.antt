-- ===== src/IocpServer/Invariant.antt =====
-- The invariant of the port, over all its steps.
use cpp_programming.Base.{
  ℕ, zero, suc, ◌+◌, ◌^◌, ◌≤◌, ◌<◌, ◌≡◌, refl, sym, ap, ◌∙◌, subst, ◌≢◌, ◌⊎◌, inl, inr, Bool, false,
  Option, none, some, List, [], ◌∷◌, arith, ◌==◌, if◌then◌else◌, Bool-cases, length,
}
use cpp_programming.Base.Actions.{give, and_then}
use cpp_programming.Base.Maps.{lookup, insert, lookup-insert}
use cpp_programming.IocpServer.Contexts.{
  option_recv, ClientContext, new_context, Operation, receiving, Port,
}
use cpp_programming.IocpServer.Port.{accept_connection, associate_with_iocp, initial_recv}
use cpp_programming.IocpServer.Fresh.{create_client_context-gives}
use cpp_programming.IocpServer.Steps.{Event, unnoticed, heard, echoed}
use cpp_programming.IocpServer.Lines.{Sets, Sets_then, if_same}
use cpp_programming.IocpServer.Completions.{IsValid, Line, Turns, posted-Turns}
use cpp_programming.IocpServer.Changes.{context_here, pending_here}
use cpp_programming.Text.Calls.{zeros}

length-zeros : (n : ℕ) → length (zeros n) ≡ n
length-zeros zero = refl
length-zeros (suc n) = ap suc (length-zeros n)

new_context-IsValid : (id socket : ℕ) → id ≢ 1 → id < 2 ^ 32 → IsValid id (new_context id socket)
unfolding new_context
new_context-IsValid id socket n l = record {
  has_id = refl;
  no_wake = n;
  small = l;
  full = length-zeros 4096;
}

recv_posted-Turns :
    (id socket : ℕ) (answer : Option ℕ) (s : Port)
    → id ≢ 1
    → id < 2 ^ 32
    → lookup id s.pending ≡ none
    → Turns id [] [] s (initial_recv (new_context id socket) answer s)
unfolding initial_recv new_context
recv_posted-Turns id socket answer s n l p =
    let c = record (new_context id socket) {
      last_option = option_recv;
      wsa_len = length (zeros 4096);
    } in
    let v = new_context-IsValid id socket n l in
    posted-Turns id [] [] c (receiving 0 (length c.buffer)) answer s p (
      record { has_id = v.has_id; no_wake = v.no_wake; small = v.small; full = v.full },
      (refl, refl, length-zeros 4096),
      refl,
    )

-- A connection that is accepted has a new key; it waits for bytes, or is removed, or stays without
-- an operation if it could not be associated with the port.
pub accept-Turns :
    (socket : ℕ) (association answer : Option ℕ) (s : Port)
    → s.next_id < 2 ^ 32
    → length s.contexts + 2 ≤ 2 ^ 32
    → ((id : ℕ) → lookup id s.contexts ≡ none → lookup id s.pending ≡ none)
    → (id : ℕ) × (id < 2 ^ 32)
      × (lookup id s.contexts ≡ none)
      × Turns id [] []
          (record s { next_id = id })
          (accept_connection (some socket) association answer s)
unfolding accept_connection associate_with_iocp
accept-Turns socket association answer s small room idle =
    let (id, free, other, l, e) = create_client_context-gives socket s small room in
    let c = new_context id socket in
    let u = record s { next_id = id; contexts = insert id c s.contexts } in
    let p = idle id free in
    let a : Sets id (some c) none (record s { next_id = id }) u = record {
      same_id = refl;
      context_at = λ j. lookup-insert j id c s.contexts;
      pending_at = if_same (λ k. lookup k s.pending) none id p;
    } in
    (
      id,
      l,
      free,
      subst (Turns id [] [] (record s { next_id = id }))
          (sym (
            ap
              (λ r.
                and_then r (λ x.
                  if associate_with_iocp x association then initial_recv x answer else give tt))
              e))
          (go id c u association a (new_context-IsValid id socket other l)
            (recv_posted-Turns id socket answer u other l p)),
    )
  where
    go :
        (id : ℕ) (c : ClientContext) (u : Port) (o : Option ℕ)
        → Sets id (some c) none (record s { next_id = id }) u
        → IsValid id c
        → Turns id [] [] u (initial_recv c answer u)
        → Turns id [] []
            (record s { next_id = id })
            ((if associate_with_iocp c o then initial_recv c answer else give tt) u)
    go id c u none a v (t, q, x, op, b, l) =
        (t, q, x, op, Sets_then id (some c) x none op (record s { next_id = id }) u t a b, l)
    go id c u (some code) a v w = (u, refl, some c, none, a, (v, ([], refl)))

pub record Inv (es : List Event) (s : Port) : Type 0 where
  pub next_small : s.next_id < 2 ^ 32
  pub line :
      (id : ℕ) → Line id (heard id es) (echoed id es) (lookup id s.contexts) (lookup id s.pending)

-- A step has to do with one key, which had no context or an operation that ended.
pub record Touch (es : List Event) (s : Port) (e : Event) (t : Port) : Type 0 where
  pub key : ℕ
  pub still_small : t.next_id < 2 ^ 32
  pub others :
      (j : ℕ)
      → (key == j) ≡ false
      → (lookup j t.contexts ≡ lookup j s.contexts)
        × (lookup j t.pending ≡ lookup j s.pending)
        × (heard j (e ∷ es) ≡ heard j es)
        × (echoed j (e ∷ es) ≡ echoed j es)
  pub here :
      Line key
        (heard key (e ∷ es))
        (echoed key (e ∷ es))
        (lookup key t.contexts)
        (lookup key t.pending)
  pub was : (lookup key s.contexts ≡ none) ⊎ ((op : Operation) × (lookup key s.pending ≡ some op))

pub Touch-Inv :
    (es : List Event) (s : Port) (e : Event) (t : Port) → Inv es s → Touch es s e t → Inv (e ∷ es) t
Touch-Inv es s e t i k = record {
  next_small = k.still_small;
  line = λ j. elim (Bool-cases (k.key == j)) [
    | inl q ↦
        let same : k.key ≡ j = ground (arith, q) in
        subst
          (λ x.
            Line x (heard x (e ∷ es)) (echoed x (e ∷ es)) (lookup x t.contexts)
              (lookup x t.pending))
          same k.here
    | inr q ↦ let (a, b, c, d) = k.others j q in rw (a, b, c, d) (i.line j)
  ];
}

if_other {ℓ} : {A : Type ℓ} (b : Bool) (x y z : A) → b ≡ false → z ≡ (if b then x else y) → z ≡ y
if_other b x y z e h = h ∙ ap (λ c. if c then x else y) e

-- The step whose call turns the key.
pub Sets-Touch :
    (id : ℕ) (es : List Event) (s s' : Port) (e : Event) (t : Port) (c : Option ClientContext)
    (op : Option Operation)
    → s'.contexts ≡ s.contexts
    → s'.pending ≡ s.pending
    → s'.next_id < 2 ^ 32
    → Sets id c op s' t
    → Line id (heard id (e ∷ es)) (echoed id (e ∷ es)) c op
    → ((j : ℕ)
        → (id == j) ≡ false
        → (heard j (e ∷ es) ≡ heard j es) × (echoed j (e ∷ es) ≡ echoed j es))
    → ((lookup id s.contexts ≡ none) ⊎ ((o : Operation) × (lookup id s.pending ≡ some o)))
    → Touch es s e t
Sets-Touch id es s s' e t c op m n l a h o w = record {
  key = id;
  still_small = omega (arith, l, a.same_id);
  others = λ j q. (
    if_other (id == j) c (lookup j s'.contexts) (lookup j t.contexts) q (a.context_at j)
        ∙ ap (lookup j) m,
    if_other (id == j) op (lookup j s'.pending) (lookup j t.pending) q (a.pending_at j)
        ∙ ap (lookup j) n,
    (o j q).0,
    (o j q).1,
  );
  here = rw (context_here id c op s' t a, pending_here id c op s' t a) h;
  was = w;
}

-- A step that clients do not notice and that leaves the port; no context has the key 1.
pub quiet-Touch : (es : List Event) (s : Port) → Inv es s → Touch es s unnoticed s
unfolding heard echoed
quiet-Touch es s i = record {
  key = 1;
  still_small = i.next_small;
  others = λ j q. (refl, refl, refl, refl);
  here = i.line 1;
  was = inl (no_wake (lookup 1 s.contexts) (lookup 1 s.pending) (i.line 1));
}
  where
    no_wake :
        (c : Option ClientContext) (op : Option Operation)
        → Line 1 (heard 1 es) (echoed 1 es) c op
        → c ≡ none
    no_wake none op l = refl
    no_wake (some c) none l = absurd ((l.0).no_wake refl)
    no_wake (some c) (some op) l = absurd ((l.0).no_wake refl)
