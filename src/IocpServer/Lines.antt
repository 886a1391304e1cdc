-- ===== src/IocpServer/Lines.antt =====
-- What a call of the threads of the port does to the context of its key, and to the others.
use cpp_programming.Base.{
  ℕ, ◌≡◌, refl, sym, ap, ◌∙◌, subst, ◌⊎◌, inl, inr, Option, none, some, [], ◌∷◌, ◌++◌, arith, ◌==◌,
  if◌then◌else◌, ==_refl, Bool-cases,
}
use cpp_programming.Base.Actions.{gives, ◌>>◌}
use cpp_programming.Base.Maps.{lookup, insert, erase, lookup-insert, lookup-erase, has-none}
use cpp_programming.IocpServer.Contexts.{
  ClientContext, Operation, Port, remove_client_context, store, begin,
}
use cpp_programming.IocpServer.Port.{posted}

-- The context and the operation of one key become these, and those of the other keys stay.
pub record Sets (id : ℕ) (c : Option ClientContext) (op : Option Operation) (s t : Port)
    : Type 0 where
  pub same_id : t.next_id ≡ s.next_id
  pub context_at : (j : ℕ) → lookup j t.contexts ≡ (if id == j then c else lookup j s.contexts)
  pub pending_at : (j : ℕ) → lookup j t.pending ≡ (if id == j then op else lookup j s.pending)

if_over {ℓ} :
    {A : Type ℓ} (i j : ℕ) (a b c : A)
    → (if i == j then a else (if i == j then b else c)) ≡ (if i == j then a else c)
if_over i j a b c = ground arith

-- A second change of the same key hides the first.
pub Sets_then :
    (id : ℕ) (c c' : Option ClientContext) (op op' : Option Operation) (s t u : Port)
    → Sets id c op s t
    → Sets id c' op' t u
    → Sets id c' op' s u
Sets_then id c c' op op' s t u a b = record {
  same_id = b.same_id ∙ a.same_id;
  context_at = λ j.
      b.context_at j
      ∙ ap (λ x. if id == j then c' else x) (a.context_at j)
      ∙ if_over id j c' c (lookup j s.contexts);
  pending_at = λ j.
      b.pending_at j
      ∙ ap (λ x. if id == j then op' else x) (a.pending_at j)
      ∙ if_over id j op' op (lookup j s.pending);
}

pub Sets_key :
    (i j : ℕ) (c : Option ClientContext) (op : Option Operation) (s t : Port)
    → i ≡ j
    → Sets i c op s t
    → Sets j c op s t
Sets_key i j c op s t e h = subst (λ k. Sets k c op s t) e h

-- What stays as it is at a key.
pub if_same {ℓ} :
    {A : Type ℓ} (m : ℕ → A) (a : A) (id : ℕ)
    → m id ≡ a
    → (j : ℕ) → m j ≡ (if id == j then a else m j)
if_same m a id e j = elim (Bool-cases (id == j)) [
  | inl q ↦
      let k : id ≡ j = ground (arith, q) in
      ap m (sym k) ∙ e ∙ ap (λ b. if b then a else m j) (sym q)
  | inr q ↦ ap (λ b. if b then a else m j) (sym q)
]

begin_lem :
    (id : ℕ) (op : Operation) (s : Port)
    → lookup id s.pending ≡ none
    → begin id op s ≡ gives tt (record s { pending = insert id op s.pending })
unfolding begin
begin_lem id op s e = rw (begin, has-none id s.pending e) refl

pub remove_lem :
    (id : ℕ) (c : ClientContext) (s : Port)
    → lookup id s.contexts ≡ some c
    → (t : Port) × (remove_client_context id s ≡ gives tt t)
      × (t.next_id ≡ s.next_id)
      × (t.contexts ≡ erase id s.contexts)
      × (t.pending ≡ s.pending)
unfolding remove_client_context
remove_lem id c s e =
    let t = record s { contexts = erase id s.contexts; closed = s.closed ++ c.socket ∷ [] } in
    let r : remove_client_context id s ≡ gives tt t = rw (remove_client_context, e) refl in
    (t, r, refl, refl, refl)

-- A context that has no operation is removed.
pub remove-Sets :
    (id : ℕ) (c : ClientContext) (s : Port)
    → lookup id s.contexts ≡ some c
    → lookup id s.pending ≡ none
    → (t : Port) × (remove_client_context id s ≡ gives tt t) × Sets id none none s t
remove-Sets id c s e p =
    let (t, r, n, m, q) = remove_lem id c s e in
    (
      t,
      r,
      record {
        same_id = n;
        context_at = λ j. ap (lookup j) m ∙ lookup-erase j id s.contexts;
        pending_at = λ j. ap (lookup j) q ∙ if_same (λ k. lookup k s.pending) none id p j;
      },
    )

begun-Sets :
    (c : ClientContext) (op : Operation) (s : Port)
    → lookup c.id s.pending ≡ none
    → (t : Port) × ((do store c; begin c.id op) s ≡ gives tt t) × Sets c.id (some c) (some op) s t
unfolding store
begun-Sets c op s p = (
  record s { contexts = insert c.id c s.contexts; pending = insert c.id op s.pending },
  begin_lem c.id op (record s { contexts = insert c.id c s.contexts }) p,
  record {
    same_id = refl;
    context_at = λ j. lookup-insert j c.id c s.contexts;
    pending_at = λ j. lookup-insert j c.id op s.pending;
  },
)

stored_removed-Sets :
    (c : ClientContext) (s : Port)
    → lookup c.id s.pending ≡ none
    → (t : Port) × ((do store c; remove_client_context c.id) s ≡ gives tt t)
      × Sets c.id none none s t
unfolding store
stored_removed-Sets c s p =
    let u = record s { contexts = insert c.id c s.contexts } in
    let here : lookup c.id u.contexts ≡ some c =
      lookup-insert c.id c.id c s.contexts
      ∙ ap (λ b. if b then some c else lookup c.id s.contexts) (==_refl c.id) in
    let (t, r, h) = remove-Sets c.id c u here p in
    let put : Sets c.id (some c) none s u = record {
      same_id = refl;
      context_at = λ j. lookup-insert j c.id c s.contexts;
      pending_at = if_same (λ k. lookup k s.pending) none c.id p;
    } in
    (t, r, Sets_then c.id (some c) none none none s u t put h)

-- A context whose change is stored and whose next operation is posted has that operation, or is
-- removed.
pub posted-Sets :
    (c : ClientContext) (op : Operation) (answer : Option ℕ) (s : Port)
    → lookup c.id s.pending ≡ none
    → (t : Port) × ((do store c; posted c.id op answer) s ≡ gives tt t)
      × (Sets c.id (some c) (some op) s t ⊎ Sets c.id none none s t)
unfolding posted
posted-Sets c op none s p = let (t, r, h) = begun-Sets c op s p in (t, r, inl h)
posted-Sets c op (some code) s p = elim (Bool-cases (code == 997)) [
  | inl e ↦ let (t, r, h) = begun-Sets c op s p in (t, rw (posted, e) r, inl h)
  | inr e ↦ let (t, r, h) = stored_removed-Sets c s p in (t, rw (posted, e) r, inr h)
]
