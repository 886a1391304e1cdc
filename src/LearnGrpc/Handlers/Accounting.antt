-- ===== src/LearnGrpc/Handlers/Accounting.antt =====
-- Each handler in the registry has one operation pending, and each operation that is pending has its
-- handler in the registry.
use cpp_programming.Base.{
  ℕ, ◌<◌, ◌≡◌, refl, sym, ap, ◌∙◌, subst, ◌≢◌, inl, inr, Bool, true, false, Option, none, some,
  List, [], ◌∷◌, ◌++◌, append-nil, arith, ◌==◌, if◌then◌else◌, ==_iff, ==_refl, Bool-cases, Result,
  ok, err,
}
use cpp_programming.Base.Actions.{Reply, gives, give, and_then, ◌>>=◌, state_of}
use cpp_programming.LearnGrpc.Event.{
  half, of_key, get_key, get_opt, set_opt, get_key-set_opt, get_opt-set_opt,
}
use cpp_programming.LearnGrpc.Handlers.{
  opt_receive, Kind, Handler, request_call, Pending, Proactor, new_handler, post, keep_added,
  register_handler,
}
use cpp_programming.Base.Maps.{Dict, lookup}
use cpp_programming.LearnGrpc.Event.{get_key-of_key}
use cpp_programming.LearnGrpc.Registry.{Registry, add}
use cpp_programming.LearnGrpc.Registry.Keys.{add-fresh}
use cpp_programming.LearnGrpc.Handlers.Reactions.{kind_code, expected}

-- The operations whose tokens have this key.
unfoldable pub for_key : ℕ → List Pending → List Pending
for_key k [] = []
for_key k (p ∷ ps) = let rest = for_key k ps in if get_key p.token == k then p ∷ rest else rest

for_key-append :
    (k : ℕ) (ps qs : List Pending) → for_key k (ps ++ qs) ≡ for_key k ps ++ for_key k qs
unfolding for_key
for_key-append k [] qs = refl
for_key-append k (p ∷ ps) qs = elim (Bool-cases (get_key p.token == k)) [
  | inl e ↦ rw (e, for_key-append k ps qs) refl
  | inr e ↦ rw (e, for_key-append k ps qs) refl
]

-- What is pending for a key, given the handler that has it.
abbrev pub Fits : Option Handler → List Pending → Type 0
Fits none ps = ps ≡ []
Fits (some h) ps =
    (p : Pending) × (ps ≡ p ∷ [])
    × (h.finish ≡ false)
    × (expected h.kind p.operation (get_opt p.token) ≡ true)

unfoldable pub Inv : Proactor → Type 0
Inv s = (k : ℕ) → Fits (lookup k s.registry.handlers) (for_key k s.pending)

-- The state while the handler with key `j` works on its event: it has nothing pending.
pub record Held (j : ℕ) (h : Handler) (s : Proactor) : Type 0 where
  pub own : lookup j s.registry.handlers ≡ some h
  pub none_left : for_key j s.pending ≡ []
  pub others :
      (k : ℕ) → (j == k) ≡ false → Fits (lookup k s.registry.handlers) (for_key k s.pending)

abbrev pub request_at : Kind → ℕ → Pending
request_at kind key = record {
  token = set_opt opt_receive (of_key key 0);
  operation = request_call kind;
}

-- What a registration does.
pub data Registered (kind : Kind) (s t : Proactor) : Type 0 where
  refused : s.stopped ≡ true → t ≡ s → Registered kind s t
  entered :
      (key : ℕ) (r : Registry Handler)
      → s.stopped ≡ false
      → lookup key s.registry.handlers ≡ none
      → key < half
      → ((j : ℕ)
          → lookup j r.handlers
            ≡ (if key == j then some (new_handler kind) else lookup j s.registry.handlers))
      → t ≡ record s { registry = r; pending = s.pending ++ request_at kind key ∷ [] }
      → Registered kind s t

the_state :
    (s t : Proactor) (r : Reply Proactor (Unit {0})) → r ≡ gives tt s → r ≡ gives tt t → s ≡ t
the_state s t r d e = ap state_of (sym d ∙ e)

added-Registered :
    (kind : Kind) (s t : Proactor) (o : Result (ℕ × Registry Handler))
    → s.stopped ≡ false
    → add (new_handler kind) s.registry ≡ o
    → and_then
        (keep_added s o)
        (λ key. post (request_call kind) (set_opt opt_receive (of_key key 0)))
      ≡ gives tt t
    → Registered kind s t
added-Registered kind s t (ok (key, r)) z a e =
    let (x, y, w) = add-fresh (new_handler kind) s.registry r key a in
    entered key r z x y w (sym (the_state _ t _ refl e))
added-Registered kind s t (err x) z a e = cc

register-Registered_if :
    (kind : Kind) (s t : Proactor) (b : Bool)
    → s.stopped ≡ b
    → (if b then give tt else (do
      key ← λ t. keep_added t (add (new_handler kind) t.registry)
      post (request_call kind) (set_opt opt_receive (of_key key 0))))
        s
      ≡ gives tt t
    → Registered kind s t
register-Registered_if kind s t true z e = refused z (sym (the_state s t (give tt s) refl e))
register-Registered_if kind s t false z e =
    added-Registered kind s t (add (new_handler kind) s.registry) z refl e

pub register-Registered :
    (kind : Kind) (s t : Proactor) → register_handler kind s ≡ gives tt t → Registered kind s t
unfolding register_handler
register-Registered kind s t e = register-Registered_if kind s t s.stopped refl e

-- What is pending for another key stays when an operation is added or taken out.
for_key-other :
    (k : ℕ) (p : Pending) (l r : List Pending)
    → (get_key p.token == k) ≡ false
    → for_key k (l ++ p ∷ r) ≡ for_key k (l ++ r)
unfolding for_key
for_key-other k p l r e = rw (for_key-append k l (p ∷ r), for_key-append k l r, e) refl

for_key-own :
    (k : ℕ) (p : Pending) (l r : List Pending)
    → (get_key p.token == k) ≡ true
    → for_key k (l ++ p ∷ r) ≡ for_key k l ++ p ∷ for_key k r
unfolding for_key
for_key-own k p l r e = rw (for_key-append k l (p ∷ r), e) refl

-- A list of one element has nothing around it.
only : (l r : List Pending) (p q : Pending) → l ++ p ∷ r ≡ q ∷ [] → (p ≡ q) × (l ++ r ≡ [])
only [] [] p q e = (cc, refl)
only [] (x ∷ r) p q e = cc
only (y ∷ []) r p q e = cc
only (y ∷ z ∷ l) r p q e = cc

not_empty : (l r : List Pending) (p : Pending) → l ++ p ∷ r ≢ []
not_empty [] r p e = cc
not_empty (x ∷ l) r p e = cc

pub taken_out :
    (s : Proactor) (l r : List Pending) (p : Pending) (o : Option Handler)
    → Inv s
    → s.pending ≡ l ++ p ∷ r
    → lookup (get_key p.token) s.registry.handlers ≡ o
    → (h : Handler) × (o ≡ some h)
      × (h.finish ≡ false)
      × (expected h.kind p.operation (get_opt p.token) ≡ true)
      × Held (get_key p.token) h (record s { pending = l ++ r })
unfolding Inv
taken_out s l r p none i e q =
    let k = get_key p.token in
    let f : Fits none (for_key k (l ++ p ∷ r)) = rw (q, e) at (i k) in
    absurd (not_empty (for_key k l) (for_key k r) p (sym (for_key-own k p l r (==_refl k)) ∙ f))
taken_out s l r p (some h) i e q =
    let k = get_key p.token in
    let f : Fits (some h) (for_key k (l ++ p ∷ r)) = rw (q, e) at (i k) in
    let (x, y, z, w) = f in
    let (u, v) = only (for_key k l) (for_key k r) p x (sym (for_key-own k p l r (==_refl k)) ∙ y) in
    (
      h,
      refl,
      z,
      subst (λ (n : Pending). expected h.kind n.operation (get_opt n.token) ≡ true) (sym u) w,
      record {
        own = q;
        none_left = for_key-append k l r ∙ v;
        others = λ j n.
            subst (Fits (lookup j s.registry.handlers)) (for_key-other j p l r n) (rw e at (i j));
      },
    )

pub request_at-key :
    (kind : Kind) (key : ℕ) → key < half → get_key (request_at kind key).token ≡ key
request_at-key kind key b = get_key-set_opt opt_receive (of_key key 0) ∙ get_key-of_key key 0 b

request_at-expected :
    (kind : Kind) (key : ℕ)
    → expected kind (request_call kind) (get_opt (request_at kind key).token) ≡ true
request_at-expected kind key =
    rw (get_opt-set_opt 1 (of_key key 0) (omega arith)) (==_refl (kind_code kind))

pub added_other :
    (k : ℕ) (p : Pending) (ps : List Pending)
    → (get_key p.token == k) ≡ false
    → for_key k ps ≡ for_key k (ps ++ p ∷ [])
added_other k p ps e = sym (for_key-other k p ps [] e ∙ ap (for_key k) (append-nil ps))

pub added_own :
    (k : ℕ) (p : Pending) (ps : List Pending)
    → (get_key p.token == k) ≡ true
    → for_key k ps ≡ []
    → for_key k (ps ++ p ∷ []) ≡ p ∷ []
unfolding for_key
added_own k p ps e n = for_key-own k p ps [] e ∙ ap (λ xs. xs ++ p ∷ []) n

-- A registration adds a handler with its request, and leaves the others.
pub entered-Fits :
    (kind : Kind) (key k : ℕ) (m m' : Dict Handler) (ps : List Pending)
    → key < half
    → lookup key m ≡ none
    → lookup k m' ≡ (if key == k then some (new_handler kind) else lookup k m)
    → Fits (lookup k m) (for_key k ps)
    → Fits (lookup k m') (for_key k (ps ++ request_at kind key ∷ []))
unfolding new_handler
entered-Fits kind key k m m' ps b n w f =
    let own = request_at-key kind key b in
    elim (Bool-cases (key == k)) [
      | inl e ↦
          let none_left : for_key k ps ≡ [] =
            subst (λ o. Fits o (for_key k ps)) (ap (λ j. lookup j m) (sym ((==_iff key k).0 e)) ∙ n)
              f in
          let found : lookup k m' ≡ some (new_handler kind) = rw e at w in
          subst (λ o. Fits o (for_key k (ps ++ request_at kind key ∷ []))) (sym found)
            (
              request_at kind key,
              added_own k (request_at kind key) ps (rw own e) none_left,
              refl,
              request_at-expected kind key,
            )
      | inr e ↦
          let found : lookup k m' ≡ lookup k m = rw e at w in
          subst (λ o. Fits o (for_key k (ps ++ request_at kind key ∷ []))) (sym found)
            (subst (Fits (lookup k m)) (added_other k (request_at kind key) ps (rw own e)) f)
    ]
