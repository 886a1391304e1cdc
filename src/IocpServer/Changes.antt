-- ===== src/IocpServer/Changes.antt =====
-- The keys that the steps of the port have to do with.
use cpp_programming.Base.{
  ℕ, ◌+◌, ◌≤◌, ◌≡◌, refl, sym, ap, ◌∙◌, subst, Option, none, some, ◌++◌, append-nil, arith, ◌==◌,
  if◌then◌else◌, ==_refl, length, take, drop, length-append, length-drop, take-length-append,
}
use cpp_programming.Base.Actions.{Reply}
use cpp_programming.Base.Maps.{lookup, insert, lookup-insert, lookup-erase}
use cpp_programming.Text.{Text}
use cpp_programming.IocpServer.Contexts.{ClientContext, Operation, sending, receiving, Port}
use cpp_programming.IocpServer.Port.{process, packet}
use cpp_programming.IocpServer.Steps.{slice, overwrite, finished, fill, received}
use cpp_programming.IocpServer.Lines.{Sets, Sets_then, if_same}
use cpp_programming.IocpServer.Completions.{
  IsValid, Expects, unsent, Line, Turns, process_arrived, process_departed,
}

-- The key of an operation has a context that expects it.
pub line_context :
    (id : ℕ) (h e : Text) (c : Option ClientContext) (op : Operation)
    → Line id h e c (some op)
    → (x : ClientContext) × (c ≡ some x) × IsValid id x × Expects x op × (e ++ unsent x op ≡ h)
line_context id h e none op l = absurd l
line_context id h e (some c) op l = (c, refl, l.0, l.1, l.2)

-- A key without a context has no operation.
pub line_none :
    (id : ℕ) (h e : Text) (c : Option ClientContext) (op : Option Operation)
    → Line id h e c op
    → c ≡ none
    → op ≡ none
line_none id h e none none l q = refl
line_none id h e none (some op) l q = absurd l
line_none id h e (some c) op l q = absurd cc

pub finished-Sets :
    (id : ℕ) (c : Option ClientContext) (s : Port)
    → lookup id s.contexts ≡ c
    → Sets id c none s (finished id s)
unfolding finished
finished-Sets id c s e = record {
  same_id = refl;
  context_at = if_same (λ k. lookup k s.contexts) c id e;
  pending_at = λ j. lookup-erase j id s.pending;
}

received_lem :
    (id off : ℕ) (bytes : Text) (c : ClientContext) (s : Port)
    → lookup id s.contexts ≡ some c
    → received id off bytes s
      ≡ record (finished id s) { contexts = insert id (overwrite off bytes c) s.contexts }
unfolding received finished
received_lem id off bytes c s e = ap (λ o. fill id off bytes o (finished id s)) e

received-Sets :
    (id off : ℕ) (bytes : Text) (c : ClientContext) (s : Port)
    → lookup id s.contexts ≡ some c
    → Sets id (some (overwrite off bytes c)) none s (received id off bytes s)
unfolding finished
received-Sets id off bytes c s e =
    subst (Sets id (some (overwrite off bytes c)) none s) (sym (received_lem id off bytes c s e))
      (record {
        same_id = refl;
        context_at = λ j. lookup-insert j id (overwrite off bytes c) s.contexts;
        pending_at = λ j. lookup-erase j id s.pending;
      })

if_here {ℓ} : {A : Type ℓ} (id : ℕ) (a b c : A) → a ≡ (if id == id then b else c) → a ≡ b
if_here id a b c e = e ∙ ap (λ x. if x then b else c) (==_refl id)

pub context_here :
    (id : ℕ) (c : Option ClientContext) (op : Option Operation) (s t : Port)
    → Sets id c op s t
    → lookup id t.contexts ≡ c
context_here id c op s t a =
    if_here id (lookup id t.contexts) c (lookup id s.contexts) (a.context_at id)

pub pending_here :
    (id : ℕ) (c : Option ClientContext) (op : Option Operation) (s t : Port)
    → Sets id c op s t
    → lookup id t.pending ≡ op
pending_here id c op s t a =
    if_here id (lookup id t.pending) op (lookup id s.pending) (a.pending_at id)

-- What a call does behind a change of the same key.
Turns-Sets :
    (id : ℕ) (h e : Text) (c : Option ClientContext) (op : Option Operation) (s t : Port)
    (r : Reply Port (Unit {0}))
    → Sets id c op s t
    → Turns id h e t r
    → Turns id h e s r
Turns-Sets id h e c op s t r a (u, q, c', op', b, l) =
    (u, q, c', op', Sets_then id c c' op op' s t u a b, l)

overwritten-IsValid :
    (id : ℕ) (bytes : Text) (c : ClientContext)
    → IsValid id c
    → length bytes ≤ 4096
    → IsValid id (overwrite 0 bytes c)
overwritten-IsValid id bytes c v b = record {
  has_id = v.has_id;
  no_wake = v.no_wake;
  small = v.small;
  full =
      length-append bytes (drop (0 + length bytes) c.buffer)
      ∙ omega (arith, length-drop (0 + length bytes) c.buffer, v.full, b);
}

pub arriving-Turns :
    (id off len : ℕ) (h e bytes : Text) (answer : Option ℕ) (s : Port)
    → Line id h e (lookup id s.contexts) (some (receiving off len))
    → length bytes ≤ len
    → Turns id
        (h ++ bytes)
        e
        s
        (process (packet id (length bytes)) answer (received id off bytes s))
arriving-Turns id off len h e bytes answer s l b =
    let (c, m, v, x, g) = line_context id h e (lookup id s.contexts) (receiving off len) l in
    let most : length bytes ≤ 4096 = omega (arith, x.2, b) in
    let w = overwrite 0 bytes c in
    subst
      (λ k.
        Turns id (h ++ bytes) e s
          (process (packet id (length bytes)) answer (received id k bytes s)))
      (sym x.1)
      (let a = received-Sets id 0 bytes c s m in
        let t = received id 0 bytes s in
        Turns-Sets id (h ++ bytes) e (some w) none s t _ a (
          process_arrived id h e bytes w answer t (overwritten-IsValid id bytes c v most) x.0
            (context_here id (some w) none s t a) (pending_here id (some w) none s t a) most
            (take-length-append bytes (drop (0 + length bytes) c.buffer)) (sym (append-nil e) ∙ g)))

pub departing-Turns :
    (id off len n : ℕ) (h e : Text) (c : ClientContext) (answer : Option ℕ) (s : Port)
    → Line id h e (lookup id s.contexts) (some (sending off len))
    → lookup id s.contexts ≡ some c
    → n ≤ len
    → Turns id h (e ++ take n (slice off len c)) s (process (packet id n) answer (finished id s))
departing-Turns id off len n h e c answer s l m b =
    let k = subst (λ o. Line id h e o (some (sending off len))) m l in
    let a = finished-Sets id (some c) s m in
    let t = finished id s in
    Turns-Sets id h (e ++ take n (slice off len c)) (some c) none s t _ a (
      process_departed id off n len h e c answer t k.0 k.1 (context_here id (some c) none s t a)
        (pending_here id (some c) none s t a) b k.2)
