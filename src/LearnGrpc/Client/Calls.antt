-- ===== src/LearnGrpc/Client/Calls.antt =====
-- The accounts of a streaming call: which operations it may have pending, with its semaphore.
use cpp_programming.Base.{
  ℕ, ◌+◌, ◌-◌, ◌≤◌, ◌<◌, ◌≡◌, refl, ap, subst, inl, inr, Bool, true, false, List, [], ◌∷◌, ◌++◌,
  arith, ◌==◌, Bool-cases, All,
}
use cpp_programming.Base.Actions.{gives}
use cpp_programming.Base.Actions.{Gives}
use cpp_programming.LearnGrpc.Event.{half, get_key, get_opt}
use cpp_programming.LearnGrpc.Client.{
  Kind, unary, listen, speak, talk, Operation, start_call, finish_call, read, writes_done, write,
  Pending, Call, release, acquire,
}

abbrev pub one : Bool → ℕ
one true = 1
one false = 0

abbrev pub opt_of : Operation → ℕ
opt_of start_call = 0
opt_of finish_call = 1
opt_of read = 2
opt_of (write t) = 3
opt_of writes_done = 4

-- What an operation takes of the one place that a call has for reading, and of that for writing: 2
-- for an operation that a call of the kind never has.
abbrev pub reading : Kind → Operation → ℕ
reading unary op = 0
reading listen start_call = 1
reading listen read = 1
reading listen finish_call = 1
reading listen writes_done = 2
reading listen (write t) = 2
reading speak start_call = 0
reading speak read = 2
reading speak finish_call = 1
reading speak writes_done = 0
reading speak (write t) = 0
reading talk start_call = 1
reading talk read = 1
reading talk finish_call = 1
reading talk writes_done = 0
reading talk (write t) = 0

abbrev pub writing : Kind → Operation → ℕ
writing unary op = 0
writing listen op = 0
writing speak start_call = 1
writing speak read = 0
writing speak finish_call = 0
writing speak writes_done = 1
writing speak (write t) = 1
writing talk start_call = 1
writing talk read = 0
writing talk finish_call = 0
writing talk writes_done = 1
writing talk (write t) = 1

unfoldable pub tally : (Operation → ℕ) → List Pending → ℕ
tally f [] = 0
tally f (p ∷ ps) = f p.operation + tally f ps

abbrev pub Tagged : ℕ → Pending → Type 0
Tagged key p = (get_key p.token ≡ key) × (get_opt p.token ≡ opt_of p.operation)

-- The accounts, with so much that is owed to each place.
pub record Books (k : Kind) (a b : ℕ) (s : Call) : Type 0 where
  pub same_kind : s.kind ≡ k
  pub small : s.key < half
  pub tagged : All (Tagged s.key) s.pending
  pub reads : a + tally (reading k) s.pending + one s.finish ≡ 1
  pub writes : b + tally (writing k) s.pending + s.remaining + one s.closed ≡ 1

tally-append :
    (f : Operation → ℕ) (ps qs : List Pending) → tally f (ps ++ qs) ≡ tally f ps + tally f qs
unfolding tally
tally-append f [] qs = omega arith
tally-append f (p ∷ ps) qs = omega (arith, tally-append f ps qs)

tally-snoc :
    (f : Operation → ℕ) (ps : List Pending) (q : Pending)
    → tally f (ps ++ q ∷ []) ≡ tally f ps + f q.operation
unfolding tally
tally-snoc f ps q = omega (arith, tally-append f ps (q ∷ []))

tally-middle :
    (f : Operation → ℕ) (l r : List Pending) (p : Pending)
    → tally f (l ++ p ∷ r) ≡ f p.operation + tally f (l ++ r)
unfolding tally
tally-middle f l r p = omega (arith, tally-append f l (p ∷ r), tally-append f l r)

All-snoc :
    (key : ℕ) (ps : List Pending) (q : Pending)
    → All (Tagged key) ps
    → Tagged key q
    → All (Tagged key) (ps ++ q ∷ [])
All-snoc key [] q h t = (t, tt)
All-snoc key (p ∷ ps) q h t = (h.0, All-snoc key ps q h.1 t)

All-middle :
    (key : ℕ) (l r : List Pending) (p : Pending)
    → All (Tagged key) (l ++ p ∷ r)
    → Tagged key p × All (Tagged key) (l ++ r)
All-middle key [] r p h = (h.0, h.1)
All-middle key (q ∷ l) r p h = let (a, b) = All-middle key l r p h.1 in (a, (h.0, b))

-- An operation pays with its place.
pub post-Books :
    (k : Kind) (a b : ℕ) (s : Call) (q : Pending)
    → Tagged s.key q
    → Books k (reading k q.operation + a) (writing k q.operation + b) s
    → Books k a b (record s { pending = s.pending ++ q ∷ [] })
post-Books k a b s q t h = record {
  same_kind = h.same_kind;
  small = h.small;
  tagged = All-snoc s.key s.pending q h.tagged t;
  reads = omega (arith, h.reads, tally-snoc (reading k) s.pending q);
  writes = omega (arith, h.writes, tally-snoc (writing k) s.pending q);
}

pub finish-Books :
    (k : Kind) (b : ℕ) (s : Call) → Books k 1 b s → Books k 0 b (record s { finish = true })
finish-Books k b s h = record {
  same_kind = h.same_kind;
  small = h.small;
  tagged = h.tagged;
  reads = omega (arith, h.reads);
  writes = h.writes;
}

pub closed-Books :
    (k : Kind) (a : ℕ) (s : Call) → Books k a 1 s → Books k a 0 (record s { closed = true })
closed-Books k a s h = record {
  same_kind = h.same_kind;
  small = h.small;
  tagged = h.tagged;
  reads = h.reads;
  writes = omega (arith, h.writes);
}

pub release-Books :
    (k : Kind) (a : ℕ) (s : Call)
    → Books k a 1 s
    → (release s ≡ gives tt (record s { remaining = s.remaining + 1 }))
      × Books k a 0 (record s { remaining = s.remaining + 1 })
unfolding release
release-Books k a s h =
    let none_left : s.remaining ≡ 0 = omega (arith, h.writes) in
    let unequal : (s.remaining == 1) ≡ false = ground (arith, none_left) in
    (
      rw unequal refl,
      record {
        same_kind = h.same_kind;
        small = h.small;
        tagged = h.tagged;
        reads = h.reads;
        writes = omega (arith, h.writes);
      },
    )

pub acquire-Books :
    (k : Kind) (a : ℕ) (s : Call) → Books k a 0 s → Gives (λ _. Books k a 1) (acquire s)
unfolding acquire
acquire-Books k a s h = elim (Bool-cases (s.remaining == 0)) [
  | inl e ↦ rw e tt
  | inr e ↦
      let some_left : 1 ≤ s.remaining = ground (arith, e) in
      let paid : Books k a 1 (record s { remaining = s.remaining - 1 }) = record {
        same_kind = h.same_kind;
        small = h.small;
        tagged = h.tagged;
        reads = h.reads;
        writes = omega (arith, h.writes, some_left);
      } in
      rw e paid
]

-- An operation that gRPC gives back owes its place.
pub taken-Books :
    (k : Kind) (s : Call) (l r : List Pending) (p : Pending)
    → Books k 0 0 s
    → s.pending ≡ l ++ p ∷ r
    → Tagged s.key p
      × Books k (reading k p.operation) (writing k p.operation) (record s { pending = l ++ r })
taken-Books k s l r p h e =
    let (a, b) = All-middle s.key l r p (subst (All (Tagged s.key)) e h.tagged) in
    (
      a,
      record {
        same_kind = h.same_kind;
        small = h.small;
        tagged = b;
        reads = omega (arith, h.reads, ap (tally (reading k)) e, tally-middle (reading k) l r p);
        writes = omega (arith, h.writes, ap (tally (writing k)) e, tally-middle (writing k) l r p);
      },
    )
