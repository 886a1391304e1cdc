-- ===== src/LearnGrpc/Client/Lives.antt =====
-- A round for an operation of a streaming call of the client returns, and keeps the accounts.
use cpp_programming.Base.{
  ℕ, ◌+◌, ◌≤◌, ◌≡◌, refl, sym, ap, ◌∙◌, ◌≢◌, ◌⊎◌, inl, inr, Bool, true, false, ◌&&◌, not, List, [],
  ◌∷◌, ◌++◌, arith, if◌then◌else◌, Bool-cases,
}
use cpp_programming.Base.Actions.{gives, give, and_then, ◌>>◌}
use cpp_programming.LearnGrpc.Event.{Event}
use cpp_programming.LearnGrpc.Client.Calls.{
  one, opt_of, reading, writing, tally, Books, taken-Books,
}
use cpp_programming.LearnGrpc.Client.Rounds.{
  Balances, Owns, listen-Balances, speak-Balances, talk-Balances,
}
use cpp_programming.LearnGrpc.Client.{
  Kind, unary, listen, speak, talk, Operation, start_call, finish_call, read, writes_done, write,
  Pending, Call, process, is_complete, remove_complete, complete_round,
}

-- ListenCall, SpeakCall and TalkCall.
abbrev pub streams : Kind → Bool
streams unary = false
streams listen = true
streams speak = true
streams talk = true

process-Balances :
    (k : Kind) (op : Operation) (is_ok : Bool) (e : Event) (s : Call)
    → streams k ≡ true
    → Books k (reading k op) (writing k op) s
    → Owns s e (opt_of op)
    → Balances k (process k is_ok e s) s
unfolding process
process-Balances unary op is_ok e s x h w = cc
process-Balances listen op is_ok e s x h w = listen-Balances op is_ok e s h w
process-Balances speak op is_ok e s x h w = speak-Balances op is_ok e s h w
process-Balances talk op is_ok e s x h w = talk-Balances op is_ok e s h w

-- Each operation takes a place.
place : (k : Kind) (op : Operation) → streams k ≡ true → 1 ≤ reading k op + writing k op
place unary op x = cc
place listen start_call x = omega arith
place listen read x = omega arith
place listen finish_call x = omega arith
place listen writes_done x = omega arith
place listen (write t) x = omega arith
place speak start_call x = omega arith
place speak read x = omega arith
place speak finish_call x = omega arith
place speak writes_done x = omega arith
place speak (write t) x = omega arith
place talk start_call x = omega arith
place talk read x = omega arith
place talk finish_call x = omega arith
place talk writes_done x = omega arith
place talk (write t) x = omega arith

full_places :
    (k : Kind) (op : Operation) (f c : Bool) (a b r : ℕ)
    → streams k ≡ true
    → is_complete k f c ≡ true
    → reading k op + a + one f ≡ 1
    → (writing k op + b) + r + one c ≡ 1
    → true ≡ false
full_places unary op f c a b r x d e g = cc
full_places listen op true c a b r x d e g = absurd (omega (arith, place listen op x))
full_places listen op false c a b r x d e g = cc
full_places speak op true true a b r x d e g = absurd (omega (arith, place speak op x))
full_places speak op true false a b r x d e g = cc
full_places speak op false c a b r x d e g = cc
full_places talk op true true a b r x d e g = absurd (omega (arith, place talk op x))
full_places talk op true false a b r x d e g = cc
full_places talk op false c a b r x d e g = cc

none_pending :
    (k : Kind) (ps : List Pending) (f c : Bool) (r : ℕ)
    → streams k ≡ true
    → is_complete k f c ≡ true
    → 0 + tally (reading k) ps + one f ≡ 1
    → 0 + tally (writing k) ps + r + one c ≡ 1
    → ps ≡ []
unfolding tally
none_pending k [] f c r x d e g = refl
none_pending k (p ∷ ps) f c r x d e g =
    let no : true ≡ false =
      full_places k p.operation f c (tally (reading k) ps) (tally (writing k) ps) r x d
        (omega (arith, e)) (omega (arith, g)) in
    cc

-- A call is in the map until it is complete.
pub record Inv (k : Kind) (s : Call) : Type 0 where
  pub books : Books k 0 0 s
  pub known : s.registered ≡ not (is_complete k s.finish s.closed)

pub registered_or :
    (k : Kind) (s : Call) → streams k ≡ true → Inv k s → (s.registered ≡ true) ⊎ (s.pending ≡ [])
registered_or k s x i = elim (Bool-cases s.registered) [
  | inl e ↦ inl e
  | inr e ↦ inr (
      none_pending k s.pending s.finish s.closed s.remaining x (ground (arith, i.known, e))
        i.books.reads i.books.writes)
]

not_empty : (l r : List Pending) (p : Pending) → l ++ p ∷ r ≢ []
not_empty [] r p e = cc
not_empty (x ∷ l) r p e = cc

complete_round-true :
    (k : Kind) (is_ok : Bool) (e : Event) (s t : Call)
    → s.registered ≡ true
    → s.kind ≡ k
    → process k is_ok e s ≡ gives tt t
    → complete_round is_ok e s ≡ remove_complete t
unfolding complete_round
complete_round-true k is_ok e s t r q c =
    ap (λ b. (if b then (do process s.kind is_ok e; remove_complete) else give tt) s) r
    ∙ ap (λ j. and_then (process j is_ok e s) (λ _. remove_complete)) q
    ∙ ap (λ x. and_then x (λ _. remove_complete)) c

and_true : (b c : Bool) → c ≡ true → b && c ≡ b
and_true true c e = e
and_true false c e = refl

-- A round for an operation of the call returns.
pub round_lem :
    (k : Kind) (is_ok : Bool) (s : Call) (l r : List Pending) (p : Pending)
    → streams k ≡ true
    → Inv k s
    → s.pending ≡ l ++ p ∷ r
    → (t : Call) × (complete_round is_ok p.token (record s { pending = l ++ r }) ≡ gives tt t)
      × Inv k t
round_lem k is_ok s l r p x i e = elim (registered_or k s x i) [
  | inr n ↦ absurd (not_empty l r p (sym e ∙ n))
  | inl g ↦
      let (w, h) = taken-Books k s l r p i.books e in
      let s0 = record s { pending = l ++ r } in
      let (t, q, b, n) = process-Balances k p.operation is_ok p.token s0 x h w in
      let kind_t : t.kind ≡ k = b.same_kind in
      (
        record t { registered = not (is_complete t.kind t.finish t.closed) && t.registered },
        complete_round-true k is_ok p.token s0 t g i.books.same_kind q,
        record {
          books = record {
            same_kind = b.same_kind;
            small = b.small;
            tagged = b.tagged;
            reads = b.reads;
            writes = b.writes;
          };
          known =
              and_true _ t.registered (n ∙ g)
              ∙ ap (λ j. not (is_complete j t.finish t.closed)) kind_t;
        },
      )
]
