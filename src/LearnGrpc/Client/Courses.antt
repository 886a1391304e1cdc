-- ===== src/LearnGrpc/Client/Courses.antt =====
-- The runs of a streaming call of the client, by steps of gRPC and of the call's user.
use cpp_programming.Base.{
  ℕ, ◌+◌, ◌-◌, ◌<◌, ◌≡◌, refl, sym, ap, ◌∙◌, subst, ◌⊎◌, inl, inr, Bool, true, false, not, List, [],
  ◌∷◌, ◌++◌, arith, ◌==◌, blocked,
}
use cpp_programming.Base.Actions.{gives, raise, and_then, state_of}
use cpp_programming.Base.Actions.{Gives, Gives-bind, Gives-if}
use cpp_programming.Text.{Text}
use cpp_programming.LearnGrpc.Event.{
  half, of_key, get_key, get_opt, set_opt, get_key-set_opt, get_opt-set_opt, get_key-of_key,
}
use cpp_programming.LearnGrpc.Client.Calls.{
  one, opt_of, reading, writing, tally, Books, post-Books, acquire-Books,
}
use cpp_programming.LearnGrpc.Client.{
  Kind, unary, listen, speak, talk, Operation, writes_done, write, Pending, Call, post, acquire,
  is_complete, complete_round, new_call, listen_start, speak_start, talk_start, start,
  write_message, close,
}
use cpp_programming.LearnGrpc.Client.Lives.{streams, Inv, registered_or, round_lem}

-- SpeakCall and TalkCall have `write` and `close`.
abbrev pub has_writer : Kind → Bool
has_writer unary = false
has_writer listen = false
has_writer speak = true
has_writer talk = true

-- What may happen to a call: gRPC ends one of its operations, or its user writes or closes it.
pub data Step (s : Call) : Call → Type 0 where
  ended :
      (is_ok : Bool) (l r : List Pending) (p : Pending) (t : Call)
      → s.pending ≡ l ++ p ∷ r
      → complete_round is_ok p.token (record s { pending = l ++ r }) ≡ gives tt t
      → Step s t
  written :
      (text : Text) (t : Call)
      → has_writer s.kind ≡ true
      → write_message text s ≡ gives tt t
      → Step s t
  closing : (t : Call) → has_writer s.kind ≡ true → close s ≡ gives tt t → Step s t

pub data Reach (k : Kind) (key : ℕ) : Call → Type 0 where
  begun : (s : Call) → start k key (new_call k key) ≡ gives tt s → Reach k key s
  next : {s : Call} {t : Call} → Reach k key s → Step s t → Reach k key t

started_tag :
    (key n : ℕ)
    → key < half
    → n < half
    → (get_key (set_opt n (of_key key 0)) ≡ key) × (get_opt (set_opt n (of_key key 0)) ≡ n)
started_tag key n b h =
    (get_key-set_opt n (of_key key 0) ∙ get_key-of_key key 0 b, get_opt-set_opt n (of_key key 0) h)

start-Inv :
    (k : Kind) (key : ℕ)
    → streams k ≡ true
    → key < half
    → Gives (λ _. Inv k) (start k key (new_call k key))
unfolding listen_start speak_start talk_start acquire new_call tally
start-Inv unary key x b = cc
start-Inv listen key x b = record {
  books = record {
    same_kind = refl;
    small = b;
    tagged = (started_tag key 0 b (omega arith), tt);
    reads = refl;
    writes = refl;
  };
  known = refl;
}
start-Inv speak key x b = record {
  books = record {
    same_kind = refl;
    small = b;
    tagged = (
      started_tag key 0 b (omega arith),
      (
        (
          get_key-set_opt 1 (set_opt 0 (of_key key 0)) ∙ (started_tag key 0 b (omega arith)).0,
          get_opt-set_opt 1 (set_opt 0 (of_key key 0)) (omega arith),
        ),
        tt,
      ),
    );
    reads = refl;
    writes = refl;
  };
  known = refl;
}
start-Inv talk key x b = record {
  books = record {
    same_kind = refl;
    small = b;
    tagged = (started_tag key 0 b (omega arith), tt);
    reads = refl;
    writes = refl;
  };
  known = refl;
}

acquire_lem : (s : Call) → Gives (λ _ t. t ≡ record s { remaining = s.remaining - 1 }) (acquire s)
unfolding acquire
acquire_lem s =
    Gives-if (λ _ t. t ≡ record s { remaining = s.remaining - 1 }) (s.remaining == 0)
      (raise blocked) (λ t. gives tt (record t { remaining = t.remaining - 1 })) s tt refl

-- What the user asks for waits for the place for writing, and then takes it.
user-Inv :
    (k : Kind) (op : Operation) (n : ℕ) (s : Call)
    → reading k op ≡ 0
    → writing k op ≡ 1
    → opt_of op ≡ n
    → n < half
    → Inv k s
    → Gives (λ _. Inv k) (and_then (acquire s) (λ _. post op (set_opt n (of_key s.key 0))))
user-Inv k op n s r w o b i =
    Gives-bind (λ _. Inv k) (acquire s) (λ _. post op (set_opt n (of_key s.key 0)))
      (λ a t q.
        let same =
          subst (Gives (λ _ u. u ≡ record s { remaining = s.remaining - 1 })) q (acquire_lem s) in
        let h : Books k 0 1 t = subst (Gives (λ _. Books k 0 1)) q (acquire-Books k 0 s i.books) in
        let h' : Books k (reading k op + 0) (writing k op + 0) t = rw (r, w) h in
        let key_t : t.key ≡ s.key = ap (λ (u : Call). u.key) same in
        let tag = started_tag s.key n i.books.small b in
        record {
          books =
              post-Books k 0 0 t (record { token = set_opt n (of_key s.key 0); operation = op })
                (tag.0 ∙ sym key_t, tag.1 ∙ sym o) h';
          known =
              ap (λ (u : Call). u.registered) same
              ∙ i.known
              ∙ sym (ap (λ (u : Call). not (is_complete k u.finish u.closed)) same);
        })

written-Inv :
    (k : Kind) (s t : Call) (text : Text)
    → has_writer k ≡ true
    → Inv k s
    → write_message text s ≡ gives tt t
    → Inv k t
unfolding write_message
written-Inv unary s t text x i e = cc
written-Inv listen s t text x i e = cc
written-Inv speak s t text x i e =
    subst (Gives (λ _. Inv speak)) e
      (user-Inv speak (write text) 3 s refl refl refl (omega arith) i)
written-Inv talk s t text x i e =
    subst (Gives (λ _. Inv talk)) e (user-Inv talk (write text) 3 s refl refl refl (omega arith) i)

closing-Inv :
    (k : Kind) (s t : Call) → has_writer k ≡ true → Inv k s → close s ≡ gives tt t → Inv k t
unfolding close
closing-Inv unary s t x i e = cc
closing-Inv listen s t x i e = cc
closing-Inv speak s t x i e =
    subst (Gives (λ _. Inv speak)) e (user-Inv speak writes_done 4 s refl refl refl (omega arith) i)
closing-Inv talk s t x i e =
    subst (Gives (λ _. Inv talk)) e (user-Inv talk writes_done 4 s refl refl refl (omega arith) i)

finish_or :
    (k : Kind) (f c : Bool)
    → streams k ≡ true
    → 0 + 0 + one f ≡ 1
    → (k ≡ listen) ⊎ (c ≡ true)
    → not (is_complete k f c) ≡ false
finish_or k false c x e o = absurd (omega (arith, e))
finish_or unary true c x e o = cc
finish_or listen true c x e o = refl
finish_or speak true c x e (inl q) = cc
finish_or speak true c x e (inr q) = ap not q
finish_or talk true c x e (inl q) = cc
finish_or talk true c x e (inr q) = ap not q

module _ (k : Kind) (key : ℕ) (x : streams k ≡ true) (b : key < half) where
  Reach-Inv : (s : Call) → Reach k key s → Inv k s
  Reach-Inv s (begun t e) = subst (Gives (λ _. Inv k)) e (start-Inv k key x b)
  Reach-Inv s (next {s = u} w (ended is_ok l r p t e q)) =
      let (v, c, i) = round_lem k is_ok u l r p x (Reach-Inv u w) e in
      subst (Inv k) (ap state_of (sym c ∙ q)) i
  Reach-Inv s (next {s = u} w (written text t h e)) =
      let i = Reach-Inv u w in
      written-Inv k u t text (ap has_writer (sym i.books.same_kind) ∙ h) i e
  Reach-Inv s (next {s = u} w (closing t h e)) =
      let i = Reach-Inv u w in closing-Inv k u t (ap has_writer (sym i.books.same_kind) ∙ h) i e

  -- Whatever its user does, and in whatever order and with whatever outcome gRPC ends its operations,
  -- each round for an operation of a streaming call returns: the key is right, and no loop of
  -- `release` waits for another thread.
  pub complete_round-gives :
      (s : Call) (is_ok : Bool) (l r : List Pending) (p : Pending)
      → Reach k key s
      → s.pending ≡ l ++ p ∷ r
      → (t : Call) × (complete_round is_ok p.token (record s { pending = l ++ r }) ≡ gives tt t)
  complete_round-gives s is_ok l r p w e =
      let (t, c, i) = round_lem k is_ok s l r p x (Reach-Inv s w) e in (t, c)

  -- A streaming call that is out of the map has no operation pending: no event finds its key free or
  -- given to another call.
  pub removed_idle : (s : Call) → Reach k key s → s.registered ≡ false → s.pending ≡ []
  removed_idle s w e = elim (registered_or k s x (Reach-Inv s w)) [
    | inl g ↦ let no : true ≡ false = sym g ∙ e in cc
    | inr n ↦ n
  ]

  -- A streaming call with nothing pending, whose end of writing has ended if it is one that writes,
  -- is out of the map.
  pub idle_removed :
      (s : Call)
      → Reach k key s
      → s.pending ≡ []
      → (k ≡ listen) ⊎ (s.closed ≡ true)
      → s.registered ≡ false
  unfolding tally
  idle_removed s w e o =
      let i = Reach-Inv s w in
      i.known
      ∙ finish_or k s.finish s.closed x
          (subst (λ ps. 0 + tally (reading k) ps + one s.finish ≡ 1) e i.books.reads) o
