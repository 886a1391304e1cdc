-- ===== src/LearnGrpc/Handlers/Talks.antt =====
-- server/async/event_handler/chat_event_handler.h, ChatTalkEventHandler: rounds of the loop of
-- `demultiplex` for the operation that a Talk has pending behind others.
use cpp_programming.Base.{
  ℕ, ◌<◌, ◌≡◌, refl, ap, ◌∙◌, subst, Bool, true, false, some, none, List, [], ◌∷◌, ◌++◌, arith,
  ◌==◌, if◌then◌else◌, ==_refl, Option,
}
use cpp_programming.Base.Actions.{gives, and_then, when}
use cpp_programming.Base.Maps.{Dict, lookup, insert, lookup-insert, lookup-erase}
use cpp_programming.Text.{Text}
use cpp_programming.LearnGrpc.Event.{half, get_key, get_opt, get_key-set_opt, get_opt-set_opt}
use cpp_programming.LearnGrpc.Registry.{remove}
use cpp_programming.LearnGrpc.Handlers.{
  talk, Message, Handler, Status, ok_status, cancelled, Operation, write, read, finish_call,
  Pending, Proactor, finished, talk_process, process, fill, drop_handler, conclude, work, handle,
}
use cpp_programming.LearnGrpc.Handlers.Reactions.{with_pending, pending_at}

-- The map has a handler of a Talk at this key, which is not done.
pub record Talking (key : ℕ) (h : Handler) (m : Dict Handler) : Type 0 where
  pub registered : lookup key m ≡ some h
  pub is_talk : h.kind ≡ talk
  pub waiting : h.finish ≡ false

abbrev pub only : Proactor → List Pending → Proactor
only s l = record s { pending = l }

-- The handler goes back into the map; one that is done then leaves it.
abbrev stored : ℕ → Handler → Proactor → Proactor
stored key h s = record s {
  registry = record s.registry { handlers = insert key h s.registry.handlers };
}

abbrev dropped : ℕ → Proactor → Proactor
dropped key s = record s { registry = remove key s.registry }

handle-work :
    (b : Bool) (m : Message) (p : Pending) (s : Proactor) (h h' : Handler) (t : Proactor)
    → Talking (get_key p.token) h s.registry.handlers
    → talk_process b p.token (fill p.operation m h) s ≡ gives h' t
    → handle b m p s ≡ conclude (get_key p.token) h' t
unfolding handle process
handle-work b m p s h h' t w e =
    ap (λ o. work b m p o s) w.registered
    ∙ ap (λ k. and_then (process k b p.token (fill p.operation m h) s) (conclude (get_key p.token)))
        w.is_talk
    ∙ ap (λ r. and_then r (conclude (get_key p.token))) e

-- A handler that posts one more operation stays in the map.
pub handle-posts :
    (b : Bool) (m : Message) (p q : Pending) (s : Proactor) (l : List Pending) (h h' : Handler)
    → Talking (get_key p.token) h s.registry.handlers
    → talk_process b p.token (fill p.operation m h) (only s l)
      ≡ gives h' (with_pending (only s l) q)
    → h'.kind ≡ talk
    → h'.finish ≡ false
    → get_key q.token ≡ get_key p.token
    → (t : Proactor) × (handle b m p (only s l) ≡ gives tt t)
      × (t.pending ≡ l ++ q ∷ [])
      × Talking (get_key q.token) h' t.registry.handlers
handle-posts b m p q s l h h' w e k f c =
    let key = get_key p.token in
    let work : handle b m p (only s l) ≡ conclude key h' (with_pending (only s l) q) =
      handle-work b m p (only s l) h h' (with_pending (only s l) q)
        (record { registered = w.registered; is_talk = w.is_talk; waiting = w.waiting }) e in
    (
      stored key h' (with_pending (only s l) q),
      work ∙ ap (λ x. when x (drop_handler key) (stored key h' (with_pending (only s l) q))) f,
      refl,
      record {
        registered =
            ap (λ j. lookup j (insert key h' s.registry.handlers)) c
            ∙ lookup-insert key key h' s.registry.handlers
            ∙ own key h' (lookup key s.registry.handlers);
        is_talk = k;
        waiting = f;
      },
    )
  where
    own : (k : ℕ) (x : Handler) (o : Option Handler) → (if k == k then some x else o) ≡ some x
    own k x o = rw (==_refl k) refl

-- One that is done leaves it.
pub handle-ends :
    (b : Bool) (m : Message) (p : Pending) (s : Proactor) (l : List Pending) (h h' : Handler)
    → Talking (get_key p.token) h s.registry.handlers
    → talk_process b p.token (fill p.operation m h) (only s l) ≡ gives h' (only s l)
    → h'.finish ≡ true
    → (t : Proactor) × (handle b m p (only s l) ≡ gives tt t)
      × (t.pending ≡ l)
      × (lookup (get_key p.token) t.registry.handlers ≡ none)
unfolding remove
handle-ends b m p s l h h' w e f =
    let key = get_key p.token in
    let left = insert key h' s.registry.handlers in
    (
      dropped key (stored key h' (only s l)),
      handle-work b m p (only s l) h h' (only s l)
            (record { registered = w.registered; is_talk = w.is_talk; waiting = w.waiting }) e
          ∙ ap (λ x. when x (drop_handler key) (stored key h' (only s l))) f,
      refl,
      lookup-erase key key left ∙ own key (lookup key left),
    )
  where
    own : (k : ℕ) (o : Option Handler) → (if k == k then none else o) ≡ none
    own k o = rw (==_refl k) refl

-- An operation that a Talk has pending behind others, and under which option.
pub record Waits (op : Operation) (o : ℕ) (h : Handler) (l : List Pending) (s : Proactor)
    : Type 0 where
  pub last : Pending
  pub behind : s.pending ≡ l ++ last ∷ []
  pub operation : last.operation ≡ op
  pub option : get_opt last.token ≡ o
  pub talking : Talking (get_key last.token) h s.registry.handlers

-- After the round for that operation another one of the call is pending in its place.
abbrev pub Goes :
    (b : Bool) (m : Message) (l : List Pending) (s : Proactor) (p : Pending) (op : Operation)
    (o : ℕ) (h : Handler)
    → Type 0
Goes b m l s p op o h =
    (t : Proactor) × (handle b m p (only s l) ≡ gives tt t)
    × (w : Waits op o h l t) × (get_key w.last.token ≡ get_key p.token)

module _ {op : Operation} {o : ℕ} {h : Handler} {l : List Pending} {s : Proactor} where
  posts-Goes :
      (v : Waits op o h l s) (b : Bool) (m : Message) (h' : Handler) (q : Pending)
      → talk_process b v.last.token (fill op m h) (only s l) ≡ gives h' (with_pending (only s l) q)
      → h'.kind ≡ talk
      → h'.finish ≡ false
      → get_key q.token ≡ get_key v.last.token
      → Goes b m l s v.last q.operation (get_opt q.token) h'
  posts-Goes v b m h' q e k f c =
      let e' = ap (λ x. talk_process b v.last.token (fill x m h) (only s l)) v.operation ∙ e in
      let (t, a, d, g) = handle-posts b m v.last q s l h h' v.talking e' k f c in
      (t, a, record { last = q; behind = d; operation = refl; option = refl; talking = g }, c)

  posts_at-Goes :
      (v : Waits op o h l s) (b : Bool) (m : Message) (h' : Handler) (op' : Operation) (o' : ℕ)
      → o' < half
      → talk_process b v.last.token (fill op m h) (only s l)
        ≡ gives h' (with_pending (only s l) (pending_at v.last.token o' op'))
      → h'.kind ≡ talk
      → h'.finish ≡ false
      → Goes b m l s v.last op' o' h'
  posts_at-Goes v b m h' op' o' small e k f =
      subst (λ x. Goes b m l s v.last op' x h') (get_opt-set_opt o' v.last.token small)
        (posts-Goes v b m h' (pending_at v.last.token o' op') e k f
          (get_key-set_opt o' v.last.token))

module _ {h : Handler} {l : List Pending} {s : Proactor} where
  -- A read that goes well is answered by a write of what was read; one that does not, by the end.
  pub read-Goes :
      (v : Waits read 4 h l s) (m : Message)
      → Goes true m l s v.last (write m.content) 3 (record h { request = m })
  unfolding talk_process
  read-Goes v m =
      posts_at-Goes v true m (record h { request = m }) (write m.content) 3 (omega arith)
        (rw (v.option, talk_process) refl) v.talking.is_talk v.talking.waiting

  pub read-ends :
      (v : Waits read 4 h l s) (m : Message)
      → Goes false m l s v.last (finish_call ok_status) 2 (record h { request = m })
  unfolding talk_process
  read-ends v m =
      posts_at-Goes v false m (record h { request = m }) (finish_call ok_status) 2 (omega arith)
        (rw (v.option, talk_process) refl) v.talking.is_talk v.talking.waiting

  pub write-Goes :
      (t : Text) (v : Waits (write t) 3 h l s) (m : Message) → Goes true m l s v.last read 4 h
  unfolding talk_process
  write-Goes t v m =
      posts_at-Goes v true m h read 4 (omega arith) (rw (v.option, talk_process) refl)
        v.talking.is_talk v.talking.waiting

  pub write-fails :
      (t : Text) (v : Waits (write t) 3 h l s) (m : Message)
      → Goes false m l s v.last (finish_call cancelled) 3 h
  unfolding talk_process
  write-fails t v m =
      subst (λ x. Goes false m l s v.last (finish_call cancelled) x h) v.option
        (posts-Goes v false m h (record { token = v.last.token; operation = finish_call cancelled })
          (rw (v.option, talk_process) refl) v.talking.is_talk v.talking.waiting refl)

  pub cancelled-Goes :
      (v : Waits (finish_call cancelled) 3 h l s) (m : Message) → Goes true m l s v.last read 4 h
  unfolding talk_process
  cancelled-Goes v m =
      posts_at-Goes v true m h read 4 (omega arith) (rw (v.option, talk_process) refl)
        v.talking.is_talk v.talking.waiting

  pub finish-ends :
      (x : Status) (v : Waits (finish_call x) 2 h l s) (b : Bool) (m : Message)
      → (t : Proactor) × (handle b m v.last (only s l) ≡ gives tt t)
        × (t.pending ≡ l)
        × (lookup (get_key v.last.token) t.registry.handlers ≡ none)
  unfolding talk_process
  finish-ends x v b m =
      handle-ends b m v.last s l h (finished h) v.talking
        (ap (λ y. talk_process b v.last.token (fill y m h) (only s l)) v.operation
          ∙ rw (v.option, talk_process) refl)
        refl

-- A write of a Talk, under its own option, fails, and the Finish with CANCELLED that its round asks
-- for goes well: in two rounds of the loop, whatever else is pending before it. Then a read of the
-- call, which has ended, is pending in its place under its key, and its handler is still in the
-- registry, not done.
pub cancelled_talk_reads :
    (t : Text) (h : Handler) (l : List Pending) (s : Proactor) (v : Waits (write t) 3 h l s)
    (m n : Message)
    → (u : Proactor) × (w : Waits (finish_call cancelled) 3 h l u) × (x : Proactor) × (handle false
          m v.last
          (record s { pending = l })
        ≡ gives tt u)
      × (handle true n w.last (record u { pending = l }) ≡ gives tt x)
      × (z : Waits read 4 h l x) × (get_key z.last.token ≡ get_key v.last.token)
cancelled_talk_reads t h l s v m n =
    let (u, e, w, a) = write-fails t v m in
    let (x, f, z, b) = cancelled-Goes w n in (u, w, x, e, f, z, b ∙ a)
