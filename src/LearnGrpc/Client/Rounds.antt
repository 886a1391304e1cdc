-- ===== src/LearnGrpc/Client/Rounds.antt =====
-- The rounds of the client keep the accounts of a call.
use cpp_programming.Base.{
  ℕ, ◌+◌, ◌<◌, ◌≡◌, refl, ap, ◌∙◌, Bool, true, false, [], ◌∷◌, ◌++◌, arith, ==_refl,
}
use cpp_programming.Base.Actions.{Reply, gives, and_then, ◌>>◌}
use cpp_programming.LearnGrpc.Event.{
  Event, half, get_key, get_opt, set_opt, get_key-set_opt, get_opt-set_opt,
}
use cpp_programming.LearnGrpc.Client.Calls.{
  opt_of, reading, writing, Tagged, Books, post-Books, finish-Books, closed-Books, release-Books,
}
use cpp_programming.LearnGrpc.Client.{
  Kind, listen, speak, talk, Operation, start_call, finish_call, read, writes_done, write, Pending,
  Call, Act, release, check_key, listen_switch, listen_process, speak_switch, speak_process,
  talk_switch, talk_process,
}

-- The function returns with balanced accounts.
abbrev pub Balances : Kind → Reply Call (Unit {0}) → Call → Type 0
Balances k f s = (t : Call) × (f ≡ gives tt t) × Books k 0 0 t × (t.registered ≡ s.registered)

-- The event is one of this call.
abbrev pub Owns : Call → Event → ℕ → Type 0
Owns s e o = (get_key e ≡ s.key) × (get_opt e ≡ o)

marked : (s : Call) (e : Event) (o n : ℕ) → Owns s e o → n < half → Owns s (set_opt n e) n
marked s e o n w h = (get_key-set_opt n e ∙ w.0, get_opt-set_opt n e h)

check_key-Owns : (s : Call) (e : Event) (o : ℕ) → Owns s e o → check_key e s ≡ gives tt s
check_key-Owns s e o w = rw (w.0, ==_refl s.key) refl

-- The function behind the check of the key, for the option that the event has.
checked :
    (k : Kind) (switch : ℕ → Act (Unit {0})) (s : Call) (e : Event) (o : ℕ)
    → Owns s e o
    → Balances k (switch o s) s
    → Balances k ((do check_key e; switch (get_opt e)) s) s
checked k switch s e o w (t, q, b, r) = (
  t,
  ap (λ x. and_then x (λ _. switch (get_opt e))) (check_key-Owns s e o w)
      ∙ ap (λ n. switch n s) w.1
      ∙ q,
  b,
  r,
)

abbrev at : ℕ → Operation → Event → Pending
at n op e = record { token = set_opt n e; operation = op }

-- The four things that a branch may do.
posts :
    (k : Kind) (f : Reply Call (Unit {0})) (s : Call) (q : Pending)
    → f ≡ gives tt (record s { pending = s.pending ++ q ∷ [] })
    → Tagged s.key q
    → Books k (reading k q.operation) (writing k q.operation) s
    → Balances k f s
posts k f s q e t h =
    let h' : Books k (reading k q.operation + 0) (writing k q.operation + 0) s = record {
      same_kind = h.same_kind;
      small = h.small;
      tagged = h.tagged;
      reads = omega (arith, h.reads);
      writes = omega (arith, h.writes);
    } in
    (_, e, post-Books k 0 0 s q t h', refl)

finishes :
    (k : Kind) (f : Reply Call (Unit {0})) (s : Call)
    → f ≡ gives tt (record s { finish = true })
    → Books k 1 0 s
    → Balances k f s
finishes k f s e h = (_, e, finish-Books k 0 s h, refl)

closes :
    (k : Kind) (f : Reply Call (Unit {0})) (s : Call)
    → f ≡ gives tt (record s { closed = true })
    → Books k 0 1 s
    → Balances k f s
closes k f s e h = (_, e, closed-Books k 0 s h, refl)

releases :
    (k : Kind) (f : Reply Call (Unit {0})) (s : Call)
    → f ≡ release s
    → Books k 0 1 s
    → Balances k f s
releases k f s e h = let (q, b) = release-Books k 0 s h in (_, e ∙ q, b, refl)

started :
    (k : Kind) (s t : Call) → t.registered ≡ s.registered → Books k 0 1 t → Balances k (release t) s
started k s t e h = let (q, b) = release-Books k 0 t h in (_, q, b, e)

pub listen-Balances :
    (op : Operation) (is_ok : Bool) (e : Event) (s : Call)
    → Books listen (reading listen op) (writing listen op) s
    → Owns s e (opt_of op)
    → Balances listen (listen_process is_ok e s) s
unfolding listen_process listen_switch
listen-Balances start_call true e s h w =
    checked listen (λ o. listen_switch true o e) s e 0 w
      (posts listen _ s (at 2 read e) refl (marked s e 0 2 w (omega arith)) h)
listen-Balances start_call false e s h w =
    checked listen (λ o. listen_switch false o e) s e 0 w (finishes listen _ s refl h)
listen-Balances read true e s h w =
    checked listen (λ o. listen_switch true o e) s e 2 w
      (posts listen _ s (record { token = e; operation = read }) refl w h)
listen-Balances read false e s h w =
    checked listen (λ o. listen_switch false o e) s e 2 w
      (posts listen _ s (at 1 finish_call e) refl (marked s e 2 1 w (omega arith)) h)
listen-Balances finish_call is_ok e s h w =
    checked listen (λ o. listen_switch is_ok o e) s e 1 w (finishes listen _ s refl h)
listen-Balances writes_done is_ok e s h w = absurd (omega (arith, h.reads))
listen-Balances (write t) is_ok e s h w = absurd (omega (arith, h.reads))

pub speak-Balances :
    (op : Operation) (is_ok : Bool) (e : Event) (s : Call)
    → Books speak (reading speak op) (writing speak op) s
    → Owns s e (opt_of op)
    → Balances speak (speak_process is_ok e s) s
unfolding speak_process speak_switch
speak-Balances start_call is_ok e s h w =
    checked speak (λ o. speak_switch is_ok o e) s e 0 w (releases speak _ s refl h)
speak-Balances read is_ok e s h w = absurd (omega (arith, h.reads))
speak-Balances finish_call is_ok e s h w =
    checked speak (λ o. speak_switch is_ok o e) s e 1 w (finishes speak _ s refl h)
speak-Balances writes_done is_ok e s h w =
    checked speak (λ o. speak_switch is_ok o e) s e 4 w (closes speak _ s refl h)
speak-Balances (write t) is_ok e s h w =
    checked speak (λ o. speak_switch is_ok o e) s e 3 w (releases speak _ s refl h)

pub talk-Balances :
    (op : Operation) (is_ok : Bool) (e : Event) (s : Call)
    → Books talk (reading talk op) (writing talk op) s
    → Owns s e (opt_of op)
    → Balances talk (talk_process is_ok e s) s
unfolding talk_process talk_switch
talk-Balances start_call true e s h w =
    checked talk (λ o. talk_switch true o e) s e 0 w
      (started talk s (record s { pending = s.pending ++ at 2 read e ∷ [] }) refl
        (post-Books talk 0 1 s (at 2 read e) (marked s e 0 2 w (omega arith)) h))
talk-Balances start_call false e s h w =
    checked talk (λ o. talk_switch false o e) s e 0 w
      (started talk s (record s { finish = true }) refl (finish-Books talk 1 s h))
talk-Balances read true e s h w =
    checked talk (λ o. talk_switch true o e) s e 2 w
      (posts talk _ s (record { token = e; operation = read }) refl w h)
talk-Balances read false e s h w =
    checked talk (λ o. talk_switch false o e) s e 2 w
      (posts talk _ s (at 1 finish_call e) refl (marked s e 2 1 w (omega arith)) h)
talk-Balances finish_call is_ok e s h w =
    checked talk (λ o. talk_switch is_ok o e) s e 1 w (finishes talk _ s refl h)
talk-Balances writes_done is_ok e s h w =
    checked talk (λ o. talk_switch is_ok o e) s e 4 w (closes talk _ s refl h)
talk-Balances (write t) is_ok e s h w =
    checked talk (λ o. talk_switch is_ok o e) s e 3 w (releases talk _ s refl h)
