-- ===== src/EpollServer/Release.antt =====
-- The release of the epoll server's connections.
use cpp_programming.Base.{
  ℕ, zero, suc, ◌≤◌, ◌≡◌, refl, sym, ap, ◌∙◌, subst, inl, inr, true, false, none, some, List, [],
  ◌∷◌, ◌++◌, arith, ==_refl, Option-cases, length, out_of_fuel,
}
use cpp_programming.Base.Actions.{gives, raise, and_then, ◌>>◌}
use cpp_programming.Base.Actions.{Gives}
use cpp_programming.Base.Maps.{Dict, lookup, erase, lookup-erase, has-some}
use cpp_programming.EpollServer.State.{
  Session, Effect, unwatch, close_fd, World, Act, answered, call, close_conn,
}
use cpp_programming.EpollServer.Sessions.{
  release_session, session_close, store_back, with_session, time_to_exit,
}
use cpp_programming.EpollServer.Loop.{release_rest, release_loop, release}
use cpp_programming.EpollServer.Links.{Inv}
use cpp_programming.EpollServer.Upkeep.{Upkeep, store_back-none, time_to_exit-Upkeep}

-- The kernel refuses no call.
abbrev pub Answers : World → Type 0
Answers s = (es : List Effect) → s.answers es ≡ none

call-Answers :
    (e : Effect) (s : World)
    → Answers s
    → call e s ≡ gives tt (record s { effects = s.effects ++ e ∷ [] })
call-Answers e s a =
    ap (λ o. answered o (record s { effects = s.effects ++ e ∷ [] })) (a (s.effects ++ e ∷ []))

close_conn-Answers :
    (fd : ℕ) (s : World)
    → Answers s
    → (es : List Effect) × (close_conn fd s
        ≡ gives tt (record s { conns = erase fd s.conns; effects = es }))
unfolding close_conn
close_conn-Answers fd s a =
    let s1 = record s { effects = s.effects ++ unwatch fd ∷ [] } in
    (
      (s.effects ++ unwatch fd ∷ []) ++ close_fd fd ∷ [],
      rw (call-Answers (unwatch fd) s a, call-Answers (close_fd fd) s1 a) refl,
    )

release_session-has :
    (id : ℕ) (x : Session) (s : World)
    → lookup id s.sessions ≡ some x
    → release_session id s ≡ gives tt (record s { sessions = erase id s.sessions })
unfolding release_session
release_session-has id x s e = rw (has-some id s.sessions x e) refl

session_close-Answers :
    (x : Session) (s : World)
    → Answers s
    → x.is_closed ≡ false
    → lookup x.id s.sessions ≡ some x
    → (es : List Effect) × (session_close x s
        ≡ gives
            (record x { is_closed = true })
            (record s {
              conns = erase x.fd s.conns;
              sessions = erase x.id s.sessions;
              effects = es;
            }))
unfolding session_close
session_close-Answers x s a c e =
    let (es, q) = close_conn-Answers x.fd s a in
    (
      es,
      rw
          (
            c,
            q,
            release_session-has x.id x (record s { conns = erase x.fd s.conns; effects = es }) e,
          )
          refl,
    )

with_session-some :
    (id : ℕ) (f : Session → Act Session) (x y : Session) (s t : World)
    → lookup id s.sessions ≡ some x
    → f x s ≡ gives y t
    → with_session id f s ≡ store_back id y t
unfolding with_session
with_session-some id f x y s t e q = rw (has-some id s.sessions x e, e, q) refl

-- One round of the loop of Release.
time_to_exit-Answers :
    (fd id : ℕ) (s : World)
    → Inv s
    → Answers s
    → lookup fd s.conns ≡ some id
    → (t : World) × (time_to_exit id s ≡ gives tt t)
      × (t.conns ≡ erase fd s.conns)
      × Inv t
      × Answers t
unfolding time_to_exit
time_to_exit-Answers fd id s i a e =
    let (x, f, r) = i.conn_has fd id e in
    let f' : lookup x.id s.sessions ≡ some x = ap (λ n. lookup n s.sessions) r.has_id ∙ f in
    let (es, q) = session_close-Answers x s a r.open_now f' in
    let t = record s {
      conns = erase x.fd s.conns;
      sessions = erase x.id s.sessions;
      effects = es;
    } in
    let empty : lookup id t.sessions ≡ none =
      lookup-erase id x.id s.sessions ∙ rw (r.has_id, ==_refl id) refl in
    let ends : time_to_exit id s ≡ gives tt t =
      with_session-some id session_close x (record x { is_closed = true }) s t f q
      ∙ store_back-none id (record x { is_closed = true }) t empty in
    let (j, n) = subst (Gives (λ _. Upkeep s)) ends (time_to_exit-Upkeep id s i) in
    (t, ends, ap (λ n. erase n s.conns) r.has_fd, j, a)

length-erase_le : (k : ℕ) (m : Dict ℕ) → length (erase k m) ≤ length m
unfolding erase
length-erase_le k [] = omega arith
length-erase_le k ((j, v) ∷ m) = ground (arith, length-erase_le k m)

length-erase_first : (k v : ℕ) (m : Dict ℕ) → length (erase k ((k, v) ∷ m)) ≤ length m
unfolding erase
length-erase_first k v m = rw (==_refl k) (length-erase_le k m)

lookup-first : (k v : ℕ) (m : Dict ℕ) → lookup k ((k, v) ∷ m) ≡ some v
unfolding lookup
lookup-first k v m = rw (==_refl k) refl

-- What a release comes to.
abbrev Empties : Act (Unit {0}) → World → Type 0
Empties f s = (t : World) × (f s ≡ gives tt t) × (t.conns ≡ []) × Inv t × Answers t

release_loop_end : (f : ℕ) (s : World) → s.conns ≡ [] → release_loop f s ≡ gives tt s
unfolding release_loop
release_loop_end zero s e = ap (λ c. release_rest (λ id. raise out_of_fuel) c s) e
release_loop_end (suc f) s e =
    ap (λ c. release_rest (λ id. (do time_to_exit id; release_loop f)) c s) e

release_loop_next :
    (f fd id : ℕ) (m : Dict ℕ) (s : World)
    → s.conns ≡ (fd, id) ∷ m
    → release_loop (suc f) s ≡ and_then (time_to_exit id s) (λ _. release_loop f)
unfolding release_loop
release_loop_next f fd id m s e =
    ap (λ c. release_rest (λ j. (do time_to_exit j; release_loop f)) c s) e

release_loop-Empties :
    (f : ℕ) (m : Dict ℕ) (s : World)
    → s.conns ≡ m
    → length m ≤ f
    → Inv s
    → Answers s
    → Empties (release_loop f) s
release_loop-Empties f [] s e b i a = (s, release_loop_end f s e, e, i, a)
release_loop-Empties zero (p ∷ m) s e b i a = absurd (omega arith)
release_loop-Empties (suc f) ((fd, id) ∷ m) s e b i a =
    let (t, q, c, j, d) =
      time_to_exit-Answers fd id s i a (ap (lookup fd) e ∙ lookup-first fd id m) in
    let less : length t.conns ≤ f =
      subst (λ k. length k ≤ f) (sym (c ∙ ap (erase fd) e))
        (omega (arith, length-erase_first fd id m)) in
    let (u, r, v, w, z) = release_loop-Empties f t.conns t refl less j d in
    (u, release_loop_next f fd id m s e ∙ ap (λ o. and_then o (λ _. release_loop f)) q ∙ r, v, w, z)

no_sessions : (s : World) (id : ℕ) → Inv s → s.conns ≡ [] → lookup id s.sessions ≡ none
unfolding lookup
no_sessions s id i e = elim (Option-cases (lookup id s.sessions)) [
  | inl q ↦ q
  | inr (x, q) ↦ let f : none ≡ some id = sym (ap (lookup x.fd) e) ∙ (i.session_has id x q).0 in cc
]

-- A release ends, with no connection and no session left, if the two maps are in step and the
-- kernel refuses no call: its loop takes a connection out in each round.
pub release-conns :
    (s : World)
    → Inv s
    → Answers s
    → (t : World) × (release s ≡ gives tt t)
      × (t.conns ≡ [])
      × ((id : ℕ) → lookup id t.sessions ≡ none)
unfolding release
release-conns s i a =
    let (t, q, c, j, d) = release_loop-Empties (length s.conns) s.conns s refl (omega arith) i a in
    let t1 = record t { effects = t.effects ++ unwatch s.listen_fd ∷ [] } in
    (
      record t1 { effects = t1.effects ++ close_fd s.listen_fd ∷ [] },
      rw (q, call-Answers (unwatch s.listen_fd) t d, call-Answers (close_fd s.listen_fd) t1 d) refl,
      c,
      λ id. no_sessions t id j c,
    )
