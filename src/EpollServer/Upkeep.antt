-- ===== src/EpollServer/Upkeep.antt =====
-- What the events of the epoll server keep: the two maps name each other, and no session that the
-- server still has is closed.
use cpp_programming.Base.{
  ℕ, ◌≡◌, refl, sym, ap, ◌∙◌, subst, ◌≢◌, ◌⊎◌, inl, inr, true, false, Option, none, some, arith,
  ◌==◌, ==_iff, ==_refl, Bool-cases,
}
use cpp_programming.Base.Actions.{gives}
use cpp_programming.Base.Actions.{Gives, Gives-bind, Gives-map}
use cpp_programming.Base.Maps.{
  Dict, lookup, has, insert_sorted, erase, lookup-insert_sorted, lookup-erase, has-some, has-none,
}
use cpp_programming.EpollServer.State.{Session, World, Act}
use cpp_programming.EpollServer.Sessions.{
  session_close, session_write, session_read, store_back, on_session, with_session, can_read,
  can_write, error_occurred, time_to_exit,
}
use cpp_programming.EpollServer.Links.{
  Rests, Inv, After, kept, gone, same_session, ensured, session_close-After, session_write-After,
  session_read-After,
}

pub some-injective {ℓ} : {A : Type ℓ} {a b : A} → some a ≡ some b → a ≡ b
some-injective e = cc

-- What is found in a map after an insertion or a removal.
pub insert-cases {ℓ} :
    {V : Type ℓ} (j k : ℕ) (v w : V) (m : Dict V)
    → lookup j (insert_sorted k v m) ≡ some w
    → ((k ≡ j) × (v ≡ w)) ⊎ (((k == j) ≡ false) × (lookup j m ≡ some w))
insert-cases j k v w m e =
    let f = sym (lookup-insert_sorted j k v m) ∙ e in
    elim (Bool-cases (k == j)) [
      | inl q ↦ inl ((==_iff k j).0 q, some-injective (rw q at f))
      | inr q ↦ inr (q, rw q at f)
    ]

pub erase-cases {ℓ} :
    {V : Type ℓ} (j k : ℕ) (w : V) (m : Dict V)
    → lookup j (erase k m) ≡ some w
    → ((k == j) ≡ false) × (lookup j m ≡ some w)
erase-cases j k w m e =
    let f = sym (lookup-erase j k m) ∙ e in
    elim (Bool-cases (k == j)) [
      | inl q ↦ let g : none ≡ some w = rw q at f in cc
      | inr q ↦ (q, rw q at f)
    ]

pub insert-own {ℓ} :
    {V : Type ℓ} (k : ℕ) (v : V) (m : Dict V) → lookup k (insert_sorted k v m) ≡ some v
insert-own k v m = lookup-insert_sorted k k v m ∙ rw (==_refl k) refl

pub insert-other {ℓ} :
    {V : Type ℓ} (j k : ℕ) (v : V) (m : Dict V)
    → (k == j) ≡ false
    → lookup j (insert_sorted k v m) ≡ lookup j m
insert-other j k v m e = lookup-insert_sorted j k v m ∙ rw e refl

erase-other {ℓ} :
    {V : Type ℓ} (j k : ℕ) (m : Dict V) → (k == j) ≡ false → lookup j (erase k m) ≡ lookup j m
erase-other j k m e = lookup-erase j k m ∙ rw e refl

ne_false : (j k : ℕ) → j ≢ k → (j == k) ≡ false
ne_false j k n = ground arith

pub linked :
    (s : World) (id : ℕ) (x : Session)
    → Inv s
    → lookup id s.sessions ≡ some x
    → (lookup x.fd s.conns ≡ some id) × (id ≢ 0) × Rests x.fd id x
linked s id x i e =
    let (a, b) = i.session_has id x e in
    let (y, f, r) = i.conn_has x.fd id a in
    (a, b, subst (Rests x.fd id) (some-injective (sym f ∙ e)) r)

-- A session that was worked on and rests again is put back.
kept-Inv :
    (s : World) (id : ℕ) (x y : Session)
    → Inv s
    → lookup id s.sessions ≡ some x
    → Rests x.fd id y
    → Inv (record s { sessions = insert_sorted id y s.sessions })
kept-Inv s id x y i e r = record {
  conn_has = λ fd j a.
      let (z, f, w) = i.conn_has fd j a in
      elim (Bool-cases (id == j)) [
        | inl q ↦
            let k : id ≡ j = (==_iff id j).0 q in
            let same : x ≡ z =
              some-injective (sym e ∙ subst (λ n. lookup n s.sessions ≡ some z) (sym k) f) in
            let at_fd : x.fd ≡ fd = ap (λ (u : Session). u.fd) same ∙ w.has_fd in
            (
              y,
              subst (λ n. lookup n (insert_sorted id y s.sessions) ≡ some y) k
                  (insert-own id y s.sessions),
              subst (λ n. Rests fd n y) k (subst (λ n. Rests n id y) at_fd r),
            )
        | inr q ↦ (z, insert-other j id y s.sessions q ∙ f, w)
      ];
  session_has = λ j z a. elim (insert-cases j id y z s.sessions a) [
    | inl (k, q) ↦
        let (b, c, d) = linked s id x i e in
        (
          subst (λ (u : Session). lookup u.fd s.conns ≡ some j) q
              (subst (λ n. lookup y.fd s.conns ≡ some n) k
                (ap (λ n. lookup n s.conns) r.has_fd ∙ b)),
          subst (λ n. n ≢ 0) k c,
        )
    | inr (q, b) ↦ i.session_has j z b
  ];
}

gone-Inv :
    (s : World) (id : ℕ) (x : Session)
    → Inv s
    → lookup id s.sessions ≡ some x
    → Inv (record s { conns = erase x.fd s.conns; sessions = erase id s.sessions })
gone-Inv s id x i e =
    let (b, c, d) = linked s id x i e in
    record {
      conn_has = λ fd j a.
          let (n, a') = erase-cases fd x.fd j s.conns a in
          let (z, f, w) = i.conn_has fd j a' in
          let apart : id ≢ j = λ k.
            let same : x ≡ z =
              some-injective (sym e ∙ subst (λ n. lookup n s.sessions ≡ some z) (sym k) f) in
            let at_fd : x.fd ≡ fd = ap (λ (u : Session). u.fd) same ∙ w.has_fd in
            ground (arith, n, at_fd) in
          (z, erase-other j id s.sessions (ne_false id j apart) ∙ f, w);
      session_has = λ j z a.
          let (n, a') = erase-cases j id z s.sessions a in
          let (f, w) = i.session_has j z a' in
          let apart : x.fd ≢ z.fd = λ k.
            let same : id ≡ j = some-injective (sym b ∙ ap (λ n. lookup n s.conns) k ∙ f) in
            ground (arith, n, same) in
          (erase-other z.fd x.fd s.conns (ne_false x.fd z.fd apart) ∙ f, w);
    }

-- The maps alone decide.
pub Inv-maps : (s t : World) → t.conns ≡ s.conns → t.sessions ≡ s.sessions → Inv s → Inv t
Inv-maps s t c d i = record {
  conn_has = λ fd id e.
      let (x, f, r) = i.conn_has fd id (ap (lookup fd) (sym c) ∙ e) in (x, ap (lookup id) d ∙ f, r);
  session_has = λ id x e.
      let (a, b) = i.session_has id x (ap (lookup id) (sym d) ∙ e) in (ap (lookup x.fd) c ∙ a, b);
}

-- The ids of the server's sessions have been given out.
abbrev pub Upkeep : World → World → Type 0
Upkeep s t = Inv t × (t.next_conn_id ≡ s.next_conn_id)

store_back-has :
    (id : ℕ) (x y : Session) (t : World)
    → lookup id t.sessions ≡ some x
    → store_back id y t ≡ gives tt (record t { sessions = insert_sorted id y t.sessions })
unfolding store_back
store_back-has id x y t e = rw (has-some id t.sessions x e) refl

pub store_back-none :
    (id : ℕ) (y : Session) (t : World)
    → lookup id t.sessions ≡ none
    → store_back id y t ≡ gives tt t
unfolding store_back
store_back-none id y t e = rw (has-none id t.sessions e) refl

stored-Upkeep :
    (s t : World) (id : ℕ) (x y : Session)
    → Inv s
    → lookup id s.sessions ≡ some x
    → After x s y t
    → Gives (λ _. Upkeep s) (store_back id y t)
stored-Upkeep s t id x y i e (kept a r) =
    let (b, c, d) = linked s id x i e in
    let there : lookup id t.sessions ≡ some x = ap (lookup id) a.1 ∙ e in
    let r' : Rests x.fd id y = subst (λ n. Rests x.fd n y) d.has_id r in
    let put : Inv (record t { sessions = insert_sorted id y t.sessions }) =
      kept-Inv t id x y (Inv-maps s t a.0 a.1 i) there r' in
    subst (Gives (λ _. Upkeep s)) (sym (store_back-has id x y t there)) (put, a.2)
stored-Upkeep s t id x y i e (gone c d n) =
    let (a, b, r) = linked s id x i e in
    let empty : lookup id t.sessions ≡ none =
      ap (lookup id) d ∙ lookup-erase id x.id s.sessions ∙ rw (r.has_id, ==_refl id) refl in
    let d' : t.sessions ≡ erase id s.sessions = d ∙ ap (λ k. erase k s.sessions) r.has_id in
    subst (Gives (λ _. Upkeep s)) (sym (store_back-none id y t empty)) (
      Inv-maps (record s { conns = erase x.fd s.conns; sessions = erase id s.sessions }) t c d'
          (gone-Inv s id x i e),
      n,
    )

-- What is done to a session that is open keeps the maps in step.
with_session-Upkeep :
    (id : ℕ) (f : Session → Act Session) (s : World)
    → Inv s
    → ((x : Session) (fd : ℕ) → Rests fd id x → Gives (After x s) (f x s))
    → Gives (λ _. Upkeep s) (with_session id f s)
unfolding with_session
with_session-Upkeep id f s i k =
    ensured (Upkeep s) (has id s.sessions) _ s (λ e. go (lookup id s.sessions) refl)
  where
    go :
        (o : Option Session)
        → lookup id s.sessions ≡ o
        → Gives (λ _. Upkeep s) (on_session id f o s)
    go none e = tt
    go (some x) e =
        let (a, b, r) = linked s id x i e in
        Gives-bind (λ _. Upkeep s) (f x s) (store_back id)
          (λ y t q. stored-Upkeep s t id x y i e (subst (Gives (After x s)) q (k x x.fd r)))

pub can_read-Upkeep : (id : ℕ) (s : World) → Inv s → Gives (λ _. Upkeep s) (can_read id s)
unfolding can_read
can_read-Upkeep id s i =
    with_session-Upkeep id (λ x. session_read (record x { is_readable = true })) s i
      (λ x fd r. session_read-After x s r.open_now)

pub can_write-Upkeep : (id : ℕ) (s : World) → Inv s → Gives (λ _. Upkeep s) (can_write id s)
unfolding can_write
can_write-Upkeep id s i =
    with_session-Upkeep id (λ x. session_write (record x { is_writable = true })) s i
      (λ x fd r.
        let y = record x { is_writable = true } in
        Gives-map (After y s) (After x s) (session_write y s)
          (λ z t d. same_session x y z s t refl refl d)
          (session_write-After y s r.open_now r.unread))

pub error_occurred-Upkeep :
    (id : ℕ) (s : World) → Inv s → Gives (λ _. Upkeep s) (error_occurred id s)
unfolding error_occurred
error_occurred-Upkeep id s i =
    with_session-Upkeep id session_close s i (λ x fd r. session_close-After x s)

pub time_to_exit-Upkeep : (id : ℕ) (s : World) → Inv s → Gives (λ _. Upkeep s) (time_to_exit id s)
unfolding time_to_exit
time_to_exit-Upkeep id s i =
    with_session-Upkeep id session_close s i (λ x fd r. session_close-After x s)
