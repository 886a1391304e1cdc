-- ===== src/EpollServer/Events.antt =====
-- The events of the epoll server keep its two maps in step.
use cpp_programming.Base.{
  ℕ, ◌+◌, ◌%◌, ◌^◌, ◌≤◌, ◌<◌, ◌≡◌, refl, sym, ap, ◌∙◌, subst, ◌≢◌, inl, inr, Bool, true, false, not,
  none, some, List, [], ◌∷◌, arith, ◌==◌, ==_iff, Bool-cases, Option-cases, length, runtime_error,
  Result, ok, err,
}
use cpp_programming.Base.Actions.{gives, raises, and_then, ◌>>◌}
use cpp_programming.Base.Actions.{Gives, Gives-bind, Gives-map, Gives-if}
use cpp_programming.Base.Maps.{
  Dict, lookup, has, insert_sorted, lookup-has-false, has-some, has-none,
}
use cpp_programming.EpollServer.State.{Session, watch, World, Act, set_conns}
use cpp_programming.EpollServer.Sessions.{
  ensure, set_sessions, with_session, new_connection, can_read, can_write, error_occurred,
}
use cpp_programming.EpollServer.Loop.{
  process_new_connection, conn_at, report, process_event, Event, process_one, process_events, found,
  has_bit,
}
use cpp_programming.EpollServer.Links.{Inv, ensured, first_call}
use cpp_programming.EpollServer.Upkeep.{
  Upkeep, insert-cases, insert-own, insert-other, Inv-maps, can_read-Upkeep, can_write-Upkeep,
  error_occurred-Upkeep,
}

no_session : (s : World) → Inv s → lookup 0 s.sessions ≡ none
no_session s i = elim (Option-cases (lookup 0 s.sessions)) [
  | inl e ↦ e
  | inr (x, e) ↦ absurd ((i.session_has 0 x e).1 refl)
]

-- A report to a session that is not there throws.
Refuses : (ℕ → Act (Unit {0})) → Type 0
Refuses f = (s : World) → lookup 0 s.sessions ≡ none → f 0 s ≡ raises runtime_error s

with_session-none :
    (f : Session → Act Session) (id : ℕ) (s : World)
    → lookup id s.sessions ≡ none
    → with_session id f s ≡ raises runtime_error s
unfolding with_session
with_session-none f id s e = rw (has-none id s.sessions e) refl

can_read-Refuses : Refuses can_read
unfolding Refuses can_read
can_read-Refuses s e = with_session-none _ 0 s e

can_write-Refuses : Refuses can_write
unfolding Refuses can_write
can_write-Refuses s e = with_session-none _ 0 s e

error_occurred-Refuses : Refuses error_occurred
unfolding Refuses error_occurred
error_occurred-Refuses s e = with_session-none _ 0 s e

-- `conns[fd]` of a connection that has gone makes up the id 0, which no session has.
report_late :
    (f : ℕ → Act (Unit {0})) (fd : ℕ) (s : World)
    → Refuses f
    → Inv s
    → lookup fd s.conns ≡ none
    → (u : World) × (report true f fd s ≡ raises runtime_error u)
unfolding Refuses report conn_at
report_late f fd s r i e = (_, ap (λ o. and_then (found fd o s) f) e ∙ r _ (no_session s i))

report-Upkeep :
    (f : ℕ → Act (Unit {0})) (fd : ℕ) (s : World) (due : Bool)
    → Refuses f
    → ((id : ℕ) → Gives (λ _. Upkeep s) (f id s))
    → Inv s
    → Gives (λ _. Upkeep s) (report due f fd s)
unfolding report conn_at
report-Upkeep f fd s false r k i = (i, refl)
report-Upkeep f fd s true r k i = elim (Option-cases (lookup fd s.conns)) [
  | inl e ↦ let (u, q) = report_late f fd s r i e in subst (Gives (λ _. Upkeep s)) (sym q) tt
  | inr (id, e) ↦ subst (λ o. Gives (λ _. Upkeep s) (and_then (found fd o s) f)) (sym e) (k id)
]

reports-Upkeep :
    (fd mask : ℕ) (s : World)
    → Inv s
    → Gives
        (λ _. Upkeep s)
        ((do
          report (has_bit mask 1) can_read fd
          report (has_bit mask 4) can_write fd
          report (has_bit mask 8) error_occurred fd)
          s)
reports-Upkeep fd mask s i =
    Gives-bind (λ _. Upkeep s) (report (has_bit mask 1) can_read fd s) _
      (λ a t q.
        let (j, n) = subst (Gives (λ _. Upkeep s)) q (
          report-Upkeep can_read fd s (has_bit mask 1) can_read-Refuses
            (λ id. can_read-Upkeep id s i) i) in
        Gives-bind (λ _. Upkeep s) (report (has_bit mask 4) can_write fd t) _
          (λ b u p.
            let (k, m) = subst (Gives (λ _. Upkeep t)) p (
              report-Upkeep can_write fd t (has_bit mask 4) can_write-Refuses
                (λ id. can_write-Upkeep id t j) j) in
            Gives-map (λ _. Upkeep u) (λ _. Upkeep s) (report (has_bit mask 8) error_occurred fd u)
              (λ c v h. (h.0, h.1 ∙ m ∙ n))
              (report-Upkeep error_occurred fd u (has_bit mask 8) error_occurred-Refuses
                (λ id. error_occurred-Upkeep id u k) k)))

process_event-Upkeep :
    (fd mask : ℕ) (s : World) → Inv s → Gives (λ _. Upkeep s) (process_event fd mask s)
unfolding process_event
process_event-Upkeep fd mask s i =
    ensured (Upkeep s) (has fd s.conns) _ s (λ e. reports-Upkeep fd mask s i)

-- A connection that an event closes is reported all the same if the mask of that event says so: the
-- report of an error after the one of writing has closed the session makes `ProcessEvent` throw.
pub process_event_late :
    (fd id mask : ℕ) (s t u : World)
    → Inv s
    → lookup fd s.conns ≡ some id
    → has_bit mask 8 ≡ true
    → report (has_bit mask 1) can_read fd s ≡ gives tt t
    → report (has_bit mask 4) can_write fd t ≡ gives tt u
    → lookup fd u.conns ≡ none
    → (v : World) × (process_event fd mask s ≡ raises runtime_error v)
unfolding process_event
process_event_late fd id mask s t u i e b p q c =
    let (j, n) = subst (Gives (λ _. Upkeep s)) p (
      report-Upkeep can_read fd s (has_bit mask 1) can_read-Refuses (λ k. can_read-Upkeep k s i)
        i) in
    let (k, m) = subst (Gives (λ _. Upkeep t)) q (
      report-Upkeep can_write fd t (has_bit mask 4) can_write-Refuses (λ k. can_write-Upkeep k t j)
        j) in
    let (v, r) = report_late error_occurred fd u error_occurred-Refuses k c in
    (v, rw (has-some fd s.conns id e, p, q, b) r)

-- A key that is not in a map is none of its keys.
apart {ℓ} :
    {V : Type ℓ} (j k : ℕ) (m : Dict V) (v : V)
    → lookup j m ≡ none
    → lookup k m ≡ some v
    → (j == k) ≡ false
apart j k m v e f = elim (Bool-cases (j == k)) [
  | inl q ↦ let g : none ≡ some v = sym e ∙ ap (λ n. lookup n m) ((==_iff j k).0 q) ∙ f in cc
  | inr q ↦ q
]

abbrev pub fresh : ℕ → ℕ → Session
fresh id fd = record {
  id = id;
  fd = fd;
  is_eof = false;
  input = [];
  output = [];
  is_readable = false;
  is_writable = false;
  is_closed = false;
}

new-Inv :
    (s : World) (fd id : ℕ)
    → Inv s
    → lookup fd s.conns ≡ none
    → lookup id s.sessions ≡ none
    → id ≢ 0
    → Inv (record s {
      conns = insert_sorted fd id s.conns;
      sessions = insert_sorted id (fresh id fd) s.sessions;
    })
new-Inv s fd id i c d n = record {
  conn_has = λ g j a. elim (insert-cases g fd id j s.conns a) [
    | inl (k, q) ↦ (
      fresh id fd,
      subst (λ m. lookup m (insert_sorted id (fresh id fd) s.sessions) ≡ some (fresh id fd)) q
          (insert-own id (fresh id fd) s.sessions),
      record { has_fd = k; has_id = q; open_now = refl; unread = refl; unwritten = refl },
    )
    | inr (q, b) ↦
        let (z, f, w) = i.conn_has g j b in
        (z, insert-other j id (fresh id fd) s.sessions (apart id j s.sessions z d f) ∙ f, w)
  ];
  session_has = λ j z a. elim (insert-cases j id (fresh id fd) z s.sessions a) [
    | inl (k, q) ↦ (
      subst (λ (u : Session). lookup u.fd (insert_sorted fd id s.conns) ≡ some j) q
          (insert-own fd id s.conns ∙ ap some k),
      subst (λ m. m ≢ 0) k n,
    )
    | inr (q, b) ↦
        let (f, w) = i.session_has j z b in
        (insert-other z.fd fd id s.conns (apart fd z.fd s.conns j c f) ∙ f, w)
  ];
}

ensured_then :
    (Q : World → Type 0) (b : Bool) (f g : Act (Unit {0})) (s : World)
    → (b ≡ true → Gives (λ _. Q) (and_then (f s) (λ _. g)))
    → Gives (λ _. Q) (and_then (and_then (ensure b s) (λ _. f)) (λ _. g))
ensured_then Q true f g s k = k refl
ensured_then Q false f g s k = tt

next_id_lem : (n : ℕ) → n + 1 < 2 ^ 64 → ((n + 1) % 2 ^ 64 ≡ n + 1) × ((n + 1) % 2 ^ 64 ≢ 0)
next_id_lem n h = (omega arith, omega arith)

-- What an event does to the server.
abbrev Grows : World → World → Type 0
Grows s t = Inv t × (t.next_conn_id ≤ s.next_conn_id + 1)

process_new_connection-Grows :
    (a : Result ℕ) (s : World)
    → Inv s
    → s.next_conn_id + 1 < 2 ^ 64
    → Gives (λ _. Grows s) (process_new_connection a s)
unfolding process_new_connection new_connection
process_new_connection-Grows (err e) s i h = tt
process_new_connection-Grows (ok fd) s i h =
    let id = (s.next_conn_id + 1) % 2 ^ 64 in
    let s1 = record s { next_conn_id = id } in
    let (n, z) = next_id_lem s.next_conn_id h in
    ensured (Grows s) (not (has fd s.conns)) _ s (λ e. first_call (Grows s) (watch fd) _ s1 (λ t a.
      ensured_then (Grows s) (not (has id t.sessions))
        (λ u. set_sessions (insert_sorted id (fresh id fd) u.sessions) u)
        (λ u. set_conns (insert_sorted fd id u.conns) u) t
        (λ f.
          let i' : Inv t = Inv-maps s t a.0 a.1 i in
          (
            new-Inv t fd id i' (ap (lookup fd) a.0 ∙ lookup-has-false fd s.conns (ground arith))
                (lookup-has-false id t.sessions (ground arith)) z,
            omega (arith, a.2, n),
          ))))

process_one-Grows :
    (e : Event) (s : World)
    → Inv s
    → s.next_conn_id + 1 < 2 ^ 64
    → Gives (λ _. Grows s) (process_one e s)
unfolding process_one
process_one-Grows e s i h =
    Gives-if (λ _. Grows s) (e.fd == s.listen_fd) (process_new_connection e.peer)
      (process_event e.fd e.mask) s (process_new_connection-Grows e.peer s i h)
      (Gives-map (λ _. Upkeep s) (λ _. Grows s) (process_event e.fd e.mask s)
        (λ a t u. (u.0, omega (arith, u.1))) (process_event-Upkeep e.fd e.mask s i))

-- Whatever epoll, `accept`, `read`, `write` and `close` answer, if the events do not throw: each
-- connection of the server has a session that is open, has its descriptor and id and waits for no
-- report, and each session of the server has its connection, after the events if that was so before
-- them, as long as the counter of ids does not reach 2^64.
pub process_events-Inv :
    (es : List Event) (s : World)
    → Inv s
    → s.next_conn_id + length es < 2 ^ 64
    → Gives (λ _. Inv) (process_events es s)
unfolding process_events
process_events-Inv [] s i h = i
process_events-Inv (e ∷ es) s i h =
    Gives-bind (λ _. Inv) (process_one e s) (λ _. process_events es)
      (λ a t q.
        let (j, n) = subst (Gives (λ _. Grows s)) q (process_one-Grows e s i (omega arith)) in
        process_events-Inv es t j (omega (arith, n, h)))
