-- ===== src/SimpleHttp/Server/Events.antt =====
-- What the events of the server do to its map of sockets.
use cpp_programming.Base.{
  ℕ, ◌+◌, ◌%◌, ◌^◌, ◌≤◌, ◌<◌, ◌≡◌, refl, subst, inl, inr, Bool, true, false, none, some, List, [],
  ◌∷◌, arith, ◌==◌, Bool-cases, Option-cases, length, All, Result, ok, err,
}
use cpp_programming.Base.Actions.{Reply, gives, raises, and_then, ◌>>◌, state_of}
use cpp_programming.SimpleHttp.Server.{
  remove, lookup, Effect, can_read, can_write, error_occurred, Server, Answer, epoll_add,
  socket_add, socket_get_value, check_socket_exist, process_new_connection, has_bit, report,
  Answers, Act, Closings, remove_all, others_delete, process_event, Event, process_one,
  process_events,
}
use cpp_programming.SimpleHttp.Server.Sockets.{
  Apart, IsSorted, IsDistinct, All-insert, All-remove, All-map, insert-IsSorted, insert-IsDistinct,
  remove-IsSorted, remove-IsDistinct,
}

-- The sockets stand in order, with ids up to the counter, each but 0 with one socket.
pub record IsWellFormed (s : Server) : Type 0 where
  pub sorted : IsSorted s.sockets
  pub distinct : IsDistinct s.sockets
  pub given : All (λ p. p.1 ≤ s.next_conn_id) s.sockets

new_connection-IsWellFormed :
    (r : Result ℕ) (x : Answer) (s : Server)
    → IsWellFormed s
    → s.next_conn_id + 1 < 2 ^ 64
    → IsWellFormed (state_of (process_new_connection (record { accepted = r; added = x }) s))
unfolding process_new_connection check_socket_exist epoll_add socket_add
new_connection-IsWellFormed (err e) x s v h = v
new_connection-IsWellFormed (ok fd) (some y) s v h = elim (Option-cases (lookup fd s.sockets)) [
  | inr (id, e) ↦ rw e v
  | inl e ↦ rw e (record { sorted = v.sorted; distinct = v.distinct; given = v.given })
]
new_connection-IsWellFormed (ok fd) none s v h =
    let n = (s.next_conn_id + 1) % 2 ^ 64 in
    let q : n ≡ s.next_conn_id + 1 = omega arith in
    elim (Option-cases (lookup fd s.sockets)) [
      | inr (id, e) ↦ rw e v
      | inl e ↦ rw e (record {
        sorted = insert-IsSorted fd n s.sockets v.sorted;
        distinct =
            insert-IsDistinct fd n s.sockets
              (All-map (λ p. p.1 ≤ s.next_conn_id) (λ p. Apart p.1 n) s.sockets
                (λ p k f. absurd (omega (arith, q, f, k))) v.given)
              v.distinct;
        given =
            All-insert (λ p. p.1 ≤ n) fd n s.sockets (omega arith)
              (All-map (λ p. p.1 ≤ s.next_conn_id) (λ p. p.1 ≤ n) s.sockets
                (λ p k. omega (arith, q, k)) v.given);
      })
    ]

-- One event counts up the ids by one at most.
new_connection-next_conn_id :
    (a : Answers) (s : Server)
    → s.next_conn_id + 1 < 2 ^ 64
    → (state_of (process_new_connection a s)).next_conn_id ≤ s.next_conn_id + 1
unfolding process_new_connection check_socket_exist epoll_add socket_add
new_connection-next_conn_id a s h = ground arith

state-bind {ℓ κ} :
    {A : Type ℓ} {B : Type κ} (P : Server → Type 0) (r : Reply Server A) (f : A → Act B)
    → P (state_of r)
    → ((a : A) (t : Server) → P t → P (state_of (f a t)))
    → P (state_of (and_then r f))
state-bind P (gives a t) f h k = k a t h
state-bind P (raises x t) f h k = h

-- Well-formed, with the counter at this value.
abbrev Counted : ℕ → Server → Type 0
Counted n s = IsWellFormed s × (s.next_conn_id ≡ n)

remove-Counted :
    (fd n : ℕ) (s : Server) → Counted n s → Counted n (record s { sockets = remove fd s.sockets })
remove-Counted fd n s (v, e) = (
  record {
    sorted = remove-IsSorted fd s.sockets v.sorted;
    distinct = remove-IsDistinct fd s.sockets v.distinct;
    given = All-remove (λ p. p.1 ≤ s.next_conn_id) fd s.sockets v.given;
  },
  e,
)

remove_all-Counted :
    (fds : List ℕ) (n : ℕ) (s : Server)
    → Counted n s
    → Counted n (record s { sockets = remove_all fds s.sockets })
unfolding remove_all
remove_all-Counted [] n s v = v
remove_all-Counted (fd ∷ fds) n s v =
    remove_all-Counted fds n (record s { sockets = remove fd s.sockets }) (remove-Counted fd n s v)

-- A report may put a descriptor into the map, with the id 0.
report-Counted :
    (b : Bool) (f : ℕ → Effect) (fd n : ℕ) (s : Server)
    → Counted n s
    → Counted n (state_of (report b f fd s))
unfolding socket_get_value
report-Counted false f fd n s v = v
report-Counted true f fd n s (v, e) = elim (Option-cases (lookup fd s.sockets)) [
  | inr (id, k) ↦
      rw (k, socket_get_value)
        (record { sorted = v.sorted; distinct = v.distinct; given = v.given }, e)
  | inl k ↦
      rw (k, socket_get_value)
        (
          record {
            sorted = insert-IsSorted fd 0 s.sockets v.sorted;
            distinct =
                insert-IsDistinct fd 0 s.sockets
                  (All-map (λ p. p.1 ≤ s.next_conn_id) (λ p. Apart p.1 0) s.sockets (λ p k f. f)
                    v.given)
                  v.distinct;
            given = All-insert (λ p. p.1 ≤ s.next_conn_id) fd 0 s.sockets (omega arith) v.given;
          },
          e,
        )
]

reports-Counted :
    (c : Closings) (fd mask n : ℕ) (s : Server)
    → Counted n s
    → Counted n (
        state_of (
          (do
            others_delete c.before_read
            report (has_bit mask 1) can_read fd
            others_delete c.before_write
            report (has_bit mask 4) can_write fd
            others_delete c.before_error
            report (has_bit mask 8) error_occurred fd)
            s))
reports-Counted c fd mask n s v =
    state-bind (Counted n) (report (has_bit mask 1) can_read fd _) _
      (report-Counted (has_bit mask 1) can_read fd n _ (remove_all-Counted c.before_read n s v))
      (λ _ t w.
        state-bind (Counted n) (report (has_bit mask 4) can_write fd _) _
          (report-Counted (has_bit mask 4) can_write fd n _
            (remove_all-Counted c.before_write n t w))
          (λ _ u x.
            report-Counted (has_bit mask 8) error_occurred fd n _
              (remove_all-Counted c.before_error n u x)))

process_event-Counted :
    (c : Closings) (fd mask n : ℕ) (s : Server)
    → Counted n s
    → Counted n (state_of (process_event c fd mask s))
unfolding process_event check_socket_exist
process_event-Counted c fd mask n s v = elim (Option-cases (lookup fd s.sockets)) [
  | inl e ↦ rw (e, process_event) v
  | inr (id, e) ↦ rw (e, process_event) (reports-Counted c fd mask n s v)
]

process_one-Counted :
    (e : Event) (s : Server)
    → IsWellFormed s
    → s.next_conn_id + 1 < 2 ^ 64
    → IsWellFormed (state_of (process_one e s))
      × ((state_of (process_one e s)).next_conn_id ≤ s.next_conn_id + 1)
unfolding process_one
process_one-Counted e s v h =
    let t = record s { sockets = remove_all e.closings.before s.sockets } in
    let w = remove_all-Counted e.closings.before s.next_conn_id s (v, refl) in
    elim (Bool-cases (e.fd == s.listen_fd)) [
      | inl f ↦ rw f (
        new_connection-IsWellFormed e.answers.accepted e.answers.added t w.0 h,
        new_connection-next_conn_id e.answers t h,
      )
      | inr f ↦
          let (x, y) = process_event-Counted e.closings e.fd e.mask s.next_conn_id t w in
          rw f (x, omega (arith, y))
    ]

events-reply :
    (r : Reply Server (Unit {0})) (es : List Event)
    → IsWellFormed (state_of r)
    → ((s : Server) → r ≡ gives tt s → IsWellFormed (state_of (process_events es s)))
    → IsWellFormed (state_of (and_then r (λ _. process_events es)))
events-reply (gives tt s) es v f = f s refl
events-reply (raises x s) es v f = v

-- If the sockets stand in order, with ids up to the counter, and no id but 0 belongs to two of them,
-- so it is behind any events, whatever connections the other threads close in front of each and
-- between the check in ProcessEvent and its reports, and whether or not one of the events throws, as
-- long as the counter does not reach 2^64.
pub process_events-IsWellFormed :
    (es : List Event) (s : Server)
    → IsWellFormed s
    → s.next_conn_id + length es < 2 ^ 64
    → IsWellFormed (state_of (process_events es s))
unfolding process_events
process_events-IsWellFormed [] s v h = v
process_events-IsWellFormed (e ∷ es) s v h =
    let (w, n) = process_one-Counted e s v (omega arith) in
    events-reply (process_one e s) es w (λ t q.
      let b : t.next_conn_id ≤ s.next_conn_id + 1 =
        subst (λ (r : Reply Server (Unit {0})). (state_of r).next_conn_id ≤ s.next_conn_id + 1) q
          n in
      process_events-IsWellFormed es t
        (subst (λ (r : Reply Server (Unit {0})). IsWellFormed (state_of r)) q w) (omega (arith, b)))
