-- ===== src/SimpleHttp/Server/Reports.antt =====
-- What the server reports: of an event, of a connection that comes and goes, and when it exits.
use cpp_programming.Base.{
  ℕ, ◌+◌, ◌%◌, ◌^◌, ◌<◌, ◌≡◌, refl, sym, ap, ◌∙◌, Bool, true, false, none, some, List, [], ◌∷◌,
  ◌++◌, map, append-nil, append_assoc, arith, if◌then◌else◌, runtime_error, ok,
}
use cpp_programming.Base.Actions.{Reply, gives, raises, and_then, ◌>>◌}
use cpp_programming.SimpleHttp.Server.{
  Sockets, insert, remove, lookup, Effect, watch, unwatch, close_fd, new_connection, can_read,
  can_write, error_occurred, time_to_exit, Server, epoll_add, epoll_delete, server_close_fd,
  socket_add, socket_delete, socket_get_value, check_socket_exist, process_new_connection,
  close_connection, has_bit, report, Answers, Closings, remove_all, process_event, Event,
  process_events, report_exits, release, WaitAnswer, ready, process_wait, start_loop,
}

abbrev effect_if : Bool → Effect → List Effect
effect_if b e = if b then e ∷ [] else []

-- What an event of a connection makes the server report.
unfoldable pub expected : ℕ → ℕ → List Effect
expected mask id =
    effect_if (has_bit mask 1) (can_read id)
    ++ (effect_if (has_bit mask 4) (can_write id) ++ effect_if (has_bit mask 8) (error_occurred id))

abbrev with_effects : Server → List Effect → Reply Server (Unit {0})
with_effects s l = gives tt (record s { effects = l })

report-known :
    (b : Bool) (f : ℕ → Effect) (fd id : ℕ) (s : Server)
    → lookup fd s.sockets ≡ some id
    → report b f fd s ≡ with_effects s (s.effects ++ effect_if b (f id))
unfolding socket_get_value
report-known false f fd id s e = ap (with_effects s) (sym (append-nil s.effects))
report-known true f fd id s e = rw (e, socket_get_value) refl

reports-known :
    (a b c : Bool) (fd id : ℕ) (s : Server)
    → lookup fd s.sockets ≡ some id
    → (do report a can_read fd; report b can_write fd; report c error_occurred fd) s
      ≡ with_effects s (
          s.effects
          ++ (effect_if a (can_read id)
              ++ (effect_if b (can_write id) ++ effect_if c (error_occurred id))))
reports-known a b c fd id s e =
    let s₁ = record s { effects = s.effects ++ effect_if a (can_read id) } in
    let s₂ = record s₁ { effects = s₁.effects ++ effect_if b (can_write id) } in
    ap (λ r. and_then r (λ _. report b can_write fd >> report c error_occurred fd))
      (report-known a can_read fd id s e)
    ∙ ap (λ r. and_then r (λ _. report c error_occurred fd)) (report-known b can_write fd id s₁ e)
    ∙ report-known c error_occurred fd id s₂ e
    ∙ ap (with_effects s) (
        append_assoc s₁.effects (effect_if b (can_write id)) (effect_if c (error_occurred id))
        ∙ append_assoc s.effects (effect_if a (can_read id))
            (effect_if b (can_write id) ++ effect_if c (error_occurred id)))

lookup-remove : (fd : ℕ) (t : Sockets) → lookup fd (remove fd t) ≡ none
unfolding lookup remove
lookup-remove fd [] = refl
lookup-remove fd ((g, j) ∷ t) = ground (arith, lookup-remove fd t)

lookup-remove-none : (fd g : ℕ) (t : Sockets) → lookup fd t ≡ none → lookup fd (remove g t) ≡ none
unfolding lookup remove
lookup-remove-none fd g [] h = refl
lookup-remove-none fd g ((i, j) ∷ t) h = ground (arith, lookup-remove-none fd g t)

lookup-remove_all-none :
    (fd : ℕ) (fds : List ℕ) (t : Sockets) → lookup fd t ≡ none → lookup fd (remove_all fds t) ≡ none
unfolding remove_all
lookup-remove_all-none fd [] t h = h
lookup-remove_all-none fd (g ∷ fds) t h =
    lookup-remove_all-none fd fds (remove g t) (lookup-remove-none fd g t h)

lookup-insert : (fd id : ℕ) (s : Sockets) → lookup fd (insert fd id s) ≡ some id
unfolding insert lookup
lookup-insert fd id [] = ground arith
lookup-insert fd id ((g, j) ∷ s) = ground (arith, lookup-insert fd id s)

-- The reports of a descriptor that the map does not hold any more, the first of which is made.
reports-stale :
    (a b c : Bool) (fd : ℕ) (s : Server)
    → lookup fd s.sockets ≡ none
    → a ≡ true
    → (do report a can_read fd; report b can_write fd; report c error_occurred fd) s
      ≡ with_effects
          (record s { sockets = insert fd 0 s.sockets })
          (s.effects
            ++ (effect_if a (can_read 0)
                ++ (effect_if b (can_write 0) ++ effect_if c (error_occurred 0))))
unfolding socket_get_value
reports-stale false b c fd s e h = absurd cc
reports-stale true b c fd s e h =
    let t = record s { sockets = insert fd 0 s.sockets } in
    let k = lookup-insert fd 0 s.sockets in
    let first : report true can_read fd s ≡ report true can_read fd t =
      rw (e, socket_get_value) refl ∙ sym (report-known true can_read fd 0 t k) in
    ap (λ r. and_then r (λ _. report b can_write fd >> report c error_occurred fd)) first
    ∙ reports-known true b c fd 0 t k

-- If an event says that a connection can be read, another thread closes the connection between the
-- check in ProcessEvent and the report of that, and no connection is closed between the reports,
-- then what is reported of the event goes to the id 0, and the map keeps the closed descriptor, with
-- that id: when the system gives the descriptor to the next connection, its acceptance throws.
pub process_event_stale :
    (fd id mask : ℕ) (fds : List ℕ) (c : Closings) (a : Answers) (s : Server)
    → lookup fd s.sockets ≡ some id
    → has_bit mask 1 ≡ true
    → c.before_read ≡ fd ∷ fds
    → c.before_write ≡ []
    → c.before_error ≡ []
    → a.accepted ≡ ok fd
    → (t : Server) × (process_event c fd mask s ≡ gives tt t)
      × (t.effects ≡ s.effects ++ expected mask 0)
      × (lookup fd t.sockets ≡ some 0)
      × (process_new_connection a t ≡ raises runtime_error t)
unfolding process_event check_socket_exist remove_all process_new_connection expected
process_event_stale fd id mask fds c a s e b x y z w =
    let m = remove_all fds (remove fd s.sockets) in
    let gone : lookup fd m ≡ none =
      lookup-remove_all-none fd fds (remove fd s.sockets) (lookup-remove fd s.sockets) in
    let t = record s { sockets = m } in
    (
      record t { sockets = insert fd 0 m; effects = s.effects ++ expected mask 0 },
      rw (e, x, y, z, process_event)
          (reports-stale (has_bit mask 1) (has_bit mask 4) (has_bit mask 8) fd t gone b),
      refl,
      lookup-insert fd 0 m,
      rw (w, lookup-insert fd 0 m) refl,
    )

remove-none : (fd : ℕ) (s : Sockets) → lookup fd s ≡ none → remove fd s ≡ s
unfolding remove lookup
remove-none fd [] h = refl
remove-none fd ((g, j) ∷ s) h = ground (arith, remove-none fd s)

remove-insert : (fd id : ℕ) (s : Sockets) → lookup fd s ≡ none → remove fd (insert fd id s) ≡ s
unfolding insert remove lookup
remove-insert fd id [] h = ground arith
remove-insert fd id ((g, j) ∷ s) h = ground (arith, remove-insert fd id s, remove-none fd s)

append-four :
    (l : List Effect) (a b c d : Effect)
    → (((l ++ a ∷ []) ++ b ∷ []) ++ c ∷ []) ++ d ∷ [] ≡ l ++ a ∷ b ∷ c ∷ d ∷ []
append-four l a b c d =
    append_assoc ((l ++ a ∷ []) ++ b ∷ []) (c ∷ []) (d ∷ [])
    ∙ append_assoc (l ++ a ∷ []) (b ∷ []) (c ∷ d ∷ [])
    ∙ append_assoc l (a ∷ []) (b ∷ c ∷ d ∷ [])

-- A connection that is accepted with a descriptor that the map does not hold, and whose socket is
-- then closed, all calls of the kernel succeeding, leaves the map as it was, with its id used up,
-- if the counter does not wrap around; the kernel has been told to watch the descriptor, not to
-- watch it, and to close it.
pub close-new_connection :
    (fd : ℕ) (s : Server)
    → lookup fd s.sockets ≡ none
    → s.next_conn_id + 1 < 2 ^ 64
    → (do
      process_new_connection (record { accepted = ok fd; added = none })
      close_connection none none fd)
        s
      ≡ gives tt (record s {
        next_conn_id = s.next_conn_id + 1;
        effects =
            s.effects
            ++ watch fd ∷ new_connection (s.next_conn_id + 1) fd ∷ unwatch fd ∷ close_fd fd ∷ [];
      })
unfolding process_new_connection close_connection check_socket_exist epoll_add epoll_delete
    server_close_fd socket_add socket_delete
close-new_connection fd s h b =
    let n = s.next_conn_id + 1 in
    let q : n % 2 ^ 64 ≡ n = omega arith in
    rw (h, q)
      (rw (lookup-insert fd n s.sockets, remove-insert fd n s.sockets h, socket_delete)
        (ap (λ l. gives tt (record s { next_conn_id = n; effects = l }))
          (append-four s.effects (watch fd) (new_connection n fd) (unwatch fd) (close_fd fd))))

-- The reports of a socket map.
abbrev exits : Sockets → List Effect
exits = map (λ p. time_to_exit p.1)

report_exits-exits :
    (t : Sockets) (s : Server)
    → report_exits t s ≡ gives tt (record s { effects = s.effects ++ exits t })
unfolding report_exits
report_exits-exits [] s = ap (with_effects s) (sym (append-nil s.effects))
report_exits-exits ((fd, id) ∷ t) s =
    report_exits-exits t (record s { effects = s.effects ++ time_to_exit id ∷ [] })
    ∙ ap (with_effects s) (append_assoc s.effects (time_to_exit id ∷ []) (exits t))

-- When the server is told to exit after a round whose events do not throw, and the calls of the
-- kernel succeed, each connection that it still has is told once to exit, in the order of the
-- descriptors, and the listening socket is closed; the rounds that would follow do not come about.
pub start_loop-exits :
    (es : List Event) (ws : List (WaitAnswer × Bool)) (s t : Server)
    → process_events es s ≡ gives tt t
    → start_loop ((ready es, true) ∷ ws) none none s
      ≡ gives tt (record t {
        effects = t.effects ++ (exits t.sockets ++ unwatch t.listen_fd ∷ close_fd t.listen_fd ∷ []);
      })
unfolding start_loop process_wait release epoll_delete server_close_fd
start_loop-exits es ws s t e =
    rw (e, start_loop)
      (rw (report_exits-exits t.sockets t, release)
        (ap (with_effects t) (
          append_assoc (t.effects ++ exits t.sockets) (unwatch t.listen_fd ∷ [])
            (close_fd t.listen_fd ∷ [])
          ∙ append_assoc t.effects (exits t.sockets)
              (unwatch t.listen_fd ∷ close_fd t.listen_fd ∷ []))))
