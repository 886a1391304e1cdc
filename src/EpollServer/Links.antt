-- ===== src/EpollServer/Links.antt =====
-- The map of connections and the map of sessions name each other.
use cpp_programming.Base.{
  ℕ, suc, ◌≡◌, refl, ap, ◌∙◌, subst, ◌≢◌, Bool, true, false, ◌&&◌, ◌||◌, not, Option, none, some,
  List, [], ◌∷◌, ◌++◌, if◌then◌else◌, length, is_empty, Exn, runtime_error, Result, ok, err,
}
use cpp_programming.Base.Actions.{give, raise, and_then, ◌>>=◌, ◌>>◌}
use cpp_programming.Base.Actions.{Gives, Gives-bind, Gives-map, Gives-if}
use cpp_programming.Base.Maps.{lookup, has, erase}
use cpp_programming.EpollServer.State.{
  Session, Effect, unwatch, close_fd, World, Act, answered, call, close_conn, Received, read_loop,
  conn_read, keep_written, write_loop, conn_write, keep_read,
}
use cpp_programming.EpollServer.Sessions.{
  split_loop, keep_split, split, ensure, set_sessions, release_session, session_close,
  session_write, session_read,
}
use cpp_programming.Text.{Text}
use cpp_programming.Text.Calls.{SysWrite}

-- A session between two events.
pub record Rests (fd id : ℕ) (x : Session) : Type 0 where
  pub has_fd : x.fd ≡ fd
  pub has_id : x.id ≡ id
  pub open_now : x.is_closed ≡ false
  pub unread : x.is_readable ≡ false
  pub unwritten : x.is_writable ≡ false

pub record Inv (s : World) : Type 0 where
  pub conn_has :
      (fd id : ℕ)
      → lookup fd s.conns ≡ some id
      → (x : Session) × (lookup id s.sessions ≡ some x) × Rests fd id x
  pub session_has :
      (id : ℕ) (x : Session)
      → lookup id s.sessions ≡ some x
      → (lookup x.fd s.conns ≡ some id) × (id ≢ 0)

-- What is kept of the server's maps.
abbrev pub Same : World → World → Type 0
Same s t = (t.conns ≡ s.conns) × (t.sessions ≡ s.sessions) × (t.next_conn_id ≡ s.next_conn_id)

-- What became of a session and the maps.
pub data After (x : Session) (s : World) (y : Session) (t : World) : Type 0 where
  kept : Same s t → Rests x.fd x.id y → After x s y t
  gone :
      t.conns ≡ erase x.fd s.conns
      → t.sessions ≡ erase x.id s.sessions
      → t.next_conn_id ≡ s.next_conn_id
      → After x s y t

pub call-Same : (e : Effect) (s : World) → Gives (λ _. Same s) (call e s)
call-Same e s = go (s.answers (s.effects ++ e ∷ []))
  where
    go :
        (a : Option Exn)
        → Gives (λ _. Same s) (answered a (record s { effects = s.effects ++ e ∷ [] }))
    go none = (refl, refl, refl)
    go (some x) = tt

-- A call that leaves the maps may come before anything that depends on the maps alone.
pub first_call :
    (Q : World → Type 0) (e : Effect) (f : Act (Unit {0})) (s : World)
    → ((t : World) → Same s t → Gives (λ _. Q) (f t))
    → Gives (λ _. Q) (and_then (call e s) (λ _. f))
first_call Q e f s k =
    Gives-bind (λ _. Q) (call e s) (λ _. f)
      (λ a t q. k t (subst (Gives (λ _. Same s)) q (call-Same e s)))

abbrev Closed : ℕ → World → World → Type 0
Closed fd s t =
    (t.conns ≡ erase fd s.conns) × (t.sessions ≡ s.sessions) × (t.next_conn_id ≡ s.next_conn_id)

pub close_conn-Closed : (fd : ℕ) (s : World) → Gives (λ _. Closed fd s) (close_conn fd s)
unfolding close_conn
close_conn-Closed fd s = first_call (Closed fd s) (unwatch fd) _ s (λ t a.
    first_call (Closed fd s) (close_fd fd) _ t
      (λ u b. (ap (erase fd) (b.0 ∙ a.0), b.1 ∙ a.1, b.2 ∙ a.2)))

pub ensured :
    (Q : World → Type 0) (b : Bool) (f : Act (Unit {0})) (s : World)
    → (b ≡ true → Gives (λ _. Q) (f s))
    → Gives (λ _. Q) (and_then (ensure b s) (λ _. f))
ensured Q true f s k = k refl
ensured Q false f s k = tt

abbrev Released : ℕ → World → World → Type 0
Released id s t =
    (t.conns ≡ s.conns) × (t.sessions ≡ erase id s.sessions) × (t.next_conn_id ≡ s.next_conn_id)

pub release_session-Released :
    (id : ℕ) (s : World) → Gives (λ _. Released id s) (release_session id s)
unfolding release_session
release_session-Released id s =
    ensured (Released id s) (has id s.sessions) (λ t. set_sessions (erase id t.sessions) t) s
      (λ e. (refl, refl, refl))

closing-After :
    (x : Session) (s : World)
    → Gives
        (After x s)
        ((do close_conn x.fd; release_session x.id; give (record x { is_closed = true })) s)
closing-After x s = Gives-bind (After x s) (close_conn x.fd s) _ (λ a t q.
    let c : Closed x.fd s t = subst (Gives (λ _. Closed x.fd s)) q (close_conn-Closed x.fd s) in
    Gives-bind (After x s) (release_session x.id t) _ (λ b u r.
      let d : Released x.id t u =
        subst (Gives (λ _. Released x.id t)) r (release_session-Released x.id t) in
      gone (d.0 ∙ c.0) (d.1 ∙ ap (erase x.id) c.1) (d.2 ∙ c.2)))

pub session_close-After : (x : Session) (s : World) → Gives (After x s) (session_close x s)
unfolding session_close
session_close-After x s =
    Gives-if (After x s) x.is_closed (raise runtime_error) _ s tt (closing-After x s)

pub same_session :
    (x y z : Session) (s t : World) → y.fd ≡ x.fd → y.id ≡ x.id → After y s z t → After x s z t
same_session x y z s t e f (kept a r) = kept a (record {
  has_fd = r.has_fd ∙ e;
  has_id = r.has_id ∙ f;
  open_now = r.open_now;
  unread = r.unread;
  unwritten = r.unwritten;
})
same_session x y z s t e f (gone a b c) =
    gone (a ∙ ap (λ k. erase k s.conns) e) (b ∙ ap (λ k. erase k s.sessions) f) c

-- The maps after a change that left them.
After-Same : (x y : Session) (s t u : World) → Same s t → After x t y u → After x s y u
After-Same x y s t u a (kept b r) = kept (b.0 ∙ a.0, b.1 ∙ a.1, b.2 ∙ a.2) r
After-Same x y s t u a (gone c d e) =
    gone (c ∙ ap (erase x.fd) a.0) (d ∙ ap (erase x.id) a.1) (e ∙ a.2)

conn_write-Same : (fd : ℕ) (t : Text) (s : World) → Gives (λ _. Same s) (conn_write fd t s)
unfolding conn_write
conn_write-Same fd [] s = (refl, refl, refl)
conn_write-Same fd (c ∷ t) s = go (write_loop s.writes (c ∷ t))
  where
    go : (r : Result (Text × List SysWrite)) → Gives (λ _. Same s) (keep_written fd (c ∷ t) s r)
    go (ok r) = (refl, refl, refl)
    go (err e) = tt

pub session_write-After :
    (x : Session) (s : World)
    → x.is_closed ≡ false
    → x.is_readable ≡ false
    → Gives (After x s) (session_write x s)
unfolding session_write
session_write-After x s c r = go x.is_writable refl
  where
    go :
        (b : Bool)
        → x.is_writable ≡ b
        → Gives (After x s) (
            (if not b then give x else (do
              rest ← conn_write x.fd x.output
              if x.is_eof && is_empty rest
                  then session_close (record x { output = rest; is_writable = false })
                  else give (record x { output = rest; is_writable = false })))
              s)
    go false w =
        kept (refl, refl, refl)
          (record { has_fd = refl; has_id = refl; open_now = c; unread = r; unwritten = w })
    go true w = Gives-bind (After x s) (conn_write x.fd x.output s) _ (λ rest t q.
        let a : Same s t = subst (Gives (λ _. Same s)) q (conn_write-Same x.fd x.output s) in
        let y = record x { output = rest; is_writable = false } in
        Gives-if (After x s) (x.is_eof && is_empty rest) (session_close y) (give y) t
          (Gives-map (After y t) (After x s) (session_close y t)
            (λ z u d. After-Same x z s t u a (same_session x y z t u refl refl d))
            (session_close-After y t))
          (kept a
            (record { has_fd = refl; has_id = refl; open_now = c; unread = r; unwritten = refl })))

conn_read-Same : (s : World) → Gives (λ _. Same s) (conn_read s)
unfolding conn_read
conn_read-Same s = go (read_loop s.reads [])
  where
    go : (r : Result Received) → Gives (λ _. Same s) (keep_read s r)
    go (ok r) = (refl, refl, refl)
    go (err e) = tt

-- The splitting of the input leaves the rest of the session.
abbrev Splits : Session → World → Session → World → Type 0
Splits x s y t =
    Same s t × (y.fd ≡ x.fd) × (y.id ≡ x.id) × (y.is_closed ≡ x.is_closed) × (y.is_readable ≡ false)

split-Splits : (x : Session) (s : World) → Gives (Splits x s) (split x s)
unfolding split
split-Splits x s = go (split_loop (suc (length x.input)) x.input x.output)
  where
    go : (r : Result (Text × Text)) → Gives (Splits x s) (keep_split x r s)
    go (ok r) = ((refl, refl, refl), refl, refl, refl, refl)
    go (err e) = tt

pub session_read-After :
    (x : Session) (s : World)
    → x.is_closed ≡ false
    → Gives (After x s) (session_read (record x { is_readable = true }) s)
unfolding session_read
session_read-After x s c = Gives-bind (After x s) (conn_read s) _ (λ r t q.
    let a : Same s t = subst (Gives (λ _. Same s)) q (conn_read-Same s) in
    let z = record x {
      is_readable = true;
      is_eof = r.eof || x.is_eof;
      input = x.input ++ r.text;
    } in
    Gives-bind (After x s) (split z t) session_write (λ y u p.
      let b : Splits z t y u = subst (Gives (Splits z t)) p (split-Splits z t) in
      Gives-map (After y u) (After x s) (session_write y u)
        (λ v w d.
          After-Same x v s t w a (After-Same x v t u w b.0 (same_session x y v u w b.1 b.2 d)))
        (session_write-After y u (b.3 ∙ c) b.4)))
