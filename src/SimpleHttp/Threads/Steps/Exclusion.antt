-- ===== src/SimpleHttp/Threads/Steps/Exclusion.antt =====
-- What the invariant of the threads assures each connection.
use cpp_programming.Base.{
  ℕ, ◌+◌, ◌≤◌, ◌<◌, ◌≡◌, ap, inl, inr, Bool, true, false, ◌||◌, not, List, [], ◌∷◌, ◌++◌, arith,
  Bool-cases,
}
use cpp_programming.Base.Actions.{gives}
use cpp_programming.SimpleHttp.Connection.{
  read_event_happened, write_event_happened, Manager, update, has_content_to_write,
}
use cpp_programming.SimpleHttp.Manager.{
  set_reading, set_writing, need_re_in_queue_read, need_re_in_queue_write,
}
use cpp_programming.SimpleHttp.Manager.Frame.Relations.{count}
use cpp_programming.SimpleHttp.Threads.{Place, checking, System}
use cpp_programming.SimpleHttp.Threads.Tickets.{holds, held, held-append}
use cpp_programming.SimpleHttp.Threads.Steps.{Reach, started, Reach-Inv}

-- Two threads among the others.
two-held :
    (c : ℕ) (ps : List Place) (l k r : List Place) (p q : Place)
    → ps ≡ l ++ p ∷ (k ++ q ∷ r)
    → holds c p + holds c q ≤ held c ps
two-held c ps l k r p q e =
    omega (arith, ap (held c) e, held-append c l (p ∷ (k ++ q ∷ r)), held-append c k (q ∷ r))

-- Two reading threads never work for the same connection, and while one works for it, the
-- connection does not stand in the queue of reading.
pub readers_exclude :
    (closed : Bool) (n c : ℕ) {s : System} (l k r : List Place) (p q : Place)
    → Reach (started closed n) s
    → s.readers ≡ l ++ p ∷ (k ++ q ∷ r)
    → holds c p ≡ 1
    → (holds c q ≡ 0) × (count c s.manager.read_queue ≡ 0)
readers_exclude closed n c {s} l k r p q reach e h =
    let v = Reach-Inv closed n c reach in
    ground (arith, v.reading_once, two-held c s.readers l k r p q e)

-- Two writing threads never work for the same connection, and while one works for it, the
-- connection does not stand in the queue of writing.
pub writers_exclude :
    (closed : Bool) (n c : ℕ) {s : System} (l k r : List Place) (p q : Place)
    → Reach (started closed n) s
    → s.writers ≡ l ++ p ∷ (k ++ q ∷ r)
    → holds c p ≡ 1
    → (holds c q ≡ 0) × (count c s.manager.write_queue ≡ 0)
writers_exclude closed n c {s} l k r p q reach e h =
    let v = Reach-Inv closed n c reach in
    ground (arith, v.writing_once, two-held c s.writers l k r p q e)

one-held : (c : ℕ) (ps l r : List Place) (p : Place) → ps ≡ l ++ p ∷ r → holds c p ≤ held c ps
one-held c ps l r p e = omega (arith, ap (held c) e, held-append c l (p ∷ r))

marked_read :
    (c : ℕ) (m : Manager)
    → (m.heap c).is_reading ≡ true
    → (b : Bool) × (m' : Manager) × (need_re_in_queue_read c m ≡ gives b m')
unfolding need_re_in_queue_read
marked_read c m h = elim (Bool-cases (read_event_happened (m.heap c))) [
  | inl e ↦ (true, m, ground arith)
  | inr e ↦
      (false, record m { heap = update m.heap c (set_reading false (m.heap c)) }, ground arith)
]

marked_write :
    (c : ℕ) (m : Manager)
    → (m.heap c).is_writing ≡ true
    → (b : Bool) × (m' : Manager) × (need_re_in_queue_write c m ≡ gives b m')
unfolding need_re_in_queue_write
marked_write c m h =
    let idle =
      not (write_event_happened (m.heap c)) || not (has_content_to_write (m.heap c).id m) in
    elim (Bool-cases idle) [
      | inl e ↦
          (false, record m { heap = update m.heap c (set_writing false (m.heap c)) }, rw (h, e))
      | inr e ↦ (true, m, rw (h, e))
    ]

-- A reading thread that has worked for a connection finds it marked as being read: the exception
-- by which NeedReInQueueRead guards against another mark is never thrown.
pub reader_check_gives :
    (closed : Bool) (n c : ℕ) {s : System} (l r : List Place)
    → Reach (started closed n) s
    → s.readers ≡ l ++ checking c ∷ r
    → (b : Bool) × (m : Manager) × (need_re_in_queue_read c s.manager ≡ gives b m)
reader_check_gives closed n c {s} l r reach e =
    let v = Reach-Inv closed n c reach in
    marked_read c s.manager
      (ground (arith, v.reading_once, one-held c s.readers l r (checking c) e))

-- The same for a writing thread and NeedReInQueueWrite.
pub writer_check_gives :
    (closed : Bool) (n c : ℕ) {s : System} (l r : List Place)
    → Reach (started closed n) s
    → s.writers ≡ l ++ checking c ∷ r
    → (b : Bool) × (m : Manager) × (need_re_in_queue_write c s.manager ≡ gives b m)
writer_check_gives closed n c {s} l r reach e =
    let v = Reach-Inv closed n c reach in
    marked_write c s.manager
      (ground (arith, v.writing_once, one-held c s.writers l r (checking c) e))

-- Once the server's thread is done with its events, a connection with bytes to read or an error
-- stands in the queue of reading or is worked for by a reading thread: no event of reading is lost.
pub read_event_attended :
    (closed : Bool) (n c : ℕ) {s : System}
    → Reach (started closed n) s
    → s.todos ≡ []
    → read_event_happened (s.manager.heap c) ≡ true
    → 0 < count c s.manager.read_queue + held c s.readers
read_event_attended closed n c {s} reach e h =
    let v = Reach-Inv closed n c reach in ground (arith, v.reading_once, v.attended h)
