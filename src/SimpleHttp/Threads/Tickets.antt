-- ===== src/SimpleHttp/Threads/Tickets.antt =====
-- Who may use a connection: each step of a thread moves the one right to read it, or to write it,
-- and makes or drops none without marking so in isReading or isWriting.
use cpp_programming.Base.{ℕ, ◌+◌, ◌<◌, ◌≡◌, sym, subst, true, List, [], ◌∷◌, ◌++◌, arith, ◌==◌}
use cpp_programming.Base.Actions.{Reply, gives, raises, give, and_then, state_of}
use cpp_programming.SimpleHttp.Connection.{
  read_event_happened, Manager, in_queue_read, de_queue_read, in_queue_write, de_queue_write,
  set_read_signal, wait_read_signal, set_write_signal, wait_write_signal,
}
use cpp_programming.SimpleHttp.Manager.{
  Kernel, need_in_queue_read, need_re_in_queue_read, need_in_queue_write, need_re_in_queue_write,
  connection_read, write_out,
}
use cpp_programming.SimpleHttp.Manager.Frame.Relations.{bit, count, count-append, Still, Quiet}
use cpp_programming.SimpleHttp.Manager.Frame.{connection_read-Quiet, write_out-Still}
use cpp_programming.SimpleHttp.Threads.{
  Place, at_top, waiting, at_inner, exited, holding, checking, requeueing, reader_step, writer_step,
  Todo, check_read, enter_read, check_write, enter_write, main_step,
}

-- The thread at this place works for the connection.
abbrev pub holds : ℕ → Place → ℕ
holds c (holding d) = bit (c == d)
holds c (checking d) = bit (c == d)
holds c (requeueing d) = bit (c == d)
holds c at_top = 0
holds c waiting = 0
holds c at_inner = 0
holds c exited = 0

abbrev pub held : ℕ → List Place → ℕ
held c [] = 0
held c (p ∷ ps) = holds c p + held c ps

pub held-append : (c : ℕ) (ps qs : List Place) → held c (ps ++ qs) ≡ held c ps + held c qs
held-append c [] qs = omega arith
held-append c (p ∷ ps) qs = omega (arith, held-append c ps qs)

-- The server's thread is about to put the connection into the queue of reading, of writing, or has
-- still to see whether to put it into that of reading.
abbrev enters_read : ℕ → Todo → ℕ
enters_read c (enter_read d) = bit (c == d)
enters_read c (check_read d) = 0
enters_read c (check_write d) = 0
enters_read c (enter_write d) = 0

abbrev enters_write : ℕ → Todo → ℕ
enters_write c (enter_write d) = bit (c == d)
enters_write c (check_read d) = 0
enters_write c (check_write d) = 0
enters_write c (enter_read d) = 0

abbrev checks_read : ℕ → Todo → ℕ
checks_read c (check_read d) = bit (c == d)
checks_read c (enter_read d) = 0
checks_read c (check_write d) = 0
checks_read c (enter_write d) = 0

abbrev pub total : (Todo → ℕ) → List Todo → ℕ
total f [] = 0
total f (t ∷ ts) = f t + total f ts

abbrev pub entering_read : ℕ → List Todo → ℕ
entering_read c = total (enters_read c)

abbrev pub entering_write : ℕ → List Todo → ℕ
entering_write c = total (enters_write c)

abbrev pub checking_read : ℕ → List Todo → ℕ
checking_read c = total (checks_read c)

-- A connection with a reason to be read is marked as being read, or is about to be seen to.
abbrev pub Attended : ℕ → Manager → ℕ → Type 0
Attended c m n = read_event_happened (m.heap c) ≡ true → 0 < bit (m.heap c).is_reading + n

-- What a step of a reading thread does to the connection at `c`.
abbrev pub ReaderMoves : ℕ → Place → Manager → Place → Manager → Type 0
ReaderMoves c p m p' m' =
    (count c m'.read_queue + holds c p' + bit (m.heap c).is_reading
      ≡ count c m.read_queue + holds c p + bit (m'.heap c).is_reading)
    × (count c m'.write_queue + bit (m.heap c).is_writing
        ≡ count c m.write_queue + bit (m'.heap c).is_writing)
    × ((n : ℕ) → Attended c m n → Attended c m' n)

-- And a step of a writing thread.
abbrev pub WriterMoves : ℕ → Place → Manager → Place → Manager → Type 0
WriterMoves c p m p' m' =
    (m'.read_queue ≡ m.read_queue)
    × ((m'.heap c).is_reading ≡ (m.heap c).is_reading)
    × (count c m'.write_queue + holds c p' + bit (m.heap c).is_writing
        ≡ count c m.write_queue + holds c p + bit (m'.heap c).is_writing)
    × ((n : ℕ) → Attended c m n → Attended c m' n)

-- And a step of the server's thread.
abbrev pub MainMoves : ℕ → List Todo → Manager → List Todo → Manager → Type 0
MainMoves c t m t' m' =
    (count c m'.read_queue + entering_read c t' + bit (m.heap c).is_reading
      ≡ count c m.read_queue + entering_read c t + bit (m'.heap c).is_reading)
    × (count c m'.write_queue + entering_write c t' + bit (m.heap c).is_writing
        ≡ count c m.write_queue + entering_write c t + bit (m'.heap c).is_writing)
    × (Attended c m (checking_read c t) → Attended c m' (checking_read c t'))

after_call {ℓ} :
    {A : Type ℓ} (R : Manager → Manager → Type 0) (q : Place) (m : Manager) (r : Reply Manager A)
    (p' : Place) (m' : Manager)
    → R m (state_of r)
    → and_then r (λ _. give q) ≡ gives p' m'
    → (p' ≡ q) × R m m'
after_call R q m (gives a n) p' m' h e =
    let ep : q ≡ p' = cc in let em : n ≡ m' = cc in (sym ep, subst (R m) em h)
after_call R q m (raises x n) p' m' h e = cc

Quiet-Attended : (c n : ℕ) (m m' : Manager) → Quiet c m m' → Attended c m n → Attended c m' n
Quiet-Attended c n m m' q a e = rw q.0.1 (a (q.0.2 e))

pub reader_step-ReaderMoves :
    (c : ℕ) (k : Kernel) (p : Place) (m : Manager) (p' : Place) (m' : Manager)
    → reader_step k p m ≡ gives p' m'
    → ReaderMoves c p m p' m'
unfolding reader_step set_read_signal wait_read_signal de_queue_read need_re_in_queue_read
    in_queue_read
reader_step-ReaderMoves c k at_top m p' m' e = (ground arith, ground arith, λ n a. ground arith)
reader_step-ReaderMoves c k waiting m p' m' e = (ground arith, ground arith, λ n a. ground arith)
reader_step-ReaderMoves c k at_inner m p' m' e = (ground arith, ground arith, λ n a. ground arith)
reader_step-ReaderMoves c k (holding d) m p' m' e =
    let (a, q) =
      after_call (Quiet c) (checking d) m (connection_read k d m) p' m'
        ((connection_read-Quiet c k d).keeps m) e in
    rw a (ground (arith, q), q.1, λ n. Quiet-Attended c n m m' q)
reader_step-ReaderMoves c k (checking d) m p' m' e =
    (ground arith, ground arith, λ n a. ground arith)
reader_step-ReaderMoves c k (requeueing d) m p' m' e =
    (ground (arith, count-append c m.read_queue (d ∷ [])), ground arith, λ n a. ground arith)
reader_step-ReaderMoves c k exited m p' m' e = cc

Still-Attended : (c n : ℕ) (m m' : Manager) → Still c m m' → Attended c m n → Attended c m' n
Still-Attended c n m m' q a e = rw q.0.1 (a (q.0.2 e))

pub writer_step-WriterMoves :
    (c : ℕ) (k : Kernel) (p : Place) (m : Manager) (p' : Place) (m' : Manager)
    → writer_step k p m ≡ gives p' m'
    → WriterMoves c p m p' m'
unfolding writer_step set_write_signal wait_write_signal de_queue_write need_re_in_queue_write
    in_queue_write
writer_step-WriterMoves c k at_top m p' m' e =
    (ground arith, ground arith, ground arith, λ n a. ground arith)
writer_step-WriterMoves c k waiting m p' m' e =
    (ground arith, ground arith, ground arith, λ n a. ground arith)
writer_step-WriterMoves c k at_inner m p' m' e =
    (ground arith, ground arith, ground arith, λ n a. ground arith)
writer_step-WriterMoves c k (holding d) m p' m' e =
    let (a, q) =
      after_call (Still c) (checking d) m (write_out k d m) p' m' ((write_out-Still c k d).keeps m)
        e in
    rw a (q.0.0, q.0.1, ground (arith, q), λ n. Still-Attended c n m m' q)
writer_step-WriterMoves c k (checking d) m p' m' e =
    (ground arith, ground arith, ground arith, λ n a. ground arith)
writer_step-WriterMoves c k (requeueing d) m p' m' e = (
  ground arith,
  ground arith,
  ground (arith, count-append c m.write_queue (d ∷ [])),
  λ n a. ground arith,
)
writer_step-WriterMoves c k exited m p' m' e = cc

pub main_step-MainMoves :
    (c : ℕ) (t : List Todo) (m : Manager) (t' : List Todo) (m' : Manager)
    → main_step t m ≡ gives t' m'
    → MainMoves c t m t' m'
unfolding main_step need_in_queue_read need_in_queue_write in_queue_read in_queue_write
    set_read_signal set_write_signal
main_step-MainMoves c [] m t' m' e = cc
main_step-MainMoves c (check_read d ∷ t) m t' m' e = (ground arith, ground arith, λ a. ground arith)
main_step-MainMoves c (enter_read d ∷ t) m t' m' e =
    (ground (arith, count-append c m.read_queue (d ∷ [])), ground arith, λ a. ground arith)
main_step-MainMoves c (check_write d ∷ t) m t' m' e =
    (ground arith, ground arith, λ a. ground arith)
main_step-MainMoves c (enter_write d ∷ t) m t' m' e =
    (ground arith, ground (arith, count-append c m.write_queue (d ∷ [])), λ a. ground arith)
