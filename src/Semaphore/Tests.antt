-- ===== src/Semaphore/Tests.antt =====
-- Two threads and a semaphore of capacity 1: the first acquires it, the second waits.
use cpp_programming.Base.{ℕ, ◌+◌, ◌≡◌, refl, false, [], ◌∷◌}
use cpp_programming.Semaphore.{
  new, Place, idle, waiting, holding, acquiring, acquire_next, thread_step,
}
use cpp_programming.Semaphore.Interleavings.{
  System, thread, Reach, here, next, started, held, held-capacity,
}

-- The threads stand there, and so much remains.
abbrev at : ℕ → ℕ → Place → Place → System
at left asleep p q = record {
  semaphore = record { capacity = 1; remaining = left; waited = asleep };
  threads = p ∷ q ∷ [];
}

trace : Reach (started 1 2) (at 0 1 holding waiting)
unfolding thread_step acquire_next new
trace =
    next
      (next (next here (thread false [] (idle ∷ []) idle (acquiring 1) refl refl))
        (thread false [] (idle ∷ []) (acquiring 1) holding refl refl))
      (thread false (holding ∷ []) [] idle waiting refl refl)

held-capacity_example : 0 + held (holding ∷ waiting ∷ []) ≡ 1
held-capacity_example = held-capacity 1 2 trace
