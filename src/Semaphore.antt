-- ===== src/Semaphore.antt =====
-- learn_grpc/hello_world/src/lib/utils/semaphore.h: the class Semaphore, by the steps between which
-- other threads may run. Threads acquire it and then release it, again and again.
pub mod Interleavings
mod Tests
use cpp_programming.Base.{
  ℕ, zero, suc, ◌+◌, ◌-◌, ◌*◌, ◌/◌, ◌%◌, ◌^◌, ◌≤◌, ◌<◌, pred, ◌≡◌, refl, sym, ap, ◌∙◌, subst, ◌≢◌,
  ◌↔◌, ◌⊎◌, inl, inr, Bool, true, false, ◌&&◌, ◌||◌, not, Option, none, some, List, [], ◌∷◌, ◌++◌,
  map, append-nil, append_assoc, arith, ltb, leb, ◌==◌, if◌then◌else◌, ==_iff, ==_refl, Bool-cases,
  Option-cases, length, is_empty, get_elem?, set, take, drop, All, length-append, length-drop,
  length-take, take-append-drop, take-append, drop-append, length-set, Exn, runtime_error,
  invalid_argument, out_of_range, out_of_fuel, undefined, blocked, system_error, Outcome, returned,
  threw, Result, ok, err,
}
use cpp_programming.Base.Actions.{
  Reply, gives, raises, Action, give, raise, and_then, ◌>>=◌, ◌>>◌, when, swallow, try_log,
  state_of,
}

pub record Semaphore : Type 0 where
  pub capacity : ℕ
  pub remaining : ℕ
  pub waited : ℕ

abbrev pub Act {ℓ} : Type ℓ → Type ℓ
Act A = Action Semaphore A

-- The constructor.
unfoldable pub new : ℕ → Semaphore
new capacity = record { capacity = capacity; remaining = capacity; waited = 0 }

-- Where a thread stands: before `acquire`, in it with the value that `compare_exchange_weak`
-- expects, or in `cv.wait`; behind it, or in `release` with the value expected. `lost`: `release`
-- has returned false.
pub data Place : Type 0 where
  idle waiting holding lost : Place
  acquiring releasing : ℕ → Place

-- The test of a value that `acquire` has loaded: another exchange, or the wait.
unfoldable pub acquire_next : ℕ → Act Place
acquire_next e s =
    if ltb 0 e then gives (acquiring e) s else gives waiting (record s { waited = s.waited + 1 })

unfoldable pub release_next : ℕ → Act Place
release_next e s = if ltb e s.capacity then gives (releasing e) s else gives lost s

-- `spurious`: compare_exchange_weak fails although the value is the one expected. The notification
-- in `release` only makes a waiting thread test its condition, which it may do at any time.
unfoldable pub thread_step : Bool → Place → Act Place
unfolding acquire_next release_next
thread_step spurious idle s = acquire_next s.remaining s
thread_step spurious (acquiring e) s =
    if not spurious && s.remaining == e
    then gives holding (record s { remaining = e - 1 })
    else acquire_next s.remaining s
thread_step spurious waiting s =
    if ltb 0 s.remaining then gives idle (record s { waited = s.waited - 1 }) else raises blocked s
thread_step spurious holding s = release_next s.remaining s
thread_step spurious (releasing e) s =
    if not spurious && s.remaining == e
    then gives idle (record s { remaining = e + 1 })
    else release_next s.remaining s
thread_step spurious lost s = raises blocked s
