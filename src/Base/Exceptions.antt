-- ===== src/Base/Exceptions.antt =====
-- The outcome of a C++ member function: it returns with the object as it then is, or it throws
-- and leaves the object as it was at that point.
use Prim.Native.Nat.{ℕ}

-- The exceptions of the sources: `std::runtime_error`, those of `std::stoi`, and a failed system
-- call with its errno. The others are no exceptions of C++: a loop's fuel ended, the behaviour is
-- undefined from here on, a call of the kernel has not come back, or `exit` was called.
pub data Exn : Type 0 where
  runtime_error invalid_argument out_of_range : Exn
  out_of_fuel undefined blocked : Exn
  system_error exit_status : ℕ → Exn

pub data Outcome {ℓ} (S : Type ℓ) : Type ℓ where
  returned : S → Outcome S
  threw : Exn → S → Outcome S

infixl 5 ◌>>=◌
abbrev pub ◌>>=◌ {ℓ} : {S : Type ℓ} → Outcome S → (S → Outcome S) → Outcome S
returned s >>= f = f s
threw e s >>= f = threw e s

-- The object after the call, whichever way it ended.
abbrev pub after {ℓ} : {S : Type ℓ} → Outcome S → S
after (returned s) = s
after (threw e s) = s

-- The value of a function that returns or throws, with no object to change.
pub data Result {ℓ} (A : Type ℓ) : Type ℓ where
  ok : A → Result A
  err : Exn → Result A
