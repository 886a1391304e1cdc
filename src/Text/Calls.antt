-- ===== src/Text/Calls.antt =====
-- What the kernel answers to `read` and `write`, and the buffers of zeros that the programs read
-- into.
use Prim.Native.Nat.{ℕ, zero, suc}
use mathlib.Core.List.{[], ◌∷◌}
use cpp_programming.Text.{Text}

-- EAGAIN.
abbrev pub eagain : ℕ
eagain = 11

-- The bytes that `read` put into the buffer, none at the end of the stream, or its errno.
pub data SysRead : Type 0 where
  got : Text → SysRead
  read_failed : ℕ → SysRead

-- How many bytes `write` took, or its errno.
pub data SysWrite : Type 0 where
  took : ℕ → SysWrite
  write_failed : ℕ → SysWrite

abbrev pub zeros : ℕ → Text
zeros zero = []
zeros (suc n) = 0 ∷ zeros n
