-- ===== src/SimpleHttp/Socket.antt =====
-- simple_http/tcp_server/src/socket_handler.cpp: the class SocketHandler. What the kernel answers
-- to successive calls of `read` and `write` comes as a list; a list that ends stands for a call
-- that has not come back.
pub mod Reading
pub mod Writing
use cpp_programming.Base.{
  ℕ, zero, suc, ◌+◌, ◌-◌, ◌*◌, ◌/◌, ◌%◌, ◌^◌, ◌≤◌, ◌<◌, pred, ◌≡◌, refl, sym, ap, ◌∙◌, subst, ◌≢◌,
  ◌↔◌, ◌⊎◌, inl, inr, Bool, true, false, ◌&&◌, ◌||◌, not, Option, none, some, List, [], ◌∷◌, ◌++◌,
  map, append-nil, append_assoc, arith, ltb, leb, ◌==◌, if◌then◌else◌, ==_iff, ==_refl, Bool-cases,
  Option-cases, length, is_empty, get_elem?, set, take, drop, All, length-append, length-drop,
  length-take, take-append-drop, take-append, drop-append, length-set, Exn, runtime_error,
  invalid_argument, out_of_range, out_of_fuel, system_error, Outcome, returned, threw, ◌>>=◌, after,
  Result, ok, err,
}
use cpp_programming.Text.{Text, c_string}
pub use cpp_programming.Text.Calls.{
  eagain, SysRead, got, read_failed, SysWrite, took, write_failed, zeros,
}

abbrev pub buf_size : ℕ
buf_size = 1000

-- The end of a transfer; `overrun`: the buffer holds no NUL, and `s += &buf[0]` reads past it.
pub data Transfer : Type 0 where
  done : Text → Transfer
  failed : Exn → Transfer
  overrun pending : Transfer

-- The buffer of zeros after `read` has put these bytes at its front.
abbrev pub buffer : Text → Text
buffer bytes = bytes ++ zeros (buf_size - length bytes)

unfoldable pub read_loop : List SysRead → Text → Transfer
read_loop [] s = pending
read_loop (read_failed code ∷ answers) s =
    if code == eagain then done s else failed (system_error code)
read_loop (got [] ∷ answers) s = done s
read_loop (got (c ∷ bytes) ∷ answers) s = elim (c_string (buffer (c ∷ bytes))) [
  | none ↦ overrun
  | some t ↦ read_loop answers (s ++ t)
]

unfoldable pub read : List SysRead → Transfer
unfolding read_loop
read answers = read_loop answers []

unfoldable pub write_loop : List SysWrite → Text → Transfer
write_loop answers [] = done []
write_loop [] (c ∷ s) = pending
write_loop (write_failed code ∷ answers) (c ∷ s) =
    if code == eagain then done (c ∷ s) else failed (system_error code)
write_loop (took n ∷ answers) (c ∷ s) = write_loop answers (drop n (c ∷ s))

-- An empty text is returned at once; the loop does the same with it.
unfoldable pub write : List SysWrite → Text → Transfer
unfolding write_loop
write answers s = if is_empty s then done [] else write_loop answers s
