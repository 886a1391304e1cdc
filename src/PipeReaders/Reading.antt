-- ===== src/PipeReaders/Reading.antt =====
-- The functions `GetInput`.
use cpp_programming.Base.{
  ℕ, ◌-◌, Option, none, some, List, [], ◌∷◌, ◌++◌, ◌==◌, if◌then◌else◌, length, undefined, blocked,
}
use cpp_programming.Base.Actions.{gives, raises, Action, raise, ◌>>=◌}
use cpp_programming.Text.{Text, c_string}
use cpp_programming.Text.Calls.{eagain, SysRead, got, read_failed, zeros}

-- A line that a program prints. The messages of the version by edge do not name the descriptor.
pub data Message : Type 0 where
  eof_of : ℕ → Message
  read_failed_of : ℕ → ℕ → Message
  input_of : ℕ → Text → Message
  eof : Message
  read_to_end read_failed_with call_failed creat_failed : ℕ → Message
  input : Text → Message
  timed_out : Message

-- What the kernel will answer to the reads that are still to come, and what was printed.
pub record Console : Type 0 where
  pub answers : List SysRead
  pub printed : List Message

abbrev pub Act {ℓ} : Type ℓ → Type ℓ
Act A = Action Console A

abbrev pub print : Message → Act (Unit {0})
print m s = gives tt (record s { printed = s.printed ++ m ∷ [] })

abbrev pub next_answer : List SysRead → Act SysRead
next_answer [] = raise blocked
next_answer (a ∷ answers) = λ s. gives a (record s { answers = answers })

-- `read`.
abbrev pub read : Act SysRead
read s = next_answer s.answers s

abbrev pub buf_size : ℕ
buf_size = 3

-- What stands at the front of the buffer up to a NUL; without one the bytes behind it are read.
abbrev pub buffer_text : Text → Option Text
buffer_text bytes = c_string (bytes ++ zeros (buf_size - length bytes))

abbrev pub print_input : ℕ → Option Text → Act (Unit {0})
print_input fd none = raise undefined
print_input fd (some t) = print (input_of fd t)

abbrev pub on_answer : ℕ → SysRead → Act (Unit {0})
on_answer fd (got []) = print (eof_of fd)
on_answer fd (read_failed code) = print (read_failed_of fd code)
on_answer fd (got (c ∷ bytes)) = print_input fd (buffer_text (c ∷ bytes))

-- GetInput of the versions with `select`, with `poll`, and with epoll by level: one read.
unfoldable pub get_input : ℕ → Act (Unit {0})
unfolding c_string
get_input fd = do a ← read; on_answer fd a

-- What the loop of GetInput by edge prints, and the answers that are left.
pub data Ending : Type 0 where
  ended : List Message → List SysRead → Ending
  overrun not_back : Ending

-- GetInput of the version with epoll by edge: it reads until there is nothing left.
unfoldable pub read_loop : List SysRead → Text → Ending
unfolding c_string
read_loop [] s = not_back
read_loop (got [] ∷ answers) s = ended (eof ∷ []) answers
read_loop (read_failed code ∷ answers) s =
    if code == eagain
    then ended (read_to_end code ∷ input s ∷ []) answers
    else ended (read_failed_with code ∷ []) answers
read_loop (got (c ∷ bytes) ∷ answers) s = elim (buffer_text (c ∷ bytes)) [
  | none ↦ overrun
  | some t ↦ read_loop answers (s ++ t)
]

abbrev pub keep : Ending → Act (Unit {0})
keep (ended ms answers) s = gives tt (record s { answers = answers; printed = s.printed ++ ms })
keep overrun s = raises undefined s
keep not_back s = raises blocked s

unfoldable pub get_all_input : Act (Unit {0})
unfolding read_loop
get_all_input s = keep (read_loop s.answers []) s
