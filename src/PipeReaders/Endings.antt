-- ===== src/PipeReaders/Endings.antt =====
-- What GetInput by edge prints.
use cpp_programming.Base.{
  ℕ, ◌≤◌, ◌≡◌, refl, sym, ap, ◌∙◌, some, List, [], ◌∷◌, ◌++◌, map, append-nil, append_assoc, arith,
  ◌==◌, false, length, All,
}
use cpp_programming.Base.Actions.{gives}
use cpp_programming.Text.{Text}
use cpp_programming.Text.Calls.{eagain, SysRead, got, read_failed}
use cpp_programming.EpollServer.Pieces.{IsNulFree, c_string-room}
use cpp_programming.EpollServer.Frames.{join}
use cpp_programming.PipeReaders.Reading.{
  Message, eof, read_to_end, read_failed_with, input, buffer_text, ended, read_loop, keep,
  get_all_input,
}

-- Bytes that leave room for a NUL in the buffer.
abbrev pub Fits : Text → Type 0
Fits [] = ⊥
Fits (c ∷ bytes) = (length bytes ≤ 1) × IsNulFree (c ∷ bytes)

buffer_text-Fits : (t : Text) → Fits t → buffer_text t ≡ some t
buffer_text-Fits [] h = absurd h
buffer_text-Fits (a ∷ []) h = c_string-room (a ∷ []) (0 ∷ []) h.1
buffer_text-Fits (a ∷ b ∷ []) h = c_string-room (a ∷ b ∷ []) [] h.1
buffer_text-Fits (a ∷ b ∷ c ∷ t) h = absurd (omega (arith, h.0))

read_loop-piece :
    (t s : Text) (answers : List SysRead)
    → Fits t
    → read_loop (got t ∷ answers) s ≡ read_loop answers (s ++ t)
unfolding read_loop
read_loop-piece [] s answers h = absurd h
read_loop-piece (c ∷ t) s answers h = rw (read_loop, buffer_text-Fits (c ∷ t) h) refl

read_loop-pieces :
    (ts : List Text) (s : Text) (rest : List SysRead)
    → All Fits ts
    → read_loop (map got ts ++ rest) s ≡ read_loop rest (s ++ join ts)
read_loop-pieces [] s rest h = ap (read_loop rest) (sym (append-nil s))
read_loop-pieces (t ∷ ts) s rest h =
    read_loop-piece t s (map got ts ++ rest) h.0
    ∙ read_loop-pieces ts (s ++ t) rest h.1
    ∙ ap (read_loop rest) (append_assoc s t (join ts))

-- What ends the reading: there is nothing more for now, the end of the file, or a failure.
pub data Last : Type 0 where
  no_more at_end : Last
  fails : (code : ℕ) → (code == eagain) ≡ false → Last

abbrev pub answer_of : Last → SysRead
answer_of no_more = read_failed eagain
answer_of at_end = got []
answer_of (fails code e) = read_failed code

abbrev pub report : Text → Last → List Message
report s no_more = read_to_end eagain ∷ input s ∷ []
report s at_end = eof ∷ []
report s (fails code e) = read_failed_with code ∷ []

read_loop-last :
    (s : Text) (l : Last) (rest : List SysRead)
    → read_loop (answer_of l ∷ rest) s ≡ ended (report s l) rest
unfolding read_loop
read_loop-last s no_more rest = refl
read_loop-last s at_end rest = refl
read_loop-last s (fails code e) rest = rw (read_loop, e) refl

-- GetInput by edge reads pieces of one byte or two without a NUL up to the first answer without
-- bytes. If that says that there is nothing more for now, it prints all of them in order; at the
-- end of the file, and if the read fails, it prints none of them: what it has read is lost.
pub get_all_input-report :
    (ts : List Text) (l : Last) (rest : List SysRead) (printed : List Message)
    → All Fits ts
    → get_all_input (record { answers = map got ts ++ answer_of l ∷ rest; printed = printed })
      ≡ gives tt (record { answers = rest; printed = printed ++ report (join ts) l })
unfolding get_all_input
get_all_input-report ts l rest printed h =
    ap (λ e. keep e (record { answers = map got ts ++ answer_of l ∷ rest; printed = printed }))
      (read_loop-pieces ts [] (answer_of l ∷ rest) h ∙ read_loop-last (join ts) l rest)
