-- ===== src/SimpleHttp/Socket/Reading.antt =====
-- What SocketHandler::Read makes of the bytes that arrive.
use cpp_programming.Base.{
  ℕ, zero, suc, ◌-◌, ◌<◌, ◌≡◌, refl, sym, ap, ◌∙◌, ◌≢◌, false, not, none, some, List, [], ◌∷◌, ◌++◌,
  append-nil, append_assoc, arith, ◌==◌, length, All, system_error,
}
use cpp_programming.Text.{Text, c_string, take_while}
use cpp_programming.SimpleHttp.Socket.{
  SysRead, got, read_failed, Transfer, done, failed, overrun, eagain, buf_size, zeros, read_loop,
  read,
}

-- The bytes before the first NUL.
abbrev pub before_nul : Text → Text
before_nul = take_while (λ c. not (c == 0))

-- A piece that leaves room for a NUL in the buffer, and is not the end of the stream.
abbrev pub IsPiece : Text → Type 0
IsPiece t = (0 < length t) × (length t < buf_size)

abbrev pub gots : List Text → List SysRead → List SysRead
gots [] answers = answers
gots (t ∷ ts) answers = got t ∷ gots ts answers

abbrev pub join_before_nul : List Text → Text
join_before_nul [] = []
join_before_nul (t ∷ ts) = before_nul t ++ join_before_nul ts

c_string-zeros : (t : Text) (n : ℕ) → 0 < n → c_string (t ++ zeros n) ≡ some (before_nul t)
unfolding c_string
c_string-zeros [] zero h = absurd (omega arith)
c_string-zeros [] (suc n) h = refl
c_string-zeros (c ∷ t) n h = ground (arith, c_string-zeros t n h)

-- No byte is NUL.
abbrev pub IsNulFree : Text → Type 0
IsNulFree = All (λ c. (c == 0) ≡ false)

c_string-IsNulFree : (t : Text) → IsNulFree t → c_string t ≡ none
unfolding c_string
c_string-IsNulFree [] h = refl
c_string-IsNulFree (c ∷ t) h = ground (arith, c_string-IsNulFree t h.1)

read_loop-got :
    (t : Text) (answers : List SysRead) (s : Text)
    → IsPiece t
    → read_loop (got t ∷ answers) s ≡ read_loop answers (s ++ before_nul t)
unfolding read_loop
read_loop-got [] answers s h = absurd (omega arith)
read_loop-got (c ∷ t) answers s h =
    rw (c_string-zeros (c ∷ t) (buf_size - length (c ∷ t)) (omega arith), read_loop)

-- Pieces that fit the buffer are put together, each cut at its first NUL, whatever the read ends
-- with.
pub read_loop-gots :
    (ts : List Text) (answers : List SysRead) (s : Text)
    → All IsPiece ts
    → read_loop (gots ts answers) s ≡ read_loop answers (s ++ join_before_nul ts)
read_loop-gots [] answers s h = ap (read_loop answers) (sym (append-nil s))
read_loop-gots (t ∷ ts) answers s h =
    read_loop-got t (gots ts answers) s h.0
    ∙ read_loop-gots ts answers (s ++ before_nul t) h.1
    ∙ ap (read_loop answers) (append_assoc s (before_nul t) (join_before_nul ts))

-- The answers that end a read: no more for now, the end of the stream, or an error.
pub data IsLast : SysRead → Type 0 where
  again : IsLast (read_failed eagain)
  eof : IsLast (got [])
  broken : (code : ℕ) → code ≢ eagain → IsLast (read_failed code)

abbrev pub outcome_of : {a : SysRead} → IsLast a → Text → Transfer
outcome_of again s = done s
outcome_of eof s = done s
outcome_of (broken code _) s = failed (system_error code)

read_loop-IsLast :
    {a : SysRead} (l : IsLast a) (answers : List SysRead) (s : Text)
    → read_loop (a ∷ answers) s ≡ outcome_of l s
unfolding read_loop
read_loop-IsLast again answers s = refl
read_loop-IsLast eof answers s = refl
read_loop-IsLast (broken code h) answers s = ground arith

-- A read of pieces that each leave room in the buffer, up to EAGAIN, the end of the stream or an
-- error, yields the pieces put together, each without what follows its first NUL, or the error.
pub read-gots :
    (ts : List Text) (a : SysRead) (l : IsLast a) (answers : List SysRead)
    → All IsPiece ts
    → read (gots ts (a ∷ answers)) ≡ outcome_of l (join_before_nul ts)
unfolding read
read-gots ts a l answers h =
    read_loop-gots ts (a ∷ answers) [] h ∙ read_loop-IsLast l answers (join_before_nul ts)

read_loop-full :
    (t : Text) (answers : List SysRead) (s : Text)
    → length t ≡ buf_size
    → IsNulFree t
    → read_loop (got t ∷ answers) s ≡ overrun
unfolding read_loop
read_loop-full [] answers s h f = absurd (omega arith)
read_loop-full (c ∷ t) answers s h f =
    let z : buf_size - length (c ∷ t) ≡ 0 = omega arith in
    rw (z, append-nil (c ∷ t), c_string-IsNulFree (c ∷ t) f, read_loop)

-- A piece without a NUL that fills the buffer makes the read run past the end of it.
pub read-overrun :
    (ts : List Text) (t : Text) (answers : List SysRead)
    → All IsPiece ts
    → length t ≡ buf_size
    → IsNulFree t
    → read (gots ts (got t ∷ answers)) ≡ overrun
unfolding read
read-overrun ts t answers h e f =
    read_loop-gots ts (got t ∷ answers) [] h ∙ read_loop-full t answers (join_before_nul ts) e f
