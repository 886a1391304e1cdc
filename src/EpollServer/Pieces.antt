-- ===== src/EpollServer/Pieces.antt =====
-- The pieces that ConnHandler::Read gets into its buffer of three bytes.
use cpp_programming.Base.{
  ℕ, ◌-◌, ◌≤◌, ◌<◌, ◌≡◌, refl, ◌⊎◌, inl, inr, false, none, some, List, [], ◌∷◌, ◌++◌, append-nil,
  arith, ◌==◌, length, All, undefined, err,
}
use cpp_programming.EpollServer.State.{read_loop}
use cpp_programming.Text.{Text, c_string}
use cpp_programming.Text.Calls.{SysRead, got, zeros}

-- No byte is NUL.
abbrev pub IsNulFree : Text → Type 0
IsNulFree = All (λ c. (c == 0) ≡ false)

pub c_string-room : (t u : Text) → IsNulFree t → c_string (t ++ 0 ∷ u) ≡ some t
unfolding c_string
c_string-room [] u f = refl
c_string-room (c ∷ t) u f = ground (arith, c_string-room t u f.1)

c_string-full : (t : Text) → IsNulFree t → c_string t ≡ none
unfolding c_string
c_string-full [] f = refl
c_string-full (c ∷ t) f = ground (arith, c_string-full t f.1)

read_loop_room :
    (c : ℕ) (t u s : Text) (answers : List SysRead)
    → zeros (3 - length (c ∷ t)) ≡ 0 ∷ u
    → IsNulFree (c ∷ t)
    → read_loop (got (c ∷ t) ∷ answers) s ≡ read_loop answers (s ++ c ∷ t)
unfolding read_loop
read_loop_room c t u s answers e f = rw (read_loop, e, c_string-room (c ∷ t) u f) refl

read_loop_full :
    (c : ℕ) (t s : Text) (answers : List SysRead)
    → zeros (3 - length (c ∷ t)) ≡ []
    → IsNulFree (c ∷ t)
    → read_loop (got (c ∷ t) ∷ answers) s ≡ err undefined
unfolding read_loop
read_loop_full c t s answers e f =
    rw (read_loop, e, append-nil (c ∷ t), c_string-full (c ∷ t) f) refl

-- A piece of one byte or two without a NUL goes behind the text that was read before it. One of
-- three bytes fills the buffer, in which there is then no NUL: what `Read` appends runs past its end.
pub read_loop-got :
    (t s : Text) (answers : List SysRead)
    → 1 ≤ length t
    → length t ≤ 3
    → IsNulFree t
    → ((length t ≡ 3) × (read_loop (got t ∷ answers) s ≡ err undefined))
      ⊎ ((length t < 3) × (read_loop (got t ∷ answers) s ≡ read_loop answers (s ++ t)))
read_loop-got [] s answers m n f = absurd (omega arith)
read_loop-got (a ∷ []) s answers m n f =
    inr (omega arith, read_loop_room a [] (0 ∷ []) s answers refl f)
read_loop-got (a ∷ b ∷ []) s answers m n f =
    inr (omega arith, read_loop_room a (b ∷ []) [] s answers refl f)
read_loop-got (a ∷ b ∷ c ∷ []) s answers m n f =
    inl (refl, read_loop_full a (b ∷ c ∷ []) s answers refl f)
read_loop-got (a ∷ b ∷ c ∷ d ∷ t) s answers m n f = absurd (omega arith)
