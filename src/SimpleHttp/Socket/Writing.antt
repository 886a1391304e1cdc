-- ===== src/SimpleHttp/Socket/Writing.antt =====
-- What SocketHandler::Write hands to the kernel, and what it keeps.
use cpp_programming.Base.{
  ℕ, zero, suc, ◌+◌, ◌≤◌, ◌≡◌, refl, sym, ap, ◌∙◌, List, [], ◌∷◌, arith, length, drop,
}
use cpp_programming.Text.{Text}
use cpp_programming.Text.Find.{drop-drop}
use cpp_programming.SimpleHttp.Socket.{
  SysWrite, took, write_failed, done, eagain, write_loop, write,
}

-- How many bytes these answers took, up to the first failure.
abbrev pub total_took : List SysWrite → ℕ
total_took [] = 0
total_took (took n ∷ answers) = n + total_took answers
total_took (write_failed code ∷ answers) = 0

-- The first failure is EAGAIN.
abbrev pub Blocks : List SysWrite → Type 0
Blocks [] = ⊥
Blocks (took n ∷ answers) = Blocks answers
Blocks (write_failed code ∷ answers) = code ≡ eagain

drop-all : (n : ℕ) (s : Text) → length s ≤ n → drop n s ≡ []
drop-all zero [] h = refl
drop-all zero (c ∷ s) h = absurd (omega arith)
drop-all (suc n) [] h = refl
drop-all (suc n) (c ∷ s) h = drop-all n s (omega arith)

write_loop-Blocks :
    (answers : List SysWrite) (s : Text)
    → Blocks answers
    → write_loop answers s ≡ done (drop (total_took answers) s)
unfolding write_loop
write_loop-Blocks [] s h = elim h [ ]
write_loop-Blocks (took n ∷ answers) [] h =
    ap done (sym (drop-all (n + total_took answers) [] (omega arith)))
write_loop-Blocks (took n ∷ answers) (c ∷ s) h =
    write_loop-Blocks answers (drop n (c ∷ s)) h
    ∙ ap done (sym (drop-drop n (total_took answers) (c ∷ s)))
write_loop-Blocks (write_failed code ∷ answers) [] h = refl
write_loop-Blocks (write_failed code ∷ answers) (c ∷ s) h = ground arith

-- If the kernel takes bytes until it would block, what is returned is the text without the bytes
-- that it took, and nothing if it took them all.
pub write-Blocks :
    (answers : List SysWrite) (s : Text)
    → Blocks answers
    → write answers s ≡ done (drop (total_took answers) s)
unfolding write
write-Blocks answers [] h = write_loop-Blocks answers [] h
write-Blocks answers (c ∷ s) h = write_loop-Blocks answers (c ∷ s) h
