-- ===== src/EpollServer/Frames.antt =====
-- The texts up to full stops that Session::Read takes out of its input.
use cpp_programming.Base.{
  ℕ, zero, suc, ◌+◌, ◌≤◌, ◌<◌, ◌≡◌, refl, sym, ap, ◌∙◌, subst, inl, inr, false, none, some, List,
  [], ◌∷◌, ◌++◌, append-nil, append_assoc, arith, ◌==◌, if◌then◌else◌, Bool-cases, Option-cases,
  length, take, drop, All, length-drop, ok,
}
use cpp_programming.Text.{Text, find}
use cpp_programming.Text.Literals.{codes}
use cpp_programming.Base.Actions.{gives, give, and_then, ◌>>=◌}
use cpp_programming.EpollServer.State.{Session, World, Act}
use cpp_programming.EpollServer.Sessions.{reverse, split_loop, keep_split, split}
use cpp_programming.Text.Find.{find-bound}

-- The same by bytes: a full stop ends a text, which goes to the output turned around and in
-- brackets; any other byte is put behind the input.
abbrev pub take_byte : ℕ → Text × Text → Text × Text
take_byte c (input, output) =
    if 46 == c
    then ([], output ++ (codes "[" ++ (reverse input ++ codes "]")))
    else (input ++ c ∷ [], output)

unfoldable pub take_bytes : Text → Text × Text → Text × Text
take_bytes [] p = p
take_bytes (c ∷ s) p = take_bytes s (take_byte c p)

take_bytes-append :
    (s t : Text) (p : Text × Text) → take_bytes (s ++ t) p ≡ take_bytes t (take_bytes s p)
unfolding take_bytes
take_bytes-append [] t p = refl
take_bytes-append (c ∷ s) t p = take_bytes-append s t (take_byte c p)

-- No byte is a full stop.
abbrev pub IsOpen : Text → Type 0
IsOpen = All (λ c. (46 == c) ≡ false)

take_bytes-IsOpen :
    (s input output : Text) → IsOpen s → take_bytes s (input, output) ≡ (input ++ s, output)
unfolding take_bytes
take_bytes-IsOpen [] input output h = ap (λ t. (t, output)) (sym (append-nil input))
take_bytes-IsOpen (c ∷ s) input output h = rw h.0 (
    take_bytes-IsOpen s (input ++ c ∷ []) output h.1
    ∙ ap (λ t. (t, output)) (append_assoc input (c ∷ []) s))

find-none : (s : Text) → find (codes ".") s ≡ none → IsOpen s
unfolding find
find-none [] e = tt
find-none (c ∷ s) e = ground (arith, find-none s)

find-some-IsOpen : (s : Text) (pos : ℕ) → find (codes ".") s ≡ some pos → IsOpen (take pos s)
unfolding find
find-some-IsOpen [] pos e = cc
find-some-IsOpen (c ∷ s) zero e = tt
find-some-IsOpen (c ∷ s) (suc pos) e = ground (arith, find-some-IsOpen s pos)

find-some :
    (s : Text) (pos : ℕ) → find (codes ".") s ≡ some pos → s ≡ take pos s ++ 46 ∷ drop (pos + 1) s
unfolding find
find-some [] pos e = cc
find-some (c ∷ s) zero e = let q : 46 ≡ c = ground arith in ap (λ d. d ∷ s) (sym q)
find-some (c ∷ s) (suc pos) e =
    let n : suc pos + 1 ≡ suc (pos + 1) = omega arith in
    let q : find (codes ".") s ≡ some pos = ground arith in
    subst (λ m. c ∷ s ≡ c ∷ (take pos s ++ 46 ∷ drop m (c ∷ s))) (sym n)
      (ap (λ u. c ∷ u) (find-some s pos q))

-- A text and its full stop.
take_bytes-stop :
    (s t output : Text)
    → IsOpen s
    → take_bytes (s ++ 46 ∷ t) ([], output)
      ≡ take_bytes t ([], output ++ (codes "[" ++ (reverse s ++ codes "]")))
unfolding take_bytes
take_bytes-stop s t output h =
    take_bytes-append s (46 ∷ t) ([], output)
    ∙ ap (take_bytes (46 ∷ t)) (take_bytes-IsOpen s [] output h)

split_loop_stop :
    (f pos : ℕ) (input output : Text)
    → find (codes ".") input ≡ some pos
    → split_loop (suc f) input output
      ≡ split_loop f
          (drop (pos + 1) input)
          (output ++ (codes "[" ++ (reverse (take pos input) ++ codes "]")))
unfolding split_loop
split_loop_stop f pos input output e = rw (split_loop, e) refl

split_loop_end :
    (f : ℕ) (input output : Text)
    → find (codes ".") input ≡ none
    → split_loop (suc f) input output ≡ ok (input, output)
unfolding split_loop
split_loop_end f input output e = rw (split_loop, e) refl

length-drop_suc : (n : ℕ) (s : Text) → n + 1 ≤ length s → length (drop (n + 1) s) < length s
length-drop_suc n s h = omega (arith, length-drop (n + 1) s)

split_loop-take_bytes :
    (f : ℕ) (input output : Text)
    → length input < f
    → split_loop f input output ≡ ok (take_bytes input ([], output))
split_loop-take_bytes zero input output h = absurd (omega arith)
split_loop-take_bytes (suc f) input output h = elim (Option-cases (find (codes ".") input)) [
  | inl e ↦
      split_loop_end f input output e
      ∙ ap ok (sym (take_bytes-IsOpen input [] output (find-none input e)))
  | inr (pos, e) ↦
      let small = length-drop_suc pos input (find-bound (codes ".") input pos e) in
      split_loop_stop f pos input output e
      ∙ split_loop-take_bytes f (drop (pos + 1) input) _ (omega (arith, small))
      ∙ ap ok (
          sym (
            take_bytes-stop (take pos input) (drop (pos + 1) input) output
              (find-some-IsOpen input pos e)))
      ∙ ap (λ s. ok (take_bytes s ([], output))) (sym (find-some input pos e))
]

IsOpen-snoc : (s : Text) (c : ℕ) → IsOpen s → (46 == c) ≡ false → IsOpen (s ++ c ∷ [])
IsOpen-snoc [] c h e = (e, tt)
IsOpen-snoc (d ∷ s) c h e = (h.0, IsOpen-snoc s c h.1 e)

-- What stays in the input has no full stop.
take_bytes-input-IsOpen :
    (s input output : Text) → IsOpen input → IsOpen ((take_bytes s (input, output)).0)
unfolding take_bytes
take_bytes-input-IsOpen [] input output h = h
take_bytes-input-IsOpen (c ∷ s) input output h = elim (Bool-cases (46 == c)) [
  | inl e ↦ rw (take_bytes, e) (take_bytes-input-IsOpen s [] _ tt)
  | inr e ↦
      rw (take_bytes, e)
        (take_bytes-input-IsOpen s (input ++ c ∷ []) output (IsOpen-snoc input c h e))
]

-- The reads of a session: each puts a text behind the input.
unfoldable pub split_all : List Text → Session → Act Session
unfolding split
split_all [] x = give x
split_all (t ∷ ts) x = do y ← split (record x { input = x.input ++ t }); split_all ts y

abbrev pub join : List Text → Text
join [] = []
join (t ∷ ts) = t ++ join ts

split-take_bytes :
    (t : Text) (x : Session) (w : World)
    → IsOpen x.input
    → split (record x { input = x.input ++ t }) w
      ≡ keep_split (record x { input = x.input ++ t }) (ok (take_bytes t (x.input, x.output))) w
unfolding split
split-take_bytes t x w h =
    ap (λ r. keep_split (record x { input = x.input ++ t }) r w)
      (split_loop-take_bytes (suc (length (x.input ++ t))) (x.input ++ t) x.output (omega arith)
        ∙ ap ok (
            take_bytes-append x.input t ([], x.output)
            ∙ ap (take_bytes t) (take_bytes-IsOpen x.input [] x.output h)))

-- However the bytes that a session gets are cut into reads, the loop of `Read` ends, and the input
-- and the output behind all of them are those that come of the bytes one by one: each text up to a
-- full stop goes to the output, turned around and in brackets, and what follows the last full stop
-- stays in the input, if none was in the input before.
pub split_all-take_bytes :
    (ts : List Text) (x : Session) (w : World)
    → IsOpen x.input
    → (y : Session) × (split_all ts x w ≡ gives y w)
      × ((y.input, y.output) ≡ take_bytes (join ts) (x.input, x.output))
unfolding split_all take_bytes
split_all-take_bytes [] x w h = (x, refl, refl)
split_all-take_bytes (t ∷ ts) x w h =
    let p = take_bytes t (x.input, x.output) in
    let z = record x { input = p.0; output = p.1; is_readable = false } in
    let (y, e, f) = split_all-take_bytes ts z w (take_bytes-input-IsOpen t x.input x.output h) in
    (
      y,
      ap (λ r. and_then r (split_all ts)) (split-take_bytes t x w h) ∙ e,
      f ∙ sym (take_bytes-append t (join ts) (x.input, x.output)),
    )
