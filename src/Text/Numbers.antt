-- ===== src/Text/Numbers.antt =====
-- `stoi` reads back what `to_string` prints.
use cpp_programming.Base.{
  ℕ, zero, suc, ◌+◌, ◌/◌, ◌%◌, ◌^◌, ◌<◌, ◌≡◌, refl, ap, ◌∙◌, true, false, [], ◌∷◌, arith, is_empty,
  All, ok,
}
use cpp_programming.Text.{Text, is_digit, take_while, pos, decimal, stoi, to_string, to_string_loop}

decimal-to_string_loop :
    (f n : ℕ) (acc : Text) → n < f → decimal 0 (to_string_loop f n acc) ≡ decimal n acc
unfolding to_string_loop decimal
decimal-to_string_loop zero n acc h = absurd (omega arith)
decimal-to_string_loop (suc f) n acc h =
    ground (arith, decimal-to_string_loop f (n / 10) ((48 + n % 10) ∷ acc))

decimal-to_string : (n : ℕ) → decimal 0 (to_string n) ≡ n
unfolding to_string decimal
decimal-to_string n = decimal-to_string_loop (suc n) n [] (omega arith)

abbrev pub AllDigits : Text → Type 0
AllDigits = All (λ c. is_digit c ≡ true)

to_string_loop-AllDigits :
    (f n : ℕ) (acc : Text) → AllDigits acc → AllDigits (to_string_loop f n acc)
unfolding to_string_loop
to_string_loop-AllDigits zero n acc h = h
to_string_loop-AllDigits (suc f) n acc h =
    ground (arith, to_string_loop-AllDigits f (n / 10) ((48 + n % 10) ∷ acc))

pub to_string-AllDigits : (n : ℕ) → AllDigits (to_string n)
unfolding to_string
to_string-AllDigits n = to_string_loop-AllDigits (suc n) n [] tt

abbrev IsNonempty : Text → Type 0
IsNonempty s = is_empty s ≡ false

to_string_loop-IsNonempty :
    (f n : ℕ) (acc : Text) → IsNonempty acc → IsNonempty (to_string_loop f n acc)
unfolding to_string_loop
to_string_loop-IsNonempty zero n acc h = h
to_string_loop-IsNonempty (suc f) n acc h =
    ground (arith, to_string_loop-IsNonempty f (n / 10) ((48 + n % 10) ∷ acc))

to_string-IsNonempty : (n : ℕ) → IsNonempty (to_string n)
unfolding to_string
to_string-IsNonempty n = ground (arith, to_string_loop-IsNonempty n (n / 10) ((48 + n % 10) ∷ []))

take_while-AllDigits : (s : Text) → AllDigits s → take_while is_digit s ≡ s
take_while-AllDigits [] h = refl
take_while-AllDigits (c ∷ s) h = ground (arith, take_while-AllDigits s h.1)

stoi-AllDigits :
    (s : Text) → AllDigits s → IsNonempty s → decimal 0 s < 2 ^ 31 → stoi s ≡ ok (pos (decimal 0 s))
unfolding stoi
stoi-AllDigits [] h e b = cc
stoi-AllDigits (c ∷ s) h e b = ground (arith, take_while-AllDigits s h.1)

pub stoi-to_string : (n : ℕ) → n < 2 ^ 31 → stoi (to_string n) ≡ ok (pos n)
stoi-to_string n h =
    let d : decimal 0 (to_string n) ≡ n = decimal-to_string n in
    stoi-AllDigits (to_string n) (to_string-AllDigits n) (to_string-IsNonempty n) (rw d h)
    ∙ ap (λ k. ok (pos k)) d
