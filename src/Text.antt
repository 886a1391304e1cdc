-- ===== src/Text.antt =====
-- `std::string` as the list of its bytes, with the functions of the standard library that the
-- sources call on it: `find`, `isspace`, `to_string`, `stoi`, and the appending of a C string.
pub mod Calls
pub mod Find
pub mod Literals
pub mod Numbers
use cpp_programming.Base.{
  ℕ, zero, suc, ◌+◌, ◌-◌, ◌*◌, ◌/◌, ◌%◌, ◌^◌, ◌≤◌, ◌≡◌, refl, ap, ◌↔◌, Bool, true, false, ◌&&◌,
  ◌||◌, Option, none, some, List, [], ◌∷◌, ◌++◌, arith, ltb, leb, ◌==◌, if◌then◌else◌, ok, err,
  Result, Exn, invalid_argument, out_of_range, is_empty,
}

abbrev pub Text : Type 0
Text = List ℕ

-- `operator==` on strings.
abbrev pub text_eq : Text → Text → Bool
text_eq [] [] = true
text_eq [] (d ∷ t) = false
text_eq (c ∷ s) [] = false
text_eq (c ∷ s) (d ∷ t) = (c == d) && text_eq s t

-- The equality test on strings decides equality.
pub text_eq_iff : (s t : Text) → (text_eq s t ≡ true) ↔ (s ≡ t)
text_eq_iff [] [] = (λ _. refl, λ _. refl)
text_eq_iff [] (d ∷ t) = (λ e. cc, λ e. cc)
text_eq_iff (c ∷ s) [] = (λ e. cc, λ e. cc)
text_eq_iff (c ∷ s) (d ∷ t) = ground (arith, text_eq_iff s t)

abbrev pub starts_with : Text → Text → Bool
starts_with [] s = true
starts_with (c ∷ n) [] = false
starts_with (c ∷ n) (d ∷ s) = (c == d) && starts_with n s

abbrev shift : Option ℕ → Option ℕ
shift none = none
shift (some p) = some (suc p)

-- `s.find(n)`: the first position of `n` in `s`; `none` is `npos`. No caller searches for "".
unfoldable pub find : Text → Text → Option ℕ
find n [] = none
find n (c ∷ s) = if starts_with n (c ∷ s) then some 0 else shift (find n s)

-- `isspace` in the "C" locale.
abbrev pub is_space : ℕ → Bool
is_space c = (c == 32) || (leb 9 c && leb c 13)

abbrev pub is_digit : ℕ → Bool
is_digit c = leb 48 c && leb c 57

abbrev pub drop_while : (ℕ → Bool) → Text → Text
drop_while p [] = []
drop_while p (c ∷ s) = if p c then drop_while p s else c ∷ s

abbrev pub take_while : (ℕ → Bool) → Text → Text
take_while p [] = []
take_while p (c ∷ s) = if p c then c ∷ take_while p s else []

-- What `s += p` appends for a `char* p` into a buffer of these bytes: those before the first NUL.
-- `none`: there is no NUL in the buffer, and the call reads past its end.
unfoldable pub c_string : Text → Option Text
c_string [] = none
c_string (c ∷ s) =
    if c == 0 then some [] else elim (c_string s) [ none ↦ none | some t ↦ some (c ∷ t) ]

-- An `int` that `stoi` returns: `negsuc n` is -(n + 1).
pub data ℤ : Type 0 where
  pos : ℕ → ℤ
  negsuc : ℕ → ℤ

-- The conversion of an `int` to an unsigned type of `w` bits.
unfoldable pub to_unsigned : ℕ → ℤ → ℕ
to_unsigned w (pos n) = n % 2 ^ w
to_unsigned w (negsuc n) = 2 ^ w - 1 - n % 2 ^ w

unfoldable pub decimal : ℕ → Text → ℕ
decimal acc [] = acc
decimal acc (c ∷ s) = decimal (acc * 10 + (c - 48)) s

abbrev negate : ℕ → ℤ
negate zero = pos 0
negate (suc n) = negsuc n

abbrev stoi_range : Bool → ℕ → Result ℤ
stoi_range true n = if leb n (2 ^ 31) then ok (negate n) else err out_of_range
stoi_range false n = if ltb n (2 ^ 31) then ok (pos n) else err out_of_range

abbrev stoi_digits : Bool → Text → Result ℤ
stoi_digits minus ds = if is_empty ds then err invalid_argument else stoi_range minus (decimal 0 ds)

abbrev stoi_sign : Text → Result ℤ
stoi_sign [] = err invalid_argument
stoi_sign (c ∷ s) =
    if c == 45
    then stoi_digits true (take_while is_digit s)
    else if c == 43
    then stoi_digits false (take_while is_digit s)
    else stoi_digits false (take_while is_digit (c ∷ s))

-- `std::stoi(s)`: white space, a sign, digits, and whatever follows.
unfoldable pub stoi : Text → Result ℤ
unfolding decimal
stoi s = stoi_sign (drop_while is_space s)

unfoldable pub to_string_loop : ℕ → ℕ → Text → Text
to_string_loop zero n acc = acc
to_string_loop (suc f) n acc =
    let rest = to_string_loop f (n / 10) ((48 + n % 10) ∷ acc) in
    if ltb n 10 then (48 + n) ∷ acc else rest

-- `std::to_string` of an unsigned number.
unfoldable pub to_string : ℕ → Text
unfolding to_string_loop
to_string n = to_string_loop (suc n) n []
