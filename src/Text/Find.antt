-- ===== src/Text/Find.antt =====
-- What `find` finds, and that more text behind a string does not move what was found in it.
use native.Mathlib.Nat.{zero-add, suc-add}
use cpp_programming.Base.{
  ℕ, zero, suc, ◌+◌, ◌≤◌, ◌≡◌, refl, ap, true, false, some, [], ◌∷◌, ◌++◌, arith, ◌==◌, ==_refl,
  length, take, drop, All, length-append,
}
use cpp_programming.Text.{Text, starts_with, find}

pub starts_with-length-le : (n s : Text) → starts_with n s ≡ true → length n ≤ length s
starts_with-length-le [] s h = omega arith
starts_with-length-le (c ∷ n) [] h = cc
starts_with-length-le (c ∷ n) (d ∷ s) h = ground (arith, starts_with-length-le n s)

pub starts_with-append :
    (n s t : Text) → length n ≤ length s → starts_with n (s ++ t) ≡ starts_with n s
starts_with-append [] s t h = refl
starts_with-append (c ∷ n) [] t h = absurd (omega arith)
starts_with-append (c ∷ n) (d ∷ s) t h = ground (arith, starts_with-append n s t)

-- The pattern stands whole within the string.
pub find-bound : (n s : Text) (p : ℕ) → find n s ≡ some p → p + length n ≤ length s
unfolding find
find-bound n [] p h = cc
find-bound n (c ∷ s) zero h = ground (arith, starts_with-length-le n (c ∷ s), find-bound n s 0)
find-bound n (c ∷ s) (suc p) h = ground (arith, starts_with-length-le n (c ∷ s), find-bound n s p)

pub find-append : (n s t : Text) (p : ℕ) → find n s ≡ some p → find n (s ++ t) ≡ some p
unfolding find
find-append n [] t p h = cc
find-append n (c ∷ s) t zero h =
    ground (arith, starts_with-append n (c ∷ s) t, starts_with-length-le n (c ∷ s))
find-append n (c ∷ s) t (suc p) h = ground (
  arith,
  starts_with-append n (c ∷ s) t,
  starts_with-length-le n (c ∷ s),
  find-append n s t p,
  find-bound n s p,
  length-append s t,
)

-- No byte of the string is `c`.
abbrev pub Lacks : ℕ → Text → Type 0
Lacks c = All (λ d. (c == d) ≡ false)

starts_with-prefix : (n t : Text) → starts_with n (n ++ t) ≡ true
starts_with-prefix [] t = refl
starts_with-prefix (c ∷ n) t = rw (==_refl c, starts_with-prefix n t)

drop-nil : (n : ℕ) → [] ≡ drop {A = ℕ} n []
drop-nil zero = refl
drop-nil (suc n) = refl

-- A pattern is found where it stands, behind text that lacks its first byte.
pub find-Lacks :
    (c : ℕ) (n l t : Text) → Lacks c l → find (c ∷ n) (l ++ c ∷ (n ++ t)) ≡ some (length l)
unfolding find
find-Lacks c n [] t h = rw (==_refl c, starts_with-prefix n t)
find-Lacks c n (d ∷ l) t h = rw (h.0, find-Lacks c n l t h.1)

pub take-length : (l t : Text) → take (length l) (l ++ t) ≡ l
take-length [] t = refl
take-length (c ∷ l) t = ap (λ s. c ∷ s) (take-length l t)

pub drop-length : (l t : Text) → drop (length l) (l ++ t) ≡ t
drop-length [] t = refl
drop-length (c ∷ l) t = drop-length l t

pub drop-drop : (m n : ℕ) (l : Text) → drop (m + n) l ≡ drop n (drop m l)
drop-drop zero n l = rw zero-add
drop-drop (suc m) n [] = rw suc-add (drop-nil n)
drop-drop (suc m) n (c ∷ l) = rw suc-add (drop-drop m n l)
