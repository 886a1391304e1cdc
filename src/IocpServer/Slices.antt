-- ===== src/IocpServer/Slices.antt =====
-- Slices of a buffer.
use cpp_programming.Base.{
  ℕ, zero, suc, ◌+◌, ◌≡◌, refl, sym, ap, ◌∙◌, [], ◌∷◌, ◌++◌, arith, take, drop,
}
use cpp_programming.Text.{Text}

suc_add : (n m : ℕ) → suc n + m ≡ suc (n + m)
suc_add n m = omega arith

pub drop_add : (off n : ℕ) (b : Text) → drop n (drop off b) ≡ drop (off + n) b
drop_add zero n b = ap (λ k. drop k b) (omega arith)
drop_add (suc off) zero [] = ap (λ k. drop k []) (sym (suc_add off 0))
drop_add (suc off) (suc n) [] = ap (λ k. drop k []) (sym (suc_add off (suc n)))
drop_add (suc off) n (x ∷ b) = drop_add off n b ∙ ap (λ k. drop k (x ∷ b)) (sym (suc_add off n))

take_split_suc :
    (n m k : ℕ) (b : Text) → k ≡ n + m → take n (take k b) ++ take m (drop n b) ≡ take k b
take_split_suc zero m k b e = ap (λ i. take i b) (omega (arith, e))
take_split_suc (suc n) m zero b e = absurd (omega (arith, e))
take_split_suc (suc n) zero (suc k) [] e = refl
take_split_suc (suc n) (suc m) (suc k) [] e = refl
take_split_suc (suc n) m (suc k) (x ∷ b) e =
    ap (λ t. x ∷ t) (take_split_suc n m k b (omega (arith, e)))

-- A slice falls into the first of its bytes and the slice of the others.
pub slice_split :
    (off n m len : ℕ) (b : Text)
    → len ≡ n + m
    → take n (take len (drop off b)) ++ take m (drop (off + n) b) ≡ take len (drop off b)
slice_split off n m len b e =
    ap (λ t. take n (take len (drop off b)) ++ take m t) (sym (drop_add off n b))
    ∙ take_split_suc n m len (drop off b) e

pub take_all : (len : ℕ) (b : Text) → take len (take len b) ≡ take len b
take_all zero b = refl
take_all (suc len) [] = refl
take_all (suc len) (x ∷ b) = ap (λ t. x ∷ t) (take_all len b)
