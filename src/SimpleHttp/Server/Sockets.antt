-- ===== src/SimpleHttp/Server/Sockets.antt =====
-- The map of the server's sockets: its order, and the ids in it.
use cpp_programming.Base.{
  ℕ, ◌<◌, ◌≡◌, sym, ◌∙◌, inl, inr, [], ◌∷◌, arith, ltb, ◌==◌, Bool-cases, All,
}
use cpp_programming.SimpleHttp.Server.{Sockets, insert, remove}

-- The descriptors rise, and ids other than 0 are distinct.
abbrev pub IsSorted : Sockets → Type 0
IsSorted [] = Unit
IsSorted ((g, j) ∷ s) = All (λ p. g < p.0) s × IsSorted s

abbrev pub Apart : ℕ → ℕ → Type 0
Apart i j = i ≡ j → i ≡ 0

abbrev pub IsDistinct : Sockets → Type 0
IsDistinct [] = Unit
IsDistinct ((g, j) ∷ s) = All (λ p. Apart p.1 j) s × IsDistinct s

pub All-insert {ℓ} :
    (P : ℕ × ℕ → Type ℓ) (fd id : ℕ) (s : Sockets) → P (fd, id) → All P s → All P (insert fd id s)
unfolding insert
All-insert P fd id [] h k = (h, tt)
All-insert P fd id ((g, j) ∷ s) h k =
    let r = All-insert P fd id s h k.1 in
    elim (Bool-cases (ltb fd g)) [
      | inl e ↦ rw e (h, k)
      | inr e ↦ elim (Bool-cases (fd == g)) [
        | inl f ↦ rw (e, f) (h, k.1)
        | inr f ↦ rw (e, f) (k.0, r)
      ]
    ]

pub All-remove {ℓ} : (P : ℕ × ℕ → Type ℓ) (fd : ℕ) (s : Sockets) → All P s → All P (remove fd s)
unfolding remove
All-remove P fd [] k = tt
All-remove P fd ((g, j) ∷ s) k =
    let r = All-remove P fd s k.1 in
    elim (Bool-cases (fd == g)) [ inl f ↦ rw f r | inr f ↦ rw f (k.0, r) ]

pub All-map {ℓ} :
    (P Q : ℕ × ℕ → Type ℓ) (s : Sockets) → ((p : ℕ × ℕ) → P p → Q p) → All P s → All Q s
All-map P Q [] f k = tt
All-map P Q (p ∷ s) f k = (f p k.0, All-map P Q s f k.1)

pub insert-IsSorted : (fd id : ℕ) (s : Sockets) → IsSorted s → IsSorted (insert fd id s)
unfolding insert
insert-IsSorted fd id [] h = (tt, tt)
insert-IsSorted fd id ((g, j) ∷ s) h =
    let r = insert-IsSorted fd id s h.1 in
    elim (Bool-cases (ltb fd g)) [
      | inl e ↦
          let l : fd < g = ground arith in
          rw e ((l, All-map (λ p. g < p.0) (λ p. fd < p.0) s (λ p k. omega arith) h.0), h)
      | inr e ↦ elim (Bool-cases (fd == g)) [
        | inl f ↦
            let q : g ≡ fd = ground arith in
            rw (e, f) (All-map (λ p. g < p.0) (λ p. fd < p.0) s (λ p k. omega (arith, q)) h.0, h.1)
        | inr f ↦
            let l : g < fd = ground arith in rw (e, f) (All-insert (λ p. g < p.0) fd id s l h.0, r)
      ]
    ]

pub remove-IsSorted : (fd : ℕ) (s : Sockets) → IsSorted s → IsSorted (remove fd s)
unfolding remove
remove-IsSorted fd [] h = tt
remove-IsSorted fd ((g, j) ∷ s) h =
    let r = remove-IsSorted fd s h.1 in
    elim (Bool-cases (fd == g)) [
      | inl f ↦ rw f r
      | inr f ↦ rw f (All-remove (λ p. g < p.0) fd s h.0, r)
    ]

pub insert-IsDistinct :
    (fd id : ℕ) (s : Sockets)
    → All (λ p. Apart p.1 id) s
    → IsDistinct s
    → IsDistinct (insert fd id s)
unfolding insert
insert-IsDistinct fd id [] k h = (tt, tt)
insert-IsDistinct fd id ((g, j) ∷ s) k h =
    let r = insert-IsDistinct fd id s k.1 h.1 in
    let n : Apart id j = λ e. e ∙ k.0 (sym e) in
    elim (Bool-cases (ltb fd g)) [
      | inl e ↦ rw e (k, h)
      | inr e ↦ elim (Bool-cases (fd == g)) [
        | inl f ↦ rw (e, f) (k.1, h.1)
        | inr f ↦ rw (e, f) (All-insert (λ p. Apart p.1 j) fd id s n h.0, r)
      ]
    ]

pub remove-IsDistinct : (fd : ℕ) (s : Sockets) → IsDistinct s → IsDistinct (remove fd s)
unfolding remove
remove-IsDistinct fd [] h = tt
remove-IsDistinct fd ((g, j) ∷ s) h =
    let r = remove-IsDistinct fd s h.1 in
    elim (Bool-cases (fd == g)) [
      | inl f ↦ rw f r
      | inr f ↦ rw f (All-remove (λ p. Apart p.1 j) fd s h.0, r)
    ]
