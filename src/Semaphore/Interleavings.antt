-- ===== src/Semaphore/Interleavings.antt =====
-- All interleavings of threads that acquire and release one semaphore.
use cpp_programming.Base.{
  ℕ, zero, suc, ◌+◌, ◌<◌, ◌≡◌, refl, ap, ◌∙◌, subst, ◌≢◌, Bool, List, [], ◌∷◌, ◌++◌, arith, All,
}
use cpp_programming.Base.Actions.{gives}
use cpp_programming.Semaphore.{
  Semaphore, new, Place, idle, waiting, holding, lost, acquiring, releasing, acquire_next,
  release_next, thread_step,
}

pub record System : Type 0 where
  pub semaphore : Semaphore
  pub threads : List Place

pub data Step (s : System) : System → Type 0 where
  thread :
      (spurious : Bool) (l r : List Place) (p p' : Place) {m : Semaphore}
      → s.threads ≡ l ++ p ∷ r
      → thread_step spurious p s.semaphore ≡ gives p' m
      → Step s (record { semaphore = m; threads = l ++ p' ∷ r })

pub data Reach (s : System) : System → Type 0 where
  here : Reach s s
  next : {t u : System} → Reach s t → Step t u → Reach s u

abbrev pub idles : ℕ → List Place
idles zero = []
idles (suc n) = idle ∷ idles n

-- A new semaphore and so many threads that have not called it.
abbrev pub started : ℕ → ℕ → System
started capacity n = record { semaphore = new capacity; threads = idles n }

-- The thread has acquired the semaphore and not yet given it back.
abbrev pub holds : Place → ℕ
holds idle = 0
holds waiting = 0
holds holding = 1
holds lost = 1
holds (acquiring e) = 0
holds (releasing e) = 1

abbrev pub held : List Place → ℕ
held [] = 0
held (p ∷ ps) = holds p + held ps

-- An exchange takes nothing off zero, and no release is without effect.
abbrev pub Sound : Place → Type 0
Sound idle = Unit
Sound waiting = Unit
Sound holding = Unit
Sound lost = ⊥
Sound (acquiring e) = 0 < e
Sound (releasing e) = Unit

held-append : (l r : List Place) → held (l ++ r) ≡ held l + held r
held-append [] r = omega arith
held-append (p ∷ l) r = omega (arith, held-append l r)

thread_step-moves :
    (b : Bool) (p p' : Place) (k : ℕ) (m m' : Semaphore)
    → m.remaining + (k + holds p) ≡ m.capacity
    → Sound p
    → thread_step b p m ≡ gives p' m'
    → (m'.remaining + (k + holds p') ≡ m'.capacity) × Sound p' × (m'.capacity ≡ m.capacity)
unfolding thread_step acquire_next release_next
thread_step-moves b idle p' k m m' h s e = ground arith
thread_step-moves b waiting p' k m m' h s e = ground arith
thread_step-moves b holding p' k m m' h s e = ground arith
thread_step-moves b lost p' k m m' h s e = elim s [ ]
thread_step-moves b (acquiring x) p' k m m' h s e = ground arith
thread_step-moves b (releasing x) p' k m m' h s e = ground arith

-- In between calls of others and of itself, a thread finds the semaphore as the invariant says.
pub record Inv (c : ℕ) (s : System) : Type 0 where
  pub fixed : s.semaphore.capacity ≡ c
  pub conserved : s.semaphore.remaining + held s.threads ≡ c
  pub sound : All Sound s.threads

Sound-around :
    (l r : List Place) (p p' : Place)
    → All Sound (l ++ p ∷ r)
    → Sound p × (Sound p' → All Sound (l ++ p' ∷ r))
Sound-around [] r p p' h = (h.0, λ k. (k, h.1))
Sound-around (q ∷ l) r p p' h = let (x, f) = Sound-around l r p p' h.1 in (x, λ k. (h.0, f k))

Step-Inv : (c : ℕ) {s t : System} → Step s t → Inv c s → Inv c t
Step-Inv c {s} (thread b l r p p' {m} q e) v =
    let (x, f) = Sound-around l r p p' (subst (All Sound) q v.sound) in
    let whole : s.semaphore.remaining + (held l + held r + holds p) ≡ s.semaphore.capacity =
      omega (arith, v.fixed, v.conserved, ap held q, held-append l (p ∷ r)) in
    let (y, z, w) = thread_step-moves b p p' (held l + held r) s.semaphore m whole x e in
    record {
      fixed = w ∙ v.fixed;
      conserved = omega (arith, y, w, v.fixed, held-append l (p' ∷ r));
      sound = f z;
    }

idles-Inv : (c n : ℕ) → (held (idles n) ≡ 0) × All Sound (idles n)
idles-Inv c zero = (refl, tt)
idles-Inv c (suc n) = let (x, y) = idles-Inv c n in (omega (arith, x), (tt, y))

Reach-Inv : (c n : ℕ) {s : System} → Reach (started c n) s → Inv c s
unfolding new
Reach-Inv c n here =
    let (x, y) = idles-Inv c n in record { fixed = refl; conserved = omega (arith, x); sound = y }
Reach-Inv c n (next r t) = Step-Inv c t (Reach-Inv c n r)

-- However threads that acquire the semaphore and then release it are interleaved, the value that
-- remains and the number of threads that hold the semaphore make up its capacity: never more
-- threads hold it than its capacity.
pub held-capacity :
    (c n : ℕ) {s : System} → Reach (started c n) s → s.semaphore.remaining + held s.threads ≡ c
held-capacity c n r = (Reach-Inv c n r).conserved

-- For such threads no release is without effect: `release` returns false to none of them.
pub never_lost :
    (c n : ℕ) {s : System} (l r : List Place) (p : Place)
    → Reach (started c n) s
    → s.threads ≡ l ++ p ∷ r
    → p ≢ lost
never_lost c n l r p t q e =
    let (x, f) = Sound-around l r p p (subst (All Sound) q (Reach-Inv c n t).sound) in
    subst Sound e x
