-- ===== src/IocpServer/Pool.antt =====
-- The turns of the threads of the pool behind `stop`.
use cpp_programming.Base.{
  ℕ, suc, ◌+◌, ◌*◌, ◌≤◌, pred, ◌≡◌, refl, ap, ◌∙◌, subst, ◌⊎◌, inl, inr, true, List, [], ◌∷◌, ◌++◌,
  arith, length,
}
use cpp_programming.Base.Actions.{gives, state_of}
use cpp_programming.IocpServer.Service.{
  Thread, testing, waiting, done, Service, post_packets, stop_thread_pool, all_done, Turn, leaves,
  enters, wakes, serves,
}

abbrev waits : Thread → ℕ
waits testing = 0
waits waiting = 1
waits done = 0

abbrev pub weight : Thread → ℕ
weight testing = 1
weight waiting = 2
weight done = 0

abbrev pub sum : (Thread → ℕ) → List Thread → ℕ
sum f [] = 0
sum f (t ∷ ts) = f t + sum f ts

sum-append : (f : Thread → ℕ) (l r : List Thread) → sum f (l ++ r) ≡ sum f l + sum f r
sum-append f [] r = omega arith
sum-append f (t ∷ l) r = omega (arith, sum-append f l r)

-- What a change of one thread does to the sums.
sum_at :
    (f : Thread → ℕ) (ts l r : List Thread) (x : Thread)
    → ts ≡ l ++ x ∷ r
    → sum f ts ≡ sum f l + (f x + sum f r)
sum_at f ts l r x e = ap (sum f) e ∙ sum-append f l (x ∷ r)

-- Enough packets for the threads that wait.
record Served (s : Service) : Type 0 where
  is_stopped : s.stopped ≡ true
  enough : sum waits s.thread_pool ≤ s.packets

Turn-Served :
    (s t : Service)
    → Served s
    → Turn s t
    → Served t × (sum weight t.thread_pool + 1 ≡ sum weight s.thread_pool)
Turn-Served s _ v (leaves l r e q) =
    let a = sum_at waits s.thread_pool l r testing e in
    let b = sum_at weight s.thread_pool l r testing e in
    (
      record {
        is_stopped = v.is_stopped;
        enough = omega (arith, a, sum-append waits l (done ∷ r), v.enough);
      },
      omega (arith, b, sum-append weight l (done ∷ r)),
    )
Turn-Served s _ v (enters l r e q) = let x = v.is_stopped in absurd cc
Turn-Served s _ v (wakes l r k e q) =
    let a = sum_at waits s.thread_pool l r waiting e in
    let b = sum_at weight s.thread_pool l r waiting e in
    (
      record {
        is_stopped = v.is_stopped;
        enough = omega (arith, a, q, sum-append waits l (testing ∷ r), v.enough);
      },
      omega (arith, b, sum-append weight l (testing ∷ r)),
    )
Turn-Served s _ v (serves l r k e q) =
    let a = sum_at waits s.thread_pool l r waiting e in
    let b = sum_at weight s.thread_pool l r waiting e in
    (
      record {
        is_stopped = v.is_stopped;
        enough = omega (arith, a, sum-append waits l (testing ∷ r), v.enough);
      },
      omega (arith, b, sum-append weight l (testing ∷ r)),
    )

-- `n` turns of the threads; in between, operations may end.
pub data Turns (s : Service) : ℕ → Service → Type 0 where
  none_yet : Turns s 0 s
  meanwhile : {n : ℕ} {t : Service} (k : ℕ) → Turns s n t → Turns s n (record t { completions = k })
  one_more : {n : ℕ} {t u : Service} → Turns s n t → Turn t u → Turns s (suc n) u

Turns-Served :
    (s : Service) (n : ℕ) (t : Service)
    → Served s
    → Turns s n t
    → Served t × (sum weight t.thread_pool + n ≡ sum weight s.thread_pool)
Turns-Served s n t v none_yet = (v, omega arith)
Turns-Served s n _ v (meanwhile {t = t} k l) =
    let (a, b) = Turns-Served s n t v l in
    (record { is_stopped = a.is_stopped; enough = a.enough }, b)
Turns-Served s _ u v (one_more {n = n} {t = t} l k) =
    let (a, b) = Turns-Served s n t v l in
    let (c, d) = Turn-Served t u a k in (c, omega (arith, b, d))

-- The first thread that is not at its end.
not_done :
    (ts : List Thread)
    → (all_done ts ≡ true)
      ⊎ ((l : List Thread) × (x : Thread) × (r : List Thread) × (ts ≡ l ++ x ∷ r) × (1 ≤ weight x))
not_done [] = inl refl
not_done (done ∷ ts) = elim (not_done ts) [
  | inl e ↦ inl e
  | inr (l, x, r, e, h) ↦ inr (done ∷ l, x, r, ap (λ q. done ∷ q) e, h)
]
not_done (testing ∷ ts) = inr ([], testing, ts, refl, omega arith)
not_done (waiting ∷ ts) = inr ([], waiting, ts, refl, omega arith)

Served-Turn :
    (s : Service) → Served s → (all_done s.thread_pool ≡ true) ⊎ ((t : Service) × Turn s t)
Served-Turn s v = elim (not_done s.thread_pool) [
  | inl e ↦ inl e
  | inr (l, x, r, e, h) ↦ inr (go l x r e h)
]
  where
    go :
        (l : List Thread) (x : Thread) (r : List Thread)
        → s.thread_pool ≡ l ++ x ∷ r
        → 1 ≤ weight x
        → (t : Service) × Turn s t
    go l testing r e h = (_, leaves l r e v.is_stopped)
    go l waiting r e h =
        let a = sum_at waits s.thread_pool l r waiting e in
        let same : s.packets ≡ suc (pred s.packets) = omega (arith, a, v.enough) in
        (_, wakes l r (pred s.packets) e same)
    go l done r e h = absurd (omega (arith, h))

sum-waits : (ts : List Thread) → sum waits ts ≤ length ts
sum-waits [] = omega arith
sum-waits (testing ∷ ts) = omega (arith, sum-waits ts)
sum-waits (waiting ∷ ts) = omega (arith, sum-waits ts)
sum-waits (done ∷ ts) = omega (arith, sum-waits ts)

sum-weight : (ts : List Thread) → sum weight ts ≤ 2 * length ts
sum-weight [] = omega arith
sum-weight (testing ∷ ts) = omega (arith, sum-weight ts)
sum-weight (waiting ∷ ts) = omega (arith, sum-weight ts)
sum-weight (done ∷ ts) = omega (arith, sum-weight ts)

post_packets_all : (ts : List Thread) (n : ℕ) → post_packets ts [] n ≡ n + length ts
unfolding post_packets
post_packets_all [] n = omega arith
post_packets_all (t ∷ ts) n = omega (arith, post_packets_all ts (n + 1))

stopped-Served :
    (s t : Service)
    → s.stopped ≡ true
    → stop_thread_pool [] s ≡ gives tt t
    → Served t × (t.thread_pool ≡ s.thread_pool)
unfolding stop_thread_pool
stopped-Served s t e q =
    subst (λ u. Served u × (u.thread_pool ≡ s.thread_pool)) (ap state_of q)
      (
        record {
          is_stopped = e;
          enough = omega (arith, sum-waits s.thread_pool, post_packets_all s.thread_pool s.packets);
        },
        refl,
      )

-- Behind the posts of stopThreadPool, if all succeed and the threads have been told to stop, and
-- whatever operations end meanwhile, the threads of the pool have two turns each at most, and as
-- long as one of them is not at its end one of them has a turn: they all end, and the joins return.
pub stop_thread_pool-ends :
    (s t u : Service) (n : ℕ)
    → s.stopped ≡ true
    → stop_thread_pool [] s ≡ gives tt t
    → Turns t n u
    → (n ≤ 2 * length s.thread_pool)
      × ((all_done u.thread_pool ≡ true) ⊎ ((v : Service) × Turn u v))
stop_thread_pool-ends s t u n e q k =
    let (a, m) = stopped-Served s t e q in
    let (b, c) = Turns-Served t n u a k in
    let d = ap length m in (omega (arith, sum-weight t.thread_pool, c, d), Served-Turn u b)
