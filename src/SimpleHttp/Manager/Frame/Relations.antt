-- ===== src/SimpleHttp/Manager/Frame/Relations.antt =====
-- Relations between the manager before an action and after it, and the actions that keep them.
use cpp_programming.Base.{
  ℕ, ◌+◌, ◌≡◌, refl, ◌∙◌, Bool, true, false, List, [], ◌∷◌, ◌++◌, arith, ◌==◌,
}
use cpp_programming.Base.Actions.{
  Reply, gives, raises, and_then, ◌>>=◌, when, swallow, try_log, state_of,
}
use cpp_programming.SimpleHttp.Connection.{Manager, Act, read_event_happened}

abbrev pub bit : Bool → ℕ
bit true = 1
bit false = 0

-- How often a connection stands in a queue.
abbrev pub count : ℕ → List ℕ → ℕ
count c [] = 0
count c (d ∷ q) = bit (c == d) + count c q

pub count-append : (c : ℕ) (p q : List ℕ) → count c (p ++ q) ≡ count c p + count c q
count-append c [] q = omega arith
count-append c (d ∷ p) q = omega (arith, count-append c p q)

-- For the connection at `c`: the reading side is as it was, and it has no new reason to be read and
-- no other error.
abbrev pub ReadStill : ℕ → Manager → Manager → Type 0
ReadStill c m m' =
    (m'.read_queue ≡ m.read_queue)
    × ((m'.heap c).is_reading ≡ (m.heap c).is_reading)
    × (read_event_happened (m'.heap c) ≡ true → read_event_happened (m.heap c) ≡ true)
    × ((m'.heap c).error_code ≡ (m.heap c).error_code)

-- The writing side is as it was too.
abbrev pub Still : ℕ → Manager → Manager → Type 0
Still c m m' =
    ReadStill c m m'
    × (m'.write_queue ≡ m.write_queue)
    × ((m'.heap c).is_writing ≡ (m.heap c).is_writing)

-- Or the connection has been put into the queue of writing as it was marked.
abbrev pub Quiet : ℕ → Manager → Manager → Type 0
Quiet c m m' =
    ReadStill c m m'
    × (count c m'.write_queue + bit (m.heap c).is_writing
        ≡ count c m.write_queue + bit (m'.heap c).is_writing)

pub Still-refl : (c : ℕ) (m : Manager) → Still c m m
Still-refl c m = ((refl, refl, (λ h. h), refl), refl, refl)

pub Still-trans : (c : ℕ) (m n o : Manager) → Still c m n → Still c n o → Still c m o
Still-trans c m n o h k =
    ((k.0.0 ∙ h.0.0, k.0.1 ∙ h.0.1, (λ e. h.0.2 (k.0.2 e)), k.0.3 ∙ h.0.3), k.1 ∙ h.1, k.2 ∙ h.2)

pub Quiet-trans : (c : ℕ) (m n o : Manager) → Quiet c m n → Quiet c n o → Quiet c m o
Quiet-trans c m n o h k =
    ((k.0.0 ∙ h.0.0, k.0.1 ∙ h.0.1, (λ e. h.0.2 (k.0.2 e)), k.0.3 ∙ h.0.3), omega (arith, h.1, k.1))

pub Still-Quiet : (c : ℕ) (m n : Manager) → Still c m n → Quiet c m n
Still-Quiet c m n h = (h.0, ground arith)

-- The action relates the state before it and after it, whichever way it ends.
pub record Keeps {ℓ} {A : Type ℓ} (R : Manager → Manager → Type 0) (act : Act A) : Type 0 where
  pub keeps : (m : Manager) → R m (state_of (act m))

module _ (R : Manager → Manager → Type 0) (trans : (m n o : Manager) → R m n → R n o → R m o) where
  keeps-reply {ℓ κ} :
      {A : Type ℓ} {B : Type κ} (m : Manager) (r : Reply Manager A) (f : A → Act B)
      → R m (state_of r)
      → ((a : A) → Keeps R (f a))
      → R m (state_of (and_then r f))
  keeps-reply m (gives a n) f h k = trans m n (state_of (f a n)) h ((k a).keeps n)
  keeps-reply m (raises e n) f h k = h

  pub Keeps-bind {ℓ κ} :
      {A : Type ℓ} {B : Type κ} (act : Act A) (f : A → Act B)
      → Keeps R act
      → ((a : A) → Keeps R (f a))
      → Keeps R (act >>= f)
  Keeps-bind act f h k = record { keeps = λ m. keeps-reply m (act m) f (h.keeps m) k }

  pub Keeps-when :
      (b : Bool) (act : Act (Unit {0}))
      → ((m : Manager) → R m m)
      → Keeps R act
      → Keeps R (when b act)
  Keeps-when true act r h = record { keeps = h.keeps }
  Keeps-when false act r h = record { keeps = r }

  keeps-swallow {ℓ} :
      {A : Type ℓ} (m : Manager) (r : Reply Manager A)
      → R m (state_of r)
      → R m (state_of (swallow r))
  keeps-swallow m (gives a n) h = h
  keeps-swallow m (raises e n) h = h

  pub Keeps-try_log {ℓ} : {A : Type ℓ} (act : Act A) → Keeps R act → Keeps R (try_log act)
  Keeps-try_log act h = record { keeps = λ m. keeps-swallow m (act m) (h.keeps m) }
