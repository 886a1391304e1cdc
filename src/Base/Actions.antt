-- ===== src/Base/Actions.antt =====
-- Functions that change a state, return a value, or throw an exception with the state as it is
-- then.
use cpp_programming.Base.Exceptions.{Exn}
use cpp_programming.Base.Tests.{if◌then◌else◌}
use mathlib.Core.Bool.{Bool, true, false}
use mathlib.Core.Path.{◌≡◌, refl}

pub data Reply {ℓ κ} (S : Type ℓ) (A : Type κ) : Type (ℓ ⊔ κ) where
  gives : A → S → Reply S A
  raises : Exn → S → Reply S A

abbrev pub Action {ℓ κ} : Type ℓ → Type κ → Type (ℓ ⊔ κ)
Action S A = S → Reply S A

abbrev pub give {ℓ κ} : {S : Type ℓ} {A : Type κ} → A → Action S A
give a s = gives a s

abbrev pub raise {ℓ κ} : {S : Type ℓ} {A : Type κ} → Exn → Action S A
raise e s = raises e s

abbrev pub and_then {ℓ κ μ} :
    {S : Type ℓ} {A : Type κ} {B : Type μ} → Reply S A → (A → Action S B) → Reply S B
and_then (gives a s) f = f a s
and_then (raises e s) f = raises e s

-- The next action, for a `do` block.
infixl 5 ◌>>=◌ ◌>>◌
abbrev pub ◌>>=◌ {ℓ κ μ} :
    {S : Type ℓ} {A : Type κ} {B : Type μ} → Action S A → (A → Action S B) → Action S B
◌>>=◌ m f s = and_then (m s) f

abbrev pub ◌>>◌ {ℓ κ μ} :
    {S : Type ℓ} {A : Type κ} {B : Type μ} → Action S A → Action S B → Action S B
◌>>◌ m k s = and_then (m s) (λ _. k)

-- `if (b) { act }`.
abbrev pub when {ℓ} : {S : Type ℓ} → Bool → Action S (Unit {0}) → Action S (Unit {0})
when true act s = act s
when false act s = gives tt s

-- `try { act } catch (...) { log }`: what the action did before it threw stays done.
abbrev pub swallow {ℓ κ} : {S : Type ℓ} {A : Type κ} → Reply S A → Reply S (Unit {0})
swallow (gives a s) = gives tt s
swallow (raises e s) = gives tt s

abbrev pub try_log {ℓ κ} : {S : Type ℓ} {A : Type κ} → Action S A → Action S (Unit {0})
try_log act s = swallow (act s)

-- The state after an action, whichever way it ended.
abbrev pub state_of {ℓ κ} : {S : Type ℓ} {A : Type κ} → Reply S A → S
state_of (gives a s) = s
state_of (raises e s) = s

-- If the action gives a value, the value and the state are as `P` says.
abbrev pub Gives {ℓ κ μ} : {S : Type ℓ} {A : Type κ} → (A → S → Type μ) → Reply S A → Type μ
Gives P (gives a s) = P a s
Gives P (raises e s) = Unit

pub Gives-bind {ℓ κ μ ν} :
    {S : Type ℓ} {A : Type κ} {B : Type μ} (Q : B → S → Type ν) (r : Reply S A) (f : A → Action S B)
    → ((a : A) (s : S) → r ≡ gives a s → Gives Q (f a s))
    → Gives Q (and_then r f)
Gives-bind Q (gives a s) f k = k a s refl
Gives-bind Q (raises e s) f k = tt

pub Gives-map {ℓ κ μ ν} :
    {S : Type ℓ} {A : Type κ} (P : A → S → Type μ) (Q : A → S → Type ν) (r : Reply S A)
    → ((a : A) (s : S) → P a s → Q a s)
    → Gives P r
    → Gives Q r
Gives-map P Q (gives a s) f h = f a s h
Gives-map P Q (raises e s) f h = tt

pub Gives-if {ℓ κ ν} :
    {S : Type ℓ} {A : Type κ} (Q : A → S → Type ν) (b : Bool) (f g : Action S A) (s : S)
    → Gives Q (f s)
    → Gives Q (g s)
    → Gives Q ((if b then f else g) s)
Gives-if Q true f g s h k = h
Gives-if Q false f g s h k = k
