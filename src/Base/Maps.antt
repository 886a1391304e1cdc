-- ===== src/Base/Maps.antt =====
-- Dictionaries with numbers as keys, as association lists in the order of insertion.
use Prim.Native.Nat.{ℕ}
use mathlib.Core.Path.{◌≡◌, refl}
use mathlib.Core.Bool.{Bool, true, false}
use mathlib.Core.List.{List, [], ◌∷◌}
use mathlib.Core.Option.{Option, none, some}
use mathlib.Core.Logic.{inl, inr}
use native.Mathlib.Omega.{arith}
use cpp_programming.Base.Tests.{ltb, ◌==◌, if◌then◌else◌, Option-cases}

abbrev pub Dict {ℓ} : Type ℓ → Type ℓ
Dict V = List (ℕ × V)

module _ {ℓ} {V : Type ℓ} where
  unfoldable pub lookup : ℕ → Dict V → Option V
  lookup k [] = none
  lookup k ((j, v) ∷ m) = if j == k then some v else lookup k m

  unfoldable pub has : ℕ → Dict V → Bool
  unfolding lookup
  has k m = elim (lookup k m) [ none ↦ false | some v ↦ true ]

  -- Puts the value at the key, in the place of one that is there.
  unfoldable pub insert : ℕ → V → Dict V → Dict V
  insert k v [] = (k, v) ∷ []
  insert k v ((j, w) ∷ m) = let rest = insert k v m in if j == k then (k, v) ∷ m else (j, w) ∷ rest

  -- The same in a map whose keys are in order.
  unfoldable pub insert_sorted : ℕ → V → Dict V → Dict V
  insert_sorted k v [] = (k, v) ∷ []
  insert_sorted k v ((j, w) ∷ m) =
      let rest = insert_sorted k v m in
      if ltb k j then (k, v) ∷ (j, w) ∷ m else if j == k then (k, v) ∷ m else (j, w) ∷ rest

  unfoldable pub erase : ℕ → Dict V → Dict V
  erase k [] = []
  erase k ((j, v) ∷ m) = let rest = erase k m in if j == k then rest else (j, v) ∷ rest

  pub lookup-insert :
      (j k : ℕ) (v : V) (m : Dict V)
      → lookup j (insert k v m) ≡ (if k == j then some v else lookup j m)
  unfolding lookup insert
  lookup-insert j k v [] = refl
  lookup-insert j k v ((i, w) ∷ m) = ground (arith, lookup-insert j k v m)

  pub lookup-insert_sorted :
      (j k : ℕ) (v : V) (m : Dict V)
      → lookup j (insert_sorted k v m) ≡ (if k == j then some v else lookup j m)
  unfolding lookup insert_sorted
  lookup-insert_sorted j k v [] = refl
  lookup-insert_sorted j k v ((i, w) ∷ m) = ground (arith, lookup-insert_sorted j k v m)

  pub lookup-erase :
      (j k : ℕ) (m : Dict V) → lookup j (erase k m) ≡ (if k == j then none else lookup j m)
  unfolding lookup erase
  lookup-erase j k [] = ground arith
  lookup-erase j k ((i, w) ∷ m) = ground (arith, lookup-erase j k m)

  pub lookup-has-false : (k : ℕ) (m : Dict V) → has k m ≡ false → lookup k m ≡ none
  unfolding has
  lookup-has-false k m h = ground arith

  pub lookup-has-true : (k : ℕ) (m : Dict V) → has k m ≡ true → (v : V) × (lookup k m ≡ some v)
  unfolding has
  lookup-has-true k m h = elim (Option-cases (lookup k m)) [
    | inl e ↦ absurd (ground arith)
    | inr p ↦ p
  ]

  pub has-some : (k : ℕ) (m : Dict V) (v : V) → lookup k m ≡ some v → has k m ≡ true
  unfolding has
  has-some k m v e = ground arith

  pub has-none : (k : ℕ) (m : Dict V) → lookup k m ≡ none → has k m ≡ false
  unfolding has
  has-none k m e = ground arith
