-- ===== src/IocpServer/Fresh.antt =====
-- The ids that createClientContext tries.
use cpp_programming.Base.{
  ℕ, zero, suc, ◌+◌, ◌%◌, ◌^◌, ◌≤◌, ◌<◌, pred, ◌≡◌, refl, ap, ◌∙◌, subst, ◌≢◌, ◌⊎◌, inl, inr, Bool,
  true, false, ◌||◌, none, List, [], ◌∷◌, arith, ◌==◌, if◌then◌else◌, ==_iff, Bool-cases, length,
  ok,
}
use cpp_programming.Base.Actions.{gives}
use cpp_programming.Base.Maps.{Dict, lookup, has, insert, lookup-has-false}
use cpp_programming.IocpServer.Contexts.{
  ClientContext, new_context, Port, id_loop, register, create_client_context,
}

abbrev member : ℕ → List ℕ → Bool
member k [] = false
member k (x ∷ xs) = (x == k) || member k xs

abbrev without : ℕ → List ℕ → List ℕ
without k [] = []
without k (x ∷ xs) = if x == k then without k xs else x ∷ without k xs

member-without : (j k : ℕ) (xs : List ℕ) → (k == j) ≡ false → member j (without k xs) ≡ member j xs
member-without j k [] n = refl
member-without j k (x ∷ xs) n = ground (arith, member-without j k xs n)

length-without : (k : ℕ) (xs : List ℕ) → length (without k xs) ≤ length xs
length-without k [] = omega arith
length-without k (x ∷ xs) = ground (arith, length-without k xs)

length-without-member :
    (k : ℕ) (xs : List ℕ) → member k xs ≡ true → length (without k xs) < length xs
length-without-member k [] h = absurd cc
length-without-member k (x ∷ xs) h = ground (arith, length-without k xs, length-without-member k xs)

-- As many numbers that follow each other in 32 bits as stand in a list.
follow-length :
    (f start : ℕ) (xs : List ℕ)
    → f ≤ 2 ^ 32
    → ((i : ℕ) → i < f → member ((start + i) % 2 ^ 32) xs ≡ true)
    → f ≤ length xs
follow-length zero start xs b h = omega arith
follow-length (suc f) start xs b h =
    let k = (start + f) % 2 ^ 32 in
    let shorter = length-without-member k xs (h f (omega arith)) in
    let rest = follow-length f start (without k xs) (omega arith) (λ i l.
      let apart : k ≢ (start + i) % 2 ^ 32 = λ e. absurd (omega (arith, e)) in
      let differ : (k == (start + i) % 2 ^ 32) ≡ false = ground (arith, apart) in
      member-without ((start + i) % 2 ^ 32) k xs differ ∙ h i (omega arith)) in
    omega (arith, shorter, rest)

module _ {ℓ} {V : Type ℓ} where
  abbrev keys : Dict V → List ℕ
  keys [] = []
  keys ((k, v) ∷ m) = k ∷ keys m

  member-keys : (k : ℕ) (m : Dict V) → member k (keys m) ≡ has k m
  unfolding has lookup
  member-keys k [] = refl
  member-keys k ((j, v) ∷ m) = ground (arith, member-keys k m)

  length-keys : (m : Dict V) → length (keys m) ≡ length m
  length-keys [] = refl
  length-keys ((k, v) ∷ m) = ap suc (length-keys m)

abbrev used : Dict ClientContext → ℕ → Bool
used m id = has id m || (id == 1)

member-used : (m : Dict ClientContext) (id : ℕ) → used m id ≡ true → member id (1 ∷ keys m) ≡ true
member-used m id h = ground (arith, h, member-keys id m)

-- The loop finds an id, or all the ids that it has tried are in use.
id_loop-cases :
    (f id : ℕ) (m : Dict ClientContext)
    → id < 2 ^ 32
    → ((k : ℕ) × (id_loop f m id ≡ ok k) × (used m k ≡ false) × (k < 2 ^ 32))
      ⊎ ((i : ℕ) → i < f → used m ((id + i) % 2 ^ 32) ≡ true)
unfolding id_loop
id_loop-cases zero id m b = inr (λ i l. absurd (omega arith))
id_loop-cases (suc f) id m b = elim (Bool-cases (used m id)) [
  | inr e ↦ inl (id, rw (id_loop, e) refl, e, b)
  | inl e ↦ elim (id_loop-cases f ((id + 1) % 2 ^ 32) m (omega arith)) [
    | inl (k, q, u, l) ↦ inl (k, rw (id_loop, e) q, u, l)
    | inr h ↦ inr (λ i l. elim (Bool-cases (i == 0)) [
      | inl z ↦
          let same : id ≡ (id + i) % 2 ^ 32 = omega (arith, (==_iff i 0).0 z) in
          subst (λ j. used m j ≡ true) same e
      | inr z ↦
          let p : i ≢ 0 = ground (arith, z) in
          let same : ((id + 1) % 2 ^ 32 + pred i) % 2 ^ 32 ≡ (id + i) % 2 ^ 32 = omega (arith, p) in
          subst (λ j. used m j ≡ true) same (h (pred i) (omega (arith, p)))
    ])
  ]
]

id_loop-ok :
    (id : ℕ) (m : Dict ClientContext)
    → id < 2 ^ 32
    → length m + 2 ≤ 2 ^ 32
    → (k : ℕ) × (id_loop (length m + 2) m id ≡ ok k) × (used m k ≡ false) × (k < 2 ^ 32)
id_loop-ok id m b room = elim (id_loop-cases (length m + 2) id m b) [
  | inl p ↦ p
  | inr h ↦
      let many =
        follow-length (length m + 2) id (1 ∷ keys m) room (λ i l. member-used m _ (h i l)) in
      absurd (omega (arith, many, length-keys m))
]

used-lookup :
    (m : Dict ClientContext) (id : ℕ) → used m id ≡ false → (lookup id m ≡ none) × (id ≢ 1)
used-lookup m id h =
    let a : has id m ≡ false = ground (arith, h) in
    (lookup-has-false id m a, λ e. absurd (ground (arith, h, e)))

-- While there are fewer than 2^32 - 1 contexts, createClientContext ends, and its context has an id
-- of 32 bits that no context in the map had, and that is not the key of the packets that wake a
-- thread.
pub create_client_context-gives :
    (socket : ℕ) (s : Port)
    → s.next_id < 2 ^ 32
    → length s.contexts + 2 ≤ 2 ^ 32
    → (id : ℕ) × (lookup id s.contexts ≡ none)
      × (id ≢ 1)
      × (id < 2 ^ 32)
      × (create_client_context socket s
          ≡ gives
              (new_context id socket)
              (record s { next_id = id; contexts = insert id (new_context id socket) s.contexts }))
unfolding create_client_context
create_client_context-gives socket s b room =
    let (id, e, u, l) = id_loop-ok s.next_id s.contexts b room in
    let (free, other) = used-lookup s.contexts id u in
    (id, free, other, l, ap (register socket s) e)
