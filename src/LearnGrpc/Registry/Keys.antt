-- ===== src/LearnGrpc/Registry/Keys.antt =====
-- The keys that EventHandlerManager::add gives out.
use cpp_programming.Base.{
  ℕ, zero, suc, ◌+◌, ◌-◌, ◌%◌, ◌≤◌, ◌<◌, ◌≡◌, refl, sym, ap, ◌∙◌, subst, ◌≢◌, inl, inr, true, false,
  none, some, arith, ◌==◌, if◌then◌else◌, ==_iff, Bool-cases, Exn, runtime_error, Result, ok, err,
}
use cpp_programming.Base.Maps.{Dict, lookup, has, insert, lookup-insert, lookup-has-false}
use cpp_programming.LearnGrpc.Event.{half}
use cpp_programming.LearnGrpc.Registry.{Registry, add_loop, added, add}

ok-injective {ℓ} : {A : Type ℓ} {a b : A} → ok a ≡ ok b → a ≡ b
ok-injective e = cc

false_ne_true : false ≢ true
false_ne_true e = cc

module _ {ℓ} {H : Type ℓ} where
  add_loop-ok :
      (f old last key : ℕ) (m : Dict H)
      → add_loop f old m last ≡ ok key
      → (has key m ≡ false) × (key < half)
  unfolding add_loop
  add_loop-ok zero old last key m e = cc
  add_loop-ok (suc f) old last key m e =
      let next = (last + 1) % half in
      let small : next < half = omega arith in
      elim (Bool-cases (has next m)) [
        | inr a ↦ ground (arith, a, small)
        | inl a ↦ elim (Bool-cases (next == old)) [
          | inl b ↦ ground (arith, a, b)
          | inr b ↦
              let q : add_loop f old m next ≡ ok key = ground (arith, a, b) in
              add_loop-ok f old next key m q
        ]
      ]

  -- The loop that starts `d` rounds before `old` and fails has enough fuel, and has met handlers at
  -- all those keys.
  add_loop-err :
      (f d old last : ℕ) (x : Exn) (m : Dict H)
      → old < half
      → last < half
      → 1 ≤ d
      → d ≤ half
      → (last + d) % half ≡ old
      → d ≤ f
      → add_loop f old m last ≡ err x
      → (x ≡ runtime_error) × ((i : ℕ) → 1 ≤ i → i ≤ d → has ((last + i) % half) m ≡ true)
  unfolding add_loop
  add_loop-err zero d old last x m a b c g h k e = absurd (omega arith)
  add_loop-err (suc f) d old last x m a b c g h k e =
      let next = (last + 1) % half in
      elim (Bool-cases (has next m)) [
        | inr p ↦ absurd (ground (arith, p))
        | inl p ↦ elim (Bool-cases (next == old)) [
          | inl q ↦
              let v : next ≡ old = (==_iff next old).0 q in
              let w : d ≡ 1 = omega (arith, v) in
              (
                ground (arith, p, q),
                λ i l u.
                    let z : i ≡ 1 = omega (arith, w) in
                    subst (λ j. has ((last + j) % half) m ≡ true) (sym z) p,
              )
          | inr q ↦
              let n : next ≢ old = λ v. false_ne_true (sym q ∙ (==_iff next old).1 v) in
              let l : 1 < d = omega (arith, n) in
              let r : add_loop f old m next ≡ err x = ground (arith, p, q) in
              let (t, u) =
                add_loop-err f (d - 1) old next x m a (omega arith) (omega (arith, l)) (omega arith)
                  (omega (arith, l)) (omega arith) r in
              (
                t,
                λ i y z. elim (Bool-cases (i == 1)) [
                  | inl o ↦
                      let o' : i ≡ 1 = (==_iff i 1).0 o in
                      subst (λ j. has ((last + j) % half) m ≡ true) (sym o') p
                  | inr o ↦
                      let o' : i ≢ 1 = λ v. false_ne_true (sym o ∙ (==_iff i 1).1 v) in
                      let same : (next + (i - 1)) % half ≡ (last + i) % half = omega (arith, o') in
                      subst (λ j. has j m ≡ true) same
                        (u (i - 1) (omega (arith, o')) (omega (arith, o')))
                ],
              )
        ]
      ]

  added-ok :
      (h : H) (r r' : Registry H) (o : Result ℕ) (key : ℕ)
      → added h r o ≡ ok (key, r')
      → (o ≡ ok key) × (r' ≡ record { handlers = insert key h r.handlers; last_key = key })
  added-ok h r r' (ok k) key e =
      let q : k ≡ key = cc in
      (
        ap ok q,
        sym (ap (λ (p : ℕ × Registry H). p.1) (ok-injective e))
            ∙ ap (λ c. record { handlers = insert c h r.handlers; last_key = c }) q,
      )
  added-ok h r r' (err x) key e = cc

  added-err : (h : H) (r : Registry H) (o : Result ℕ) (x : Exn) → added h r o ≡ err x → o ≡ err x
  added-err h r (ok k) x e = cc
  added-err h r (err y) x e = cc

  -- `add` gives the handler a key of 32 bits that no other handler has, and changes no other.
  pub add-fresh :
      (h : H) (r r' : Registry H) (key : ℕ)
      → add h r ≡ ok (key, r')
      → (lookup key r.handlers ≡ none)
        × (key < half)
        × ((j : ℕ) → lookup j r'.handlers ≡ (if key == j then some h else lookup j r.handlers))
  unfolding add
  add-fresh h r r' key e =
      let (q, w) = added-ok h r r' (add_loop half r.last_key r.handlers r.last_key) key e in
      let (a, b) = add_loop-ok half r.last_key r.last_key key r.handlers q in
      (
        lookup-has-false key r.handlers a,
        b,
        λ j. ap (λ (t : Registry H). lookup j t.handlers) w ∙ lookup-insert j key h r.handlers,
      )

  -- `add` throws in one case alone, that all keys of 32 bits are in use; its loop ends.
  add-full :
      (h : H) (r : Registry H) (x : Exn)
      → r.last_key < half
      → add h r ≡ err x
      → (x ≡ runtime_error) × ((key : ℕ) → key < half → has key r.handlers ≡ true)
  unfolding add
  add-full h r x b e =
      let q = added-err h r (add_loop half r.last_key r.handlers r.last_key) x e in
      let (t, u) =
        add_loop-err half half r.last_key r.last_key x r.handlers b b (omega arith) (omega arith)
          (omega arith) (omega arith) q in
      (
        t,
        λ key small.
            let i = (key + half - r.last_key - 1) % half + 1 in
            let same : (r.last_key + i) % half ≡ key = omega arith in
            subst (λ k. has k r.handlers ≡ true) same (u i (omega arith) (omega arith)),
      )

  result_or :
      (h : H) (r : Registry H) (o : Result (ℕ × Registry H))
      → ((x : Exn) → o ≢ err x)
      → (k : ℕ) × (r' : Registry H) × (o ≡ ok (k, r'))
  result_or h r (ok p) n = (p.0, p.1, refl)
  result_or h r (err x) n = absurd (n x refl)

  -- While some key of 32 bits is free, `add` ends and gives a key: its loop of 2^32 rounds at most
  -- does not run out, and does not take the map for full.
  pub add-has :
      (h : H) (r : Registry H) (key : ℕ)
      → r.last_key < half
      → key < half
      → has key r.handlers ≡ false
      → (k : ℕ) × (r' : Registry H) × (add h r ≡ ok (k, r'))
  add-has h r key b small free =
      result_or h r (add h r) (λ x e. false_ne_true (sym free ∙ (add-full h r x b e).1 key small))
